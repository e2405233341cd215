-- ===== src/Tests/Message.antt =====
-- The parsing of messages on a concrete library: a message is a multipart of one part, the rest of the
-- bytes behind the first.
use far_mail.Base.{
  ◌<◌, ◌≡◌, refl, ap, true, List, [], ◌∷◌, Option, none, some, arith, Elem, inl, inr, length,
}
use far_mail.Base.Int.{pos}
use far_mail.Text.{Bytes, codes, trim}
use far_mail.Ingress.Message.{
  Library, MediaType, ParsedMessage, Part, clamp_bytes, clamp_runes, append_body, decode_transfer,
  collect_leaf, each_part, collect_body_parts, body_limit, parse_message,
}
use far_mail.Ingress.Message.Bounded.{IsWithin, parse_message-IsWithin}

mixed : Bytes → Option MediaType
mixed [] = none
mixed (c ∷ s) =
    some (record { media_type = codes "Multipart/mixed"; boundary = codes "b"; name = [] })

rest_of : Bytes → List Part
rest_of [] = []
rest_of (c ∷ s) =
    record { content_type = []; transfer_encoding = []; disposition = codes "Attachment"; body = s }
    ∷ []

abbrev library : Library
library = record {
  read_message = λ raw. some (record {
    subject = codes " Hello ";
    from = codes "Bob <bob@b.org>";
    content_type = codes "m";
    transfer_encoding = [];
    body = raw;
  });
  decode_header = λ text. none;
  parse_addresses = λ text. some (codes "bob@b.org" ∷ []);
  parse_media_type = mixed;
  parts = λ boundary. rest_of;
  decode = λ encoding limit body. none;
  rune_width = λ s. 1;
  to_valid = λ s. s;
}

rest_of-inside :
    (boundary body : Bytes) (part : Part)
    → Elem part (rest_of body)
    → length part.body < length body
unfolding rest_of
rest_of-inside boundary [] part at = absurd at
rest_of-inside boundary (c ∷ s) part (inl e) = omega (arith, ap (λ (p : Part). length p.body) e)
rest_of-inside boundary (c ∷ s) part (inr at) = absurd at

parse_hello :
    parse_message library (codes "-Hello world") (codes "x@y") (pos 8)
    ≡ some (record {
      sender = codes "bob@b.org";
      subject = codes "Hello";
      body_text = codes "Hello wo";
      body_html = [];
      has_attachments = true;
    })
unfolding parse_message collect_body_parts each_part collect_leaf decode_transfer append_body
    clamp_bytes clamp_runes mixed rest_of trim
parse_hello = refl

parse_message-IsWithin_example :
    (m : ParsedMessage) × (parse_message library (codes "-Hello world") (codes "x@y") (pos 8)
      ≡ some m)
    × IsWithin (body_limit (pos 8)) m
parse_message-IsWithin_example =
    parse_message-IsWithin library (λ s. omega arith) rest_of-inside (codes "-Hello world")
      (codes "x@y") (pos 8)

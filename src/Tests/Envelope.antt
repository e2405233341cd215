-- ===== src/Tests/Envelope.antt =====
-- The error envelope on a concrete format: a payload is written as its message, its error and a count.
use far_mail.Base.{◌≡◌, refl, true, List, [], ◌∷◌, ◌++◌, some, arith}
use far_mail.Base.Eq.{bytes_eq}
use far_mail.Base.Assoc.{lookup, insert}
use far_mail.Text.{codes, trim, trim_space}
use far_mail.Envelope.{
  text, Payload, Format, write_header, write_header_now, write_body, enveloped, finish,
  starts_object, text_of,
}
use far_mail.Envelope.Hidden.{Action, head, bytes, act, act_all, server_error_hidden}

abbrev secret : Payload
secret = (codes "error", text (codes "pq: password=1")) ∷ (codes "details", text (codes "db7")) ∷ []

abbrev format : Format
format = record {
  unmarshal = λ s. some secret;
  marshal = λ p.
      some
        (text_of (lookup (codes "message") p) ++ codes "|" ++ text_of (lookup (codes "details") p));
  status_text = λ n. codes "text";
}

abbrev actions : List Action
actions = bytes (codes "pq: password=1}") ∷ bytes (codes "{error:") ∷ head 404 ∷ head 500 ∷ []

shown :
    format.marshal (enveloped format secret (act_all actions).status_code (codes "r1"))
    ≡ some (codes "internal server error|db7")
unfolding enveloped act_all act write_header write_header_now write_body lookup insert trim
shown = refl

is_object : starts_object (trim_space (act_all actions).body) ≡ true
unfolding act_all act write_header write_header_now write_body trim
is_object = refl

server_error_hidden_example :
    ((finish format (codes "r1") (act_all actions)).sent_status
      ≡ some (act_all actions).status_code)
    × ((finish format (codes "r1") (act_all actions)).sent_body ≡ codes "internal server error|db7")
    × (lookup (codes "message") (enveloped format secret (act_all actions).status_code (codes "r1"))
        ≡ some (text (codes "internal server error")))
    × (lookup (codes "error") (enveloped format secret (act_all actions).status_code (codes "r1"))
        ≡ some (text (codes "internal server error")))
    × (lookup
          (codes "error_code")
          (enveloped format secret (act_all actions).status_code (codes "r1"))
        ≡ some (text (codes "internal_error")))
unfolding act_all act write_header write_header_now write_body
server_error_hidden_example =
    server_error_hidden format (codes "r1") actions secret (codes "internal server error|db7")
      (omega arith) is_object refl shown

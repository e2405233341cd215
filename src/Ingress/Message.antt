-- ===== src/Ingress/Message.antt =====
-- The parsing of a message in api/ingress/mime.go. Go's readers of mail, of MIME and of the two
-- encodings are parameters, as are the width of a rune and the removal of bytes that are not UTF-8.
-- The recursion over nested parts has fuel: none is left over as `none`.
pub mod Bounded
use far_mail.Base.{
  ℕ, zero, suc, ◌+◌, ◌-◌, Bool, true, false, not, ◌&&◌, ◌||◌, List, [], ◌∷◌, ◌++◌, Option, none,
  some, ◌==◌, ltb, leb, if◌then◌else◌, length, take, drop, max,
}
use far_mail.Base.Int.{ℤ, pos_part}
use far_mail.Base.Eq.{bytes_beq}
use far_mail.Text.{Bytes, codes, to_lower, trim_space, has_prefix, contains}
use far_mail.Ingress.Address.{is_empty}

-- parsedMessage
pub record ParsedMessage : Type 0 where
  pub sender : Bytes
  pub subject : Bytes
  pub body_text : Bytes
  pub body_html : Bytes
  pub has_attachments : Bool

pub record MediaType : Type 0 where
  pub media_type : Bytes
  pub boundary : Bytes
  pub name : Bytes

pub record Part : Type 0 where
  pub content_type : Bytes
  pub transfer_encoding : Bytes
  pub disposition : Bytes
  pub body : Bytes

pub record Mail : Type 0 where
  pub subject : Bytes
  pub from : Bytes
  pub content_type : Bytes
  pub transfer_encoding : Bytes
  pub body : Bytes

pub data Encoding : Type 0 where
  base64 quoted_printable : Encoding

-- mail.ReadMessage, WordDecoder.DecodeHeader, mail.ParseAddressList, mime.ParseMediaType, the parts
-- that multipart.Reader gives before its first error, what a decoder gives for a limit, the width of
-- the first rune, and strings.ToValidUTF8 without a replacement.
pub record Library : Type 0 where
  pub read_message : Bytes → Option Mail
  pub decode_header : Bytes → Option Bytes
  pub parse_addresses : Bytes → Option (List Bytes)
  pub parse_media_type : Bytes → Option MediaType
  pub parts : Bytes → Bytes → List Part
  pub decode : Encoding → ℕ → Bytes → Option Bytes
  pub rune_width : Bytes → ℕ
  pub to_valid : Bytes → Bytes

-- `clampStringBytes` and `clampBytesToString`
unfoldable pub clamp_bytes : Library → Bytes → ℕ → Bytes
clamp_bytes lib value max_bytes =
    lib.to_valid
      (if ltb 0 max_bytes && ltb max_bytes (length value) then take max_bytes value else value)

abbrev take_runes : Library → ℕ → Bytes → Bytes
take_runes lib zero s = []
take_runes lib (suc n) [] = []
take_runes lib (suc n) (c ∷ s) =
    let width = max 1 (lib.rune_width (c ∷ s)) in
    take width (c ∷ s) ++ take_runes lib n (drop width (c ∷ s))

-- `clampRunes`, for a limit that is not zero
unfoldable pub clamp_runes : Library → Bytes → ℕ → Bytes
clamp_runes lib value max_runes = take_runes lib max_runes (trim_space value)

-- `appendBody`
unfoldable pub append_body : Library → Bytes → Bytes → ℕ → Bytes
append_body lib target value max_bytes =
    let text = trim_space value in
    let joined = target ++ 10 ∷ [] in
    if is_empty text || leb max_bytes (length target)
    then target
    else (if is_empty target
        then clamp_bytes lib text max_bytes
        else (if leb max_bytes (length joined)
            then joined
            else joined ++ clamp_bytes lib text (max_bytes - length joined)))

abbrev or_body : Bytes → Option Bytes → Bytes
or_body body none = body
or_body body (some decoded) = decoded

-- `decodeTransfer`
unfoldable pub decode_transfer : Library → Bytes → Bytes → ℕ → Bytes
decode_transfer lib body transfer_encoding max_bytes =
    let encoding = to_lower (trim_space transfer_encoding) in
    if bytes_beq encoding (codes "base64")
    then clamp_bytes lib (or_body body (lib.decode base64 (max_bytes + 1) body)) max_bytes
    else (if bytes_beq encoding (codes "quoted-printable")
        then clamp_bytes lib (or_body body (lib.decode quoted_printable (max_bytes + 1) body))
            max_bytes
        else clamp_bytes lib body max_bytes)

-- The media type and the boundary of a part, where one that cannot be read is plain text.
abbrev pub media_of : Library → Bytes → Bytes × Bytes
media_of lib content_type = elim (lib.parse_media_type content_type) [
  | none ↦ (codes "text/plain", [])
  | some m ↦
      if is_empty m.media_type
      then (codes "text/plain", m.boundary)
      else (to_lower m.media_type, m.boundary)
]

abbrev part_name : Library → Bytes → Bytes
part_name lib content_type = elim (lib.parse_media_type content_type) [
  | none ↦ []
  | some m ↦ m.name
]

abbrev is_attachment : Library → Part → Bool
is_attachment lib part =
    let disposition = to_lower (trim_space part.disposition) in
    has_prefix (codes "attachment") disposition
    || not (is_empty (trim_space (part_name lib part.content_type)))
    || contains (codes "filename=") disposition

abbrev pub noted : Library → Part → ParsedMessage → ParsedMessage
noted lib part result = record result {
  has_attachments = result.has_attachments || is_attachment lib part;
}

-- A part that is no multipart
unfoldable pub collect_leaf : Library → Bytes → Bytes → ℕ → ParsedMessage → ParsedMessage
collect_leaf lib media decoded max_bytes result =
    let with_text = record result {
      body_text = append_body lib result.body_text decoded max_bytes;
    } in
    if bytes_beq media (codes "text/plain")
    then with_text
    else (if bytes_beq media (codes "text/html")
        then record result { body_html = append_body lib result.body_html decoded max_bytes }
        else (if is_empty result.body_text
              && not (has_prefix (codes "application/") media)
              && not (has_prefix (codes "image/") media)
            then with_text
            else result))

-- The loop over the parts: it ends early once both bodies are full.
unfoldable pub each_part :
    Library
    → (Part → ParsedMessage → Option ParsedMessage)
    → ℕ
    → List Part
    → ParsedMessage
    → Option ParsedMessage
each_part lib collect max_bytes [] result = some result
each_part lib collect max_bytes (part ∷ parts) result =
    elim (collect part (noted lib part result)) [
      | none ↦ none
      | some next ↦
          if leb max_bytes (length next.body_text) && leb max_bytes (length next.body_html)
          then some next
          else each_part lib collect max_bytes parts next
    ]

-- `collectBodyParts`
unfoldable pub collect_body_parts :
    ℕ → Library → Bytes → Bytes → Bytes → ℕ → ParsedMessage → Option ParsedMessage
collect_body_parts zero lib content_type transfer_encoding body max_bytes result = none
collect_body_parts (suc rounds) lib content_type transfer_encoding body max_bytes result =
    let (media, boundary) = media_of lib content_type in
    let nested =
      each_part lib
        (λ part next.
          collect_body_parts rounds lib part.content_type part.transfer_encoding
            (take (max_bytes + 1) part.body) max_bytes next)
        max_bytes (lib.parts boundary body) result in
    if has_prefix (codes "multipart/") media
    then (if is_empty boundary then some result else nested)
    else some (
        collect_leaf lib media (decode_transfer lib body transfer_encoding max_bytes) max_bytes
          result)

abbrev decoded_or : Library → Bytes → Bytes
decoded_or lib text = or_body text (lib.decode_header text)

abbrev subject_of : Library → Mail → Bytes
subject_of lib m =
    let subject = trim_space m.subject in
    if is_empty subject then [] else clamp_runes lib (decoded_or lib subject) 998

abbrev first_address : Bytes → Option (List Bytes) → Bytes
first_address from none = from
first_address from (some []) = from
first_address from (some (address ∷ others)) = address

abbrev sender_of : Library → Bytes → Mail → Bytes
sender_of lib envelope m =
    let from = decoded_or lib (trim_space m.from) in
    let sender = clamp_runes lib (first_address from (lib.parse_addresses from)) 320 in
    if is_empty (trim_space m.from) || is_empty sender then clamp_runes lib envelope 320 else sender

abbrev pub body_limit : ℤ → ℕ
body_limit max_body_bytes =
    if pos_part max_body_bytes == 0 then 262_144 else pos_part max_body_bytes

-- What is known before the bodies
abbrev pub start : Library → Bytes → Mail → ParsedMessage
start lib envelope_sender m = record {
  sender = sender_of lib envelope_sender m;
  subject = subject_of lib m;
  body_text = [];
  body_html = [];
  has_attachments = false;
}

-- A message without headers that can be read
abbrev pub unreadable : Library → Bytes → Bytes → ℕ → ParsedMessage
unreadable lib raw envelope_sender limit = record {
  sender = clamp_runes lib envelope_sender 320;
  subject = [];
  body_text = clamp_bytes lib raw limit;
  body_html = [];
  has_attachments = false;
}

-- `parseMessage`
unfoldable pub parse_message : Library → Bytes → Bytes → ℤ → Option ParsedMessage
parse_message lib raw envelope_sender max_body_bytes =
    let limit = body_limit max_body_bytes in
    elim (lib.read_message raw) [
      | none ↦ some (unreadable lib raw envelope_sender limit)
      | some m ↦
          let body = take (limit + 1) m.body in
          collect_body_parts (length body + 1) lib m.content_type m.transfer_encoding body limit
            (start lib envelope_sender m)
    ]

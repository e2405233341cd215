-- ===== src/Envelope.antt =====
-- The envelope of error answers in api/middleware/error_envelope.go. The writer below it, JSON and the
-- status texts are parameters; a JSON value that no decision reads is kept as its text. `Flush`, which
-- the writer takes from the one below it, is left out.
pub mod Hidden
use far_mail.Base.{
  ℕ, Bool, true, false, not, ◌&&◌, ◌||◌, List, [], ◌∷◌, ◌++◌, Option, none, some, ◌==◌, ltb, leb,
  if◌then◌else◌,
}
use far_mail.Base.Eq.{bytes_eq}
use far_mail.Base.Assoc.{lookup, insert}
use far_mail.Text.{Bytes, codes, trim_space}
use far_mail.Ingress.Address.{is_empty}

pub data Json : Type 0 where
  text : Bytes → Json
  number : ℕ → Json
  truth : Bool → Json
  other : Bytes → Json

abbrev pub Payload : Type 0
Payload = List (Bytes × Json)

-- json.Unmarshal into a map, json.Marshal of one, and http.StatusText.
pub record Format : Type 0 where
  pub unmarshal : Bytes → Option Payload
  pub marshal : Payload → Option Bytes
  pub status_text : ℕ → Bytes

-- responseCaptureWriter, with what the writer below it was given.
pub record Capture : Type 0 where
  pub status_code : ℕ
  pub wrote_header : Bool
  pub passthrough : Bool
  pub body : Bytes
  pub sent_status : Option ℕ
  pub sent_body : Bytes

-- `newResponseCaptureWriter`
abbrev pub new_capture : Capture
new_capture = record {
  status_code = 200;
  wrote_header = false;
  passthrough = false;
  body = [];
  sent_status = none;
  sent_body = [];
}

-- `WriteHeader`
unfoldable pub write_header : ℕ → Capture → Capture
write_header code w =
    if w.wrote_header
    then w
    else (if ltb code 400
        then record w {
          status_code = code;
          wrote_header = true;
          passthrough = true;
          sent_status = some code;
        }
        else record w { status_code = code; wrote_header = true })

-- `WriteHeaderNow`, with which `Write` and `WriteString` begin
unfoldable pub write_header_now : Capture → Capture
write_header_now w = if w.wrote_header then w else write_header w.status_code w

unfoldable pub write_body : Bytes → Capture → Capture
write_body bytes w =
    let started = write_header_now w in
    if started.passthrough
    then record started { sent_body = started.sent_body ++ bytes }
    else record started { body = started.body ++ bytes }

abbrev pub text_of : Option Json → Bytes
text_of (some (text s)) = trim_space s
text_of _ = []

-- `pickErrorMessage`
unfoldable pub pick_error_message : Payload → Bytes
pick_error_message payload =
    let message = text_of (lookup (codes "message") payload) in
    if is_empty message then text_of (lookup (codes "error") payload) else message

-- `inferErrorCode`
unfoldable pub infer_error_code : ℕ → Bytes
infer_error_code status =
    if status == 400
    then codes "bad_request"
    else if status == 401
    then codes "unauthorized"
    else if status == 403
    then codes "forbidden"
    else if status == 404
    then codes "not_found"
    else if status == 409
    then codes "conflict"
    else if status == 429
    then codes "rate_limited"
    else if status == 503
    then codes "service_unavailable"
    else if leb 500 status
    then codes "internal_error"
    else codes "request_failed"

abbrev has_key : Bytes → Payload → Bool
has_key key payload = elim (lookup key payload) [ none ↦ false | some value ↦ true ]

abbrev public_message : Format → Payload → ℕ → Bytes
public_message format payload status =
    let message = pick_error_message payload in
    if leb 500 status
    then codes "internal server error"
    else (if is_empty message then format.status_text status else message)

-- The fields of the envelope, written over those of the payload.
unfoldable pub enveloped : Format → Payload → ℕ → Bytes → Payload
enveloped format payload status request_id =
    let message = public_message format payload status in
    let coded =
      if leb 500 status
      then insert (codes "error_code") (text (codes "internal_error")) payload
      else payload in
    let filled = insert (codes "error") (text message) (
      insert (codes "message") (text message) (
        insert (codes "request_id") (text request_id) (
          insert (codes "status") (number status)
            (insert (codes "success") (truth false) coded)))) in
    if has_key (codes "error_code") filled
    then filled
    else insert (codes "error_code") (text (infer_error_code status)) filled

abbrev pub starts_object : Bytes → Bool
starts_object [] = false
starts_object (c ∷ s) = c == b'{'

-- `normalizeErrorBody`
unfoldable pub normalize_error_body : Format → Bytes → ℕ → Bytes → Option Bytes
normalize_error_body format body status request_id =
    let trimmed = trim_space body in
    if starts_object trimmed
    then elim (format.unmarshal trimmed) [
      | none ↦ none
      | some payload ↦ format.marshal (enveloped format payload status request_id)
    ]
    else none

abbrev pub or_raw : Bytes → Option Bytes → Bytes
or_raw raw none = raw
or_raw raw (some normalized) = normalized

-- The end of `ErrorEnvelope`, after the handlers have run.
unfoldable pub finish : Format → Bytes → Capture → Capture
finish format request_id w =
    let status = if w.status_code == 0 then 200 else w.status_code in
    let body =
      if leb 400 status && not (is_empty w.body)
      then or_raw w.body (normalize_error_body format w.body status request_id)
      else w.body in
    if w.passthrough
    then w
    else record w { sent_status = some status; sent_body = w.sent_body ++ body }

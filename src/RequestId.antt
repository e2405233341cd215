-- ===== src/RequestId.antt =====
-- The request ids of api/middleware/requestid.go. The UUID that is drawn is an argument.
use far_mail.Base.{
  ℕ, ◌≡◌, Bool, true, not, ◌&&◌, ◌||◌, [], ◌∷◌, ◌==◌, ltb, if◌then◌else◌, if_elim, length,
}
use far_mail.Text.{Bytes, within, trim_space}
use far_mail.Ingress.Address.{is_empty}

abbrev is_id_byte : ℕ → Bool
is_id_byte c =
    within b'a' b'z' c
    || within b'A' b'Z' c
    || within b'0' b'9' c
    || c == b'.'
    || c == b'_'
    || c == b':'
    || c == b'-'

abbrev all_id_bytes : Bytes → Bool
all_id_bytes [] = true
all_id_bytes (c ∷ s) = is_id_byte c && all_id_bytes s

-- `validRequestID`
unfoldable pub valid_request_id : Bytes → Bool
valid_request_id value = not (is_empty value) && not (ltb 64 (length value)) && all_id_bytes value

-- `RequestID`, on the header of the request
unfoldable pub request_id : Bytes → Bytes → Bytes
request_id drawn header = if valid_request_id (trim_space header) then trim_space header else drawn

-- If the drawn id is valid, then so is the id of every request.
pub request_id-valid :
    (drawn header : Bytes)
    → valid_request_id drawn ≡ true
    → valid_request_id (request_id drawn header) ≡ true
unfolding request_id
request_id-valid drawn header fine =
    if_elim (λ s. valid_request_id s ≡ true) (valid_request_id (trim_space header)) _ _
      (λ kept. kept) (λ _. fine)

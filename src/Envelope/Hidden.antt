-- ===== src/Envelope/Hidden.antt =====
-- What the envelope of api/middleware/error_envelope.go shows of a server error.
use far_mail.Base.{
  ℕ, ◌≤◌, ◌≡◌, refl, ◌∙◌, ap, subst, inl, inr, true, false, List, [], ◌∷◌, some, arith, ◌==◌, ltb,
  leb, Bool-cases, if_elim,
}
use far_mail.Base.Eq.{bytes_eq}
use far_mail.Base.Assoc.{lookup, insert, lookup-insert}
use far_mail.Text.{Bytes, codes, trim, trim_space}
use far_mail.Ingress.Address.{is_empty}
use far_mail.Envelope.{
  Json, text, number, truth, Payload, Format, Capture, new_capture, write_header, write_header_now,
  write_body, enveloped, starts_object, normalize_error_body, finish,
}

pub data Action : Type 0 where
  head : ℕ → Action
  bytes : Bytes → Action

unfoldable pub act : Action → Capture → Capture
act (head code) w = write_header code w
act (bytes data_of) w = write_body data_of w

-- The handlers' actions, the last one first.
unfoldable pub act_all : List Action → Capture
act_all [] = new_capture
act_all (a ∷ before) = act a (act_all before)

abbrev internal : Json
internal = text (codes "internal server error")

abbrev internal_code : Json
internal_code = text (codes "internal_error")

-- What a server error's payload becomes.
server_payload : Payload → ℕ → Bytes → Payload
server_payload payload status request_id = insert (codes "error") internal (
    insert (codes "message") internal (
      insert (codes "request_id") (text request_id) (
        insert (codes "status") (number status) (
          insert (codes "success") (truth false)
            (insert (codes "error_code") internal_code payload)))))

lookup-error :
    (payload : Payload) (status : ℕ) (request_id : Bytes)
    → lookup (codes "error") (server_payload payload status request_id) ≡ some internal
unfolding server_payload
lookup-error payload status request_id = lookup-insert (codes "error") (codes "error") internal _

lookup-message :
    (payload : Payload) (status : ℕ) (request_id : Bytes)
    → lookup (codes "message") (server_payload payload status request_id) ≡ some internal
unfolding server_payload
lookup-message payload status request_id =
    lookup-insert (codes "error") (codes "message") internal _
    ∙ lookup-insert (codes "message") (codes "message") internal _

lookup-error_code :
    (payload : Payload) (status : ℕ) (request_id : Bytes)
    → lookup (codes "error_code") (server_payload payload status request_id) ≡ some internal_code
unfolding server_payload
lookup-error_code payload status request_id =
    lookup-insert (codes "error") (codes "error_code") internal _
    ∙ lookup-insert (codes "message") (codes "error_code") internal _
    ∙ lookup-insert (codes "request_id") (codes "error_code") (text request_id) _
    ∙ lookup-insert (codes "status") (codes "error_code") (number status) _
    ∙ lookup-insert (codes "success") (codes "error_code") (truth false) _
    ∙ lookup-insert (codes "error_code") (codes "error_code") internal_code _

enveloped-server :
    (format : Format) (payload : Payload) (status : ℕ) (request_id : Bytes)
    → 500 ≤ status
    → enveloped format payload status request_id ≡ server_payload payload status request_id
unfolding enveloped server_payload
enveloped-server format payload status request_id server =
    let high : leb 500 status ≡ true = ground (arith, server) in
    ground (arith, high, lookup-error_code payload status request_id)

-- Until the end, either the answer goes through, with a status below 400, or nothing is sent.
record IsHeld (w : Capture) : Type 0 where
  fresh : w.wrote_header ≡ false → w.passthrough ≡ false
  held : w.passthrough ≡ false → w.sent_body ≡ []
  low : w.passthrough ≡ true → ltb w.status_code 400 ≡ true

write_header-IsHeld : (code : ℕ) (w : Capture) → IsHeld w → IsHeld (write_header code w)
unfolding write_header
write_header-IsHeld code w h = elim (Bool-cases w.wrote_header) [
  | inl begun ↦ subst IsHeld {x = w} {y = write_header code w} (ground (arith, begun)) h
  | inr unbegun ↦
      let closed = h.fresh unbegun in
      elim (Bool-cases (ltb code 400)) [
        | inl fine ↦
            subst IsHeld
              {x = record w {
                status_code = code;
                wrote_header = true;
                passthrough = true;
                sent_status = some code;
              }}
              {y = write_header code w} (ground (arith, unbegun, fine))
              (record {
                fresh = λ e. absurd (ground (arith, e));
                held = λ e. absurd (ground (arith, e));
                low = λ _. fine;
              })
        | inr error ↦
            subst IsHeld {x = record w { status_code = code; wrote_header = true }}
              {y = write_header code w} (ground (arith, unbegun, error))
              (record {
                fresh = λ e. absurd (ground (arith, e));
                held = h.held;
                low = λ e. absurd (ground (arith, e, closed));
              })
      ]
]

write_header_now-IsHeld : (w : Capture) → IsHeld w → IsHeld (write_header_now w)
unfolding write_header_now
write_header_now-IsHeld w h =
    if_elim IsHeld w.wrote_header _ _ (λ _. h) (λ _. write_header-IsHeld w.status_code w h)

write_body-IsHeld : (chunk : Bytes) (w : Capture) → IsHeld w → IsHeld (write_body chunk w)
unfolding write_body
write_body-IsHeld chunk w h =
    let started = write_header_now w in
    let k = write_header_now-IsHeld w h in
    if_elim IsHeld started.passthrough _ _
      (λ through. record {
        fresh = k.fresh;
        held = λ e. absurd (ground (arith, e, through));
        low = k.low;
      })
      (λ _. record { fresh = k.fresh; held = k.held; low = k.low })

act_all-IsHeld : (actions : List Action) → IsHeld (act_all actions)
unfolding act_all act
act_all-IsHeld [] = record {
  fresh = λ _. refl;
  held = λ _. refl;
  low = λ e. absurd (ground (arith, e));
}
act_all-IsHeld (head code ∷ before) =
    write_header-IsHeld code (act_all before) (act_all-IsHeld before)
act_all-IsHeld (bytes chunk ∷ before) =
    write_body-IsHeld chunk (act_all before) (act_all-IsHeld before)

trimmed-full : (s : Bytes) → starts_object (trim_space s) ≡ true → is_empty s ≡ false
unfolding trim
trimmed-full [] h = absurd (ground (arith, h))
trimmed-full (c ∷ s) h = refl

normalize_error_body-sent :
    (format : Format) (body : Bytes) (status : ℕ) (request_id : Bytes) (payload : Payload)
    (sent : Bytes)
    → starts_object (trim_space body) ≡ true
    → format.unmarshal (trim_space body) ≡ some payload
    → format.marshal (enveloped format payload status request_id) ≡ some sent
    → normalize_error_body format body status request_id ≡ some sent
unfolding normalize_error_body
normalize_error_body-sent format body status request_id payload sent object read written =
    ground (arith, object, read, written)

-- An answer of the handlers with a status of 500 or more, whose body is a JSON object: the client
-- gets this status and the envelope, in which message, error and error code are those of every
-- internal error, whatever the handlers wrote there.
pub server_error_hidden :
    (format : Format) (request_id : Bytes) (actions : List Action) (payload : Payload)
    (sent : Bytes)
    → 500 ≤ (act_all actions).status_code
    → starts_object (trim_space (act_all actions).body) ≡ true
    → format.unmarshal (trim_space (act_all actions).body) ≡ some payload
    → format.marshal (enveloped format payload (act_all actions).status_code request_id) ≡ some sent
    → ((finish format request_id (act_all actions)).sent_status
        ≡ some (act_all actions).status_code)
      × ((finish format request_id (act_all actions)).sent_body ≡ sent)
      × (lookup
            (codes "message")
            (enveloped format payload (act_all actions).status_code request_id)
          ≡ some (text (codes "internal server error")))
      × (lookup (codes "error") (enveloped format payload (act_all actions).status_code request_id)
          ≡ some (text (codes "internal server error")))
      × (lookup
            (codes "error_code")
            (enveloped format payload (act_all actions).status_code request_id)
          ≡ some (text (codes "internal_error")))
unfolding finish
server_error_hidden format request_id actions payload sent server object read written =
    let w = act_all actions in
    let form = enveloped-server format payload w.status_code request_id server in
    let closed : w.passthrough ≡ false = elim (Bool-cases w.passthrough) [
      | inl through ↦ absurd (ground (arith, (act_all-IsHeld actions).low through, server))
      | inr closed ↦ closed
    ] in
    let unsent = (act_all-IsHeld actions).held closed in
    let full = trimmed-full w.body object in
    let high : leb 400 w.status_code ≡ true = ground (arith, server) in
    let nonzero : (w.status_code == 0) ≡ false = ground (arith, server) in
    (
      ground (arith, closed, nonzero),
      ground (
        arith,
        closed,
        nonzero,
        unsent,
        high,
        full,
        normalize_error_body-sent format w.body w.status_code request_id payload sent object read
            written,
      ),
      ap (lookup (codes "message")) form ∙ lookup-message payload w.status_code request_id,
      ap (lookup (codes "error")) form ∙ lookup-error payload w.status_code request_id,
      ap (lookup (codes "error_code")) form ∙ lookup-error_code payload w.status_code request_id,
    )

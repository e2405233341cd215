-- ===== src/RateLimit.antt =====
-- The fixed windows of api/middleware/ratelimit.go. Redis is a map of counters; a key lives longer
-- than its window, so its expiry is left out, and so are the headers that report the limit. The hash
-- of an identity is a parameter.
pub mod Windows
use far_mail.Base.{
  ◌/◌, ℕ, ◌+◌, ◌≡◌, ◌↔◌, Bool, true, false, ◌&&◌, List, [], ◌∷◌, Option, none, some, arith, ◌==◌,
  ltb, if◌then◌else◌,
}
use far_mail.Base.Eq.{Eq, bytes_beq, bytes_beq_iff}
use far_mail.Base.Assoc.{lookup, insert}
use far_mail.Text.{Bytes}
use far_mail.Ingress.Address.{is_empty}

-- `rl:<path>:<digest>:<bucket>`
pub record WindowKey : Type 0 where
  pub path : Bytes
  pub digest : Bytes
  pub bucket : ℕ

abbrev pub window_beq : WindowKey → WindowKey → Bool
window_beq a b = bytes_beq a.path b.path && bytes_beq a.digest b.digest && a.bucket == b.bucket

pub window_beq_iff : (a b : WindowKey) → (window_beq a b ≡ true) ↔ (a ≡ b)
window_beq_iff a b = ground (arith, bytes_beq_iff a.path b.path, bytes_beq_iff a.digest b.digest)

instance abbrev pub window_eq : Eq WindowKey
window_eq = record { beq = window_beq; beq_iff = window_beq_iff }

abbrev pub Windows : Type 0
Windows = List (WindowKey × ℕ)

-- What the middleware reads of a request, and whether Redis answers.
pub record Request : Type 0 where
  pub path : Bytes
  pub authorization : Bytes
  pub client_ip : Bytes
  pub now : ℕ
  pub redis_up : Bool

abbrev pub identity : Request → Bytes
identity r = if is_empty r.authorization then r.client_ip else r.authorization

-- `fixedWindowKey`
abbrev pub fixed_window_key : (Bytes → Bytes) → ℕ → Request → WindowKey
fixed_window_key digest window r = record {
  path = r.path;
  digest = digest (identity r);
  bucket = r.now / window;
}

unfoldable pub hits : WindowKey → Windows → ℕ
hits key windows = elim (lookup key windows) [ none ↦ 0 | some n ↦ n ]

pub data Answer : Type 0 where
  passed limited unavailable : Answer

-- `RateLimit`
unfoldable pub rate_limit : (Bytes → Bytes) → ℕ → ℕ → Request → Windows → Windows × Answer
rate_limit digest limit window r windows =
    let key = fixed_window_key digest window r in
    let count = hits key windows + 1 in
    if r.redis_up
    then (insert key count windows, (if ltb limit count then limited else passed))
    else (windows, unavailable)

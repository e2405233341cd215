-- ===== src/RateLimit/Windows.antt =====
-- In one window of api/middleware/ratelimit.go no more than the limit passes.
use far_mail.Base.{
  ℕ, ◌+◌, ◌≤◌, ◌≡◌, ap, inl, inr, Bool, true, false, ◌&&◌, List, [], ◌∷◌, arith, if◌then◌else◌,
  Bool-cases,
}
use far_mail.Base.Eq.{◌=?◌}
use far_mail.Base.Assoc.{insert, lookup-insert}
use far_mail.Text.{Bytes}
use far_mail.RateLimit.{
  WindowKey, window_eq, window_beq_iff, Windows, Request, fixed_window_key, hits, Answer, passed,
  rate_limit,
}

abbrev is_passed : Answer → Bool
is_passed passed = true
is_passed _ = false

-- The counters after some requests, the last one first.
unfoldable pub windows_after : (Bytes → Bytes) → ℕ → ℕ → List Request → Windows
windows_after digest limit window [] = []
windows_after digest limit window (r ∷ before) =
    (rate_limit digest limit window r (windows_after digest limit window before)).0

-- How many of the requests of a window passed.
unfoldable pub passed_in : (Bytes → Bytes) → ℕ → ℕ → WindowKey → List Request → ℕ
passed_in digest limit window key [] = 0
passed_in digest limit window key (r ∷ before) =
    let one =
      if (fixed_window_key digest window r =? key)
        && is_passed (rate_limit digest limit window r (windows_after digest limit window before)).1
      then 1
      else 0 in
    one + passed_in digest limit window key before

hits-insert :
    (k j : WindowKey) (n : ℕ) (windows : Windows)
    → hits j (insert k n windows) ≡ (if k =? j then n else hits j windows)
unfolding hits
hits-insert k j n windows = ground (arith, lookup-insert k j n windows)

passed_in-bounds :
    (digest : Bytes → Bytes) (limit window : ℕ) (key : WindowKey) (requests : List Request)
    → (passed_in digest limit window key requests
        ≤ hits key (windows_after digest limit window requests))
      × (passed_in digest limit window key requests ≤ limit)
unfolding passed_in windows_after rate_limit
passed_in-bounds digest limit window key [] = (ground arith, ground arith)
passed_in-bounds digest limit window key (r ∷ before) =
    let k = fixed_window_key digest window r in
    let windows = windows_after digest limit window before in
    let (below, within) = passed_in-bounds digest limit window key before in
    let counted = hits-insert k key (hits k windows + 1) windows in
    elim (Bool-cases r.redis_up) [
      | inr down ↦ (ground (arith, down, below), ground (arith, down, within))
      | inl up ↦ elim (Bool-cases (k =? key)) [
        | inr other ↦ (ground (arith, up, other, counted, below), ground (arith, up, other, within))
        | inl same ↦
            let is : hits k windows ≡ hits key windows =
              ap (λ (j : WindowKey). hits j windows) ((window_beq_iff k key).0 same) in
            (
              ground (arith, up, same, counted, below, is),
              ground (arith, up, same, below, within, is),
            )
      ]
    ]

-- However the requests come, in one window of one path and one identity no more requests pass than
-- the limit.
pub passed_in-bounded :
    (digest : Bytes → Bytes) (limit window : ℕ) (key : WindowKey) (requests : List Request)
    → passed_in digest limit window key requests ≤ limit
passed_in-bounded digest limit window key requests =
    (passed_in-bounds digest limit window key requests).1

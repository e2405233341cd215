-- ===== src/Donations/Ledger.antt =====
-- The reward events of api/store/donations.go are a ledger: for each donation they add up to what
-- it contributes at the time.
pub mod Booked
use far_mail.Base.{
  &&-eq-true, ℕ, ◌+◌, ◌≡◌, ◌≢◌, refl, sym, ◌∙◌, ap, subst, inl, inr, Bool, true, false, not, ◌&&◌,
  ◌||◌, List, [], ◌∷◌, ◌++◌, Option, none, some, arith, ◌==◌, ==_iff, if◌then◌else◌, Bool-cases,
  Option-cases, if_elim, leb, max,
}
use far_mail.Base.Int.{ℤ, pos, pos_part, neg, ◌+ℤ◌, int_laws, +ℤ_parts, eq_of_parts}
use far_mail.Base.Table.{find, update, find-key, find-update}
use far_mail.Base.Result.{Result, failed, done, and_then}
use far_mail.Text.{Bytes}
use far_mail.Donations.{
  Donation, RewardEvent, Tables, StoreError, Commit, donation_id, recalculate,
  recalculate_and_commit,
}
use far_mail.Donations.Preserved.{apply_verification-done, set_revoked-done, find_own}
use far_mail.Donations.Transactions.{
  DonationVerification, apply_verification, set_revoked, write_verification, write_revoked,
  is_revoked, activated, deactivated, failed_once_more, restored, withdrawn, grant_event,
  revoke_event, adjustment,
}

-- The three amounts of a reward.
pub data Quantity : Type 0 where
  total_limit daily_limit rpm_limit : Quantity

abbrev pub delta_of : Quantity → RewardEvent → ℤ
delta_of total_limit e = e.total_delta
delta_of daily_limit e = e.daily_delta
delta_of rpm_limit e = e.rpm_delta

abbrev pub reward_of : Quantity → Donation → ℕ
reward_of total_limit d = d.reward_total
reward_of daily_limit d = d.reward_daily
reward_of rpm_limit d = d.reward_rpm

abbrev pub is_of : ℕ → RewardEvent → Bool
is_of id e = elim e.donation_id [ none ↦ false | some j ↦ j == id ]

-- The sum of the deltas that are booked for a donation.
unfoldable pub ledger : Quantity → ℕ → List RewardEvent → ℤ
ledger q id [] = pos 0
ledger q id (e ∷ es) = (if is_of id e then delta_of q e else pos 0) +ℤ ledger q id es

-- What a donation contributes: its reward while it is active.
abbrev pub contribution : Quantity → Donation → ℤ
contribution q d = if d.reward_active then pos (reward_of q d) else pos 0

unfoldable pub IsBooked : Tables → Type 0
IsBooked db =
    (q : Quantity) (id : ℕ) (d : Donation)
    → find donation_id id db.donations ≡ some d
    → ledger q id db.events ≡ contribution q d

pub +ℤ_zero : (a : ℤ) → a +ℤ pos 0 ≡ a
+ℤ_zero a = eq_of_parts (a +ℤ pos 0) a (omega (arith, +ℤ_parts a (pos 0)))

pub zero_+ℤ : (a : ℤ) → pos 0 +ℤ a ≡ a
zero_+ℤ a = eq_of_parts (pos 0 +ℤ a) a (omega (arith, +ℤ_parts (pos 0) a))

+ℤ_assoc : (a b c : ℤ) → a +ℤ b +ℤ c ≡ a +ℤ (b +ℤ c)
+ℤ_assoc a b c =
    eq_of_parts (a +ℤ b +ℤ c) (a +ℤ (b +ℤ c))
      (omega (arith, +ℤ_parts a b, +ℤ_parts (a +ℤ b) c, +ℤ_parts b c, +ℤ_parts a (b +ℤ c)))

pub +ℤ_neg : (n : ℕ) → pos n +ℤ neg (pos n) ≡ pos 0
unfolding ◌+ℤ◌
+ℤ_neg n = ground arith

pub ledger-append :
    (q : Quantity) (id : ℕ) (es : List RewardEvent) (e : RewardEvent)
    → ledger q id (es ++ e ∷ []) ≡ ledger q id es +ℤ (if is_of id e then delta_of q e else pos 0)
unfolding ledger
ledger-append q id [] e = +ℤ_zero _ ∙ sym (zero_+ℤ _)
ledger-append q id (x ∷ es) e =
    ap (◌+ℤ◌ (if is_of id x then delta_of q x else pos 0)) (ledger-append q id es e)
    ∙ sym (+ℤ_assoc (if is_of id x then delta_of q x else pos 0) (ledger q id es) _)

-- ===== src/Donations/Tolerance.antt =====
-- Repeated checks of one donation in api/store/donations.go: what a check makes of its row, and how
-- many failures in a row it survives.
use far_mail.Base.{
  ℕ, ◌+◌, ◌<◌, ◌≡◌, refl, sym, ◌∙◌, ap, subst, inl, inr, Bool, true, false, not, ◌&&◌, ◌||◌, List,
  [], ◌∷◌, some, arith, if◌then◌else◌, Bool-cases, leb, ltb, max, length, All, ==_iff,
}
use far_mail.Base.Int.{ℤ, pos_part}
use far_mail.Base.Table.{find, update, find-update, find-key}
use far_mail.Base.Result.{Result, failed, done, and_then}
use far_mail.Donations.{
  Donation, Tables, StoreError, Commit, donation_id, recalculate, recalculate_and_commit,
}
use far_mail.Donations.Preserved.{apply_verification-done, find_own}
use far_mail.Donations.Transactions.{
  DonationVerification, apply_verification, write_verification, activated, deactivated,
  failed_once_more,
}

-- What the setting stands for: at least one failure.
abbrev pub tolerated : ℤ → ℕ
tolerated tolerance = max 1 (pos_part tolerance)

-- The row that a check leaves.
unfoldable pub checked : ℤ → ℕ → DonationVerification → Donation → Donation
checked tolerance now result d =
    if result.valid
    then activated now d
    else (if d.reward_active
          && (not result.transient || leb (tolerated tolerance) (d.failure_count + 1))
        then deactivated now result.status d
        else failed_once_more now result.status d)

write_verification-row :
    (tolerance : ℤ) (now : ℕ) (result : DonationVerification) (d : Donation) (db : Tables)
    → find donation_id d.id db.donations ≡ some d
    → find donation_id d.id (write_verification tolerance now result d db).donations
      ≡ some (checked tolerance now result d)
unfolding write_verification checked
write_verification-row tolerance now result d db found = ground (
  arith,
  row (activated now) (λ r. refl),
  row (deactivated now result.status) (λ r. refl),
  row (failed_once_more now result.status) (λ r. refl),
)
  where
    row :
        (f : Donation → Donation)
        → ((r : Donation) → donation_id (f r) ≡ donation_id r)
        → find donation_id d.id (update donation_id d.id f db.donations) ≡ some (f d)
    row f keeps =
        find-update donation_id d.id d.id f db.donations keeps
        ∙ ground (arith, found, (==_iff d.id d.id).1 refl)

recalculate_and_commit-donations :
    (rate_cap : ℤ) (token : ℕ) (domains_too : Bool) (db : Tables) (c : Commit)
    → recalculate_and_commit rate_cap token domains_too db ≡ done c
    → db.donations ≡ c.tables.donations
unfolding recalculate_and_commit recalculate
recalculate_and_commit-donations rate_cap token domains_too db c ok = ground (arith, ok)

pub apply_verification-row :
    (rate_cap tolerance : ℤ) (now id : ℕ) (result : DonationVerification) (d : Donation)
    (db : Tables) (c : Commit)
    → find donation_id id db.donations ≡ some d
    → apply_verification rate_cap tolerance now id result db ≡ done c
    → find donation_id id c.tables.donations ≡ some (checked tolerance now result d)
apply_verification-row rate_cap tolerance now id result d db c found ok =
    let (e, found_e, not_revoked, run) =
      apply_verification-done rate_cap tolerance now id result db c ok in
    let same : e ≡ d = ground (arith, found, found_e) in
    let own =
      write_verification-row tolerance now result e db (find_own id e db.donations found_e) in
    ap (find donation_id id) (
      sym (
        recalculate_and_commit-donations rate_cap e.token_id true
          (write_verification tolerance now result e db) c run))
    ∙ subst
        (λ k.
          find donation_id k (write_verification tolerance now result e db).donations
          ≡ some (checked tolerance now result e))
        (find-key donation_id id db.donations e found_e) own
    ∙ ap (λ r. some (checked tolerance now result r)) same

-- A sequence of checks of one donation, the first one first, that stops at an error.
unfoldable pub check_all :
    ℤ → ℤ → ℕ → ℕ → List DonationVerification → Tables → Result StoreError Tables
check_all rate_cap tolerance now id [] db = done db
check_all rate_cap tolerance now id (result ∷ results) db =
    and_then (apply_verification rate_cap tolerance now id result db)
      (λ c. check_all rate_cap tolerance now id results c.tables)

check_all-first :
    (rate_cap tolerance : ℤ) (now id : ℕ) (result : DonationVerification)
    (results : List DonationVerification) (db after : Tables)
    → check_all rate_cap tolerance now id (result ∷ results) db ≡ done after
    → (c : Commit) × (apply_verification rate_cap tolerance now id result db ≡ done c)
      × (check_all rate_cap tolerance now id results c.tables ≡ done after)
unfolding check_all
check_all-first rate_cap tolerance now id result results db after ok =
    Result-split (apply_verification rate_cap tolerance now id result db) refl
  where
    Result-split :
        (r : Result StoreError Commit)
        → apply_verification rate_cap tolerance now id result db ≡ r
        → (c : Commit) × (apply_verification rate_cap tolerance now id result db ≡ done c)
          × (check_all rate_cap tolerance now id results c.tables ≡ done after)
    Result-split (failed e) is = let impossible : ⊥ = ground (arith, is, ok) in elim impossible [ ]
    Result-split (done c) is = (c, is, ground (arith, is, ok))

abbrev pub IsFailure : DonationVerification → Type 0
IsFailure result = result.valid ≡ false

abbrev pub IsTransientFailure : DonationVerification → Type 0
IsTransientFailure result = (result.valid ≡ false) × (result.transient ≡ true)

failure_leaves_inactive :
    (tolerance : ℤ) (now : ℕ) (result : DonationVerification) (d : Donation)
    → IsFailure result
    → d.reward_active ≡ false
    → (checked tolerance now result d).reward_active ≡ false
unfolding checked
failure_leaves_inactive tolerance now result d invalid off = ground (arith, invalid, off)

stays_inactive :
    (rate_cap tolerance : ℤ) (now id : ℕ) (results : List DonationVerification) (d : Donation)
    (db after : Tables)
    → All IsTransientFailure results
    → find donation_id id db.donations ≡ some d
    → d.reward_active ≡ false
    → check_all rate_cap tolerance now id results db ≡ done after
    → (row : Donation) × (find donation_id id after.donations ≡ some row)
      × (row.reward_active ≡ false)
unfolding check_all
stays_inactive rate_cap tolerance now id [] d db after h found off ok =
    (d, ground (arith, found, ok), off)
stays_inactive rate_cap tolerance now id (result ∷ results) d db after h found off ok =
    let (c, first, rest) = check_all-first rate_cap tolerance now id result results db after ok in
    stays_inactive rate_cap tolerance now id results (checked tolerance now result d) c.tables after
      h.1 (apply_verification-row rate_cap tolerance now id result d db c found first)
      (failure_leaves_inactive tolerance now result d h.0.0 off) rest

transient_failure :
    (tolerance : ℤ) (now : ℕ) (result : DonationVerification) (d : Donation)
    → IsTransientFailure result
    → d.reward_active ≡ true
    → ((checked tolerance now result d).reward_active
        ≡ ltb (d.failure_count + 1) (tolerated tolerance))
      × ((checked tolerance now result d).failure_count ≡ d.failure_count + 1)
unfolding checked
transient_failure tolerance now result d h on =
    (ground (arith, h.0, h.1, on), ground (arith, h.0, h.1, on))

-- An active donation with fewer failures than are tolerated, checked any number of times with a
-- transient failure each time: if all the checks commit, then its reward is still active exactly if
-- all its failures together are fewer than the setting tolerates (at least one).
pub check_all-transient :
    (rate_cap tolerance : ℤ) (now id : ℕ) (results : List DonationVerification) (d : Donation)
    (db after : Tables)
    → All IsTransientFailure results
    → find donation_id id db.donations ≡ some d
    → d.reward_active ≡ true
    → d.failure_count < tolerated tolerance
    → check_all rate_cap tolerance now id results db ≡ done after
    → (row : Donation) × (find donation_id id after.donations ≡ some row)
      × (row.reward_active ≡ ltb (d.failure_count + length results) (tolerated tolerance))
unfolding check_all
check_all-transient rate_cap tolerance now id [] d db after h found on few ok =
    (d, ground (arith, found, ok), ground (arith, on, few))
check_all-transient rate_cap tolerance now id (result ∷ results) d db after h found on few ok =
    let (c, first, rest) = check_all-first rate_cap tolerance now id result results db after ok in
    let row = apply_verification-row rate_cap tolerance now id result d db c found first in
    let (reward, count) = transient_failure tolerance now result d h.0 on in
    elim (Bool-cases (ltb (d.failure_count + 1) (tolerated tolerance))) [
      | inl below ↦
          let (last, at, is) =
            check_all-transient rate_cap tolerance now id results (checked tolerance now result d)
              c.tables after h.1 row (reward ∙ below) (ground (arith, below, count)) rest in
          (last, at, is ∙ ground (arith, count))
      | inr over ↦
          let (last, at, is) =
            stays_inactive rate_cap tolerance now id results (checked tolerance now result d)
              c.tables after h.1 row (reward ∙ over) rest in
          (last, at, is ∙ ground (arith, over))
    ]

-- ===== src/Donations/Preserved.antt =====
-- The transactions of api/store/donations.go on one donation or one token keep every reward token
-- at the limits that it is entitled to.
use far_mail.Base.{
  ℕ, ◌+◌, ◌≡◌, ◌≢◌, refl, sym, ◌∙◌, ap, subst, inl, inr, Bool, true, false, not, ◌&&◌, ◌||◌, List,
  [], ◌∷◌, ◌++◌, some, arith, Bool-cases, Option-cases, if_elim, leb, max,
}
use far_mail.Base.Int.{ℤ, pos_part}
use far_mail.Base.Table.{find, update, find-key}
use far_mail.Base.Result.{Result, done}
use far_mail.Text.{Bytes}
use far_mail.Donations.{
  Donation, RewardEvent, Tables, StoreError, Commit, active_sum, manual_sum, token_id, donation_id,
  recalculate, recalculate_and_commit,
}
use far_mail.Donations.Transactions.{
  DonationVerification, apply_verification, write_verification, set_revoked, write_revoked,
  adjust_token, adjustment, is_revoked, activated, deactivated, failed_once_more, restored,
  withdrawn, grant_event, revoke_event,
}
use far_mail.Donations.Settled.{
  SettledAt, IsSettled, IsSettledBut, SameSums, entitled_cong, active_sum-update, manual_sum-append,
  with_limits-settles,
}

-- A write that leaves the tokens, and the sums of all the others.
others_settled :
    (rate_cap : ℤ) (token : ℕ) (db after : Tables)
    → after.tokens ≡ db.tokens
    → ((other : ℕ) → other ≢ token → SameSums other after db)
    → IsSettled rate_cap db
    → IsSettledBut token rate_cap after
unfolding IsSettled IsSettledBut SettledAt
others_settled rate_cap token db after same_tokens same_sums h other distinct t found kind =
    h other t (ap (find token_id other) (sym same_tokens) ∙ found) kind
    ∙ sym (entitled_cong rate_cap other after db (same_sums other distinct))

commit-settles :
    (rate_cap : ℤ) (token : ℕ) (domains_too : Bool) (db : Tables) (c : Commit)
    → IsSettledBut token rate_cap db
    → recalculate_and_commit rate_cap token domains_too db ≡ done c
    → IsSettled rate_cap c.tables
unfolding recalculate_and_commit recalculate
commit-settles rate_cap token domains_too db c h ok =
    subst (IsSettled rate_cap) (ground (arith, ok)) (with_limits-settles rate_cap token db h)

-- One donation's row is written, and at most one event of its token is added.
data OneGrant (d : Donation) (db after : Tables) : Type 0 where
  quiet :
      (f : Donation → Donation)
      → (f d).token_id ≡ d.token_id
      → after.tokens ≡ db.tokens
      → after.donations ≡ update donation_id d.id f db.donations
      → after.events ≡ db.events
      → OneGrant d db after
  noted :
      (f : Donation → Donation) (e : RewardEvent)
      → (f d).token_id ≡ d.token_id
      → e.token_id ≡ d.token_id
      → after.tokens ≡ db.tokens
      → after.donations ≡ update donation_id d.id f db.donations
      → after.events ≡ db.events ++ e ∷ []
      → OneGrant d db after

OneGrant-settled :
    (rate_cap : ℤ) (d : Donation) (db after : Tables)
    → find donation_id d.id db.donations ≡ some d
    → OneGrant d db after
    → IsSettled rate_cap db
    → IsSettledBut d.token_id rate_cap after
OneGrant-settled rate_cap d db after found (quiet f keeps tokens donations events) =
    others_settled rate_cap d.token_id db after tokens (λ other distinct. record {
      active = λ r.
          ap (active_sum r other) donations
          ∙ active_sum-update r other d.id f d db.donations found distinct keeps;
      manual = λ δ. ap (manual_sum δ other) events;
    })
OneGrant-settled rate_cap d db after found (noted f e keeps of_token tokens donations events) =
    others_settled rate_cap d.token_id db after tokens (λ other distinct. record {
      active = λ r.
          ap (active_sum r other) donations
          ∙ active_sum-update r other d.id f d db.donations found distinct keeps;
      manual = λ δ.
          ap (manual_sum δ other) events
          ∙ manual_sum-append δ other e db.events (λ same. distinct (same ∙ of_token));
    })

write_verification-OneGrant :
    (tolerance : ℤ) (now : ℕ) (result : DonationVerification) (d : Donation) (db : Tables)
    → OneGrant d db (write_verification tolerance now result d db)
unfolding write_verification
write_verification-OneGrant tolerance now result d db =
    if_elim (OneGrant d db) result.valid _ _
      (λ _. elim (Bool-cases d.reward_active) [
        | inl on ↦ quiet (activated now) refl refl refl (ground (arith, on))
        | inr off ↦
            noted (activated now) (grant_event d result.status) refl refl refl refl
              (ground (arith, off))
      ])
      (λ _.
        if_elim (OneGrant d db)
          (d.reward_active
            && (not result.transient || leb (max 1 (pos_part tolerance)) (d.failure_count + 1)))
          _ _
          (λ _.
            noted (deactivated now result.status) (revoke_event d result.status) refl refl refl refl
              refl)
          (λ _. quiet (failed_once_more now result.status) refl refl refl refl))

write_revoked-OneGrant :
    (now : ℕ) (revoke_it : Bool) (note : Bytes) (d : Donation) (db : Tables)
    → OneGrant d db (write_revoked now revoke_it note d db)
unfolding write_revoked
write_revoked-OneGrant now false note d db = quiet restored refl refl refl refl
write_revoked-OneGrant now true note d db = elim (Bool-cases d.reward_active) [
  | inl on ↦
      noted (withdrawn now note) (revoke_event d note) refl refl refl refl (ground (arith, on))
  | inr off ↦ quiet (withdrawn now note) refl refl refl (ground (arith, off))
]

-- The three transactions of an administrator, the checker and the owner of a donation.
pub data Transaction : Type 0 where
  verify : ℕ → DonationVerification → Transaction
  set_revocation : ℕ → Bool → Bytes → Transaction
  adjust : ℕ → ℤ → ℤ → ℤ → Bytes → Transaction

-- A transaction at a time, at the settings of the rate cap and the tolerance.
unfoldable pub transact : ℤ → ℤ → ℕ → Transaction → Tables → Result StoreError Commit
transact rate_cap tolerance now (verify id result) db =
    apply_verification rate_cap tolerance now id result db
transact rate_cap tolerance now (set_revocation id revoke_it note) db =
    set_revoked rate_cap now id revoke_it note db
transact rate_cap tolerance now (adjust token total_delta daily_delta rpm_delta note) db =
    adjust_token rate_cap token total_delta daily_delta rpm_delta note db

-- What a committed verification ran: the donation, and the recalculation after the writes.
pub apply_verification-done :
    (rate_cap tolerance : ℤ) (now id : ℕ) (result : DonationVerification) (db : Tables) (c : Commit)
    → apply_verification rate_cap tolerance now id result db ≡ done c
    → (d : Donation) × (find donation_id id db.donations ≡ some d)
      × (is_revoked d ≡ false)
      × (recalculate_and_commit rate_cap d.token_id true
            (write_verification tolerance now result d db)
          ≡ done c)
unfolding apply_verification
apply_verification-done rate_cap tolerance now id result db c ok =
    elim (Option-cases (find donation_id id db.donations)) [
      | inl absent ↦ let impossible : ⊥ = ground (arith, absent, ok) in elim impossible [ ]
      | inr found ↦ (found.0, found.1, ground (arith, found.1, ok), ground (arith, found.1, ok))
    ]

pub set_revoked-done :
    (rate_cap : ℤ) (now id : ℕ) (revoke_it : Bool) (note : Bytes) (db : Tables) (c : Commit)
    → set_revoked rate_cap now id revoke_it note db ≡ done c
    → (d : Donation) × (find donation_id id db.donations ≡ some d)
      × (recalculate_and_commit rate_cap d.token_id true (write_revoked now revoke_it note d db)
          ≡ done c)
unfolding set_revoked
set_revoked-done rate_cap now id revoke_it note db c ok =
    elim (Option-cases (find donation_id id db.donations)) [
      | inl absent ↦ let impossible : ⊥ = ground (arith, absent, ok) in elim impossible [ ]
      | inr found ↦ (found.0, found.1, ground (arith, found.1, ok))
    ]

adjust_token-done :
    (rate_cap : ℤ) (token : ℕ) (total_delta daily_delta rpm_delta : ℤ) (note : Bytes) (db : Tables)
    (c : Commit)
    → adjust_token rate_cap token total_delta daily_delta rpm_delta note db ≡ done c
    → recalculate_and_commit rate_cap token false (record db {
      events = db.events ++ adjustment token total_delta daily_delta rpm_delta note ∷ [];
    })
      ≡ done c
unfolding adjust_token
adjust_token-done rate_cap token total_delta daily_delta rpm_delta note db c ok = ground (arith, ok)

pub find_own :
    (id : ℕ) (d : Donation) (ds : List Donation)
    → find donation_id id ds ≡ some d
    → find donation_id d.id ds ≡ some d
find_own id d ds found =
    subst (λ k. find donation_id k ds ≡ some d) (sym (find-key donation_id id ds d found)) found

-- If every reward token carries the limits it is entitled to, then it does so after a verification,
-- a revocation or its undoing, or a manual adjustment that commits: the rewards of the token's
-- active donations and its manual adjustments, at least 0, the rate cut at the cap.
pub transact-IsSettled :
    (rate_cap tolerance : ℤ) (now : ℕ) (transaction : Transaction) (db : Tables) (c : Commit)
    → IsSettled rate_cap db
    → transact rate_cap tolerance now transaction db ≡ done c
    → IsSettled rate_cap c.tables
unfolding transact
transact-IsSettled rate_cap tolerance now (verify id result) db c h ok =
    let (d, found, not_revoked, run) =
      apply_verification-done rate_cap tolerance now id result db c ok in
    commit-settles rate_cap d.token_id true (write_verification tolerance now result d db) c
      (OneGrant-settled rate_cap d db (write_verification tolerance now result d db)
        (find_own id d db.donations found) (write_verification-OneGrant tolerance now result d db)
        h)
      run
transact-IsSettled rate_cap tolerance now (set_revocation id revoke_it note) db c h ok =
    let (d, found, run) = set_revoked-done rate_cap now id revoke_it note db c ok in
    commit-settles rate_cap d.token_id true (write_revoked now revoke_it note d db) c
      (OneGrant-settled rate_cap d db (write_revoked now revoke_it note d db)
        (find_own id d db.donations found) (write_revoked-OneGrant now revoke_it note d db) h)
      run
transact-IsSettled rate_cap tolerance now (adjust token total_delta daily_delta rpm_delta note) db c
      h ok =
    let e = adjustment token total_delta daily_delta rpm_delta note in
    commit-settles rate_cap token false (record db { events = db.events ++ e ∷ [] }) c
      (others_settled rate_cap token db (record db { events = db.events ++ e ∷ [] }) refl
        (λ other distinct. record {
          active = λ r. refl;
          manual = λ δ. manual_sum-append δ other e db.events distinct;
        })
        h)
      (adjust_token-done rate_cap token total_delta daily_delta rpm_delta note db c ok)

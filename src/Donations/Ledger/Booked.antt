-- ===== src/Donations/Ledger/Booked.antt =====
-- Each transaction on one donation keeps the ledger of api/store/donations.go.
use mathlib.Core.Option
use far_mail.Base.{
  &&-eq-true, ℕ, ◌+◌, ◌≡◌, ◌≢◌, refl, sym, ◌∙◌, ap, subst, inl, inr, Bool, true, false, not, ◌&&◌,
  ◌||◌, List, [], ◌∷◌, ◌++◌, some, arith, ◌==◌, ==_iff, if◌then◌else◌, Bool-cases, if_elim, leb,
  max,
}
use far_mail.Base.Int.{ℤ, pos, pos_part, neg, ◌+ℤ◌}
use far_mail.Base.Table.{find, update, find-update}
use far_mail.Base.Result.{done}
use far_mail.Text.{Bytes}
use far_mail.Donations.{
  Donation, RewardEvent, Tables, Commit, donation_id, recalculate, recalculate_and_commit,
}
use far_mail.Donations.Preserved.{apply_verification-done, set_revoked-done, find_own}
use far_mail.Donations.Transactions.{
  DonationVerification, apply_verification, set_revoked, write_verification, write_revoked,
  activated, deactivated, failed_once_more, restored, withdrawn, grant_event, revoke_event,
}
use far_mail.Donations.Ledger.{
  Quantity, total_limit, daily_limit, rpm_limit, delta_of, reward_of, is_of, ledger, contribution,
  IsBooked, +ℤ_zero, zero_+ℤ, +ℤ_neg, ledger-append,
}

-- One donation's row is rewritten, and the ledger of that donation alone.
rebooked :
    (db after : Tables) (d : Donation) (f : Donation → Donation)
    → find donation_id d.id db.donations ≡ some d
    → ((r : Donation) → donation_id (f r) ≡ donation_id r)
    → after.donations ≡ update donation_id d.id f db.donations
    → ((q : Quantity) → ledger q d.id after.events ≡ contribution q (f d))
    → ((q : Quantity) (other : ℕ)
        → other ≢ d.id
        → ledger q other after.events ≡ ledger q other db.events)
    → IsBooked db
    → IsBooked after
unfolding IsBooked
rebooked db after d f found keeps written own others h q id r row = elim (Bool-cases (d.id == id)) [
  | inl same ↦
      let here : f d ≡ r = ground (arith, read_back, same, found, ==_iff d.id id) in
      subst (λ k. ledger q k after.events ≡ contribution q r) ((==_iff d.id id).0 same)
        (own q ∙ ap (contribution q) here)
  | inr distinct ↦
      others q id (λ e. ground (arith, e, distinct, ==_iff d.id id))
      ∙ h q id r (ground (arith, read_back, distinct))
]
  where
    read_back :
        (if d.id == id
          then Option.map f (find donation_id d.id db.donations)
          else find donation_id id db.donations)
        ≡ some r
    read_back =
        sym (find-update donation_id id d.id f db.donations keeps)
        ∙ ap (find donation_id id) (sym written)
        ∙ row

-- An event of another donation is not booked.
booked_elsewhere :
    (q : Quantity) (other : ℕ) (es : List RewardEvent) (e : RewardEvent)
    → is_of other e ≡ false
    → ledger q other (es ++ e ∷ []) ≡ ledger q other es
booked_elsewhere q other es e h =
    ledger-append q other es e
    ∙ ap (λ b. ledger q other es +ℤ (if b then delta_of q e else pos 0)) h
    ∙ +ℤ_zero (ledger q other es)

booked_here :
    (q : Quantity) (id : ℕ) (es : List RewardEvent) (e : RewardEvent)
    → is_of id e ≡ true
    → ledger q id (es ++ e ∷ []) ≡ ledger q id es +ℤ delta_of q e
booked_here q id es e h =
    ledger-append q id es e ∙ ap (λ b. ledger q id es +ℤ (if b then delta_of q e else pos 0)) h

-- A grant to an inactive donation, and a revocation of an active one.
granted :
    (q : Quantity) (d : Donation) (note : Bytes) (es : List RewardEvent)
    → ledger q d.id es ≡ contribution q d
    → d.reward_active ≡ false
    → ledger q d.id (es ++ grant_event d note ∷ []) ≡ pos (reward_of q d)
granted q d note es booked off =
    booked_here q d.id es (grant_event d note) (ground arith)
    ∙ ap (λ a. a +ℤ delta_of q (grant_event d note)) (booked ∙ ground (arith, off))
    ∙ zero_+ℤ (delta_of q (grant_event d note))
    ∙ grant_delta q
  where
    grant_delta : (k : Quantity) → delta_of k (grant_event d note) ≡ pos (reward_of k d)
    grant_delta total_limit = refl
    grant_delta daily_limit = refl
    grant_delta rpm_limit = refl

taken_back :
    (q : Quantity) (d : Donation) (note : Bytes) (es : List RewardEvent)
    → ledger q d.id es ≡ contribution q d
    → d.reward_active ≡ true
    → ledger q d.id (es ++ revoke_event d note ∷ []) ≡ pos 0
taken_back q d note es booked on =
    booked_here q d.id es (revoke_event d note) (ground arith)
    ∙ ap (λ a. a +ℤ delta_of q (revoke_event d note)) (booked ∙ ground (arith, on))
    ∙ ap (◌+ℤ◌ (pos (reward_of q d))) (revoke_delta q)
    ∙ +ℤ_neg (reward_of q d)
  where
    revoke_delta : (k : Quantity) → delta_of k (revoke_event d note) ≡ neg (pos (reward_of k d))
    revoke_delta total_limit = refl
    revoke_delta daily_limit = refl
    revoke_delta rpm_limit = refl

not_of_other :
    (d : Donation) (sign : Donation → Bytes → RewardEvent) (note : Bytes) (other : ℕ)
    → (sign d note).donation_id ≡ some d.id
    → other ≢ d.id
    → is_of other (sign d note) ≡ false
not_of_other d sign note other h distinct = ground (arith, h, ==_iff d.id other)

rebooked_quiet :
    (db after : Tables) (d : Donation) (f : Donation → Donation)
    → find donation_id d.id db.donations ≡ some d
    → ((r : Donation) → donation_id (f r) ≡ donation_id r)
    → after.donations ≡ update donation_id d.id f db.donations
    → after.events ≡ db.events
    → ((q : Quantity) → contribution q d ≡ contribution q (f d))
    → IsBooked db
    → IsBooked after
unfolding IsBooked
rebooked_quiet db after d f found keeps written events same h =
    rebooked db after d f found keeps written
      (λ q. ap (ledger q d.id) events ∙ h q d.id d found ∙ same q)
      (λ q other distinct. ap (ledger q other) events) h

rebooked_noted :
    (db after : Tables) (d : Donation) (f : Donation → Donation)
    (event : Donation → Bytes → RewardEvent) (note : Bytes)
    → find donation_id d.id db.donations ≡ some d
    → ((r : Donation) → donation_id (f r) ≡ donation_id r)
    → after.donations ≡ update donation_id d.id f db.donations
    → after.events ≡ db.events ++ event d note ∷ []
    → (event d note).donation_id ≡ some d.id
    → ((q : Quantity)
        → ledger q d.id db.events ≡ contribution q d
        → ledger q d.id (db.events ++ event d note ∷ []) ≡ contribution q (f d))
    → IsBooked db
    → IsBooked after
unfolding IsBooked
rebooked_noted db after d f event note found keeps written events of_donation own h =
    rebooked db after d f found keeps written
      (λ q. ap (ledger q d.id) events ∙ own q (h q d.id d found))
      (λ q other distinct.
        ap (ledger q other) events
        ∙ booked_elsewhere q other db.events (event d note)
            (not_of_other d event note other of_donation distinct))
      h

reward_of-activated :
    (q : Quantity) (now : ℕ) (d : Donation)
    → pos (reward_of q d) ≡ pos (reward_of q (activated now d))
reward_of-activated total_limit now d = refl
reward_of-activated daily_limit now d = refl
reward_of-activated rpm_limit now d = refl

contribution-failed_once_more :
    (q : Quantity) (now : ℕ) (error : Bytes) (d : Donation)
    → contribution q d ≡ contribution q (failed_once_more now error d)
contribution-failed_once_more total_limit now error d = refl
contribution-failed_once_more daily_limit now error d = refl
contribution-failed_once_more rpm_limit now error d = refl

write_verification-IsBooked :
    (tolerance : ℤ) (now : ℕ) (result : DonationVerification) (d : Donation) (db : Tables)
    → find donation_id d.id db.donations ≡ some d
    → IsBooked db
    → IsBooked (write_verification tolerance now result d db)
unfolding write_verification
write_verification-IsBooked tolerance now result d db found h =
    if_elim IsBooked result.valid _ _
      (λ _. elim (Bool-cases d.reward_active) [
        | inl on ↦
            rebooked_quiet db _ d (activated now) found (λ r. refl) refl (ground (arith, on))
              (λ q. ground (arith, on)) h
        | inr off ↦
            rebooked_noted db _ d (activated now) grant_event result.status found (λ r. refl) refl
              (ground (arith, off)) refl
              (λ q booked.
                granted q d result.status db.events booked off ∙ reward_of-activated q now d)
              h
      ])
      (λ _.
        if_elim IsBooked
          (d.reward_active
            && (not result.transient || leb (max 1 (pos_part tolerance)) (d.failure_count + 1)))
          _ _
          (λ over.
            rebooked_noted db _ d (deactivated now result.status) revoke_event result.status found
              (λ r. refl) refl refl refl
              (λ q booked.
                taken_back q d result.status db.events booked (&&-eq-true d.reward_active _ over).0)
              h)
          (λ _.
            rebooked_quiet db _ d (failed_once_more now result.status) found (λ r. refl) refl refl
              (λ q. contribution-failed_once_more q now result.status d) h))

-- Undoing a revocation books nothing, so the donation must have been revoked, and be inactive.
write_revoked-IsBooked :
    (now : ℕ) (revoke_it : Bool) (note : Bytes) (d : Donation) (db : Tables)
    → find donation_id d.id db.donations ≡ some d
    → revoke_it || not d.reward_active ≡ true
    → IsBooked db
    → IsBooked (write_revoked now revoke_it note d db)
unfolding write_revoked
write_revoked-IsBooked now false note d db found allowed h =
    rebooked_quiet db _ d restored found (λ r. refl) refl refl (λ q. ground (arith, allowed)) h
write_revoked-IsBooked now true note d db found allowed h = elim (Bool-cases d.reward_active) [
  | inl on ↦
      rebooked_noted db _ d (withdrawn now note) revoke_event note found (λ r. refl) refl
        (ground (arith, on)) refl (λ q booked. taken_back q d note db.events booked on) h
  | inr off ↦
      rebooked_quiet db _ d (withdrawn now note) found (λ r. refl) refl (ground (arith, off))
        (λ q. ground (arith, off)) h
]

-- The recalculation writes the tokens only.
commit-IsBooked :
    (rate_cap : ℤ) (token : ℕ) (domains_too : Bool) (db : Tables) (c : Commit)
    → IsBooked db
    → recalculate_and_commit rate_cap token domains_too db ≡ done c
    → IsBooked c.tables
unfolding recalculate_and_commit recalculate IsBooked
commit-IsBooked rate_cap token domains_too db c h ok q id d found =
    let same_donations : db.donations ≡ c.tables.donations = ground (arith, ok) in
    let same_events : db.events ≡ c.tables.events = ground (arith, ok) in
    ap (ledger q id) (sym same_events) ∙ h q id d (ap (find donation_id id) same_donations ∙ found)

-- If the events of every donation add up to its reward while it is active and to 0 otherwise, for
-- each of the three amounts, then they still do after a verification that commits.
pub apply_verification-IsBooked :
    (rate_cap tolerance : ℤ) (now id : ℕ) (result : DonationVerification) (db : Tables) (c : Commit)
    → IsBooked db
    → apply_verification rate_cap tolerance now id result db ≡ done c
    → IsBooked c.tables
apply_verification-IsBooked rate_cap tolerance now id result db c h ok =
    let (d, found, not_revoked, run) =
      apply_verification-done rate_cap tolerance now id result db c ok in
    commit-IsBooked rate_cap d.token_id true (write_verification tolerance now result d db) c
      (write_verification-IsBooked tolerance now result d db (find_own id d db.donations found) h)
      run

-- If the events of every donation add up to its reward while it is active and to 0 otherwise, for
-- each of the three amounts, then they still do after a revocation that commits, and after undoing
-- one if the donation is inactive.
pub set_revoked-IsBooked :
    (rate_cap : ℤ) (now id : ℕ) (revoke_it : Bool) (note : Bytes) (db : Tables) (c : Commit)
    → IsBooked db
    → ((d : Donation)
        → find donation_id id db.donations ≡ some d
        → revoke_it || not d.reward_active ≡ true)
    → set_revoked rate_cap now id revoke_it note db ≡ done c
    → IsBooked c.tables
set_revoked-IsBooked rate_cap now id revoke_it note db c h allowed ok =
    let (d, found, run) = set_revoked-done rate_cap now id revoke_it note db c ok in
    commit-IsBooked rate_cap d.token_id true (write_revoked now revoke_it note d db) c
      (write_revoked-IsBooked now revoke_it note d db (find_own id d db.donations found)
        (allowed d found) h)
      run

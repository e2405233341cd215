-- ===== src/Donations/Policy/Applied.antt =====
-- A new policy that is applied to the existing donations leaves every reward token at the limits
-- that it is entitled to.
use mathlib.Core.Option
use far_mail.Base.{
  ℕ, ◌≡◌, ◌≢◌, refl, sym, ◌∙◌, ap, subst, inl, inr, false, not, List, [], ◌∷◌, some, arith, ◌==◌,
  ==_iff, if◌then◌else◌, Bool-cases, if_elim, All, Elem, keep,
}
use far_mail.Base.Int.{ℤ}
use far_mail.Base.Table.{find, update, find-update}
use far_mail.Base.Result.{done, and_then-done}
use far_mail.Text.{Bytes}
use far_mail.Store.{mem_ℕ}
use far_mail.Donations.{
  Donation, Tables, DonationPolicy, Commit, donation_id, recalculate, lock_donation_token,
}
use far_mail.Donations.Transactions.{is_revoked}
use far_mail.Donations.Settled.{
  SettledAt, IsSettled, SameSums, entitled_cong, active_sum-update, manual_sum-append, with_limits,
  recalculate-done, with_limits-settles-at,
}
use far_mail.Donations.Policy.{
  insert_id, token_ids, grants_of, lock_all, with_policy, policy_event, write_grant, write_grants,
  recalculate_all, apply_policy,
}

-- Settled for the tokens that are not in the list.
IsSettledOutside : List ℕ → ℤ → Tables → Type 0
IsSettledOutside tokens rate_cap db =
    (other : ℕ) → mem_ℕ other tokens ≡ false → SettledAt rate_cap db other

-- The row that an id names belongs to the same token.
HeldAs : Tables → Donation → Type 0
HeldAs db g =
    (d : Donation) × (find donation_id g.id db.donations ≡ some d) × (d.token_id ≡ g.token_id)

-- The ids of the donations are a primary key: each row is the one that its id names.
abbrev pub HasPrimaryKey : List Donation → Type 0
HasPrimaryKey ds = (d : Donation) → Elem d ds → find donation_id d.id ds ≡ some d

mem-insert_id :
    (other id : ℕ) (js : List ℕ)
    → mem_ℕ other (insert_id id js) ≡ false
    → (other ≢ id) × (mem_ℕ other js ≡ false)
unfolding insert_id
mem-insert_id other id [] h = ((λ e. ground (arith, h, e)), ground (arith, h))
mem-insert_id other id (j ∷ js) h = (
  (λ e. ground (arith, h, e, mem-insert_id other id js)),
  ground (arith, h, mem-insert_id other id js),
)

HeldAs-write_grant :
    (note : Bytes) (policy : DonationPolicy) (g x : Donation) (db : Tables)
    → HeldAs db g
    → HeldAs db x
    → HeldAs (write_grant note policy g db) x
unfolding write_grant HeldAs
HeldAs-write_grant note policy g x db (d, found, token) (e, at, same) =
    elim (Bool-cases (g.id == x.id)) [
      | inl here ↦ (
        with_policy policy d,
        read_back ∙ ground (arith, here, found),
        ground (arith, here, found, at, same, (==_iff g.id x.id).0 here),
      )
      | inr there ↦ (e, read_back ∙ ground (arith, there, at), same)
    ]
  where
    read_back :
        find donation_id x.id (update donation_id g.id (with_policy policy) db.donations) ≡ (
          if g.id == x.id
          then Option.map (with_policy policy) (find donation_id g.id db.donations)
          else find donation_id x.id db.donations)
    read_back = find-update donation_id x.id g.id (with_policy policy) db.donations (λ r. refl)

write_grant-SameSums :
    (note : Bytes) (policy : DonationPolicy) (g : Donation) (other : ℕ) (db : Tables)
    → HeldAs db g
    → other ≢ g.token_id
    → SameSums other (write_grant note policy g db) db
unfolding write_grant HeldAs
write_grant-SameSums note policy g other db (d, found, token) distinct = record {
  active = λ r.
      active_sum-update r other g.id (with_policy policy) d db.donations found
        (λ e. distinct (e ∙ token)) refl;
  manual = λ δ. manual_sum-append δ other (policy_event note policy g) db.events distinct;
}

write_grant-outside :
    (note : Bytes) (policy : DonationPolicy) (rate_cap : ℤ) (tokens : List ℕ) (g : Donation)
    (db : Tables)
    → HeldAs db g
    → ((other : ℕ) → mem_ℕ other tokens ≡ false → other ≢ g.token_id)
    → IsSettledOutside tokens rate_cap db
    → IsSettledOutside tokens rate_cap (write_grant note policy g db)
unfolding IsSettledOutside SettledAt write_grant
write_grant-outside note policy rate_cap tokens g db held apart h other out t found kind =
    h other out t found kind
    ∙ sym (
        entitled_cong rate_cap other (write_grant note policy g db) db
          (write_grant-SameSums note policy g other db held (apart other out)))

All-held :
    (note : Bytes) (policy : DonationPolicy) (g : Donation) (grants : List Donation) (db : Tables)
    → HeldAs db g
    → All (HeldAs db) grants
    → All (HeldAs (write_grant note policy g db)) grants
All-held note policy g [] db held h = tt
All-held note policy g (x ∷ grants) db held h =
    (HeldAs-write_grant note policy g x db held h.0, All-held note policy g grants db held h.1)

write_grants-outside :
    (note : Bytes) (policy : DonationPolicy) (rate_cap : ℤ) (tokens : List ℕ)
    (grants : List Donation) (db after : Tables)
    → All (HeldAs db) grants
    → ((other : ℕ) → mem_ℕ other tokens ≡ false → All (λ g. other ≢ g.token_id) grants)
    → IsSettledOutside tokens rate_cap db
    → write_grants note policy grants db ≡ done after
    → IsSettledOutside tokens rate_cap after
unfolding write_grants
write_grants-outside note policy rate_cap tokens [] db after held apart h ok =
    subst (IsSettledOutside tokens rate_cap) (ground (arith, ok)) h
write_grants-outside note policy rate_cap tokens (g ∷ grants) db after held apart h ok =
    write_grants-outside note policy rate_cap tokens grants (write_grant note policy g db) after
      (All-held note policy g grants db held.0 held.1) (λ other out. (apart other out).1)
      (write_grant-outside note policy rate_cap tokens g db held.0
        (λ other out. (apart other out).0) h)
      (ground (arith, ok))

recalculate_all-settles :
    (rate_cap : ℤ) (tokens : List ℕ) (db after : Tables)
    → IsSettledOutside tokens rate_cap db
    → recalculate_all rate_cap tokens db ≡ done after
    → IsSettled rate_cap after
unfolding recalculate_all IsSettledOutside IsSettled
recalculate_all-settles rate_cap [] db after h ok = nothing_left h (ground (arith, ok))
  where
    nothing_left : IsSettledOutside [] rate_cap db → db ≡ after → IsSettled rate_cap after
    nothing_left settled same = subst (IsSettled rate_cap) same (λ other. settled other refl)
recalculate_all-settles rate_cap (token ∷ tokens) db after h ok =
    let (next, first, rest) =
      and_then-done (recalculate rate_cap token db) (recalculate_all rate_cap tokens) after ok in
    recalculate_all-settles rate_cap tokens next after
      (subst (IsSettledOutside tokens rate_cap) (recalculate-done rate_cap token db next first)
        (one_less h))
      rest
  where
    one_less :
        IsSettledOutside (token ∷ tokens) rate_cap db
        → IsSettledOutside tokens rate_cap (with_limits rate_cap token db)
    one_less settled other out =
        with_limits-settles-at rate_cap token other db
          (λ distinct. settled other (ground (arith, out, ==_iff other token, distinct)))

apart_from-token_ids :
    (other : ℕ) (grants : List Donation)
    → mem_ℕ other (token_ids grants) ≡ false
    → All (λ g. other ≢ g.token_id) grants
unfolding token_ids
apart_from-token_ids other [] h = tt
apart_from-token_ids other (g ∷ grants) h =
    let (distinct, rest) = mem-insert_id other g.token_id (token_ids grants) h in
    (distinct, apart_from-token_ids other grants rest)

keep-HeldAs :
    (db : Tables) (ds : List Donation)
    → ((d : Donation) → Elem d ds → find donation_id d.id db.donations ≡ some d)
    → All (HeldAs db) (keep (λ d. not (is_revoked d)) ds)
unfolding HeldAs
keep-HeldAs db [] h = tt
keep-HeldAs db (d ∷ ds) h =
    if_elim (All (HeldAs db)) (not (is_revoked d)) _ _
      (λ _. ((d, h d (inl refl), refl), keep-HeldAs db ds (λ x at. h x (inr at))))
      (λ _. keep-HeldAs db ds (λ x at. h x (inr at)))

lock_all-done :
    (tokens : List ℕ) (db locked : Tables) → lock_all tokens db ≡ done locked → db ≡ locked
unfolding lock_all
lock_all-done [] db locked ok = ground (arith, ok)
lock_all-done (token ∷ tokens) db locked ok =
    let (t, first, rest) =
      and_then-done (lock_donation_token token db) (λ t. lock_all tokens db) locked ok in
    lock_all-done tokens db locked rest

settled_outside :
    (tokens : List ℕ) (rate_cap : ℤ) (db : Tables)
    → IsSettled rate_cap db
    → IsSettledOutside tokens rate_cap db
unfolding IsSettled IsSettledOutside
settled_outside tokens rate_cap db h other out = h other

-- If the ids of the donations are a primary key and every reward token carries the limits it is
-- entitled to, then every reward token carries the limits it is entitled to after the new policy
-- has been applied to the existing donations, if that commits.
pub apply_policy-IsSettled :
    (rate_cap : ℤ) (note : Bytes) (policy : DonationPolicy) (db : Tables) (c : Commit)
    → HasPrimaryKey db.donations
    → IsSettled rate_cap db
    → apply_policy rate_cap note policy db ≡ done c
    → IsSettled rate_cap c.tables
unfolding apply_policy grants_of
apply_policy-IsSettled rate_cap note policy db c key h ok =
    let grants = grants_of db in
    let (locked, first, rest) = and_then-done (lock_all (token_ids grants) db) _ c ok in
    let (written, second, last) = and_then-done (write_grants note policy grants locked) _ c rest in
    let (after, third, end) =
      and_then-done (recalculate_all rate_cap (token_ids grants) written) _ c last in
    let same : db ≡ locked = lock_all-done (token_ids grants) db locked first in
    subst (IsSettled rate_cap) (ground (arith, end)) (
      recalculate_all-settles rate_cap (token_ids grants) written after
        (write_grants-outside note policy rate_cap (token_ids grants) grants db written
          (keep-HeldAs db db.donations key) (λ other. apart_from-token_ids other grants)
          (settled_outside (token_ids grants) rate_cap db h)
          (ap (write_grants note policy grants) same ∙ second))
        third)

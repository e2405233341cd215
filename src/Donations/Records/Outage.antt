-- ===== src/Donations/Records/Outage.antt =====
-- What an outage of the resolver in api/store/donation_dns.go does to the reward of a donation in
-- api/store/donations.go.
use far_mail.Base.{
  ℕ, ◌+◌, ◌<◌, ◌≡◌, ◌≢◌, refl, sym, ◌∙◌, ap, subst, ◌⊎◌, inl, inr, Bool, true, false, ◌&&◌, ◌||◌,
  List, [], ◌∷◌, ◌++◌, some, arith, Bool-cases, Elem,
}
use far_mail.Base.Int.{ℤ}
use far_mail.Base.Table.{find}
use far_mail.Base.Result.{done}
use far_mail.Text.{Bytes, codes, to_lower, trim_space}
use far_mail.Ingress.Address.{is_empty}
use far_mail.Donations.{Donation, Tables, Commit, donation_id}
use far_mail.Donations.Transactions.{DonationVerification, apply_verification}
use far_mail.Donations.Tolerance.{checked, tolerated, apply_verification-row}
use far_mail.Donations.Records.{
  answered, failed, Resolver, trim_dot, clean_name, check_txt, pointed, elsewhere, check_hosts,
  judge_hosts, judge_mx, check_records,
}
use far_mail.Donations.Records.Passed.{IsProved, Answer-cases, check_records-judged}

-- A lookup that the check needs fails for the moment: the TXT record; with the TXT value found, the
-- MX record; or a mail host, none of them being the server.
abbrev pub IsOutage : Resolver → Bytes → Bytes → Bytes → Type 0
IsOutage dns domain ip expected =
    (dns.lookup_txt (codes "_far-mail-donate." ++ clean_name domain) ≡ failed true)
    ⊎ (IsProved dns domain expected
        × ((dns.lookup_mx (clean_name domain) ≡ failed true)
            ⊎ ((trim_space ip ≢ [])
                × ((mxs : List Bytes) × (mx : Bytes) × (dns.lookup_mx (clean_name domain)
                      ≡ answered mxs)
                    × Elem mx mxs
                    × (dns.lookup_host (trim_dot (to_lower mx)) ≡ failed true)))))

check_hosts-outage :
    (dns : Resolver) (ip hostname : Bytes) (mxs : List Bytes)
    → (check_hosts dns ip hostname true mxs ≡ pointed)
      ⊎ (check_hosts dns ip hostname true mxs ≡ elsewhere true)
unfolding check_hosts
check_hosts-outage dns ip hostname [] = inr refl
check_hosts-outage dns ip hostname (mx ∷ mxs) =
    let rest = check_hosts-outage dns ip hostname mxs in
    elim (Answer-cases (dns.lookup_host (trim_dot (to_lower mx)))) [
      | inl (t, fails) ↦ ground (arith, rest, fails)
      | inr (addrs, finds) ↦ ground (arith, rest, finds)
    ]

check_hosts-fails :
    (dns : Resolver) (ip hostname mx : Bytes) (outage : Bool) (mxs : List Bytes)
    → is_empty ip ≡ false
    → Elem mx mxs
    → dns.lookup_host (trim_dot (to_lower mx)) ≡ failed true
    → (check_hosts dns ip hostname outage mxs ≡ pointed)
      ⊎ (check_hosts dns ip hostname outage mxs ≡ elsewhere true)
unfolding check_hosts
check_hosts-fails dns ip hostname mx outage [] set at fails = elim at [ ]
check_hosts-fails dns ip hostname mx outage (host ∷ mxs) set (inl e) fails =
    let here : dns.lookup_host (trim_dot (to_lower host)) ≡ failed true =
      ap (λ x. dns.lookup_host (trim_dot (to_lower x))) (sym e) ∙ fails in
    elim (Bool-cases outage) [
      | inl out ↦ ground (arith, check_hosts-outage dns ip hostname mxs, set, here, out)
      | inr off ↦ ground (arith, check_hosts-outage dns ip hostname mxs, set, here, off)
    ]
check_hosts-fails dns ip hostname mx outage (host ∷ mxs) set (inr at) fails =
    let rest = λ (o : Bool). check_hosts-fails dns ip hostname mx o mxs set at fails in
    elim (Answer-cases (dns.lookup_host (trim_dot (to_lower host)))) [
      | inl (t, e) ↦ ground (arith, rest (outage || t), set, e)
      | inr (addrs, e) ↦ ground (arith, rest outage, set, e)
    ]

-- A verdict that costs an active donation no more than one failure.
abbrev IsSpared : DonationVerification → Type 0
IsSpared v = (v.valid ≡ true) ⊎ ((v.valid ≡ false) × (v.transient ≡ true))

judge_hosts-IsSpared :
    (dns : Resolver) (ip hostname : Bytes) (mxs : List Bytes)
    → (check_hosts dns ip hostname false mxs ≡ pointed)
      ⊎ (check_hosts dns ip hostname false mxs ≡ elsewhere true)
    → IsSpared (judge_hosts dns ip hostname mxs)
unfolding judge_hosts
judge_hosts-IsSpared dns ip hostname mxs h = elim (Bool-cases (is_empty ip && is_empty hostname)) [
  | inl unset ↦ ground (arith, unset)
  | inr set ↦ elim h [
    | inl points ↦ ground (arith, set, points)
    | inr out ↦ ground (arith, set, out)
  ]
]

judge_mx-fails :
    (dns : Resolver) (domain ip hostname : Bytes)
    → dns.lookup_mx domain ≡ failed true
    → IsSpared (judge_mx dns domain ip hostname)
unfolding judge_mx
judge_mx-fails dns domain ip hostname fails = ground (arith, fails)

judge_mx-IsSpared :
    (dns : Resolver) (domain ip hostname : Bytes) (mxs : List Bytes) (mx : Bytes)
    → is_empty ip ≡ false
    → dns.lookup_mx domain ≡ answered mxs
    → Elem mx mxs
    → dns.lookup_host (trim_dot (to_lower mx)) ≡ failed true
    → IsSpared (judge_mx dns domain ip hostname)
unfolding judge_mx
judge_mx-IsSpared dns domain ip hostname [] mx set finds at fails = elim at [ ]
judge_mx-IsSpared dns domain ip hostname (host ∷ mxs) mx set finds at fails =
    subst IsSpared {x = judge_hosts dns ip hostname (host ∷ mxs)}
      {y = judge_mx dns domain ip hostname} (ground (arith, finds))
      (judge_hosts-IsSpared dns ip hostname (host ∷ mxs)
        (check_hosts-fails dns ip hostname mx false (host ∷ mxs) set at fails))

txt_fails :
    (dns : Resolver) (domain ip hostname expected : Bytes)
    → dns.lookup_txt (codes "_far-mail-donate." ++ clean_name domain) ≡ failed true
    → IsSpared (check_records dns domain ip hostname expected)
unfolding check_records check_txt
txt_fails dns domain ip hostname expected fails = ground (arith, fails)

is_empty-set : (s : Bytes) → s ≢ [] → is_empty s ≡ false
is_empty-set [] h = absurd (h refl)
is_empty-set (c ∷ s) h = refl

check_records-IsSpared :
    (dns : Resolver) (domain ip hostname expected : Bytes)
    → IsOutage dns domain ip expected
    → IsSpared (check_records dns domain ip hostname expected)
check_records-IsSpared dns domain ip hostname expected (inl fails) =
    txt_fails dns domain ip hostname expected fails
check_records-IsSpared dns domain ip hostname expected (inr (proof, inl fails)) =
    subst IsSpared (sym (check_records-judged dns domain ip hostname expected proof))
      (judge_mx-fails dns (clean_name domain) (trim_space ip) (clean_name hostname) fails)
check_records-IsSpared dns domain ip hostname expected
      (inr (proof, inr (set, (mxs, mx, finds, at, fails)))) =
    subst IsSpared (sym (check_records-judged dns domain ip hostname expected proof)) (
      judge_mx-IsSpared dns (clean_name domain) (trim_space ip) (clean_name hostname) mxs mx
        (is_empty-set (trim_space ip) set) finds at fails)

checked-spared :
    (tolerance : ℤ) (now : ℕ) (v : DonationVerification) (d : Donation)
    → IsSpared v
    → d.reward_active ≡ true
    → d.failure_count + 1 < tolerated tolerance
    → (checked tolerance now v d).reward_active ≡ true
unfolding checked
checked-spared tolerance now v d (inl valid) on few = ground (arith, valid)
checked-spared tolerance now v d (inr (invalid, transient)) on few =
    ground (arith, invalid, transient, on, few)

-- An active donation that is checked while a lookup the check needs fails for the moment, with more
-- than one failure left before the setting's limit: if the check commits, then the donation keeps
-- its reward.
pub outage_keeps_reward :
    (dns : Resolver) (domain ip hostname expected : Bytes) (rate_cap tolerance : ℤ) (now id : ℕ)
    (d : Donation) (db : Tables) (c : Commit)
    → IsOutage dns domain ip expected
    → find donation_id id db.donations ≡ some d
    → d.reward_active ≡ true
    → d.failure_count + 1 < tolerated tolerance
    → apply_verification rate_cap tolerance now id
        (check_records dns domain ip hostname expected)
        db
      ≡ done c
    → (row : Donation) × (find donation_id id c.tables.donations ≡ some row)
      × (row.reward_active ≡ true)
outage_keeps_reward dns domain ip hostname expected rate_cap tolerance now id d db c outage found on
      few ok =
    let v = check_records dns domain ip hostname expected in
    (
      checked tolerance now v d,
      apply_verification-row rate_cap tolerance now id v d db c found ok,
      checked-spared tolerance now v d
          (check_records-IsSpared dns domain ip hostname expected outage) on few,
    )

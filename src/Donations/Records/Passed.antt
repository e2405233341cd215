-- ===== src/Donations/Records/Passed.antt =====
-- What a passing verdict of api/store/donation_dns.go stands for.
use far_mail.Base.{
  ◌≡◌, ◌≢◌, refl, sym, ◌∙◌, ap, ◌⊎◌, inl, inr, Bool, true, false, not, ◌&&◌, ◌||◌, List, [], ◌∷◌,
  ◌++◌, arith, Bool-cases, Elem,
}
use far_mail.Base.Eq.{bytes_beq, bytes_beq_iff}
use far_mail.Text.{Bytes, codes, to_lower, trim_space}
use far_mail.Ingress.Address.{is_empty}
use far_mail.Donations.Records.{
  Answer, answered, failed, Resolver, trim_dot, clean_name, has_value, check_txt, MxResult, pointed,
  elsewhere, has_address, check_hosts, judge_hosts, judge_mx, check_records,
}

-- A mail host is the server by its name, or by an address that it resolves to.
abbrev pub IsServer : Resolver → Bytes → Bytes → Bytes → Type 0
IsServer dns ip hostname mx =
    ((hostname ≢ []) × (trim_dot (to_lower mx) ≡ hostname))
    ⊎ ((ip ≢ [])
        × ((addrs : List Bytes) × (dns.lookup_host (trim_dot (to_lower mx)) ≡ answered addrs)
            × (has_address ip addrs ≡ true)))

pub Answer-cases :
    {A : Type 0} → (a : Answer A) → ((t : Bool) × (a ≡ failed t)) ⊎ ((x : A) × (a ≡ answered x))
Answer-cases (failed t) = inl (t, refl)
Answer-cases (answered x) = inr (x, refl)

is_empty-false : (s : Bytes) → is_empty s ≡ false → s ≢ []
is_empty-false s h e = ground (arith, h, e)

named :
    (hostname host : Bytes)
    → (not (is_empty hostname) && bytes_beq host hostname) ≡ true
    → (hostname ≢ []) × (host ≡ hostname)
named hostname host h = (
  is_empty-false hostname (ground (arith, h)),
  (bytes_beq_iff host hostname).0 (ground (arith, h)),
)

in_tail :
    (dns : Resolver) (ip hostname mx : Bytes) (mxs : List Bytes)
    → ((x : Bytes) × Elem x mxs × IsServer dns ip hostname x)
    → (x : Bytes) × Elem x (mx ∷ mxs) × IsServer dns ip hostname x
in_tail dns ip hostname mx mxs (x, at, is) = (x, inr at, is)

check_hosts-pointed :
    (dns : Resolver) (ip hostname : Bytes) (outage : Bool) (mxs : List Bytes)
    → check_hosts dns ip hostname outage mxs ≡ pointed
    → (mx : Bytes) × Elem mx mxs × IsServer dns ip hostname mx
unfolding check_hosts
check_hosts-pointed dns ip hostname outage [] h = absurd (ground (arith, h))
check_hosts-pointed dns ip hostname outage (mx ∷ mxs) h =
    elim (Bool-cases (not (is_empty hostname) && bytes_beq (trim_dot (to_lower mx)) hostname)) [
      | inl own ↦ (mx, inl refl, inl (named hostname (trim_dot (to_lower mx)) own))
      | inr other ↦ elim (Bool-cases (is_empty ip)) [
        | inl none_set ↦
            in_tail dns ip hostname mx mxs
              (check_hosts-pointed dns ip hostname outage mxs (ground (arith, h, other, none_set)))
        | inr set ↦ elim (Answer-cases (dns.lookup_host (trim_dot (to_lower mx)))) [
          | inl (t, fails) ↦ in_tail dns ip hostname mx mxs (
              check_hosts-pointed dns ip hostname (outage || t) mxs
                (ground (arith, h, other, set, fails)))
          | inr (addrs, finds) ↦ elim (Bool-cases (has_address ip addrs)) [
            | inl has ↦ (mx, inl refl, inr (is_empty-false ip set, (addrs, finds, has)))
            | inr lacks ↦ in_tail dns ip hostname mx mxs (
                check_hosts-pointed dns ip hostname outage mxs
                  (ground (arith, h, other, set, finds, lacks)))
          ]
        ]
      ]
    ]

-- The expected value is among those of the TXT record.
abbrev pub IsProved : Resolver → Bytes → Bytes → Type 0
IsProved dns domain expected =
    (values : List Bytes) × (dns.lookup_txt (codes "_far-mail-donate." ++ clean_name domain)
      ≡ answered values)
    × (has_value expected values ≡ true)

pub MxResult-cases : (r : MxResult) → (r ≡ pointed) ⊎ ((away : Bool) × (r ≡ elsewhere away))
MxResult-cases pointed = inl refl
MxResult-cases (elsewhere away) = inr (away, refl)

judge_hosts-valid :
    (dns : Resolver) (ip hostname : Bytes) (mxs : List Bytes)
    → (judge_hosts dns ip hostname mxs).valid ≡ true
    → check_hosts dns ip hostname false mxs ≡ pointed
unfolding judge_hosts
judge_hosts-valid dns ip hostname mxs h = elim (Bool-cases (is_empty ip && is_empty hostname)) [
  | inl unset ↦ absurd (ground (arith, h, unset))
  | inr set ↦ elim (MxResult-cases (check_hosts dns ip hostname false mxs)) [
    | inl points ↦ points
    | inr (away, e) ↦ elim (Bool-cases away) [
      | inl out ↦ absurd (ground (arith, h, set, e, out))
      | inr off ↦ absurd (ground (arith, h, set, e, off))
    ]
  ]
]

judge_mx-valid :
    (dns : Resolver) (domain ip hostname : Bytes)
    → (judge_mx dns domain ip hostname).valid ≡ true
    → (mxs : List Bytes) × (dns.lookup_mx domain ≡ answered mxs)
      × (check_hosts dns ip hostname false mxs ≡ pointed)
unfolding judge_mx
judge_mx-valid dns domain ip hostname h = elim (Answer-cases (dns.lookup_mx domain)) [
  | inl (t, fails) ↦ absurd (ground (arith, h, fails))
  | inr ([], finds) ↦ absurd (ground (arith, h, finds))
  | inr (mx ∷ mxs, finds) ↦
      (mx ∷ mxs, finds, judge_hosts-valid dns ip hostname (mx ∷ mxs) (ground (arith, h, finds)))
]

pub check_records-judged :
    (dns : Resolver) (domain ip hostname expected : Bytes)
    → IsProved dns domain expected
    → check_records dns domain ip hostname expected
      ≡ judge_mx dns (clean_name domain) (trim_space ip) (clean_name hostname)
unfolding check_records check_txt
check_records-judged dns domain ip hostname expected (values, looked, has) =
    ground (arith, looked, has)

check_records-IsProved :
    (dns : Resolver) (domain ip hostname expected : Bytes)
    → (check_records dns domain ip hostname expected).valid ≡ true
    → IsProved dns domain expected
unfolding check_records check_txt
check_records-IsProved dns domain ip hostname expected h =
    elim (Answer-cases (dns.lookup_txt (codes "_far-mail-donate." ++ clean_name domain))) [
      | inl (t, fails) ↦ absurd (ground (arith, h, fails))
      | inr (values, finds) ↦ elim (Bool-cases (has_value expected values)) [
        | inl has ↦ (values, finds, has)
        | inr lacks ↦ absurd (ground (arith, h, finds, lacks))
      ]
    ]

-- A donated domain that passes the check: the expected value is in its TXT record, and one of the
-- hosts of its MX record is the server, by its name or by an address that the host resolves to.
pub check_records-valid :
    (dns : Resolver) (domain ip hostname expected : Bytes)
    → (check_records dns domain ip hostname expected).valid ≡ true
    → IsProved dns domain expected
      × ((mxs : List Bytes) × (mx : Bytes) × (dns.lookup_mx (clean_name domain) ≡ answered mxs)
          × Elem mx mxs
          × IsServer dns (trim_space ip) (clean_name hostname) mx)
check_records-valid dns domain ip hostname expected h =
    let proof = check_records-IsProved dns domain ip hostname expected h in
    let (mxs, finds, points) =
      judge_mx-valid dns (clean_name domain) (trim_space ip) (clean_name hostname) (
        sym (ap (λ v. v.valid) (check_records-judged dns domain ip hostname expected proof)) ∙ h) in
    let (mx, at, is) =
      check_hosts-pointed dns (trim_space ip) (clean_name hostname) false mxs points in
    (proof, (mxs, mx, finds, at, is))

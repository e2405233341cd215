-- ===== src/Ingress/Snapshot/Longest.antt =====
-- The walk over labels finds the longest active domain that a name lies under.
use far_mail.Base.{
  ℕ, zero, suc, ◌≤◌, ◌<◌, ◌≡◌, refl, ap, inl, inr, List, [], ◌∷◌, none, some, arith, length,
  Option-cases,
}
use far_mail.Base.Eq.{bytes_eq}
use far_mail.Base.Assoc.{lookup}
use far_mail.Text.{Bytes}
use far_mail.Ingress.Address.{split_address}
use far_mail.Ingress.Snapshot.{
  SnapshotDomain, Snapshot, ResolvedRecipient, parent_name, walk, route, recipient_at,
  resolve_recipient,
}
use far_mail.Ingress.Snapshot.Labels.{
  LiesUnder, LiesUnder-length, LiesUnder-parent, parent_name-under,
}

-- No listed root that `name` lies under is longer than `root`.
abbrev pub NoneLonger : List (Bytes × SnapshotDomain) → Bytes → Bytes → Type 0
NoneLonger names name root =
    (r : Bytes) (d : SnapshotDomain)
    → lookup r names ≡ some d
    → LiesUnder r name
    → length r ≤ length root

-- `matched` is listed under the longest root that `name` lies under.
abbrev pub IsLongest : List (Bytes × SnapshotDomain) → Bytes → SnapshotDomain → Type 0
IsLongest names name matched =
    (root : Bytes) × (lookup root names ≡ some matched)
    × LiesUnder root name
    × NoneLonger names name root

module _ (names : List (Bytes × SnapshotDomain)) where
  NoneLonger-parent :
      (name next root : Bytes)
      → lookup name names ≡ none
      → parent_name name ≡ some next
      → NoneLonger names next root
      → NoneLonger names name root
  NoneLonger-parent name next root miss up longest [] d listed under = omega arith
  NoneLonger-parent name next root miss up longest (c ∷ r) d listed under =
      elim (LiesUnder-parent (c ∷ r) name (omega arith) under) [
        | inl e ↦ absurd (cc (ap (λ (n : Bytes). lookup n names) e))
        | inr (other, found, below) ↦
            let same : other ≡ next = ground arith in longest (c ∷ r) d listed (rw (← same) below)
      ]

  walk-IsLongest :
      (rounds : ℕ) (name : Bytes) (matched : SnapshotDomain)
      → walk rounds names name ≡ some matched
      → IsLongest names name matched
  unfolding walk
  walk-IsLongest zero name matched h = absurd (ground arith)
  walk-IsLongest (suc rounds) name matched h = elim (Option-cases (lookup name names)) [
    | inr (d, hit) ↦
        (name, ground arith, inl refl, λ r k listed under. LiesUnder-length r name under)
    | inl miss ↦ elim (Option-cases (parent_name name)) [
      | inl top ↦ absurd (ground arith)
      | inr (next, up) ↦
          let (root, listed, under, longest) = walk-IsLongest rounds next matched (ground arith) in
          (
            root,
            listed,
            (parent_name-under name next up).1 root under,
            NoneLonger-parent name next root miss up longest,
          )
    ]
  ]

  -- With enough rounds the walk fails only if the name lies under no listed root.
  walk-none :
      (rounds : ℕ) (name : Bytes)
      → length name < rounds
      → walk rounds names name ≡ none
      → (c : ℕ) (r : Bytes) → LiesUnder (c ∷ r) name
      → lookup (c ∷ r) names ≡ none
  unfolding walk
  walk-none zero name enough h c r under = absurd (omega arith)
  walk-none (suc rounds) name enough h c r under = elim (Option-cases (lookup name names)) [
    | inr (d, hit) ↦ absurd (ground arith)
    | inl miss ↦ elim (LiesUnder-parent (c ∷ r) name (omega arith) under) [
      | inl e ↦ rw (← e) miss
      | inr (next, up, below) ↦
          walk-none rounds next (omega (arith, (parent_name-under name next up).0)) (ground arith) c
            r below
    ]
  ]

  walk-total :
      (name : Bytes) (c : ℕ) (r : Bytes) (d : SnapshotDomain)
      → lookup (c ∷ r) names ≡ some d
      → LiesUnder (c ∷ r) name
      → (matched : SnapshotDomain) × (walk (suc (length name)) names name ≡ some matched)
  walk-total name c r d listed under = elim (Option-cases (walk (suc (length name)) names name)) [
    | inl e ↦ absurd (cc (walk-none (suc (length name)) name (omega arith) e c r under))
    | inr found ↦ found
  ]

-- Whatever is resolved goes to the longest listed root that the recipient's domain lies under,
-- with the account and the lifetime of the snapshot.
pub resolve_recipient-IsLongest :
    (snap : Snapshot) (raw : Bytes) (r : ResolvedRecipient)
    → resolve_recipient snap raw ≡ some r
    → (matched : SnapshotDomain) × IsLongest snap.domains_by_name r.domain_name matched
      × (split_address raw ≡ some (r.local_part, r.domain_name))
      × (r ≡ recipient_at snap r.local_part r.domain_name matched)
unfolding resolve_recipient
resolve_recipient-IsLongest snap raw r h = elim (Option-cases (split_address raw)) [
  | inl e ↦ absurd (ground arith)
  | inr ((local, domain), e) ↦ elim (Option-cases (route snap domain)) [
    | inl miss ↦ absurd (ground arith)
    | inr (matched, found) ↦
        let is : r ≡ recipient_at snap local domain matched = ground arith in
        let longest =
          walk-IsLongest snap.domains_by_name (suc (length domain)) domain matched found in
        rw is (matched, longest, e, refl)
  ]
]

-- An address whose domain lies under a listed root is resolved.
pub resolve_recipient-total :
    (snap : Snapshot) (raw : Bytes) {local domain : Bytes} (c : ℕ) (r : Bytes) (d : SnapshotDomain)
    → split_address raw ≡ some (local, domain)
    → lookup (c ∷ r) snap.domains_by_name ≡ some d
    → LiesUnder (c ∷ r) domain
    → (found : ResolvedRecipient) × (resolve_recipient snap raw ≡ some found)
unfolding resolve_recipient
resolve_recipient-total snap raw {local} {domain} c r d e listed under =
    let (matched, found) = walk-total snap.domains_by_name domain c r d listed under in
    (recipient_at snap local domain matched, ground arith)

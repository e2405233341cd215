-- ===== src/Ingress/Snapshot/Refresh.antt =====
-- The snapshot lists exactly the loaded domains, under their normalized names.
use far_mail.Base.{
  ℕ, ◌<◌, ◌≡◌, ◌≢◌, refl, ◌⊎◌, inl, inr, List, [], ◌∷◌, false, ◌||◌, some, arith, Bool-cases, Elem,
  ◌==◌,
}
use far_mail.Base.Eq.{bytes_eq, bytes_beq, bytes_beq_iff}
use far_mail.Base.Assoc.{lookup, lookup-insert}
use far_mail.Text.{Bytes}
use far_mail.Ingress.Address.{is_empty, split_address}
use far_mail.Ingress.Snapshot.{
  IngressDomain, IngressSnapshot, SnapshotDomain, Snapshot, ResolvedRecipient, normalize_domain,
  add_domain, add_domains, empty_snapshot, refresh_snapshot, resolve_recipient,
}
use far_mail.Ingress.Snapshot.Labels.{LiesUnder}
use far_mail.Ingress.Snapshot.Longest.{resolve_recipient-IsLongest, resolve_recipient-total}

-- The listed domain `m` stands for the loaded domain `d`, under the name `root`.
abbrev pub StandsFor : List IngressDomain → Bytes → SnapshotDomain → Type 0
StandsFor ds root m =
    (d : IngressDomain) × Elem d ds
    × (m ≡ record { id = d.id; domain = root })
    × (normalize_domain d.domain ≡ root)
    × (0 < d.id)
    × (root ≢ [])

-- A domain that the loop does not skip.
abbrev pub IsUsable : IngressDomain → Type 0
IsUsable d = (0 < d.id) × (normalize_domain d.domain ≢ [])

abbrev pub Listed : Snapshot → Bytes → Type 0
Listed snap root = (m : SnapshotDomain) × (lookup root snap.domains_by_name ≡ some m)

is_empty-false : (s : Bytes) → is_empty s ≡ false → s ≢ []
is_empty-false [] h e = cc
is_empty-false (c ∷ s) h e = cc

add_domain-lookup :
    (snap : Snapshot) (d : IngressDomain) (root : Bytes) (m : SnapshotDomain)
    → lookup root (add_domain snap d).domains_by_name ≡ some m
    → (lookup root snap.domains_by_name ≡ some m) ⊎ StandsFor (d ∷ []) root m
unfolding add_domain
add_domain-lookup snap d root m h =
    let name = normalize_domain d.domain in
    let item : SnapshotDomain = record { id = d.id; domain = name } in
    let same = bytes_beq_iff name root in
    elim (Bool-cases (d.id == 0 || is_empty name)) [
      | inl skip ↦ inl (rw skip at h)
      | inr use_it ↦ elim (Bool-cases (bytes_beq name root)) [
        | inl hit ↦
            let here : name ≡ root = same.0 hit in
            inr (
              d,
              inl refl,
              ground (arith, lookup-insert name root item snap.domains_by_name),
              here,
              ground arith,
              rw (← here) (is_empty-false name (ground arith)),
            )
        | inr miss ↦ inl (ground (arith, lookup-insert name root item snap.domains_by_name))
      ]
    ]

add_domains-lookup :
    (ds : List IngressDomain) (snap : Snapshot) (root : Bytes) (m : SnapshotDomain)
    → lookup root (add_domains snap ds).domains_by_name ≡ some m
    → (lookup root snap.domains_by_name ≡ some m) ⊎ StandsFor ds root m
unfolding add_domains
add_domains-lookup [] snap root m h = inl h
add_domains-lookup (d ∷ ds) snap root m h =
    elim (add_domains-lookup ds (add_domain snap d) root m h) [
      | inr (x, mem, e, name, pos, ne) ↦ inr (x, inr mem, e, name, pos, ne)
      | inl early ↦ elim (add_domain-lookup snap d root m early) [
        | inl before ↦ inl before
        | inr (x, mem, e, name, pos, ne) ↦ inr (x, only mem, e, name, pos, ne)
      ]
    ]
  where
    only : {x : IngressDomain} → Elem x (d ∷ []) → Elem x (d ∷ ds)
    only (inl e) = inl e
    only (inr no_more) = absurd no_more

add_domain-Listed :
    (snap : Snapshot) (d : IngressDomain) (root : Bytes)
    → Listed snap root
    → Listed (add_domain snap d) root
unfolding add_domain
add_domain-Listed snap d root (m, h) =
    let name = normalize_domain d.domain in
    let item : SnapshotDomain = record { id = d.id; domain = name } in
    elim (Bool-cases (d.id == 0 || is_empty name)) [
      | inl skip ↦ rw skip (m, h)
      | inr use_it ↦ elim (Bool-cases (bytes_beq name root)) [
        | inl hit ↦ rw use_it (item, rw (lookup-insert name root item snap.domains_by_name, hit))
        | inr miss ↦ rw use_it (m, rw (lookup-insert name root item snap.domains_by_name, miss) h)
      ]
    ]

is_empty_of : (s : Bytes) → s ≢ [] → is_empty s ≡ false
is_empty_of [] h = absurd (h refl)
is_empty_of (c ∷ s) h = refl

add_domain-usable :
    (snap : Snapshot) (d : IngressDomain)
    → IsUsable d
    → Listed (add_domain snap d) (normalize_domain d.domain)
unfolding add_domain
add_domain-usable snap d (pos, ne) =
    let name = normalize_domain d.domain in
    let item : SnapshotDomain = record { id = d.id; domain = name } in
    let used : (d.id == 0 || is_empty name) ≡ false = ground (arith, is_empty_of name ne) in
    rw used (
      item,
      rw (lookup-insert name name item snap.domains_by_name, (bytes_beq_iff name name).1 refl) refl,
    )

add_domains-Listed :
    (ds : List IngressDomain) (snap : Snapshot) (root : Bytes)
    → Listed snap root
    → Listed (add_domains snap ds) root
unfolding add_domains
add_domains-Listed [] snap root h = h
add_domains-Listed (d ∷ ds) snap root h =
    add_domains-Listed ds (add_domain snap d) root (add_domain-Listed snap d root h)

pub add_domains_complete :
    (ds : List IngressDomain) (snap : Snapshot) (d : IngressDomain)
    → Elem d ds
    → IsUsable d
    → Listed (add_domains snap ds) (normalize_domain d.domain)
unfolding add_domains
add_domains_complete [] snap d mem ok = absurd mem
add_domains_complete (x ∷ ds) snap d (inl e) ok =
    add_domains-Listed ds (add_domain snap x) (normalize_domain d.domain)
      (rw e (add_domain-usable snap x (rw e at ok)))
add_domains_complete (x ∷ ds) snap d (inr mem) ok =
    add_domains_complete ds (add_domain snap x) d mem ok

-- A name that the fresh snapshot lists is the normalized name, not empty, of a loaded domain with
-- a positive id, and is listed with that id.
pub refresh_snapshot-StandsFor :
    (loaded : IngressSnapshot) (root : Bytes) (m : SnapshotDomain)
    → lookup root (refresh_snapshot loaded).domains_by_name ≡ some m
    → StandsFor loaded.domains root m
unfolding refresh_snapshot lookup
refresh_snapshot-StandsFor loaded root m h = elim (add_domains-lookup loaded.domains _ root m h) [
  | inl e ↦ absurd (cc e)
  | inr s ↦ s
]

ne_nil_cons : (s : Bytes) → s ≢ [] → (c : ℕ) × (r : Bytes) × (s ≡ c ∷ r)
ne_nil_cons [] h = absurd (h refl)
ne_nil_cons (c ∷ s) h = (c, s, refl)

-- Mail for any address under a loaded domain is accepted once the snapshot is refreshed, and
-- it is filed under a loaded domain whose name the recipient's domain lies under.
pub refreshed_recipient :
    (loaded : IngressSnapshot) (raw : Bytes) {local domain : Bytes} (d : IngressDomain)
    → Elem d loaded.domains
    → IsUsable d
    → split_address raw ≡ some (local, domain)
    → LiesUnder (normalize_domain d.domain) domain
    → (r : ResolvedRecipient) × (e : IngressDomain) × (resolve_recipient
          (refresh_snapshot loaded)
          raw
        ≡ some r)
      × Elem e loaded.domains
      × (r.domain_id ≡ e.id)
      × (r.domain_name ≡ domain)
      × LiesUnder (normalize_domain e.domain) r.domain_name
unfolding refresh_snapshot
refreshed_recipient loaded raw {local} {domain} d mem ok e under =
    let snap = refresh_snapshot loaded in
    let (c, r, shape) = ne_nil_cons (normalize_domain d.domain) ok.1 in
    let (m, listed) = add_domains_complete loaded.domains (empty_snapshot loaded) d mem ok in
    let (found, is) =
      resolve_recipient-total snap raw c r m e (rw shape at listed) (rw shape at under) in
    let (matched, longest, parts, built) = resolve_recipient-IsLongest snap raw found is in
    let (x, x_mem, x_is, x_name, pos, ne) =
      refresh_snapshot-StandsFor loaded longest.0 matched longest.1 in
    (found, x, is, x_mem, cc, cc, rw x_name longest.2)

-- ===== src/Domains/Routed/Agreed.antt =====
-- The API and the ingress file a mailbox under the same domain.
use far_mail.Base.{
  ◌-◌, ◌≤◌, ◌≡◌, refl, sym, ◌∙◌, ap, subst, inl, inr, false, not, List, [], ◌∷◌, none, some, arith,
  if_elim, length, drop, keep, map, Bool-cases, Option-cases, Elem,
}
use far_mail.Base.Eq.{bytes_eq}
use far_mail.Text.{Bytes, equal_fold, is_dot, to_lower, trim, trim_space}
use far_mail.Ingress.Address.{is_empty, split_address}
use far_mail.Ingress.Snapshot.{
  IngressDomain, IngressSnapshot, SnapshotDomain, ResolvedRecipient, normalize_domain,
  refresh_snapshot, resolve_recipient, empty_snapshot,
}
use far_mail.Ingress.Snapshot.Labels.{LiesUnder, LiesUnder-length}
use far_mail.Ingress.Snapshot.Longest.{IsLongest, resolve_recipient-IsLongest}
use far_mail.Ingress.Snapshot.Refresh.{
  IsUsable, add_domains_complete, refresh_snapshot-StandsFor, refreshed_recipient,
}
use far_mail.Donations.{Domain}
use far_mail.Domains.{
  active_domains, domain_by_name, best_domain, resolve_mailbox_domain, load_domains, ingress_domain,
}
use far_mail.Domains.Routed.{
  covers→LiesUnder, LiesUnder→covers, LiesUnder-drop, IsCanonical, normalized, not_empty, IsBest,
  best_domain-IsBest,
}

-- The choice of the API: an active domain that the name lies under, and no active domain that it
-- lies under has a longer name.
record IsChosen (ds : List Domain) (name : Bytes) (d : Domain) : Type 0 where
  member : Elem d ds
  under : LiesUnder d.domain name
  longest : (x : Domain) → Elem x ds → LiesUnder x.domain name → length x.domain ≤ length d.domain

domain_by_name-Elem :
    (name : Bytes) (ds : List Domain) (d : Domain) → domain_by_name name ds ≡ some d → Elem d ds
unfolding domain_by_name
domain_by_name-Elem name [] d h = absurd (ground (arith, h))
domain_by_name-Elem name (x ∷ ds) d h =
    elim (Bool-cases (equal_fold x.domain (to_lower (trim_space name)))) [
      | inl here ↦ inl (ground (arith, h, here))
      | inr there ↦ inr (domain_by_name-Elem name ds d (ground (arith, h, there)))
    ]

resolve_mailbox_domain-IsChosen :
    (requested name : Bytes) (ds : List Domain) (d : Domain)
    → ((x : Domain) → Elem x ds → IsCanonical x)
    → resolve_mailbox_domain requested ds ≡ some (d, name)
    → IsChosen ds name d
unfolding resolve_mailbox_domain
resolve_mailbox_domain-IsChosen requested name ds d canonical h =
    let wanted = trim is_dot (to_lower (trim_space requested)) in
    elim (Option-cases (domain_by_name wanted ds)) [
      | inr (exact, found) ↦
          let is_d : exact ≡ d = ground (arith, h, found) in
          let is_name : exact.domain ≡ name = ground (arith, h, found) in
          let same : d.domain ≡ name = ap (λ (x : Domain). x.domain) (sym is_d) ∙ is_name in
          record {
            member = subst (λ x. Elem x ds) is_d (domain_by_name-Elem wanted ds exact found);
            under = inl (sym same);
            longest =
                λ x at below. omega (arith, LiesUnder-length x.domain name below, ap length same);
          }
      | inl absent ↦ elim (Option-cases (best_domain wanted none ds)) [
        | inl no_root ↦ absurd (ground (arith, h, absent, no_root))
        | inr (b, found) ↦
            let is_d : b ≡ d = ground (arith, h, absent, found) in
            let is_name : wanted ≡ name = ground (arith, h, absent, found) in
            chosen (
              subst (λ n. IsBest n none ds d) is_name
                (subst (IsBest wanted none ds) is_d
                  (best_domain-IsBest wanted none ds b canonical found)))
      ]
    ]
  where
    chosen : IsBest name none ds d → IsChosen ds name d
    chosen best = elim best.found [
      | inl nothing ↦ absurd (ground (arith, nothing))
      | inr (at, on) ↦ record {
        member = at;
        under = covers→LiesUnder d.domain name on;
        longest = λ x there below. best.longest x there (LiesUnder→covers x.domain name below);
      }
    ]

Elem-loaded :
    (ds : List Domain) (d : Domain)
    → Elem d ds
    → is_empty (normalize_domain d.domain) ≡ false
    → Elem (ingress_domain d) (keep (λ i. not (is_empty i.domain)) (map ingress_domain ds))
Elem-loaded [] d at named = absurd at
Elem-loaded (x ∷ ds) d at named =
    if_elim (Elem (ingress_domain d)) (not (is_empty (normalize_domain x.domain))) _ _
      (λ kept. elim at [
        | inl here ↦ inl (ap ingress_domain here)
        | inr there ↦ inr (Elem-loaded ds d there named)
      ])
      (λ dropped. elim at [
        | inl here ↦ absurd (
            ground (
              arith,
              dropped,
              named,
              ap (λ (z : Domain). is_empty (normalize_domain z.domain)) here,
            ))
        | inr there ↦ Elem-loaded ds d there named
      ])

loaded-Elem :
    (ds : List Domain) (i : IngressDomain)
    → Elem i (keep (λ j. not (is_empty j.domain)) (map ingress_domain ds))
    → (d : Domain) × Elem d ds × (i ≡ ingress_domain d)
loaded-Elem [] i = λ at. absurd at
loaded-Elem (x ∷ ds) i =
    if_elim (λ l. Elem i l → (d : Domain) × Elem d (x ∷ ds) × (i ≡ ingress_domain d))
      (not (is_empty (normalize_domain x.domain))) _ _
      (λ kept at. elim at [
        | inl here ↦ (x, inl refl, here)
        | inr there ↦ let (d, mem, is) = loaded-Elem ds i there in (d, inr mem, is)
      ])
      (λ dropped at. let (d, mem, is) = loaded-Elem ds i at in (d, inr mem, is))

-- The name of a domain that the ingress loads is the stored one.
ingress_name : (d : Domain) → IsCanonical d → normalize_domain (ingress_domain d).domain ≡ d.domain
ingress_name d h = ap normalize_domain (normalized d h) ∙ normalized d h

same_length_root :
    (a b name : Bytes) → LiesUnder a name → LiesUnder b name → length a ≡ length b → a ≡ b
same_length_root a b name under_a under_b size =
    sym (LiesUnder-drop a name under_a)
    ∙ ap (λ n. drop (length name - n) name) size
    ∙ LiesUnder-drop b name under_b

module _ (ds : List Domain) (loaded : IngressSnapshot) (same : loaded.domains ≡ load_domains ds)
    (canonical : (x : Domain) → Elem x (active_domains ds) → IsCanonical x)
    (unique : (x y : Domain)
      → Elem x (active_domains ds)
      → Elem y (active_domains ds)
      → x.domain ≡ y.domain
      → x.id ≡ y.id) where
  is_loaded : (d : Domain) → Elem d (active_domains ds) → Elem (ingress_domain d) loaded.domains
  unfolding load_domains
  is_loaded d at = subst (Elem (ingress_domain d)) (sym same) (
      Elem-loaded (active_domains ds) d at
        (ap is_empty (normalized d (canonical d at)) ∙ not_empty d.domain (canonical d at).named))

  is_active :
      (i : IngressDomain)
      → Elem i loaded.domains
      → (d : Domain) × Elem d (active_domains ds) × (i ≡ ingress_domain d)
  unfolding load_domains
  is_active i at = loaded-Elem (active_domains ds) i (subst (Elem i) same at)

  usable : (d : Domain) → Elem d (active_domains ds) → IsUsable (ingress_domain d)
  usable d at = (
    (canonical d at).positive,
    λ e. (canonical d at).named (sym (ingress_name d (canonical d at)) ∙ e),
  )

  -- The longest listed root is the chosen domain.
  same_domain :
      (name : Bytes) (d : Domain) (m : SnapshotDomain)
      → IsChosen (active_domains ds) name d
      → IsLongest (refresh_snapshot loaded).domains_by_name name m
      → m.id ≡ d.id
  unfolding refresh_snapshot
  same_domain name d m chosen (root, listed, under, none_longer) =
      let (i, at, is_m, is_root, positive, named) =
        refresh_snapshot-StandsFor loaded root m listed in
      let (y, active, is_i) = is_active i at in
      let y_root : y.domain ≡ root =
        sym (ingress_name y (canonical y active))
        ∙ ap (λ (j : IngressDomain). normalize_domain j.domain) (sym is_i)
        ∙ is_root in
      let y_under : LiesUnder y.domain name = subst (λ r. LiesUnder r name) (sym y_root) under in
      let d_name = ingress_name d (canonical d chosen.member) in
      let (k, d_listed) =
        add_domains_complete loaded.domains (empty_snapshot loaded) (ingress_domain d)
          (is_loaded d chosen.member) (usable d chosen.member) in
      let d_below : length (normalize_domain (ingress_domain d).domain) ≤ length root =
        none_longer (normalize_domain (ingress_domain d).domain) k d_listed
          (subst (λ r. LiesUnder r name) (sym d_name) chosen.under) in
      let size : length y.domain ≡ length d.domain =
        omega
          (arith, chosen.longest y active y_under, d_below, ap length d_name, ap length y_root) in
      ap (λ (x : SnapshotDomain). x.id) is_m
      ∙ ap (λ (j : IngressDomain). j.id) is_i
      ∙ unique y d active chosen.member
          (same_length_root y.domain d.domain name y_under chosen.under size)

  -- The active domains have names in lower case without spaces and dots around them, and no name
  -- twice, and the ingress has loaded them. Then mail to any address at the name that the API
  -- resolved for a new mailbox is accepted, and is filed under the domain that the API resolved.
  pub mailbox_is_routed :
      (requested name raw : Bytes) {local : Bytes} (d : Domain)
      → resolve_mailbox_domain requested (active_domains ds) ≡ some (d, name)
      → split_address raw ≡ some (local, name)
      → (r : ResolvedRecipient) × (resolve_recipient (refresh_snapshot loaded) raw ≡ some r)
        × (r.domain_id ≡ d.id)
        × (r.domain_name ≡ name)
  mailbox_is_routed requested name raw {local} d resolved parts =
      let chosen =
        resolve_mailbox_domain-IsChosen requested name (active_domains ds) d canonical resolved in
      let under =
        subst (λ r. LiesUnder r name) (sym (ingress_name d (canonical d chosen.member)))
          chosen.under in
      let (r, x, is, x_mem, x_id, r_name, covered) =
        refreshed_recipient loaded raw (ingress_domain d) (is_loaded d chosen.member)
          (usable d chosen.member) parts under in
      let (m, longest, split, built) =
        resolve_recipient-IsLongest (refresh_snapshot loaded) raw r is in
      (
        r,
        is,
        ap (λ (q : ResolvedRecipient). q.domain_id) built
            ∙ same_domain name d m chosen (
                subst (λ n. IsLongest (refresh_snapshot loaded).domains_by_name n m) r_name
                  longest),
        r_name,
      )

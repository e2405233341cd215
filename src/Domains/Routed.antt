-- ===== src/Domains/Routed.antt =====
-- The API and the ingress choose the same domain: the loop of `ResolveActiveMailboxDomain` against
-- the walk of `resolveRecipient`.
pub mod Agreed
use far_mail.Base.{
  ℕ, suc, ◌+◌, ◌-◌, ◌≤◌, ◌<◌, ◌≡◌, ◌≢◌, refl, sym, ◌∙◌, ap, subst, ◌⊎◌, inl, inr, Bool, true, false,
  not, ◌&&◌, ◌||◌, List, [], ◌∷◌, ◌++◌, Option, none, some, arith, ◌==◌, ltb, leb, if◌then◌else◌,
  if_elim, length, take, drop, keep, map, Bool-cases, Option-cases, Elem, length-append,
  length-drop, take-append-drop, &&-eq-true,
}
use mathlib.Core.List.{append_assoc}
use far_mail.Base.Eq.{bytes_beq, bytes_beq_iff, bytes_eq}
use far_mail.Base.Assoc.{lookup}
use far_mail.Text.{Bytes, equal_fold, is_dot, to_lower, trim, trim_space}
use far_mail.Ingress.Address.{is_empty, split_address}
use far_mail.Ingress.Snapshot.{
  IngressDomain, IngressSnapshot, SnapshotDomain, ResolvedRecipient, normalize_domain,
  refresh_snapshot, resolve_recipient, recipient_at, empty_snapshot,
}
use far_mail.Ingress.Snapshot.Labels.{LiesUnder, LiesUnder-length}
use far_mail.Ingress.Snapshot.Longest.{IsLongest, resolve_recipient-IsLongest}
use far_mail.Ingress.Snapshot.Refresh.{
  StandsFor, IsUsable, Listed, add_domains_complete, refresh_snapshot-StandsFor,
  refreshed_recipient,
}
use far_mail.Extraction.{has_suffix}
use far_mail.Donations.{Domain}
use far_mail.Domains.{
  active_domains, domain_by_name, covers, consider, best_domain, resolve_mailbox_domain,
  load_domains, ingress_domain,
}

drop-append : (n : ℕ) (front s : Bytes) → n ≡ length front → drop n (front ++ s) ≡ s
drop-append n front s h = subst (λ k. drop k (front ++ s) ≡ s) (sym h) (cut front)
  where
    cut : (f : Bytes) → drop (length f) (f ++ s) ≡ s
    cut [] = refl
    cut (c ∷ f) = cut f

-- What follows the front of a name of two parts.
back_part :
    (name front back : Bytes)
    → name ≡ front ++ back
    → (drop (length name - length back) name ≡ back) × (length back ≤ length name)
back_part name front back e =
    let size : length name ≡ length front + length back = ap length e ∙ length-append front back in
    let cut : length name - length back ≡ length front = omega (arith, size) in
    (
      ap (drop (length name - length back)) e
          ∙ drop-append (length name - length back) front back cut,
      omega (arith, size),
    )

pub covers→LiesUnder : (root name : Bytes) → covers root name ≡ true → LiesUnder root name
covers→LiesUnder root name h = elim (Bool-cases (bytes_beq name root)) [
  | inl same ↦ inl ((bytes_beq_iff name root).0 same)
  | inr other ↦
      let cut = length name - length (b'.' ∷ root) in
      let tail : drop cut name ≡ b'.' ∷ root =
        (bytes_beq_iff (drop cut name) (b'.' ∷ root)).0 (ground (arith, h, other)) in
      inr (take cut name, sym (take-append-drop cut name) ∙ ap (λ s. take cut name ++ s) tail)
]

pub LiesUnder→covers : (root name : Bytes) → LiesUnder root name → covers root name ≡ true
LiesUnder→covers root name (inl e) = ground (arith, (bytes_beq_iff name root).1 e)
LiesUnder→covers root name (inr (front, e)) =
    let (tail, fits) = back_part name front (b'.' ∷ root) e in
    let same = (bytes_beq_iff (drop (length name - suc (length root)) name) (b'.' ∷ root)).1 tail in
    ground (arith, same, fits)

-- The end of a name that is as long as a root it lies under is that root.
pub LiesUnder-drop :
    (root name : Bytes) → LiesUnder root name → drop (length name - length root) name ≡ root
LiesUnder-drop root name (inl e) = (back_part name [] root e).0
LiesUnder-drop root name (inr (front, e)) =
    (back_part name (front ++ b'.' ∷ []) root (e ∙ sym (append_assoc front (b'.' ∷ []) root))).0

-- What the console and the donations store: names in lower case without spaces or dots around them.
pub record IsCanonical (d : Domain) : Type 0 where
  pub no_space : trim_space d.domain ≡ d.domain
  pub no_dot : trim is_dot d.domain ≡ d.domain
  pub lower : to_lower d.domain ≡ d.domain
  pub named : d.domain ≢ []
  pub positive : 0 < d.id

pub normalized : (d : Domain) → IsCanonical d → normalize_domain d.domain ≡ d.domain
normalized d h = ap (λ s. to_lower (trim is_dot s)) h.no_space ∙ ap to_lower h.no_dot ∙ h.lower

pub root_of : (d : Domain) → IsCanonical d → to_lower (trim_space d.domain) ≡ d.domain
root_of d h = ap to_lower h.no_space ∙ h.lower

pub not_empty : (s : Bytes) → s ≢ [] → is_empty s ≡ false
not_empty [] h = absurd (h refl)
not_empty (c ∷ s) h = refl

-- The longest of the covering roots, with the one that was found before.
pub record IsBest (name : Bytes) (best : Option Domain) (ds : List Domain) (d : Domain)
    : Type 0 where
  pub found : (best ≡ some d) ⊎ (Elem d ds × (covers d.domain name ≡ true))
  pub before : (b : Domain) → best ≡ some b → length b.domain ≤ length d.domain
  pub longest :
      (x : Domain) → Elem x ds → covers x.domain name ≡ true → length x.domain ≤ length d.domain

-- The round leaves the best as it is, or takes the domain, or keeps a root that is as long.
data Considered (name : Bytes) (best after : Option Domain) (x : Domain) : Type 0 where
  skipped : covers x.domain name ≡ false → after ≡ best → Considered name best after x
  taken :
      covers x.domain name ≡ true
      → after ≡ some x
      → ((b : Domain) → best ≡ some b → length b.domain ≤ length x.domain)
      → Considered name best after x
  outdone :
      (b : Domain)
      → best ≡ some b
      → after ≡ some b
      → length x.domain ≤ length b.domain
      → Considered name best after x

consider-Considered :
    (name : Bytes) (best : Option Domain) (x : Domain)
    → IsCanonical x
    → Considered name best (consider name best x) x
unfolding consider
consider-Considered name best x canonical =
    let root = root_of x canonical in
    let named = not_empty x.domain canonical.named in
    let same_cover = ap (λ s. covers s name) root in
    let same_size = ap length root in
    let same_empty = ap is_empty root in
    elim (Bool-cases (covers x.domain name)) [
      | inl on ↦ elim (Option-cases best) [
        | inl first ↦
            taken on (ground (arith, on, first, named, same_cover, same_empty))
              (λ b e. ground (arith, first, e))
        | inr (b, e) ↦ elim (Bool-cases (ltb (length b.domain) (length x.domain))) [
          | inl longer ↦
              taken on (ground (arith, on, e, longer, named, same_cover, same_empty, same_size))
                (λ c f. ground (arith, e, f, longer))
          | inr shorter ↦
              outdone b e (ground (arith, on, e, shorter, named, same_cover, same_empty, same_size))
                (ground (arith, shorter))
        ]
      ]
      | inr off ↦ skipped off (ground (arith, off, same_cover))
    ]

pub best_domain-IsBest :
    (name : Bytes) (best : Option Domain) (ds : List Domain) (d : Domain)
    → ((x : Domain) → Elem x ds → IsCanonical x)
    → best_domain name best ds ≡ some d
    → IsBest name best ds d
unfolding best_domain
best_domain-IsBest name best [] d canonical h = record {
  found = inl h;
  before = λ b e. ground (arith, h, e);
  longest = λ x none_left. absurd none_left;
}
best_domain-IsBest name best (x ∷ ds) d canonical h =
    extended (best_domain-IsBest name (consider name best x) ds d (λ y at. canonical y (inr at)) h)
      (consider-Considered name best x (canonical x (inl refl)))
  where
    extended :
        IsBest name (consider name best x) ds d
        → Considered name best (consider name best x) x
        → IsBest name best (x ∷ ds) d
    extended rest (skipped off same) = record {
      found = elim rest.found [ inl e ↦ inl (sym same ∙ e) | inr (at, on) ↦ inr (inr at, on) ];
      before = λ b e. rest.before b (same ∙ e);
      longest = λ y at on. elim at [
        | inl e ↦ absurd (ground (arith, off, on, ap (λ (z : Domain). covers z.domain name) e))
        | inr later ↦ rest.longest y later on
      ];
    }
    extended rest (taken on took longer) = record {
      found = elim rest.found [
        | inl e ↦
            let same : x ≡ d = ground (arith, took, e) in
            inr (inl (sym same), ap (λ (z : Domain). covers z.domain name) (sym same) ∙ on)
        | inr (at, covered) ↦ inr (inr at, covered)
      ];
      before = λ b e. omega (arith, longer b e, rest.before x took);
      longest = λ y at covered. elim at [
        | inl e ↦ omega (arith, ap (λ (z : Domain). length z.domain) e, rest.before x took)
        | inr later ↦ rest.longest y later covered
      ];
    }
    extended rest (outdone b was kept longer) = record {
      found = elim rest.found [
        | inl e ↦ inl (was ∙ sym kept ∙ e)
        | inr (at, covered) ↦ inr (inr at, covered)
      ];
      before = λ c e. rest.before c (kept ∙ sym was ∙ e);
      longest = λ y at covered. elim at [
        | inl e ↦ omega (arith, ap (λ (z : Domain). length z.domain) e, rest.before b kept, longer)
        | inr later ↦ rest.longest y later covered
      ];
    }

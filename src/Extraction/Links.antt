-- ===== src/Extraction/Links.antt =====
-- The link that `ExtractLink` of api/store/postgres.go chooses.
use far_mail.Base.{
  ◌≡◌, refl, sym, ◌∙◌, subst, ◌⊎◌, inl, inr, true, false, List, [], ◌∷◌, Option, none, some, arith,
  Bool-cases, Option-cases, Elem,
}
use far_mail.Base.Int.{ℤ, ltb_ℤ}
use far_mail.Text.{Bytes}
use far_mail.Extraction.{Markup, bare_link, is_candidate, link_score, best_link, extract_link}

-- No candidate among the matches, or before them, scores higher than the chosen link, which is a
-- candidate.
record IsBestLink (best : Option Bytes) (matches : List Bytes) (link : Bytes) : Type 0 where
  chosen :
      (best ≡ some link)
      ⊎ ((m : Bytes) × Elem m matches × (bare_link m ≡ link) × (is_candidate link ≡ true))
  before : (b : Bytes) → best ≡ some b → ltb_ℤ (link_score link) (link_score b) ≡ false
  highest :
      (m : Bytes)
      → Elem m matches
      → is_candidate (bare_link m) ≡ true
      → ltb_ℤ (link_score link) (link_score (bare_link m)) ≡ false

not_above : (a b c : ℤ) → ltb_ℤ a b ≡ false → ltb_ℤ b c ≡ false → ltb_ℤ a c ≡ false
not_above a b c h k = ground (arith, h, k)

not_above-ltb_ℤ : (a b c : ℤ) → ltb_ℤ a b ≡ false → ltb_ℤ c b ≡ true → ltb_ℤ a c ≡ false
not_above-ltb_ℤ a b c h k = ground (arith, h, k)

above_itself : (a : ℤ) → ltb_ℤ a a ≡ false
above_itself a = ground arith

abbrev IsNotAbove : Bytes → Bytes → Type 0
IsNotAbove link other = ltb_ℤ (link_score link) (link_score other) ≡ false

-- From the links after a match to the match itself, which is taken or not.
with_match :
    (best next : Option Bytes) (m : Bytes) (others : List Bytes) (link : Bytes)
    → IsBestLink next others link
    → (next ≡ some link → (best ≡ some link) ⊎ ((bare_link m ≡ link) × (is_candidate link ≡ true)))
    → ((b : Bytes) → best ≡ some b → IsNotAbove link b)
    → (is_candidate (bare_link m) ≡ true → IsNotAbove link (bare_link m))
    → IsBestLink best (m ∷ others) link
with_match best next m others link r from before own = record {
  chosen = elim r.chosen [
    | inl e ↦ elim (from e) [ inl old ↦ inl old | inr (is, ok) ↦ inr (m, inl refl, is, ok) ]
    | inr (x, at, is, ok) ↦ inr (x, inr at, is, ok)
  ];
  before = before;
  highest = λ x at candidate. elim at [
    | inl e ↦
        subst (λ y. IsNotAbove link (bare_link y)) (sym e)
          (own (subst (λ y. is_candidate (bare_link y) ≡ true) e candidate))
    | inr there ↦ r.highest x there candidate
  ];
}

taken :
    (own link : Bytes)
    → is_candidate own ≡ true
    → some own ≡ some link
    → (own ≡ link) × (is_candidate link ≡ true)
taken own link candidate e =
    let same : own ≡ link = ground (arith, e) in
    (same, subst (λ x. is_candidate x ≡ true) same candidate)

best_link-IsBestLink :
    (best : Option Bytes) (matches : List Bytes) (link : Bytes)
    → best_link best matches ≡ some link
    → IsBestLink best matches link
unfolding best_link
best_link-IsBestLink best [] link h = record {
  chosen = inl h;
  before = λ b e.
      subst (λ x. IsNotAbove link x) {x = link} {y = b} (ground (arith, h, e))
        (above_itself (link_score link));
  highest = λ m at. absurd at;
}
best_link-IsBestLink best (m ∷ others) link h =
    let own = bare_link m in
    elim (Bool-cases (is_candidate own)) [
      | inr skipped ↦
          let r = best_link-IsBestLink best others link (ground (arith, h, skipped)) in
          with_match best best m others link r (λ e. inl e) r.before
            (λ candidate. absurd (ground (arith, skipped, candidate)))
      | inl candidate ↦ elim (Option-cases best) [
        | inl first ↦
            let r =
              best_link-IsBestLink (some own) others link (ground (arith, h, candidate, first)) in
            with_match best (some own) m others link r (λ e. inr (taken own link candidate e))
              (λ b e. absurd (ground (arith, first, e))) (λ _. r.before own refl)
        | inr (b, found) ↦ elim (Bool-cases (ltb_ℤ (link_score b) (link_score own))) [
          | inl higher ↦
              let r =
                best_link-IsBestLink (some own) others link
                  (ground (arith, h, candidate, found, higher)) in
              with_match best (some own) m others link r (λ e. inr (taken own link candidate e))
                (λ c e.
                  let same : b ≡ c = ground (arith, found, e) in
                  subst (IsNotAbove link) same (
                    not_above-ltb_ℤ (link_score link) (link_score own) (link_score b)
                      (r.before own refl) higher))
                (λ _. r.before own refl)
          | inr lower ↦
              let r =
                best_link-IsBestLink (some b) others link
                  (ground (arith, h, candidate, found, lower)) in
              with_match best (some b) m others link r (λ e. inl (found ∙ e))
                (λ c e. r.before c (sym found ∙ e))
                (λ _.
                  not_above (link_score link) (link_score b) (link_score own) (r.before b refl)
                    lower)
        ]
      ]
    ]

-- If a link is chosen, then it is one of the matches without the punctuation behind it, and a
-- candidate, and no match that is a candidate scores higher.
pub extract_link-highest :
    (markup : Markup) (source link m : Bytes)
    → extract_link markup source ≡ some link
    → Elem m (markup.find_links source)
    → is_candidate (bare_link m) ≡ true
    → ((x : Bytes) × Elem x (markup.find_links source)
        × (bare_link x ≡ link)
        × (is_candidate link ≡ true))
      × (ltb_ℤ (link_score link) (link_score (bare_link m)) ≡ false)
unfolding extract_link
extract_link-highest markup source link m h at candidate =
    let r = best_link-IsBestLink none (markup.find_links source) link h in
    (
      elim r.chosen [ inl e ↦ absurd (ground (arith, e)) | inr found ↦ found ],
      r.highest m at candidate,
    )

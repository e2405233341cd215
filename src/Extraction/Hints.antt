-- ===== src/Extraction/Hints.antt =====
-- Where the hints of `nextCodeHint` of api/store/postgres.go stand in a text.
use far_mail.Base.{
  ℕ, suc, ◌+◌, ◌≡◌, refl, ap, subst, inl, inr, true, ◌&&◌, List, [], ◌∷◌, ◌++◌, Option, none, some,
  arith, length, Bool-cases, Option-cases, take, drop, ==_iff, Elem, ltb, ◌==◌, ◌||◌,
}
use far_mail.Text.{Bytes, has_prefix}
use far_mail.Extraction.{code_hints, index, better_hint, next_hint}

-- A hint of the list stands in a text from one place to another.
pub record IsHintAt (s : Bytes) (start end : ℕ) : Type 0 where
  pub hint : Bytes
  pub listed : Elem hint code_hints
  pub split : take start s ++ (hint ++ drop end s) ≡ s

has_prefix-split : (p s : Bytes) → has_prefix p s ≡ true → p ++ drop (length p) s ≡ s
has_prefix-split [] s h = refl
has_prefix-split (b ∷ p) [] h = absurd (ground (arith, h))
has_prefix-split (b ∷ p) (c ∷ s) h = ground (arith, h, has_prefix-split p s, ==_iff b c)

index-split :
    (hint s : Bytes) (i : ℕ)
    → index hint s ≡ some i
    → take i s ++ (hint ++ drop (i + length hint) s) ≡ s
index-split [] [] i h = ground (arith, h)
index-split (b ∷ hint) [] i h = absurd (ground (arith, h))
index-split hint (c ∷ s) i h = elim (Bool-cases (has_prefix hint (c ∷ s))) [
  | inl here ↦ ground (arith, h, here, has_prefix-split hint (c ∷ s) here)
  | inr later ↦ elim (Option-cases (index hint s)) [
    | inl absent ↦ absurd (ground (arith, h, later, absent))
    | inr (j, at) ↦
        let place : suc j ≡ i = ground (arith, h, later, at) in
        subst (λ n. take n (c ∷ s) ++ (hint ++ drop (n + length hint) (c ∷ s)) ≡ c ∷ s) place
          (subst (λ n. c ∷ take j s ++ (hint ++ drop n (c ∷ s)) ≡ c ∷ s) {x = suc (j + length hint)}
            (omega arith) (ap (λ t. c ∷ t) (index-split hint s j at)))
  ]
]

abbrev pub IsHint : Bytes → ℕ × ℕ → Type 0
IsHint s (start, end) = IsHintAt s start end

better_hint-IsHint :
    (s : Bytes) (found : ℕ × ℕ) (best : Option (ℕ × ℕ))
    → IsHint s found
    → ((b : ℕ × ℕ) → best ≡ some b → IsHint s b)
    → IsHint s (better_hint found best)
better_hint-IsHint s found none new old = new
better_hint-IsHint s (start, end) (some (best_start, best_end)) new old =
    elim (Bool-cases (ltb start best_start || start == best_start && ltb best_end end)) [
      | inl better ↦ subst (IsHint s) {x = (start, end)} (ground (arith, better)) new
      | inr no_better ↦
          subst (IsHint s) {x = (best_start, best_end)} (ground (arith, no_better))
            (old (best_start, best_end) refl)
    ]

pub next_hint-IsHint :
    (hints : List Bytes) (s : Bytes) (best : Option (ℕ × ℕ)) (found : ℕ × ℕ)
    → ((hint : Bytes) → Elem hint hints → Elem hint code_hints)
    → ((b : ℕ × ℕ) → best ≡ some b → IsHint s b)
    → next_hint hints s best ≡ some found
    → IsHint s found
unfolding next_hint
next_hint-IsHint [] s best found listed old h = old found h
next_hint-IsHint (hint ∷ hints) s best found listed old h = elim (Option-cases (index hint s)) [
  | inl absent ↦
      next_hint-IsHint hints s best found (λ x e. listed x (inr e)) old (ground (arith, h, absent))
  | inr (i, at) ↦
      let here : IsHint s (i, i + length hint) = record {
        hint = hint;
        listed = listed hint (inl refl);
        split = index-split hint s i at;
      } in
      let best_now = better_hint (i, i + length hint) best in
      let kept = better_hint-IsHint s (i, i + length hint) best here old in
      next_hint-IsHint hints s (some best_now) found (λ x e. listed x (inr e))
        (λ b e. subst (IsHint s) {x = best_now} (ground (arith, e)) kept) (ground (arith, h, at))
]

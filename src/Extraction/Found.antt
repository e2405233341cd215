-- ===== src/Extraction/Found.antt =====
-- What `ExtractCode` of api/store/postgres.go finds in a message, and that it misses no code.
use mathlib.Core.List.{append_assoc}
use far_mail.Base.{
  ℕ, zero, suc, ◌≡◌, sym, ◌∙◌, ap, subst, ◌⊎◌, inl, inr, Bool, true, false, ◌++◌, none, some, arith,
  length, Bool-cases, Option-cases, take, drop, take-append-drop, Elem,
}
use far_mail.Text.{Bytes, to_upper}
use far_mail.Extraction.{
  Markup, CodeSource, keyword, digits, token, normalize_text, scan_codes, first_likely_code,
  code_in, code_hints, next_hint, after_hints, code_of, extract_code,
}
use far_mail.Extraction.Hints.{IsHintAt, next_hint-IsHint}
use far_mail.Extraction.Scan.{Occurs, scan_codes-Occurs, scan_codes-none}

first_likely_code-Occurs :
    (digits_only : Bool) (s code : Bytes)
    → first_likely_code digits_only s ≡ some code
    → Occurs digits_only false code s
unfolding first_likely_code
first_likely_code-Occurs digits_only s code h =
    scan_codes-Occurs (length s) digits_only false s code h

first_likely_code-none :
    (digits_only : Bool) (s code : Bytes)
    → first_likely_code digits_only s ≡ none
    → ¬ Occurs digits_only false code s
unfolding first_likely_code
first_likely_code-none digits_only s code h o =
    let whole = sym o.split in
    scan_codes-none (length s) digits_only false o.before code o.rest
      (omega (arith, ap length whole))
      (ap (λ t. scan_codes (length s) digits_only false t) (sym whole) ∙ h) o.stands

-- No code of digits stands alone in a text.
abbrev NoDigits : Bytes → Type 0
NoDigits s = (k : Bytes) → ¬ Occurs true false k s

-- A code stands alone in a text as one of digits, or as one of digits and letters if no code of
-- digits does.
abbrev pub IsCodeIn : Bytes → Bytes → Type 0
IsCodeIn code s = Occurs true false code s ⊎ (Occurs false false code s × NoDigits s)

-- A code stands alone in the 260 bytes behind a hint of the list.
pub record IsBehindHint (code s : Bytes) : Type 0 where
  pub hint : Bytes
  pub listed : Elem hint code_hints
  pub front : Bytes
  pub left : Bytes
  pub split : front ++ (hint ++ left) ≡ s
  pub occurs : IsCodeIn code (take 260 left)

-- What each kind of a code says of where it stands.
abbrev pub IsFoundAs : CodeSource → Bytes → Bytes → Type 0
IsFoundAs keyword code s = IsBehindHint code s
IsFoundAs digits code s = Occurs true false code s
IsFoundAs token code s = Occurs false false code s × NoDigits s

code_in-IsCodeIn : (s code : Bytes) → code_in s ≡ some code → IsCodeIn code s
code_in-IsCodeIn s code h = elim (Option-cases (first_likely_code true s)) [
  | inr (found, at) ↦ inl (first_likely_code-Occurs true s code (ground (arith, h, at)))
  | inl absent ↦ inr (
    first_likely_code-Occurs false s code (ground (arith, h, absent)),
    (λ k. first_likely_code-none true s k absent),
  )
]

behind : (n : ℕ) (code s : Bytes) → IsBehindHint code (drop n s) → IsBehindHint code s
behind n code s found = record {
  hint = found.hint;
  listed = found.listed;
  front = take n s ++ found.front;
  left = found.left;
  split =
      append_assoc (take n s) found.front (found.hint ++ found.left)
      ∙ ap (λ t. take n s ++ t) found.split
      ∙ take-append-drop n s;
  occurs = found.occurs;
}

after_hints-IsBehindHint :
    (rounds : ℕ) (s code : Bytes) → after_hints rounds s ≡ some code → IsBehindHint code s
unfolding after_hints
after_hints-IsBehindHint zero s code h = absurd (ground (arith, h))
after_hints-IsBehindHint (suc rounds) s code h = elim (Option-cases (next_hint code_hints s none)) [
  | inl absent ↦ absurd (ground (arith, h, absent))
  | inr ((start, end), at) ↦
      let hint : IsHintAt s start end =
        next_hint-IsHint code_hints s none (start, end) (λ x e. e)
          (λ b e. absurd (ground (arith, e))) at in
      let left = drop end s in
      elim (Option-cases (code_in (take 260 left))) [
        | inr (found, code_at) ↦
            let same : found ≡ code = ground (arith, h, at, code_at) in
            record {
              hint = hint.hint;
              listed = hint.listed;
              front = take start s;
              left = left;
              split = hint.split;
              occurs = code_in-IsCodeIn (take 260 left) code (code_at ∙ ap some same);
            }
        | inl absent ↦
            behind end code s
              (after_hints-IsBehindHint rounds left code (ground (arith, h, at, absent)))
      ]
]

-- A code that is found in a message has the length and the form of a code. In the normalized text
-- in upper case, one of kind keyword stands alone within the 260 bytes behind a hint of the list,
-- as one of digits, or as one of digits and letters if no code of digits stands alone there; one of
-- kind digits stands alone in the whole text, as one of digits; and one of kind token does as one of
-- digits and letters, where no code of digits does.
pub extract_code-IsFoundAs :
    (markup : Markup) (source code : Bytes) (kind : CodeSource)
    → extract_code markup source ≡ some (code, kind)
    → IsFoundAs kind code (to_upper (normalize_text markup source))
unfolding extract_code code_of
extract_code-IsFoundAs markup source code kind h =
    let flat = to_upper (normalize_text markup source) in
    elim (Option-cases (after_hints (length flat) flat)) [
      | inr (found, at) ↦
          let same : found ≡ code = ground (arith, h, at) in
          subst (λ (k : CodeSource). IsFoundAs k code flat) {x = keyword} (ground (arith, h, at))
            (after_hints-IsBehindHint (length flat) flat code (at ∙ ap some same))
      | inl no_hint ↦ elim (Option-cases (first_likely_code true flat)) [
        | inr (found, at) ↦
            let same : found ≡ code = ground (arith, h, no_hint, at) in
            subst (λ (k : CodeSource). IsFoundAs k code flat) {x = digits}
              (ground (arith, h, no_hint, at))
              (first_likely_code-Occurs true flat code (at ∙ ap some same))
        | inl no_digits ↦ elim (Option-cases (first_likely_code false flat)) [
          | inr (found, at) ↦
              let same : found ≡ code = ground (arith, h, no_hint, no_digits, at) in
              subst (λ (k : CodeSource). IsFoundAs k code flat) {x = token}
                (ground (arith, h, no_hint, no_digits, at))
                (
                  first_likely_code-Occurs false flat code (at ∙ ap some same),
                  (λ k. first_likely_code-none true flat k no_digits),
                )
          | inl absent ↦ absurd (ground (arith, h, no_hint, no_digits, absent))
        ]
      ]
    ]

-- If no code is found in a message, then no code stands alone anywhere in the normalized text in
-- upper case, neither one of digits nor one of digits and letters.
pub extract_code-none :
    (markup : Markup) (source : Bytes)
    → extract_code markup source ≡ none
    → (digits_only : Bool) (code : Bytes)
    → ¬ Occurs digits_only false code (to_upper (normalize_text markup source))
unfolding extract_code code_of
extract_code-none markup source h digits_only code =
    let flat = to_upper (normalize_text markup source) in
    elim (Option-cases (after_hints (length flat) flat)) [
      | inr (found, at) ↦ absurd (ground (arith, h, at))
      | inl no_hint ↦ elim (Option-cases (first_likely_code true flat)) [
        | inr (found, at) ↦ absurd (ground (arith, h, no_hint, at))
        | inl no_digits ↦ elim (Option-cases (first_likely_code false flat)) [
          | inr (found, at) ↦ absurd (ground (arith, h, no_hint, no_digits, at))
          | inl absent ↦ elim (Bool-cases digits_only) [
            | inl on ↦ (λ o.
                first_likely_code-none true flat code no_digits
                  (subst (λ d. Occurs d false code flat) on o))
            | inr off ↦ (λ o.
                first_likely_code-none false flat code absent
                  (subst (λ d. Occurs d false code flat) off o))
          ]
        ]
      ]
    ]

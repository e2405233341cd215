-- ===== src/Extraction/Scan.antt =====
-- What `firstLikelyCode` of api/store/postgres.go finds: the codes that stand alone in a text.
use mathlib.Core.List.{append_assoc}
use far_mail.Base.{
  ℕ, zero, suc, ◌≤◌, ◌≡◌, refl, sym, ◌∙◌, ap, subst, inl, inr, Bool, true, false, ◌&&◌, [], ◌∷◌,
  ◌++◌, none, some, arith, length, Bool-cases, &&-eq-true,
}
use far_mail.Text.{Bytes}
use far_mail.Extraction.{
  is_likely_code, code_byte_matches, is_word_byte, run_of, after_run, head_is, has_code_length,
  accept, scan_codes,
}

-- Whether a word byte stands at the end of a text; `touched` for the empty text.
unfoldable pub ends_word : Bool → Bytes → Bool
ends_word touched [] = touched
ends_word touched (c ∷ s) = ends_word (is_word_byte c) s

unfoldable pub all_match : Bool → Bytes → Bool
all_match digits_only [] = true
all_match digits_only (c ∷ s) = code_byte_matches digits_only c && all_match digits_only s

-- A code between two parts of a text: its bytes match, no word byte touches it, and its length and
-- form are those of a code.
pub record IsCodeAt (digits_only touched : Bool) (before code rest : Bytes) : Type 0 where
  pub matching : all_match digits_only code ≡ true
  pub free_before : ends_word touched before ≡ false
  pub free_behind : head_is is_word_byte rest ≡ false
  pub fits : has_code_length digits_only code ≡ true
  pub likely : is_likely_code code ≡ true

ends_word-append :
    (touched : Bool) (a b : Bytes) → ends_word touched (a ++ b) ≡ ends_word (ends_word touched a) b
unfolding ends_word
ends_word-append touched [] b = refl
ends_word-append touched (c ∷ a) b = ends_word-append (is_word_byte c) a b

matching_word :
    (digits_only : Bool) (c : ℕ) → code_byte_matches digits_only c ≡ true → is_word_byte c ≡ true
matching_word digits_only c h = ground (arith, h)

run_of-append : (p : ℕ → Bool) (s : Bytes) → run_of p s ++ after_run p s ≡ s
unfolding run_of after_run
run_of-append p [] = refl
run_of-append p (c ∷ s) = ground (arith, run_of-append p s)

run_of-matching :
    (digits_only : Bool) (s : Bytes)
    → all_match digits_only (run_of (code_byte_matches digits_only) s) ≡ true
unfolding run_of all_match
run_of-matching digits_only [] = refl
run_of-matching digits_only (c ∷ s) = ground (arith, run_of-matching digits_only s)

matching-ends_word :
    (digits_only : Bool) (s : Bytes) → all_match digits_only s ≡ true → ends_word true s ≡ true
unfolding all_match ends_word
matching-ends_word digits_only [] h = refl
matching-ends_word digits_only (c ∷ s) h =
    let (first, others) =
      &&-eq-true (code_byte_matches digits_only c) (all_match digits_only s) h in
    ap (λ t. ends_word t s) (matching_word digits_only c first)
    ∙ matching-ends_word digits_only s others

length-after_run : (p : ℕ → Bool) (s : Bytes) → length (after_run p s) ≤ length s
unfolding after_run
length-after_run p [] = omega arith
length-after_run p (c ∷ s) = ground (arith, length-after_run p s)

accept-IsCodeAt :
    (digits_only touched : Bool) (code rest : Bytes)
    → all_match digits_only code ≡ true
    → accept digits_only touched code rest ≡ true
    → IsCodeAt digits_only touched [] code rest
unfolding accept ends_word
accept-IsCodeAt digits_only touched code rest m h = record {
  matching = m;
  free_before = ground (arith, h);
  free_behind = ground (arith, h);
  fits = ground (arith, h);
  likely = ground (arith, h);
}

-- Where a code stands alone in a text.
pub record Occurs (digits_only touched : Bool) (code s : Bytes) : Type 0 where
  pub before : Bytes
  pub rest : Bytes
  pub split : before ++ (code ++ rest) ≡ s
  pub stands : IsCodeAt digits_only touched before code rest

moved :
    (digits_only touched : Bool) (front code s : Bytes)
    → Occurs digits_only (ends_word touched front) code s
    → Occurs digits_only touched code (front ++ s)
moved digits_only touched front code s o = record {
  before = front ++ o.before;
  rest = o.rest;
  split = append_assoc front o.before (code ++ o.rest) ∙ ap (λ t. front ++ t) o.split;
  stands = record {
    matching = o.stands.matching;
    free_before = ends_word-append touched front o.before ∙ o.stands.free_before;
    free_behind = o.stands.free_behind;
    fits = o.stands.fits;
    likely = o.stands.likely;
  };
}

-- A run of matching bytes, if there is one, ends in a word byte.
run_of-ends_word :
    (digits_only touched : Bool) (c : ℕ) (s : Bytes)
    → code_byte_matches digits_only c ≡ true
    → ends_word touched (run_of (code_byte_matches digits_only) (c ∷ s)) ≡ true
unfolding run_of ends_word
run_of-ends_word digits_only touched c s hit =
    let p = code_byte_matches digits_only in
    let tail : ends_word true (run_of p s) ≡ true =
      matching-ends_word digits_only (run_of p s) (run_of-matching digits_only s) in
    ground (arith, hit, tail, ap (λ t. ends_word t (run_of p s)) (matching_word digits_only c hit))

here :
    (digits_only touched : Bool) (code rest s : Bytes)
    → code ++ rest ≡ s
    → all_match digits_only code ≡ true
    → accept digits_only touched code rest ≡ true
    → Occurs digits_only touched code s
here digits_only touched code rest s split m taken = record {
  before = [];
  rest = rest;
  split = split;
  stands = accept-IsCodeAt digits_only touched code rest m taken;
}

pub scan_codes-Occurs :
    (rounds : ℕ) (digits_only touched : Bool) (s code : Bytes)
    → scan_codes rounds digits_only touched s ≡ some code
    → Occurs digits_only touched code s
unfolding scan_codes ends_word
scan_codes-Occurs zero digits_only touched s code h = absurd (ground (arith, h))
scan_codes-Occurs (suc rounds) digits_only touched [] code h = absurd (ground (arith, h))
scan_codes-Occurs (suc rounds) digits_only touched (c ∷ s) code h =
    let p = code_byte_matches digits_only in
    let run = run_of p (c ∷ s) in
    let rest = after_run p (c ∷ s) in
    let whole = run_of-append p (c ∷ s) in
    elim (Bool-cases (code_byte_matches digits_only c)) [
      | inr skipped ↦ moved digits_only touched (c ∷ []) code s (
          scan_codes-Occurs rounds digits_only (is_word_byte c) s code (ground (arith, h, skipped)))
      | inl hit ↦ elim (Bool-cases (accept digits_only touched run rest)) [
        | inl taken ↦
            let same : run ≡ code = ground (arith, h, hit, taken) in
            subst (λ k. Occurs digits_only touched k (c ∷ s)) same
              (here digits_only touched run rest (c ∷ s) whole (run_of-matching digits_only (c ∷ s))
                taken)
        | inr refused ↦ subst (Occurs digits_only touched code) whole (
            moved digits_only touched run code rest (
              subst (λ t. Occurs digits_only t code rest)
                (sym (run_of-ends_word digits_only touched c s hit))
                (scan_codes-Occurs rounds digits_only true rest code
                  (ground (arith, h, hit, refused)))))
      ]
    ]

-- A text that starts with a code which stands alone: the run at its front is the code.
run_of-code :
    (digits_only : Bool) (code rest : Bytes)
    → all_match digits_only code ≡ true
    → head_is is_word_byte rest ≡ false
    → (run_of (code_byte_matches digits_only) (code ++ rest) ≡ code)
      × (after_run (code_byte_matches digits_only) (code ++ rest) ≡ rest)
unfolding run_of after_run all_match
run_of-code digits_only [] [] m free = (refl, refl)
run_of-code digits_only [] (c ∷ rest) m free = (ground (arith, free), ground (arith, free))
run_of-code digits_only (c ∷ code) rest m free =
    let (first, others) =
      &&-eq-true (code_byte_matches digits_only c) (all_match digits_only code) m in
    let (run, after) = run_of-code digits_only code rest others free in
    (ground (arith, first, run), ground (arith, first, after))

-- A run of matching bytes stays in front of a text's end that is free.
after_run-front :
    (digits_only : Bool) (front s : Bytes)
    → ends_word true front ≡ false
    → (front2 : Bytes) × (after_run (code_byte_matches digits_only) (front ++ s) ≡ front2 ++ s)
      × (ends_word true front2 ≡ false)
unfolding after_run ends_word
after_run-front digits_only [] s h = absurd (ground (arith, h))
after_run-front digits_only (c ∷ front) s h = elim (Bool-cases (code_byte_matches digits_only c)) [
  | inl hit ↦
      let (front2, after, free) =
        after_run-front digits_only front s
          (ap (λ t. ends_word t front) (sym (matching_word digits_only c hit)) ∙ h) in
      (front2, ground (arith, hit, after), free)
  | inr skipped ↦ (c ∷ front, ground (arith, skipped), h)
]

code_long :
    (digits_only : Bool) (code : Bytes) → has_code_length digits_only code ≡ true → 4 ≤ length code
code_long true code h = ground (arith, h)
code_long false code h = ground (arith, h)

IsCodeAt-accept :
    (digits_only touched : Bool) (code rest : Bytes)
    → IsCodeAt digits_only touched [] code rest
    → accept digits_only touched code rest ≡ true
unfolding accept ends_word
IsCodeAt-accept digits_only touched code rest h =
    ground (arith, h.free_before, h.free_behind, h.fits, h.likely)

after_run-hit :
    (p : ℕ → Bool) (c : ℕ) (s : Bytes) → p c ≡ true → length (after_run p (c ∷ s)) ≤ length s
unfolding after_run
after_run-hit p c s hit = ground (arith, hit, length-after_run p s)

pub scan_codes-none :
    (rounds : ℕ) (digits_only touched : Bool) (before code rest : Bytes)
    → length (before ++ (code ++ rest)) ≤ rounds
    → scan_codes rounds digits_only touched (before ++ (code ++ rest)) ≡ none
    → ¬ IsCodeAt digits_only touched before code rest
unfolding scan_codes ends_word all_match
scan_codes-none rounds digits_only touched [] [] rest enough h at =
    absurd (ground (arith, code_long digits_only [] at.fits))
scan_codes-none zero digits_only touched [] (c ∷ code) rest enough h at =
    absurd (omega (arith, enough))
scan_codes-none zero digits_only touched (c ∷ before) code rest enough h at =
    absurd (omega (arith, enough))
scan_codes-none (suc rounds) digits_only touched [] (c ∷ code) rest enough h at =
    let (run, after) = run_of-code digits_only (c ∷ code) rest at.matching at.free_behind in
    let (first, others) =
      &&-eq-true (code_byte_matches digits_only c) (all_match digits_only code) at.matching in
    absurd
      (ground (arith, h, first, run, after, IsCodeAt-accept digits_only touched (c ∷ code) rest at))
scan_codes-none (suc rounds) digits_only touched (c ∷ before) code rest enough h at =
    let p = code_byte_matches digits_only in
    let s = before ++ (code ++ rest) in
    elim (Bool-cases (code_byte_matches digits_only c)) [
      | inr skipped ↦
          scan_codes-none rounds digits_only (is_word_byte c) before code rest
            (omega (arith, enough)) (ground (arith, h, skipped))
            (record {
              matching = at.matching;
              free_before = at.free_before;
              free_behind = at.free_behind;
              fits = at.fits;
              likely = at.likely;
            })
      | inl hit ↦
          let (front, after, free) =
            after_run-front digits_only (c ∷ before) (code ++ rest) at.free_before in
          let beyond : scan_codes rounds digits_only true (after_run p (c ∷ s)) ≡ none =
            ground (arith, h, hit) in
          scan_codes-none rounds digits_only true front code rest
            (omega (arith, enough, ap length after, after_run-hit p c s hit))
            (ap (scan_codes rounds digits_only true) (sym after) ∙ beyond)
            (record {
              matching = at.matching;
              free_before = free;
              free_behind = at.free_behind;
              fits = at.fits;
              likely = at.likely;
            })
    ]

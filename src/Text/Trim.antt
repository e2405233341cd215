-- ===== src/Text/Trim.antt =====
-- What trimming leaves: no byte of the set at either end, and of the text a contiguous part.
use far_mail.Base.{
  ℕ, ◌+◌, ◌≤◌, ◌≡◌, refl, Bool, true, false, [], ◌∷◌, arith, length, all, Bool-cases, inl, inr,
}
use far_mail.Text.{Bytes, trim_left, trim_right, put_before, trim}

-- The first byte of a text, if any, fails the test.
abbrev pub StartsOut : (ℕ → Bool) → Bytes → Type 0
StartsOut p [] = Unit
StartsOut p (c ∷ s) = p c ≡ false

-- The last byte of a text, if any, fails the test.
abbrev pub EndsOut : (ℕ → Bool) → Bytes → Type 0
EndsOut p [] = Unit
EndsOut p (c ∷ []) = p c ≡ false
EndsOut p (c ∷ d ∷ s) = EndsOut p (d ∷ s)

trim_left-StartsOut : (p : ℕ → Bool) (s : Bytes) → StartsOut p (trim_left p s)
trim_left-StartsOut p [] = tt
trim_left-StartsOut p (c ∷ s) = elim (Bool-cases (p c)) [
  | inl e ↦ rw e (trim_left-StartsOut p s)
  | inr e ↦ rw e e
]

put_before-EndsOut : (p : ℕ → Bool) (c : ℕ) (s : Bytes) → EndsOut p s → EndsOut p (put_before p c s)
put_before-EndsOut p c [] h = elim (Bool-cases (p c)) [ inl e ↦ rw e tt | inr e ↦ rw e e ]
put_before-EndsOut p c (d ∷ s) h = h

pub trim_right-EndsOut : (p : ℕ → Bool) (s : Bytes) → EndsOut p (trim_right p s)
trim_right-EndsOut p [] = tt
trim_right-EndsOut p (c ∷ s) = put_before-EndsOut p c (trim_right p s) (trim_right-EndsOut p s)

put_before-StartsOut :
    (p : ℕ → Bool) (c : ℕ) (s : Bytes) → p c ≡ false → StartsOut p (put_before p c s)
put_before-StartsOut p c [] h = rw h h
put_before-StartsOut p c (d ∷ s) h = h

trim_right-StartsOut : (p : ℕ → Bool) (s : Bytes) → StartsOut p s → StartsOut p (trim_right p s)
trim_right-StartsOut p [] h = tt
trim_right-StartsOut p (c ∷ s) h = put_before-StartsOut p c (trim_right p s) h

pub trim-StartsOut : (p : ℕ → Bool) (s : Bytes) → StartsOut p (trim p s)
unfolding trim
trim-StartsOut p s = trim_right-StartsOut p (trim_left p s) (trim_left-StartsOut p s)

pub trim-EndsOut : (p : ℕ → Bool) (s : Bytes) → EndsOut p (trim p s)
unfolding trim
trim-EndsOut p s = trim_right-EndsOut p (trim_left p s)

-- A property of every byte survives trimming.
all-trim_left : (q p : ℕ → Bool) (s : Bytes) → all q s ≡ true → all q (trim_left p s) ≡ true
all-trim_left q p [] h = refl
all-trim_left q p (c ∷ s) h = ground (arith, all-trim_left q p s)

all-put_before :
    (q p : ℕ → Bool) (c : ℕ) (s : Bytes)
    → q c ≡ true
    → all q s ≡ true
    → all q (put_before p c s) ≡ true
all-put_before q p c [] h k = ground arith
all-put_before q p c (d ∷ s) h k = ground arith

all-trim_right : (q p : ℕ → Bool) (s : Bytes) → all q s ≡ true → all q (trim_right p s) ≡ true
all-trim_right q p [] h = refl
all-trim_right q p (c ∷ s) h =
    ground (arith, all-trim_right q p s, all-put_before q p c (trim_right p s))

pub all-trim : (q p : ℕ → Bool) (s : Bytes) → all q s ≡ true → all q (trim p s) ≡ true
unfolding trim
all-trim q p s h = all-trim_right q p (trim_left p s) (all-trim_left q p s h)

length-trim_left-le : (p : ℕ → Bool) (s : Bytes) → length (trim_left p s) ≤ length s
length-trim_left-le p [] = omega arith
length-trim_left-le p (c ∷ s) = ground (arith, length-trim_left-le p s)

length-put_before-le : (p : ℕ → Bool) (c : ℕ) (s : Bytes) → length (put_before p c s) ≤ length s + 1
length-put_before-le p c [] = ground arith
length-put_before-le p c (d ∷ s) = omega arith

length-trim_right-le : (p : ℕ → Bool) (s : Bytes) → length (trim_right p s) ≤ length s
length-trim_right-le p [] = omega arith
length-trim_right-le p (c ∷ s) =
    omega (arith, length-trim_right-le p s, length-put_before-le p c (trim_right p s))

pub length-trim-le : (p : ℕ → Bool) (s : Bytes) → length (trim p s) ≤ length s
unfolding trim
length-trim-le p s = omega (arith, length-trim_left-le p s, length-trim_right-le p (trim_left p s))

-- A text that has no byte of the set at its ends is left as it is.
trim_left-id : (p : ℕ → Bool) (s : Bytes) → StartsOut p s → trim_left p s ≡ s
trim_left-id p [] h = refl
trim_left-id p (c ∷ s) h = rw h

trim_right-id : (p : ℕ → Bool) (s : Bytes) → EndsOut p s → trim_right p s ≡ s
trim_right-id p [] h = refl
trim_right-id p (c ∷ []) h = rw h
trim_right-id p (c ∷ d ∷ s) h = rw (trim_right-id p (d ∷ s) h)

pub trim-id : (p : ℕ → Bool) (s : Bytes) → StartsOut p s → EndsOut p s → trim p s ≡ s
unfolding trim
trim-id p s h k = rw (trim_left-id p s h) (trim_right-id p s k)

all-StartsOut :
    (p q : ℕ → Bool) (s : Bytes)
    → ((c : ℕ) → q c ≡ true → p c ≡ false)
    → all q s ≡ true
    → StartsOut p s
all-StartsOut p q [] out h = tt
all-StartsOut p q (c ∷ s) out h = out c (ground arith)

all-EndsOut :
    (p q : ℕ → Bool) (s : Bytes)
    → ((c : ℕ) → q c ≡ true → p c ≡ false)
    → all q s ≡ true
    → EndsOut p s
all-EndsOut p q [] out h = tt
all-EndsOut p q (c ∷ []) out h = out c (ground arith)
all-EndsOut p q (c ∷ d ∷ s) out h = all-EndsOut p q (d ∷ s) out (ground arith)

-- So is a text none of whose bytes are in the set.
pub trim-all :
    (p q : ℕ → Bool) (s : Bytes)
    → ((c : ℕ) → q c ≡ true → p c ≡ false)
    → all q s ≡ true
    → trim p s ≡ s
trim-all p q s out h = trim-id p s (all-StartsOut p q s out h) (all-EndsOut p q s out h)

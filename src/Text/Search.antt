-- ===== src/Text/Search.antt =====
-- Offsets of a byte in a text, and the slices on both sides of it.
use far_mail.Base.{
  ℕ, zero, suc, ◌<◌, ◌≡◌, refl, ap, Bool, true, not, [], ◌∷◌, ◌++◌, Option, none, some, arith,
  length, take, drop, all, ◌==◌,
}
use far_mail.Text.{Bytes, index_byte, last_index}

-- No byte of the text is `b`.
abbrev pub free_of : ℕ → Bytes → Bool
free_of b = all (λ c. not (c == b))

pub take-length : (s t : Bytes) → take (length s) (s ++ t) ≡ s
take-length [] t = refl
take-length (c ∷ s) t = ap (◌∷◌ c) (take-length s t)

pub drop-length : (s t : Bytes) → drop (length s) (s ++ t) ≡ t
drop-length [] t = refl
drop-length (c ∷ s) t = drop-length s t

pub drop-suc-length : (s t : Bytes) (b : ℕ) → drop (suc (length s)) (s ++ b ∷ t) ≡ t
drop-suc-length [] t b = refl
drop-suc-length (c ∷ s) t b = drop-suc-length s t b

pub last_index-free : (b : ℕ) (s : Bytes) → free_of b s ≡ true → last_index b s ≡ none
last_index-free b [] h = refl
last_index-free b (c ∷ s) h = rw (last_index-free b s (ground arith), last_index) (ground arith)

-- The last occurrence is where no later byte is `b`.
pub last_index-split :
    (b : ℕ) (s t : Bytes) → free_of b t ≡ true → last_index b (s ++ b ∷ t) ≡ some (length s)
last_index-split b [] t h = rw (last_index-free b t h, last_index) (ground arith)
last_index-split b (c ∷ s) t h = rw (last_index-split b s t h, last_index)

-- What `last_index` finds splits the text around an occurrence of `b`, the last one.
abbrev pub LastSplit : ℕ → Bytes → ℕ → Type 0
LastSplit b s i =
    (s ≡ take i s ++ b ∷ drop (suc i) s)
    × (free_of b (drop (suc i) s) ≡ true)
    × (length (take i s) ≡ i)
    × (i < length s)

pub free_of-last_index : (b : ℕ) (s : Bytes) → last_index b s ≡ none → free_of b s ≡ true
free_of-last_index b [] h = refl
free_of-last_index b (c ∷ s) h = ground (arith, free_of-last_index b s)

last_index-LastSplit_cons :
    (b c : ℕ) (s : Bytes) (o : Option ℕ)
    → last_index b s ≡ o
    → ((j : ℕ) → last_index b s ≡ some j → LastSplit b s j)
    → {i : ℕ} → last_index b (c ∷ s) ≡ some i
    → LastSplit b (c ∷ s) i
last_index-LastSplit_cons b c s none e ih {i = zero} h = ground (arith, free_of-last_index b s e)
last_index-LastSplit_cons b c s none e ih {i = suc i} h = absurd (ground arith)
last_index-LastSplit_cons b c s (some j) e ih {i = zero} h = absurd (ground arith)
last_index-LastSplit_cons b c s (some j) e ih {i = suc i} h =
    let same : i ≡ j = ground arith in
    let below = ih i (ground arith) in (ap (◌∷◌ c) below.0, below.1, ap suc below.2, omega arith)

pub last_index-LastSplit : (b : ℕ) (s : Bytes) {i : ℕ} → last_index b s ≡ some i → LastSplit b s i
last_index-LastSplit b [] h = absurd (ground arith)
last_index-LastSplit b (c ∷ s) h =
    last_index-LastSplit_cons b c s (last_index b s) refl (λ j e. last_index-LastSplit b s e) h

-- What `index_byte` finds, in the same way: no earlier byte is `b`.
abbrev pub FirstSplit : ℕ → Bytes → ℕ → Type 0
FirstSplit b s i =
    (s ≡ take i s ++ b ∷ drop (suc i) s) × (free_of b (take i s) ≡ true) × (i < length s)

pub index_byte-free : (b : ℕ) (s : Bytes) → index_byte b s ≡ none → free_of b s ≡ true
index_byte-free b [] h = refl
index_byte-free b (c ∷ s) h = ground (arith, index_byte-free b s)

pub index_byte-FirstSplit : (b : ℕ) (s : Bytes) (i : ℕ) → index_byte b s ≡ some i → FirstSplit b s i
index_byte-FirstSplit b [] i h = absurd (ground arith)
index_byte-FirstSplit b (c ∷ s) zero h = ground arith
index_byte-FirstSplit b (c ∷ s) (suc i) h = ground (arith, index_byte-FirstSplit b s i)

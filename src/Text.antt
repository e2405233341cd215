-- ===== src/Text.antt =====
-- Texts as the lists of their bytes, and the functions of Go's `strings` that the program calls,
-- for ASCII text: there case mapping and white space are the ASCII ones. `last_index` and
-- `index` give the offset of a byte; the slices of a text are `take` and `drop`.
pub mod Trim
pub mod Search
use Prim.Native.Char.{code}
use Prim.Native.String.{String}
use far_mail.Base.{
  ℕ, zero, suc, ◌+◌, ◌-◌, Bool, true, false, ◌&&◌, ◌||◌, List, [], ◌∷◌, Option, none, some, map,
  leb, ◌==◌, if◌then◌else◌,
}
use far_mail.Base.Eq.{bytes_beq}

abbrev pub Bytes : Type 0
Bytes = List ℕ

-- The bytes of a literal.
abbrev pub codes : String → Bytes
codes String.[] = []
codes (String.◌∷◌ c s) = code c ∷ codes s

abbrev pub within : ℕ → ℕ → ℕ → Bool
within lo hi c = leb lo c && leb c hi

abbrev pub is_space : ℕ → Bool
is_space c = within 9 13 c || c == 32

abbrev pub lower_byte : ℕ → ℕ
lower_byte c = if within b'A' b'Z' c then c + 32 else c

abbrev pub upper_byte : ℕ → ℕ
upper_byte c = if within b'a' b'z' c then c - 32 else c

abbrev pub to_lower : Bytes → Bytes
to_lower = map lower_byte

abbrev pub to_upper : Bytes → Bytes
to_upper = map upper_byte

-- strings.EqualFold
abbrev pub equal_fold : Bytes → Bytes → Bool
equal_fold s t = bytes_beq (to_lower s) (to_lower t)

abbrev pub trim_left : (ℕ → Bool) → Bytes → Bytes
trim_left p [] = []
trim_left p (c ∷ s) = if p c then trim_left p s else c ∷ s

-- Puts a byte before a text from whose end bytes are trimmed.
abbrev pub put_before : (ℕ → Bool) → ℕ → Bytes → Bytes
put_before p c [] = if p c then [] else c ∷ []
put_before p c (d ∷ s) = c ∷ d ∷ s

abbrev pub trim_right : (ℕ → Bool) → Bytes → Bytes
trim_right p [] = []
trim_right p (c ∷ s) = put_before p c (trim_right p s)

-- strings.Trim by a set of bytes, and strings.TrimSpace
unfoldable pub trim : (ℕ → Bool) → Bytes → Bytes
trim p s = trim_right p (trim_left p s)

abbrev pub trim_space : Bytes → Bytes
trim_space = trim is_space

abbrev pub is_dot : ℕ → Bool
is_dot c = c == b'.'

abbrev pub has_prefix : Bytes → Bytes → Bool
has_prefix [] s = true
has_prefix (p ∷ ps) [] = false
has_prefix (p ∷ ps) (c ∷ s) = p == c && has_prefix ps s

-- strings.Contains
abbrev pub contains : Bytes → Bytes → Bool
contains needle [] = has_prefix needle []
contains needle (c ∷ s) = has_prefix needle (c ∷ s) || contains needle s

-- strings.IndexByte
abbrev pub index_byte : ℕ → Bytes → Option ℕ
index_byte b [] = none
index_byte b (c ∷ s) =
    if c == b then some 0 else elim (index_byte b s) [ none ↦ none | some i ↦ some (suc i) ]

-- strings.LastIndex of one byte
abbrev pub last_index : ℕ → Bytes → Option ℕ
last_index b [] = none
last_index b (c ∷ s) = elim (last_index b s) [
  | none ↦ if c == b then some 0 else none
  | some i ↦ some (suc i)
]

-- strings.ContainsAny
abbrev pub any_byte : (ℕ → Bool) → Bytes → Bool
any_byte p [] = false
any_byte p (c ∷ s) = p c || any_byte p s

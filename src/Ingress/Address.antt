-- ===== src/Ingress/Address.antt =====
-- The parsers of api/ingress/server.go: `splitCommand`, `extractPathArg` and `splitAddress`.
pub mod Parts
use far_mail.Base.{
  ℕ, zero, suc, ◌-◌, Bool, true, false, not, ◌&&◌, ◌||◌, [], ◌∷◌, ◌++◌, Option, none, some, ltb,
  leb, ◌==◌, if◌then◌else◌, length, take, drop,
}
use far_mail.Text.{
  Bytes, codes, is_space, is_dot, to_lower, to_upper, equal_fold, trim, trim_space, trim_left,
  has_prefix, contains, index_byte, last_index, any_byte,
}

abbrev pub is_empty : Bytes → Bool
is_empty [] = true
is_empty (c ∷ s) = false

abbrev is_blank : ℕ → Bool
is_blank r = r == b' ' || r == b'\t'

-- The first blank of a line, the `range` loop of `splitCommand`.
first_blank : Bytes → Option ℕ
first_blank [] = none
first_blank (r ∷ s) =
    if is_blank r then some 0 else elim (first_blank s) [ none ↦ none | some i ↦ some (suc i) ]

unfoldable pub split_command : Bytes → Bytes × Bytes
unfolding first_blank
split_command untrimmed =
    let line = trim_space untrimmed in
    if is_empty line then ([], []) else elim (first_blank line) [
      | none ↦ (to_upper line, [])
      | some i ↦ (to_upper (take i line), trim_space (drop (suc i) line))
    ]

abbrev pub is_angle : ℕ → Bool
is_angle c = c == b'<' || c == b'>'

-- The bytes up to the first white space: `strings.Fields(rest)[0]`, for `rest` with none in front.
abbrev take_field : Bytes → Bytes
take_field [] = []
take_field (c ∷ s) = if is_space c then [] else c ∷ take_field s

-- The path of an argument, behind its prefix. `none` where the brackets are not closed, or where
-- nothing is there.
abbrev bracketed : Bytes → Option Bytes
bracketed rest = elim (index_byte b'>' rest) [
  | none ↦ none
  | some end ↦ some (drop 1 (take end rest))
]

abbrev path_of : Bytes → Option Bytes
path_of rest =
    if has_prefix (codes "<") rest
    then bracketed rest
    else if is_empty rest
    then none
    else some (trim is_angle (take_field rest))

abbrev checked_path : Bool → Bytes → Option Bytes
checked_path allow_empty path = if is_empty path && not allow_empty then none else some path

unfoldable pub extract_path_arg : Bytes → Bytes → Bool → Option Bytes
extract_path_arg untrimmed prefix allow_empty =
    let arg = trim_space untrimmed in
    if ltb (length arg) (length prefix) || not (equal_fold (take (length prefix) arg) prefix)
    then none
    else elim (path_of (trim_space (drop (length prefix) arg))) [
      | none ↦ none
      | some path ↦ checked_path allow_empty (trim_space path)
    ]

-- The checks of `splitAddress` on the two sides of the last `@`.
abbrev pub checked_parts : Bytes → Bytes → Option (Bytes × Bytes)
checked_parts local domain =
    if is_empty local
      || is_empty domain
      || contains (codes "..") domain
      || any_byte (λ c. c == b' ' || c == b'\t' || c == b'\r' || c == b'\n') domain
    then none
    else some (local, domain)

abbrev pub split_at : Bytes → ℕ → Option (Bytes × Bytes)
split_at address at =
    if at == 0 || at == length address - 1
    then none
    else checked_parts (trim_space (take at address))
        (trim is_dot (trim_space (drop (suc at) address)))

unfoldable pub split_address : Bytes → Option (Bytes × Bytes)
split_address raw =
    let address = trim is_angle (to_lower (trim_space raw)) in
    elim (last_index b'@' address) [ none ↦ none | some at ↦ split_at address at ]

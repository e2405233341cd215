-- ===== src/Ingress/Data/RoundTrip.antt =====
-- What `readData` makes of a message that was sent with dot stuffing.
use mathlib.Core.List.{append_assoc, append-nil}
use far_mail.Base.{
  ℕ, suc, ◌+◌, ◌≤◌, ◌<◌, ◌≡◌, refl, sym, ap, ◌∙◌, Bool, true, false, List, [], ◌∷◌, ◌++◌, Option,
  some, none, arith, ltb, ◌==◌, length, length-append, if◌then◌else◌, Bool-cases, inl, inr, map,
  All,
}
use far_mail.Text.{Bytes, put_before}
use far_mail.Ingress.Data.{
  is_line_end, trim_line_end, is_end, unstuff, Message, read_lines, read_data,
}

-- The lines one after another.
abbrev pub joined : List Bytes → Bytes
joined [] = []
joined (line ∷ lines) = line ++ joined lines

abbrev pub unstuffed : List Bytes → Bytes
unstuffed lines = joined (map unstuff lines)

abbrev pub IsBodyLine : Bytes → Type 0
IsBodyLine line = is_end line ≡ false

abbrev message : Bytes → Bool → List Bytes → Message
message raw oversized unread = record { raw = raw; oversized = oversized; unread = unread }

read_lines-fits :
    (max_bytes : ℕ) (body : List Bytes) (end : Bytes) (rest : List Bytes) (raw : Bytes)
    → All IsBodyLine body
    → is_end end ≡ true
    → length raw + length (unstuffed body) ≤ max_bytes
    → read_lines max_bytes (body ++ end ∷ rest) raw false
      ≡ some (message (raw ++ unstuffed body) false rest)
unfolding read_lines
read_lines-fits max_bytes [] end rest raw h e room = rw (e, append-nil)
read_lines-fits max_bytes (line ∷ body) end rest raw (h, hs) e room =
    let sum = length-append (unstuff line) (unstuffed body) in
    let fits : ltb max_bytes (length raw + length (unstuff line)) ≡ false = ground (arith, sum) in
    rw (h, fits)
      (read_lines-fits max_bytes body end rest (raw ++ unstuff line) hs e
          (omega (arith, sum, length-append raw (unstuff line)))
        ∙ rw (append_assoc raw (unstuff line) (unstuffed body)))

-- A bounded message that is marked as too large.
abbrev IsRefused : ℕ → List Bytes → Option Message → Type 0
IsRefused max_bytes rest o =
    (raw : Bytes) × (o ≡ some (message raw true rest)) × (length raw ≤ max_bytes)

read_lines-stays :
    (max_bytes : ℕ) (body : List Bytes) (end : Bytes) (rest : List Bytes) (raw : Bytes)
    → All IsBodyLine body
    → is_end end ≡ true
    → length raw ≤ max_bytes
    → IsRefused max_bytes rest (read_lines max_bytes (body ++ end ∷ rest) raw true)
unfolding read_lines
read_lines-stays max_bytes [] end rest raw h e room = (raw, rw e, room)
read_lines-stays max_bytes (line ∷ body) end rest raw (h, hs) e room =
    elim (Bool-cases (ltb max_bytes (length raw + length (unstuff line)))) [
      | inl long ↦ rw (h, long) (read_lines-stays max_bytes body end rest raw hs e room)
      | inr short ↦
          rw (h, short)
            (read_lines-stays max_bytes body end rest (raw ++ unstuff line) hs e
              (ground (arith, length-append raw (unstuff line))))
    ]

read_lines-over :
    (max_bytes : ℕ) (body : List Bytes) (end : Bytes) (rest : List Bytes) (raw : Bytes)
    → All IsBodyLine body
    → is_end end ≡ true
    → length raw ≤ max_bytes
    → max_bytes < length raw + length (unstuffed body)
    → IsRefused max_bytes rest (read_lines max_bytes (body ++ end ∷ rest) raw false)
unfolding read_lines
read_lines-over max_bytes [] end rest raw h e room over = absurd (omega arith)
read_lines-over max_bytes (line ∷ body) end rest raw (h, hs) e room over =
    elim (Bool-cases (ltb max_bytes (length raw + length (unstuff line)))) [
      | inl long ↦ rw (h, long) (read_lines-stays max_bytes body end rest raw hs e room)
      | inr short ↦
          rw (h, short)
            (read_lines-over max_bytes body end rest (raw ++ unstuff line) hs e
              (ground (arith, length-append raw (unstuff line)))
              (omega (
                arith,
                length-append raw (unstuff line),
                length-append (unstuff line) (unstuffed body),
              )))
    ]

-- The sender's side: a line that begins with a dot gets another one.
abbrev pub stuff : Bytes → Bytes
stuff [] = []
stuff (c ∷ s) = if c == b'.' then b'.' ∷ c ∷ s else c ∷ s

pub unstuff-stuff : (line : Bytes) → unstuff (stuff line) ≡ line
unstuff-stuff [] = refl
unstuff-stuff (c ∷ []) = ground arith
unstuff-stuff (c ∷ d ∷ s) = ground arith

put_dot : (s : Bytes) → put_before is_line_end b'.' s ≡ b'.' ∷ s
put_dot [] = refl
put_dot (c ∷ s) = refl

other_first : (c : ℕ) (s : Bytes) → (c == b'.') ≡ false → is_end (c ∷ s) ≡ false
other_first c s h = go (trim_line_end s)
  where
    go : (t : Bytes) → far_mail.Base.Eq.bytes_beq (put_before is_line_end c t) (b'.' ∷ []) ≡ false
    go [] = ground arith
    go (d ∷ t) = ground arith

two_dots : (s : Bytes) → is_end (b'.' ∷ b'.' ∷ s) ≡ false
two_dots s = rw (put_dot (trim_line_end s)) refl

pub stuff-IsBodyLine : (line : Bytes) → IsBodyLine (stuff line)
stuff-IsBodyLine [] = refl
stuff-IsBodyLine (c ∷ s) = elim (Bool-cases (c == b'.')) [
  | inl dot ↦ let e : c ≡ b'.' = ground arith in rw dot (rw e (two_dots s))
  | inr other ↦ rw other (other_first c s other)
]

All-stuff : (lines : List Bytes) → All IsBodyLine (map stuff lines)
All-stuff [] = tt
All-stuff (line ∷ lines) = (stuff-IsBodyLine line, All-stuff lines)

unstuffed-stuff : (lines : List Bytes) → unstuffed (map stuff lines) ≡ joined lines
unstuffed-stuff [] = refl
unstuffed-stuff (line ∷ lines) = rw (unstuff-stuff line) (ap (◌++◌ line) (unstuffed-stuff lines))

-- A message of any lines, sent with dot stuffing and a final dot line, is read back byte for byte
-- if it fits the limit, and what was sent behind it stays unread.
pub read_data-stuff :
    (max_bytes : ℕ) (lines : List Bytes) (end : Bytes) (rest : List Bytes)
    → is_end end ≡ true
    → length (joined lines) ≤ max_bytes
    → read_data max_bytes (map stuff lines ++ end ∷ rest)
      ≡ some (record { raw = joined lines; oversized = false; unread = rest })
unfolding read_data
read_data-stuff max_bytes lines end rest e room =
    read_lines-fits max_bytes (map stuff lines) end rest [] (All-stuff lines) e
      (rw (unstuffed-stuff lines) (omega arith))
    ∙ rw (unstuffed-stuff lines)

-- If the lines in front of the final dot line hold more than the limit once unstuffed, the message
-- is marked as too large, no more than the limit is kept, and the final dot line is still found.
pub read_data-over :
    (max_bytes : ℕ) (body : List Bytes) (end : Bytes) (rest : List Bytes)
    → All IsBodyLine body
    → is_end end ≡ true
    → max_bytes < length (unstuffed body)
    → (raw : Bytes) × (read_data max_bytes (body ++ end ∷ rest)
        ≡ some (record { raw = raw; oversized = true; unread = rest }))
      × (length raw ≤ max_bytes)
unfolding read_data
read_data-over max_bytes body end rest h e over =
    read_lines-over max_bytes body end rest [] h e (omega arith) (omega arith)

-- Whatever is read, the message kept is within the limit and the lines left are fewer.
read_lines-bound :
    (max_bytes : ℕ) (lines : List Bytes) (raw : Bytes) (oversized : Bool) {m : Message}
    → length raw ≤ max_bytes
    → read_lines max_bytes lines raw oversized ≡ some m
    → (length m.raw ≤ max_bytes) × (length m.unread < length lines)
unfolding read_lines
read_lines-bound max_bytes [] raw oversized room h = absurd (ground arith)
read_lines-bound max_bytes (line ∷ lines) raw oversized {m} room h =
    elim (Bool-cases (is_end line)) [
      | inl stop ↦ ground arith
      | inr more ↦ elim (Bool-cases (ltb max_bytes (length raw + length (unstuff line)))) [
        | inl long ↦
            let below =
              read_lines-bound max_bytes lines raw true {m = m} room (rw (more, long) at h) in
            (below.0, omega (arith, below.1))
        | inr short ↦
            let below =
              read_lines-bound max_bytes lines (raw ++ unstuff line) oversized {m = m}
                (ground (arith, length-append raw (unstuff line))) (rw (more, short) at h) in
            (below.0, omega (arith, below.1))
      ]
    ]

pub read_data-bound :
    (max_bytes : ℕ) (lines : List Bytes) {m : Message}
    → read_data max_bytes lines ≡ some m
    → (length m.raw ≤ max_bytes) × (length m.unread < length lines)
unfolding read_data
read_data-bound max_bytes lines {m} h =
    read_lines-bound max_bytes lines [] false {m = m} (omega arith) h

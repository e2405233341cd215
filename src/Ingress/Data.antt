-- ===== src/Ingress/Data.antt =====
-- `readData` of api/ingress/server.go. A connection is the list of the lines that `ReadString`
-- returns, each with its line end; where the list ends, the next read fails.
pub mod RoundTrip
use far_mail.Base.{
  ℕ, ◌+◌, Bool, true, [], ◌∷◌, ◌++◌, List, Option, none, some, ltb, ◌==◌, ◌||◌, if◌then◌else◌,
  length, drop,
}
use far_mail.Base.Eq.{bytes_beq}
use far_mail.Text.{Bytes, codes, trim_right, has_prefix}

abbrev pub is_line_end : ℕ → Bool
is_line_end c = c == b'\r' || c == b'\n'

abbrev pub trim_line_end : Bytes → Bytes
trim_line_end = trim_right is_line_end

-- A dot alone on its line ends the message.
abbrev pub is_end : Bytes → Bool
is_end line = bytes_beq (trim_line_end line) (codes ".")

-- Undoes the sender's dot stuffing.
abbrev pub unstuff : Bytes → Bytes
unstuff line = if has_prefix (codes "..") line then drop 1 line else line

pub record Message : Type 0 where
  pub raw : Bytes
  pub oversized : Bool
  pub unread : List Bytes

-- The loop, over what is read so far. A line that does not fit is dropped, and the loop goes on.
pub read_lines : ℕ → List Bytes → Bytes → Bool → Option Message
read_lines max_bytes [] raw oversized = none
read_lines max_bytes (line ∷ lines) raw oversized =
    let piece = unstuff line in
    let too_long = ltb max_bytes (length raw + length piece) in
    let rest =
      read_lines max_bytes lines (if too_long then raw else raw ++ piece)
        (if too_long then true else oversized) in
    if is_end line then some (record { raw = raw; oversized = oversized; unread = lines }) else rest

unfoldable pub read_data : ℕ → List Bytes → Option Message
unfolding read_lines
read_data max_bytes lines = read_lines max_bytes lines [] Bool.false

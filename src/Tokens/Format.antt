-- ===== src/Tokens/Format.antt =====
-- The secrets of api/store/tokens.go: `sanitizeTokenSecretPrefix`, `generateAdminAuthKey`,
-- `randomAccessTokenSecret`, the format tests, `tokenPrefix` and `normalizeScope`. The random
-- source is an argument: `random n` is the list of the n bytes that `rand.Read` fills in.
pub mod Sanitize
pub mod Generated
pub mod Overlong
pub mod Short
use far_mail.Base.{
  ℕ, zero, suc, ◌+◌, ◌-◌, ◌/◌, ◌%◌, Bool, true, false, not, ◌&&◌, ◌||◌, List, [], ◌∷◌, ◌++◌, Option,
  none, some, ltb, leb, ◌==◌, if◌then◌else◌, length, take, drop, all,
}
use far_mail.Base.Eq.{bytes_beq}
use far_mail.Text.{Bytes, codes, within, trim, trim_space, to_lower, has_prefix, last_index}

-- The bytes of a key's prefix: lower case letters, digits, `_` and `-`.
abbrev pub is_prefix_byte : ℕ → Bool
is_prefix_byte r = within b'a' b'z' r || within b'0' b'9' r || r == b'_' || r == b'-'

abbrev pub is_hex_byte : ℕ → Bool
is_hex_byte r = within b'0' b'9' r || within b'a' b'f' r

-- The loop of `sanitizeTokenSecretPrefix`: what is written, `lastDash`, and whether it broke off.
pub record Builder : Type 0 where
  pub out : Bytes
  pub last_dash : Bool
  pub full : Bool

abbrev push : Builder → ℕ → Bool → Builder
push b r dash = record {
  out = b.out ++ r ∷ [];
  last_dash = dash;
  full = leb 24 (length (b.out ++ r ∷ []));
}

abbrev pub is_empty : Bytes → Bool
is_empty [] = true
is_empty (c ∷ s) = false

-- One round: a byte that is not allowed becomes a dash, which does not test the length.
pub write_byte : Builder → ℕ → Builder
write_byte b r =
    if not (is_prefix_byte r)
    then if not b.last_dash && not (is_empty b.out)
      then record b { out = b.out ++ b'-' ∷ []; last_dash = true }
      else b
    else if r == b'-'
    then if is_empty b.out || b.last_dash then b else push b r true
    else push b r false

pub write_bytes : Bytes → Builder → Builder
write_bytes [] b = b
write_bytes (r ∷ rs) b =
    let next = write_byte b r in let rest = write_bytes rs next in if next.full then next else rest

abbrev pub start : Builder
start = record { out = []; last_dash = false; full = false }

abbrev pub is_edge : ℕ → Bool
is_edge c = c == b'-' || c == b'_'

abbrev or_mail : Bytes → Bytes
or_mail [] = codes "mail"
or_mail (c ∷ s) = c ∷ s

unfoldable pub sanitize_token_secret_prefix : Bytes → Bytes
unfolding write_bytes write_byte
sanitize_token_secret_prefix raw =
    or_mail (trim is_edge (write_bytes (to_lower (trim_space raw)) start).out)

-- hex.EncodeToString
abbrev pub hex_digit : ℕ → ℕ
hex_digit d = if ltb d 10 then b'0' + d else b'a' + (d - 10)

abbrev pub encode_hex : List ℕ → Bytes
encode_hex [] = []
encode_hex (b ∷ bs) = hex_digit (b / 16) ∷ hex_digit (b % 16) ∷ encode_hex bs

unfoldable pub generate_admin_auth_key : (ℕ → List ℕ) → Bytes → ℕ → Bytes
generate_admin_auth_key random prefix hex_length =
    codes "sk-"
    ++ (sanitize_token_secret_prefix prefix
        ++ (b'-' ∷ encode_hex (random (if hex_length == 16 then 8 else 16))))

-- `randomAccessTokenSecret` and `generateAccessToken`
unfoldable pub generate_access_token : (ℕ → List ℕ) → Bytes
generate_access_token random = encode_hex (random 16)

unfoldable pub is_access_token_format : Bytes → Bool
is_access_token_format raw = length (trim_space raw) == 32 && all is_hex_byte (trim_space raw)

-- The tests behind `lastDash`, at the offset of the last dash.
abbrev pub named_secret_at : Bytes → Bool → ℕ → Bool
named_secret_at raw allow_short i =
    let secret_length = length raw - i - 1 in
    let prefix = drop 3 (take i raw) in
    if leb i 3 || not (secret_length == 32 || (allow_short && secret_length == 16))
    then false
    else if length prefix == 0 || ltb 24 (length prefix)
    then false
    else all is_prefix_byte prefix && all is_hex_byte (drop (suc i) raw)

unfoldable pub is_named_secret_format : Bytes → Bool → Bool
is_named_secret_format untrimmed allow_short =
    let raw = trim_space untrimmed in
    if not (has_prefix (codes "sk-") raw)
    then false
    else elim (last_index b'-' raw) [ none ↦ false | some i ↦ named_secret_at raw allow_short i ]

unfoldable pub is_admin_auth_key_format : Bytes → Bool
unfolding is_named_secret_format
is_admin_auth_key_format raw = is_named_secret_format raw true

unfoldable pub token_prefix : Bytes → Bytes
token_prefix raw =
    if leb (length (trim_space raw)) 16 then trim_space raw else take 16 (trim_space raw)

unfoldable pub normalize_scope : Bytes → Bytes
normalize_scope raw =
    let scope = to_lower (trim_space raw) in
    if bytes_beq scope (codes "cleanup") || bytes_beq scope (codes "owner")
    then scope
    else if bytes_beq scope (codes "read")
    then scope
    else codes "read"

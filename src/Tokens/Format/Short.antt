-- ===== src/Tokens/Format/Short.antt =====
-- Prefixes of at most 24 bytes, the length that the settings handler accepts, and the separation
-- of the two kinds of secret.
use far_mail.Base.{
  ℕ, suc, ◌+◌, ◌≤◌, ◌≡◌, refl, ◌∙◌, true, false, List, [], ◌∷◌, arith, length, length-append, all,
  if_elim,
}
use far_mail.Text.{Bytes, codes, to_lower, trim, trim_space, has_prefix}
use far_mail.Text.Trim.{length-trim-le}
use far_mail.Tokens.Format.{
  Builder, write_byte, write_bytes, start, is_edge, or_mail, is_hex_byte,
  sanitize_token_secret_prefix, generate_admin_auth_key, is_access_token_format,
  is_named_secret_format, is_admin_auth_key_format,
}
use far_mail.Tokens.Format.Generated.{IsRandomSource, is_admin_auth_key_format-generate}

length-write_byte : (b : Builder) (r : ℕ) → length (write_byte b r).out ≤ length b.out + 1
unfolding write_byte
length-write_byte b r =
    ground (arith, length-append b.out (r ∷ []), length-append b.out (b'-' ∷ []))

length-write_bytes :
    (rs : Bytes) (b : Builder) → length (write_bytes rs b).out ≤ length b.out + length rs
unfolding write_bytes
length-write_bytes [] b = omega arith
length-write_bytes (r ∷ rs) b =
    let next = write_byte b r in
    let one = length-write_byte b r in
    if_elim (λ (a : Builder). length a.out ≤ length b.out + suc (length rs)) next.full next
      (write_bytes rs next) (λ _. omega arith) (λ _. omega (arith, length-write_bytes rs next))

length-to_lower : (s : Bytes) → length (to_lower s) ≡ length s
length-to_lower [] = refl
length-to_lower (c ∷ s) = omega (arith, length-to_lower s)

length-or_mail-le : (s : Bytes) → length s ≤ 24 → length (or_mail s) ≤ 24
length-or_mail-le [] h = omega arith
length-or_mail-le (c ∷ s) h = h

length-sanitize-le :
    (prefix : Bytes) → length prefix ≤ 24 → length (sanitize_token_secret_prefix prefix) ≤ 24
unfolding sanitize_token_secret_prefix
length-sanitize-le prefix h =
    let trimmed = trim_space prefix in
    let out = (write_bytes (to_lower trimmed) start).out in
    length-or_mail-le (trim is_edge out) (
      omega (
        arith,
        length-trim-le is_edge out,
        length-write_bytes (to_lower trimmed) start,
        length-to_lower trimmed,
        length-trim-le far_mail.Text.is_space prefix,
      ))

-- The key generated from a configured prefix of at most 24 bytes, of any kind, passes the admin
-- key test.
pub generate_short_accepted :
    (random : ℕ → List ℕ) (prefix : Bytes) (hex_length : ℕ)
    → IsRandomSource random
    → length prefix ≤ 24
    → is_admin_auth_key_format (generate_admin_auth_key random prefix hex_length) ≡ true
generate_short_accepted random prefix hex_length r h =
    is_admin_auth_key_format-generate random prefix hex_length r
    ∙ ground (arith, length-sanitize-le prefix h)

not_hex_of_sk : (s : Bytes) → has_prefix (codes "sk-") s ≡ true → all is_hex_byte s ≡ false
not_hex_of_sk [] h = ground arith
not_hex_of_sk (c ∷ s) h = ground arith

-- No text passes both the admin key test and the access token test.
pub formats_disjoint :
    (raw : Bytes) → is_admin_auth_key_format raw ≡ true → is_access_token_format raw ≡ false
unfolding is_admin_auth_key_format is_named_secret_format is_access_token_format
formats_disjoint raw h = ground (arith, not_hex_of_sk (trim_space raw))

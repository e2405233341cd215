-- ===== src/Tokens/Format/Overlong.antt =====
-- The prefixes for which `sanitizeTokenSecretPrefix` writes past its own limit: a byte that is not
-- allowed, in the 24th place, is replaced by a dash and the loop goes on.
use far_mail.Base.{
  ℕ, ◌+◌, ◌≤◌, ◌<◌, ◌≡◌, refl, ◌∙◌, Bool, true, false, ◌||◌, List, [], ◌∷◌, ◌++◌, arith, length,
  length-append, all,
}
use mathlib.Core.List.{append_assoc, append-nil}
use far_mail.Text.{Bytes, within, is_space, lower_byte, to_lower, trim, trim_space}
use far_mail.Text.Trim.{StartsOut, EndsOut, trim-id}
use far_mail.Tokens.Format.{
  is_prefix_byte, write_byte, write_bytes, start, is_edge, or_mail, sanitize_token_secret_prefix,
  generate_admin_auth_key, is_admin_auth_key_format,
}
use far_mail.Tokens.Format.Generated.{IsRandomSource, is_admin_auth_key_format-generate}

-- A lower case letter or a digit.
abbrev pub is_plain : ℕ → Bool
is_plain c = within b'a' b'z' c || within b'0' b'9' c

write_bytes-plain :
    (s t out : Bytes)
    → all is_plain s ≡ true
    → length out + length s ≤ 23
    → write_bytes (s ++ t) (record { out = out; last_dash = false; full = false })
      ≡ write_bytes t (record { out = out ++ s; last_dash = false; full = false })
unfolding write_bytes write_byte
write_bytes-plain [] t out h room = rw append-nil
write_bytes-plain (c ∷ s) t out h room =
    let step =
      write_bytes-plain s t (out ++ c ∷ []) (ground arith)
        (omega (arith, length-append out (c ∷ []))) in
    ground (arith, step, append_assoc out (c ∷ []) s, length-append out (c ∷ []))

write_bytes-overrun :
    (out : Bytes) (bad last : ℕ)
    → length out ≡ 23
    → is_prefix_byte bad ≡ false
    → is_plain last ≡ true
    → (write_bytes (bad ∷ last ∷ []) (record { out = out; last_dash = false; full = false })).out
      ≡ out ++ b'-' ∷ last ∷ []
unfolding write_bytes write_byte
write_bytes-overrun [] bad last e h k = absurd (omega arith)
write_bytes-overrun (c ∷ out) bad last e h k = ground (
  arith,
  append_assoc (c ∷ out) (b'-' ∷ []) (last ∷ []),
  length-append ((c ∷ out) ++ b'-' ∷ []) (last ∷ []),
  length-append (c ∷ out) (b'-' ∷ []),
)

-- A letter of either case or a digit.
abbrev pub is_alphanumeric : ℕ → Bool
is_alphanumeric c = is_plain (lower_byte c)

to_lower-append : (s t : Bytes) → to_lower (s ++ t) ≡ to_lower s ++ to_lower t
to_lower-append [] t = refl
to_lower-append (c ∷ s) t = ground (arith, to_lower-append s t)

length-to_lower : (s : Bytes) → length (to_lower s) ≡ length s
length-to_lower [] = refl
length-to_lower (c ∷ s) = ground (arith, length-to_lower s)

to_lower-all : (s : Bytes) → all is_alphanumeric s ≡ true → all is_plain (to_lower s) ≡ true
to_lower-all [] h = refl
to_lower-all (c ∷ s) h = ground (arith, h, to_lower-all s)

-- The two ends of `s ++ mid ∷ last ∷ []` are not trimmed, so trimming leaves it alone.
module _ (q p : ℕ → Bool) (out : (c : ℕ) → q c ≡ true → p c ≡ false) where
  StartsOut-kept : (s t : Bytes) → 0 < length s → all q s ≡ true → StartsOut p (s ++ t)
  StartsOut-kept [] t pos h = absurd (omega arith)
  StartsOut-kept (c ∷ s) t pos h = out c (ground arith)

  EndsOut-kept : (s : Bytes) (mid last : ℕ) → q last ≡ true → EndsOut p (s ++ mid ∷ last ∷ [])
  EndsOut-kept [] mid last h = out last h
  EndsOut-kept (c ∷ []) mid last h = out last h
  EndsOut-kept (c ∷ d ∷ s) mid last h = EndsOut-kept (d ∷ s) mid last h

  trim-kept :
      (s : Bytes) (mid last : ℕ)
      → 0 < length s
      → all q s ≡ true
      → q last ≡ true
      → trim p (s ++ mid ∷ last ∷ []) ≡ s ++ mid ∷ last ∷ []
  trim-kept s mid last pos h k =
      trim-id p (s ++ mid ∷ last ∷ []) (StartsOut-kept s (mid ∷ last ∷ []) pos h)
        (EndsOut-kept s mid last k)

alphanumeric_not_space : (c : ℕ) → is_alphanumeric c ≡ true → is_space c ≡ false
alphanumeric_not_space c h = ground (arith, h)

plain_not_edge : (c : ℕ) → is_plain c ≡ true → is_edge c ≡ false
plain_not_edge c h = ground arith

or_mail_nonempty : (s : Bytes) → 0 < length s → or_mail s ≡ s
or_mail_nonempty [] h = absurd (omega arith)
or_mail_nonempty (c ∷ s) h = refl

module _ (s : Bytes) (bad last : ℕ) (long : length s ≡ 23) (plain : all is_alphanumeric s ≡ true)
    (wrong : is_prefix_byte (lower_byte bad) ≡ false) (end : is_alphanumeric last ≡ true) where
  abbrev overlong : Bytes
  overlong = to_lower s ++ b'-' ∷ lower_byte last ∷ []

  long_lower : length (to_lower s) ≡ 23
  long_lower = length-to_lower s ∙ long

  written : (write_bytes (to_lower (trim_space (s ++ bad ∷ last ∷ []))) start).out ≡ overlong
  written =
      let plain_lower = to_lower-all s plain in
      rw
        (
          trim-kept is_alphanumeric is_space alphanumeric_not_space s bad last (omega (arith, long))
              plain end,
          to_lower-append s (bad ∷ last ∷ []),
          write_bytes-plain (to_lower s) (lower_byte bad ∷ lower_byte last ∷ []) [] plain_lower
              (omega (arith, long_lower)),
        )
        (write_bytes-overrun (to_lower s) (lower_byte bad) (lower_byte last) long_lower wrong end)

  sanitize-overlong : sanitize_token_secret_prefix (s ++ bad ∷ last ∷ []) ≡ overlong
  unfolding sanitize_token_secret_prefix
  sanitize-overlong =
      rw
        (
          written,
          trim-kept is_plain is_edge plain_not_edge (to_lower s) b'-' (lower_byte last)
              (omega (arith, long_lower)) (to_lower-all s plain) end,
        )
        (or_mail_nonempty overlong
          (omega (arith, length-append (to_lower s) (b'-' ∷ lower_byte last ∷ []))))

  -- A prefix of 23 letters of either case or digits, a byte that is not allowed and one more letter
  -- or digit makes a key that the program then refuses as an admin key.
  pub generate_overlong_refused :
      (random : ℕ → List ℕ) (hex_length : ℕ)
      → IsRandomSource random
      → is_admin_auth_key_format (generate_admin_auth_key random (s ++ bad ∷ last ∷ []) hex_length)
        ≡ false
  generate_overlong_refused random hex_length r =
      is_admin_auth_key_format-generate random (s ++ bad ∷ last ∷ []) hex_length r
      ∙ rw (sanitize-overlong, length-append (to_lower s) (b'-' ∷ lower_byte last ∷ []), long_lower)

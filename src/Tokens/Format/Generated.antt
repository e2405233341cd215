-- ===== src/Tokens/Format/Generated.antt =====
-- Whether the keys that the program generates pass its own format tests.
use far_mail.Base.{
  ℕ, suc, ◌+◌, ◌*◌, ◌/◌, ◌%◌, ◌⊎◌, ◌<◌, ◌≡◌, refl, ap, ◌∙◌, Bool, true, false, List, [], ◌∷◌, ◌++◌,
  some, arith, leb, ◌==◌, length, length-append, take, drop, all, All, if◌then◌else◌,
}
use far_mail.Text.{Bytes, codes, is_space, trim_space, has_prefix, last_index}
use far_mail.Text.Trim.{trim-all}
use far_mail.Text.Search.{free_of, last_index-split, take-length, drop-suc-length}
use far_mail.Tokens.Format.{
  is_prefix_byte, is_hex_byte, encode_hex, hex_digit, sanitize_token_secret_prefix,
  generate_admin_auth_key, generate_access_token, is_access_token_format, named_secret_at,
  is_named_secret_format, is_admin_auth_key_format,
}
use far_mail.Tokens.Format.Sanitize.{all-sanitize, length-sanitize}

abbrev pub IsByte : ℕ → Type 0
IsByte b = b < 256

-- What the program relies on of `crypto/rand`: a read of n bytes gives n bytes.
pub record IsRandomSource (random : ℕ → List ℕ) : Type 0 where
  pub full_read : (n : ℕ) → length (random n) ≡ n
  pub bytes : (n : ℕ) → All IsByte (random n)

hex_digit-hex : (d : ℕ) → d < 16 → is_hex_byte (hex_digit d) ≡ true
hex_digit-hex d h = ground arith

all-encode_hex : (bs : List ℕ) → All IsByte bs → all is_hex_byte (encode_hex bs) ≡ true
all-encode_hex [] h = refl
all-encode_hex (b ∷ bs) h =
    ground (arith, hex_digit-hex (b / 16), hex_digit-hex (b % 16), all-encode_hex bs)

length-encode_hex : (bs : List ℕ) → length (encode_hex bs) ≡ 2 * length bs
length-encode_hex [] = refl
length-encode_hex (b ∷ bs) = omega (arith, length-encode_hex bs)

-- A byte that passes neither format test is white space; a hex digit is no dash.
prefix_not_space : (c : ℕ) → is_prefix_byte c ≡ true → is_space c ≡ false
prefix_not_space c h = ground arith

hex_not_dash : (s : Bytes) → all is_hex_byte s ≡ true → free_of b'-' s ≡ true
hex_not_dash [] h = refl
hex_not_dash (c ∷ s) h = ground (arith, hex_not_dash s)

hex_prefix : (s : Bytes) → all is_hex_byte s ≡ true → all is_prefix_byte s ≡ true
hex_prefix [] h = refl
hex_prefix (c ∷ s) h = ground (arith, hex_prefix s)

all-append : (p : ℕ → Bool) (s t : Bytes) → all p s ≡ true → all p t ≡ true → all p (s ++ t) ≡ true
all-append p [] t h k = k
all-append p (c ∷ s) t h k = ground (arith, all-append p s t)

-- A key of the form sk-<prefix>-<secret>: the tests at its last dash read the two parts back.
abbrev named : Bytes → Bytes → Bytes
named prefix secret = codes "sk-" ++ (prefix ++ (b'-' ∷ secret))

named-last_index :
    (prefix secret : Bytes)
    → free_of b'-' secret ≡ true
    → last_index b'-' (named prefix secret) ≡ some (length prefix + 3)
named-last_index prefix secret h =
    last_index-split b'-' (codes "sk-" ++ prefix) secret h ∙ ap some (omega arith)

named_secret-at :
    (untrimmed raw : Bytes) (allow : Bool) (i : ℕ)
    → trim_space untrimmed ≡ raw
    → has_prefix (codes "sk-") raw ≡ true
    → last_index b'-' raw ≡ some i
    → is_named_secret_format untrimmed allow ≡ named_secret_at raw allow i
unfolding is_named_secret_format
named_secret-at untrimmed raw allow i e h k = ground arith

secret_size :
    (hex_length : ℕ) (bs : List ℕ)
    → length bs ≡ (if hex_length == 16 then 8 else 16)
    → (length (encode_hex bs) ≡ 32) ⊎ (length (encode_hex bs) ≡ 16)
secret_size hex_length bs e = ground (arith, length-encode_hex bs)

module _ (prefix secret : Bytes) where
  take-named : drop 3 (take (length prefix + 3) (named prefix secret)) ≡ prefix
  take-named =
      let e : length prefix + 3 ≡ suc (suc (suc (length prefix))) = omega arith in
      rw e (take-length prefix (b'-' ∷ secret))

  drop-named : drop (suc (length prefix + 3)) (named prefix secret) ≡ secret
  drop-named =
      let e : length prefix + 3 ≡ suc (suc (suc (length prefix))) = omega arith in
      rw e (drop-suc-length prefix secret b'-')

  length-named : length (named prefix secret) ≡ length prefix + length secret + 4
  length-named = omega (arith, length-append prefix (b'-' ∷ secret))

  named_secret_at-named :
      0 < length prefix
      → all is_prefix_byte prefix ≡ true
      → all is_hex_byte secret ≡ true
      → (length secret ≡ 32) ⊎ (length secret ≡ 16)
      → named_secret_at (named prefix secret) true (length prefix + 3) ≡ leb (length prefix) 24
  named_secret_at-named pos h k size = rw (take-named, drop-named, length-named) (ground arith)

  all-named :
      all is_prefix_byte prefix ≡ true
      → all is_hex_byte secret ≡ true
      → all is_prefix_byte (named prefix secret) ≡ true
  all-named h k = all-append is_prefix_byte prefix (b'-' ∷ secret) h (hex_prefix secret k)

  trim-named :
      all is_prefix_byte prefix ≡ true
      → all is_hex_byte secret ≡ true
      → trim_space (named prefix secret) ≡ named prefix secret
  trim-named h k =
      trim-all is_space is_prefix_byte (named prefix secret) prefix_not_space (all-named h k)

  named-format :
      0 < length prefix
      → all is_prefix_byte prefix ≡ true
      → all is_hex_byte secret ≡ true
      → (length secret ≡ 32) ⊎ (length secret ≡ 16)
      → is_admin_auth_key_format (named prefix secret) ≡ leb (length prefix) 24
  unfolding is_admin_auth_key_format
  named-format pos h k size =
      named_secret-at (named prefix secret) (named prefix secret) true (length prefix + 3)
        (trim-named h k) refl (named-last_index prefix secret (hex_not_dash secret k))
      ∙ named_secret_at-named pos h k size

-- A generated admin key passes the admin key test exactly if the sanitized prefix has at most 24
-- bytes, whatever prefix is configured, for either length of the secret.
pub is_admin_auth_key_format-generate :
    (random : ℕ → List ℕ) (prefix : Bytes) (hex_length : ℕ)
    → IsRandomSource random
    → is_admin_auth_key_format (generate_admin_auth_key random prefix hex_length)
      ≡ leb (length (sanitize_token_secret_prefix prefix)) 24
unfolding generate_admin_auth_key
is_admin_auth_key_format-generate random prefix hex_length r =
    let n : ℕ = if hex_length == 16 then 8 else 16 in
    named-format (sanitize_token_secret_prefix prefix) (encode_hex (random n))
      (length-sanitize prefix).0 (all-sanitize prefix) (all-encode_hex (random n) (r.bytes n))
      (secret_size hex_length (random n) (r.full_read n))

-- A generated access token passes the access token test.
pub is_access_token_format-generate :
    (random : ℕ → List ℕ)
    → IsRandomSource random
    → is_access_token_format (generate_access_token random) ≡ true
unfolding is_access_token_format generate_access_token
is_access_token_format-generate random r =
    let hex = all-encode_hex (random 16) (r.bytes 16) in
    let whole =
      trim-all is_space is_prefix_byte (encode_hex (random 16)) prefix_not_space
        (hex_prefix (encode_hex (random 16)) hex) in
    rw whole (ground (arith, length-encode_hex (random 16), r.full_read 16, hex))

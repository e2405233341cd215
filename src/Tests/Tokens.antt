-- ===== src/Tests/Tokens.antt =====
-- Secrets and their formats on concrete inputs.
use far_mail.Base.{ℕ, zero, suc, ◌≡◌, refl, false, List, [], ◌∷◌, arith, leb, length, All}
use far_mail.Text.{codes, trim}
use far_mail.Tokens.Format.{
  sanitize_token_secret_prefix, generate_admin_auth_key, is_admin_auth_key_format,
}
use far_mail.Tokens.Format.Generated.{IsByte, IsRandomSource, is_admin_auth_key_format-generate}
use far_mail.Tokens.Format.Overlong.{generate_overlong_refused}

-- A source that reads the byte 171 again and again.
constant : ℕ → List ℕ
constant zero = []
constant (suc n) = 171 ∷ constant n

length-constant : (n : ℕ) → length (constant n) ≡ n
unfolding constant
length-constant zero = refl
length-constant (suc n) = omega (arith, length-constant n)

bytes-constant : (n : ℕ) → All IsByte (constant n)
unfolding constant
bytes-constant zero = tt
bytes-constant (suc n) = (omega arith, bytes-constant n)

constant-IsRandomSource : IsRandomSource constant
constant-IsRandomSource = record { full_read = length-constant; bytes = bytes-constant }

key : generate_admin_auth_key constant (codes " My Site! ") 16 ≡ codes "sk-my-site-abababababababab"
unfolding generate_admin_auth_key sanitize_token_secret_prefix trim constant
key = refl

is_admin_auth_key_format-generate_example :
    is_admin_auth_key_format (generate_admin_auth_key constant (codes " My Site! ") 16)
    ≡ leb (length (sanitize_token_secret_prefix (codes " My Site! "))) 24
is_admin_auth_key_format-generate_example =
    is_admin_auth_key_format-generate constant (codes " My Site! ") 16 constant-IsRandomSource

generate_overlong_refused_example :
    is_admin_auth_key_format
      (generate_admin_auth_key constant (codes "AbcdefGhijklmnopqrst0vW.X") 32)
    ≡ false
generate_overlong_refused_example =
    generate_overlong_refused (codes "AbcdefGhijklmnopqrst0vW") b'.' b'X' refl refl refl refl
      constant 32 constant-IsRandomSource

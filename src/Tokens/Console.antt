-- ===== src/Tokens/Console.antt =====
-- The operations of the owner on tokens in api/store/tokens.go, each with the cache of authenticated
-- tokens that it invalidates. The columns that no decision reads, such as the name, are left out. An
-- operation that fails, or finds no row, is `none`.
pub mod Isolated
use far_mail.Base.{
  ℕ, ◌+◌, ◌*◌, Bool, true, false, not, ◌&&◌, List, [], ◌∷◌, ◌++◌, Option, none, some, ◌==◌,
  if◌then◌else◌, keep,
}
use far_mail.Base.Int.{ℤ, pos_part, neg_part}
use far_mail.Base.Table.{find, update}
use far_mail.Text.{Bytes, to_lower, trim_space}
use far_mail.Ingress.Address.{is_empty}
use far_mail.Store.{Token, TokenKind, standard, donation, TokenCache, invalidate_tokens}
use far_mail.Quota.{token_id}
use far_mail.Donations.{fits_int4}
use far_mail.Tokens.Format.{normalize_scope, token_prefix, generate_access_token}

pub record Tables : Type 0 where
  pub tokens : List Token
  pub cache : TokenCache

abbrev pub is_standard : TokenKind → Bool
is_standard standard = true
is_standard donation = false

abbrev pub is_mine : ℕ → Token → Bool
is_mine account t = t.account_id == account && is_standard t.kind

-- `GetTokenByID`
unfoldable pub get_token : ℕ → ℕ → List Token → Option Token
get_token id account tokens = elim (find token_id id tokens) [
  | none ↦ none
  | some t ↦ if is_mine account t then some t else none
]

-- An UPDATE of the caller's standard token with its id, and the invalidation that follows.
unfoldable pub write : ℕ → ℕ → (Token → Bool) → (Token → Token) → Tables → Option Tables
write id account chosen f db = elim (get_token id account db.tokens) [
  | none ↦ none
  | some t ↦
      if chosen t
      then some (record {
        tokens = update token_id id f db.tokens;
        cache = invalidate_tokens (id ∷ []) db.cache;
      })
      else none
]

abbrev pub any_row : Token → Bool
any_row t = true

abbrev pub not_revoked : Token → Bool
not_revoked t = elim t.revoked_at [ none ↦ true | some at ↦ false ]

abbrev pub edited : Bytes → ℤ → ℤ → ℤ → Option ℕ → Token → Token
edited scope rpm daily total expires_at t = record t {
  scope = normalize_scope scope;
  rate_limit_per_minute = pos_part rpm;
  daily_request_limit = pos_part daily;
  total_request_limit = pos_part total;
  expires_at = expires_at;
}

-- `UpdateToken`, where a limit below zero is none, and one that its column cannot hold fails
unfoldable pub update_token : ℕ → ℕ → Bytes → ℤ → ℤ → ℤ → Option ℕ → Tables → Option Tables
update_token id account scope rpm daily total expires_at db =
    if fits_int4 (pos_part rpm) && fits_int4 (pos_part daily)
    then write id account any_row (edited scope rpm daily total expires_at) db
    else none

-- `RotateToken`, with the hash of the new secret
unfoldable pub rotate_token : (Bytes → Bytes) → Bytes → ℕ → ℕ → Tables → Option Tables
rotate_token hash raw id account =
    write id account any_row
      (λ t. record t { token_hash = hash raw; token_prefix = token_prefix raw; revoked_at = none })

-- `DisableToken`
unfoldable pub disable_token : ℕ → ℕ → ℕ → Tables → Option Tables
disable_token now id account =
    write id account not_revoked (λ t. record t { revoked_at = some now })

-- `EnableToken`
unfoldable pub enable_token : ℕ → ℕ → Tables → Option Tables
enable_token id account = write id account any_row (λ t. record t { revoked_at = none })

-- `DeleteToken`
unfoldable pub delete_token : ℕ → ℕ → Tables → Option Tables
delete_token id account db = elim (get_token id account db.tokens) [
  | none ↦ none
  | some t ↦ some (record {
    tokens = keep (λ r. not (token_id r == id)) db.tokens;
    cache = invalidate_tokens (id ∷ []) db.cache;
  })
]

-- The settings `token_default_*`
pub record Defaults : Type 0 where
  pub scope : Bytes
  pub rate_limit_per_minute : ℤ
  pub daily_request_limit : ℤ
  pub total_request_limit : ℤ
  pub expires_days : ℤ

-- What the caller asks for
pub record TokenRequest : Type 0 where
  pub scope : Bytes
  pub rate_limit_per_minute : ℤ
  pub daily_request_limit : ℤ
  pub total_request_limit : ℤ
  pub expires_at : Option ℕ
  pub use_expiry_default : Bool

abbrev is_zero : ℤ → Bool
is_zero n = pos_part n == 0 && neg_part n == 0

abbrev limit_or : ℤ → ℤ → ℕ
limit_or wanted default_limit = pos_part (if is_zero wanted then default_limit else wanted)

abbrev scope_or : Bytes → Bytes → Bytes
scope_or wanted default_scope =
    normalize_scope
      (if is_empty (trim_space wanted) then trim_space (to_lower default_scope) else wanted)

abbrev expiry_or : ℕ → Defaults → TokenRequest → Option ℕ
expiry_or now defaults wanted = elim wanted.expires_at [
  | some at ↦ some at
  | none ↦
      if wanted.use_expiry_default && not (pos_part defaults.expires_days == 0)
      then some (now + pos_part defaults.expires_days * 86_400_000_000_000)
      else none
]

abbrev pub new_token : (Bytes → Bytes) → Bytes → ℕ → ℕ → ℕ → Defaults → TokenRequest → Token
new_token hash raw now id account defaults wanted = record {
  id = id;
  account_id = account;
  token_hash = hash raw;
  token_prefix = token_prefix raw;
  scope = scope_or wanted.scope defaults.scope;
  kind = standard;
  rate_limit_per_minute = limit_or wanted.rate_limit_per_minute defaults.rate_limit_per_minute;
  daily_request_limit = limit_or wanted.daily_request_limit defaults.daily_request_limit;
  total_request_limit = limit_or wanted.total_request_limit defaults.total_request_limit;
  request_count_total = 0;
  expires_at = expiry_or now defaults wanted;
  revoked_at = none;
}

-- `CreateToken`, with the secret that is drawn and the id that is assigned; it invalidates nothing.
unfoldable pub create_token :
    (Bytes → Bytes) → Bytes → ℕ → ℕ → ℕ → Defaults → TokenRequest → Tables → Option Tables
create_token hash raw now id account defaults wanted db = elim (find token_id id db.tokens) [
  | some t ↦ none
  | none ↦
      let t = new_token hash raw now id account defaults wanted in
      if fits_int4 t.rate_limit_per_minute && fits_int4 t.daily_request_limit
      then some (record db { tokens = db.tokens ++ t ∷ [] })
      else none
]

-- ===== src/Tests/Console.antt =====
-- The owner's operations on tokens on concrete inputs.
use far_mail.Base.{◌≡◌, ◌==◌, refl, inl, false, All, [], ◌∷◌, some, none}
use far_mail.Base.Int.{pos, negsuc}
use far_mail.Base.Table.{find}
use far_mail.Text.{Bytes, codes, trim}
use far_mail.Store.{Token, CacheEntry, standard, donation, invalidate_tokens, delete_tokens}
use far_mail.Quota.{token_id}
use far_mail.Tokens.Format.{normalize_scope, token_prefix}
use far_mail.Tokens.Console.{
  Tables, Defaults, TokenRequest, write, get_token, disable_token, create_token,
}
use far_mail.Tokens.Console.Isolated.{operate, switch_off, operate-isolated}

abbrev key : Token
key = record {
  id = 7;
  account_id = 1;
  token_hash = codes "aa";
  token_prefix = codes "0123";
  scope = codes "read";
  kind = standard;
  rate_limit_per_minute = 0;
  daily_request_limit = 0;
  total_request_limit = 0;
  request_count_total = 12;
  expires_at = none;
  revoked_at = none;
}

abbrev reward : Token
reward = record key { id = 8; token_hash = codes "bb"; kind = donation }

abbrev cached : Token → Bytes × CacheEntry
cached t = (t.token_hash, record { token = t; expires_at = 50 })

abbrev tables : Tables
tables = record {
  tokens = key ∷ reward ∷ [];
  cache = record { entries = cached key ∷ cached reward ∷ []; epoch = 4 };
}

abbrev disabled : Tables
disabled = record {
  tokens = record key { revoked_at = some 9 } ∷ reward ∷ [];
  cache = record { entries = cached reward ∷ []; epoch = 5 };
}

disable_key : operate (switch_off 9) 7 1 tables ≡ some disabled
unfolding operate disable_token write get_token invalidate_tokens delete_tokens
disable_key = refl

-- Neither the reward token nor a token of another account can be disabled.
disable_reward : operate (switch_off 9) 8 1 tables ≡ none
unfolding operate disable_token write get_token
disable_reward = refl

operate-isolated_example :
    (find token_id 8 disabled.tokens ≡ some reward)
    × All (λ p. (p.1.token.id == 7) ≡ false) disabled.cache.entries
operate-isolated_example =
    operate-isolated (switch_off 9) 7 1 tables disabled 8 reward disable_key refl (inl refl)

abbrev defaults : Defaults
defaults = record {
  scope = codes " Cleanup";
  rate_limit_per_minute = pos 60;
  daily_request_limit = negsuc 0;
  total_request_limit = pos 0;
  expires_days = pos 1;
}

abbrev wanted : TokenRequest
wanted = record {
  scope = codes " ";
  rate_limit_per_minute = pos 0;
  daily_request_limit = pos 0;
  total_request_limit = pos 5;
  expires_at = none;
  use_expiry_default = false;
}

created :
    create_token
      (λ raw. raw)
      (codes "0123456789abcdef01")
      3
      9
      1
      defaults
      wanted
      (record tables { tokens = [] })
    ≡ some (record tables {
      tokens =
          record key {
            id = 9;
            token_hash = codes "0123456789abcdef01";
            token_prefix = codes "0123456789abcdef";
            scope = codes "cleanup";
            rate_limit_per_minute = 60;
            total_request_limit = 5;
            request_count_total = 0;
          }
          ∷ [];
    })
unfolding create_token normalize_scope token_prefix trim
created = refl

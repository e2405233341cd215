-- ===== src/Store.antt =====
-- The rows of the store that several components share, and the cache of authenticated tokens of
-- api/store/tokens.go: `getCachedAccountByToken`, `cacheAccountToken`, `invalidateTokenAuthCaches`.
-- A Go map is an association list; a time is a number of nanoseconds, a UUID is a number. The
-- counters of hits and misses, and the account that is cached beside its token, are left out.
pub mod Bounded
pub mod Fresh
use far_mail.Base.{
  ℕ, ◌+◌, Bool, true, false, not, ◌&&◌, ◌||◌, List, [], ◌∷◌, Option, none, some, ◌==◌, ltb, leb,
  if◌then◌else◌, length,
}
use far_mail.Base.Eq.{bytes_eq}
use far_mail.Base.Assoc.{lookup, insert, delete}
use far_mail.Text.{Bytes}

-- The column `token_kind`.
pub data TokenKind : Type 0 where
  standard donation : TokenKind

pub record Token : Type 0 where
  pub id : ℕ
  pub account_id : ℕ
  pub token_hash : Bytes
  pub token_prefix : Bytes
  pub scope : Bytes
  pub kind : TokenKind
  pub rate_limit_per_minute : ℕ
  pub daily_request_limit : ℕ
  pub total_request_limit : ℕ
  pub request_count_total : ℕ
  pub expires_at : Option ℕ
  pub revoked_at : Option ℕ

-- tokenAuthCacheEntry
pub record CacheEntry : Type 0 where
  pub token : Token
  pub expires_at : ℕ

-- The map `tokenAuthCache` and the counter `tokenAuthEpoch`.
pub record TokenCache : Type 0 where
  pub entries : List (Bytes × CacheEntry)
  pub epoch : ℕ

abbrev pub token_auth_cache_ttl : ℕ
token_auth_cache_ttl = 5_000_000_000

abbrev pub token_auth_cache_max_entries : ℕ
token_auth_cache_max_entries = 4096

-- A hit answers with the entry's token; an entry that has expired is deleted.
unfoldable pub get_cached : ℕ → Bytes → TokenCache → Option Token × TokenCache
get_cached now hash cache = elim (lookup hash cache.entries) [
  | none ↦ (none, cache)
  | some entry ↦
      if ltb now entry.expires_at
      then (some entry.token, cache)
      else (none, record cache { entries = delete hash cache.entries })
]

-- The first loop of `cacheAccountToken` deletes what has expired.
unfoldable pub delete_expired : ℕ → List (Bytes × CacheEntry) → List (Bytes × CacheEntry)
delete_expired now [] = []
delete_expired now ((hash, entry) ∷ rest) =
    if ltb now entry.expires_at
    then (hash, entry) ∷ delete_expired now rest
    else delete_expired now rest

-- The second loop finds the entry that expires first.
unfoldable pub earliest : List (Bytes × CacheEntry) → Option (Bytes × ℕ)
earliest [] = none
earliest ((hash, entry) ∷ rest) = elim (earliest rest) [
  | none ↦ some (hash, entry.expires_at)
  | some (other, expiry) ↦
      if ltb expiry entry.expires_at then some (other, expiry) else some (hash, entry.expires_at)
]

unfoldable pub evict : List (Bytes × CacheEntry) → List (Bytes × CacheEntry)
evict entries = elim (earliest entries) [
  | none ↦ entries
  | some (hash, expiry) ↦ delete hash entries
]

abbrev pub present : Bytes → List (Bytes × CacheEntry) → Bool
present hash entries = elim (lookup hash entries) [ none ↦ false | some entry ↦ true ]

abbrev pub is_full : List (Bytes × CacheEntry) → Bool
is_full entries = leb token_auth_cache_max_entries (length entries)

unfoldable pub make_room : ℕ → Bytes → List (Bytes × CacheEntry) → List (Bytes × CacheEntry)
make_room now hash entries =
    if not (present hash entries) && is_full entries
    then (if is_full (delete_expired now entries)
        then evict (delete_expired now entries)
        else delete_expired now entries)
    else entries

-- A cached token never outlives its own expiry.
unfoldable pub entry_expiry : ℕ → Token → ℕ
entry_expiry now token = elim token.expires_at [
  | none ↦ now + token_auth_cache_ttl
  | some expiry ↦
      if ltb expiry (now + token_auth_cache_ttl) then expiry else now + token_auth_cache_ttl
]

unfoldable pub cache_account_token : ℕ → Bytes → Token → TokenCache → TokenCache
cache_account_token now hash token cache = record cache {
  entries =
      insert hash (record { token = token; expires_at = entry_expiry now token })
        (make_room now hash cache.entries);
}

abbrev pub mem_ℕ : ℕ → List ℕ → Bool
mem_ℕ k [] = false
mem_ℕ k (j ∷ js) = k == j || mem_ℕ k js

unfoldable pub delete_tokens : List ℕ → List (Bytes × CacheEntry) → List (Bytes × CacheEntry)
delete_tokens ids [] = []
delete_tokens ids ((hash, entry) ∷ rest) =
    if mem_ℕ entry.token.id ids
    then delete_tokens ids rest
    else (hash, entry) ∷ delete_tokens ids rest

unfoldable pub invalidate_tokens : List ℕ → TokenCache → TokenCache
invalidate_tokens [] cache = cache
invalidate_tokens (id ∷ ids) cache = record {
  entries = delete_tokens (id ∷ ids) cache.entries;
  epoch = cache.epoch + 1;
}

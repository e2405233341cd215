-- ===== src/Store/Bounded.antt =====
-- The cache of api/store/tokens.go stays within its size, and what it answers has not expired.
use far_mail.Base.{
  ℕ, ◌≤◌, ◌<◌, ◌≡◌, ◌≢◌, inl, inr, List, [], ◌∷◌, none, some, arith, Option-cases, length,
}
use far_mail.Base.Eq.{bytes_eq, bytes_beq_iff}
use far_mail.Base.Assoc.{lookup, insert, delete, length-insert-le}
use far_mail.Text.{Bytes}
use far_mail.Store.{
  Token, CacheEntry, TokenCache, get_cached, delete_expired, earliest, evict, make_room,
  cache_account_token, delete_tokens, invalidate_tokens,
}

length-delete-le :
    (hash : Bytes) (m : List (Bytes × CacheEntry)) → length (delete hash m) ≤ length m
unfolding delete
length-delete-le hash [] = omega arith
length-delete-le hash ((j, e) ∷ m) = ground (arith, length-delete-le hash m)

length-delete_expired-le :
    (now : ℕ) (m : List (Bytes × CacheEntry)) → length (delete_expired now m) ≤ length m
unfolding delete_expired
length-delete_expired-le now [] = omega arith
length-delete_expired-le now ((j, e) ∷ m) = ground (arith, length-delete_expired-le now m)

length-delete_tokens-le :
    (ids : List ℕ) (m : List (Bytes × CacheEntry)) → length (delete_tokens ids m) ≤ length m
unfolding delete_tokens
length-delete_tokens-le ids [] = omega arith
length-delete_tokens-le ids ((j, e) ∷ m) = ground (arith, length-delete_tokens-le ids m)

length-delete-earliest :
    (m : List (Bytes × CacheEntry)) (hash : Bytes) (expiry : ℕ)
    → earliest m ≡ some (hash, expiry)
    → length (delete hash m) < length m
unfolding earliest delete
length-delete-earliest [] hash expiry h = ground arith
length-delete-earliest ((j, e) ∷ m) hash expiry h =
    ground
      (arith, bytes_beq_iff j hash, length-delete-le hash m, length-delete-earliest m hash expiry)

earliest-finds :
    (j : Bytes) (e : CacheEntry) (m : List (Bytes × CacheEntry)) → earliest ((j, e) ∷ m) ≢ none
unfolding earliest
earliest-finds j e m h = ground arith

-- Deleting the entry that expires first frees a place.
length-evict : (m : List (Bytes × CacheEntry)) → 0 < length m → length (evict m) < length m
unfolding evict
length-evict [] h = ground arith
length-evict ((j, e) ∷ m) h = elim (Option-cases (earliest ((j, e) ∷ m))) [
  | inl absent ↦ elim (earliest-finds j e m absent) [ ]
  | inr found ↦
      ground (arith, found.1, length-delete-earliest ((j, e) ∷ m) found.0.0 found.0.1 found.1)
]

length-insert-present :
    (hash : Bytes) (v w : CacheEntry) (m : List (Bytes × CacheEntry))
    → lookup hash m ≡ some w
    → length (insert hash v m) ≡ length m
unfolding lookup insert
length-insert-present hash v w [] h = ground arith
length-insert-present hash v w ((j, e) ∷ m) h = ground (arith, length-insert-present hash v w m)

length-make_room :
    (now : ℕ) (hash : Bytes) (v : CacheEntry) (m : List (Bytes × CacheEntry))
    → length m ≤ 4096
    → length (insert hash v (make_room now hash m)) ≤ 4096
unfolding make_room
length-make_room now hash v m h = elim (Option-cases (lookup hash m)) [
  | inl absent ↦ ground (
    arith,
    absent,
    length-insert-le hash v m,
    length-insert-le hash v (delete_expired now m),
    length-insert-le hash v (evict (delete_expired now m)),
    length-evict (delete_expired now m),
    length-delete_expired-le now m,
  )
  | inr found ↦ ground (arith, found.1, length-insert-present hash v found.0 m)
]

-- What a request or a change of a token does to the cache.
pub data Action : Type 0 where
  load : ℕ → Bytes → Token → Action
  read : ℕ → Bytes → Action
  invalidate : List ℕ → Action

unfoldable pub act : Action → TokenCache → TokenCache
act (load now hash token) cache = cache_account_token now hash token cache
act (read now hash) cache = (get_cached now hash cache).1
act (invalidate ids) cache = invalidate_tokens ids cache

unfoldable pub act_all : List Action → TokenCache
act_all [] = record { entries = []; epoch = 0 }
act_all (a ∷ before) = act a (act_all before)

length-act :
    (a : Action) (cache : TokenCache)
    → length cache.entries ≤ 4096
    → length (act a cache).entries ≤ 4096
unfolding act cache_account_token get_cached invalidate_tokens
length-act (load now hash token) cache h = length-make_room now hash _ cache.entries h
length-act (read now hash) cache h = ground (arith, length-delete-le hash cache.entries)
length-act (invalidate []) cache h = h
length-act (invalidate (i ∷ ids)) cache h =
    ground (arith, length-delete_tokens-le (i ∷ ids) cache.entries)

-- Whatever is loaded, read and invalidated, in any order and at any times, the cache never holds
-- more than 4096 entries.
pub act_all-bounded : (actions : List Action) → length (act_all actions).entries ≤ 4096
unfolding act_all
act_all-bounded [] = ground arith
act_all-bounded (a ∷ before) = length-act a (act_all before) (act_all-bounded before)

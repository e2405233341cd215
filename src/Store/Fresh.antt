-- ===== src/Store/Fresh.antt =====
-- What the cache of api/store/tokens.go answers: no token that was invalidated, none that expired.
use far_mail.Base.{
  ℕ, ◌≤◌, ◌<◌, ◌≡◌, refl, inl, inr, false, not, ◌&&◌, List, [], ◌∷◌, none, some, Option-cases,
  Bool-cases, subst, ap, ◌∙◌, arith, ltb, All, if_elim,
}
use far_mail.Base.Eq.{bytes_eq, ◌=?◌}
use far_mail.Base.Assoc.{lookup, insert, delete}
use far_mail.Text.{Bytes}
use far_mail.Store.{
  Token, CacheEntry, TokenCache, get_cached, delete_expired, earliest, evict, make_room,
  entry_expiry, cache_account_token, delete_tokens, invalidate_tokens, mem_ℕ, present, is_full,
}
use far_mail.Store.Bounded.{Action, load, read, invalidate, act, act_all}

-- A property of entries, and of all the entries that a cache holds.
module _ (P : CacheEntry → Type 0) where
  abbrev AllEntries : List (Bytes × CacheEntry) → Type 0
  AllEntries = All (λ p. P p.1)

  All-delete :
      (hash : Bytes) (m : List (Bytes × CacheEntry)) → AllEntries m → AllEntries (delete hash m)
  unfolding delete
  All-delete hash [] h = tt
  All-delete hash ((j, e) ∷ m) h =
      if_elim AllEntries (j =? hash) _ _ (λ _. All-delete hash m h.1)
        (λ _. (h.0, All-delete hash m h.1))

  All-insert :
      (hash : Bytes) (v : CacheEntry) (m : List (Bytes × CacheEntry))
      → P v
      → AllEntries m
      → AllEntries (insert hash v m)
  unfolding insert
  All-insert hash v [] p h = (p, tt)
  All-insert hash v ((j, e) ∷ m) p h =
      if_elim AllEntries (j =? hash) _ _ (λ _. (p, h.1)) (λ _. (h.0, All-insert hash v m p h.1))

  All-delete_expired :
      (now : ℕ) (m : List (Bytes × CacheEntry)) → AllEntries m → AllEntries (delete_expired now m)
  unfolding delete_expired
  All-delete_expired now [] h = tt
  All-delete_expired now ((j, e) ∷ m) h =
      if_elim AllEntries (ltb now e.expires_at) _ _ (λ _. (h.0, All-delete_expired now m h.1))
        (λ _. All-delete_expired now m h.1)

  All-delete_tokens :
      (ids : List ℕ) (m : List (Bytes × CacheEntry))
      → AllEntries m
      → AllEntries (delete_tokens ids m)
  unfolding delete_tokens
  All-delete_tokens ids [] h = tt
  All-delete_tokens ids ((j, e) ∷ m) h =
      if_elim AllEntries (mem_ℕ e.token.id ids) _ _ (λ _. All-delete_tokens ids m h.1)
        (λ _. (h.0, All-delete_tokens ids m h.1))

  All-evict : (m : List (Bytes × CacheEntry)) → AllEntries m → AllEntries (evict m)
  unfolding evict
  All-evict m h = elim (Option-cases (earliest m)) [
    | inl absent ↦ subst AllEntries {x = m} {y = evict m} (ground (arith, absent)) h
    | inr found ↦
        subst AllEntries {x = delete found.0.0 m} {y = evict m} (ground (arith, found.1))
          (All-delete found.0.0 m h)
  ]

  All-make_room :
      (now : ℕ) (hash : Bytes) (m : List (Bytes × CacheEntry))
      → AllEntries m
      → AllEntries (make_room now hash m)
  unfolding make_room
  All-make_room now hash m h =
      if_elim AllEntries (not (present hash m) && is_full m) _ _
        (λ _.
          if_elim AllEntries (is_full (delete_expired now m)) _ _
            (λ _. All-evict (delete_expired now m) (All-delete_expired now m h))
            (λ _. All-delete_expired now m h))
        (λ _. h)

  All-lookup :
      (hash : Bytes) (m : List (Bytes × CacheEntry)) (e : CacheEntry)
      → AllEntries m
      → lookup hash m ≡ some e
      → P e
  unfolding lookup
  All-lookup hash [] e h found = ground (arith, found)
  All-lookup hash ((j, d) ∷ m) e h found = elim (Bool-cases (j =? hash)) [
    | inl same ↦ subst P {x = d} {y = e} (ground (arith, same, found)) h.0
    | inr other ↦ All-lookup hash m e h.1 (ground (arith, other, found))
  ]

  -- What holds of every entry that is cached holds of every entry that is answered.
  All-get_cached :
      (now : ℕ) (hash : Bytes) (cache : TokenCache)
      → AllEntries cache.entries
      → AllEntries (get_cached now hash cache).1.entries
  unfolding get_cached
  All-get_cached now hash cache h = elim (Option-cases (lookup hash cache.entries)) [
    | inl absent ↦
        subst AllEntries {x = cache.entries} {y = (get_cached now hash cache).1.entries}
          (ground (arith, absent)) h
    | inr found ↦ elim (Bool-cases (ltb now found.0.expires_at)) [
      | inl live ↦
          subst AllEntries {x = cache.entries} {y = (get_cached now hash cache).1.entries}
            (ground (arith, found.1, live)) h
      | inr over ↦
          subst AllEntries {x = delete hash cache.entries}
            {y = (get_cached now hash cache).1.entries} (ground (arith, found.1, over))
            (All-delete hash cache.entries h)
    ]
  ]

  answer_from_entry :
      (now : ℕ) (hash : Bytes) (cache : TokenCache) (token : Token)
      → AllEntries cache.entries
      → (get_cached now hash cache).0 ≡ some token
      → (e : CacheEntry) × P e × (e.token ≡ token) × (now < e.expires_at)
  unfolding get_cached
  answer_from_entry now hash cache token h answer =
      elim (Option-cases (lookup hash cache.entries)) [
        | inl absent ↦ elim (absent_answers absent) [ ]
        | inr found ↦ (
          found.0,
          All-lookup hash cache.entries found.0 h found.1,
          ground (arith, found.1, answer),
          ground (arith, found.1, answer),
        )
      ]
    where
      absent_answers : lookup hash cache.entries ≡ none → ⊥
      absent_answers absent = ground (arith, absent, answer)

-- An entry expires no later than the token it holds.
TimelyEntry : CacheEntry → Type 0
TimelyEntry e = (x : ℕ) → e.token.expires_at ≡ some x → e.expires_at ≤ x

entry_expiry-le :
    (now : ℕ) (token : Token) (x : ℕ) → token.expires_at ≡ some x → entry_expiry now token ≤ x
unfolding entry_expiry
entry_expiry-le now token x h = ground (arith, h)

act-timely :
    (a : Action) (cache : TokenCache)
    → AllEntries TimelyEntry cache.entries
    → AllEntries TimelyEntry (act a cache).entries
unfolding act cache_account_token invalidate_tokens TimelyEntry
act-timely (load now hash token) cache h =
    All-insert TimelyEntry hash _ (make_room now hash cache.entries) (entry_expiry-le now token)
      (All-make_room TimelyEntry now hash cache.entries h)
act-timely (read now hash) cache h = All-get_cached TimelyEntry now hash cache h
act-timely (invalidate []) cache h = h
act-timely (invalidate (i ∷ ids)) cache h = All-delete_tokens TimelyEntry (i ∷ ids) cache.entries h

act_all-timely : (actions : List Action) → AllEntries TimelyEntry (act_all actions).entries
unfolding act_all
act_all-timely [] = tt
act_all-timely (a ∷ before) = act-timely a (act_all before) (act_all-timely before)

-- Whatever happened to the cache before, a token that it answers at a time has not expired at that
-- time.
pub answer_not_expired :
    (actions : List Action) (now : ℕ) (hash : Bytes) (token : Token) (expiry : ℕ)
    → (get_cached now hash (act_all actions)).0 ≡ some token
    → token.expires_at ≡ some expiry
    → now < expiry
unfolding TimelyEntry
answer_not_expired actions now hash token expiry answer expires =
    let (e, timely, same, live) =
      answer_from_entry TimelyEntry now hash (act_all actions) token (act_all-timely actions)
        answer in
    omega (arith, live, timely expiry (ap (λ (t : Token). t.expires_at) same ∙ expires))

NotAmong : List ℕ → CacheEntry → Type 0
NotAmong ids e = mem_ℕ e.token.id ids ≡ false

delete_tokens-NotAmong :
    (ids : List ℕ) (m : List (Bytes × CacheEntry)) → AllEntries (NotAmong ids) (delete_tokens ids m)
unfolding delete_tokens NotAmong
delete_tokens-NotAmong ids [] = tt
delete_tokens-NotAmong ids ((j, e) ∷ m) =
    if_elim (AllEntries (NotAmong ids)) (mem_ℕ e.token.id ids) _ _
      (λ _. delete_tokens-NotAmong ids m) (λ other. (other, delete_tokens-NotAmong ids m))

-- After the invalidation of some tokens no hash answers with one of them.
pub invalidated_not_answered :
    (ids : List ℕ) (cache : TokenCache) (now : ℕ) (hash : Bytes) (token : Token)
    → (get_cached now hash (invalidate_tokens ids cache)).0 ≡ some token
    → mem_ℕ token.id ids ≡ false
unfolding invalidate_tokens NotAmong
invalidated_not_answered [] cache now hash token answer = refl
invalidated_not_answered (i ∷ ids) cache now hash token answer =
    let (e, other, same, live) =
      answer_from_entry (NotAmong (i ∷ ids)) now hash (invalidate_tokens (i ∷ ids) cache) token
        (delete_tokens-NotAmong (i ∷ ids) cache.entries) answer in
    subst (λ (t : Token). mem_ℕ t.id (i ∷ ids) ≡ false) same other

-- ===== src/Domains/Cache/Fresh.antt =====
-- How old an answer of the cache in api/store/domains_cache.go may be.
use far_mail.Base.{
  ℕ, ◌+◌, ◌<◌, ◌≡◌, refl, subst, inl, inr, List, [], ◌∷◌, none, some, arith, ltb, Bool-cases,
  Option-cases,
}
use far_mail.Donations.{Domain}
use far_mail.Domains.Cache.{
  DomainEntry, DomainCache, active_domains_cache_ttl, get_cached_domains, cache_domains,
  invalidate_domains,
}

pub data CacheStep : Type 0 where
  stored : ℕ → List Domain → CacheStep
  asked : ℕ → CacheStep
  cleared : CacheStep

-- The steps, the last one first, on an empty cache.
unfoldable pub run_all : List CacheStep → DomainCache
run_all [] = record { entry = none; epoch = 0 }
run_all (stored now domains ∷ before) = cache_domains now domains (run_all before)
run_all (asked now ∷ before) = (get_cached_domains now (run_all before)).1
run_all (cleared ∷ before) = invalidate_domains (run_all before)

-- The last list that was stored, with the time, and since when nothing was cleared.
abbrev pub IsLastStored : ℕ → List Domain → List CacheStep → Type 0
IsLastStored at domains [] = ⊥
IsLastStored at domains (stored now others ∷ before) = (now ≡ at) × (others ≡ domains)
IsLastStored at domains (asked now ∷ before) = IsLastStored at domains before
IsLastStored at domains (cleared ∷ before) = ⊥

entry-IsLastStored :
    (steps : List CacheStep) (entry : DomainEntry)
    → (run_all steps).entry ≡ some entry
    → (at : ℕ) × IsLastStored at entry.domains steps
      × (entry.expires_at ≡ at + active_domains_cache_ttl)
unfolding run_all cache_domains get_cached_domains invalidate_domains
entry-IsLastStored [] entry h = absurd (ground (arith, h))
entry-IsLastStored (cleared ∷ before) entry h = absurd (ground (arith, h))
entry-IsLastStored (stored now domains ∷ before) entry h =
    (now, (refl, ground (arith, h)), ground (arith, h))
entry-IsLastStored (asked now ∷ before) entry h = elim (Option-cases (run_all before).entry) [
  | inl absent ↦ absurd (ground (arith, h, absent))
  | inr (e, found) ↦ elim (Bool-cases (ltb now e.expires_at)) [
    | inr over ↦ absurd (ground (arith, h, found, over))
    | inl live ↦ entry-IsLastStored before entry (ground (arith, h, found, live))
  ]
]

-- Whatever happened to the cache before, a list that it answers is the last one that was stored,
-- less than five seconds ago, and the cache was not invalidated since.
pub cached_answer :
    (steps : List CacheStep) (now : ℕ) (domains : List Domain)
    → (get_cached_domains now (run_all steps)).0 ≡ some domains
    → (at : ℕ) × IsLastStored at domains steps × (now < at + active_domains_cache_ttl)
unfolding get_cached_domains
cached_answer steps now domains h = elim (Option-cases (run_all steps).entry) [
  | inl absent ↦ absurd (ground (arith, h, absent))
  | inr (entry, found) ↦
      let (at, last, expiry) = entry-IsLastStored steps entry found in
      let live : now < entry.expires_at = ground (arith, h, found) in
      let same : entry.domains ≡ domains = ground (arith, h, found) in
      (at, subst (λ ds. IsLastStored at ds steps) same last, omega (arith, live, expiry))
]

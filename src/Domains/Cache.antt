-- ===== src/Domains/Cache.antt =====
-- The cached list of active domains in api/store/domains_cache.go. A list that was never stored is
-- `none`; the counters of hits and misses and the copies of the rows are left out.
pub mod Fresh
use far_mail.Base.{ℕ, ◌+◌, Bool, List, Option, none, some, ltb, if◌then◌else◌}
use far_mail.Donations.{Domain}

-- activeDomainsCacheEntry
pub record DomainEntry : Type 0 where
  pub domains : List Domain
  pub expires_at : ℕ

-- The cache and the counter `activeDomainsEpoch`.
pub record DomainCache : Type 0 where
  pub entry : Option DomainEntry
  pub epoch : ℕ

abbrev pub active_domains_cache_ttl : ℕ
active_domains_cache_ttl = 5_000_000_000

-- `getCachedActiveDomains`: an entry that has expired is cleared.
unfoldable pub get_cached_domains : ℕ → DomainCache → Option (List Domain) × DomainCache
get_cached_domains now cache = elim cache.entry [
  | none ↦ (none, cache)
  | some entry ↦
      if ltb now entry.expires_at
      then (some entry.domains, cache)
      else (none, record cache { entry = none })
]

-- `cacheActiveDomains`
unfoldable pub cache_domains : ℕ → List Domain → DomainCache → DomainCache
cache_domains now domains cache = record cache {
  entry = some (record { domains = domains; expires_at = now + active_domains_cache_ttl });
}

-- `invalidateActiveDomainsCache`
unfoldable pub invalidate_domains : DomainCache → DomainCache
invalidate_domains cache = record { entry = none; epoch = cache.epoch + 1 }

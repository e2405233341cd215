-- ===== src/Domains.antt =====
-- The domains of api/store/postgres.go: the statements on their table, and the choice of the domain
-- of a new mailbox, `ResolveActiveMailboxDomain`, on the active domains; with the part of
-- `LoadIngressSnapshot` of api/store/ingress.go that loads the same domains for the ingress. The
-- order in which a query lists them is left out.
pub mod Cache
pub mod Routed
pub mod States
use far_mail.Base.{
  ℕ, ◌+◌, ◌-◌, Bool, true, false, not, ◌&&◌, ◌||◌, List, [], ◌∷◌, ◌++◌, Option, none, some, ◌==◌,
  ltb, leb, if◌then◌else◌, length, drop, keep, map,
}
use far_mail.Base.Eq.{bytes_beq}
use far_mail.Base.Table.{find, update}
use far_mail.Text.{Bytes, equal_fold, is_dot, to_lower, trim, trim_space}
use far_mail.Ingress.Address.{is_empty}
use far_mail.Ingress.Snapshot.{IngressDomain, normalize_domain}
use far_mail.Extraction.{has_suffix}
use far_mail.Donations.{
  Domain, DomainStatus, domain_pending, domain_active, domain_disabled, domain_id,
}
use far_mail.Donations.Create.{find_domain}
use far_mail.Donations.Transactions.{or_now, enable_domain, disable_domain}

abbrev pub is_active_status : DomainStatus → Bool
is_active_status domain_active = true
is_active_status _ = false

abbrev pub manual_domain : ℕ → Bytes → Bool → DomainStatus → Option ℕ → Domain
manual_domain id name active status verified = record {
  id = id;
  domain = name;
  is_active = active;
  status = status;
  is_donated = false;
  is_public = true;
  verified_at = verified;
  mx_checked_at = none;
}

-- `AddDomain`, with the id that is assigned: `none` where the name is taken.
unfoldable pub add_active : ℕ → ℕ → Bytes → List Domain → Option (List Domain)
add_active now id name domains = elim (find_domain (to_lower name) domains) [
  | some d ↦ none
  | none ↦ some (domains ++ manual_domain id (to_lower name) true domain_active (some now) ∷ [])
]

-- A row that is there stays active if its status says so, and waits again otherwise.
abbrev pub pend : Domain → Domain
pend d = record d {
  status = if is_active_status d.status then domain_active else domain_pending;
  is_active = is_active_status d.status;
}

-- `AddDomainPending`
unfoldable pub add_pending : ℕ → Bytes → List Domain → List Domain
add_pending id name domains = elim (find_domain (to_lower name) domains) [
  | some d ↦ update domain_id d.id pend domains
  | none ↦ domains ++ manual_domain id (to_lower name) false domain_pending none ∷ []
]

-- `PromoteDomainToActive`
unfoldable pub promote : ℕ → ℕ → List Domain → List Domain
promote now id = update domain_id id (enable_domain now)

-- `TouchDomainCheckTime`
unfoldable pub touch : ℕ → ℕ → List Domain → List Domain
touch now id = update domain_id id (λ d. record d { mx_checked_at = some now })

-- `DisableDomainMX`
unfoldable pub disable : ℕ → ℕ → List Domain → List Domain
disable now id = update domain_id id (disable_domain now)

-- `ToggleDomain`
unfoldable pub toggle : ℕ → Bool → List Domain → List Domain
toggle id active = update domain_id id (λ d. record d {
  is_active = active;
  status = if active then domain_active else domain_disabled;
})

-- `DeleteDomain`: `none` where a mailbox still refers to the domain.
unfoldable pub delete : (ℕ → Bool) → ℕ → List Domain → Option (List Domain)
delete is_referenced id domains =
    if is_referenced id then none else some (keep (λ d. not (d.id == id)) domains)

-- `loadActiveDomains`
unfoldable pub active_domains : List Domain → List Domain
active_domains = keep (λ d. d.is_active)

-- `GetDomainByName`, on the active domains
unfoldable pub domain_by_name : Bytes → List Domain → Option Domain
domain_by_name name [] = none
domain_by_name name (d ∷ ds) =
    if equal_fold d.domain (to_lower (trim_space name)) then some d else domain_by_name name ds

-- A name is the root, or ends in a dot and the root.
abbrev pub covers : Bytes → Bytes → Bool
covers root name = bytes_beq name root || has_suffix (b'.' ∷ root) name

-- One round of the loop of `ResolveActiveMailboxDomain`: a longer root that covers the name wins.
unfoldable pub consider : Bytes → Option Domain → Domain → Option Domain
consider name best d =
    let root = to_lower (trim_space d.domain) in
    if not (is_empty root) && covers root name
    then elim best [
      | none ↦ some d
      | some b ↦ if ltb (length b.domain) (length root) then some d else some b
    ]
    else best

unfoldable pub best_domain : Bytes → Option Domain → List Domain → Option Domain
best_domain name best [] = best
best_domain name best (d ∷ ds) = best_domain name (consider name best d) ds

-- `ResolveActiveMailboxDomain`: the domain, and the name that the mailbox is created under.
unfoldable pub resolve_mailbox_domain : Bytes → List Domain → Option (Domain × Bytes)
resolve_mailbox_domain requested domains =
    let name = trim is_dot (to_lower (trim_space requested)) in
    if is_empty name then none else elim (domain_by_name name domains) [
      | some exact ↦ some (exact, exact.domain)
      | none ↦ elim (best_domain name none domains) [ none ↦ none | some d ↦ some (d, name) ]
    ]

abbrev pub ingress_domain : Domain → IngressDomain
ingress_domain d = record { id = d.id; domain = normalize_domain d.domain }

-- The domains of `LoadIngressSnapshot`
unfoldable pub load_domains : List Domain → List IngressDomain
load_domains domains =
    keep (λ i. not (is_empty i.domain)) (map ingress_domain (active_domains domains))

-- ===== src/Ingress/Snapshot.antt =====
-- The routing snapshot of api/ingress/server.go: `refreshSnapshot`, up to the order in which the
-- domains are listed for the log, and `resolveRecipient`. A UUID is a number, `uuid.Nil` is 0.
pub mod Labels
pub mod Longest
pub mod Refresh
use far_mail.Base.{
  ℕ, zero, suc, ◌+◌, ◌-◌, Bool, true, false, ◌||◌, List, [], ◌∷◌, ◌++◌, Option, none, some, ◌==◌,
  if◌then◌else◌, length, drop,
}
use far_mail.Base.Eq.{bytes_eq}
use far_mail.Base.Assoc.{lookup, insert}
use far_mail.Text.{Bytes, is_dot, to_lower, trim, trim_space, index_byte}
use far_mail.Ingress.Address.{is_empty, split_address}

-- store.IngressDomain and store.IngressSnapshot
pub record IngressDomain : Type 0 where
  pub id : ℕ
  pub domain : Bytes

pub record IngressSnapshot : Type 0 where
  pub domains : List IngressDomain
  pub default_account_id : ℕ
  pub mailbox_ttl_minutes : ℕ

pub record SnapshotDomain : Type 0 where
  pub id : ℕ
  pub domain : Bytes

pub record Snapshot : Type 0 where
  pub domains : List SnapshotDomain
  pub domains_by_name : List (Bytes × SnapshotDomain)
  pub default_account_id : ℕ
  pub mailbox_ttl_minutes : ℕ

pub record ResolvedRecipient : Type 0 where
  pub address : Bytes
  pub local_part : Bytes
  pub domain_name : Bytes
  pub domain_id : ℕ
  pub account_id : ℕ
  pub mailbox_ttl_minutes : ℕ

abbrev pub normalize_domain : Bytes → Bytes
normalize_domain d = to_lower (trim is_dot (trim_space d))

-- One round of the loop over the loaded domains.
pub add_domain : Snapshot → IngressDomain → Snapshot
add_domain snap d =
    let domain = normalize_domain d.domain in
    let item : SnapshotDomain = record { id = d.id; domain = domain } in
    if d.id == 0 || is_empty domain then snap else record snap {
      domains = snap.domains ++ item ∷ [];
      domains_by_name = insert domain item snap.domains_by_name;
    }

pub add_domains : Snapshot → List IngressDomain → Snapshot
add_domains snap [] = snap
add_domains snap (d ∷ ds) = add_domains (add_domain snap d) ds

abbrev pub empty_snapshot : IngressSnapshot → Snapshot
empty_snapshot loaded = record {
  domains = [];
  domains_by_name = [];
  default_account_id = loaded.default_account_id;
  mailbox_ttl_minutes = loaded.mailbox_ttl_minutes;
}

unfoldable pub refresh_snapshot : IngressSnapshot → Snapshot
unfolding add_domains add_domain
refresh_snapshot loaded = add_domains (empty_snapshot loaded) loaded.domains

-- The rest of a name behind its first dot, or `none` where the walk breaks off.
abbrev pub parent_name : Bytes → Option Bytes
parent_name candidate = elim (index_byte b'.' candidate) [
  | none ↦ none
  | some dot ↦ if dot == length candidate - 1 then none else some (drop (suc dot) candidate)
]

-- The walk over the labels of a name, most specific first. A name of n bytes takes n rounds at
-- most: each round drops a label.
pub walk : ℕ → List (Bytes × SnapshotDomain) → Bytes → Option SnapshotDomain
walk zero names candidate = none
walk (suc rounds) names candidate = elim (lookup candidate names) [
  | some matched ↦ some matched
  | none ↦ elim (parent_name candidate) [ none ↦ none | some next ↦ walk rounds names next ]
]

abbrev pub route : Snapshot → Bytes → Option SnapshotDomain
route snap domain = walk (suc (length domain)) snap.domains_by_name domain

abbrev pub recipient_at : Snapshot → Bytes → Bytes → SnapshotDomain → ResolvedRecipient
recipient_at snap local domain matched = record {
  address = local ++ (b'@' ∷ domain);
  local_part = local;
  domain_name = domain;
  domain_id = matched.id;
  account_id = snap.default_account_id;
  mailbox_ttl_minutes = snap.mailbox_ttl_minutes;
}

unfoldable pub resolve_recipient : Snapshot → Bytes → Option ResolvedRecipient
unfolding walk
resolve_recipient snap address = elim (split_address address) [
  | none ↦ none
  | some (local, domain) ↦ elim (route snap domain) [
    | none ↦ none
    | some matched ↦ some (recipient_at snap local domain matched)
  ]
]

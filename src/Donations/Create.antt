-- ===== src/Donations/Create.antt =====
-- `CreateDonationRequest` of api/store/donations.go. The account that owns the tokens, the ids and
-- secrets that are new, and the hash of a secret are parameters; a new token's hash is taken to be
-- unused.
pub mod Limited
use far_mail.Base.{
  ℕ, ◌+◌, ◌≤◌, ◌<◌, ◌≡◌, ◌≢◌, refl, ◌∙◌, ap, inl, inr, Bool, true, false, not, ◌&&◌, ◌||◌, List, [],
  ◌∷◌, ◌++◌, Option, none, some, arith, ◌==◌, if◌then◌else◌, Bool-cases, Option-cases, ltb, leb,
}
use far_mail.Base.Eq.{bytes_beq}
use far_mail.Base.Table.{find, update}
use far_mail.Base.Result.{Result, failed, done, and_then}
use far_mail.Text.{Bytes, codes, is_dot, to_lower, trim, trim_space}
use far_mail.Tokens.Format.{is_access_token_format, token_prefix}
use far_mail.Ingress.Address.{is_empty}
use far_mail.Store.{Token, TokenKind, donation}
use far_mail.Donations.{
  Donation, DonationStatus, pending, active, inactive, revoked, Domain, domain_pending, Tables,
  DonationPolicy, StoreError, no_rows, out_of_range, donation_conflict, donation_token_limit,
  domain_is_required, domain_id, is_donation_token, fits_int4,
}
use far_mail.Donations.Transactions.{is_revoked}

-- What is new: the ids that the database assigns, and the secrets that are drawn.
pub record Fresh : Type 0 where
  pub token_id : ℕ
  pub domain_id : ℕ
  pub donation_id : ℕ
  pub raw_token : Bytes
  pub claim_secret : Bytes
  pub challenge : Bytes

pub record Created : Type 0 where
  pub tables : Tables
  pub donation : Donation
  pub claim_secret : Bytes
  pub raw_token : Bytes

-- The reward token of the request: the tables with it, its id, and its secret where it is new.
pub record Claimed : Type 0 where
  pub tables : Tables
  pub token_id : ℕ
  pub raw_token : Bytes

abbrev pub find_token : ℕ → Bytes → List Token → Option Token
find_token account hash [] = none
find_token account hash (t ∷ ts) =
    if t.account_id == account && bytes_beq t.token_hash hash && is_donation_token t
    then some t
    else find_token account hash ts

abbrev pub find_domain : Bytes → List Domain → Option Domain
find_domain name [] = none
find_domain name (d ∷ ds) = if bytes_beq d.domain name then some d else find_domain name ds

-- `SELECT COUNT(*) FROM domain_donations WHERE token_id = $1 AND status <> 'revoked'`
unfoldable pub count_claims : ℕ → List Donation → ℕ
count_claims token [] = 0
count_claims token (d ∷ ds) =
    (if d.token_id == token && not (is_revoked d) then 1 else 0) + count_claims token ds

-- A donation of the domain, or one with the claim secret: both columns are unique.
unfoldable pub is_claimed : ℕ → List Donation → Bool
is_claimed dom [] = false
is_claimed dom (d ∷ ds) = d.domain_id == dom || is_claimed dom ds

unfoldable pub has_claim_secret : Bytes → List Donation → Bool
has_claim_secret hash [] = false
has_claim_secret hash (d ∷ ds) = bytes_beq d.claim_secret_hash hash || has_claim_secret hash ds

abbrev reward_token : (Bytes → Bytes) → ℕ → Fresh → Token
reward_token hash_token account fresh = record {
  id = fresh.token_id;
  account_id = account;
  token_hash = hash_token fresh.raw_token;
  token_prefix = token_prefix fresh.raw_token;
  scope = codes "cleanup";
  kind = donation;
  rate_limit_per_minute = 0;
  daily_request_limit = 0;
  total_request_limit = 0;
  request_count_total = 0;
  expires_at = none;
  revoked_at = none;
}

unfoldable pub claim_token :
    (Bytes → Bytes) → ℕ → Fresh → Bytes → Tables → Result StoreError Claimed
claim_token hash_token account fresh existing db =
    if is_empty existing
    then done (record {
      tables = record db { tokens = db.tokens ++ reward_token hash_token account fresh ∷ [] };
      token_id = fresh.token_id;
      raw_token = fresh.raw_token;
    })
    else (if is_access_token_format existing
        then elim (find_token account (hash_token existing) db.tokens) [
          | none ↦ failed no_rows
          | some t ↦ done (record { tables = db; token_id = t.id; raw_token = [] })
        ]
        else failed no_rows)

abbrev donated_domain : ℕ → Bytes → Domain
donated_domain id name = record {
  id = id;
  domain = name;
  is_active = false;
  status = domain_pending;
  is_donated = true;
  is_public = true;
  verified_at = none;
  mx_checked_at = none;
}

-- The domain's row: a new one, or one that was donated before and has no donation.
unfoldable pub claim_domain : Fresh → Bytes → Tables → Result StoreError (Tables × ℕ)
claim_domain fresh name db = elim (find_domain name db.domains) [
  | none ↦ done (
    record db { domains = db.domains ++ donated_domain fresh.domain_id name ∷ [] },
    fresh.domain_id,
  )
  | some dom ↦
      if is_claimed dom.id db.donations || not dom.is_donated
      then failed donation_conflict
      else done (db, dom.id)
]

abbrev new_donation : (Bytes → Bytes) → DonationPolicy → Fresh → ℕ → ℕ → Bool → Donation
new_donation hash_token policy fresh dom token include_subdomains = record {
  id = fresh.donation_id;
  domain_id = dom;
  token_id = token;
  claim_secret_hash = hash_token fresh.claim_secret;
  challenge_token = fresh.challenge;
  include_subdomains = include_subdomains;
  status = pending;
  reward_active = false;
  reward_rpm = policy.rate_limit_per_minute;
  reward_daily = policy.daily_request_limit;
  reward_total = policy.total_request_limit;
  failure_count = 0;
  last_error = [];
  last_checked_at = none;
  activated_at = none;
  reward_revoked_at = none;
}

abbrev mark_donated : Domain → Domain
mark_donated dom = record dom { is_donated = true; is_public = true }

unfoldable pub insert_donation :
    (Bytes → Bytes)
    → DonationPolicy
    → Fresh
    → Bytes
    → ℕ
    → Bool
    → Tables × ℕ
    → Result StoreError Created
insert_donation hash_token policy fresh raw_token token include_subdomains (db, dom) =
    let d = new_donation hash_token policy fresh dom token include_subdomains in
    if not (fits_int4 d.reward_rpm) || not (fits_int4 d.reward_daily)
    then failed out_of_range
    else (if is_claimed dom db.donations || has_claim_secret d.claim_secret_hash db.donations
        then failed donation_conflict
        else done (record {
          tables = record db {
            donations = db.donations ++ d ∷ [];
            domains = update domain_id dom mark_donated db.domains;
          };
          donation = d;
          claim_secret = fresh.claim_secret;
          raw_token = raw_token;
        }))

abbrev pub donated_name : Bytes → Bytes
donated_name domain = to_lower (trim is_dot (trim_space domain))

-- The request from the count of the token's donations on.
unfoldable pub claim_and_insert :
    (Bytes → Bytes) → DonationPolicy → Fresh → Bytes → Bool → Claimed → Result StoreError Created
claim_and_insert hash_token policy fresh name include_subdomains claimed =
    if leb policy.max_domains_per_token (count_claims claimed.token_id claimed.tables.donations)
    then failed donation_token_limit
    else and_then (claim_domain fresh name claimed.tables) (
        insert_donation hash_token policy fresh claimed.raw_token claimed.token_id
          include_subdomains)

unfoldable pub create_donation :
    (Bytes → Bytes)
    → DonationPolicy
    → Option ℕ
    → Fresh
    → Bytes
    → Bool
    → Bytes
    → Tables
    → Result StoreError Created
create_donation hash_token policy none fresh domain include_subdomains existing db =
    if is_empty (donated_name domain) then failed domain_is_required else failed no_rows
create_donation hash_token policy (some account) fresh domain include_subdomains existing db =
    if is_empty (donated_name domain)
    then failed domain_is_required
    else and_then (claim_token hash_token account fresh (trim_space existing) db)
        (claim_and_insert hash_token policy fresh (donated_name domain) include_subdomains)

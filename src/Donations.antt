-- ===== src/Donations.antt =====
-- The donation rewards of api/store/donations.go: the rows of its tables, the policy, the limits
-- that a reward token is entitled to and `recalculateDonationTokenLockedTx`. A transaction is a
-- function of the tables: on an error it answers with the error alone, as the rollback leaves the
-- tables. The faults of the database itself are left out, and so are columns that nothing here
-- reads (`created_at`, `updated_at`). Sums in 64 bits are exact; the 32-bit columns are checked.
pub mod Transactions
pub mod Settled
pub mod Preserved
pub mod Ledger
pub mod Tolerance
pub mod Create
pub mod Policy
pub mod Records
use far_mail.Base.{
  ℕ, ◌+◌, ◌-◌, Bool, true, false, ◌&&◌, ◌||◌, List, [], ◌∷◌, ◌++◌, Option, none, some, ◌==◌, ltb,
  leb, if◌then◌else◌, max,
}
use far_mail.Base.Int.{ℤ, pos, pos_part, ◌+ℤ◌}
use far_mail.Base.Table.{find, update}
use far_mail.Base.Result.{Result, failed, done, and_then}
use far_mail.Text.{Bytes}
use far_mail.Store.{Token, TokenKind, standard, donation}

-- The column `domain_donations.status`.
pub data DonationStatus : Type 0 where
  pending active inactive revoked : DonationStatus

pub record Donation : Type 0 where
  pub id : ℕ
  pub domain_id : ℕ
  pub token_id : ℕ
  pub claim_secret_hash : Bytes
  pub challenge_token : Bytes
  pub include_subdomains : Bool
  pub status : DonationStatus
  pub reward_active : Bool
  pub reward_rpm : ℕ
  pub reward_daily : ℕ
  pub reward_total : ℕ
  pub failure_count : ℕ
  pub last_error : Bytes
  pub last_checked_at : Option ℕ
  pub activated_at : Option ℕ
  pub reward_revoked_at : Option ℕ

-- The column `domains.status`.
pub data DomainStatus : Type 0 where
  domain_pending domain_active domain_disabled : DomainStatus

pub record Domain : Type 0 where
  pub id : ℕ
  pub domain : Bytes
  pub is_active : Bool
  pub status : DomainStatus
  pub is_donated : Bool
  pub is_public : Bool
  pub verified_at : Option ℕ
  pub mx_checked_at : Option ℕ

-- The column `donation_reward_events.event_type`.
pub data EventType : Type 0 where
  grant revoke policy_update manual_adjust : EventType

pub record RewardEvent : Type 0 where
  pub token_id : ℕ
  pub donation_id : Option ℕ
  pub event_type : EventType
  pub total_delta : ℤ
  pub daily_delta : ℤ
  pub rpm_delta : ℤ
  pub note : Bytes

-- The tables that the transactions of the donations read and write.
pub record Tables : Type 0 where
  pub donations : List Donation
  pub tokens : List Token
  pub domains : List Domain
  pub events : List RewardEvent

pub data StoreError : Type 0 where
  no_rows reward_is_revoked out_of_range adjustment_exceeds_range : StoreError
  donation_conflict donation_token_limit domain_is_required : StoreError

-- What is read from the settings, and DonationPolicy.
pub record WantedPolicy : Type 0 where
  pub rate_limit_per_minute : ℤ
  pub daily_request_limit : ℤ
  pub total_request_limit : ℤ
  pub max_domains_per_token : ℤ

pub record DonationPolicy : Type 0 where
  pub rate_limit_per_minute : ℕ
  pub daily_request_limit : ℕ
  pub total_request_limit : ℕ
  pub max_domains_per_token : ℕ

unfoldable pub donation_policy : WantedPolicy → DonationPolicy
donation_policy w = record {
  rate_limit_per_minute = max 1 (pos_part w.rate_limit_per_minute);
  daily_request_limit = pos_part w.daily_request_limit;
  total_request_limit = max 1 (pos_part w.total_request_limit);
  max_domains_per_token = max 1 (pos_part w.max_domains_per_token);
}

abbrev pub donation_id : Donation → ℕ
donation_id d = d.id

abbrev pub token_id : Token → ℕ
token_id t = t.id

abbrev pub domain_id : Domain → ℕ
domain_id d = d.id

abbrev pub is_donation_token : Token → Bool
is_donation_token t = elim t.kind [ donation ↦ true | standard ↦ false ]

-- `SELECT SUM(...) FILTER (WHERE reward_active) ... WHERE token_id = $1`
unfoldable pub active_sum : (Donation → ℕ) → ℕ → List Donation → ℕ
active_sum reward token [] = 0
active_sum reward token (d ∷ ds) =
    (if d.token_id == token && d.reward_active then reward d else 0) + active_sum reward token ds

abbrev pub is_manual : EventType → Bool
is_manual manual_adjust = true
is_manual _ = false

-- `SELECT SUM(...) ... WHERE token_id = $1 AND event_type = 'manual_adjust'`
unfoldable pub manual_sum : (RewardEvent → ℤ) → ℕ → List RewardEvent → ℤ
manual_sum delta token [] = pos 0
manual_sum delta token (e ∷ es) =
    (if e.token_id == token && is_manual e.event_type then delta e else pos 0)
    +ℤ manual_sum delta token es

pub record TokenLimits : Type 0 where
  pub rpm : ℕ
  pub daily : ℕ
  pub total : ℕ

-- A cap that is not positive is no cap.
unfoldable pub capped : ℤ → ℕ → ℕ
capped rate_cap rpm =
    if ltb 0 (pos_part rate_cap) && ltb (pos_part rate_cap) rpm then pos_part rate_cap else rpm

-- The rewards of the active grants and the manual adjustments, at least 0, and the rate at most
-- the cap.
unfoldable pub entitled : ℤ → ℕ → Tables → TokenLimits
entitled rate_cap token db = record {
  rpm = capped rate_cap (
      pos_part (
        pos (active_sum (λ d. d.reward_rpm) token db.donations)
        +ℤ manual_sum (λ e. e.rpm_delta) token db.events));
  daily = pos_part (
      pos (active_sum (λ d. d.reward_daily) token db.donations)
      +ℤ manual_sum (λ e. e.daily_delta) token db.events);
  total = pos_part (
      pos (active_sum (λ d. d.reward_total) token db.donations)
      +ℤ manual_sum (λ e. e.total_delta) token db.events);
}

abbrev pub int4_max : ℕ
int4_max = 2_147_483_647

abbrev pub fits_int4 : ℕ → Bool
fits_int4 n = leb n int4_max

-- `UPDATE account_tokens SET ... WHERE id = $1 AND token_kind = 'donation'`
unfoldable pub put_limits : TokenLimits → Token → Token
put_limits limits t =
    if is_donation_token t
    then record t {
      rate_limit_per_minute = limits.rpm;
      daily_request_limit = limits.daily;
      total_request_limit = limits.total;
    }
    else t

-- `lockDonationTokenTx`: the row must be there.
unfoldable pub lock_donation_token : ℕ → Tables → Result StoreError Token
lock_donation_token token db = elim (find token_id token db.tokens) [
  | none ↦ failed no_rows
  | some t ↦ if is_donation_token t then done t else failed no_rows
]

-- `recalculateDonationTokenLockedTx`, at the setting `donation_token_rate_limit_cap`.
unfoldable pub recalculate : ℤ → ℕ → Tables → Result StoreError Tables
recalculate rate_cap token db =
    let limits = entitled rate_cap token db in
    if fits_int4 limits.rpm && fits_int4 limits.daily
    then done (record db { tokens = update token_id token (put_limits limits) db.tokens })
    else failed out_of_range

-- What a transaction that commits leaves: the tables, the tokens whose cached rows are
-- invalidated, and whether the cached list of domains is.
pub record Commit : Type 0 where
  pub tables : Tables
  pub stale_tokens : List ℕ
  pub stale_domains : Bool

-- The recalculation, the commit and the invalidations that end a transaction on one token.
unfoldable pub recalculate_and_commit : ℤ → ℕ → Bool → Tables → Result StoreError Commit
recalculate_and_commit rate_cap token domains_too db =
    and_then (recalculate rate_cap token db) (λ after.
      done (record { tables = after; stale_tokens = token ∷ []; stale_domains = domains_too }))

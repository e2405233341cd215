-- ===== src/Donations/Transactions.antt =====
-- The transactions of api/store/donations.go on one donation or one token:
-- `ApplyDonationVerification`, `SetDonationRevoked` and `AdjustDonationToken`.
use far_mail.Base.{
  ℕ, ◌+◌, Bool, true, false, not, ◌&&◌, ◌||◌, [], ◌∷◌, ◌++◌, Option, none, some, leb, if◌then◌else◌,
  max,
}
use far_mail.Base.Int.{ℤ, pos, pos_part, neg_part, neg}
use far_mail.Base.Table.{find, update}
use far_mail.Base.Result.{Result, failed, and_then}
use far_mail.Text.{Bytes, trim_space}
use far_mail.Donations.{
  Donation, active, inactive, revoked, Domain, domain_active, domain_disabled, RewardEvent,
  EventType, grant, revoke, manual_adjust, Tables, StoreError, no_rows, reward_is_revoked,
  adjustment_exceeds_range, donation_id, domain_id, lock_donation_token, Commit,
  recalculate_and_commit,
}

-- DonationVerification
pub record DonationVerification : Type 0 where
  pub valid : Bool
  pub transient : Bool
  pub status : Bytes

-- `COALESCE(column, NOW())`
abbrev pub or_now : ℕ → Option ℕ → Option ℕ
or_now now none = some now
or_now now (some at) = some at

abbrev pub enable_domain : ℕ → Domain → Domain
enable_domain now dom = record dom {
  is_active = true;
  status = domain_active;
  verified_at = or_now now dom.verified_at;
  mx_checked_at = some now;
}

abbrev pub disable_domain : ℕ → Domain → Domain
disable_domain now dom = record dom {
  is_active = false;
  status = domain_disabled;
  mx_checked_at = some now;
}

-- A grant or its revocation: the rewards of the donation, or their negatives.
abbrev pub reward_event : EventType → (ℕ → ℤ) → Donation → Bytes → RewardEvent
reward_event type sign d note = record {
  token_id = d.token_id;
  donation_id = some d.id;
  event_type = type;
  total_delta = sign d.reward_total;
  daily_delta = sign d.reward_daily;
  rpm_delta = sign d.reward_rpm;
  note = note;
}

abbrev pub grant_event : Donation → Bytes → RewardEvent
grant_event = reward_event grant pos

abbrev pub revoke_event : Donation → Bytes → RewardEvent
revoke_event = reward_event revoke (λ n. neg (pos n))

abbrev pub activated : ℕ → Donation → Donation
activated now d = record d {
  status = active;
  reward_active = true;
  failure_count = 0;
  last_error = [];
  last_checked_at = some now;
  activated_at = or_now now d.activated_at;
  reward_revoked_at = none;
}

abbrev pub deactivated : ℕ → Bytes → Donation → Donation
deactivated now error d = record d {
  status = inactive;
  reward_active = false;
  failure_count = d.failure_count + 1;
  last_error = error;
  last_checked_at = some now;
  reward_revoked_at = some now;
}

abbrev pub failed_once_more : ℕ → Bytes → Donation → Donation
failed_once_more now error d = record d {
  failure_count = d.failure_count + 1;
  last_error = error;
  last_checked_at = some now;
}

-- The writes of `ApplyDonationVerification` to the donation `d`, at the setting
-- `donation_dns_failure_tolerance`.
unfoldable pub write_verification : ℤ → ℕ → DonationVerification → Donation → Tables → Tables
write_verification tolerance now result d db =
    if result.valid
    then record db {
      donations = update donation_id d.id (activated now) db.donations;
      domains = update domain_id d.domain_id (enable_domain now) db.domains;
      events = if d.reward_active then db.events else db.events ++ grant_event d result.status ∷ [];
    }
    else (if d.reward_active
          && (not result.transient || leb (max 1 (pos_part tolerance)) (d.failure_count + 1))
        then record db {
          donations = update donation_id d.id (deactivated now result.status) db.donations;
          domains = update domain_id d.domain_id (disable_domain now) db.domains;
          events = db.events ++ revoke_event d result.status ∷ [];
        }
        else record db {
          donations = update donation_id d.id (failed_once_more now result.status) db.donations;
        })

abbrev pub is_revoked : Donation → Bool
is_revoked d = elim d.status [ revoked ↦ true | _ ↦ false ]

-- `ApplyDonationVerification`, at the settings of the rate cap and the tolerance.
unfoldable pub apply_verification :
    ℤ → ℤ → ℕ → ℕ → DonationVerification → Tables → Result StoreError Commit
apply_verification rate_cap tolerance now id result db = elim (find donation_id id db.donations) [
  | none ↦ failed no_rows
  | some d ↦
      if is_revoked d
      then failed reward_is_revoked
      else and_then (lock_donation_token d.token_id db) (λ t.
        recalculate_and_commit rate_cap d.token_id true
          (write_verification tolerance now result d db))
]

abbrev pub restored : Donation → Donation
restored d = record d {
  status = inactive;
  reward_active = false;
  failure_count = 0;
  last_error = [];
  last_checked_at = none;
}

abbrev pub withdrawn : ℕ → Bytes → Donation → Donation
withdrawn now note d = record d {
  status = revoked;
  reward_active = false;
  reward_revoked_at = some now;
  last_error = trim_space note;
}

-- The writes of `SetDonationRevoked` to the donation `d`.
unfoldable pub write_revoked : ℕ → Bool → Bytes → Donation → Tables → Tables
write_revoked now false note d db = record db {
  donations = update donation_id d.id restored db.donations;
  domains = update domain_id d.domain_id (disable_domain now) db.domains;
}
write_revoked now true note d db = record db {
  donations = update donation_id d.id (withdrawn now note) db.donations;
  domains = update domain_id d.domain_id (disable_domain now) db.domains;
  events = if d.reward_active then db.events ++ revoke_event d note ∷ [] else db.events;
}

unfoldable pub set_revoked : ℤ → ℕ → ℕ → Bool → Bytes → Tables → Result StoreError Commit
set_revoked rate_cap now id revoke_it note db = elim (find donation_id id db.donations) [
  | none ↦ failed no_rows
  | some d ↦
      and_then (lock_donation_token d.token_id db) (λ t.
        recalculate_and_commit rate_cap d.token_id true (write_revoked now revoke_it note d db))
]

abbrev pub max_adjustment : ℕ
max_adjustment = 1_000_000_000

abbrev pub in_range : ℤ → Bool
in_range z = leb (pos_part z) max_adjustment && leb (neg_part z) max_adjustment

abbrev pub adjustment : ℕ → ℤ → ℤ → ℤ → Bytes → RewardEvent
adjustment token total_delta daily_delta rpm_delta note = record {
  token_id = token;
  donation_id = none;
  event_type = manual_adjust;
  total_delta = total_delta;
  daily_delta = daily_delta;
  rpm_delta = rpm_delta;
  note = trim_space note;
}

-- `AdjustDonationToken`
unfoldable pub adjust_token : ℤ → ℕ → ℤ → ℤ → ℤ → Bytes → Tables → Result StoreError Commit
adjust_token rate_cap token total_delta daily_delta rpm_delta note db =
    if in_range total_delta && in_range daily_delta && in_range rpm_delta
    then and_then (lock_donation_token token db) (λ t.
      recalculate_and_commit rate_cap token false (record db {
        events = db.events ++ adjustment token total_delta daily_delta rpm_delta note ∷ [];
      }))
    else failed adjustment_exceeds_range

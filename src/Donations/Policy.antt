-- ===== src/Donations/Policy.antt =====
-- `ApplyDonationPolicyToExisting` of api/store/donations.go: the rewards of all the donations that
-- are not revoked become those of the policy, and their tokens get new limits.
pub mod Applied
use far_mail.Base.{
  ℕ, Bool, true, false, not, ◌&&◌, List, [], ◌∷◌, ◌++◌, Option, none, some, ◌==◌, ltb,
  if◌then◌else◌, keep,
}
use far_mail.Base.Int.{ℤ, pos, ◌-ℤ◌}
use far_mail.Base.Table.{update}
use far_mail.Base.Result.{Result, failed, done, and_then}
use far_mail.Text.{Bytes}
use far_mail.Donations.{
  Donation, RewardEvent, policy_update, Tables, DonationPolicy, StoreError, out_of_range,
  donation_id, lock_donation_token, recalculate, fits_int4, Commit,
}
use far_mail.Donations.Transactions.{is_revoked}

-- Ids in the order of their text, which is that of the numbers, each of them once.
unfoldable pub insert_id : ℕ → List ℕ → List ℕ
insert_id id [] = id ∷ []
insert_id id (j ∷ js) =
    if id == j then j ∷ js else (if ltb id j then id ∷ j ∷ js else j ∷ insert_id id js)

unfoldable pub token_ids : List Donation → List ℕ
token_ids [] = []
token_ids (g ∷ grants) = insert_id g.token_id (token_ids grants)

unfoldable pub grants_of : Tables → List Donation
grants_of db = keep (λ d. not (is_revoked d)) db.donations

unfoldable pub lock_all : List ℕ → Tables → Result StoreError Tables
lock_all [] db = done db
lock_all (token ∷ tokens) db = and_then (lock_donation_token token db) (λ t. lock_all tokens db)

abbrev pub with_policy : DonationPolicy → Donation → Donation
with_policy policy d = record d {
  reward_rpm = policy.rate_limit_per_minute;
  reward_daily = policy.daily_request_limit;
  reward_total = policy.total_request_limit;
}

abbrev change : Bool → ℕ → ℕ → ℤ
change is_active new old = if is_active then pos new -ℤ pos old else pos 0

abbrev pub policy_event : Bytes → DonationPolicy → Donation → RewardEvent
policy_event note policy g = record {
  token_id = g.token_id;
  donation_id = some g.id;
  event_type = policy_update;
  total_delta = change g.reward_active policy.total_request_limit g.reward_total;
  daily_delta = change g.reward_active policy.daily_request_limit g.reward_daily;
  rpm_delta = change g.reward_active policy.rate_limit_per_minute g.reward_rpm;
  note = note;
}

-- One round of the loop over the grants, with the note of its event.
unfoldable pub write_grant : Bytes → DonationPolicy → Donation → Tables → Tables
write_grant note policy g db = record db {
  donations = update donation_id g.id (with_policy policy) db.donations;
  events = db.events ++ policy_event note policy g ∷ [];
}

unfoldable pub write_grants :
    Bytes → DonationPolicy → List Donation → Tables → Result StoreError Tables
write_grants note policy [] db = done db
write_grants note policy (g ∷ grants) db =
    let rest = write_grants note policy grants (write_grant note policy g db) in
    if fits_int4 policy.rate_limit_per_minute && fits_int4 policy.daily_request_limit
    then rest
    else failed out_of_range

unfoldable pub recalculate_all : ℤ → List ℕ → Tables → Result StoreError Tables
recalculate_all rate_cap [] db = done db
recalculate_all rate_cap (token ∷ tokens) db =
    and_then (recalculate rate_cap token db) (recalculate_all rate_cap tokens)

unfoldable pub apply_policy : ℤ → Bytes → DonationPolicy → Tables → Result StoreError Commit
apply_policy rate_cap note policy db = and_then (lock_all (token_ids (grants_of db)) db) (λ locked.
    and_then (write_grants note policy (grants_of db) locked) (λ written.
      and_then (recalculate_all rate_cap (token_ids (grants_of db)) written) (λ after.
        done (record {
          tables = after;
          stale_tokens = token_ids (grants_of db);
          stale_domains = false;
        }))))

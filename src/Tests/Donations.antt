-- ===== src/Tests/Donations.antt =====
-- The donation rewards on concrete inputs.
use far_mail.Base.{◌+◌, ◌≤◌, ◌≡◌, refl, true, false, [], ◌∷◌, none, some, inl, inr, arith, ltb, map}
use far_mail.Base.Int.{pos, ◌+ℤ◌}
use far_mail.Base.Table.{find}
use far_mail.Base.Result.{Result, failed, done}
use far_mail.Text.{Bytes, codes, trim}
use far_mail.Store.{Token, donation}
use far_mail.Donations.{
  Donation, active, Domain, domain_active, Tables, DonationPolicy, StoreError, Commit, entitled,
  active_sum, manual_sum, capped, recalculate, recalculate_and_commit, put_limits,
  lock_donation_token, donation_id,
}
use far_mail.Donations.Transactions.{
  DonationVerification, apply_verification, write_verification, set_revoked, write_revoked,
  grant_event,
}
use far_mail.Donations.Settled.{IsSettled, SettledAt}
use far_mail.Donations.Preserved.{verify, transact, transact-IsSettled}
use far_mail.Donations.Ledger.{IsBooked, total_limit, daily_limit, rpm_limit, ledger}
use far_mail.Donations.Ledger.Booked.{apply_verification-IsBooked}
use far_mail.Donations.Tolerance.{check_all, check_all-transient}
use far_mail.Donations.Create.{
  Fresh, Created, create_donation, claim_token, claim_and_insert, claim_domain, insert_donation,
  count_claims, is_claimed, has_claim_secret,
}
use far_mail.Donations.Policy.{
  apply_policy, grants_of, token_ids, insert_id, lock_all, write_grants, write_grant,
  recalculate_all,
}
use far_mail.Donations.Policy.Applied.{HasPrimaryKey, apply_policy-IsSettled}
use far_mail.Donations.Create.Limited.{ClaimedOnce, create_donation-limited}

abbrev gift : Donation
gift = record {
  id = 1;
  domain_id = 4;
  token_id = 7;
  claim_secret_hash = codes "c1";
  challenge_token = codes "ch";
  include_subdomains = true;
  status = active;
  reward_active = true;
  reward_rpm = 30;
  reward_daily = 5000;
  reward_total = 100000;
  failure_count = 0;
  last_error = [];
  last_checked_at = some 5;
  activated_at = some 5;
  reward_revoked_at = none;
}

abbrev reward : Token
reward = record {
  id = 7;
  account_id = 1;
  token_hash = codes "aa";
  token_prefix = codes "0123";
  scope = codes "cleanup";
  kind = donation;
  rate_limit_per_minute = 30;
  daily_request_limit = 5000;
  total_request_limit = 100000;
  request_count_total = 12;
  expires_at = none;
  revoked_at = none;
}

abbrev site : Domain
site = record {
  id = 4;
  domain = codes "gift.org";
  is_active = true;
  status = domain_active;
  is_donated = true;
  is_public = true;
  verified_at = some 5;
  mx_checked_at = some 5;
}

abbrev tables : Tables
tables = record {
  donations = gift ∷ [];
  tokens = reward ∷ [];
  domains = site ∷ [];
  events = grant_event gift [] ∷ [];
}

settled : IsSettled (pos 180) tables
unfolding IsSettled SettledAt entitled active_sum manual_sum capped ◌+ℤ◌
settled token t found kind = ground (arith, found, kind)

abbrev wrong_record : DonationVerification
wrong_record = record { valid = false; transient = false; status = codes "TXT missing" }

abbrev timeout : DonationVerification
timeout = record { valid = false; transient = true; status = codes "timeout" }

commit_of : Result StoreError Commit → Commit
commit_of (failed e) = record { tables = tables; stale_tokens = []; stale_domains = false }
commit_of (done c) = c

lost :
    transact (pos 180) (pos 3) 9 (verify 1 wrong_record) tables
    ≡ done (commit_of (transact (pos 180) (pos 3) 9 (verify 1 wrong_record) tables))
unfolding commit_of transact apply_verification lock_donation_token recalculate_and_commit
    recalculate write_verification entitled active_sum manual_sum capped ◌+ℤ◌ put_limits
lost = refl

-- The reward of a donation that fails its check is gone at once.
nothing_left :
    map
      (λ (t : Token). t.total_request_limit)
      (commit_of (transact (pos 180) (pos 3) 9 (verify 1 wrong_record) tables)).tables.tokens
    ≡ 0 ∷ []
unfolding commit_of transact apply_verification lock_donation_token recalculate_and_commit
    recalculate write_verification entitled active_sum manual_sum capped ◌+ℤ◌ put_limits
nothing_left = refl

transact-IsSettled_example :
    IsSettled
      (pos 180)
      (commit_of (transact (pos 180) (pos 3) 9 (verify 1 wrong_record) tables)).tables
transact-IsSettled_example =
    transact-IsSettled (pos 180) (pos 3) 9 (verify 1 wrong_record) tables
      (commit_of (transact (pos 180) (pos 3) 9 (verify 1 wrong_record) tables)) settled lost

booked : IsBooked tables
unfolding IsBooked ledger ◌+ℤ◌
booked total_limit id d found = ground (arith, found)
booked daily_limit id d found = ground (arith, found)
booked rpm_limit id d found = ground (arith, found)

checked_once :
    apply_verification (pos 180) (pos 3) 9 1 wrong_record tables
    ≡ done (commit_of (apply_verification (pos 180) (pos 3) 9 1 wrong_record tables))
unfolding commit_of apply_verification lock_donation_token recalculate_and_commit recalculate
    write_verification entitled active_sum manual_sum capped ◌+ℤ◌ put_limits
checked_once = refl

apply_verification-IsBooked_example :
    IsBooked (commit_of (apply_verification (pos 180) (pos 3) 9 1 wrong_record tables)).tables
apply_verification-IsBooked_example =
    apply_verification-IsBooked (pos 180) (pos 3) 9 1 wrong_record tables
      (commit_of (apply_verification (pos 180) (pos 3) 9 1 wrong_record tables)) booked checked_once

withdrawn_once :
    set_revoked (pos 180) 9 1 true (codes "abuse") tables
    ≡ done (commit_of (set_revoked (pos 180) 9 1 true (codes "abuse") tables))
unfolding commit_of set_revoked lock_donation_token recalculate_and_commit recalculate write_revoked
    entitled active_sum manual_sum capped ◌+ℤ◌ put_limits
withdrawn_once = refl

tables_of : Result StoreError Tables → Tables
tables_of (failed e) = tables
tables_of (done db) = db

two_timeouts :
    check_all (pos 180) (pos 3) 9 1 (timeout ∷ timeout ∷ []) tables
    ≡ done (tables_of (check_all (pos 180) (pos 3) 9 1 (timeout ∷ timeout ∷ []) tables))
unfolding tables_of check_all apply_verification lock_donation_token recalculate_and_commit
    recalculate write_verification entitled active_sum manual_sum capped ◌+ℤ◌ put_limits
two_timeouts = refl

check_all-transient_example :
    (row : Donation) × (find donation_id 1
        (tables_of (check_all (pos 180) (pos 3) 9 1 (timeout ∷ timeout ∷ []) tables)).donations
      ≡ some row)
    × (row.reward_active ≡ ltb (0 + 2) 3)
check_all-transient_example =
    check_all-transient (pos 180) (pos 3) 9 1 (timeout ∷ timeout ∷ []) gift tables
      (tables_of (check_all (pos 180) (pos 3) 9 1 (timeout ∷ timeout ∷ []) tables))
      ((refl, refl), ((refl, refl), tt)) refl refl (omega arith) two_timeouts

abbrev policy : DonationPolicy
policy = record {
  rate_limit_per_minute = 30;
  daily_request_limit = 5000;
  total_request_limit = 100000;
  max_domains_per_token = 10;
}

abbrev fresh : Fresh
fresh = record {
  token_id = 8;
  domain_id = 5;
  donation_id = 2;
  raw_token = codes "0123456789abcdef0123456789abcdef";
  claim_secret = codes "s2";
  challenge = codes "ch2";
}

created_of : Result StoreError Created → Created
created_of (failed e) = record {
  tables = tables;
  donation = gift;
  claim_secret = [];
  raw_token = [];
}
created_of (done c) = c

abbrev same_text : Bytes → Bytes
same_text secret = secret

requested :
    create_donation same_text policy (some 1) fresh (codes " New.Org. ") true [] tables
    ≡ done (
        created_of
          (create_donation same_text policy (some 1) fresh (codes " New.Org. ") true [] tables))
unfolding created_of create_donation claim_token claim_and_insert claim_domain insert_donation
    count_claims is_claimed has_claim_secret trim
requested = refl

claimed_once : ClaimedOnce tables.donations
unfolding ClaimedOnce is_claimed
claimed_once = (refl, tt)

create_donation-limited_example :
    ClaimedOnce
      (created_of (
        create_donation same_text policy
          (some 1)
          fresh
          (codes " New.Org. ")
          true
          []
          tables)).tables.donations
    × (count_claims
          (created_of (
            create_donation same_text policy
              (some 1)
              fresh
              (codes " New.Org. ")
              true
              []
              tables)).donation.token_id
          (created_of (
            create_donation same_text policy
              (some 1)
              fresh
              (codes " New.Org. ")
              true
              []
              tables)).tables.donations
        ≤ 10)
create_donation-limited_example =
    create_donation-limited same_text policy (some 1) fresh (codes " New.Org. ") true [] tables
      (created_of
        (create_donation same_text policy (some 1) fresh (codes " New.Org. ") true [] tables))
      claimed_once requested

one_row : HasPrimaryKey tables.donations
one_row d (inl e) = ground (arith, e)
one_row d (inr none_left) = elim none_left [ ]

applied :
    apply_policy (pos 180) [] (record policy { rate_limit_per_minute = 50 }) tables
    ≡ done (
        commit_of (apply_policy (pos 180) [] (record policy { rate_limit_per_minute = 50 }) tables))
unfolding commit_of apply_policy grants_of token_ids insert_id lock_all write_grants write_grant
    recalculate_all lock_donation_token recalculate entitled active_sum manual_sum capped ◌+ℤ◌
    put_limits
applied = refl

apply_policy-IsSettled_example :
    IsSettled
      (pos 180)
      (commit_of
        (apply_policy (pos 180) [] (record policy { rate_limit_per_minute = 50 }) tables)).tables
apply_policy-IsSettled_example =
    apply_policy-IsSettled (pos 180) [] (record policy { rate_limit_per_minute = 50 }) tables
      (commit_of (apply_policy (pos 180) [] (record policy { rate_limit_per_minute = 50 }) tables))
      one_row settled applied

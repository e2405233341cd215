-- ===== src/Tests/Records.antt =====
-- The check of donated domains on concrete records.
use far_mail.Base.{
  ◌==◌, if◌then◌else◌, ◌≡◌, refl, inl, inr, true, false, List, [], ◌∷◌, none, some, arith, Elem,
}
use far_mail.Base.Int.{pos, ◌+ℤ◌}
use far_mail.Base.Table.{find}
use far_mail.Base.Result.{Result, failed, done}
use far_mail.Text.{Bytes, codes, trim, trim_space}
use far_mail.Store.{Token, donation}
use far_mail.Donations.{
  active, Donation, Tables, StoreError, Commit, donation_id, entitled, active_sum, manual_sum,
  capped, recalculate, recalculate_and_commit, put_limits, lock_donation_token,
}
use far_mail.Donations.Transactions.{apply_verification, write_verification, DonationVerification}
use far_mail.Donations.Records
use far_mail.Donations.Records.{
  Answer, answered, Resolver, MxResult, clean_name, has_value, check_txt, check_hosts, judge_hosts,
  judge_mx, check_records,
}
use far_mail.Donations.Records.Passed.{IsServer, IsProved, check_records-valid}
use far_mail.Donations.Records.Outage.{IsOutage, outage_keeps_reward}

-- The address of a host by its first byte: `m` fails, all others are the server.
address_of : Bytes → Answer (List Bytes)
address_of [] = answered []
address_of (c ∷ s) = if c == b'm' then Records.failed true else answered (codes "192.0.2.1" ∷ [])

abbrev dns : Resolver
dns = record {
  lookup_txt = λ name. answered (codes "other" ∷ codes " far-mail=abc" ∷ []);
  lookup_mx = λ name. answered (codes "mx.gift.org." ∷ codes "Backup.gift.org." ∷ []);
  lookup_host = address_of;
}

passes :
    (check_records dns (codes "Gift.org") [] (codes "mx.gift.org") (codes "far-mail=abc")).valid
    ≡ true
unfolding check_records check_txt judge_mx judge_hosts check_hosts has_value trim
passes = refl

check_records-valid_example :
    IsProved dns (codes "Gift.org") (codes "far-mail=abc")
    × ((mxs : List Bytes) × (mx : Bytes) × (dns.lookup_mx (clean_name (codes "Gift.org"))
          ≡ answered mxs)
        × Elem mx mxs
        × IsServer dns (trim_space []) (clean_name (codes "mx.gift.org")) mx)
check_records-valid_example =
    check_records-valid dns (codes "Gift.org") [] (codes "mx.gift.org") (codes "far-mail=abc")
      passes

abbrev gift : Donation
gift = record {
  id = 1;
  domain_id = 4;
  token_id = 7;
  claim_secret_hash = codes "c1";
  challenge_token = codes "ch";
  include_subdomains = true;
  status = active;
  reward_active = true;
  reward_rpm = 30;
  reward_daily = 5000;
  reward_total = 100000;
  failure_count = 0;
  last_error = [];
  last_checked_at = some 5;
  activated_at = some 5;
  reward_revoked_at = none;
}

abbrev reward : Token
reward = record {
  id = 7;
  account_id = 1;
  token_hash = codes "aa";
  token_prefix = codes "0123";
  scope = codes "cleanup";
  kind = donation;
  rate_limit_per_minute = 30;
  daily_request_limit = 5000;
  total_request_limit = 100000;
  request_count_total = 12;
  expires_at = none;
  revoked_at = none;
}

abbrev tables : Tables
tables = record { donations = gift ∷ []; tokens = reward ∷ []; domains = []; events = [] }

commit_of : Result StoreError Commit → Commit
commit_of (failed e) = record { tables = tables; stale_tokens = []; stale_domains = false }
commit_of (done c) = c

-- The address of the mail host cannot be looked up, and the server has another name.
abbrev verification : DonationVerification
verification =
    check_records dns (codes "gift.org") (codes "192.0.2.7") (codes "other.org")
      (codes "far-mail=abc")

host_fails : IsOutage dns (codes "gift.org") (codes "192.0.2.7") (codes "far-mail=abc")
unfolding has_value address_of trim
host_fails = inr (
  (codes "other" ∷ codes " far-mail=abc" ∷ [], refl, refl),
  inr (
    (λ e. ground (arith, e)),
    (
      codes "mx.gift.org." ∷ codes "Backup.gift.org." ∷ [],
      codes "mx.gift.org.",
      refl,
      inl refl,
      refl,
    ),
  ),
)

kept :
    apply_verification (pos 180) (pos 3) 9 1 verification tables
    ≡ done (commit_of (apply_verification (pos 180) (pos 3) 9 1 verification tables))
unfolding commit_of apply_verification lock_donation_token recalculate_and_commit recalculate
    write_verification entitled active_sum manual_sum capped ◌+ℤ◌ put_limits check_records check_txt
    judge_mx judge_hosts check_hosts has_value address_of trim
kept = refl

outage_keeps_reward_example :
    (row : Donation) × (find donation_id 1
        (commit_of (apply_verification (pos 180) (pos 3) 9 1 verification tables)).tables.donations
      ≡ some row)
    × (row.reward_active ≡ true)
outage_keeps_reward_example =
    outage_keeps_reward dns (codes "gift.org") (codes "192.0.2.7") (codes "other.org")
      (codes "far-mail=abc") (pos 180) (pos 3) 9 1 gift tables
      (commit_of (apply_verification (pos 180) (pos 3) 9 1 verification tables)) host_fails refl
      refl (omega arith) kept

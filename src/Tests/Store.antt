-- ===== src/Tests/Store.antt =====
-- The token cache and the quotas on concrete inputs.
use far_mail.Base.{
  ℕ, ◌≤◌, ◌<◌, ◌≡◌, ◌↔◌, refl, true, List, [], ◌∷◌, Option, none, some, arith, length,
}
use far_mail.Base.Assoc.{lookup, insert, delete}
use far_mail.Text.{codes, trim}
use far_mail.Store.{
  Token, standard, donation, get_cached, invalidate_tokens, cache_account_token, make_room,
  entry_expiry, delete_tokens,
}
use far_mail.Store.Bounded.{Action, load, read, invalidate, act, act_all, act_all-bounded}
use far_mail.Store.Fresh.{answer_not_expired}
use far_mail.Quota.{
  minute_key, daily_key, count_of, incr, increment_quota, count_day, rate_limit, refused, admitted,
  Moment, Surroundings, bearer, token_refusal, charge, count_request, api_auth, increment_usage,
}
use far_mail.Base.Result.{done}
use far_mail.Access.{
  Account, Context, admin_auth, donation_auth, admin_only, admin_console, donation_token,
}
use far_mail.Access.Boundaries.{owner, authenticate}
use far_mail.Quota.Counted.{Call, allowed_calls, KeepsLimit, allowed_calls-bounded}
use far_mail.Quota.Admitted.{refused_not_charged, WithinTotal, api_auth-WithinTotal}
use far_mail.Quota.Charged.{used}
use far_mail.Quota.Entitled.{IsEntitled, admitted-IsEntitled}

abbrev client : ℕ → ℕ → Option ℕ → Token
client id used expiry = record {
  id = id;
  account_id = 1;
  token_hash = codes "aa";
  token_prefix = codes "0123";
  scope = codes "read";
  kind = standard;
  rate_limit_per_minute = 1;
  daily_request_limit = 5;
  total_request_limit = 10;
  request_count_total = used;
  expires_at = expiry;
  revoked_at = none;
}

abbrev actions : List Action
actions =
    read 20 (codes "aa")
    ∷ load 10 (codes "bb") (client 8 0 (some 900))
    ∷ invalidate (9 ∷ [])
    ∷ load 5 (codes "aa") (client 7 3 (some 100))
    ∷ []

act_all-bounded_example : length (act_all actions).entries ≤ 4096
act_all-bounded_example = act_all-bounded actions

hit : (get_cached 20 (codes "aa") (act_all actions)).0 ≡ some (client 7 3 (some 100))
unfolding get_cached act_all act cache_account_token make_room entry_expiry insert lookup delete
    invalidate_tokens delete_tokens
hit = refl

answer_not_expired_example : 20 < 100
answer_not_expired_example =
    answer_not_expired actions 20 (codes "aa") (client 7 3 (some 100)) 100 hit refl

still_hit :
    (get_cached 20 (codes "aa") (invalidate_tokens (8 ∷ []) (act_all actions))).0
    ≡ some (client 7 3 (some 100))
unfolding get_cached act_all act cache_account_token make_room entry_expiry insert lookup delete
    invalidate_tokens delete_tokens
still_hit = refl

abbrev calls : List Call
calls =
    record { minute = some (minute_key 7 3, 1); day = some (daily_key 7 0, 5) }
    ∷ record { minute = some (minute_key 8 3, 4); day = none }
    ∷ record { minute = some (minute_key 7 3, 1); day = some (daily_key 7 0, 5) }
    ∷ []

keeps_limit : KeepsLimit (minute_key 7 3) 1 calls
keeps_limit = (
  (λ e. refl),
  (λ e. ground (arith, e)),
  ((λ e. ground (arith, e)), tt, ((λ e. refl), (λ e. ground (arith, e)), tt)),
)

allowed_calls-bounded_example : allowed_calls (minute_key 7 3) calls ≤ 1
allowed_calls-bounded_example = allowed_calls-bounded (minute_key 7 3) 1 calls keeps_limit

abbrev world : Surroundings
world = record { redis_up = true; database_up = true; known = λ raw. some (client 7 9 none) }

abbrev at : Moment
at = record { now = 50; minute = 3; day = 0 }

first_request :
    (api_auth world at (codes "Bearer abc") [] (client 7 9 none ∷ [])).2
    ≡ admitted (client 7 10 none)
unfolding api_auth bearer trim token_refusal count_request increment_quota count_day incr count_of
    insert lookup charge increment_usage
first_request = refl

second_request :
    (api_auth world at (codes "Bearer abc") ((minute_key 7 3, 1) ∷ []) (client 7 9 none ∷ [])).2
    ≡ refused rate_limit
unfolding api_auth bearer trim token_refusal count_request increment_quota count_day incr count_of
    insert lookup charge increment_usage
second_request = refl

refused_not_charged_example :
    (api_auth world at (codes "Bearer abc") ((minute_key 7 3, 1) ∷ []) (client 7 9 none ∷ [])).1
    ≡ client 7 9 none ∷ []
refused_not_charged_example =
    refused_not_charged world at (codes "Bearer abc") ((minute_key 7 3, 1) ∷ [])
      (client 7 9 none ∷ []) rate_limit second_request

one_left : WithinTotal (client 7 9 none ∷ [])
unfolding WithinTotal
one_left id t found = ground (arith, found)

api_auth-WithinTotal_example :
    WithinTotal (api_auth world at (codes "Bearer abc") [] (client 7 9 none ∷ [])).1
api_auth-WithinTotal_example =
    api_auth-WithinTotal world at (codes "Bearer abc") [] (client 7 9 none ∷ []) one_left

admitted-IsEntitled_example :
    ((t : Token) × ((api_auth world at (codes "Bearer abc") [] (client 7 9 none ∷ [])).2
        ≡ admitted t))
    ↔ ((t : Token) × (¬ (bearer (codes "Bearer abc") ≡ []))
        × (world.known (bearer (codes "Bearer abc")) ≡ some t)
        × IsEntitled world at t [] (client 7 9 none ∷ []))
admitted-IsEntitled_example =
    admitted-IsEntitled world at (codes "Bearer abc") [] (client 7 9 none ∷ [])

abbrev boss : Account
boss = record { id = 1; is_admin = true }

abbrev console_token : Token
console_token = record (client 0 0 none) { scope = codes "owner" }

abbrev console : Context
console = record { account = boss; token = console_token; mode = admin_console }

signed_in :
    authenticate (owner (λ key. some (boss, console_token)) (codes "sk-a-0123456789abcdef"))
    ≡ done console
unfolding authenticate admin_auth trim
signed_in = refl

console_passes : admin_only (some console) ≡ true
unfolding admin_only
console_passes = refl

abbrev donor_token : Token
donor_token = record (client 0 0 (some 90)) { kind = donation }

donor_in :
    donation_auth (λ raw. some (boss, donor_token)) 50 (codes "bearer abc")
    ≡ done (record { account = boss; token = donor_token; mode = donation_token })
unfolding donation_auth trim
donor_in = refl

-- ===== src/Quota.antt =====
-- The quota counters of api/middleware/redis_counter.go, `IncrementTokenUsageIfAllowed` of
-- api/store/tokens.go and `APIAuth` of api/middleware/auth.go. The counters that Redis holds are a
-- map; a key names its minute or its day and lives longer than that, so its expiry is left out, and
-- so are the headers that report the quota. The script and the statement run as one step each.
pub mod Counted
pub mod Admitted
pub mod Entitled
pub mod Charged
use far_mail.Base.{
  ℕ, ◌+◌, ◌≡◌, ◌↔◌, refl, Bool, true, false, not, ◌&&◌, ◌||◌, List, [], ◌∷◌, Option, none, some,
  arith, ◌==◌, ==_iff, ltb, leb, if◌then◌else◌, length, take, drop,
}
use far_mail.Base.Eq.{Eq}
use far_mail.Base.Assoc.{lookup, insert}
use far_mail.Base.Table.{find, update}
use far_mail.Text.{Bytes, codes, equal_fold, trim_space}
use far_mail.Ingress.Address.{is_empty}
use far_mail.Store.{Token, TokenKind, standard, donation}

-- `tok:min:<token>:<minute>` and `tok:day:<token>:<day>`
pub data CounterKey : Type 0 where
  minute_key : ℕ → ℕ → CounterKey
  daily_key : ℕ → ℕ → CounterKey

abbrev pub key_beq : CounterKey → CounterKey → Bool
key_beq (minute_key t m) (minute_key u n) = t == u && m == n
key_beq (daily_key t m) (daily_key u n) = t == u && m == n
key_beq _ _ = false

pub key_beq_iff : (a b : CounterKey) → (key_beq a b ≡ true) ↔ (a ≡ b)
key_beq_iff (minute_key t m) (minute_key u n) = ground arith
key_beq_iff (minute_key t m) (daily_key u n) = ground arith
key_beq_iff (daily_key t m) (minute_key u n) = ground arith
key_beq_iff (daily_key t m) (daily_key u n) = ground arith

instance abbrev pub key_eq : Eq CounterKey
key_eq = record { beq = key_beq; beq_iff = key_beq_iff }

abbrev pub Counters : Type 0
Counters = List (CounterKey × ℕ)

-- A key that is missing counts from 0.
unfoldable pub count_of : CounterKey → Counters → ℕ
count_of key counters = elim (lookup key counters) [ none ↦ 0 | some n ↦ n ]

-- Redis INCR
unfoldable pub incr : CounterKey → Counters → Counters
incr key counters = insert key (count_of key counters + 1) counters

-- The third value of the script's answer.
pub data Verdict : Type 0 where
  allowed minute_exceeded daily_exceeded : Verdict

-- A counter with its limit; `none` where it is not enabled.
abbrev pub Limited : Type 0
Limited = Option (CounterKey × ℕ)

unfoldable pub count_day : Limited → Counters → Counters × Verdict
count_day none counters = (counters, allowed)
count_day (some (key, limit)) counters = (
  incr key counters,
  (if ltb limit (count_of key (incr key counters)) then daily_exceeded else allowed),
)

-- `incrementQuotaCountersScript`: the day is counted only where the minute allows.
unfoldable pub increment_quota : Limited → Limited → Counters → Counters × Verdict
increment_quota none day counters = count_day day counters
increment_quota (some (key, limit)) day counters =
    if ltb limit (count_of key (incr key counters))
    then (incr key counters, minute_exceeded)
    else count_day day (incr key counters)

-- A limit that is not positive is not enabled.
abbrev pub enabled : CounterKey → ℕ → Limited
enabled key limit = if ltb 0 limit then some (key, limit) else none

abbrev pub token_id : Token → ℕ
token_id t = t.id

abbrev is_live : ℕ → Token → Bool
is_live now t = elim t.expires_at [ none ↦ true | some at ↦ ltb now at ]

abbrev is_none : Option ℕ → Bool
is_none none = true
is_none (some at) = false

-- The condition of the UPDATE.
abbrev pub may_use : ℕ → Token → Bool
may_use now t =
    is_none t.revoked_at
    && is_live now t
    && (t.total_request_limit == 0 || ltb t.request_count_total t.total_request_limit)

abbrev pub used_once_more : Token → Token
used_once_more t = record t { request_count_total = t.request_count_total + 1 }

-- `IncrementTokenUsageIfAllowed`: the requests used and the limit, with the table; `none` stands
-- for ErrTokenLimitReached.
unfoldable pub increment_usage : ℕ → ℕ → List Token → Option (ℕ × ℕ × List Token)
increment_usage now id tokens = elim (find token_id id tokens) [
  | none ↦ none
  | some t ↦
      if may_use now t
      then some (
        t.request_count_total + 1,
        t.total_request_limit,
        update token_id id used_once_more tokens,
      )
      else none
]

pub data Refusal : Type 0 where
  missing_token invalid_token token_revoked token_expired donation_inactive : Refusal
  limiter_unavailable rate_limit daily_limit total_limit store_error : Refusal

pub data Outcome : Type 0 where
  refused : Refusal → Outcome
  admitted : Token → Outcome

-- The moment of a request: the time, its minute and its day in Shanghai.
pub record Moment : Type 0 where
  pub now : ℕ
  pub minute : ℕ
  pub day : ℕ

-- What the request finds: whether Redis answers, whether the database does, and the answer of
-- `GetAccountByToken`, which may come from the cache.
pub record Surroundings : Type 0 where
  pub redis_up : Bool
  pub database_up : Bool
  pub known : Bytes → Option Token

-- The credential behind `Bearer `, empty where there is none.
unfoldable pub bearer : Bytes → Bytes
bearer header =
    let raw = trim_space header in
    if ltb (length raw) 7 || not (equal_fold (take 7 raw) (codes "Bearer "))
    then []
    else trim_space (drop 7 raw)

abbrev pub is_expired : ℕ → Token → Bool
is_expired now t = elim t.expires_at [ none ↦ false | some at ↦ ltb at now ]

abbrev pub is_idle_donation : Token → Bool
is_idle_donation t = elim t.kind [
  | donation ↦ t.total_request_limit == 0 || t.rate_limit_per_minute == 0
  | standard ↦ false
]

-- The checks of the token itself.
unfoldable pub token_refusal : ℕ → Token → Option Refusal
token_refusal now t =
    if not (is_none t.revoked_at)
    then some token_revoked
    else (if is_expired now t
        then some token_expired
        else (if is_idle_donation t then some donation_inactive else none))

-- The last step: a token with a total limit is counted in its row.
unfoldable pub charge : Bool → Moment → Token → List Token → List Token × Outcome
charge database_up at t tokens =
    if t.total_request_limit == 0
    then (tokens, admitted (used_once_more t))
    else (if database_up
        then elim (increment_usage at.now t.id tokens) [
          | none ↦ (tokens, refused total_limit)
          | some (used, limit, counted) ↦
              (counted, admitted (record t { request_count_total = used }))
        ]
        else (tokens, refused store_error))

abbrev pub quota_of : Moment → Token → Counters → Counters × Verdict
quota_of at t counters =
    increment_quota (enabled (minute_key t.id at.minute) t.rate_limit_per_minute)
      (enabled (daily_key t.id at.day) t.daily_request_limit) counters

abbrev pub has_quota : Token → Bool
has_quota t = ltb 0 t.rate_limit_per_minute || ltb 0 t.daily_request_limit

-- The request of a token that passed its checks.
unfoldable pub count_request :
    Surroundings → Moment → Token → Counters → List Token → Counters × List Token × Outcome
count_request world at t counters tokens =
    if has_quota t && not world.redis_up
    then (counters, tokens, refused limiter_unavailable)
    else (let (counted, verdict) = quota_of at t counters in
        elim verdict [
          | minute_exceeded ↦ (counted, tokens, refused rate_limit)
          | daily_exceeded ↦ (counted, tokens, refused daily_limit)
          | allowed ↦
              let (charged, outcome) = charge world.database_up at t tokens in
              (counted, charged, outcome)
        ])

-- `APIAuth`
unfoldable pub api_auth :
    Surroundings → Moment → Bytes → Counters → List Token → Counters × List Token × Outcome
api_auth world at header counters tokens =
    if is_empty (bearer header)
    then (counters, tokens, refused missing_token)
    else elim (world.known (bearer header)) [
      | none ↦ (counters, tokens, refused invalid_token)
      | some t ↦ elim (token_refusal at.now t) [
        | some why ↦ (counters, tokens, refused why)
        | none ↦ count_request world at t counters tokens
      ]
    ]

-- ===== src/Quota/Entitled.antt =====
-- Which requests `APIAuth` of api/middleware/auth.go admits, told without its functions: what the
-- token, its counters and its row must be.
use far_mail.Base.{
  ℕ, ◌+◌, ◌≤◌, ◌<◌, ◌≡◌, ◌↔◌, inl, inr, true, List, [], none, some, arith, ◌==◌, ==_iff, ltb,
  if◌then◌else◌, Bool-cases, Option-cases, ◌⊎◌, Bool,
}
use far_mail.Base.Table.{find}
use far_mail.Base.Eq.{beq_refl}
use far_mail.Text.{Bytes}
use far_mail.Store.{Token, donation}
use far_mail.Quota.{
  CounterKey, minute_key, daily_key, key_eq, Counters, count_of, incr, count_day, increment_quota,
  allowed, increment_usage, may_use, token_id, admitted, Moment, Surroundings, bearer,
  token_refusal, charge, quota_of, count_request, api_auth,
}
use far_mail.Quota.Counted.{count_of-incr}

-- The token itself may be presented at a time: it is not revoked, not past its expiry, and a reward
-- token has a total limit and a rate.
pub record IsUsable (now : ℕ) (t : Token) : Type 0 where
  pub kept : t.revoked_at ≡ none
  pub in_time : (last : ℕ) → t.expires_at ≡ some last → now ≤ last
  pub active : t.kind ≡ donation → (0 < t.total_request_limit) × (0 < t.rate_limit_per_minute)

-- A counter is below its limit, where there is one.
abbrev pub HasRoom : CounterKey → ℕ → Counters → Type 0
HasRoom key limit counters = (limit ≡ 0) ⊎ (count_of key counters < limit)

-- The row of a token takes one more request: it is not revoked, its expiry is ahead, and it is below
-- its total limit, where it has one.
pub record HasRow (now id : ℕ) (tokens : List Token) : Type 0 where
  pub row : Token
  pub found : find token_id id tokens ≡ some row
  pub kept : row.revoked_at ≡ none
  pub in_time : (last : ℕ) → row.expires_at ≡ some last → now < last
  pub below : (row.total_request_limit ≡ 0) ⊎ (row.request_count_total < row.total_request_limit)

-- What a request of a token needs: a usable token, room in its minute and in its day, Redis if one of
-- these has a limit, and the database and room in the row if the token has a total limit.
pub record IsEntitled (world : Surroundings) (at : Moment) (t : Token) (counters : Counters)
    (tokens : List Token) : Type 0 where
  pub usable : IsUsable at.now t
  pub minute_room : HasRoom (minute_key t.id at.minute) t.rate_limit_per_minute counters
  pub day_room : HasRoom (daily_key t.id at.day) t.daily_request_limit counters
  pub limiter : (0 < t.rate_limit_per_minute) ⊎ (0 < t.daily_request_limit) → world.redis_up ≡ true
  pub counted :
      (t.total_request_limit ≡ 0) ⊎ ((world.database_up ≡ true) × HasRow at.now t.id tokens)

token_refusal-IsUsable : (now : ℕ) (t : Token) → token_refusal now t ≡ none → IsUsable now t
unfolding token_refusal
token_refusal-IsUsable now t h = record {
  kept = ground (arith, h);
  in_time = λ last e. ground (arith, h, e);
  active =
      λ e. ground (arith, h, e, ==_iff t.total_request_limit 0, ==_iff t.rate_limit_per_minute 0);
}

IsUsable-token_refusal : (now : ℕ) (t : Token) → IsUsable now t → token_refusal now t ≡ none
unfolding token_refusal
IsUsable-token_refusal now t h =
    let some_limit = ==_iff t.total_request_limit 0 in
    let some_rate = ==_iff t.rate_limit_per_minute 0 in
    elim (Option-cases t.expires_at) [
      | inl never ↦ ground (arith, h.kept, never, h.active, some_limit, some_rate)
      | inr (last, e) ↦ ground (arith, h.kept, e, h.in_time last e, h.active, some_limit, some_rate)
    ]

HasRoom-count_day :
    (key : CounterKey) (limit : ℕ) (counters : Counters)
    → ((count_day (if ltb 0 limit then some (key, limit) else none) counters).1 ≡ allowed)
      ↔ HasRoom key limit counters
unfolding count_day
HasRoom-count_day key limit counters = ground (arith, count_of-incr key key counters, beq_refl key)

-- Counting in the minute leaves the day's counter alone.
daily-incr :
    (id minute day : ℕ) (counters : Counters)
    → count_of (daily_key id day) (incr (minute_key id minute) counters)
      ≡ count_of (daily_key id day) counters
daily-incr id minute day counters = count_of-incr (minute_key id minute) (daily_key id day) counters

quota_of-allowed :
    (at : Moment) (t : Token) (counters : Counters)
    → ((quota_of at t counters).1 ≡ allowed) ↔ (
        HasRoom (minute_key t.id at.minute) t.rate_limit_per_minute counters
        × HasRoom (daily_key t.id at.day) t.daily_request_limit counters)
unfolding increment_quota
quota_of-allowed at t counters =
    let minute = minute_key t.id at.minute in
    ground (
      arith,
      HasRoom-count_day (daily_key t.id at.day) t.daily_request_limit counters,
      HasRoom-count_day (daily_key t.id at.day) t.daily_request_limit (incr minute counters),
      count_of-incr minute minute counters,
      beq_refl minute,
      daily-incr t.id at.minute at.day counters,
    )

may_use-HasRow :
    (now id : ℕ) (t : Token) (tokens : List Token)
    → find token_id id tokens ≡ some t
    → may_use now t ≡ true
    → HasRow now id tokens
may_use-HasRow now id t tokens at h = record {
  row = t;
  found = at;
  kept = ground (arith, h);
  in_time = λ last e. ground (arith, h, e);
  below = ground (arith, h, ==_iff t.total_request_limit 0);
}

HasRow-may_use :
    (now id : ℕ) (tokens : List Token) (h : HasRow now id tokens) → may_use now h.row ≡ true
HasRow-may_use now id tokens h =
    let limited = ==_iff h.row.total_request_limit 0 in
    elim (Option-cases h.row.expires_at) [
      | inl never ↦ ground (arith, h.kept, never, h.below, limited)
      | inr (last, e) ↦ ground (arith, h.kept, e, h.in_time last e, h.below, limited)
    ]

charge-admitted :
    (database_up : Bool) (at : Moment) (t client : Token) (tokens : List Token)
    → (charge database_up at t tokens).1 ≡ admitted client
    → (t.total_request_limit ≡ 0) ⊎ ((database_up ≡ true) × HasRow at.now t.id tokens)
unfolding charge increment_usage
charge-admitted database_up at t client tokens h = elim (Bool-cases (t.total_request_limit == 0)) [
  | inl unlimited ↦ inl (ground (arith, unlimited, ==_iff t.total_request_limit 0))
  | inr limited ↦ elim (Option-cases (find token_id t.id tokens)) [
    | inl absent ↦ absurd (ground (arith, h, limited, absent))
    | inr (row, found) ↦ inr (
      ground (arith, h, limited, found),
      may_use-HasRow at.now t.id row tokens found (ground (arith, h, limited, found)),
    )
  ]
]

charge-admits :
    (database_up : Bool) (at : Moment) (t : Token) (tokens : List Token)
    → (t.total_request_limit ≡ 0) ⊎ ((database_up ≡ true) × HasRow at.now t.id tokens)
    → (client : Token) × ((charge database_up at t tokens).1 ≡ admitted client)
unfolding charge increment_usage
charge-admits database_up at t tokens (inl unlimited) =
    (record t { request_count_total = t.request_count_total + 1 }, ground (arith, unlimited))
charge-admits database_up at t tokens (inr (up, h)) =
    let may = HasRow-may_use at.now t.id tokens h in
    elim (Bool-cases (t.total_request_limit == 0)) [
      | inl unlimited ↦
          (record t { request_count_total = t.request_count_total + 1 }, ground (arith, unlimited))
      | inr limited ↦ (
        record t { request_count_total = h.row.request_count_total + 1 },
        ground (arith, limited, up, h.found, may),
      )
    ]

count_request-IsEntitled :
    (world : Surroundings) (at : Moment) (t client : Token) (counters : Counters)
    (tokens : List Token)
    → token_refusal at.now t ≡ none
    → (count_request world at t counters tokens).2 ≡ admitted client
    → IsEntitled world at t counters tokens
unfolding count_request
count_request-IsEntitled world at t client counters tokens passed h =
    let allows : (quota_of at t counters).1 ≡ allowed = ground (arith, h) in
    let (minute_room, day_room) = (quota_of-allowed at t counters).0 allows in
    record {
      usable = token_refusal-IsUsable at.now t passed;
      minute_room = minute_room;
      day_room = day_room;
      limiter = λ some_limit. ground (arith, h, some_limit);
      counted = charge-admitted world.database_up at t client tokens (ground (arith, h, allows));
    }

IsEntitled-count_request :
    (world : Surroundings) (at : Moment) (t : Token) (counters : Counters) (tokens : List Token)
    → IsEntitled world at t counters tokens
    → (client : Token) × ((count_request world at t counters tokens).2 ≡ admitted client)
unfolding count_request
IsEntitled-count_request world at t counters tokens h =
    let allows = (quota_of-allowed at t counters).1 (h.minute_room, h.day_room) in
    let (client, charged) = charge-admits world.database_up at t tokens h.counted in
    (client, ground (arith, allows, charged, h.limiter))

-- `APIAuth` admits a request exactly if the presented credential is not empty and the store knows
-- a token under it that is not revoked, not past its expiry and, for a reward token, has a total
-- limit and a rate; the token's counters of this minute and of this day are below its limits,
-- where it has them, and then Redis answers; and, if the token has a total limit, the database
-- answers and the token's row is not revoked, not expired and below its own total limit.
pub admitted-IsEntitled :
    (world : Surroundings) (at : Moment) (header : Bytes) (counters : Counters)
    (tokens : List Token)
    → ((client : Token) × ((api_auth world at header counters tokens).2 ≡ admitted client)) ↔ (
        (t : Token) × (¬ (bearer header ≡ []))
        × (world.known (bearer header) ≡ some t)
        × IsEntitled world at t counters tokens)
unfolding api_auth
admitted-IsEntitled world at header counters tokens = (only_if, if_entitled)
  where
    only_if :
        (client : Token) × ((api_auth world at header counters tokens).2 ≡ admitted client)
        → (t : Token) × (¬ (bearer header ≡ []))
          × (world.known (bearer header) ≡ some t)
          × IsEntitled world at t counters tokens
    only_if (client, h) = elim (Option-cases (world.known (bearer header))) [
      | inl unknown ↦ absurd (ground (arith, unknown, h))
      | inr (t, known) ↦ (
        t,
        (λ e. ground (arith, e, h)),
        known,
        count_request-IsEntitled world at t client counters tokens (ground (arith, known, h))
            (ground (arith, known, h)),
      )
    ]

    if_entitled :
        (t : Token) × (¬ (bearer header ≡ []))
          × (world.known (bearer header) ≡ some t)
          × IsEntitled world at t counters tokens
        → (client : Token) × ((api_auth world at header counters tokens).2 ≡ admitted client)
    if_entitled (t, presented, known, h) =
        let (client, counted) = IsEntitled-count_request world at t counters tokens h in
        let passed = IsUsable-token_refusal at.now t h.usable in
        (client, ground (arith, presented, known, passed, counted))

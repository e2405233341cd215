-- ===== src/Usage/Deferred.antt =====
-- The deferred uses of tokens in api/store/observability.go: `RecordAPIRequestEvents` with
-- `recordDeferredTokenUsage`, and `RecordTokenUsage` of api/store/tokens.go. The day of a time is
-- given. The column `last_used_at`, which no decision reads, and the order of the rows in a
-- statement are left out.
pub mod Counted
use far_mail.Base.{
  ℕ, ◌+◌, Bool, true, false, not, ◌&&◌, ◌||◌, List, [], ◌∷◌, ◌++◌, Option, none, some, ◌==◌,
  if◌then◌else◌, keep, map,
}
use far_mail.Store.{Token}
use far_mail.Tokens.Console.{not_revoked}
use far_mail.Usage.{Event}

-- A row of `api_request_daily`, or the sum for one: the token, the day, and the count.
pub record DailyCount : Type 0 where
  pub token_id : ℕ
  pub day : ℕ
  pub count : ℕ

pub record UsageTables : Type 0 where
  pub tokens : List Token
  pub events : List Event
  pub daily : List DailyCount

abbrev pub has_token : ℕ → List Token → Bool
has_token id [] = false
has_token id (t ∷ ts) = t.id == id || has_token id ts

-- The join of the statements: a token that is there and not revoked.
abbrev pub has_live : ℕ → List Token → Bool
has_live id [] = false
has_live id (t ∷ ts) = t.id == id && not_revoked t || has_live id ts

-- A use more of a token, in the map of the totals.
unfoldable pub add_total : ℕ → List (ℕ × ℕ) → List (ℕ × ℕ)
add_total id [] = (id, 1) ∷ []
add_total id ((other, n) ∷ totals) =
    if other == id then (other, n + 1) ∷ totals else (other, n) ∷ add_total id totals

-- The count of a day more, by one or more, in the map of the days and in the table.
unfoldable pub add_day : ℕ → ℕ → ℕ → List DailyCount → List DailyCount
add_day id day n [] = record { token_id = id; day = day; count = n } ∷ []
add_day id day n (d ∷ days) =
    if d.token_id == id && d.day == day
    then record d { count = d.count + n } ∷ days
    else d ∷ add_day id day n days

-- The loop over the events.
unfoldable pub totals_of : List Event → List (ℕ × ℕ) → List (ℕ × ℕ)
totals_of [] totals = totals
totals_of (e ∷ events) totals =
    totals_of events (if e.count_token_usage then add_total e.token_id totals else totals)

unfoldable pub days_of : (ℕ → ℕ) → List Event → List DailyCount → List DailyCount
days_of day_of [] days = days
days_of day_of (e ∷ events) days =
    days_of day_of events
      (if e.count_token_usage then add_day e.token_id (day_of e.created_at) 1 days else days)

abbrev pub total_for : ℕ → List (ℕ × ℕ) → ℕ
total_for id [] = 0
total_for id ((other, n) ∷ totals) = if other == id then n else total_for id totals

abbrev pub used : ℕ → Token → Token
used n t = if not_revoked t then record t { request_count_total = t.request_count_total + n } else t

-- The update of the tokens by their totals.
unfoldable pub add_totals : List (ℕ × ℕ) → List Token → List Token
add_totals totals = map (λ t. used (total_for t.id totals) t)

-- The upsert of the days whose token is live.
unfoldable pub add_days : List Token → List DailyCount → List DailyCount → List DailyCount
add_days tokens [] daily = daily
add_days tokens (d ∷ days) daily =
    let rest = add_days tokens days daily in
    if has_live d.token_id tokens then add_day d.token_id d.day d.count rest else rest

abbrev pub has_deferred : List Event → Bool
has_deferred [] = false
has_deferred (e ∷ events) = e.count_token_usage || has_deferred events

-- `RecordAPIRequestEvents`, where the transaction commits
unfoldable pub record_events : (ℕ → ℕ) → List Event → UsageTables → UsageTables
record_events day_of events db =
    let inserted = record db {
      events = db.events ++ keep (λ e. has_token e.token_id db.tokens) events;
    } in
    if has_deferred events
    then record inserted {
      tokens = add_totals (totals_of events []) db.tokens;
      daily = add_days db.tokens (days_of day_of events []) db.daily;
    }
    else inserted

-- `RecordTokenUsage`, on a day
unfoldable pub record_token_usage : ℕ → ℕ → UsageTables → UsageTables
record_token_usage day id db = record db {
  tokens = map (λ t. if t.id == id then used 1 t else t) db.tokens;
  daily = if has_live id db.tokens then add_day id day 1 db.daily else db.daily;
}

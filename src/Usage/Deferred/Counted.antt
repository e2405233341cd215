-- ===== src/Usage/Deferred/Counted.antt =====
-- The bulk count of api/store/observability.go counts what the uses one at a time would count.
use far_mail.Base.{
  ℕ, ◌+◌, ◌≡◌, refl, sym, ◌∙◌, ap, inl, inr, false, ◌&&◌, List, [], ◌∷◌, arith, ◌==◌, if◌then◌else◌,
  map, Bool-cases,
}
use far_mail.Store.{Token}
use far_mail.Usage.{Event}
use far_mail.Usage.Deferred.{
  DailyCount, UsageTables, has_live, add_total, add_day, totals_of, days_of, total_for, used,
  add_totals, add_days, has_deferred, record_events, record_token_usage,
}

-- The deferred uses, one at a time, each on the day of its event.
unfoldable pub record_each : (ℕ → ℕ) → List Event → UsageTables → UsageTables
record_each day_of [] db = db
record_each day_of (e ∷ events) db =
    record_each day_of events
      (if e.count_token_usage then record_token_usage (day_of e.created_at) e.token_id db else db)

use_one : ℕ → List Token → List Token
use_one id = map (λ t. if t.id == id then used 1 t else t)

total_for-add_total :
    (id k : ℕ) (totals : List (ℕ × ℕ))
    → total_for k (add_total id totals)
      ≡ (if id == k then total_for k totals + 1 else total_for k totals)
unfolding add_total
total_for-add_total id k [] = ground arith
total_for-add_total id k ((other, n) ∷ totals) = ground (arith, total_for-add_total id k totals)

used-more :
    (id : ℕ) (totals : List (ℕ × ℕ)) (t : Token)
    → used (total_for t.id (add_total id totals)) t ≡ (
        if t.id == id
        then used 1 (used (total_for t.id totals) t)
        else used (total_for t.id totals) t)
used-more id totals t = ground (arith, total_for-add_total id t.id totals)

used-id : (n : ℕ) (t : Token) → (used n t).id ≡ t.id
used-id n t = ground arith

add_totals-add_total :
    (id : ℕ) (totals : List (ℕ × ℕ)) (tokens : List Token)
    → add_totals (add_total id totals) tokens ≡ use_one id (add_totals totals tokens)
unfolding add_totals use_one
add_totals-add_total id totals [] = refl
add_totals-add_total id totals (t ∷ tokens) = ground (
  arith,
  used-more id totals t,
  used-id (total_for t.id totals) t,
  add_totals-add_total id totals tokens,
)

add_totals-none : (tokens : List Token) → add_totals [] tokens ≡ tokens
unfolding add_totals
add_totals-none [] = refl
add_totals-none (t ∷ tokens) = ground (arith, add_totals-none tokens)

add_totals-each :
    (day_of : ℕ → ℕ) (events : List Event) (totals : List (ℕ × ℕ)) (tokens : List Token)
    (db : UsageTables)
    → db.tokens ≡ add_totals totals tokens
    → add_totals (totals_of events totals) tokens ≡ (record_each day_of events db).tokens
unfolding totals_of record_each record_token_usage use_one
add_totals-each day_of [] totals tokens db h = sym h
add_totals-each day_of (e ∷ events) totals tokens db h = elim (Bool-cases e.count_token_usage) [
  | inl on ↦
      let next = record_token_usage (day_of e.created_at) e.token_id db in
      let rest =
        add_totals-each day_of events (add_total e.token_id totals) tokens next
          (ap (use_one e.token_id) h ∙ sym (add_totals-add_total e.token_id totals tokens)) in
      ground (arith, on, rest)
  | inr off ↦ ground (arith, off, add_totals-each day_of events totals tokens db h)
]

-- The count of a day for a token.
unfoldable pub count_on : ℕ → ℕ → List DailyCount → ℕ
count_on id day [] = 0
count_on id day (d ∷ days) =
    if d.token_id == id && d.day == day then d.count else count_on id day days

count_on-add_day :
    (id day n k other : ℕ) (days : List DailyCount)
    → count_on k other (add_day id day n days)
      ≡ (if id == k && day == other then n else 0) + count_on k other days
unfolding count_on add_day
count_on-add_day id day n k other [] = ground arith
count_on-add_day id day n k other (d ∷ days) =
    ground (arith, count_on-add_day id day n k other days)

-- A use more in the map of the days is a use more in the table, if the token is live.
add_days-add_day :
    (tokens : List Token) (id day k other : ℕ) (days daily : List DailyCount)
    → count_on k other (add_days tokens (add_day id day 1 days) daily)
      ≡ (if has_live id tokens && (id == k && day == other) then 1 else 0)
        + count_on k other (add_days tokens days daily)
unfolding add_days add_day
add_days-add_day tokens id day k other [] daily = elim (Bool-cases (has_live id tokens)) [
  | inl live ↦ ground (arith, live, count_on-add_day id day 1 k other daily)
  | inr gone ↦ ground (arith, gone)
]
add_days-add_day tokens id day k other (d ∷ days) daily =
    let rest = add_days tokens days daily in
    let grown = add_days tokens (add_day id day 1 days) daily in
    let old = count_on-add_day d.token_id d.day d.count k other rest in
    let more = count_on-add_day d.token_id d.day (d.count + 1) k other rest in
    let later = count_on-add_day d.token_id d.day d.count k other grown in
    elim (Bool-cases (d.token_id == id && d.day == day)) [
      | inl same ↦
          let same_id : d.token_id ≡ id = ground (arith, same) in
          let same_day : d.day ≡ day = ground (arith, same) in
          let same_live = ap (λ (i : ℕ). has_live i tokens) same_id in
          elim (Bool-cases (has_live id tokens)) [
            | inl live ↦ ground (arith, same, same_id, same_day, same_live, live, old, more)
            | inr gone ↦ ground (arith, same, same_id, same_day, same_live, gone)
          ]
      | inr differs ↦
          let hyp = add_days-add_day tokens id day k other days daily in
          elim (Bool-cases (has_live d.token_id tokens)) [
            | inl live ↦ ground (arith, differs, live, hyp, old, later)
            | inr gone ↦ ground (arith, differs, gone, hyp)
          ]
    ]

has_live-use_one :
    (id k : ℕ) (tokens : List Token) → has_live k (use_one id tokens) ≡ has_live k tokens
unfolding use_one
has_live-use_one id k [] = refl
has_live-use_one id k (t ∷ tokens) = ground (arith, has_live-use_one id k tokens)

grown_day :
    (tokens : List Token) (id today : ℕ) (days daily : List DailyCount) (db : UsageTables)
    (j other : ℕ)
    → has_live id db.tokens ≡ has_live id tokens
    → count_on j other db.daily ≡ count_on j other (add_days tokens days daily)
    → count_on j other (record_token_usage today id db).daily
      ≡ count_on j other (add_days tokens (add_day id today 1 days) daily)
unfolding record_token_usage
grown_day tokens id today days daily db j other live h =
    let bulk = add_days-add_day tokens id today j other days daily in
    let one = count_on-add_day id today 1 j other db.daily in
    elim (Bool-cases (has_live id tokens)) [
      | inl on ↦ ground (arith, live, on, h, bulk, one)
      | inr off ↦ ground (arith, live, off, h, bulk)
    ]

record_each-none :
    (day_of : ℕ → ℕ) (events : List Event) (db : UsageTables)
    → has_deferred events ≡ false
    → record_each day_of events db ≡ db
unfolding record_each
record_each-none day_of [] db h = refl
record_each-none day_of (e ∷ events) db h =
    let off : e.count_token_usage ≡ false = ground (arith, h) in
    let others : has_deferred events ≡ false = ground (arith, h) in
    ground (arith, off, record_each-none day_of events db others)

add_days-each :
    (day_of : ℕ → ℕ) (events : List Event) (days : List DailyCount) (tokens : List Token)
    (daily : List DailyCount) (db : UsageTables) (k day : ℕ)
    → ((id : ℕ) → has_live id db.tokens ≡ has_live id tokens)
    → ((j other : ℕ) → count_on j other db.daily ≡ count_on j other (add_days tokens days daily))
    → count_on k day (add_days tokens (days_of day_of events days) daily)
      ≡ count_on k day (record_each day_of events db).daily
unfolding days_of record_each record_token_usage use_one
add_days-each day_of [] days tokens daily db k day live h = sym (h k day)
add_days-each day_of (e ∷ events) days tokens daily db k day live h =
    elim (Bool-cases e.count_token_usage) [
      | inl on ↦
          let today = day_of e.created_at in
          let next = record_token_usage today e.token_id db in
          let rest =
            add_days-each day_of events (add_day e.token_id today 1 days) tokens daily next k day
              (λ id. has_live-use_one e.token_id id db.tokens ∙ live id)
              (λ j other.
                grown_day tokens e.token_id today days daily db j other (live e.token_id)
                  (h j other)) in
          ground (arith, on, rest)
      | inr off ↦ ground (arith, off, add_days-each day_of events days tokens daily db k day live h)
    ]

-- A batch of requests that commits: the rows of the tokens, and the count of every token on every
-- day, are what recording the deferred uses one at a time would leave, each on the day of its
-- request.
pub record_events-counts :
    (day_of : ℕ → ℕ) (events : List Event) (db : UsageTables) (id day : ℕ)
    → ((record_events day_of events db).tokens ≡ (record_each day_of events db).tokens)
      × (count_on id day (record_events day_of events db).daily
          ≡ count_on id day (record_each day_of events db).daily)
unfolding record_events add_days
record_events-counts day_of events db id day = elim (Bool-cases (has_deferred events)) [
  | inl some_deferred ↦ (
    ground (
      arith,
      some_deferred,
      add_totals-each day_of events [] db.tokens db (sym (add_totals-none db.tokens)),
    ),
    ground (
      arith,
      some_deferred,
      add_days-each day_of events [] db.tokens db.daily db id day (λ i. refl) (λ j other. refl),
    ),
  )
  | inr none_deferred ↦
      let same = record_each-none day_of events db none_deferred in
      (
        ground (arith, none_deferred, ap (λ (u : UsageTables). u.tokens) same),
        ground (arith, none_deferred, ap (λ (u : UsageTables). count_on id day u.daily) same),
      )
]

-- ===== src/Quota/Counted.antt =====
-- However the requests of all the tokens interleave, a counter of api/middleware/redis_counter.go
-- lets no more through than its limit.
use far_mail.Base.{
  inl, inr, subst, ℕ, ◌+◌, ◌≤◌, ◌≡◌, Bool, true, false, List, [], ◌∷◌, none, some, arith, ltb,
  if◌then◌else◌, Bool-cases, ◌&&◌, ◌||◌,
}
use far_mail.Base.Eq.{◌=?◌, beq_refl}
use far_mail.Base.Assoc.{lookup-insert}
use far_mail.Quota.{
  CounterKey, key_eq, key_beq_iff, Counters, count_of, incr, Verdict, allowed, Limited, count_day,
  increment_quota,
}

-- One call of the script: its two counters.
pub record Call : Type 0 where
  pub minute : Limited
  pub day : Limited

-- The counters after some calls, the last one first.
unfoldable pub counters_after : List Call → Counters
counters_after [] = []
counters_after (call ∷ before) = (increment_quota call.minute call.day (counters_after before)).0

abbrev is_allowed : Verdict → Bool
is_allowed allowed = true
is_allowed _ = false

abbrev names : CounterKey → Limited → Bool
names key none = false
names key (some (k, l)) = k =? key

-- 1 for a call that counts on the key and is allowed.
unfoldable pub allowed_call : CounterKey → Limited → Limited → Counters → ℕ
allowed_call key minute day counters =
    if (names key minute || names key day) && is_allowed (increment_quota minute day counters).1
    then 1
    else 0

-- How many of the calls that count on a key were allowed.
unfoldable pub allowed_calls : CounterKey → List Call → ℕ
allowed_calls key [] = 0
allowed_calls key (call ∷ before) =
    allowed_calls key before + allowed_call key call.minute call.day (counters_after before)

-- The calls that count on a key use one limit for it.
abbrev UsesLimit : CounterKey → ℕ → Limited → Type 0
UsesLimit key limit none = Unit
UsesLimit key limit (some (k, l)) = k ≡ key → l ≡ limit

abbrev pub KeepsLimit : CounterKey → ℕ → List Call → Type 0
KeepsLimit key limit [] = Unit
KeepsLimit key limit (call ∷ before) =
    UsesLimit key limit call.minute × UsesLimit key limit call.day × KeepsLimit key limit before

pub count_of-incr :
    (k j : CounterKey) (counters : Counters)
    → count_of j (incr k counters)
      ≡ (if k =? j then count_of k counters + 1 else count_of j counters)
unfolding count_of incr
count_of-incr k j counters = ground (arith, lookup-insert k j (count_of k counters + 1) counters)

count_day-counts :
    (key : CounterKey) (limit : ℕ) (day : Limited) (counters : Counters)
    → UsesLimit key limit day
    → (count_of key counters ≤ count_of key (count_day day counters).0)
      × (names key day ≡ true → count_of key counters + 1 ≤ count_of key (count_day day counters).0)
      × (names key day ≡ true
          → is_allowed (count_day day counters).1 ≡ true
          → count_of key counters + 1 ≤ limit)
unfolding count_day
count_day-counts key limit none counters d =
    (ground arith, λ h. ground (arith, h), λ h a. ground (arith, h))
count_day-counts key limit (some (k, l)) counters d = (
  ground (arith, count_of-incr k key counters),
  λ h. ground (arith, h, count_of-incr k key counters),
  λ h a.
      let same : k ≡ key = (key_beq_iff k key).0 h in
      within_limit k l same (d same) (ground (arith, a)),
)
  where
    within_limit :
        (j : CounterKey) (n : ℕ)
        → j ≡ key
        → n ≡ limit
        → ltb n (count_of j (incr j counters)) ≡ false
        → count_of key counters + 1 ≤ limit
    within_limit j n same is below =
        let counted : count_of key (incr key counters) ≡ count_of key counters + 1 =
          ground (arith, count_of-incr key key counters, beq_refl key) in
        ground
          (arith, is, counted, subst (λ q. ltb n (count_of q (incr q counters)) ≡ false) same below)

-- One call, against the count of a key.
increment_quota-counts :
    (key : CounterKey) (limit : ℕ) (minute day : Limited) (counters : Counters) (before : ℕ)
    → UsesLimit key limit minute
    → UsesLimit key limit day
    → before ≤ count_of key counters
    → before ≤ limit
    → (before + allowed_call key minute day counters
        ≤ count_of key (increment_quota minute day counters).0)
      × (before + allowed_call key minute day counters ≤ limit)
unfolding allowed_call increment_quota count_day
increment_quota-counts key limit none day counters before m d below within =
    let (kept, more, fits) = count_day-counts key limit day counters d in
    elim (Bool-cases (names key day)) [
      | inl on ↦ (
        ground (arith, below, within, kept, more on, fits on, on),
        ground (arith, below, within, kept, fits on, on),
      )
      | inr off ↦ (ground (arith, below, within, kept, off), ground (arith, below, within, off))
    ]
increment_quota-counts key limit (some (k, l)) day counters before m d below within =
    let (kept, more, fits) = count_day-counts key limit day (incr k counters) d in
    let counted = count_of-incr k key counters in
    let (one, one_more, one_fits) = count_day-counts key limit (some (k, l)) counters m in
    elim (Bool-cases (ltb l (count_of k (incr k counters)))) [
      | inl over ↦ (ground (arith, below, counted, over), ground (arith, within, over))
      | inr under ↦ elim (Bool-cases (k =? key)) [
        | inl on ↦ (
          ground (arith, below, counted, under, on, kept),
          ground (arith, below, within, under, on, one_fits on (under_allowed k l under)),
        )
        | inr other ↦ elim (Bool-cases (names key day)) [
          | inl on ↦ (
            ground (arith, below, counted, under, other, on, more on, kept),
            ground (arith, below, within, counted, under, other, on, fits on),
          )
          | inr off ↦ (
            ground (arith, below, counted, under, other, off, kept),
            ground (arith, within, under, other, off),
          )
        ]
      ]
    ]
  where
    under_allowed :
        (j : CounterKey) (n : ℕ)
        → ltb n (count_of j (incr j counters)) ≡ false
        → is_allowed (count_day (some (j, n)) counters).1 ≡ true
    under_allowed j n h = ground (arith, h)

counters_bound :
    (key : CounterKey) (limit : ℕ) (calls : List Call)
    → KeepsLimit key limit calls
    → (allowed_calls key calls ≤ count_of key (counters_after calls))
      × (allowed_calls key calls ≤ limit)
unfolding allowed_calls counters_after
counters_bound key limit [] keeps = (ground arith, ground arith)
counters_bound key limit (call ∷ before) keeps =
    let (counted, within) = counters_bound key limit before keeps.2 in
    increment_quota-counts key limit call.minute call.day (counters_after before)
      (allowed_calls key before) keeps.0 keeps.1 counted within

-- If all the calls that count on a key use one limit for it, then at most that many of them are
-- allowed, whatever calls for other keys come between and whatever other counter they use.
pub allowed_calls-bounded :
    (key : CounterKey) (limit : ℕ) (calls : List Call)
    → KeepsLimit key limit calls
    → allowed_calls key calls ≤ limit
allowed_calls-bounded key limit calls keeps = (counters_bound key limit calls keeps).1

-- ===== src/Tests/Usage.antt =====
-- The recorder of API usage on concrete inputs.
use far_mail.Base.{◌+◌, ◌≤◌, ◌≡◌, refl, true, false, [], ◌∷◌, ◌++◌, arith, length}
use far_mail.Base.Int.{pos, negsuc}
use far_mail.Text.{codes}
use far_mail.Usage.{
  Event, Recorder, Round, stopping, stopped, batch_size, new_recorder, send, flush, receive,
  take_or_end, drain, drain_all,
}
use far_mail.Base.{ltb, if◌then◌else◌, map, ℕ, List, some, none}
use far_mail.Store.{Token, standard}
use far_mail.Usage.Deferred.{
  UsageTables, record_events, totals_of, add_total, add_totals, days_of, add_day, add_days,
}
use far_mail.Usage.Deferred.Counted.{record_each, count_on, record_events-counts}
use far_mail.Usage.Accounted.{Step, Reach, started, events_accounted}
use far_mail.Usage.Drained.{drain_all-stores}

abbrev event : Event
event = record {
  token_id = 7;
  method = codes "GET";
  route = codes "/api/v1/mailboxes";
  status = 200;
  latency_ms = 3;
  request_id = codes "r1";
  created_at = 5;
  count_token_usage = true;
}

-- Two requests of which the queue takes one, and a round that receives it.
abbrev one_taken : Recorder
one_taken = record (new_recorder (pos 1) (negsuc 4)) {
  pending = event ∷ [];
  fallback = 7 ∷ [];
  enqueued = 1;
  dropped = 1;
  queue_high_water = 1;
  pending_depth = 1;
}

Reach-one_taken :
    Reach (started (pos 1) (negsuc 4)) (record { recorder = one_taken; sent = event ∷ [] })
unfolding new_recorder send receive
Reach-one_taken =
    Reach.next
      (Reach.next (Reach.next Reach.here (Step.request event refl)) (Step.request event refl))
      (Step.take_one 9 true one_taken refl refl refl)

events_accounted_example :
    ((event ∷ []) ≡ one_taken.stored ++ (one_taken.pending ++ one_taken.queue))
    × (one_taken.enqueued ≡ length (event ∷ []))
    × (one_taken.flushed ≡ length one_taken.stored)
    × (length one_taken.pending + length one_taken.queue ≤ batch_size + one_taken.capacity)
events_accounted_example = events_accounted (pos 1) (negsuc 4) Reach-one_taken

abbrev closed : Recorder
closed = record one_taken { queue = event ∷ []; enqueued = 2; phase = stopping }

abbrev round : Round
round = record { now = 9; accepted = true; accepted_last = true }

drain_all-stores_example :
    ((drain_all (round ∷ round ∷ []) closed).phase ≡ stopped)
    × ((drain_all (round ∷ round ∷ []) closed).stored
        ≡ closed.stored ++ (closed.pending ++ closed.queue))
    × ((drain_all (round ∷ round ∷ []) closed).failed_events ≡ closed.failed_events)
drain_all-stores_example =
    drain_all-stores (round ∷ round ∷ []) closed ((refl, refl), ((refl, refl), tt)) refl
      (omega arith)

-- A store that refuses the last batch: its events count as failed, and none is stored.
refused : (drain_all (round ∷ record round { accepted_last = false } ∷ []) closed).failed_events ≡ 2
unfolding drain_all drain take_or_end flush new_recorder
refused = refl

abbrev key : Token
key = record {
  id = 7;
  account_id = 1;
  token_hash = codes "aa";
  token_prefix = codes "0123";
  scope = codes "read";
  kind = standard;
  rate_limit_per_minute = 0;
  daily_request_limit = 0;
  total_request_limit = 0;
  request_count_total = 12;
  expires_at = none;
  revoked_at = none;
}

abbrev day_of : ℕ → ℕ
day_of at = if ltb at 10 then 0 else 1

-- Three uses of a token on two days, one that counts nothing, and two of tokens that cannot count.
abbrev batch : List Event
batch =
    event
    ∷ record event { created_at = 12 }
    ∷ record event { count_token_usage = false }
    ∷ record event { token_id = 8 }
    ∷ record event { token_id = 9 }
    ∷ event
    ∷ []

abbrev usage : UsageTables
usage = record {
  tokens = key ∷ record key { id = 8; revoked_at = some 3 } ∷ [];
  events = [];
  daily = record { token_id = 7; day = 0; count = 4 } ∷ [];
}

counted :
    map (λ (t : Token). t.request_count_total) (record_events day_of batch usage).tokens
    ≡ 15 ∷ 12 ∷ []
unfolding record_events totals_of add_total add_totals
counted = refl

counted_today : count_on 7 0 (record_events day_of batch usage).daily ≡ 6
unfolding record_events days_of add_day add_days count_on
counted_today = refl

record_events-counts_example :
    ((record_events day_of batch usage).tokens ≡ (record_each day_of batch usage).tokens)
    × (count_on 7 1 (record_events day_of batch usage).daily
        ≡ count_on 7 1 (record_each day_of batch usage).daily)
record_events-counts_example = record_events-counts day_of batch usage 7 1

-- ===== src/Usage.antt =====
-- The recorder of API usage in api/middleware/observability.go: a bounded queue that the requests
-- fill, and a loop that writes batches of it to the store. A request's send and its counters are one
-- step; the store's answers are arguments. What the store has taken is kept in order.
pub mod Held
pub mod Accounted
pub mod Drained
pub mod Deferred
use far_mail.Base.{
  ℕ, ◌+◌, Bool, true, false, not, ◌&&◌, List, [], ◌∷◌, ◌++◌, Option, none, some, ltb, leb,
  if◌then◌else◌, length, max,
}
use far_mail.Base.Int.{ℤ, pos_part}
use far_mail.Text.{Bytes}

-- store.APIRequestEvent
pub record Event : Type 0 where
  pub token_id : ℕ
  pub method : Bytes
  pub route : Bytes
  pub status : ℕ
  pub latency_ms : ℕ
  pub request_id : Bytes
  pub created_at : ℕ
  pub count_token_usage : Bool

pub data Phase : Type 0 where
  running stopping stopped : Phase

pub record Recorder : Type 0 where
  pub capacity : ℕ
  pub flush_interval : ℕ
  pub queue : List Event
  pub pending : List Event
  pub stored : List Event
  pub fallback : List ℕ
  pub retry_after : Option ℕ
  pub phase : Phase
  pub enqueued : ℕ
  pub dropped : ℕ
  pub flushes : ℕ
  pub flushed : ℕ
  pub flush_errs : ℕ
  pub failed_events : ℕ
  pub queue_high_water : ℕ
  pub pending_depth : ℕ

abbrev pub batch_size : ℕ
batch_size = 256

-- `newAPIUsageRecorder`: a capacity or an interval that is not positive is replaced.
unfoldable pub new_recorder : ℤ → ℤ → Recorder
new_recorder queue_capacity flush_interval = record {
  capacity = max 1 (pos_part queue_capacity);
  flush_interval =
      if ltb 0 (pos_part flush_interval) then pos_part flush_interval else 1_000_000_000;
  queue = [];
  pending = [];
  stored = [];
  fallback = [];
  retry_after = none;
  phase = running;
  enqueued = 0;
  dropped = 0;
  flushes = 0;
  flushed = 0;
  flush_errs = 0;
  failed_events = 0;
  queue_high_water = 0;
  pending_depth = 0;
}

abbrev pub has_room : Recorder → Bool
has_room r = ltb (length r.queue) r.capacity

-- The end of `Middleware`: the event is sent if the queue has room. Otherwise it is dropped, and a
-- deferred use of the token is counted directly.
unfoldable pub send : Event → Recorder → Recorder
send event r =
    if has_room r
    then record r {
      queue = r.queue ++ event ∷ [];
      enqueued = r.enqueued + 1;
      queue_high_water = max r.queue_high_water (length r.queue + 1);
    }
    else record r {
      dropped = r.dropped + 1;
      fallback = if event.count_token_usage then r.fallback ++ event.token_id ∷ [] else r.fallback;
    }

abbrev pub is_early : ℕ → Option ℕ → Bool
is_early now none = false
is_early now (some at) = ltb now at

abbrev pub written : Recorder → Recorder
written r = record r {
  stored = r.stored ++ r.pending;
  pending = [];
  pending_depth = 0;
  retry_after = none;
  flushed = r.flushed + length r.pending;
  flushes = r.flushes + 1;
}

abbrev pub not_written : ℕ → Recorder → Recorder
not_written now r = record r {
  retry_after = some (now + r.flush_interval);
  flush_errs = r.flush_errs + 1;
  flushes = r.flushes + 1;
}

-- `flush`: whether nothing is pending afterwards. `accepted` is the store's answer.
unfoldable pub flush : Bool → ℕ → Bool → Recorder → Recorder × Bool
flush force now accepted r = elim r.pending [
  | [] ↦ (r, true)
  | event ∷ events ↦
      if not force && is_early now r.retry_after
      then (r, false)
      else (if accepted then (written r, true) else (not_written now r, false))
]

abbrev pub take_event : Event → List Event → Recorder → Recorder
take_event event events r = record r {
  queue = events;
  pending = r.pending ++ event ∷ [];
  pending_depth = length r.pending + 1;
}

-- One round of `run` that receives an event: none while a full batch waits.
unfoldable pub receive : ℕ → Bool → Recorder → Option Recorder
receive now accepted r = if leb batch_size (length r.pending) then none else elim r.queue [
  | [] ↦ none
  | event ∷ events ↦
      let next = take_event event events r in
      some
        (if leb batch_size (length r.pending + 1) then (flush false now accepted next).0 else next)
]

-- One round of `run` for the flush ticker
unfoldable pub tick : ℕ → Bool → Recorder → Recorder
tick now accepted r = (flush false now accepted r).0

-- `Close`
unfoldable pub close : Recorder → Recorder
close r = record r { phase = stopping }

abbrev pub give_up : ℕ → Recorder → Recorder
give_up lost r = record r { failed_events = r.failed_events + lost; phase = stopped }

-- After the last flush
abbrev pub ended : Recorder × Bool → Recorder
ended (r, is_flushed) =
    if is_flushed then record r { phase = stopped } else give_up (length r.pending) r

-- The round's second half: an event more, or the last flush.
unfoldable pub take_or_end : ℕ → Bool → Recorder → Recorder
take_or_end now accepted r = elim r.queue [
  | event ∷ events ↦ take_event event events r
  | [] ↦ ended (flush true now accepted r)
]

-- After the flush of a full batch
abbrev pub continued : ℕ → Bool → Recorder × Bool → Recorder
continued now accepted (r, is_flushed) =
    if is_flushed then take_or_end now accepted r else give_up (length r.pending + length r.queue) r

-- One round of the loop that drains the queue after `Close`.
unfoldable pub drain : ℕ → Bool → Bool → Recorder → Recorder
drain now accepted accepted_last r =
    if leb batch_size (length r.pending)
    then continued now accepted_last (flush true now accepted r)
    else take_or_end now accepted_last r

abbrev pub is_stopping : Phase → Bool
is_stopping running = false
is_stopping stopping = true
is_stopping stopped = false

-- What the store answers in a round, and when.
pub record Round : Type 0 where
  pub now : ℕ
  pub accepted : Bool
  pub accepted_last : Bool

-- The loop, for the rounds it is given; it returns where it has stopped.
unfoldable pub drain_all : List Round → Recorder → Recorder
drain_all [] r = r
drain_all (round ∷ rounds) r =
    let next = drain_all rounds (drain round.now round.accepted round.accepted_last r) in
    if is_stopping r.phase then next else r

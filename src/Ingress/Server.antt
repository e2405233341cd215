-- ===== src/Ingress/Server.antt =====
-- The delivery queue of api/ingress/server.go: `NewServer`, the slots that bound the messages in
-- flight, `submitJob`, `handleJob` and `drainQueuedJobs`. The `slots` channel is the number of free
-- slots; the `jobs` channel is the list of queued jobs, oldest first. Counters do not wrap.
pub mod Slots
use far_mail.Base.{
  ℕ, zero, suc, ◌+◌, ◌-◌, ◌≤◌, Bool, true, false, List, [], ◌∷◌, ◌++◌, Option, none, some, max, ltb,
  leb, ◌==◌, if◌then◌else◌, length,
}
use far_mail.Base.Int.{ℤ, pos, negsuc}
use far_mail.Text.{Bytes, codes}
use far_mail.Ingress.Address.{is_empty}
use far_mail.Ingress.Snapshot.{ResolvedRecipient}

-- What the caller of `NewServer` asks for. Durations count nanoseconds.
pub record Wanted : Type 0 where
  pub addr : Bytes
  pub hostname : Bytes
  pub body_max_bytes : ℤ
  pub store_body_max_bytes : ℤ
  pub workers : ℤ
  pub queue_size : ℤ
  pub delivery_timeout : ℤ
  pub cache_refresh : ℤ
  pub session_timeout : ℤ
  pub command_max_bytes : ℤ

-- The configuration that is used, all of whose numbers are positive.
pub record Config : Type 0 where
  pub addr : Bytes
  pub hostname : Bytes
  pub body_max_bytes : ℕ
  pub store_body_max_bytes : ℕ
  pub workers : ℕ
  pub queue_size : ℕ
  pub delivery_timeout : ℕ
  pub cache_refresh : ℕ
  pub session_timeout : ℕ
  pub command_max_bytes : ℕ

abbrev positive_or : ℕ → ℤ → ℕ
positive_or default (pos zero) = default
positive_or default (pos (suc n)) = suc n
positive_or default (negsuc n) = default

abbrev text_or : Bytes → Bytes → Bytes
text_or default text = if is_empty text then default else text

abbrev at_most : ℕ → ℕ → ℕ
at_most limit n = if ltb limit n then limit else n

unfoldable pub normalize_config : Wanted → Config
normalize_config w = record {
  addr = text_or (codes "0.0.0.0:2527") w.addr;
  hostname = text_or (codes "far-mail.local") w.hostname;
  body_max_bytes = positive_or 262144 w.body_max_bytes;
  store_body_max_bytes =
      at_most (positive_or 262144 w.body_max_bytes) (positive_or 65536 w.store_body_max_bytes);
  workers = positive_or 48 w.workers;
  queue_size = positive_or 2048 w.queue_size;
  delivery_timeout = positive_or 8_000_000_000 w.delivery_timeout;
  cache_refresh = positive_or 30_000_000_000 w.cache_refresh;
  session_timeout = positive_or 300_000_000_000 w.session_timeout;
  command_max_bytes = positive_or 8192 w.command_max_bytes;
}

pub record Job : Type 0 where
  pub resolved : ResolvedRecipient
  pub envelope_sender : Bytes
  pub raw : Bytes

pub record Server : Type 0 where
  pub config : Config
  pub queue : List Job
  pub free : ℕ
  pub jobs_submitted : ℕ
  pub jobs_delivered : ℕ
  pub jobs_temp_failed : ℕ
  pub jobs_perm_failed : ℕ
  pub jobs_cancelled : ℕ
  pub queue_full : ℕ
  pub oversized_messages : ℕ
  pub delivery_timeouts : ℕ
  pub data_bytes : ℕ
  pub queue_high_water : ℕ
  pub in_flight_high_water : ℕ

unfoldable pub new_server : Wanted → Server
unfolding normalize_config
new_server w = record {
  config = normalize_config w;
  queue = [];
  free = (normalize_config w).queue_size;
  jobs_submitted = 0;
  jobs_delivered = 0;
  jobs_temp_failed = 0;
  jobs_perm_failed = 0;
  jobs_cancelled = 0;
  queue_full = 0;
  oversized_messages = 0;
  delivery_timeouts = 0;
  data_bytes = 0;
  queue_high_water = 0;
  in_flight_high_water = 0;
}

-- `acquireSlot`: `none` where no slot is free.
unfoldable pub acquire_slot : Server → Option Server
acquire_slot s =
    if s.free == 0
    then none
    else some (record s {
      free = s.free - 1;
      in_flight_high_water = max s.in_flight_high_water (s.config.queue_size - (s.free - 1));
    })

-- `s.slots <- struct{}{}`. The channel holds `QueueSize` slots: a send to a full one blocks.
unfoldable pub release_slot : Server → Option Server
release_slot s =
    if ltb s.free s.config.queue_size then some (record s { free = s.free + 1 }) else none

-- `submitJob`, the case that sends: `none` where the channel is full, and the send waits.
unfoldable pub submit_job : Job → Server → Option Server
submit_job job s =
    if ltb (length s.queue) s.config.queue_size
    then some (record s {
      queue = s.queue ++ job ∷ [];
      queue_high_water = max s.queue_high_water (length s.queue + 1);
    })
    else none

-- A worker's receive.
unfoldable pub take_job : Server → Option (Job × Server)
take_job s = elim s.queue [ [] ↦ none | job ∷ rest ↦ some (job, record s { queue = rest }) ]

pub data Status : Type 0 where
  delivery_ok temp_fail perm_fail : Status

-- What `InsertEmailResolved` answers: an error, not delivered, or delivered.
pub data Insertion : Type 0 where
  failed refused inserted : Insertion

-- `handleJob` without the parsing: whether the job's context has ended, and the answer of the
-- store. The slot goes back when the function returns.
unfoldable pub handle_job : Bool → Insertion → Server → Server × Status
handle_job true answer s = (record s { jobs_temp_failed = s.jobs_temp_failed + 1 }, temp_fail)
handle_job false failed s = (record s { jobs_temp_failed = s.jobs_temp_failed + 1 }, temp_fail)
handle_job false refused s = (record s { jobs_perm_failed = s.jobs_perm_failed + 1 }, perm_fail)
handle_job false inserted s = (record s { jobs_delivered = s.jobs_delivered + 1 }, delivery_ok)

-- One round of `drainQueuedJobs`, for a queued job: the slot goes back.
unfoldable pub drop_job : Server → Option Server
unfolding release_slot
drop_job s = elim s.queue [
  | [] ↦ none
  | job ∷ rest ↦ release_slot (record s {
    queue = rest;
    jobs_cancelled = s.jobs_cancelled + 1;
    jobs_temp_failed = s.jobs_temp_failed + 1;
  })
]

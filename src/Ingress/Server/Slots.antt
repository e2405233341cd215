-- ===== src/Ingress/Server/Slots.antt =====
-- The slots bound the messages in flight, however sessions and workers interleave.
use far_mail.Base.{
  ℕ, ◌+◌, ◌-◌, ◌≤◌, ◌<◌, ◌≡◌, refl, Bool, [], ◌∷◌, ◌++◌, some, arith, length, length-append, max,
}
use far_mail.Ingress.Server.{
  Wanted, Job, Server, Insertion, normalize_config, new_server, acquire_slot, release_slot,
  submit_job, take_job, handle_job, drop_job,
}

-- The server, with the sessions that hold a slot for a message they still read, and the workers
-- that hold one for a job at work.
pub record System : Type 0 where
  pub server : Server
  pub reading : ℕ
  pub working : ℕ

-- One action of a session, of a worker or of the shutdown.
pub data Step (s t : System) : Type 0 where
  acquire :
      (srv : Server)
      → acquire_slot s.server ≡ some srv
      → t ≡ record s { server = srv; reading = s.reading + 1 }
      → Step s t
  give_back :
      (srv : Server)
      → 0 < s.reading
      → release_slot s.server ≡ some srv
      → t ≡ record s { server = srv; reading = s.reading - 1 }
      → Step s t
  submit :
      (job : Job) (srv : Server)
      → 0 < s.reading
      → submit_job job s.server ≡ some srv
      → t ≡ record s { server = srv; reading = s.reading - 1 }
      → Step s t
  receive :
      (job : Job) (srv : Server)
      → take_job s.server ≡ some (job, srv)
      → t ≡ record s { server = srv; working = s.working + 1 }
      → Step s t
  finish :
      (expired : Bool) (answer : Insertion) (srv : Server)
      → 0 < s.working
      → release_slot (handle_job expired answer s.server).0 ≡ some srv
      → t ≡ record s { server = srv; working = s.working - 1 }
      → Step s t
  drain : (srv : Server) → drop_job s.server ≡ some srv → t ≡ record s { server = srv } → Step s t

pub data Reach (s : System) : System → Type 0 where
  here : Reach s s
  next : {t u : System} → Reach s t → Step t u → Reach s u

pub record IsBalanced (s : System) : Type 0 where
  pub slots :
      s.server.free + s.reading + length s.server.queue + s.working ≡ s.server.config.queue_size
  pub in_flight : s.server.in_flight_high_water ≤ s.server.config.queue_size
  pub queued : s.server.queue_high_water ≤ s.server.config.queue_size

abbrev pub started : Wanted → System
started w = record { server = new_server w; reading = 0; working = 0 }

started-IsBalanced : (w : Wanted) → IsBalanced (started w)
unfolding new_server
started-IsBalanced w = omega arith

Step-IsBalanced : {s t : System} → Step s t → IsBalanced s → IsBalanced t
unfolding acquire_slot release_slot submit_job take_job handle_job drop_job
Step-IsBalanced {s} (acquire srv e is) v = ground arith
Step-IsBalanced {s} (give_back srv pos e is) v = ground arith
Step-IsBalanced {s} (submit job srv pos e is) v =
    ground (arith, length-append s.server.queue (job ∷ []))
Step-IsBalanced {s} (receive job srv e is) v = ground arith
Step-IsBalanced {s} (finish expired answer srv pos e is) v = ground arith
Step-IsBalanced {s} (drain srv e is) v = ground arith

Reach-IsBalanced : {s t : System} → IsBalanced s → Reach s t → IsBalanced t
Reach-IsBalanced v here = v
Reach-IsBalanced v (next r st) = Step-IsBalanced st (Reach-IsBalanced v r)

-- In every reachable state each slot is free, held by a session that reads a message, with a
-- queued job, or with a job at work, and neither high water mark exceeds the queue size.
pub started-Reach-IsBalanced : (w : Wanted) {t : System} → Reach (started w) t → IsBalanced t
started-Reach-IsBalanced w r = Reach-IsBalanced (started-IsBalanced w) r

-- A session that holds a slot can always queue its job: the channel has room.
pub submit_never_blocks :
    (w : Wanted) (t : System) (job : Job)
    → Reach (started w) t
    → 0 < t.reading
    → (srv : Server) × (submit_job job t.server ≡ some srv)
      × (srv.queue ≡ t.server.queue ++ job ∷ [])
unfolding submit_job
submit_never_blocks w t job r pos =
    let v = started-Reach-IsBalanced w r in
    (
      record t.server {
        queue = t.server.queue ++ job ∷ [];
        queue_high_water = max t.server.queue_high_water (length t.server.queue + 1);
      },
      ground arith,
      refl,
    )

-- Whoever holds a slot can give it back: a session, a worker, and the shutdown for a queued job.
pub release_never_blocks :
    (w : Wanted) (t : System)
    → Reach (started w) t
    → 0 < t.reading + t.working + length t.server.queue
    → (srv : Server) × (release_slot t.server ≡ some srv) × (srv.free ≡ t.server.free + 1)
unfolding release_slot
release_never_blocks w t r pos =
    let v = started-Reach-IsBalanced w r in
    (record t.server { free = t.server.free + 1 }, ground arith, refl)

-- When no session reads, no job waits and no worker is busy, every slot is free again.
pub idle_all_free :
    (w : Wanted) (t : System)
    → Reach (started w) t
    → t.reading + t.working + length t.server.queue ≡ 0
    → t.server.free ≡ t.server.config.queue_size
idle_all_free w t r idle = omega (arith, (started-Reach-IsBalanced w r).slots)

-- The configuration in use has positive sizes and limits, whatever was asked for, and stores no
-- more of a body than it reads.
pub normalize_config-positive :
    (w : Wanted)
    → let c = normalize_config w in
      (0 < c.body_max_bytes)
      × (0 < c.store_body_max_bytes)
      × (c.store_body_max_bytes ≤ c.body_max_bytes)
      × (0 < c.workers)
      × (0 < c.queue_size)
      × (0 < c.delivery_timeout)
      × (0 < c.command_max_bytes)
unfolding normalize_config
normalize_config-positive w = ground arith

-- ===== src/Usage/Accounted.antt =====
-- No event that the recorder has taken is lost, doubled or reordered, however requests and the loop
-- interleave.
use far_mail.Base.{
  ℕ, ◌+◌, ◌≤◌, ◌≡◌, sym, subst, Bool, false, List, [], ◌∷◌, ◌++◌, some, arith, if◌then◌else◌,
  length,
}
use far_mail.Base.Int.{ℤ}
use far_mail.Usage.{
  Event, running, stopping, Recorder, batch_size, new_recorder, has_room, send, receive, tick,
  close, drain,
}
use far_mail.Usage.Held.{
  Holds, flush-Holds, send-Holds, receive-Holds, with_phase-Holds, drain-Holds, started-Holds,
}

-- The recorder with the events that its queue took, in order.
pub record System : Type 0 where
  pub recorder : Recorder
  pub sent : List Event

-- One action of a request, of the loop, or of the shutdown.
pub data Step (s t : System) : Type 0 where
  request :
      (event : Event)
      → t ≡ record {
        recorder = send event s.recorder;
        sent = if has_room s.recorder then s.sent ++ event ∷ [] else s.sent;
      }
      → Step s t
  take_one :
      (now : ℕ) (accepted : Bool) (r : Recorder)
      → s.recorder.phase ≡ running
      → receive now accepted s.recorder ≡ some r
      → t ≡ record s { recorder = r }
      → Step s t
  flush_tick :
      (now : ℕ) (accepted : Bool)
      → s.recorder.phase ≡ running
      → t ≡ record s { recorder = tick now accepted s.recorder }
      → Step s t
  shut : s.recorder.phase ≡ running → t ≡ record s { recorder = close s.recorder } → Step s t
  drain_one :
      (now : ℕ) (accepted accepted_last : Bool)
      → s.recorder.phase ≡ stopping
      → t ≡ record s { recorder = drain now accepted accepted_last s.recorder }
      → Step s t

pub data Reach (s : System) : System → Type 0 where
  here : Reach s s
  next : {t u : System} → Reach s t → Step t u → Reach s u

abbrev pub started : ℤ → ℤ → System
started capacity interval = record { recorder = new_recorder capacity interval; sent = [] }

abbrev IsAccounted : System → Type 0
IsAccounted s = Holds s.sent s.recorder

Step-IsAccounted : {s t : System} → Step s t → IsAccounted s → IsAccounted t
unfolding tick close
Step-IsAccounted {s} (request event is) h =
    subst IsAccounted (sym is) (send-Holds s.sent event s.recorder h)
Step-IsAccounted {s} (take_one now accepted r on got is) h =
    subst IsAccounted (sym is) (receive-Holds s.sent now accepted s.recorder r got h)
Step-IsAccounted {s} (flush_tick now accepted on is) h =
    subst IsAccounted (sym is) (flush-Holds s.sent false now accepted s.recorder h)
Step-IsAccounted {s} (shut on is) h =
    subst IsAccounted (sym is)
      (with_phase-Holds s.sent stopping s.recorder.failed_events s.recorder h)
Step-IsAccounted {s} (drain_one now accepted accepted_last on is) h =
    subst IsAccounted (sym is) (drain-Holds s.sent now accepted accepted_last s.recorder h)

started-Reach-IsAccounted :
    (capacity interval : ℤ) {t : System} → Reach (started capacity interval) t → IsAccounted t
started-Reach-IsAccounted capacity interval here = started-Holds capacity interval
started-Reach-IsAccounted capacity interval (next r step) =
    Step-IsAccounted step (started-Reach-IsAccounted capacity interval r)

-- In every interleaving of requests, the loop and the shutdown: the events that the queue took are,
-- in order, those that the store took, those of the pending batch and those in the queue. The
-- counters `enqueued` and `flushed` are the numbers of the taken and of the stored events, and at
-- most the queue's capacity and one batch of 256 wait.
pub events_accounted :
    (capacity interval : ℤ) {t : System}
    → Reach (started capacity interval) t
    → (t.sent ≡ t.recorder.stored ++ (t.recorder.pending ++ t.recorder.queue))
      × (t.recorder.enqueued ≡ length t.sent)
      × (t.recorder.flushed ≡ length t.recorder.stored)
      × (length t.recorder.pending + length t.recorder.queue ≤ batch_size + t.recorder.capacity)
events_accounted capacity interval reach =
    let h = started-Reach-IsAccounted capacity interval reach in
    (h.in_order, h.counted, h.flushed, omega (arith, h.pending_bound, h.queue_bound))

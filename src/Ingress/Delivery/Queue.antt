-- ===== src/Ingress/Delivery/Queue.antt =====
-- What `handleDATA` does to the slots and to the queue, on each of its branches.
use far_mail.Base.{
  ℕ, ◌+◌, ◌≤◌, ◌≡◌, refl, ap, ◌∙◌, ◌⊎◌, inl, inr, Bool, true, false, List, [], ◌∷◌, ◌++◌, Option,
  none, some, arith, length, length-append, Bool-cases, Option-cases,
}
use far_mail.Text.{Bytes}
use far_mail.Ingress.Data.{Message, read_data}
use far_mail.Ingress.Data.RoundTrip.{read_data-bound}
use far_mail.Ingress.Delivery.{
  handle_data, data_for, receive_message, submit_message, await, job_of, try_submit,
}
use far_mail.Ingress.Server.{Server, Job, acquire_slot, submit_job}
use far_mail.Ingress.Snapshot.{ResolvedRecipient}
use far_mail.Ingress.Transaction.{Session, Conditions, Outcome, finished, timed_out}

abbrev pub slots_and_jobs : Server → ℕ
slots_and_jobs srv = srv.free + length srv.queue

-- The queue is as before, or has one job more: of the transaction's sender and recipient, with a
-- message within the limit.
abbrev pub QueuesAtMostOne : Server → Session → Server → Type 0
QueuesAtMostOne srv s after =
    (after.queue ≡ srv.queue)
    ⊎ ((job : Job) × (after.queue ≡ srv.queue ++ job ∷ [])
        × (s.txn.recipient ≡ some job.resolved)
        × (job.envelope_sender ≡ s.txn.mail_from)
        × (length job.raw ≤ srv.config.body_max_bytes))

-- No slot is lost: as many are free or hold a queued job as before.
pub record IsAccounted (srv : Server) (s : Session) (after : Server) : Type 0 where
  pub slots : slots_and_jobs after ≡ slots_and_jobs srv
  pub jobs : QueuesAtMostOne srv s after

-- A slot is taken.
record Holds (srv held : Server) : Type 0 where
  free : held.free + 1 ≡ srv.free
  queue : held.queue ≡ srv.queue
  config : held.config ≡ srv.config

acquire_slot-Holds : (srv held : Server) → acquire_slot srv ≡ some held → Holds srv held
unfolding acquire_slot
acquire_slot-Holds srv held e = ground arith

record Adds (job : Job) (srv queued : Server) : Type 0 where
  free : queued.free ≡ srv.free
  queue : queued.queue ≡ srv.queue ++ job ∷ []

try_submit-Adds :
    (in_time : Bool) (job : Job) (srv queued : Server)
    → try_submit in_time job srv ≡ some queued
    → Adds job srv queued
unfolding submit_job
try_submit-Adds true job srv queued e = ground arith
try_submit-Adds false job srv queued e = absurd (ground arith)

await-queue :
    (o : Outcome) (written : Bool) (srv : Server) (s : Session) (unread : List Bytes)
    → ((await o written srv s unread).server.queue ≡ srv.queue)
      × ((await o written srv s unread).server.free ≡ srv.free)
unfolding await
await-queue (finished status) written srv s unread = (refl, refl)
await-queue timed_out written srv s unread = (refl, refl)

module _ (c : Conditions) (srv held : Server) (s : Session) (r : ResolvedRecipient)
    (has : s.txn.recipient ≡ some r) (h : Holds srv held) where
  awaited :
      (m : Message) (queued : Server)
      → Adds (job_of s r m.raw) (record held { data_bytes = held.data_bytes + length m.raw }) queued
      → length m.raw ≤ srv.config.body_max_bytes
      → IsAccounted srv s
          (await c.outcome c.reply_written
            (record queued { jobs_submitted = queued.jobs_submitted + 1 })
            s
            m.unread).server
  awaited m queued a room =
      let job = job_of s r m.raw in
      let left =
        await-queue c.outcome c.reply_written
          (record queued { jobs_submitted = queued.jobs_submitted + 1 }) s m.unread in
      let same : queued.queue ≡ srv.queue ++ job ∷ [] = rw (← h.queue) a.queue in
      record {
        slots = omega (
          arith,
          left.1,
          a.free,
          h.free,
          ap length left.0,
          ap length same,
          length-append srv.queue (job ∷ []),
        );
        jobs = inr (job, left.0 ∙ same, has, refl, room);
      }

  submit_message-IsAccounted :
      (m : Message)
      → length m.raw ≤ srv.config.body_max_bytes
      → IsAccounted srv s (submit_message c held s r m).server
  unfolding submit_message
  submit_message-IsAccounted m room =
      let job = job_of s r m.raw in
      let counted : Server = record held { data_bytes = held.data_bytes + length m.raw } in
      elim (Bool-cases m.oversized) [
        | inl big ↦ rw big (record { slots = ground (arith, h); jobs = inl h.queue })
        | inr fits ↦ elim (Option-cases (try_submit c.in_time job counted)) [
          | inl late ↦ rw (fits, late) (record { slots = ground (arith, h); jobs = inl h.queue })
          | inr (queued, e) ↦
              rw (fits, e) (awaited m queued (try_submit-Adds c.in_time job counted queued e) room)
        ]
      ]

  receive_message-IsAccounted :
      (lines : List Bytes) → IsAccounted srv s (receive_message c held s r lines).server
  unfolding receive_message
  receive_message-IsAccounted lines = elim (Bool-cases c.prompt_written) [
    | inr lost ↦ rw lost (record { slots = ground (arith, h); jobs = inl h.queue })
    | inl written ↦ elim (Option-cases (read_data held.config.body_max_bytes lines)) [
      | inl broken ↦ rw (written, broken) (record { slots = ground (arith, h); jobs = inl h.queue })
      | inr (m, e) ↦
          rw (written, e)
            (submit_message-IsAccounted m
              (rw h.config at (read_data-bound held.config.body_max_bytes lines e).0))
    ]
  ]

data_for-IsAccounted :
    (c : Conditions) (srv : Server) (s : Session) (o : Option ResolvedRecipient)
    (lines : List Bytes)
    → s.txn.recipient ≡ o
    → IsAccounted srv s (data_for o c srv s lines).server
unfolding data_for
data_for-IsAccounted c srv s none lines has = record { slots = refl; jobs = inl refl }
data_for-IsAccounted c srv s (some r) lines has = elim (Option-cases (acquire_slot srv)) [
  | inl full ↦ rw (full, data_for) (record { slots = refl; jobs = inl refl })
  | inr (held, e) ↦
      rw (e, data_for)
        (receive_message-IsAccounted c srv held s r has (acquire_slot-Holds srv held e) lines)
]

pub handle_data-IsAccounted :
    (c : Conditions) (srv : Server) (s : Session) (lines : List Bytes)
    → IsAccounted srv s (handle_data c srv s lines).server
unfolding handle_data
handle_data-IsAccounted c srv s lines = data_for-IsAccounted c srv s s.txn.recipient lines refl

submit_message-unread :
    (c : Conditions) (srv : Server) (s : Session) (r : ResolvedRecipient) (m : Message)
    → (submit_message c srv s r m).unread ≡ m.unread
unfolding submit_message
submit_message-unread c srv s r m = ground arith

receive_message-unread :
    (c : Conditions) (held : Server) (s : Session) (r : ResolvedRecipient) (lines : List Bytes)
    → length (receive_message c held s r lines).unread ≤ length lines
unfolding receive_message
receive_message-unread c held s r lines = elim (Bool-cases c.prompt_written) [
  | inr lost ↦ rw lost (omega arith)
  | inl written ↦ elim (Option-cases (read_data held.config.body_max_bytes lines)) [
    | inl broken ↦ rw (written, broken) (omega arith)
    | inr (m, found) ↦
        rw (written, found)
          (rw (submit_message-unread c held s r m)
            (omega (arith, read_data-bound held.config.body_max_bytes lines found)))
  ]
]

data_for-unread :
    (o : Option ResolvedRecipient) (c : Conditions) (srv : Server) (s : Session)
    (lines : List Bytes)
    → length (data_for o c srv s lines).unread ≤ length lines
unfolding data_for
data_for-unread none c srv s lines = omega arith
data_for-unread (some r) c srv s lines = elim (Option-cases (acquire_slot srv)) [
  | inl full ↦ rw (full, data_for) (omega arith)
  | inr (held, e) ↦ rw (e, data_for) (receive_message-unread c held s r lines)
]

-- What is left unread is no more than what there was.
pub handle_data-unread :
    (c : Conditions) (srv : Server) (s : Session) (lines : List Bytes)
    → length (handle_data c srv s lines).unread ≤ length lines
unfolding handle_data
handle_data-unread c srv s lines = data_for-unread s.txn.recipient c srv s lines

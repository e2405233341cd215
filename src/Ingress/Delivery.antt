-- ===== src/Ingress/Delivery.antt =====
-- `handleDATA` of api/ingress/server.go.
pub mod Queue
use far_mail.Base.{
  ℕ, zero, suc, ◌+◌, Bool, true, false, not, ◌||◌, List, [], ◌∷◌, ◌++◌, Option, none, some, ltb,
  ◌==◌, if◌then◌else◌, length,
}
use far_mail.Base.Eq.{bytes_beq}
use far_mail.Text.{Bytes, codes, to_lower, trim_space}
use far_mail.Ingress.Data.{Message, read_data}
use far_mail.Ingress.Server.{
  Job, Server, Status, delivery_ok, temp_fail, perm_fail, acquire_slot, submit_job,
}
use far_mail.Ingress.Snapshot.{ResolvedRecipient}
use far_mail.Ingress.Transaction.{
  no_transaction, Session, Reply, need_rcpt, queue_full, start_data, too_large, shutting_down,
  delivered, not_deliverable, temp_failure, delivery_timeout, Outcome, finished, timed_out,
  Conditions, Turn, answer, ended,
}

-- The slot that `handleDATA` holds goes back when it returns without having queued its job.
abbrev pub give_back : Server → Server
give_back srv = record srv { free = srv.free + 1 }

abbrev pub job_of : Session → ResolvedRecipient → Bytes → Job
job_of s r raw = record { resolved = r; envelope_sender = s.txn.mail_from; raw = raw }

abbrev status_reply : Status → Reply
status_reply delivery_ok = delivered
status_reply perm_fail = not_deliverable
status_reply temp_fail = temp_failure

-- The job is queued, and its result or its timeout comes.
await : Outcome → Bool → Server → Session → List Bytes → Turn
await (finished status) written srv s unread = record {
  server = srv;
  session = record s { txn = no_transaction };
  replies = start_data ∷ status_reply status ∷ [];
  unread = unread;
  going = written;
}
await timed_out written srv s unread = record {
  server = record srv { delivery_timeouts = srv.delivery_timeouts + 1 };
  session = s;
  replies = start_data ∷ delivery_timeout ∷ [];
  unread = unread;
  going = written;
}

abbrev not_queued : Server → Session → Reply → List Bytes → Bool → Turn
not_queued srv s reply unread written = record {
  server = give_back srv;
  session = s;
  replies = start_data ∷ reply ∷ [];
  unread = unread;
  going = written;
}

-- `submitJob` sends if the channel has room before the job's context ends.
abbrev pub try_submit : Bool → Job → Server → Option Server
try_submit true job srv = submit_job job srv
try_submit false job srv = none

submit_message : Conditions → Server → Session → ResolvedRecipient → Message → Turn
unfolding await
submit_message c srv s r m =
    if m.oversized
    then not_queued (record srv { oversized_messages = srv.oversized_messages + 1 }) s too_large
        m.unread c.reply_written
    else let counted : Server = record srv { data_bytes = srv.data_bytes + length m.raw } in
      elim (try_submit c.in_time (job_of s r m.raw) counted) [
        | none ↦
            not_queued (record counted { jobs_cancelled = counted.jobs_cancelled + 1 }) s
              shutting_down m.unread c.reply_written
        | some queued ↦
            await c.outcome c.reply_written
              (record queued { jobs_submitted = queued.jobs_submitted + 1 }) s m.unread
      ]

-- With a slot taken.
receive_message : Conditions → Server → Session → ResolvedRecipient → List Bytes → Turn
unfolding submit_message
receive_message c srv s r lines =
    if not c.prompt_written
    then ended (give_back srv) s []
    else elim (read_data srv.config.body_max_bytes lines) [
      | none ↦ ended (give_back srv) s (start_data ∷ [])
      | some m ↦ submit_message c srv s r m
    ]

data_for : Option ResolvedRecipient → Conditions → Server → Session → List Bytes → Turn
unfolding receive_message
data_for none c srv s lines = answer srv s need_rcpt lines c.reply_written
data_for (some r) c srv s lines = elim (acquire_slot srv) [
  | none ↦
      answer (record srv { queue_full = srv.queue_full + 1 }) s queue_full lines c.reply_written
  | some held ↦ receive_message c held s r lines
]

unfoldable pub handle_data : Conditions → Server → Session → List Bytes → Turn
unfolding data_for
handle_data c srv s lines = data_for s.txn.recipient c srv s lines

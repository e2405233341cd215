-- ===== src/Ingress/Transaction.antt =====
-- The state of an LMTP session of api/ingress/server.go, its replies, and `handleMAIL` and
-- `handleRCPT`. What the surroundings decide during one command (the snapshot in force, whether a
-- write succeeds, whether the job is queued before its context ends, and how its delivery ends) is
-- the record `Conditions`, one for each command.
use far_mail.Base.{Bool, true, false, not, List, [], ◌∷◌, Option, none, some, ◌==◌, if◌then◌else◌}
use far_mail.Text.{Bytes, codes, to_lower, trim_space}
use far_mail.Ingress.Address.{extract_path_arg}
use far_mail.Ingress.Server.{Server, Status}
use far_mail.Ingress.Snapshot.{Snapshot, ResolvedRecipient, resolve_recipient}

pub record Transaction : Type 0 where
  pub has_mail : Bool
  pub mail_from : Bytes
  pub recipient : Option ResolvedRecipient

abbrev pub no_transaction : Transaction
no_transaction = record { has_mail = false; mail_from = []; recipient = none }

pub record Session : Type 0 where
  pub helo : Bytes
  pub txn : Transaction

-- The lines that the server writes, in the order of the source.
pub data Reply : Type 0 where
  ready empty_command capabilities reset_ok noop_ok bye unrecognized : Reply
  bad_sender mail_ok : Reply
  need_mail too_many bad_recipient cache_unavailable unknown_domain rcpt_ok : Reply
  need_rcpt queue_full start_data too_large shutting_down : Reply
  delivered not_deliverable temp_failure delivery_timeout : Reply

pub data Outcome : Type 0 where
  finished : Status → Outcome
  timed_out : Outcome

pub record Conditions : Type 0 where
  pub snapshot : Option Snapshot
  pub capabilities_written : Bool
  pub prompt_written : Bool
  pub reply_written : Bool
  pub in_time : Bool
  pub outcome : Outcome

-- What one command leaves: the lines not read yet, and whether the session goes on.
pub record Turn : Type 0 where
  pub server : Server
  pub session : Session
  pub replies : List Reply
  pub unread : List Bytes
  pub going : Bool

unfoldable pub handle_mail : Bytes → Session → Session × Reply
handle_mail arg s = elim (extract_path_arg arg (codes "FROM:") true) [
  | none ↦ (s, bad_sender)
  | some path ↦ (
    record s {
      txn = record { has_mail = true; mail_from = to_lower (trim_space path); recipient = none };
    },
    mail_ok,
  )
]

-- Behind the checks of the transaction.
abbrev resolve_path : Option Snapshot → Bytes → Session → Session × Reply
resolve_path none path s = (s, cache_unavailable)
resolve_path (some snap) path s =
    if snap.default_account_id == 0
    then (s, cache_unavailable)
    else elim (resolve_recipient snap path) [
      | none ↦ (s, unknown_domain)
      | some resolved ↦ (record s { txn = record (s.txn) { recipient = some resolved } }, rcpt_ok)
    ]

abbrev add_recipient :
    Option ResolvedRecipient → Option Snapshot → Bytes → Session → Session × Reply
add_recipient (some r) snap arg s = (s, too_many)
add_recipient none snap arg s = elim (extract_path_arg arg (codes "TO:") false) [
  | none ↦ (s, bad_recipient)
  | some path ↦ resolve_path snap path s
]

unfoldable pub handle_rcpt : Option Snapshot → Bytes → Session → Session × Reply
handle_rcpt snap arg s =
    if not s.txn.has_mail then (s, need_mail) else add_recipient s.txn.recipient snap arg s

abbrev pub answer : Server → Session → Reply → List Bytes → Bool → Turn
answer srv s reply unread going = record {
  server = srv;
  session = s;
  replies = reply ∷ [];
  unread = unread;
  going = going;
}

abbrev pub ended : Server → Session → List Reply → Turn
ended srv s replies = record {
  server = srv;
  session = s;
  replies = replies;
  unread = [];
  going = false;
}

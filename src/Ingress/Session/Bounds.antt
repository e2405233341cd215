-- ===== src/Ingress/Session/Bounds.antt =====
-- What one command does to the queue and to the slots.
use far_mail.Base.{refl, inl, inr, List, ltb, length, Bool-cases}
use far_mail.Text.{Bytes}
use far_mail.Ingress.Address.{is_empty, split_command}
use far_mail.Ingress.Data.{trim_line_end}
use far_mail.Ingress.Delivery.Queue.{IsAccounted, handle_data-IsAccounted}
use far_mail.Ingress.Server.{Server}
use far_mail.Ingress.Session.{Verb, data_verb, verb_of, handle_verb, handle_line}
use far_mail.Ingress.Transaction.{Session, Conditions}

untouched : (srv : Server) (s : Session) → IsAccounted srv s srv
untouched srv s = record { slots = refl; jobs = inl refl }

module _ (arg : Bytes) (c : Conditions) (srv : Server) (s : Session) (lines : List Bytes) where
  verb-IsAccounted : (verb : Verb) → IsAccounted srv s (handle_verb verb arg c srv s lines).server
  unfolding handle_verb
  verb-IsAccounted data_verb = handle_data-IsAccounted c srv s lines
  verb-IsAccounted _ = untouched srv s

-- Whatever a client sends, one command loses no slot, and queues at most one job: with the
-- sender and the recipient of the session's transaction, and a message within the body limit.
pub handle_line-IsAccounted :
    (c : Conditions) (srv : Server) (s : Session) (read : Bytes) (lines : List Bytes)
    → IsAccounted srv s (handle_line c srv s read lines).server
unfolding handle_line
handle_line-IsAccounted c srv s read lines =
    let (cmd, arg) = split_command (trim_line_end read) in
    elim (Bool-cases (ltb srv.config.command_max_bytes (length read))) [
      | inl long ↦ rw long (untouched srv s)
      | inr fits ↦ elim (Bool-cases (is_empty (trim_line_end read))) [
        | inl blank ↦ rw (fits, blank) (untouched srv s)
        | inr full ↦ rw (fits, full) (verb-IsAccounted arg c srv s lines (verb_of cmd))
      ]
    ]

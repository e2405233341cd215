-- ===== src/Ingress/Session/Protocol.antt =====
-- The order of an LMTP transaction, as a table of phases, and that every command follows it.
use far_mail.Base.{
  ◌≡◌, ◌≢◌, refl, Bool, true, false, List, [], ◌∷◌, Option, none, some, arith, ltb, length,
  Bool-cases, inl, inr,
}
use far_mail.Text.{Bytes}
use far_mail.Ingress.Address.{is_empty, split_command}
use far_mail.Ingress.Data.{trim_line_end}
use far_mail.Ingress.Server.{Server}
use far_mail.Ingress.Session.{
  Verb, hello, mail, rcpt, data_verb, rset, noop, quit, other, verb_of, handle_verb, handle_line,
}
use far_mail.Ingress.Snapshot.{ResolvedRecipient}
use far_mail.Ingress.Transaction.{Transaction, Session, Reply, Turn, Conditions}

pub data Phase : Type 0 where
  idle mailed addressed : Phase

abbrev phase_of : Bool → Option ResolvedRecipient → Phase
phase_of has_mail (some r) = addressed
phase_of true none = mailed
phase_of false none = idle

abbrev pub phase : Transaction → Phase
phase t = phase_of t.has_mail t.recipient

-- A recipient is only there behind a sender.
abbrev pub IsOrdered : Transaction → Type 0
IsOrdered t = t.has_mail ≡ false → t.recipient ≡ none

-- When a reply that stands alone may be given, and the phase that it leaves.
abbrev pub Single : Phase → Reply → Phase → Type 0
Single p Reply.empty_command q = q ≡ p
Single p Reply.unrecognized q = q ≡ p
Single p Reply.noop_ok q = q ≡ p
Single p Reply.bye q = q ≡ p
Single p Reply.bad_sender q = q ≡ p
Single p Reply.capabilities q = q ≡ idle
Single p Reply.reset_ok q = q ≡ idle
Single p Reply.mail_ok q = q ≡ mailed
Single p Reply.need_mail q = (p ≡ idle) × (q ≡ idle)
Single p Reply.too_many q = (p ≡ addressed) × (q ≡ addressed)
Single p Reply.bad_recipient q = (p ≡ mailed) × (q ≡ mailed)
Single p Reply.cache_unavailable q = (p ≡ mailed) × (q ≡ mailed)
Single p Reply.unknown_domain q = (p ≡ mailed) × (q ≡ mailed)
Single p Reply.rcpt_ok q = (p ≡ mailed) × (q ≡ addressed)
Single p Reply.need_rcpt q = (p ≢ addressed) × (q ≡ p)
Single p Reply.queue_full q = (p ≡ addressed) × (q ≡ addressed)
Single p Reply.start_data q = (p ≡ addressed) × (q ≡ addressed)
Single p _ q = ⊥

-- The reply to a message that was read: a delivery result ends the transaction.
abbrev pub Final : Reply → Phase → Type 0
Final Reply.delivered q = q ≡ idle
Final Reply.not_deliverable q = q ≡ idle
Final Reply.temp_failure q = q ≡ idle
Final Reply.too_large q = q ≡ addressed
Final Reply.shutting_down q = q ≡ addressed
Final Reply.delivery_timeout q = q ≡ addressed
Final _ q = ⊥

abbrev pub Allows : Phase → List Reply → Phase → Type 0
Allows p [] q = q ≡ p
Allows p (r ∷ []) q = Single p r q
Allows p (r ∷ last ∷ []) q = (r ≡ Reply.start_data) × (p ≡ addressed) × Final last q
Allows p (r ∷ last ∷ more ∷ rs) q = ⊥

abbrev Follows : Session → Turn → Type 0
Follows s t = Allows (phase s.txn) t.replies (phase t.session.txn) × IsOrdered t.session.txn

module _ (arg : Bytes) (c : Conditions) (srv : Server) (s : Session) (lines : List Bytes)
    (v : IsOrdered s.txn) where
  mail-Follows : Follows s (handle_verb mail arg c srv s lines)
  unfolding handle_verb
  mail-Follows = ground arith

  rcpt-Follows : Follows s (handle_verb rcpt arg c srv s lines)
  unfolding handle_verb
  rcpt-Follows = ground arith

  data-Follows : Follows s (handle_verb data_verb arg c srv s lines)
  unfolding handle_verb
  data-Follows = ground arith

  verb-Follows : (verb : Verb) → Follows s (handle_verb verb arg c srv s lines)
  unfolding handle_verb
  verb-Follows hello = ground arith
  verb-Follows mail = mail-Follows
  verb-Follows rcpt = rcpt-Follows
  verb-Follows data_verb = data-Follows
  verb-Follows rset = ground arith
  verb-Follows noop = ground arith
  verb-Follows quit = ground arith
  verb-Follows other = ground arith

-- Every line that a client sends is answered as the table of phases allows, from the phase that
-- the session is in to the phase that it is in afterwards, and a recipient stays behind a sender.
pub handle_line-Allows :
    (c : Conditions) (srv : Server) (s : Session) (read : Bytes) (lines : List Bytes)
    → IsOrdered s.txn
    → let t = handle_line c srv s read lines in
      Allows (phase s.txn) t.replies (phase t.session.txn) × IsOrdered t.session.txn
unfolding handle_line
handle_line-Allows c srv s read lines v =
    let (cmd, arg) = split_command (trim_line_end read) in
    elim (Bool-cases (ltb srv.config.command_max_bytes (length read))) [
      | inl long ↦ rw long (refl, v)
      | inr fits ↦ elim (Bool-cases (is_empty (trim_line_end read))) [
        | inl blank ↦ rw (fits, blank) (refl, v)
        | inr full ↦ rw (fits, full) (verb-Follows arg c srv s lines v (verb_of cmd))
      ]
    ]

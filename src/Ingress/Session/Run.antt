-- ===== src/Ingress/Session/Run.antt =====
-- The session loop ends, after one round for each line at most.
use far_mail.Base.{
  ℕ, zero, suc, ◌+◌, ◌≤◌, ◌<◌, ◌≡◌, refl, inl, inr, true, List, [], ◌∷◌, ◌++◌, some, arith, ltb,
  length, Bool-cases,
}
use far_mail.Text.{Bytes}
use far_mail.Ingress.Address.{is_empty, split_command}
use far_mail.Ingress.Data.{trim_line_end}
use far_mail.Ingress.Delivery.Queue.{handle_data-unread}
use far_mail.Ingress.Server.{Server}
use far_mail.Ingress.Session.{
  Verb, data_verb, verb_of, handle_verb, handle_line, run_session, serve,
}
use far_mail.Ingress.Transaction.{no_transaction, Session, Reply, ready, Conditions}

verb-unread :
    (verb : Verb) (arg : Bytes) (c : Conditions) (srv : Server) (s : Session) (lines : List Bytes)
    → length (handle_verb verb arg c srv s lines).unread ≤ length lines
unfolding handle_verb
verb-unread data_verb arg c srv s lines = handle_data-unread c srv s lines
verb-unread _ arg c srv s lines = omega arith

handle_line-unread :
    (c : Conditions) (srv : Server) (s : Session) (read : Bytes) (lines : List Bytes)
    → length (handle_line c srv s read lines).unread ≤ length lines
unfolding handle_line
handle_line-unread c srv s read lines =
    let (cmd, arg) = split_command (trim_line_end read) in
    elim (Bool-cases (ltb srv.config.command_max_bytes (length read))) [
      | inl long ↦ rw long (omega arith)
      | inr fits ↦ elim (Bool-cases (is_empty (trim_line_end read))) [
        | inl blank ↦ rw (fits, blank) (omega arith)
        | inr full ↦ rw (fits, full) (verb-unread (verb_of cmd) arg c srv s lines)
      ]
    ]

run_session-total :
    (rounds : ℕ) (conditions : ℕ → Conditions) (i : ℕ) (srv : Server) (s : Session)
    (lines : List Bytes)
    → length lines < rounds
    → (replies : List Reply) × (run_session rounds conditions i srv s lines ≡ some replies)
unfolding run_session
run_session-total zero conditions i srv s lines enough = absurd (omega arith)
run_session-total (suc rounds) conditions i srv s [] enough = ([], refl)
run_session-total (suc rounds) conditions i srv s (line ∷ lines) enough =
    let t = handle_line (conditions i) srv s line lines in
    let (later, e) =
      run_session-total rounds conditions (i + 1) t.server t.session t.unread
        (omega (arith, handle_line-unread (conditions i) srv s line lines)) in
    elim (Bool-cases t.going) [
      | inl more ↦ (t.replies ++ later, ground arith)
      | inr stop ↦ (t.replies, ground arith)
    ]

-- A session over any lines, whatever the surroundings decide, ends: one more round than there are
-- lines is enough. Where the greeting is written it comes first.
pub serve-total :
    (rounds : ℕ) (conditions : ℕ → Conditions) (srv : Server) (lines : List Bytes)
    → length lines < rounds
    → (replies : List Reply) × (serve true rounds conditions srv lines ≡ some (ready ∷ replies))
unfolding serve
serve-total rounds conditions srv lines enough =
    let start : Session = record { helo = []; txn = no_transaction } in
    let (replies, e) = run_session-total rounds conditions 0 srv start lines enough in
    (replies, rw (e, serve) refl)

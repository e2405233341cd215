-- ===== src/Ingress/Session.antt =====
-- The LMTP session loop of api/ingress/server.go: `run` and `readCommandLine`.
pub mod Protocol
pub mod Bounds
pub mod Run
use far_mail.Base.{
  ℕ, zero, suc, ◌+◌, Bool, true, false, not, ◌||◌, List, [], ◌∷◌, ◌++◌, Option, none, some, ltb,
  ◌==◌, if◌then◌else◌, length,
}
use far_mail.Base.Eq.{bytes_beq}
use far_mail.Text.{Bytes, codes, to_lower, trim_space}
use far_mail.Ingress.Address.{is_empty, split_command}
use far_mail.Ingress.Data.{trim_line_end}
use far_mail.Ingress.Delivery.{handle_data}
use far_mail.Ingress.Server.{Server}
use far_mail.Ingress.Transaction.{
  no_transaction, Session, Reply, ready, empty_command, capabilities, reset_ok, noop_ok, bye,
  unrecognized, Conditions, Turn, handle_mail, handle_rcpt, answer, ended,
}

pub data Verb : Type 0 where
  hello mail rcpt data_verb rset noop quit other : Verb

-- The `switch` on the command word.
unfoldable pub verb_of : Bytes → Verb
verb_of cmd =
    if bytes_beq cmd (codes "LHLO") || bytes_beq cmd (codes "EHLO") || bytes_beq cmd (codes "HELO")
    then hello
    else if bytes_beq cmd (codes "MAIL")
    then mail
    else if bytes_beq cmd (codes "RCPT")
    then rcpt
    else if bytes_beq cmd (codes "DATA")
    then data_verb
    else if bytes_beq cmd (codes "RSET")
    then rset
    else if bytes_beq cmd (codes "NOOP")
    then noop
    else if bytes_beq cmd (codes "QUIT")
    then quit
    else other

abbrev say : Server → List Bytes → Session × Reply → Turn
say srv lines (s, reply) = answer srv s reply lines true

unfoldable pub handle_verb : Verb → Bytes → Conditions → Server → Session → List Bytes → Turn
unfolding handle_mail handle_rcpt handle_data
handle_verb hello arg c srv s lines =
    answer srv (record { helo = trim_space arg; txn = no_transaction }) capabilities lines
      c.capabilities_written
handle_verb mail arg c srv s lines = say srv lines (handle_mail arg s)
handle_verb rcpt arg c srv s lines = say srv lines (handle_rcpt c.snapshot arg s)
handle_verb data_verb arg c srv s lines = handle_data c srv s lines
handle_verb rset arg c srv s lines =
    answer srv (record s { txn = no_transaction }) reset_ok lines true
handle_verb noop arg c srv s lines = answer srv s noop_ok lines true
handle_verb quit arg c srv s lines = answer srv s bye lines false
handle_verb other arg c srv s lines = answer srv s unrecognized lines true

-- One round of the loop, for a line that was read. A line over the limit is a read error.
unfoldable pub handle_line : Conditions → Server → Session → Bytes → List Bytes → Turn
unfolding handle_verb verb_of
handle_line c srv s read lines =
    if ltb srv.config.command_max_bytes (length read)
    then ended srv s []
    else if is_empty (trim_line_end read)
    then answer srv s empty_command lines true
    else let (cmd, arg) = split_command (trim_line_end read) in
      handle_verb (verb_of cmd) arg c srv s lines

-- What the client has been told when the session ends. `none`: out of rounds.
pub run_session : ℕ → (ℕ → Conditions) → ℕ → Server → Session → List Bytes → Option (List Reply)
run_session zero conditions i srv s lines = none
run_session (suc rounds) conditions i srv s [] = some []
run_session (suc rounds) conditions i srv s (line ∷ lines) =
    let t = handle_line (conditions i) srv s line lines in
    let rest = run_session rounds conditions (i + 1) t.server t.session t.unread in
    if t.going
    then elim rest [ none ↦ none | some later ↦ some (t.replies ++ later) ]
    else some t.replies

-- `run`: the greeting, then the commands. A read fails where the lines end.
unfoldable pub serve : Bool → ℕ → (ℕ → Conditions) → Server → List Bytes → Option (List Reply)
unfolding run_session
serve false rounds conditions srv lines = some []
serve true rounds conditions srv lines =
    elim (run_session rounds conditions 0 srv (record { helo = []; txn = no_transaction }) lines) [
      | none ↦ none
      | some later ↦ some (ready ∷ later)
    ]

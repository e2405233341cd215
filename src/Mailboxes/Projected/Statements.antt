-- ===== src/Mailboxes/Projected/Statements.antt =====
-- The statements that touch messages, and the projections after any sequence of them.
use mathlib.Core.Option
use far_mail.Base.{
  ℕ, ◌≡◌, refl, sym, ◌∙◌, ap, subst, inl, inr, Bool, true, false, not, ◌&&◌, List, [], ◌∷◌, Option,
  none, some, arith, ◌==◌, ==_iff, if◌then◌else◌, keep, map, Bool-cases, Option-cases, if_elim,
}
use far_mail.Base.Table.{find, update, find-update, find-map, find-keep, find-key}
use far_mail.Text.{Bytes, to_lower, trim, trim_space, is_dot}
use far_mail.Store.{mem_ℕ}
use far_mail.Mailboxes.{
  Mailbox, Email, MailboxState, Post, IngressDelivery, state_key, mailbox_key, insert_email,
  upsert_mailbox,
}
use far_mail.Mailboxes.Deletion.{
  count_emails, newest, refresh_state, delete_emails, delete_mailboxes,
}
use far_mail.Mailboxes.Newest.{count_keep_split}
use far_mail.Extraction.{Markup}
use far_mail.Mailboxes.Deletion.{
  delete_email, delete_older, trim_emails, delete_mailbox, delete_expired_mailboxes, is_owned,
  is_asked_for, is_expired,
}
use far_mail.Mailboxes.Retention.{
  create_mailbox, set_keep_forever, retain_state, retain, new_expiry,
}
use far_mail.Mailboxes.Projected.{
  StateMatches, IsProjected, refresh-StateMatches, file_email-IsProjected,
}
use far_mail.Base.Int.{ℤ, pos_part}

refresh_state-key :
    (deleted kept : List Email) (st : MailboxState)
    → state_key (refresh_state deleted kept st) ≡ state_key st
unfolding refresh_state
refresh_state-key deleted kept st = ground arith

no_state_left :
    (p : Email → Bool) (mailbox : ℕ) (es : List Email)
    → StateMatches mailbox es none
    → StateMatches mailbox (keep p es) none
unfolding StateMatches
no_state_left p mailbox es h = omega (arith, h, count_keep_split p mailbox es)

delete_emails-IsProjected :
    (chosen : Email → Bool) (db : Post) → IsProjected db → IsProjected (delete_emails chosen db)
unfolding IsProjected delete_emails
delete_emails-IsProjected chosen db h mailbox =
    elim (Option-cases (find state_key mailbox db.states)) [
      | inl absent ↦
          subst (StateMatches mailbox left) (sym (read_back ∙ ap (Option.map refreshed) absent)) (
            no_state_left (λ e. not (chosen e)) mailbox db.emails
              (subst (StateMatches mailbox db.emails) absent (h mailbox)))
      | inr (st, found) ↦
          subst (StateMatches mailbox left) (sym (read_back ∙ ap (Option.map refreshed) found)) (
            refresh-StateMatches chosen mailbox db.emails st
              (find-key state_key mailbox db.states st found)
              (subst (StateMatches mailbox db.emails) found (h mailbox)))
    ]
  where
    left : List Email
    left = keep (λ e. not (chosen e)) db.emails

    refreshed : MailboxState → MailboxState
    refreshed = refresh_state (keep chosen db.emails) left

    read_back :
        find state_key mailbox (map refreshed db.states)
        ≡ Option.map refreshed (find state_key mailbox db.states)
    read_back =
        find-map state_key mailbox refreshed db.states
          (refresh_state-key (keep chosen db.emails) left)

-- The messages of the mailboxes that are left, and of the others.
count-kept_mailboxes :
    (q : ℕ → Bool) (mailbox : ℕ) (es : List Email)
    → count_emails mailbox (keep (λ e. q e.mailbox_id) es)
      ≡ (if q mailbox then count_emails mailbox es else 0)
unfolding count_emails
count-kept_mailboxes q mailbox [] = ground arith
count-kept_mailboxes q mailbox (e ∷ es) = elim (Bool-cases (e.mailbox_id == mailbox)) [
  | inl here ↦
      let same : e.mailbox_id ≡ mailbox = (==_iff e.mailbox_id mailbox).0 here in
      ground (arith, here, ap q same, count-kept_mailboxes q mailbox es)
  | inr there ↦ ground (arith, there, count-kept_mailboxes q mailbox es)
]

newest-kept_mailboxes :
    (q : ℕ → Bool) (mailbox : ℕ) (es : List Email)
    → newest mailbox (keep (λ e. q e.mailbox_id) es)
      ≡ (if q mailbox then newest mailbox es else none)
unfolding newest
newest-kept_mailboxes q mailbox [] = ground arith
newest-kept_mailboxes q mailbox (e ∷ es) = elim (Bool-cases (e.mailbox_id == mailbox)) [
  | inl here ↦
      let same : e.mailbox_id ≡ mailbox = (==_iff e.mailbox_id mailbox).0 here in
      ground (arith, here, ap q same, newest-kept_mailboxes q mailbox es)
  | inr there ↦ ground (arith, there, newest-kept_mailboxes q mailbox es)
]

kept_state :
    (q : ℕ → Bool) (mailbox : ℕ) (es : List Email) (o : Option MailboxState)
    → q mailbox ≡ true
    → StateMatches mailbox es o
    → StateMatches mailbox (keep (λ e. q e.mailbox_id) es) o
unfolding StateMatches
kept_state q mailbox es none on h = ground (arith, on, h, count-kept_mailboxes q mailbox es)
kept_state q mailbox es (some st) on h = (
  ground (arith, on, h.0, count-kept_mailboxes q mailbox es),
  ground (arith, on, h.1, newest-kept_mailboxes q mailbox es),
)

no_state_outside :
    (q : ℕ → Bool) (mailbox : ℕ) (es : List Email)
    → q mailbox ≡ false
    → StateMatches mailbox (keep (λ e. q e.mailbox_id) es) none
unfolding StateMatches
no_state_outside q mailbox es off = ground (arith, off, count-kept_mailboxes q mailbox es)

delete_mailboxes-IsProjected :
    (chosen : Mailbox → Bool) (db : Post)
    → IsProjected db
    → IsProjected (delete_mailboxes chosen db)
unfolding IsProjected delete_mailboxes
delete_mailboxes-IsProjected chosen db h mailbox =
    subst (StateMatches mailbox (keep (λ e. left e.mailbox_id) db.emails))
      (sym (find-keep state_key mailbox left db.states))
      (if_elim (StateMatches mailbox (keep (λ e. left e.mailbox_id) db.emails)) (left mailbox) _ _
        (λ on. kept_state left mailbox db.emails (find state_key mailbox db.states) on (h mailbox))
        (λ off. no_state_outside left mailbox db.emails off))
  where
    left : ℕ → Bool
    left id = not (mem_ℕ id (map mailbox_key (keep chosen db.mailboxes)))

retained-StateMatches :
    (keep_forever : Bool) (expiry : Option ℕ) (mailbox : ℕ) (es : List Email)
    (o : Option MailboxState)
    → StateMatches mailbox es o
    → StateMatches mailbox es (Option.map (retain_state keep_forever expiry) o)
unfolding StateMatches
retained-StateMatches keep_forever expiry mailbox es none h = h
retained-StateMatches keep_forever expiry mailbox es (some st) h = h

states_retained :
    (keep_forever : Bool) (expiry : Option ℕ) (id : ℕ) (mailboxes : List Mailbox) (db : Post)
    → IsProjected db
    → IsProjected (record db {
      mailboxes = mailboxes;
      states = update state_key id (retain_state keep_forever expiry) db.states;
    })
unfolding IsProjected
states_retained keep_forever expiry id mailboxes db h mailbox =
    subst (StateMatches mailbox db.emails)
      (sym
        (find-update state_key mailbox id (retain_state keep_forever expiry) db.states (λ r. refl)))
      (if_elim (StateMatches mailbox db.emails) (id == mailbox) _ _
        (λ here.
          let same : id ≡ mailbox = (==_iff id mailbox).0 here in
          retained-StateMatches keep_forever expiry mailbox db.emails (find state_key id db.states)
            (subst (λ k. StateMatches mailbox db.emails (find state_key k db.states)) (sym same)
              (h mailbox)))
        (λ there. h mailbox))

-- A statement of the ingress, of the API or of the maintenance loops, with what it draws from
-- elsewhere.
pub data Statement : Type 0 where
  deliver : Markup → ℕ → ℕ → ℕ → IngressDelivery → Statement
  create : ℕ → ℕ → ℕ → Option ℕ → Bytes → ℕ → Bytes → ℤ → Statement
  retention : ℕ → ℕ → ℕ → Option ℕ → Bool → ℤ → Statement
  drop_email : ℕ → ℕ → ℕ → Option ℕ → Statement
  drop_older : ℕ → ℤ → Statement
  trim_to : ℤ → Statement
  drop_mailbox : ℕ → ℕ → Option ℕ → Statement
  drop_expired : ℕ → Statement

-- What a statement that is refused leaves is what was there.
abbrev or_same : Post → Option Post → Post
or_same db none = db
or_same db (some after) = after

unfoldable pub execute : Statement → Post → Post
execute (deliver markup now mailbox_id email_id delivery) db =
    or_same db (insert_email markup now mailbox_id email_id delivery db)
execute (create now id account creator address domain full_address ttl) db =
    or_same db (create_mailbox now id account creator address domain full_address ttl db)
execute (retention now id account token keep_forever ttl) db =
    or_same db (set_keep_forever now id account token keep_forever ttl db)
execute (drop_email id mailbox account token) db =
    or_same db (delete_email id mailbox account token db)
execute (drop_older now max_age) db = delete_older now max_age db
execute (trim_to max_count) db = trim_emails max_count db
execute (drop_mailbox id account token) db = or_same db (delete_mailbox id account token db)
execute (drop_expired now) db = delete_expired_mailboxes now db

-- The statements in order, the last one first, on an empty database.
unfoldable pub execute_all : List Statement → Post
execute_all [] = record { mailboxes = []; emails = []; states = [] }
execute_all (statement ∷ before) = execute statement (execute_all before)

or_same-keeps :
    (db : Post) (o : Option Post)
    → IsProjected db
    → ((after : Post) → o ≡ some after → IsProjected after)
    → IsProjected (or_same db o)
or_same-keeps db none h k = h
or_same-keeps db (some after) h k = k after refl

insert_email-IsProjected :
    (markup : Markup) (now mailbox_id email_id : ℕ) (delivery : IngressDelivery) (db after : Post)
    → IsProjected db
    → insert_email markup now mailbox_id email_id delivery db ≡ some after
    → IsProjected after
unfolding insert_email
insert_email-IsProjected markup now mailbox_id email_id delivery db after h ok =
    let local = to_lower (trim_space delivery.local_part) in
    let recipient = to_lower (trim_space delivery.recipient) in
    let domain = to_lower (trim is_dot (trim_space delivery.domain_name)) in
    let at = upsert_mailbox now mailbox_id delivery local recipient db.mailboxes in
    subst IsProjected (ground (arith, ok))
      (file_email-IsProjected markup now email_id domain delivery at.0 at.1 db h)

create_mailbox-IsProjected :
    (now id account : ℕ) (creator : Option ℕ) (address : Bytes) (domain : ℕ) (full_address : Bytes)
    (ttl : ℤ) (db after : Post)
    → IsProjected db
    → create_mailbox now id account creator address domain full_address ttl db ≡ some after
    → IsProjected after
unfolding create_mailbox IsProjected
create_mailbox-IsProjected now id account creator address domain full_address ttl db after h ok
      mailbox =
    let emails : db.emails ≡ after.emails = ground (arith, ok) in
    let states : db.states ≡ after.states = ground (arith, ok) in
    subst (λ es. StateMatches mailbox es (find state_key mailbox after.states)) emails
      (subst (λ sts. StateMatches mailbox db.emails (find state_key mailbox sts)) states
        (h mailbox))

set_keep_forever-IsProjected :
    (now id account : ℕ) (token : Option ℕ) (keep_forever : Bool) (ttl : ℤ) (db after : Post)
    → IsProjected db
    → set_keep_forever now id account token keep_forever ttl db ≡ some after
    → IsProjected after
unfolding set_keep_forever
set_keep_forever-IsProjected now id account token keep_forever ttl db after h ok =
    let expiry = new_expiry now keep_forever ttl in
    subst IsProjected (ground (arith, ok)) (
      states_retained keep_forever expiry id
        (update mailbox_key id (retain keep_forever expiry) db.mailboxes) db h)

delete_email-IsProjected :
    (id mailbox account : ℕ) (token : Option ℕ) (db after : Post)
    → IsProjected db
    → delete_email id mailbox account token db ≡ some after
    → IsProjected after
unfolding delete_email
delete_email-IsProjected id mailbox account token db after h ok =
    subst IsProjected (ground (arith, ok))
      (delete_emails-IsProjected (is_asked_for id mailbox account token db) db h)

delete_mailbox-IsProjected :
    (id account : ℕ) (token : Option ℕ) (db after : Post)
    → IsProjected db
    → delete_mailbox id account token db ≡ some after
    → IsProjected after
unfolding delete_mailbox
delete_mailbox-IsProjected id account token db after h ok =
    subst IsProjected (ground (arith, ok))
      (delete_mailboxes-IsProjected (λ m. m.id == id && is_owned account token m) db h)

execute-IsProjected : (s : Statement) (db : Post) → IsProjected db → IsProjected (execute s db)
unfolding execute delete_older trim_emails delete_expired_mailboxes
execute-IsProjected (deliver markup now mailbox_id email_id delivery) db h =
    or_same-keeps db _ h
      (λ after. insert_email-IsProjected markup now mailbox_id email_id delivery db after h)
execute-IsProjected (create now id account creator address domain full_address ttl) db h =
    or_same-keeps db _ h (λ after.
      create_mailbox-IsProjected now id account creator address domain full_address ttl db after h)
execute-IsProjected (retention now id account token keep_forever ttl) db h =
    or_same-keeps db _ h
      (λ after. set_keep_forever-IsProjected now id account token keep_forever ttl db after h)
execute-IsProjected (drop_email id mailbox account token) db h =
    or_same-keeps db _ h (λ after. delete_email-IsProjected id mailbox account token db after h)
execute-IsProjected (drop_older now max_age) db h =
    if_elim IsProjected (pos_part max_age == 0) _ _ (λ _. h) (λ _. delete_emails-IsProjected _ db h)
execute-IsProjected (trim_to max_count) db h =
    if_elim IsProjected (pos_part max_count == 0) _ _ (λ _. h)
      (λ _. delete_emails-IsProjected _ db h)
execute-IsProjected (drop_mailbox id account token) db h =
    or_same-keeps db _ h (λ after. delete_mailbox-IsProjected id account token db after h)
execute-IsProjected (drop_expired now) db h = delete_mailboxes-IsProjected (is_expired now) db h

empty-IsProjected : IsProjected (execute_all [])
unfolding execute_all IsProjected StateMatches count_emails
empty-IsProjected mailbox = refl

-- After any sequence of deliveries, creations, changes of retention and deletions, a mailbox
-- without a projection has no message, and a projection has the number of the mailbox's messages
-- and the newest of them, or none.
pub execute_all-IsProjected : (statements : List Statement) → IsProjected (execute_all statements)
unfolding execute_all
execute_all-IsProjected [] = empty-IsProjected
execute_all-IsProjected (s ∷ before) =
    execute-IsProjected s (execute_all before) (execute_all-IsProjected before)

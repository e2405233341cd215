-- ===== src/Mailboxes/Projected.antt =====
-- The projection of every mailbox is right after each statement on its messages.
pub mod Statements
use mathlib.Core.Option
use far_mail.Base.{
  ℕ, ◌+◌, ◌-◌, ◌≡◌, ◌≢◌, refl, sym, ◌∙◌, ap, subst, inl, inr, Bool, true, false, not, ◌&&◌, ◌||◌,
  List, [], ◌∷◌, ◌++◌, Option, none, some, arith, ◌==◌, ==_iff, ltb, if◌then◌else◌, keep, map,
  Bool-cases, Option-cases, if_elim,
}
use far_mail.Base.Table.{
  find, update, find-replace, find-append, find-append_other, find-map, find-keep, find-key,
}
use far_mail.Text.{Bytes}
use far_mail.Store.{mem_ℕ}
use far_mail.Mailboxes.{
  Mailbox, Email, Latest, MailboxState, Post, IngressDelivery, state_key, mailbox_key, new_latest,
  no_latest, supersedes, project, put_state, file_email, insert_email, new_email,
}
use far_mail.Mailboxes.Deletion.{
  count_emails, newest, latest_of, has_id, refresh_state, delete_emails, delete_mailboxes,
}
use far_mail.Mailboxes.Newest.{
  count_keep_split, has_id-newest, newest-keep, newest-keep_others, newest-none,
}
use far_mail.Extraction.{Markup}

-- A mailbox without a projection has no message; a projection has the number of messages, and the
-- newest one.
unfoldable pub StateMatches : ℕ → List Email → Option MailboxState → Type 0
StateMatches mailbox es none = count_emails mailbox es ≡ 0
StateMatches mailbox es (some st) =
    (st.email_count ≡ count_emails mailbox es) × (st.latest ≡ latest_of (newest mailbox es))

unfoldable pub IsProjected : Post → Type 0
unfolding StateMatches
IsProjected db = (mailbox : ℕ) → StateMatches mailbox db.emails (find state_key mailbox db.states)

project-StateMatches :
    (domain_name : Bytes) (m : Mailbox) (e : Email) (es : List Email) (before : Option MailboxState)
    → e.mailbox_id ≡ m.id
    → StateMatches m.id es before
    → StateMatches m.id (e ∷ es) (some (project domain_name m e before))
unfolding StateMatches project count_emails newest supersedes
project-StateMatches domain_name m e es none own h =
    (ground (arith, own, h), ground (arith, own, newest-none m.id es h))
project-StateMatches domain_name m e es (some st) own h = (
  ground (arith, own, h.0),
  (elim (Option-cases (newest m.id es)) [
    | inl before ↦ ground (arith, own, h.1, before)
    | inr (f, at) ↦ ground (arith, own, h.1, at)
  ]),
)

pub refresh-StateMatches :
    (p : Email → Bool) (mailbox : ℕ) (es : List Email) (st : MailboxState)
    → st.mailbox_id ≡ mailbox
    → StateMatches mailbox es (some st)
    → StateMatches mailbox
        (keep (λ e. not (p e)) es)
        (some (refresh_state (keep p es) (keep (λ e. not (p e)) es) st))
unfolding StateMatches refresh_state
refresh-StateMatches p mailbox es st own h = (
  ground (arith, own, h.0, count_keep_split p mailbox es),
  (elim (Option-cases (newest mailbox es)) [
    | inl before ↦ ground (arith, own, h.1, before, newest-keep_others p mailbox es)
    | inr (f, at) ↦ ground (
      arith,
      own,
      h.1,
      at,
      newest-keep_others p mailbox es,
      has_id-newest p mailbox es f at,
      newest-keep (λ e. not (p e)) mailbox es f at,
    )
  ]),
)

find-put_state :
    (mailbox : ℕ) (new : MailboxState) (states : List MailboxState)
    → find state_key mailbox (put_state new (find state_key new.mailbox_id states) states)
      ≡ (if new.mailbox_id == mailbox then some new else find state_key mailbox states)
find-put_state mailbox new states = elim (Bool-cases (new.mailbox_id == mailbox)) [
  | inl here ↦
      let same : new.mailbox_id ≡ mailbox = (==_iff new.mailbox_id mailbox).0 here in
      elim (Option-cases (find state_key new.mailbox_id states)) [
        | inl absent ↦
            ground
              (arith, here, same, absent, find-append state_key new.mailbox_id states new absent)
        | inr (st, found) ↦ ground (arith, here, same, found, replaced)
      ]
  | inr there ↦ elim (Option-cases (find state_key new.mailbox_id states)) [
    | inl absent ↦
        ground (arith, there, absent, find-append_other state_key mailbox states new there)
    | inr (st, found) ↦ ground (arith, there, found, replaced)
  ]
]
  where
    replaced : find state_key mailbox (update state_key new.mailbox_id (λ st. new) states) ≡ (
        if new.mailbox_id == mailbox
        then Option.map (λ st. new) (find state_key new.mailbox_id states)
        else find state_key mailbox states)
    replaced = find-replace state_key mailbox new.mailbox_id new states refl

newest-others :
    (mailbox : ℕ) (e : Email) (es : List Email)
    → (e.mailbox_id == mailbox) ≡ false
    → (o : Option MailboxState) → StateMatches mailbox es o
    → StateMatches mailbox (e ∷ es) o
unfolding StateMatches count_emails newest
newest-others mailbox e es other none h = ground (arith, other, h)
newest-others mailbox e es other (some st) h =
    (ground (arith, other, h.0), ground (arith, other, h.1))

-- The projection of a mailbox with a new message, and those of the others.
pub file_email-IsProjected :
    (markup : Markup) (now email_id : ℕ) (domain_name : Bytes) (delivery : IngressDelivery)
    (m : Mailbox) (mailboxes : List Mailbox) (db : Post)
    → IsProjected db
    → IsProjected (file_email markup now email_id domain_name delivery (m, mailboxes) db)
unfolding IsProjected file_email project
file_email-IsProjected markup now email_id domain_name delivery m mailboxes db h mailbox =
    subst (StateMatches mailbox (e ∷ db.emails)) (sym (find-put_state mailbox new db.states)) (
      if_elim (StateMatches mailbox (e ∷ db.emails)) (m.id == mailbox) _ _
        (λ here.
          subst (λ k. StateMatches k (e ∷ db.emails) (some new)) ((==_iff m.id mailbox).0 here)
            (project-StateMatches domain_name m e db.emails (find state_key m.id db.states) refl
              (h m.id)))
        (λ there.
          newest-others mailbox e db.emails there (find state_key mailbox db.states) (h mailbox)))
  where
    e : Email
    e = new_email markup now email_id m.id delivery

    new : MailboxState
    new = project domain_name m e (find state_key m.id db.states)

-- ===== src/Mailboxes/Deletion.antt =====
-- The deletions of messages and mailboxes in api/store/postgres.go: `DeleteEmail`,
-- `DeleteEmailsOlderThan` and `TrimEmailsToMaxCount`, which all end in
-- `deleteEmailsAndRefreshProjection`, and `DeleteMailbox` and `DeleteExpiredMailboxes`.
use far_mail.Base.{
  ℕ, ◌+◌, ◌-◌, Bool, true, false, not, ◌&&◌, ◌||◌, List, [], ◌∷◌, Option, none, some, ◌==◌, ltb,
  leb, if◌then◌else◌, length, keep, map,
}
use far_mail.Base.Int.{ℤ, pos_part}
use far_mail.Base.Table.{find}
use far_mail.Store.{mem_ℕ}
use far_mail.Mailboxes.{
  Mailbox, Email, Latest, MailboxState, Post, mailbox_key, new_latest, no_latest,
}

-- How many messages of a mailbox a table has.
unfoldable pub count_emails : ℕ → List Email → ℕ
count_emails mailbox [] = 0
count_emails mailbox (e ∷ es) = (if e.mailbox_id == mailbox then 1 else 0) + count_emails mailbox es

-- The order `received_at DESC, id DESC`.
abbrev pub comes_after : Email → Email → Bool
comes_after e f = ltb f.received_at e.received_at || e.received_at == f.received_at && ltb f.id e.id

abbrev pub better : Email → Option Email → Email
better e none = e
better e (some f) = if comes_after e f then e else f

-- The message of a mailbox that comes first in that order.
unfoldable pub newest : ℕ → List Email → Option Email
newest mailbox [] = none
newest mailbox (e ∷ es) =
    if e.mailbox_id == mailbox then some (better e (newest mailbox es)) else newest mailbox es

abbrev pub latest_of : Option Email → Latest
latest_of none = no_latest
latest_of (some e) = new_latest e

abbrev pub has_id : ℕ → List Email → Bool
has_id id [] = false
has_id id (e ∷ es) = e.id == id || has_id id es

abbrev is_gone : Option ℕ → List Email → Bool
is_gone none deleted = true
is_gone (some id) deleted = has_id id deleted

-- The update of a projection, if messages of its mailbox are deleted: the count is less, and the
-- latest message is chosen again where it is deleted.
unfoldable pub refresh_state : List Email → List Email → MailboxState → MailboxState
refresh_state deleted kept st = if count_emails st.mailbox_id deleted == 0 then st else record st {
  latest =
      if is_gone st.latest.email_id deleted
      then latest_of (newest st.mailbox_id kept)
      else st.latest;
  email_count = st.email_count - count_emails st.mailbox_id deleted;
}

-- `deleteEmailsAndRefreshProjection`, for the condition of the statement that it is given.
unfoldable pub delete_emails : (Email → Bool) → Post → Post
delete_emails chosen db =
    let deleted = keep chosen db.emails in
    let kept = keep (λ e. not (chosen e)) db.emails in
    record db { emails = kept; states = map (refresh_state deleted kept) db.states }

-- `m.creator_token_id = $n`, where the caller is bound to a token.
abbrev owns : Option ℕ → Option ℕ → Bool
owns none creator = true
owns (some token) none = false
owns (some token) (some creator) = creator == token

-- The caller's account, and its token if it is bound to one.
abbrev pub is_owned : ℕ → Option ℕ → Mailbox → Bool
is_owned account token m = m.account_id == account && owns token m.creator_token_id

abbrev owned_mailbox : ℕ → Option ℕ → Option Mailbox → Bool
owned_mailbox account token none = false
owned_mailbox account token (some m) = is_owned account token m

-- The condition of `DeleteEmail`
abbrev pub is_asked_for : ℕ → ℕ → ℕ → Option ℕ → Post → Email → Bool
is_asked_for id mailbox account token db e =
    e.id == id
    && e.mailbox_id == mailbox
    && owned_mailbox account token (find mailbox_key mailbox db.mailboxes)

-- `DeleteEmail`: `none` where nothing is deleted.
unfoldable pub delete_email : ℕ → ℕ → ℕ → Option ℕ → Post → Option Post
delete_email id mailbox account token db =
    let chosen = is_asked_for id mailbox account token db in
    if length (keep chosen db.emails) == 0 then none else some (delete_emails chosen db)

-- `DeleteEmailsOlderThan`
unfoldable pub delete_older : ℕ → ℤ → Post → Post
delete_older now max_age db =
    if pos_part max_age == 0
    then db
    else delete_emails (λ e. ltb (e.received_at + pos_part max_age) now) db

-- The place of a message in the order: how many messages come before it.
abbrev pub rank : Email → List Email → ℕ
rank e [] = 0
rank e (f ∷ es) = (if comes_after f e then 1 else 0) + rank e es

-- `TrimEmailsToMaxCount`
unfoldable pub trim_emails : ℤ → Post → Post
trim_emails max_count db =
    if pos_part max_count == 0
    then db
    else delete_emails (λ e. leb (pos_part max_count) (rank e db.emails)) db

-- Mailboxes are deleted with their messages and projections.
unfoldable pub delete_mailboxes : (Mailbox → Bool) → Post → Post
delete_mailboxes chosen db =
    let ids = map mailbox_key (keep chosen db.mailboxes) in
    record {
      mailboxes = keep (λ m. not (chosen m)) db.mailboxes;
      emails = keep (λ e. not (mem_ℕ e.mailbox_id ids)) db.emails;
      states = keep (λ st. not (mem_ℕ st.mailbox_id ids)) db.states;
    }

-- `DeleteMailbox`: `none` where there is no such mailbox.
unfoldable pub delete_mailbox : ℕ → ℕ → Option ℕ → Post → Option Post
delete_mailbox id account token db =
    let chosen = λ (m : Mailbox). m.id == id && is_owned account token m in
    if length (keep chosen db.mailboxes) == 0 then none else some (delete_mailboxes chosen db)

abbrev pub is_expired : ℕ → Mailbox → Bool
is_expired now m = not m.keep_forever && (elim m.expires_at [ none ↦ false | some at ↦ ltb at now ])

-- `DeleteExpiredMailboxes`
unfoldable pub delete_expired_mailboxes : ℕ → Post → Post
delete_expired_mailboxes now = delete_mailboxes (is_expired now)

-- ===== src/Mailboxes/Retention.antt =====
-- `CreateMailbox` and `SetMailboxKeepForever` of api/store/postgres.go.
use far_mail.Base.{ℕ, Bool, false, [], ◌∷◌, ◌++◌, Option, none, some, if◌then◌else◌}
use far_mail.Base.Int.{ℤ}
use far_mail.Base.Table.{find, update}
use far_mail.Text.{Bytes}
use far_mail.Mailboxes.{
  Mailbox, MailboxState, Post, mailbox_key, state_key, expiry_in, find_address,
}
use far_mail.Mailboxes.Deletion.{is_owned}

-- `CreateMailbox`, with the id that the database assigns: `none` where the address is taken, which
-- the unique column refuses.
unfoldable pub create_mailbox : ℕ → ℕ → ℕ → Option ℕ → Bytes → ℕ → Bytes → ℤ → Post → Option Post
create_mailbox now id account creator address domain full_address ttl_minutes db =
    elim (find_address full_address db.mailboxes) [
      | some m ↦ none
      | none ↦
          let m : Mailbox = record {
            id = id;
            account_id = account;
            creator_token_id = creator;
            address = address;
            domain_id = domain;
            full_address = full_address;
            expires_at = expiry_in now ttl_minutes;
            keep_forever = false;
          } in
          some (record db { mailboxes = db.mailboxes ++ m ∷ [] })
    ]

abbrev pub new_expiry : ℕ → Bool → ℤ → Option ℕ
new_expiry now keep_forever ttl_minutes = if keep_forever then none else expiry_in now ttl_minutes

abbrev pub retain : Bool → Option ℕ → Mailbox → Mailbox
retain keep_forever expiry m = record m { keep_forever = keep_forever; expires_at = expiry }

abbrev pub retain_state : Bool → Option ℕ → MailboxState → MailboxState
retain_state keep_forever expiry st = record st { keep_forever = keep_forever; expires_at = expiry }

-- `SetMailboxKeepForever`: `none` where the caller has no such mailbox. The second statement, whose
-- error is ignored, is taken to succeed.
unfoldable pub set_keep_forever : ℕ → ℕ → ℕ → Option ℕ → Bool → ℤ → Post → Option Post
set_keep_forever now id account token keep_forever ttl_minutes db =
    elim (find mailbox_key id db.mailboxes) [
      | none ↦ none
      | some m ↦
          let expiry = new_expiry now keep_forever ttl_minutes in
          if is_owned account token m
          then some (record db {
            mailboxes = update mailbox_key id (retain keep_forever expiry) db.mailboxes;
            states = update state_key id (retain_state keep_forever expiry) db.states;
          })
          else none
    ]

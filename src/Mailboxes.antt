-- ===== src/Mailboxes.antt =====
-- The mailboxes, their messages and the projection `mailbox_state`, which keeps for each mailbox the
-- number of its messages and the newest one: `InsertEmailResolved` of api/store/ingress.go, and the
-- deletions of api/store/postgres.go. Each is one statement of the database, and one step here. A
-- row of a deleted mailbox goes with it, as the schema's cascades have it.
pub mod Deletion
pub mod Retention
pub mod Newest
pub mod Projected
use far_mail.Base.{
  ℕ, zero, suc, ◌+◌, ◌-◌, ◌*◌, Bool, true, false, not, ◌&&◌, ◌||◌, List, [], ◌∷◌, ◌++◌, Option,
  none, some, ◌==◌, ltb, leb, if◌then◌else◌, length, keep, map,
}
use far_mail.Base.Int.{ℤ, pos, pos_part}
use far_mail.Base.Eq.{bytes_beq}
use far_mail.Base.Table.{find, update}
use far_mail.Text.{Bytes, codes, is_dot, to_lower, trim, trim_space}
use far_mail.Ingress.Address.{is_empty}
use far_mail.Extraction.{Markup, CodeSource, extract_code, extract_link}

pub record Mailbox : Type 0 where
  pub id : ℕ
  pub account_id : ℕ
  pub creator_token_id : Option ℕ
  pub address : Bytes
  pub domain_id : ℕ
  pub full_address : Bytes
  pub expires_at : Option ℕ
  pub keep_forever : Bool

pub record Email : Type 0 where
  pub id : ℕ
  pub mailbox_id : ℕ
  pub sender : Bytes
  pub subject : Bytes
  pub body_text : Bytes
  pub body_html : Bytes
  pub raw_message : Bytes
  pub size_bytes : ℤ
  pub has_attachments : Bool
  pub parsed_code : Option (Bytes × CodeSource)
  pub parsed_link : Option Bytes
  pub received_at : ℕ

-- The columns `latest_*` of a projection.
pub record Latest : Type 0 where
  pub email_id : Option ℕ
  pub sender : Bytes
  pub subject : Bytes
  pub code : Option (Bytes × CodeSource)
  pub link : Option Bytes
  pub received_at : Option ℕ

pub record MailboxState : Type 0 where
  pub mailbox_id : ℕ
  pub account_id : ℕ
  pub domain_id : ℕ
  pub domain_name : Bytes
  pub full_address : Bytes
  pub latest : Latest
  pub email_count : ℕ
  pub expires_at : Option ℕ
  pub keep_forever : Bool

pub record Post : Type 0 where
  pub mailboxes : List Mailbox
  pub emails : List Email
  pub states : List MailboxState

abbrev pub state_key : MailboxState → ℕ
state_key st = st.mailbox_id

abbrev pub mailbox_key : Mailbox → ℕ
mailbox_key m = m.id

-- store.IngressDelivery
pub record IngressDelivery : Type 0 where
  pub recipient : Bytes
  pub local_part : Bytes
  pub domain_name : Bytes
  pub account_id : ℕ
  pub domain_id : ℕ
  pub mailbox_ttl_minutes : ℤ
  pub sender : Bytes
  pub subject : Bytes
  pub body_text : Bytes
  pub body_html : Bytes
  pub has_attachments : Bool
  pub raw : Bytes
  pub size_bytes : ℤ

-- `NOW() + make_interval(mins => $5)`, and no expiry for a lifetime that is not positive.
abbrev pub expiry_in : ℕ → ℤ → Option ℕ
expiry_in now minutes =
    if pos_part minutes == 0 then none else some (now + pos_part minutes * 60_000_000_000)

abbrev is_over : ℕ → Option ℕ → Bool
is_over now none = true
is_over now (some at) = leb at now

-- The mailbox of a delivery that is there already: its lifetime begins again once it is over.
unfoldable pub renew : ℕ → ℤ → Mailbox → Mailbox
renew now minutes m =
    if m.keep_forever
    then m
    else (if pos_part minutes == 0 || is_over now m.expires_at
        then record m { expires_at = expiry_in now minutes }
        else m)

abbrev pub find_address : Bytes → List Mailbox → Option Mailbox
find_address address [] = none
find_address address (m ∷ ms) =
    if bytes_beq m.full_address address then some m else find_address address ms

abbrev pub new_latest : Email → Latest
new_latest e = record {
  email_id = some e.id;
  sender = e.sender;
  subject = e.subject;
  code = e.parsed_code;
  link = e.parsed_link;
  received_at = some e.received_at;
}

abbrev pub no_latest : Latest
no_latest = record {
  email_id = none;
  sender = [];
  subject = [];
  code = none;
  link = none;
  received_at = none;
}

abbrev pub id_above : ℕ → Option ℕ → Bool
id_above id none = false
id_above id (some other) = ltb other id

-- The condition of the upsert: the new message comes after the one that is the latest.
unfoldable pub supersedes : Email → Latest → Bool
supersedes e latest = elim latest.received_at [
  | none ↦ true
  | some at ↦ ltb at e.received_at || e.received_at == at && id_above e.id latest.email_id
]

-- The row of the projection for a new message of a mailbox.
unfoldable pub project : Bytes → Mailbox → Email → Option MailboxState → MailboxState
project domain_name m e before = record {
  mailbox_id = m.id;
  account_id = m.account_id;
  domain_id = m.domain_id;
  domain_name = domain_name;
  full_address = m.full_address;
  latest = elim before [
    | none ↦ new_latest e
    | some st ↦ if supersedes e st.latest then new_latest e else st.latest
  ];
  email_count = elim before [ none ↦ 1 | some st ↦ st.email_count + 1 ];
  expires_at = m.expires_at;
  keep_forever = m.keep_forever;
}

abbrev pub put_state : MailboxState → Option MailboxState → List MailboxState → List MailboxState
put_state new none states = states ++ new ∷ []
put_state new (some old) states = update state_key new.mailbox_id (λ st. new) states

-- The mailbox of a delivery, and the table with it: `fresh` is the id of a new row.
unfoldable pub upsert_mailbox :
    ℕ → ℕ → IngressDelivery → Bytes → Bytes → List Mailbox → Mailbox × List Mailbox
upsert_mailbox now fresh delivery address recipient mailboxes =
    elim (find_address recipient mailboxes) [
      | some m ↦ (
        renew now delivery.mailbox_ttl_minutes m,
        update mailbox_key m.id (renew now delivery.mailbox_ttl_minutes) mailboxes,
      )
      | none ↦
          let m : Mailbox = record {
            id = fresh;
            account_id = delivery.account_id;
            creator_token_id = none;
            address = address;
            domain_id = delivery.domain_id;
            full_address = recipient;
            expires_at = expiry_in now delivery.mailbox_ttl_minutes;
            keep_forever = false;
          } in
          (m, mailboxes ++ m ∷ [])
    ]

abbrev newline : Bytes
newline = 10 ∷ []

abbrev joined_text : IngressDelivery → Bytes
joined_text d = trim_space (d.subject ++ newline ++ d.body_text ++ newline ++ d.body_html)

abbrev new_email : Markup → ℕ → ℕ → ℕ → IngressDelivery → Email
new_email markup now id mailbox d = record {
  id = id;
  mailbox_id = mailbox;
  sender = d.sender;
  subject = d.subject;
  body_text = d.body_text;
  body_html = d.body_html;
  raw_message = d.raw;
  size_bytes = if pos_part d.size_bytes == 0 then pos (length d.raw) else d.size_bytes;
  has_attachments = d.has_attachments;
  parsed_code = extract_code markup (joined_text d);
  parsed_link = extract_link markup (joined_text d);
  received_at = now;
}

-- The statement of `InsertEmailResolved`: the row of the message, and its projection.
unfoldable pub file_email :
    Markup → ℕ → ℕ → Bytes → IngressDelivery → Mailbox × List Mailbox → Post → Post
file_email markup now email_id domain_name delivery (m, mailboxes) db =
    let e = new_email markup now email_id m.id delivery in
    let before = find state_key m.id db.states in
    record {
      mailboxes = mailboxes;
      emails = e ∷ db.emails;
      states = put_state (project domain_name m e before) before db.states;
    }

-- `InsertEmailResolved` at a time, with the ids of a new mailbox and of the message: `none` where
-- the delivery is refused.
unfoldable pub insert_email : Markup → ℕ → ℕ → ℕ → IngressDelivery → Post → Option Post
insert_email markup now mailbox_id email_id delivery db =
    let recipient = to_lower (trim_space delivery.recipient) in
    let local = to_lower (trim_space delivery.local_part) in
    let domain_name = to_lower (trim is_dot (trim_space delivery.domain_name)) in
    if is_empty recipient
      || is_empty local
      || is_empty domain_name
      || delivery.account_id == 0
      || delivery.domain_id == 0
    then none
    else some (
        file_email markup now email_id domain_name delivery
          (upsert_mailbox now mailbox_id delivery local recipient db.mailboxes) db)

-- ===== src/Tests/Mailboxes.antt =====
-- The mailboxes on concrete inputs.
use far_mail.Base.{◌≡◌, refl, false, List, [], ◌∷◌, none, map}
use far_mail.Base.Int.{pos}
use far_mail.Text.{Bytes, codes, trim}
use far_mail.Extraction.{Markup}
use far_mail.Mailboxes.{
  IngressDelivery, MailboxState, renew, supersedes, project, upsert_mailbox, file_email,
  insert_email,
}
use far_mail.Mailboxes.Deletion.{count_emails, newest, refresh_state, delete_emails, delete_email}
use far_mail.Mailboxes.Projected.{IsProjected}
use far_mail.Mailboxes.Projected.Statements.{
  Statement, deliver, drop_email, execute, execute_all, execute_all-IsProjected,
}

abbrev plain : Markup
plain = record {
  unescape = λ s. s;
  blank_styles = λ s. s;
  blank_scripts = λ s. s;
  blank_tags = λ s. s;
  find_links = λ s.
      codes "http://a.io/logo.png" ∷ codes "http://a.io/x." ∷ codes "http://a.io/verify?t=1)." ∷ [];
}

abbrev delivery : Bytes → IngressDelivery
delivery subject = record {
  recipient = codes "Ann@example.com";
  local_part = codes "Ann";
  domain_name = codes "Example.com.";
  account_id = 7;
  domain_id = 3;
  mailbox_ttl_minutes = pos 30;
  sender = codes "bob@b.org";
  subject = subject;
  body_text = [];
  body_html = [];
  has_attachments = false;
  raw = [];
  size_bytes = pos 0;
}

-- Two messages of one mailbox, of which the newer one is deleted.
abbrev statements : List Statement
statements =
    drop_email 12 1 7 none
    ∷ deliver plain 200 2 12 (delivery (codes "second"))
    ∷ deliver plain 100 1 11 (delivery (codes "first"))
    ∷ []

first_again :
    map (λ (st : MailboxState). st.latest.subject) (execute_all statements).states
    ≡ codes "first" ∷ []
unfolding execute_all execute insert_email upsert_mailbox renew file_email project supersedes
    delete_email delete_emails refresh_state count_emails newest trim
first_again = refl

execute_all-IsProjected_example : IsProjected (execute_all statements)
execute_all-IsProjected_example = execute_all-IsProjected statements

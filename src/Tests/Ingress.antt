-- ===== src/Tests/Ingress.antt =====
-- The LMTP ingress on concrete inputs.
use far_mail.Base.{
  ℕ, ◌+◌, ◌≤◌, ◌<◌, ◌≡◌, refl, inl, inr, Bool, true, false, List, [], ◌∷◌, ◌++◌, Option, none, some,
  arith, length, map,
}
use far_mail.Base.Int.{pos, negsuc}
use far_mail.Base.Assoc.{lookup, insert}
use far_mail.Text.{Bytes, codes, trim}
use far_mail.Ingress.Address.{split_address, split_command, extract_path_arg}
use far_mail.Ingress.Address.Parts.{IsDomainName, split_address-IsDomainName}
use far_mail.Ingress.Data.{read_data}
use far_mail.Ingress.Data.RoundTrip.{joined, stuff, read_data-stuff, read_data-over}
use far_mail.Ingress.Delivery.Queue.{IsAccounted}
use far_mail.Ingress.Server.{Wanted, Job, Server, delivery_ok, new_server, acquire_slot, submit_job}
use far_mail.Ingress.Server.Slots
use far_mail.Ingress.Server.Slots.{System, Reach, Step}
use far_mail.Ingress.Session.{handle_line, serve}
use far_mail.Ingress.Session.Bounds.{handle_line-IsAccounted}
use far_mail.Ingress.Session.Protocol.{Allows, IsOrdered, phase, handle_line-Allows}
use far_mail.Ingress.Session.Run.{serve-total}
use far_mail.Ingress.Snapshot.{
  IngressSnapshot, IngressDomain, SnapshotDomain, ResolvedRecipient, normalize_domain, recipient_at,
  refresh_snapshot, resolve_recipient,
}
use far_mail.Ingress.Snapshot.Labels.{LiesUnder}
use far_mail.Ingress.Snapshot.Longest.{IsLongest, resolve_recipient-IsLongest}
use far_mail.Ingress.Snapshot.Refresh.{refreshed_recipient}
use far_mail.Ingress.Transaction.{Session, Reply, finished, Conditions, Turn}

abbrev loaded : IngressSnapshot
loaded = record {
  domains =
      (record { id = 3; domain = codes "Example.COM." })
      ∷ (record { id = 4; domain = codes "mail.example.com" })
      ∷ (record { id = 0; domain = codes "zero.net" })
      ∷ [];
  default_account_id = 7;
  mailbox_ttl_minutes = 30;
}

abbrev address : Bytes
address = codes " <User@a.Mail.example.com> "

abbrev recipient : ResolvedRecipient
recipient = record {
  address = codes "user@a.mail.example.com";
  local_part = codes "user";
  domain_name = codes "a.mail.example.com";
  domain_id = 4;
  account_id = 7;
  mailbox_ttl_minutes = 30;
}

resolve_address : resolve_recipient (refresh_snapshot loaded) address ≡ some recipient
unfolding resolve_recipient refresh_snapshot split_address trim lookup insert
resolve_address = refl

split_address-address : split_address address ≡ some (codes "user", codes "a.mail.example.com")
unfolding split_address trim
split_address-address = refl

resolve_recipient-IsLongest_example :
    (matched : SnapshotDomain) × IsLongest
      (refresh_snapshot loaded).domains_by_name
      (codes "a.mail.example.com")
      matched
    × (split_address address ≡ some (codes "user", codes "a.mail.example.com"))
    × (recipient
        ≡ recipient_at
            (refresh_snapshot loaded)
            (codes "user")
            (codes "a.mail.example.com")
            matched)
resolve_recipient-IsLongest_example =
    resolve_recipient-IsLongest (refresh_snapshot loaded) address recipient resolve_address

split_address-IsDomainName_example : IsDomainName (codes "a.mail.example.com")
split_address-IsDomainName_example = split_address-IsDomainName address split_address-address

abbrev example_domain : IngressDomain
example_domain = record { id = 3; domain = codes "Example.COM." }

normalized : normalize_domain example_domain.domain ≡ codes "example.com"
unfolding trim
normalized = refl

under_example : LiesUnder (normalize_domain example_domain.domain) (codes "a.mail.example.com")
unfolding trim
under_example = inr (codes "a.mail", refl)

refreshed_recipient_example :
    (r : ResolvedRecipient) × (e : IngressDomain) × (resolve_recipient
        (refresh_snapshot loaded)
        address
      ≡ some r)
    × far_mail.Base.Elem e loaded.domains
    × (r.domain_id ≡ e.id)
    × (r.domain_name ≡ codes "a.mail.example.com")
    × LiesUnder (normalize_domain e.domain) r.domain_name
unfolding trim
refreshed_recipient_example =
    refreshed_recipient loaded address example_domain (inl refl) (omega arith, λ e. cc)
      split_address-address under_example

abbrev wanted : Wanted
wanted = record {
  addr = [];
  hostname = codes "mx.example.com";
  body_max_bytes = pos 20;
  store_body_max_bytes = pos 100;
  workers = negsuc 0;
  queue_size = pos 2;
  delivery_timeout = pos 0;
  cache_refresh = pos 0;
  session_timeout = pos 0;
  command_max_bytes = pos 0;
}

-- The conditions under which everything goes well.
abbrev calm : Conditions
calm = record {
  snapshot = some (refresh_snapshot loaded);
  capabilities_written = true;
  prompt_written = true;
  reply_written = true;
  in_time = true;
  outcome = finished delivery_ok;
}

abbrev dialogue : List Bytes
dialogue =
    codes "LHLO me\r\n"
    ∷ codes "RCPT TO:<user@example.com>\r\n"
    ∷ codes "mail from:<>\r\n"
    ∷ codes "RCPT TO:<user@a.example.com>\r\n"
    ∷ codes "DATA\r\n"
    ∷ codes "hi\r\n"
    ∷ codes "..x\r\n"
    ∷ codes ".\r\n"
    ∷ codes "QUIT\r\n"
    ∷ codes "NOOP\r\n"
    ∷ []

serve-dialogue :
    serve true 11 (λ _. calm) (new_server wanted) dialogue
    ≡ some (
        Reply.ready ∷ Reply.capabilities ∷ Reply.need_mail ∷ Reply.mail_ok ∷ Reply.rcpt_ok
        ∷ Reply.start_data ∷ Reply.delivered ∷ Reply.bye ∷ [])
unfolding serve handle_line new_server acquire_slot submit_job split_command extract_path_arg
    read_data resolve_recipient refresh_snapshot split_address trim lookup insert
serve-dialogue = refl

serve-total_example :
    (replies : List Reply) × (serve true 11 (λ _. calm) (new_server wanted) dialogue
      ≡ some (Reply.ready ∷ replies))
serve-total_example = serve-total 11 (λ _. calm) (new_server wanted) dialogue (omega arith)

abbrev addressed : Session
addressed = record {
  helo = codes "me";
  txn = record { has_mail = true; mail_from = []; recipient = some recipient };
}

abbrev data_turn : Turn
data_turn = handle_line calm (new_server wanted) addressed (codes "DATA\r\n") (codes "hi\n" ∷ [])

handle_line-Allows_example :
    Allows (phase addressed.txn) data_turn.replies (phase data_turn.session.txn)
    × IsOrdered data_turn.session.txn
handle_line-Allows_example =
    handle_line-Allows calm (new_server wanted) addressed (codes "DATA\r\n") (codes "hi\n" ∷ [])
      (λ e. cc)

handle_line-IsAccounted_example :
    IsAccounted
      (new_server wanted)
      addressed
      (handle_line calm
        (new_server wanted)
        addressed
        (codes "DATA\r\n")
        (codes "hi\n" ∷ codes ".\n" ∷ [])).server
handle_line-IsAccounted_example =
    handle_line-IsAccounted calm (new_server wanted) addressed (codes "DATA\r\n")
      (codes "hi\n" ∷ codes ".\n" ∷ [])

abbrev message : List Bytes
message = codes "hi\r\n" ∷ codes ".\r\n" ∷ codes "..x\r\n" ∷ []

read_data-stuff_example :
    read_data 20 (map stuff message ++ codes ".\r\n" ∷ codes "QUIT\r\n" ∷ [])
    ≡ some (record { raw = joined message; oversized = false; unread = codes "QUIT\r\n" ∷ [] })
read_data-stuff_example =
    read_data-stuff 20 message (codes ".\r\n") (codes "QUIT\r\n" ∷ []) refl (omega arith)

read_data-over_example :
    (raw : Bytes) × (read_data 5 ((codes "hi\r\n" ∷ codes "..x\r\n" ∷ []) ++ codes ".\r\n" ∷ [])
      ≡ some (record { raw = raw; oversized = true; unread = [] }))
    × (length raw ≤ 5)
read_data-over_example =
    read_data-over 5 (codes "hi\r\n" ∷ codes "..x\r\n" ∷ []) (codes ".\r\n") [] (refl, (refl, tt))
      refl (omega arith)

abbrev job : Job
job = record { resolved = recipient; envelope_sender = []; raw = codes "hi\r\n" }

-- A server whose session holds one of the two slots.
abbrev one_taken : Server
one_taken = record (new_server wanted) { free = 1; in_flight_high_water = 1 }

abbrev one_reading : System
one_reading = record { server = one_taken; reading = 1; working = 0 }

Reach-one_reading : Reach (Slots.started wanted) one_reading
unfolding new_server acquire_slot
Reach-one_reading = Reach.next Reach.here (Step.acquire one_taken refl refl)

started-Reach-IsBalanced_example : Slots.IsBalanced one_reading
started-Reach-IsBalanced_example = Slots.started-Reach-IsBalanced wanted Reach-one_reading

-- ===== src/Ingress/Events.antt =====
-- The fan-out of new mail in api/ingress/events.go. The map of the subscriptions is a list; a call
-- that holds the lock is one step. What a closed channel still buffers is left out.
pub mod Scoped
use far_mail.Base.{
  ℕ, ◌+◌, Bool, true, false, not, ◌&&◌, ◌||◌, List, [], ◌∷◌, ◌++◌, ◌==◌, ltb, if◌then◌else◌, length,
  map, keep,
}
use far_mail.Text.{Bytes}

-- model.MailboxEmailEvent, with the id of its message
pub record MailboxEvent : Type 0 where
  pub mailbox_id : ℕ
  pub full_address : Bytes
  pub email_id : ℕ

-- emailSubscription, with the id it is filed under and what its channel buffers.
pub record Subscription : Type 0 where
  pub id : ℕ
  pub mailbox_id : ℕ
  pub events : List MailboxEvent

pub record Hub : Type 0 where
  pub subscribers : List Subscription
  pub next_subscriber : ℕ
  pub events_dropped : ℕ

abbrev pub channel_size : ℕ
channel_size = 16

-- `Subscribe`: a mailbox, or all of them for the nil id
unfoldable pub subscribe : ℕ → Hub → Hub
subscribe mailbox hub =
    let id = hub.next_subscriber + 1 in
    record hub {
      next_subscriber = id;
      subscribers = hub.subscribers ++ record { id = id; mailbox_id = mailbox; events = [] } ∷ [];
    }

-- The function that `Subscribe` returns
unfoldable pub unsubscribe : ℕ → Hub → Hub
unsubscribe id hub = record hub { subscribers = keep (λ s. not (s.id == id)) hub.subscribers }

abbrev pub is_for : MailboxEvent → Subscription → Bool
is_for event s = s.mailbox_id == 0 || s.mailbox_id == event.mailbox_id

abbrev pub has_space : Subscription → Bool
has_space s = ltb (length s.events) channel_size

-- The send of one round, which never waits.
unfoldable pub offer : MailboxEvent → Subscription → Subscription
offer event s =
    if is_for event s && has_space s then record s { events = s.events ++ event ∷ [] } else s

unfoldable pub count_dropped : MailboxEvent → List Subscription → ℕ
count_dropped event [] = 0
count_dropped event (s ∷ subscribers) =
    (if is_for event s && not (has_space s) then 1 else 0) + count_dropped event subscribers

-- `publishEmailEvent`
unfoldable pub publish : MailboxEvent → Hub → Hub
publish event hub = record hub {
  subscribers = map (offer event) hub.subscribers;
  events_dropped = hub.events_dropped + count_dropped event hub.subscribers;
}

abbrev pub without_first : List MailboxEvent → List MailboxEvent
without_first [] = []
without_first (event ∷ events) = events

-- A receive of the holder of a subscription.
unfoldable pub take_one : Subscription → Subscription
take_one s = record s { events = without_first s.events }

unfoldable pub receive_event : ℕ → Hub → Hub
receive_event id hub = record hub {
  subscribers = map (λ s. if s.id == id then take_one s else s) hub.subscribers;
}

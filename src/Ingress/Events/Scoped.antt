-- ===== src/Ingress/Events/Scoped.antt =====
-- What the subscriptions of api/ingress/events.go may hold.
use far_mail.Base.{
  ℕ, ◌≤◌, ◌≡◌, Bool, true, ◌&&◌, List, [], ◌∷◌, arith, ◌==◌, if_elim, length, map, keep, All,
  All-append, length-append,
}
use far_mail.Ingress.Events.{
  MailboxEvent, Subscription, Hub, channel_size, subscribe, unsubscribe, is_for, has_space, offer,
  publish, take_one, receive_event, without_first,
}

-- At most the channel's size, and events of the mailbox that is subscribed to.
pub record IsScoped (s : Subscription) : Type 0 where
  pub bound : length s.events ≤ channel_size
  pub own : All (λ e. is_for e s ≡ true) s.events

offer-IsScoped : (event : MailboxEvent) (s : Subscription) → IsScoped s → IsScoped (offer event s)
unfolding offer
offer-IsScoped event s h =
    if_elim IsScoped (is_for event s && has_space s) _ _
      (λ sent. record {
        bound = ground (arith, sent, length-append s.events (event ∷ []));
        own =
            All-append (λ e. is_for e s ≡ true) s.events (event ∷ []) h.own
              (ground (arith, sent), tt);
      })
      (λ _. h)

without_first-le : (events : List MailboxEvent) → length (without_first events) ≤ length events
without_first-le [] = omega arith
without_first-le (event ∷ events) = omega arith

without_first-own :
    (s : Subscription) (events : List MailboxEvent)
    → All (λ e. is_for e s ≡ true) events
    → All (λ e. is_for e s ≡ true) (without_first events)
without_first-own s [] h = tt
without_first-own s (event ∷ events) h = h.1

take_one-IsScoped : (s : Subscription) → IsScoped s → IsScoped (take_one s)
unfolding take_one
take_one-IsScoped s h = record {
  bound = omega (arith, h.bound, without_first-le s.events);
  own = without_first-own s s.events h.own;
}

All-map :
    (f : Subscription → Subscription) (ss : List Subscription)
    → ((s : Subscription) → IsScoped s → IsScoped (f s))
    → All IsScoped ss
    → All IsScoped (map f ss)
All-map f [] k h = tt
All-map f (s ∷ ss) k h = (k s h.0, All-map f ss k h.1)

All-keep :
    (p : Subscription → Bool) (ss : List Subscription) → All IsScoped ss → All IsScoped (keep p ss)
All-keep p [] h = tt
All-keep p (s ∷ ss) h =
    if_elim (All IsScoped) (p s) _ _ (λ _. (h.0, All-keep p ss h.1)) (λ _. All-keep p ss h.1)

pub data Action : Type 0 where
  join : ℕ → Action
  leave : ℕ → Action
  arrive : MailboxEvent → Action
  fetch : ℕ → Action

unfoldable pub act : Action → Hub → Hub
act (join mailbox) hub = subscribe mailbox hub
act (leave id) hub = unsubscribe id hub
act (arrive event) hub = publish event hub
act (fetch id) hub = receive_event id hub

-- The actions, the last one first, on no subscription.
unfoldable pub act_all : List Action → Hub
act_all [] = record { subscribers = []; next_subscriber = 0; events_dropped = 0 }
act_all (a ∷ before) = act a (act_all before)

act-IsScoped :
    (a : Action) (hub : Hub) → All IsScoped hub.subscribers → All IsScoped (act a hub).subscribers
unfolding act subscribe unsubscribe publish receive_event
act-IsScoped (join mailbox) hub h =
    All-append IsScoped hub.subscribers _ h (record { bound = omega arith; own = tt }, tt)
act-IsScoped (leave id) hub h = All-keep _ hub.subscribers h
act-IsScoped (arrive event) hub h = All-map (offer event) hub.subscribers (offer-IsScoped event) h
act-IsScoped (fetch id) hub h =
    All-map _ hub.subscribers
      (λ s k. if_elim IsScoped (s.id == id) _ _ (λ _. take_one-IsScoped s k) (λ _. k)) h

-- After any sequence of subscriptions, their ends, arrivals of mail and receives: every subscription
-- buffers at most 16 events, and each of them is of its mailbox, or it is subscribed to all.
pub act_all-IsScoped : (actions : List Action) → All IsScoped (act_all actions).subscribers
unfolding act_all
act_all-IsScoped [] = tt
act_all-IsScoped (a ∷ before) = act-IsScoped a (act_all before) (act_all-IsScoped before)

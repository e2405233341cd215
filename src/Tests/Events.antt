-- ===== src/Tests/Events.antt =====
-- The fan-out of new mail on concrete inputs.
use far_mail.Base.{◌≡◌, refl, All, List, [], ◌∷◌, length, map, ℕ}
use far_mail.Text.{codes}
use far_mail.Ingress.Events.{
  MailboxEvent, Subscription, subscribe, unsubscribe, offer, publish, take_one, receive_event,
}
use far_mail.Ingress.Events.Scoped.{
  Action, join, leave, arrive, fetch, act, act_all, IsScoped, act_all-IsScoped,
}

abbrev event : ℕ → MailboxEvent
event mailbox = record {
  mailbox_id = mailbox;
  full_address = codes "ann@example.com";
  email_id = 3;
}

-- Of three subscriptions, one for mailbox 5, one for all mail and one that has ended, the first two
-- get mail for mailbox 5, and the second one gets mail for mailbox 6.
abbrev actions : List Action
actions = fetch 2 ∷ arrive (event 6) ∷ arrive (event 5) ∷ leave 3 ∷ join 5 ∷ join 0 ∷ join 5 ∷ []

buffered : map (λ (s : Subscription). length s.events) (act_all actions).subscribers ≡ 1 ∷ 1 ∷ []
unfolding act_all act subscribe unsubscribe publish offer receive_event take_one
buffered = refl

act_all-IsScoped_example : All IsScoped (act_all actions).subscribers
act_all-IsScoped_example = act_all-IsScoped actions

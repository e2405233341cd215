-- ===== src/Usage/Held.antt =====
-- The bounds and the order of the events in the recorder, kept by each of its operations.
use mathlib.Core.List.{append_assoc}
use far_mail.Base.{
  ℕ, ◌+◌, ◌≤◌, ◌<◌, ◌≡◌, refl, sym, ◌∙◌, ap, subst, inl, inr, Bool, true, false, not, ◌&&◌, List,
  [], ◌∷◌, ◌++◌, some, arith, leb, if◌then◌else◌, length, max, length-append, Bool-cases, if_elim,
}
use far_mail.Base.Int.{ℤ}
use far_mail.Usage.{
  Event, Phase, stopped, Recorder, batch_size, new_recorder, has_room, send, flush, receive,
  take_or_end, drain, is_early, written, not_written, take_event, ended, continued,
}

-- What holds of a recorder whose queue took the events `sent`.
pub record Holds (sent : List Event) (r : Recorder) : Type 0 where
  pub in_order : sent ≡ r.stored ++ (r.pending ++ r.queue)
  pub counted : r.enqueued ≡ length sent
  pub flushed : r.flushed ≡ length r.stored
  pub queue_bound : length r.queue ≤ r.capacity
  pub pending_bound : length r.pending ≤ batch_size
  pub depth : r.pending_depth ≡ length r.pending
  pub high_water : r.queue_high_water ≤ r.capacity

written-Holds : (sent : List Event) (r : Recorder) → Holds sent r → Holds sent (written r)
written-Holds sent r h = record {
  in_order = h.in_order ∙ sym (append_assoc r.stored r.pending r.queue);
  counted = h.counted;
  flushed = omega (arith, h.flushed, length-append r.stored r.pending);
  queue_bound = h.queue_bound;
  pending_bound = omega arith;
  depth = refl;
  high_water = h.high_water;
}

not_written-Holds :
    (sent : List Event) (now : ℕ) (r : Recorder) → Holds sent r → Holds sent (not_written now r)
not_written-Holds sent now r h = record {
  in_order = h.in_order;
  counted = h.counted;
  flushed = h.flushed;
  queue_bound = h.queue_bound;
  pending_bound = h.pending_bound;
  depth = h.depth;
  high_water = h.high_water;
}

-- What `flush` may do, and when it says that nothing is pending.
flush-cases :
    (P : Recorder × Bool → Type 0) (force : Bool) (now : ℕ) (accepted : Bool) (r : Recorder)
    → (r.pending ≡ [] → P (r, true))
    → P (r, false)
    → P (written r, true)
    → P (not_written now r, false)
    → P (flush force now accepted r)
unfolding flush
flush-cases P force now accepted r idle early done refused = split r.pending refl
  where
    split : (pending : List Event) → r.pending ≡ pending → P (flush force now accepted r)
    split [] e =
        subst P {x = (r, true)} {y = flush force now accepted r} (ground (arith, e)) (idle e)
    split (event ∷ events) e = elim (Bool-cases (not force && is_early now r.retry_after)) [
      | inl wait ↦
          subst P {x = (r, false)} {y = flush force now accepted r} (ground (arith, e, wait)) early
      | inr due ↦ elim (Bool-cases accepted) [
        | inl ok ↦
            subst P {x = (written r, true)} {y = flush force now accepted r}
              (ground (arith, e, due, ok)) done
        | inr bad ↦
            subst P {x = (not_written now r, false)} {y = flush force now accepted r}
              (ground (arith, e, due, bad)) refused
      ]
    ]

pub flush-Holds :
    (sent : List Event) (force : Bool) (now : ℕ) (accepted : Bool) (r : Recorder)
    → Holds sent r
    → Holds sent (flush force now accepted r).0
flush-Holds sent force now accepted r h =
    flush-cases (λ x. Holds sent x.0) force now accepted r (λ _. h) h (written-Holds sent r h)
      (not_written-Holds sent now r h)

take_event-Holds :
    (sent : List Event) (event : Event) (events : List Event) (r : Recorder)
    → r.queue ≡ event ∷ events
    → length r.pending < batch_size
    → Holds sent r
    → Holds sent (take_event event events r)
take_event-Holds sent event events r queue room h = record {
  in_order =
      h.in_order
      ∙ ap (λ q. r.stored ++ (r.pending ++ q)) queue
      ∙ ap (λ l. r.stored ++ l) (sym (append_assoc r.pending (event ∷ []) events));
  counted = h.counted;
  flushed = h.flushed;
  queue_bound = omega (arith, h.queue_bound, ap length queue);
  pending_bound = omega (arith, room, length-append r.pending (event ∷ []));
  depth = omega (arith, length-append r.pending (event ∷ []));
  high_water = h.high_water;
}

joined : (sent a b c d : List Event) → sent ≡ a ++ (b ++ c) → sent ++ d ≡ a ++ (b ++ (c ++ d))
joined sent a b c d h =
    ap (λ l. l ++ d) h ∙ append_assoc a (b ++ c) d ∙ ap (λ l. a ++ l) (append_assoc b c d)

pub send-Holds :
    (sent : List Event) (event : Event) (r : Recorder)
    → Holds sent r
    → Holds (if has_room r then sent ++ event ∷ [] else sent) (send event r)
unfolding send
send-Holds sent event r h = elim (Bool-cases (has_room r)) [
  | inl room ↦
      subst (λ (x : List Event × Recorder). Holds x.0 x.1)
        {x = (
          sent ++ event ∷ [],
          record r {
            queue = r.queue ++ event ∷ [];
            enqueued = r.enqueued + 1;
            queue_high_water = max r.queue_high_water (length r.queue + 1);
          },
        )}
        {y = (if has_room r then sent ++ event ∷ [] else sent, send event r)} (ground (arith, room))
        (record {
          in_order = joined sent r.stored r.pending r.queue (event ∷ []) h.in_order;
          counted = omega (arith, h.counted, length-append sent (event ∷ []));
          flushed = h.flushed;
          queue_bound = ground (arith, room, length-append r.queue (event ∷ []));
          pending_bound = h.pending_bound;
          depth = h.depth;
          high_water = ground (arith, room, h.high_water);
        })
  | inr full ↦
      subst (λ (x : List Event × Recorder). Holds x.0 x.1)
        {x = (
          sent,
          record r {
            dropped = r.dropped + 1;
            fallback =
                if event.count_token_usage then r.fallback ++ event.token_id ∷ [] else r.fallback;
          },
        )}
        {y = (if has_room r then sent ++ event ∷ [] else sent, send event r)} (ground (arith, full))
        (record {
          in_order = h.in_order;
          counted = h.counted;
          flushed = h.flushed;
          queue_bound = h.queue_bound;
          pending_bound = h.pending_bound;
          depth = h.depth;
          high_water = h.high_water;
        })
]

pub receive-Holds :
    (sent : List Event) (now : ℕ) (accepted : Bool) (r after : Recorder)
    → receive now accepted r ≡ some after
    → Holds sent r
    → Holds sent after
unfolding receive
receive-Holds sent now accepted r after is h = split r.queue refl
  where
    split : (queue : List Event) → r.queue ≡ queue → Holds sent after
    split [] e = absurd (ground (arith, is, e))
    split (event ∷ events) e =
        let taken = take_event event events r in
        elim (Bool-cases (leb batch_size (length r.pending))) [
          | inl full ↦ absurd (ground (arith, is, full))
          | inr room ↦
              let h2 = take_event-Holds sent event events r e (ground (arith, room)) h in
              elim (Bool-cases (leb batch_size (length r.pending + 1))) [
                | inl filled ↦
                    subst (Holds sent) {x = (flush false now accepted taken).0} {y = after}
                      (ground (arith, is, e, room, filled))
                      (flush-Holds sent false now accepted taken h2)
                | inr not_yet ↦
                    subst (Holds sent) {x = taken} {y = after}
                      (ground (arith, is, e, room, not_yet)) h2
              ]
        ]

pub with_phase-Holds :
    (sent : List Event) (phase : Phase) (lost : ℕ) (r : Recorder)
    → Holds sent r
    → Holds sent (record r { failed_events = lost; phase = phase })
with_phase-Holds sent phase lost r h = record {
  in_order = h.in_order;
  counted = h.counted;
  flushed = h.flushed;
  queue_bound = h.queue_bound;
  pending_bound = h.pending_bound;
  depth = h.depth;
  high_water = h.high_water;
}

ended-Holds :
    (sent : List Event) (now : ℕ) (accepted : Bool) (r : Recorder)
    → Holds sent r
    → Holds sent (ended (flush true now accepted r))
ended-Holds sent now accepted r h =
    flush-cases (λ x. Holds sent (ended x)) true now accepted r
      (λ _. with_phase-Holds sent stopped r.failed_events r h)
      (with_phase-Holds sent stopped (r.failed_events + length r.pending) r h)
      (with_phase-Holds sent stopped r.failed_events (written r) (written-Holds sent r h))
      (with_phase-Holds sent stopped (r.failed_events + length r.pending) (not_written now r)
        (not_written-Holds sent now r h))

take_or_end-Holds :
    (sent : List Event) (now : ℕ) (accepted : Bool) (r : Recorder)
    → length r.pending < batch_size
    → Holds sent r
    → Holds sent (take_or_end now accepted r)
unfolding take_or_end
take_or_end-Holds sent now accepted r room h = split r.queue refl
  where
    split : (queue : List Event) → r.queue ≡ queue → Holds sent (take_or_end now accepted r)
    split [] e =
        subst (Holds sent) {x = ended (flush true now accepted r)} {y = take_or_end now accepted r}
          (ground (arith, e)) (ended-Holds sent now accepted r h)
    split (event ∷ events) e =
        subst (Holds sent) {x = take_event event events r} {y = take_or_end now accepted r}
          (ground (arith, e)) (take_event-Holds sent event events r e room h)

pub drain-Holds :
    (sent : List Event) (now : ℕ) (accepted accepted_last : Bool) (r : Recorder)
    → Holds sent r
    → Holds sent (drain now accepted accepted_last r)
unfolding drain
drain-Holds sent now accepted accepted_last r h =
    if_elim (Holds sent) (leb batch_size (length r.pending)) _ _
      (λ full.
        flush-cases (λ x. Holds sent (continued now accepted_last x)) true now accepted r
          (λ idle. absurd (ground (arith, full, ap length idle)))
          (with_phase-Holds sent stopped (r.failed_events + (length r.pending + length r.queue)) r
            h)
          (take_or_end-Holds sent now accepted_last (written r) (omega arith)
            (written-Holds sent r h))
          (with_phase-Holds sent stopped (r.failed_events + (length r.pending + length r.queue))
            (not_written now r) (not_written-Holds sent now r h)))
      (λ room. take_or_end-Holds sent now accepted_last r (ground (arith, room)) h)

pub started-Holds : (capacity interval : ℤ) → Holds [] (new_recorder capacity interval)
unfolding new_recorder
started-Holds capacity interval = record {
  in_order = refl;
  counted = refl;
  flushed = refl;
  queue_bound = omega arith;
  pending_bound = omega arith;
  depth = refl;
  high_water = omega arith;
}

-- ===== src/Usage/Drained.antt =====
-- The shutdown of the recorder writes all that it has taken, if the store takes it.
use mathlib.Core.List.{append_assoc, append-nil}
use far_mail.Base.{
  ℕ, ◌+◌, ◌<◌, ◌≡◌, refl, sym, ◌∙◌, ap, subst, ◌⊎◌, inl, inr, true, List, [], ◌∷◌, ◌++◌, arith, leb,
  length, Bool-cases, All,
}
use far_mail.Usage.{
  Event, stopping, stopped, Recorder, Round, batch_size, flush, take_or_end, drain, drain_all,
  written, take_event,
}

-- All that a recorder has taken and not lost.
abbrev pub taken : Recorder → List Event
taken r = r.stored ++ (r.pending ++ r.queue)

record IsWritten (r after : Recorder) : Type 0 where
  stored : after.stored ≡ r.stored ++ r.pending
  pending : after.pending ≡ []
  queue : after.queue ≡ r.queue
  phase : after.phase ≡ r.phase
  failed : after.failed_events ≡ r.failed_events

flush-IsWritten :
    (now : ℕ) (r : Recorder)
    → (after : Recorder) × (flush true now true r ≡ (after, true)) × IsWritten r after
unfolding flush
flush-IsWritten now r = split r.pending refl
  where
    split :
        (pending : List Event)
        → r.pending ≡ pending
        → (after : Recorder) × (flush true now true r ≡ (after, true)) × IsWritten r after
    split [] e = (
      r,
      ground (arith, e),
      record {
        stored = sym (append-nil r.stored) ∙ ap (λ p. r.stored ++ p) (sym e);
        pending = e;
        queue = refl;
        phase = refl;
        failed = refl;
      },
    )
    split (event ∷ events) e = (
      written r,
      ground (arith, e),
      record { stored = refl; pending = refl; queue = refl; phase = refl; failed = refl },
    )

IsWritten-taken : (r after : Recorder) → IsWritten r after → taken after ≡ taken r
IsWritten-taken r after w =
    ap (λ l. l ++ (after.pending ++ after.queue)) w.stored
    ∙ ap (λ p. (r.stored ++ r.pending) ++ (p ++ after.queue)) w.pending
    ∙ ap (λ q. (r.stored ++ r.pending) ++ q) w.queue
    ∙ append_assoc r.stored r.pending r.queue

-- One accepted round: the loop goes on with a shorter queue, or has stopped with all stored.
record Progress (r after : Recorder) : Type 0 where
  same : taken after ≡ taken r
  failed : after.failed_events ≡ r.failed_events
  going :
      ((after.phase ≡ r.phase) × (length after.queue + 1 ≡ length r.queue))
      ⊎ ((after.phase ≡ stopped) × (after.stored ≡ taken r))

take_or_end-Progress : (now : ℕ) (r : Recorder) → Progress r (take_or_end now true r)
unfolding take_or_end
take_or_end-Progress now r = split r.queue refl
  where
    split : (queue : List Event) → r.queue ≡ queue → Progress r (take_or_end now true r)
    split (event ∷ events) e =
        subst (Progress r) {x = take_event event events r} {y = take_or_end now true r}
          (ground (arith, e))
          (record {
            same =
                ap (λ l. r.stored ++ l) (append_assoc r.pending (event ∷ []) events)
                ∙ ap (λ q. r.stored ++ (r.pending ++ q)) (sym e);
            failed = refl;
            going = inl (refl, omega (arith, ap length e));
          })
    split [] e =
        let (after, is, w) = flush-IsWritten now r in
        subst (Progress r) {x = record after { phase = stopped }} {y = take_or_end now true r}
          (ground (arith, e, is))
          (record {
            same = IsWritten-taken r after w;
            failed = w.failed;
            going = inr (
              refl,
              w.stored
                  ∙ ap (λ l. r.stored ++ l)
                      (sym (append-nil r.pending) ∙ ap (λ q. r.pending ++ q) (sym e)),
            );
          })

after_write :
    (r middle after : Recorder) → IsWritten r middle → Progress middle after → Progress r after
after_write r middle after w h = record {
  same = h.same ∙ IsWritten-taken r middle w;
  failed = h.failed ∙ w.failed;
  going = elim h.going [
    | inl (phase, shorter) ↦ inl (phase ∙ w.phase, omega (arith, shorter, ap length w.queue))
    | inr (phase, all) ↦ inr (phase, all ∙ IsWritten-taken r middle w)
  ];
}

drain-Progress : (now : ℕ) (r : Recorder) → Progress r (drain now true true r)
unfolding drain
drain-Progress now r = elim (Bool-cases (leb batch_size (length r.pending))) [
  | inl full ↦
      let (middle, is, w) = flush-IsWritten now r in
      subst (Progress r) {x = take_or_end now true middle} {y = drain now true true r}
        (ground (arith, full, is))
        (after_write r middle (take_or_end now true middle) w (take_or_end-Progress now middle))
  | inr room ↦
      subst (Progress r) {x = take_or_end now true r} {y = drain now true true r}
        (ground (arith, room)) (take_or_end-Progress now r)
]

abbrev pub IsAccepted : Round → Type 0
IsAccepted round = (round.accepted ≡ true) × (round.accepted_last ≡ true)

round-Progress :
    (round : Round) (r : Recorder)
    → IsAccepted round
    → Progress r (drain round.now round.accepted round.accepted_last r)
round-Progress round r (first, last) =
    subst (λ a. Progress r (drain round.now a round.accepted_last r)) (sym first)
      (subst (λ b. Progress r (drain round.now true b r)) (sym last) (drain-Progress round.now r))

drain_all-stopped :
    (rounds : List Round) (r : Recorder) → r.phase ≡ stopped → drain_all rounds r ≡ r
unfolding drain_all
drain_all-stopped [] r is = refl
drain_all-stopped (round ∷ rounds) r is = ground (arith, is)

abbrev IsFinished : Recorder → Recorder → Type 0
IsFinished r after =
    (after.phase ≡ stopped) × (after.stored ≡ taken r) × (after.failed_events ≡ r.failed_events)

-- After the recorder is closed, with no more requests and more rounds than events in the queue in
-- each of which the store takes what it is given: the loop has stopped, the store has all that was
-- stored, pending and in the queue, in order, and no event counts as failed.
pub drain_all-stores :
    (rounds : List Round) (r : Recorder)
    → All IsAccepted rounds
    → r.phase ≡ stopping
    → length r.queue < length rounds
    → ((drain_all rounds r).phase ≡ stopped)
      × ((drain_all rounds r).stored ≡ r.stored ++ (r.pending ++ r.queue))
      × ((drain_all rounds r).failed_events ≡ r.failed_events)
unfolding drain_all
drain_all-stores [] r ok on enough = absurd (omega (arith, enough))
drain_all-stores (round ∷ rounds) r ok on enough =
    let after = drain round.now round.accepted round.accepted_last r in
    let h : Progress r after = round-Progress round r ok.0 in
    elim h.going [
      | inl (phase, shorter) ↦
          let (phase2, stored, failed) =
            drain_all-stores rounds after ok.1 (phase ∙ on) (omega (arith, enough, shorter)) in
          subst (IsFinished r) {x = drain_all rounds after} {y = drain_all (round ∷ rounds) r}
            (ground (arith, on)) (phase2, stored ∙ h.same, failed ∙ h.failed)
      | inr (phase, all) ↦
          subst (IsFinished r) {x = drain_all rounds after} {y = drain_all (round ∷ rounds) r}
            (ground (arith, on))
            (subst (IsFinished r) (sym (drain_all-stopped rounds after phase))
              (phase, all, h.failed))
    ]

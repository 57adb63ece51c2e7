-- ===== src/Reactive/Effects.antt =====
-- Effects and the signals that they read.
use vais_lang.Prelude.{
  ap, Option, Option-cases, Bool-cases, inl, inr, ℕ, ◌≡◌, refl, ◌∙◌, some, List, [], ◌∷◌, Bool,
  true, false, ◌||◌, nat_beq, nat_eq, nat_beq_iff, arith,
}
use vais_lang.Prelude.JsSet
use vais_lang.Prelude.JsSet.{has-add}
use vais_lang.Reactive.{
  effect, track, clean, dispose, run_subscriber, Body, returns, throws, reads, writes, Runtime,
  update, schedule, schedule_all, read_signal, set_signal, run_body,
}

module _ {V : Type 0} where
  abbrev pub subscribed : ℕ → ℕ → Runtime V → Bool
  subscribed i n s = JsSet.has i (s.signals n).subscribers

  schedule-has :
      (fn i : ℕ) (s : Runtime V)
      → JsSet.has i (schedule fn s).queue ≡ (nat_beq fn i || JsSet.has i s.queue)
  unfolding schedule
  schedule-has fn i s = ground (arith, has-add fn i s.queue)

  schedule_all-has :
      (fns : List ℕ) (i : ℕ) (s : Runtime V)
      → JsSet.has i (schedule_all fns s).queue ≡ (JsSet.has i fns || JsSet.has i s.queue)
  unfolding schedule_all JsSet.has
  schedule_all-has [] i s = refl
  schedule_all-has (fn ∷ fns) i s =
      ground (arith, schedule_all-has fns i (schedule fn s), schedule-has fn i s)

  schedule_all-signals :
      (fns : List ℕ) (s : Runtime V)
      → ((schedule_all fns s).signals ≡ s.signals)
        × ((schedule_all fns s).current_tracker ≡ s.current_tracker)
  unfolding schedule_all schedule
  schedule_all-signals [] s = (refl, refl)
  schedule_all-signals (fn ∷ fns) s = ground (arith, schedule_all-signals fns (schedule fn s))

  read_signal-subscribed :
      (m i n : ℕ) (s : Runtime V)
      → subscribed i n s ≡ true
      → subscribed i n (read_signal m s).1 ≡ true
  unfolding read_signal
  read_signal-subscribed m i n s h = elim (Option-cases s.current_tracker) [
    | inl e ↦ rw (e, read_signal) h
    | inr (j, e) ↦
        rw (e, read_signal)
          (ground (arith, h, nat_beq_iff m n, has-add j i (s.signals m).subscribers))
  ]

  read_signal-here :
      (n i : ℕ) (s : Runtime V)
      → s.current_tracker ≡ some i
      → subscribed i n (read_signal n s).1 ≡ true
  unfolding read_signal
  read_signal-here n i s e =
      rw (e, read_signal)
        (ground (arith, nat_beq_iff n n, nat_beq_iff i i, has-add i i (s.signals n).subscribers))

  read_signal-tracker :
      (n : ℕ) (s : Runtime V) → (read_signal n s).1.current_tracker ≡ s.current_tracker
  unfolding read_signal
  read_signal-tracker n s = elim (Option-cases s.current_tracker) [
    | inl e ↦ rw (e, read_signal) e
    | inr (j, e) ↦ rw (e, read_signal) e
  ]

module _ {V : Type 0} (same : V → V → Bool) where
  set_signal-subscribed :
      (m : ℕ) (v : V) (i n : ℕ) (s : Runtime V)
      → (subscribed i n (set_signal same m v s) ≡ subscribed i n s)
        × ((set_signal same m v s).current_tracker ≡ s.current_tracker)
  unfolding set_signal
  set_signal-subscribed m v i n s = elim (Bool-cases (same (s.signals m).value v)) [
    | inl e ↦ rw (e, set_signal) (refl, refl)
    | inr e ↦
        let w : Runtime V = record s {
          signals = update m (record (s.signals m) { value = v }) s.signals;
        } in
        rw (e, set_signal)
          (ground (arith, nat_beq_iff m n, schedule_all-signals (s.signals m).subscribers w))
  ]

  -- Whether a body that starts in this state reads the signal numbered n.
  abbrev pub reads_signal : {R : Type 0} → ℕ → Body V R → Runtime V → Bool
  reads_signal n (returns r) s = false
  reads_signal n throws s = false
  reads_signal n (reads m k) s =
      nat_beq m n || reads_signal n (k (read_signal m s).0) (read_signal m s).1
  reads_signal n (writes m v b) s = reads_signal n b (set_signal same m v s)

  run_body-subscribed :
      {R : Type 0} (b : Body V R) (i n : ℕ) (s : Runtime V)
      → subscribed i n s ≡ true
      → subscribed i n (run_body same b s).1 ≡ true
  unfolding run_body
  run_body-subscribed (returns r) i n s h = h
  run_body-subscribed throws i n s h = h
  run_body-subscribed (reads m k) i n s h =
      run_body-subscribed (k (read_signal m s).0) i n (read_signal m s).1
        (read_signal-subscribed m i n s h)
  run_body-subscribed (writes m v b) i n s h =
      run_body-subscribed b i n (set_signal same m v s) ((set_signal-subscribed m v i n s).0 ∙ h)

  run_body-reads :
      {R : Type 0} (b : Body V R) (i n : ℕ) (s : Runtime V)
      → s.current_tracker ≡ some i
      → reads_signal n b s ≡ true
      → subscribed i n (run_body same b s).1 ≡ true
  unfolding run_body
  run_body-reads (returns r) i n s e h = cc
  run_body-reads throws i n s e h = cc
  run_body-reads (reads m k) i n s e h = elim (Bool-cases (nat_beq m n)) [
    | inl here ↦
        run_body-subscribed (k (read_signal m s).0) i n (read_signal m s).1
          (ground (arith, here, nat_beq_iff m n, read_signal-here n i s e))
    | inr there ↦
        run_body-reads (k (read_signal m s).0) i n (read_signal m s).1 (read_signal-tracker m s ∙ e)
          (ground (arith, h, there))
  ]
  run_body-reads (writes m v b) i n s e h =
      run_body-reads b i n (set_signal same m v s) ((set_signal-subscribed m v i n s).1 ∙ e) h

  set_signal-has :
      (n : ℕ) (v : V) (i : ℕ) (s : Runtime V)
      → same (s.signals n).value v ≡ false
      → subscribed i n s ≡ true
      → JsSet.has i (set_signal same n v s).queue ≡ true
  unfolding set_signal
  set_signal-has n v i s e h =
      let w : Runtime V = record s {
        signals = update n (record (s.signals n) { value = v }) s.signals;
      } in
      rw (e, set_signal) (ground (arith, h, schedule_all-has (s.signals n).subscribers i w))

  run_subscriber-reads :
      (b : Body V (Option ℕ)) (i n : ℕ) (s : Runtime V)
      → reads_signal n b (record (clean i s) { current_tracker = some i }) ≡ true
      → subscribed i n (run_subscriber same (effect b) i s).1 ≡ true
  unfolding run_subscriber track
  run_subscriber-reads b i n s h =
      let r = run_body-reads b i n (record (clean i s) { current_tracker = some i }) refl h in
      elim (Option-cases (track same b i (clean i s)).0) [
        | inl e ↦ rw (e, run_subscriber) r
        | inr (c, e) ↦ rw (e, run_subscriber) r
      ]

  -- When an effect has run, also if it threw after the read, every signal that it read has it as a
  -- subscriber: setting the signal to a value that is not the same queues the effect.
  pub run_subscriber-set_signal :
      (b : Body V (Option ℕ)) (i n : ℕ) (v : V) (s : Runtime V)
      → reads_signal n b (record (clean i s) { current_tracker = some i }) ≡ true
      → same ((run_subscriber same (effect b) i s).1.signals n).value v ≡ false
      → JsSet.has i (set_signal same n v (run_subscriber same (effect b) i s).1).queue ≡ true
  run_subscriber-set_signal b i n v s h e =
      set_signal-has n v i (run_subscriber same (effect b) i s).1 e (run_subscriber-reads b i n s h)

  dispose-signals : (i : ℕ) (s : Runtime V) → (dispose i s).signals ≡ s.signals
  unfolding dispose clean
  dispose-signals i s = ground arith

  -- Disposing of an effect does not end its subscriptions: when a signal that it read is set after
  -- that to a value that is not the same, the effect is queued and so is to run again.
  pub dispose-set_signal :
      (b : Body V (Option ℕ)) (i n : ℕ) (v : V) (s : Runtime V)
      → reads_signal n b (record (clean i s) { current_tracker = some i }) ≡ true
      → same ((dispose i (run_subscriber same (effect b) i s).1).signals n).value v ≡ false
      → JsSet.has i (set_signal same n v (dispose i (run_subscriber same (effect b) i s).1)).queue
        ≡ true
  dispose-set_signal b i n v s h e =
      let t = (run_subscriber same (effect b) i s).1 in
      set_signal-has n v i (dispose i t) e (
        ap (λ f. JsSet.has i (f n).subscribers) (dispose-signals i t)
        ∙ run_subscriber-reads b i n s h)

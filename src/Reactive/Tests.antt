-- ===== src/Reactive/Tests.antt =====
-- Runs of signals and effects, and their theorems at concrete inputs.
use vais_lang.Prelude.{ℕ, ◌-◌, ◌≡◌, refl, Option, none, some, [], true, false, nat_beq, nat_eq}
use vais_lang.Prelude.JsSet
use vais_lang.Reactive.{
  Body, returns, reads, writes, effect, Runtime, set_signal, run_subscriber, flush, microtask,
}
use vais_lang.Reactive.Queue.{sets, calls, start, next, IsQueued, Runs, Reach-IsQueued}
use vais_lang.Reactive.Effects.{run_subscriber-set_signal}

abbrev empty_runtime : Runtime ℕ
empty_runtime = record {
  signals = λ n. record { value = n; subscribers = [] };
  current_tracker = none;
  queue = [];
  dirty = false;
  microtasks = 0;
  cleanups = λ i. none;
  cleaned = [];
}

-- It reads signal 1 and writes its value to signal 2, and returns clean-up 9.
abbrev copy : Body ℕ (Option ℕ)
copy = reads 1 (λ v. writes 2 v (returns (some 9)))

abbrev ran : Runtime ℕ
ran = (run_subscriber nat_beq (effect copy) 5 empty_runtime).1

copies : ((flush nat_beq (λ i. effect copy) (set_signal nat_beq 1 7 ran)).signals 2).value ≡ 7
unfolding flush run_subscriber set_signal
copies = refl

abbrev written : Runtime ℕ
written = set_signal nat_beq 1 7 ran

Reach-IsQueued_example :
    IsQueued written
    × Runs nat_beq
        (λ i. effect copy)
        written.queue
        (record written { queue = []; dirty = false; microtasks = written.microtasks - 1 })
        (microtask nat_beq (λ i. effect copy) written)
Reach-IsQueued_example =
    Reach-IsQueued nat_beq (λ i. effect copy) {s = empty_runtime} refl refl
      (next (next start (calls 5)) (sets 1 7))

run_subscriber-set_signal_example : JsSet.has 5 (set_signal nat_beq 1 7 ran).queue ≡ true
unfolding run_subscriber
run_subscriber-set_signal_example =
    run_subscriber-set_signal nat_beq copy 5 1 7 empty_runtime refl refl

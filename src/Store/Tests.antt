-- ===== src/Store/Tests.antt =====
-- A store at concrete inputs.
use vais_lang.Prelude.{ℕ, String, [], ◌∷◌, ◌≡◌, refl, true, false, nat_beq, string_eq, List}
use vais_lang.Prelude.JsMap.{JsMap}
use vais_lang.Store.{Store, Write, assign, remove, write, patch, notify_each, write_all}
use vais_lang.Store.Laws.{patch-write_all, written}

abbrev counter : Store ℕ
counter = record {
  signals = ("count", 1) ∷ ("gone", 5) ∷ [];
  subscribers = 8 ∷ 9 ∷ [];
  batching = false;
}

assigned : write nat_beq (assign "count" 2) counter ≡ (
  record counter { signals = ("count", 2) ∷ ("gone", 5) ∷ [] },
  notify_each (8 ∷ 9 ∷ []) (("count", 2) ∷ ("gone", 5) ∷ []),
)
unfolding write
assigned = refl

-- An assignment that makes a property runs no subscriber.
made : (write nat_beq (assign "other" 2) counter).1 ≡ []
unfolding write
made = refl

abbrev changes : List (Write ℕ)
changes = assign "count" 3 ∷ remove "gone" ∷ assign "new" 4 ∷ []

patch-write_all_example :
    let m = written nat_beq changes counter.signals in
    let failed = patch nat_beq changes true counter in
    (patch nat_beq changes false counter ≡ (
      record { signals = m; subscribers = 8 ∷ 9 ∷ []; batching = false },
      notify_each (8 ∷ 9 ∷ []) m,
    ))
    × (failed.1 ≡ [])
    × (write_all nat_beq (assign "count" 6 ∷ []) failed.0 ≡ (
      record {
        signals = written nat_beq (assign "count" 6 ∷ []) m;
        subscribers = 8 ∷ 9 ∷ [];
        batching = true;
      },
      [],
    ))
patch-write_all_example = patch-write_all nat_beq changes (assign "count" 6 ∷ []) counter

abbrev zero_state : JsMap String ℕ
zero_state = ("count", 0) ∷ []

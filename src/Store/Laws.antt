-- ===== src/Store/Laws.antt =====
-- What a patch and a reset leave, and whom they run.
use vais_lang.Prelude.{
  sym, ◌∙◌, inr, inl, ◌++◌, eq_iff, ap, Bool-cases, none, arith, false, if◌then◌else◌, ℕ, String,
  List, [], ◌∷◌, Bool, true, ◌≡◌, refl, string_eq,
}
use vais_lang.Prelude.JsMap
use vais_lang.Prelude.JsMap.{JsMap, get-set, get-delete, HasDistinctKeys, set-HasDistinctKeys}
use vais_lang.Store.{
  Notice, notify_subscribers, notify_each, patch, reset, removals, assignments, Store, Write,
  assign, remove, write_all,
}

module _ {V : Type 0} (same : V → V → Bool) where
  -- The signals after some writes.
  abbrev pub written : List (Write V) → JsMap String V → JsMap String V
  written [] m = m
  written (assign k v ∷ ws) m = written ws (JsMap.set k v m)
  written (remove k ∷ ws) m = written ws (JsMap.delete k m)

  abbrev batching_store : JsMap String V → List ℕ → Store V
  batching_store m subscribers = record { signals = m; subscribers = subscribers; batching = true }

  batch :
      (ws : List (Write V)) (m : JsMap String V) (subscribers : List ℕ)
      → write_all same ws (batching_store m subscribers)
        ≡ (batching_store (written ws m) subscribers, [])
  unfolding write_all
  batch [] m subscribers = refl
  batch (assign k v ∷ ws) m subscribers = batch ws (JsMap.set k v m) subscribers
  batch (remove k ∷ ws) m subscribers = batch ws (JsMap.delete k m) subscribers

  -- A patch whose function does not throw makes all its writes, and then runs each subscriber once,
  -- with the state after the last one. After a function that throws no subscriber is run, and none is
  -- run for any assignments or deletions after it: the store stays in its batch.
  pub patch-write_all :
      (ws after : List (Write V)) (s : Store V)
      → let m = written ws s.signals in
        let failed = patch same ws true s in
        (patch same ws false s ≡ (
          record { signals = m; subscribers = s.subscribers; batching = false },
          notify_each s.subscribers m,
        ))
        × (failed.1 ≡ [])
        × (write_all same after failed.0 ≡ (
          record { signals = written after m; subscribers = s.subscribers; batching = true },
          [],
        ))
  unfolding patch
  patch-write_all ws after s =
      let one = batch ws s.signals s.subscribers in
      let m = written ws s.signals in
      (
        ap
            (λ r. (
              record r.0 { batching = false },
              r.1 ++ notify_subscribers (record r.0 { batching = false }),
            ))
            one,
        ap (λ r. r.1) one,
        ap (λ r. write_all same after r.0) one ∙ batch after m s.subscribers,
      )

  written-assignments :
      (fresh m : JsMap String V) (k : String)
      → HasDistinctKeys fresh
      → JsMap.get k (written (assignments fresh) m)
        ≡ (if JsMap.has k fresh then JsMap.get k fresh else JsMap.get k m)
  unfolding JsMap.get
  written-assignments [] m k h = refl
  written-assignments ((j, v) ∷ fresh) m k (p, h) =
      ground
        (arith, p, written-assignments fresh (JsMap.set j v m) k h, get-set j k v m, eq_iff j k)

  written-removals :
      (fresh state m : JsMap String V) (k : String)
      → JsMap.get k (written (removals fresh state) m) ≡ (
          if JsMap.has k fresh
          then JsMap.get k m
          else if JsMap.has k state
          then none
          else JsMap.get k m)
  unfolding JsMap.get
  written-removals fresh [] m k = ground arith
  written-removals fresh ((j, v) ∷ state) m k = elim (Bool-cases (JsMap.has j fresh)) [
    | inl e ↦ rw (removals, e) (ground (arith, e, eq_iff j k, written-removals fresh state m k))
    | inr e ↦
        rw (removals, e)
          (ground (
            arith,
            e,
            eq_iff j k,
            get-delete j k m,
            written-removals fresh state (JsMap.delete j m) k,
          ))
  ]

  -- The rest of a reset.
  abbrev after_assignments : JsMap String V → Store V × List (Notice V) → Store V × List (Notice V)
  after_assignments fresh (t, first) =
      let (u, later) = write_all same (removals fresh t.signals) t in
      let done = record u { batching = false } in
      (done, first ++ (later ++ notify_subscribers done))

  -- After a reset each property has its value of the new state, and there is no other property; each
  -- subscriber is run once, with that state.
  pub get-reset :
      (fresh : JsMap String V) (s : Store V) (k : String)
      → HasDistinctKeys fresh
      → let (t, notified) = reset same fresh s in
        (JsMap.get k t.signals ≡ JsMap.get k fresh)
        × (t.batching ≡ false)
        × (notified ≡ notify_each s.subscribers t.signals)
  unfolding reset JsMap.get
  get-reset fresh s k h =
      let m = written (assignments fresh) s.signals in
      let one = batch (assignments fresh) s.signals s.subscribers in
      let two = batch (removals fresh m) m s.subscribers in
      let final = written (removals fresh m) m in
      let whole : reset same fresh s ≡ (
        record { signals = final; subscribers = s.subscribers; batching = false },
        notify_each s.subscribers final,
      ) =
        ap (after_assignments fresh) one
        ∙ ap
            (λ r. (
              record r.0 { batching = false },
              r.1 ++ notify_subscribers (record r.0 { batching = false }),
            ))
            two in
      (
        ap (λ r. JsMap.get k r.0.signals) whole
            ∙ (ground
                (arith, written-removals fresh m m k, written-assignments fresh s.signals k h)),
        ap (λ r. r.0.batching) whole,
        ap (λ r. r.1) whole ∙ ap (λ r. notify_each s.subscribers r.0.signals) (sym whole),
      )

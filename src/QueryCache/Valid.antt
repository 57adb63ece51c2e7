-- ===== src/QueryCache/Valid.antt =====
-- What holds of the records, the store and the timers after any calls.
use vais_lang.Prelude.{
  Bool, Bool-cases, true, List, ◌∷◌, Option, inr, inl, refl, ◌+◌, Option-cases, ℕ, ◌<◌, ◌≡◌, ◌≢◌,
  String, none, some, [], arith, eq_iff, string_eq, nat_eq, nat_beq_iff,
}
use vais_lang.Prelude.JsMap
use vais_lang.Prelude.JsSet
use vais_lang.Prelude.JsMap.{JsMap, get-set, get-delete}
use vais_lang.QueryCache.{
  invalidate_each, clear_each, placeholder, QueryCacheEntry, or_placeholder, invalidate_record,
  invalidate, record_at, set, subscribe, unsubscribe, clear, clear_gc_timer, timer_fires,
  schedule_gc, Cache, InternalEntry, new_cache, add_record,
}

-- A record with subscribers has no timer; the store maps each key to a record of its own.
pub record IsValid {D : Type 0} (c : Cache D) : Type 0 where
  pub watched :
      (i : ℕ) (r : InternalEntry D)
      → JsMap.get i c.heap ≡ some r
      → r.subscribers ≢ []
      → r.gc_timer ≡ none
  pub made : (key : String) (i : ℕ) → JsMap.get key c.store ≡ some i → i < c.next_record
  pub apart :
      (key j : String) (i : ℕ)
      → JsMap.get key c.store ≡ some i
      → JsMap.get j c.store ≡ some i
      → key ≡ j

delete-ne-nil : (a : ℕ) (s : List ℕ) → JsSet.delete a s ≢ [] → s ≢ []
unfolding JsSet.delete
delete-ne-nil a [] h = h
delete-ne-nil a (x ∷ s) h = cc

module _ {D : Type 0} where
  pub new_cache-IsValid : (stale gc : ℕ) → IsValid (new_cache {D = D} stale gc)
  unfolding JsMap.get
  new_cache-IsValid stale gc = ground arith

  -- Writing one record whose timer fits its subscribers.
  put-IsValid :
      (i : ℕ) (r : InternalEntry D) (timers : JsMap ℕ String) (n : ℕ) {c : Cache D}
      → (r.subscribers ≢ [] → r.gc_timer ≡ none)
      → IsValid c
      → IsValid (record c { heap = JsMap.set i r c.heap; timers = timers; next_timer = n })
  put-IsValid i r timers n {c} h v = record {
    watched = λ j q e. ground (arith, get-set i j r c.heap, nat_beq_iff i j, v.watched j q);
    made = v.made;
    apart = v.apart;
  }

  drop-IsValid :
      (key : String) (timers : JsMap ℕ String) {c : Cache D}
      → IsValid c
      → IsValid (record c { store = JsMap.delete key c.store; timers = timers })
  drop-IsValid key timers {c} v = record {
    watched = v.watched;
    made = λ j i e. ground (arith, get-delete key j c.store, eq_iff key j, v.made j i);
    apart = λ j k i e f. ground (
      arith,
      get-delete key j c.store,
      get-delete key k c.store,
      eq_iff key j,
      eq_iff key k,
      v.apart j k i,
    );
  }

  add_record-IsValid :
      (key : String) (r : InternalEntry D) {c : Cache D}
      → r.gc_timer ≡ none
      → IsValid c
      → IsValid (add_record key r c)
  add_record-IsValid key r {c} h v = record {
    watched = λ j q e.
        ground
          (arith, get-set c.next_record j r c.heap, nat_beq_iff c.next_record j, v.watched j q);
    made = λ j i e. ground (arith, get-set key j c.next_record c.store, eq_iff key j, v.made j i);
    apart = λ j k i e f. ground (
      arith,
      get-set key j c.next_record c.store,
      get-set key k c.next_record c.store,
      eq_iff key j,
      eq_iff key k,
      v.apart j k i,
      v.made j i,
      v.made k i,
    );
  }

  schedule_gc-IsValid :
      (key : String) (i : ℕ) (r : InternalEntry D) {c : Cache D}
      → IsValid c
      → IsValid (schedule_gc key i r c)
  unfolding schedule_gc
  schedule_gc-IsValid key i r {c} v = ground (
    arith,
    v,
    put-IsValid i (record r { gc_timer = some c.next_timer }) (JsMap.set c.next_timer key c.timers)
        (c.next_timer + 1) {c = c},
    drop-IsValid key c.timers {c = c} v,
  )

  clear_gc_timer-IsValid :
      (i : ℕ) (r : InternalEntry D) {c : Cache D} → IsValid c → IsValid (clear_gc_timer i r c)
  unfolding clear_gc_timer
  clear_gc_timer-IsValid i r {c} v =
      put-IsValid i (record r { gc_timer = none }) _ c.next_timer (λ h. refl) v

  pub timer_fires-IsValid : (t : ℕ) {c : Cache D} → IsValid c → IsValid (timer_fires t c)
  unfolding timer_fires
  timer_fires-IsValid t {c} v = elim (Option-cases (JsMap.get t c.timers)) [
    | inl e ↦ rw (e, timer_fires) v
    | inr (key, e) ↦ rw (e, timer_fires) (drop-IsValid key (JsMap.delete t c.timers) v)
  ]

  record_at-heap :
      (key : String) (c : Cache D) (i : ℕ) (r : InternalEntry D)
      → record_at key c ≡ some (i, r)
      → JsMap.get i c.heap ≡ some r
  unfolding record_at
  record_at-heap key c i r e = ground (arith, e)

  pub set-IsValid :
      (key : String) (datum : D) (stale gc : Option ℕ) (now : ℕ) {c : Cache D}
      → IsValid c
      → IsValid (set key datum stale gc now c).0
  unfolding set
  set-IsValid key datum stale gc now {c} v = elim (Option-cases (record_at key c)) [
    | inl e ↦ rw (e, set) (add_record-IsValid key _ refl v)
    | inr ((i, r), e) ↦ rw (e, set) (put-IsValid i _ _ _ (λ h. refl) (clear_gc_timer-IsValid i r v))
  ]

  invalidate_record-IsValid :
      (key : String) (i : ℕ) (r : InternalEntry D) {c : Cache D}
      → JsMap.get i c.heap ≡ some r
      → IsValid c
      → IsValid (invalidate_record key i r c).0
  invalidate_record-IsValid key i r {c} e v =
      schedule_gc-IsValid key i (record r { invalidated = true })
        (put-IsValid i (record r { invalidated = true }) c.timers c.next_timer (v.watched i r e) v)

  pub subscribe-IsValid :
      (key : String) (callback : ℕ) {c : Cache D} → IsValid c → IsValid (subscribe key callback c).1
  unfolding subscribe
  subscribe-IsValid key callback {c} v = elim (Option-cases (record_at key c)) [
    | inl e ↦
        rw (e, subscribe, or_placeholder)
          (put-IsValid c.next_record _ _ _ (λ h. refl)
            (clear_gc_timer-IsValid c.next_record (placeholder c)
              (add_record-IsValid key (placeholder c) refl v)))
    | inr ((i, r), e) ↦
        rw (e, subscribe, or_placeholder)
          (put-IsValid i _ _ _ (λ h. refl) (clear_gc_timer-IsValid i r v))
  ]

  pub unsubscribe-IsValid :
      (key : String) (i callback : ℕ) {c : Cache D}
      → IsValid c
      → IsValid (unsubscribe key i callback c)
  unfolding unsubscribe
  unsubscribe-IsValid key i callback {c} v = elim (Option-cases (JsMap.get i c.heap)) [
    | inl e ↦ rw (e, unsubscribe) v
    | inr (r, e) ↦
        let left : InternalEntry D = record r {
          subscribers = JsSet.delete callback r.subscribers;
        } in
        rw (e, unsubscribe)
          (schedule_gc-IsValid key i left (
            put-IsValid i left c.timers c.next_timer
              (λ h. v.watched i r e (delete-ne-nil callback r.subscribers h)) v))
  ]

  pub invalidate-IsValid : (key : String) {c : Cache D} → IsValid c → IsValid (invalidate key c).0
  unfolding invalidate
  invalidate-IsValid key {c} v = elim (Option-cases (record_at key c)) [
    | inl e ↦ rw (e, invalidate) v
    | inr ((i, r), e) ↦
        rw (e, invalidate) (invalidate_record-IsValid key i r (record_at-heap key c i r e) v)
  ]

  pub invalidate_each-IsValid :
      (test : String → QueryCacheEntry D → Bool) (entries : JsMap String ℕ) {c : Cache D}
      → IsValid c
      → IsValid (invalidate_each test entries c).0
  unfolding invalidate_each
  invalidate_each-IsValid test [] v = v
  invalidate_each-IsValid test ((key, i) ∷ entries) {c} v =
      elim (Option-cases (JsMap.get i c.heap)) [
        | inl e ↦ rw (e, invalidate_each) (invalidate_each-IsValid test entries v)
        | inr (r, e) ↦ elim (Bool-cases (test key r.entry)) [
          | inl is_in ↦
              rw (e, is_in, invalidate_each)
                (invalidate_each-IsValid test entries (invalidate_record-IsValid key i r e v))
          | inr is_out ↦ rw (e, is_out, invalidate_each) (invalidate_each-IsValid test entries v)
        ]
      ]

  clear_each-IsValid :
      (entries : JsMap String ℕ) {c : Cache D} → IsValid c → IsValid (clear_each entries c).0
  unfolding clear_each
  clear_each-IsValid [] v = v
  clear_each-IsValid ((key, i) ∷ entries) {c} v = elim (Option-cases (JsMap.get i c.heap)) [
    | inl e ↦ rw (e, clear_each) (clear_each-IsValid entries v)
    | inr (r, e) ↦ rw (e, clear_each) (clear_each-IsValid entries (clear_gc_timer-IsValid i r v))
  ]

  pub clear-IsValid : {c : Cache D} → IsValid c → IsValid (clear c).0
  unfolding clear JsMap.get
  clear-IsValid {c} v =
      let w = clear_each-IsValid c.store v in
      record {
        watched = w.watched;
        made = λ key i e. ground (arith, e);
        apart = λ key j i e f. ground (arith, e);
      }

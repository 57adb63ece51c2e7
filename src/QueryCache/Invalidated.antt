-- ===== src/QueryCache/Invalidated.antt =====
-- Reading the cache after an invalidation.
use vais_lang.Prelude.{
  inl, inr, Option-cases, ◌⊎◌, ℕ, ◌+◌, ◌≡◌, refl, String, none, some, List, [], ◌∷◌, true,
  Bool-cases, if◌then◌else◌, leb, arith, eq_iff, str_eq, string_eq, nat_eq, nat_beq_iff, nat_beq,
}
use vais_lang.Prelude.JsMap
use vais_lang.Prelude.JsMap.{JsMap, get-set, get-delete}
use vais_lang.QueryCache.{Cache, InternalEntry, record_at, get, invalidate, schedule_gc}
use vais_lang.QueryCache.Valid.{IsValid}
use vais_lang.QueryCache.Reads.{record_at-put}

List-cases : {A : Type 0} (xs : List A) → (xs ≡ []) ⊎ ((y : A) × (ys : List A) × (xs ≡ y ∷ ys))
List-cases [] = inl refl
List-cases (x ∷ xs) = inr (x, xs, refl)

module _ {D : Type 0} (key j : String) {c : Cache D} (v : IsValid c) where
  -- What reading gives, from the record.
  read_marked :
      (d : Cache D) (i : ℕ) (q : InternalEntry D)
      → q.invalidated ≡ true
      → record_at j d ≡ (if str_eq key j then some (i, q) else record_at j c)
      → get j d ≡ (if str_eq key j then none else get j c)
  unfolding get
  read_marked d i q h e = ground (arith, h, e)

  read_deleted :
      (heap : JsMap ℕ (InternalEntry D)) (i : ℕ) (q r : InternalEntry D)
      → record_at key c ≡ some (i, r)
      → ((n : ℕ) → JsMap.get n heap ≡ (if nat_beq i n then some q else JsMap.get n c.heap))
      → get j (record c { heap = heap; store = JsMap.delete key c.store })
        ≡ (if str_eq key j then none else get j c)
  unfolding get record_at
  read_deleted heap i q r e h = elim (Option-cases (JsMap.get j c.store)) [
    | inl f ↦ ground (arith, f, get-delete key j c.store)
    | inr (n, f) ↦
        ground (
          arith,
          e,
          f,
          h n,
          get-delete key j c.store,
          v.apart key j n,
          nat_beq_iff i n,
          eq_iff key j,
        )
  ]

  -- An invalidated key gives no entry, and every other key gives the one it gave before.
  pub get-invalidate : get j (invalidate key c).0 ≡ (if str_eq key j then none else get j c)
  unfolding invalidate record_at get JsMap.set
  get-invalidate = elim (Option-cases (record_at key c)) [
    | inl e ↦ rw (invalidate, e) (ground (arith, e, eq_iff key j))
    | inr ((i, r), e) ↦
        let marked : InternalEntry D = record r { invalidated = true } in
        let put =
          λ (q : InternalEntry D) (timers : JsMap ℕ String) (heap : JsMap ℕ (InternalEntry D))
              (h : (n : ℕ)
                → JsMap.get n heap ≡ (if nat_beq i n then some q else JsMap.get n c.heap)).
            record_at-put key j i q r heap timers v e h in
        let kept =
          read_marked (record c { heap = JsMap.set i marked c.heap }) i marked refl
            (put marked c.timers (JsMap.set i marked c.heap) (λ n. get-set i n marked c.heap)) in
        elim (List-cases r.subscribers) [
          | inr (s, ss, k) ↦ rw (invalidate, e, schedule_gc, k) kept
          | inl k ↦ elim (Option-cases r.gc_timer) [
            | inr (t, l) ↦ rw (invalidate, e, schedule_gc, k, l) kept
            | inl l ↦ elim (Bool-cases (leb r.entry.gc_time 0)) [
              | inl m ↦
                  rw (invalidate, e, schedule_gc, k, l, m)
                    (read_deleted (JsMap.set i marked c.heap) i marked r e
                      (λ n. get-set i n marked c.heap))
              | inr m ↦
                  let timed : InternalEntry D = record marked { gc_timer = some c.next_timer } in
                  let heap = JsMap.set i timed (JsMap.set i marked c.heap) in
                  rw (invalidate, e, schedule_gc, k, l, m)
                    (read_marked
                      (record c {
                        heap = heap;
                        timers = JsMap.set c.next_timer key c.timers;
                        next_timer = c.next_timer + 1;
                      })
                      i timed refl
                      (put timed (JsMap.set c.next_timer key c.timers) heap (λ n. ground (
                        arith,
                        get-set i n timed (JsMap.set i marked c.heap),
                        get-set i n marked c.heap,
                      ))))
            ]
          ]
        ]
  ]

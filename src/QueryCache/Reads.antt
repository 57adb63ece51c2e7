-- ===== src/QueryCache/Reads.antt =====
-- Reading the cache after a write.
use vais_lang.Prelude.{
  inl, inr, Option-cases, or_else, ℕ, ◌+◌, ◌≡◌, refl, String, Option, none, some, List, [], false,
  if◌then◌else◌, leb, arith, eq_iff, str_eq, string_eq, nat_eq, nat_beq_iff, nat_beq,
}
use vais_lang.Prelude.JsMap
use vais_lang.Prelude.JsMap.{JsMap, get-set, get-delete}
use vais_lang.QueryCache.{
  Cache, InternalEntry, QueryCacheEntry, record_at, set, get, is_stale, add_record, notices,
  clear_gc_timer,
}
use vais_lang.QueryCache.Valid.{IsValid}

module _ {D : Type 0} where
  record_at-add_record :
      (key j : String) (r : InternalEntry D) {c : Cache D}
      → IsValid c
      → record_at j (add_record key r c)
        ≡ (if str_eq key j then some (c.next_record, r) else record_at j c)
  unfolding record_at
  record_at-add_record key j r {c} v = elim (Option-cases (JsMap.get j c.store)) [
    | inl e ↦ ground (
      arith,
      e,
      get-set key j c.next_record c.store,
      get-set c.next_record c.next_record r c.heap,
      nat_beq_iff c.next_record c.next_record,
    )
    | inr (n, e) ↦ ground (
      arith,
      e,
      v.made j n e,
      get-set key j c.next_record c.store,
      get-set c.next_record n r c.heap,
      get-set c.next_record c.next_record r c.heap,
      nat_beq_iff c.next_record n,
      nat_beq_iff c.next_record c.next_record,
    )
  ]

  pub record_at-put :
      (key j : String) (i : ℕ) (r q : InternalEntry D) (heap : JsMap ℕ (InternalEntry D))
      (timers : JsMap ℕ String) {c : Cache D}
      → IsValid c
      → record_at key c ≡ some (i, q)
      → ((n : ℕ) → JsMap.get n heap ≡ (if nat_beq i n then some r else JsMap.get n c.heap))
      → record_at j (record c { heap = heap; timers = timers })
        ≡ (if str_eq key j then some (i, r) else record_at j c)
  unfolding record_at
  record_at-put key j i r q heap timers {c} v e h = elim (Option-cases (JsMap.get j c.store)) [
    | inl f ↦ ground (arith, e, f, eq_iff key j)
    | inr (n, f) ↦
        ground
          (arith, e, f, h n, h i, v.apart key j n, nat_beq_iff i n, nat_beq_iff i i, eq_iff key j)
  ]

module _ {D : Type 0} (key : String) (datum : D) (stale gc : Option ℕ) (now : ℕ) (c : Cache D) where
  -- The entry that `set` stores.
  abbrev pub stored : QueryCacheEntry D
  stored = record {
    data_of = some datum;
    data_updated_at = now;
    stale_time = or_else stale c.default_stale_time;
    gc_time = or_else gc c.default_gc_time;
  }

  -- The subscribers of the key.
  abbrev pub subscribers_at : List ℕ
  subscribers_at = elim (record_at key c) [ none ↦ [] | some (i, r) ↦ r.subscribers ]

  abbrev written : InternalEntry D
  written = record {
    entry = stored;
    invalidated = false;
    gc_timer = none;
    subscribers = subscribers_at;
  }

  set-record_at-none :
      record_at key c ≡ none
      → (j : String) → IsValid c
      → record_at j (set key datum stale gc now c).0
        ≡ (if str_eq key j then some (c.next_record, written) else record_at j c)
  unfolding set
  set-record_at-none e j v = rw (e, set, subscribers_at) (record_at-add_record key j _ v)

  set-record_at-some :
      (i : ℕ) (r : InternalEntry D)
      → record_at key c ≡ some (i, r)
      → (j : String) → IsValid c
      → record_at j (set key datum stale gc now c).0
        ≡ (if str_eq key j then some (i, written) else record_at j c)
  unfolding set clear_gc_timer
  set-record_at-some i r e j v =
      rw (e, set, subscribers_at)
        (record_at-put key j i _ r _ (clear_gc_timer i r c).timers v e (λ n. ground (
          arith,
          get-set i n
              (record {
                entry = stored;
                invalidated = false;
                gc_timer = none;
                subscribers = r.subscribers;
              })
              (clear_gc_timer i r c).heap,
          get-set i n (record r { gc_timer = none }) c.heap,
        )))

  record_at-set :
      (j : String)
      → IsValid c
      → (i : ℕ) × record_at j (set key datum stale gc now c).0
          ≡ (if str_eq key j then some (i, written) else record_at j c)
  record_at-set j v = elim (Option-cases (record_at key c)) [
    | inl e ↦ (c.next_record, set-record_at-none e j v)
    | inr ((i, r), e) ↦ (i, set-record_at-some i r e j v)
  ]

  set-notices : (set key datum stale gc now c).1 ≡ notices (some stored) subscribers_at
  unfolding set
  set-notices = elim (Option-cases (record_at key c)) [
    | inl e ↦ rw (e, set, subscribers_at) refl
    | inr ((i, r), e) ↦ rw (e, set, subscribers_at) refl
  ]

  -- After `set`, `get` gives the new entry for its key and the same as before for every other key;
  -- the key is stale from its stale time on, and no sooner, and no other key gets stale or fresh; and
  -- each subscriber of the key is run once with the new entry, also after an invalidation.
  pub get-set_entry :
      (j : String) (later : ℕ)
      → IsValid c
      → let (d, notified) = set key datum stale gc now c in
        (get j d ≡ (if str_eq key j then some stored else get j c))
        × (is_stale j later d ≡ (
            if str_eq key j
            then leb (now + or_else stale c.default_stale_time) later
            else is_stale j later c))
        × (notified ≡ notices (some stored) subscribers_at)
  unfolding get is_stale
  get-set_entry j later v =
      let (i, e) = record_at-set j v in (ground (arith, e), ground (arith, e), set-notices)

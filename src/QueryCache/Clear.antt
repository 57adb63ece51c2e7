-- ===== src/QueryCache/Clear.antt =====
-- What `clear` leaves to the functions that `subscribe` returned before it.
use vais_lang.Prelude.{
  ℕ, suc, ◌≡◌, String, none, some, [], ◌∷◌, true, arith, string_eq, nat_beq, beq_self, nat_eq,
}
use text.Mathlib.TextPositions.{eq_refl}
use vais_lang.Prelude.JsMap
use vais_lang.Prelude.JsSet
use vais_lang.QueryCache.{
  Cache, QueryCacheEntry, new_cache, record_at, set, get, clear, clear_each, subscribe, unsubscribe,
  timer_fires, schedule_gc, clear_gc_timer,
}

nat_beq_self : (a : ℕ) → nat_beq a a ≡ true
nat_beq_self a = beq_self a

module _ {D : Type 0} (stale gc : ℕ) (key : String) (a b : ℕ) (datum : D) (now : ℕ) where
  -- a subscribes, the cache is cleared, b subscribes and the key is set.
  abbrev before : ℕ × Cache D
  before = subscribe key a (new_cache stale (suc gc))

  abbrev pub refilled : Cache D
  refilled = (set key datum none none now (subscribe key b (clear before.1).0).1).0

  -- a unsubscribes, and the first timer fires.
  abbrev pub collected : Cache D
  collected = timer_fires 0 (unsubscribe key before.0 a refilled)

  -- With a collection time above 0: subscribe a to a key, clear the cache, subscribe b to the key
  -- and set it. Then the write runs b and not a. When a unsubscribes now, and the timer
  -- that this sets fires, the entry is gone though b is still subscribed.
  pub clear-collected :
      let entry : QueryCacheEntry D = record {
        data_of = some datum;
        data_updated_at = now;
        stale_time = stale;
        gc_time = suc gc;
      } in
      ((set key datum none none now (subscribe key b (clear before.1).0).1).1
        ≡ record { subscriber = b; value = some entry } ∷ [])
      × (get key refilled ≡ some entry)
      × (get key collected ≡ none)
      × (JsMap.get key collected.store ≡ none)
  unfolding get set subscribe unsubscribe clear timer_fires record_at clear_each schedule_gc
      clear_gc_timer JsMap.get JsMap.set JsMap.delete JsSet.add JsSet.delete JsSet.has
  clear-collected = ground (arith, eq_refl key, nat_beq_self a)

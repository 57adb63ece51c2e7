-- ===== src/QueryCache/Reach.antt =====
-- Sequences of calls and timers of the cache, and what holds after them.
use vais_lang.Prelude.{Bool, or_else, true, Option, ℕ, String, string_eq, nat_eq}
use vais_lang.QueryCache.{
  invalidate_all, QueryCacheEntry, invalidate, set, subscribe, unsubscribe, clear, timer_fires,
  Cache, new_cache,
}
use vais_lang.QueryCache.Valid.{
  timer_fires-IsValid, unsubscribe-IsValid, subscribe-IsValid, clear-IsValid,
  invalidate_each-IsValid, invalidate-IsValid, new_cache-IsValid, set-IsValid, IsValid,
}

-- One call, or a timer that fires.
pub data Step {D : Type 0} (c : Cache D) : Cache D → Type 0 where
  sets :
      (key : String) (datum : D) (stale gc : Option ℕ) (now : ℕ)
      → Step c (set key datum stale gc now c).0
  invalidates : (key : String) → Step c (invalidate key c).0
  invalidates_all :
      (predicate : Option (String → QueryCacheEntry D → Bool))
      → Step c (invalidate_all predicate c).0
  clears : Step c (clear c).0
  subscribes : (key : String) (callback : ℕ) → Step c (subscribe key callback c).1
  unsubscribes : (key : String) (i callback : ℕ) → Step c (unsubscribe key i callback c)
  fires : (t : ℕ) → Step c (timer_fires t c)

pub data Reach {D : Type 0} (c : Cache D) : Cache D → Type 0 where
  start : Reach c c
  next : {d e : Cache D} → Reach c d → Step d e → Reach c e

module _ {D : Type 0} where
  Step-IsValid : {c d : Cache D} → Step c d → IsValid c → IsValid d
  unfolding invalidate_all
  Step-IsValid (sets key datum stale gc now) v = set-IsValid key datum stale gc now v
  Step-IsValid (invalidates key) v = invalidate-IsValid key v
  Step-IsValid {c} (invalidates_all predicate) v =
      invalidate_each-IsValid (or_else predicate (λ key entry. true)) c.store v
  Step-IsValid clears v = clear-IsValid v
  Step-IsValid (subscribes key callback) v = subscribe-IsValid key callback v
  Step-IsValid (unsubscribes key i callback) v = unsubscribe-IsValid key i callback v
  Step-IsValid (fires t) v = timer_fires-IsValid t v

  -- In every state that calls and timers lead to from a new cache: no record that has subscribers has
  -- a timer to collect it, and the store maps each key to a record of its own that was made before.
  pub Reach-new_cache : (stale gc : ℕ) {c : Cache D} → Reach (new_cache stale gc) c → IsValid c
  Reach-new_cache stale gc start = new_cache-IsValid stale gc
  Reach-new_cache stale gc (next r st) = Step-IsValid st (Reach-new_cache stale gc r)

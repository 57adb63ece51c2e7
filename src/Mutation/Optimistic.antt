-- ===== src/Mutation/Optimistic.antt =====
-- query/src/optimistic.ts: the class OptimisticUpdateManager, on the QueryCache. A call of `execute`
-- is `begin`, and then `fail`, or `succeed` and `settle`: other calls may come between.
pub mod Laws
use vais_lang.Prelude.{ℕ, String, Option, none, some, List, [], ◌∷◌}
use vais_lang.QueryCache.{Cache, QueryCacheEntry, Notice}
use vais_lang.QueryCache
use vais_lang.Mutation.{
  MutationResult, Callback, loading, error, success, on_success, on_error, on_settled,
}

-- `self.cache.get(queryKey)?.data`
unfoldable pub data_at : {D : Type 0} → String → Cache D → Option D
unfolding QueryCache.get
data_at key c = elim (QueryCache.get key c) [ none ↦ none | some e ↦ e.data_of ]

-- A call has changed the cache, run subscribers and called back.
pub record Changed (D T E : Type 0) : Type 0 where
  pub cache : Cache D
  pub handle : MutationResult T E
  pub notified : List (Notice D)
  pub callbacks : List (Callback T E)

module _ {D T E A : Type 0} where
  -- Up to the call of the mutation's function: the change and the snapshot. An updater that throws
  -- gives `none`; the handle says loading then too.
  unfoldable pub begin :
      String
      → (Option D → A → Option D)
      → A
      → ℕ
      → Cache D
      → MutationResult T E
      → Option D × Option (Changed D T E)
  unfolding QueryCache.set data_at
  begin query_key updater variables now c handle =
      let snapshot = data_at query_key c in
      (
        snapshot,
        elim (updater snapshot variables) [
          | none ↦ none
          | some optimistic_data ↦
              let (d, notified) = QueryCache.set query_key optimistic_data none none now c in
              some (record {
                cache = d;
                handle = record handle { status = loading; error_of = none };
                notified = notified;
                callbacks = [];
              })
        ],
      )

module _ {D : Type 0} where
  unfoldable pub rollback : String → Option D → ℕ → Cache D → Cache D × List (Notice D)
  unfolding QueryCache.set QueryCache.invalidate
  rollback query_key none now c = QueryCache.invalidate query_key c
  rollback query_key (some datum) now c = QueryCache.set query_key datum none none now c

module _ {D T E : Type 0} where
  -- The function of the mutation throws.
  unfoldable pub fail : String → Option D → E → ℕ → Cache D → MutationResult T E → Changed D T E
  unfolding rollback
  fail query_key snapshot err now c handle =
      let (d, notified) = rollback query_key snapshot now c in
      record {
        cache = d;
        handle = record handle { status = error; error_of = some err };
        notified = notified;
        callbacks = on_error (some err) ∷ on_settled none (some err) ∷ [];
      }

  -- It returns, up to the end of `onSuccess`.
  unfoldable pub succeed : T → Cache D → MutationResult T E → Changed D T E
  succeed result c handle = record {
    cache = c;
    handle = record handle { status = success; data_of = some result };
    notified = [];
    callbacks = on_success result ∷ [];
  }

  -- What comes after `onSuccess`.
  unfoldable pub settle : String → T → Cache D → MutationResult T E → Changed D T E
  unfolding QueryCache.invalidate
  settle query_key result c handle =
      let (d, notified) = QueryCache.invalidate query_key c in
      record {
        cache = d;
        handle = handle;
        notified = notified;
        callbacks = on_settled (some result) none ∷ [];
      }

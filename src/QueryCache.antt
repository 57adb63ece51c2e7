-- ===== src/QueryCache.antt =====
-- query/src/cache.ts: the class QueryCache. A key stands for its text from `hashQueryKey`, and times
-- are milliseconds that are not negative. The records of the cache are shared: the store holds one
-- under each key, and the function that `subscribe` returns keeps the record it was made for. So the
-- records are on a heap by number, and the store maps a key to such a number. A call returns the new
-- state and the subscribers that it runs, in order; what these call is a later step.
pub mod Valid
pub mod Reach
pub mod Reads
pub mod Clear
pub mod Invalidated
mod Tests
use vais_lang.Prelude.{
  ℕ, ◌+◌, String, Option, none, some, List, [], ◌∷◌, ◌++◌, map, Bool, true, false, ◌||◌, not,
  if◌then◌else◌, leb, is_some, or_else, ◌==◌, string_eq, nat_eq,
}
use vais_lang.Prelude.JsMap
use vais_lang.Prelude.JsMap.{JsMap}
use vais_lang.Prelude.JsSet

-- `data_of` is `none` in the placeholder of a key that has only subscribers.
pub record QueryCacheEntry (D : Type 0) : Type 0 where
  pub data_of : Option D
  pub data_updated_at : ℕ
  pub stale_time : ℕ
  pub gc_time : ℕ

-- `gc_timer` is the number of the timer.
pub record InternalEntry (D : Type 0) : Type 0 where
  pub entry : QueryCacheEntry D
  pub invalidated : Bool
  pub gc_timer : Option ℕ
  pub subscribers : List ℕ

-- `heap` has the records, `timers` the timers that are set with the key that each deletes.
pub record Cache (D : Type 0) : Type 0 where
  pub heap : JsMap ℕ (InternalEntry D)
  pub store : JsMap String ℕ
  pub timers : JsMap ℕ String
  pub next_record : ℕ
  pub next_timer : ℕ
  pub default_stale_time : ℕ
  pub default_gc_time : ℕ

-- A subscriber that is run, and its argument.
pub record Notice (D : Type 0) : Type 0 where
  pub subscriber : ℕ
  pub value : Option (QueryCacheEntry D)

abbrev pub new_cache : {D : Type 0} → ℕ → ℕ → Cache D
new_cache stale gc = record {
  heap = [];
  store = [];
  timers = [];
  next_record = 0;
  next_timer = 0;
  default_stale_time = stale;
  default_gc_time = gc;
}

-- `clearTimeout(timer)` where there is one
abbrev pub stop : Option ℕ → JsMap ℕ String → JsMap ℕ String
stop none timers = timers
stop (some t) timers = JsMap.delete t timers

module _ {D : Type 0} where
  -- `this.store.get(hashedKey)`
  unfoldable pub record_at : String → Cache D → Option (ℕ × InternalEntry D)
  unfolding JsMap.get
  record_at key c = elim (JsMap.get key c.store) [
    | none ↦ none
    | some i ↦ elim (JsMap.get i c.heap) [ none ↦ none | some r ↦ some (i, r) ]
  ]

  -- The loop over the subscribers, which are taken not to throw (that would end the loop) and not to
  -- subscribe or unsubscribe while it runs.
  abbrev pub notices : Option (QueryCacheEntry D) → List ℕ → List (Notice D)
  notices value [] = []
  notices value (s ∷ ss) = record { subscriber = s; value = value } ∷ notices value ss

  abbrev pub notify : InternalEntry D → List (Notice D)
  notify r = notices (if r.invalidated then none else some r.entry) r.subscribers

  -- `clearGcTimer`, on the record numbered i
  unfoldable pub clear_gc_timer : ℕ → InternalEntry D → Cache D → Cache D
  unfolding JsMap.set JsMap.delete
  clear_gc_timer i r c = record c {
    timers = stop r.gc_timer c.timers;
    heap = JsMap.set i (record r { gc_timer = none }) c.heap;
  }

  -- `scheduleGc`
  unfoldable pub schedule_gc : String → ℕ → InternalEntry D → Cache D → Cache D
  unfolding JsMap.set JsMap.delete
  schedule_gc key i r c = elim r.subscribers [
    | s ∷ ss ↦ c
    | [] ↦ elim r.gc_timer [
      | some t ↦ c
      | none ↦
          if leb r.entry.gc_time 0
          then record c { store = JsMap.delete key c.store }
          else record c {
            heap = JsMap.set i (record r { gc_timer = some c.next_timer }) c.heap;
            timers = JsMap.set c.next_timer key c.timers;
            next_timer = c.next_timer + 1;
          }
    ]
  ]

  -- The callback of a timer.
  unfoldable pub timer_fires : ℕ → Cache D → Cache D
  unfolding JsMap.get JsMap.delete
  timer_fires t c = elim (JsMap.get t c.timers) [
    | none ↦ c
    | some key ↦ record c { timers = JsMap.delete t c.timers; store = JsMap.delete key c.store }
  ]

  -- `this.store.set(hashedKey, record)` with a new record
  abbrev pub add_record : String → InternalEntry D → Cache D → Cache D
  add_record key r c = record c {
    heap = JsMap.set c.next_record r c.heap;
    store = JsMap.set key c.next_record c.store;
    next_record = c.next_record + 1;
  }

  unfoldable pub set : String → D → Option ℕ → Option ℕ → ℕ → Cache D → Cache D × List (Notice D)
  unfolding record_at clear_gc_timer
  set key datum stale gc now c =
      let entry : QueryCacheEntry D = record {
        data_of = some datum;
        data_updated_at = now;
        stale_time = or_else stale c.default_stale_time;
        gc_time = or_else gc c.default_gc_time;
      } in
      elim (record_at key c) [
        | some (i, r) ↦
            let fresh : InternalEntry D = record {
              entry = entry;
              invalidated = false;
              gc_timer = none;
              subscribers = r.subscribers;
            } in
            let d = clear_gc_timer i r c in
            (record d { heap = JsMap.set i fresh d.heap }, notify fresh)
        | none ↦
            let fresh : InternalEntry D = record {
              entry = entry;
              invalidated = false;
              gc_timer = none;
              subscribers = [];
            } in
            (add_record key fresh c, notify fresh)
      ]

  unfoldable pub get : String → Cache D → Option (QueryCacheEntry D)
  unfolding record_at
  get key c = elim (record_at key c) [
    | none ↦ none
    | some (i, r) ↦ if r.invalidated then none else some r.entry
  ]

  unfoldable pub has : String → Cache D → Bool
  unfolding record_at
  has key c = elim (record_at key c) [ none ↦ false | some (i, r) ↦ not r.invalidated ]

  unfoldable pub is_stale : String → ℕ → Cache D → Bool
  unfolding record_at
  is_stale key now c = elim (record_at key c) [
    | none ↦ true
    | some (i, r) ↦ r.invalidated || leb (r.entry.data_updated_at + r.entry.stale_time) now
  ]

  abbrev pub invalidate_record : String → ℕ → InternalEntry D → Cache D → Cache D × List (Notice D)
  invalidate_record key i r c =
      let marked : InternalEntry D = record r { invalidated = true } in
      (schedule_gc key i marked (record c { heap = JsMap.set i marked c.heap }), notify marked)

  unfoldable pub invalidate : String → Cache D → Cache D × List (Notice D)
  unfolding record_at schedule_gc
  invalidate key c = elim (record_at key c) [
    | none ↦ (c, [])
    | some (i, r) ↦ invalidate_record key i r c
  ]

  -- The loop over the entries of the store. An entry may be deleted in its own turn.
  unfoldable pub invalidate_each :
      (String → QueryCacheEntry D → Bool) → JsMap String ℕ → Cache D → Cache D × List (Notice D)
  unfolding schedule_gc JsMap.get
  invalidate_each test [] c = (c, [])
  invalidate_each test ((key, i) ∷ entries) c =
      let (d, first) : Cache D × List (Notice D) = elim (JsMap.get i c.heap) [
        | none ↦ (c, [])
        | some r ↦ if test key r.entry then invalidate_record key i r c else (c, [])
      ] in
      let (e, later) = invalidate_each test entries d in (e, first ++ later)

  unfoldable pub invalidate_all :
      Option (String → QueryCacheEntry D → Bool) → Cache D → Cache D × List (Notice D)
  unfolding invalidate_each
  invalidate_all predicate c = invalidate_each (or_else predicate (λ key entry. true)) c.store c

  unfoldable pub clear_each : JsMap String ℕ → Cache D → Cache D × List (Notice D)
  unfolding clear_gc_timer JsMap.get
  clear_each [] c = (c, [])
  clear_each ((key, i) ∷ entries) c =
      let (d, first) : Cache D × List (Notice D) = elim (JsMap.get i c.heap) [
        | none ↦ (c, [])
        | some r ↦ (clear_gc_timer i r c, notices none r.subscribers)
      ] in
      let (e, later) = clear_each entries d in (e, first ++ later)

  unfoldable pub clear : Cache D → Cache D × List (Notice D)
  unfolding clear_each
  clear c = let (d, notified) = clear_each c.store c in (record d { store = [] }, notified)

  -- `{ entry: { data: undefined, ... }, ... }`
  abbrev pub placeholder : Cache D → InternalEntry D
  placeholder c =
      let entry : QueryCacheEntry D = record {
        data_of = none;
        data_updated_at = 0;
        stale_time = c.default_stale_time;
        gc_time = c.default_gc_time;
      } in
      record { entry = entry; invalidated = true; gc_timer = none; subscribers = [] }

  -- The record for the key, made where there is none.
  abbrev pub or_placeholder : String → Cache D → ℕ × InternalEntry D × Cache D
  or_placeholder key c = elim (record_at key c) [
    | some (i, r) ↦ (i, r, c)
    | none ↦ (c.next_record, placeholder c, add_record key (placeholder c) c)
  ]

  -- The number of the captured record, and the new state.
  unfoldable pub subscribe : String → ℕ → Cache D → ℕ × Cache D
  unfolding record_at clear_gc_timer JsSet.add
  subscribe key callback c =
      let (i, r, d) = or_placeholder key c in
      let e = clear_gc_timer i r d in
      let watched : InternalEntry D = record r {
        gc_timer = none;
        subscribers = JsSet.add callback r.subscribers;
      } in
      (i, record e { heap = JsMap.set i watched e.heap })

  -- The function that `subscribe` returns, with what it captured.
  unfoldable pub unsubscribe : String → ℕ → ℕ → Cache D → Cache D
  unfolding schedule_gc JsSet.delete JsMap.get
  unsubscribe key i callback c = elim (JsMap.get i c.heap) [
    | none ↦ c
    | some r ↦
        let left : InternalEntry D = record r {
          subscribers = JsSet.delete callback r.subscribers;
        } in
        schedule_gc key i left (record c { heap = JsMap.set i left c.heap })
  ]

  -- The keys of the store whose record is not invalidated, with their entries.
  unfoldable pub entries_of : JsMap String ℕ → Cache D → JsMap String (QueryCacheEntry D)
  unfolding JsMap.get
  entries_of [] c = []
  entries_of ((key, i) ∷ store) c =
      let rest = entries_of store c in
      elim (JsMap.get i c.heap) [
        | none ↦ rest
        | some r ↦ if r.invalidated then rest else (key, r.entry) ∷ rest
      ]

  abbrev pub get_all : Cache D → JsMap String (QueryCacheEntry D)
  get_all c = entries_of c.store c

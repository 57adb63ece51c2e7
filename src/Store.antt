-- ===== src/Store.antt =====
-- store/src/store.ts: the state of a store made by defineStore. Subscribers are numbers, and what one
-- does when it runs is a later step.
pub mod Laws
mod Tests
use vais_lang.Prelude.{
  ℕ, String, Option, none, some, List, [], ◌∷◌, ◌++◌, Bool, true, false, not, ◌&&◌, is_some,
  if◌then◌else◌, string_eq, nat_eq,
}
use vais_lang.Prelude.JsMap
use vais_lang.Prelude.JsMap.{JsMap}
use vais_lang.Prelude.JsSet

-- The values of the signals, the subscribers, and `batchingRef.value`.
pub record Store (V : Type 0) : Type 0 where
  pub signals : JsMap String V
  pub subscribers : List ℕ
  pub batching : Bool

-- A subscriber that is run, and the snapshot that it gets.
pub record Notice (V : Type 0) : Type 0 where
  pub subscriber : ℕ
  pub snapshot : JsMap String V

-- An assignment to a property of the state, or its deletion.
pub data Write (V : Type 0) : Type 0 where
  assign : String → V → Write V
  remove : String → Write V

abbrev pub new_store : {V : Type 0} → JsMap String V → Store V
new_store initial = record { signals = initial; subscribers = []; batching = false }

module _ {V : Type 0} where
  -- The loop over the subscribers, which are taken not to throw (that would end the loop) and not to
  -- subscribe or unsubscribe while it runs.
  abbrev pub notify_each : List ℕ → JsMap String V → List (Notice V)
  notify_each [] state = []
  notify_each (s ∷ ss) state = record { subscriber = s; snapshot = state } ∷ notify_each ss state

  unfoldable pub notify_subscribers : Store V → List (Notice V)
  notify_subscribers s = notify_each s.subscribers s.signals

  unfoldable pub subscribe : ℕ → Store V → Store V
  unfolding JsSet.add
  subscribe callback s = record s { subscribers = JsSet.add callback s.subscribers }

  unfoldable pub unsubscribe : ℕ → Store V → Store V
  unfolding JsSet.delete
  unsubscribe callback s = record s { subscribers = JsSet.delete callback s.subscribers }

  abbrev pub assignments : JsMap String V → List (Write V)
  assignments [] = []
  assignments ((k, v) ∷ fresh) = assign k v ∷ assignments fresh

  -- The keys of the state that the new one does not have.
  abbrev pub removals : JsMap String V → JsMap String V → List (Write V)
  removals fresh [] = []
  removals fresh ((k, v) ∷ state) =
      let rest = removals fresh state in if JsMap.has k fresh then rest else remove k ∷ rest

-- `same` is Object.is.
module _ {V : Type 0} (same : V → V → Bool) where
  -- The traps of the proxy. A property that is new has its value as soon as it is made.
  unfoldable pub write : Write V → Store V → Store V × List (Notice V)
  unfolding JsMap.get JsMap.set JsMap.delete notify_subscribers
  write (assign key value) s =
      let previous : V = elim (JsMap.get key s.signals) [ none ↦ value | some p ↦ p ] in
      let t = record s { signals = JsMap.set key value s.signals } in
      (t, if not s.batching && not (same previous value) then notify_subscribers t else [])
  write (remove key) s = (record s { signals = JsMap.delete key s.signals }, [])

  unfoldable pub write_all : List (Write V) → Store V → Store V × List (Notice V)
  unfolding write
  write_all [] s = (s, [])
  write_all (w ∷ ws) s =
      let (t, first) = write w s in let (u, later) = write_all ws t in (u, first ++ later)

  -- `$patch`, with the writes that its function makes and whether it then throws. An object makes the
  -- assignments of its properties, and does not throw.
  unfoldable pub patch : List (Write V) → Bool → Store V → Store V × List (Notice V)
  unfolding write_all notify_subscribers
  patch writes throws s =
      let (t, first) = write_all writes (record s { batching = true }) in
      let done = record t { batching = false } in
      if throws then (t, first) else (done, first ++ notify_subscribers done)

  -- `$reset`; `fresh` is what the factory of the state returns.
  unfoldable pub reset : JsMap String V → Store V → Store V × List (Notice V)
  unfolding write_all notify_subscribers JsMap.get
  reset fresh s =
      let (t, first) = write_all (assignments fresh) (record s { batching = true }) in
      let (u, later) = write_all (removals fresh t.signals) t in
      let done = record u { batching = false } in
      (done, first ++ (later ++ notify_subscribers done))

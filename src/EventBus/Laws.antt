-- ===== src/EventBus/Laws.antt =====
-- What an operation does to the handlers of an event, and which functions an event calls.
use vais_lang.Prelude.{
  inl, inr, Option-cases, Bool-cases, ℕ, ◌≡◌, ◌≢◌, refl, String, some, List, [], ◌∷◌, ◌++◌, filter,
  true, false, not, if◌then◌else◌, string_eq, str_eq, eq_iff, arith, All, Bool, map, ◌⊎◌, nat_beq,
}
use vais_lang.Prelude.JsMap
use vais_lang.Prelude.JsMap.{JsMap, get-set, get-delete}
use vais_lang.EventBus.{
  InternalHandler, Registry, get_handlers, on, once, off, splice_first, put_handlers, call_all,
  emit,
}

-- The handlers that stay after an event.
abbrev pub lasting : List InternalHandler → List InternalHandler
lasting handlers = filter (λ h. not h.once_only) handlers

-- A list and what is left of it without the first entry of a function, if it has one.
pub data WithoutFirst (f : ℕ) : List InternalHandler → List InternalHandler → Type 0 where
  absent : {hs : List InternalHandler} → All (λ h. h.fn ≢ f) hs → WithoutFirst f hs hs
  found :
      (before : List InternalHandler) (h : InternalHandler) (after : List InternalHandler)
      → All (λ k. k.fn ≢ f) before
      → h.fn ≡ f
      → WithoutFirst f (before ++ h ∷ after) (before ++ after)

add-WithoutFirst :
    (f : ℕ) (h : InternalHandler) {hs rest : List InternalHandler}
    → h.fn ≢ f
    → WithoutFirst f hs rest
    → WithoutFirst f (h ∷ hs) (h ∷ rest)
add-WithoutFirst f h ne (absent all) = absent (ne, all)
add-WithoutFirst f h ne (found before k after all e) = found (h ∷ before) k after (ne, all) e

splice_first-WithoutFirst :
    (f : ℕ) (hs : List InternalHandler) → WithoutFirst f hs (splice_first f hs)
unfolding splice_first
splice_first-WithoutFirst f [] = absent tt
splice_first-WithoutFirst f (h ∷ hs) = elim (Bool-cases (nat_beq h.fn f)) [
  | inl e ↦ rw e (found [] h hs tt (ground (arith, e)))
  | inr e ↦ rw e (add-WithoutFirst f h (ground (arith, e)) (splice_first-WithoutFirst f hs))
]

-- The calls that are made of some functions in order: all, if none throws, or those up to the first that
-- throws.
pub data CallsUpTo (throws : ℕ → Bool) : List ℕ → List ℕ × Bool → Type 0 where
  all_return : {fns : List ℕ} → All (λ f. throws f ≡ false) fns → CallsUpTo throws fns (fns, false)
  one_throws :
      (before : List ℕ) (f : ℕ) (after : List ℕ)
      → All (λ g. throws g ≡ false) before
      → throws f ≡ true
      → CallsUpTo throws (before ++ f ∷ after) (before ++ f ∷ [], true)

add-CallsUpTo :
    (throws : ℕ → Bool) (f : ℕ) {fns calls : List ℕ} {threw : Bool}
    → throws f ≡ false
    → CallsUpTo throws fns (calls, threw)
    → CallsUpTo throws (f ∷ fns) (f ∷ calls, threw)
add-CallsUpTo throws f e (all_return all) = all_return (e, all)
add-CallsUpTo throws f e (one_throws before g after all t) =
    one_throws (f ∷ before) g after (e, all) t

call_all-CallsUpTo :
    (throws : ℕ → Bool) (hs : List InternalHandler)
    → CallsUpTo throws (map (λ h. h.fn) hs) (call_all throws hs)
unfolding call_all
call_all-CallsUpTo throws [] = all_return tt
call_all-CallsUpTo throws (h ∷ hs) = elim (Bool-cases (throws h.fn)) [
  | inl e ↦ rw e (one_throws [] h.fn (map (λ k. k.fn) hs) tt e)
  | inr e ↦ rw e (add-CallsUpTo throws h.fn e (call_all-CallsUpTo throws hs))
]

put_handlers-get_handlers :
    (event e : String) (hs : List InternalHandler) (r : Registry)
    → get_handlers e (put_handlers event hs r) ≡ (if str_eq event e then hs else get_handlers e r)
put_handlers-get_handlers event e [] r = ground (arith, get-delete event e r)
put_handlers-get_handlers event e (h ∷ hs) r = ground (arith, get-set event e (h ∷ hs) r)

module _ (throws : ℕ → Bool) where
  emit-some :
      (event : String) (hs : List InternalHandler) (r : Registry)
      → JsMap.get event r ≡ some hs
      → (e : String)
      → (get_handlers e (emit throws event r).0
          ≡ (if str_eq event e then lasting (get_handlers e r) else get_handlers e r))
        × ((emit throws event r).1 ≡ call_all throws (get_handlers event r))
  unfolding emit call_all
  emit-some event [] r h e = rw (h, emit) (ground (arith, h, eq_iff event e))
  emit-some event (k ∷ hs) r h e =
      rw (h, emit)
        (
          ground (arith, h, eq_iff event e, put_handlers-get_handlers event e (lasting (k ∷ hs)) r),
          refl,
        )

  emit_lem :
      (event e : String) (r : Registry)
      → (get_handlers e (emit throws event r).0
          ≡ (if str_eq event e then lasting (get_handlers e r) else get_handlers e r))
        × ((emit throws event r).1 ≡ call_all throws (get_handlers event r))
  unfolding emit call_all
  emit_lem event e r = elim (Option-cases (JsMap.get event r)) [
    | inl h ↦ rw (h, emit) (ground (arith, h, eq_iff event e))
    | inr (hs, h) ↦ emit-some event hs r h e
  ]

off-get_handlers :
    (event e : String) (h : ℕ) (r : Registry)
    → get_handlers e (off event h r)
      ≡ (if str_eq event e then splice_first h (get_handlers e r) else get_handlers e r)
unfolding off splice_first
off-get_handlers event e h r = elim (Option-cases (JsMap.get event r)) [
  | inl a ↦ rw (a, off) (ground (arith, a, eq_iff event e))
  | inr (hs, a) ↦
      rw (a, off)
        (ground (arith, a, eq_iff event e, put_handlers-get_handlers event e (splice_first h hs) r))
]

-- One operation.
pub data Operation : Type 0 where
  adds adds_once removes : String → ℕ → Operation
  emits : String → Operation

abbrev pub operate : (ℕ → Bool) → Operation → Registry → Registry
operate throws (adds event h) r = on event h r
operate throws (adds_once event h) r = once event h r
operate throws (removes event h) r = off event h r
operate throws (emits event) r = (emit throws event r).0

abbrev pub event_of : Operation → String
event_of (adds event h) = event
event_of (adds_once event h) = event
event_of (removes event h) = event
event_of (emits event) = event

-- What the operation does to the handlers of its event.
abbrev pub Changes : Operation → List InternalHandler → List InternalHandler → Type 0
Changes (adds event h) hs after = after ≡ hs ++ record { fn = h; once_only = false } ∷ []
Changes (adds_once event h) hs after = after ≡ hs ++ record { fn = h; once_only = true } ∷ []
Changes (removes event h) hs after = WithoutFirst h hs after
Changes (emits event) hs after = after ≡ lasting hs

-- The operation does so to the handlers of its event, and leaves those of another as they are.
abbrev pub AtEvent : String → Operation → List InternalHandler → List InternalHandler → Type 0
AtEvent e o hs after = ((event_of o ≡ e) × Changes o hs after) ⊎ ((event_of o ≢ e) × (after ≡ hs))

operate-AtEvent :
    (throws : ℕ → Bool) (e : String) (o : Operation) (r : Registry)
    → AtEvent e o (get_handlers e r) (get_handlers e (operate throws o r))
unfolding on once
operate-AtEvent throws e (adds event h) r = ground (
  arith,
  eq_iff event e,
  get-set event e (get_handlers event r ++ record { fn = h; once_only = false } ∷ []) r,
)
operate-AtEvent throws e (adds_once event h) r = ground (
  arith,
  eq_iff event e,
  get-set event e (get_handlers event r ++ record { fn = h; once_only = true } ∷ []) r,
)
operate-AtEvent throws e (removes event h) r = elim (Bool-cases (str_eq event e)) [
  | inl same ↦ inl (
    (eq_iff event e).0 same,
    rw (off-get_handlers event e h r, same) (splice_first-WithoutFirst h (get_handlers e r)),
  )
  | inr other ↦ ground (arith, eq_iff event e, other, off-get_handlers event e h r)
]
operate-AtEvent throws e (emits event) r = ground (arith, eq_iff event e, emit_lem throws event e r)

-- For every event, whatever other events the bus has: `on` and `once` add the handler at the end of the
-- handlers of their event, `off` removes the first entry of the function from them, if there is one, and
-- leaves all others, `emit` removes those added by `once` and no other, also if a handler throws, and
-- each leaves the handlers of the other events as they are; and an emission calls the functions of the
-- handlers that its event has before it, in the order they were added, each once, up to and with the
-- first that throws, and throws just when one does.
pub operate_and_emit :
    (throws : ℕ → Bool) (e : String) (o : Operation) (r : Registry)
    → AtEvent e o (get_handlers e r) (get_handlers e (operate throws o r))
      × CallsUpTo throws (map (λ h. h.fn) (get_handlers e r)) (emit throws e r).1
operate_and_emit throws e o r = (
  operate-AtEvent throws e o r,
  rw (emit_lem throws e e r).1 (call_all-CallsUpTo throws (get_handlers e r)),
)

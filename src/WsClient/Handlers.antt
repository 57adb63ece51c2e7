-- ===== src/WsClient/Handlers.antt =====
-- Subscriptions to events and streams.
use vais_lang.Prelude.{
  inr, inl, Option-cases, ℕ, ◌≡◌, ◌≢◌, refl, String, Option, none, some, List, [], ◌∷◌,
  if◌then◌else◌, or_else, arith, eq_iff, str_eq, string_eq, nat_eq,
}
use vais_lang.Prelude.JsMap
use vais_lang.Prelude.JsMap.{JsMap, get-set, get-delete}
use vais_lang.Prelude.JsSet
use vais_lang.WsClient.{add_handler, remove_handler, put_handlers}

-- The handlers that an event with this key runs.
abbrev pub handlers_at : String → JsMap String (List ℕ) → List ℕ
handlers_at key m = or_else (JsMap.get key m) []

-- Whether a key has a set of handlers that is empty: the code deletes such a set.
abbrev pub HasNoEmpty : JsMap String (List ℕ) → Type 0
HasNoEmpty m = (key : String) → JsMap.get key m ≢ some []

add-ne-nil : (h : ℕ) (hs : List ℕ) → JsSet.add h hs ≢ []
unfolding JsSet.add
add-ne-nil h [] = cc
add-ne-nil h (x ∷ hs) = ground arith

abbrev unless_empty : List ℕ → Option (List ℕ)
unless_empty [] = none
unless_empty (h ∷ hs) = some (h ∷ hs)

abbrev removed : ℕ → Option (List ℕ) → Option (List ℕ)
removed h none = none
removed h (some hs) = unless_empty (JsSet.delete h hs)

get-put_handlers :
    (key j : String) (hs : List ℕ) (m : JsMap String (List ℕ))
    → JsMap.get j (put_handlers key hs m)
      ≡ (if str_eq key j then unless_empty hs else JsMap.get j m)
get-put_handlers key j [] m = get-delete key j m
get-put_handlers key j (h ∷ hs) m = get-set key j (h ∷ hs) m

module _ (key j : String) (h : ℕ) (m : JsMap String (List ℕ)) where
  get-add_handler :
      JsMap.get j (add_handler key h m)
      ≡ (if str_eq key j then some (JsSet.add h (handlers_at key m)) else JsMap.get j m)
  unfolding add_handler
  get-add_handler = get-set key j (JsSet.add h (handlers_at key m)) m

  get-remove_handler :
      JsMap.get j (remove_handler key h m)
      ≡ (if str_eq key j then removed h (JsMap.get key m) else JsMap.get j m)
  unfolding remove_handler
  get-remove_handler = elim (Option-cases (JsMap.get key m)) [
    | inl e ↦ rw (e, remove_handler) (ground (arith, e, eq_iff key j))
    | inr (hs, e) ↦ rw (e, remove_handler) (get-put_handlers key j (JsSet.delete h hs) m)
  ]

or_else-removed :
    (h : ℕ) (o : Option (List ℕ)) → or_else (removed h o) [] ≡ JsSet.delete h (or_else o [])
unfolding JsSet.delete
or_else-removed h none = refl
or_else-removed h (some hs) = unless (JsSet.delete h hs)
  where
    unless : (l : List ℕ) → or_else (unless_empty l) [] ≡ l
    unless [] = refl
    unless (x ∷ l) = refl

removed-ne : (h : ℕ) (o : Option (List ℕ)) → removed h o ≢ some []
removed-ne h none = cc
removed-ne h (some hs) = unless (JsSet.delete h hs)
  where
    unless : (l : List ℕ) → unless_empty l ≢ some []
    unless [] = cc
    unless (x ∷ l) = cc

-- Subscribing runs the handler last for its key, once however often it is subscribed, and changes
-- no other key; unsubscribing runs the others as before, and neither leaves an empty set behind.
pub add_handler-handlers_at :
    (key j : String) (h : ℕ) (m : JsMap String (List ℕ))
    → HasNoEmpty m
    → (handlers_at j (add_handler key h m)
        ≡ (if str_eq key j then JsSet.add h (handlers_at j m) else handlers_at j m))
      × (handlers_at j (remove_handler key h m)
          ≡ (if str_eq key j then JsSet.delete h (handlers_at j m) else handlers_at j m))
      × HasNoEmpty (add_handler key h m)
      × HasNoEmpty (remove_handler key h m)
add_handler-handlers_at key j h m full = (
  rw (get-add_handler key j h m) (ground (arith, eq_iff key j)),
  rw (get-remove_handler key j h m)
      (ground (arith, eq_iff key j, or_else-removed h (JsMap.get key m))),
  λ i. rw (get-add_handler key i h m) (ground (arith, full i, add-ne-nil h (handlers_at key m))),
  λ i. rw (get-remove_handler key i h m) (ground (arith, full i, removed-ne h (JsMap.get key m))),
)

-- ===== src/Prelude/JsMap.antt =====
-- A JavaScript `Map`: its entries in insertion order. Setting a key that is present keeps its place.
use mathlib.Core.Path.{◌≡◌, refl, ◌∙◌}
use mathlib.Core.Logic.{inl, inr}
use mathlib.Core.Bool.{Bool}
use mathlib.Core.Option.{Option, none, some}
use mathlib.Core.List.{List, [], ◌∷◌}
use native.Mathlib.Omega.{arith}
use vais_lang.Prelude.Tests.{if◌then◌else◌, is_some, Bool-cases}
use vais_lang.Prelude.Compare.{Eq, ◌==◌}

abbrev pub JsMap {ℓ κ} : Type ℓ → Type κ → Type (ℓ ⊔ κ)
JsMap K V = List (K × V)

module _ {ℓ κ} {K : Type ℓ} {V : Type κ} ⦃e : Eq K⦄ where
  -- `m.get(k)`
  unfoldable pub get : K → JsMap K V → Option V
  get k [] = none
  get k ((j, v) ∷ m) = if j == k then some v else get k m

  -- `m.has(k)`
  abbrev pub has : K → JsMap K V → Bool
  has k m = is_some (get k m)

  -- `m.set(k, v)`
  unfoldable pub set : K → V → JsMap K V → JsMap K V
  set k v [] = (k, v) ∷ []
  set k v ((j, w) ∷ m) = let rest = set k v m in if j == k then (j, v) ∷ m else (j, w) ∷ rest

  -- `m.delete(k)`
  unfoldable pub delete : K → JsMap K V → JsMap K V
  delete k [] = []
  delete k ((j, v) ∷ m) = let rest = delete k m in if j == k then rest else (j, v) ∷ rest

  pub get-set :
      (k j : K) (v : V) (m : JsMap K V) → get j (set k v m) ≡ (if k == j then some v else get j m)
  unfolding get set
  get-set k j v [] = refl
  get-set k j v ((i, w) ∷ m) =
      ground (arith, get-set k j v m, e.same_iff i k, e.same_iff i j, e.same_iff k j)

  pub get-delete :
      (k j : K) (m : JsMap K V) → get j (delete k m) ≡ (if k == j then none else get j m)
  unfolding get delete
  get-delete k j [] = ground arith
  get-delete k j ((i, v) ∷ m) =
      ground (arith, get-delete k j m, e.same_iff i k, e.same_iff i j, e.same_iff k j)

  -- No key occurs twice, as in every `Map`.
  abbrev pub HasDistinctKeys : JsMap K V → Type (ℓ ⊔ κ)
  HasDistinctKeys [] = Unit
  HasDistinctKeys ((k, v) ∷ m) = (get k m ≡ none) × HasDistinctKeys m

  pub set-HasDistinctKeys :
      (k : K) (v : V) (m : JsMap K V) → HasDistinctKeys m → HasDistinctKeys (set k v m)
  unfolding set get
  set-HasDistinctKeys k v [] h = (refl, tt)
  set-HasDistinctKeys k v ((j, w) ∷ m) (p, h) = elim (Bool-cases (j == k)) [
    | inl same ↦ rw same (p, h)
    | inr other ↦ rw other (
      get-set k j v m ∙ (ground (arith, p, e.same_iff j k, e.same_iff k j)),
      set-HasDistinctKeys k v m h,
    )
  ]

  pub delete-HasDistinctKeys :
      (k : K) (m : JsMap K V) → HasDistinctKeys m → HasDistinctKeys (delete k m)
  unfolding delete
  delete-HasDistinctKeys k [] h = tt
  delete-HasDistinctKeys k ((j, w) ∷ m) (p, h) = elim (Bool-cases (j == k)) [
    | inl same ↦ rw same (delete-HasDistinctKeys k m h)
    | inr other ↦ rw other (get-delete k j m ∙ (ground (arith, p)), delete-HasDistinctKeys k m h)
  ]

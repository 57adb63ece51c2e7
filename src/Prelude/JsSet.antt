-- ===== src/Prelude/JsSet.antt =====
-- A JavaScript `Set`: its elements in insertion order. Adding one that is present changes nothing.
use mathlib.Core.Path.{◌≡◌, refl}
use mathlib.Core.Bool.{Bool, false, ◌||◌}
use mathlib.Core.List.{List, [], ◌∷◌, ◌++◌}
use native.Mathlib.Omega.{arith}
use vais_lang.Prelude.Tests.{if◌then◌else◌}
use vais_lang.Prelude.Compare.{Eq, ◌==◌}

module _ {ℓ} {A : Type ℓ} ⦃e : Eq A⦄ where
  -- `s.has(a)`
  unfoldable pub has : A → List A → Bool
  has a [] = false
  has a (x ∷ xs) = x == a || has a xs

  -- `s.add(a)`
  unfoldable pub add : A → List A → List A
  unfolding has
  add a xs = if has a xs then xs else xs ++ a ∷ []

  -- `s.delete(a)`
  unfoldable pub delete : A → List A → List A
  delete a [] = []
  delete a (x ∷ xs) = let rest = delete a xs in if x == a then rest else x ∷ rest

  -- No element occurs twice.
  abbrev pub IsDistinct : List A → Type 0
  IsDistinct [] = Unit
  IsDistinct (x ∷ xs) = (has x xs ≡ false) × IsDistinct xs

  pub has-append : (a : A) (xs ys : List A) → has a (xs ++ ys) ≡ (has a xs || has a ys)
  unfolding has
  has-append a [] ys = refl
  has-append a (x ∷ xs) ys = ground (arith, has-append a xs ys)

  pub has-add : (a b : A) (xs : List A) → has b (add a xs) ≡ (a == b || has b xs)
  unfolding add
  has-add a b xs = ground (arith, has-append b xs (a ∷ []), e.same_iff a b)

  IsDistinct-concat :
      (a : A) (xs : List A) → has a xs ≡ false → IsDistinct xs → IsDistinct (xs ++ a ∷ [])
  unfolding has
  IsDistinct-concat a [] h d = (refl, tt)
  IsDistinct-concat a (x ∷ xs) h (p, d) = (
    ground (arith, has-append x xs (a ∷ []), e.same_iff a x, e.same_iff x a),
    IsDistinct-concat a xs (ground arith) d,
  )

  pub add-IsDistinct : (a : A) (xs : List A) → IsDistinct xs → IsDistinct (add a xs)
  unfolding add
  add-IsDistinct a xs d = ground (arith, IsDistinct-concat a xs)

  pub has-delete :
      (a b : A) (xs : List A) → has b (delete a xs) ≡ (if a == b then false else has b xs)
  unfolding has delete
  has-delete a b [] = ground arith
  has-delete a b (x ∷ xs) =
      ground (arith, has-delete a b xs, e.same_iff x a, e.same_iff x b, e.same_iff a b)

-- ===== src/FieldArray.antt =====
-- forms/src/field-array.ts: `useFieldArray`, with the list that the form holds as the state. A call
-- gives the list to commit, or `none` where it returns without a commit. Indices are whole numbers.
pub mod Laws
mod Tests
use vais_lang.Prelude.{
  ℕ, suc, Option, none, some, List, [], ◌∷◌, ◌++◌, if◌then◌else◌, ltb, length, take, drop,
  get_elem?, set,
}

-- `negsuc n` is -(n + 1).
pub data ℤ : Type 0 where
  pos : ℕ → ℤ
  negsuc : ℕ → ℤ

module _ {A : Type 0} where
  -- An index from 0 up to the length, which is excluded.
  abbrev pub in_range : List A → ℤ → Option ℕ
  in_range current (pos i) = if ltb i (length current) then some i else none
  in_range current (negsuc i) = none

  -- `toAdd` is the list of the values.
  abbrev pub append : List A → List A → List A
  append to_add current = current ++ to_add

  abbrev pub prepend : List A → List A → List A
  prepend to_add current = to_add ++ current

  -- `next.splice(i, 1)`
  abbrev pub splice_out : ℕ → List A → List A
  splice_out i next = take i next ++ drop (suc i) next

  -- `next.splice(i, 0, item)`
  abbrev pub splice_in : ℕ → A → List A → List A
  splice_in i item next = take i next ++ item ∷ drop i next

  unfoldable pub remove : ℤ → List A → Option (List A)
  remove index current = elim (in_range current index) [
    | none ↦ none
    | some i ↦ some (splice_out i current)
  ]

  abbrev pub swap_at : ℕ → ℕ → List A → Option (List A)
  swap_at a b current = elim (get_elem? current a) [
    | none ↦ none
    | some x ↦ elim (get_elem? current b) [
      | none ↦ none
      | some y ↦ some (set (set current a y) b x)
    ]
  ]

  unfoldable pub swap : ℤ → ℤ → List A → Option (List A)
  swap index_a index_b current = elim (in_range current index_a) [
    | none ↦ none
    | some a ↦ elim (in_range current index_b) [ none ↦ none | some b ↦ swap_at a b current ]
  ]

  unfoldable pub move : ℤ → ℤ → List A → Option (List A)
  move from to current = elim (in_range current from) [
    | none ↦ none
    | some i ↦ elim (in_range current to) [
      | none ↦ none
      | some j ↦ elim (get_elem? current i) [
        | none ↦ none
        | some item ↦ some (splice_in j item (splice_out i current))
      ]
    ]
  ]

  -- `Math.max(0, Math.min(index, current.length))`
  abbrev pub clamped : ℤ → List A → ℕ
  clamped (pos i) current = if ltb i (length current) then i else length current
  clamped (negsuc i) current = 0

  unfoldable pub insert : ℤ → A → List A → List A
  insert index value current = splice_in (clamped index current) value current

-- ===== src/FieldArray/Laws.antt =====
-- What the operations do to the items of the list.
use vais_lang.Prelude.{
  ap, inl, inr, Option-cases, ◌≤◌, ◌<◌, ℕ, zero, suc, ◌≡◌, refl, some, List, [], ◌∷◌, length,
  get_elem?, arith,
}
use vais_lang.FieldArray.{ℤ, pos, negsuc, splice_out, splice_in, remove, move, clamped, insert}

module _ {A : Type 0} where
  splice_out-splice_in :
      (i : ℕ) (x : A) (xs : List A) → i ≤ length xs → splice_out i (splice_in i x xs) ≡ xs
  splice_out-splice_in zero x xs h = refl
  splice_out-splice_in (suc i) x [] h = ground (arith, h)
  splice_out-splice_in (suc i) x (y ∷ xs) h =
      ap (λ l. y ∷ l) (splice_out-splice_in i x xs (omega (arith, h)))

  splice_in-splice_out :
      (i : ℕ) (x : A) (xs : List A) → get_elem? xs i ≡ some x → splice_in i x (splice_out i xs) ≡ xs
  splice_in-splice_out i x [] h = cc
  splice_in-splice_out zero x (y ∷ xs) h = cc
  splice_in-splice_out (suc i) x (y ∷ xs) h = ap (λ l. y ∷ l) (splice_in-splice_out i x xs h)

  length-splice_in : (i : ℕ) (x : A) (xs : List A) → length (splice_in i x xs) ≡ suc (length xs)
  length-splice_in zero x xs = refl
  length-splice_in (suc i) x [] = refl
  length-splice_in (suc i) x (y ∷ xs) = ap suc (length-splice_in i x xs)

  length-splice_out :
      (i : ℕ) (xs : List A) → i < length xs → suc (length (splice_out i xs)) ≡ length xs
  length-splice_out i [] h = ground (arith, h)
  length-splice_out zero (y ∷ xs) h = refl
  length-splice_out (suc i) (y ∷ xs) h = ap suc (length-splice_out i xs (omega (arith, h)))

  get_elem?-splice_in :
      (i : ℕ) (x : A) (xs : List A) → i ≤ length xs → get_elem? (splice_in i x xs) i ≡ some x
  get_elem?-splice_in zero x xs h = refl
  get_elem?-splice_in (suc i) x [] h = ground (arith, h)
  get_elem?-splice_in (suc i) x (y ∷ xs) h = get_elem?-splice_in i x xs (omega (arith, h))

  clamped-le : (index : ℤ) (xs : List A) → clamped index xs ≤ length xs
  clamped-le (pos i) xs = ground arith
  clamped-le (negsuc i) xs = omega arith

  -- `insert` puts the value at the index, or at the nearer end where there is no such place: removing
  -- what stands there gives the list from before, for every index and list.
  pub remove-insert :
      (index : ℤ) (x : A) (xs : List A)
      → remove (pos (clamped index xs)) (insert index x xs) ≡ some xs
  unfolding remove insert
  remove-insert index x xs =
      let i = clamped index xs in
      ground (
        arith,
        clamped-le index xs,
        length-splice_in i x xs,
        splice_out-splice_in i x xs (clamped-le index xs),
      )

  move_at :
      (i j : ℕ) (item : A) (xs : List A)
      → i < length xs
      → j < length xs
      → get_elem? xs i ≡ some item
      → (move (pos i) (pos j) xs ≡ some (splice_in j item (splice_out i xs)))
        × (move (pos j) (pos i) (splice_in j item (splice_out i xs)) ≡ some xs)
  unfolding move
  move_at i j item xs hi hj e =
      let rest = splice_out i xs in
      (
        ground (arith, hi, hj, e),
        ground (
          arith,
          hi,
          hj,
          length-splice_out i xs hi,
          length-splice_in j item rest,
          get_elem?-splice_in j item rest (omega (arith, hj, length-splice_out i xs hi)),
          splice_out-splice_in j item rest (omega (arith, hj, length-splice_out i xs hi)),
          splice_in-splice_out i item xs e,
        ),
      )

  move-in_range :
      (i j : ℕ) (xs ys : List A)
      → move (pos i) (pos j) xs ≡ some ys
      → (item : A) × (i < length xs) × (j < length xs) × (get_elem? xs i ≡ some item)
  unfolding move
  move-in_range i j xs ys h = elim (Option-cases (get_elem? xs i)) [
    | inl e ↦ ground (arith, h, e)
    | inr (item, e) ↦ (item, ground (arith, h), ground (arith, h), e)
  ]

  -- A move that is carried out is undone by the move from the new index to the old one.
  pub move-move :
      (from to : ℤ) (xs ys : List A) → move from to xs ≡ some ys → move to from ys ≡ some xs
  unfolding move
  move-move (pos i) (pos j) xs ys h =
      let (item, hi, hj, e) = move-in_range i j xs ys h in
      let (there, back) = move_at i j item xs hi hj e in ground (arith, h, there, back)
  move-move (pos i) (negsuc j) xs ys h = ground (arith, h)
  move-move (negsuc i) to xs ys h = ground (arith, h)

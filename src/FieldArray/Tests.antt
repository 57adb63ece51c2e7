-- ===== src/FieldArray/Tests.antt =====
-- Runs of the field array, and its theorems at concrete inputs.
use vais_lang.Prelude.{ℕ, ◌≡◌, refl, some, List, [], ◌∷◌}
use vais_lang.FieldArray.{pos, move, swap}
use vais_lang.FieldArray.Laws.{move-move}

abbrev items : List ℕ
items = 1 ∷ 2 ∷ 3 ∷ []

abbrev moved : List ℕ
moved = 2 ∷ 3 ∷ 1 ∷ []

swaps : swap (pos 0) (pos 1) moved ≡ some (3 ∷ 2 ∷ 1 ∷ [])
unfolding swap
swaps = refl

move-move_example : move (pos 2) (pos 0) moved ≡ some items
unfolding move
move-move_example = move-move (pos 0) (pos 2) items moved refl

-- ===== src/Rag/Splitter.antt =====
-- createDocumentSplitter of ai/src/rag.ts. A text is the list of its UTF-16 code units; the sizes are
-- whole numbers.
pub mod Windows
use Prim.Native.Nat.{min}
use vais_lang.Prelude.{
  ℕ, zero, suc, ◌+◌, ◌-◌, ◌≡◌, Option, none, some, List, [], ◌∷◌, ◌++◌, Bool, true, false, ltb, leb,
  nat_beq, ◌>>=◌, if◌then◌else◌, length, take, drop, filter,
}

abbrev pub Text : Type 0
Text = List ℕ

pub record SplitOptions : Type 0 where
  pub chunk_size : ℕ
  pub overlap : ℕ
  pub separator : Option Text

-- `text.slice(start, end)`
abbrev pub slice : ℕ → ℕ → Text → Text
slice start end text = take (end - start) (drop start text)

abbrev pub is_prefix : Text → Text → Bool
is_prefix [] text = true
is_prefix (u ∷ us) [] = false
is_prefix (u ∷ us) (v ∷ vs) = if nat_beq u v then is_prefix us vs else false

abbrev pub push_unit : ℕ → List Text → List Text
push_unit u [] = (u ∷ []) ∷ []
push_unit u (s ∷ segments) = (u ∷ s) ∷ segments

-- `text.split(separator)` for a separator that is not empty; `skip` units of it are still to go.
unfoldable pub split_from : ℕ → Text → Text → List Text
split_from (suc skip) separator (u ∷ text) = split_from skip separator text
split_from zero separator (u ∷ text) = elim (is_prefix separator (u ∷ text)) [
  | true ↦ [] ∷ split_from (length separator - 1) separator text
  | false ↦ push_unit u (split_from zero separator text)
]
split_from skip separator [] = [] ∷ []

abbrev pub is_filled : Text → Bool
is_filled [] = false
is_filled (u ∷ us) = true

-- `segments.join(separator)`
abbrev pub join_segments : Text → List Text → Text
join_segments separator [] = []
join_segments separator (s ∷ []) = s
join_segments separator (s ∷ t ∷ segments) =
    s ++ (separator ++ join_segments separator (t ∷ segments))

-- What the window slides over. An empty separator counts as none.
unfoldable pub joined_text : Option Text → Text → Text
unfolding split_from
joined_text none text = text
joined_text (some []) text = text
joined_text (some (u ∷ us)) text =
    join_segments (u ∷ us) (filter is_filled (split_from 0 (u ∷ us) text))

-- The loop over windows, on fuel. With an overlap that is not below the size, `start` never gets past
-- the first window, so that the loop does not end; its negative values are not told apart.
unfoldable pub windows : ℕ → SplitOptions → Text → ℕ → Option (List Text)
windows zero options joined start = none
windows (suc fuel) options joined start =
    let end = min (start + options.chunk_size) (length joined) in
    let chunk = slice start end joined in
    let next = start + options.chunk_size - options.overlap in
    let rest = windows fuel options joined next in
    if ltb start (length joined)
    then (if nat_beq end (length joined)
        then some (chunk ∷ [])
        else if leb (length joined) next
        then some (chunk ∷ [])
        else (rest >>= λ chunks. some (chunk ∷ chunks)))
    else some []

-- `split`, on fuel for its loop
unfoldable pub split_text : ℕ → SplitOptions → Text → Option (List Text)
unfolding windows joined_text
split_text fuel options [] = some []
split_text fuel options (u ∷ text) =
    let joined = joined_text options.separator (u ∷ text) in
    if leb (length joined) options.chunk_size
    then some (joined ∷ [])
    else windows fuel options joined 0

-- ===== src/Rag/Tests.antt =====
-- The splitter, the store and the pipeline at concrete inputs.
use Prim.Native.Char.{code}
use vais_lang.Prelude.{
  ℕ, ◌+◌, ◌*◌, ◌/◌, ◌≤◌, String, none, some, List, [], ◌∷◌, true, false, ◌≡◌, refl, arith, ltb,
  nat_beq, All, length, string_eq,
}
use vais_lang.Prelude.JsMap
use vais_lang.Rag.Splitter.{Text, SplitOptions, split_text, joined_text}
use vais_lang.Rag.Splitter.Windows.{rejoin, split_text-rejoin, split_text_never_ends}
use vais_lang.Rag.Store.{
  Numbers, VectorEntry, VectorStore, SearchResult, score_all, cosine_similarity,
}
use vais_lang.Rag.Store.Search.{IsOrdered}
use vais_lang.Rag.Pipeline.{Provider, RagDocument, Pipeline, ingest}
use vais_lang.Rag.Pipeline.Consistent.{IsConsistent, ingest-IsConsistent}

abbrev small : SplitOptions
small = record { chunk_size = 3; overlap = 1; separator = none }

abbrev stuck : SplitOptions
stuck = record { chunk_size = 2; overlap = 2; separator = none }

abbrev lines : SplitOptions
lines = record { chunk_size = 3; overlap = 1; separator = some (9 ∷ []) }

split_small :
    split_text 9 small (1 ∷ 2 ∷ 3 ∷ 4 ∷ 5 ∷ 6 ∷ [])
    ≡ some ((1 ∷ 2 ∷ 3 ∷ []) ∷ (3 ∷ 4 ∷ 5 ∷ []) ∷ (5 ∷ 6 ∷ []) ∷ [])
unfolding split_text
split_small = refl

joined_lines : joined_text lines.separator (1 ∷ 9 ∷ 9 ∷ 2 ∷ 9 ∷ []) ≡ 1 ∷ 9 ∷ 2 ∷ []
unfolding joined_text
joined_lines = refl

abbrev one_to_four : Text
one_to_four = 1 ∷ 2 ∷ 3 ∷ 4 ∷ []

split_text-rejoin_example :
    (chunks : List Text) × (split_text 5 small one_to_four ≡ some chunks)
    × All (λ c. length c ≤ 3) chunks
    × (rejoin 1 chunks ≡ one_to_four)
unfolding joined_text
split_text-rejoin_example = split_text-rejoin small one_to_four 5 (omega arith) (omega arith)

split_text_never_ends_example : split_text 1000 stuck one_to_four ≡ none
unfolding joined_text
split_text_never_ends_example =
    split_text_never_ends stuck 1 (2 ∷ 3 ∷ 4 ∷ []) (omega arith) (omega arith) 1000

-- Whole numbers, of which each is its own square root.
abbrev whole : Numbers
whole = record {
  Num = ℕ;
  zero = 0;
  add = λ a b. a + b;
  mul = λ a b. a * b;
  sqrt = λ a. a;
  divide = λ a b. 1000 * a / b;
  is_zero = λ a. nat_beq a 0;
  above = λ a b. ltb b a;
}

asymmetric : (a b : ℕ) → ltb b a ≡ true → ltb a b ≡ false
asymmetric a b h = ground arith

transitive : (a b c : ℕ) → ltb a b ≡ false → ltb b c ≡ false → ltb a c ≡ false
transitive a b c h k = ground arith

abbrev whole_ordered : IsOrdered whole
whole_ordered = record { asymmetric = asymmetric; transitive = transitive }

abbrev entry : String → ℕ → ℕ → String × VectorEntry whole ℕ
entry id x y = (id, record { id = id; vector = x ∷ y ∷ []; metadata = none })

abbrev vectors : VectorStore whole ℕ
vectors = record { default_top_k = 2; entries = entry "a" 1 0 ∷ entry "b" 0 1 ∷ entry "c" 2 1 ∷ [] }

abbrev scored : List (SearchResult whole ℕ)
scored =
    record { id = "a"; score = 1000; metadata = none }
    ∷ record { id = "b"; score = 0; metadata = none }
    ∷ record { id = "c"; score = 400; metadata = none }
    ∷ []

scored_all : score_all whole (1 ∷ 0 ∷ []) vectors.entries ≡ some scored
unfolding score_all cosine_similarity
scored_all = refl

abbrev unit_list : String → Text
unit_list String.[] = []
unit_list (String.◌∷◌ ch s) = code ch ∷ unit_list s

abbrev provider : Provider whole
provider = record {
  embed = λ t. length (unit_list t) ∷ [];
  units = unit_list;
  text_of = λ t. "";
  decimal = λ i. "0";
}

abbrev empty : Pipeline whole ℕ
empty = record { store = record { default_top_k = 5; entries = [] }; chunk_content_map = [] }

abbrev document : RagDocument ℕ
document = record { id = "d"; content = "abcd"; metadata = some 7 }

empty-IsConsistent : IsConsistent empty
unfolding JsMap.get
empty-IsConsistent id e h = cc

ingest-IsConsistent_example :
    (q : Pipeline whole ℕ) × (ingest provider small 10 (document ∷ []) empty ≡ some q)
    × IsConsistent q
unfolding joined_text
ingest-IsConsistent_example =
    ingest-IsConsistent provider small 10 (document ∷ []) empty (omega arith) (omega arith)
      empty-IsConsistent

-- ===== src/Rag/Store.antt =====
-- createVectorStore and createRAGPipeline of ai/src/rag.ts. The floating point numbers, the embeddings
-- and the text of a number are arguments.
pub mod Search
use vais_lang.Prelude.{
  ℕ, suc, ◌+◌, String, Option, none, some, List, [], ◌∷◌, Bool, if◌then◌else◌, nat_beq, not, ◌>>=◌,
  or_else, length, take, ◌&◌, string_eq, map,
}
use vais_lang.Prelude.JsMap
use vais_lang.Prelude.JsMap.{JsMap}
use vais_lang.Rag.Splitter.{Text, SplitOptions, split_text}

-- The numbers of the source; `above a b` is `a - b > 0`.
pub record Numbers : Type 1 where
  pub Num : Type 0
  pub zero : Num
  pub add : Num → Num → Num
  pub mul : Num → Num → Num
  pub sqrt : Num → Num
  pub divide : Num → Num → Num
  pub is_zero : Num → Bool
  pub above : Num → Num → Bool

module _ (n : Numbers) where
  open n use {Num, zero, add, mul, sqrt, divide, is_zero, above}

  pub record Sums : Type 0 where
    pub dot : Num
    pub mag_a : Num
    pub mag_b : Num

  -- The loop over two vectors of one length.
  abbrev pub sums_from : Sums → List Num → List Num → Sums
  sums_from s [] bs = s
  sums_from s (a ∷ as_) [] = s
  sums_from s (a ∷ as_) (b ∷ bs) =
      sums_from
        (record {
          dot = add s.dot (mul a b);
          mag_a = add s.mag_a (mul a a);
          mag_b = add s.mag_b (mul b b);
        })
        as_ bs

  -- `none` is the error of vectors that differ in length.
  unfoldable pub cosine_similarity : List Num → List Num → Option Num
  cosine_similarity a b =
      let s = sums_from (record { dot = zero; mag_a = zero; mag_b = zero }) a b in
      let denom = mul (sqrt s.mag_a) (sqrt s.mag_b) in
      if not (nat_beq (length a) (length b))
      then none
      else if is_zero denom
      then some zero
      else some (divide s.dot denom)

  module _ (Meta : Type 0) where
    pub record VectorEntry : Type 0 where
      pub id : String
      pub vector : List Num
      pub metadata : Option Meta

    pub record SearchResult : Type 0 where
      pub id : String
      pub score : Num
      pub metadata : Option Meta

    pub record VectorStore : Type 0 where
      pub default_top_k : ℕ
      pub entries : JsMap String VectorEntry

  module _ {Meta : Type 0} where
    unfoldable pub add_vector :
        String → List Num → Option Meta → VectorStore Meta → VectorStore Meta
    unfolding JsMap.set
    add_vector id vector metadata store = record store {
      entries =
          JsMap.set id (record { id = id; vector = vector; metadata = metadata }) store.entries;
    }

    unfoldable pub remove_vector : String → VectorStore Meta → VectorStore Meta × Bool
    unfolding JsMap.get JsMap.delete
    remove_vector id store =
        (record store { entries = JsMap.delete id store.entries }, JsMap.has id store.entries)

    abbrev pub clear_store : VectorStore Meta → VectorStore Meta
    clear_store store = record store { entries = [] }

    abbrev pub size : VectorStore Meta → ℕ
    size store = length store.entries

    unfoldable pub score_all :
        List Num → JsMap String (VectorEntry Meta) → Option (List (SearchResult Meta))
    score_all query [] = some []
    score_all query ((key, entry) ∷ entries) = cosine_similarity query entry.vector >>= λ score.
        score_all query entries >>= λ results.
        some (record { id = entry.id; score = score; metadata = entry.metadata } ∷ results)

    -- `results.sort((a, b) => b.score - a.score)`: a stable sort
    unfoldable pub insert_result :
        SearchResult Meta → List (SearchResult Meta) → List (SearchResult Meta)
    insert_result r [] = r ∷ []
    insert_result r (q ∷ qs) =
        let rest = insert_result r qs in if above q.score r.score then q ∷ rest else r ∷ q ∷ qs

    unfoldable pub sort_results : List (SearchResult Meta) → List (SearchResult Meta)
    unfolding insert_result
    sort_results [] = []
    sort_results (r ∷ rs) = insert_result r (sort_results rs)

    unfoldable pub search_store :
        List Num → Option ℕ → VectorStore Meta → Option (List (SearchResult Meta))
    unfolding score_all sort_results
    search_store query top_k store = score_all query store.entries >>= λ results.
        some (take (or_else top_k store.default_top_k) (sort_results results))

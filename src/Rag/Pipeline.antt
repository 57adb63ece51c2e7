-- ===== src/Rag/Pipeline.antt =====
-- createRAGPipeline of ai/src/rag.ts: documents are split, embedded and searched. A text of the
-- splitter is a list of code units, and `units` and `text_of` go between these and strings.
pub mod Consistent
use vais_lang.Prelude.{
  ℕ, suc, ◌+◌, String, Option, none, some, List, [], ◌∷◌, ◌>>=◌, or_else, map, ◌&◌, string_eq,
}
use vais_lang.Prelude.JsMap
use vais_lang.Prelude.JsMap.{JsMap}
use vais_lang.Rag.Splitter.{Text, SplitOptions, split_text}
use vais_lang.Rag.Store.{
  Numbers, VectorStore, SearchResult, add_vector, search_store, score_all, cosine_similarity,
  sort_results, insert_result,
}

-- What the pipeline is given, and what the engine does with texts and numbers.
pub record Provider (n : Numbers) : Type 0 where
  pub embed : String → List n.Num
  pub units : String → Text
  pub text_of : Text → String
  pub decimal : ℕ → String

module _ (D : Type 0) where
  pub record RagDocument : Type 0 where
    pub id : String
    pub content : String
    pub metadata : Option D

  -- The metadata that the pipeline stores with a chunk.
  pub record ChunkMeta : Type 0 where
    pub content : String
    pub doc_id : String
    pub metadata : Option D

  pub record FoundDocument : Type 0 where
    pub id : String
    pub content : String
    pub metadata : Option D

module _ (n : Numbers) (D : Type 0) where
  pub record Pipeline : Type 0 where
    pub store : VectorStore n (ChunkMeta D)
    pub chunk_content_map : JsMap String String

  pub record RagResult : Type 0 where
    pub documents : List (FoundDocument D)
    pub scores : List n.Num
    pub context : String

abbrev pub chunk_id : {n : Numbers} → Provider n → String → ℕ → String
chunk_id provider doc i = doc & "::chunk::" & provider.decimal i

abbrev pub join_context : List String → String
join_context [] = ""
join_context (c ∷ []) = c
join_context (c ∷ d ∷ cs) = c & "\n\n" & join_context (d ∷ cs)

module _ {n : Numbers} {D : Type 0} (provider : Provider n) (options : SplitOptions) where
  -- The loop over the chunks of a document, from the chunk `i` on.
  unfoldable pub ingest_chunks : RagDocument D → ℕ → List Text → Pipeline n D → Pipeline n D
  unfolding add_vector JsMap.set
  ingest_chunks doc i [] p = p
  ingest_chunks doc i (chunk ∷ chunks) p =
      let chunk_text = provider.text_of chunk in
      let meta : ChunkMeta D = record {
        content = chunk_text;
        doc_id = doc.id;
        metadata = doc.metadata;
      } in
      let id = chunk_id provider doc.id i in
      ingest_chunks doc (i + 1) chunks (record {
        store = add_vector n id (provider.embed chunk_text) (some meta) p.store;
        chunk_content_map = JsMap.set id chunk_text p.chunk_content_map;
      })

  -- `none` if the fuel of the splitter runs out.
  unfoldable pub ingest : ℕ → List (RagDocument D) → Pipeline n D → Option (Pipeline n D)
  unfolding ingest_chunks split_text
  ingest fuel [] p = some p
  ingest fuel (doc ∷ documents) p =
      split_text fuel options (provider.units doc.content) >>= λ chunks.
      ingest fuel documents (ingest_chunks doc 0 chunks p)

  abbrev pub found : JsMap String String → SearchResult n (ChunkMeta D) → FoundDocument D
  found contents r = elim r.metadata [
    | some meta ↦ record { id = r.id; content = meta.content; metadata = meta.metadata }
    | none ↦ record { id = r.id; content = or_else (JsMap.get r.id contents) ""; metadata = none }
  ]

  -- `query`; `none` is the error of an embedding whose length differs from that of a stored one.
  unfoldable pub query_pipeline : String → Option ℕ → Pipeline n D → Option (RagResult n D)
  unfolding search_store JsMap.get
  query_pipeline question top_k p =
      search_store n (provider.embed question) (some (or_else top_k p.store.default_top_k)) p.store
      >>= λ results.
          let documents = map (found p.chunk_content_map) results in
          some (record {
            documents = documents;
            scores = map (λ r. r.score) results;
            context = join_context (map (λ d. d.content) documents);
          })

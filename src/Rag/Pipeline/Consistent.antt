-- ===== src/Rag/Pipeline/Consistent.antt =====
-- The two maps of a pipeline agree.
use vais_lang.Prelude.{
  All, length, ◌<◌, ℕ, ◌+◌, String, some, List, [], ◌∷◌, ◌≡◌, refl, Bool-cases, inl, inr, string_eq,
  eq_iff, ◌==◌, arith,
}
use vais_lang.Prelude.JsMap
use vais_lang.Prelude.JsMap.{get-set}
use vais_lang.Rag.Splitter.Windows.{split_text-rejoin}
use vais_lang.Rag.Splitter.{joined_text, Text, SplitOptions}
use vais_lang.Rag.Store.{Numbers, VectorEntry, add_vector}
use vais_lang.Rag.Pipeline.{
  Provider, RagDocument, ChunkMeta, Pipeline, ingest_chunks, ingest, chunk_id,
}

module _ {n : Numbers} {D : Type 0} where
  -- The entry at an id bears that id, and its content is the one that is kept for the id.
  abbrev pub Fits : Pipeline n D → String → VectorEntry n (ChunkMeta D) → Type 0
  Fits p id entry =
      (entry.id ≡ id)
      × (meta : ChunkMeta D) × (entry.metadata ≡ some meta)
      × (JsMap.get id p.chunk_content_map ≡ some meta.content)

  abbrev pub IsConsistent : Pipeline n D → Type 0
  IsConsistent p =
      (id : String) (entry : VectorEntry n (ChunkMeta D))
      → JsMap.get id p.store.entries ≡ some entry
      → Fits p id entry

module _ {n : Numbers} {D : Type 0} (provider : Provider n) (options : SplitOptions) where
  ingest_chunks-IsConsistent :
      (doc : RagDocument D) (i : ℕ) (chunks : List Text) (p : Pipeline n D)
      → IsConsistent p
      → IsConsistent (ingest_chunks provider options doc i chunks p)
  unfolding ingest_chunks add_vector
  ingest_chunks-IsConsistent doc i [] p c = c
  ingest_chunks-IsConsistent doc i (chunk ∷ chunks) p c =
      ingest_chunks-IsConsistent doc (i + 1) chunks _ λ id entry e.
        let key = chunk_id provider doc.id i in
        let before = rw (get-set key id) at e in
        elim (Bool-cases (key == id)) [
          | inl same ↦
              let meta : ChunkMeta D = record {
                content = provider.text_of chunk;
                doc_id = doc.id;
                metadata = doc.metadata;
              } in
              let now = rw same at before in
              (
                ground (arith, now, eq_iff key id, same),
                meta,
                ground (arith, now),
                rw (get-set key id, same) refl,
              )
          | inr other ↦
              let (named, meta, m, kept) = c id entry (rw other at before) in
              (named, meta, m, rw (get-set key id, other) kept)
        ]

  -- With an overlap below the size of a chunk, and fuel above the length of each document, ingesting
  -- documents in a pipeline that is consistent gives a pipeline, and it is consistent again: each entry
  -- of the store bears its key, has metadata, and the content in it is the one that the pipeline keeps
  -- for the key. So what a query falls back on when a result has no metadata is never needed.
  pub ingest-IsConsistent :
      (fuel : ℕ) (documents : List (RagDocument D)) (p : Pipeline n D)
      → options.overlap < options.chunk_size
      → All
          (λ doc. length (joined_text options.separator (provider.units doc.content)) < fuel)
          documents
      → IsConsistent p
      → (q : Pipeline n D) × (ingest provider options fuel documents p ≡ some q) × IsConsistent q
  unfolding ingest
  ingest-IsConsistent fuel [] p h f c = (p, refl, c)
  ingest-IsConsistent fuel (doc ∷ documents) p h (f, fs) c =
      let (chunks, split, _, _) = split_text-rejoin options (provider.units doc.content) fuel h f in
      let (q, e, d) =
        ingest-IsConsistent fuel documents (ingest_chunks provider options doc 0 chunks p) h fs
          (ingest_chunks-IsConsistent doc 0 chunks p c) in
      (q, rw split e, d)

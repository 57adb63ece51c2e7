-- ===== src/Rag/Store/Search.antt =====
-- Which entries a search returns.
use mathlib.Core.List.Perm
use mathlib.Core.List.{Perm}
use vais_lang.Prelude.{zero, ◌≡◌, List, [], ◌∷◌, true, false, All, if◌then◌else◌}
use vais_lang.Prelude.JsMap.{JsMap}
use vais_lang.Rag.Store.{VectorEntry, Numbers, SearchResult}

-- The comparison of scores is a strict order up to ties. This leaves out a score that is no number.
pub record IsOrdered (n : Numbers) : Type 0 where
  pub asymmetric : (a b : n.Num) → n.above a b ≡ true → n.above b a ≡ false
  pub transitive : (a b c : n.Num) → n.above b a ≡ false → n.above c b ≡ false → n.above c a ≡ false

module _ (n : Numbers) {Meta : Type 0} where
  -- The second does not score more than the first.
  abbrev pub AtMost : SearchResult n Meta → SearchResult n Meta → Type 0
  AtMost r q = n.above q.score r.score ≡ false

  abbrev pub IsDescending : List (SearchResult n Meta) → Type 0
  IsDescending [] = Unit
  IsDescending (r ∷ rs) = All (AtMost r) rs × IsDescending rs

-- The cosine similarity of two vectors of one length, as three sums from the first number on: that of
-- the products, and those of the squares of each; 0 where a length is 0.
module _ (n : Numbers) where
  abbrev pub dot_product : n.Num → List n.Num → List n.Num → n.Num
  dot_product sum [] bs = sum
  dot_product sum (a ∷ as_) [] = sum
  dot_product sum (a ∷ as_) (b ∷ bs) = dot_product (n.add sum (n.mul a b)) as_ bs

  abbrev pub squares : n.Num → List n.Num → n.Num
  squares sum [] = sum
  squares sum (a ∷ as_) = squares (n.add sum (n.mul a a)) as_

  abbrev pub cosine : List n.Num → List n.Num → n.Num
  cosine a b =
      let lengths = n.mul (n.sqrt (squares n.zero a)) (n.sqrt (squares n.zero b)) in
      if n.is_zero lengths then n.zero else n.divide (dot_product n.zero a b) lengths

module _ (n : Numbers) {Meta : Type 0} where
  abbrev pub scored_entry : List n.Num → VectorEntry n Meta → SearchResult n Meta
  scored_entry query e = record {
    id = e.id;
    score = cosine n query e.vector;
    metadata = e.metadata;
  }

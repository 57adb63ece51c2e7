-- ===== src/Router/Split/Laws.antt =====
-- What `splitPath` returns, and that it undoes the joining of segments.
use Prim.Native.String
use text.Mathlib.TextLemmas.{append-nil}
use vais_lang.Prelude.{
  split-append, split-All-Lacks, Lacks-append, split-Lacks, split, Lacks, All-map, ◌∙◌, ℕ, ◌≡◌, ◌≢◌,
  refl, ap, String, List, [], ◌∷◌, true, filter, All, arith, Bool-cases, inl, inr,
}
use vais_lang.Router.Split.{first_part, is_nonempty, split_path}

-- A segment that `splitPath` may return.
abbrev pub IsSegment : String → Type 0
IsSegment w = (is_nonempty w ≡ true) × Lacks b'/' w

filter-All-IsSegment :
    (ws : List String) → All (Lacks b'/') ws → All IsSegment (filter is_nonempty ws)
filter-All-IsSegment [] h = tt
filter-All-IsSegment (w ∷ ws) (p, h) = elim (Bool-cases (is_nonempty w)) [
  | inl e ↦ rw e ((e, p), filter-All-IsSegment ws h)
  | inr e ↦ rw e (filter-All-IsSegment ws h)
]

-- No segment of a URL is empty or holds a slash.
pub split_path-All-IsSegment : (url : String) → All IsSegment (split_path url)
unfolding split_path
split_path-All-IsSegment url =
    let path = first_part b'#' (first_part b'?' url) in
    filter-All-IsSegment (split b'/' path) (split-All-Lacks b'/' path)

first_part-Lacks : (sep : ℕ) (w : String) → Lacks sep w → first_part sep w ≡ w
unfolding first_part
first_part-Lacks sep w h = rw (split-Lacks sep w h, first_part)

-- "/" before each segment, as a link to these segments is written.
abbrev pub join_path : List String → String
join_path [] = String.[]
join_path (w ∷ ws) = String.◌∷◌ "/" (String.◌++◌ w (join_path ws))

Lacks-join_path :
    (sep : ℕ) (ws : List String) → b'/' ≢ sep → All (Lacks sep) ws → Lacks sep (join_path ws)
Lacks-join_path sep [] n h = tt
Lacks-join_path sep (w ∷ ws) n (p, h) =
    (n, Lacks-append sep w (join_path ws) p (Lacks-join_path sep ws n h))

split-join_path : (ws : List String) → All (Lacks b'/') ws → split b'/' (join_path ws) ≡ "" ∷ ws
unfolding split
split-join_path [] h = refl
split-join_path (w ∷ ws) (p, h) =
    ap (λ vs. "" ∷ vs)
      (split-append b'/' w (join_path ws) p ∙ (rw (split-join_path ws h) (rw append-nil refl)))

-- A segment that a URL can hold as it is: neither empty nor with a slash, a "?" or a "#".
abbrev pub IsUrlSegment : String → Type 0
IsUrlSegment w = (is_nonempty w ≡ true) × Lacks b'/' w × Lacks b'?' w × Lacks b'#' w

filter_nonempty :
    (ws : List String) → All (λ w. is_nonempty w ≡ true) ws → filter is_nonempty ws ≡ ws
filter_nonempty [] h = refl
filter_nonempty (w ∷ ws) (p, h) = rw p (ap (λ vs. w ∷ vs) (filter_nonempty ws h))

-- Splitting the path that joins some segments gives these segments back, if none of them is empty
-- or holds a slash, a "?" or a "#".
pub split_path-join_path : (ws : List String) → All IsUrlSegment ws → split_path (join_path ws) ≡ ws
unfolding split_path
split_path-join_path ws h =
    rw
      (first_part-Lacks b'?' (join_path ws)
        (Lacks-join_path b'?' ws (omega arith) (All-map _ _ (λ w k. k.2) ws h)))
      (rw
        (first_part-Lacks b'#' (join_path ws)
          (Lacks-join_path b'#' ws (omega arith) (All-map _ _ (λ w k. k.3) ws h)))
        (rw (split-join_path ws (All-map _ _ (λ w k. k.1) ws h))
          (filter_nonempty ws (All-map _ _ (λ w k. k.0) ws h))))

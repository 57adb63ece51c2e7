-- ===== src/Router/Matcher/Fuel.antt =====
-- Fuel for the walks of matcher.ts: from the number of nodes of the tree on, more of it changes
-- nothing.
use vais_lang.Prelude.{
  ℕ, zero, suc, ◌≤◌, ◌≡◌, refl, ap₂, String, Option, none, some, List, [], ◌∷◌, arith, All, All-map,
  All-zip, drop, Option-cases, inl, inr,
}
use vais_lang.Router.Types.{
  RouteDefinition, RouteParams, children, size, size_pos, children-All-size,
}
use vais_lang.Router.Order.{own_segment, sort, sort-All}
use vais_lang.Router.Matcher.{
  Walk, then_descend, match_segments_from_child, try_child, first_child, match_children,
  first_found, found_below, find_at, find_matched_route, consume, or_next,
}

-- Two walks agree below a node, whatever the other arguments.
abbrev SameAt : Walk → Walk → RouteDefinition → Type 0
SameAt f g c =
    (urls layouts : List String) (ps : RouteParams) → f urls c layouts ps ≡ g urls c layouts ps

module _ (f g : Walk) (c : RouteDefinition) (same : SameAt f g c) where
  descend-same :
      (layouts : List String) (taken : Option (RouteParams × List String))
      → then_descend f c layouts taken ≡ then_descend g c layouts taken
  descend-same layouts none = refl
  descend-same layouts (some (ps, [])) = refl
  descend-same layouts (some (ps, u ∷ rest)) = same (u ∷ rest) layouts ps

  pub match_segments_from_child-same :
      SameAt (match_segments_from_child f) (match_segments_from_child g) c
  unfolding match_segments_from_child
  match_segments_from_child-same urls layouts ps = elim (Option-cases (own_segment c)) [
    | inl e ↦ rw (e, match_segments_from_child)
    | inr (own, e) ↦ rw (e, match_segments_from_child) (descend-same _ (consume own urls ps))
  ]

  pub try_child-same : SameAt (try_child f) (try_child g) c
  unfolding try_child
  try_child-same urls layouts ps = elim (Option-cases (own_segment c)) [
    | inl e ↦ rw (e, try_child) (same urls _ ps)
    | inr (own, e) ↦
        rw (e, try_child) (ground (arith, match_segments_from_child-same urls layouts ps))
  ]

first_child-same :
    (f g : Walk) (cs : List RouteDefinition)
    → All (SameAt f g) cs
    → (urls layouts : List String) (ps : RouteParams)
    → first_child f urls cs layouts ps ≡ first_child g urls cs layouts ps
unfolding first_child
first_child-same f g [] h urls layouts ps = refl
first_child-same f g (c ∷ cs) (same, h) urls layouts ps =
    ap₂ or_next (try_child-same f g c same urls layouts ps)
      (first_child-same f g cs h urls layouts ps)

-- Two amounts of fuel that are at least the size of the tree give the same walk.
pub match_children-fuel :
    (f g : ℕ) (node : RouteDefinition)
    → size node ≤ f
    → size node ≤ g
    → SameAt (match_children f) (match_children g) node
unfolding match_children
match_children-fuel zero g node hf hg = absurd (omega (arith, size_pos node))
match_children-fuel (suc f) zero node hf hg = absurd (omega (arith, size_pos node))
match_children-fuel (suc f) (suc g) node hf hg =
    let below : All (SameAt (match_children f) (match_children g)) (children node) =
      All-map _ _ (λ c h. match_children-fuel f g c h.0 h.1) (children node)
        (All-zip _ _ (children node) (children-All-size f node hf) (children-All-size g node hg)) in
    first_child-same (match_children f) (match_children g) (sort (children node))
      (sort-All (SameAt (match_children f) (match_children g)) (children node) below)

-- The same for the search of the matched route.
abbrev Find : Type 0
Find = List String → RouteDefinition → Option RouteDefinition

abbrev SameFind : Find → Find → RouteDefinition → Type 0
SameFind f g c = (urls : List String) → f urls c ≡ g urls c

first_found-same :
    (f g : Find) (cs : List RouteDefinition) (urls : List String)
    → All (SameFind f g) cs
    → first_found (f urls) cs ≡ first_found (g urls) cs
first_found-same f g [] urls h = refl
first_found-same f g (c ∷ cs) urls (same, h) =
    ap₂ or_next (same urls) (first_found-same f g cs urls h)

module _ (f g : Find) (node : RouteDefinition) (below : All (SameFind f g) (children node)) where
  found_below-same : (urls : List String) → found_below f urls node ≡ found_below g urls node
  unfolding found_below
  found_below-same [] = refl
  found_below-same (u ∷ rest) =
      first_found-same f g (sort (children node)) (u ∷ rest) (sort-All (SameFind f g) _ below)

  find_at-same : (urls : List String) → find_at f urls node ≡ find_at g urls node
  unfolding find_at
  find_at-same urls = elim (Option-cases (own_segment node)) [
    | inl e ↦ rw (e, find_at) (first_found-same f g (children node) urls below)
    | inr (own, e) ↦ rw (e, find_at) (ground (arith, found_below-same (drop 1 urls)))
  ]

-- Any two fuels that are at least the number of nodes of a route give the same for each URL.
pub find_matched_route-fuel :
    (f g : ℕ) (node : RouteDefinition)
    → size node ≤ f
    → size node ≤ g
    → SameFind (find_matched_route f) (find_matched_route g) node
unfolding find_matched_route
find_matched_route-fuel zero g node hf hg = absurd (omega (arith, size_pos node))
find_matched_route-fuel (suc f) zero node hf hg = absurd (omega (arith, size_pos node))
find_matched_route-fuel (suc f) (suc g) node hf hg =
    let below : All (SameFind (find_matched_route f) (find_matched_route g)) (children node) =
      All-map _ _ (λ c h. find_matched_route-fuel f g c h.0 h.1) (children node)
        (All-zip _ _ (children node) (children-All-size f node hf) (children-All-size g node hg)) in
    find_at-same (find_matched_route f) (find_matched_route g) node below

-- ===== src/Router/Matcher/Consistent.antt =====
-- On trees without route groups, the route, the parameters and the layouts of a match all belong
-- to one path of the tree that the URL follows.
use vais_lang.Prelude.{
  ℕ, zero, suc, ◌≤◌, ◌≡◌, ◌≢◌, refl, String, Option, none, some, List, [], ◌∷◌, arith, All, All-map,
  All-zip, All-In, In, true, Option-cases, inl, inr, last?-filter,
}
use vais_lang.Router.Types.{
  RouteDefinition, RouteSegment, RouteParams, MatchResult, info, children, size, size_pos,
  children-All-size, AllNodes, AllNodes-here, AllNodes-children,
}
use vais_lang.Router.Order.{own_segment, not_group, sort, sort-All}
use vais_lang.Router.Matcher.{
  push_layout, consume, match_segments_from_child, try_child, first_child, match_children,
  first_found, found_below, find_at, find_matched_route, then_descend, or_next,
}

-- The URL segments, a node and what is inherited above it lead to a route, its parameters and its
-- layouts: each node on the way takes its segment, and the last takes what is left.
pub data Follows
    : List String
      → RouteDefinition
      → List String
      → RouteParams
      → RouteDefinition
      → RouteParams
      → List String
      → Type 0 where
  ends :
      {urls : List String} {c : RouteDefinition} {layouts : List String} {ps ps' : RouteParams}
      (own : RouteSegment)
      → own_segment c ≡ some own
      → consume own urls ps ≡ some (ps', [])
      → Follows urls c layouts ps c ps' (push_layout (info c).layout layouts)
  goes :
      {urls : List String} {c : RouteDefinition} {layouts : List String} {ps : RouteParams}
      {r : RouteDefinition} {out : RouteParams} {chain : List String} (own : RouteSegment)
      (ps' : RouteParams) (u : String) (rest : List String) (d : RouteDefinition)
      → own_segment c ≡ some own
      → consume own urls ps ≡ some (ps', u ∷ rest)
      → In d (children c)
      → Follows (u ∷ rest) d (push_layout (info c).layout layouts) ps' r out chain
      → Follows urls c layouts ps r out chain

-- The two searches agree: both fail, or both succeed along one path.
abbrev pub Agree :
    (RouteDefinition → RouteParams → List String → Type 0)
    → Option MatchResult
    → Option RouteDefinition
    → Type 0
Agree P none none = Unit
Agree P (some m) (some r) = P r m.params m.layout_chain
Agree P _ _ = ⊥

Agree-map :
    (P Q : RouteDefinition → RouteParams → List String → Type 0)
    → ((r : RouteDefinition) (out : RouteParams) (chain : List String)
        → P r out chain
        → Q r out chain)
    → (m : Option MatchResult) (r : Option RouteDefinition) → Agree P m r
    → Agree Q m r
Agree-map P Q imp none none h = tt
Agree-map P Q imp none (some r) h = h
Agree-map P Q imp (some m) none h = h
Agree-map P Q imp (some m) (some r) h = imp r m.params m.layout_chain h

abbrev pub AgreeAt :
    Option MatchResult
    → Option RouteDefinition
    → List String
    → RouteDefinition
    → List String
    → RouteParams
    → Type 0
AgreeAt m r urls c layouts ps = Agree (Follows urls c layouts ps) m r

-- Every node below has a segment of its own: no route group but at its path's end.
abbrev pub IsPlain : RouteDefinition → Type 0
IsPlain c = own_segment c ≢ none

own_segment-not_group :
    (c : RouteDefinition) (own : RouteSegment) → own_segment c ≡ some own → not_group own ≡ true
own_segment-not_group c own e = last?-filter not_group (info c).segments e

-- `findMatchedRoute` goes by the same `consume` as `matchSegmentsFromChild`.
abbrev pub then_found :
    (List String → RouteDefinition → Option RouteDefinition)
    → RouteDefinition
    → Option (RouteParams × List String)
    → Option RouteDefinition
then_found find c none = none
then_found find c (some (ps, rest)) = found_below find rest c

pub find_at-consume :
    (find : List String → RouteDefinition → Option RouteDefinition) (urls : List String)
    (c : RouteDefinition) (ps : RouteParams) (own : RouteSegment)
    → own_segment c ≡ some own
    → find_at find urls c ≡ then_found find c (consume own urls ps)
unfolding find_at consume
find_at-consume find urls c ps own e = ground (arith, own_segment-not_group c own e)

pub try_child-plain :
    (walk : List String → RouteDefinition → List String → RouteParams → Option MatchResult)
    (urls : List String) (c : RouteDefinition) (layouts : List String) (ps : RouteParams)
    (own : RouteSegment)
    → own_segment c ≡ some own
    → try_child walk urls c layouts ps ≡ match_segments_from_child walk urls c layouts ps
unfolding try_child consume
try_child-plain walk urls c layouts ps own e = ground (arith, own_segment-not_group c own e)

-- Agreement of the loops over the children of a node.
abbrev Below :
    List RouteDefinition
    → List String
    → List String
    → RouteParams
    → RouteDefinition
    → RouteParams
    → List String
    → Type 0
Below cs urls layouts ps r out chain =
    (d : RouteDefinition) × In d cs × Follows urls d layouts ps r out chain

module _ (cs : List RouteDefinition) (f : ℕ) (urls layouts : List String) (ps : RouteParams) where
  -- What one child owes to the loops.
  abbrev Owes : RouteDefinition → Type 0
  Owes d =
      In d cs
      × AgreeAt (try_child (match_children f) urls d layouts ps) (find_matched_route (suc f) urls d)
          urls d layouts ps

  Agree-or_next :
      (d : RouteDefinition) (m m' : Option MatchResult) (r r' : Option RouteDefinition)
      → In d cs
      → AgreeAt m r urls d layouts ps
      → Agree (Below cs urls layouts ps) m' r'
      → Agree (Below cs urls layouts ps) (or_next m m') (or_next r r')
  Agree-or_next d none m' none r' i a h = h
  Agree-or_next d none m' (some r) r' i a h = absurd a
  Agree-or_next d (some m) m' none r' i a h = absurd a
  Agree-or_next d (some m) m' (some r) r' i a h = (d, i, a)

  first_child-Agree :
      (ds : List RouteDefinition)
      → All Owes ds
      → Agree
          (Below cs urls layouts ps)
          (first_child (match_children f) urls ds layouts ps)
          (first_found (find_matched_route (suc f) urls) ds)
  unfolding first_child
  first_child-Agree [] h = tt
  first_child-Agree (d ∷ ds) ((i, a), h) = Agree-or_next d _ _ _ _ i a (first_child-Agree ds h)

-- Fuel at least the size of the child: the two searches at a child agree.
abbrev pub AgreesWith : ℕ → RouteDefinition → Type 0
AgreesWith f c =
    (urls layouts : List String) (ps : RouteParams)
    → AgreeAt (match_segments_from_child (match_children f) urls c layouts ps)
        (find_matched_route (suc f) urls c) urls c layouts ps

descend-Agree :
    (f : ℕ) (c : RouteDefinition) (own : RouteSegment) (urls layouts : List String)
    (ps : RouteParams) (taken : Option (RouteParams × List String))
    → own_segment c ≡ some own
    → consume own urls ps ≡ taken
    → ((urls layouts : List String) (ps : RouteParams)
        → Agree
            (Below (children c) urls layouts ps)
            (match_children f urls c layouts ps)
            (first_found (find_matched_route f urls) (sort (children c))))
    → AgreeAt
        (then_descend (match_children f) c (push_layout (info c).layout layouts) taken)
        (then_found (find_matched_route f) c taken)
        urls
        c
        layouts
        ps
unfolding found_below
descend-Agree f c own urls layouts ps none e k below = tt
descend-Agree f c own urls layouts ps (some (ps', [])) e k below = ends own e k
descend-Agree f c own urls layouts ps (some (ps', u ∷ rest)) e k below =
    Agree-map (Below (children c) (u ∷ rest) (push_layout (info c).layout layouts) ps')
      (Follows urls c layouts ps) (λ r out chain (d, i, p). goes own ps' u rest d e k i p) _ _
      (below (u ∷ rest) (push_layout (info c).layout layouts) ps')

-- Every node below the root is plain.
abbrev pub HasNoGroups : RouteDefinition → Type 0
HasNoGroups tree = All (AllNodes IsPlain) (children tree)

agrees :
    (f : ℕ) (c : RouteDefinition) (own : RouteSegment)
    → own_segment c ≡ some own
    → ((urls layouts : List String) (ps : RouteParams)
        → Agree
            (Below (children c) urls layouts ps)
            (match_children f urls c layouts ps)
            (first_found (find_matched_route f urls) (sort (children c))))
    → AgreesWith f c
unfolding match_segments_from_child find_matched_route
agrees f c own e below urls layouts ps =
    rw (e, match_segments_from_child)
      (rw (find_at-consume (find_matched_route f) urls c ps own e)
        (descend-Agree f c own urls layouts ps (consume own urls ps) e refl below))

Owes-child :
    (f : ℕ) (cs : List RouteDefinition) (urls layouts : List String) (ps : RouteParams)
    (d : RouteDefinition)
    → In d cs
    → IsPlain d
    → AgreesWith f d
    → Owes cs f urls layouts ps d
Owes-child f cs urls layouts ps d i plain a = elim (Option-cases (own_segment d)) [
  | inl e ↦ absurd (plain e)
  | inr (own, e) ↦
      (i, rw (try_child-plain (match_children f) urls d layouts ps own e) (a urls layouts ps))
]

pub searches_agree :
    (f : ℕ) (c : RouteDefinition) → size c ≤ f → AllNodes IsPlain c → AgreesWith f c
unfolding match_children
searches_agree zero c h plain = absurd (omega (arith, size_pos c))
searches_agree (suc f) c h plain = elim (Option-cases (own_segment c)) [
  | inl e ↦ absurd (AllNodes-here IsPlain c plain e)
  | inr (own, e) ↦ agrees (suc f) c own e (λ urls layouts ps.
      first_child-Agree (children c) f urls layouts ps (sort (children c)) (
        sort-All (Owes (children c) f urls layouts ps) (children c) (
          All-map _ _
            (λ d (i, k).
              Owes-child f (children c) urls layouts ps d i (AllNodes-here IsPlain d k.1)
                (searches_agree f d k.0 k.1))
            (children c)
            (All-zip _ _ (children c) (All-In (children c)) (
              All-zip _ _ (children c) (children-All-size f c h)
                (AllNodes-children IsPlain c plain))))))
]

-- ===== src/Router/Matcher/Best.antt =====
-- On trees without route groups, `matchChildren`, `matchSegmentsFromChild` and `findMatchedRoute` of
-- kit/src/router/matcher.ts together take the preferred child at each node.
use mathlib.Core.Option.{some-injective}
use vais_lang.Prelude.{
  ℕ, zero, suc, ◌≤◌, ◌≡◌, ◌≢◌, refl, sym, ap, ◌∙◌, String, Option, none, some, List, [], ◌∷◌, arith,
  All, All-In, All-zip, In, here, there, Option-cases, inl, inr, subst,
}
use vais_lang.Router.Types.{
  SegmentType, static, dynamic, catch_all, group, RouteDefinition, RouteSegment, RouteParams,
  MatchResult, RouteMatch, info, children, size, size_pos, children-All-size, AllNodes,
  AllNodes-here, AllNodes-children,
}
use vais_lang.Router.Order.{
  own_segment, priority, rank, sort, sort-All, sort-In, IsSorted, sort-IsSorted,
}
use vais_lang.Router.Matcher.{
  push_layout, consume, match_segments_from_child, try_child, first_child, match_children,
  first_found, found_below, find_matched_route, then_descend, combine, match_root_child,
}
use vais_lang.Router.Matcher.Fuel.{find_matched_route-fuel}
use vais_lang.Router.Matcher.Consistent.{
  Follows, Agree, IsPlain, searches_agree, try_child-plain, then_found, find_at-consume,
}
use vais_lang.Router.Matcher.Preferred.{
  NotAfter, GoesFirst, IsPreferred, FollowsBest, best_end, best_child,
}
use vais_lang.Router.Matcher.Complete.{All-at, Follows-found, least_here, least_there}

rank-NotAfter : (s t : SegmentType) → rank s ≤ rank t → NotAfter s t
rank-NotAfter static t h = tt
rank-NotAfter dynamic static h = absurd (omega arith)
rank-NotAfter dynamic dynamic h = tt
rank-NotAfter dynamic catch_all h = tt
rank-NotAfter dynamic group h = tt
rank-NotAfter catch_all static h = absurd (omega arith)
rank-NotAfter catch_all dynamic h = absurd (omega arith)
rank-NotAfter catch_all catch_all h = tt
rank-NotAfter catch_all group h = tt
rank-NotAfter group t h = tt

pub priority-GoesFirst :
    (d e : RouteDefinition) → IsPlain d → IsPlain e → priority d ≤ priority e → GoesFirst d e
unfolding priority
priority-GoesFirst d e p q h = elim (Option-cases (own_segment d)) [
  | inl x ↦ absurd (p x)
  | inr (a, x) ↦ elim (Option-cases (own_segment e)) [
    | inl y ↦ absurd (q y)
    | inr (b, y) ↦ (a, b, x, y, rank-NotAfter a.type b.type (rw (priority, x, y) at h))
  ]
]

Agree-none :
    (P : RouteDefinition → RouteParams → List String → Type 0) (m : Option MatchResult)
    (r : Option RouteDefinition)
    → Agree P m r
    → m ≡ none
    → r ≡ none
Agree-none P none none a h = refl
Agree-none P none (some r) a h = absurd a
Agree-none P (some m) r a h = cc

Agree-some :
    (P : RouteDefinition → RouteParams → List String → Type 0) (m : Option MatchResult)
    (r : Option RouteDefinition) {x : MatchResult}
    → Agree P m r
    → m ≡ some x
    → (y : RouteDefinition) × (r ≡ some y)
Agree-some P none r a h = cc
Agree-some P (some m) none a h = absurd a
Agree-some P (some m) (some r) a h = (r, refl)

-- The fuel is enough for the node, and no route group is in it.
abbrev IsSearched : ℕ → RouteDefinition → Type 0
IsSearched f d = (size d ≤ f) × AllNodes IsPlain d

children-IsSearched :
    (f : ℕ) (c : RouteDefinition) → IsSearched (suc f) c → All (IsSearched f) (children c)
children-IsSearched f c (fits, plain) =
    All-zip _ _ (children c) (children-All-size f c fits) (AllNodes-children IsPlain c plain)

module _ (f : ℕ) (urls layouts : List String) (ps : RouteParams) where
  abbrev search : RouteDefinition → Option MatchResult
  search d = match_segments_from_child (match_children f) urls d layouts ps

  try_child-search :
      (d : RouteDefinition) → IsPlain d → try_child (match_children f) urls d layouts ps ≡ search d
  try_child-search d plain = elim (Option-cases (own_segment d)) [
    | inl e ↦ absurd (plain e)
    | inr (own, e) ↦ try_child-plain (match_children f) urls d layouts ps own e
  ]

  -- The loops over sorted children stop at the same child, and none of a smaller priority is found.
  first_taken :
      (ds : List RouteDefinition) (res : MatchResult) (r : RouteDefinition)
      → All (IsSearched f) ds
      → IsSorted ds
      → first_child (match_children f) urls ds layouts ps ≡ some res
      → first_found (find_matched_route (suc f) urls) ds ≡ some r
      → (d : RouteDefinition) × In d ds
        × (search d ≡ some res)
        × (find_matched_route (suc f) urls d ≡ some r)
        × ((e : RouteDefinition) → In e ds → search e ≢ none → priority d ≤ priority e)
  unfolding first_child
  first_taken [] res r all s h k = cc
  first_taken (d ∷ ds) res r ((fits, plain), all) (below, s) h k =
      let same = try_child-search d (AllNodes-here IsPlain d plain) in
      let agree = searches_agree f d fits plain urls layouts ps in
      elim (Option-cases (search d)) [
        | inl e ↦
            let nothing = Agree-none (Follows urls d layouts ps) _ _ agree e in
            let (d', i, t, found, least) =
              first_taken ds res r all s (rw (same, e) at h) (rw nothing at k) in
            (d', there i, t, found, least_there d d' ds search e least)
        | inr (x, e) ↦
            let (y, found) = Agree-some (Follows urls d layouts ps) _ _ agree e in
            (
              d,
              here refl,
              e ∙ (rw (same, e) at h),
              found ∙ (rw found at k),
              least_here d ds search below,
            )
      ]

-- What is to be shown of the two searches at a node.
abbrev IsBestSearch : ℕ → RouteDefinition → Type 0
IsBestSearch f c =
    (urls layouts : List String) (ps : RouteParams) (res : MatchResult) (r : RouteDefinition)
    → match_segments_from_child (match_children f) urls c layouts ps ≡ some res
    → find_matched_route (suc f) urls c ≡ some r
    → FollowsBest urls c layouts ps r res.params res.layout_chain

module _ (f : ℕ) (c : RouteDefinition) (searched : IsSearched (suc f) c)
    (ih : (d : RouteDefinition) → In d (children c) → IsBestSearch f d) where
  child-IsSearched : {d : RouteDefinition} → In d (children c) → IsSearched f d
  child-IsSearched i = All-at (IsSearched f) (children c) (children-IsSearched f c searched) i

  sorted_child : {d : RouteDefinition} → In d (sort (children c)) → In d (children c)
  sorted_child i =
      All-at (λ d. In d (children c)) (sort (children c))
        (sort-All (λ d. In d (children c)) (children c) (All-In (children c))) i

  least-IsPreferred :
      (urls layouts : List String) (ps : RouteParams) (d : RouteDefinition)
      → In d (children c)
      → ((e : RouteDefinition)
          → In e (sort (children c))
          → search f urls layouts ps e ≢ none
          → priority d ≤ priority e)
      → IsPreferred urls layouts ps (children c) d
  least-IsPreferred urls layouts ps d i least e j (r, out, chain, p) =
      let (fits, plain) = child-IsSearched j in
      priority-GoesFirst d e (AllNodes-here IsPlain d (child-IsSearched i).1)
        (AllNodes-here IsPlain e plain)
        (least e (sort-In (children c) j) (Follows-found f p fits plain))

  by_taken :
      (urls layouts : List String) (ps : RouteParams) (res : MatchResult) (r : RouteDefinition)
      (own : RouteSegment) (taken : Option (RouteParams × List String))
      → own_segment c ≡ some own
      → consume own urls ps ≡ taken
      → then_descend (match_children (suc f)) c (push_layout (info c).layout layouts) taken
        ≡ some res
      → then_found (find_matched_route (suc f)) c taken ≡ some r
      → FollowsBest urls c layouts ps r res.params res.layout_chain
  unfolding match_children found_below
  by_taken urls layouts ps res r own none e t h k = cc
  by_taken urls layouts ps res r own (some (ps', [])) e t h k =
      subst (λ x. FollowsBest urls c layouts ps x res.params res.layout_chain)
        (some-injective _ _ k)
        (subst (λ (x : MatchResult). FollowsBest urls c layouts ps c x.params x.layout_chain)
          (some-injective _ _ h) (best_end own e t))
  by_taken urls layouts ps res r own (some (ps', u ∷ rest)) e t h k =
      let below = push_layout (info c).layout layouts in
      let (d, i, found, route, least) =
        first_taken f (u ∷ rest) below ps' (sort (children c)) res r
          (sort-All (IsSearched f) (children c) (children-IsSearched f c searched))
          (sort-IsSorted (children c)) h k in
      best_child own ps' u rest d e t (sorted_child i)
        (least-IsPreferred (u ∷ rest) below ps' d (sorted_child i) least)
        (ih d (sorted_child i) (u ∷ rest) below ps' res r found route)

  node-IsBestSearch : IsBestSearch (suc f) c
  unfolding match_segments_from_child find_matched_route
  node-IsBestSearch urls layouts ps res r h k = elim (Option-cases (own_segment c)) [
    | inl e ↦ absurd (AllNodes-here IsPlain c searched.1 e)
    | inr (own, e) ↦
        by_taken urls layouts ps res r own (consume own urls ps) e refl
          (rw (match_segments_from_child, e) at h)
          (sym (find_at-consume (find_matched_route (suc f)) urls c ps own e) ∙ k)
  ]

pub search-IsBestSearch :
    (f : ℕ) (c : RouteDefinition) → size c ≤ f → AllNodes IsPlain c → IsBestSearch f c
search-IsBestSearch zero c fits plain = absurd (omega (arith, size_pos c))
search-IsBestSearch (suc f) c fits plain =
    node-IsBestSearch f c (fits, plain)
      (λ d i.
        let (fits_d, plain_d) =
          All-at (IsSearched f) (children c) (children-IsSearched f c (fits, plain)) i in
        search-IsBestSearch f d fits_d plain_d)

combine-some :
    (res : Option MatchResult) (r : Option RouteDefinition) (m : RouteMatch)
    → combine res r ≡ some m
    → (res ≡ some (record { params = m.params; layout_chain = m.layout_chain }))
      × (r ≡ some m.route)
combine-some none r m h = cc
combine-some (some x) none m h = cc
combine-some (some x) (some y) m h =
    let e = some-injective _ _ h in
    (
      ap (λ (n : RouteMatch). some (record { params = n.params; layout_chain = n.layout_chain })) e,
      ap (λ (n : RouteMatch). some n.route) e,
    )

-- A child of the root in `matchRoute`.
pub root_child-FollowsBest :
    (f : ℕ) (d : RouteDefinition)
    → size d ≤ f
    → AllNodes IsPlain d
    → (urls layouts : List String) (m : RouteMatch) → match_root_child f urls layouts d ≡ some m
    → FollowsBest urls d layouts [] m.route m.params m.layout_chain
unfolding match_root_child
root_child-FollowsBest f d fits plain urls layouts m h = elim (Option-cases (own_segment d)) [
  | inl e ↦ absurd (AllNodes-here IsPlain d plain e)
  | inr (own, e) ↦
      let (p, q) = combine-some _ _ m (rw (match_root_child, e) at h) in
      search-IsBestSearch f d fits plain urls layouts []
        (record { params = m.params; layout_chain = m.layout_chain }) m.route p
        (sym (find_matched_route-fuel f (suc f) d fits (omega arith) urls) ∙ q)
]

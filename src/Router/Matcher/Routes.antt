-- ===== src/Router/Matcher/Routes.antt =====
-- `matchRoute` on trees without route groups: what a match is, that a path which the URL follows
-- is never missed, and that static children go before dynamic ones and these before catch-alls.
use vais_lang.Prelude.{
  ℕ, ◌≤◌, ◌≡◌, ◌≢◌, refl, String, Option, none, some, List, [], ◌∷◌, arith, All-In, In, here, there,
  inl, inr, ◌⊎◌,
}
use native.Mathlib.Nat.{le_refl}
use vais_lang.Router.Types.{
  RouteDefinition, RouteParams, RouteMatch, info, children, size, children-All-size, AllNodes,
  AllNodes-here,
}
use vais_lang.Router.Order.{sort, sort-All, sort-In, sort-IsSorted}
use vais_lang.Router.Split.{split_path}
use vais_lang.Router.Matcher.{push_layout, match_root_child, first_match, match_urls, match_route}
use vais_lang.Router.Matcher.Consistent.{Follows, IsPlain, HasNoGroups}
use vais_lang.Router.Matcher.Preferred.{FollowsBest, IsPreferred}
use vais_lang.Router.Matcher.Best.{root_child-FollowsBest, priority-GoesFirst}
use vais_lang.Router.Matcher.Complete.{
  All-at, root_child-ne-none, first_match-first, Follows-found, or_next-ne-none,
}

abbrev pub root_layouts : RouteDefinition → List String
root_layouts tree = push_layout (info tree).layout []

-- Some route, with some parameters and layouts, is at the end of a path below `d`.
abbrev pub Leads : List String → RouteDefinition → RouteDefinition → Type 0
Leads urls tree d =
    (r : RouteDefinition) × (out : RouteParams) × (chain : List String) × Follows urls d
      (root_layouts tree) [] r out chain

-- The match is along a path below a child of the root, and at the root and at each node of the path no
-- child from which the URL can also be followed has a segment that goes before that of the one taken.
abbrev pub IsBest : List String → RouteDefinition → RouteMatch → Type 0
IsBest urls tree m =
    (d : RouteDefinition) × In d (children tree)
    × FollowsBest urls d (root_layouts tree) [] m.route m.params m.layout_chain
    × IsPreferred urls (root_layouts tree) [] (children tree) d

abbrev pub IsRootMatch : List String → RouteDefinition → RouteMatch → Type 0
IsRootMatch urls tree m =
    (urls ≡ []) × (m.route ≡ tree) × (m.params ≡ []) × (m.layout_chain ≡ root_layouts tree)

first_match-ne-none :
    (test : RouteDefinition → Option RouteMatch) {d : RouteDefinition} (ds : List RouteDefinition)
    → In d ds
    → test d ≢ none
    → first_match test ds ≢ none
first_match-ne-none test [] i h = elim i [ ]
first_match-ne-none test (x ∷ ds) (here p) h = ground (arith, p)
first_match-ne-none test (x ∷ ds) (there i) h =
    or_next-ne-none (test x) _ (first_match-ne-none test ds i h)

module _ (tree : RouteDefinition) (plain : HasNoGroups tree) (f : ℕ) (fits : size tree ≤ f) where
  child_fits : {d : RouteDefinition} → In d (children tree) → size d ≤ f
  child_fits i = All-at _ (children tree) (children-All-size f tree (omega arith)) i

  child-IsPlain : {d : RouteDefinition} → In d (children tree) → AllNodes IsPlain d
  child-IsPlain i = All-at (AllNodes IsPlain) (children tree) plain i

  of_sorted : {d : RouteDefinition} → In d (sort (children tree)) → In d (children tree)
  of_sorted i =
      All-at (λ d. In d (children tree)) (sort (children tree))
        (sort-All (λ d. In d (children tree)) (children tree) (All-In (children tree))) i

  Leads-found :
      (urls : List String) (d : RouteDefinition)
      → In d (children tree)
      → Leads urls tree d
      → match_root_child f urls (root_layouts tree) d ≢ none
  Leads-found urls d i (r, out, chain, p) =
      root_child-ne-none f d (child_fits i) (child-IsPlain i) urls (root_layouts tree)
        (Follows-found f p (child_fits i) (child-IsPlain i))

  match_urls-IsBest :
      (urls : List String) (m : RouteMatch)
      → match_urls f urls tree ≡ some m
      → IsRootMatch urls tree m ⊎ IsBest urls tree m
  match_urls-IsBest [] m h = inl (refl, cc, cc, cc)
  match_urls-IsBest (u ∷ urls) m h =
      let (d, i, t, least) =
        first_match-first (match_root_child f (u ∷ urls) (root_layouts tree)) (sort (children tree))
          m (sort-IsSorted (children tree)) h in
      inr (
        d,
        of_sorted i,
        root_child-FollowsBest f d (child_fits (of_sorted i)) (child-IsPlain (of_sorted i))
            (u ∷ urls) (root_layouts tree) m t,
        λ e j l.
            priority-GoesFirst d e (AllNodes-here IsPlain d (child-IsPlain (of_sorted i)))
              (AllNodes-here IsPlain e (child-IsPlain j))
              (least e (sort-In (children tree) j) (Leads-found (u ∷ urls) e j l)),
      )

  match_urls-ne-none :
      (urls : List String) (d : RouteDefinition)
      → In d (children tree)
      → Leads urls tree d
      → match_urls f urls tree ≢ none
  match_urls-ne-none [] d i l = cc
  match_urls-ne-none (u ∷ urls) d i l =
      first_match-ne-none (match_root_child f (u ∷ urls) (root_layouts tree)) (sort (children tree))
        (sort-In (children tree) i) (Leads-found (u ∷ urls) d i l)

-- On a tree without route groups below its root, a match of a URL is the root with no parameters
-- where the URL has no segment, and otherwise it is along one path of the tree: route, parameters
-- and layout chain are those of that path, each node on which takes its own segment of the URL; and
-- at the root and at every node of the path, of the children from which the URL can be followed to its
-- end, none is static where the one taken is dynamic, and none is static or dynamic where it is a
-- catch-all.
pub match_route-IsBest :
    (url : String) (tree : RouteDefinition) (m : RouteMatch)
    → HasNoGroups tree
    → match_route url tree ≡ some m
    → IsRootMatch (split_path url) tree m ⊎ IsBest (split_path url) tree m
unfolding match_route
match_route-IsBest url tree m plain h =
    match_urls-IsBest tree plain (size tree) (le_refl (size tree)) (split_path url) m h

-- On a tree without route groups below its root, a URL for which some child of the root has a path
-- that the URL follows is matched.
pub match_route-ne-none :
    (url : String) (tree d : RouteDefinition)
    → HasNoGroups tree
    → In d (children tree)
    → Leads (split_path url) tree d
    → match_route url tree ≢ none
unfolding match_route
match_route-ne-none url tree d plain i l =
    match_urls-ne-none tree plain (size tree) (le_refl (size tree)) (split_path url) d i l

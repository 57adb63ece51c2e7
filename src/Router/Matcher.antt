-- ===== src/Router/Matcher.antt =====
-- kit/src/router/matcher.ts: `matchChildren`, `matchSegmentsFromChild`, `findMatchedRoute` and
-- `matchRoute`. The walks are on fuel; the number of nodes of the tree is enough
-- (Matcher/Fuel.antt).
pub mod Fuel
pub mod Consistent
pub mod Complete
pub mod Preferred
pub mod Best
pub mod Routes
use vais_lang.Prelude.{
  ℕ, zero, suc, String, Option, none, some, List, [], ◌∷◌, ◌++◌, Bool, false, if◌then◌else◌, drop,
  string_eq, ◌==◌,
}
use vais_lang.Prelude.JsMap
use vais_lang.Router.Types.{
  static, dynamic, catch_all, group, RouteSegment, RouteDefinition, info, children, size, one, many,
  RouteParams, MatchResult, RouteMatch,
}
use vais_lang.Router.Order.{own_segment, sort}
use vais_lang.Router.Split.{split_path, is_nonempty}

-- `n.layout ? [...chain, n.layout] : chain`: an absent and an empty path add nothing
unfoldable pub push_layout : Option String → List String → List String
push_layout none chain = chain
push_layout (some l) chain = if is_nonempty l then chain ++ l ∷ [] else chain

-- `urlSegments[0] === value`
abbrev pub first_is : String → List String → Bool
first_is value [] = false
first_is value (s ∷ urls) = s == value

-- `r !== null ? r : next`
abbrev pub or_next {ℓ} : {A : Type ℓ} → Option A → Option A → Option A
or_next none next = next
or_next (some r) next = some r

-- What the last own segment of a child takes from the URL: the parameters with its own, and the
-- segments that remain.
unfoldable pub consume :
    RouteSegment → List String → RouteParams → Option (RouteParams × List String)
unfolding JsMap.set
consume seg urls ps = elim seg.type [
  | catch_all ↦ some (JsMap.set seg.value (many urls) ps, [])
  | static ↦ if first_is seg.value urls then some (ps, drop 1 urls) else none
  | dynamic ↦ elim urls [ [] ↦ none | u ∷ rest ↦ some (JsMap.set seg.value (one u) ps, rest) ]
  | group ↦ some (ps, urls)
]

-- The signature of `matchChildren`.
abbrev pub Walk : Type 0
Walk = List String → RouteDefinition → List String → RouteParams → Option MatchResult

module _ (walk : Walk) where
  abbrev pub descend :
      RouteDefinition → List String → RouteParams × List String → Option MatchResult
  descend child layouts (ps, []) = some (record { params = ps; layout_chain = layouts })
  descend child layouts (ps, u ∷ rest) = walk (u ∷ rest) child layouts ps

  abbrev pub then_descend :
      RouteDefinition → List String → Option (RouteParams × List String) → Option MatchResult
  then_descend child layouts none = none
  then_descend child layouts (some taken) = descend child layouts taken

  -- `matchSegmentsFromChild`
  unfoldable pub match_segments_from_child : Walk
  match_segments_from_child urls child parents inherited = elim (own_segment child) [
    | none ↦ none
    | some own ↦
        then_descend child (push_layout (info child).layout parents) (consume own urls inherited)
  ]

  -- One child in the loop of `matchChildren`; `none` goes on to the next.
  unfoldable pub try_child : Walk
  unfolding match_segments_from_child JsMap.set
  try_child urls child layouts inherited = elim (own_segment child) [
    | none ↦ walk urls child (push_layout (info child).layout layouts) inherited
    | some own ↦ elim own.type [
      | catch_all ↦ some (record {
        params = JsMap.set own.value (many urls) inherited;
        layout_chain = push_layout (info child).layout layouts;
      })
      | static ↦
          if first_is own.value urls
          then match_segments_from_child urls child layouts inherited
          else none
      | _ ↦ match_segments_from_child urls child layouts inherited
    ]
  ]

  unfoldable pub first_child :
      List String → List RouteDefinition → List String → RouteParams → Option MatchResult
  first_child urls [] layouts inherited = none
  first_child urls (child ∷ rest) layouts inherited =
      or_next (try_child urls child layouts inherited) (first_child urls rest layouts inherited)

unfoldable pub match_children : ℕ → Walk
match_children zero urls node layouts inherited = none
match_children (suc fuel) urls node layouts inherited =
    first_child (match_children fuel) urls (sort (children node)) layouts inherited

-- The loops over children in `findMatchedRoute`.
abbrev pub first_found :
    (RouteDefinition → Option RouteDefinition) → List RouteDefinition → Option RouteDefinition
first_found find [] = none
first_found find (child ∷ rest) = or_next (find child) (first_found find rest)

-- `findMatchedRoute`: the children of a group are tried in their own order, others sorted
unfoldable pub found_below :
    (List String → RouteDefinition → Option RouteDefinition)
    → List String
    → RouteDefinition
    → Option RouteDefinition
found_below find [] node = some node
found_below find (u ∷ rest) node = first_found (find (u ∷ rest)) (sort (children node))

unfoldable pub find_at :
    (List String → RouteDefinition → Option RouteDefinition)
    → List String
    → RouteDefinition
    → Option RouteDefinition
unfolding found_below
find_at find urls node = elim (own_segment node) [
  | none ↦ first_found (find urls) (children node)
  | some own ↦ elim own.type [
    | catch_all ↦ some node
    | static ↦ if first_is own.value urls then found_below find (drop 1 urls) node else none
    | dynamic ↦ elim urls [ [] ↦ none | u ∷ rest ↦ found_below find rest node ]
    | group ↦ none
  ]
]

unfoldable pub find_matched_route : ℕ → List String → RouteDefinition → Option RouteDefinition
find_matched_route zero urls node = none
find_matched_route (suc fuel) urls node = find_at (find_matched_route fuel) urls node

abbrev pub combine : Option MatchResult → Option RouteDefinition → Option RouteMatch
combine none found = none
combine (some r) none = none
combine (some r) (some found) =
    some (record { route = found; params = r.params; layout_chain = r.layout_chain })

-- A child of the root in the loop of `matchRoute`.
unfoldable pub match_root_child :
    ℕ → List String → List String → RouteDefinition → Option RouteMatch
match_root_child fuel urls layouts child =
    let below : Option MatchResult =
      match_children fuel urls child (push_layout (info child).layout layouts) [] in
    let at : Option MatchResult =
      match_segments_from_child (match_children fuel) urls child layouts [] in
    combine (elim (own_segment child) [ none ↦ below | some own ↦ at ])
      (find_matched_route fuel urls child)

abbrev pub first_match :
    (RouteDefinition → Option RouteMatch) → List RouteDefinition → Option RouteMatch
first_match test [] = none
first_match test (child ∷ rest) = or_next (test child) (first_match test rest)

abbrev pub match_urls : ℕ → List String → RouteDefinition → Option RouteMatch
match_urls fuel [] tree =
    some (record { route = tree; params = []; layout_chain = push_layout (info tree).layout [] })
match_urls fuel (u ∷ urls) tree =
    first_match (match_root_child fuel (u ∷ urls) (push_layout (info tree).layout []))
      (sort (children tree))

unfoldable pub match_route : String → RouteDefinition → Option RouteMatch
match_route url tree = match_urls (size tree) (split_path url) tree

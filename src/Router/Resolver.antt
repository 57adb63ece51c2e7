-- ===== src/Router/Resolver.antt =====
-- kit/src/router/{resolver,layout,error-boundary,loading}.ts: what a matched route resolves to.
-- The three copies of `_findPath` are one definition here.
pub mod Paths
pub mod Laws
use mathlib.Core.List.{reverse}
use mathlib.Core.Option
use vais_lang.Prelude.{
  String, Option, none, some, List, [], ◌∷◌, ◌++◌, Bool, true, false, if◌then◌else◌,
}
use vais_lang.Router.Types.{
  RouteInfo, RouteDefinition, RouteDefinitions, route, nil, cons, info, same_ref, RouteParams,
  RouteMatch,
}
use vais_lang.Router.Split.{is_nonempty}
use vais_lang.Router.Matcher.{push_layout, or_next, match_route}

-- `_findPath`
unfoldable mutual
  pub find_path : RouteDefinition → RouteDefinition → Option (List RouteDefinition)
  find_path (route i cs) target =
      let below = Option.map (λ path. route i cs ∷ path) (find_path_in cs target) in
      if same_ref (route i cs) target then some (route i cs ∷ []) else below

  pub find_path_in : RouteDefinitions → RouteDefinition → Option (List RouteDefinition)
  find_path_in nil target = none
  find_path_in (cons c cs) target = or_next (find_path c target) (find_path_in cs target)

-- `_collectLayouts`: whether the target is found, and what `accumulated` holds then.
unfoldable mutual
  pub collect_layouts : RouteDefinition → RouteDefinition → List String → Bool × List String
  collect_layouts (route i cs) target accumulated =
      let here = push_layout i.layout accumulated in
      let below = collect_layouts_in cs target here in
      if same_ref (route i cs) target then (true, here) else below

  pub collect_layouts_in : RouteDefinitions → RouteDefinition → List String → Bool × List String
  collect_layouts_in nil target accumulated = (false, accumulated)
  collect_layouts_in (cons c cs) target accumulated =
      let (found, layouts) = collect_layouts c target accumulated in
      let rest = collect_layouts_in cs target accumulated in if found then (true, layouts) else rest

unfoldable pub resolve_layout_chain : RouteDefinition → RouteMatch → List String
unfolding collect_layouts
resolve_layout_chain tree m = elim m.layout_chain [
  | [] ↦ (collect_layouts tree m.route []).1
  | l ∷ ls ↦ l ∷ ls
]

-- `if (node.field) return node.field`: an absent and an empty path are passed over
abbrev pub truthy : Option String → Option String
truthy none = none
truthy (some s) = if is_nonempty s then some s else none

-- The loop from the end of the path towards the root.
abbrev pub first_file : (RouteInfo → Option String) → List RouteDefinition → Option String
first_file field [] = none
first_file field (n ∷ ns) = or_next (truthy (field (info n))) (first_file field ns)

unfoldable pub resolve_nearest :
    (RouteInfo → Option String) → RouteDefinition → RouteMatch → Option String
unfolding find_path
resolve_nearest field tree m = elim (find_path tree m.route) [
  | none ↦ none
  | some path ↦ first_file field (reverse path)
]

abbrev pub resolve_error_boundary : RouteDefinition → RouteMatch → Option String
resolve_error_boundary = resolve_nearest (λ i. i.error)

abbrev pub resolve_loading : RouteDefinition → RouteMatch → Option String
resolve_loading = resolve_nearest (λ i. i.loading)

abbrev pub all_middleware : List RouteDefinition → List String
all_middleware [] = []
all_middleware (n ∷ ns) = (info n).middleware ++ all_middleware ns

unfoldable pub resolve_middleware_chain : RouteDefinition → RouteDefinition → List String
unfolding find_path
resolve_middleware_chain tree target = elim (find_path tree target) [
  | none ↦ []
  | some path ↦ all_middleware path
]

pub record ResolvedRoute : Type 0 where
  pub route : RouteDefinition
  pub params : RouteParams
  pub layout_chain : List String
  pub error_boundary : Option String
  pub loading : Option String
  pub middleware_chain : List String

unfoldable pub resolve_route : String → RouteDefinition → Option ResolvedRoute
unfolding match_route resolve_layout_chain resolve_nearest resolve_middleware_chain
resolve_route url tree = elim (match_route url tree) [
  | none ↦ none
  | some m ↦ some (record {
    route = m.route;
    params = m.params;
    layout_chain = resolve_layout_chain tree m;
    error_boundary = resolve_error_boundary tree m;
    loading = resolve_loading tree m;
    middleware_chain = resolve_middleware_chain tree m.route;
  })
]

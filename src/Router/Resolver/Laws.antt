-- ===== src/Router/Resolver/Laws.antt =====
-- The nearest file on the path to a matched route, and how often middleware stands in the chain.
use mathlib.Core.List.{reverse, append_assoc, reverse-cons, append-nil, reverse-reverse}
use vais_lang.Prelude.{
  ◌+◌, suc, ◌∙◌, subst, ℕ, ◌*◌, ◌≤◌, ◌≡◌, refl, String, Option, none, some, List, [], ◌∷◌, ◌++◌,
  inl, inr, arith, All, length, count, count-append, string_eq, Option-cases, ◌≢◌, ◌⊎◌, ap, eq_iff,
  All-map,
}
use vais_lang.Router.Types.{
  RouteInfo, RouteDefinition, info, children, RouteMatch, AllNodes, AllNodes-here,
  AllNodes-children,
}
use vais_lang.Router.Matcher.Complete.{All-at}
use vais_lang.Router.Tree.{ScannedFile, build_route_tree}
use vais_lang.Router.Tree.Inherit.{InheritsFrom, IsInherited, build_route_tree-IsInherited}
use vais_lang.Router.Resolver.{
  find_path, truthy, first_file, resolve_nearest, all_middleware, resolve_middleware_chain,
}
use vais_lang.Router.Resolver.Paths.{PathTo, find_path-PathTo, find_path-ne-none, last, step}

-- Where the search of a path from its end stops.
pub record IsSplit (field : RouteInfo → Option String) (path : List RouteDefinition) (file : String)
    : Type 0 where
  pub above : List RouteDefinition
  pub n : RouteDefinition
  pub below : List RouteDefinition
  pub split : path ≡ above ++ n ∷ below
  pub has : truthy (field (info n)) ≡ some file
  pub rest : All (λ m. truthy (field (info m)) ≡ none) below

regroup_nodes :
    (n : RouteDefinition) (up path : List RouteDefinition)
    → reverse (n ∷ up) ++ path ≡ reverse up ++ n ∷ path
regroup_nodes n up path = simp (reverse-cons, append_assoc)

-- The same, for a path that is given from its end.
first_file-IsSplit :
    (field : RouteInfo → Option String) (up path : List RouteDefinition) {file : String}
    → All (λ m. truthy (field (info m)) ≡ none) path
    → first_file field up ≡ some file
    → IsSplit field (reverse up ++ path) file
first_file-IsSplit field [] path none_below h = cc
first_file-IsSplit field (n ∷ up) path none_below h =
    elim (Option-cases (truthy (field (info n)))) [
      | inl e ↦
          rw (regroup_nodes n up path)
            (first_file-IsSplit field up (n ∷ path) (e, none_below) (rw e at h))
      | inr (f, e) ↦ record {
        above = reverse up;
        n = n;
        below = path;
        split = regroup_nodes n up path;
        has = e ∙ (rw e at h);
        rest = none_below;
      }
    ]

first_file-none :
    (field : RouteInfo → Option String) (up path : List RouteDefinition)
    → All (λ m. truthy (field (info m)) ≡ none) path
    → first_file field up ≡ none
    → All (λ m. truthy (field (info m)) ≡ none) (reverse up ++ path)
first_file-none field [] path below h = below
first_file-none field (n ∷ up) path below h = elim (Option-cases (truthy (field (info n)))) [
  | inl e ↦
      rw (regroup_nodes n up path) (first_file-none field up (n ∷ path) (e, below) (rw e at h))
  | inr (f, e) ↦ absurd (cc (rw e at h))
]

-- An absent and an empty path of a file are passed over.
abbrev pub NoFile : Option String → Type 0
NoFile o = (o ≡ none) ⊎ (o ≡ some "")

truthy-NoFile : (o : Option String) → truthy o ≡ none → NoFile o
truthy-NoFile none h = inl refl
truthy-NoFile (some f) h = inr (ap some (ground (arith, eq_iff f "", h)))

truthy-some : (o : Option String) (file : String) → truthy o ≡ some file → o ≡ some file
truthy-some none file h = cc
truthy-some (some f) file h = ground (arith, h)

truthy-ne-nil : (o : Option String) (file : String) → truthy o ≡ some file → file ≢ ""
truthy-ne-nil none file h = cc
truthy-ne-nil (some String.[]) file h = cc
truthy-ne-nil (some (String.◌∷◌ c s)) file h = cc

-- `n` is the node of the path nearest to its end that has the file: it has it, and no node below it
-- has one.
pub record IsNearest (field : RouteInfo → Option String) (path : List RouteDefinition)
    (file : String) : Type 0 where
  pub above : List RouteDefinition
  pub n : RouteDefinition
  pub below : List RouteDefinition
  pub split : path ≡ above ++ n ∷ below
  pub has : field (info n) ≡ some file
  pub is_file : file ≢ ""
  pub rest : All (λ m. NoFile (field (info m))) below

-- What is to be found on a path: the file of the node nearest to its end, and nothing only where no
-- node of it has a file.
abbrev pub IsNearestOn : (RouteInfo → Option String) → List RouteDefinition → Option String → Type 0
IsNearestOn field path none = All (λ n. NoFile (field (info n))) path
IsNearestOn field path (some file) = IsNearest field path file

no_files :
    (field : RouteInfo → Option String) (path : List RouteDefinition)
    → All (λ m. truthy (field (info m)) ≡ none) path
    → All (λ m. NoFile (field (info m))) path
no_files field path h =
    All-map (λ m. truthy (field (info m)) ≡ none) (λ m. NoFile (field (info m)))
      (λ m e. truthy-NoFile (field (info m)) e) path h

IsNearest-at :
    (field : RouteInfo → Option String) (path : List RouteDefinition) (file : String)
    → IsSplit field path file
    → IsNearest field path file
IsNearest-at field path file s = record {
  above = s.above;
  n = s.n;
  below = s.below;
  split = s.split;
  has = truthy-some (field (info s.n)) file s.has;
  is_file = truthy-ne-nil (field (info s.n)) file s.has;
  rest = no_files field s.below s.rest;
}

first_file-IsNearestOn :
    (field : RouteInfo → Option String) (up : List RouteDefinition)
    → IsNearestOn field (reverse up ++ []) (first_file field up)
first_file-IsNearestOn field up = elim (Option-cases (first_file field up)) [
  | inl e ↦ rw e (no_files field (reverse up ++ []) (first_file-none field up [] tt e))
  | inr (file, e) ↦
      rw e (IsNearest-at field (reverse up ++ []) file (first_file-IsSplit field up [] tt e))
]

-- For a route that is in the tree, so that some path leads from the root to it, what
-- `resolveErrorBoundary` and `resolveLoading` return is, on a path from the root to the route, the file
-- of the node nearest to the route, which may be the root or the route itself; and null only where no
-- node of that path has a file.
pub resolve_nearest-IsNearest :
    (field : RouteInfo → Option String) (tree : RouteDefinition) (m : RouteMatch)
    {way : List RouteDefinition}
    → PathTo m.route tree way
    → (path : List RouteDefinition) × PathTo m.route tree path
      × IsNearestOn field path (resolve_nearest field tree m)
unfolding resolve_nearest
resolve_nearest-IsNearest field tree m w = elim (Option-cases (find_path tree m.route)) [
  | inl e ↦ absurd (find_path-ne-none tree m.route w e)
  | inr (path, e) ↦ (
    path,
    find_path-PathTo tree m.route e,
    rw (e, resolve_nearest)
        (subst (λ p. IsNearestOn field p (first_file field (reverse path)))
          (simp append-nil (reverse-reverse path)) (first_file-IsNearestOn field (reverse path))),
  )
]

at_each : (k a b r : ℕ) → a ≤ b → k * b ≤ r → suc k * a ≤ a + r
at_each k a b r h i = grind arith

PathTo-count :
    (w : String) (target : RouteDefinition) {n : RouteDefinition} {path : List RouteDefinition}
    → PathTo target n path
    → AllNodes IsInherited n
    → length path * count w (info n).middleware ≤ count w (all_middleware path)
PathTo-count w target {n = n} (last e) h = omega (arith, count-append {0} w (info n).middleware [])
PathTo-count w target {n = n} (step {c = c} {path = path} i p) h =
    let (zs, e) =
      All-at (InheritsFrom (info n).middleware) (children n) (AllNodes-here IsInherited n h) i in
    let starts : count w (info n).middleware ≤ count w (info c).middleware =
      rw e (omega (arith, count-append {0} w (info n).middleware zs)) in
    let ih =
      PathTo-count w target p
        (All-at (AllNodes IsInherited) (children n) (AllNodes-children IsInherited n h) i) in
    omega (
      arith,
      at_each (length path) (count w (info n).middleware) (count w (info c).middleware) _ starts ih,
      count-append {0} w (info n).middleware (all_middleware path),
    )

-- In a built tree the middleware chain of a matched route at depth k (its path has k + 1 nodes)
-- holds each middleware of the root at least k + 1 times as often as the root itself does, because
-- every node already carries the middleware of its ancestors and the chain joins those of all.
pub resolve_middleware_chain_repeats :
    (join : String → String) (scanned : List ScannedFile) (target : RouteDefinition) (w : String)
    (path : List RouteDefinition)
    → find_path (build_route_tree join scanned) target ≡ some path
    → length path * count w (info (build_route_tree join scanned)).middleware
      ≤ count w (resolve_middleware_chain (build_route_tree join scanned) target)
unfolding resolve_middleware_chain
resolve_middleware_chain_repeats join scanned target w path h =
    rw (h, resolve_middleware_chain)
      (PathTo-count w target (find_path-PathTo _ target h)
        (build_route_tree-IsInherited join scanned))

-- ===== src/Router/Tree/Inherit.antt =====
-- Every route of a built tree has the middleware of its parent before its own.
use vais_lang.Prelude.{ℕ, refl, String, List, [], ◌++◌, All, StartsWith}
use vais_lang.Router.Types.{RouteDefinition, info, children, to_list, AllNodes, AllNodesIn}
use vais_lang.Router.Tree.{
  TreeNode, node, TreeNodes, empty, entry, create_node, ScannedFile, node_to_route_definition,
  children_to_routes, insert_files, build_route_tree,
}

abbrev pub InheritsFrom : List String → RouteDefinition → Type 0
InheritsFrom mw c = StartsWith mw (info c).middleware

-- The children of a node have its middleware first.
abbrev pub IsInherited : RouteDefinition → Type 0
IsInherited n = All (InheritsFrom (info n).middleware) (children n)

node_to_route-InheritsFrom :
    (n : TreeNode) (parent : List String) (next : ℕ)
    → InheritsFrom parent (node_to_route_definition n parent next).0
unfolding node_to_route_definition
node_to_route-InheritsFrom (node i cs) parent next = (i.middleware, refl)

children_to_routes-InheritsFrom :
    (cs : TreeNodes) (parent : List String) (next : ℕ)
    → All (InheritsFrom parent) (to_list (children_to_routes cs parent next).0)
unfolding node_to_route_definition
children_to_routes-InheritsFrom empty parent next = tt
children_to_routes-InheritsFrom (entry k n cs) parent next = (
  node_to_route-InheritsFrom n parent next,
  children_to_routes-InheritsFrom cs parent (node_to_route_definition n parent next).1,
)

mutual
  unfolding node_to_route_definition AllNodes

  node_to_route-IsInherited :
      (n : TreeNode) (parent : List String) (next : ℕ)
      → AllNodes IsInherited (node_to_route_definition n parent next).0
  node_to_route-IsInherited (node i cs) parent next = (
    children_to_routes-InheritsFrom cs (parent ++ i.middleware) next,
    children_to_routes-IsInherited cs (parent ++ i.middleware) next,
  )

  children_to_routes-IsInherited :
      (cs : TreeNodes) (parent : List String) (next : ℕ)
      → AllNodesIn IsInherited (children_to_routes cs parent next).0
  children_to_routes-IsInherited empty parent next = tt
  children_to_routes-IsInherited (entry k n cs) parent next = (
    node_to_route-IsInherited n parent next,
    children_to_routes-IsInherited cs parent (node_to_route_definition n parent next).1,
  )

-- In every tree that is built, each route has the middleware of its parent before its own.
pub build_route_tree-IsInherited :
    (join : String → String) (scanned : List ScannedFile)
    → AllNodes IsInherited (build_route_tree join scanned)
unfolding build_route_tree
build_route_tree-IsInherited join scanned =
    node_to_route-IsInherited (insert_files join scanned (create_node [])) [] 0

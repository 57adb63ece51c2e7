-- ===== src/Router/Tree.antt =====
-- kit/src/router/tree.ts: the route tree from the scanned files, and the manifest. The scan itself
-- and `join` of node:path are arguments.
pub mod Pages
pub mod Inherit
use Prim.Native.String
use vais_lang.Prelude.{
  ℕ, suc, ◌+◌, String, Option, none, some, List, [], ◌∷◌, ◌++◌, map, filter, if◌then◌else◌, ◌==◌,
  string_eq,
}
use vais_lang.Prelude.JsMap
use vais_lang.Prelude.JsMap.{JsMap}
use vais_lang.Router.Types.{
  RouteSegment, static, dynamic, catch_all, group, RouteInfo, RouteDefinition, RouteDefinitions,
  route, nil, cons, info,
}
use vais_lang.Router.Order.{not_group}

infixr 65 ◌·◌
abbrev ◌·◌ : String → String → String
a · b = String.◌++◌ a b

-- The text of a segment in a URL pattern.
abbrev in_pattern : RouteSegment → String
in_pattern s = elim s.type [
  | dynamic ↦ "[" · s.value · "]"
  | catch_all ↦ "[..." · s.value · "]"
  | _ ↦ s.value
]

-- `"/" + parts.join("/")` for one part or more
abbrev join_slash : List String → String
join_slash [] = ""
join_slash (p ∷ ps) = "/" · p · join_slash ps

abbrev from_parts : List String → String
from_parts [] = "/"
from_parts (p ∷ ps) = join_slash (p ∷ ps)

unfoldable pub segments_to_pattern : List RouteSegment → String
segments_to_pattern segments = from_parts (map in_pattern (filter not_group segments))

unfoldable pub segment_key : RouteSegment → String
segment_key s = elim s.type [
  | group ↦ "(" · s.value · ")"
  | dynamic ↦ "[" · s.value · "]"
  | catch_all ↦ "[..." · s.value · "]"
  | static ↦ s.value
]

-- The fields of a `TreeNode` but for its children.
pub record NodeInfo : Type 0 where
  pub segments : List RouteSegment
  pub page : Option String
  pub layout : Option String
  pub error : Option String
  pub loading : Option String
  pub api_route : Option String
  pub middleware : List String

mutual
  pub data TreeNode : Type 0 where
    node : NodeInfo → TreeNodes → TreeNode

  -- The children: a `Map` from keys to nodes, in insertion order.
  pub data TreeNodes : Type 0 where
    empty : TreeNodes
    entry : String → TreeNode → TreeNodes → TreeNodes

abbrev pub new_info : List RouteSegment → NodeInfo
new_info segments = record {
  segments = segments;
  page = none;
  layout = none;
  error = none;
  loading = none;
  api_route = none;
  middleware = [];
}

abbrev pub create_node : List RouteSegment → TreeNode
create_node segments = node (new_info segments) empty

-- `nodeToRouteDefinition`, in which a number in reach of no other object gives the new object its
-- identity.
abbrev pub to_info : NodeInfo → List String → ℕ → RouteInfo
to_info i all ref = record {
  ref = ref;
  pattern = segments_to_pattern i.segments;
  segments = i.segments;
  page = i.page;
  layout = i.layout;
  error = i.error;
  loading = i.loading;
  api_route = i.api_route;
  middleware = all;
}

unfoldable mutual
  pub node_to_route_definition : TreeNode → List String → ℕ → RouteDefinition × ℕ
  node_to_route_definition (node i cs) parent next =
      let (routes, ref) = children_to_routes cs (parent ++ i.middleware) next in
      (route (to_info i (parent ++ i.middleware) ref) routes, suc ref)

  pub children_to_routes : TreeNodes → List String → ℕ → RouteDefinitions × ℕ
  children_to_routes empty parent next = (nil, next)
  children_to_routes (entry k n cs) parent next =
      let (r, next') = node_to_route_definition n parent next in
      let (rs, next'') = children_to_routes cs parent next' in (cons r rs, next'')

pub record ScannedFile : Type 0 where
  pub segments : List RouteSegment
  pub file_name : String
  pub relative_path : String

module _ (join : String → String) where
  -- The `switch` on the file's name; `join` is `join(appDir, …)`.
  unfoldable pub assign_file : ScannedFile → NodeInfo → NodeInfo
  assign_file file i =
      let path = join file.relative_path in
      if file.file_name == "page.vaisx"
      then record i { page = some path }
      else if file.file_name == "layout.vaisx"
      then record i { layout = some path }
      else if file.file_name == "error.vaisx"
      then record i { error = some path }
      else if file.file_name == "loading.vaisx"
      then record i { loading = some path }
      else if file.file_name == "route.vais"
      then record i { api_route = some path }
      else if file.file_name == "middleware.vais"
      then record i { middleware = i.middleware ++ path ∷ [] }
      else i

-- `if (!children.has(key)) children.set(key, fresh)`, and go on at the child of that key
unfoldable pub upsert : String → TreeNode → (TreeNode → TreeNode) → TreeNodes → TreeNodes
upsert key fresh f empty = entry key (f fresh) empty
upsert key fresh f (entry k n cs) =
    let rest = upsert key fresh f cs in if k == key then entry k (f n) cs else entry k n rest

-- The walk over `file.segments` from a node, of which `done` are behind.
unfoldable pub insert_at :
    (NodeInfo → NodeInfo) → List RouteSegment → List RouteSegment → TreeNode → TreeNode
insert_at f [] done (node i cs) = node (f i) cs
insert_at f (seg ∷ segs) done (node i cs) =
    let done' = done ++ seg ∷ [] in
    node i (upsert (segment_key seg) (create_node done') (insert_at f segs done') cs)

module _ (join : String → String) where
  unfoldable pub insert_files : List ScannedFile → TreeNode → TreeNode
  insert_files [] root = root
  insert_files (file ∷ files) root =
      insert_files files (insert_at (assign_file join file) file.segments [] root)

  unfoldable pub build_route_tree : List ScannedFile → RouteDefinition
  unfolding insert_files
  build_route_tree scanned =
      (node_to_route_definition (insert_files scanned (create_node [])) [] 0).0

unfoldable mutual
  pub collect_all_routes : RouteDefinition → List RouteDefinition
  collect_all_routes (route i cs) = route i cs ∷ collect_below cs

  pub collect_below : RouteDefinitions → List RouteDefinition
  collect_below nil = []
  collect_below (cons c cs) = collect_all_routes c ++ collect_below cs

pub record RouteManifest : Type 0 where
  pub routes : List RouteDefinition
  pub modules : JsMap String String

unfoldable pub add_module : RouteInfo → JsMap String String → JsMap String String
add_module i modules = elim i.page [
  | some page ↦ JsMap.set i.pattern page modules
  | none ↦ elim i.api_route [ some api ↦ JsMap.set i.pattern api modules | none ↦ modules ]
]

abbrev add_modules : List RouteDefinition → JsMap String String → JsMap String String
add_modules [] modules = modules
add_modules (r ∷ rs) modules = add_modules rs (add_module (info r) modules)

unfoldable pub generate_manifest : RouteDefinition → RouteManifest
unfolding collect_all_routes add_module
generate_manifest tree =
    let routes = collect_all_routes tree in
    record { routes = routes; modules = add_modules routes [] }

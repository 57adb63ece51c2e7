-- ===== src/Router/BuildTests.antt =====
-- Runs of the tree builder and the resolver, and their theorems at concrete inputs.
use vais_lang.Prelude.{◌≡◌, refl, String, none, some, List, [], ◌∷◌, string_eq, here}
use vais_lang.Router.Types.{nil, cons, route, RouteSegment, static, RouteDefinition, RouteMatch}
use vais_lang.Router.Tree.{
  ScannedFile, create_node, insert_files, build_route_tree, node_to_route_definition, insert_at,
  upsert, assign_file, segment_key, segments_to_pattern,
}
use vais_lang.Router.Tree.Pages.{page_at, last_page, page_at-insert_files}
use vais_lang.Router.Resolver.{find_path, resolve_nearest}
use vais_lang.Router.Resolver.Paths.{PathTo, last, step}
use vais_lang.Router.Resolver.Laws.{IsNearestOn, resolve_nearest-IsNearest}

abbrev seg_a : RouteSegment
seg_a = record { type = static; value = "a" }

abbrev scanned : List ScannedFile
scanned =
    record { segments = []; file_name = "middleware.vais"; relative_path = "middleware.vais" }
    ∷ record { segments = []; file_name = "error.vaisx"; relative_path = "error.vaisx" }
    ∷ record { segments = seg_a ∷ []; file_name = "page.vaisx"; relative_path = "a/page.vaisx" }
    ∷ []

abbrev same_path : String → String
same_path s = s

-- The node of /a in the tree that is built.
abbrev page_a : RouteDefinition
page_a =
    route
      (record {
        ref = 0;
        pattern = "/a";
        segments = seg_a ∷ [];
        page = some "a/page.vaisx";
        layout = none;
        error = none;
        loading = none;
        api_route = none;
        middleware = "middleware.vais" ∷ [];
      })
      nil

abbrev root : RouteDefinition
root =
    route
      (record {
        ref = 1;
        pattern = "/";
        segments = [];
        page = none;
        layout = none;
        error = some "error.vaisx";
        loading = none;
        api_route = none;
        middleware = "middleware.vais" ∷ [];
      })
      (cons page_a nil)

built : build_route_tree same_path scanned ≡ root
unfolding build_route_tree node_to_route_definition insert_at upsert assign_file segment_key
    segments_to_pattern
built = refl

page_at-insert_files_example :
    page_at (seg_a ∷ []) (insert_files same_path scanned (create_node []))
    ≡ last_page same_path (seg_a ∷ []) scanned (page_at (seg_a ∷ []) (create_node []))
page_at-insert_files_example = page_at-insert_files same_path scanned (seg_a ∷ []) (create_node [])

path_to_a : find_path (build_route_tree same_path scanned) page_a ≡ some (root ∷ page_a ∷ [])
unfolding find_path
path_to_a = rw built refl

abbrev match_a : RouteMatch
match_a = record { route = page_a; params = []; layout_chain = [] }

error_of_a : resolve_nearest (λ i. i.error) root match_a ≡ some "error.vaisx"
unfolding resolve_nearest
error_of_a = refl

resolve_nearest-IsNearest_example :
    (path : List RouteDefinition) × PathTo page_a root path
    × IsNearestOn (λ i. i.error) path (resolve_nearest (λ i. i.error) root match_a)
resolve_nearest-IsNearest_example =
    resolve_nearest-IsNearest (λ i. i.error) root match_a
      (step {n = root} {c = page_a} (here refl) (last {n = page_a} refl))

-- ===== src/Router/Tests.antt =====
-- Runs of the router on small trees, and the router's theorems at concrete inputs.
use vais_lang.Prelude.{
  ℕ, ◌≡◌, ◌≢◌, refl, String, Option, none, some, List, [], ◌∷◌, ◌⊎◌, here, there,
}
use vais_lang.Router.Types.{
  RouteSegment, static, dynamic, catch_all, group, RouteInfo, RouteDefinition, route, nil, cons,
  size, AllNodes, RouteMatch, RouteParam,
}
use vais_lang.Router.Order.{priority, sort}
use vais_lang.Router.Split.{split_path}
use vais_lang.Router.Matcher.{
  push_layout, consume, match_segments_from_child, try_child, first_child, match_children,
  found_below, find_at, find_matched_route, match_root_child, match_route,
}
use vais_lang.Router.Matcher.Consistent.{HasNoGroups, Follows, ends, goes}
use vais_lang.Router.Matcher.Routes.{
  Leads, IsRootMatch, IsBest, match_route-IsBest, match_route-ne-none,
}

abbrev seg_blog : RouteSegment
seg_blog = record { type = static; value = "blog" }

abbrev seg_slug : RouteSegment
seg_slug = record { type = dynamic; value = "slug" }

abbrev seg_rest : RouteSegment
seg_rest = record { type = catch_all; value = "rest" }

abbrev seg_group : RouteSegment
seg_group = record { type = group; value = "g" }

abbrev make : ℕ → List RouteSegment → Option String → RouteInfo
make ref segments layout = record {
  ref = ref;
  pattern = "";
  segments = segments;
  page = some "page";
  layout = layout;
  error = none;
  loading = none;
  api_route = none;
  middleware = [];
}

-- /blog, /blog/[slug] and /[...rest]
abbrev slug_page : RouteDefinition
slug_page = route (make 2 (seg_blog ∷ seg_slug ∷ []) none) nil

abbrev blog_page : RouteDefinition
blog_page = route (make 1 (seg_blog ∷ []) (some "blog/layout")) (cons slug_page nil)

abbrev rest_page : RouteDefinition
rest_page = route (make 3 (seg_rest ∷ []) none) nil

abbrev site : RouteDefinition
site = route (make 0 [] (some "layout")) (cons rest_page (cons blog_page nil))

abbrev slug_match : RouteMatch
slug_match = record {
  route = slug_page;
  params = ("slug", RouteParam.one "hello") ∷ [];
  layout_chain = "layout" ∷ "blog/layout" ∷ [];
}

match_slug : match_route "/blog/hello?draft=1" site ≡ some slug_match
unfolding match_route size match_root_child match_children first_child match_segments_from_child
    try_child consume find_matched_route find_at found_below push_layout sort priority split_path
match_slug = refl

site-HasNoGroups : HasNoGroups site
unfolding AllNodes
site-HasNoGroups = ((λ h. cc, tt), ((λ h. cc, ((λ h. cc, tt), tt)), tt))

match_route-IsBest_example :
    IsRootMatch (split_path "/blog/hello?draft=1") site slug_match
    ⊎ IsBest (split_path "/blog/hello?draft=1") site slug_match
match_route-IsBest_example =
    match_route-IsBest "/blog/hello?draft=1" site slug_match site-HasNoGroups match_slug

slug-Leads : Leads ("blog" ∷ "hello" ∷ []) site blog_page
unfolding consume push_layout
slug-Leads =
    let at : Follows ("hello" ∷ []) slug_page ("layout" ∷ "blog/layout" ∷ []) [] slug_page
        (("slug", RouteParam.one "hello") ∷ []) ("layout" ∷ "blog/layout" ∷ []) =
      ends seg_slug refl refl in
    (slug_page, _, _, goes seg_blog [] "hello" [] slug_page refl refl (here refl) at)

match_route-ne-none_example : match_route "/blog/hello" site ≢ none
unfolding split_path
match_route-ne-none_example =
    match_route-ne-none "/blog/hello" site blog_page site-HasNoGroups (there (here refl)) slug-Leads

abbrev group_info : RouteInfo
group_info = make 1 (seg_group ∷ []) (some "g/layout")

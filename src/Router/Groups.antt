-- ===== src/Router/Groups.antt =====
-- Route groups, directories named "(name)", in matcher.ts: `matchChildren` sorts the children of a
-- group, and `findMatchedRoute` does not; and below a directory with a name of its own the group's
-- segments end, without the group, in that name.
use vais_lang.Prelude.{
  zero, suc, eq_iff, ◌≢◌, ◌++◌, filter, refl, ℕ, ◌≡◌, String, none, some, [], ◌∷◌, arith, string_eq,
  List,
}
use text.Mathlib.TextPositions.{eq_refl}
use vais_lang.Router.Types.{
  children, group, size, info, RouteParams, RouteSegment, static, dynamic, RouteInfo,
  RouteDefinition, route, nil, cons,
}
use vais_lang.Router.Order.{not_group, own_segment, priority, sort}
use vais_lang.Router.Matcher.{
  match_route, push_layout, consume, match_segments_from_child, try_child, first_child,
  match_children, found_below, find_at, find_matched_route, match_root_child,
}
use vais_lang.Router.Split.{split_path}

module _ (gi di si : RouteInfo) (name v : String) where
  abbrev d : RouteDefinition
  d = route di nil

  abbrev s : RouteDefinition
  s = route si nil

  abbrev pub grouped : RouteDefinition
  grouped = route gi (cons d (cons s nil))

  module _ (g_own : own_segment grouped ≡ none)
      (d_own : own_segment d ≡ some (record { type = dynamic; value = name }))
      (s_own : own_segment s ≡ some (record { type = static; value = v })) where
    sorted : sort (d ∷ s ∷ []) ≡ s ∷ d ∷ []
    unfolding sort priority
    sorted = rw (d_own, s_own) refl

    walked :
        (fuel : ℕ) (layouts : List String)
        → match_children (suc fuel) (v ∷ []) grouped layouts []
          ≡ some (record { params = []; layout_chain = push_layout si.layout layouts })
    unfolding match_children first_child try_child match_segments_from_child consume
    walked fuel layouts = ground (arith, sorted, s_own, eq_refl v)

    found : (fuel : ℕ) → find_matched_route (suc (suc fuel)) (v ∷ []) grouped ≡ some d
    unfolding find_matched_route find_at found_below
    found fuel = ground (arith, g_own, d_own)

    root_child :
        (fuel : ℕ) (layouts : List String)
        → match_root_child (suc (suc fuel)) (v ∷ []) layouts grouped
          ≡ some (record {
            route = d;
            params = [];
            layout_chain = push_layout si.layout (push_layout gi.layout layouts);
          })
    unfolding match_root_child
    root_child fuel layouts =
        ground (arith, g_own, found fuel, walked (suc fuel) (push_layout gi.layout layouts))

    -- A group at the top of the tree, whose dynamic child stands before a static one: for the URL of
    -- the static child the matched route is the dynamic child, with the layouts of the static child
    -- and with no value for the dynamic parameter.
    pub match_route-grouped :
        (ri : RouteInfo) (url : String)
        → split_path url ≡ v ∷ []
        → match_route url (route ri (cons grouped nil))
          ≡ some (record {
            route = d;
            params = [];
            layout_chain = push_layout si.layout (push_layout gi.layout (push_layout ri.layout []));
          })
    unfolding match_route size sort
    match_route-grouped ri url e = rw e (rw (root_child 2 (push_layout ri.layout [])))

filter-group :
    (xs : List RouteSegment) (value : String)
    → filter not_group (xs ++ record { type = group; value = value } ∷ []) ≡ filter not_group xs
filter-group [] value = refl
filter-group (x ∷ xs) value = rw (filter-group xs value)

-- A group below a directory named `b` is taken for another directory `b`: no URL goes through
-- `b` into the group, whatever its pages are, unless its next segment is again `b`.
pub match_children-nested_group :
    (fuel : ℕ) (p g : RouteDefinition) (b name u : String) (rest layouts : List String)
    (ps : RouteParams)
    → own_segment p ≡ some (record { type = static; value = b })
    → (info g).segments ≡ (info p).segments ++ record { type = group; value = name } ∷ []
    → children p ≡ g ∷ []
    → u ≢ b
    → match_children fuel (u ∷ rest) p layouts ps ≡ none
unfolding match_children first_child sort try_child
match_children-nested_group zero p g b name u rest layouts ps own segs only ne = refl
match_children-nested_group (suc fuel) p g b name u rest layouts ps own segs only ne =
    let own_g : own_segment g ≡ some (record { type = static; value = b }) =
      rw segs (rw (filter-group (info p).segments name) own) in
    rw only (ground (arith, own_g, eq_iff u b))

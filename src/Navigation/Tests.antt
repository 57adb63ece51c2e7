-- ===== src/Navigation/Tests.antt =====
-- Runs of the navigators, and their theorems at concrete inputs.
use vais_lang.Prelude.{List, string_eq, ℕ, ◌≡◌, refl, none, some, [], ◌∷◌, false, not}
use vais_lang.Prelude.JsMap
use vais_lang.Navigation.Screens.{ScreenConfig, StackConfig, first_screen}
use vais_lang.Navigation.Stack.{create_stack_navigator, can_go_back, push, pop, replace}
use vais_lang.Navigation.Drawer.{Drawer}
use vais_lang.Navigation.Stack.Refine.{
  popping, replacing, create_stack_navigator-run, pushing, is_empty, run_view, state_of, Call, run,
  View,
}

abbrev plain : ScreenConfig
plain = record { component = "Plain"; title = none; header_shown = none }

abbrev config : StackConfig
config = record {
  screens = ("home", plain) ∷ ("news", plain) ∷ [];
  inherited = λ name. false;
  initial_route = none;
}

abbrev calls : List (Call ℕ)
calls = pushing "news" (some 1) ∷ pushing "none" none ∷ replacing "home" (some 2) ∷ popping ∷ []

runs :
    run config calls
      (state_of (record { front = record { name = "home"; params = none }; below = [] }))
    ≡ record { routes = record { name = "home"; params = none } ∷ []; index = 0 }
unfolding push pop replace JsMap.get
runs = refl

create_stack_navigator-run_example :
    let bottom : View ℕ = record { front = record { name = "home"; params = none }; below = [] } in
    let v = run_view config calls bottom in
    (create_stack_navigator config ≡ some (state_of bottom))
    × (run config calls (state_of bottom) ≡ state_of v)
    × (can_go_back (run config calls (state_of bottom)) ≡ not (is_empty v.below))
unfolding first_screen JsMap.get
create_stack_navigator-run_example = create_stack_navigator-run config "home" calls refl

abbrev drawer : Drawer ℕ
drawer = record { drawer_open = false; current_screen = "home"; current_params = none }

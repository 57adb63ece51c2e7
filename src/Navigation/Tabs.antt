-- ===== src/Navigation/Tabs.antt =====
-- The tab navigator (native/src/navigation/tabs.ts): `createTabNavigator` and its calls.
use vais_lang.Prelude.{String, Option, none, some, List, map, if◌then◌else◌}
use vais_lang.Navigation.Screens.{ScreenConfig, StackConfig, registered, first_screen}

unfoldable pub create_tab_navigator : StackConfig → Option String
unfolding first_screen
create_tab_navigator config = first_screen config

-- The state is the active tab.
unfoldable pub switch_tab : StackConfig → String → String → Option String
switch_tab config name active = if registered config name then some name else none

unfoldable pub get_tabs : StackConfig → List (String × ScreenConfig)
get_tabs config = map (λ entry. (entry.0, entry.1)) config.screens

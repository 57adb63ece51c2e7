-- ===== src/Navigation/Stack.antt =====
-- The stack navigator (native/src/navigation/stack.ts): `createStackNavigator` and its calls.
pub mod Refine
use vais_lang.Prelude.{
  ℕ, zero, suc, ◌+◌, ◌-◌, String, Option, none, some, List, [], ◌∷◌, ◌++◌, Bool, if◌then◌else◌, ltb,
  length, take,
}
use vais_lang.Navigation.Screens.{StackConfig, registered, first_screen}

-- `params` is what a caller gives a screen.
pub record RouteEntry (P : Type 0) : Type 0 where
  pub name : String
  pub params : Option P

pub record StackState (P : Type 0) : Type 0 where
  pub routes : List (RouteEntry P)
  pub index : ℕ

module _ {P : Type 0} where
  unfoldable pub create_stack_navigator : StackConfig → Option (StackState P)
  unfolding first_screen
  create_stack_navigator config = elim (first_screen config) [
    | none ↦ none
    | some first ↦ some (record { routes = record { name = first; params = none } ∷ []; index = 0 })
  ]

  module _ (config : StackConfig) where
    unfoldable pub push : String → Option P → StackState P → Option (StackState P)
    push screen params s =
        let routes =
          take (s.index + 1) s.routes ++ record { name = screen; params = params } ∷ [] in
        if registered config screen
        then some (record { routes = routes; index = length routes - 1 })
        else none

    unfoldable pub replace : String → Option P → StackState P → Option (StackState P)
    replace screen params s =
        let routes = take s.index s.routes ++ record { name = screen; params = params } ∷ [] in
        if registered config screen
        then some (record { routes = routes; index = length routes - 1 })
        else none

    unfoldable pub reset : String → Option P → StackState P → Option (StackState P)
    reset screen params s =
        if registered config screen
        then some (record { routes = record { name = screen; params = params } ∷ []; index = 0 })
        else none

  unfoldable pub pop : StackState P → StackState P
  pop s =
      if ltb 0 s.index
      then record { routes = take (s.index - 1 + 1) s.routes; index = s.index - 1 }
      else s

  unfoldable pub can_go_back : StackState P → Bool
  can_go_back s = ltb 0 s.index

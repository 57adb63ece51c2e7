-- ===== src/Navigation/Drawer.antt =====
-- The drawer navigator (native/src/navigation/drawer.ts): `createDrawerNavigator` and its calls.
use vais_lang.Prelude.{
  ◌≡◌, arith, String, Option, none, some, Bool, true, false, not, if◌then◌else◌,
}
use vais_lang.Navigation.Screens.{StackConfig, registered, first_screen}

pub record Drawer (P : Type 0) : Type 0 where
  pub drawer_open : Bool
  pub current_screen : String
  pub current_params : Option P

module _ {P : Type 0} where
  unfoldable pub create_drawer_navigator : StackConfig → Option (Drawer P)
  unfolding first_screen
  create_drawer_navigator config = elim (first_screen config) [
    | none ↦ none
    | some first ↦
        some (record { drawer_open = false; current_screen = first; current_params = none })
  ]

  abbrev pub open_drawer : Drawer P → Drawer P
  open_drawer d = record d { drawer_open = true }

  abbrev pub close_drawer : Drawer P → Drawer P
  close_drawer d = record d { drawer_open = false }

  abbrev pub toggle_drawer : Drawer P → Drawer P
  toggle_drawer d = record d { drawer_open = not d.drawer_open }

  unfoldable pub navigate : StackConfig → String → Option P → Drawer P → Option (Drawer P)
  navigate config screen params d =
      if registered config screen
      then some (record { drawer_open = false; current_screen = screen; current_params = params })
      else none

  -- One call that does not throw.
  pub data Step (config : StackConfig) (d : Drawer P) : Drawer P → Type 0 where
    opens : Step config d (open_drawer d)
    closes : Step config d (close_drawer d)
    toggles : Step config d (toggle_drawer d)
    navigates :
        (screen : String) (params : Option P) {e : Drawer P}
        → navigate config screen params d ≡ some e
        → Step config d e

  -- The states after any calls, the first of them first.
  pub data Reach (config : StackConfig) (d : Drawer P) : Drawer P → Type 0 where
    start : Reach config d d
    next : {e f : Drawer P} → Reach config d e → Step config e f → Reach config d f

  navigate-registered :
      (config : StackConfig) (screen : String) (params : Option P) (d e : Drawer P)
      → navigate config screen params d ≡ some e
      → registered config e.current_screen ≡ true
  unfolding navigate
  navigate-registered config screen params d e h = ground arith

  create_drawer_navigator-registered :
      (config : StackConfig) (d : Drawer P)
      → create_drawer_navigator config ≡ some d
      → registered config d.current_screen ≡ true
  unfolding create_drawer_navigator
  create_drawer_navigator-registered config d h = ground arith

  -- Whatever calls follow, the current screen of a drawer navigator that was made is registered.
  pub Reach-registered :
      (config : StackConfig) {d e : Drawer P}
      → create_drawer_navigator config ≡ some d
      → Reach config d e
      → registered config e.current_screen ≡ true
  Reach-registered config h start = create_drawer_navigator-registered config _ h
  Reach-registered config h (next r opens) = Reach-registered config h r
  Reach-registered config h (next r closes) = Reach-registered config h r
  Reach-registered config h (next r toggles) = Reach-registered config h r
  Reach-registered config h (next r (navigates screen params e)) =
      navigate-registered config screen params _ _ e

-- ===== src/Navigation/Screens.antt =====
-- The screens of a navigator, and the choice of its first screen.
use vais_lang.Prelude.{
  String, Option, none, some, [], ◌∷◌, Bool, ◌||◌, if◌then◌else◌, or_else, string_eq,
}
use vais_lang.Prelude.JsMap
use vais_lang.Prelude.JsMap.{JsMap}

pub record ScreenConfig : Type 0 where
  pub component : String
  pub title : Option String
  pub header_shown : Option Bool

-- `screens` in the order of `Object.keys`. `inherited` is which names every object has from
-- `Object.prototype`: `screens[name]` is not `undefined` for these either.
pub record StackConfig : Type 0 where
  pub screens : JsMap String ScreenConfig
  pub inherited : String → Bool
  pub initial_route : Option String

-- `!!screens[name]`
abbrev pub registered : StackConfig → String → Bool
registered config name = JsMap.has name config.screens || config.inherited name

-- `initialRoute ?? screenNames[0]`, or `none` where the factory throws.
unfoldable pub first_screen : StackConfig → Option String
first_screen config = elim config.screens [
  | [] ↦ none
  | (name, screen) ∷ rest ↦
      let first = or_else config.initial_route name in
      if registered config first then some first else none
]

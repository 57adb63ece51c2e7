-- ===== src/Plugin.antt =====
-- plugin/src/container.ts: the class PluginContainer. A hook is code of a plugin: it takes the state
-- of the world, and is `none` where its promise is rejected. `R`, `L` and `M` are what resolveId and
-- load give, and the map and meta data of a transformation.
pub mod Order
pub mod Hooks
mod Tests
use vais_lang.Prelude.{
  String, Option, none, some, List, [], ◌∷◌, ◌++◌, filter, Bool, true, false, if◌then◌else◌,
}

pub data Enforce : Type 0 where
  pre post : Enforce

-- `toTransformObject` of a result that is not null.
pub record TransformResult (M : Type 0) : Type 0 where
  pub code : String
  pub map_and_meta : Option M

-- A hook of world `W`: no hook gives null.
abbrev pub Hook : Type 0 → Type 0 → Type 0
Hook W A = W → Option (Option A × W)

pub record VaisXPlugin (W R L M : Type 0) : Type 0 where
  pub enforce : Option Enforce
  pub build_start : Option (W → Option W)
  pub build_end : Option (W → Option W)
  pub resolve_id : Option (String → Option String → Hook W R)
  pub load : Option (String → Hook W L)
  pub transform : Option (String → String → Hook W (TransformResult M))

module _ {W R L M : Type 0} where
  abbrev pub is_pre : VaisXPlugin W R L M → Bool
  is_pre p = elim p.enforce [ some pre ↦ true | _ ↦ false ]

  abbrev pub is_normal : VaisXPlugin W R L M → Bool
  is_normal p = elim p.enforce [ none ↦ true | some e ↦ false ]

  abbrev pub is_post : VaisXPlugin W R L M → Bool
  is_post p = elim p.enforce [ some post ↦ true | _ ↦ false ]

  unfoldable pub sort_plugins : List (VaisXPlugin W R L M) → List (VaisXPlugin W R L M)
  sort_plugins plugins =
      filter is_pre plugins ++ (filter is_normal plugins ++ filter is_post plugins)

  -- The loop of `buildStart`, and with the other hook that of `buildEnd`.
  unfoldable pub run_hooks :
      (VaisXPlugin W R L M → Option (W → Option W)) → List (VaisXPlugin W R L M) → W → Option W
  run_hooks hook [] w = some w
  run_hooks hook (p ∷ ps) w = elim (hook p) [
    | none ↦ run_hooks hook ps w
    | some h ↦ elim (h w) [ none ↦ none | some v ↦ run_hooks hook ps v ]
  ]

  abbrev pub build_start_all : List (VaisXPlugin W R L M) → W → Option W
  build_start_all plugins = run_hooks (λ p. p.build_start) plugins

  abbrev pub build_end_all : List (VaisXPlugin W R L M) → W → Option W
  build_end_all plugins = run_hooks (λ p. p.build_end) plugins

  -- The loop of `resolveId` and of `load`: the first result that is not null.
  unfoldable pub first_result :
      {A : Type 0}
      → (VaisXPlugin W R L M → Option (Hook W A))
      → List (VaisXPlugin W R L M)
      → Hook W A
  first_result hook [] w = some (none, w)
  first_result hook (p ∷ ps) w = elim (hook p) [
    | none ↦ first_result hook ps w
    | some h ↦ elim (h w) [
      | none ↦ none
      | some (none, v) ↦ first_result hook ps v
      | some (some a, v) ↦ some (some a, v)
    ]
  ]

  abbrev pub resolve_id_first : List (VaisXPlugin W R L M) → String → Option String → Hook W R
  resolve_id_first plugins source importer =
      first_result (λ p. elim p.resolve_id [ none ↦ none | some h ↦ some (h source importer) ])
        plugins

  abbrev pub load_first : List (VaisXPlugin W R L M) → String → Hook W L
  load_first plugins id =
      first_result (λ p. elim p.load [ none ↦ none | some h ↦ some (h id) ]) plugins

  -- The loop of `transform`: `last` is the result of the last plugin that gave one.
  unfoldable pub transform_from :
      List (VaisXPlugin W R L M)
      → String
      → String
      → Option (TransformResult M)
      → Hook W (TransformResult M)
  transform_from [] id code last w = some (last, w)
  transform_from (p ∷ ps) id code last w = elim p.transform [
    | none ↦ transform_from ps id code last w
    | some h ↦ elim (h code id w) [
      | none ↦ none
      | some (none, v) ↦ transform_from ps id code last v
      | some (some r, v) ↦ transform_from ps id r.code (some r) v
    ]
  ]

  abbrev pub transform_all :
      List (VaisXPlugin W R L M) → String → String → Hook W (TransformResult M)
  transform_all plugins code id = transform_from plugins id code none

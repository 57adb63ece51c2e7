-- ===== src/Plugin/Tests.antt =====
-- Runs of plugins, and their theorems at concrete inputs.
use vais_lang.Prelude.{String, ℕ, suc, ◌≡◌, refl, Option, none, some, [], ◌∷◌, string_eq}
use vais_lang.Plugin.{VaisXPlugin, Enforce, pre, sort_plugins, transform_all, transform_from}

abbrev Plugin : Type 0
Plugin = VaisXPlugin ℕ String String String

-- The world counts the calls of hooks.
abbrev answering : Option Enforce → String → Plugin
answering enforce answer = record {
  enforce = enforce;
  build_start = none;
  build_end = none;
  resolve_id = some (λ source importer w. some (some answer, suc w));
  load = none;
  transform =
      some (λ code id w. some (some (record { code = answer; map_and_meta = none }), suc w));
}

abbrev early : Plugin
early = answering (some pre) "early"

abbrev late : Plugin
late = answering none "late"

sorts : sort_plugins (late ∷ early ∷ []) ≡ early ∷ late ∷ []
unfolding sort_plugins
sorts = refl

transforms :
    transform_all (early ∷ late ∷ []) "code" "id" 0
    ≡ some (some (record { code = "late"; map_and_meta = none }), 2)
unfolding transform_from
transforms = refl

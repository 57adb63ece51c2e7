-- ===== src/Router/Split.antt =====
-- `splitPath` of kit/src/router/matcher.ts.
pub mod Laws
use Prim.Native.Char.{Char, code}
use vais_lang.Prelude.{
  split, ◌≡◌, refl, ℕ, String, List, [], ◌∷◌, Bool, true, false, if◌then◌else◌, nat_beq, filter,
}

-- `s.split(sep)[0]`; `split` never returns an empty array
unfoldable pub first_part : ℕ → String → String
unfolding split
first_part sep s = elim (split sep s) [ [] ↦ String.[] | w ∷ ws ↦ w ]

abbrev pub is_nonempty : String → Bool
is_nonempty String.[] = false
is_nonempty (String.◌∷◌ ch s) = true

unfoldable pub split_path : String → List String
unfolding first_part
split_path url =
    let path = first_part b'#' (first_part b'?' url) in filter is_nonempty (split b'/' path)

split_path_test : split_path "/blog//hello?x=1/2#top" ≡ "blog" ∷ "hello" ∷ []
unfolding split_path
split_path_test = refl

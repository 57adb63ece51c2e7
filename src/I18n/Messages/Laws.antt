-- ===== src/I18n/Messages/Laws.antt =====
-- What interpolation makes of a template.
use Prim.Native.Char.{Char, code}
use package.text.Mathlib.TextLemmas.{
  nil-append, cons-append, append-nil as text-append-nil, append_assoc as text-append_assoc,
}
use vais_lang.Prelude.{
  and_split, ◌&◌, subst, String, List, [], ◌∷◌, ◌≡◌, refl, ap, sym, ◌∙◌, arith, nat_beq, Lacks, All,
  some, none, true, false, str_eq, Bool, ◌&&◌, Option, Option-cases, inl, inr, string_eq,
}
use vais_lang.Prelude.JsMap
use vais_lang.Prelude.JsMap.{JsMap}
use vais_lang.I18n.Messages.{
  Numbers, Param, words, number, substitute, scan, interpolate, is_word_char, one_char,
}

-- A template in parts: texts without an opening brace, and keys in braces.
pub data Part : Type 0 where
  words_part hole : String → Part

abbrev pub template : List Part → String
template [] = ""
template (words_part s ∷ parts) = s & template parts
template (hole key ∷ parts) = String.◌∷◌ "{" (key & String.◌∷◌ "}" (template parts))

abbrev pub all_word : String → Bool
all_word String.[] = true
all_word (String.◌∷◌ c s) = is_word_char (code c) && all_word s

abbrev pub IsPart : Part → Type 0
IsPart (words_part s) = Lacks b'{' s
IsPart (hole key) = (all_word key ≡ true) × (str_eq key "" ≡ false)

longer_key :
    (read : String) (c : Char) (key : String) → (read & one_char c) & key ≡ read & String.◌∷◌ c key
longer_key read c key =
    text-append_assoc read (one_char c) key
    ∙ ap (λ w. read & w) (cons-append c "" key ∙ ap (λ w. String.◌∷◌ c w) (nil-append key))

module _ {N : Type 0} (numbers : Numbers N) (params : JsMap String (Param N)) where
  -- What a key in braces is to become: its own text, braces included, without a parameter; a text as
  -- it is; and a number as it is shown.
  abbrev pub expected_at : String → Option (Param N) → String
  expected_at key none = "{" & key & "}"
  expected_at key (some (words s)) = s
  expected_at key (some (number n)) = numbers.show n

  abbrev pub filled : List Part → String
  filled [] = ""
  filled (words_part s ∷ parts) = s & filled parts
  filled (hole key ∷ parts) = expected_at key (JsMap.get key params) & filled parts

  expected : (key : String) → substitute numbers params key ≡ expected_at key (JsMap.get key params)
  unfolding substitute
  expected key = elim (Option-cases (JsMap.get key params)) [
    | inl e ↦ rw (e, substitute) refl
    | inr (words s, e) ↦ rw (e, substitute) refl
    | inr (number n, e) ↦ rw (e, substitute) refl
  ]

  scan-words :
      (s rest : String)
      → Lacks b'{' s
      → scan numbers params none (s & rest) ≡ s & scan numbers params none rest
  unfolding scan
  scan-words String.[] rest h =
      ap (scan numbers params none) (nil-append rest)
      ∙ sym (nil-append (scan numbers params none rest))
  scan-words (String.◌∷◌ c s) rest (p, h) =
      let outside : nat_beq (code c) b'{' ≡ false = ground (arith, p) in
      rw (cons-append c s rest, outside, scan-words s rest h)
        (sym (cons-append c s (scan numbers params none rest)))

  scan-key :
      (key read rest : String)
      → all_word key ≡ true
      → str_eq (read & key) "" ≡ false
      → scan numbers params (some read) (key & String.◌∷◌ "}" rest)
        ≡ substitute numbers params (read & key) & scan numbers params none rest
  unfolding scan
  scan-key String.[] read rest h k =
      let empty_read : str_eq read "" ≡ false =
        subst (λ w. str_eq w "" ≡ false) (text-append-nil read) k in
      rw (nil-append (String.◌∷◌ "}" rest), text-append-nil read, empty_read) refl
  scan-key (String.◌∷◌ c key) read rest h k =
      let word : is_word_char (code c) ≡ true = (and_split _ _ h).0 in
      let no_end : nat_beq (code c) b'}' ≡ false = ground (arith, word) in
      let no_start : nat_beq (code c) b'{' ≡ false = ground (arith, word) in
      let longer = longer_key read c key in
      let next =
        scan-key key (read & one_char c) rest (and_split _ _ h).1
          (subst (λ w. str_eq w "" ≡ false) (sym longer) k) in
      rw (cons-append c key (String.◌∷◌ "}" rest), no_end, no_start, word)
        (next ∙ ap (λ w. substitute numbers params w & scan numbers params none rest) longer)

  -- A template of texts without an opening brace and of keys in braces, each of at least one letter,
  -- digit or underscore: interpolation gives the texts with, in the place of each key in braces, its
  -- parameter (a number as it is shown), or the key still in its braces where it has no parameter.
  pub interpolate-template :
      (parts : List Part)
      → All IsPart parts
      → interpolate numbers params (template parts) ≡ filled parts
  unfolding interpolate
  interpolate-template [] h = refl
  interpolate-template (words_part s ∷ parts) (p, h) =
      scan-words s (template parts) p ∙ ap (λ t. s & t) (interpolate-template parts h)
  interpolate-template (hole key ∷ parts) ((p, q), h) =
      scan-key key "" (template parts) p (subst (λ w. str_eq w "" ≡ false) (sym (nil-append key)) q)
      ∙ ap (λ w. substitute numbers params w & scan numbers params none (template parts))
          (nil-append key)
      ∙ ap (λ t. substitute numbers params key & t) (interpolate-template parts h)
      ∙ ap (λ w. w & filled parts) (expected key)

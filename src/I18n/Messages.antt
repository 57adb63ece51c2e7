-- ===== src/I18n/Messages.antt =====
-- i18n/src/messages.ts and translate.ts. Keys are not those that every object has from
-- Object.prototype. `N` is the type of numbers.
pub mod Laws
pub mod Flat
use Prim.Native.Char.{Char, code}
use Prim.Native.String
use vais_lang.Prelude.{
  ◌&◌, ℕ, String, Option, none, some, List, [], ◌∷◌, map, Bool, true, false, not, ◌&&◌, ◌||◌,
  is_some, or_else, if◌then◌else◌, nat_beq, leb, str_eq, split, string_eq,
}
use vais_lang.Prelude.JsMap
use vais_lang.Prelude.JsMap.{JsMap}

-- The values of a bundle: texts and objects. Whether an object is a PluralMessages is a test.
mutual
  pub data Value : Type 0 where
    text : String → Value
    object : Bundle → Value

  pub data Bundle : Type 0 where
    empty : Bundle
    entry : String → Value → Bundle → Bundle

-- `bundle[segment]`
unfoldable pub own : String → Bundle → Option Value
own k empty = none
own k (entry j v b) = if str_eq j k then some v else own k b

abbrev pub is_text : Option Value → Bool
is_text none = false
is_text (some (text t)) = true
is_text (some (object b)) = false

unfoldable pub is_plural_messages : Value → Bool
unfolding own
is_plural_messages (text t) = false
is_plural_messages (object b) = is_text (own "one" b) && is_text (own "other" b)

abbrev pub is_nested_bundle : Value → Bool
is_nested_bundle (text t) = false
is_nested_bundle (object b) = not (is_plural_messages (object b))

-- The loop of `resolveKey`.
unfoldable pub resolve_segments : List String → Value → Option Value
unfolding own is_plural_messages
resolve_segments [] v = some v
resolve_segments (s ∷ ss) (text t) = none
resolve_segments (s ∷ ss) (object b) =
    if is_plural_messages (object b)
    then none
    else elim (own s b) [ none ↦ none | some v ↦ resolve_segments ss v ]

unfoldable pub resolve_key : Bundle → String → Option Value
unfolding split resolve_segments
resolve_key bundle key = resolve_segments (split b'.' key) (object bundle)

abbrev pub MessageRegistry : Type 0
MessageRegistry = JsMap String Bundle

unfoldable pub register : String → Bundle → MessageRegistry → MessageRegistry
unfolding JsMap.set
register locale bundle bundles = JsMap.set locale bundle bundles

unfoldable pub resolve : String → String → MessageRegistry → Option Value
unfolding JsMap.get resolve_key
resolve locale key bundles = elim (JsMap.get locale bundles) [
  | none ↦ none
  | some bundle ↦ resolve_key bundle key
]

unfoldable pub has_key : String → String → MessageRegistry → Bool
unfolding resolve
has_key locale key bundles = is_some (resolve locale key bundles)

-- `result.set(nk, nv)` for all entries.
abbrev pub set_all : JsMap String Value → JsMap String Value → JsMap String Value
set_all [] result = result
set_all ((k, v) ∷ entries) result = set_all entries (JsMap.set k v result)

-- `prefix ? `${prefix}.${k}` : k`
abbrev pub full_key : String → String → String
full_key String.[] k = k
full_key (String.◌∷◌ c p) k = String.◌++◌ (String.◌∷◌ c p) (String.◌∷◌ "." k)

unfoldable mutual
  unfolding JsMap.set is_plural_messages

  -- The loop of `flattenBundle`, on the map that it fills.
  pub flatten_entries : Bundle → String → JsMap String Value → JsMap String Value
  flatten_entries empty prefix result = result
  flatten_entries (entry k v b) prefix result =
      flatten_entries b prefix (flatten_value v (full_key prefix k) result)

  pub flatten_value : Value → String → JsMap String Value → JsMap String Value
  flatten_value (text t) key result = JsMap.set key (text t) result
  flatten_value (object b) key result =
      let nested = set_all (flatten_entries b key []) result in
      if is_plural_messages (object b) then JsMap.set key (object b) result else nested

unfoldable pub flatten_bundle : Bundle → String → JsMap String Value
unfolding flatten_entries
flatten_bundle bundle prefix = flatten_entries bundle prefix []

-- A parameter of a message, `string | number`.
pub data Param (N : Type 0) : Type 0 where
  words : String → Param N
  number : N → Param N

pub record Numbers (N : Type 0) : Type 0 where
  pub show : N → String
  pub is_zero : N → Bool
  pub is_one : N → Bool

pub record PluralMessages : Type 0 where
  pub zero_form : Option String
  pub one_form : String
  pub other_form : String

-- `\w`
abbrev pub is_word_char : ℕ → Bool
is_word_char c =
    (leb b'a' c && leb c b'z')
    || (leb b'A' c && leb c b'Z')
    || (leb b'0' c && leb c b'9')
    || nat_beq c b'_'

abbrev pub one_char : Char → String
one_char c = String.◌∷◌ c String.[]

abbrev pub text_of : Option Value → Option String
text_of (some (text t)) = some t
text_of (some (object b)) = none
text_of none = none

-- The three forms, where the test says that there are the last two.
abbrev pub plural_forms : Bundle → PluralMessages
plural_forms b = record {
  zero_form = text_of (own "zero" b);
  one_form = or_else (text_of (own "one" b)) "";
  other_form = or_else (text_of (own "other" b)) "";
}

module _ {N : Type 0} (numbers : Numbers N) where
  abbrev pub param_text : Param N → String
  param_text (words s) = s
  param_text (number n) = numbers.show n

  module _ (params : JsMap String (Param N)) where
    -- What stands for `{key}`.
    unfoldable pub substitute : String → String
    unfolding JsMap.get
    substitute key = elim (JsMap.get key params) [ none ↦ "{" & key & "}" | some p ↦ param_text p ]

    -- `template.replace(/\{(\w+)\}/g, ...)`: what was read after a brace, if one is open.
    unfoldable pub scan : Option String → String → String
    unfolding substitute
    scan none String.[] = ""
    scan (some key) String.[] = "{" & key
    scan none (String.◌∷◌ c s) =
        let inside = scan (some "") s in
        let outside = scan none s in if nat_beq (code c) b'{' then inside else String.◌∷◌ c outside
    scan (some key) (String.◌∷◌ c s) =
        let again = scan (some "") s in
        let further = scan (some (key & one_char c)) s in
        let outside = scan none s in
        if nat_beq (code c) b'}' && not (str_eq key "")
        then substitute key & outside
        else if nat_beq (code c) b'{'
        then "{" & key & again
        else if is_word_char (code c)
        then further
        else "{" & key & String.◌∷◌ c outside

    unfoldable pub interpolate : String → String
    unfolding scan
    interpolate template = scan none template

    unfoldable pub select_plural : PluralMessages → N → String
    select_plural plural count =
        if numbers.is_zero count && is_some plural.zero_form
        then or_else plural.zero_form ""
        else if numbers.is_one count
        then plural.one_form
        else plural.other_form

    -- The form for `params["count"]`, which counts as 1 unless it is a number.
    abbrev pub plural_form : PluralMessages → String
    plural_form plural = elim (JsMap.get "count" params) [
      | none ↦ plural.one_form
      | some (words s) ↦ plural.one_form
      | some (number n) ↦ select_plural plural n
    ]

    unfoldable pub translate_value : Option Value → String → String
    unfolding interpolate select_plural is_plural_messages own JsMap.get
    translate_value none fallback = fallback
    translate_value (some (text t)) fallback = interpolate t
    translate_value (some (object b)) fallback =
        if is_plural_messages (object b)
        then interpolate (plural_form (plural_forms b))
        else fallback

    -- The second locale that `t` tries: the one given, unless it is empty or the first one.
    abbrev pub second_locale : Option String → String → Option String
    second_locale none locale = none
    second_locale (some f) locale =
        if not (str_eq f "") && not (str_eq f locale) then some f else none

    abbrev pub from_second : MessageRegistry → Option String → String → String
    from_second registry none key = key
    from_second registry (some f) key = elim (resolve f key registry) [
      | none ↦ key
      | some v ↦ translate_value (some v) key
    ]

    -- The function `t` of a translator.
    unfoldable pub translate : MessageRegistry → Option String → String → String → String
    unfolding resolve translate_value
    translate registry fallback_locale key locale =
        let second = from_second registry (second_locale fallback_locale locale) key in
        elim (resolve locale key registry) [
          | none ↦ second
          | some v ↦
              let result = translate_value (some v) key in
              if str_eq result key then second else result
        ]

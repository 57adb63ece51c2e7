-- ===== src/I18n/Messages/Flat.antt =====
-- The flat map of a bundle gives what `resolveKey` finds.
use Prim.Native.Char.{code}
use Prim.Native.String
use package.text.Mathlib.TextLemmas.{nil-append, cons-append, cons-ne-nil}
use vais_lang.Prelude.{
  subst, ap₂, join_with, join_with-split, String, Option, none, some, List, [], ◌∷◌, ◌++◌, ◌≡◌,
  refl, ap, sym, ◌∙◌, arith, nat_beq, Lacks, true, false, str_eq, string_eq, eq_iff, Bool-cases,
  Option-cases, inl, inr, split, split-ne-nil, split-Lacks, if◌then◌else◌,
}
use vais_lang.Prelude.JsMap
use vais_lang.Prelude.JsMap.{JsMap, get-set, HasDistinctKeys, set-HasDistinctKeys}
use vais_lang.I18n.Messages.{
  Value, Bundle, text, object, empty, entry, own, is_plural_messages, resolve_segments, resolve_key,
  set_all, full_key, flatten_entries, flatten_value, flatten_bundle,
}

-- The values of the flat map: texts and plural messages.
abbrev pub leaf : Option Value → Option Value
leaf none = none
leaf (some (text t)) = some (text t)
leaf (some (object b)) = if is_plural_messages (object b) then some (object b) else none

-- No key of the bundle or of a bundle in it is empty, has a dot or occurs twice.
unfoldable mutual
  pub IsPlainBundle : Bundle → Type 0
  IsPlainBundle empty = Unit
  IsPlainBundle (entry k v b) =
      Lacks b'.' k × (str_eq k "" ≡ false) × (own k b ≡ none) × IsPlainValue v × IsPlainBundle b

  pub IsPlainValue : Value → Type 0
  IsPlainValue (text t) = Unit
  IsPlainValue (object b) = IsPlainBundle b

abbrev or_get : Option Value → Option Value → Option Value
or_get none o = o
or_get (some v) o = some v

get-set_all :
    (k : String) (m result : JsMap String Value)
    → HasDistinctKeys m
    → JsMap.get k (set_all m result) ≡ or_get (JsMap.get k m) (JsMap.get k result)
unfolding JsMap.get
get-set_all k [] result h = refl
get-set_all k ((j, v) ∷ m) result (p, h) =
    ground (arith, p, get-set_all k m (JsMap.set j v result) h, get-set j k v result, eq_iff j k)

set_all-HasDistinctKeys :
    (m result : JsMap String Value) → HasDistinctKeys result → HasDistinctKeys (set_all m result)
set_all-HasDistinctKeys [] result h = h
set_all-HasDistinctKeys ((j, v) ∷ m) result h =
    set_all-HasDistinctKeys m (JsMap.set j v result) (set-HasDistinctKeys j v result h)

mutual
  unfolding flatten_entries

  entries-HasDistinctKeys :
      (b : Bundle) (prefix : String) (result : JsMap String Value)
      → HasDistinctKeys result
      → HasDistinctKeys (flatten_entries b prefix result)
  entries-HasDistinctKeys empty prefix result h = h
  entries-HasDistinctKeys (entry k v b) prefix result h =
      entries-HasDistinctKeys b prefix _ (value-HasDistinctKeys v (full_key prefix k) result h)

  value-HasDistinctKeys :
      (v : Value) (key : String) (result : JsMap String Value)
      → HasDistinctKeys result
      → HasDistinctKeys (flatten_value v key result)
  value-HasDistinctKeys (text t) key result h = set-HasDistinctKeys key (text t) result h
  value-HasDistinctKeys (object b) key result h =
      elim (Bool-cases (is_plural_messages (object b))) [
        | inl e ↦ rw (flatten_value, e) (set-HasDistinctKeys key (object b) result h)
        | inr e ↦
            rw (flatten_value, e) (set_all-HasDistinctKeys (flatten_entries b key []) result h)
      ]

-- The segments of a key, none of the empty prefix.
abbrev segments : String → List String
segments String.[] = []
segments (String.◌∷◌ c s) = split b'.' (String.◌∷◌ c s)

-- What is left of a path after another one.
abbrev strip : List String → List String → Option (List String)
strip [] ks = some ks
strip (p ∷ ps) [] = none
strip (p ∷ ps) (k ∷ ks) = let rest = strip ps ks in if str_eq p k then rest else none

-- One more segment of a path.
abbrev below : String → Option (List String) → Option (List String)
below k none = none
below k (some []) = none
below k (some (s ∷ ss)) = if str_eq k s then some ss else none

strip-append : (ps ks : List String) (k : String) → strip (ps ++ k ∷ []) ks ≡ below k (strip ps ks)
strip-append [] [] k = refl
strip-append [] (s ∷ ss) k = refl
strip-append (p ∷ ps) [] k = refl
strip-append (p ∷ ps) (s ∷ ss) k = ground (arith, strip-append ps ss k)

split-dot :
    (a k : String) → split b'.' (String.◌++◌ a (String.◌∷◌ "." k)) ≡ split b'.' a ++ split b'.' k
unfolding split
split-dot String.[] k = ap (split b'.') (nil-append (String.◌∷◌ "." k))
split-dot (String.◌∷◌ c a) k =
    let (v, vs, e) = split-ne-nil b'.' a in
    let rest : split b'.' (String.◌++◌ a (String.◌∷◌ "." k)) ≡ v ∷ vs ++ split b'.' k =
      split-dot a k ∙ ap (λ l. l ++ split b'.' k) e in
    elim (Bool-cases (nat_beq (code c) b'.')) [
      | inl h ↦ rw (cons-append c a (String.◌∷◌ "." k), h, e, rest) refl
      | inr h ↦ rw (cons-append c a (String.◌∷◌ "." k), h, e, rest) refl
    ]

segments-full_key :
    (prefix k : String)
    → Lacks b'.' k
    → str_eq k "" ≡ false
    → segments (full_key prefix k) ≡ segments prefix ++ k ∷ []
segments-full_key String.[] String.[] h e = absurd (ground (arith, e))
segments-full_key String.[] (String.◌∷◌ c k) h e = split-Lacks b'.' (String.◌∷◌ c k) h
segments-full_key (String.◌∷◌ c p) k h e =
    let whole = cons-append c p (String.◌∷◌ "." k) in
    ap segments whole
    ∙ ap (split b'.') (sym whole)
    ∙ split-dot (String.◌∷◌ c p) k
    ∙ ap (λ l. split b'.' (String.◌∷◌ c p) ++ l) (split-Lacks b'.' k h)

strip_self : (ps : List String) → strip ps ps ≡ some []
strip_self [] = refl
strip_self (p ∷ ps) = ground (arith, strip_self ps, eq_iff p p)

strip_all : (ps ks : List String) → strip ps ks ≡ some [] → ps ≡ ks
strip_all [] [] h = refl
strip_all [] (k ∷ ks) h = absurd cc
strip_all (p ∷ ps) [] h = absurd cc
strip_all (p ∷ ps) (k ∷ ks) h = elim (Bool-cases (str_eq p k)) [
  | inl e ↦ ap₂ (λ x xs. x ∷ xs) ((eq_iff p k).0 e) (strip_all ps ks (rw (strip, e) at h))
  | inr e ↦ absurd (ground (arith, e, h))
]

-- What a value at a key gives for the path that is left.
abbrev at_value : Value → Option (List String) → Option Value
at_value v none = none
at_value v (some ss) = leaf (resolve_segments ss v)

abbrev look : Bundle → Option (List String) → Option Value
look b none = none
look b (some []) = none
look b (some (s ∷ ss)) = elim (own s b) [ none ↦ none | some v ↦ leaf (resolve_segments ss v) ]

segments-ne : (key : String) → str_eq key "" ≡ false → segments key ≡ split b'.' key
segments-ne String.[] h = absurd (ground (arith, h))
segments-ne (String.◌∷◌ c s) h = refl

-- A key is the whole of another one just when nothing is left after it.
same_key : (key k : String) → strip (split b'.' key) (split b'.' k) ≡ some [] → str_eq key k ≡ true
same_key key k h = (eq_iff key k).1 (
    sym (join_with-split "." key)
    ∙ ap (join_with ".") (strip_all (split b'.' key) (split b'.' k) h)
    ∙ join_with-split "." k)

other_key : (key k : String) → str_eq key k ≡ true → strip (split b'.' key) (split b'.' k) ≡ some []
other_key key k h = rw ((eq_iff key k).0 h) (strip_self (split b'.' k))

not_same :
    (key k : String) (o : Option (List String))
    → strip (split b'.' key) (split b'.' k) ≡ o
    → (o ≡ some [] → ⊥)
    → str_eq key k ≡ false
not_same key k o e n = elim (Bool-cases (str_eq key k)) [
  | inl same ↦ absurd (n (sym e ∙ other_key key k same))
  | inr other ↦ other
]

-- A value that is kept as it is.
get-set-leaf :
    (v : Value) (key k : String) (result : JsMap String Value) (o : Option (List String))
    → leaf (some v) ≡ some v
    → ((s : String) (ss : List String) → resolve_segments (s ∷ ss) v ≡ none)
    → strip (split b'.' key) (split b'.' k) ≡ o
    → JsMap.get k (JsMap.set key v result) ≡ or_get (at_value v o) (JsMap.get k result)
unfolding resolve_segments
get-set-leaf v key k result none h n e =
    get-set key k v result ∙ (rw (not_same key k none e (λ q. absurd cc)) refl)
get-set-leaf v key k result (some []) h n e =
    get-set key k v result ∙ (rw (same_key key k e, h) refl)
get-set-leaf v key k result (some (s ∷ ss)) h n e =
    get-set key k v result ∙ (rw (not_same key k (some (s ∷ ss)) e (λ q. absurd cc), n s ss) refl)

text_inside : (t s : String) (ss : List String) → resolve_segments (s ∷ ss) (text t) ≡ none
unfolding resolve_segments
text_inside t s ss = refl

plural_inside :
    (b : Bundle) (s : String) (ss : List String)
    → is_plural_messages (object b) ≡ true
    → resolve_segments (s ∷ ss) (object b) ≡ none
unfolding resolve_segments
plural_inside b s ss e = rw (resolve_segments, e) refl

nested_at :
    (b : Bundle) (o : Option (List String))
    → is_plural_messages (object b) ≡ false
    → at_value (object b) o ≡ look b o
unfolding resolve_segments
nested_at b none e = refl
nested_at b (some []) e = rw e refl
nested_at b (some (s ∷ ss)) e = elim (Option-cases (own s b)) [
  | inl k ↦ rw (look, resolve_segments, e, k) refl
  | inr (v, k) ↦ rw (look, resolve_segments, e, k) refl
]

-- One entry more.
look-entry :
    (k : String) (v : Value) (b : Bundle) (o : Option (List String)) (rest : Option Value)
    → own k b ≡ none
    → or_get (look b o) (or_get (at_value v (below k o)) rest) ≡ or_get (look (entry k v b) o) rest
unfolding own
look-entry k v b none rest h = refl
look-entry k v b (some []) rest h = refl
look-entry k v b (some (s ∷ ss)) rest h = elim (Bool-cases (str_eq k s)) [
  | inl e ↦
      let gone : own s b ≡ none = subst (λ x. own x b ≡ none) ((eq_iff k s).0 e) h in
      rw (look, own, e, gone) refl
  | inr e ↦ rw (look, own, e) refl
]

look_empty : (o : Option (List String)) → look empty o ≡ none
unfolding own
look_empty none = refl
look_empty (some []) = refl
look_empty (some (s ∷ ss)) = refl

or_get-none : (o : Option Value) → or_get o none ≡ o
or_get-none none = refl
or_get-none (some v) = refl

full_key-ne-nil : (prefix k : String) → str_eq k "" ≡ false → str_eq (full_key prefix k) "" ≡ false
full_key-ne-nil String.[] k h = h
full_key-ne-nil (String.◌∷◌ c p) k h = elim (Bool-cases (str_eq (full_key (String.◌∷◌ c p) k) "")) [
  | inl e ↦ absurd (
      cons-ne-nil c _
        (sym (cons-append c p (String.◌∷◌ "." k)) ∙ (eq_iff (full_key (String.◌∷◌ c p) k) "").0 e))
  | inr e ↦ e
]

mutual
  unfolding flatten_entries IsPlainBundle JsMap.get

  get-flatten_entries :
      (b : Bundle) (prefix k : String) (result : JsMap String Value)
      → IsPlainBundle b
      → JsMap.get k (flatten_entries b prefix result)
        ≡ or_get (look b (strip (segments prefix) (split b'.' k))) (JsMap.get k result)
  get-flatten_entries empty prefix k result h =
      rw (look_empty (strip (segments prefix) (split b'.' k))) refl
  get-flatten_entries (entry j v b) prefix k result (p, q, r, hv, hb) =
      let left = strip (segments prefix) (split b'.' k) in
      let key = full_key prefix j in
      let here : JsMap.get k (flatten_value v key result)
          ≡ or_get (at_value v (below j left)) (JsMap.get k result) =
        get-flatten_value v key k result (full_key-ne-nil prefix j q) hv
        ∙ ap (λ ps. or_get (at_value v (strip ps (split b'.' k))) (JsMap.get k result))
            (segments-full_key prefix j p q)
        ∙ ap (λ o. or_get (at_value v o) (JsMap.get k result))
            (strip-append (segments prefix) (split b'.' k) j) in
      get-flatten_entries b prefix k (flatten_value v key result) hb
      ∙ ap (or_get (look b left)) here
      ∙ look-entry j v b left (JsMap.get k result) r

  get-flatten_value :
      (v : Value) (key k : String) (result : JsMap String Value)
      → str_eq key "" ≡ false
      → IsPlainValue v
      → JsMap.get k (flatten_value v key result)
        ≡ or_get (at_value v (strip (segments key) (split b'.' k))) (JsMap.get k result)
  get-flatten_value (text t) key k result n h = rw (segments-ne key n) (
      get-set-leaf (text t) key k result (strip (split b'.' key) (split b'.' k)) refl
        (text_inside t) refl)
  get-flatten_value (object b) key k result n h =
      elim (Bool-cases (is_plural_messages (object b))) [
        | inl e ↦
            rw (flatten_value, e, segments-ne key n)
              (get-set-leaf (object b) key k result (strip (split b'.' key) (split b'.' k))
                (rw (leaf, e) refl) (λ s ss. plural_inside b s ss e) refl)
        | inr e ↦
            let left = strip (segments key) (split b'.' k) in
            rw (flatten_value, e)
              (get-set_all k (flatten_entries b key []) result (entries-HasDistinctKeys b key [] tt)
                ∙ ap (λ o. or_get o (JsMap.get k result))
                    (get-flatten_entries b key k [] h
                      ∙ or_get-none (look b left)
                      ∙ sym (nested_at b left e)))
      ]

-- For a bundle that is not itself plural messages and has no key that is empty, has a dot or occurs
-- twice, at any depth: the flat map has at each key the text or the plural messages that `resolveKey`
-- finds there, and nothing where it finds nothing or a nested bundle.
pub get-flatten_bundle :
    (bundle : Bundle) (key : String)
    → IsPlainBundle bundle
    → is_plural_messages (object bundle) ≡ false
    → JsMap.get key (flatten_bundle bundle "") ≡ leaf (resolve_key bundle key)
unfolding flatten_bundle resolve_key JsMap.get
get-flatten_bundle bundle key h e =
    let path = some (split b'.' key) in
    get-flatten_entries bundle "" key [] h
    ∙ or_get-none (look bundle path)
    ∙ sym (nested_at bundle path e)

-- ===== src/I18n/Locales/Laws.antt =====
-- Adding a locale to a path, and taking it away again.
use Prim.Native.Char.{Char, code}
use text.Mathlib.TextEquality.{codes_equal}
use text.Mathlib.TextLemmas.{
  append_assoc as text-append_assoc, tail-eq_of_cons-eq, cons-ne-nil, nil-append, cons-append,
}
use text.Mathlib.TextPositions.{compare_self}
use vais_lang.Prelude.{
  In-cases, ◌&◌, eq_iff, subst, [], In, All, if◌then◌else◌, String, none, some, ◌≡◌, refl, ◌⊎◌, inl,
  inr, arith, Bool-cases, nat_beq, nat_beq_iff, ap, sym, ◌∙◌, Lacks,
}
use vais_lang.I18n.Locales.{
  after_slash, remove_locale_prefix, add_locale_prefix, false, ◌∷◌, find_locale, true, str_eq, List,
  slash, trim_slash, normalise_path, strip_prefix,
}

-- A path that `normalisePath` leaves alone.
abbrev pub IsNormal : String → Type 0
IsNormal path = normalise_path path ≡ path

trim_slash-append :
    (a : String) (c : Char) (b : String)
    → trim_slash (a & String.◌∷◌ c b) ≡ a & trim_slash (String.◌∷◌ c b)
trim_slash-append String.[] c b =
    ap trim_slash (nil-append (String.◌∷◌ c b)) ∙ sym (nil-append (trim_slash (String.◌∷◌ c b)))
trim_slash-append (String.◌∷◌ d String.[]) c b = simp (cons-append, nil-append)
trim_slash-append (String.◌∷◌ d (String.◌∷◌ e a)) c b =
    let rest = String.◌∷◌ c b in
    ap trim_slash
      (cons-append d (String.◌∷◌ e a) rest ∙ ap (λ t. String.◌∷◌ d t) (cons-append e a rest))
    ∙ ap (λ t. String.◌∷◌ d t)
        (ap trim_slash (sym (cons-append e a rest)) ∙ trim_slash-append (String.◌∷◌ e a) c b)
    ∙ sym (cons-append d (String.◌∷◌ e a) (trim_slash rest))

trim_slash-Lacks : (l : String) → Lacks b'/' l → trim_slash l ≡ l
trim_slash-Lacks String.[] h = refl
trim_slash-Lacks (String.◌∷◌ c String.[]) (p, h) = ground (arith, p)
trim_slash-Lacks (String.◌∷◌ c (String.◌∷◌ d l)) (p, h) =
    ap (λ t. String.◌∷◌ c t) (trim_slash-Lacks (String.◌∷◌ d l) h)

-- A locale at the front of a path is found only as that locale.
strip_prefix-segment :
    (m l q : String)
    → Lacks b'/' m
    → Lacks b'/' l
    → (strip_prefix (m & "/") (l & slash q) ≡ none) ⊎ (m ≡ l)
strip_prefix-segment String.[] String.[] q h k = inr refl
strip_prefix-segment String.[] (String.◌∷◌ d l) q h (p, k) =
    inl (rw cons-append (ground (arith, p)))
strip_prefix-segment (String.◌∷◌ c m) String.[] q (p, h) k = inl (
    ap (strip_prefix (String.◌∷◌ c m & "/")) (nil-append (slash q))
    ∙ ap (λ t. strip_prefix t (slash q)) (cons-append c m "/")
    ∙ ground (arith, p))
strip_prefix-segment (String.◌∷◌ c m) (String.◌∷◌ d l) q (p, h) (r, k) =
    elim (Bool-cases (nat_beq (code c) (code d))) [
      | inr e ↦ inl (rw (cons-append c m "/", cons-append d l (slash q), e) refl)
      | inl e ↦ elim (strip_prefix-segment m l q h k) [
        | inl none_there ↦ inl (rw (cons-append c m "/", cons-append d l (slash q), e) none_there)
        | inr same ↦ inr (
            ap (λ x. String.◌∷◌ x m)
              (codes_equal c d (rw ((nat_beq_iff (code c) (code d)).0 e) (compare_self (code d))))
            ∙ ap (λ w. String.◌∷◌ d w) same)
      ]
    ]

strip_prefix-whole : (m l : String) → Lacks b'/' l → strip_prefix (m & "/") l ≡ none
strip_prefix-whole String.[] String.[] h = refl
strip_prefix-whole String.[] (String.◌∷◌ d l) (p, h) = ground (arith, p)
strip_prefix-whole (String.◌∷◌ c m) String.[] h = rw cons-append refl
strip_prefix-whole (String.◌∷◌ c m) (String.◌∷◌ d l) (p, h) =
    rw cons-append (ground (arith, strip_prefix-whole m l h))

strip_prefix-append : (p s : String) → strip_prefix p (p & s) ≡ some s
strip_prefix-append String.[] s = rw nil-append refl
strip_prefix-append (String.◌∷◌ c p) s = rw cons-append (ground (arith, strip_prefix-append p s))

-- The path of a locale: the locale, and then the path unless it is the root.
abbrev under : String → String → String
under locale path = if str_eq path "/" then slash locale else slash (locale & path)

slash-same : (l m : String) → str_eq (slash l) (slash m) ≡ true → l ≡ m
slash-same l m e = tail-eq_of_cons-eq ((eq_iff (slash l) (slash m)).0 e)

slash-other : (l m : String) → str_eq (slash l) (slash m) ≡ false → m ≡ l → ⊥
slash-other l m e same = ground (arith, e, (eq_iff (slash l) (slash m)).1 (ap slash (sym same)))

has_slash : (l q : String) → Lacks b'/' (l & slash q) → ⊥
has_slash String.[] q h = (subst (Lacks b'/') (nil-append (slash q)) h).0 refl
has_slash (String.◌∷◌ c l) q h = has_slash l q (subst (Lacks b'/') (cons-append c l (slash q)) h).1

module _ (locale : String) (lacks_slash : Lacks b'/' locale) where
  find_root :
      (locales : List String)
      → In locale locales
      → find_locale (slash locale) locales ≡ some (record { locale = locale; original_path = "/" })
  find_root [] i = elim i [ ]
  find_root (m ∷ locales) i = elim (Bool-cases (str_eq (slash locale) (slash m))) [
    | inl e ↦
        rw (find_locale, e)
          (ap (λ l. some (record { locale = l; original_path = "/" }))
            (sym (slash-same locale m e)))
    | inr e ↦ elim (In-cases m locales locale i) [
      | inl same ↦ absurd (slash-other locale m e same)
      | inr j ↦ rw (find_locale, e, strip_prefix-whole m locale lacks_slash) (find_root locales j)
    ]
  ]

  module _ (q : String) where
    found_inside : (m : String) → m ≡ locale → strip_prefix (m & "/") (locale & slash q) ≡ some q
    found_inside m same =
        ap (λ l. strip_prefix (l & "/") (locale & slash q)) same
        ∙ ap (λ t. strip_prefix (locale & "/") (locale & t))
            (sym (cons-append "/" "" q ∙ ap slash (nil-append q)))
        ∙ ap (strip_prefix (locale & "/")) (sym (text-append_assoc locale "/" q))
        ∙ strip_prefix-append (locale & "/") q

    find_inside :
        (locales : List String)
        → All (Lacks b'/') locales
        → In locale locales
        → find_locale (slash (locale & slash q)) locales
          ≡ some (record { locale = locale; original_path = slash q })
    find_inside [] h i = elim i [ ]
    find_inside (m ∷ locales) (p, h) i =
        elim (Bool-cases (str_eq (slash (locale & slash q)) (slash m))) [
          | inl e ↦
              absurd (
                has_slash locale q (subst (Lacks b'/') (sym (slash-same (locale & slash q) m e)) p))
          | inr e ↦ elim (strip_prefix-segment m locale q p lacks_slash) [
            | inr same ↦
                rw (find_locale, e, found_inside m same)
                  (ap (λ l. some (record { locale = l; original_path = slash q })) same)
            | inl k ↦ elim (In-cases m locales locale i) [
              | inl same ↦
                  rw (find_locale, e, found_inside m same)
                    (ap (λ l. some (record { locale = l; original_path = slash q })) same)
              | inr j ↦ rw (find_locale, e, k) (find_inside locales h j)
            ]
          ]
        ]

normal_parts :
    (path : String) → IsNormal path → (q : String) × (path ≡ slash q) × (trim_slash q ≡ q)
unfolding normalise_path
normal_parts path n =
    let q = trim_slash (after_slash path) in
    (q, sym n, sym (ap trim_slash (ap after_slash (sym n))))

normal_longer :
    (locale : String) (c : Char) (q : String)
    → trim_slash (String.◌∷◌ c q) ≡ String.◌∷◌ c q
    → normalise_path (slash (locale & slash (String.◌∷◌ c q)))
      ≡ slash (locale & slash (String.◌∷◌ c q))
unfolding normalise_path
normal_longer locale c q h =
    ap slash (trim_slash-append locale "/" (String.◌∷◌ c q)) ∙ ap (λ t. slash (locale & slash t)) h

module _ (locale : String) (locales : List String) (lacks_slash : Lacks b'/' locale)
    (lack : All (Lacks b'/') locales) (i : In locale locales) where
  -- Taking the locale from the path of a locale again.
  remove_locale_prefix-slash :
      (q : String)
      → trim_slash q ≡ q
      → remove_locale_prefix (under locale (slash q)) locales
        ≡ some (record { locale = locale; original_path = slash q })
  unfolding remove_locale_prefix normalise_path
  remove_locale_prefix-slash String.[] t =
      ap (λ p. find_locale (slash p) locales) (trim_slash-Lacks locale lacks_slash)
      ∙ find_root locale lacks_slash locales i
  remove_locale_prefix-slash (String.◌∷◌ c q) t =
      elim (Bool-cases (str_eq (slash (String.◌∷◌ c q)) "/")) [
        | inl e ↦
            absurd
              (cons-ne-nil c q (tail-eq_of_cons-eq ((eq_iff (slash (String.◌∷◌ c q)) "/").0 e)))
        | inr e ↦ rw e (
            ap (λ p. find_locale p locales) (normal_longer locale c q t)
            ∙ find_inside locale lacks_slash (String.◌∷◌ c q) locales lack i)
      ]

  -- For a path that `normalisePath` leaves alone, locales without a slash, and one of them: adding
  -- that locale to the path and taking it away gives the locale and the path back.
  pub remove_locale_prefix-add_locale_prefix :
      (path : String)
      → IsNormal path
      → remove_locale_prefix (add_locale_prefix path locale) locales
        ≡ some (record { locale = locale; original_path = path })
  unfolding add_locale_prefix
  remove_locale_prefix-add_locale_prefix path n =
      let (q, e, t) = normal_parts path n in
      ap (λ p. remove_locale_prefix (under locale p) locales) (n ∙ e)
      ∙ remove_locale_prefix-slash q t
      ∙ ap (λ p. some (record { locale = locale; original_path = p })) (sym e)

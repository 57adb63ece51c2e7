-- ===== src/Prelude/Text.antt =====
-- Texts as JavaScript splits them, for a separator of one character.
use Prim.Native.Char.{Char, code}
use Prim.Native.Nat.{ℕ}
use Prim.Native.String
use Prim.Native.String.{String}
use text.Mathlib.TextEquality.{codes_equal}
use text.Mathlib.TextPositions.{compare_self}
use text.Mathlib.TextLemmas.{nil-append, cons-append}
use mathlib.Core.Path.{◌≡◌, refl, ap, sym, ◌∙◌}
use mathlib.Core.Logic.{◌≢◌, inl, inr}
use mathlib.Core.Bool.{Bool, true, not, ◌&&◌, ◌||◌}
use mathlib.Core.List.{List, [], ◌∷◌}
use native.Mathlib.Omega.{arith}
use vais_lang.Prelude.Tests.{leb, nat_beq, if◌then◌else◌, Bool-cases}
use vais_lang.Prelude.Compare.{nat_beq_iff}
use vais_lang.Prelude.Lists.{All}

abbrev pub push_head : Char → List String → List String
push_head ch [] = (String.◌∷◌ ch String.[]) ∷ []
push_head ch (w ∷ ws) = (String.◌∷◌ ch w) ∷ ws

-- `s.split(sep)` for a separator of one character
unfoldable pub split : ℕ → String → List String
split sep String.[] = String.[] ∷ []
split sep (String.◌∷◌ ch s) =
    let rest = split sep s in if nat_beq (code ch) sep then String.[] ∷ rest else push_head ch rest

-- The text holds no such character.
abbrev pub Lacks : ℕ → String → Type 0
Lacks sep String.[] = Unit
Lacks sep (String.◌∷◌ ch s) = (code ch ≢ sep) × Lacks sep s

pub push_head-All :
    (sep : ℕ) (ch : Char) (ws : List String)
    → code ch ≢ sep
    → All (Lacks sep) ws
    → All (Lacks sep) (push_head ch ws)
push_head-All sep ch [] p h = ((p, tt), tt)
push_head-All sep ch (w ∷ ws) p (q, h) = ((p, q), h)

pub split-All-Lacks : (sep : ℕ) (s : String) → All (Lacks sep) (split sep s)
unfolding split
split-All-Lacks sep String.[] = (tt, tt)
split-All-Lacks sep (String.◌∷◌ ch s) = elim (Bool-cases (nat_beq (code ch) sep)) [
  | inl e ↦ rw e (tt, split-All-Lacks sep s)
  | inr e ↦ rw e (
      push_head-All sep ch (split sep s) (ground (arith, nat_beq_iff (code ch) sep))
        (split-All-Lacks sep s))
]

abbrev pub glue : String → List String → List String
glue w [] = w ∷ []
glue w (v ∷ vs) = String.◌++◌ w v ∷ vs

pub push_head-glue :
    (ch : Char) (w : String) (vs : List String)
    → push_head ch (glue w vs) ≡ glue (String.◌∷◌ ch w) vs
push_head-glue ch w [] = refl
push_head-glue ch w (v ∷ vs) = simp cons-append

pub split-ne-nil :
    (sep : ℕ) (s : String) → (v : String) × (vs : List String) × (split sep s ≡ v ∷ vs)
unfolding split
split-ne-nil sep String.[] = (String.[], [], refl)
split-ne-nil sep (String.◌∷◌ ch s) = elim (Bool-cases (nat_beq (code ch) sep)) [
  | inl e ↦ (String.[], split sep s, rw e refl)
  | inr e ↦ let (v, vs, k) = split-ne-nil sep s in (String.◌∷◌ ch v, vs, rw e (ap (push_head ch) k))
]

pub split-append :
    (sep : ℕ) (w s : String) → Lacks sep w → split sep (String.◌++◌ w s) ≡ glue w (split sep s)
unfolding split
split-append sep String.[] s h =
    let (v, vs, k) = split-ne-nil sep s in rw nil-append (rw k (rw nil-append refl))
split-append sep (String.◌∷◌ ch w) s (p, h) = elim (Bool-cases (nat_beq (code ch) sep)) [
  | inl e ↦ absurd (p ((nat_beq_iff (code ch) sep).0 e))
  | inr e ↦ rw cons-append (rw e (rw (split-append sep w s h) (push_head-glue ch w (split sep s))))
]

pub split-Lacks : (sep : ℕ) (w : String) → Lacks sep w → split sep w ≡ w ∷ []
unfolding split
split-Lacks sep String.[] h = refl
split-Lacks sep (String.◌∷◌ ch w) (p, h) = elim (Bool-cases (nat_beq (code ch) sep)) [
  | inl e ↦ absurd (p ((nat_beq_iff (code ch) sep).0 e))
  | inr e ↦ rw e (ap (push_head ch) (split-Lacks sep w h))
]

pub Lacks-append :
    (sep : ℕ) (v w : String) → Lacks sep v → Lacks sep w → Lacks sep (String.◌++◌ v w)
Lacks-append sep String.[] w h k = rw nil-append k
Lacks-append sep (String.◌∷◌ ch v) w (p, h) k = rw cons-append (p, Lacks-append sep v w h k)

-- The pieces of a text lack what the text lacks.
pub split-Lacks_other :
    (sep other : ℕ) (s : String) → Lacks other s → All (Lacks other) (split sep s)
unfolding split
split-Lacks_other sep other String.[] h = (tt, tt)
split-Lacks_other sep other (String.◌∷◌ ch s) (p, h) =
    let rest = split-Lacks_other sep other s h in
    elim (Bool-cases (nat_beq (code ch) sep)) [
      | inl e ↦ rw e (tt, rest)
      | inr e ↦ rw e (push_head-All other ch (split sep s) p rest)
    ]

abbrev pub lacks : ℕ → String → Bool
lacks sep String.[] = true
lacks sep (String.◌∷◌ ch s) = not (nat_beq (code ch) sep) && lacks sep s

pub lacks→Lacks : (sep : ℕ) (s : String) → lacks sep s ≡ true → Lacks sep s
lacks→Lacks sep String.[] h = tt
lacks→Lacks sep (String.◌∷◌ ch s) h =
    (ground (arith, h, nat_beq_iff (code ch) sep), lacks→Lacks sep s (ground (arith, h)))

-- `texts.join(separator)` for a separator of one character
abbrev pub join_with : Char → List String → String
join_with sep [] = ""
join_with sep (l ∷ []) = l
join_with sep (l ∷ k ∷ ls) = String.◌++◌ l (String.◌∷◌ sep (join_with sep (k ∷ ls)))

join_with-push_head :
    (sep ch : Char) (v : String) (vs : List String)
    → join_with sep (push_head ch (v ∷ vs)) ≡ String.◌∷◌ ch (join_with sep (v ∷ vs))
join_with-push_head sep ch v [] = refl
join_with-push_head sep ch v (w ∷ vs) = rw cons-append refl

pub same_char : (c d : Char) → nat_beq (code c) (code d) ≡ true → c ≡ d
same_char c d e = codes_equal c d (rw ((nat_beq_iff (code c) (code d)).0 e) (compare_self (code d)))

pub join_with-split : (sep : Char) (s : String) → join_with sep (split (code sep) s) ≡ s
unfolding split
join_with-split sep String.[] = refl
join_with-split sep (String.◌∷◌ c s) =
    let (v, vs, k) = split-ne-nil (code sep) s in
    let rest : join_with sep (v ∷ vs) ≡ s = ap (join_with sep) (sym k) ∙ join_with-split sep s in
    elim (Bool-cases (nat_beq (code c) (code sep))) [
      | inl e ↦
          rw (e, k, nil-append)
            (ap (λ t. String.◌∷◌ sep t) rest ∙ ap (λ d. String.◌∷◌ d s) (sym (same_char c sep e)))
      | inr e ↦ rw (e, k) (join_with-push_head sep c v vs ∙ ap (λ t. String.◌∷◌ c t) rest)
    ]

infixr 66 ◌&◌
abbrev pub ◌&◌ : String → String → String
a & b = String.◌++◌ a b

-- The characters that `trim` and `parseInt` skip, which are also those of `\s`.
abbrev pub is_white : ℕ → Bool
is_white c =
    (leb 9 c && leb c 13)
    || nat_beq c 32
    || nat_beq c 160
    || nat_beq c 5760
    || (leb 8192 c && leb c 8202)
    || nat_beq c 8232
    || nat_beq c 8233
    || nat_beq c 8239
    || nat_beq c 8287
    || nat_beq c 12288
    || nat_beq c 65279

abbrev pub is_digit : ℕ → Bool
is_digit c = leb b'0' c && leb c b'9'

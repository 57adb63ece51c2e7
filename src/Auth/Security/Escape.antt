-- ===== src/Auth/Security/Escape.antt =====
-- What escaping leaves, and how it is undone.
use text.Mathlib.TextLemmas.{nil-append, cons-append, append-nil, append_assoc}
use vais_lang.Prelude.{
  true, false, Lacks-append, ℕ, ◌≢◌, sym, arith, inr, nat_beq_iff, inl, ◌∙◌, Bool-cases, ap, Lacks,
  same_char, String, Option, none, some, ◌≡◌, refl, if◌then◌else◌, nat_beq, str_eq, ◌&◌,
}
use Prim.Native.Char.{Char, code}
use vais_lang.Auth.Security.{sanitize_input, escape_char}

-- How a browser reads the references that the escaping makes; another one gives nothing.
abbrev pub reference : String → String
reference name =
    if str_eq name "amp"
    then "&"
    else if str_eq name "lt"
    then "<"
    else if str_eq name "gt"
    then ">"
    else if str_eq name "quot"
    then "\""
    else if str_eq name "#x27"
    then "'"
    else ""

-- The text that a browser shows, with the name of the reference that it is in.
unfoldable pub decode : Option String → String → String
decode none String.[] = ""
decode none (String.◌∷◌ ch s) =
    let reading = decode (some "") s in
    let shown = decode none s in if nat_beq (code ch) b'&' then reading else String.◌∷◌ ch shown
decode (some name) String.[] = ""
decode (some name) (String.◌∷◌ ch s) =
    let closed = decode none s in
    let longer = decode (some (name & String.◌∷◌ ch String.[])) s in
    if nat_beq (code ch) b';' then reference name & closed else longer

decode-name :
    (pre name s : String)
    → Lacks b';' name
    → decode (some pre) (name & String.◌∷◌ ";" s) ≡ reference (pre & name) & decode none s
unfolding decode
decode-name pre String.[] s h = rw (nil-append, append-nil) refl
decode-name pre (String.◌∷◌ ch name) s (p, h) = elim (Bool-cases (nat_beq (code ch) b';')) [
  | inl closed ↦ absurd (p ((nat_beq_iff (code ch) b';').0 closed))
  | inr open_ ↦
      rw (cons-append, open_)
        (decode-name (pre & String.◌∷◌ ch String.[]) name s h
          ∙ ap (λ t. reference t & decode none s)
              (append_assoc pre (String.◌∷◌ ch String.[]) name
                ∙ ap (λ t. pre & t)
                    (cons-append ch String.[] name ∙ ap (λ t. String.◌∷◌ ch t) (nil-append name))))
]

decode-reference :
    (name s : String)
    → Lacks b';' name
    → decode none (String.◌∷◌ "&" (name & ";") & s) ≡ reference name & decode none s
unfolding decode
decode-reference name s h =
    ap (decode none) (
      cons-append "&" (name & ";") s
      ∙ ap (λ t. String.◌∷◌ "&" t)
          (append_assoc name ";" s
            ∙ ap (λ t. name & t)
                (cons-append ";" "" s ∙ ap (λ t. String.◌∷◌ ";" t) (nil-append s))))
    ∙ (decode-name "" name s h ∙ ap (λ t. reference t & decode none s) (nil-append name))

shown-cons : (ch : Char) (s : String) → String.◌∷◌ ch String.[] & s ≡ String.◌∷◌ ch s
shown-cons ch s = cons-append ch String.[] s ∙ ap (λ t. String.◌∷◌ ch t) (nil-append s)

-- A character that is escaped as the reference of this name.
decode-escaped :
    (name : String) (d ch : Char) (s : String)
    → Lacks b';' name
    → reference name ≡ String.◌∷◌ d String.[]
    → nat_beq (code ch) (code d) ≡ true
    → decode none (String.◌∷◌ "&" (name & ";") & s) ≡ String.◌∷◌ ch (decode none s)
decode-escaped name d ch s h shown e =
    decode-reference name s h
    ∙ (ap (λ t. t & decode none s)
          (shown ∙ ap (λ c. String.◌∷◌ c String.[]) (sym (same_char ch d e)))
        ∙ shown-cons ch (decode none s))

decode-escape_char :
    (ch : Char) (s : String) → decode none (escape_char ch & s) ≡ String.◌∷◌ ch (decode none s)
unfolding escape_char decode
decode-escape_char ch s = elim (Bool-cases (nat_beq (code ch) b'&')) [
  | inl e ↦ rw e (decode-escaped "amp" "&" ch s (omega arith) refl e)
  | inr amp ↦ rw amp (elim (Bool-cases (nat_beq (code ch) b'<')) [
    | inl e ↦ rw e (decode-escaped "lt" "<" ch s (omega arith) refl e)
    | inr lt ↦ rw lt (elim (Bool-cases (nat_beq (code ch) b'>')) [
      | inl e ↦ rw e (decode-escaped "gt" ">" ch s (omega arith) refl e)
      | inr gt ↦ rw gt (elim (Bool-cases (nat_beq (code ch) 34)) [
        | inl e ↦ rw e (decode-escaped "quot" "\"" ch s (omega arith) refl e)
        | inr quot ↦ rw quot (elim (Bool-cases (nat_beq (code ch) 39)) [
          | inl e ↦ rw e (decode-escaped "#x27" "'" ch s (omega arith) refl e)
          | inr apos ↦ rw apos (rw (shown-cons ch s, amp) refl)
        ])
      ])
    ])
  ])
]

decode-sanitize_input : (s : String) → decode none (sanitize_input s) ≡ s
unfolding sanitize_input decode
decode-sanitize_input String.[] = refl
decode-sanitize_input (String.◌∷◌ ch s) =
    decode-escape_char ch (sanitize_input s) ∙ ap (λ t. String.◌∷◌ ch t) (decode-sanitize_input s)

-- None of the characters that can end a text of HTML or an attribute.
abbrev pub IsInert : String → Type 0
IsInert s = Lacks b'<' s × Lacks b'>' s × Lacks 34 s × Lacks 39 s

other : (ch : Char) (c : ℕ) → nat_beq (code ch) c ≡ false → code ch ≢ c
other ch c h = ground (arith, nat_beq_iff (code ch) c)

escape_char-IsInert : (ch : Char) → IsInert (escape_char ch)
unfolding escape_char
escape_char-IsInert ch = elim (Bool-cases (nat_beq (code ch) b'&')) [
  | inl e ↦ rw e (omega arith)
  | inr amp ↦ rw amp (elim (Bool-cases (nat_beq (code ch) b'<')) [
    | inl e ↦ rw e (omega arith)
    | inr lt ↦ rw lt (elim (Bool-cases (nat_beq (code ch) b'>')) [
      | inl e ↦ rw e (omega arith)
      | inr gt ↦ rw gt (elim (Bool-cases (nat_beq (code ch) 34)) [
        | inl e ↦ rw e (omega arith)
        | inr quot ↦ rw quot (elim (Bool-cases (nat_beq (code ch) 39)) [
          | inl e ↦ rw e (omega arith)
          | inr apos ↦ rw apos (
            (other ch b'<' lt, tt),
            (other ch b'>' gt, tt),
            (other ch 34 quot, tt),
            (other ch 39 apos, tt),
          )
        ])
      ])
    ])
  ])
]

sanitize_input-IsInert : (s : String) → IsInert (sanitize_input s)
unfolding sanitize_input
sanitize_input-IsInert String.[] = (tt, tt, tt, tt)
sanitize_input-IsInert (String.◌∷◌ ch s) =
    let one = escape_char-IsInert ch in
    let rest = sanitize_input-IsInert s in
    let both = λ (c : ℕ). Lacks-append c (escape_char ch) (sanitize_input s) in
    (both b'<' one.0 rest.0, both b'>' one.1 rest.1, both 34 one.2 rest.2, both 39 one.3 rest.3)

-- Escaped text holds no angle bracket and no quote, and a browser shows it as the text that was given.
pub decode-sanitize_input-IsInert :
    (s : String) → IsInert (sanitize_input s) × (decode none (sanitize_input s) ≡ s)
decode-sanitize_input-IsInert s = (sanitize_input-IsInert s, decode-sanitize_input s)

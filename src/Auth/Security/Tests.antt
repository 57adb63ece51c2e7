-- ===== src/Auth/Security/Tests.antt =====
-- The utilities at concrete inputs.
use Prim.Native.Char.{code}
use text.Mathlib.TextEquality.{codes_equal}
use text.Mathlib.TextPositions.{compare_self}
use vais_lang.Prelude.{
  ℕ, String, none, some, List, [], ◌∷◌, true, false, ◌≡◌, refl, ap₂, arith, ◌↔◌, ◌⊎◌, string_eq,
}
use vais_lang.Prelude.JsSet
use vais_lang.Prelude.JsMap
use vais_lang.Auth.Security.{
  validate_csrf_token, check_tokens, TextEncoder, timing_safe_equal, CsrfRequest,
  CsrfMiddlewareOptions, csrf_middleware, one, sanitize_input, create_secure_cookie_options, strict,
}
use vais_lang.Auth.Security.Compare.{timing_safe_equal_iff}
use vais_lang.Auth.Security.Csrf.{csrf_middleware-valid, Agrees}
use vais_lang.Auth.Security.CsrfTokens.{
  Submits, Expects, from_header, in_capitals, single, by_session, a_text,
}
use vais_lang.Auth.Security.Escape.{decode, IsInert, decode-sanitize_input-IsInert}

abbrev codes : String → List ℕ
codes String.[] = []
codes (String.◌∷◌ ch s) = code ch ∷ codes s

codes_injective : (a b : String) → codes a ≡ codes b → a ≡ b
codes_injective String.[] String.[] h = refl
codes_injective String.[] (String.◌∷◌ ch s) h = cc
codes_injective (String.◌∷◌ ch s) String.[] h = cc
codes_injective (String.◌∷◌ c s) (String.◌∷◌ d t) h =
    let first : code c ≡ code d = cc in
    ap₂ (λ x xs. String.◌∷◌ x xs) (codes_equal c d (rw first (compare_self (code d))))
      (codes_injective s t (cc))

abbrev ascii : TextEncoder
ascii = record { encode = codes; encode_injective = codes_injective }

timing_safe_equal_iff_example :
    (timing_safe_equal ascii "ab" "ac" ≡ true) ↔ (◌≡◌ {A = String} "ab" "ac")
timing_safe_equal_iff_example = timing_safe_equal_iff ascii "ab" "ac" (omega arith) (omega arith)

padded_differs : timing_safe_equal ascii "ab" "ab\0" ≡ false
unfolding timing_safe_equal
padded_differs = refl

abbrev post : CsrfRequest
post = record {
  method = "post";
  headers = ("X-CSRF-Token", one "t1") ∷ [];
  body = none;
  session = some (("csrfToken", some "t1") ∷ []);
}

abbrev by_default : CsrfMiddlewareOptions
by_default = record { get_token = none; get_expected = none }

abbrev upper : String → String
upper method = "POST"

Submits-t1 : Submits by_default post (some "t1")
unfolding JsMap.get
Submits-t1 = from_header refl (in_capitals refl refl single)

Expects-t1 : Expects by_default post (some "t1")
unfolding JsMap.get
Expects-t1 = by_session refl (a_text refl)

csrf_middleware-valid_example : ((csrf_middleware ascii upper by_default post).valid ≡ false) ↔ (
    ((upper post.method ≡ "POST")
      ⊎ (upper post.method ≡ "PUT")
      ⊎ (upper post.method ≡ "DELETE")
      ⊎ (upper post.method ≡ "PATCH"))
    × ¬ Agrees (some "t1") (some "t1"))
csrf_middleware-valid_example =
    csrf_middleware-valid ascii upper by_default post (some "t1") (some "t1") Submits-t1 Expects-t1
      (omega arith) (omega arith)

post_allowed : (csrf_middleware ascii upper by_default post).valid ≡ true
unfolding csrf_middleware check_tokens JsMap.get JsSet.has validate_csrf_token timing_safe_equal
post_allowed = refl

decode-sanitize_input-IsInert_example :
    IsInert (sanitize_input "a<b> & 'c'")
    × (decode none (sanitize_input "a<b> & 'c'") ≡ "a<b> & 'c'")
decode-sanitize_input-IsInert_example = decode-sanitize_input-IsInert "a<b> & 'c'"

escaped : sanitize_input "<a>&" ≡ "&lt;a&gt;&amp;"
unfolding sanitize_input
escaped = refl

strict_cookie :
    (create_secure_cookie_options (
      some (record {
        secure = none;
        same_site = some strict;
        path = none;
        max_age = some 60;
        domain = none;
      }))).secure
    ≡ true
unfolding create_secure_cookie_options
strict_cookie = refl

-- ===== src/Auth/Security/Csrf.antt =====
-- Which requests pass the check of their CSRF token.
use vais_lang.Prelude.{
  length, ◌<◌, ◌^◌, string_eq, ◌==◌, sym, ◌∙◌, String, Option, none, some, true, false, ◌≡◌, ◌≢◌,
  refl, arith, ◌↔◌, Bool-cases, inl, inr, eq_iff, ap, subst, ◌⊎◌,
}
use vais_lang.Prelude.JsSet
use vais_lang.Auth.Security.{
  TextEncoder, CsrfRequest, CsrfMiddlewareOptions, check_tokens, csrf_middleware, submitted_token,
  expected_token, validate_csrf_token, csrf_protected_methods, csrf_safe_methods,
}
use vais_lang.Auth.Security.Compare.{timing_safe_equal_iff}
use vais_lang.Auth.Security.CsrfTokens.{Expects, Expects_lem, Submits, Submits_lem}

validate_csrf_token_iff :
    (encoder : TextEncoder) (token expected : String)
    → length (encoder.encode token) < 2 ^ 32
    → length (encoder.encode expected) < 2 ^ 32
    → (validate_csrf_token encoder token expected ≡ true) ↔ ((token ≢ "") × (token ≡ expected))
unfolding validate_csrf_token
validate_csrf_token_iff encoder token expected p q = (
  λ h. (
    ground (arith, eq_iff token "", h),
    (timing_safe_equal_iff encoder token expected p q).0 (ground (arith, h)),
  ),
  λ r. ground (
    arith,
    eq_iff token "",
    eq_iff expected "",
    (timing_safe_equal_iff encoder token expected p q).1 r.1,
  ),
)

-- The two tokens let a request pass.
abbrev pub Agrees : Option String → Option String → Type 0
Agrees submitted expected =
    (token : String) × (submitted ≡ some token) × (expected ≡ some token) × (token ≢ "")

-- A token, if there is one, has fewer than 2 ^ 32 bytes.
abbrev pub IsShort : TextEncoder → Option String → Type 0
IsShort encoder none = Unit
IsShort encoder (some token) = length (encoder.encode token) < 2 ^ 32

check_tokens-valid :
    (encoder : TextEncoder) (submitted expected : Option String)
    → IsShort encoder submitted
    → IsShort encoder expected
    → ((check_tokens encoder submitted expected).valid ≡ true) ↔ Agrees submitted expected
unfolding check_tokens
check_tokens-valid encoder none expected s w = (λ h. cc, λ p. cc (p.1))
check_tokens-valid encoder (some token) none s w =
    (λ h. ground (arith, h, eq_iff token ""), λ p. cc (p.2))
check_tokens-valid encoder (some token) (some wanted) s w = (
  λ h.
      let passes : validate_csrf_token encoder token wanted ≡ true = ground (arith, h) in
      let (given, same) = (validate_csrf_token_iff encoder token wanted s w).0 passes in
      (token, refl, ap some (sym same), given),
  λ p.
      let mine : token ≡ p.0 = cc (p.1) in
      let theirs : wanted ≡ p.0 = cc (p.2) in
      let passes =
        (validate_csrf_token_iff encoder token wanted s w).1 (rw mine p.3, mine ∙ sym theirs) in
      let given : token ≢ "" = rw mine p.3 in
      let wished : wanted ≢ "" = rw theirs p.3 in
      ground (arith, passes, given, wished, eq_iff token "", eq_iff wanted ""),
)

at_literal :
    (word method : String)
    → (word == method) ≡ true
    → JsSet.has word csrf_protected_methods ≡ false
    → JsSet.has method csrf_protected_methods ≡ false
at_literal word method e q = rw (← (eq_iff word method).0 e) q

-- A safe method is not a protected one.
safe-not_protected :
    (method : String)
    → JsSet.has method csrf_safe_methods ≡ true
    → JsSet.has method csrf_protected_methods ≡ false
unfolding JsSet.has
safe-not_protected method h =
    ground
      (arith, h, at_literal "GET" method, at_literal "HEAD" method, at_literal "OPTIONS" method)

protected_iff :
    (method : String)
    → (JsSet.has method csrf_protected_methods ≡ true)
      ↔ ((method ≡ "POST") ⊎ (method ≡ "PUT") ⊎ (method ≡ "DELETE") ⊎ (method ≡ "PATCH"))
unfolding JsSet.has
protected_iff method = (
  λ h. ground (
    arith,
    h,
    eq_iff "POST" method,
    eq_iff "PUT" method,
    eq_iff "DELETE" method,
    eq_iff "PATCH" method,
  ),
  λ h. ground (
    arith,
    h,
    eq_iff "POST" method,
    eq_iff "PUT" method,
    eq_iff "DELETE" method,
    eq_iff "PATCH" method,
  ),
)

csrf_middleware_tokens :
    (encoder : TextEncoder) (to_upper_case : String → String) (options : CsrfMiddlewareOptions)
    (request : CsrfRequest)
    → IsShort encoder (submitted_token options request)
    → IsShort encoder (expected_token options request)
    → ((csrf_middleware encoder to_upper_case options request).valid ≡ false) ↔ (
        (JsSet.has (to_upper_case request.method) csrf_protected_methods ≡ true)
        × ¬ Agrees (submitted_token options request) (expected_token options request))
unfolding csrf_middleware
csrf_middleware_tokens encoder to_upper_case options request s w =
    let method = to_upper_case request.method in
    let submitted = submitted_token options request in
    let expected = expected_token options request in
    let tokens = check_tokens-valid encoder submitted expected s w in
    elim (Bool-cases (JsSet.has method csrf_safe_methods)) [
      | inl safe ↦ rw (safe, safe-not_protected method safe) (λ h. cc, λ p. cc (p.0))
      | inr unsafe ↦ rw unsafe (elim (Bool-cases (JsSet.has method csrf_protected_methods)) [
        | inl protected ↦ rw protected (
          λ h. (refl, λ agrees. cc (tokens.1 agrees)),
          λ p. elim (Bool-cases (check_tokens encoder submitted expected).valid) [
            | inl passes ↦ absurd (p.1 (tokens.0 passes))
            | inr fails ↦ fails
          ],
        )
        | inr other ↦ rw other (λ h. cc, λ p. cc (p.0))
      ])
    ]

-- Let a request submit one token and another be expected of it, each of fewer than 2 ^ 32 bytes or
-- absent: the request is refused exactly if its method, in capitals, is one of POST, PUT, DELETE and
-- PATCH and the two are not the same token that is not empty. Submitted is what `getToken` gives, or
-- without it the first value of the header `x-csrf-token`, else of `X-CSRF-Token`, else the text in
-- `_csrf` of the body; expected is what `getExpected` gives, or without it the text in `csrfToken` of the
-- session.
pub csrf_middleware-valid :
    (encoder : TextEncoder) (to_upper_case : String → String) (options : CsrfMiddlewareOptions)
    (request : CsrfRequest) (submitted expected : Option String)
    → Submits options request submitted
    → Expects options request expected
    → IsShort encoder submitted
    → IsShort encoder expected
    → ((csrf_middleware encoder to_upper_case options request).valid ≡ false) ↔ (
        ((to_upper_case request.method ≡ "POST")
          ⊎ (to_upper_case request.method ≡ "PUT")
          ⊎ (to_upper_case request.method ≡ "DELETE")
          ⊎ (to_upper_case request.method ≡ "PATCH"))
        × ¬ Agrees submitted expected)
csrf_middleware-valid encoder to_upper_case options request submitted expected s e p q =
    let a = Submits_lem s in
    let b = Expects_lem e in
    let (forth, back) =
      csrf_middleware_tokens encoder to_upper_case options request
        (subst (IsShort encoder) (sym a) p) (subst (IsShort encoder) (sym b) q) in
    (
      λ h.
          let (method, differ) = forth h in
          (
            (protected_iff (to_upper_case request.method)).0 method,
            subst (λ o. ¬ Agrees submitted o) b
                (subst (λ o. ¬ Agrees o (expected_token options request)) a differ),
          ),
      λ (method, differ). back (
        (protected_iff (to_upper_case request.method)).1 method,
        subst (λ o. ¬ Agrees (submitted_token options request) o) (sym b)
            (subst (λ o. ¬ Agrees o expected) (sym a) differ),
      ),
    )

-- ===== src/Auth/Security.antt =====
-- auth/src/security.ts: the comparison in constant time, the check of CSRF tokens, the options of
-- cookies and the escaping of HTML. The random tokens and the fixed headers are left out.
pub mod Compare
pub mod CsrfTokens
pub mod Csrf
pub mod Escape
mod Tests
use Prim.Native.Char.{Char, code}
use Prim.Native.Nat.{bit_or, bit_xor, max}
use Prim.Native.String
use vais_lang.Prelude.{
  ℕ, zero, suc, ◌%◌, ◌^◌, ◌≡◌, String, Option, none, some, List, [], ◌∷◌, Bool, true, false, not,
  ◌||◌, nat_beq, if◌then◌else◌, or_else, length, head?, string_eq, nat_eq, ◌==◌, ◌&◌,
}
use vais_lang.Prelude.JsMap
use vais_lang.Prelude.JsMap.{JsMap}
use vais_lang.Prelude.JsSet

-- The encoder to UTF-8. Distinct texts have distinct bytes.
pub record TextEncoder : Type 0 where
  pub encode : String → List ℕ
  pub encode_injective : (a b : String) → encode a ≡ encode b → a ≡ b

-- A new Uint8Array of this length, set to the bytes.
abbrev pub padded : ℕ → List ℕ → List ℕ
padded zero bytes = []
padded (suc len) [] = 0 ∷ padded len []
padded (suc len) (b ∷ bytes) = b ∷ padded len bytes

-- The loop over the bytes.
unfoldable pub accumulate : ℕ → List ℕ → List ℕ → ℕ
accumulate diff [] bs = diff
accumulate diff (a ∷ as_) [] = diff
accumulate diff (a ∷ as_) (b ∷ bs) = accumulate (bit_or diff (bit_xor a b)) as_ bs

unfoldable pub timing_safe_equal : TextEncoder → String → String → Bool
unfolding accumulate
timing_safe_equal encoder a b =
    let buf_a = encoder.encode a in
    let buf_b = encoder.encode b in
    let len = max (length buf_a) (length buf_b) in
    let diff = bit_xor (length buf_a % 2 ^ 32) (length buf_b % 2 ^ 32) in
    nat_beq (accumulate diff (padded len buf_a) (padded len buf_b)) 0

-- `!token` for a text that may be undefined
abbrev pub is_missing : Option String → Bool
is_missing none = true
is_missing (some token) = token == ""

unfoldable pub validate_csrf_token : TextEncoder → String → String → Bool
validate_csrf_token encoder token expected =
    if is_missing (some token) || is_missing (some expected)
    then false
    else timing_safe_equal encoder token expected

pub data Header : Type 0 where
  one : String → Header
  many : List String → Header

-- A property of the body or of the session is `none` if it holds no string.
pub record CsrfRequest : Type 0 where
  pub method : String
  pub headers : JsMap String Header
  pub body : Option (JsMap String (Option String))
  pub session : Option (JsMap String (Option String))

pub record CsrfMiddlewareOptions : Type 0 where
  pub get_token : Option (CsrfRequest → Option String)
  pub get_expected : Option (CsrfRequest → Option String)

pub record CsrfResult : Type 0 where
  pub valid : Bool
  pub error : Option String

abbrev pub csrf_protected_methods : List String
csrf_protected_methods = "POST" ∷ "PUT" ∷ "DELETE" ∷ "PATCH" ∷ []

abbrev pub csrf_safe_methods : List String
csrf_safe_methods = "GET" ∷ "HEAD" ∷ "OPTIONS" ∷ []

abbrev pub first_header : Option Header → Option String
first_header none = none
first_header (some (one value)) = some value
first_header (some (many values)) = head? values

-- `a ?? b`
abbrev pub either {ℓ} : {A : Type ℓ} → Option A → Option A → Option A
either none b = b
either (some a) b = some a

-- `object?.[name]`, if it is a string
abbrev pub text_property : String → Option (JsMap String (Option String)) → Option String
text_property name none = none
text_property name (some object) = or_else (JsMap.get name object) none

abbrev pub submitted_token : CsrfMiddlewareOptions → CsrfRequest → Option String
submitted_token options request = elim options.get_token [
  | some get_token ↦ get_token request
  | none ↦
      either
        (first_header (
          either (JsMap.get "x-csrf-token" request.headers)
            (JsMap.get "X-CSRF-Token" request.headers)))
        (text_property "_csrf" request.body)
]

abbrev pub expected_token : CsrfMiddlewareOptions → CsrfRequest → Option String
expected_token options request = elim options.get_expected [
  | some get_expected ↦ get_expected request
  | none ↦ text_property "csrfToken" request.session
]

abbrev pub refused : String → CsrfResult
refused why = record { valid = false; error = some why }

abbrev pub allowed : CsrfResult
allowed = record { valid = true; error = none }

-- The checks of the two tokens, of which `!submitted` and `!expected` go first.
unfoldable pub check_tokens : TextEncoder → Option String → Option String → CsrfResult
check_tokens encoder submitted expected =
    if is_missing submitted
    then refused "CSRF token missing"
    else if is_missing expected
    then refused "CSRF token not found in session"
    else if not (validate_csrf_token encoder (or_else submitted "") (or_else expected ""))
    then refused "CSRF token invalid"
    else allowed

-- The function that createCSRFMiddleware returns; `to_upper_case` is the method of strings.
unfoldable pub csrf_middleware :
    TextEncoder → (String → String) → CsrfMiddlewareOptions → CsrfRequest → CsrfResult
unfolding JsSet.has JsMap.get
csrf_middleware encoder to_upper_case options request =
    let method = to_upper_case request.method in
    if JsSet.has method csrf_safe_methods
    then allowed
    else if not (JsSet.has method csrf_protected_methods)
    then allowed
    else check_tokens encoder (submitted_token options request) (expected_token options request)

pub data SameSite : Type 0 where
  strict : SameSite
  lax : SameSite
  cross_site : SameSite

pub record SecureCookieOptions : Type 0 where
  pub secure : Option Bool
  pub same_site : Option SameSite
  pub path : Option String
  pub max_age : Option ℕ
  pub domain : Option String

pub record CookieConfig : Type 0 where
  pub http_only : Bool
  pub secure : Bool
  pub same_site : SameSite
  pub path : String
  pub max_age : Option ℕ
  pub domain : Option String

unfoldable pub create_secure_cookie_options : Option SecureCookieOptions → CookieConfig
create_secure_cookie_options none = record {
  http_only = true;
  secure = true;
  same_site = lax;
  path = "/";
  max_age = none;
  domain = none;
}
create_secure_cookie_options (some options) = record {
  http_only = true;
  secure = or_else options.secure true;
  same_site = or_else options.same_site lax;
  path = or_else options.path "/";
  max_age = options.max_age;
  domain = options.domain;
}

-- HTML_ESCAPE_MAP, at the characters of HTML_ESCAPE_REGEX; another character stays.
unfoldable pub escape_char : Char → String
escape_char ch =
    if nat_beq (code ch) b'&'
    then "&amp;"
    else if nat_beq (code ch) b'<'
    then "&lt;"
    else if nat_beq (code ch) b'>'
    then "&gt;"
    else if nat_beq (code ch) 34
    then "&quot;"
    else if nat_beq (code ch) 39
    then "&#x27;"
    else String.◌∷◌ ch String.[]

-- An input that is no string is not modelled.
unfoldable pub sanitize_input : String → String
unfolding escape_char
sanitize_input String.[] = ""
sanitize_input (String.◌∷◌ ch input) = escape_char ch & sanitize_input input

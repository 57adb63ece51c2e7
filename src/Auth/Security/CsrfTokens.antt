-- ===== src/Auth/Security/CsrfTokens.antt =====
-- The tokens of a request that createCSRFMiddleware of auth/src/security.ts compares.
use vais_lang.Prelude.{string_eq, String, Option, none, some, ◌≡◌, refl, List, [], ◌∷◌}
use vais_lang.Prelude.JsMap
use vais_lang.Prelude.JsMap.{JsMap}
use vais_lang.Auth.Security.{
  CsrfRequest, CsrfMiddlewareOptions, submitted_token, expected_token, Header, one, many,
  first_header, either, text_property,
}

-- The first value of a header that may have several.
pub data First : Header → Option String → Type 0 where
  single : {v : String} → First (one v) (some v)
  leading : {v : String} {vs : List String} → First (many (v ∷ vs)) (some v)
  no_value : First (many []) none

-- The token in the headers, whose name is written in either of two ways, the first way first.
pub data InHeader (headers : JsMap String Header) : Option String → Type 0 where
  in_small :
      {h : Header} {t : Option String}
      → JsMap.get "x-csrf-token" headers ≡ some h
      → First h t
      → InHeader headers t
  in_capitals :
      {h : Header} {t : Option String}
      → JsMap.get "x-csrf-token" headers ≡ none
      → JsMap.get "X-CSRF-Token" headers ≡ some h
      → First h t
      → InHeader headers t
  nowhere :
      JsMap.get "x-csrf-token" headers ≡ none
      → JsMap.get "X-CSRF-Token" headers ≡ none
      → InHeader headers none

-- The text in a field of an object that may be absent; `some none` is a field that is not a text.
pub data TextIn (name : String)
    : Option (JsMap String (Option String)) → Option String → Type 0 where
  no_object : TextIn name none none
  no_field :
      {o : JsMap String (Option String)} → JsMap.get name o ≡ none → TextIn name (some o) none
  no_text :
      {o : JsMap String (Option String)} → JsMap.get name o ≡ some none → TextIn name (some o) none
  a_text :
      {o : JsMap String (Option String)} {t : String}
      → JsMap.get name o ≡ some (some t)
      → TextIn name (some o) (some t)

-- The token that a request submits: what `getToken` gives, where it is given, and else the one in the
-- headers, and else the one in the body.
pub data Submits (options : CsrfMiddlewareOptions) (request : CsrfRequest)
    : Option String → Type 0 where
  from_option :
      {f : CsrfRequest → Option String}
      → options.get_token ≡ some f
      → Submits options request (f request)
  from_header :
      {t : String}
      → options.get_token ≡ none
      → InHeader request.headers (some t)
      → Submits options request (some t)
  from_body :
      {t : Option String}
      → options.get_token ≡ none
      → InHeader request.headers none
      → TextIn "_csrf" request.body t
      → Submits options request t

-- The token that is expected of it: what `getExpected` gives, where it is given, and else the one of the
-- session.
pub data Expects (options : CsrfMiddlewareOptions) (request : CsrfRequest)
    : Option String → Type 0 where
  by_option :
      {f : CsrfRequest → Option String}
      → options.get_expected ≡ some f
      → Expects options request (f request)
  by_session :
      {t : Option String}
      → options.get_expected ≡ none
      → TextIn "csrfToken" request.session t
      → Expects options request t

First_lem : {h : Header} {t : Option String} → First h t → first_header (some h) ≡ t
First_lem single = refl
First_lem leading = refl
First_lem no_value = refl

InHeader_lem :
    {headers : JsMap String Header} {t : Option String}
    → InHeader headers t
    → first_header (either (JsMap.get "x-csrf-token" headers) (JsMap.get "X-CSRF-Token" headers))
      ≡ t
InHeader_lem (in_small e f) = rw e (First_lem f)
InHeader_lem (in_capitals d e f) = rw (d, e) (First_lem f)
InHeader_lem (nowhere d e) = rw (d, e) refl

TextIn_lem :
    {name : String} {object : Option (JsMap String (Option String))} {t : Option String}
    → TextIn name object t
    → text_property name object ≡ t
TextIn_lem no_object = refl
TextIn_lem (no_field e) = rw e refl
TextIn_lem (no_text e) = rw e refl
TextIn_lem (a_text e) = rw e refl

pub Submits_lem :
    {options : CsrfMiddlewareOptions} {request : CsrfRequest} {t : Option String}
    → Submits options request t
    → submitted_token options request ≡ t
Submits_lem (from_option e) = rw e refl
Submits_lem (from_header e h) = rw (e, InHeader_lem h) refl
Submits_lem (from_body e h b) = rw (e, InHeader_lem h) (TextIn_lem b)

pub Expects_lem :
    {options : CsrfMiddlewareOptions} {request : CsrfRequest} {t : Option String}
    → Expects options request t
    → expected_token options request ≡ t
Expects_lem (by_option e) = rw e refl
Expects_lem (by_session e b) = rw e (TextIn_lem b)

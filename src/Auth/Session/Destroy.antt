-- ===== src/Auth/Session/Destroy.antt =====
-- What `destroySession` removes, and what it does not.
use vais_lang.Prelude.{
  ◌≡◌, refl, String, Option, none, some, List, [], ◌∷◌, Bool, false, ◌&&◌, ◌||◌, if◌then◌else◌,
  arith, str_eq, eq_iff, string_eq, ◌∙◌,
}
use vais_lang.Prelude.JsMap
use vais_lang.Prelude.JsMap.{JsMap, HasDistinctKeys, set-HasDistinctKeys, get-set, get-delete}
use vais_lang.Auth.Session.{RefreshRecord, RefreshTokenStore, destroy_loop, destroy_session}

-- An entry of the token in the session.
abbrev hit : String → String → List (String × RefreshRecord) → Bool
hit t sid [] = false
hit t sid ((k, r) ∷ entries) = (str_eq k t && str_eq r.session_id sid) || hit t sid entries

get-destroy_loop :
    (t sid : String) (entries : List (String × RefreshRecord)) (store : RefreshTokenStore)
    → JsMap.get t (destroy_loop sid entries store)
      ≡ (if hit t sid entries then none else JsMap.get t store)
unfolding destroy_loop
get-destroy_loop t sid [] store = refl
get-destroy_loop t sid ((k, r) ∷ entries) store =
    get-destroy_loop t sid entries _ ∙ (ground (arith, get-delete k t store))

-- The record unless it is of the session.
abbrev pub unless_of : String → Option RefreshRecord → Option RefreshRecord
unless_of sid none = none
unless_of sid (some r) = if str_eq r.session_id sid then none else some r

hit-none :
    (t sid : String) (store : RefreshTokenStore)
    → JsMap.get t store ≡ none
    → hit t sid store ≡ false
unfolding JsMap.get
hit-none t sid [] h = refl
hit-none t sid ((k, r) ∷ store) h = ground (arith, hit-none t sid store)

hit-get :
    (t sid : String) (store : RefreshTokenStore)
    → HasDistinctKeys store
    → (if hit t sid store then none else JsMap.get t store) ≡ unless_of sid (JsMap.get t store)
unfolding JsMap.get
hit-get t sid [] h = refl
hit-get t sid ((k, r) ∷ store) (p, h) =
    ground (arith, hit-get t sid store h, hit-none k sid store p, p, eq_iff k t)

-- `destroySession` removes the refresh tokens of the session, and leaves every other as it is.
pub get-destroy_session :
    (t sid : String) (store : RefreshTokenStore)
    → HasDistinctKeys store
    → JsMap.get t (destroy_session sid store) ≡ unless_of sid (JsMap.get t store)
unfolding destroy_session
get-destroy_session t sid store h = get-destroy_loop t sid store store ∙ hit-get t sid store h

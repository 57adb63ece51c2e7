-- ===== src/Auth/Tests.antt =====
-- Runs of the session manager, and its theorems at concrete inputs.
use vais_lang.Prelude.{◌≡◌, ◌≢◌, refl, none, some, [], ◌∷◌, true, false, arith, eq_iff, string_eq}
use vais_lang.Prelude.JsMap
use vais_lang.Auth.Session.{
  SessionManagerConfig, RefreshRecord, RefreshTokenStore, Outside, Draw, slice_to, pair_of, rotate,
  revoke_record, begin_refresh, end_refresh,
}
use vais_lang.Auth.Session.Rotation.{now, refresh_session_once}

abbrev plain : Outside
plain = record {
  encode_jwt = λ claims secret. claims.jti;
  verify_jwt = λ token secret. none;
  to_iso_string = λ ms. "";
}

abbrev config : SessionManagerConfig
config = record { secret = "s"; access_token_ttl = 900; refresh_token_ttl = 2592000 }

abbrev ada : RefreshRecord
ada = record { user_id = "ada"; session_id = "s1"; expires_at = 100; revoked = false }

abbrev store : RefreshTokenStore
store = ("t1", ada) ∷ []

abbrev first : Draw
first = record { now = 10; for_id = "s2"; for_token = "t2" }

abbrev second : Draw
second = record { now = 20; for_id = "s3"; for_token = "t3" }

refreshed : end_refresh plain config "t1" ada first store ≡ (
  record {
    access_token = "s2";
    refresh_token = "t2";
    session_id = "s2";
    access_token_expires = "";
    refresh_token_expires = "";
  },
  ("t1", record ada { revoked = true }) ∷ ("t2", record ada { session_id = "s2" }) ∷ [],
)
unfolding end_refresh rotate revoke_record pair_of slice_to JsMap.get JsMap.set
refreshed = refl

-- Two refreshes with one token, the second of which begins before the first ends: both go through.
overlapping :
    (begin_refresh "t1" 10 store ≡ some ada)
    × (begin_refresh "t1" 20 store ≡ some ada)
    × ((end_refresh plain config "t1" ada second
          (end_refresh plain config "t1" ada first store).1).1
        ≡ ("t1", record ada { revoked = true })
          ∷ ("t2", record ada { session_id = "s2" })
          ∷ ("t3", record ada { session_id = "s3" })
          ∷ [])
unfolding begin_refresh end_refresh rotate revoke_record slice_to JsMap.get JsMap.set
overlapping = (refl, refl, refl)

t2-ne-t1 : first.for_token ≢ "t1"
t2-ne-t1 e = ground (arith, eq_iff "t2" "t1", e)

refresh_session_once_example :
    begin_refresh "t1" 20 (end_refresh plain config "t1" ada first store).1 ≡ none
refresh_session_once_example =
    refresh_session_once plain config "t1" ada first store
      (end_refresh plain config "t1" ada first store).1 20 t2-ne-t1 now

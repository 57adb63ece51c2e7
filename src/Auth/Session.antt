-- ===== src/Auth/Session.antt =====
-- `SessionManager` of auth/src/session.ts. The clock, the random tokens, the JWT functions and the
-- date format are arguments. `refreshSession` awaits `encodeJWT` between its checks and its changes, so
-- it is two steps, `begin_refresh` and `end_refresh`, and other calls may come between them. It sets
-- `revoked` of a record that the `Map` may hold by then or not; a random token is not drawn a second
-- time, so that under its token the `Map` holds that record or none. `createSession` changes nothing
-- before it awaits, so it is one step at its end.
pub mod Rotation
pub mod Destroy
use Prim.Native.String
use vais_lang.Prelude.{
  or_else, ℕ, zero, suc, ◌+◌, ◌*◌, String, Option, none, some, List, [], ◌∷◌, Bool, true, false,
  if◌then◌else◌, ltb, str_eq, string_eq,
}
use vais_lang.Prelude.JsMap
use vais_lang.Prelude.JsMap.{JsMap}

pub record User : Type 0 where
  pub id : String
  pub name : Option String
  pub email : Option String
  pub image : Option String

pub record SessionManagerConfig : Type 0 where
  pub secret : String
  pub access_token_ttl : ℕ
  pub refresh_token_ttl : ℕ

pub record TokenPair : Type 0 where
  pub access_token : String
  pub refresh_token : String
  pub session_id : String
  pub access_token_expires : String
  pub refresh_token_expires : String

pub record RefreshRecord : Type 0 where
  pub user_id : String
  pub session_id : String
  pub expires_at : ℕ
  pub revoked : Bool

-- `refreshTokenStore`
abbrev pub RefreshTokenStore : Type 0
RefreshTokenStore = JsMap String RefreshRecord

-- The `data` of a token, a `Partial<User>`.
pub record Profile : Type 0 where
  pub id : Option String
  pub name : Option String
  pub email : Option String
  pub image : Option String

-- What `encodeJWT` is called with, beside the secret.
pub record Claims : Type 0 where
  pub sub : String
  pub profile : Option Profile
  pub expires_in : ℕ
  pub iat : ℕ
  pub jti : String

pub record Payload : Type 0 where
  pub sub : String
  pub profile : Option Profile
  pub exp : ℕ

pub record Session : Type 0 where
  pub user : User
  pub expires : String
  pub access_token : String

-- Code outside the class.
pub record Outside : Type 0 where
  pub encode_jwt : Claims → String → String
  pub verify_jwt : String → String → Option Payload
  pub to_iso_string : ℕ → String

-- `s.slice(0, n)`
unfoldable pub slice_to : ℕ → String → String
slice_to zero s = String.[]
slice_to (suc n) String.[] = String.[]
slice_to (suc n) (String.◌∷◌ c s) = String.◌∷◌ c (slice_to n s)

-- What one call draws: the time in seconds and two results of `generateRefreshToken`, in the
-- order of the calls.
pub record Draw : Type 0 where
  pub now : ℕ
  pub for_id : String
  pub for_token : String

-- `{ id: payload.sub, ...payload.data }`
abbrev pub with_profile : String → Option Profile → User
with_profile sub none = record { id = sub; name = none; email = none; image = none }
with_profile sub (some p) = record {
  id = or_else p.id sub;
  name = p.name;
  email = p.email;
  image = p.image;
}

-- The record is found and neither revoked nor expired.
abbrev pub usable : ℕ → Option RefreshRecord → Option RefreshRecord
usable now none = none
usable now (some r) = if r.revoked then none else if ltb r.expires_at now then none else some r

-- `record.revoked = true`
unfoldable pub revoke_record : String → RefreshTokenStore → RefreshTokenStore
revoke_record token store = elim (JsMap.get token store) [
  | none ↦ store
  | some r ↦ JsMap.set token (record r { revoked = true }) store
]

unfoldable pub rotate : String → RefreshRecord → Draw → RefreshTokenStore → RefreshTokenStore
unfolding revoke_record
rotate token r draw store =
    JsMap.set draw.for_token
      (record {
        user_id = r.user_id;
        session_id = slice_to 32 draw.for_id;
        expires_at = r.expires_at;
        revoked = false;
      })
      (revoke_record token store)

module _ (out : Outside) (cfg : SessionManagerConfig) where
  unfoldable pub pair_of : String → Option Profile → String → ℕ → Draw → TokenPair
  pair_of sub profile session_id refresh_expires draw = record {
    access_token =
        out.encode_jwt
          (record {
            sub = sub;
            profile = profile;
            expires_in = cfg.access_token_ttl;
            iat = draw.now;
            jti = session_id;
          })
          cfg.secret;
    refresh_token = draw.for_token;
    session_id = session_id;
    access_token_expires = out.to_iso_string ((draw.now + cfg.access_token_ttl) * 1000);
    refresh_token_expires = out.to_iso_string (refresh_expires * 1000);
  }

  unfoldable pub create_session : User → Draw → RefreshTokenStore → TokenPair × RefreshTokenStore
  create_session user draw store =
      let session_id = slice_to 32 draw.for_id in
      let expires = draw.now + cfg.refresh_token_ttl in
      (
        pair_of user.id
            (some (record { id = none; name = user.name; email = user.email; image = user.image }))
            session_id expires draw,
        JsMap.set draw.for_token
            (record {
              user_id = user.id;
              session_id = session_id;
              expires_at = expires;
              revoked = false;
            })
            store,
      )

  unfoldable pub validate_session : String → Option Session
  validate_session token = elim (out.verify_jwt token cfg.secret) [
    | none ↦ none
    | some payload ↦ some (record {
      user = with_profile payload.sub payload.profile;
      expires = out.to_iso_string (payload.exp * 1000);
      access_token = token;
    })
  ]

  -- After the await, with the record that the call got before it.
  unfoldable pub end_refresh :
      String → RefreshRecord → Draw → RefreshTokenStore → TokenPair × RefreshTokenStore
  unfolding rotate pair_of
  end_refresh token r draw store = (
    pair_of r.user_id none (slice_to 32 draw.for_id) r.expires_at draw,
    rotate token r draw store,
  )

-- Up to the await: the record, or `none` where the call gives null.
unfoldable pub begin_refresh : String → ℕ → RefreshTokenStore → Option RefreshRecord
begin_refresh token now store = usable now (JsMap.get token store)

-- The loop of `destroySession` over the entries; the entries of a `Map` that are deleted during the
-- loop are those already visited.
pub destroy_loop : String → List (String × RefreshRecord) → RefreshTokenStore → RefreshTokenStore
destroy_loop session_id [] store = store
destroy_loop session_id ((token, r) ∷ entries) store =
    destroy_loop session_id entries
      (if str_eq r.session_id session_id then JsMap.delete token store else store)

unfoldable pub destroy_session : String → RefreshTokenStore → RefreshTokenStore
unfolding destroy_loop
destroy_session session_id store = destroy_loop session_id store store

unfoldable pub revoke_refresh_token : String → RefreshTokenStore → Bool × RefreshTokenStore
revoke_refresh_token token store = elim (JsMap.get token store) [
  | none ↦ (false, store)
  | some r ↦ (true, JsMap.delete token store)
]

-- ===== src/Auth/Session/Rotation.antt =====
-- After a refresh with it has ended, a refresh token begins no other.
use vais_lang.Prelude.{
  ap, List, [], ◌∷◌, ◌≡◌, ◌≢◌, String, Option, none, some, true, arith, eq_iff, string_eq,
  Option-cases, inl, inr, ℕ, refl,
}
use text.Mathlib.TextPositions.{eq_refl}
use vais_lang.Prelude.JsMap
use vais_lang.Prelude.JsMap.{get-set, get-delete}
use vais_lang.Auth.Session.{
  List, User, SessionManagerConfig, RefreshRecord, RefreshTokenStore, Outside, Draw, usable,
  revoke_record, rotate, create_session, begin_refresh, end_refresh, destroy_loop, destroy_session,
  revoke_refresh_token,
}

-- No refresh with the token can succeed, at any time.
abbrev pub IsDead : String → RefreshTokenStore → Type 0
IsDead t store = (now : ℕ) → usable now (JsMap.get t store) ≡ none

-- The steps of the calls of the class that change the store, each with the refresh token that it adds,
-- if it adds one. The end of a refresh is a step by itself, whenever and with whatever token and record
-- it began.
pub data Step (out : Outside) (cfg : SessionManagerConfig)
    : RefreshTokenStore → RefreshTokenStore → Option String → Type 0 where
  create :
      (user : User) (draw : Draw) (store : RefreshTokenStore)
      → Step out cfg store (create_session out cfg user draw store).1 (some draw.for_token)
  ends_refresh :
      (token : String) (r : RefreshRecord) (draw : Draw) (store : RefreshTokenStore)
      → Step out cfg store (end_refresh out cfg token r draw store).1 (some draw.for_token)
  destroy :
      (session_id : String) (store : RefreshTokenStore)
      → Step out cfg store (destroy_session session_id store) none
  revoke :
      (token : String) (store : RefreshTokenStore)
      → Step out cfg store (revoke_refresh_token token store).1 none

-- Any such steps, none of which adds `t` again.
pub data Later (out : Outside) (cfg : SessionManagerConfig) (t : String) (s : RefreshTokenStore)
    : RefreshTokenStore → Type 0 where
  now : Later out cfg t s s
  then_step :
      {u v : RefreshTokenStore} (drawn : Option String)
      → Later out cfg t s u
      → Step out cfg u v drawn
      → drawn ≢ some t
      → Later out cfg t s v

destroy_loop-IsDead :
    (t sid : String) (entries : List (String × RefreshRecord)) (store : RefreshTokenStore)
    → IsDead t store
    → IsDead t (destroy_loop sid entries store)
unfolding destroy_loop
destroy_loop-IsDead t sid [] store dead = dead
destroy_loop-IsDead t sid ((k, r) ∷ entries) store dead =
    destroy_loop-IsDead t sid entries _ (λ n. ground (arith, dead n, get-delete k t store))

set-IsDead :
    (t k : String) (r : RefreshRecord) (store : RefreshTokenStore)
    → k ≢ t
    → IsDead t store
    → IsDead t (JsMap.set k r store)
set-IsDead t k r store ne dead n = ground (arith, dead n, ne, eq_iff k t, get-set k t r store)

revoke_record-IsDead_self :
    (t : String) (store : RefreshTokenStore) → IsDead t (revoke_record t store)
unfolding revoke_record
revoke_record-IsDead_self t store n = elim (Option-cases (JsMap.get t store)) [
  | inl e ↦ rw (e, revoke_record, e) refl
  | inr (r, e) ↦
      rw (e, revoke_record)
        (ground (arith, eq_refl t, get-set t t (record r { revoked = true }) store))
]

revoke_record-IsDead :
    (t token : String) (store : RefreshTokenStore)
    → IsDead t store
    → IsDead t (revoke_record token store)
unfolding revoke_record
revoke_record-IsDead t token store dead n = elim (Option-cases (JsMap.get token store)) [
  | inl e ↦ rw (e, revoke_record) (dead n)
  | inr (r, e) ↦
      rw (e, revoke_record)
        (ground (arith, dead n, get-set token t (record r { revoked = true }) store))
]

-- The end of a refresh leaves the token that it was called with revoked, unless it draws that very one.
rotate-IsDead_self :
    (t : String) (r : RefreshRecord) (draw : Draw) (store : RefreshTokenStore)
    → draw.for_token ≢ t
    → IsDead t (rotate t r draw store)
unfolding rotate
rotate-IsDead_self t r draw store ne =
    set-IsDead t draw.for_token _ _ ne (revoke_record-IsDead_self t store)

rotate-IsDead :
    (t token : String) (r : RefreshRecord) (draw : Draw) (store : RefreshTokenStore)
    → draw.for_token ≢ t
    → IsDead t store
    → IsDead t (rotate token r draw store)
unfolding rotate
rotate-IsDead t token r draw store ne dead =
    set-IsDead t draw.for_token _ _ ne (revoke_record-IsDead t token store dead)

Step-IsDead :
    (out : Outside) (cfg : SessionManagerConfig) (t : String) {u v : RefreshTokenStore}
    {drawn : Option String}
    → Step out cfg u v drawn
    → drawn ≢ some t
    → IsDead t u
    → IsDead t v
unfolding create_session end_refresh destroy_session revoke_refresh_token
Step-IsDead out cfg t (create user draw store) fresh dead =
    set-IsDead t draw.for_token _ store (λ e. fresh (ap some e)) dead
Step-IsDead out cfg t (ends_refresh token r draw store) fresh dead =
    rotate-IsDead t token r draw store (λ p. fresh (ap some p)) dead
Step-IsDead out cfg t (destroy sid store) fresh dead = destroy_loop-IsDead t sid store store dead
Step-IsDead out cfg t (revoke token store) fresh dead =
    elim (Option-cases (JsMap.get token store)) [
      | inl e ↦ rw (e, revoke_refresh_token) dead
      | inr (r, e) ↦
          rw (e, revoke_refresh_token) (λ n. ground (arith, dead n, get-delete token t store))
    ]

Later-IsDead :
    (out : Outside) (cfg : SessionManagerConfig) (t : String) {s v : RefreshTokenStore}
    → Later out cfg t s v
    → IsDead t s
    → IsDead t v
Later-IsDead out cfg t now dead = dead
Later-IsDead out cfg t (then_step drawn l st fresh) dead =
    Step-IsDead out cfg t st fresh (Later-IsDead out cfg t l dead)

-- Once a refresh with a token has ended, drawing another token, the old one is not good any more: after
-- any further steps of the class that do not add it again, the ends of refreshes that began before
-- included, a refresh with it that begins then gives null, at any time. A refresh with it that began
-- before that end is not stopped by it.
pub refresh_session_once :
    (out : Outside) (cfg : SessionManagerConfig) (t : String) (r : RefreshRecord) (draw : Draw)
    (store later : RefreshTokenStore) (time : ℕ)
    → draw.for_token ≢ t
    → Later out cfg t (end_refresh out cfg t r draw store).1 later
    → begin_refresh t time later ≡ none
unfolding begin_refresh end_refresh
refresh_session_once out cfg t r draw store later time ne l =
    Later-IsDead out cfg t l (rotate-IsDead_self t r draw store ne) time

-- ===== src/QueryCache/Tests.antt =====
-- Runs of the query cache, and its theorems at concrete inputs.
use vais_lang.Prelude.{ℕ, ◌+◌, ◌≡◌, refl, str_eq, if◌then◌else◌, leb, none, some, string_eq, nat_eq}
use vais_lang.Prelude.JsMap
use vais_lang.Prelude.JsSet
use vais_lang.QueryCache.Reach.{sets, next, Reach, Reach-new_cache, start, subscribes}
use vais_lang.QueryCache.{
  notices, clear_gc_timer, record_at, is_stale, new_cache, subscribe, Cache, set, get,
}
use vais_lang.QueryCache.Reads.{get-set_entry, subscribers_at, stored}

abbrev users : Cache ℕ
users = (set "users" 7 none (some 9) 100 (subscribe "users" 1 (new_cache 30 60)).1).0

users_entry : get "users" users ≡ some (stored "users" 7 none (some 9) 100 (new_cache 30 60))
unfolding get set subscribe record_at clear_gc_timer JsMap.get JsMap.set JsSet.add JsSet.has
users_entry = refl

users-Reach : Reach (new_cache 30 60) users
users-Reach = next (next start (subscribes "users" 1)) (sets "users" 7 none (some 9) 100)

get-set_entry_example :
    let (d, notified) = set "users" 8 (some 5) none 200 users in
    (get "users" d ≡ (
      if str_eq "users" "users"
      then some (stored "users" 8 (some 5) none 200 users)
      else get "users" users))
    × (is_stale "users" 204 d
        ≡ (if str_eq "users" "users" then leb (200 + 5) 204 else is_stale "users" 204 users))
    × (notified
        ≡ notices
            (some (stored "users" 8 (some 5) none 200 users))
            (subscribers_at "users" 8 (some 5) none 200 users))
get-set_entry_example =
    get-set_entry "users" 8 (some 5) none 200 users "users" 204 (Reach-new_cache 30 60 users-Reach)

-- ===== src/Mutation/Optimistic/Laws.antt =====
-- What a failed mutation leaves in the cache.
use vais_lang.Prelude.{
  refl, eq_iff, ap, ◌∙◌, sym, Bool, true, false, Bool-cases, inr, inl, Option-cases, ℕ, String,
  Option, none, some, ◌≡◌, arith, str_eq, if◌then◌else◌,
}
use vais_lang.QueryCache
use vais_lang.QueryCache.{Cache}
use vais_lang.QueryCache.Valid.{set-IsValid, IsValid}
use vais_lang.QueryCache.Reads.{get-set_entry}
use vais_lang.QueryCache.Invalidated.{get-invalidate}
use vais_lang.Mutation.Optimistic.{fail, begin, MutationResult, Changed, data_at, rollback}

module _ {D : Type 0} (key j : String) (now : ℕ) (c : Cache D) (v : IsValid c) where
  data_at-set :
      (datum : D)
      → data_at j (QueryCache.set key datum none none now c).0
        ≡ (if str_eq key j then some datum else data_at j c)
  unfolding data_at
  data_at-set datum = ground (arith, (get-set_entry key datum none none now c j now v).0)

  data_at-rollback :
      (snapshot : Option D)
      → data_at j (rollback key snapshot now c).0 ≡ (if str_eq key j then snapshot else data_at j c)
  unfolding rollback data_at
  data_at-rollback none = ground (arith, get-invalidate key j v)
  data_at-rollback (some datum) = ground (arith, data_at-set datum)

abbrev cache_or : {D T E : Type 0} → Cache D → Option (Changed D T E) → Cache D
cache_or c none = c
cache_or c (some x) = x.cache

same_data :
    {D : Type 0} (key j : String) (c : Cache D) (o : Option D)
    → (if str_eq key j then data_at key c else o) ≡ (if str_eq key j then data_at j c else o)
same_data key j c o = elim (Bool-cases (str_eq key j)) [
  | inl e ↦ rw e (ap (λ k. data_at k c) ((eq_iff key j).0 e))
  | inr e ↦ rw e refl
]

if_same : {A : Type 0} (b : Bool) (x y : A) → (if b then x else (if b then y else x)) ≡ x
if_same true x y = refl
if_same false x y = refl

module _ {D T E A : Type 0} (query_key : String) (updater : Option D → A → Option D) (variables : A)
    (handle : MutationResult T E) where
  begin-cache :
      (now : ℕ) (c : Cache D) (x : Changed D T E)
      → (begin query_key updater variables now c handle).1 ≡ some x
      → (datum : D) × (x.cache ≡ (QueryCache.set query_key datum none none now c).0)
  unfolding begin
  begin-cache now c x h = elim (Option-cases (updater (data_at query_key c) variables)) [
    | inl e ↦ absurd (ground (arith, e, h))
    | inr (datum, e) ↦ (datum, sym (ap (cache_or c) (rw (begin, e) at h)))
  ]

  -- A mutation that begins in the cache `c` and fails later, in a cache `d`: its key has the data again
  -- that it had in `c`, whatever was written to it since, and the other keys have theirs of `d`. So if
  -- nothing else happens in between, every key has the data that it had before the mutation.
  pub fail-begin :
      (err : E) (now later : ℕ) (c d : Cache D) (x : Changed D T E) (j : String)
      → IsValid c
      → IsValid d
      → (begin query_key updater variables now c handle).1 ≡ some x
      → let snapshot = (begin query_key updater variables now c handle).0 in
        (data_at j (fail query_key snapshot err later d x.handle).cache
          ≡ (if str_eq query_key j then data_at j c else data_at j d))
        × (data_at j (fail query_key snapshot err later x.cache x.handle).cache ≡ data_at j c)
  unfolding begin fail
  fail-begin err now later c d x j v w h =
      let (datum, e) = begin-cache now c x h in
      let snapshot = data_at query_key c in
      let written = (QueryCache.set query_key datum none none now c).0 in
      (
        data_at-rollback query_key j later d w snapshot ∙ same_data query_key j c (data_at j d),
        ap (λ y. data_at j (rollback query_key snapshot later y).0) e
            ∙ data_at-rollback query_key j later written
                (set-IsValid query_key datum none none now v) snapshot
            ∙ ap (λ o. if str_eq query_key j then snapshot else o)
                (data_at-set query_key j now c v datum)
            ∙ same_data query_key j c (if str_eq query_key j then some datum else data_at j c)
            ∙ if_same (str_eq query_key j) (data_at j c) (some datum),
      )

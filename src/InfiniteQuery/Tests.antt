-- ===== src/InfiniteQuery/Tests.antt =====
-- Runs of an infinite query, and its theorems at concrete inputs.
use vais_lang.Prelude.{ℕ, ◌+◌, none, some, [], ◌∷◌, ◌++◌, ◌≡◌, refl, nat_beq, if◌then◌else◌}
use vais_lang.InfiniteQuery.{
  InfiniteQueryOptions, InfiniteState, Outcome, resolves, rejects, next, previous, initial, fetched,
  failed, new_infinite, attempts_from, begin_fetch, end_fetch, fetch_next_page, fetch_previous_page,
  current_data,
}
use vais_lang.InfiniteQuery.Valid.{IsValid, here, step, create, end, Reach-new_infinite}
use vais_lang.InfiniteQuery.Overlap.{fetch_next_page-twice}

-- Pages are numbers, and so are their parameters.
abbrev options : InfiniteQueryOptions ℕ ℕ
options = record {
  initial_page_param = 5;
  get_next_page_param = λ page pages param params. some (param + 1);
  get_previous_page_param = λ page pages param params. some (param + 100);
  retry_count = 3;
  retry_delay = 1000;
}

abbrev fresh : InfiniteState ℕ ℕ ℕ
fresh = new_infinite

abbrev outcomes : ℕ → Outcome ℕ ℕ
outcomes attempt = if nat_beq attempt 2 then resolves (some 50) else rejects attempt

third_attempt : attempts_from 4 1000 outcomes 0 none ≡ (fetched 50, 1000 ∷ 1000 ∷ [])
unfolding attempts_from
third_attempt = refl

no_more_attempts : attempts_from 2 1000 outcomes 0 none ≡ (failed (some 1), 1000 ∷ [])
unfolding attempts_from
no_more_attempts = refl

abbrev loaded : InfiniteState ℕ ℕ ℕ
loaded = end_fetch options 5 initial (fetched 50) (begin_fetch options initial fresh)

loaded_data : current_data options loaded ≡ some (50 ∷ [], 5 ∷ [])
unfolding end_fetch begin_fetch
loaded_data = refl

Reach-new_infinite_example : IsValid options loaded ((50, 5) ∷ [])
Reach-new_infinite_example =
    Reach-new_infinite options (step (step here create) (end 5 initial (fetched 50)))

fetch_next_page-twice_example :
    let one = begin_fetch options next loaded in
    let both = begin_fetch options previous one in
    let after = end_fetch options 105 previous (failed (some 9)) both in
    let twice = begin_fetch options next after in
    (fetch_next_page options loaded ≡ some (6, one))
    × (fetch_next_page options one ≡ none)
    × (fetch_previous_page options one ≡ some (105, both))
    × (fetch_next_page options both ≡ none)
    × (fetch_next_page options after ≡ some (6, twice))
    × ((end_fetch options 6 next
          (fetched 61)
          (end_fetch options 6 next (fetched 60) twice)).page_params
        ≡ loaded.page_params ++ 6 ∷ 6 ∷ [])
unfolding end_fetch begin_fetch
fetch_next_page-twice_example =
    fetch_next_page-twice options loaded (some 9) 60 61 refl refl refl refl

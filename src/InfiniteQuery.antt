-- ===== src/InfiniteQuery.antt =====
-- query/src/infinite.ts: createInfiniteQuery. A fetch is two steps, its start up to the first await and
-- its end, between which other calls may start and end theirs; `outcomes` is what queryFn does at each
-- attempt. Signals are the fields of the state.
pub mod Valid
pub mod Overlap
mod Tests
use vais_lang.Prelude.{
  ℕ, zero, suc, ◌+◌, Option, none, some, List, [], ◌∷◌, ◌++◌, Bool, true, false, ltb, if◌then◌else◌,
  or_else, last?, head?, ◌>>=◌,
}

pub data QueryStatus : Type 0 where
  idle : QueryStatus
  loading : QueryStatus
  error : QueryStatus
  success : QueryStatus

pub data Direction : Type 0 where
  next : Direction
  previous : Direction
  initial : Direction

-- What an attempt gives: a value that may be undefined, or an error.
pub data Outcome (D E : Type 0) : Type 0 where
  resolves : Option D → Outcome D E
  rejects : E → Outcome D E

-- What the attempts of a fetch come to; `none` is an error that is undefined.
pub data Settled (D E : Type 0) : Type 0 where
  fetched : D → Settled D E
  failed : Option E → Settled D E

-- `get_previous_page_param` gives undefined if the option is left out.
pub record InfiniteQueryOptions (D P : Type 0) : Type 0 where
  pub initial_page_param : P
  pub get_next_page_param : D → List D → P → List P → Option P
  pub get_previous_page_param : D → List D → P → List P → Option P
  pub retry_count : ℕ
  pub retry_delay : ℕ

pub record InfiniteState (D E P : Type 0) : Type 0 where
  pub pages : List D
  pub page_params : List P
  pub failure : Option E
  pub status : QueryStatus
  pub is_fetching : Bool
  pub is_fetching_next_page : Bool
  pub is_fetching_previous_page : Bool
  pub next_page_param : Option P
  pub previous_page_param : Option P

abbrev pub new_infinite : {D E P : Type 0} → InfiniteState D E P
new_infinite = record {
  pages = [];
  page_params = [];
  failure = none;
  status = idle;
  is_fetching = false;
  is_fetching_next_page = false;
  is_fetching_previous_page = false;
  next_page_param = none;
  previous_page_param = none;
}

-- The loop over the attempts from `attempt` on, with the rounds that are left, and the delays that it
-- waits for.
unfoldable pub attempts_from :
    {D E : Type 0} → ℕ → ℕ → (ℕ → Outcome D E) → ℕ → Option E → Settled D E × List ℕ
attempts_from zero delay outcomes attempt last_error = (failed last_error, [])
attempts_from (suc rounds) delay outcomes attempt last_error = elim (outcomes attempt) [
  | resolves (some d) ↦ (fetched d, [])
  | resolves none ↦ (failed last_error, [])
  | rejects e ↦
      let (settled, delays) = attempts_from rounds delay outcomes (attempt + 1) (some e) in
      (settled, if ltb 0 rounds then delay ∷ delays else delays)
]

abbrev pub is_next : Direction → Bool
is_next next = true
is_next d = false

abbrev pub is_previous : Direction → Bool
is_previous previous = true
is_previous d = false

abbrev pub started : QueryStatus → QueryStatus
started idle = loading
started error = loading
started s = s

abbrev pub add_page : {A : Type 0} → Direction → A → List A → List A
add_page previous a as_ = a ∷ as_
add_page d a as_ = as_ ++ a ∷ []

module _ {D P : Type 0} (options : InfiniteQueryOptions D P) where
  -- The parameters that updateDerivedParams computes from the pages, each of which has its parameter.
  abbrev pub derived_next : List D → List P → Option P
  derived_next pages params = last? pages >>= λ page.
      last? params >>= λ param. options.get_next_page_param page pages param params

  abbrev pub derived_previous : List D → List P → Option P
  derived_previous pages params = head? pages >>= λ page.
      head? params >>= λ param. options.get_previous_page_param page pages param params

  module _ {E : Type 0} where
    abbrev pub update_derived_params : InfiniteState D E P → InfiniteState D E P
    update_derived_params s = record s {
      next_page_param = derived_next s.pages s.page_params;
      previous_page_param = derived_previous s.pages s.page_params;
    }

    -- fetchPage up to its first await
    unfoldable pub begin_fetch : Direction → InfiniteState D E P → InfiniteState D E P
    begin_fetch direction s = record s {
      is_fetching_next_page = if is_next direction then true else s.is_fetching_next_page;
      is_fetching_previous_page =
          if is_previous direction then true else s.is_fetching_previous_page;
      is_fetching = true;
      status = started s.status;
    }

    abbrev pub idle_flags : InfiniteState D E P → InfiniteState D E P
    idle_flags s = record s {
      is_fetching = false;
      is_fetching_next_page = false;
      is_fetching_previous_page = false;
    }

    -- fetchPage from the end of its attempts
    unfoldable pub end_fetch :
        P → Direction → Settled D E → InfiniteState D E P → InfiniteState D E P
    end_fetch param direction (fetched d) s = idle_flags (
        update_derived_params (record s {
          pages = add_page direction d s.pages;
          page_params = add_page direction param s.page_params;
          failure = none;
          status = success;
        }))
    end_fetch param direction (failed e) s = idle_flags (record s { failure = e; status = error })

    -- `none` is a call that returns at once; else the parameter that is fetched.
    unfoldable pub fetch_next_page : InfiniteState D E P → Option (P × InfiniteState D E P)
    unfolding begin_fetch
    fetch_next_page s = s.next_page_param >>= λ param.
        if s.is_fetching_next_page then none else some (param, begin_fetch next s)

    unfoldable pub fetch_previous_page : InfiniteState D E P → Option (P × InfiniteState D E P)
    unfolding begin_fetch
    fetch_previous_page s = s.previous_page_param >>= λ param.
        if s.is_fetching_previous_page then none else some (param, begin_fetch previous s)

    unfoldable pub refetch : InfiniteState D E P → InfiniteState D E P
    unfolding begin_fetch
    refetch s = begin_fetch initial (record s {
      pages = [];
      page_params = [];
      next_page_param = none;
      previous_page_param = none;
      status = idle;
    })

    -- The getter `data`
    abbrev pub current_data : InfiniteState D E P → Option (List D × List P)
    current_data s = elim s.pages [
      | [] ↦ (elim s.status [ success ↦ some ([], s.page_params) | _ ↦ none ])
      | page ∷ pages ↦ some (page ∷ pages, s.page_params)
    ]

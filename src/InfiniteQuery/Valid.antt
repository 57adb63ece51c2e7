-- ===== src/InfiniteQuery/Valid.antt =====
-- What holds after any interleaving of fetches.
use vais_lang.Prelude.{
  none, some, List, [], ◌∷◌, true, false, ◌≡◌, refl, arith, ◌≢◌, map, ap, sym, ◌∙◌, ◌++◌,
}
use mathlib.Core.List.{map-append}
use vais_lang.InfiniteQuery.{
  InfiniteQueryOptions, InfiniteState, Direction, next, previous, initial, Settled, fetched, failed,
  QueryStatus, idle, loading, error, success, started, new_infinite, begin_fetch, end_fetch,
  fetch_next_page, fetch_previous_page, refetch, derived_next, derived_previous, add_page,
}

-- The pages that are there, each with the parameter it was fetched with.
abbrev pub Log : Type 0 → Type 0 → Type 0
Log D P = List (D × P)

-- Where a page goes: to the front if it was fetched backwards, and else to the end.
abbrev pub added : {D P : Type 0} → Direction → D × P → Log D P → Log D P
added next p log = log ++ p ∷ []
added initial p log = log ++ p ∷ []
added previous p log = p ∷ log

-- What the end of a fetch does to them; an error leaves them.
abbrev pub logged : {D E P : Type 0} → P → Direction → Settled D E → Log D P → Log D P
logged param direction (failed e) log = log
logged param direction (fetched d) log = added direction (d, param) log

add_page-map :
    {D P A : Type 0} (f : D × P → A) (direction : Direction) (p : D × P) (log : Log D P)
    → add_page direction (f p) (map f log) ≡ map f (added direction p log)
add_page-map f next p log = sym (map-append f log (p ∷ []))
add_page-map f previous p log = refl
add_page-map f initial p log = sym (map-append f log (p ∷ []))

add_page-ne-nil :
    {A : Type 0} (direction : Direction) (a : A) (as_ : List A) → add_page direction a as_ ≢ []
add_page-ne-nil next a [] e = cc
add_page-ne-nil next a (b ∷ bs) e = cc
add_page-ne-nil previous a as_ e = cc
add_page-ne-nil initial a [] e = cc
add_page-ne-nil initial a (b ∷ bs) e = cc

started-success : (status : QueryStatus) → started status ≡ success → status ≡ success
started-success idle h = cc
started-success loading h = cc
started-success error h = cc
started-success success h = h

module _ {D E P : Type 0} (options : InfiniteQueryOptions D P) where
  -- A step of the query, on the pages that are there by then: a fetch starts, by a call or by the
  -- creation of the query, the query is fetched again from no page on, or a fetch ends.
  pub data Step : InfiniteState D E P × Log D P → InfiniteState D E P × Log D P → Type 0 where
    create :
        {s : InfiniteState D E P} {log : Log D P}
        → Step (s, log) (begin_fetch options initial s, log)
    ask_next :
        {s : InfiniteState D E P} {log : Log D P} (param : P) {t : InfiniteState D E P}
        → fetch_next_page options s ≡ some (param, t)
        → Step (s, log) (t, log)
    ask_previous :
        {s : InfiniteState D E P} {log : Log D P} (param : P) {t : InfiniteState D E P}
        → fetch_previous_page options s ≡ some (param, t)
        → Step (s, log) (t, log)
    again : {s : InfiniteState D E P} {log : Log D P} → Step (s, log) (refetch options s, [])
    end :
        {s : InfiniteState D E P} {log : Log D P} (param : P) (direction : Direction)
        (settled : Settled D E)
        → Step
            (s, log)
            (end_fetch options param direction settled s, logged param direction settled log)

  pub data Reach (s : InfiniteState D E P × Log D P) : InfiniteState D E P × Log D P → Type 0 where
    here : Reach s s
    step : {t u : InfiniteState D E P × Log D P} → Reach s t → Step t u → Reach s u

  pub record IsValid (s : InfiniteState D E P) (log : Log D P) : Type 0 where
    pub pages_logged : s.pages ≡ map (λ p. p.0) log
    pub params_logged : s.page_params ≡ map (λ p. p.1) log
    pub next_derived : s.next_page_param ≡ derived_next options s.pages s.page_params
    pub previous_derived : s.previous_page_param ≡ derived_previous options s.pages s.page_params
    pub loads : s.is_fetching_next_page ≡ true → s.is_fetching ≡ true
    pub waits : s.is_fetching ≡ false → s.status ≢ loading
    pub loaded : s.status ≡ success → s.pages ≢ []

  begin_fetch-IsValid :
      (direction : Direction) (s : InfiniteState D E P) (log : Log D P)
      → IsValid s log
      → IsValid (begin_fetch options direction s) log
  unfolding begin_fetch
  begin_fetch-IsValid direction s log v = record {
    pages_logged = v.pages_logged;
    params_logged = v.params_logged;
    next_derived = v.next_derived;
    previous_derived = v.previous_derived;
    loads = λ h. refl;
    waits = λ h. cc;
    loaded = λ h. v.loaded (started-success s.status h);
  }

  end_fetch-IsValid :
      (param : P) (direction : Direction) (settled : Settled D E) (s : InfiniteState D E P)
      (log : Log D P)
      → IsValid s log
      → IsValid (end_fetch options param direction settled s) (logged param direction settled log)
  unfolding end_fetch
  end_fetch-IsValid param direction (fetched d) s log v = record {
    pages_logged =
        ap (add_page direction d) v.pages_logged ∙ add_page-map (λ p. p.0) direction (d, param) log;
    params_logged =
        ap (add_page direction param) v.params_logged
        ∙ add_page-map (λ p. p.1) direction (d, param) log;
    next_derived = refl;
    previous_derived = refl;
    loads = λ h. cc;
    waits = λ h e. cc;
    loaded = λ h. add_page-ne-nil direction d s.pages;
  }
  end_fetch-IsValid param direction (failed e) s log v = record {
    pages_logged = v.pages_logged;
    params_logged = v.params_logged;
    next_derived = v.next_derived;
    previous_derived = v.previous_derived;
    loads = λ h. cc;
    waits = λ h e. cc;
    loaded = λ h. cc;
  }

  ask_next-eq :
      (s : InfiniteState D E P) (param : P) {t : InfiniteState D E P}
      → fetch_next_page options s ≡ some (param, t)
      → (s.next_page_param ≡ some param)
        × (s.is_fetching_next_page ≡ false)
        × (t ≡ begin_fetch options next s)
  unfolding fetch_next_page
  ask_next-eq s param e = ground (arith, e)

  ask_previous-eq :
      (s : InfiniteState D E P) (param : P) {t : InfiniteState D E P}
      → fetch_previous_page options s ≡ some (param, t)
      → (s.previous_page_param ≡ some param)
        × (s.is_fetching_previous_page ≡ false)
        × (t ≡ begin_fetch options previous s)
  unfolding fetch_previous_page
  ask_previous-eq s param e = ground (arith, e)

  Step-IsValid :
      {s t : InfiniteState D E P × Log D P} → Step s t → IsValid s.0 s.1 → IsValid t.0 t.1
  unfolding refetch
  Step-IsValid (create {s} {log}) v = begin_fetch-IsValid initial s log v
  Step-IsValid (ask_next {s} {log} param e) v =
      rw (ask_next-eq s param e).2 (begin_fetch-IsValid next s log v)
  Step-IsValid (ask_previous {s} {log} param e) v =
      rw (ask_previous-eq s param e).2 (begin_fetch-IsValid previous s log v)
  Step-IsValid (again {s} {log}) v =
      begin_fetch-IsValid initial
        (record s {
          pages = [];
          page_params = [];
          next_page_param = none;
          previous_page_param = none;
          status = idle;
        })
        []
        (record {
          pages_logged = refl;
          params_logged = refl;
          next_derived = refl;
          previous_derived = refl;
          loads = v.loads;
          waits = λ h e. cc;
          loaded = λ h. cc;
        })
  Step-IsValid (end {s} {log} param direction settled) v =
      end_fetch-IsValid param direction settled s log v

  new_infinite-IsValid : IsValid new_infinite []
  new_infinite-IsValid = record {
    pages_logged = refl;
    params_logged = refl;
    next_derived = refl;
    previous_derived = refl;
    loads = λ h. cc;
    waits = λ h e. cc;
    loaded = λ h. cc;
  }

  -- However fetches start and end, also in between one another: the pages are those that were fetched
  -- since the creation or the last `refetch`, in the order in which they were put at the end or, if
  -- fetched backwards, at the front, and at the place of each stands the parameter that it was fetched
  -- with; the next and the previous parameter are those that the options derive from the pages that are
  -- there; the query is not in `loading` when no fetch is shown, one is shown while the next page is,
  -- and after a success there is a page.
  pub Reach-new_infinite :
      {s : InfiniteState D E P × Log D P} → Reach (new_infinite, []) s → IsValid s.0 s.1
  Reach-new_infinite here = new_infinite-IsValid
  Reach-new_infinite (step r st) = Step-IsValid st (Reach-new_infinite r)

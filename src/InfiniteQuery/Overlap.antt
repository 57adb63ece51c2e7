-- ===== src/InfiniteQuery/Overlap.antt =====
-- Fetches of both directions at once.
use vais_lang.Prelude.{Option, none, some, [], ◌∷◌, ◌++◌, false, ◌≡◌, refl, append_assoc}
use vais_lang.InfiniteQuery.{
  InfiniteQueryOptions, InfiniteState, next, previous, fetched, failed, begin_fetch, end_fetch,
  fetch_next_page, fetch_previous_page,
}

module _ {D E P : Type 0} (options : InfiniteQueryOptions D P) where
  -- Of a query with a next and a previous page that fetches neither: while the next page is fetched a
  -- second call for it does nothing. But if the previous page is fetched too and that fails first, a call
  -- asks for the same next page again, and both answers are kept.
  pub fetch_next_page-twice :
      (s : InfiniteState D E P) {p q : P} (e : Option E) (d d' : D)
      → s.next_page_param ≡ some p
      → s.previous_page_param ≡ some q
      → s.is_fetching_next_page ≡ false
      → s.is_fetching_previous_page ≡ false
      → let one = begin_fetch options next s in
        let both = begin_fetch options previous one in
        let after = end_fetch options q previous (failed e) both in
        let twice = begin_fetch options next after in
        (fetch_next_page options s ≡ some (p, one))
        × (fetch_next_page options one ≡ none)
        × (fetch_previous_page options one ≡ some (q, both))
        × (fetch_next_page options both ≡ none)
        × (fetch_next_page options after ≡ some (p, twice))
        × ((end_fetch options p next
              (fetched d')
              (end_fetch options p next (fetched d) twice)).page_params
            ≡ s.page_params ++ p ∷ p ∷ [])
  unfolding fetch_next_page fetch_previous_page begin_fetch end_fetch
  fetch_next_page-twice s {p} {q} e d d' hn hp fn fp = (
    rw (hn, fn) refl,
    rw hn refl,
    rw (hp, fp) refl,
    rw hn refl,
    rw hn refl,
    append_assoc s.page_params (p ∷ []) (p ∷ []),
  )

-- ===== src/Router/Matcher/Complete.antt =====
-- One child of the root in `matchRoute`, on trees without route groups: no path below it that the URL
-- follows is missed.

use vais_lang.Prelude.{
  ◌∙◌, ℕ, zero, suc, ◌≤◌, ◌≡◌, ◌≢◌, refl, String, Option, none, some, List, [], ◌∷◌, arith, All, In,
  here, there, Option-cases, inl, inr, subst,
}
use vais_lang.Router.Types.{
  RouteDefinition, RouteParams, MatchResult, RouteMatch, info, children, size, size_pos,
  children-All-size, AllNodes, AllNodes-here, AllNodes-children,
}
use vais_lang.Router.Order.{own_segment, priority, sort, sort-In, IsSorted}
use vais_lang.Router.Matcher.{
  Walk, push_layout, match_segments_from_child, try_child, first_child, match_children, or_next,
  combine, match_root_child, first_match,
}
use vais_lang.Router.Matcher.Fuel.{find_matched_route-fuel}
use vais_lang.Router.Matcher.Consistent.{
  Follows, ends, goes, Agree, IsPlain, searches_agree, try_child-plain,
}

pub All-at {ℓ κ} : {A : Type ℓ} (P : A → Type κ) {a : A} (xs : List A) → All P xs → In a xs → P a
All-at P [] h i = elim i [ ]
All-at P (x ∷ xs) h (here p) = subst P p h.0
All-at P (x ∷ xs) h (there i) = All-at P xs h.1 i

combine-ne-none :
    (P : RouteDefinition → RouteParams → List String → Type 0) (res : Option MatchResult)
    (r : Option RouteDefinition)
    → Agree P res r
    → res ≢ none
    → combine res r ≢ none
combine-ne-none P none r a h = absurd (h refl)
combine-ne-none P (some res) none a h = absurd a
combine-ne-none P (some res) (some r) a h = cc

module _ (f : ℕ) (c : RouteDefinition) (fits : size c ≤ f) (plain : AllNodes IsPlain c)
    (urls layouts : List String) where
  match_root_child-Agree :
      (P : Option RouteMatch → Type 0)
      → ((res : Option MatchResult) (r : Option RouteDefinition)
          → res ≡ match_segments_from_child (match_children f) urls c layouts []
          → Agree (Follows urls c layouts []) res r
          → P (combine res r))
      → P (match_root_child f urls layouts c)
  unfolding match_root_child
  match_root_child-Agree P k = elim (Option-cases (own_segment c)) [
    | inl e ↦ absurd (AllNodes-here IsPlain c plain e)
    | inr (own, e) ↦
        rw (e, match_root_child)
          (k _ _ refl (
            rw (find_matched_route-fuel f (suc f) c fits (omega arith) urls)
              (searches_agree f c fits plain urls layouts [])))
  ]

  pub root_child-ne-none :
      match_segments_from_child (match_children f) urls c layouts [] ≢ none
      → match_root_child f urls layouts c ≢ none
  root_child-ne-none found =
      match_root_child-Agree (λ o. o ≢ none)
        (λ res r e a. combine-ne-none (Follows urls c layouts []) res r a (rw e found))

pub or_next-ne-none {ℓ} : {A : Type ℓ} (o next : Option A) → next ≢ none → or_next o next ≢ none
or_next-ne-none none next h = h
or_next-ne-none (some a) next h = cc

first_child-ne-none :
    (walk : Walk) (urls layouts : List String) (ps : RouteParams) {d : RouteDefinition}
    (ds : List RouteDefinition)
    → In d ds
    → try_child walk urls d layouts ps ≢ none
    → first_child walk urls ds layouts ps ≢ none
unfolding first_child
first_child-ne-none walk urls layouts ps [] i h = elim i [ ]
first_child-ne-none walk urls layouts ps (x ∷ ds) (here p) h = ground (arith, p)
first_child-ne-none walk urls layouts ps (x ∷ ds) (there i) h =
    or_next-ne-none _ _ (first_child-ne-none walk urls layouts ps ds i h)

try_child-ne-none :
    (walk : Walk) (urls : List String) (d : RouteDefinition) (layouts : List String)
    (ps : RouteParams)
    → IsPlain d
    → match_segments_from_child walk urls d layouts ps ≢ none
    → try_child walk urls d layouts ps ≢ none
try_child-ne-none walk urls d layouts ps plain h = elim (Option-cases (own_segment d)) [
  | inl e ↦ absurd (plain e)
  | inr (own, e) ↦ rw (try_child-plain walk urls d layouts ps own e) h
]

-- A path that the URL follows is never missed below a child.
pub Follows-found :
    {urls : List String} {c : RouteDefinition} {layouts : List String} {ps : RouteParams}
    {r : RouteDefinition} {out : RouteParams} {chain : List String} (f : ℕ)
    → Follows urls c layouts ps r out chain
    → size c ≤ f
    → AllNodes IsPlain c
    → match_segments_from_child (match_children f) urls c layouts ps ≢ none
unfolding match_segments_from_child match_children
Follows-found f (ends own e k) fits plain = rw (e, match_segments_from_child) (rw k (λ h. cc))
Follows-found {c = c} zero (goes own ps' u rest d e k i p) fits plain =
    absurd (omega (arith, size_pos c))
Follows-found {c = c} {layouts = layouts} (suc f) (goes own ps' u rest d e k i p) fits plain =
    rw (e, match_segments_from_child)
      (rw k (
        first_child-ne-none (match_children f) (u ∷ rest) (push_layout (info c).layout layouts) ps'
          (sort (children c)) (sort-In (children c) i)
          (let plain_d =
              All-at (AllNodes IsPlain) (children c) (AllNodes-children IsPlain c plain) i in
            try_child-ne-none (match_children f) (u ∷ rest) d _ ps'
              (AllNodes-here IsPlain d plain_d)
              (Follows-found f p (All-at _ (children c) (children-All-size f c fits) i) plain_d))))

pub least_there :
    {A : Type 0} (d d' : RouteDefinition) (ds : List RouteDefinition)
    (test : RouteDefinition → Option A)
    → test d ≡ none
    → ((e : RouteDefinition) → In e ds → test e ≢ none → priority d' ≤ priority e)
    → (e : RouteDefinition) → In e (d ∷ ds)
    → test e ≢ none
    → priority d' ≤ priority e
least_there d d' ds test none_here least e (here p) h = absurd (h (rw (← p) none_here))
least_there d d' ds test none_here least e (there i) h = least e i h

pub least_here :
    {A : Type 0} (d : RouteDefinition) (ds : List RouteDefinition)
    (test : RouteDefinition → Option A)
    → All (λ e. priority d ≤ priority e) ds
    → (e : RouteDefinition) → In e (d ∷ ds)
    → test e ≢ none
    → priority d ≤ priority e
least_here d ds test below e (here p) h = rw p (omega arith)
least_here d ds test below e (there i) h = All-at (λ x. priority d ≤ priority x) ds below i

pub first_match-first :
    (test : RouteDefinition → Option RouteMatch) (ds : List RouteDefinition) (m : RouteMatch)
    → IsSorted ds
    → first_match test ds ≡ some m
    → (d : RouteDefinition) × In d ds
      × (test d ≡ some m)
      × ((e : RouteDefinition) → In e ds → test e ≢ none → priority d ≤ priority e)
first_match-first test [] m s h = cc
first_match-first test (d ∷ ds) m (below, s) h = elim (Option-cases (test d)) [
  | inl none_here ↦
      let (d', i, t, least) = first_match-first test ds m s (rw none_here at h) in
      (d', there i, t, least_there d d' ds test none_here least)
  | inr (m', found) ↦ (d, here refl, found ∙ (rw found at h), least_here d ds test below)
]

-- ===== src/Router/Order.antt =====
-- The order in which the children of a route are tried: `priority` and the stable sort by it
-- (kit/src/router/matcher.ts). `Array.prototype.sort` is stable, so it is an insertion sort here.
use vais_lang.Prelude.{
  refl, inl, inr, arith, leb→le, Bool-cases, All-map, subst, here, there, In, ◌≤◌, ℕ, Option, none,
  some, List, [], ◌∷◌, Bool, true, false, leb, if◌then◌else◌, filter, last?, All,
}
use vais_lang.Router.Types.{
  SegmentType, static, dynamic, catch_all, group, RouteSegment, RouteDefinition, info,
}

abbrev pub not_group : RouteSegment → Bool
not_group s = elim s.type [ group ↦ false | _ ↦ true ]

-- `segments.filter((s) => s.type !== "group")`, and the last of these
abbrev pub own_segment : RouteDefinition → Option RouteSegment
own_segment n = last? (filter not_group (info n).segments)

abbrev pub rank : SegmentType → ℕ
rank static = 0
rank dynamic = 1
rank catch_all = 2
rank group = 3

unfoldable pub priority : RouteDefinition → ℕ
priority n = elim (own_segment n) [ none ↦ 1 | some own ↦ rank own.type ]

-- A child goes in front of those of its own priority or a larger one, which come after it.
pub insert : RouteDefinition → List RouteDefinition → List RouteDefinition
insert c [] = c ∷ []
insert c (d ∷ ds) =
    let rest = insert c ds in if leb (priority c) (priority d) then c ∷ d ∷ ds else d ∷ rest

unfoldable pub sort : List RouteDefinition → List RouteDefinition
unfolding insert
sort [] = []
sort (c ∷ cs) = insert c (sort cs)

module _ {ℓ} (P : RouteDefinition → Type ℓ) where
  insert-All :
      (c : RouteDefinition) (ds : List RouteDefinition) → P c → All P ds → All P (insert c ds)
  unfolding insert
  insert-All c [] p h = (p, tt)
  insert-All c (d ∷ ds) p (q, h) =
      elim (leb (priority c) (priority d))
        as (λ b. All P (if b then c ∷ d ∷ ds else d ∷ insert c ds)) [
          | true ↦ (p, (q, h))
          | false ↦ (q, insert-All c ds p h)
        ]

  pub sort-All : (cs : List RouteDefinition) → All P cs → All P (sort cs)
  unfolding sort
  sort-All [] h = tt
  sort-All (c ∷ cs) (p, h) = insert-All c (sort cs) p (sort-All cs h)

insert-In_new : (c : RouteDefinition) (ds : List RouteDefinition) → In c (insert c ds)
unfolding insert
insert-In_new c [] = here refl
insert-In_new c (d ∷ ds) =
    elim (leb (priority c) (priority d))
      as (λ b. In c (if b then c ∷ d ∷ ds else d ∷ insert c ds)) [
        | true ↦ here refl
        | false ↦ there (insert-In_new c ds)
      ]

In-cons :
    {e d : RouteDefinition} {ds ds' : List RouteDefinition}
    → (In e ds → In e ds')
    → In e (d ∷ ds)
    → In e (d ∷ ds')
In-cons f (here p) = here p
In-cons f (there i) = there (f i)

insert-In_old :
    (c : RouteDefinition) {e : RouteDefinition} (ds : List RouteDefinition)
    → In e ds
    → In e (insert c ds)
unfolding insert
insert-In_old c [] i = there i
insert-In_old c {e} (d ∷ ds) i =
    elim (leb (priority c) (priority d))
      as (λ b. In e (if b then c ∷ d ∷ ds else d ∷ insert c ds)) [
        | true ↦ there i
        | false ↦ In-cons (insert-In_old c ds) i
      ]

-- The sort loses no child.
pub sort-In : {e : RouteDefinition} (cs : List RouteDefinition) → In e cs → In e (sort cs)
unfolding sort
sort-In [] i = elim i [ ]
sort-In {e} (c ∷ cs) (here p) = subst (λ x. In x (insert c (sort cs))) p (insert-In_new c (sort cs))
sort-In (c ∷ cs) (there i) = insert-In_old c (sort cs) (sort-In cs i)

-- Each child before those of its own priority or a larger one.
abbrev pub IsSorted : List RouteDefinition → Type 0
IsSorted [] = Unit
IsSorted (c ∷ cs) = All (λ d. priority c ≤ priority d) cs × IsSorted cs

insert-IsSorted :
    (c : RouteDefinition) (ds : List RouteDefinition) → IsSorted ds → IsSorted (insert c ds)
unfolding insert
insert-IsSorted c [] h = (tt, tt)
insert-IsSorted c (d ∷ ds) (below, h) = elim (Bool-cases (leb (priority c) (priority d))) [
  | inl e ↦ rw e (
    (
      omega (arith, leb→le (priority c) (priority d) e),
      All-map _ _ (λ x k. omega (arith, leb→le (priority c) (priority d) e)) ds below,
    ),
    (below, h),
  )
  | inr e ↦
      rw e (
        insert-All (λ x. priority d ≤ priority x) c ds (ground arith) below,
        insert-IsSorted c ds h,
      )
]

pub sort-IsSorted : (cs : List RouteDefinition) → IsSorted (sort cs)
unfolding sort
sort-IsSorted [] = tt
sort-IsSorted (c ∷ cs) = insert-IsSorted c (sort cs) (sort-IsSorted cs)

-- ===== src/Router/Matcher/Preferred.antt =====
-- A path of a match on trees without route groups, with the child that is taken at each of its nodes and
-- the children that the URL could also follow: what kit/src/router/matcher.ts is to find.
use vais_lang.Prelude.{◌≡◌, String, some, List, [], ◌∷◌, In}
use vais_lang.Router.Types.{
  SegmentType, static, dynamic, catch_all, RouteDefinition, RouteSegment, RouteParams, info,
  children,
}
use vais_lang.Router.Order.{own_segment}
use vais_lang.Router.Matcher.{push_layout, consume}
use vais_lang.Router.Matcher.Consistent.{Follows}

-- A segment of the first type may go before one of the second: static segments go before dynamic ones,
-- and these before catch-alls.
abbrev pub NotAfter : SegmentType → SegmentType → Type 0
NotAfter dynamic static = ⊥
NotAfter catch_all static = ⊥
NotAfter catch_all dynamic = ⊥
NotAfter _ _ = Unit

-- The segments of two nodes, the first of which may go before the second.
abbrev pub GoesFirst : RouteDefinition → RouteDefinition → Type 0
GoesFirst d e =
    (a : RouteSegment) × (b : RouteSegment) × (own_segment d ≡ some a)
    × (own_segment e ≡ some b)
    × NotAfter a.type b.type

-- The URL can be followed from the node on.
abbrev pub LeadsOn : List String → List String → RouteParams → RouteDefinition → Type 0
LeadsOn urls layouts ps e =
    (r : RouteDefinition) × (out : RouteParams) × (chain : List String) × Follows urls e layouts ps
      r out chain

-- No child from which the URL can be followed has a segment that goes before the one of `d`.
abbrev pub IsPreferred :
    List String → List String → RouteParams → List RouteDefinition → RouteDefinition → Type 0
IsPreferred urls layouts ps cs d =
    (e : RouteDefinition) → In e cs → LeadsOn urls layouts ps e → GoesFirst d e

-- A path as in `Follows`, on which the child taken is preferred at each node.
pub data FollowsBest
    : List String
      → RouteDefinition
      → List String
      → RouteParams
      → RouteDefinition
      → RouteParams
      → List String
      → Type 0 where
  best_end :
      {urls : List String} {c : RouteDefinition} {layouts : List String} {ps ps' : RouteParams}
      (own : RouteSegment)
      → own_segment c ≡ some own
      → consume own urls ps ≡ some (ps', [])
      → FollowsBest urls c layouts ps c ps' (push_layout (info c).layout layouts)
  best_child :
      {urls : List String} {c : RouteDefinition} {layouts : List String} {ps : RouteParams}
      {r : RouteDefinition} {out : RouteParams} {chain : List String} (own : RouteSegment)
      (ps' : RouteParams) (u : String) (rest : List String) (d : RouteDefinition)
      → own_segment c ≡ some own
      → consume own urls ps ≡ some (ps', u ∷ rest)
      → In d (children c)
      → IsPreferred (u ∷ rest) (push_layout (info c).layout layouts) ps' (children c) d
      → FollowsBest (u ∷ rest) d (push_layout (info c).layout layouts) ps' r out chain
      → FollowsBest urls c layouts ps r out chain

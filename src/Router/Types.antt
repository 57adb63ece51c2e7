-- ===== src/Router/Types.antt =====
-- The route types of kit/src/types.ts. A `RouteDefinition` holds an array of its own type, so the
-- array is a type of the same block. `ref` stands for the object's identity, which `===` compares.
use vais_lang.Prelude.{
  ℕ, suc, ◌+◌, ◌≤◌, ◌<◌, String, Option, List, [], ◌∷◌, arith, Bool, nat_beq, All, ◌≡◌, refl,
}

pub data SegmentType : Type 0 where
  static dynamic catch_all group : SegmentType

pub record RouteSegment : Type 0 where
  pub type : SegmentType
  pub value : String

-- The fields of a route but for its children.
pub record RouteInfo : Type 0 where
  pub ref : ℕ
  pub pattern : String
  pub segments : List RouteSegment
  pub page : Option String
  pub layout : Option String
  pub error : Option String
  pub loading : Option String
  pub api_route : Option String
  pub middleware : List String

mutual
  pub data RouteDefinition : Type 0 where
    route : RouteInfo → RouteDefinitions → RouteDefinition

  pub data RouteDefinitions : Type 0 where
    nil : RouteDefinitions
    cons : RouteDefinition → RouteDefinitions → RouteDefinitions

-- The parts of a match.
pub data RouteParam : Type 0 where
  one : String → RouteParam
  many : List String → RouteParam

abbrev pub RouteParams : Type 0
RouteParams = List (String × RouteParam)

pub record MatchResult : Type 0 where
  pub params : RouteParams
  pub layout_chain : List String

pub record RouteMatch : Type 0 where
  pub route : RouteDefinition
  pub params : RouteParams
  pub layout_chain : List String

abbrev pub info : RouteDefinition → RouteInfo
info (route i cs) = i

abbrev pub to_list : RouteDefinitions → List RouteDefinition
to_list nil = []
to_list (cons c cs) = c ∷ to_list cs

abbrev pub from_list : List RouteDefinition → RouteDefinitions
from_list [] = nil
from_list (c ∷ cs) = cons c (from_list cs)

-- `node.children`
abbrev pub children : RouteDefinition → List RouteDefinition
children (route i cs) = to_list cs

pub to_list-from_list : (cs : List RouteDefinition) → to_list (from_list cs) ≡ cs
to_list-from_list [] = refl
to_list-from_list (c ∷ cs) = λ j. c ∷ to_list-from_list cs j

-- `a === b` on objects
abbrev pub same_ref : RouteDefinition → RouteDefinition → Bool
same_ref a b = nat_beq (info a).ref (info b).ref

-- The number of nodes of a tree bounds how deep a walk goes.
unfoldable mutual
  pub size : RouteDefinition → ℕ
  size (route i cs) = suc (size_all cs)

  pub size_all : RouteDefinitions → ℕ
  size_all nil = 0
  size_all (cons c cs) = size c + size_all cs

size_all-All :
    (n : ℕ) (cs : RouteDefinitions) → size_all cs ≤ n → All (λ c. size c ≤ n) (to_list cs)
unfolding size
size_all-All n nil h = tt
size_all-All n (cons c cs) h = (omega arith, size_all-All n cs (omega arith))

-- Every child is smaller than its parent.
pub children-All-size :
    (n : ℕ) (node : RouteDefinition) → size node ≤ suc n → All (λ c. size c ≤ n) (children node)
unfolding size
children-All-size n (route i cs) h = size_all-All n cs (omega arith)

pub size_pos : (node : RouteDefinition) → 0 < size node
unfolding size
size_pos (route i cs) = omega arith

-- A predicate that holds of a node and of all below it.
module _ {ℓ} (P : RouteDefinition → Type ℓ) where
  unfoldable mutual
    pub AllNodes : RouteDefinition → Type ℓ
    AllNodes (route i cs) = P (route i cs) × AllNodesIn cs

    pub AllNodesIn : RouteDefinitions → Type ℓ
    AllNodesIn nil = Unit
    AllNodesIn (cons c cs) = AllNodes c × AllNodesIn cs

  pub AllNodes-here : (c : RouteDefinition) → AllNodes c → P c
  unfolding AllNodes
  AllNodes-here (route i cs) h = h.0

  AllNodesIn-All : (cs : RouteDefinitions) → AllNodesIn cs → All AllNodes (to_list cs)
  unfolding AllNodes
  AllNodesIn-All nil h = tt
  AllNodesIn-All (cons c cs) (p, h) = (p, AllNodesIn-All cs h)

  pub AllNodes-children : (c : RouteDefinition) → AllNodes c → All AllNodes (children c)
  unfolding AllNodes
  AllNodes-children (route i cs) h = AllNodesIn-All cs h.1

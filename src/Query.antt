-- ===== src/Query.antt =====
-- db/src/query.ts: the builders of SELECT, INSERT, UPDATE and DELETE statements. A statement is a
-- list of pieces: text, and the numbers of its placeholders (`$1`, `$2`). `V` is the type of the
-- values; `none` among the parameters is `undefined`.
pub mod Builders
pub mod Numbered
pub mod Natural
mod Tests
use Prim.Native.Char.{code}
use Prim.Native.String
use vais_lang.Prelude.{
  ℕ, suc, ◌+◌, String, Option, none, some, List, [], ◌∷◌, ◌++◌, map, Bool, true, false, ◌&&◌, ◌||◌,
  not, if◌then◌else◌, head?, nat_beq,
}

pub data Piece : Type 0 where
  text : String → Piece
  placeholder : ℕ → Piece

pub data ComparisonOperator : Type 0 where
  equal not_equal less greater less_equal greater_equal like in_list : ComparisonOperator
  is_null is_not_null : ComparisonOperator

pub data ConditionConnector : Type 0 where
  and or : ConditionConnector

-- The argument `value?: unknown` of a condition.
pub data Argument (V : Type 0) : Type 0 where
  absent : Argument V
  single : V → Argument V
  many : List V → Argument V

pub record Condition (V : Type 0) : Type 0 where
  pub connector : ConditionConnector
  pub column : String
  pub op : ComparisonOperator
  pub params : List V

pub record SqlResult (V : Type 0) : Type 0 where
  pub sql : List Piece
  pub params : List (Option V)

-- `paramIndex` and `allParams`
pub record Numbering (V : Type 0) : Type 0 where
  pub param_index : ℕ
  pub all_params : List (Option V)

abbrev pub op_text : ComparisonOperator → String
op_text equal = "="
op_text not_equal = "!="
op_text less = "<"
op_text greater = ">"
op_text less_equal = "<="
op_text greater_equal = ">="
op_text like = "LIKE"
op_text in_list = "IN"
op_text is_null = "IS NULL"
op_text is_not_null = "IS NOT NULL"

abbrev pub connector_text : ConditionConnector → String
connector_text and = "AND"
connector_text or = "OR"

-- `names.join(", ")`
abbrev pub comma : List String → List Piece
comma [] = []
comma (n ∷ []) = text n ∷ []
comma (n ∷ ns) = text n ∷ text ", " ∷ comma ns

-- Whether `.` of a regular expression does not match the character.
abbrev pub is_line_end : ℕ → Bool
is_line_end c = nat_beq c 10 || nat_beq c 13 || nat_beq c 0x2028 || nat_beq c 0x2029

abbrev pub on_one_line : String → Bool
on_one_line String.[] = true
on_one_line (String.◌∷◌ c s) = not (is_line_end (code c)) && on_one_line s

abbrev pub is_empty : String → Bool
is_empty String.[] = true
is_empty (String.◌∷◌ c s) = false

-- Whether `/^__PENDING__:(.+):(.+)$/` matches the fragment of a column. No operator has a colon, so
-- the groups are the column and the operator again.
unfoldable pub matches_pending : String → Bool
matches_pending column = not (is_empty column) && on_one_line column

module _ {V : Type 0} where
  abbrev pub params_of : Argument V → List V
  params_of absent = []
  params_of (single v) = v ∷ []
  params_of (many vs) = vs

  -- `arr.map(() => `$${paramIndex++}`).join(", ")`
  abbrev pub placeholders : ℕ → List V → List Piece
  placeholders i [] = []
  placeholders i (v ∷ []) = placeholder i ∷ []
  placeholders i (v ∷ vs) = placeholder i ∷ text ", " ∷ placeholders (suc i) vs

  abbrev pub count_from : ℕ → List V → ℕ
  count_from i [] = i
  count_from i (v ∷ vs) = count_from (suc i) vs

  -- An operator with one value: `cond.params[0]`, which may be missing.
  abbrev pub resolve_single :
      ComparisonOperator → String → List V → Numbering V → List Piece × Numbering V
  resolve_single op column params s = (
    text column ∷ text " " ∷ text (op_text op) ∷ text " " ∷ placeholder s.param_index ∷ [],
    record { param_index = s.param_index + 1; all_params = s.all_params ++ head? params ∷ [] },
  )

  -- The branches on the operator, the same in all builders.
  abbrev pub resolve_as :
      ComparisonOperator → String → List V → Numbering V → List Piece × Numbering V
  resolve_as is_null column params s = (text column ∷ text " IS NULL" ∷ [], s)
  resolve_as is_not_null column params s = (text column ∷ text " IS NOT NULL" ∷ [], s)
  resolve_as in_list column params s = (
    text column ∷ text " IN (" ∷ placeholders s.param_index params ++ text ")" ∷ [],
    record {
      param_index = count_from s.param_index params;
      all_params = s.all_params ++ map some params;
    },
  )
  resolve_as op column params s = resolve_single op column params s

  unfoldable pub resolve_op : Condition V → Numbering V → List Piece × Numbering V
  resolve_op c s = resolve_as c.op c.column c.params s

  -- One condition of a QueryBuilder. Where the pattern does not match its fragment, the fragment
  -- stands in the statement as it is.
  unfoldable pub resolve_pending : Condition V → Numbering V → List Piece × Numbering V
  unfolding resolve_op matches_pending
  resolve_pending c s = if matches_pending c.column then resolve_op c s else (
    text "__PENDING__:" ∷ text c.column ∷ text ":" ∷ text (op_text c.op) ∷ [],
    record s { all_params = s.all_params ++ map some c.params },
  )

  module _ (resolve : Condition V → Numbering V → List Piece × Numbering V) where
    -- `conditions.map(...)`
    unfoldable pub resolve_conditions :
        List (Condition V) → Numbering V → List (List Piece) × Numbering V
    resolve_conditions [] s = ([], s)
    resolve_conditions (c ∷ cs) s =
        let (fragment, t) = resolve c s in
        let (fragments, u) = resolve_conditions cs t in (fragment ∷ fragments, u)

  abbrev pub connect_rest : List (Condition V) → List (List Piece) → List Piece
  connect_rest (c ∷ cs) (f ∷ fs) =
      text " " ∷ text (connector_text c.connector) ∷ text " " ∷ (f ++ connect_rest cs fs)
  connect_rest cs fs = []

  -- `fragments.reduce(...)`: the first fragment stands without its connector.
  unfoldable pub connect : List (Condition V) → List (List Piece) → List Piece
  connect (c ∷ cs) (f ∷ fs) = f ++ connect_rest cs fs
  connect cs fs = []

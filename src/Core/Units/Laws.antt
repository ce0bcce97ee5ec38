-- ===== src/Core/Units/Laws.antt =====
-- The walk up the parents ends, and what passes the checks is a forest.
use codex_context_guard.Base.{
  ℕ, zero, suc, ◌<◌, ◌≡◌, ◌≢◌, ◌↔◌, refl, Bool, true, Option, none, some, List, [], ◌∷◌, arith,
  Text, contains, text_eq, length, ok, Bool-cases, Option-cases, inl, inr, All,
}
use codex_context_guard.Core.Index.{has, ids, distinct}
use codex_context_guard.Core.Index.Laws.{outside, outside_visit, outside-le-length}
use codex_context_guard.Core.Closure.{closure}
use codex_context_guard.Core.Closure.Laws.{Under, closure_iff}
use codex_context_guard.Core.Spans.{get_source}
use codex_context_guard.Core.Model.{Source, WorkUnit}
use codex_context_guard.Core.Kinds.{source_kind_eq}
use codex_context_guard.Core.Units.{
  get_unit, walk, parents_valid, unit_source_valid, check_rows, project_units, or_invalid,
}

abbrev unit_id : WorkUnit → Text
unit_id u = u.id

-- The parents of a row end at a row that has none.
pub data IsRooted (rows : List WorkUnit) : Option Text → Type 0 where
  top : {o : Option Text} → o ≡ none → IsRooted rows o
  above :
      {o : Option Text} (parent : Text) (row : WorkUnit)
      → o ≡ some parent
      → get_unit parent rows ≡ some row
      → IsRooted rows row.parent_id
      → IsRooted rows o

walk_total :
    (fuel : ℕ) (visited : List Text) (o : Option Text) (rows : List WorkUnit)
    → outside unit_id visited rows < fuel
    → walk fuel visited o rows ≢ none
unfolding walk
walk_total fuel visited none rows h e = cc
walk_total zero visited (some p) rows h e = absurd (omega arith)
walk_total (suc fuel) visited (some p) rows h e = elim (Option-cases (get_unit p rows)) [
  | inl missing ↦ cc (rw (missing, walk) at e)
  | inr (row, found) ↦ elim (Bool-cases (contains visited p)) [
    | inl seen ↦ ground arith
    | inr new ↦
        walk_total fuel (p ∷ visited) row.parent_id rows
          (omega (arith, outside_visit unit_id visited rows p row found new)) (ground arith)
  ]
]

walk-IsRooted :
    (fuel : ℕ) (visited : List Text) (o : Option Text) (rows : List WorkUnit)
    → walk fuel visited o rows ≡ some true
    → IsRooted rows o
unfolding walk
walk-IsRooted fuel visited none rows e = IsRooted.top refl
walk-IsRooted zero visited (some p) rows e = cc
walk-IsRooted (suc fuel) visited (some p) rows e = elim (Option-cases (get_unit p rows)) [
  | inl missing ↦ ground arith
  | inr (row, found) ↦
      IsRooted.above p row refl found
        (walk-IsRooted fuel (p ∷ visited) row.parent_id rows (ground arith))
]

-- The walk from any row ends within its fuel, so that `or_invalid` never stands for exhaustion.
pub walk-ne-none :
    (visited : List Text) (o : Option Text) (rows : List WorkUnit)
    → walk (suc (length rows)) visited o rows ≢ none
walk-ne-none visited o rows =
    walk_total (suc (length rows)) visited o rows
      (omega (arith, outside-le-length unit_id visited rows))

or_invalid-true : (o : Option Bool) → or_invalid o ≡ true → o ≡ some true
or_invalid-true none h = cc
or_invalid-true (some b) h = cc

parents_valid-IsRooted :
    (row : WorkUnit) (rows : List WorkUnit)
    → parents_valid row rows ≡ true
    → IsRooted rows row.parent_id
unfolding parents_valid
parents_valid-IsRooted row rows h =
    walk-IsRooted (suc (length rows)) (row.id ∷ []) row.parent_id rows (or_invalid-true _ h)

check_rows-cons :
    (sources : List Source) (rows rest : List WorkUnit) (row : WorkUnit)
    → check_rows sources rows (row ∷ rest) ≡ ok tt
    → (unit_source_valid row (get_source row.source_id sources) ≡ true)
      × (parents_valid row rows ≡ true)
      × (check_rows sources rows rest ≡ ok tt)
unfolding check_rows
check_rows-cons sources rows rest row h = ground arith

-- A unit row that passes the checks: it stems from a root source of its own unit, and its parents
-- end at a row that has none.
abbrev pub IsPlaced : List Source → List WorkUnit → WorkUnit → Type 0
IsPlaced sources rows row =
    (unit_source_valid row (get_source row.source_id sources) ≡ true) × IsRooted rows row.parent_id

check_rows-IsPlaced :
    (sources : List Source) (rows rest : List WorkUnit)
    → check_rows sources rows rest ≡ ok tt
    → All (IsPlaced sources rows) rest
check_rows-IsPlaced sources rows [] h = tt
check_rows-IsPlaced sources rows (r ∷ rest) h =
    let (source, parents, later) = check_rows-cons sources rows rest r h in
    ((source, parents_valid-IsRooted r rows parents), check_rows-IsPlaced sources rows rest later)

-- The units of a projection, as a forest.
pub record IsForest (unit : Text) (sources : List Source) (rows : List WorkUnit) (units : List Text)
    : Type 0 where
  pub unique : distinct (ids unit_id rows) ≡ true
  pub listed : has unit_id unit rows ≡ true
  pub placed : All (IsPlaced sources rows) rows
  pub exact :
      (k : Text)
      → (contains units k ≡ true)
        ↔ Under unit_id (λ u. u.parent_id) (λ u. u.required) (unit ∷ []) rows k

project_units_parts :
    (unit : Text) (sources : List Source) (rows : List WorkUnit) {units : List Text}
    → project_units unit sources rows ≡ ok units
    → (distinct (ids unit_id rows) ≡ true)
      × (has unit_id unit rows ≡ true)
      × (check_rows sources rows rows ≡ ok tt)
      × (closure unit_id (λ u. u.parent_id) (λ u. u.required) (unit ∷ []) rows ≡ units)
unfolding project_units
project_units_parts unit sources rows h = ground arith

-- When `project` accepts the units, the unit is one of the rows, the rows have ids of their own,
-- every row stems from a root source of its own unit, the parents of every row end at a row that has
-- none, and the units are exactly those that hang under the unit by required rows.
pub project_units-IsForest :
    (unit : Text) (sources : List Source) (rows : List WorkUnit) (units : List Text)
    → project_units unit sources rows ≡ ok units
    → IsForest unit sources rows units
project_units-IsForest unit sources rows units h =
    let (unique, listed, checked, closed) = project_units_parts unit sources rows h in
    record {
      unique = unique;
      listed = listed;
      placed = check_rows-IsPlaced sources rows rows checked;
      exact = λ k.
          rw (← closed)
            (closure_iff unit_id (λ u. u.parent_id) (λ u. u.required) (unit ∷ []) rows k);
    }

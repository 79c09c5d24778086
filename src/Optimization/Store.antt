-- ===== src/Optimization/Store.antt =====
-- The tables `optimizations` and `optimization_candidates` behind `DuckDBOptimizationRepository`
-- (backend/app/infrastructure/db/optimization_repository.py), and the rows that its calls write. The
-- first is a function of its primary key; the second is the list of its rows. What DuckDB makes of a
-- decimal in a column `DECIMAL(18, 6)` is a parameter, none where it refuses it.
pub mod Rows
pub mod Laws
use idx_backtest_lab.Common.{
  ℕ, zero, suc, ◌≡◌, Bool, true, false, not, ◌&&◌, ◌||◌, Option, none, some, List, [], ◌∷◌, ◌++◌,
  String, Result, ok, err, ◌>>=◌, if◌then◌else◌, ltb, ◌==◌, length,
}
use idx_backtest_lab.Common.Int.{ℤ}
use idx_backtest_lab.Common.Text.{eqs}
use idx_backtest_lab.Common.Time.{Datetime}
use idx_backtest_lab.Manifest.Classes.{Decimal}
use idx_backtest_lab.Run.Store.{coalesce, in_utc}
use idx_backtest_lab.Optimization.Status.{OptimizationStatus, ordinal, is_transition_allowed}
use idx_backtest_lab.Optimization.Records.{
  ObjectiveStatus, CandidateStatus, OptimizationCandidate, OptimizationManifest,
}
use idx_backtest_lab.Optimization.Store.Rows.{
  manifest_row, candidate_row, moved, CandidateResult, with_result, Selected, with_selection,
  HoldoutResult, with_holdout,
}

pub data Fault : Type 0 where
  optimization_not_found : String → Fault
  invalid_transition : (expected next_status : OptimizationStatus) → Fault
  stale_status : (expected actual : OptimizationStatus) → Fault
  constraint_violated : Fault
  decimal_refused : Fault

pub record Tables : Type 0 where
  pub optimizations : String → Option OptimizationManifest
  pub candidates : List OptimizationCandidate

unfoldable pub put : String → OptimizationManifest → Tables → Tables
put id m t = record {
  optimizations = λ j. if eqs id j then some m else t.optimizations j;
  candidates = t.candidates;
}

-- A row of the candidates has the primary key of another, or its optimization and sequence.
unfoldable pub clashes : OptimizationCandidate → List OptimizationCandidate → Bool
clashes c [] = false
clashes c (d ∷ ds) =
    let rest = clashes c ds in
    eqs c.candidate_id d.candidate_id
    || eqs c.optimization_id d.optimization_id && c.sequence == d.sequence
    || rest

-- The rows that are inserted one after the other, none where one of them clashes.
unfoldable pub insert_candidates :
    List OptimizationCandidate → List OptimizationCandidate → Option (List OptimizationCandidate)
unfolding candidate_row
insert_candidates [] rows = some rows
insert_candidates (c ∷ cs) rows =
    let rest = insert_candidates cs (rows ++ candidate_row c ∷ []) in
    if clashes c rows then none else rest

-- The `INSERT` of the candidates after that of the optimization, and the end of the transaction.
unfoldable pub commit :
    Tables
    → String
    → OptimizationManifest
    → Option (List OptimizationCandidate)
    → Result Fault (Unit {0}) × Tables
unfolding put
commit t id row none = (err constraint_violated, t)
commit t id row (some rows) =
    (ok tt, record { optimizations = (put id row t).optimizations; candidates = rows })

-- The `INSERT` of the optimization.
unfoldable pub insert_optimization :
    Tables
    → OptimizationManifest
    → List OptimizationCandidate
    → Option OptimizationManifest
    → Result Fault (Unit {0}) × Tables
insert_optimization t row cs (some old) = (err constraint_violated, t)
insert_optimization t row cs none =
    commit t row.optimization_id row (insert_candidates cs t.candidates)

-- The row with its four decimals in their columns.
unfoldable pub in_columns :
    (Decimal → Option Decimal) → OptimizationManifest → Option OptimizationManifest
unfolding manifest_row
in_columns column m =
    with_decimals (column m.capital_amount) (column m.position_sizing_fraction)
      (column m.quantity_increment) (column m.risk_free_rate)
  where
    with_decimals : (capital fraction increment rate : Option Decimal) → Option OptimizationManifest
    with_decimals (some capital) (some fraction) (some increment) (some rate) =
        some (manifest_row capital fraction increment rate m)
    with_decimals capital fraction increment rate = none

unfoldable pub insert_row :
    (String → Bool)
    → (String → Bool)
    → Tables
    → List OptimizationCandidate
    → Option OptimizationManifest
    → Result Fault (Unit {0}) × Tables
insert_row dataset_exists instrument_exists t cs none = (err decimal_refused, t)
insert_row dataset_exists instrument_exists t cs (some row) =
    if dataset_exists row.dataset_id && instrument_exists row.instrument_id
    then insert_optimization t row cs (t.optimizations row.optimization_id)
    else (err constraint_violated, t)

-- `create`, by which datasets and instruments there are. What raises is rolled back.
unfoldable pub create :
    (Decimal → Option Decimal)
    → (dataset_exists instrument_exists : String → Bool) → Tables
    → OptimizationManifest
    → List OptimizationCandidate
    → Result Fault (Unit {0}) × Tables
create column dataset_exists instrument_exists t m cs =
    insert_row dataset_exists instrument_exists t cs (in_columns column m)

-- `get`
unfoldable pub get : Tables → String → Option OptimizationManifest
get t id = t.optimizations id

-- `WHERE optimization_id = ?`
unfoldable pub candidates_of : String → List OptimizationCandidate → List OptimizationCandidate
candidates_of id [] = []
candidates_of id (c ∷ cs) =
    let rest = candidates_of id cs in if eqs c.optimization_id id then c ∷ rest else rest

-- `ORDER BY sequence`
unfoldable pub insert_by_sequence :
    OptimizationCandidate → List OptimizationCandidate → List OptimizationCandidate
insert_by_sequence c [] = c ∷ []
insert_by_sequence c (d ∷ ds) =
    let rest = insert_by_sequence c ds in if ltb d.sequence c.sequence then d ∷ rest else c ∷ d ∷ ds

unfoldable pub by_sequence : List OptimizationCandidate → List OptimizationCandidate
unfolding insert_by_sequence
by_sequence [] = []
by_sequence (c ∷ cs) = insert_by_sequence c (by_sequence cs)

-- `LIMIT` and `OFFSET`
unfoldable pub page_of :
    (limit offset : ℕ) → List OptimizationCandidate → List OptimizationCandidate
page_of limit (suc offset) (c ∷ cs) = page_of limit offset cs
page_of (suc limit) zero (c ∷ cs) = c ∷ page_of limit zero cs
page_of limit offset cs = []

-- `list_candidates`: its items and its total.
unfoldable pub list_candidates :
    Tables → String → (limit offset : ℕ) → List OptimizationCandidate × ℕ
list_candidates t id limit offset =
    let rows = candidates_of id t.candidates in
    (page_of limit offset (by_sequence rows), length rows)

-- The `UPDATE` on a row of that id, and the error where it finds none with the expected status.
unfoldable pub update_row :
    Tables
    → String
    → (expected next_status : OptimizationStatus) (started finished : Option Datetime)
      (code : Option String)
    → Option OptimizationManifest
    → Result Fault OptimizationManifest × Tables
update_row t id expected next_status started finished code none =
    (err (optimization_not_found id), t)
update_row t id expected next_status started finished code (some m) =
    let row = moved next_status started finished code m in
    if ordinal m.status == ordinal expected
    then (ok row, put id row t)
    else (err (stale_status expected m.status), t)

-- `transition_status`
unfoldable pub transition_status :
    Tables
    → String
    → (expected next_status : OptimizationStatus) (started finished : Option Datetime)
      (code : Option String)
    → Result Fault OptimizationManifest × Tables
transition_status t id expected next_status started finished code =
    if is_transition_allowed expected next_status
    then update_row t id expected next_status started finished code (t.optimizations id)
    else (err (invalid_transition expected next_status), t)

-- The rows after an `UPDATE ... WHERE candidate_id = ?`.
unfoldable pub update_candidates :
    String → CandidateResult → List OptimizationCandidate → List OptimizationCandidate
unfolding with_result
update_candidates id r [] = []
update_candidates id r (c ∷ cs) =
    let rest = update_candidates id r cs in
    (if eqs c.candidate_id id then with_result r c else c) ∷ rest

-- `record_candidate_result`
unfoldable pub record_candidate_result : Tables → String → CandidateResult → Tables
record_candidate_result t id r = record {
  optimizations = t.optimizations;
  candidates = update_candidates id r t.candidates;
}

unfoldable pub changed_row :
    (OptimizationManifest → OptimizationManifest)
    → Option OptimizationManifest
    → Option OptimizationManifest
changed_row change none = none
changed_row change (some m) = some (change m)

-- An `UPDATE ... WHERE optimization_id = ?`, which changes nothing where there is no such row.
unfoldable pub update_optimization :
    String → (OptimizationManifest → OptimizationManifest) → Tables → Tables
unfolding changed_row
update_optimization id change t = record {
  optimizations =
      λ j. if eqs id j then changed_row change (t.optimizations j) else t.optimizations j;
  candidates = t.candidates;
}

-- `record_selection`
unfoldable pub record_selection : Tables → String → Selected → Tables
record_selection t id s = update_optimization id (with_selection s) t

-- `record_holdout_result`
unfoldable pub record_holdout_result : Tables → String → HoldoutResult → Tables
record_holdout_result t id h = update_optimization id (with_holdout h) t

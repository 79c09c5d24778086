-- ===== src/Optimization/Services.antt =====
-- What `execute_optimization` calls, and the pure parts of
-- backend/app/application/execute_optimization_service.py: its faults, its request for a run, and the
-- inputs of the selection.
use idx_backtest_lab.Common.{
  ℕ, Bool, Option, none, some, List, [], ◌∷◌, String, Result, if◌then◌else◌, ◌==◌,
}
use idx_backtest_lab.Common.Int.{ℤ}
use idx_backtest_lab.Common.Text.{eqs}
use idx_backtest_lab.Common.Time.{Date, Datetime}
use idx_backtest_lab.Common.Json.{int, text, Fields, done, field}
use idx_backtest_lab.Manifest.Classes.{Decimal}
use idx_backtest_lab.Execution.{ExecutionResult}
use idx_backtest_lab.Strategy.Spec.{StrategySpecV1, Request}
use idx_backtest_lab.Run.Record.{RunManifest}
use idx_backtest_lab.Artifact.Metrics.{MetricRecord, MetricValue}
use idx_backtest_lab.Optimization.Status.{OptimizationStatus, ordinal}
use idx_backtest_lab.Optimization.Records.{
  candidate_completed, same_candidate_status, ObjectiveStatus, available, OptimizationCandidate,
}
use idx_backtest_lab.Optimization.Selection.{CandidateSelectionInput}
use idx_backtest_lab.Optimization.Store as Store
use idx_backtest_lab.Optimization.Store.{
  Tables, get, list_candidates, transition_status, record_candidate_result, record_selection,
  record_holdout_result,
}

pub data ServiceFault : Type 0 where
  repository : Store.Fault → ServiceFault
  optimization_not_found : ServiceFault
  optimization_not_eligible : OptimizationStatus → ServiceFault
  service_raised : String → ServiceFault
  stop_iteration assertion_error : ServiceFault

-- `CreateRunManifestRequest`
pub record CreateRunManifestRequest : Type 0 where
  pub strategy_id : String
  pub strategy_version : ℤ
  pub dataset_id : String
  pub instrument_ids : List String
  pub start_date : Date
  pub end_date : Date
  pub capital_amount : String
  pub capital_currency : String
  pub position_sizing_fraction : String
  pub quantity_increment : String
  pub money_scale : ℤ
  pub annualization_basis : ℤ
  pub risk_free_rate : String

-- The other services, over the state `W` of the other repositories, and what is read from outside.
pub record Services (W : Type 0) : Type 0 where
  pub create_strategy_spec : Request → W → Result String StrategySpecV1 × W
  pub create_run_manifest : CreateRunManifestRequest → W → Result String RunManifest × W
  pub execute_backtest_run : String → W → Result String ExecutionResult × W
  pub list_metrics : W → String → List MetricRecord
  pub count_warnings : W → String → ℕ
  pub in_units : MetricValue → ℤ
  pub str_decimal : Decimal → String
  pub str_int : ℤ → String
  pub audit_json : List OptimizationCandidate → String
  pub started_at : Datetime
  pub failed_at : Datetime
  pub selected_at : Datetime
  pub finished_at : Datetime

-- The members of the enumeration are equal.
unfoldable pub has_status : OptimizationStatus → OptimizationStatus → Bool
unfolding ordinal
has_status s t = ordinal s == ordinal t

-- The parameters of a candidate's strategy, and its name.
unfoldable pub crossover_fields : OptimizationCandidate → Fields
crossover_fields c =
    field "fast_window" (int c.fast_window)
      (field "slow_window" (int c.slow_window) (field "price_field" (text "close") done))

-- The metric of the key.
unfoldable pub find_metric : String → List MetricRecord → Option MetricRecord
find_metric key [] = none
find_metric key (m ∷ ms) =
    let rest = find_metric key ms in if eqs m.metric_key key then some m else rest

-- `next(candidate for candidate in candidates if candidate.candidate_id == id)`
unfoldable pub find_candidate : String → List OptimizationCandidate → Option OptimizationCandidate
find_candidate id [] = none
find_candidate id (c ∷ cs) =
    let rest = find_candidate id cs in if eqs c.candidate_id id then some c else rest

-- `Decimal(candidate.objective_value)` where there is an available one.
unfoldable pub available_value : Option ObjectiveStatus → Option ℤ → Option ℤ
available_value (some available) value = value
available_value status value = none

unfoldable pub input_of : OptimizationCandidate → CandidateSelectionInput
unfolding available_value
input_of c = record {
  candidate_id = c.candidate_id;
  fast_window = c.fast_window;
  slow_window = c.slow_window;
  objective_value = available_value c.objective_status c.objective_value;
}

-- The list comprehension of `_select_candidate`.
unfoldable pub selection_inputs : List OptimizationCandidate → List CandidateSelectionInput
unfolding input_of
selection_inputs [] = []
selection_inputs (c ∷ cs) =
    let rest = selection_inputs cs in
    if same_candidate_status c.status candidate_completed then input_of c ∷ rest else rest

-- What a run leaves of the objective: its status, its value and the reason without one.
abbrev pub Objective : Type 0
Objective = ObjectiveStatus × (Option ℤ × Option String)

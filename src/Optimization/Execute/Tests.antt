-- ===== src/Optimization/Execute/Tests.antt =====
-- An optimization of one candidate whose runs complete.
use idx_backtest_lab.Common.{◌+◌, ◌≡◌, refl, true, none, some, [], ◌∷◌, Result, ok, err}
use idx_backtest_lab.Common.Int.{ℤ, pos, ◌-ℤ◌}
use idx_backtest_lab.Common.Text.{text_lt}
use idx_backtest_lab.Common.Sorted.{min_by}
use idx_backtest_lab.Common.Action.{
  ◌>>=◌, ◌>>◌, then_do, read, write, give, fail, except_then, clean_up,
}
use idx_backtest_lab.Run.Store.{coalesce, in_utc}
use idx_backtest_lab.Common.Time.{Datetime}
use idx_backtest_lab.Manifest.Tests.{half, hundred}
use idx_backtest_lab.Strategy.Tests.{spec}
use idx_backtest_lab.Run.Tests.{new_run}
use idx_backtest_lab.Execution as Engine
use idx_backtest_lab.Execution.{ExecutionResult}
use idx_backtest_lab.Artifact.Metrics.{MetricValue, amount, available_metric}
use idx_backtest_lab.Optimization.Status.{
  created, ordinal, member, allowed_transitions, is_transition_allowed,
}
use idx_backtest_lab.Optimization.Records.{
  candidate_pending, candidate_ordinal, same_candidate_status, OptimizationCandidate,
  OptimizationManifest,
}
use idx_backtest_lab.Optimization.Selection.{select_candidate}
use idx_backtest_lab.Optimization.Store.Rows.{
  stored_time, moved, with_result, with_selection, with_holdout,
}
use idx_backtest_lab.Optimization.Store.{
  Tables, put, get, candidates_of, insert_by_sequence, by_sequence, page_of, list_candidates,
  update_row, transition_status, update_candidates, record_candidate_result, changed_row,
  update_optimization, record_selection, record_holdout_result,
}
use idx_backtest_lab.Optimization.Store.Laws.{AllLive}
use idx_backtest_lab.Optimization.Services.{
  ServiceFault, Services, has_status, crossover_fields, find_metric, find_candidate,
  available_value, input_of, selection_inputs,
}
use idx_backtest_lab.Optimization.Execute.{
  beside_tables, from_service, beside_world, from_repository, transition, update, run_period,
  objective_of, objective_from_run, try_fail, candidate_result, after_validation, after_train,
  execute_candidate, execute_pending, run_train_validation_phase, selection, select_best, asserted,
  stored, holdout_objective, run_holdout, run_selected, after_selection, execute_eligible,
  execute_found, execute_optimization,
}
use idx_backtest_lab.Optimization.Execute.Laws.{execute_optimization-AllLive}
use idx_backtest_lab.Optimization.Execute.Outcome.{Concluded, execute_optimization-Concluded}

abbrev noon : Datetime
noon = record { instant = 10; is_aware = true }

abbrev completed_run : ExecutionResult
completed_run = record {
  metadata = record {
    adapter_name = "backtrader";
    adapter_version = "1";
    manifest_checksum = "sum";
    dataset_checksum = "content";
    ordering_policy = "stable_by_instrument_id";
    started_at_utc = noon;
    finished_at_utc = noon;
    event_count = 0;
  };
  order_events = [];
  fill_events = [];
  position_events = [];
  cash_events = [];
  warnings = [];
  terminal_status = Engine.completed;
  failure_code = none;
}

abbrev value_of : MetricValue → ℤ
value_of (amount a) = a
value_of v = pos 0

abbrev services : Services (Unit {0})
services = record {
  create_strategy_spec = λ request w. (ok spec, w);
  create_run_manifest = λ request w. (ok new_run, w);
  execute_backtest_run = λ id w. (ok completed_run, w);
  list_metrics = λ w id. available_metric "total_return" (amount (pos 7)) [] ∷ [];
  count_warnings = λ w id. 0;
  in_units = value_of;
  str_decimal = λ d. "1";
  str_int = λ n. "5";
  audit_json = λ candidates. "[]";
  started_at = noon;
  failed_at = noon;
  selected_at = noon;
  finished_at = noon;
}

abbrev manifest : OptimizationManifest
manifest = record {
  optimization_id = "opt";
  schema_version = pos 1;
  checksum = "sum";
  dataset_id = "data";
  instrument_id = "BBCA";
  base_strategy_name = "Crossover";
  fast_window_grid = pos 5 ∷ [];
  slow_window_grid = pos 20 ∷ [];
  train_start = 1;
  train_end = 2;
  validation_start = 3;
  validation_end = 4;
  holdout_start = 5;
  holdout_end = 6;
  capital_amount = hundred;
  capital_currency = "IDR";
  position_sizing_fraction = half;
  quantity_increment = hundred;
  money_scale = pos 2;
  annualization_basis = pos 252;
  risk_free_rate = half;
  objective_metric_key = "total_return";
  tie_break_rule = "rule";
  max_candidate_count = pos 10;
  candidate_count = 1;
  rejected_count = 0;
  manifest_json = "{}";
  status = created;
  created_at_utc = noon;
  failure_code = none;
  selected_candidate_id = none;
  selection_reason = none;
  selection_audit_json = none;
  selected_at_utc = none;
  holdout_run_id = none;
  holdout_objective_status = none;
  holdout_objective_value = none;
  holdout_objective_reason = none;
  started_at_utc = none;
  finished_at_utc = none;
}

abbrev candidate : OptimizationCandidate
candidate = record {
  candidate_id = "c1";
  optimization_id = "opt";
  sequence = 0;
  fast_window = pos 5;
  slow_window = pos 20;
  status = candidate_pending;
  created_at_utc = noon;
  rejection_reason = none;
  strategy_id = none;
  strategy_version = none;
  train_run_id = none;
  validation_run_id = none;
  objective_status = none;
  objective_value = none;
  objective_reason = none;
  warning_count = 0;
}

abbrev tables : Tables
tables = record { optimizations = λ id. some manifest; candidates = candidate ∷ [] }

execute_optimization-AllLive_example :
    AllLive tables (execute_optimization services "opt" (tt, tables)).1.1
execute_optimization-AllLive_example = execute_optimization-AllLive services "opt" tt tables

abbrev returned_or :
    OptimizationManifest → Result ServiceFault OptimizationManifest → OptimizationManifest
returned_or m (ok r) = r
returned_or m (err fault) = m

abbrev row : OptimizationManifest
row = returned_or manifest (execute_optimization services "opt" (tt, tables)).0

abbrev after : Unit {0} × Tables
after = (execute_optimization services "opt" (tt, tables)).1

execution_returns : execute_optimization services "opt" (tt, tables) ≡ (ok row, after)
unfolding execute_optimization ◌>>=◌ read execute_found get has_status execute_eligible ◌>>◌
    transition from_repository beside_world transition_status is_transition_allowed update_row put
    moved run_train_validation_phase except_then clean_up fail give then_do write ◌-ℤ◌ min_by
    text_lt after_selection after_train after_validation asserted available_value beside_tables
    candidate_result crossover_fields execute_candidate execute_pending find_candidate find_metric
    from_service holdout_objective input_of objective_from_run objective_of run_holdout run_period
    run_selected select_best selection selection_inputs stored try_fail update candidate_ordinal
    same_candidate_status select_candidate allowed_transitions member ordinal stored_time
    with_holdout with_result with_selection by_sequence candidates_of changed_row insert_by_sequence
    list_candidates page_of record_candidate_result record_holdout_result record_selection
    update_candidates update_optimization coalesce in_utc available_metric
execution_returns = refl

execute_optimization-Concluded_example :
    (m : OptimizationManifest) × (tables.optimizations "opt" ≡ some m)
    × (m.status ≡ created)
    × (after.1.optimizations "opt" ≡ some row)
    × Concluded services
        (list_candidates after.1 "opt" (m.candidate_count + m.rejected_count) 0).0
        row
execute_optimization-Concluded_example =
    execute_optimization-Concluded services "opt" tt tables after row execution_returns

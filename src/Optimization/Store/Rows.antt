-- ===== src/Optimization/Store/Rows.antt =====
-- The rows that the calls of `DuckDBOptimizationRepository`
-- (backend/app/infrastructure/db/optimization_repository.py) leave behind.
use idx_backtest_lab.Common.{ℕ, true, Option, some, String}
use idx_backtest_lab.Common.Int.{ℤ}
use idx_backtest_lab.Common.Time.{Datetime}
use idx_backtest_lab.Manifest.Classes.{Decimal}
use idx_backtest_lab.Run.Store.{coalesce, in_utc}
use idx_backtest_lab.Optimization.Status.{OptimizationStatus}
use idx_backtest_lab.Optimization.Records.{
  ObjectiveStatus, CandidateStatus, OptimizationCandidate, OptimizationManifest,
}

-- A time that is given has no zone in its column and comes back as UTC.
unfoldable pub stored_time : Datetime → Datetime
stored_time t = record { instant = t.instant; is_aware = true }

-- The row of a new optimization, with what its columns make of the decimals.
unfoldable pub manifest_row :
    (capital fraction increment rate : Decimal) → OptimizationManifest → OptimizationManifest
unfolding stored_time in_utc
manifest_row capital fraction increment rate m = record {
  optimization_id = m.optimization_id;
  schema_version = m.schema_version;
  checksum = m.checksum;
  dataset_id = m.dataset_id;
  instrument_id = m.instrument_id;
  base_strategy_name = m.base_strategy_name;
  fast_window_grid = m.fast_window_grid;
  slow_window_grid = m.slow_window_grid;
  train_start = m.train_start;
  train_end = m.train_end;
  validation_start = m.validation_start;
  validation_end = m.validation_end;
  holdout_start = m.holdout_start;
  holdout_end = m.holdout_end;
  capital_amount = capital;
  capital_currency = m.capital_currency;
  position_sizing_fraction = fraction;
  quantity_increment = increment;
  money_scale = m.money_scale;
  annualization_basis = m.annualization_basis;
  risk_free_rate = rate;
  objective_metric_key = m.objective_metric_key;
  tie_break_rule = m.tie_break_rule;
  max_candidate_count = m.max_candidate_count;
  candidate_count = m.candidate_count;
  rejected_count = m.rejected_count;
  manifest_json = m.manifest_json;
  status = m.status;
  created_at_utc = stored_time m.created_at_utc;
  failure_code = m.failure_code;
  selected_candidate_id = m.selected_candidate_id;
  selection_reason = m.selection_reason;
  selection_audit_json = m.selection_audit_json;
  selected_at_utc = in_utc m.selected_at_utc;
  holdout_run_id = m.holdout_run_id;
  holdout_objective_status = m.holdout_objective_status;
  holdout_objective_value = m.holdout_objective_value;
  holdout_objective_reason = m.holdout_objective_reason;
  started_at_utc = in_utc m.started_at_utc;
  finished_at_utc = in_utc m.finished_at_utc;
}

-- The row of a new candidate.
unfoldable pub candidate_row : OptimizationCandidate → OptimizationCandidate
unfolding stored_time
candidate_row c = record {
  candidate_id = c.candidate_id;
  optimization_id = c.optimization_id;
  sequence = c.sequence;
  fast_window = c.fast_window;
  slow_window = c.slow_window;
  status = c.status;
  created_at_utc = stored_time c.created_at_utc;
  rejection_reason = c.rejection_reason;
  strategy_id = c.strategy_id;
  strategy_version = c.strategy_version;
  train_run_id = c.train_run_id;
  validation_run_id = c.validation_run_id;
  objective_status = c.objective_status;
  objective_value = c.objective_value;
  objective_reason = c.objective_reason;
  warning_count = c.warning_count;
}

-- The row after the `UPDATE` of `transition_status`.
unfoldable pub moved :
    OptimizationStatus
    → (started finished : Option Datetime) (code : Option String) → OptimizationManifest
    → OptimizationManifest
unfolding coalesce in_utc
moved next_status started finished code m = record {
  optimization_id = m.optimization_id;
  schema_version = m.schema_version;
  checksum = m.checksum;
  dataset_id = m.dataset_id;
  instrument_id = m.instrument_id;
  base_strategy_name = m.base_strategy_name;
  fast_window_grid = m.fast_window_grid;
  slow_window_grid = m.slow_window_grid;
  train_start = m.train_start;
  train_end = m.train_end;
  validation_start = m.validation_start;
  validation_end = m.validation_end;
  holdout_start = m.holdout_start;
  holdout_end = m.holdout_end;
  capital_amount = m.capital_amount;
  capital_currency = m.capital_currency;
  position_sizing_fraction = m.position_sizing_fraction;
  quantity_increment = m.quantity_increment;
  money_scale = m.money_scale;
  annualization_basis = m.annualization_basis;
  risk_free_rate = m.risk_free_rate;
  objective_metric_key = m.objective_metric_key;
  tie_break_rule = m.tie_break_rule;
  max_candidate_count = m.max_candidate_count;
  candidate_count = m.candidate_count;
  rejected_count = m.rejected_count;
  manifest_json = m.manifest_json;
  status = next_status;
  created_at_utc = m.created_at_utc;
  failure_code = coalesce code m.failure_code;
  selected_candidate_id = m.selected_candidate_id;
  selection_reason = m.selection_reason;
  selection_audit_json = m.selection_audit_json;
  selected_at_utc = m.selected_at_utc;
  holdout_run_id = m.holdout_run_id;
  holdout_objective_status = m.holdout_objective_status;
  holdout_objective_value = m.holdout_objective_value;
  holdout_objective_reason = m.holdout_objective_reason;
  started_at_utc = coalesce (in_utc started) m.started_at_utc;
  finished_at_utc = coalesce (in_utc finished) m.finished_at_utc;
}

-- What `record_candidate_result` is given.
pub record CandidateResult : Type 0 where
  pub status : CandidateStatus
  pub strategy_id : Option String
  pub strategy_version : Option ℤ
  pub train_run_id : Option String
  pub validation_run_id : Option String
  pub objective_status : Option ObjectiveStatus
  pub objective_value : Option ℤ
  pub objective_reason : Option String
  pub warning_count : ℕ

-- The row after its `UPDATE`.
unfoldable pub with_result : CandidateResult → OptimizationCandidate → OptimizationCandidate
with_result r c = record {
  candidate_id = c.candidate_id;
  optimization_id = c.optimization_id;
  sequence = c.sequence;
  fast_window = c.fast_window;
  slow_window = c.slow_window;
  status = r.status;
  created_at_utc = c.created_at_utc;
  rejection_reason = c.rejection_reason;
  strategy_id = r.strategy_id;
  strategy_version = r.strategy_version;
  train_run_id = r.train_run_id;
  validation_run_id = r.validation_run_id;
  objective_status = r.objective_status;
  objective_value = r.objective_value;
  objective_reason = r.objective_reason;
  warning_count = r.warning_count;
}

-- What `record_selection` is given, and the row after its `UPDATE`.
pub record Selected : Type 0 where
  pub selected_candidate_id : Option String
  pub selection_reason : String
  pub selection_audit_json : String
  pub selected_at_utc : Datetime

unfoldable pub with_selection : Selected → OptimizationManifest → OptimizationManifest
unfolding stored_time
with_selection s m = record {
  optimization_id = m.optimization_id;
  schema_version = m.schema_version;
  checksum = m.checksum;
  dataset_id = m.dataset_id;
  instrument_id = m.instrument_id;
  base_strategy_name = m.base_strategy_name;
  fast_window_grid = m.fast_window_grid;
  slow_window_grid = m.slow_window_grid;
  train_start = m.train_start;
  train_end = m.train_end;
  validation_start = m.validation_start;
  validation_end = m.validation_end;
  holdout_start = m.holdout_start;
  holdout_end = m.holdout_end;
  capital_amount = m.capital_amount;
  capital_currency = m.capital_currency;
  position_sizing_fraction = m.position_sizing_fraction;
  quantity_increment = m.quantity_increment;
  money_scale = m.money_scale;
  annualization_basis = m.annualization_basis;
  risk_free_rate = m.risk_free_rate;
  objective_metric_key = m.objective_metric_key;
  tie_break_rule = m.tie_break_rule;
  max_candidate_count = m.max_candidate_count;
  candidate_count = m.candidate_count;
  rejected_count = m.rejected_count;
  manifest_json = m.manifest_json;
  status = m.status;
  created_at_utc = m.created_at_utc;
  failure_code = m.failure_code;
  selected_candidate_id = s.selected_candidate_id;
  selection_reason = some s.selection_reason;
  selection_audit_json = some s.selection_audit_json;
  selected_at_utc = some (stored_time s.selected_at_utc);
  holdout_run_id = m.holdout_run_id;
  holdout_objective_status = m.holdout_objective_status;
  holdout_objective_value = m.holdout_objective_value;
  holdout_objective_reason = m.holdout_objective_reason;
  started_at_utc = m.started_at_utc;
  finished_at_utc = m.finished_at_utc;
}

-- What `record_holdout_result` is given, and the row after its `UPDATE`.
pub record HoldoutResult : Type 0 where
  pub holdout_run_id : String
  pub holdout_objective_status : ObjectiveStatus
  pub holdout_objective_value : Option ℤ
  pub holdout_objective_reason : Option String

unfoldable pub with_holdout : HoldoutResult → OptimizationManifest → OptimizationManifest
with_holdout h m = record {
  optimization_id = m.optimization_id;
  schema_version = m.schema_version;
  checksum = m.checksum;
  dataset_id = m.dataset_id;
  instrument_id = m.instrument_id;
  base_strategy_name = m.base_strategy_name;
  fast_window_grid = m.fast_window_grid;
  slow_window_grid = m.slow_window_grid;
  train_start = m.train_start;
  train_end = m.train_end;
  validation_start = m.validation_start;
  validation_end = m.validation_end;
  holdout_start = m.holdout_start;
  holdout_end = m.holdout_end;
  capital_amount = m.capital_amount;
  capital_currency = m.capital_currency;
  position_sizing_fraction = m.position_sizing_fraction;
  quantity_increment = m.quantity_increment;
  money_scale = m.money_scale;
  annualization_basis = m.annualization_basis;
  risk_free_rate = m.risk_free_rate;
  objective_metric_key = m.objective_metric_key;
  tie_break_rule = m.tie_break_rule;
  max_candidate_count = m.max_candidate_count;
  candidate_count = m.candidate_count;
  rejected_count = m.rejected_count;
  manifest_json = m.manifest_json;
  status = m.status;
  created_at_utc = m.created_at_utc;
  failure_code = m.failure_code;
  selected_candidate_id = m.selected_candidate_id;
  selection_reason = m.selection_reason;
  selection_audit_json = m.selection_audit_json;
  selected_at_utc = m.selected_at_utc;
  holdout_run_id = some h.holdout_run_id;
  holdout_objective_status = some h.holdout_objective_status;
  holdout_objective_value = h.holdout_objective_value;
  holdout_objective_reason = h.holdout_objective_reason;
  started_at_utc = m.started_at_utc;
  finished_at_utc = m.finished_at_utc;
}

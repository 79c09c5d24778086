-- ===== src/Optimization/Records.antt =====
-- `CandidateStatus`, `ObjectiveStatus`, `OptimizationCandidate` and `OptimizationManifest`
-- (backend/app/domain/optimization.py). An objective value is a whole multiple of a unit that all
-- values share.
use idx_backtest_lab.Common.{ℕ, Bool, Option, List, String, ◌==◌}
use idx_backtest_lab.Common.Int.{ℤ}
use idx_backtest_lab.Common.Time.{Date, Datetime}
use idx_backtest_lab.Manifest.Classes.{Decimal}
use idx_backtest_lab.Optimization.Status.{OptimizationStatus}

pub data CandidateStatus : Type 0 where
  candidate_pending candidate_rejected candidate_completed candidate_failed : CandidateStatus

unfoldable pub candidate_ordinal : CandidateStatus → ℕ
candidate_ordinal candidate_pending = 0
candidate_ordinal candidate_rejected = 1
candidate_ordinal candidate_completed = 2
candidate_ordinal candidate_failed = 3

-- `status == other`
unfoldable pub same_candidate_status : CandidateStatus → CandidateStatus → Bool
unfolding candidate_ordinal
same_candidate_status s t = candidate_ordinal s == candidate_ordinal t

pub data ObjectiveStatus : Type 0 where
  available not_available : ObjectiveStatus

pub record OptimizationCandidate : Type 0 where
  pub candidate_id : String
  pub optimization_id : String
  pub sequence : ℕ
  pub fast_window : ℤ
  pub slow_window : ℤ
  pub status : CandidateStatus
  pub created_at_utc : Datetime
  pub rejection_reason : Option String
  pub strategy_id : Option String
  pub strategy_version : Option ℤ
  pub train_run_id : Option String
  pub validation_run_id : Option String
  pub objective_status : Option ObjectiveStatus
  pub objective_value : Option ℤ
  pub objective_reason : Option String
  pub warning_count : ℕ

pub record OptimizationManifest : Type 0 where
  pub optimization_id : String
  pub schema_version : ℤ
  pub checksum : String
  pub dataset_id : String
  pub instrument_id : String
  pub base_strategy_name : String
  pub fast_window_grid : List ℤ
  pub slow_window_grid : List ℤ
  pub train_start : Date
  pub train_end : Date
  pub validation_start : Date
  pub validation_end : Date
  pub holdout_start : Date
  pub holdout_end : Date
  pub capital_amount : Decimal
  pub capital_currency : String
  pub position_sizing_fraction : Decimal
  pub quantity_increment : Decimal
  pub money_scale : ℤ
  pub annualization_basis : ℤ
  pub risk_free_rate : Decimal
  pub objective_metric_key : String
  pub tie_break_rule : String
  pub max_candidate_count : ℤ
  pub candidate_count : ℕ
  pub rejected_count : ℕ
  pub manifest_json : String
  pub status : OptimizationStatus
  pub created_at_utc : Datetime
  pub failure_code : Option String
  pub selected_candidate_id : Option String
  pub selection_reason : Option String
  pub selection_audit_json : Option String
  pub selected_at_utc : Option Datetime
  pub holdout_run_id : Option String
  pub holdout_objective_status : Option ObjectiveStatus
  pub holdout_objective_value : Option ℤ
  pub holdout_objective_reason : Option String
  pub started_at_utc : Option Datetime
  pub finished_at_utc : Option Datetime

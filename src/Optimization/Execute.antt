-- ===== src/Optimization/Execute.antt =====
-- `execute_optimization` (backend/app/application/execute_optimization_service.py), over the interface
-- of Optimization/Services for the services that it calls: `create_strategy_spec`,
-- `create_run_manifest`, `execute_backtest_run` with the artifact writer, and the artifacts' reads.
-- The readings of the clock, the texts of numbers and `json.dumps` are parameters.
pub mod Laws
pub mod Returned
pub mod Outcome
mod Tests
use idx_backtest_lab.Common.{
  ℕ, ◌+◌, Bool, true, false, not, Option, none, some, List, [], ◌∷◌, String, Result, ok, err,
  if◌then◌else◌, ◌==◌,
}
use Prim.Native.String.{◌++◌}
use idx_backtest_lab.Common.Int.{ℤ}
use idx_backtest_lab.Common.Text.{eqs}
use idx_backtest_lab.Common.Time.{Date, Datetime}
use idx_backtest_lab.Common.Json.{int, text, Fields, done, field}
use idx_backtest_lab.Common.Action.{Action, ◌>>=◌, ◌>>◌, give, fail, read, write, except_then}
use idx_backtest_lab.Manifest.Classes.{Decimal}
use idx_backtest_lab.Execution as Engine
use idx_backtest_lab.Execution.{ExecutionResult, TerminalStatus}
use idx_backtest_lab.Strategy.Spec.{StrategySpecV1, Request}
use idx_backtest_lab.Run.Record.{RunManifest}
use idx_backtest_lab.Artifact.Metrics.{MetricRecord, MetricValue}
use idx_backtest_lab.Optimization.Status.{
  OptimizationStatus, created, validating, running_train_validation, selecting, running_holdout,
  completed, failed, ordinal,
}
use idx_backtest_lab.Optimization.Records.{
  CandidateStatus, candidate_pending, candidate_completed, candidate_failed, same_candidate_status,
  ObjectiveStatus, available, not_available, OptimizationCandidate, OptimizationManifest,
}
use idx_backtest_lab.Optimization.Selection.{CandidateSelectionInput, select_candidate}
use idx_backtest_lab.Optimization.Store as Store
use idx_backtest_lab.Optimization.Store.{
  Tables, get, list_candidates, transition_status, record_candidate_result, record_selection,
  record_holdout_result,
}
use idx_backtest_lab.Optimization.Store.Rows.{CandidateResult, Selected, HoldoutResult}
use idx_backtest_lab.Optimization.Services.{
  ServiceFault, repository, optimization_not_found, optimization_not_eligible, service_raised,
  stop_iteration, assertion_error, CreateRunManifestRequest, Services, has_status, crossover_fields,
  find_metric, find_candidate, available_value, input_of, selection_inputs, Objective,
}

module _ {W : Type 0} (p : Services W) where
  abbrev pub Do : Type 0 → Type 0
  Do A = Action (W × Tables) ServiceFault A

  unfoldable pub beside_tables :
      {A : Type 0} → Tables → Result String A × W → Result ServiceFault A × (W × Tables)
  beside_tables t (ok a, w) = (ok a, (w, t))
  beside_tables t (err message, w) = (err (service_raised message), (w, t))

  -- A call of another service.
  unfoldable pub from_service : {A : Type 0} → (W → Result String A × W) → Do A
  from_service call (w, t) = beside_tables t (call w)

  unfoldable pub beside_world :
      {A : Type 0} → W → Result Store.Fault A × Tables → Result ServiceFault A × (W × Tables)
  beside_world w (ok a, t) = (ok a, (w, t))
  beside_world w (err fault, t) = (err (repository fault), (w, t))

  unfoldable pub from_repository : {A : Type 0} → (Tables → Result Store.Fault A × Tables) → Do A
  from_repository call (w, t) = beside_world w (call t)

  -- A call of the repository of optimizations.
  unfoldable pub transition :
      String
      → (expected next_status : OptimizationStatus) (started finished : Option Datetime)
        (code : Option String)
      → Do OptimizationManifest
  transition id expected next_status started finished code =
      from_repository (λ t. transition_status t id expected next_status started finished code)

  unfoldable pub update : (Tables → Tables) → Do (Unit {0})
  update change = write (λ s. (s.0, change s.1))

  -- `_run_period`
  unfoldable pub run_period :
      OptimizationManifest
      → (strategy_id : String) (strategy_version : ℤ) (start_date end_date : Date)
      → Do (String × TerminalStatus)
  run_period m strategy_id strategy_version start_date end_date = do
    run ← from_service (
        p.create_run_manifest (record {
          strategy_id = strategy_id;
          strategy_version = strategy_version;
          dataset_id = m.dataset_id;
          instrument_ids = m.instrument_id ∷ [];
          start_date = start_date;
          end_date = end_date;
          capital_amount = p.str_decimal m.capital_amount;
          capital_currency = m.capital_currency;
          position_sizing_fraction = p.str_decimal m.position_sizing_fraction;
          quantity_increment = p.str_decimal m.quantity_increment;
          money_scale = m.money_scale;
          annualization_basis = m.annualization_basis;
          risk_free_rate = p.str_decimal m.risk_free_rate;
        }))
    result ← from_service (p.execute_backtest_run run.run_id)
    give (run.run_id, result.terminal_status)

  -- `_objective_from_run`
  unfoldable pub objective_of : Option MetricRecord → Objective
  objective_of none = (not_available, (none, some "objective_metric_not_computed"))
  objective_of (some metric) = valued metric.value
    where
      valued : Option MetricValue → Objective
      valued none = (not_available, (none, metric.reason))
      valued (some v) = (available, (some (p.in_units v), none))

  unfoldable pub objective_from_run : W → (run_id objective_metric_key : String) → Objective
  unfolding objective_of find_metric
  objective_from_run w run_id key = objective_of (find_metric key (p.list_metrics w run_id))

  -- `_try_fail`, which catches what the repository raises.
  unfoldable pub try_fail : String → OptimizationStatus → String → W × Tables → W × Tables
  try_fail id current code (w, t) =
      (w, (transition_status t id current failed none (some p.failed_at) (some code)).1)

  -- The result that a candidate is given.
  unfoldable pub candidate_result :
      CandidateStatus
      → StrategySpecV1
      → (train_run : String) (validation_run : Option String) → Objective
      → ℕ
      → CandidateResult
  candidate_result status spec train_run validation_run objective warning_count = record {
    status = status;
    strategy_id = some spec.strategy_id;
    strategy_version = some spec.version;
    train_run_id = some train_run;
    validation_run_id = validation_run;
    objective_status = some objective.0;
    objective_value = objective.1.0;
    objective_reason = objective.1.1;
    warning_count = warning_count;
  }

  module _ (m : OptimizationManifest) (c : OptimizationCandidate) where
    -- `_execute_candidate` after the validation run.
    unfoldable pub after_validation :
        StrategySpecV1 → (train_run : String) → String × TerminalStatus → ℕ → W → Do (Unit {0})
    unfolding candidate_result
    after_validation spec train_run (run, Engine.failed) warnings w = update λ t.
        record_candidate_result t c.candidate_id (
          candidate_result candidate_failed spec train_run (some run)
            (not_available, (none, some "validation_run_failed")) warnings)
    after_validation spec train_run (run, Engine.completed) warnings w = update λ t.
        record_candidate_result t c.candidate_id (
          candidate_result candidate_completed spec train_run (some run)
            (objective_from_run w run m.objective_metric_key) warnings)

    -- `_execute_candidate` after the train run.
    unfoldable pub after_train : StrategySpecV1 → String × TerminalStatus → Do (Unit {0})
    unfolding candidate_result
    after_train spec (run, Engine.failed) = do
      warnings ← read (λ s. p.count_warnings s.0 run)
      update λ t. record_candidate_result t c.candidate_id (
          candidate_result candidate_failed spec run none
            (not_available, (none, some "train_run_failed")) warnings)
    after_train spec (run, Engine.completed) = do
      validation ← run_period m spec.strategy_id spec.version m.validation_start m.validation_end
      warnings ← read (λ s. p.count_warnings s.0 run + p.count_warnings s.0 validation.0)
      w ← read (λ s. s.0)
      after_validation spec run validation warnings w

    -- `_execute_candidate`
    unfoldable pub execute_candidate : Do (Unit {0})
    unfolding crossover_fields
    execute_candidate = do
      spec ← from_service (
          p.create_strategy_spec (record {
            name =
                m.base_strategy_name
                ++ " (fast="
                ++ p.str_int c.fast_window
                ++ ", slow="
                ++ p.str_int c.slow_window
                ++ ")";
            kind = "sma_crossover";
            parameters = crossover_fields c;
            signal_time = "bar_close";
            eligible_after_bars = c.slow_window;
            long_only = true;
          }))
      train ← run_period m spec.strategy_id spec.version m.train_start m.train_end
      after_train spec train

  -- The loop over the candidates.
  unfoldable pub execute_pending : OptimizationManifest → List OptimizationCandidate → Do (Unit {0})
  execute_pending m [] = give tt
  execute_pending m (c ∷ cs) =
      let rest = execute_pending m cs in
      if same_candidate_status c.status candidate_pending
      then (execute_candidate m c >> rest)
      else rest

  -- `_run_train_validation_phase`
  unfoldable pub run_train_validation_phase : String → OptimizationManifest → ℕ → Do (Unit {0})
  run_train_validation_phase id m total = do
    candidates ← read (λ s. (list_candidates s.1 id total 0).0)
    except_then (execute_pending m candidates)
        (try_fail id running_train_validation "unexpected_error")

  -- What `_select_candidate` records.
  unfoldable pub selection :
      OptimizationManifest → List OptimizationCandidate → Option CandidateSelectionInput → Selected
  selection m candidates none = record {
    selected_candidate_id = none;
    selection_reason = "no_eligible_candidate";
    selection_audit_json = p.audit_json candidates;
    selected_at_utc = p.selected_at;
  }
  selection m candidates (some c) = record {
    selected_candidate_id = some c.candidate_id;
    selection_reason = "highest " ++ m.objective_metric_key;
    selection_audit_json = p.audit_json candidates;
    selected_at_utc = p.selected_at;
  }

  -- `_select_candidate`
  unfoldable pub select_best :
      String
      → OptimizationManifest
      → ℕ
      → Do (List OptimizationCandidate × Option CandidateSelectionInput)
  unfolding selection
  select_best id m total = do
    candidates ← read (λ s. (list_candidates s.1 id total 0).0)
    update λ t.
        record_selection t id
          (selection m candidates (select_candidate (selection_inputs candidates)))
    give (candidates, select_candidate (selection_inputs candidates))

  unfoldable pub asserted : Option OptimizationManifest → Do OptimizationManifest
  asserted none = fail assertion_error
  asserted (some m) = give m

  -- `result = repository.get(...)` with the assertion.
  unfoldable pub stored : String → Do OptimizationManifest
  stored id = read (λ s. get s.1 id) >>= asserted

  -- The holdout run's objective.
  unfoldable pub holdout_objective : String → TerminalStatus → String → W → Objective
  holdout_objective run Engine.failed key w = (not_available, (none, some "holdout_run_failed"))
  holdout_objective run Engine.completed key w = objective_from_run w run key

  -- From the strategy of the selected candidate on.
  unfoldable pub run_holdout :
      String → OptimizationManifest → Option String → Option ℤ → Do OptimizationManifest
  run_holdout id m (some strategy_id) (some version) = do
    run ←
        except_then (run_period m strategy_id version m.holdout_start m.holdout_end)
          (try_fail id running_holdout "unexpected_error")
    objective ← read (λ s. holdout_objective run.0 run.1 m.objective_metric_key s.0)
    update λ t. record_holdout_result t id (record {
      holdout_run_id = run.0;
      holdout_objective_status = objective.0;
      holdout_objective_value = objective.1.0;
      holdout_objective_reason = objective.1.1;
    })
    transition id running_holdout completed none (some p.finished_at) none
    stored id
  run_holdout id m strategy_id version = fail assertion_error

  unfoldable pub run_selected :
      String → OptimizationManifest → Option OptimizationCandidate → Do OptimizationManifest
  run_selected id m none = fail stop_iteration
  run_selected id m (some c) = run_holdout id m c.strategy_id c.strategy_version

  -- From the selection on.
  unfoldable pub after_selection :
      String
      → OptimizationManifest
      → List OptimizationCandidate × Option CandidateSelectionInput
      → Do OptimizationManifest
  after_selection id m (candidates, none) = do
    transition id selecting failed none (some p.finished_at) (some "no_eligible_candidate")
    stored id
  after_selection id m (candidates, some chosen) = do
    transition id selecting running_holdout none none none
    run_selected id m (find_candidate chosen.candidate_id candidates)

  unfoldable pub execute_eligible : String → OptimizationManifest → Do OptimizationManifest
  execute_eligible id m = do
    transition id created validating (some p.started_at) none none
    transition id validating running_train_validation none none none
    run_train_validation_phase id m (m.candidate_count + m.rejected_count)
    transition id running_train_validation selecting none none none
    selected ← select_best id m (m.candidate_count + m.rejected_count)
    after_selection id m selected

  unfoldable pub execute_found : String → Option OptimizationManifest → Do OptimizationManifest
  execute_found id none = fail optimization_not_found
  execute_found id (some m) =
      if has_status m.status created
      then execute_eligible id m
      else fail (optimization_not_eligible m.status)

  unfoldable pub execute_optimization : String → Do OptimizationManifest
  execute_optimization id = read (λ s. get s.1 id) >>= execute_found id

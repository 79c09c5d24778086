-- ===== src/Run/Execute.antt =====
-- `execute_backtest_run` (backend/app/application/execute_backtest_run_service.py). The two other
-- repositories and the engine are the ports that it is given, here functions, and so are
-- `build_run_artifact` with the artifact writer, which change no row of a run, `json.loads` and the
-- two readings of the clock.
pub mod Laws
use idx_backtest_lab.Common.{
  ◌≡◌, refl, Bool, true, false, not, ◌||◌, Option, none, some, List, [], ◌∷◌, String, Result, ok,
  err, ◌>>◌, ◌>>=◌, if◌then◌else◌,
}
use idx_backtest_lab.Common.Int.{ℤ}
use idx_backtest_lab.Common.Text.{eqs}
use idx_backtest_lab.Common.Time.{Date, Datetime}
use idx_backtest_lab.Common.Json.{Fields}
use idx_backtest_lab.Manifest.Classes as Manifest
use idx_backtest_lab.Manifest.Classes.{RunManifestV1}
use idx_backtest_lab.Manifest.Parse.{Codec}
use idx_backtest_lab.Manifest.Document.{parse_run_manifest}
use idx_backtest_lab.Strategy.Spec.{StrategySpecV1}
use idx_backtest_lab.Market.Bar.{NormalizedBar}
use idx_backtest_lab.Execution as Engine
use idx_backtest_lab.Execution.{ExecutionResult, TerminalStatus}
use idx_backtest_lab.Run.Record.{
  BacktestRunStatus, created, running, completed, failed, same_status, RunManifest,
}
use idx_backtest_lab.Run.Store as Store
use idx_backtest_lab.Run.Store.{Runs, Outcome, get, transition_status}

pub data ServiceFault : Type 0 where
  repository : Store.Fault → ServiceFault
  backtest_run_not_found : ServiceFault
  backtest_run_not_eligible : BacktestRunStatus → ServiceFault
  configuration_not_an_object : ServiceFault
  manifest_refused : Manifest.Fault → ServiceFault
  strategy_spec_not_found : ServiceFault
  unsupported_multi_instrument : ServiceFault
  snapshot_refused : String → ServiceFault
  empty_bar_snapshot : ServiceFault
  engine_execution_error : String → ServiceFault
  artifact_raised : String → ServiceFault

-- The ports of the service and the library's functions that it calls.
pub record Ports : Type 0 where
  pub is_json : String → Bool
  pub json_loads : String → Option Fields
  pub codec : Codec
  pub get_strategy : String → ℤ → Option StrategySpecV1
  pub get_snapshot :
      (dataset_id instrument_id : String) (start_date end_date : Date)
      → Result String (List NormalizedBar)
  pub engine :
      RunManifestV1
      → (manifest_checksum : String) → StrategySpecV1
      → (instrument_id : String) → List NormalizedBar
      → Result String ExecutionResult
  pub write_artifact : Option (
      RunManifest
      → RunManifestV1
      → StrategySpecV1
      → List NormalizedBar
      → ExecutionResult
      → Result String (Unit {0}))
  pub first_clock : Datetime
  pub last_clock : Datetime

unfoldable pub from_repository : {A : Type 0} → Result Store.Fault A → Result ServiceFault A
from_repository (ok a) = ok a
from_repository (err e) = err (repository e)

unfoldable pub from_manifest : {A : Type 0} → Result Manifest.Fault A → Result ServiceFault A
from_manifest (ok a) = ok a
from_manifest (err e) = err (manifest_refused e)

unfoldable pub or_empty : Option String → String
or_empty none = ""
or_empty (some s) = s

module _ (p : Ports) (id : String) where
  -- A transition of the run, and then what the service returns or raises.
  unfoldable pub move_then :
      Runs
      → (expected next : BacktestRunStatus) (started finished : Option Datetime)
        (code : Option String)
      → Result ServiceFault ExecutionResult
      → Outcome ServiceFault ExecutionResult
  unfolding from_repository
  move_then runs expected next started finished code then_result =
      let moved = transition_status p.is_json runs id expected next started finished code in
      ((from_repository moved.0 >>= λ run. then_result), moved.1)

  -- The transition to `FAILED`, and then the exception.
  unfoldable pub fail_run :
      Runs
      → BacktestRunStatus
      → Datetime
      → Option String
      → Result ServiceFault ExecutionResult
      → Outcome ServiceFault ExecutionResult
  fail_run runs expected at_utc code then_result =
      move_then runs expected failed none (some at_utc) code then_result

  -- From the result of the engine on.
  unfoldable pub record_result :
      Runs → ExecutionResult → TerminalStatus → Outcome ServiceFault ExecutionResult
  record_result runs result Engine.failed =
      fail_run runs running p.last_clock result.failure_code (ok result)
  record_result runs result Engine.completed =
      move_then runs running completed none (some p.last_clock) none (ok result)

  -- What `build_run_artifact` and the writer raise, where there is a writer.
  unfoldable pub artifact_of :
      RunManifest
      → RunManifestV1
      → StrategySpecV1
      → List NormalizedBar
      → ExecutionResult
      → Result String (Unit {0})
  artifact_of run m s bars result = written p.write_artifact
    where
      written :
          Option (
            RunManifest
            → RunManifestV1
            → StrategySpecV1
            → List NormalizedBar
            → ExecutionResult
            → Result String (Unit {0}))
          → Result String (Unit {0})
      written none = ok tt
      written (some write) = write run m s bars result

  unfoldable pub or_artifact_raised :
      ExecutionResult → Result String (Unit {0}) → Result ServiceFault ExecutionResult
  or_artifact_raised result (ok u) = ok result
  or_artifact_raised result (err message) = err (artifact_raised message)

  -- The artifact, after a transition that succeeds.
  unfoldable pub then_artifact :
      (ExecutionResult → Result String (Unit {0}))
      → Outcome ServiceFault ExecutionResult
      → Outcome ServiceFault ExecutionResult
  unfolding or_artifact_raised
  then_artifact artifact (err e, runs) = (err e, runs)
  then_artifact artifact (ok result, runs) = (or_artifact_raised result (artifact result), runs)

  unfoldable pub finish_run :
      Runs
      → (ExecutionResult → Result String (Unit {0}))
      → Result String ExecutionResult
      → Outcome ServiceFault ExecutionResult
  unfolding then_artifact
  finish_run runs artifact (err message) =
      fail_run runs running p.last_clock (some "engine_error")
        (err (engine_execution_error message))
  finish_run runs artifact (ok result) =
      then_artifact artifact (record_result runs result result.terminal_status)

  -- The engine's turn, after the transition to `RUNNING`.
  unfoldable pub run_engine :
      Result ServiceFault RunManifest
      → Runs
      → (ExecutionResult → Result String (Unit {0}))
      → Result String ExecutionResult
      → Outcome ServiceFault ExecutionResult
  run_engine (err e) runs artifact outcome = (err e, runs)
  run_engine (ok run) runs artifact outcome = finish_run runs artifact outcome

  -- From the bars on.
  unfoldable pub with_bars :
      Runs
      → (List NormalizedBar → Result String ExecutionResult)
      → (List NormalizedBar → ExecutionResult → Result String (Unit {0}))
      → Result String (List NormalizedBar)
      → Outcome ServiceFault ExecutionResult
  unfolding from_repository
  with_bars runs execute artifact (err message) =
      fail_run runs created p.first_clock (some "unresolved_instrument_mapping")
        (err (snapshot_refused message))
  with_bars runs execute artifact (ok []) =
      fail_run runs created p.first_clock (some "empty_bar_snapshot") (err empty_bar_snapshot)
  with_bars runs execute artifact (ok (bar ∷ bars)) =
      let started =
        transition_status p.is_json runs id created running (some p.first_clock) none none in
      run_engine (from_repository started.0) started.1 (artifact (bar ∷ bars))
        (execute (bar ∷ bars))

  -- From the instruments of the universe on.
  unfoldable pub with_instruments :
      Runs
      → RunManifest
      → RunManifestV1
      → StrategySpecV1
      → List String
      → Outcome ServiceFault ExecutionResult
  unfolding or_empty artifact_of
  with_instruments runs run m s (instrument ∷ []) =
      with_bars runs (p.engine m (or_empty run.manifest_checksum) s instrument)
        (artifact_of run m s)
        (p.get_snapshot m.dataset_ref.dataset_id instrument m.period.start_date m.period.end_date)
  with_instruments runs run m s instruments =
      fail_run runs created p.first_clock (some "unsupported_multi_instrument")
        (err unsupported_multi_instrument)

  -- The strategy of the reference, with the checksum of the reference.
  unfoldable pub known_strategy :
      String → Option StrategySpecV1 → Result ServiceFault StrategySpecV1
  known_strategy checksum none = err strategy_spec_not_found
  known_strategy checksum (some s) =
      if eqs s.checksum checksum then ok s else err strategy_spec_not_found

  unfoldable pub loaded : Option Fields → Result ServiceFault RunManifestV1
  unfolding from_manifest
  loaded none = err configuration_not_an_object
  loaded (some fields) = from_manifest (parse_run_manifest p.codec fields)

  -- What is read before anything is written.
  unfoldable pub prepare : RunManifest → Result ServiceFault (RunManifestV1 × StrategySpecV1)
  unfolding loaded known_strategy
  prepare run = do
    m ← loaded (p.json_loads run.configuration_json)
    s ←
        known_strategy m.strategy_ref.checksum
          (p.get_strategy m.strategy_ref.strategy_id m.strategy_ref.version)
    ok (m, s)

  unfoldable pub execute_prepared :
      Runs
      → RunManifest
      → Result ServiceFault (RunManifestV1 × StrategySpecV1)
      → Outcome ServiceFault ExecutionResult
  execute_prepared runs run (err e) = (err e, runs)
  execute_prepared runs run (ok (m, s)) = with_instruments runs run m s m.universe.instrument_ids

  unfoldable pub execute_found :
      Runs → Result Store.Fault (Option RunManifest) → Outcome ServiceFault ExecutionResult
  execute_found runs (err e) = (err (repository e), runs)
  execute_found runs (ok none) = (err backtest_run_not_found, runs)
  execute_found runs (ok (some run)) =
      if not (same_status run.status created)
      then (err (backtest_run_not_eligible run.status), runs)
      else execute_prepared runs run (prepare run)

  unfoldable pub execute_backtest_run : Runs → Outcome ServiceFault ExecutionResult
  execute_backtest_run runs = execute_found runs (get p.is_json runs id)

-- ===== src/Run/Tests.antt =====
-- A concrete run, its table and its ports.
use idx_backtest_lab.Common.{
  ℕ, ◌≡◌, ◌≤◌, refl, true, none, some, [], ◌∷◌, ok, err, arith, length, if◌then◌else◌,
}
use idx_backtest_lab.Common.Int.{pos}
use idx_backtest_lab.Common.Text.{eqs, is_empty, is_blank}
use idx_backtest_lab.Common.Time.{Datetime}
use idx_backtest_lab.Common.Lifecycle.{Walk, stop, next, visited}
use idx_backtest_lab.Manifest.Document.{to_canonical_dict}
use idx_backtest_lab.Manifest.Tests.{sample, sample_codec, sample-has_types}
use idx_backtest_lab.Strategy.Tests.{spec}
use idx_backtest_lab.Market.Tests.{daily_bar}
use idx_backtest_lab.Run.Record.{
  created, running, completed, is_transition_allowed, RunManifest, check_run, validate_identity,
  validate_status_and_payload, validate_temporal_fields, validate_manifest_reference,
  run_length-visited-le,
}
use idx_backtest_lab.Run.Store.{Runs, transition_status}
use idx_backtest_lab.Run.Store.Laws.{Moved, transition_status-Moved, transition_status-others}
use idx_backtest_lab.Run.Execute.{Ports, execute_backtest_run}
use idx_backtest_lab.Run.Execute.Laws.{
  IsReady, Agrees, IsSettled, execute_backtest_run-Agrees, execute_backtest_run-IsSettled,
}

abbrev time_at : ℕ → Datetime
time_at n = record { instant = n; is_aware = true }

abbrev pub new_run : RunManifest
new_run = record {
  run_id = "run-1";
  dataset_id = "d1";
  strategy_spec_version = "1";
  engine_version = "backtrader";
  configuration_json = "manifest";
  status = created;
  created_at_utc = time_at 10;
  warning_count = pos 0;
  started_at_utc = none;
  finished_at_utc = none;
  failure_code = none;
  schema_version = some (pos 1);
  manifest_checksum = some "sum";
  strategy_id = some "s1";
  strategy_version = some (pos 1);
}

-- A table of two rows.
abbrev table : Runs
table id = if eqs id "run-1" then some new_run else if eqs id "run-2" then some new_run else none

-- Everything is there, and the engine stops with an exception.
abbrev ports : Ports
ports = record {
  is_json = λ s. true;
  json_loads = λ s. some (to_canonical_dict sample_codec sample);
  codec = sample_codec;
  get_strategy = λ id version. some spec;
  get_snapshot = λ dataset instrument start end_date. ok (daily_bar ∷ []);
  engine = λ m sum s instrument bars. err "stopped";
  write_artifact = some (λ run m s bars result. err "disk full");
  first_clock = time_at 20;
  last_clock = time_at 30;
}

new_run-IsReady : IsReady ports new_run
unfolding check_run validate_identity validate_status_and_payload validate_temporal_fields
    validate_manifest_reference is_empty is_blank
new_run-IsReady = record {
  valid = refl;
  configured = sample-has_types;
  is_created = refl;
  not_started = refl;
  not_finished = refl;
  first_aware = refl;
  last_aware = refl;
  after_creation = omega arith;
  forward = omega arith;
}

execute_backtest_run-Agrees_example :
    (after : RunManifest) × ((execute_backtest_run ports "run-1" table).1 "run-1" ≡ some after)
    × Agrees new_run (execute_backtest_run ports "run-1" table).0 after
execute_backtest_run-Agrees_example =
    execute_backtest_run-Agrees ports "run-1" table new_run refl new_run-IsReady

execute_backtest_run-IsSettled_example :
    (after : RunManifest) × ((execute_backtest_run ports "run-1" table).1 "run-1" ≡ some after)
    × IsSettled after.status
execute_backtest_run-IsSettled_example =
    execute_backtest_run-IsSettled ports "run-1" table new_run refl new_run-IsReady

transition_status-Moved_example :
    Moved created running (some (time_at 20)) none none (table "run-1") (
      (transition_status (λ s. true) table "run-1" created running (some (time_at 20)) none none).1
        "run-1")
transition_status-Moved_example =
    transition_status-Moved (λ s. true) table "run-1" created running (some (time_at 20)) none none

transition_status-others_example :
    (transition_status (λ s. true) table "run-1" created running (some (time_at 20)) none none).1
      "run-2"
    ≡ table "run-2"
transition_status-others_example =
    transition_status-others (λ s. true) table "run-1" "run-2" created running (some (time_at 20))
      none none refl

run_life : Walk is_transition_allowed created completed
unfolding is_transition_allowed
run_life = next running refl (next completed refl stop)

run_length-visited-le_example : length (visited run_life) ≤ 3
run_length-visited-le_example = run_length-visited-le run_life

-- ===== src/Run/Store.antt =====
-- The table `backtest_runs` behind `DuckDBBacktestRunRepository`
-- (backend/app/infrastructure/db/backtest_run_repository.py): `get`, `create` and
-- `transition_status`, with the row that a call leaves behind. `run_id` is the primary key, so the
-- table is a function of it. A stored time has no zone and comes back as UTC
-- (backend/app/infrastructure/db/serialization.py).
pub mod Laws
use idx_backtest_lab.Common.{
  ◌≡◌, refl, Bool, true, false, not, ◌||◌, Option, none, some, String, Result, ok, err, ◌>>◌, ◌>>=◌,
  raise_if, if◌then◌else◌,
}
use idx_backtest_lab.Common.Text.{eqs}
use idx_backtest_lab.Common.Time.{Datetime}
use idx_backtest_lab.Run.Record.{
  BacktestRunStatus, same_status, is_transition_allowed, RunManifest, Invalid, check_run, is_naive,
}

pub data Fault : Type 0 where
  run_not_found : String → Fault
  invalid_transition : (expected next : BacktestRunStatus) → Fault
  stale_status : (expected actual : BacktestRunStatus) → Fault
  invalid_run : Invalid → Fault
  naive_datetime : Fault
  unknown_dataset : String → Fault
  duplicate_run : String → Fault

abbrev pub Runs : Type 0
Runs = String → Option RunManifest

-- What a call returns or raises, and the table after it.
abbrev pub Outcome : Type 0 → Type 0 → Type 0
Outcome E A = Result E A × Runs

unfoldable pub put : String → RunManifest → Runs → Runs
put id run runs j = if eqs id j then some run else runs j

-- `COALESCE(?, column)`
unfoldable pub coalesce : {A : Type 0} → Option A → Option A → Option A
coalesce none old = old
coalesce (some a) old = some a

-- `to_naive_utc` on the way in and `from_naive_utc` on the way out.
unfoldable pub in_utc : Option Datetime → Option Datetime
in_utc none = none
in_utc (some t) = some (record { instant = t.instant; is_aware = true })

-- The row that the `UPDATE` leaves behind.
unfoldable pub changed :
    BacktestRunStatus
    → Option Datetime
    → Option Datetime
    → Option String
    → RunManifest
    → RunManifest
unfolding coalesce in_utc
changed next started finished code run = record {
  run_id = run.run_id;
  dataset_id = run.dataset_id;
  strategy_spec_version = run.strategy_spec_version;
  engine_version = run.engine_version;
  configuration_json = run.configuration_json;
  status = next;
  created_at_utc = run.created_at_utc;
  warning_count = run.warning_count;
  started_at_utc = coalesce (in_utc started) run.started_at_utc;
  finished_at_utc = coalesce (in_utc finished) run.finished_at_utc;
  failure_code = coalesce code run.failure_code;
  schema_version = run.schema_version;
  manifest_checksum = run.manifest_checksum;
  strategy_id = run.strategy_id;
  strategy_version = run.strategy_version;
}

module _ (is_json : String → Bool) where
  -- `_row_to_run`
  unfoldable pub row_to_run : RunManifest → Result Fault RunManifest
  row_to_run row = checked (check_run is_json row)
    where
      checked : Result Invalid (Unit {0}) → Result Fault RunManifest
      checked (ok u) = ok row
      checked (err e) = err (invalid_run e)

  -- `get`
  unfoldable pub get : Runs → String → Result Fault (Option RunManifest)
  unfolding row_to_run
  get runs id = found (runs id)
    where
      found : Option RunManifest → Result Fault (Option RunManifest)
      found none = ok none
      found (some row) = row_to_run row >>= λ run. ok (some run)

  -- The `UPDATE` on a row of that id, and the error where it finds none with the expected status.
  unfoldable pub update_row :
      String
      → (expected next : BacktestRunStatus) (started finished : Option Datetime)
        (code : Option String) (runs : Runs)
      → Option RunManifest
      → Outcome Fault RunManifest
  unfolding row_to_run changed put
  update_row id expected next started finished code runs none = (err (run_not_found id), runs)
  update_row id expected next started finished code runs (some run) =
      let row = changed next started finished code run in
      if same_status run.status expected
      then (row_to_run row, put id row runs)
      else ((row_to_run run >>= λ current. err (stale_status expected current.status)), runs)

  -- `transition_status`
  unfoldable pub transition_status :
      Runs
      → String
      → (expected next : BacktestRunStatus) (started finished : Option Datetime)
        (code : Option String)
      → Outcome Fault RunManifest
  unfolding update_row is_naive
  transition_status runs id expected next started finished code =
      if not (is_transition_allowed expected next)
      then (err (invalid_transition expected next), runs)
      else if is_naive started || is_naive finished
      then (err naive_datetime, runs)
      else update_row id expected next started finished code runs (runs id)

-- The `INSERT`, which the primary key refuses for a known id.
insert_row : Runs → RunManifest → Option RunManifest → Outcome Fault RunManifest
unfolding put
insert_row runs run none = (ok run, put run.run_id run runs)
insert_row runs run (some old) = (err (duplicate_run run.run_id), runs)

-- `create`, by whether the table `datasets` has an id.
unfoldable pub create : (String → Bool) → Runs → RunManifest → Outcome Fault RunManifest
unfolding insert_row
create dataset_exists runs run =
    if not (dataset_exists run.dataset_id)
    then (err (unknown_dataset run.dataset_id), runs)
    else insert_row runs run (runs run.run_id)

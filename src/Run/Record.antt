-- ===== src/Run/Record.antt =====
-- `BacktestRunStatus`, its transitions, and `RunManifest` with the checks of its construction
-- (backend/app/domain/backtest_run.py). Whether a text is JSON is a parameter.
use idx_backtest_lab.Common.{
  ℕ, ◌≡◌, Bool, true, false, ◌≤◌, ◌<◌, ◌+◌, not, Option, none, some, List, [], ◌∷◌, String, Result,
  ◌>>◌, raise_if, if◌then◌else◌, ltb, ◌==◌, arith, length,
}
use idx_backtest_lab.Common.Int.{ℤ, pos, ltb_ℤ}
use idx_backtest_lab.Common.Text.{is_empty, is_blank}
use idx_backtest_lab.Common.Time.{Datetime}
use idx_backtest_lab.Common.Lifecycle.{Walk, stop, next, visited}

pub data BacktestRunStatus : Type 0 where
  created running completed failed cancelled : BacktestRunStatus

-- The position of a member in the enumeration; members are equal when it is.
unfoldable pub ordinal : BacktestRunStatus → ℕ
ordinal created = 0
ordinal running = 1
ordinal completed = 2
ordinal failed = 3
ordinal cancelled = 4

unfoldable pub same_status : BacktestRunStatus → BacktestRunStatus → Bool
unfolding ordinal
same_status s t = ordinal s == ordinal t

unfoldable pub allowed_transitions : BacktestRunStatus → List BacktestRunStatus
allowed_transitions created = running ∷ cancelled ∷ failed ∷ []
allowed_transitions running = completed ∷ failed ∷ []
allowed_transitions completed = []
allowed_transitions failed = []
allowed_transitions cancelled = []

-- `status in statuses`
unfoldable pub member : BacktestRunStatus → List BacktestRunStatus → Bool
unfolding same_status
member s [] = false
member s (t ∷ ts) = let rest = member s ts in if same_status s t then true else rest

unfoldable pub is_transition_allowed : BacktestRunStatus → BacktestRunStatus → Bool
unfolding member allowed_transitions
is_transition_allowed current next_status = member next_status (allowed_transitions current)

pub record RunManifest : Type 0 where
  pub run_id : String
  pub dataset_id : String
  pub strategy_spec_version : String
  pub engine_version : String
  pub configuration_json : String
  pub status : BacktestRunStatus
  pub created_at_utc : Datetime
  pub warning_count : ℤ
  pub started_at_utc : Option Datetime
  pub finished_at_utc : Option Datetime
  pub failure_code : Option String
  pub schema_version : Option ℤ
  pub manifest_checksum : Option String
  pub strategy_id : Option String
  pub strategy_version : Option ℤ

-- `RunManifestValidationError`, by the rule that is broken.
pub data Invalid : Type 0 where
  empty_run_id empty_dataset_id blank_strategy_spec_version blank_engine_version : Invalid
  configuration_not_json negative_warning_count naive_time : Invalid
  started_before_created finished_before_started : Invalid
  schema_version_not_positive blank_manifest_checksum blank_strategy_id : Invalid
  strategy_version_not_positive : Invalid

abbrev pub Check : Type 0
Check = Result Invalid (Unit {0})

-- `_validate_identity`
unfoldable pub validate_identity : RunManifest → Check
validate_identity r = do
  raise_if (is_empty r.run_id) empty_run_id
  raise_if (is_empty r.dataset_id) empty_dataset_id
  raise_if (is_blank r.strategy_spec_version) blank_strategy_spec_version
  raise_if (is_blank r.engine_version) blank_engine_version

-- `value is not None and value.tzinfo is None`
unfoldable pub is_naive : Option Datetime → Bool
is_naive none = false
is_naive (some t) = not t.is_aware

-- `later is not None and earlier is not None and later < earlier`
unfoldable pub is_before : (later earlier : Option Datetime) → Bool
is_before (some later) (some earlier) = ltb later.instant earlier.instant
is_before later earlier = false

-- `_validate_temporal_fields`
unfoldable pub validate_temporal_fields : RunManifest → Check
unfolding is_naive is_before
validate_temporal_fields r = do
  raise_if (is_naive (some r.created_at_utc)) naive_time
  raise_if (is_naive r.started_at_utc) naive_time
  raise_if (is_naive r.finished_at_utc) naive_time
  raise_if (is_before r.started_at_utc (some r.created_at_utc)) started_before_created
  raise_if (is_before r.finished_at_utc r.started_at_utc) finished_before_started

-- `value is not None and value < 1`
unfoldable pub is_not_positive : Option ℤ → Bool
is_not_positive none = false
is_not_positive (some n) = ltb_ℤ n (pos 1)

-- `value is not None and not value.strip()`
unfoldable pub is_given_blank : Option String → Bool
is_given_blank none = false
is_given_blank (some s) = is_blank s

-- `_validate_manifest_reference`
unfoldable pub validate_manifest_reference : RunManifest → Check
unfolding is_not_positive is_given_blank
validate_manifest_reference r = do
  raise_if (is_not_positive r.schema_version) schema_version_not_positive
  raise_if (is_given_blank r.manifest_checksum) blank_manifest_checksum
  raise_if (is_given_blank r.strategy_id) blank_strategy_id
  raise_if (is_not_positive r.strategy_version) strategy_version_not_positive

module _ (is_json : String → Bool) where
  -- `_validate_status_and_payload`; the type of the status holds by itself here.
  unfoldable pub validate_status_and_payload : RunManifest → Check
  validate_status_and_payload r = do
    raise_if (not (is_json r.configuration_json)) configuration_not_json
    raise_if (ltb_ℤ r.warning_count (pos 0)) negative_warning_count

  -- `RunManifest.__post_init__`
  unfoldable pub check_run : RunManifest → Check
  check_run r = do
    validate_identity r
    validate_status_and_payload r
    validate_temporal_fields r
    validate_manifest_reference r

-- How many transitions are left.
abbrev moves_left : BacktestRunStatus → ℕ
moves_left created = 2
moves_left running = 1
moves_left completed = 0
moves_left failed = 0
moves_left cancelled = 0

moves_left-lt :
    (s t : BacktestRunStatus) → is_transition_allowed s t ≡ true → moves_left t < moves_left s
unfolding is_transition_allowed
moves_left-lt created t h = ground arith
moves_left-lt s t h = ground arith

length-visited_bound :
    {s t : BacktestRunStatus} (w : Walk is_transition_allowed s t)
    → length (visited w) ≤ moves_left s + 1
length-visited_bound {s} stop = omega arith
length-visited_bound {s} (next n h w) = omega (arith, length-visited_bound w, moves_left-lt s n h)

moves_left-le : (s : BacktestRunStatus) → moves_left s ≤ 2
moves_left-le s = ground arith

-- A run moves at most twice: no sequence of allowed transitions has more than three statuses, so
-- every one of them comes to an end.
pub run_length-visited-le :
    {s t : BacktestRunStatus} (w : Walk is_transition_allowed s t) → length (visited w) ≤ 3
run_length-visited-le {s} w = omega (arith, length-visited_bound w, moves_left-le s)

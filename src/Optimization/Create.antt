-- ===== src/Optimization/Create.antt =====
-- `create_optimization` (backend/app/application/optimization_manifest_service.py). The repositories of
-- datasets, instruments and bars are ports, here functions; the texts of decimals, dates and times, the
-- checksum, the ids, the clock and DuckDB's decimals are parameters.
pub mod Laws
mod Tests
use idx_backtest_lab.Common.{
  ℕ, suc, ◌+◌, ◌-◌, Bool, true, false, Option, none, some, List, [], ◌∷◌, map, String, Result, ok,
  err, ◌>>=◌, ◌>>◌, if◌then◌else◌, length,
}
use idx_backtest_lab.Common.Int.{ℤ, pos, ltb_ℤ}
use idx_backtest_lab.Common.Order.{int_order}
use idx_backtest_lab.Common.Sorted.{to_set, sorted}
use idx_backtest_lab.Common.Time.{Date, Datetime}
use idx_backtest_lab.Common.Json.{
  Value, null, int, text, list, mapping, Items, end, item, Fields, done, field,
}
use idx_backtest_lab.Manifest.Classes.{Decimal}
use idx_backtest_lab.Manifest.Parse.{Codec}
use idx_backtest_lab.Market.Dataset.{DatasetManifest}
use idx_backtest_lab.Optimization.Status.{created}
use idx_backtest_lab.Optimization.Partitions as Domain
use idx_backtest_lab.Optimization.Partitions.{
  Partitions, validate_grid_inputs, validate_partitions, validate_objective_metric,
  validate_candidate_count, validate_partition_bar_coverage,
}
use idx_backtest_lab.Optimization.Grid.{canonicalize_grid, is_valid_candidate_pair}
use idx_backtest_lab.Optimization.Records.{
  CandidateStatus, candidate_pending, candidate_rejected, OptimizationCandidate,
  OptimizationManifest,
}
use idx_backtest_lab.Optimization.Store as Store
use idx_backtest_lab.Optimization.Store.{Tables, create}

pub data CreateFault : Type 0 where
  domain : Domain.Fault → CreateFault
  dataset_not_found instrument_not_found : CreateFault
  snapshot_raised : String → CreateFault
  decimal_field : String → CreateFault
  repository : Store.Fault → CreateFault

abbrev pub optimization_schema_version : ℤ
optimization_schema_version = pos 1

abbrev pub tie_break_rule : String
tie_break_rule =
    "highest_objective_value_then_lower_slow_window_then_lower_fast_window_then_candidate_id"

-- `CreateOptimizationRequest`
pub record CreateOptimizationRequest : Type 0 where
  pub dataset_id : String
  pub instrument_id : String
  pub base_strategy_name : String
  pub fast_windows : List ℤ
  pub slow_windows : List ℤ
  pub partitions : Partitions
  pub capital_amount : String
  pub capital_currency : String
  pub position_sizing_fraction : String
  pub quantity_increment : String
  pub money_scale : ℤ
  pub annualization_basis : ℤ
  pub risk_free_rate : String
  pub objective_metric_key : String

pub record CreatePorts : Type 0 where
  pub codec : Codec
  pub get_dataset : String → Option DatasetManifest
  pub instrument_exists : String → Bool
  pub count_bars : (dataset_id instrument_id : String) (start end_date : Date) → Result String ℕ
  pub compute_checksum : Fields → String
  pub canonical_text : Fields → String
  pub column : Decimal → Option Decimal
  pub dataset_exists : String → Bool
  pub id_factory : ℕ → String
  pub clock : Datetime

unfoldable pub checked : Domain.Check → Result CreateFault (Unit {0})
checked (ok u) = ok u
checked (err e) = err (domain e)

unfoldable pub or_raise : {A : Type 0} → CreateFault → Option A → Result CreateFault A
or_raise fault none = err fault
or_raise fault (some a) = ok a

-- `[pair for pair in canonical_pairs if is_valid_candidate_pair(*pair)]`
unfoldable pub valid_pairs : List (ℤ × ℤ) → List (ℤ × ℤ)
valid_pairs [] = []
valid_pairs ((fast, slow) ∷ pairs) =
    let rest = valid_pairs pairs in
    if is_valid_candidate_pair fast slow then (fast, slow) ∷ rest else rest

-- `max` of a list from its first element on.
unfoldable pub max_from : ℤ → List ℤ → ℤ
max_from best [] = best
max_from best (w ∷ ws) = max_from (if ltb_ℤ best w then w else best) ws

unfoldable pub slow_windows_of : List (ℤ × ℤ) → List ℤ
slow_windows_of [] = []
slow_windows_of (pair ∷ pairs) = pair.1 ∷ slow_windows_of pairs

-- `max((slow for _, slow in valid_pairs), default=max(slow_windows))`, where the slow windows are not
-- empty.
unfoldable pub largest_slow_window : List ℤ → List ℤ → ℤ
unfolding max_from
largest_slow_window (slow ∷ slows) slow_windows = max_from slow slows
largest_slow_window [] (slow ∷ slows) = max_from slow slows
largest_slow_window [] [] = pos 0

unfoldable pub int_items : List ℤ → Items
int_items [] = end
int_items (n ∷ ns) = item (int n) (int_items ns)

unfoldable pub pair_items : List (ℤ × ℤ) → Items
pair_items [] = end
pair_items ((fast, slow) ∷ pairs) =
    item (list (item (int fast) (item (int slow) end))) (pair_items pairs)

unfoldable pub status_of_pair : ℤ → ℤ → CandidateStatus
status_of_pair fast slow =
    if is_valid_candidate_pair fast slow then candidate_pending else candidate_rejected

unfoldable pub reason_of_pair : ℤ → ℤ → Option String
reason_of_pair fast slow =
    if is_valid_candidate_pair fast slow
    then none
    else some "fast_window must be less than slow_window"

module _ (p : CreatePorts) (request : CreateOptimizationRequest) (max_candidate_count : ℤ) where
  -- `_parse_decimal`
  unfoldable pub parse_decimal : (value name : String) → Result CreateFault Decimal
  unfolding or_raise
  parse_decimal value name = or_raise (decimal_field name) (p.codec.read_decimal value)

  unfoldable pub from_snapshot : Result String ℕ → Result CreateFault ℕ
  from_snapshot (ok n) = ok n
  from_snapshot (err message) = err (snapshot_raised message)

  -- A round of the loop over the partitions.
  unfoldable pub cover : (start end_date : Date) → ℤ → Result CreateFault (Unit {0})
  unfolding from_snapshot checked
  cover start end_date slow = do
    bars ← from_snapshot (p.count_bars request.dataset_id request.instrument_id start end_date)
    checked (validate_partition_bar_coverage (pos bars) slow)

  date_range : (start end_date : Date) → Value
  date_range start end_date = mapping (
      field "start" (text (p.codec.format_date start))
        (field "end" (text (p.codec.format_date end_date)) done))

  unfoldable pub text_or_null : Option String → Value
  text_or_null none = null
  text_or_null (some s) = text s

  -- `canonical`
  unfoldable pub canonical :
      String → DatasetManifest → List (ℤ × ℤ) → (capital fraction increment rate : Decimal) → Fields
  unfolding date_range text_or_null int_items pair_items
  canonical id dataset pairs capital fraction increment rate =
      let q = request.partitions in
      field "schema_version" (int optimization_schema_version) (
        field "optimization_id" (text id) (
          field "dataset_id" (text dataset.dataset_id) (
            field "dataset_content_checksum" (text_or_null dataset.content_checksum) (
              field "instrument_id" (text request.instrument_id) (
                field "base_strategy_name" (text request.base_strategy_name) (
                  field "fast_window_grid" (list (int_items (sorted (to_set request.fast_windows))))
                    (field "slow_window_grid"
                      (list (int_items (sorted (to_set request.slow_windows))))
                      (field "candidate_pairs" (list (pair_items pairs)) (
                        field "train" (date_range q.train_start q.train_end) (
                          field "validation" (date_range q.validation_start q.validation_end) (
                            field "holdout" (date_range q.holdout_start q.holdout_end) (
                              field "capital"
                                (mapping (
                                  field "amount" (text (p.codec.decimal_str capital))
                                    (field "currency" (text request.capital_currency) done)))
                                (field "execution"
                                  (mapping (
                                    field "position_sizing_fraction"
                                      (text (p.codec.decimal_str fraction))
                                      (field "quantity_increment"
                                        (text (p.codec.decimal_str increment))
                                        (field "money_scale" (int request.money_scale) done))))
                                  (field "metrics"
                                    (mapping (
                                      field "annualization_basis" (int request.annualization_basis)
                                        (field "risk_free_rate" (text (p.codec.decimal_str rate))
                                          done)))
                                    (field "objective_metric_key"
                                      (text request.objective_metric_key)
                                      (field "tie_break_rule" (text tie_break_rule) (
                                        field "max_candidate_count" (int max_candidate_count) (
                                          field "created_at_utc" (text (p.codec.format_utc p.clock))
                                            done))))))))))))))))))

  -- The candidates of the pairs from a sequence number on; the first id is that of the optimization.
  unfoldable pub candidates_from : ℕ → List (ℤ × ℤ) → List OptimizationCandidate
  candidates_from sequence [] = []
  candidates_from sequence ((fast, slow) ∷ pairs) =
      record {
        candidate_id = p.id_factory (suc sequence);
        optimization_id = p.id_factory 0;
        sequence = sequence;
        fast_window = fast;
        slow_window = slow;
        status = status_of_pair fast slow;
        created_at_utc = p.clock;
        rejection_reason = reason_of_pair fast slow;
        strategy_id = none;
        strategy_version = none;
        train_run_id = none;
        validation_run_id = none;
        objective_status = none;
        objective_value = none;
        objective_reason = none;
        warning_count = 0;
      }
      ∷ candidates_from (suc sequence) pairs

  unfoldable pub manifest_of :
      DatasetManifest
      → List (ℤ × ℤ)
      → (capital fraction increment rate : Decimal) → OptimizationManifest
  unfolding valid_pairs
  manifest_of dataset pairs capital fraction increment rate =
      let q = request.partitions in
      let dict = canonical (p.id_factory 0) dataset pairs capital fraction increment rate in
      record {
        optimization_id = p.id_factory 0;
        schema_version = optimization_schema_version;
        checksum = p.compute_checksum dict;
        dataset_id = dataset.dataset_id;
        instrument_id = request.instrument_id;
        base_strategy_name = request.base_strategy_name;
        fast_window_grid = sorted (to_set request.fast_windows);
        slow_window_grid = sorted (to_set request.slow_windows);
        train_start = q.train_start;
        train_end = q.train_end;
        validation_start = q.validation_start;
        validation_end = q.validation_end;
        holdout_start = q.holdout_start;
        holdout_end = q.holdout_end;
        capital_amount = capital;
        capital_currency = request.capital_currency;
        position_sizing_fraction = fraction;
        quantity_increment = increment;
        money_scale = request.money_scale;
        annualization_basis = request.annualization_basis;
        risk_free_rate = rate;
        objective_metric_key = request.objective_metric_key;
        tie_break_rule = tie_break_rule;
        max_candidate_count = max_candidate_count;
        candidate_count = length (valid_pairs pairs);
        rejected_count = length pairs - length (valid_pairs pairs);
        manifest_json = p.canonical_text dict;
        status = created;
        created_at_utc = p.clock;
        failure_code = none;
        selected_candidate_id = none;
        selection_reason = none;
        selection_audit_json = none;
        selected_at_utc = none;
        holdout_run_id = none;
        holdout_objective_status = none;
        holdout_objective_value = none;
        holdout_objective_reason = none;
        started_at_utc = none;
        finished_at_utc = none;
      }

  -- `canonical_pairs`
  abbrev pub pairs_of : List (ℤ × ℤ)
  pairs_of = canonicalize_grid request.fast_windows request.slow_windows

  unfoldable pub known_instrument : Bool → Result CreateFault (Unit {0})
  known_instrument true = ok tt
  known_instrument false = err instrument_not_found

  -- The checks before the dataset is looked up.
  unfoldable pub check_request : Result CreateFault (Unit {0})
  check_request = do
    checked (validate_grid_inputs request.fast_windows request.slow_windows)
    checked (validate_partitions request.partitions)
    checked (validate_objective_metric request.objective_metric_key)

  -- The number of pairs, and the bars of every partition.
  unfoldable pub check_coverage : Result CreateFault (Unit {0})
  check_coverage = do
    checked (validate_candidate_count (pos (length pairs_of)) max_candidate_count)
    cover request.partitions.train_start request.partitions.train_end
        (largest_slow_window (slow_windows_of (valid_pairs pairs_of)) request.slow_windows)
    cover request.partitions.validation_start request.partitions.validation_end
        (largest_slow_window (slow_windows_of (valid_pairs pairs_of)) request.slow_windows)
    cover request.partitions.holdout_start request.partitions.holdout_end
        (largest_slow_window (slow_windows_of (valid_pairs pairs_of)) request.slow_windows)

  -- The decimals, and the manifest.
  unfoldable pub parsed : DatasetManifest → Result CreateFault OptimizationManifest
  parsed dataset = do
    capital ← parse_decimal request.capital_amount "capital_amount"
    fraction ← parse_decimal request.position_sizing_fraction "position_sizing_fraction"
    increment ← parse_decimal request.quantity_increment "quantity_increment"
    rate ← parse_decimal request.risk_free_rate "risk_free_rate"
    ok (manifest_of dataset pairs_of capital fraction increment rate)

  -- What is checked and built before anything is stored.
  unfoldable pub prepare : Result CreateFault OptimizationManifest
  prepare = do
    check_request
    dataset ← or_raise dataset_not_found (p.get_dataset request.dataset_id)
    known_instrument (p.instrument_exists request.instrument_id)
    check_coverage
    parsed dataset

  unfoldable pub after_create :
      OptimizationManifest
      → Result Store.Fault (Unit {0}) × Tables
      → Result CreateFault OptimizationManifest × Tables
  after_create m (ok u, t) = (ok m, t)
  after_create m (err fault, t) = (err (repository fault), t)

  unfoldable pub store_prepared :
      Tables
      → Result CreateFault OptimizationManifest
      → Result CreateFault OptimizationManifest × Tables
  store_prepared t (err fault) = (err fault, t)
  store_prepared t (ok m) =
      after_create m
        (create p.column p.dataset_exists p.instrument_exists t m (candidates_from 0 pairs_of))

  unfoldable pub create_optimization : Tables → Result CreateFault OptimizationManifest × Tables
  create_optimization t = store_prepared t prepare

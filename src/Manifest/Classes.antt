-- ===== src/Manifest/Classes.antt =====
-- The classes of backend/app/domain/backtest_manifest.py with their `__post_init__`. A finite
-- `Decimal` is a whole number with a number of decimal places.
use idx_backtest_lab.Common.{
  ℕ, Bool, true, false, ◌&&◌, not, List, [], ◌∷◌, String, Result, ◌>>◌, raise_if, length, leb, ◌==◌,
  ◌*◌,
}
use idx_backtest_lab.Common.Int.{ℤ, pos, ltb_ℤ, leb_ℤ}
use idx_backtest_lab.Common.Text.{eqs, is_empty, is_blank, text_order}
use idx_backtest_lab.Common.Sorted.{to_set}
use idx_backtest_lab.Common.Time.{Date, Datetime}
use Prim.Native.Nat.{zero, suc}

-- `RunManifestValidationError` by its code and the field it is about; then what parsing may raise:
-- a `KeyError`, a `TypeError`, and a text that is no date, decimal or time.
pub data Fault : Type 0 where
  invalid_manifest : String → Fault
  unsupported_feature : String → Fault
  empty_universe invalid_period unsupported_schema_version : Fault
  key_error type_error : Fault
  malformed : Fault
  -- No exception of the source: what the model has no value for.
  untyped : Fault

abbrev pub Check : Type 0
Check = Result Fault (Unit {0})

pub data Decimal : Type 0 where
  finite : (mantissa : ℤ) (places : ℕ) → Decimal
  infinite : Decimal
  nan : Decimal

unfoldable pub power_of_ten : ℕ → ℕ
power_of_ten zero = 1
power_of_ten (suc n) = 10 * power_of_ten n

-- `value.is_finite() and value > 0`
unfoldable pub is_finite_positive : Decimal → Bool
is_finite_positive (finite m places) = ltb_ℤ (pos 0) m
is_finite_positive d = false

-- `value.is_finite() and Decimal("0") < value <= Decimal("1")`
unfoldable pub is_fraction : Decimal → Bool
is_fraction (finite m places) = ltb_ℤ (pos 0) m && leb_ℤ m (pos (power_of_ten places))
is_fraction d = false

-- `value.is_finite() and value >= 0`
unfoldable pub is_finite_non_negative : Decimal → Bool
is_finite_non_negative (finite m places) = leb_ℤ (pos 0) m
is_finite_non_negative d = false

unfoldable pub require_positive_decimal : Decimal → String → Check
unfolding is_finite_positive
require_positive_decimal value name =
    raise_if (not (is_finite_positive value)) (invalid_manifest name)

-- `if value != expected: raise unsupported_feature`
unfoldable pub require_v1 : String → String → String → Check
require_v1 value expected name = raise_if (not (eqs value expected)) (unsupported_feature name)

pub record StrategyRef : Type 0 where
  pub strategy_id : String
  pub version : ℤ
  pub checksum : String

unfoldable pub check_strategy_ref : StrategyRef → Check
check_strategy_ref r = do
  raise_if (is_empty r.strategy_id) (invalid_manifest "strategy_id")
  raise_if (ltb_ℤ r.version (pos 1)) (invalid_manifest "version")
  raise_if (is_empty r.checksum) (invalid_manifest "checksum")

pub record DatasetRef : Type 0 where
  pub dataset_id : String
  pub content_checksum : String

unfoldable pub check_dataset_ref : DatasetRef → Check
check_dataset_ref r = do
  raise_if (is_empty r.dataset_id) (invalid_manifest "dataset_id")
  raise_if (is_empty r.content_checksum) (invalid_manifest "content_checksum")

pub record Universe : Type 0 where
  pub instrument_ids : List String
  pub unresolved_identifier_policy : String

unfoldable pub is_nil : List String → Bool
is_nil [] = true
is_nil (x ∷ xs) = false

unfoldable pub check_universe : Universe → Check
unfolding is_nil to_set require_v1
check_universe u = do
  raise_if (is_nil u.instrument_ids) empty_universe
  raise_if (not (length (to_set u.instrument_ids) == length u.instrument_ids))
      (invalid_manifest "instrument_ids")
  require_v1 u.unresolved_identifier_policy "reject" "unresolved_identifier_policy"

pub record Period : Type 0 where
  pub start_date : Date
  pub end_date : Date
  pub bar_interval : String

unfoldable pub check_period : Period → Check
check_period p = do
  raise_if (leb p.end_date p.start_date) invalid_period
  raise_if (is_blank p.bar_interval) (invalid_manifest "bar_interval")

pub record Capital : Type 0 where
  pub amount : Decimal
  pub currency : String

unfoldable pub check_capital : Capital → Check
unfolding require_positive_decimal
check_capital c = do
  require_positive_decimal c.amount "amount"
  raise_if (is_blank c.currency) (invalid_manifest "currency")

pub record SignalAndFill : Type 0 where
  pub signal_time : String
  pub fill_time : String
  pub missing_next_bar_policy : String

unfoldable pub check_signal_and_fill : SignalAndFill → Check
unfolding require_v1
check_signal_and_fill s = do
  require_v1 s.signal_time "bar_close" "signal_time"
  require_v1 s.fill_time "next_bar_open" "fill_time"
  require_v1 s.missing_next_bar_policy "reject" "missing_next_bar_policy"

pub record PositionSizing : Type 0 where
  pub fraction : Decimal
  pub kind : String

unfoldable pub check_position_sizing : PositionSizing → Check
unfolding require_v1 is_fraction
check_position_sizing p = do
  require_v1 p.kind "fixed_fraction" "position_sizing"
  raise_if (not (is_fraction p.fraction)) (invalid_manifest "fraction")

pub record KindSetting : Type 0 where
  pub kind : String

unfoldable pub check_kind_setting : KindSetting → Check
check_kind_setting k = raise_if (is_blank k.kind) (invalid_manifest "kind")

pub record Rounding : Type 0 where
  pub quantity_increment : Decimal
  pub money_scale : ℤ

unfoldable pub check_rounding : Rounding → Check
unfolding require_positive_decimal
check_rounding r = do
  require_positive_decimal r.quantity_increment "quantity_increment"
  raise_if (ltb_ℤ r.money_scale (pos 0)) (invalid_manifest "money_scale")

pub record Execution : Type 0 where
  pub position_sizing : PositionSizing
  pub rounding : Rounding
  pub commission : KindSetting
  pub tax : KindSetting
  pub slippage : KindSetting
  pub liquidity : KindSetting
  pub price_limit : KindSetting

unfoldable pub check_execution : Execution → Check
unfolding require_v1
check_execution e = do
  require_v1 e.commission.kind "none" "commission"
  require_v1 e.tax.kind "none" "tax"
  require_v1 e.slippage.kind "none" "slippage"
  require_v1 e.liquidity.kind "ignore_with_warning" "liquidity"
  require_v1 e.price_limit.kind "ignore_with_warning" "price_limit"

pub record Metrics : Type 0 where
  pub annualization_basis : ℤ
  pub risk_free_rate : Decimal

unfoldable pub check_metrics : Metrics → Check
unfolding is_finite_non_negative
check_metrics m = do
  raise_if (ltb_ℤ m.annualization_basis (pos 1)) (invalid_manifest "annualization_basis")
  raise_if (not (is_finite_non_negative m.risk_free_rate)) (invalid_manifest "risk_free_rate")

pub record EngineRef : Type 0 where
  pub adapter_name : String
  pub adapter_version : String

unfoldable pub check_engine_ref : EngineRef → Check
check_engine_ref r = do
  raise_if (is_blank r.adapter_name) (invalid_manifest "adapter_name")
  raise_if (is_blank r.adapter_version) (invalid_manifest "adapter_version")

pub record RunManifestV1 : Type 0 where
  pub run_id : String
  pub strategy_ref : StrategyRef
  pub dataset_ref : DatasetRef
  pub universe : Universe
  pub period : Period
  pub capital : Capital
  pub execution : Execution
  pub metrics : Metrics
  pub engine_ref : EngineRef
  pub created_at_utc : Datetime
  pub schema_version : ℤ
  pub signal_and_fill : SignalAndFill
  pub corporate_action_treatment : String
  pub benchmark : KindSetting

unfoldable pub check_run_manifest : RunManifestV1 → Check
unfolding require_v1
check_run_manifest m = do
  raise_if (is_empty m.run_id) (invalid_manifest "run_id")
  raise_if (not (leb_ℤ m.schema_version (pos 1) && leb_ℤ (pos 1) m.schema_version))
      unsupported_schema_version
  require_v1 m.corporate_action_treatment "dataset_as_declared_no_event_adjustment"
      "corporate_action_treatment"
  require_v1 m.benchmark.kind "none" "benchmark"
  raise_if (not m.created_at_utc.is_aware) (invalid_manifest "created_at_utc")

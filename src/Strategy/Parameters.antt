-- ===== src/Strategy/Parameters.antt =====
-- The parameter classes of backend/app/domain/strategy_spec.py: a record for each, its
-- `__post_init__`, `required_warmup_bars` and `to_canonical_dict`. An exception is a `Fault`, one
-- for each `raise`.
pub mod Valid
use idx_backtest_lab.Common.{
  ℕ, ◌≡◌, Bool, true, false, ◌&&◌, not, List, [], ◌∷◌, map, if◌then◌else◌, String, Result, ok, err,
  ◌>>◌, raise_if, length, ltb, leb, ◌==◌,
}
use idx_backtest_lab.Common.Int.{ℤ, pos, ◌+ℤ◌, ltb_ℤ, leb_ℤ}
use idx_backtest_lab.Common.Text.{eqs, text_order, text_lt}
use idx_backtest_lab.Common.Sorted.{contains, to_set}
use idx_backtest_lab.Common.Json.{
  Value, int, text, list, mapping, Items, end, item, Fields, done, field,
}

-- `StrategySpecValidationError` by the place that raises it, and the `TypeError` of a `kind` that
-- cannot be hashed, which nothing catches.
pub data Fault : Type 0 where
  fast_window_not_positive slow_window_not_positive fast_window_not_less : Fault
  price_field_not_allowed : Fault
  period_too_small thresholds_out_of_order : Fault
  fast_period_not_positive slow_period_not_greater signal_period_not_positive : Fault
  num_std_dev_out_of_range : Fault
  condition_kind_unknown condition_kind_mismatch : Fault
  condition_count_out_of_range condition_kinds_repeated : Fault
  conditions_not_a_list condition_incomplete : Fault
  unsupported_kind parameters_do_not_match : Fault
  -- No fault of the source: what the model has no value for.
  untyped : Fault
  signal_time_not_bar_close eligible_after_bars_not_positive not_long_only : Fault
  empty_strategy_id version_not_positive unsupported_schema_version blank_name : Fault
  spec_kind_unsupported spec_kind_mismatch too_few_warmup_bars naive_created_at : Fault
  empty_checksum empty_canonical_json : Fault
  unhashable_kind : Fault

abbrev pub Check : Type 0
Check = Result Fault (Unit {0})

abbrev pub allowed_price_fields : List String
allowed_price_fields = "close" ∷ []

abbrev pub base_strategy_kinds : List String
base_strategy_kinds =
    "sma_crossover" ∷ "rsi_threshold" ∷ "macd_crossover" ∷ "bollinger_breakout" ∷ []

abbrev pub supported_strategy_kinds : List String
supported_strategy_kinds = "multi_indicator_combo" ∷ base_strategy_kinds

abbrev pub min_combo_conditions : ℕ
min_combo_conditions = 2

abbrev pub max_combo_conditions : ℕ
max_combo_conditions = 3

-- `s in strings`
unfoldable pub is_in : String → List String → Bool
is_in s [] = false
is_in s (t ∷ ts) = let rest = is_in s ts in if eqs s t then true else rest

unfoldable pub check_price_field : String → Check
unfolding is_in
check_price_field price_field =
    raise_if (not (is_in price_field allowed_price_fields)) price_field_not_allowed

pub record SmaCrossoverParameters : Type 0 where
  pub fast_window : ℤ
  pub slow_window : ℤ
  pub price_field : String

unfoldable pub check_sma : SmaCrossoverParameters → Check
unfolding check_price_field
check_sma p = do
  raise_if (ltb_ℤ p.fast_window (pos 1)) fast_window_not_positive
  raise_if (ltb_ℤ p.slow_window (pos 1)) slow_window_not_positive
  raise_if (leb_ℤ p.slow_window p.fast_window) fast_window_not_less
  check_price_field p.price_field

pub record RsiThresholdParameters : Type 0 where
  pub period : ℤ
  pub oversold_threshold : ℤ
  pub overbought_threshold : ℤ
  pub price_field : String

unfoldable pub check_rsi : RsiThresholdParameters → Check
unfolding check_price_field
check_rsi p = do
  raise_if (ltb_ℤ p.period (pos 2)) period_too_small
  raise_if
      (not (
        ltb_ℤ (pos 0) p.oversold_threshold
        && ltb_ℤ p.oversold_threshold p.overbought_threshold
        && ltb_ℤ p.overbought_threshold (pos 100)))
      thresholds_out_of_order
  check_price_field p.price_field

pub record MacdCrossoverParameters : Type 0 where
  pub fast_period : ℤ
  pub slow_period : ℤ
  pub signal_period : ℤ
  pub price_field : String

unfoldable pub check_macd : MacdCrossoverParameters → Check
unfolding check_price_field
check_macd p = do
  raise_if (ltb_ℤ p.fast_period (pos 1)) fast_period_not_positive
  raise_if (leb_ℤ p.slow_period p.fast_period) slow_period_not_greater
  raise_if (ltb_ℤ p.signal_period (pos 1)) signal_period_not_positive
  check_price_field p.price_field

pub record BollingerBreakoutParameters : Type 0 where
  pub period : ℤ
  pub num_std_dev : ℤ
  pub price_field : String

unfoldable pub check_bollinger : BollingerBreakoutParameters → Check
unfolding check_price_field
check_bollinger p = do
  raise_if (ltb_ℤ p.period (pos 2)) period_too_small
  raise_if (not (leb_ℤ (pos 1) p.num_std_dev && leb_ℤ p.num_std_dev (pos 4)))
      num_std_dev_out_of_range
  check_price_field p.price_field

-- `BaseStrategyParameters`
pub data BaseStrategyParameters : Type 0 where
  sma : SmaCrossoverParameters → BaseStrategyParameters
  rsi : RsiThresholdParameters → BaseStrategyParameters
  macd : MacdCrossoverParameters → BaseStrategyParameters
  bollinger : BollingerBreakoutParameters → BaseStrategyParameters

-- The kind whose entry in `_KIND_TO_PARAMETERS_TYPE` is the class of the parameters.
unfoldable pub kind_of_base : BaseStrategyParameters → String
kind_of_base (sma p) = "sma_crossover"
kind_of_base (rsi p) = "rsi_threshold"
kind_of_base (macd p) = "macd_crossover"
kind_of_base (bollinger p) = "bollinger_breakout"

unfoldable pub check_base : BaseStrategyParameters → Check
unfolding check_sma check_rsi check_macd check_bollinger
check_base (sma p) = check_sma p
check_base (rsi p) = check_rsi p
check_base (macd p) = check_macd p
check_base (bollinger p) = check_bollinger p

unfoldable pub base_warmup_bars : BaseStrategyParameters → ℤ
base_warmup_bars (sma p) = p.slow_window
base_warmup_bars (rsi p) = p.period +ℤ pos 1
base_warmup_bars (macd p) = p.slow_period +ℤ p.signal_period
base_warmup_bars (bollinger p) = p.period

unfoldable pub base_canonical_dict : BaseStrategyParameters → Fields
base_canonical_dict (sma p) =
    field "fast_window" (int p.fast_window)
      (field "slow_window" (int p.slow_window) (field "price_field" (text p.price_field) done))
base_canonical_dict (rsi p) = field "period" (int p.period) (
    field "oversold_threshold" (int p.oversold_threshold) (
      field "overbought_threshold" (int p.overbought_threshold)
        (field "price_field" (text p.price_field) done)))
base_canonical_dict (macd p) = field "fast_period" (int p.fast_period) (
    field "slow_period" (int p.slow_period)
      (field "signal_period" (int p.signal_period) (field "price_field" (text p.price_field) done)))
base_canonical_dict (bollinger p) =
    field "period" (int p.period)
      (field "num_std_dev" (int p.num_std_dev) (field "price_field" (text p.price_field) done))

pub record ComboCondition : Type 0 where
  pub kind : String
  pub parameters : BaseStrategyParameters

unfoldable pub check_condition : ComboCondition → Check
unfolding is_in kind_of_base
check_condition c = do
  raise_if (not (is_in c.kind base_strategy_kinds)) condition_kind_unknown
  raise_if (not (eqs (kind_of_base c.parameters) c.kind)) condition_kind_mismatch

pub record MultiIndicatorComboParameters : Type 0 where
  pub conditions : List ComboCondition

abbrev pub kinds : List ComboCondition → List String
kinds [] = []
kinds (c ∷ cs) = c.kind ∷ kinds cs

unfoldable pub check_combo : MultiIndicatorComboParameters → Check
unfolding to_set
check_combo p = do
  raise_if
      (not (
        leb min_combo_conditions (length p.conditions)
        && leb (length p.conditions) max_combo_conditions))
      condition_count_out_of_range
  raise_if (not (length (to_set (kinds p.conditions)) == length (kinds p.conditions)))
      condition_kinds_repeated

-- `StrategyParameters`
pub data StrategyParameters : Type 0 where
  base : BaseStrategyParameters → StrategyParameters
  combo : MultiIndicatorComboParameters → StrategyParameters

unfoldable pub kind_of : StrategyParameters → String
unfolding kind_of_base
kind_of (base b) = kind_of_base b
kind_of (combo m) = "multi_indicator_combo"

-- The greater of two.
greater : ℤ → ℤ → ℤ
greater best bars = if ltb_ℤ best bars then bars else best

-- `max(...)` over the conditions, from the greatest so far.
max_warmup : ℤ → List ComboCondition → ℤ
max_warmup best [] = best
max_warmup best (c ∷ cs) = max_warmup (greater best (base_warmup_bars c.parameters)) cs

-- `max` of no conditions raises; `check_combo` leaves at least two, so 0 is never returned there.
combo_warmup : List ComboCondition → ℤ
unfolding max_warmup greater
combo_warmup [] = pos 0
combo_warmup (c ∷ cs) = max_warmup (base_warmup_bars c.parameters) cs

unfoldable pub required_warmup_bars : StrategyParameters → ℤ
unfolding base_warmup_bars combo_warmup
required_warmup_bars (base b) = base_warmup_bars b
required_warmup_bars (combo m) = combo_warmup m.conditions

unfoldable pub condition_dict : ComboCondition → Value
unfolding base_canonical_dict
condition_dict c = mapping (
    field "kind" (text c.kind)
      (field "parameters" (mapping (base_canonical_dict c.parameters)) done))

unfoldable pub condition_items : List ComboCondition → Items
unfolding condition_dict
condition_items [] = end
condition_items (c ∷ cs) = item (condition_dict c) (condition_items cs)

unfoldable pub to_canonical_dict : StrategyParameters → Fields
unfolding base_canonical_dict condition_items
to_canonical_dict (base b) = base_canonical_dict b
to_canonical_dict (combo m) = field "conditions" (list (condition_items m.conditions)) done

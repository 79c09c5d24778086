-- ===== src/Strategy/Build.antt =====
-- `build_parameters` and `_build_combo_parameters` (backend/app/domain/strategy_spec.py). Keyword
-- arguments are bound before the checks of the class: the source meets a text, a list, a mapping or
-- null in place of a number in the checks, and raises a fault with the same code. A number that is
-- not an `int`, such as 5.5 or a NaN, passes through the source without a check of its type; the
-- classes have no value for it here, and the model ends with `untyped`.
pub mod Whole
pub mod Sound
pub mod RoundTrip
use idx_backtest_lab.Common.{
  ◌≡◌, Bool, true, false, ◌&&◌, not, Option, none, some, List, [], ◌∷◌, if◌then◌else◌, String,
  Result, ok, err, ◌>>◌, ◌>>=◌, raise_if,
}
use idx_backtest_lab.Common.Int.{ℤ}
use idx_backtest_lab.Common.Text.{eqs}
use idx_backtest_lab.Common.Json.{
  Value, null, boolean, int, fractional, text, list, mapping, Items, end, item, Fields, done, field,
  get, as_int, as_text,
}
use idx_backtest_lab.Strategy.Parameters.{
  Fault, untyped, parameters_do_not_match, unsupported_kind, conditions_not_a_list,
  condition_incomplete, condition_kind_unknown, unhashable_kind, SmaCrossoverParameters, check_sma,
  RsiThresholdParameters, check_rsi, MacdCrossoverParameters, check_macd,
  BollingerBreakoutParameters, check_bollinger, BaseStrategyParameters, sma, rsi, macd, bollinger,
  ComboCondition, check_condition, check_combo, StrategyParameters, base, combo, is_in,
  base_strategy_kinds, supported_strategy_kinds,
}

-- A missing keyword argument, or one of a wrong type, is a `TypeError`.
unfoldable pub or_type_error : {A : Type 0} → Option A → Result Fault A
or_type_error none = err parameters_do_not_match
or_type_error (some a) = ok a

unfoldable pub whole_argument : Value → Result Fault ℤ
unfolding as_int or_type_error
whole_argument (fractional s) = err untyped
whole_argument v = or_type_error (as_int v)

unfoldable pub int_argument : String → Fields → Result Fault ℤ
unfolding get or_type_error whole_argument
int_argument name raw = do v ← or_type_error (get name raw); whole_argument v

unfoldable pub text_argument : String → Fields → Result Fault String
unfolding get as_text or_type_error
text_argument name raw = do v ← or_type_error (get name raw); or_type_error (as_text v)

-- No keyword argument but these.
unfoldable pub only : List String → Fields → Bool
unfolding is_in
only names done = true
only names (field k v raw) = is_in k names && only names raw

unfoldable pub no_other : List String → Fields → Result Fault (Unit {0})
unfolding only
no_other names raw = raise_if (not (only names raw)) parameters_do_not_match

unfoldable pub build_sma : Fields → Result Fault BaseStrategyParameters
build_sma raw = do
  no_other ("fast_window" ∷ "slow_window" ∷ "price_field" ∷ []) raw
  fast ← int_argument "fast_window" raw
  slow ← int_argument "slow_window" raw
  price ← text_argument "price_field" raw
  let p : SmaCrossoverParameters = record {
    fast_window = fast;
    slow_window = slow;
    price_field = price;
  }
  check_sma p
  ok (sma p)

unfoldable pub build_rsi : Fields → Result Fault BaseStrategyParameters
build_rsi raw = do
  no_other ("period" ∷ "oversold_threshold" ∷ "overbought_threshold" ∷ "price_field" ∷ []) raw
  period ← int_argument "period" raw
  oversold ← int_argument "oversold_threshold" raw
  overbought ← int_argument "overbought_threshold" raw
  price ← text_argument "price_field" raw
  let p : RsiThresholdParameters = record {
    period = period;
    oversold_threshold = oversold;
    overbought_threshold = overbought;
    price_field = price;
  }
  check_rsi p
  ok (rsi p)

unfoldable pub build_macd : Fields → Result Fault BaseStrategyParameters
build_macd raw = do
  no_other ("fast_period" ∷ "slow_period" ∷ "signal_period" ∷ "price_field" ∷ []) raw
  fast ← int_argument "fast_period" raw
  slow ← int_argument "slow_period" raw
  signal ← int_argument "signal_period" raw
  price ← text_argument "price_field" raw
  let p : MacdCrossoverParameters = record {
    fast_period = fast;
    slow_period = slow;
    signal_period = signal;
    price_field = price;
  }
  check_macd p
  ok (macd p)

unfoldable pub build_bollinger : Fields → Result Fault BaseStrategyParameters
build_bollinger raw = do
  no_other ("period" ∷ "num_std_dev" ∷ "price_field" ∷ []) raw
  period ← int_argument "period" raw
  deviations ← int_argument "num_std_dev" raw
  price ← text_argument "price_field" raw
  let p : BollingerBreakoutParameters = record {
    period = period;
    num_std_dev = deviations;
    price_field = price;
  }
  check_bollinger p
  ok (bollinger p)

-- `build_parameters` at the kinds of `BASE_STRATEGY_KINDS`.
unfoldable pub build_base : String → Fields → Result Fault BaseStrategyParameters
unfolding build_sma build_rsi build_macd build_bollinger
build_base kind raw =
    if eqs kind "sma_crossover"
    then build_sma raw
    else if eqs kind "rsi_threshold"
    then build_rsi raw
    else if eqs kind "macd_crossover"
    then build_macd raw
    else if eqs kind "bollinger_breakout"
    then build_bollinger raw
    else err unsupported_kind

-- `build_parameters(kind, parameters)` where the parameters may be no mapping.
unfoldable pub build_from_value : String → Value → Result Fault BaseStrategyParameters
unfolding build_base
build_from_value kind (mapping raw) = build_base kind raw
build_from_value kind v = err parameters_do_not_match

-- `condition_kind not in BASE_STRATEGY_KINDS`
unfoldable pub condition_kind : Value → Result Fault String
unfolding is_in
condition_kind (text kind) =
    if is_in kind base_strategy_kinds then ok kind else err condition_kind_unknown
condition_kind (list xs) = err unhashable_kind
condition_kind (mapping fs) = err unhashable_kind
condition_kind v = err condition_kind_unknown

unfoldable pub build_condition : Option Value → Option Value → Result Fault ComboCondition
unfolding condition_kind build_from_value check_condition
build_condition (some kind) (some parameters) = do
  k ← condition_kind kind
  b ← build_from_value k parameters
  let c : ComboCondition = record { kind = k; parameters = b }
  check_condition c
  ok c
build_condition kind parameters = err condition_incomplete

unfoldable pub condition_of : Value → Result Fault ComboCondition
unfolding build_condition get
condition_of (mapping raw) = build_condition (get "kind" raw) (get "parameters" raw)
condition_of v = err condition_incomplete

-- The loop over the raw conditions.
unfoldable pub build_conditions : Items → Result Fault (List ComboCondition)
unfolding condition_of
build_conditions end = ok []
build_conditions (item v items) = do c ← condition_of v; cs ← build_conditions items; ok (c ∷ cs)

unfoldable pub combo_of : Option Value → Result Fault StrategyParameters
unfolding build_conditions check_combo
combo_of (some (list items)) = do
  conditions ← build_conditions items
  check_combo (record { conditions = conditions })
  ok (combo (record { conditions = conditions }))
combo_of v = err conditions_not_a_list

unfoldable pub build_combo_parameters : Fields → Result Fault StrategyParameters
unfolding combo_of get
build_combo_parameters raw = combo_of (get "conditions" raw)

unfoldable pub build_supported : String → Fields → Result Fault StrategyParameters
unfolding build_base build_combo_parameters
build_supported kind raw =
    if eqs kind "multi_indicator_combo"
    then build_combo_parameters raw
    else (build_base kind raw >>= λ b. ok (base b))

unfoldable pub build_parameters : String → Fields → Result Fault StrategyParameters
unfolding build_supported is_in
build_parameters kind raw = do
  raise_if (not (is_in kind supported_strategy_kinds)) unsupported_kind
  build_supported kind raw

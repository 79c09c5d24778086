-- ===== src/Engine/Signals.antt =====
-- The strategies of backend/app/infrastructure/engine/backtrader_adapter.py and their signals.
-- backtrader's indicators are named by the calls that make them; whether a line of theirs is positive
-- at a bar is a parameter.
pub mod Combo
use idx_backtest_lab.Common.{
  ℕ, Bool, true, false, ◌&&◌, ◌||◌, Option, none, some, List, [], ◌∷◌, String, Result, ok, err,
  ◌>>=◌, if◌then◌else◌,
}
use idx_backtest_lab.Common.Int.{ℤ}
use idx_backtest_lab.Common.Text.{eqs}
use idx_backtest_lab.Common.Json.{Value, int, Fields, done, field, get, as_int}
use idx_backtest_lab.Strategy.Parameters.{
  sma, rsi, macd, bollinger, base_canonical_dict, ComboCondition, StrategyParameters, base, combo,
}
use idx_backtest_lab.Engine.Sizing.{Raised, key_error, value_error, type_error, attribute_error}

-- A call of `bt.indicators` or a line of its result, the closing prices, and a constant.
pub data Indicator : Type 0 where
  close_line : Indicator
  constant : ℤ → Indicator
  simple_moving_average relative_strength : (period : ℤ) → Indicator
  macd_line macd_signal : (fast slow signal : ℤ) → Indicator
  bollinger_top bollinger_mid : (period deviation : ℤ) → Indicator

pub data Signal : Type 0 where
  cross_up cross_down : (first second : Indicator) → Signal

unfoldable number_of : Option Value → Result Raised ℤ
number_of none = err key_error
number_of (some v) = integer (as_int v)
  where
    integer : Option ℤ → Result Raised ℤ
    integer none = err type_error
    integer (some n) = ok n

-- `params[key]`, which is a number.
unfoldable pub number : Fields → String → Result Raised ℤ
unfolding number_of get
number params key = number_of (get key params)

unfoldable pub sma_lines : Fields → Result Raised (Signal × Signal)
unfolding number
sma_lines params = do
  fast ← number params "fast_window"
  slow ← number params "slow_window"
  ok (
    cross_up (simple_moving_average fast) (simple_moving_average slow),
    cross_down (simple_moving_average fast) (simple_moving_average slow),
  )

unfoldable pub rsi_lines : Fields → Result Raised (Signal × Signal)
unfolding number
rsi_lines params = do
  period ← number params "period"
  oversold ← number params "oversold_threshold"
  overbought ← number params "overbought_threshold"
  ok (
    cross_up (relative_strength period) (constant oversold),
    cross_down (relative_strength period) (constant overbought),
  )

unfoldable pub macd_lines : Fields → Result Raised (Signal × Signal)
unfolding number
macd_lines params = do
  fast ← number params "fast_period"
  slow ← number params "slow_period"
  signal ← number params "signal_period"
  ok (
    cross_up (macd_line fast slow signal) (macd_signal fast slow signal),
    cross_down (macd_line fast slow signal) (macd_signal fast slow signal),
  )

unfoldable pub bollinger_lines : Fields → Result Raised (Signal × Signal)
unfolding number
bollinger_lines params = do
  period ← number params "period"
  deviation ← number params "num_std_dev"
  ok (
    cross_up close_line (bollinger_top period deviation),
    cross_down close_line (bollinger_mid period deviation),
  )

-- `_build_signal_lines`
unfoldable pub build_signal_lines : String → Fields → Result Raised (Signal × Signal)
unfolding sma_lines rsi_lines macd_lines bollinger_lines
build_signal_lines kind params =
    if eqs kind "sma_crossover"
    then sma_lines params
    else if eqs kind "rsi_threshold"
    then rsi_lines params
    else if eqs kind "macd_crossover"
    then macd_lines params
    else if eqs kind "bollinger_breakout"
    then bollinger_lines params
    else err value_error

-- The strategy classes with their own parameters.
pub data StrategyClass : Type 0 where
  sma_crossover : (fast_window slow_window : ℤ) → StrategyClass
  rsi_threshold : (period oversold_threshold overbought_threshold : ℤ) → StrategyClass
  macd_crossover : (fast_period slow_period signal_period : ℤ) → StrategyClass
  bollinger_breakout : (period num_std_dev : ℤ) → StrategyClass
  multi_indicator_combo : List (String × Fields) → StrategyClass

sma_class : StrategyParameters → Result Raised StrategyClass
sma_class (base (sma p)) = ok (sma_crossover p.fast_window p.slow_window)
sma_class parameters = err attribute_error

rsi_class : StrategyParameters → Result Raised StrategyClass
rsi_class (base (rsi p)) = ok (rsi_threshold p.period p.oversold_threshold p.overbought_threshold)
rsi_class parameters = err attribute_error

macd_class : StrategyParameters → Result Raised StrategyClass
macd_class (base (macd p)) = ok (macd_crossover p.fast_period p.slow_period p.signal_period)
macd_class parameters = err attribute_error

bollinger_class : StrategyParameters → Result Raised StrategyClass
bollinger_class (base (bollinger p)) = ok (bollinger_breakout p.period p.num_std_dev)
bollinger_class parameters = err attribute_error

unfoldable pub condition_params : List ComboCondition → List (String × Fields)
condition_params [] = []
condition_params (c ∷ cs) = (c.kind, base_canonical_dict c.parameters) ∷ condition_params cs

combo_class : StrategyParameters → Result Raised StrategyClass
unfolding condition_params
combo_class (combo m) = ok (multi_indicator_combo (condition_params m.conditions))
combo_class parameters = err attribute_error

-- `_STRATEGY_CLASS_AND_KWARGS[kind](strategy)`
unfoldable pub class_and_kwargs : String → StrategyParameters → Result Raised StrategyClass
unfolding sma_class rsi_class macd_class bollinger_class combo_class
class_and_kwargs kind parameters =
    if eqs kind "sma_crossover"
    then sma_class parameters
    else if eqs kind "rsi_threshold"
    then rsi_class parameters
    else if eqs kind "macd_crossover"
    then macd_class parameters
    else if eqs kind "bollinger_breakout"
    then bollinger_class parameters
    else if eqs kind "multi_indicator_combo"
    then combo_class parameters
    else err key_error

-- What the `__init__` of a class keeps.
pub data Lines : Type 0 where
  single : (entry_line exit_line : Signal) → Lines
  several : (entry_lines exit_lines : List Signal) → Lines

unfoldable pub single_lines : Result Raised (Signal × Signal) → Result Raised Lines
single_lines built = built >>= λ lines. ok (single lines.0 lines.1)

-- The loop over the conditions.
unfoldable pub append_lines : List (String × Fields) → Result Raised (List Signal × List Signal)
append_lines [] = ok ([], [])
append_lines ((kind, params) ∷ conditions) = do
  lines ← build_signal_lines kind params
  rest ← append_lines conditions
  ok (lines.0 ∷ rest.0, lines.1 ∷ rest.1)

unfoldable pub init_lines : StrategyClass → Result Raised Lines
unfolding single_lines append_lines
init_lines (sma_crossover fast slow) = single_lines (
    build_signal_lines "sma_crossover"
      (field "fast_window" (int fast) (field "slow_window" (int slow) done)))
init_lines (rsi_threshold period oversold overbought) = single_lines (
    build_signal_lines "rsi_threshold" (
      field "period" (int period) (
        field "oversold_threshold" (int oversold)
          (field "overbought_threshold" (int overbought) done))))
init_lines (macd_crossover fast slow signal) = single_lines (
    build_signal_lines "macd_crossover" (
      field "fast_period" (int fast)
        (field "slow_period" (int slow) (field "signal_period" (int signal) done))))
init_lines (bollinger_breakout period deviation) = single_lines (
    build_signal_lines "bollinger_breakout"
      (field "period" (int period) (field "num_std_dev" (int deviation) done)))
init_lines (multi_indicator_combo conditions) =
    append_lines conditions >>= λ lines. ok (several lines.0 lines.1)

unfoldable pub strategy_lines : String → StrategyParameters → Result Raised Lines
strategy_lines kind parameters = class_and_kwargs kind parameters >>= init_lines

module _ (is_positive : Signal → ℕ → Bool) (length_data : ℕ) where
  unfoldable pub all_positive : List Signal → Bool
  all_positive [] = true
  all_positive (line ∷ lines) = is_positive line length_data && all_positive lines

  unfoldable pub any_positive : List Signal → Bool
  any_positive [] = false
  any_positive (line ∷ lines) = is_positive line length_data || any_positive lines

  -- `_entry_signal`
  unfoldable pub entry_signal : Lines → Bool
  unfolding all_positive
  entry_signal (single entry_line exit_line) = is_positive entry_line length_data
  entry_signal (several entry_lines exit_lines) = all_positive entry_lines

  -- `_exit_signal`
  unfoldable pub exit_signal : Lines → Bool
  unfolding any_positive
  exit_signal (single entry_line exit_line) = is_positive exit_line length_data
  exit_signal (several entry_lines exit_lines) = any_positive exit_lines

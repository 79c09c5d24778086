-- ===== src/Engine/Signals/Combo.antt =====
-- A condition of a combination gives the same signals as the strategy of its kind on its own.
use idx_backtest_lab.Common.{
  ℕ, ◌≡◌, refl, Bool, true, false, ◌&&◌, ◌||◌, List, [], ◌∷◌, Result, ok, err, All,
}
use idx_backtest_lab.Common.Json.{get, as_int}
use idx_backtest_lab.Strategy.Parameters.{
  BaseStrategyParameters, sma, rsi, macd, bollinger, kind_of_base, base_canonical_dict,
  ComboCondition, MultiIndicatorComboParameters, base, combo,
}
use idx_backtest_lab.Engine.Sizing.{Raised}
use idx_backtest_lab.Engine.Signals.{
  Signal, cross_up, cross_down, close_line, constant, simple_moving_average, relative_strength,
  macd_line, macd_signal, bollinger_top, bollinger_mid, number, sma_lines, rsi_lines, macd_lines,
  bollinger_lines, build_signal_lines, condition_params, class_and_kwargs, Lines, single, several,
  append_lines, init_lines, strategy_lines, all_positive, any_positive, entry_signal, exit_signal,
}

-- The signals of a kind, by its own parameters.
own_signals : BaseStrategyParameters → Signal × Signal
own_signals (sma p) = (
  cross_up (simple_moving_average p.fast_window) (simple_moving_average p.slow_window),
  cross_down (simple_moving_average p.fast_window) (simple_moving_average p.slow_window),
)
own_signals (rsi p) = (
  cross_up (relative_strength p.period) (constant p.oversold_threshold),
  cross_down (relative_strength p.period) (constant p.overbought_threshold),
)
own_signals (macd p) = (
  cross_up (macd_line p.fast_period p.slow_period p.signal_period)
      (macd_signal p.fast_period p.slow_period p.signal_period),
  cross_down (macd_line p.fast_period p.slow_period p.signal_period)
      (macd_signal p.fast_period p.slow_period p.signal_period),
)
own_signals (bollinger p) = (
  cross_up close_line (bollinger_top p.period p.num_std_dev),
  cross_down close_line (bollinger_mid p.period p.num_std_dev),
)

strategy_lines-base :
    (b : BaseStrategyParameters)
    → strategy_lines (kind_of_base b) (base b) ≡ ok (single (own_signals b).0 (own_signals b).1)
unfolding strategy_lines class_and_kwargs init_lines build_signal_lines sma_lines rsi_lines
    macd_lines bollinger_lines number get as_int kind_of_base own_signals
strategy_lines-base (sma p) = refl
strategy_lines-base (rsi p) = refl
strategy_lines-base (macd p) = refl
strategy_lines-base (bollinger p) = refl

build_signal_lines-base :
    (b : BaseStrategyParameters)
    → build_signal_lines (kind_of_base b) (base_canonical_dict b) ≡ ok (own_signals b)
unfolding build_signal_lines sma_lines rsi_lines macd_lines bollinger_lines number get as_int
    kind_of_base base_canonical_dict own_signals
build_signal_lines-base (sma p) = refl
build_signal_lines-base (rsi p) = refl
build_signal_lines-base (macd p) = refl
build_signal_lines-base (bollinger p) = refl

-- The kind of the condition is that of its parameters, as `check_condition` requires.
abbrev pub IsMatched : ComboCondition → Type 0
IsMatched c = c.kind ≡ kind_of_base c.parameters

own_all : List ComboCondition → List (Signal × Signal)
own_all [] = []
own_all (c ∷ cs) = own_signals c.parameters ∷ own_all cs

entries : List (Signal × Signal) → List Signal
entries [] = []
entries (l ∷ ls) = l.0 ∷ entries ls

exits : List (Signal × Signal) → List Signal
exits [] = []
exits (l ∷ ls) = l.1 ∷ exits ls

append_lines-condition_params :
    (cs : List ComboCondition)
    → All IsMatched cs
    → append_lines (condition_params cs) ≡ ok (entries (own_all cs), exits (own_all cs))
unfolding append_lines condition_params own_all entries exits
append_lines-condition_params [] h = refl
append_lines-condition_params (c ∷ cs) (h, hs) =
    rw (h, build_signal_lines-base c.parameters, append_lines-condition_params cs hs) refl

module _ (is_positive : Signal → ℕ → Bool) (length_data : ℕ) where
  -- A signal of the strategy of one condition on its own.
  abbrev pub entry_of : Result Raised Lines → Bool
  entry_of (ok lines) = entry_signal is_positive length_data lines
  entry_of (err raised) = false

  abbrev pub exit_of : Result Raised Lines → Bool
  exit_of (ok lines) = exit_signal is_positive length_data lines
  exit_of (err raised) = false

  abbrev pub each_enters : List ComboCondition → Bool
  each_enters [] = true
  each_enters (c ∷ cs) = entry_of (strategy_lines c.kind (base c.parameters)) && each_enters cs

  abbrev pub one_exits : List ComboCondition → Bool
  one_exits [] = false
  one_exits (c ∷ cs) = exit_of (strategy_lines c.kind (base c.parameters)) || one_exits cs

  all_positive-entries :
      (cs : List ComboCondition)
      → All IsMatched cs
      → all_positive is_positive length_data (entries (own_all cs)) ≡ each_enters cs
  unfolding all_positive entry_signal own_all entries
  all_positive-entries [] h = refl
  all_positive-entries (c ∷ cs) (h, hs) =
      rw (h, strategy_lines-base c.parameters, all_positive-entries cs hs) refl

  any_positive-exits :
      (cs : List ComboCondition)
      → All IsMatched cs
      → any_positive is_positive length_data (exits (own_all cs)) ≡ one_exits cs
  unfolding any_positive exit_signal own_all exits
  any_positive-exits [] h = refl
  any_positive-exits (c ∷ cs) (h, hs) =
      rw (h, strategy_lines-base c.parameters, any_positive-exits cs hs) refl

  -- A combination whose conditions have parameters of their kind is set up without an exception, it
  -- enters on a bar exactly when the strategy of every condition on its own would, and it exits
  -- exactly when that of some condition would.
  pub strategy_lines-combo :
      (m : MultiIndicatorComboParameters)
      → All IsMatched m.conditions
      → (lines : Lines) × (strategy_lines "multi_indicator_combo" (combo m) ≡ ok lines)
        × (entry_signal is_positive length_data lines ≡ each_enters m.conditions)
        × (exit_signal is_positive length_data lines ≡ one_exits m.conditions)
  unfolding strategy_lines class_and_kwargs init_lines entry_signal exit_signal
  strategy_lines-combo m h = (
    several (entries (own_all m.conditions)) (exits (own_all m.conditions)),
    rw (append_lines-condition_params m.conditions h) refl,
    all_positive-entries m.conditions h,
    any_positive-exits m.conditions h,
  )

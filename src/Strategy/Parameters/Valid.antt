-- ===== src/Strategy/Parameters/Valid.antt =====
-- What the parameter classes accept.
use idx_backtest_lab.Common.{◌≡◌, ◌↔◌, ◌≤◌, List, [], ◌∷◌, ok, arith, length, eq_iff, All}
use idx_backtest_lab.Common.Int.{ℤ, pos, ◌≤ℤ◌, ◌<ℤ◌, int_laws}
use idx_backtest_lab.Common.Text.{text_order}
use idx_backtest_lab.Common.Distinct.{length-to_set_iff}
use idx_backtest_lab.Common.Sorted.{IsDistinct}
use idx_backtest_lab.Strategy.Parameters.{
  BaseStrategyParameters, sma, rsi, macd, bollinger, check_base, ComboCondition,
  MultiIndicatorComboParameters, check_combo, StrategyParameters, base, combo, kinds, kind_of_base,
  base_warmup_bars, required_warmup_bars, greater, max_warmup, combo_warmup,
}

-- Parameters of a base kind that are accepted.
abbrev pub IsValidBase : BaseStrategyParameters → Type 0
IsValidBase (sma p) =
    (pos 1 ≤ℤ p.fast_window) × (p.fast_window <ℤ p.slow_window) × (p.price_field ≡ "close")
IsValidBase (rsi p) =
    (pos 2 ≤ℤ p.period)
    × (pos 0 <ℤ p.oversold_threshold)
    × (p.oversold_threshold <ℤ p.overbought_threshold)
    × (p.overbought_threshold <ℤ pos 100)
    × (p.price_field ≡ "close")
IsValidBase (macd p) =
    (pos 1 ≤ℤ p.fast_period)
    × (p.fast_period <ℤ p.slow_period)
    × (pos 1 ≤ℤ p.signal_period)
    × (p.price_field ≡ "close")
IsValidBase (bollinger p) =
    (pos 2 ≤ℤ p.period)
    × (pos 1 ≤ℤ p.num_std_dev)
    × (p.num_std_dev ≤ℤ pos 4)
    × (p.price_field ≡ "close")

-- Parameters of a base kind pass the checks of their class exactly when they are valid: positive
-- windows in the right order, thresholds and deviations within their bounds, and the price field
-- `close`.
pub check_base_iff : (b : BaseStrategyParameters) → (check_base b ≡ ok tt) ↔ IsValidBase b
unfolding check_base
check_base_iff (sma p) = (
  λ h. ground (arith, eq_iff p.price_field "close"),
  λ v. ground (arith, eq_iff p.price_field "close"),
)
check_base_iff (rsi p) = (
  λ h. ground (arith, eq_iff p.price_field "close"),
  λ v. ground (arith, eq_iff p.price_field "close"),
)
check_base_iff (macd p) = (
  λ h. ground (arith, eq_iff p.price_field "close"),
  λ v. ground (arith, eq_iff p.price_field "close"),
)
check_base_iff (bollinger p) = (
  λ h. ground (arith, eq_iff p.price_field "close"),
  λ v. ground (arith, eq_iff p.price_field "close"),
)

-- Conditions of a combination that are accepted: two or three, each of its own base kind with
-- accepted parameters of that kind.
pub record IsValidCombo (m : MultiIndicatorComboParameters) : Type 0 where
  pub at_least_two : 2 ≤ length m.conditions
  pub at_most_three : length m.conditions ≤ 3
  pub distinct : IsDistinct (kinds m.conditions)
  pub each : All (λ c. (kind_of_base c.parameters ≡ c.kind) × IsValidBase c.parameters) m.conditions

abbrev pub IsValidParameters : StrategyParameters → Type 0
IsValidParameters (base b) = IsValidBase b
IsValidParameters (combo m) = IsValidCombo m

-- A combination passes its own check when it has two or three conditions of different kinds.
pub check_combo_iff :
    (m : MultiIndicatorComboParameters)
    → (check_combo m ≡ ok tt)
      ↔ ((2 ≤ length m.conditions) × (length m.conditions ≤ 3) × IsDistinct (kinds m.conditions))
unfolding check_combo
check_combo_iff m = (
  λ h. (ground arith, ground arith, (length-to_set_iff (kinds m.conditions)).0 (ground arith)),
  λ h. ground (arith, (length-to_set_iff (kinds m.conditions)).1 h.2),
)

-- The bars that a kind needs are at least one.
pub base_warmup_pos : (b : BaseStrategyParameters) → IsValidBase b → pos 1 ≤ℤ base_warmup_bars b
unfolding base_warmup_bars
base_warmup_pos (sma p) v = omega arith
base_warmup_pos (rsi p) v = omega int_laws
base_warmup_pos (macd p) v = omega int_laws
base_warmup_pos (bollinger p) v = omega arith

greater-le : (a b : ℤ) → (a ≤ℤ greater a b) × (b ≤ℤ greater a b)
unfolding greater
greater-le a b = ground arith

max_warmup_best : (best : ℤ) (cs : List ComboCondition) → best ≤ℤ max_warmup best cs
unfolding max_warmup
max_warmup_best best [] = omega arith
max_warmup_best best (c ∷ cs) =
    let bars = base_warmup_bars c.parameters in
    omega (arith, greater-le best bars, max_warmup_best (greater best bars) cs)

max_warmup_each :
    (best : ℤ) (cs : List ComboCondition)
    → All (λ c. base_warmup_bars c.parameters ≤ℤ max_warmup best cs) cs
unfolding max_warmup
max_warmup_each best [] = tt
max_warmup_each best (c ∷ cs) =
    let bars = base_warmup_bars c.parameters in
    (
      omega (arith, greater-le best bars, max_warmup_best (greater best bars) cs),
      max_warmup_each (greater best bars) cs,
    )

combo_warmup_each :
    (cs : List ComboCondition) → All (λ c. base_warmup_bars c.parameters ≤ℤ combo_warmup cs) cs
unfolding combo_warmup
combo_warmup_each [] = tt
combo_warmup_each (c ∷ cs) =
    let bars = base_warmup_bars c.parameters in (max_warmup_best bars cs, max_warmup_each bars cs)

-- A combination waits for as many bars as any of its conditions needs.
combo_warmup-le :
    (m : MultiIndicatorComboParameters)
    → All (λ c. base_warmup_bars c.parameters ≤ℤ required_warmup_bars (combo m)) m.conditions
unfolding required_warmup_bars
combo_warmup-le m = combo_warmup_each m.conditions

-- ===== src/Engine/Sizing.antt =====
-- The size of an order, from `_submit_entry`
-- (backend/app/infrastructure/engine/backtrader_adapter.py). Cash and prices are whole multiples of
-- a smallest unit of `10 ^ -unit_places`. The operations of Python's decimals, which round to the
-- digits of the context and may raise, are a parameter.
use idx_backtest_lab.Common.{ℕ, Result, ◌>>=◌}
use idx_backtest_lab.Common.Int.{ℤ}
use idx_backtest_lab.Manifest.Classes.{Decimal, finite}

-- An exception that the adapter's code may raise, by its class, and any that backtrader raises itself.
pub data Raised : Type 0 where
  decimal_error index_error key_error value_error type_error : Raised
  attribute_error backtrader_error : Raised

-- `a * b`, `a / b`, `quantize(Decimal(1).scaleb(-scale), rounding=ROUND_DOWN)`,
-- `to_integral_value(rounding=ROUND_DOWN)` and `int` of decimals.
pub record Arithmetic : Type 0 where
  pub multiply : Decimal → Decimal → Result Raised Decimal
  pub divide : Decimal → Decimal → Result Raised Decimal
  pub quantize_down : Decimal → (scale : ℤ) → Result Raised Decimal
  pub to_integral_down : Decimal → Result Raised Decimal
  pub to_int : Decimal → Result Raised ℤ

module _ (a : Arithmetic) (unit_places : ℕ) (money_scale : ℤ) where
  -- `int_quantity`, for a price that is positive.
  unfoldable pub int_quantity :
      (cash : ℤ) (fraction : Decimal) (close : ℤ) (increment : Decimal) → Result Raised ℤ
  int_quantity cash fraction close quantity_increment = do
    product ← a.multiply (finite cash unit_places) fraction
    budget ← a.quantize_down product money_scale
    affordable ← a.divide budget (finite close unit_places)
    raw_units ← a.divide affordable quantity_increment
    units ← a.to_integral_down raw_units
    quantity ← a.multiply units quantity_increment
    a.to_int quantity

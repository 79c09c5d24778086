-- ===== src/Engine/State.antt =====
-- The parameters and the state of `_BaseCrossoverStrategy`
-- (backend/app/infrastructure/engine/backtrader_adapter.py), its bars and its open orders. The n-th
-- id of the factory is a parameter.
use idx_backtest_lab.Common.{
  ℕ, zero, suc, Bool, Option, none, some, List, [], ◌∷◌, String, Result, ok, err, if◌then◌else◌,
  ◌==◌,
}
use idx_backtest_lab.Common.Int.{ℤ}
use idx_backtest_lab.Common.Time.{Datetime}
use idx_backtest_lab.Manifest.Classes.{Decimal}
use idx_backtest_lab.Market.Bar.{NormalizedBar}
use idx_backtest_lab.Execution.{
  OrderSide, OrderEvent, FillEvent, PositionEvent, CashEvent, ExecutionWarning,
}
use idx_backtest_lab.Engine.Sizing.{Arithmetic, Raised, index_error}

-- The parameters that the strategy is given, with its signals by the length of the data.
pub record Params : Type 0 where
  pub arithmetic : Arithmetic
  pub unit_places : ℕ
  pub bars : List NormalizedBar
  pub instrument_id : String
  pub eligible_after_bars : ℤ
  pub fraction : Decimal
  pub quantity_increment : Decimal
  pub money_scale : ℤ
  pub currency : String
  pub initial_cash : ℤ
  pub id_factory : ℕ → String
  pub entry_signal : ℕ → Bool
  pub exit_signal : ℕ → Bool

-- What is kept of an order that is not settled.
pub record OrderContext : Type 0 where
  pub order_id : String
  pub side : OrderSide
  pub intended_quantity : ℕ
  pub created_at_utc : Datetime

-- The strategy object, and how many ids it has taken. `_order_context` is by the reference of the
-- order, the latest assignment first.
pub record State : Type 0 where
  pub available_cash : ℤ
  pub order_events : List OrderEvent
  pub fill_events : List FillEvent
  pub position_events : List PositionEvent
  pub cash_events : List CashEvent
  pub warnings : List ExecutionWarning
  pub failure_code : Option String
  pub order_context : List (ℕ × OrderContext)
  pub ids_taken : ℕ

-- `__init__`
unfoldable pub init_state : Params → State
init_state p = record {
  available_cash = p.initial_cash;
  order_events = [];
  fill_events = [];
  position_events = [];
  cash_events = [];
  warnings = [];
  failure_code = none;
  order_context = [];
  ids_taken = 0;
}

last_bar : NormalizedBar → List NormalizedBar → NormalizedBar
last_bar bar [] = bar
last_bar bar (bar' ∷ bars) = last_bar bar' bars

bar_from : ℕ → List NormalizedBar → Result Raised NormalizedBar
bar_from index [] = err index_error
bar_from zero (bar ∷ bars) = ok bar
bar_from (suc index) (bar ∷ bars) = bar_from index bars

-- `self._bar_at(len(self.data) - 1)`; the index -1 is that of the last bar.
unfoldable pub bar_at : List NormalizedBar → (length_data : ℕ) → Result Raised NormalizedBar
unfolding last_bar bar_from
bar_at bars (suc index) = bar_from index bars
bar_at [] zero = err index_error
bar_at (bar ∷ bars) zero = ok (last_bar bar bars)

-- `_order_context.get(ref)`
unfoldable pub context_of : ℕ → List (ℕ × OrderContext) → Option OrderContext
context_of ref [] = none
context_of ref ((r, c) ∷ cs) = let rest = context_of ref cs in if r == ref then some c else rest

-- `del self._order_context[ref]`
unfoldable pub without : ℕ → List (ℕ × OrderContext) → List (ℕ × OrderContext)
without ref [] = []
without ref ((r, c) ∷ cs) = let rest = without ref cs in if r == ref then rest else (r, c) ∷ rest

-- ===== src/Engine/Callbacks/Accounts.antt =====
-- The books of the strategy: its cash, its fills, and the events of cash and position.
use idx_backtest_lab.Common.{ℕ, ◌≡◌, refl, List, [], ◌∷◌, ◌++◌, ok}
use idx_backtest_lab.Common.Int.{ℤ, pos, ◌+ℤ◌, ◌-ℤ◌, ◌*ℤ◌, int_laws}
use idx_backtest_lab.Market.Bar.{NormalizedBar}
use idx_backtest_lab.Execution.{OrderSide, buy, sell, FillEvent, PositionEvent, CashEvent}
use idx_backtest_lab.Engine.State.{Params, OrderContext, State, init_state}
use idx_backtest_lab.Engine.Callbacks.{
  Callback, submit, warn, settled_cash, position_after, fill_event, cash_event, position_event,
  fill_on, reject, handle_all,
}
use idx_backtest_lab.Engine.Callbacks.Steps.{
  Step, idle, warned, submitted, filled_order, rejected_order, handle_all-invariant,
}

-- What a purchase takes from the cash and a sale adds to it.
abbrev pub change : OrderSide → FillEvent → ℤ
change buy f = pos 0 -ℤ f.quantity *ℤ f.price
change sell f = f.quantity *ℤ f.price

abbrev pub shares_after : OrderSide → FillEvent → ℕ
shares_after buy f = f.quantity
shares_after sell f = 0

-- A fill is booked on an account: the cash event starts from its cash and adds the value of the
-- trade, the position event has the shares after the trade, and both have the time of the fill.
pub record IsBooking (cash : ℤ) (f : FillEvent) (e : CashEvent) (q : PositionEvent) : Type 0 where
  pub before : e.cash_before ≡ cash
  pub after : e.cash_after ≡ cash +ℤ change f.side f
  pub cash_time : e.timestamp_utc ≡ f.filled_at_utc
  pub position_time : q.timestamp_utc ≡ f.filled_at_utc
  pub shares : q.quantity ≡ shares_after f.side f

-- An account that is opened with some cash, after any number of fills.
pub data Account (initial : ℤ)
    : ℤ → List FillEvent → List CashEvent → List PositionEvent → Type 0 where
  opened : Account initial initial [] [] []
  booked :
      (cash : ℤ) (fills : List FillEvent) (events : List CashEvent) (positions : List PositionEvent)
      (f : FillEvent) (e : CashEvent) (q : PositionEvent)
      → Account initial cash fills events positions
      → IsBooking cash f e q
      → Account initial e.cash_after (fills ++ f ∷ []) (events ++ e ∷ []) (positions ++ q ∷ [])

abbrev pub IsBooked : Params → State → Type 0
IsBooked p s = Account p.initial_cash s.available_cash s.fill_events s.cash_events s.position_events

module _ (p : Params) where
  fill_IsBooking :
      (side : OrderSide) (c : OrderContext) (cash : ℤ) (bar : NormalizedBar)
      → c.side ≡ side
      → IsBooking cash
          (fill_event p c bar)
          (cash_event p c bar cash
            (settled_cash c.side cash (c.intended_quantity *ℤ bar.open_price)))
          (position_event p c bar)
  unfolding fill_event cash_event position_event settled_cash position_after
  fill_IsBooking buy c cash bar e = record {
    before = refl;
    after = rw e (grind int_laws);
    cash_time = refl;
    position_time = refl;
    shares = rw e refl;
  }
  fill_IsBooking sell c cash bar e = record {
    before = refl;
    after = rw e refl;
    cash_time = refl;
    position_time = refl;
    shares = rw e refl;
  }

  fill_on-IsBooked :
      (ref : ℕ) (c : OrderContext) (s : State) (bar : NormalizedBar)
      → IsBooked p s
      → IsBooked p (fill_on p ref c s bar)
  unfolding fill_on cash_event
  fill_on-IsBooked ref c s bar h =
      booked s.available_cash s.fill_events s.cash_events s.position_events (fill_event p c bar) _
        (position_event p c bar) h (fill_IsBooking c.side c s.available_cash bar refl)

  Step-IsBooked : (s s' : State) → Step p s s' → IsBooked p s → IsBooked p s'
  unfolding warn submit reject
  Step-IsBooked s s' (idle t) h = h
  Step-IsBooked s s' (warned warning t) h = h
  Step-IsBooked s s' (submitted ref side quantity created_at t positive) h = h
  Step-IsBooked s s' (filled_order ref c bar t known) h = fill_on-IsBooked ref c t bar h
  Step-IsBooked s s' (rejected_order ref c status_name t known) h = h

  -- Whatever callbacks backtrader makes, in whatever order, the strategy's cash and its events are
  -- those of an account that is opened with the initial cash and books one fill after the other.
  pub handle_all-IsBooked :
      (calls : List Callback) (s : State) → handle_all p calls (init_state p) ≡ ok s → IsBooked p s
  unfolding init_state
  handle_all-IsBooked calls s e =
      handle_all-invariant p (IsBooked p) Step-IsBooked calls (init_state p) s e opened

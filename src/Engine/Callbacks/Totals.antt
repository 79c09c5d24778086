-- ===== src/Engine/Callbacks/Totals.antt =====
-- The cash of the strategy by the totals of its fills.
use idx_backtest_lab.Common.{◌≡◌, refl, List, [], ◌∷◌, ◌++◌, ok}
use idx_backtest_lab.Common.Int.{ℤ, pos, ◌+ℤ◌, ◌-ℤ◌, ◌*ℤ◌, int_laws}
use idx_backtest_lab.Execution.{OrderSide, buy, sell, FillEvent, CashEvent, PositionEvent}
use idx_backtest_lab.Engine.State.{Params, State, init_state}
use idx_backtest_lab.Engine.Callbacks.{Callback, handle_all}
use idx_backtest_lab.Engine.Callbacks.Accounts.{
  change, Account, opened, booked, handle_all-IsBooked,
}

-- The value of the fills of one side.
abbrev value_if : OrderSide → OrderSide → FillEvent → ℤ
value_if buy buy f = f.quantity *ℤ f.price
value_if sell sell f = f.quantity *ℤ f.price
value_if side other f = pos 0

abbrev pub total : OrderSide → List FillEvent → ℤ
total side [] = pos 0
total side (f ∷ fs) = value_if side f.side f +ℤ total side fs

total-append :
    (side : OrderSide) (fs : List FillEvent) (f : FillEvent)
    → total side (fs ++ f ∷ []) ≡ total side fs +ℤ value_if side f.side f
total-append side [] f = grind int_laws
total-append side (g ∷ fs) f = rw (total-append side fs f) (grind int_laws)

change-values :
    (side : OrderSide) (f : FillEvent) → change side f ≡ value_if sell side f -ℤ value_if buy side f
change-values buy f = refl
change-values sell f = grind int_laws

regroup :
    (initial sold bought in_ out : ℤ)
    → initial +ℤ sold -ℤ bought +ℤ (in_ -ℤ out) ≡ initial +ℤ (sold +ℤ in_) -ℤ (bought +ℤ out)
regroup initial sold bought in_ out = grind int_laws

Account-cash :
    {initial cash : ℤ} {fills : List FillEvent} {events : List CashEvent}
    {positions : List PositionEvent}
    → Account initial cash fills events positions
    → cash ≡ initial +ℤ total sell fills -ℤ total buy fills
Account-cash {initial} opened = grind int_laws
Account-cash {initial} (booked cash fills events positions f e q account booking) =
    rw
      (
        booking.after,
        Account-cash account,
        change-values f.side f,
        total-append sell fills f,
        total-append buy fills f,
      )
      (regroup initial (total sell fills) (total buy fills) (value_if sell f.side f)
        (value_if buy f.side f))

-- After any callbacks, the strategy's cash is the initial cash with the value of the sales added and
-- that of the purchases taken off, as its fills report them.
pub handle_all-cash :
    (p : Params) (calls : List Callback) (s : State)
    → handle_all p calls (init_state p) ≡ ok s
    → s.available_cash ≡ p.initial_cash +ℤ total sell s.fill_events -ℤ total buy s.fill_events
handle_all-cash p calls s e = Account-cash (handle_all-IsBooked p calls s e)

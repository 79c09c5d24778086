-- ===== src/Engine/Callbacks.antt =====
-- The callbacks that backtrader makes on `_BaseCrossoverStrategy`
-- (backend/app/infrastructure/engine/backtrader_adapter.py). A callback carries what the code reads of
-- backtrader: the length of the data, the size of the position, and the order.
pub mod Steps
pub mod Accounts
pub mod Totals
pub mod Orders
pub mod Reports
use idx_backtest_lab.Common.{
  ℕ, suc, ◌+◌, Bool, true, false, ◌&&◌, Option, none, some, List, [], ◌∷◌, ◌++◌, String, Result, ok,
  err, ◌>>=◌, if◌then◌else◌, ◌==◌,
}
use idx_backtest_lab.Common.Int.{ℤ, pos, pos_part, neg_part, ltb_ℤ, leb_ℤ, ◌+ℤ◌, ◌-ℤ◌, ◌*ℤ◌}
use idx_backtest_lab.Common.Time.{Datetime}
use idx_backtest_lab.Market.Bar.{NormalizedBar}
use idx_backtest_lab.Execution.{
  OrderSide, buy, sell, OrderStatus, filled, rejected, OrderEvent, FillEvent, PositionEvent,
  CashEvent, ExecutionWarning,
}
use idx_backtest_lab.Engine.Sizing.{Raised, int_quantity}
use idx_backtest_lab.Engine.State.{Params, OrderContext, State, bar_at, context_of, without}

-- The statuses of an order that the code names, and the others.
pub data BtStatus : Type 0 where
  completed canceled margin rejected_by_broker another : BtStatus

pub data Callback : Type 0 where
  next : (length_data : ℕ) (position_size : ℤ) (new_ref : ℕ) → Callback
  notify_order : (length_data ref : ℕ) (status : BtStatus) (status_name : String) → Callback

-- The order that is submitted, with the next id of the factory, under the reference it is given.
unfoldable pub submit : Params → ℕ → OrderSide → ℕ → Datetime → State → State
submit p ref side quantity created_at s = record {
  available_cash = s.available_cash;
  order_events = s.order_events;
  fill_events = s.fill_events;
  position_events = s.position_events;
  cash_events = s.cash_events;
  warnings = s.warnings;
  failure_code = s.failure_code;
  order_context =
      (
        ref,
        record {
          order_id = p.id_factory s.ids_taken;
          side = side;
          intended_quantity = quantity;
          created_at_utc = created_at;
        },
      )
      ∷ without ref s.order_context;
  ids_taken = suc s.ids_taken;
}

unfoldable pub warn : ExecutionWarning → State → State
warn warning s = record {
  available_cash = s.available_cash;
  order_events = s.order_events;
  fill_events = s.fill_events;
  position_events = s.position_events;
  cash_events = s.cash_events;
  warnings = s.warnings ++ warning ∷ [];
  failure_code = s.failure_code;
  order_context = s.order_context;
  ids_taken = s.ids_taken;
}

unfoldable pub warning_at : Params → NormalizedBar → (code message : String) → ExecutionWarning
warning_at p bar code message = record {
  code = code;
  message = message;
  instrument_id = some p.instrument_id;
  timestamp_utc = some bar.timestamp_utc;
}

-- `_submit_entry` from the size of the order on.
unfoldable pub submit_sized : Params → NormalizedBar → ℕ → State → ℤ → State
submit_sized p bar ref s quantity =
    if leb_ℤ quantity (pos 0)
    then warn
        (warning_at p bar "position_sizing_zero_quantity"
          "Available cash and fraction round down to zero quantity; no order submitted.")
        s
    else submit p ref buy (pos_part quantity) bar.timestamp_utc s

-- `_submit_entry`
unfoldable pub submit_entry : Params → NormalizedBar → ℕ → State → Result Raised State
submit_entry p bar ref s =
    let sized =
      int_quantity p.arithmetic p.unit_places p.money_scale s.available_cash p.fraction bar.close
        p.quantity_increment in
    if leb_ℤ bar.close (pos 0)
    then ok s
    else sized >>= λ quantity. ok (submit_sized p bar ref s quantity)

-- `_submit_exit`
unfoldable pub submit_exit : Params → NormalizedBar → ℕ → ℤ → State → State
submit_exit p bar ref position_size s =
    submit p ref sell (pos_part position_size) bar.timestamp_utc s

-- `next` on its bar.
unfoldable pub trade_on : Params → ℕ → ℤ → ℕ → State → NormalizedBar → Result Raised State
trade_on p length_data position_size ref s bar =
    if pos_part position_size + neg_part position_size == 0 && p.entry_signal length_data
    then submit_entry p bar ref s
    else if ltb_ℤ (pos 0) position_size && p.exit_signal length_data
    then ok (submit_exit p bar ref position_size s)
    else ok s

unfoldable pub on_next : Params → ℕ → ℤ → ℕ → State → Result Raised State
on_next p length_data position_size ref s =
    if ltb_ℤ (pos length_data) p.eligible_after_bars
    then ok s
    else bar_at p.bars length_data >>= trade_on p length_data position_size ref s

abbrev pub order_event : Params → OrderContext → OrderStatus → Option String → OrderEvent
order_event p c status reason = record {
  order_id = c.order_id;
  instrument_id = p.instrument_id;
  side = c.side;
  created_at_utc = c.created_at_utc;
  intended_quantity = c.intended_quantity;
  status = status;
  rejection_reason = reason;
}

-- The cash after a fill, the cost per share and the size of the position, and the reason.
unfoldable pub settled_cash : OrderSide → (cash trade_value : ℤ) → ℤ
settled_cash buy cash trade_value = cash -ℤ trade_value
settled_cash sell cash trade_value = cash +ℤ trade_value

unfoldable pub average_cost_of : OrderSide → ℤ → ℤ
average_cost_of buy price = price
average_cost_of sell price = pos 0

unfoldable pub position_after : OrderSide → ℕ → ℕ
position_after buy quantity = quantity
position_after sell quantity = 0

unfoldable pub reason_of : OrderSide → String
reason_of buy = "buy_fill"
reason_of sell = "sell_fill"

unfoldable pub fill_event : Params → OrderContext → NormalizedBar → FillEvent
fill_event p c bar = record {
  order_id = c.order_id;
  instrument_id = p.instrument_id;
  side = c.side;
  filled_at_utc = bar.timestamp_utc;
  quantity = c.intended_quantity;
  price = bar.open_price;
  currency = p.currency;
  commission = pos 0;
  tax = pos 0;
  slippage = pos 0;
}

unfoldable pub cash_event : Params → OrderContext → NormalizedBar → (before after : ℤ) → CashEvent
unfolding reason_of
cash_event p c bar before after = record {
  timestamp_utc = bar.timestamp_utc;
  currency = p.currency;
  cash_before = before;
  cash_after = after;
  reason = reason_of c.side;
}

unfoldable pub position_event : Params → OrderContext → NormalizedBar → PositionEvent
unfolding reason_of position_after average_cost_of
position_event p c bar = record {
  timestamp_utc = bar.timestamp_utc;
  instrument_id = p.instrument_id;
  quantity = position_after c.side c.intended_quantity;
  average_cost = average_cost_of c.side bar.open_price;
  reason = reason_of c.side;
}

-- The warning of a bar without volume.
unfoldable pub volume_warnings : Params → NormalizedBar → List ExecutionWarning
volume_warnings p bar =
    if pos_part bar.volume + neg_part bar.volume == 0
    then warning_at p bar "zero_volume_fill" "Fill occurred on a bar with zero recorded volume."
      ∷ []
    else []

-- `_handle_fill` on its bar.
unfoldable pub fill_on : Params → ℕ → OrderContext → State → NormalizedBar → State
fill_on p ref c s bar =
    let cash = settled_cash c.side s.available_cash (c.intended_quantity *ℤ bar.open_price) in
    record {
      available_cash = cash;
      order_events = s.order_events ++ order_event p c filled none ∷ [];
      fill_events = s.fill_events ++ fill_event p c bar ∷ [];
      position_events = s.position_events ++ position_event p c bar ∷ [];
      cash_events = s.cash_events ++ cash_event p c bar s.available_cash cash ∷ [];
      warnings = s.warnings ++ volume_warnings p bar;
      failure_code = s.failure_code;
      order_context = without ref s.order_context;
      ids_taken = s.ids_taken;
    }

-- `_handle_fill`
unfoldable pub handle_fill : Params → ℕ → ℕ → OrderContext → State → Result Raised State
handle_fill p length_data ref c s = bar_at p.bars length_data >>= λ bar. ok (fill_on p ref c s bar)

-- The rejection of an order.
unfoldable pub reject : Params → ℕ → OrderContext → String → State → State
reject p ref c status_name s = record {
  available_cash = s.available_cash;
  order_events = s.order_events ++ order_event p c rejected (some status_name) ∷ [];
  fill_events = s.fill_events;
  position_events = s.position_events;
  cash_events = s.cash_events;
  warnings = s.warnings;
  failure_code = s.failure_code;
  order_context = without ref s.order_context;
  ids_taken = s.ids_taken;
}

-- `notify_order` of an order that is known.
unfoldable pub notify_known :
    Params → (length_data ref : ℕ) → BtStatus → String → OrderContext → State → Result Raised State
notify_known p length_data ref completed status_name c s = handle_fill p length_data ref c s
notify_known p length_data ref canceled status_name c s = ok (reject p ref c status_name s)
notify_known p length_data ref margin status_name c s = ok (reject p ref c status_name s)
notify_known p length_data ref rejected_by_broker status_name c s =
    ok (reject p ref c status_name s)
notify_known p length_data ref another status_name c s = ok s

unfoldable pub on_notify :
    Params
    → (length_data ref : ℕ) → BtStatus
    → String
    → State
    → Option OrderContext
    → Result Raised State
on_notify p length_data ref status status_name s none = ok s
on_notify p length_data ref status status_name s (some c) =
    notify_known p length_data ref status status_name c s

unfoldable pub handle : Params → Callback → State → Result Raised State
handle p (next length_data position_size ref) s = on_next p length_data position_size ref s
handle p (notify_order length_data ref status status_name) s =
    on_notify p length_data ref status status_name s (context_of ref s.order_context)

-- The callbacks one after the other.
unfoldable pub handle_all : Params → List Callback → State → Result Raised State
handle_all p [] s = ok s
handle_all p (call ∷ calls) s = handle p call s >>= handle_all p calls

unfoldable pub code_at_stop : List (ℕ × OrderContext) → Option String → Option String
code_at_stop [] code = code
code_at_stop (c ∷ cs) code = some "missing_next_bar"

-- `stop`
unfoldable pub stop : State → State
stop s = record {
  available_cash = s.available_cash;
  order_events = s.order_events;
  fill_events = s.fill_events;
  position_events = s.position_events;
  cash_events = s.cash_events;
  warnings = s.warnings;
  failure_code = code_at_stop s.order_context s.failure_code;
  order_context = s.order_context;
  ids_taken = s.ids_taken;
}

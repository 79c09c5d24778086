-- ===== src/Artifact/Snapshots.antt =====
-- `build_portfolio_snapshots` (backend/app/domain/run_artifact.py). The indexes into the events are
-- the events that are left. Times are compared by their instants.
pub mod Reference
use idx_backtest_lab.Common.{
  ℕ, ◌+◌, zero, suc, ◌≡◌, refl, ◌≤◌, Bool, true, false, Option, none, some, List, [], ◌∷◌, arith,
  leb, ◌==◌, if◌then◌else◌, String,
}
use idx_backtest_lab.Common.Int.{ℤ, pos, ◌+ℤ◌, ◌*ℤ◌}
use idx_backtest_lab.Common.Time.{Datetime}
use idx_backtest_lab.Execution.{CashEvent, PositionEvent}
use idx_backtest_lab.Market.Bar.{NormalizedBar}

pub data SnapshotValuationStatus : Type 0 where
  valid not_available : SnapshotValuationStatus

pub record PortfolioSnapshot : Type 0 where
  pub sequence : ℕ
  pub timestamp_utc : Datetime
  pub cash : ℤ
  pub holdings_value : ℤ
  pub total_equity : ℤ
  pub currency : String
  pub status : SnapshotValuationStatus
  pub reason : Option String

-- `while events and events[0].timestamp_utc <= t: current = value(events[0]); ...`
module _ {E V : Type 0} (time : E → Datetime) (value : E → V) (t : Datetime) where
  unfoldable pub advance : V → List E → V × List E
  advance current [] = (current, [])
  advance current (e ∷ events) =
      let rest = advance (value e) events in
      if leb (time e).instant t.instant then rest else (current, e ∷ events)

unfoldable pub advance_cash : Datetime → ℤ → List CashEvent → ℤ × List CashEvent
unfolding advance
advance_cash = advance (λ e. e.timestamp_utc) (λ e. e.cash_after)

unfoldable pub advance_position : Datetime → ℕ → List PositionEvent → ℕ × List PositionEvent
unfolding advance
advance_position = advance (λ e. e.timestamp_utc) (λ e. e.quantity)

-- One snapshot, from the cash and the quantity at the end of the bar.
unfoldable pub snapshot : String → ℕ → NormalizedBar → ℤ → ℕ → PortfolioSnapshot
snapshot currency sequence bar cash quantity =
    let holdings_value = if quantity == 0 then pos 0 else quantity *ℤ bar.close in
    record {
      sequence = sequence;
      timestamp_utc = bar.timestamp_utc;
      cash = cash;
      holdings_value = holdings_value;
      total_equity = cash +ℤ holdings_value;
      currency = currency;
      status = valid;
      reason = none;
    }

-- The loop over the bars.
unfoldable pub snapshots_from :
    String
    → ℕ
    → List NormalizedBar
    → ℤ
    → List CashEvent
    → ℕ
    → List PositionEvent
    → List PortfolioSnapshot
snapshots_from currency sequence [] cash cash_events quantity position_events = []
snapshots_from currency sequence (bar ∷ bars) cash cash_events quantity position_events =
    let (cash', cash_events') = advance_cash bar.timestamp_utc cash cash_events in
    let (quantity', position_events') =
      advance_position bar.timestamp_utc quantity position_events in
    snapshot currency sequence bar cash' quantity'
    ∷ snapshots_from currency (sequence + 1) bars cash' cash_events' quantity' position_events'

unfoldable pub build_portfolio_snapshots :
    List NormalizedBar → List CashEvent → List PositionEvent → ℤ → String → List PortfolioSnapshot
unfolding snapshots_from
build_portfolio_snapshots bars cash_events position_events initial_cash currency =
    snapshots_from currency 0 bars initial_cash cash_events 0 position_events

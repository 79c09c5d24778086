-- ===== src/Artifact/Tests.antt =====
-- Concrete bars, fills and snapshots.
use idx_backtest_lab.Common.{
  ℕ, ◌≡◌, ◌+◌, ◌⊎◌, true, none, some, List, [], ◌∷◌, arith, length, if◌then◌else◌,
}
use idx_backtest_lab.Common.Int.{pos, ltb_ℤ}
use idx_backtest_lab.Common.Time.{Datetime}
use idx_backtest_lab.Execution.{OrderSide, buy, sell, FillEvent, CashEvent, PositionEvent}
use idx_backtest_lab.Market.Bar.{NormalizedBar}
use idx_backtest_lab.Optimization.Partitions.{allowed_objective_metrics}
use idx_backtest_lab.Artifact.Snapshots.{PortfolioSnapshot, valid, build_portfolio_snapshots}
use idx_backtest_lab.Artifact.Snapshots.Reference.{valued_from, build_portfolio_snapshots-valued}
use idx_backtest_lab.Artifact.Fifo.{compute_fifo_realized_pnl}
use idx_backtest_lab.Artifact.Fifo.Units.{
  share_profits, compute_fifo_realized_pnl-eq_shares, sale_count, length-compute_fifo_realized_pnl,
}
use idx_backtest_lab.Artifact.Metrics.{
  Fraction, ratio, Power, invalid_operation, valid_only, max_drawdown_metric, compute_metrics,
  trade_metrics, exposure_metric, no_drawdown,
}
use idx_backtest_lab.Artifact.Metrics.Laws.{
  HasShare, metric, Computes, compute_metrics-Computes, win_rate_and_exposure-HasShare,
}
use idx_backtest_lab.Artifact.Metrics.Drawdown.{
  IsFall, IsWorst, IsFallIn, max_drawdown_metric-IsWorst,
}

abbrev at_time : ℕ → Datetime
at_time n = record { instant = n; is_aware = true }

abbrev bar_at : ℕ → ℕ → NormalizedBar
bar_at n price = record {
  bar_id = "bar";
  dataset_id = "data";
  source_instrument_identifier = "BBCA";
  timestamp_utc = at_time n;
  bar_interval = "1d";
  open_price = pos price;
  high = pos price;
  low = pos price;
  close = pos price;
  volume = pos 100;
  currency = none;
  source_row_id = none;
}

abbrev bars : List NormalizedBar
bars = bar_at 10 100 ∷ bar_at 20 110 ∷ bar_at 30 90 ∷ []

abbrev bought : CashEvent
bought = record {
  timestamp_utc = at_time 20;
  currency = "IDR";
  cash_before = pos 1000;
  cash_after = pos 450;
  reason = "fill";
}

abbrev opened : PositionEvent
opened = record {
  timestamp_utc = at_time 20;
  instrument_id = "BBCA";
  quantity = 5;
  average_cost = pos 110;
  reason = "fill";
}

build_portfolio_snapshots-valued_example :
    build_portfolio_snapshots bars (bought ∷ []) (opened ∷ []) (pos 1000) "IDR"
    ≡ valued_from "IDR" (pos 1000) (bought ∷ []) (opened ∷ []) 0 bars
build_portfolio_snapshots-valued_example =
    build_portfolio_snapshots-valued bars (bought ∷ []) (opened ∷ []) (pos 1000) "IDR"
      ((omega arith, (omega arith, tt)), ((omega arith, tt), (tt, tt))) (tt, tt) (tt, tt)

abbrev fill_of : OrderSide → ℕ → ℕ → FillEvent
fill_of side quantity price = record {
  order_id = "order";
  instrument_id = "BBCA";
  side = side;
  filled_at_utc = at_time 20;
  quantity = quantity;
  price = pos price;
  currency = "IDR";
  commission = pos 1;
  tax = pos 0;
  slippage = pos 0;
}

-- Two purchases, and a sale that closes the first and a part of the second.
abbrev fills : List FillEvent
fills = fill_of buy 3 100 ∷ fill_of buy 4 120 ∷ fill_of sell 5 130 ∷ []

compute_fifo_realized_pnl-eq_shares_example :
    compute_fifo_realized_pnl fills ≡ share_profits fills []
compute_fifo_realized_pnl-eq_shares_example = compute_fifo_realized_pnl-eq_shares fills

length-compute_fifo_realized_pnl_example :
    length (compute_fifo_realized_pnl (fill_of sell 5 130 ∷ []))
    ≡ sale_count (fill_of sell 5 130 ∷ [])
length-compute_fifo_realized_pnl_example =
    length-compute_fifo_realized_pnl (fill_of sell 5 130 ∷ [])

abbrev snapshot_of : ℕ → ℕ → ℕ → PortfolioSnapshot
snapshot_of sequence cash holdings = record {
  sequence = sequence;
  timestamp_utc = at_time sequence;
  cash = pos cash;
  holdings_value = pos holdings;
  total_equity = pos (cash + holdings);
  currency = "IDR";
  status = valid;
  reason = none;
}

abbrev falling : List PortfolioSnapshot
falling = snapshot_of 1 450 450 ∷ snapshot_of 2 450 600 ∷ []

max_drawdown_metric-IsWorst_example :
    (f : Fraction) × ((max_drawdown_metric (snapshot_of 0 1000 0 ∷ falling)).value ≡ some (ratio f))
    × IsFall f
    × IsWorst f (snapshot_of 0 1000 0 ∷ falling)
    × ((f ≡ no_drawdown) ⊎ IsFallIn f (snapshot_of 0 1000 0 ∷ falling))
max_drawdown_metric-IsWorst_example =
    max_drawdown_metric-IsWorst (snapshot_of 0 1000 0) falling
      (omega arith, (omega arith, (omega arith, tt)))

-- A power that raises for a negative base.
abbrev power : Power
power base exponent = if ltb_ℤ base.numerator (pos 0) then some invalid_operation else none

compute_metrics-Computes_example :
    Computes power
      (pos 1000)
      (valid_only falling)
      252
      allowed_objective_metrics
      (compute_metrics power (pos 1000) falling fills 252)
compute_metrics-Computes_example = compute_metrics-Computes power (pos 1000) falling fills 252

win_rate_and_exposure-HasShare_example :
    HasShare (metric "win_rate" (trade_metrics fills)) × HasShare (exposure_metric falling).value
win_rate_and_exposure-HasShare_example = win_rate_and_exposure-HasShare fills falling

-- ===== src/Artifact/Fifo.antt =====
-- `compute_fifo_realized_pnl` (backend/app/domain/run_artifact.py).
pub mod Units
use idx_backtest_lab.Common.{
  ℕ, ◌-◌, ◌≡◌, Bool, true, false, List, [], ◌∷◌, ◌++◌, ltb, ◌==◌, if◌then◌else◌, min,
}
use idx_backtest_lab.Common.Int.{ℤ, pos, ◌+ℤ◌, ◌-ℤ◌, ◌*ℤ◌}
use idx_backtest_lab.Execution.{FillEvent, OrderSide, buy, sell}

-- An open lot: how many shares are left of it, and their price.
abbrev pub Lot : Type 0
Lot = ℕ × ℤ

-- `while remaining > 0 and open_lots`: the profit and the lots after the loop. When a lot is larger
-- than what remains, nothing remains after it, so the loop ends there.
unfoldable pub close_lots : ℤ → ℕ → ℤ → List Lot → ℤ × List Lot
close_lots price remaining pnl [] = (pnl, [])
close_lots price remaining pnl ((lot_quantity, lot_price) ∷ lots) =
    let matched = min remaining lot_quantity in
    let pnl' = pnl +ℤ matched *ℤ (price -ℤ lot_price) in
    let rest = close_lots price (remaining - matched) pnl' lots in
    if ltb 0 remaining
    then if matched == lot_quantity
      then rest
      else (pnl', (lot_quantity - matched, lot_price) ∷ lots)
    else (pnl, (lot_quantity, lot_price) ∷ lots)

-- What a fill costs beyond its price.
unfoldable pub costs : FillEvent → ℤ
costs fill = fill.commission +ℤ fill.tax +ℤ fill.slippage

-- One round of the loop over the fills, with the later rounds given.
on_fill : OrderSide → FillEvent → List Lot → (List Lot → List ℤ) → List ℤ
unfolding close_lots costs
on_fill buy fill open_lots later = later (open_lots ++ (fill.quantity, fill.price) ∷ [])
on_fill sell fill open_lots later =
    let (pnl, open_lots') = close_lots fill.price fill.quantity (pos 0) open_lots in
    (pnl -ℤ costs fill) ∷ later open_lots'

unfoldable pub realized_from : List FillEvent → List Lot → List ℤ
unfolding on_fill
realized_from [] open_lots = []
realized_from (fill ∷ fills) open_lots = on_fill fill.side fill open_lots (realized_from fills)

unfoldable pub compute_fifo_realized_pnl : List FillEvent → List ℤ
unfolding realized_from
compute_fifo_realized_pnl fills = realized_from fills []

-- ===== src/Artifact/Metrics.antt =====
-- `compute_metrics` and its helpers (backend/app/domain/run_artifact.py). A quotient of decimals is
-- kept as a fraction; the source rounds it to the 28 digits of the decimal context. Whether a power of
-- decimals raises is a parameter: it does for a negative base or a result that is too large.
pub mod Laws
pub mod Drawdown
use idx_backtest_lab.Common.{
  ℕ, zero, suc, ◌+◌, ◌-◌, Bool, true, false, ◌&&◌, Option, none, some, List, [], ◌∷◌, ◌++◌, ltb,
  if◌then◌else◌, String, length, Result, ok, err, ◌>>=◌,
}
use idx_backtest_lab.Common.Int.{ℤ, pos, pos_part, ◌+ℤ◌, ◌-ℤ◌, ◌*ℤ◌, ltb_ℤ, leb_ℤ}
use idx_backtest_lab.Execution.{FillEvent}
use idx_backtest_lab.Artifact.Snapshots.{
  PortfolioSnapshot, SnapshotValuationStatus, valid, not_available,
}
use idx_backtest_lab.Artifact.Fifo.{compute_fifo_realized_pnl}

-- A quotient, whose divisor is positive wherever the source divides.
pub record Fraction : Type 0 where
  pub numerator : ℤ
  pub denominator : ℕ

-- What a metric is, or a value of its inputs: an amount of money, a number, a quotient, or
-- `ratio ** exponent - 1`.
pub data MetricValue : Type 0 where
  amount : ℤ → MetricValue
  count : ℕ → MetricValue
  ratio : Fraction → MetricValue
  compounded : Fraction → Fraction → MetricValue

pub data MetricStatus : Type 0 where
  available unavailable : MetricStatus

pub record MetricRecord : Type 0 where
  pub metric_key : String
  pub status : MetricStatus
  pub definition_version : ℕ
  pub calculation_input : List (String × MetricValue)
  pub value : Option MetricValue
  pub reason : Option String

abbrev pub metric_definition_version : ℕ
metric_definition_version = 1

-- `_not_available`
unfoldable pub not_available_metric : String → String → MetricRecord
not_available_metric metric_key reason = record {
  metric_key = metric_key;
  status = unavailable;
  definition_version = metric_definition_version;
  calculation_input = [];
  value = none;
  reason = some reason;
}

-- `_available`
unfoldable pub available_metric : String → MetricValue → List (String × MetricValue) → MetricRecord
available_metric metric_key value calculation_input = record {
  metric_key = metric_key;
  status = available;
  definition_version = metric_definition_version;
  calculation_input = calculation_input;
  value = some value;
  reason = none;
}

-- `valid_snapshots[-1]`
abbrev pub last : PortfolioSnapshot → List PortfolioSnapshot → PortfolioSnapshot
last s [] = s
last s (t ∷ snapshots) = last t snapshots

-- The exceptions that a power of decimals raises.
pub data ArithmeticFault : Type 0 where
  overflow invalid_operation : ArithmeticFault

abbrev pub Power : Type 0
Power = (base exponent : Fraction) → Option ArithmeticFault

-- `initial_equity` and, where there is a snapshot, `final_equity`.
unfoldable pub initial_metric : ℤ → MetricRecord
unfolding available_metric
initial_metric initial_equity =
    available_metric "initial_equity" (amount initial_equity)
      (("capital_amount", amount initial_equity) ∷ [])

unfoldable pub final_metric : PortfolioSnapshot → MetricRecord
unfolding available_metric
final_metric final =
    available_metric "final_equity" (amount final.total_equity)
      (("snapshot_sequence", count final.sequence) ∷ [])

unfoldable pub compounded_metric : Fraction → ℕ → ℕ → MetricRecord
unfolding available_metric
compounded_metric r annualization_basis elapsed_sessions =
    available_metric "annualized_return"
      (compounded r
        (record { numerator = pos annualization_basis; denominator = elapsed_sessions }))
      (("annualization_basis", count annualization_basis)
        ∷ ("elapsed_session_count", count elapsed_sessions)
        ∷ [])

unfoldable pub total_return_metric : (initial_equity final_equity : ℤ) → MetricRecord
unfolding available_metric
total_return_metric initial_equity final_equity =
    available_metric "total_return"
      (ratio (record {
        numerator = final_equity -ℤ initial_equity;
        denominator = pos_part initial_equity;
      }))
      (("initial_equity", amount initial_equity) ∷ ("final_equity", amount final_equity) ∷ [])

module _ (power : Power) where
  unfoldable pub or_arithmetic_fault :
      MetricRecord → Option ArithmeticFault → Result ArithmeticFault MetricRecord
  or_arithmetic_fault record_of none = ok record_of
  or_arithmetic_fault record_of (some fault) = err fault

  unfoldable pub annualized : Fraction → ℕ → ℕ → Result ArithmeticFault MetricRecord
  annualized r annualization_basis elapsed_sessions =
      if ltb 0 elapsed_sessions
      then or_arithmetic_fault (compounded_metric r annualization_basis elapsed_sessions)
          (power r (record { numerator = pos annualization_basis; denominator = elapsed_sessions }))
      else ok (not_available_metric "annualized_return" "insufficient_elapsed_sessions")

  -- `total_return` and `annualized_return`, from the two endpoints.
  unfoldable pub return_metrics :
      (initial_equity final_equity : ℤ) (annualization_basis elapsed_sessions : ℕ)
      → Result ArithmeticFault (List MetricRecord)
  return_metrics initial_equity final_equity annualization_basis elapsed_sessions =
      let r : Fraction = record {
        numerator = final_equity;
        denominator = pos_part initial_equity;
      } in
      if leb_ℤ initial_equity (pos 0)
      then ok (
          not_available_metric "total_return" "missing_equity_endpoint"
          ∷ not_available_metric "annualized_return" "insufficient_elapsed_sessions"
          ∷ [])
      else annualized r annualization_basis elapsed_sessions >>= λ compounding.
          ok (total_return_metric initial_equity final_equity ∷ compounding ∷ [])

  -- `_equity_metrics`
  unfoldable pub equity_metrics :
      ℤ → List PortfolioSnapshot → ℕ → Result ArithmeticFault (List MetricRecord)
  equity_metrics initial_equity [] annualization_basis = ok (
      initial_metric initial_equity
      ∷ not_available_metric "final_equity" "no_valid_portfolio_snapshots"
      ∷ not_available_metric "total_return" "missing_equity_endpoint"
      ∷ not_available_metric "annualized_return" "insufficient_elapsed_sessions"
      ∷ [])
  equity_metrics initial_equity (s ∷ snapshots) annualization_basis =
      let final = last s snapshots in
      return_metrics initial_equity final.total_equity annualization_basis (length snapshots)
      >>= λ returns. ok (initial_metric initial_equity ∷ final_metric final ∷ returns)

abbrev pub max_ℤ : ℤ → ℤ → ℤ
max_ℤ a b = if ltb_ℤ a b then b else a

-- `a < b` for quotients with positive divisors.
abbrev pub fraction_lt : Fraction → Fraction → Bool
fraction_lt a b = ltb_ℤ (b.denominator *ℤ a.numerator) (a.denominator *ℤ b.numerator)

abbrev pub min_fraction : Fraction → Fraction → Fraction
min_fraction a b = if fraction_lt b a then b else a

-- `equity / running_max - 1`
abbrev pub drawdown : ℤ → ℤ → Fraction
drawdown equity running_max = record {
  numerator = equity -ℤ running_max;
  denominator = pos_part running_max;
}

-- The loop of `_max_drawdown_metric`.
unfoldable pub drawdown_from : ℤ → Fraction → List PortfolioSnapshot → Fraction
drawdown_from running_max min_drawdown [] = min_drawdown
drawdown_from running_max min_drawdown (s ∷ snapshots) =
    let peak = max_ℤ running_max s.total_equity in
    drawdown_from peak
      (if ltb_ℤ (pos 0) peak
        then min_fraction min_drawdown (drawdown s.total_equity peak)
        else min_drawdown)
      snapshots

abbrev pub no_drawdown : Fraction
no_drawdown = record { numerator = pos 0; denominator = 1 }

-- `_max_drawdown_metric`
unfoldable pub max_drawdown_metric : List PortfolioSnapshot → MetricRecord
unfolding drawdown_from available_metric not_available_metric
max_drawdown_metric [] = not_available_metric "max_drawdown" "no_valid_portfolio_snapshots"
max_drawdown_metric (s ∷ snapshots) =
    available_metric "max_drawdown"
      (ratio (drawdown_from s.total_equity no_drawdown (s ∷ snapshots)))
      (("valid_snapshot_count", count (length (s ∷ snapshots))) ∷ [])

-- `sum(1 for pnl in realized_trades if pnl > 0)`
unfoldable pub wins : List ℤ → ℕ
wins [] = 0
wins (pnl ∷ trades) = (if ltb_ℤ (pos 0) pnl then 1 else 0) + wins trades

unfoldable pub sum : List ℤ → ℤ
sum [] = pos 0
sum (pnl ∷ trades) = pnl +ℤ sum trades

-- `_trade_metrics`
unfoldable pub trade_metrics : List FillEvent → List MetricRecord
unfolding available_metric not_available_metric wins sum
trade_metrics fills =
    let realized_trades = compute_fifo_realized_pnl fills in
    let trade_count = length realized_trades in
    available_metric "trade_count" (count trade_count) (("fill_count", count (length fills)) ∷ [])
    ∷ (if ltb 0 trade_count
        then available_metric "win_rate"
            (ratio (record { numerator = pos (wins realized_trades); denominator = trade_count }))
            (("trade_count", count trade_count) ∷ ("wins", count (wins realized_trades)) ∷ [])
        else not_available_metric "win_rate" "zero_trades")
    ∷ available_metric "realized_pnl" (amount (sum realized_trades))
        (("trade_count", count trade_count) ∷ [])
    ∷ []

-- `sum(1 for s in valid_snapshots if s.holdings_value > 0)`
unfoldable pub exposed : List PortfolioSnapshot → ℕ
exposed [] = 0
exposed (s ∷ snapshots) = (if ltb_ℤ (pos 0) s.holdings_value then 1 else 0) + exposed snapshots

-- `_exposure_metric`
unfoldable pub exposure_metric : List PortfolioSnapshot → MetricRecord
unfolding available_metric not_available_metric exposed
exposure_metric [] = not_available_metric "exposure_time_ratio" "no_valid_portfolio_snapshots"
exposure_metric (s ∷ snapshots) =
    let exposed_sessions = exposed (s ∷ snapshots) in
    let sessions = length (s ∷ snapshots) in
    available_metric "exposure_time_ratio"
      (ratio (record { numerator = pos exposed_sessions; denominator = sessions }))
      (("exposed_sessions", count exposed_sessions) ∷ ("valid_session_count", count sessions) ∷ [])

unfoldable pub valid_only : List PortfolioSnapshot → List PortfolioSnapshot
valid_only [] = []
valid_only (s ∷ snapshots) =
    let rest = valid_only snapshots in elim s.status [ valid ↦ s ∷ rest | not_available ↦ rest ]

unfoldable pub compute_metrics :
    Power
    → ℤ
    → List PortfolioSnapshot
    → List FillEvent
    → ℕ
    → Result ArithmeticFault (List MetricRecord)
unfolding valid_only max_drawdown_metric trade_metrics exposure_metric
compute_metrics power initial_equity snapshots fills annualization_basis =
    let valid_snapshots = valid_only snapshots in
    equity_metrics power initial_equity valid_snapshots annualization_basis >>= λ records. ok (
      records
      ++ max_drawdown_metric valid_snapshots ∷ trade_metrics fills
      ++ exposure_metric valid_snapshots ∷ [])

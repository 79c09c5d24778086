-- ===== src/Artifact/Metrics/Laws.antt =====
-- Which metrics are computed, and the ranges of those that are ratios.
use mathlib.Core.List.{map-append}
use idx_backtest_lab.Common.Text.{eqs}
use idx_backtest_lab.Common.{
  ℕ, ◌≡◌, refl, ◌≤◌, ◌<◌, ◌⊎◌, inl, inr, true, Result, ok, err, Option, none, some, List, [], ◌∷◌,
  ◌++◌, map, arith, ltb, if◌then◌else◌, String, length, Bool-cases, ltb→lt,
}
use idx_backtest_lab.Common.Int.{ℤ, pos, pos_part, ◌≤ℤ◌, ◌<ℤ◌, leb_ℤ}
use idx_backtest_lab.Execution.{FillEvent}
use idx_backtest_lab.Artifact.Snapshots.{PortfolioSnapshot}
use idx_backtest_lab.Artifact.Fifo.{compute_fifo_realized_pnl}
use idx_backtest_lab.Artifact.Metrics.{
  Fraction, MetricRecord, MetricValue, ratio, ArithmeticFault, Power, last, or_arithmetic_fault,
  initial_metric, final_metric, compounded_metric, total_return_metric, not_available_metric,
  annualized, return_metrics, equity_metrics, valid_only, max_drawdown_metric, trade_metrics,
  exposure_metric, compute_metrics, wins, exposed,
}
use idx_backtest_lab.Optimization.Partitions.{allowed_objective_metrics}

abbrev keys : List MetricRecord → List String
keys = map (λ r. r.metric_key)

-- The computation returns records of these keys, or it raises what the power raises for the return of
-- a run that has a positive initial equity and more than one valid snapshot.
abbrev pub Computes :
    Power
    → (initial_equity : ℤ) → List PortfolioSnapshot
    → (annualization_basis : ℕ) → List String
    → Result ArithmeticFault (List MetricRecord)
    → Type 0
Computes power initial_equity snapshots basis names outcome =
    ((records : List MetricRecord) × (outcome ≡ ok records) × (keys records ≡ names))
    ⊎ ((s : PortfolioSnapshot) × (later : List PortfolioSnapshot) × (fault : ArithmeticFault)
        × (snapshots ≡ s ∷ later)
        × (0 < length later)
        × (pos 0 <ℤ initial_equity)
        × (power
              (record {
                numerator = (last s later).total_equity;
                denominator = pos_part initial_equity;
              })
              (record { numerator = pos basis; denominator = length later })
            ≡ some fault)
        × (outcome ≡ err fault))

equity_keys : List String
equity_keys = "initial_equity" ∷ "final_equity" ∷ "total_return" ∷ "annualized_return" ∷ []

module _ (power : Power) where
  -- The record of the annualized return, or what the power raises.
  annualized-key :
      (r : Fraction) (basis sessions : ℕ)
      → ((m : MetricRecord) × (annualized power r basis sessions ≡ ok m)
          × (m.metric_key ≡ "annualized_return"))
        ⊎ ((fault : ArithmeticFault) × (0 < sessions)
            × (power r (record { numerator = pos basis; denominator = sessions }) ≡ some fault)
            × (annualized power r basis sessions ≡ err fault))
  unfolding annualized or_arithmetic_fault compounded_metric not_available_metric
  annualized-key r basis sessions = elim (Bool-cases (ltb 0 sessions)) [
    | inr none_elapsed ↦ inl (
      not_available_metric "annualized_return" "insufficient_elapsed_sessions",
      rw none_elapsed refl,
      refl,
    )
    | inl elapsed ↦
        of_power elapsed (power r (record { numerator = pos basis; denominator = sessions })) refl
  ]
    where
      of_power :
          ltb 0 sessions ≡ true
          → (o : Option ArithmeticFault)
          → power r (record { numerator = pos basis; denominator = sessions }) ≡ o
          → ((m : MetricRecord) × (annualized power r basis sessions ≡ ok m)
              × (m.metric_key ≡ "annualized_return"))
            ⊎ ((fault : ArithmeticFault) × (0 < sessions)
                × (power r (record { numerator = pos basis; denominator = sessions }) ≡ some fault)
                × (annualized power r basis sessions ≡ err fault))
      of_power elapsed none e = inl (compounded_metric r basis sessions, rw (elapsed, e) refl, refl)
      of_power elapsed (some fault) e = inr (fault, ltb→lt _ _ elapsed, e, rw (elapsed, e) refl)

  equity_metrics-Computes :
      (initial : ℤ) (ss : List PortfolioSnapshot) (basis : ℕ)
      → Computes power initial ss basis equity_keys (equity_metrics power initial ss basis)
  unfolding equity_metrics return_metrics initial_metric final_metric total_return_metric
      not_available_metric equity_keys
  equity_metrics-Computes initial [] basis = inl (_, refl, refl)
  equity_metrics-Computes initial (s ∷ ss) basis = elim (Bool-cases (leb_ℤ initial (pos 0))) [
    | inl unfunded ↦ inl (
      initial_metric initial
          ∷ final_metric (last s ss)
          ∷ not_available_metric "total_return" "missing_equity_endpoint"
          ∷ not_available_metric "annualized_return" "insufficient_elapsed_sessions"
          ∷ [],
      rw unfunded refl,
      refl,
    )
    | inr funded ↦
        elim (annualized-key
          (record { numerator = (last s ss).total_equity; denominator = pos_part initial }) basis
          (length ss)) [
            | inl (m, e, key) ↦ inl (
              initial_metric initial
                  ∷ final_metric (last s ss)
                  ∷ total_return_metric initial (last s ss).total_equity
                  ∷ m
                  ∷ [],
              rw (funded, e) refl,
              rw key refl,
            )
            | inr (fault, elapsed, raised, e) ↦
                inr (s, ss, fault, refl, elapsed, ground arith, raised, rw (funded, e) refl)
          ]
  ]

keys-max_drawdown_metric :
    (ss : List PortfolioSnapshot) → (max_drawdown_metric ss).metric_key ≡ "max_drawdown"
unfolding max_drawdown_metric
keys-max_drawdown_metric [] = refl
keys-max_drawdown_metric (s ∷ ss) = refl

keys-exposure_metric :
    (ss : List PortfolioSnapshot) → (exposure_metric ss).metric_key ≡ "exposure_time_ratio"
unfolding exposure_metric
keys-exposure_metric [] = refl
keys-exposure_metric (s ∷ ss) = refl

keys-trade_metrics :
    (fills : List FillEvent)
    → keys (trade_metrics fills) ≡ "trade_count" ∷ "win_rate" ∷ "realized_pnl" ∷ []
unfolding trade_metrics
keys-trade_metrics fills = elim (Bool-cases (ltb 0 (length (compute_fifo_realized_pnl fills)))) [
  | inl e ↦ rw e
  | inr e ↦ rw e
]

-- Whatever the snapshots and fills, computing the metrics returns exactly one record for each metric
-- that an optimization may name as its objective, and no other; or it raises what the power of the
-- annualized return raises, and then there is more than one valid snapshot and a positive initial
-- equity.
pub compute_metrics-Computes :
    (power : Power) (initial_equity : ℤ) (snapshots : List PortfolioSnapshot)
    (fills : List FillEvent) (annualization_basis : ℕ)
    → Computes power initial_equity
        (valid_only snapshots)
        annualization_basis
        allowed_objective_metrics
        (compute_metrics power initial_equity snapshots fills annualization_basis)
unfolding compute_metrics equity_keys
compute_metrics-Computes power initial_equity snapshots fills basis =
    elim (equity_metrics-Computes power initial_equity (valid_only snapshots) basis) [
      | inl (records, e, names) ↦ inl (
        records
            ++ max_drawdown_metric (valid_only snapshots) ∷ trade_metrics fills
            ++ exposure_metric (valid_only snapshots) ∷ [],
        rw e refl,
        simp
            (map-append, names, keys-max_drawdown_metric, keys-trade_metrics, keys-exposure_metric),
      )
      | inr (s, later, fault, all, elapsed, funded, raised, e) ↦
          inr (s, later, fault, all, elapsed, funded, raised, rw e refl)
    ]

wins-le-length : (trades : List ℤ) → wins trades ≤ length trades
unfolding wins
wins-le-length [] = omega arith
wins-le-length (pnl ∷ trades) = ground (arith, wins-le-length trades)

exposed-le-length : (ss : List PortfolioSnapshot) → exposed ss ≤ length ss
unfolding exposed
exposed-le-length [] = omega arith
exposed-le-length (s ∷ ss) = ground (arith, exposed-le-length ss)

-- A quotient that lies between 0 and 1, with a positive divisor.
abbrev pub IsShare : Fraction → Type 0
IsShare f = (0 < f.denominator) × (pos 0 ≤ℤ f.numerator) × (f.numerator ≤ℤ pos f.denominator)

-- A metric that is a share, or is not available.
abbrev pub HasShare : Option MetricValue → Type 0
HasShare none = Unit
HasShare (some (ratio f)) = IsShare f
HasShare (some v) = ⊥

abbrev pub metric : String → List MetricRecord → Option MetricValue
metric key [] = none
metric key (r ∷ records) = if eqs r.metric_key key then r.value else metric key records

exposure_metric-HasShare : (ss : List PortfolioSnapshot) → HasShare (exposure_metric ss).value
unfolding exposure_metric exposed
exposure_metric-HasShare [] = tt
exposure_metric-HasShare (s ∷ ss) =
    let le = exposed-le-length (s ∷ ss) in (omega arith, omega arith, omega (arith, le))

win_rate-HasShare : (fills : List FillEvent) → HasShare (metric "win_rate" (trade_metrics fills))
unfolding trade_metrics
win_rate-HasShare fills = elim (Bool-cases (ltb 0 (length (compute_fifo_realized_pnl fills)))) [
  | inl e ↦
      rw e
        (ltb→lt _ _ e, omega arith, omega (arith, wins-le-length (compute_fifo_realized_pnl fills)))
  | inr e ↦ rw e tt
]

-- The share of winning trades and the share of sessions with holdings are not available, or they
-- lie between 0 and 1 and their divisor is not 0.
pub win_rate_and_exposure-HasShare :
    (fills : List FillEvent) (snapshots : List PortfolioSnapshot)
    → HasShare (metric "win_rate" (trade_metrics fills))
      × HasShare (exposure_metric snapshots).value
win_rate_and_exposure-HasShare fills snapshots =
    (win_rate-HasShare fills, exposure_metric-HasShare snapshots)

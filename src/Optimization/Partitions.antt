-- ===== src/Optimization/Partitions.antt =====
-- The input checks of backend/app/domain/optimization.py, and `date_ranges_overlap` of
-- backend/app/domain/date_ranges.py. An exception is a `Fault`, one for each `raise`.
use idx_backtest_lab.Common.{
  ◌≤◌, ◌<◌, ◌≡◌, ◌↔◌, inl, inr, refl, Bool, true, false, ◌&&◌, ◌||◌, not, Option, some, List, [],
  ◌∷◌, ◌++◌, arith, ltb, leb, Result, ok, ◌>>◌, raise_if, String, All, Bool-cases, ◌≢◌, max,
}
use idx_backtest_lab.Common.Int.{ℤ, pos, ◌≤ℤ◌, ltb_ℤ, ◌+ℤ◌}
use idx_backtest_lab.Common.Text.{text_order}
use idx_backtest_lab.Common.Sorted.{contains}
use idx_backtest_lab.Common.Time.{Date, or_date_max}

-- `OptimizationValidationError`, by the place that raises it.
pub data Fault : Type 0 where
  empty_grid window_not_positive partitions_out_of_order : Fault
  unsupported_metric too_many_candidates too_few_bars : Fault

-- Its `code`.
unfoldable pub code : Fault → String
code empty_grid = "invalid_grid"
code window_not_positive = "invalid_grid"
code partitions_out_of_order = "invalid_partitions"
code unsupported_metric = "unsupported_objective"
code too_many_candidates = "candidate_grid_too_large"
code too_few_bars = "insufficient_partition_coverage"

abbrev pub Check : Type 0
Check = Result Fault (Unit {0})

is_nil : List ℤ → Bool
is_nil [] = true
is_nil (x ∷ xs) = false

-- The loop over the windows, which raises at the first that is below 1.
each_positive : List ℤ → Check
each_positive [] = ok tt
each_positive (w ∷ ws) =
    let rest = each_positive ws in raise_if (ltb_ℤ w (pos 1)) window_not_positive >> rest

unfoldable pub validate_grid_inputs : List ℤ → List ℤ → Check
unfolding is_nil each_positive
validate_grid_inputs fast_windows slow_windows =
    raise_if (is_nil fast_windows || is_nil slow_windows) empty_grid
    >> each_positive (fast_windows ++ slow_windows)

unfoldable pub date_ranges_overlap : Date → Option Date → Date → Option Date → Bool
date_ranges_overlap a_from a_to b_from b_to =
    leb a_from (or_date_max b_to) && leb b_from (or_date_max a_to)

pub record Partitions : Type 0 where
  pub train_start : Date
  pub train_end : Date
  pub validation_start : Date
  pub validation_end : Date
  pub holdout_start : Date
  pub holdout_end : Date

unfoldable pub validate_partitions : Partitions → Check
validate_partitions p =
    raise_if
      (not (
        leb p.train_start p.train_end
        && ltb p.train_end p.validation_start
        && leb p.validation_start p.validation_end
        && ltb p.validation_end p.holdout_start
        && leb p.holdout_start p.holdout_end))
      partitions_out_of_order

abbrev pub allowed_objective_metrics : List String
allowed_objective_metrics =
    "initial_equity" ∷ "final_equity" ∷ "total_return" ∷ "annualized_return" ∷ "max_drawdown"
    ∷ "trade_count" ∷ "win_rate" ∷ "realized_pnl" ∷ "exposure_time_ratio" ∷ []

unfoldable pub validate_objective_metric : String → Check
unfolding contains
validate_objective_metric metric_key =
    raise_if (not (contains metric_key allowed_objective_metrics)) unsupported_metric

unfoldable pub validate_candidate_count : ℤ → ℤ → Check
validate_candidate_count candidate_count max_candidate_count =
    raise_if (ltb_ℤ max_candidate_count candidate_count) too_many_candidates

unfoldable pub validate_partition_bar_coverage : ℤ → ℤ → Check
validate_partition_bar_coverage bar_count largest_slow_window =
    raise_if (ltb_ℤ bar_count (largest_slow_window +ℤ pos 2)) too_few_bars

each_positive_iff : (ws : List ℤ) → (each_positive ws ≡ ok tt) ↔ All (λ w. pos 1 ≤ℤ w) ws
unfolding each_positive
each_positive_iff [] = (λ _. tt, λ _. refl)
each_positive_iff (w ∷ ws) = elim (Bool-cases (ltb_ℤ w (pos 1))) [
  | inl e ↦ (λ h. absurd (ground arith), λ h. absurd (ground arith))
  | inr e ↦ (
    λ h. (ground arith, (each_positive_iff ws).0 (ground arith)),
    λ h. ground (arith, (each_positive_iff ws).1 h.1),
  )
]

All-append_iff : (P : ℤ → Type 0) (xs ys : List ℤ) → All P (xs ++ ys) ↔ (All P xs × All P ys)
All-append_iff P [] ys = (λ h. (tt, h), λ h. h.1)
All-append_iff P (x ∷ xs) ys = (
  λ h. let (a, b) = (All-append_iff P xs ys).0 h.1 in ((h.0, a), b),
  λ h. (h.0.0, (All-append_iff P xs ys).1 (h.0.1, h.1)),
)

-- A grid is accepted exactly when both lists name a window and every window is at least 1.
pub validate_grid_inputs_iff :
    (fast_windows slow_windows : List ℤ)
    → (validate_grid_inputs fast_windows slow_windows ≡ ok tt) ↔ (
        (fast_windows ≢ [])
        × (slow_windows ≢ [])
        × All (λ w. pos 1 ≤ℤ w) fast_windows
        × All (λ w. pos 1 ≤ℤ w) slow_windows)
unfolding validate_grid_inputs
validate_grid_inputs_iff [] ss = (λ h. cc, λ h. absurd (h.0 refl))
validate_grid_inputs_iff (f ∷ fs) [] = (λ h. cc, λ h. absurd (h.1 refl))
validate_grid_inputs_iff (f ∷ fs) (s ∷ ss) = (
  λ h.
      let both =
        (All-append_iff _ (f ∷ fs) (s ∷ ss)).0 ((each_positive_iff ((f ∷ fs) ++ (s ∷ ss))).0 h) in
      (λ e. cc, λ e. cc, both.0, both.1),
  λ h.
      (each_positive_iff ((f ∷ fs) ++ (s ∷ ss))).1
        ((All-append_iff _ (f ∷ fs) (s ∷ ss)).1 (h.2, h.3)),
)

-- Accepted partitions have at least one day each, lie in the order train, validation, holdout, and
-- no two of them overlap: no bar of a later partition is seen in an earlier one.
pub validate_partitions-no_overlap :
    (p : Partitions)
    → validate_partitions p ≡ ok tt
    → (p.train_start ≤ p.train_end)
      × (p.validation_start ≤ p.validation_end)
      × (p.holdout_start ≤ p.holdout_end)
      × (date_ranges_overlap p.train_start
            (some p.train_end)
            p.validation_start
            (some p.validation_end)
          ≡ false)
      × (date_ranges_overlap p.train_start (some p.train_end) p.holdout_start (some p.holdout_end)
          ≡ false)
      × (date_ranges_overlap p.validation_start
            (some p.validation_end)
            p.holdout_start
            (some p.holdout_end)
          ≡ false)
      × (p.train_end < p.validation_start)
      × (p.validation_end < p.holdout_start)
unfolding validate_partitions date_ranges_overlap
validate_partitions-no_overlap p h = ground arith

-- Two date ranges within the calendar overlap exactly when some day lies in both; a missing end
-- means that the range is open.
date_ranges_overlap_iff :
    (a_from : Date) (a_to : Option Date) (b_from : Date) (b_to : Option Date)
    → a_from ≤ or_date_max a_to
    → b_from ≤ or_date_max b_to
    → (date_ranges_overlap a_from a_to b_from b_to ≡ true)
      ↔ ((d : Date) × (a_from ≤ d) × (d ≤ or_date_max a_to) × (b_from ≤ d) × (d ≤ or_date_max b_to))
unfolding date_ranges_overlap
date_ranges_overlap_iff a_from a_to b_from b_to ha hb = (
  λ h. (max a_from b_from, ground arith, ground arith, ground arith, ground arith),
  λ (d, p, q, r, s). ground arith,
)

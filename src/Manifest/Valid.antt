-- ===== src/Manifest/Valid.antt =====
-- What the classes of the manifest accept.
use idx_backtest_lab.Common.{◌≡◌, refl, ◌↔◌, ◌<◌, ◌≢◌, true, false, String, ok, arith, eq_iff}
use idx_backtest_lab.Common.Int.{ℤ, pos, ◌≤ℤ◌, ◌<ℤ◌}
use idx_backtest_lab.Common.Text.{is_empty, is_blank, text_order}
use idx_backtest_lab.Common.Sorted.{IsDistinct}
use idx_backtest_lab.Common.Distinct.{length-to_set_iff}
use idx_backtest_lab.Manifest.Classes.{
  Decimal, finite, infinite, nan, power_of_ten, is_finite_positive, is_fraction,
  is_finite_non_negative, require_positive_decimal, is_nil, StrategyRef, check_strategy_ref,
  DatasetRef, check_dataset_ref, Universe, check_universe, Period, check_period, Capital,
  check_capital, SignalAndFill, check_signal_and_fill, PositionSizing, check_position_sizing,
  KindSetting, check_kind_setting, Rounding, check_rounding, Execution, check_execution, Metrics,
  check_metrics, EngineRef, check_engine_ref, RunManifestV1, check_run_manifest,
}

-- A finite decimal greater than 0.
abbrev pub IsPositive : Decimal → Type 0
IsPositive (finite m places) = pos 0 <ℤ m
IsPositive d = d ≢ d

-- A finite decimal greater than 0 and at most 1.
abbrev pub IsFraction : Decimal → Type 0
IsFraction (finite m places) = (pos 0 <ℤ m) × (m ≤ℤ pos (power_of_ten places))
IsFraction d = d ≢ d

-- A finite decimal that is not negative.
abbrev pub IsNonNegative : Decimal → Type 0
IsNonNegative (finite m places) = pos 0 ≤ℤ m
IsNonNegative d = d ≢ d

abbrev pub IsFilled : String → Type 0
IsFilled s = is_blank s ≡ false

abbrev pub IsNonEmpty : String → Type 0
IsNonEmpty s = is_empty s ≡ false

is_finite_positive_iff : (d : Decimal) → (is_finite_positive d ≡ true) ↔ IsPositive d
unfolding is_finite_positive
is_finite_positive_iff (finite m places) = (λ h. ground arith, λ v. ground arith)
is_finite_positive_iff infinite = (λ h. cc, λ v. absurd (v refl))
is_finite_positive_iff nan = (λ h. cc, λ v. absurd (v refl))

is_fraction_iff : (d : Decimal) → (is_fraction d ≡ true) ↔ IsFraction d
unfolding is_fraction
is_fraction_iff (finite m places) = (λ h. ground arith, λ v. ground arith)
is_fraction_iff infinite = (λ h. cc, λ v. absurd (v refl))
is_fraction_iff nan = (λ h. cc, λ v. absurd (v refl))

is_finite_non_negative_iff : (d : Decimal) → (is_finite_non_negative d ≡ true) ↔ IsNonNegative d
unfolding is_finite_non_negative
is_finite_non_negative_iff (finite m places) = (λ h. ground arith, λ v. ground arith)
is_finite_non_negative_iff infinite = (λ h. cc, λ v. absurd (v refl))
is_finite_non_negative_iff nan = (λ h. cc, λ v. absurd (v refl))

abbrev pub IsValidStrategyRef : StrategyRef → Type 0
IsValidStrategyRef r = IsNonEmpty r.strategy_id × (pos 1 ≤ℤ r.version) × IsNonEmpty r.checksum

pub check_strategy_ref_iff :
    (r : StrategyRef) → (check_strategy_ref r ≡ ok tt) ↔ IsValidStrategyRef r
unfolding check_strategy_ref
check_strategy_ref_iff r = (λ h. ground arith, λ v. ground arith)

abbrev pub IsValidDatasetRef : DatasetRef → Type 0
IsValidDatasetRef r = IsNonEmpty r.dataset_id × IsNonEmpty r.content_checksum

pub check_dataset_ref_iff : (r : DatasetRef) → (check_dataset_ref r ≡ ok tt) ↔ IsValidDatasetRef r
unfolding check_dataset_ref
check_dataset_ref_iff r = (λ h. ground arith, λ v. ground arith)

abbrev pub IsValidUniverse : Universe → Type 0
IsValidUniverse u =
    (is_nil u.instrument_ids ≡ false)
    × IsDistinct u.instrument_ids
    × (u.unresolved_identifier_policy ≡ "reject")

pub check_universe_iff : (u : Universe) → (check_universe u ≡ ok tt) ↔ IsValidUniverse u
unfolding check_universe
check_universe_iff u = (
  λ h.
      ground
        (arith, eq_iff u.unresolved_identifier_policy "reject", length-to_set_iff u.instrument_ids),
  λ v.
      ground
        (arith, eq_iff u.unresolved_identifier_policy "reject", length-to_set_iff u.instrument_ids),
)

abbrev pub IsValidPeriod : Period → Type 0
IsValidPeriod p = (p.start_date < p.end_date) × IsFilled p.bar_interval

pub check_period_iff : (p : Period) → (check_period p ≡ ok tt) ↔ IsValidPeriod p
unfolding check_period
check_period_iff p = (λ h. ground arith, λ v. ground arith)

abbrev pub IsValidCapital : Capital → Type 0
IsValidCapital k = IsPositive k.amount × IsFilled k.currency

pub check_capital_iff : (k : Capital) → (check_capital k ≡ ok tt) ↔ IsValidCapital k
unfolding check_capital require_positive_decimal
check_capital_iff k = (
  λ h. ground (arith, is_finite_positive_iff k.amount),
  λ v. ground (arith, is_finite_positive_iff k.amount),
)

abbrev pub IsValidSignalAndFill : SignalAndFill → Type 0
IsValidSignalAndFill s =
    (s.signal_time ≡ "bar_close")
    × (s.fill_time ≡ "next_bar_open")
    × (s.missing_next_bar_policy ≡ "reject")

pub check_signal_and_fill_iff :
    (s : SignalAndFill) → (check_signal_and_fill s ≡ ok tt) ↔ IsValidSignalAndFill s
unfolding check_signal_and_fill
check_signal_and_fill_iff s = (
  λ h. ground (
    arith,
    eq_iff s.signal_time "bar_close",
    eq_iff s.fill_time "next_bar_open",
    eq_iff s.missing_next_bar_policy "reject",
  ),
  λ v. ground (
    arith,
    eq_iff s.signal_time "bar_close",
    eq_iff s.fill_time "next_bar_open",
    eq_iff s.missing_next_bar_policy "reject",
  ),
)

abbrev pub IsValidPositionSizing : PositionSizing → Type 0
IsValidPositionSizing p = (p.kind ≡ "fixed_fraction") × IsFraction p.fraction

pub check_position_sizing_iff :
    (p : PositionSizing) → (check_position_sizing p ≡ ok tt) ↔ IsValidPositionSizing p
unfolding check_position_sizing
check_position_sizing_iff p = (
  λ h. ground (arith, eq_iff p.kind "fixed_fraction", is_fraction_iff p.fraction),
  λ v. ground (arith, eq_iff p.kind "fixed_fraction", is_fraction_iff p.fraction),
)

pub check_kind_setting_iff : (k : KindSetting) → (check_kind_setting k ≡ ok tt) ↔ IsFilled k.kind
unfolding check_kind_setting
check_kind_setting_iff k = (λ h. ground arith, λ v. ground arith)

abbrev pub IsValidRounding : Rounding → Type 0
IsValidRounding r = IsPositive r.quantity_increment × (pos 0 ≤ℤ r.money_scale)

pub check_rounding_iff : (r : Rounding) → (check_rounding r ≡ ok tt) ↔ IsValidRounding r
unfolding check_rounding require_positive_decimal
check_rounding_iff r = (
  λ h. ground (arith, is_finite_positive_iff r.quantity_increment),
  λ v. ground (arith, is_finite_positive_iff r.quantity_increment),
)

-- The features of v1: no costs, and liquidity and price limits ignored with a warning.
abbrev pub IsV1Execution : Execution → Type 0
IsV1Execution e =
    (e.commission.kind ≡ "none")
    × (e.tax.kind ≡ "none")
    × (e.slippage.kind ≡ "none")
    × (e.liquidity.kind ≡ "ignore_with_warning")
    × (e.price_limit.kind ≡ "ignore_with_warning")

pub check_execution_iff : (e : Execution) → (check_execution e ≡ ok tt) ↔ IsV1Execution e
unfolding check_execution
check_execution_iff e = (
  λ h. ground (
    arith,
    eq_iff e.commission.kind "none",
    eq_iff e.tax.kind "none",
    eq_iff e.slippage.kind "none",
    eq_iff e.liquidity.kind "ignore_with_warning",
    eq_iff e.price_limit.kind "ignore_with_warning",
  ),
  λ v. ground (
    arith,
    eq_iff e.commission.kind "none",
    eq_iff e.tax.kind "none",
    eq_iff e.slippage.kind "none",
    eq_iff e.liquidity.kind "ignore_with_warning",
    eq_iff e.price_limit.kind "ignore_with_warning",
  ),
)

abbrev pub IsValidMetrics : Metrics → Type 0
IsValidMetrics m = (pos 1 ≤ℤ m.annualization_basis) × IsNonNegative m.risk_free_rate

pub check_metrics_iff : (m : Metrics) → (check_metrics m ≡ ok tt) ↔ IsValidMetrics m
unfolding check_metrics
check_metrics_iff m = (
  λ h. ground (arith, is_finite_non_negative_iff m.risk_free_rate),
  λ v. ground (arith, is_finite_non_negative_iff m.risk_free_rate),
)

abbrev pub IsValidEngineRef : EngineRef → Type 0
IsValidEngineRef r = IsFilled r.adapter_name × IsFilled r.adapter_version

pub check_engine_ref_iff : (r : EngineRef) → (check_engine_ref r ≡ ok tt) ↔ IsValidEngineRef r
unfolding check_engine_ref
check_engine_ref_iff r = (λ h. ground arith, λ v. ground arith)

abbrev pub IsValidTop : RunManifestV1 → Type 0
IsValidTop m =
    IsNonEmpty m.run_id
    × (m.schema_version ≡ pos 1)
    × (m.corporate_action_treatment ≡ "dataset_as_declared_no_event_adjustment")
    × (m.benchmark.kind ≡ "none")
    × (m.created_at_utc.is_aware ≡ true)

pub one_iff : (n : ℤ) → ((n ≤ℤ pos 1) × (pos 1 ≤ℤ n)) ↔ (n ≡ pos 1)
one_iff (pos n) = (λ h. ground arith, λ e. ground arith)
one_iff n = (λ h. ground arith, λ e. ground arith)

pub check_run_manifest_iff : (m : RunManifestV1) → (check_run_manifest m ≡ ok tt) ↔ IsValidTop m
unfolding check_run_manifest
check_run_manifest_iff m = (
  λ h. ground (
    arith,
    one_iff m.schema_version,
    eq_iff m.corporate_action_treatment "dataset_as_declared_no_event_adjustment",
    eq_iff m.benchmark.kind "none",
  ),
  λ v. ground (
    arith,
    one_iff m.schema_version,
    eq_iff m.corporate_action_treatment "dataset_as_declared_no_event_adjustment",
    eq_iff m.benchmark.kind "none",
  ),
)

-- What v1 accepts: every part is valid, and so is the manifest itself.
pub record IsValid (m : RunManifestV1) : Type 0 where
  pub strategy_ref : IsValidStrategyRef m.strategy_ref
  pub dataset_ref : IsValidDatasetRef m.dataset_ref
  pub universe : IsValidUniverse m.universe
  pub period : IsValidPeriod m.period
  pub capital : IsValidCapital m.capital
  pub signal_and_fill : IsValidSignalAndFill m.signal_and_fill
  pub position_sizing : IsValidPositionSizing m.execution.position_sizing
  pub rounding : IsValidRounding m.execution.rounding
  pub v1_execution : IsV1Execution m.execution
  pub metrics : IsValidMetrics m.metrics
  pub engine_ref : IsValidEngineRef m.engine_ref
  pub top : IsValidTop m

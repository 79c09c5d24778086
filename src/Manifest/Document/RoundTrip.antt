-- ===== src/Manifest/Document/RoundTrip.antt =====
-- `parse_run_manifest` reads what `to_canonical_dict` writes.
use idx_backtest_lab.Common.{◌≡◌, refl, ap, some, List, [], ◌∷◌, String, ok, ◌>>◌}
use idx_backtest_lab.Common.Text.{is_blank}
use idx_backtest_lab.Manifest.Classes.{
  StrategyRef, check_strategy_ref, DatasetRef, check_dataset_ref, Universe, check_universe,
  check_period, check_capital, SignalAndFill, check_signal_and_fill, check_position_sizing,
  KindSetting, check_rounding, check_metrics, EngineRef, check_engine_ref, RunManifestV1,
}
use idx_backtest_lab.Manifest.Parse.{
  texts, text_items, strategy_ref_dict, new_strategy_ref, dataset_ref_dict, new_dataset_ref,
  universe_dict, new_universe, signal_and_fill_dict, new_signal_and_fill, kind_setting_dict,
  new_kind_setting, engine_ref_dict, new_engine_ref, Codec,
}
use idx_backtest_lab.Manifest.Valid.{
  IsFilled, IsV1Execution, IsValid, check_strategy_ref_iff, check_dataset_ref_iff,
  check_universe_iff, check_period_iff, check_capital_iff, check_signal_and_fill_iff,
  check_position_sizing_iff, check_kind_setting_iff, check_rounding_iff, check_execution_iff,
  check_metrics_iff, check_engine_ref_iff, check_run_manifest_iff,
}
use idx_backtest_lab.Manifest.Document.{
  period_dict, new_period, capital_dict, new_capital, position_sizing_dict, new_position_sizing,
  rounding_dict, new_rounding, metrics_dict, new_metrics, execution_dict, new_execution,
  to_canonical_dict, parse_run_manifest,
}

new_strategy_ref-dict :
    (r : StrategyRef) → check_strategy_ref r ≡ ok tt → new_strategy_ref (strategy_ref_dict r) ≡ ok r
unfolding new_strategy_ref strategy_ref_dict
new_strategy_ref-dict r h = ap (λ k. k >> ok r) h

new_dataset_ref-dict :
    (r : DatasetRef) → check_dataset_ref r ≡ ok tt → new_dataset_ref (dataset_ref_dict r) ≡ ok r
unfolding new_dataset_ref dataset_ref_dict
new_dataset_ref-dict r h = ap (λ k. k >> ok r) h

texts-text_items : (ss : List String) → texts (text_items ss) ≡ some ss
unfolding texts text_items
texts-text_items [] = refl
texts-text_items (s ∷ ss) = rw (texts-text_items ss) refl

new_universe-dict :
    (u : Universe) → check_universe u ≡ ok tt → new_universe (universe_dict u) ≡ ok u
unfolding new_universe universe_dict
new_universe-dict u h = rw (texts-text_items u.instrument_ids) (ap (λ k. k >> ok u) h)

new_signal_and_fill-dict :
    (s : SignalAndFill)
    → check_signal_and_fill s ≡ ok tt
    → new_signal_and_fill (signal_and_fill_dict s) ≡ ok s
unfolding new_signal_and_fill signal_and_fill_dict
new_signal_and_fill-dict s h = ap (λ k. k >> ok s) h

new_kind_setting-dict :
    (k : KindSetting) → IsFilled k.kind → new_kind_setting (kind_setting_dict k) ≡ ok k
unfolding new_kind_setting kind_setting_dict
new_kind_setting-dict k h = ap (λ r. r >> ok k) ((check_kind_setting_iff k).1 h)

new_engine_ref-dict :
    (r : EngineRef) → check_engine_ref r ≡ ok tt → new_engine_ref (engine_ref_dict r) ≡ ok r
unfolding new_engine_ref engine_ref_dict
new_engine_ref-dict r h = ap (λ k. k >> ok r) h

module _ (c : Codec) where
  -- The library's readers invert its writers on the values of the manifest.
  pub record ReadsBack (m : RunManifestV1) : Type 0 where
    pub start_date : c.read_date (c.format_date m.period.start_date) ≡ some m.period.start_date
    pub end_date : c.read_date (c.format_date m.period.end_date) ≡ some m.period.end_date
    pub amount : c.read_decimal (c.decimal_str m.capital.amount) ≡ some m.capital.amount
    pub fraction :
        c.read_decimal (c.decimal_str m.execution.position_sizing.fraction)
        ≡ some m.execution.position_sizing.fraction
    pub quantity_increment :
        c.read_decimal (c.decimal_str m.execution.rounding.quantity_increment)
        ≡ some m.execution.rounding.quantity_increment
    pub risk_free_rate :
        c.read_decimal (c.decimal_str m.metrics.risk_free_rate) ≡ some m.metrics.risk_free_rate
    pub created_at_utc : c.parse_utc (c.format_utc m.created_at_utc) ≡ some m.created_at_utc

  module _ (m : RunManifestV1) (b : ReadsBack m) where
    new_period-dict :
        check_period m.period ≡ ok tt → new_period c (period_dict c m.period) ≡ ok m.period
    unfolding new_period period_dict
    new_period-dict h = rw (b.start_date, b.end_date) (ap (λ k. k >> ok m.period) h)

    new_capital-dict :
        check_capital m.capital ≡ ok tt → new_capital c (capital_dict c m.capital) ≡ ok m.capital
    unfolding new_capital capital_dict
    new_capital-dict h = rw b.amount (ap (λ k. k >> ok m.capital) h)

    new_position_sizing-dict :
        check_position_sizing m.execution.position_sizing ≡ ok tt
        → new_position_sizing c (position_sizing_dict c m.execution.position_sizing)
          ≡ ok m.execution.position_sizing
    unfolding new_position_sizing position_sizing_dict
    new_position_sizing-dict h = rw b.fraction (ap (λ k. k >> ok m.execution.position_sizing) h)

    new_rounding-dict :
        check_rounding m.execution.rounding ≡ ok tt
        → new_rounding c (rounding_dict c m.execution.rounding) ≡ ok m.execution.rounding
    unfolding new_rounding rounding_dict
    new_rounding-dict h = rw b.quantity_increment (ap (λ k. k >> ok m.execution.rounding) h)

    new_metrics-dict :
        check_metrics m.metrics ≡ ok tt → new_metrics c (metrics_dict c m.metrics) ≡ ok m.metrics
    unfolding new_metrics metrics_dict
    new_metrics-dict h = rw b.risk_free_rate (ap (λ k. k >> ok m.metrics) h)

    new_execution-dict :
        check_position_sizing m.execution.position_sizing ≡ ok tt
        → check_rounding m.execution.rounding ≡ ok tt
        → IsV1Execution m.execution
        → new_execution c
            (position_sizing_dict c m.execution.position_sizing)
            (rounding_dict c m.execution.rounding)
            (execution_dict c m.execution)
          ≡ ok m.execution
    unfolding new_execution execution_dict is_blank
    new_execution-dict sizing rounding v1 =
        let (commission, tax, slippage, liquidity, price_limit) = v1 in
        rw
          (
            new_position_sizing-dict sizing,
            new_kind_setting-dict m.execution.commission (rw commission refl),
            new_kind_setting-dict m.execution.tax (rw tax refl),
            new_kind_setting-dict m.execution.slippage (rw slippage refl),
            new_kind_setting-dict m.execution.liquidity (rw liquidity refl),
            new_kind_setting-dict m.execution.price_limit (rw price_limit refl),
            new_rounding-dict rounding,
            (check_execution_iff m.execution).1 v1,
          )
          refl

    -- A valid manifest, written by `to_canonical_dict`, is read back by `parse_run_manifest` as the
    -- same manifest, when the library's readers invert its writers on the manifest's decimals,
    -- dates and time.
    pub parse_run_manifest-to_canonical_dict :
        IsValid m → parse_run_manifest c (to_canonical_dict c m) ≡ ok m
    unfolding parse_run_manifest to_canonical_dict is_blank execution_dict
    parse_run_manifest-to_canonical_dict v =
        let (run_id, version, treatment, benchmark, aware) = v.top in
        let period = (check_period_iff m.period).1 v.period in
        let capital = (check_capital_iff m.capital).1 v.capital in
        let sizing = (check_position_sizing_iff m.execution.position_sizing).1 v.position_sizing in
        let rounding = (check_rounding_iff m.execution.rounding).1 v.rounding in
        rw
          (
            new_strategy_ref-dict m.strategy_ref
                ((check_strategy_ref_iff m.strategy_ref).1 v.strategy_ref),
            new_dataset_ref-dict m.dataset_ref
                ((check_dataset_ref_iff m.dataset_ref).1 v.dataset_ref),
            new_universe-dict m.universe ((check_universe_iff m.universe).1 v.universe),
            new_period-dict period,
            new_capital-dict capital,
            new_signal_and_fill-dict m.signal_and_fill
                ((check_signal_and_fill_iff m.signal_and_fill).1 v.signal_and_fill),
            new_execution-dict sizing rounding v.v1_execution,
            new_kind_setting-dict m.benchmark (rw benchmark refl),
            new_metrics-dict ((check_metrics_iff m.metrics).1 v.metrics),
            new_engine_ref-dict m.engine_ref ((check_engine_ref_iff m.engine_ref).1 v.engine_ref),
            b.created_at_utc,
            (check_run_manifest_iff m).1 v.top,
          )
          refl

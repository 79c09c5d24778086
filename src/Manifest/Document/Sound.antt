-- ===== src/Manifest/Document/Sound.antt =====
-- What `parse_run_manifest` returns is valid.
use idx_backtest_lab.Common.{
  ◌≢◌, true, refl, ap, Result, err, ◌≡◌, subst, ok, >>=-eq-ok, >>-eq-ok, ok-injective, arith,
}
use idx_backtest_lab.Common.Json.{Fields}
use idx_backtest_lab.Manifest.Classes.{
  Fault, untyped, StrategyRef, DatasetRef, Universe, Period, Capital, SignalAndFill, PositionSizing,
  Rounding, Execution, Metrics, EngineRef, RunManifestV1, check_execution, check_run_manifest,
}
use idx_backtest_lab.Manifest.Parse.{
  text_at, int_at, mapping_at, read_at, new_strategy_ref, new_dataset_ref, new_universe,
  new_signal_and_fill, new_engine_ref, Codec,
}
use idx_backtest_lab.Manifest.Valid.{
  IsValidStrategyRef, IsValidDatasetRef, IsValidUniverse, IsValidPeriod, IsValidCapital,
  IsValidSignalAndFill, IsValidPositionSizing, IsValidRounding, IsV1Execution, IsValidMetrics,
  IsValidEngineRef, IsValid, check_strategy_ref_iff, check_dataset_ref_iff, check_universe_iff,
  check_period_iff, check_capital_iff, check_signal_and_fill_iff, check_position_sizing_iff,
  check_rounding_iff, check_execution_iff, check_metrics_iff, check_engine_ref_iff,
  check_run_manifest_iff,
}
use idx_backtest_lab.Manifest.Parse.Typed.{has_types}
use idx_backtest_lab.Manifest.Document.Typed.{parse_run_manifest-IsTyped}
use idx_backtest_lab.Manifest.Document.{
  new_period, new_capital, new_position_sizing, new_rounding, new_metrics, kind_setting_at,
  new_execution, parse_run_manifest,
}

new_strategy_ref-Valid :
    (d : Fields) (r : StrategyRef) → new_strategy_ref d ≡ ok r → IsValidStrategyRef r
unfolding new_strategy_ref
new_strategy_ref-Valid d r h = (check_strategy_ref_iff r).0 (ground arith)

new_dataset_ref-Valid :
    (d : Fields) (r : DatasetRef) → new_dataset_ref d ≡ ok r → IsValidDatasetRef r
unfolding new_dataset_ref
new_dataset_ref-Valid d r h = (check_dataset_ref_iff r).0 (ground arith)

new_universe-Valid : (d : Fields) (u : Universe) → new_universe d ≡ ok u → IsValidUniverse u
unfolding new_universe
new_universe-Valid d u h = (check_universe_iff u).0 (ground arith)

new_signal_and_fill-Valid :
    (d : Fields) (s : SignalAndFill) → new_signal_and_fill d ≡ ok s → IsValidSignalAndFill s
unfolding new_signal_and_fill
new_signal_and_fill-Valid d s h = (check_signal_and_fill_iff s).0 (ground arith)

new_engine_ref-Valid : (d : Fields) (r : EngineRef) → new_engine_ref d ≡ ok r → IsValidEngineRef r
unfolding new_engine_ref
new_engine_ref-Valid d r h = (check_engine_ref_iff r).0 (ground arith)

module _ (c : Codec) where
  new_period-Valid : (d : Fields) (p : Period) → new_period c d ≡ ok p → IsValidPeriod p
  unfolding new_period
  new_period-Valid d p h = (check_period_iff p).0 (ground arith)

  new_capital-Valid : (d : Fields) (k : Capital) → new_capital c d ≡ ok k → IsValidCapital k
  unfolding new_capital
  new_capital-Valid d k h = (check_capital_iff k).0 (ground arith)

  new_position_sizing-Valid :
      (d : Fields) (p : PositionSizing) → new_position_sizing c d ≡ ok p → IsValidPositionSizing p
  unfolding new_position_sizing
  new_position_sizing-Valid d p h = (check_position_sizing_iff p).0 (ground arith)

  new_rounding-Valid : (d : Fields) (r : Rounding) → new_rounding c d ≡ ok r → IsValidRounding r
  unfolding new_rounding
  new_rounding-Valid d r h = (check_rounding_iff r).0 (ground arith)

  new_metrics-Valid : (d : Fields) (m : Metrics) → new_metrics c d ≡ ok m → IsValidMetrics m
  unfolding new_metrics
  new_metrics-Valid d m h = (check_metrics_iff m).0 (ground arith)

  new_execution-Valid :
      (sizing rounding d : Fields) (e : Execution)
      → new_execution c sizing rounding d ≡ ok e
      → IsValidPositionSizing e.position_sizing × IsValidRounding e.rounding × IsV1Execution e
  unfolding new_execution
  new_execution-Valid sizing rounding d e h =
      let (s, hs, h1) = >>=-eq-ok (new_position_sizing c sizing) _ h in
      let (commission, k1, h2) = >>=-eq-ok (kind_setting_at c "commission" d) _ h1 in
      let (tax, k2, h3) = >>=-eq-ok (kind_setting_at c "tax" d) _ h2 in
      let (slippage, k3, h4) = >>=-eq-ok (kind_setting_at c "slippage" d) _ h3 in
      let (liquidity, k4, h5) = >>=-eq-ok (kind_setting_at c "liquidity" d) _ h4 in
      let (price_limit, k5, h6) = >>=-eq-ok (kind_setting_at c "price_limit" d) _ h5 in
      let (r, hr, h7) = >>=-eq-ok (new_rounding c rounding) _ h6 in
      let (checked, same) = >>-eq-ok (check_execution _) _ h7 in
      subst
        (λ e.
          IsValidPositionSizing e.position_sizing × IsValidRounding e.rounding × IsV1Execution e)
        (ok-injective same)
        (
          new_position_sizing-Valid sizing s hs,
          new_rounding-Valid rounding r hr,
          (check_execution_iff _).0 checked,
        )

  parsed_manifest : (d : Fields) (m : RunManifestV1) → parse_run_manifest c d ≡ ok m → IsValid m
  unfolding parse_run_manifest
  parsed_manifest d m h =
      let (_, _, h) = >>=-eq-ok (mapping_at "strategy_ref" d) _ h in
      let (_, _, h) = >>=-eq-ok (mapping_at "dataset_ref" d) _ h in
      let (_, _, h) = >>=-eq-ok (mapping_at "universe" d) _ h in
      let (_, _, h) = >>=-eq-ok (mapping_at "period" d) _ h in
      let (_, _, h) = >>=-eq-ok (mapping_at "capital" d) _ h in
      let (_, _, h) = >>=-eq-ok (mapping_at "signal_and_fill" d) _ h in
      let (ed, _, h) = >>=-eq-ok (mapping_at "execution" d) _ h in
      let (_, _, h) = >>=-eq-ok (mapping_at "metrics" d) _ h in
      let (_, _, h) = >>=-eq-ok (mapping_at "engine_ref" d) _ h in
      let (_, _, h) = >>=-eq-ok (mapping_at "position_sizing" ed) _ h in
      let (_, _, h) = >>=-eq-ok (mapping_at "rounding" ed) _ h in
      let (_, _, h) = >>=-eq-ok (text_at "run_id" d) _ h in
      let (_, _, h) = >>=-eq-ok (int_at "schema_version" d) _ h in
      let (s, hs, h) = >>=-eq-ok (new_strategy_ref _) _ h in
      let (r, hr, h) = >>=-eq-ok (new_dataset_ref _) _ h in
      let (u, hu, h) = >>=-eq-ok (new_universe _) _ h in
      let (p, hp, h) = >>=-eq-ok (new_period c _) _ h in
      let (k, hk, h) = >>=-eq-ok (new_capital c _) _ h in
      let (f, hf, h) = >>=-eq-ok (new_signal_and_fill _) _ h in
      let (_, _, h) = >>=-eq-ok (text_at "corporate_action_treatment" d) _ h in
      let (e, he, h) = >>=-eq-ok (new_execution c _ _ ed) _ h in
      let (_, _, h) = >>=-eq-ok (kind_setting_at c "benchmark" d) _ h in
      let (t, ht, h) = >>=-eq-ok (new_metrics c _) _ h in
      let (g, hg, h) = >>=-eq-ok (new_engine_ref _) _ h in
      let (_, _, h) = >>=-eq-ok (read_at c.parse_utc "created_at_utc" d) _ h in
      let (checked, same) = >>-eq-ok (check_run_manifest _) _ h in
      let (sizing, rounding, v1) = new_execution-Valid _ _ _ e he in
      subst (λ m. IsValid m) (ok-injective same)
        (record {
          strategy_ref = new_strategy_ref-Valid _ s hs;
          dataset_ref = new_dataset_ref-Valid _ r hr;
          universe = new_universe-Valid _ u hu;
          period = new_period-Valid _ p hp;
          capital = new_capital-Valid _ k hk;
          signal_and_fill = new_signal_and_fill-Valid _ f hf;
          position_sizing = sizing;
          rounding = rounding;
          v1_execution = v1;
          metrics = new_metrics-Valid _ t ht;
          engine_ref = new_engine_ref-Valid _ g hg;
          top = (check_run_manifest_iff _).0 checked;
        })

  -- A valid manifest, or an exception of the source.
  abbrev pub Parses : Result Fault RunManifestV1 → Type 0
  Parses (ok m) = IsValid m
  Parses (err fault) = fault ≢ untyped

  Parses-of :
      (outcome : Result Fault RunManifestV1)
      → ((m : RunManifestV1) → outcome ≡ ok m → IsValid m)
      → outcome ≢ err untyped
      → Parses outcome
  Parses-of (ok m) valid typed = valid m refl
  Parses-of (err fault) valid typed = λ same. typed (ap (λ e. err e) same)

  -- From a dictionary in which every value has the type of its key, `parse_run_manifest` returns a
  -- manifest that is valid in all its parts: positive capital, a fraction above 0 and at most 1, a
  -- start before the end, no instrument twice and at least one, and only the features of v1. Or it
  -- raises an exception of the source.
  pub parse_run_manifest-IsValid :
      (d : Fields) → has_types d ≡ true → Parses (parse_run_manifest c d)
  parse_run_manifest-IsValid d typed =
      Parses-of (parse_run_manifest c d) (parsed_manifest d) (parse_run_manifest-IsTyped c d typed)

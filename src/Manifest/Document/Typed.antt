-- ===== src/Manifest/Document/Typed.antt =====
-- `parse_run_manifest` of a dictionary in which every value has the type of its key.
use idx_backtest_lab.Common.{◌≡◌, refl, true, [], ◌∷◌, String, Result, ok, ◌>>=◌, ◌>>◌, arith}
use idx_backtest_lab.Common.Json.{Fields, get}
use idx_backtest_lab.Manifest.Classes.{
  Fault, Check, StrategyRef, check_strategy_ref, DatasetRef, check_dataset_ref, Universe,
  check_universe, Period, check_period, Capital, check_capital, SignalAndFill,
  check_signal_and_fill, PositionSizing, check_position_sizing, KindSetting, check_kind_setting,
  Rounding, check_rounding, Execution, check_execution, Metrics, check_metrics, EngineRef,
  check_engine_ref, RunManifestV1, check_run_manifest,
}
use idx_backtest_lab.Manifest.Parse.{
  new_strategy_ref, new_dataset_ref, new_universe, new_signal_and_fill, new_kind_setting,
  new_engine_ref, names_only, text_keyword, int_keyword, text_default, text_at, int_at, texts_at,
  read_at, Codec,
}
use idx_backtest_lab.Manifest.Parse.Typed.{
  has_types, type_of_key, mapping_key, IsTyped, >>=-IsTyped, >>-IsTyped, text_at-IsTyped,
  int_at-IsTyped, texts_at-IsTyped, mapping_then, read_at-IsTyped, names_only-IsTyped,
  text_keyword-IsTyped, int_keyword-IsTyped, text_default-IsTyped,
}
use idx_backtest_lab.Manifest.Document.{
  new_period, new_capital, new_position_sizing, new_rounding, new_metrics, kind_setting_at,
  new_execution, parse_run_manifest,
}

-- A checked object that is returned.
checked_ok : {A : Type 0} (check : Check) (a : A) → IsTyped check → IsTyped (check >> ok a)
checked_ok check a h = >>-IsTyped check (ok a) h (λ e. cc)

check_strategy_ref-IsTyped : (r : StrategyRef) → IsTyped (check_strategy_ref r)
unfolding check_strategy_ref
check_strategy_ref-IsTyped r = λ e. ground arith

check_dataset_ref-IsTyped : (r : DatasetRef) → IsTyped (check_dataset_ref r)
unfolding check_dataset_ref
check_dataset_ref-IsTyped r = λ e. ground arith

check_universe-IsTyped : (u : Universe) → IsTyped (check_universe u)
unfolding check_universe
check_universe-IsTyped u = λ e. ground arith

check_period-IsTyped : (p : Period) → IsTyped (check_period p)
unfolding check_period
check_period-IsTyped p = λ e. ground arith

check_capital-IsTyped : (k : Capital) → IsTyped (check_capital k)
unfolding check_capital
check_capital-IsTyped k = λ e. ground arith

check_signal_and_fill-IsTyped : (s : SignalAndFill) → IsTyped (check_signal_and_fill s)
unfolding check_signal_and_fill
check_signal_and_fill-IsTyped s = λ e. ground arith

check_position_sizing-IsTyped : (p : PositionSizing) → IsTyped (check_position_sizing p)
unfolding check_position_sizing
check_position_sizing-IsTyped p = λ e. ground arith

check_kind_setting-IsTyped : (k : KindSetting) → IsTyped (check_kind_setting k)
unfolding check_kind_setting
check_kind_setting-IsTyped k = λ e. ground arith

check_rounding-IsTyped : (r : Rounding) → IsTyped (check_rounding r)
unfolding check_rounding
check_rounding-IsTyped r = λ e. ground arith

check_execution-IsTyped : (x : Execution) → IsTyped (check_execution x)
unfolding check_execution
check_execution-IsTyped x = λ e. ground arith

check_metrics-IsTyped : (m : Metrics) → IsTyped (check_metrics m)
unfolding check_metrics
check_metrics-IsTyped m = λ e. ground arith

check_engine_ref-IsTyped : (r : EngineRef) → IsTyped (check_engine_ref r)
unfolding check_engine_ref
check_engine_ref-IsTyped r = λ e. ground arith

check_run_manifest-IsTyped : (m : RunManifestV1) → IsTyped (check_run_manifest m)
unfolding check_run_manifest
check_run_manifest-IsTyped m = λ e. ground arith

module _ (d : Fields) (h : has_types d ≡ true) where
  new_strategy_ref-IsTyped : IsTyped (new_strategy_ref d)
  unfolding new_strategy_ref
  new_strategy_ref-IsTyped =
      >>-IsTyped (names_only ("strategy_id" ∷ "version" ∷ "checksum" ∷ []) d) _
        (names_only-IsTyped d h ("strategy_id" ∷ "version" ∷ "checksum" ∷ []))
        (>>=-IsTyped (text_keyword "strategy_id" d) _ (text_keyword-IsTyped d h "strategy_id" refl)
          λ i _.
            >>=-IsTyped (int_keyword "version" d) _ (int_keyword-IsTyped d h "version" refl) λ v _.
              >>=-IsTyped (text_keyword "checksum" d) _ (text_keyword-IsTyped d h "checksum" refl)
                λ s _. checked_ok _ _ (check_strategy_ref-IsTyped _))

  new_dataset_ref-IsTyped : IsTyped (new_dataset_ref d)
  unfolding new_dataset_ref
  new_dataset_ref-IsTyped =
      >>-IsTyped (names_only ("dataset_id" ∷ "content_checksum" ∷ []) d) _
        (names_only-IsTyped d h ("dataset_id" ∷ "content_checksum" ∷ []))
        (>>=-IsTyped (text_keyword "dataset_id" d) _ (text_keyword-IsTyped d h "dataset_id" refl)
          λ i _.
            >>=-IsTyped (text_keyword "content_checksum" d) _
              (text_keyword-IsTyped d h "content_checksum" refl)
              λ s _. checked_ok _ _ (check_dataset_ref-IsTyped _))

  new_universe-IsTyped : IsTyped (new_universe d)
  unfolding new_universe
  new_universe-IsTyped =
      >>=-IsTyped (texts_at "instrument_ids" d) _ (texts_at-IsTyped d h "instrument_ids" refl)
        λ i _.
          >>=-IsTyped (text_at "unresolved_identifier_policy" d) _
            (text_at-IsTyped d h "unresolved_identifier_policy" refl)
            λ p _. checked_ok _ _ (check_universe-IsTyped _)

  new_signal_and_fill-IsTyped : IsTyped (new_signal_and_fill d)
  unfolding new_signal_and_fill
  new_signal_and_fill-IsTyped =
      >>-IsTyped (names_only ("signal_time" ∷ "fill_time" ∷ "missing_next_bar_policy" ∷ []) d) _
        (names_only-IsTyped d h ("signal_time" ∷ "fill_time" ∷ "missing_next_bar_policy" ∷ []))
        (>>=-IsTyped (text_default "bar_close" (get "signal_time" d)) _
          (text_default-IsTyped d h "bar_close" "signal_time" refl)
          λ s _.
            >>=-IsTyped (text_default "next_bar_open" (get "fill_time" d)) _
              (text_default-IsTyped d h "next_bar_open" "fill_time" refl)
              λ f _.
                >>=-IsTyped (text_default "reject" (get "missing_next_bar_policy" d)) _
                  (text_default-IsTyped d h "reject" "missing_next_bar_policy" refl)
                  λ p _. checked_ok _ _ (check_signal_and_fill-IsTyped _))

  new_kind_setting-IsTyped : IsTyped (new_kind_setting d)
  unfolding new_kind_setting
  new_kind_setting-IsTyped =
      >>-IsTyped (names_only ("kind" ∷ []) d) _ (names_only-IsTyped d h ("kind" ∷ [])) (
        >>=-IsTyped (text_keyword "kind" d) _ (text_keyword-IsTyped d h "kind" refl)
          λ k _. checked_ok _ _ (check_kind_setting-IsTyped _))

  new_engine_ref-IsTyped : IsTyped (new_engine_ref d)
  unfolding new_engine_ref
  new_engine_ref-IsTyped =
      >>-IsTyped (names_only ("adapter_name" ∷ "adapter_version" ∷ []) d) _
        (names_only-IsTyped d h ("adapter_name" ∷ "adapter_version" ∷ []))
        (>>=-IsTyped (text_keyword "adapter_name" d) _
          (text_keyword-IsTyped d h "adapter_name" refl)
          λ n _.
            >>=-IsTyped (text_keyword "adapter_version" d) _
              (text_keyword-IsTyped d h "adapter_version" refl)
              λ v _. checked_ok _ _ (check_engine_ref-IsTyped _))

  module _ (c : Codec) where
    new_period-IsTyped : IsTyped (new_period c d)
    unfolding new_period
    new_period-IsTyped =
        >>=-IsTyped (read_at c.read_date "start_date" d) _
          (read_at-IsTyped d h c.read_date "start_date" refl)
          λ s _.
            >>=-IsTyped (read_at c.read_date "end_date" d) _
              (read_at-IsTyped d h c.read_date "end_date" refl)
              λ e _.
                >>=-IsTyped (text_at "bar_interval" d) _ (text_at-IsTyped d h "bar_interval" refl)
                  λ b _. checked_ok _ _ (check_period-IsTyped _)

    new_capital-IsTyped : IsTyped (new_capital c d)
    unfolding new_capital
    new_capital-IsTyped =
        >>=-IsTyped (read_at c.read_decimal "amount" d) _
          (read_at-IsTyped d h c.read_decimal "amount" refl)
          λ a _.
            >>=-IsTyped (text_at "currency" d) _ (text_at-IsTyped d h "currency" refl)
              λ k _. checked_ok _ _ (check_capital-IsTyped _)

    new_position_sizing-IsTyped : IsTyped (new_position_sizing c d)
    unfolding new_position_sizing
    new_position_sizing-IsTyped =
        >>=-IsTyped (read_at c.read_decimal "fraction" d) _
          (read_at-IsTyped d h c.read_decimal "fraction" refl)
          λ f _.
            >>=-IsTyped (text_at "kind" d) _ (text_at-IsTyped d h "kind" refl)
              λ k _. checked_ok _ _ (check_position_sizing-IsTyped _)

    new_rounding-IsTyped : IsTyped (new_rounding c d)
    unfolding new_rounding
    new_rounding-IsTyped =
        >>=-IsTyped (read_at c.read_decimal "quantity_increment" d) _
          (read_at-IsTyped d h c.read_decimal "quantity_increment" refl)
          λ q _.
            >>=-IsTyped (int_at "money_scale" d) _ (int_at-IsTyped d h "money_scale" refl)
              λ k _. checked_ok _ _ (check_rounding-IsTyped _)

    new_metrics-IsTyped : IsTyped (new_metrics c d)
    unfolding new_metrics
    new_metrics-IsTyped =
        >>=-IsTyped (int_at "annualization_basis" d) _
          (int_at-IsTyped d h "annualization_basis" refl)
          λ b _.
            >>=-IsTyped (read_at c.read_decimal "risk_free_rate" d) _
              (read_at-IsTyped d h c.read_decimal "risk_free_rate" refl)
              λ k _. checked_ok _ _ (check_metrics-IsTyped _)

module _ (c : Codec) where
  setting_then :
      {B : Type 0} (d : Fields) (h : has_types d ≡ true) (key : String)
      (f : KindSetting → Result Fault B)
      → type_of_key key ≡ mapping_key
      → ((k : KindSetting) → IsTyped (f k))
      → IsTyped (kind_setting_at c key d >>= f)
  unfolding kind_setting_at
  setting_then d h key f same k =
      >>=-IsTyped (kind_setting_at c key d) f
        (mapping_then d h key new_kind_setting same λ part t. new_kind_setting-IsTyped part t)
        λ s _. k s

  new_execution-IsTyped :
      (sizing rounding d : Fields)
      → has_types sizing ≡ true
      → has_types rounding ≡ true
      → has_types d ≡ true
      → IsTyped (new_execution c sizing rounding d)
  unfolding new_execution
  new_execution-IsTyped sizing rounding d hs hr h =
      >>=-IsTyped (new_position_sizing c sizing) _ (new_position_sizing-IsTyped sizing hs c) λ s _.
        setting_then d h "commission" _ refl λ commission. setting_then d h "tax" _ refl λ tax.
          setting_then d h "slippage" _ refl λ slippage.
            setting_then d h "liquidity" _ refl λ liquidity.
              setting_then d h "price_limit" _ refl λ price_limit.
                >>=-IsTyped (new_rounding c rounding) _ (new_rounding-IsTyped rounding hr c)
                  λ r _. checked_ok _ _ (check_execution-IsTyped _)

  -- The objects, in the order of the call, of the dictionaries that are taken out first.
  pub parse_run_manifest-IsTyped :
      (d : Fields) → has_types d ≡ true → IsTyped (parse_run_manifest c d)
  unfolding parse_run_manifest
  parse_run_manifest-IsTyped d h = mapping_then d h "strategy_ref" _ refl λ strategy_ref t1.
      mapping_then d h "dataset_ref" _ refl λ dataset_ref t2.
        mapping_then d h "universe" _ refl λ universe t3.
          mapping_then d h "period" _ refl λ period t4.
            mapping_then d h "capital" _ refl λ capital t5.
              mapping_then d h "signal_and_fill" _ refl λ signal t6.
                mapping_then d h "execution" _ refl λ execution t7.
                  mapping_then d h "metrics" _ refl λ metrics t8.
                    mapping_then d h "engine_ref" _ refl λ engine_ref t9.
                      mapping_then execution t7 "position_sizing" _ refl λ sizing t10.
                        mapping_then execution t7 "rounding" _ refl λ rounding t11.
                          >>=-IsTyped (text_at "run_id" d) _ (text_at-IsTyped d h "run_id" refl)
                            λ run_id _.
                              >>=-IsTyped (int_at "schema_version" d) _
                                (int_at-IsTyped d h "schema_version" refl)
                                λ version _.
                                  >>=-IsTyped (new_strategy_ref strategy_ref) _
                                    (new_strategy_ref-IsTyped strategy_ref t1)
                                    λ s _.
                                      >>=-IsTyped (new_dataset_ref dataset_ref) _
                                        (new_dataset_ref-IsTyped dataset_ref t2)
                                        λ r _.
                                          >>=-IsTyped (new_universe universe) _
                                            (new_universe-IsTyped universe t3)
                                            λ u _.
                                              >>=-IsTyped (new_period c period) _
                                                (new_period-IsTyped period t4 c)
                                                λ p _.
                                                  >>=-IsTyped (new_capital c capital) _
                                                    (new_capital-IsTyped capital t5 c)
                                                    λ k _.
                                                      >>=-IsTyped (new_signal_and_fill signal) _
                                                        (new_signal_and_fill-IsTyped signal t6)
                                                        λ f _.
                                                          >>=-IsTyped
                                                            (text_at "corporate_action_treatment" d)
                                                            _
                                                            (text_at-IsTyped d h
                                                            "corporate_action_treatment" refl)
                                                            λ treatment _.
                                                            >>=-IsTyped
                                                            (new_execution c sizing rounding
                                                            execution)
                                                            _
                                                            (new_execution-IsTyped sizing rounding
                                                            execution t10 t11 t7)
                                                            λ e _.
                                                            setting_then d h "benchmark" _ refl
                                                            λ benchmark.
                                                            >>=-IsTyped (new_metrics c metrics) _
                                                            (new_metrics-IsTyped metrics t8 c)
                                                            λ m _.
                                                            >>=-IsTyped (new_engine_ref engine_ref)
                                                            _ (new_engine_ref-IsTyped engine_ref t9)
                                                            λ g _.
                                                            >>=-IsTyped
                                                            (read_at c.parse_utc "created_at_utc" d)
                                                            _
                                                            (read_at-IsTyped d h c.parse_utc
                                                            "created_at_utc" refl)
                                                            λ now _.
                                                            checked_ok _ _
                                                            (check_run_manifest-IsTyped _)

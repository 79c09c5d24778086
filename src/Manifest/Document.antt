-- ===== src/Manifest/Document.antt =====
-- `Execution`, `Period`, `Capital`, `Metrics` and `RunManifestV1` as dictionaries, and
-- `parse_run_manifest` (backend/app/domain/backtest_manifest.py). A dictionary is read in the order
-- of the source: the parts first, then the fields in the order of the call.
pub mod RoundTrip
pub mod Typed
pub mod Sound
use idx_backtest_lab.Common.{
  ◌≡◌, refl, Bool, Option, none, some, List, [], ◌∷◌, String, Result, ok, err, ◌>>◌, ◌>>=◌,
}
use idx_backtest_lab.Common.Int.{ℤ}
use idx_backtest_lab.Common.Time.{Date, Datetime}
use idx_backtest_lab.Common.Json.{Value, int, text, mapping, Fields, done, field, get}
use idx_backtest_lab.Manifest.Classes.{
  Fault, Check, Decimal, StrategyRef, DatasetRef, Universe, Period, check_period, Capital,
  check_capital, SignalAndFill, PositionSizing, check_position_sizing, KindSetting, Rounding,
  check_rounding, Execution, check_execution, Metrics, check_metrics, EngineRef, RunManifestV1,
  check_run_manifest,
}
use idx_backtest_lab.Manifest.Parse.{
  text_at, int_at, mapping_at, read_at, strategy_ref_dict, new_strategy_ref, dataset_ref_dict,
  new_dataset_ref, universe_dict, new_universe, signal_and_fill_dict, new_signal_and_fill,
  kind_setting_dict, new_kind_setting, engine_ref_dict, new_engine_ref, Codec,
}

module _ (c : Codec) where
  unfoldable pub period_dict : Period → Fields
  period_dict p = field "start_date" (text (c.format_date p.start_date)) (
      field "end_date" (text (c.format_date p.end_date))
        (field "bar_interval" (text p.bar_interval) done))

  unfoldable pub new_period : Fields → Result Fault Period
  unfolding read_at text_at
  new_period d = do
    start_date ← read_at c.read_date "start_date" d
    end_date ← read_at c.read_date "end_date" d
    bar_interval ← text_at "bar_interval" d
    let p : Period = record {
      start_date = start_date;
      end_date = end_date;
      bar_interval = bar_interval;
    }
    check_period p
    ok p

  unfoldable pub capital_dict : Capital → Fields
  capital_dict k =
      field "amount" (text (c.decimal_str k.amount)) (field "currency" (text k.currency) done)

  unfoldable pub new_capital : Fields → Result Fault Capital
  unfolding read_at text_at
  new_capital d = do
    amount ← read_at c.read_decimal "amount" d
    currency ← text_at "currency" d
    let k : Capital = record { amount = amount; currency = currency }
    check_capital k
    ok k

  unfoldable pub position_sizing_dict : PositionSizing → Fields
  position_sizing_dict p =
      field "kind" (text p.kind) (field "fraction" (text (c.decimal_str p.fraction)) done)

  unfoldable pub new_position_sizing : Fields → Result Fault PositionSizing
  unfolding read_at text_at
  new_position_sizing d = do
    fraction ← read_at c.read_decimal "fraction" d
    kind ← text_at "kind" d
    let p : PositionSizing = record { fraction = fraction; kind = kind }
    check_position_sizing p
    ok p

  unfoldable pub rounding_dict : Rounding → Fields
  rounding_dict r =
      field "quantity_increment" (text (c.decimal_str r.quantity_increment))
        (field "money_scale" (int r.money_scale) done)

  unfoldable pub new_rounding : Fields → Result Fault Rounding
  unfolding read_at int_at
  new_rounding d = do
    quantity_increment ← read_at c.read_decimal "quantity_increment" d
    money_scale ← int_at "money_scale" d
    let r : Rounding = record { quantity_increment = quantity_increment; money_scale = money_scale }
    check_rounding r
    ok r

  unfoldable pub metrics_dict : Metrics → Fields
  metrics_dict m =
      field "annualization_basis" (int m.annualization_basis)
        (field "risk_free_rate" (text (c.decimal_str m.risk_free_rate)) done)

  unfoldable pub new_metrics : Fields → Result Fault Metrics
  unfolding read_at int_at
  new_metrics d = do
    annualization_basis ← int_at "annualization_basis" d
    risk_free_rate ← read_at c.read_decimal "risk_free_rate" d
    let m : Metrics = record {
      annualization_basis = annualization_basis;
      risk_free_rate = risk_free_rate;
    }
    check_metrics m
    ok m

  unfoldable pub execution_dict : Execution → Fields
  execution_dict e = field "position_sizing" (mapping (position_sizing_dict e.position_sizing)) (
      field "commission" (mapping (kind_setting_dict e.commission)) (
        field "tax" (mapping (kind_setting_dict e.tax)) (
          field "slippage" (mapping (kind_setting_dict e.slippage)) (
            field "liquidity" (mapping (kind_setting_dict e.liquidity)) (
              field "price_limit" (mapping (kind_setting_dict e.price_limit))
                (field "rounding" (mapping (rounding_dict e.rounding)) done))))))

  -- `KindSetting(**d[key])`
  unfoldable pub kind_setting_at : String → Fields → Result Fault KindSetting
  unfolding mapping_at
  kind_setting_at key d = do k ← mapping_at key d; new_kind_setting k

  -- `Execution(...)` of the dictionary, whose position sizing and rounding are already taken out.
  unfoldable pub new_execution : (position_sizing rounding d : Fields) → Result Fault Execution
  unfolding kind_setting_at
  new_execution position_sizing rounding d = do
    sizing ← new_position_sizing position_sizing
    commission ← kind_setting_at "commission" d
    tax ← kind_setting_at "tax" d
    slippage ← kind_setting_at "slippage" d
    liquidity ← kind_setting_at "liquidity" d
    price_limit ← kind_setting_at "price_limit" d
    increments ← new_rounding rounding
    let e : Execution = record {
      position_sizing = sizing;
      rounding = increments;
      commission = commission;
      tax = tax;
      slippage = slippage;
      liquidity = liquidity;
      price_limit = price_limit;
    }
    check_execution e
    ok e

  unfoldable pub to_canonical_dict : RunManifestV1 → Fields
  to_canonical_dict m = field "schema_version" (int m.schema_version) (
      field "run_id" (text m.run_id) (
        field "strategy_ref" (mapping (strategy_ref_dict m.strategy_ref)) (
          field "dataset_ref" (mapping (dataset_ref_dict m.dataset_ref)) (
            field "universe" (mapping (universe_dict m.universe)) (
              field "period" (mapping (period_dict m.period)) (
                field "capital" (mapping (capital_dict m.capital)) (
                  field "signal_and_fill" (mapping (signal_and_fill_dict m.signal_and_fill)) (
                    field "corporate_action_treatment" (text m.corporate_action_treatment) (
                      field "execution" (mapping (execution_dict m.execution)) (
                        field "benchmark" (mapping (kind_setting_dict m.benchmark)) (
                          field "metrics" (mapping (metrics_dict m.metrics)) (
                            field "engine_ref" (mapping (engine_ref_dict m.engine_ref)) (
                              field "created_at_utc" (text (c.format_utc m.created_at_utc))
                                done)))))))))))))

  unfoldable pub parse_run_manifest : Fields → Result Fault RunManifestV1
  unfolding mapping_at text_at int_at read_at kind_setting_at
  parse_run_manifest d = do
    strategy_ref_data ← mapping_at "strategy_ref" d
    dataset_ref_data ← mapping_at "dataset_ref" d
    universe_data ← mapping_at "universe" d
    period_data ← mapping_at "period" d
    capital_data ← mapping_at "capital" d
    signal_and_fill_data ← mapping_at "signal_and_fill" d
    execution_data ← mapping_at "execution" d
    metrics_data ← mapping_at "metrics" d
    engine_ref_data ← mapping_at "engine_ref" d
    position_sizing_data ← mapping_at "position_sizing" execution_data
    rounding_data ← mapping_at "rounding" execution_data
    run_id ← text_at "run_id" d
    schema_version ← int_at "schema_version" d
    strategy_ref ← new_strategy_ref strategy_ref_data
    dataset_ref ← new_dataset_ref dataset_ref_data
    universe ← new_universe universe_data
    period ← new_period period_data
    capital ← new_capital capital_data
    signal_and_fill ← new_signal_and_fill signal_and_fill_data
    treatment ← text_at "corporate_action_treatment" d
    execution ← new_execution position_sizing_data rounding_data execution_data
    benchmark ← kind_setting_at "benchmark" d
    metrics ← new_metrics metrics_data
    engine_ref ← new_engine_ref engine_ref_data
    created_at_utc ← read_at c.parse_utc "created_at_utc" d
    let m : RunManifestV1 = record {
      run_id = run_id;
      strategy_ref = strategy_ref;
      dataset_ref = dataset_ref;
      universe = universe;
      period = period;
      capital = capital;
      execution = execution;
      metrics = metrics;
      engine_ref = engine_ref;
      created_at_utc = created_at_utc;
      schema_version = schema_version;
      signal_and_fill = signal_and_fill;
      corporate_action_treatment = treatment;
      benchmark = benchmark;
    }
    check_run_manifest m
    ok m

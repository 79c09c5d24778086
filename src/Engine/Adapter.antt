-- ===== src/Engine/Adapter.antt =====
-- `BacktraderEngineAdapter.execute` (backend/app/infrastructure/engine/backtrader_adapter.py). What
-- `cerebro.run()` does beyond the strategy's own code is a parameter: the callbacks that it makes on a
-- strategy, or that it raises; so is what the indicators' lines read, and the clock.
pub mod Laws
use idx_backtest_lab.Common.{
  ℕ, ◌+◌, ◌-◌, Bool, Option, none, some, List, [], ◌∷◌, String, Result, ok, err, ◌>>=◌, length,
}
use idx_backtest_lab.Common.Int.{ℤ, pos, ◌*ℤ◌}
use idx_backtest_lab.Common.Time.{Datetime}
use idx_backtest_lab.Manifest.Classes.{Decimal, finite, infinite, nan, power_of_ten, RunManifestV1}
use idx_backtest_lab.Strategy.Spec.{StrategySpecV1}
use idx_backtest_lab.Market.Bar.{NormalizedBar}
use idx_backtest_lab.Execution.{
  TerminalStatus, completed, failed, ExecutionMetadata, ExecutionResult,
}
use idx_backtest_lab.Engine.Sizing.{Arithmetic, Raised, backtrader_error}
use idx_backtest_lab.Engine.Signals.{Signal, Lines, strategy_lines, entry_signal, exit_signal}
use idx_backtest_lab.Engine.State.{Params, State, init_state}
use idx_backtest_lab.Engine.Callbacks.{Callback, handle_all, stop}

abbrev pub adapter_name : String
adapter_name = "backtrader"

abbrev pub adapter_version : String
adapter_version = "1.9.78.123"

abbrev pub ordering_policy : String
ordering_policy = "stable_by_instrument_id"

-- A decimal in the smallest unit, which has at least its places; a capital is finite.
unfoldable pub in_units : ℕ → Decimal → ℤ
in_units unit_places (finite mantissa places) = power_of_ten (unit_places - places) *ℤ mantissa
in_units unit_places infinite = pos 0
in_units unit_places nan = pos 0

-- `_build_metadata`
unfoldable pub build_metadata :
    (manifest_checksum dataset_checksum : String) (started_at finished_at : Datetime)
    (event_count : ℕ)
    → ExecutionMetadata
build_metadata manifest_checksum dataset_checksum started_at finished_at event_count = record {
  adapter_name = adapter_name;
  adapter_version = adapter_version;
  manifest_checksum = manifest_checksum;
  dataset_checksum = dataset_checksum;
  ordering_policy = ordering_policy;
  started_at_utc = started_at;
  finished_at_utc = finished_at;
  event_count = event_count;
}

-- The arguments of `execute`, with the two readings of the clock.
pub record Arguments : Type 0 where
  pub manifest : RunManifestV1
  pub manifest_checksum : String
  pub strategy : StrategySpecV1
  pub instrument_id : String
  pub bars : List NormalizedBar
  pub id_factory : ℕ → String
  pub started_at : Datetime
  pub finished_at : Datetime

unfoldable pub terminal_status : Option String → TerminalStatus
terminal_status none = completed
terminal_status (some code) = failed

unfoldable pub or_backtrader_error : {A : Type 0} → Option A → Result Raised A
or_backtrader_error none = err backtrader_error
or_backtrader_error (some a) = ok a

module _ (arithmetic : Arithmetic) (unit_places : ℕ) (is_positive : Signal → ℕ → Bool)
    (cerebro : Params → Option (List Callback)) (a : Arguments) where
  -- The parameters that the strategy is added with.
  unfoldable pub params_of : Lines → Params
  params_of lines = record {
    arithmetic = arithmetic;
    unit_places = unit_places;
    bars = a.bars;
    instrument_id = a.instrument_id;
    eligible_after_bars = a.strategy.signal_policy.eligible_after_bars;
    fraction = a.manifest.execution.position_sizing.fraction;
    quantity_increment = a.manifest.execution.rounding.quantity_increment;
    money_scale = a.manifest.execution.rounding.money_scale;
    currency = a.manifest.capital.currency;
    initial_cash = in_units unit_places a.manifest.capital.amount;
    id_factory = a.id_factory;
    entry_signal = λ n. entry_signal is_positive n lines;
    exit_signal = λ n. exit_signal is_positive n lines;
  }

  -- The body of the `try`, up to the strategy object that the run leaves.
  unfoldable pub run_strategy : Result Raised State
  run_strategy = do
    lines ← strategy_lines a.strategy.kind a.strategy.parameters
    calls ← or_backtrader_error (cerebro (params_of lines))
    s ← handle_all (params_of lines) calls (init_state (params_of lines))
    ok (stop s)

  -- The result of a run without an exception, or with one.
  unfoldable pub result_of : Result Raised State → ExecutionResult
  unfolding build_metadata terminal_status
  result_of (err raised) = record {
    metadata =
        build_metadata a.manifest_checksum a.manifest.dataset_ref.content_checksum a.started_at
          a.finished_at 0;
    order_events = [];
    fill_events = [];
    position_events = [];
    cash_events = [];
    warnings = [];
    terminal_status = failed;
    failure_code = some "engine_error";
  }
  result_of (ok s) = record {
    metadata =
        build_metadata a.manifest_checksum a.manifest.dataset_ref.content_checksum a.started_at
          a.finished_at
          (length s.order_events
            + length s.fill_events
            + length s.position_events
            + length s.cash_events);
    order_events = s.order_events;
    fill_events = s.fill_events;
    position_events = s.position_events;
    cash_events = s.cash_events;
    warnings = s.warnings;
    terminal_status = terminal_status s.failure_code;
    failure_code = s.failure_code;
  }

  unfoldable pub execute : ExecutionResult
  execute = result_of run_strategy

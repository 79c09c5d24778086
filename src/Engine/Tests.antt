-- ===== src/Engine/Tests.antt =====
-- A strategy that buys on the first bar and sells on the second.
use idx_backtest_lab.Common.{
  ℕ, zero, suc, ◌+◌, ◌*◌, ◌≤◌, ◌≡◌, refl, sym, ap, ◌∙◌, true, some, List, [], ◌∷◌, String, Result,
  ok, err, ◌/◌,
}
use idx_backtest_lab.Common.Int.{ℤ, pos, ◌+ℤ◌, ◌-ℤ◌}
use idx_backtest_lab.Manifest.Classes.{Decimal, finite, power_of_ten}
use idx_backtest_lab.Manifest.Tests.{sample}
use idx_backtest_lab.Market.Tests.{daily_bar}
use idx_backtest_lab.Strategy.Parameters.{
  MultiIndicatorComboParameters, sma, rsi, combo, kind_of_base,
}
use idx_backtest_lab.Strategy.Tests.{spec}
use idx_backtest_lab.Execution.{buy, sell}
use idx_backtest_lab.Engine.Sizing.{Arithmetic, Raised, decimal_error, int_quantity}
use idx_backtest_lab.Engine.Signals.{Lines, strategy_lines, entry_signal, exit_signal}
use idx_backtest_lab.Engine.Signals.Combo.{each_enters, one_exits, strategy_lines-combo}
use idx_backtest_lab.Engine.State.{
  Params, OrderContext, State, init_state, bar_at, context_of, without,
}
use idx_backtest_lab.Engine.Callbacks.{
  Callback, next, notify_order, completed, submit, submit_sized, submit_entry, trade_on, on_next,
  fill_on, handle_fill, notify_known, on_notify, handle, handle_all,
}
use idx_backtest_lab.Engine.Callbacks.Totals.{total, handle_all-cash}
use idx_backtest_lab.Engine.Callbacks.Orders.{settled, open_orders, handle_all-once}
use idx_backtest_lab.Engine.Adapter.{Arguments, in_units, execute}
use idx_backtest_lab.Engine.Adapter.Laws.{IsCoherent, execute-IsCoherent}

-- Decimals above 0 whose quotients are cut off to whole numbers.
abbrev whole : Decimal → Decimal → Result Raised Decimal
whole (finite (pos m) p) (finite (pos n) q) =
    ok (finite (pos (m * power_of_ten q / (n * power_of_ten p))) 0)
whole a b = err decimal_error

abbrev product : Decimal → Decimal → Result Raised Decimal
product (finite (pos m) p) (finite (pos n) q) = ok (finite (pos (m * n)) (p + q))
product a b = err decimal_error

abbrev arithmetic : Arithmetic
arithmetic = record {
  multiply = product;
  divide = whole;
  quantize_down = λ d scale. whole d (finite (pos 1) 0);
  to_integral_down = λ d. whole d (finite (pos 1) 0);
  to_int = to_whole;
}
  where
    to_whole : Decimal → Result Raised ℤ
    to_whole (finite m p) = ok m
    to_whole d = err decimal_error

-- The n-th id: a text of n letters.
abbrev nth_id : ℕ → String
nth_id zero = ""
nth_id (suc n) = String.◌∷◌ "a" (nth_id n)

abbrev letters : String → ℕ
letters String.[] = 0
letters (String.◌∷◌ c s) = suc (letters s)

letters-nth_id : (n : ℕ) → letters (nth_id n) ≡ n
letters-nth_id zero = refl
letters-nth_id (suc n) = ap suc (letters-nth_id n)

nth_id-distinct : (j k : ℕ) → nth_id j ≡ nth_id k → j ≡ k
nth_id-distinct j k h = sym (letters-nth_id j) ∙ ap letters h ∙ letters-nth_id k

abbrev settings : Params
settings = record {
  arithmetic = arithmetic;
  unit_places = 0;
  bars = daily_bar ∷ daily_bar ∷ [];
  instrument_id = "BBCA";
  eligible_after_bars = pos 1;
  fraction = finite (pos 5) 1;
  quantity_increment = finite (pos 1) 0;
  money_scale = pos 0;
  currency = "IDR";
  initial_cash = pos 1000;
  id_factory = nth_id;
  entry_signal = λ n. true;
  exit_signal = λ n. true;
}

-- A purchase on the first bar, which is filled on the second.
abbrev calls : List Callback
calls = next 1 (pos 0) 7 ∷ notify_order 2 7 completed "Completed" ∷ []

abbrev order : OrderContext
order = record {
  order_id = "";
  side = buy;
  intended_quantity = 4;
  created_at_utc = daily_bar.timestamp_utc;
}

abbrev final : State
final =
    fill_on settings 7 order (submit settings 7 buy 4 daily_bar.timestamp_utc (init_state settings))
      daily_bar

calls_run : handle_all settings calls (init_state settings) ≡ ok final
unfolding handle_all handle on_next trade_on submit_entry submit_sized on_notify notify_known
    handle_fill bar_at context_of submit init_state int_quantity power_of_ten without
calls_run = refl

handle_all-cash_example :
    final.available_cash
    ≡ settings.initial_cash +ℤ total sell final.fill_events -ℤ total buy final.fill_events
handle_all-cash_example = handle_all-cash settings calls final calls_run

handle_all-once_example : settled "" final.order_events + open_orders "" final.order_context ≤ 1
handle_all-once_example = handle_all-once settings nth_id-distinct calls final calls_run ""

abbrev both : MultiIndicatorComboParameters
both = record {
  conditions =
      record {
        kind = "sma_crossover";
        parameters =
            sma (record { fast_window = pos 5; slow_window = pos 20; price_field = "close" });
      }
      ∷ record {
        kind = "rsi_threshold";
        parameters = rsi (record {
          period = pos 14;
          oversold_threshold = pos 30;
          overbought_threshold = pos 70;
          price_field = "close";
        });
      }
      ∷ [];
}

strategy_lines-combo_example :
    (lines : Lines) × (strategy_lines "multi_indicator_combo" (combo both) ≡ ok lines)
    × (entry_signal (λ s n. true) 3 lines ≡ each_enters (λ s n. true) 3 both.conditions)
    × (exit_signal (λ s n. true) 3 lines ≡ one_exits (λ s n. true) 3 both.conditions)
unfolding kind_of_base
strategy_lines-combo_example = strategy_lines-combo (λ s n. true) 3 both (refl, (refl, tt))

abbrev arguments : Arguments
arguments = record {
  manifest = sample;
  manifest_checksum = "sum";
  strategy = spec;
  instrument_id = "BBCA";
  bars = daily_bar ∷ daily_bar ∷ [];
  id_factory = nth_id;
  started_at = daily_bar.timestamp_utc;
  finished_at = daily_bar.timestamp_utc;
}

execute-IsCoherent_example :
    IsCoherent
      (in_units 0 arguments.manifest.capital.amount)
      (execute arithmetic 0 (λ s n. true) (λ p. some calls) arguments)
execute-IsCoherent_example =
    execute-IsCoherent arithmetic 0 (λ s n. true) (λ p. some calls) arguments

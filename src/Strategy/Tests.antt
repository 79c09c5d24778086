-- ===== src/Strategy/Tests.antt =====
-- Concrete strategies.
use idx_backtest_lab.Common.{◌≡◌, ◌↔◌, refl, true, [], ◌∷◌, ok, arith}
use idx_backtest_lab.Common.Int.{pos}
use idx_backtest_lab.Common.Text.{is_empty, is_blank, text_lt}
use idx_backtest_lab.Common.Sorted.{contains}
use idx_backtest_lab.Common.Time.{Datetime}
use idx_backtest_lab.Common.Json.{int, text, Fields, done, field}
use idx_backtest_lab.Strategy.Parameters.{
  BaseStrategyParameters, sma, rsi, check_base, check_sma, kind_of_base,
  MultiIndicatorComboParameters, base, combo, kind_of, to_canonical_dict, required_warmup_bars,
}
use idx_backtest_lab.Strategy.Parameters.Valid.{IsValidBase, IsValidParameters, check_base_iff}
use idx_backtest_lab.Strategy.Build.{build_parameters, no_other, int_argument, text_argument}
use idx_backtest_lab.Strategy.Build.Sound.{Answers, build_parameters-IsValid}
use idx_backtest_lab.Strategy.Build.RoundTrip.{build_parameters-to_canonical_dict}
use idx_backtest_lab.Strategy.Spec.{
  Request, StrategySpecV1, create_strategy_spec, check_spec, check_signal_policy, Creates,
  create_strategy_spec-IsSound,
}

abbrev crossover : BaseStrategyParameters
crossover = sma (record { fast_window = pos 5; slow_window = pos 20; price_field = "close" })

abbrev oscillator : BaseStrategyParameters
oscillator = rsi (record {
  period = pos 14;
  oversold_threshold = pos 30;
  overbought_threshold = pos 70;
  price_field = "close";
})

abbrev both : MultiIndicatorComboParameters
both = record {
  conditions =
      record { kind = "sma_crossover"; parameters = crossover }
      ∷ record { kind = "rsi_threshold"; parameters = oscillator }
      ∷ [];
}

check_base_iff_example : (check_base oscillator ≡ ok tt) ↔ IsValidBase oscillator
check_base_iff_example = check_base_iff oscillator

both-IsValid : IsValidParameters (combo both)
unfolding kind_of_base contains text_lt
both-IsValid = record {
  at_least_two = omega arith;
  at_most_three = omega arith;
  distinct = (refl, (refl, tt));
  each = (
    (refl, (omega arith, omega arith, refl)),
    ((refl, (omega arith, omega arith, omega arith, omega arith, refl)), tt),
  );
}

build_parameters-to_canonical_dict_example :
    build_parameters (kind_of (combo both)) (to_canonical_dict (combo both)) ≡ ok (combo both)
build_parameters-to_canonical_dict_example =
    build_parameters-to_canonical_dict (combo both) both-IsValid

abbrev raw : Fields
raw =
    field "slow_window" (int (pos 20))
      (field "price_field" (text "close") (field "fast_window" (int (pos 5)) done))

build_parameters-IsValid_example : Answers "sma_crossover" (build_parameters "sma_crossover" raw)
build_parameters-IsValid_example = build_parameters-IsValid "sma_crossover" raw refl

abbrev noon : Datetime
noon = record { instant = 43200; is_aware = true }

abbrev request : Request
request = record {
  name = "Crossover";
  kind = "sma_crossover";
  parameters = raw;
  signal_time = "bar_close";
  eligible_after_bars = pos 25;
  long_only = true;
}

abbrev pub spec : StrategySpecV1
spec = record {
  strategy_id = "s1";
  version = pos 1;
  schema_version = pos 1;
  name = "Crossover";
  kind = "sma_crossover";
  parameters = base crossover;
  signal_policy = record {
    signal_time = "bar_close";
    eligible_after_bars = pos 25;
    long_only = true;
  };
  created_at_utc = noon;
  checksum = "sum";
  canonical_json = "text";
}

created :
    create_strategy_spec (λ t. "1970-01-01T12:00:00Z") (λ d. "sum") (λ d. "text") "s1" noon request
    ≡ ok spec
unfolding create_strategy_spec build_parameters no_other int_argument text_argument check_sma
    check_signal_policy check_spec is_empty is_blank kind_of required_warmup_bars
created = refl

create_strategy_spec-IsSound_example :
    Creates
      (λ t. "1970-01-01T12:00:00Z")
      (λ d. "sum")
      (λ d. "text")
      "s1"
      noon
      request
      (create_strategy_spec
        (λ t. "1970-01-01T12:00:00Z")
        (λ d. "sum")
        (λ d. "text")
        "s1"
        noon
        request)
create_strategy_spec-IsSound_example =
    create_strategy_spec-IsSound (λ t. "1970-01-01T12:00:00Z") (λ d. "sum") (λ d. "text") "s1" noon
      request refl

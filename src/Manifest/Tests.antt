-- ===== src/Manifest/Tests.antt =====
-- A concrete manifest, with a codec for the values that it holds.
use idx_backtest_lab.Common.{
  ◌≡◌, refl, true, none, some, [], ◌∷◌, String, ok, arith, if◌then◌else◌, ◌==◌,
}
use idx_backtest_lab.Common.Int.{pos}
use idx_backtest_lab.Common.Text.{eqs, is_empty, is_blank}
use idx_backtest_lab.Common.Sorted.{contains}
use idx_backtest_lab.Common.Time.{Datetime}
use idx_backtest_lab.Manifest.Classes.{
  Decimal, finite, RunManifestV1, is_nil, power_of_ten, KindSetting,
}
use idx_backtest_lab.Manifest.Valid.{IsValid}
use idx_backtest_lab.Manifest.Parse.{
  Codec, strategy_ref_dict, dataset_ref_dict, universe_dict, text_items, signal_and_fill_dict,
  kind_setting_dict, engine_ref_dict,
}
use idx_backtest_lab.Manifest.Parse.Typed.{has_types}
use idx_backtest_lab.Manifest.Document.{
  to_canonical_dict, parse_run_manifest, period_dict, capital_dict, execution_dict,
  position_sizing_dict, rounding_dict, metrics_dict,
}
use idx_backtest_lab.Manifest.Document.RoundTrip.{ReadsBack, parse_run_manifest-to_canonical_dict}
use idx_backtest_lab.Manifest.Document.Sound.{Parses, parse_run_manifest-IsValid}

abbrev pub half : Decimal
half = finite (pos 5) 1

abbrev pub hundred : Decimal
hundred = finite (pos 100) 0

abbrev morning : Datetime
morning = record { instant = 36000; is_aware = true }

abbrev decimal_text : Decimal → String
decimal_text (finite m places) = if places == 1 then "0.5" else "100"
decimal_text d = "NaN"

-- Texts for the two decimals, the two dates and the time of the manifest.
abbrev pub sample_codec : Codec
sample_codec = record {
  decimal_str = decimal_text;
  read_decimal = λ s. if eqs s "0.5" then some half else if eqs s "100" then some hundred else none;
  format_date = λ d. if d == 10 then "2024-01-02" else "2024-06-28";
  read_date = λ s. if eqs s "2024-01-02" then some 10 else some 188;
  format_utc = λ t. "1970-01-01T10:00:00Z";
  parse_utc = λ s. some morning;
}

abbrev setting : String → KindSetting
setting kind = record { kind = kind }

abbrev pub sample : RunManifestV1
sample = record {
  run_id = "run-1";
  strategy_ref = record { strategy_id = "s1"; version = pos 1; checksum = "sum" };
  dataset_ref = record { dataset_id = "d1"; content_checksum = "content" };
  universe = record { instrument_ids = "BBCA" ∷ []; unresolved_identifier_policy = "reject" };
  period = record { start_date = 10; end_date = 188; bar_interval = "1d" };
  capital = record { amount = hundred; currency = "IDR" };
  execution = record {
    position_sizing = record { fraction = half; kind = "fixed_fraction" };
    rounding = record { quantity_increment = hundred; money_scale = pos 2 };
    commission = setting "none";
    tax = setting "none";
    slippage = setting "none";
    liquidity = setting "ignore_with_warning";
    price_limit = setting "ignore_with_warning";
  };
  metrics = record { annualization_basis = pos 252; risk_free_rate = half };
  engine_ref = record { adapter_name = "backtrader"; adapter_version = "1" };
  created_at_utc = morning;
  schema_version = pos 1;
  signal_and_fill = record {
    signal_time = "bar_close";
    fill_time = "next_bar_open";
    missing_next_bar_policy = "reject";
  };
  corporate_action_treatment = "dataset_as_declared_no_event_adjustment";
  benchmark = setting "none";
}

sample-ReadsBack : ReadsBack sample_codec sample
sample-ReadsBack = record {
  start_date = refl;
  end_date = refl;
  amount = refl;
  fraction = refl;
  quantity_increment = refl;
  risk_free_rate = refl;
  created_at_utc = refl;
}

sample-IsValid : IsValid sample
unfolding is_empty is_blank is_nil power_of_ten contains
sample-IsValid = record {
  strategy_ref = (refl, omega arith, refl);
  dataset_ref = (refl, refl);
  universe = (refl, (refl, tt), refl);
  period = (omega arith, refl);
  capital = (omega arith, refl);
  signal_and_fill = (refl, refl, refl);
  position_sizing = (refl, (omega arith, omega arith));
  rounding = (omega arith, omega arith);
  v1_execution = (refl, refl, refl, refl, refl);
  metrics = (omega arith, omega arith);
  engine_ref = (refl, refl);
  top = (refl, refl, refl, refl, refl);
}

-- Its dictionary is read back as the manifest.
sample_is_read : parse_run_manifest sample_codec (to_canonical_dict sample_codec sample) ≡ ok sample
sample_is_read =
    parse_run_manifest-to_canonical_dict sample_codec sample sample-ReadsBack sample-IsValid

parse_run_manifest-to_canonical_dict_example :
    parse_run_manifest sample_codec (to_canonical_dict sample_codec sample) ≡ ok sample
parse_run_manifest-to_canonical_dict_example =
    parse_run_manifest-to_canonical_dict sample_codec sample sample-ReadsBack sample-IsValid

pub sample-has_types : has_types (to_canonical_dict sample_codec sample) ≡ true
unfolding to_canonical_dict period_dict capital_dict execution_dict position_sizing_dict
    rounding_dict metrics_dict strategy_ref_dict dataset_ref_dict universe_dict text_items
    signal_and_fill_dict kind_setting_dict engine_ref_dict
sample-has_types = refl

parse_run_manifest-IsValid_example :
    Parses sample_codec (parse_run_manifest sample_codec (to_canonical_dict sample_codec sample))
parse_run_manifest-IsValid_example =
    parse_run_manifest-IsValid sample_codec (to_canonical_dict sample_codec sample) sample-has_types

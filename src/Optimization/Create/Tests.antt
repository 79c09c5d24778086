-- ===== src/Optimization/Create/Tests.antt =====
-- A grid of one fast window and two slow windows, of which one is too low.
use idx_backtest_lab.Common.{
  ℕ, zero, suc, ◌+◌, ◌≡◌, refl, true, none, some, List, [], ◌∷◌, String, ok,
}
use idx_backtest_lab.Common.Int.{pos, ◌+ℤ◌}
use idx_backtest_lab.Common.Text.{text_lt}
use idx_backtest_lab.Common.Sorted.{contains, to_set, sorted, insert}
use idx_backtest_lab.Manifest.Tests.{sample_codec, half, hundred}
use idx_backtest_lab.Market.Tests.{dataset}
use idx_backtest_lab.Optimization.Records.{OptimizationCandidate, OptimizationManifest}
use idx_backtest_lab.Optimization.Grid.{canonicalize_grid, is_valid_candidate_pair}
use idx_backtest_lab.Optimization.Partitions.{
  validate_grid_inputs, validate_partitions, validate_objective_metric, validate_candidate_count,
  validate_partition_bar_coverage,
}
use idx_backtest_lab.Optimization.Tests.{quarters}
use idx_backtest_lab.Optimization.Store.{
  Tables, candidates_of, list_candidates, create, insert_row, in_columns, insert_optimization,
  commit, insert_candidates, clashes,
}
use idx_backtest_lab.Optimization.Store.Rows.{candidate_row}
use idx_backtest_lab.Optimization.Create.{
  CreatePorts, CreateOptimizationRequest, checked, or_raise, valid_pairs, slow_windows_of,
  largest_slow_window, parse_decimal, cover, from_snapshot, candidates_from, manifest_of, pairs_of,
  known_instrument, check_request, check_coverage, parsed, prepare, after_create, store_prepared,
  create_optimization,
}
use idx_backtest_lab.Optimization.Create.Laws.{
  AreOfPairs, count_pending, create_optimization-Listed,
}

-- The n-th id: a text of n letters.
abbrev id_of : ℕ → String
id_of zero = ""
id_of (suc n) = String.◌∷◌ "a" (id_of n)

abbrev ports : CreatePorts
ports = record {
  codec = sample_codec;
  get_dataset = λ id. some dataset;
  instrument_exists = λ id. true;
  count_bars = λ d i start end_date. ok 100;
  compute_checksum = λ fields. "sum";
  canonical_text = λ fields. "{}";
  column = λ d. some d;
  dataset_exists = λ id. true;
  id_factory = id_of;
  clock = record { instant = 10; is_aware = true };
}

abbrev request : CreateOptimizationRequest
request = record {
  dataset_id = "data";
  instrument_id = "BBCA";
  base_strategy_name = "Crossover";
  fast_windows = pos 5 ∷ [];
  slow_windows = pos 20 ∷ pos 3 ∷ [];
  partitions = quarters;
  capital_amount = "100";
  capital_currency = "IDR";
  position_sizing_fraction = "0.5";
  quantity_increment = "100";
  money_scale = pos 2;
  annualization_basis = pos 252;
  risk_free_rate = "0.5";
  objective_metric_key = "total_return";
}

abbrev nothing_stored : Tables
nothing_stored = record { optimizations = λ id. none; candidates = [] }

abbrev new_manifest : OptimizationManifest
new_manifest =
    manifest_of ports request (pos 10) dataset (pairs_of ports request (pos 10)) hundred half
      hundred half

abbrev after : Tables
after = (create_optimization ports request (pos 10) nothing_stored).1

creation_returns :
    create_optimization ports request (pos 10) nothing_stored ≡ (ok new_manifest, after)
unfolding create_optimization store_prepared prepare check_request checked validate_grid_inputs
    validate_partitions validate_objective_metric text_lt or_raise known_instrument check_coverage
    validate_candidate_count canonicalize_grid sorted to_set cover validate_partition_bar_coverage
    ◌+ℤ◌ contains insert after_create candidates_from from_snapshot is_valid_candidate_pair clashes
    commit create in_columns insert_candidates insert_optimization insert_row parsed parse_decimal
    valid_pairs slow_windows_of largest_slow_window manifest_of candidate_row
creation_returns = refl

abbrev page : List OptimizationCandidate
page =
    (list_candidates after new_manifest.optimization_id
      (new_manifest.candidate_count + new_manifest.rejected_count) 0).0

create_optimization-Listed_example :
    AreOfPairs id_of 0 (canonicalize_grid request.fast_windows request.slow_windows) page
    × (new_manifest.optimization_id ≡ id_of 0)
    × (new_manifest.candidate_count ≡ count_pending page)
unfolding candidates_of
create_optimization-Listed_example =
    create_optimization-Listed ports request (pos 10) nothing_stored after new_manifest refl
      creation_returns

-- ===== src/Instrument/Tests.antt =====
-- Mappings that are created and refused.
use idx_backtest_lab.Common.{◌≡◌, refl, Bool, true, Option, none, some, List, [], ◌∷◌, String, err}
use idx_backtest_lab.Common.Text.{strip, is_empty, is_blank}
use idx_backtest_lab.Common.Time.{Date, Datetime}
use idx_backtest_lab.Optimization.Partitions.{date_ranges_overlap}
use idx_backtest_lab.Instrument.Mapping.{
  DatasetInstrumentMapping, MappingRequest, mapping_overlap, ends_before_start, is_before_start,
  check_mapping, find_overlapping, has_mapping, mapping_row, create, raise_overlap, mapping_of,
  prepare_mapping, create_prepared, create_dataset_instrument_mapping,
}
use idx_backtest_lab.Instrument.Mapping.Laws.{
  IsDisjoint, IsOutcome, create_dataset_instrument_mapping-IsDisjoint,
}

abbrev known : String → Bool
known s = true

abbrev now : Datetime
now = record { instant = 500; is_aware = true }

abbrev request : Date → Option Date → MappingRequest
request first last = record {
  dataset_id = "d1";
  source_instrument_identifier = "BBCA";
  instrument_id = "i1";
  effective_from = first;
  decision_source = "manual";
  effective_to = last;
}

abbrev first_row : DatasetInstrumentMapping
first_row = record {
  mapping_id = "m1";
  dataset_id = "d1";
  source_instrument_identifier = "BBCA";
  instrument_id = "i2";
  effective_from = 10;
  decision_source = "manual";
  created_at_utc = now;
  effective_to = some 20;
}

abbrev table : List DatasetInstrumentMapping
table = first_row ∷ []

shared_day :
    create_dataset_instrument_mapping known known "m2" now (request 20 none) table
    ≡ (err mapping_overlap, table)
unfolding create_dataset_instrument_mapping create_prepared prepare_mapping raise_overlap
    find_overlapping date_ranges_overlap
shared_day = refl

turned_round :
    create_dataset_instrument_mapping known known "m2" now (request 40 (some 30)) table
    ≡ (err ends_before_start, table)
unfolding create_dataset_instrument_mapping create_prepared prepare_mapping raise_overlap
    find_overlapping date_ranges_overlap mapping_of check_mapping is_before_start is_blank strip
    is_empty
turned_round = refl

day_after :
    (create_dataset_instrument_mapping known known "m2" now (request 21 none) table).1
    ≡ mapping_row (mapping_of (request 21 none) "m2" now) ∷ table
unfolding create_dataset_instrument_mapping create_prepared prepare_mapping raise_overlap
    find_overlapping date_ranges_overlap mapping_of check_mapping is_before_start is_blank strip
    is_empty create has_mapping
day_after = refl

create_dataset_instrument_mapping-IsDisjoint_example :
    IsDisjoint (create_dataset_instrument_mapping known known "m2" now (request 21 none) table).1
    × IsOutcome table
        (create_dataset_instrument_mapping known known "m2" now (request 21 none) table)
create_dataset_instrument_mapping-IsDisjoint_example =
    create_dataset_instrument_mapping-IsDisjoint known known "m2" now (request 21 none) table
      (tt, tt)

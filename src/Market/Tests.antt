-- ===== src/Market/Tests.antt =====
-- A concrete bar, dataset and import.
use idx_backtest_lab.Common.{◌≡◌, ◌↔◌, true, none, some, ok}
use idx_backtest_lab.Common.Int.{pos}
use idx_backtest_lab.Market.Dataset.{
  DatasetManifest, pending, ticker_as_of_import, check_dataset, IsValidDataset, check_dataset_iff,
}
use idx_backtest_lab.Market.Imports.{DatasetImport, check_import, IsValidImport, check_import_iff}
use idx_backtest_lab.Market.Bar.{NormalizedBar, check_bar, IsValidBar, check_bar_iff}

abbrev pub daily_bar : NormalizedBar
daily_bar = record {
  bar_id = "bar";
  dataset_id = "data";
  source_instrument_identifier = "BBCA";
  timestamp_utc = record { instant = 10; is_aware = true };
  bar_interval = "1d";
  open_price = pos 100;
  high = pos 110;
  low = pos 95;
  close = pos 105;
  volume = pos 0;
  currency = none;
  source_row_id = none;
}

check_bar_iff_example : (check_bar daily_bar ≡ ok tt) ↔ IsValidBar daily_bar
check_bar_iff_example = check_bar_iff daily_bar

abbrev pub dataset : DatasetManifest
dataset = record {
  dataset_id = "data";
  version = pos 1;
  name = "Daily bars";
  source_name = "csv";
  bar_interval = "1d";
  timezone = "Asia/Jakarta";
  adjustment_policy = "none";
  validation_status = pending;
  created_at_utc = record { instant = 10; is_aware = true };
  source_reference = none;
  license_reference = none;
  content_checksum = none;
  coverage_start_date = some 10;
  coverage_end_date = some 20;
  validation_summary = none;
  instrument_mapping_policy = ticker_as_of_import;
}

check_dataset_iff_example : (check_dataset dataset ≡ ok tt) ↔ IsValidDataset dataset
check_dataset_iff_example = check_dataset_iff dataset

abbrev csv_import : DatasetImport
csv_import = record {
  import_id = "import";
  raw_filename = "bars.csv";
  content_checksum = "sum";
  byte_size = pos 1024;
  requested_metadata_json = "{}";
  status = pending;
  row_count = pos 3;
  accepted_row_count = pos 3;
  warning_count = pos 0;
  error_count = pos 0;
  started_at_utc = record { instant = 10; is_aware = true };
  finished_at_utc = record { instant = 11; is_aware = true };
  dataset_id = some "data";
  failure_code = none;
  failure_row_number = none;
}

check_import_iff_example : (check_import csv_import ≡ ok tt) ↔ IsValidImport csv_import
check_import_iff_example = check_import_iff csv_import

-- ===== src/Ingestion/Tests.antt =====
-- Files that `parse_csv` accepts and refuses.
use idx_backtest_lab.Common.{
  ℕ, ◌≡◌, refl, true, Option, none, some, List, [], ◌∷◌, String, ok, err, if◌then◌else◌,
}
use idx_backtest_lab.Common.Int.{ℤ, pos}
use idx_backtest_lab.Common.Text.{eqs, strip, is_empty}
use idx_backtest_lab.Common.Time.{Datetime}
use idx_backtest_lab.Ingestion.Csv.{
  Library, ParsedRow, violation, required_columns, parse_csv, parse_table, validate_header,
  check_extra, extra_columns, has_repetition, all_optional, is_column, decoded, parse_rows,
  parse_row, required_cell, cell, optional_cell, none_if_empty, parse_timestamp,
  parse_offset_timestamp, of_datetime, parse_decimal, positive, require_ohlc_relationship,
  parse_volume, or_value_error, require_unique_and_sorted, is_seen, last_timestamp, is_not_after,
  not_empty,
}
use idx_backtest_lab.Ingestion.Csv.Laws.{IsClean}
use idx_backtest_lab.Ingestion.Csv.Order.{parse_csv-IsClean}

abbrev line : String → String → List String
line stamp instrument = stamp ∷ instrument ∷ "10" ∷ "12" ∷ "9" ∷ "11" ∷ "0" ∷ []

abbrev table : String → List (List String)
table text =
    if eqs text "good"
    then required_columns ∷ line "monday" "BBCA" ∷ line "monday" "TLKM" ∷ line "tuesday" "BBCA" ∷ []
    else required_columns ∷ line "tuesday" "BBCA" ∷ line "monday" "BBCA" ∷ []

abbrev number : String → Option (Option ℤ)
number s =
    if eqs s "9"
    then some (some (pos 9))
    else if eqs s "10"
    then some (some (pos 10))
    else if eqs s "11"
    then some (some (pos 11))
    else some (some (pos 12))

abbrev time : String → Option Datetime
time s =
    if eqs s "monday"
    then some (record { instant = 100; is_aware = true })
    else some (record { instant = 200; is_aware = true })

abbrev lib : Library String
lib = record {
  decode = some;
  csv_reader = table;
  read_decimal = number;
  is_digit = λ s. eqs s "0";
  read_int = λ s. some 0;
  read_date = λ s. none;
  midnight = λ zone d. none;
  read_datetime = time;
}

abbrev row : ℕ → String → ℕ → ParsedRow
row n instrument t = record {
  row_number = n;
  instrument_identifier = instrument;
  timestamp_utc = record { instant = t; is_aware = true };
  open_price = pos 10;
  high = pos 12;
  low = pos 9;
  close = pos 11;
  volume = 0;
  currency = none;
  source_row_id = none;
  zero_volume = true;
}

abbrev rows : List ParsedRow
rows = row 2 "BBCA" 100 ∷ row 3 "TLKM" 100 ∷ row 4 "BBCA" 200 ∷ []

accepted : parse_csv lib "1h" "Asia/Jakarta" "good" ≡ ok rows
unfolding parse_csv parse_table validate_header check_extra extra_columns has_repetition
    all_optional is_column decoded parse_rows parse_row required_cell cell optional_cell
    none_if_empty parse_timestamp parse_offset_timestamp of_datetime parse_decimal positive
    require_ohlc_relationship parse_volume or_value_error require_unique_and_sorted is_seen
    last_timestamp is_not_after not_empty strip is_empty
accepted = refl

refused : parse_csv lib "1h" "Asia/Jakarta" "bad" ≡ err (violation "unsorted_rows" (some 3))
unfolding parse_csv parse_table validate_header check_extra extra_columns has_repetition
    all_optional is_column decoded parse_rows parse_row required_cell cell optional_cell
    none_if_empty parse_timestamp parse_offset_timestamp of_datetime parse_decimal positive
    require_ohlc_relationship parse_volume or_value_error require_unique_and_sorted is_seen
    last_timestamp is_not_after not_empty strip is_empty
refused = refl

parse_csv-IsClean_example : IsClean rows
parse_csv-IsClean_example = parse_csv-IsClean lib "1h" "Asia/Jakarta" "good" rows accepted

-- ===== src/Ingestion/Csv.antt =====
-- `parse_csv` (backend/app/infrastructure/ingestion/csv_parser.py). Decoding, `csv.reader`, and the
-- reading of decimals, whole numbers, dates, times and time zones by Python's library are parameters; a
-- decimal is a whole multiple of one smallest unit where it is finite.
pub mod Laws
pub mod Order
use idx_backtest_lab.Common.{
  ℕ, suc, Bool, true, false, ◌&&◌, ◌||◌, not, Option, none, some, List, [], ◌∷◌, String, Result, ok,
  err, ◌>>=◌, ◌>>◌, raise_if, if◌then◌else◌, length, ltb, leb, ◌==◌,
}
use idx_backtest_lab.Common.Int.{ℤ, pos, leb_ℤ}
use idx_backtest_lab.Common.Text.{eqs, is_empty, strip}
use idx_backtest_lab.Common.Time.{Date, Datetime}

-- `CsvContractViolation` by its code and its row, and the exceptions that nothing catches.
pub data CsvFault : Type 0 where
  violation : (code : String) (row_number : Option ℕ) → CsvFault
  key_error value_error : CsvFault

-- What Python's library makes of the file and its texts.
pub record Library (B : Type 0) : Type 0 where
  pub decode : B → Option String
  pub csv_reader : String → List (List String)
  pub read_decimal : String → Option (Option ℤ)
  pub is_digit : String → Bool
  pub read_int : String → Option ℕ
  pub read_date : String → Option Date
  pub midnight : (timezone_name : String) → Date → Option ℕ
  pub read_datetime : String → Option Datetime

pub record ParsedRow : Type 0 where
  pub row_number : ℕ
  pub instrument_identifier : String
  pub timestamp_utc : Datetime
  pub open_price : ℤ
  pub high : ℤ
  pub low : ℤ
  pub close : ℤ
  pub volume : ℕ
  pub currency : Option String
  pub source_row_id : Option String
  pub zero_volume : Bool

abbrev pub required_columns : List String
required_columns =
    "timestamp" ∷ "instrument_identifier" ∷ "open" ∷ "high" ∷ "low" ∷ "close" ∷ "volume" ∷ []

abbrev pub optional_columns : List String
optional_columns = "source_row_id" ∷ "currency" ∷ []

-- `column in columns`
unfoldable pub is_column : String → List String → Bool
is_column s [] = false
is_column s (c ∷ cs) = let rest = is_column s cs in if eqs s c then true else rest

-- `header[len(REQUIRED_COLUMNS):]` where the header starts with the required columns.
unfoldable pub extra_columns : List String → List String → Option (List String)
extra_columns [] header = some header
extra_columns (c ∷ cs) [] = none
extra_columns (c ∷ cs) (h ∷ header) =
    let rest = extra_columns cs header in if eqs h c then rest else none

unfoldable pub has_repetition : List String → Bool
unfolding is_column
has_repetition [] = false
has_repetition (c ∷ cs) = is_column c cs || has_repetition cs

unfoldable pub all_optional : List String → Bool
unfolding is_column
all_optional [] = true
all_optional (c ∷ cs) = is_column c optional_columns && all_optional cs

unfoldable pub check_extra : Option (List String) → Result CsvFault (Unit {0})
unfolding has_repetition all_optional
check_extra none = err (violation "invalid_header" none)
check_extra (some extra) =
    raise_if (has_repetition extra || not (all_optional extra)) (violation "unexpected_column" none)

-- `_validate_header`
unfoldable pub validate_header : List String → Result CsvFault (Unit {0})
unfolding check_extra extra_columns
validate_header header = check_extra (extra_columns required_columns header)

-- `dict(zip(header, raw_row)).get(column)`; no column of a header that was checked occurs twice.
unfoldable pub cell : String → (header raw_row : List String) → Option String
cell column (h ∷ header) (value ∷ raw_row) =
    let rest = cell column header raw_row in if eqs h column then some value else rest
cell column header raw_row = none

-- `values[column]`
unfoldable pub required_cell : String → (header raw_row : List String) → Result CsvFault String
unfolding cell
required_cell column header raw_row = or_key_error (cell column header raw_row)
  where
    or_key_error : Option String → Result CsvFault String
    or_key_error none = err key_error
    or_key_error (some value) = ok value

-- `text.strip() or None`
unfoldable pub none_if_empty : String → Option String
none_if_empty s = if is_empty s then none else some s

-- `(values.get(column) or "").strip() or None`
unfoldable pub optional_cell : String → (header raw_row : List String) → Option String
unfolding none_if_empty
optional_cell column header raw_row = stripped (cell column header raw_row)
  where
    stripped : Option String → Option String
    stripped none = none
    stripped (some value) = none_if_empty (strip value)

unfoldable pub positive : ℕ → Option (Option ℤ) → Result CsvFault ℤ
positive row_number none = err (violation "invalid_decimal" (some row_number))
positive row_number (some none) = err (violation "invalid_decimal" (some row_number))
positive row_number (some (some d)) =
    if leb_ℤ d (pos 0) then err (violation "invalid_decimal" (some row_number)) else ok d

unfoldable pub or_value_error : Option ℕ → Result CsvFault ℕ
or_value_error none = err value_error
or_value_error (some n) = ok n

abbrev pub in_utc : ℕ → Datetime
in_utc instant = record { instant = instant; is_aware = true }

unfoldable pub of_zone : ℕ → Option ℕ → Result CsvFault (Option Datetime)
of_zone row_number none = err (violation "invalid_timezone" (some row_number))
of_zone row_number (some instant) = ok (some (in_utc instant))

unfoldable pub of_datetime : ℕ → Option Datetime → Result CsvFault Datetime
of_datetime row_number none = err (violation "invalid_timestamp" (some row_number))
of_datetime row_number (some t) =
    if t.is_aware
    then ok (in_utc t.instant)
    else err (violation "invalid_timestamp" (some row_number))

-- `_require_ohlc_relationship`
unfoldable pub require_ohlc_relationship :
    (open_price high low close : ℤ) → ℕ → Result CsvFault (Unit {0})
require_ohlc_relationship open_price high low close row_number =
    raise_if
      (not (leb_ℤ low open_price && leb_ℤ open_price high && (leb_ℤ low close && leb_ℤ close high)))
      (violation "invalid_ohlc_relationship" (some row_number))

-- `key in seen_keys`
unfoldable pub is_seen : ParsedRow → List ParsedRow → Bool
is_seen row [] = false
is_seen row (r ∷ rows) =
    eqs r.instrument_identifier row.instrument_identifier
      && r.timestamp_utc.instant == row.timestamp_utc.instant
    || is_seen row rows

-- `last_timestamp_by_instrument.get(instrument_identifier)`: the rows so far, the last one first.
unfoldable pub last_timestamp : String → List ParsedRow → Option ℕ
last_timestamp identifier [] = none
last_timestamp identifier (r ∷ rows) =
    let earlier = last_timestamp identifier rows in
    if eqs r.instrument_identifier identifier then some r.timestamp_utc.instant else earlier

unfoldable pub is_not_after : ParsedRow → Option ℕ → Bool
is_not_after row none = false
is_not_after row (some previous) = leb row.timestamp_utc.instant previous

-- `_require_unique_and_sorted`, where the set and the dictionary are those of the rows so far.
unfoldable pub require_unique_and_sorted : ParsedRow → List ParsedRow → Result CsvFault (Unit {0})
require_unique_and_sorted row before = do
  raise_if (is_seen row before) (violation "duplicate_row" (some row.row_number))
  raise_if (is_not_after row (last_timestamp row.instrument_identifier before))
      (violation "unsorted_rows" (some row.row_number))

unfoldable pub not_empty : List ParsedRow → Result CsvFault (List ParsedRow)
not_empty [] = err (violation "empty_file" none)
not_empty (row ∷ rows) = ok (row ∷ rows)

unfoldable pub decoded : Option String → Result CsvFault String
decoded none = err (violation "unsupported_encoding" none)
decoded (some text) = ok text

module _ {B : Type 0} (lib : Library B) where
  -- `_parse_decimal`
  unfoldable pub parse_decimal : String → ℕ → Result CsvFault ℤ
  parse_decimal value row_number = positive row_number (lib.read_decimal value)

  -- `_parse_volume`
  unfoldable pub parse_volume : String → ℕ → Result CsvFault ℕ
  parse_volume value row_number =
      if lib.is_digit value
      then or_value_error (lib.read_int value)
      else err (violation "invalid_volume" (some row_number))

  unfoldable pub of_date : String → ℕ → Option Date → Result CsvFault (Option Datetime)
  of_date timezone_name row_number none = ok none
  of_date timezone_name row_number (some d) = of_zone row_number (lib.midnight timezone_name d)

  -- `_parse_date_only_timestamp`
  unfoldable pub parse_date_only_timestamp : String → String → ℕ → Result CsvFault (Option Datetime)
  parse_date_only_timestamp value timezone_name row_number =
      of_date timezone_name row_number (lib.read_date value)

  -- `_parse_offset_timestamp`
  unfoldable pub parse_offset_timestamp : String → ℕ → Result CsvFault Datetime
  parse_offset_timestamp value row_number = of_datetime row_number (lib.read_datetime value)

  unfoldable pub or_offset : String → ℕ → Option Datetime → Result CsvFault Datetime
  or_offset value row_number none = parse_offset_timestamp value row_number
  or_offset value row_number (some t) = ok t

  -- `_parse_timestamp`
  unfoldable pub parse_timestamp :
      String → (bar_interval timezone_name : String) → ℕ → Result CsvFault Datetime
  parse_timestamp value bar_interval timezone_name row_number =
      if eqs bar_interval "1d"
      then parse_date_only_timestamp value timezone_name row_number >>= or_offset value row_number
      else parse_offset_timestamp value row_number

  module _ (bar_interval timezone_name : String) where
    -- `_parse_row`
    unfoldable pub parse_row : ℕ → (header raw_row : List String) → Result CsvFault ParsedRow
    parse_row row_number header raw_row = do
      raise_if (not (length raw_row == length header)) (violation "malformed_row" (some row_number))
      identifier ← required_cell "instrument_identifier" header raw_row
      raise_if (is_empty (strip identifier))
          (violation "invalid_instrument_identifier" (some row_number))
      stamp ← required_cell "timestamp" header raw_row
      timestamp_utc ← parse_timestamp stamp bar_interval timezone_name row_number
      open_text ← required_cell "open" header raw_row
      open_price ← parse_decimal open_text row_number
      high_text ← required_cell "high" header raw_row
      high ← parse_decimal high_text row_number
      low_text ← required_cell "low" header raw_row
      low ← parse_decimal low_text row_number
      close_text ← required_cell "close" header raw_row
      close ← parse_decimal close_text row_number
      require_ohlc_relationship open_price high low close row_number
      volume_text ← required_cell "volume" header raw_row
      volume ← parse_volume volume_text row_number
      ok (record {
        row_number = row_number;
        instrument_identifier = strip identifier;
        timestamp_utc = timestamp_utc;
        open_price = open_price;
        high = high;
        low = low;
        close = close;
        volume = volume;
        currency = optional_cell "currency" header raw_row;
        source_row_id = optional_cell "source_row_id" header raw_row;
        zero_volume = volume == 0;
      })

    -- The loop over the rows.
    unfoldable pub parse_rows :
        List String
        → (row_number : ℕ) (before : List ParsedRow) → List (List String)
        → Result CsvFault (List ParsedRow)
    parse_rows header row_number before [] = ok []
    parse_rows header row_number before (raw_row ∷ raw_rows) = do
      row ← parse_row row_number header raw_row
      require_unique_and_sorted row before
      rest ← parse_rows header (suc row_number) (row ∷ before) raw_rows
      ok (row ∷ rest)

    unfoldable pub parse_table : List (List String) → Result CsvFault (List ParsedRow)
    parse_table [] = err (violation "empty_file" none)
    parse_table (header ∷ raw_rows) = do
      validate_header header
      rows ← parse_rows header 2 [] raw_rows
      not_empty rows

    -- `parse_csv`
    unfoldable pub parse_csv : B → Result CsvFault (List ParsedRow)
    parse_csv raw_bytes = do
      text ← decoded (lib.decode raw_bytes)
      parse_table (lib.csv_reader text)

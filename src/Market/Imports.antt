-- ===== src/Market/Imports.antt =====
-- `DatasetValidationEvent` and `DatasetImport` (backend/app/domain/market_data.py) and the checks of
-- their construction. That a severity and a status are members of their enumerations holds here by
-- their types.
use idx_backtest_lab.Common.{
  ◌≡◌, ◌↔◌, ◌≤◌, true, false, not, Option, String, Result, ok, ◌>>◌, raise_if, arith, ltb,
}
use idx_backtest_lab.Common.Int.{ℤ, pos, ◌≤ℤ◌, ltb_ℤ}
use idx_backtest_lab.Common.Text.{is_empty, is_blank}
use idx_backtest_lab.Common.Time.{Datetime}
use idx_backtest_lab.Market.Dataset.{DatasetValidationStatus}

pub data ValidationSeverity : Type 0 where
  warning error : ValidationSeverity

-- `MarketDataValidationError`, by the rule that is broken.
pub data Fault : Type 0 where
  empty_event_id empty_import_id blank_code blank_message : Fault
  blank_raw_filename blank_content_checksum negative_byte_size negative_count : Fault
  naive_time finished_before_started : Fault

pub record DatasetValidationEvent : Type 0 where
  pub event_id : String
  pub import_id : String
  pub severity : ValidationSeverity
  pub code : String
  pub message : String
  pub created_at_utc : Datetime
  pub dataset_id : Option String
  pub source_row_number : Option ℤ

-- `DatasetValidationEvent.__post_init__`
unfoldable pub check_event : DatasetValidationEvent → Result Fault (Unit {0})
check_event e = do
  raise_if (is_empty e.event_id) empty_event_id
  raise_if (is_empty e.import_id) empty_import_id
  raise_if (is_blank e.code) blank_code
  raise_if (is_blank e.message) blank_message
  raise_if (not e.created_at_utc.is_aware) naive_time

pub record DatasetImport : Type 0 where
  pub import_id : String
  pub raw_filename : String
  pub content_checksum : String
  pub byte_size : ℤ
  pub requested_metadata_json : String
  pub status : DatasetValidationStatus
  pub row_count : ℤ
  pub accepted_row_count : ℤ
  pub warning_count : ℤ
  pub error_count : ℤ
  pub started_at_utc : Datetime
  pub finished_at_utc : Datetime
  pub dataset_id : Option String
  pub failure_code : Option String
  pub failure_row_number : Option ℤ

-- `DatasetImport.__post_init__`
unfoldable pub check_import : DatasetImport → Result Fault (Unit {0})
check_import i = do
  raise_if (is_empty i.import_id) empty_import_id
  raise_if (is_blank i.raw_filename) blank_raw_filename
  raise_if (is_blank i.content_checksum) blank_content_checksum
  raise_if (ltb_ℤ i.byte_size (pos 0)) negative_byte_size
  raise_if (ltb_ℤ i.row_count (pos 0)) negative_count
  raise_if (ltb_ℤ i.accepted_row_count (pos 0)) negative_count
  raise_if (ltb_ℤ i.warning_count (pos 0)) negative_count
  raise_if (ltb_ℤ i.error_count (pos 0)) negative_count
  raise_if (not i.started_at_utc.is_aware) naive_time
  raise_if (not i.finished_at_utc.is_aware) naive_time
  raise_if (ltb i.finished_at_utc.instant i.started_at_utc.instant) finished_before_started

-- An import that is accepted.
pub record IsValidImport (i : DatasetImport) : Type 0 where
  pub has_id : is_empty i.import_id ≡ false
  pub has_filename : is_blank i.raw_filename ≡ false
  pub has_checksum : is_blank i.content_checksum ≡ false
  pub byte_size : pos 0 ≤ℤ i.byte_size
  pub row_count : pos 0 ≤ℤ i.row_count
  pub accepted_row_count : pos 0 ≤ℤ i.accepted_row_count
  pub warning_count : pos 0 ≤ℤ i.warning_count
  pub error_count : pos 0 ≤ℤ i.error_count
  pub started_aware : i.started_at_utc.is_aware ≡ true
  pub finished_aware : i.finished_at_utc.is_aware ≡ true
  pub in_order : i.started_at_utc.instant ≤ i.finished_at_utc.instant

-- An import is accepted exactly when its texts are not empty, its size and its counts are not
-- negative, both times have a zone, and it does not finish before it starts.
pub check_import_iff : (i : DatasetImport) → (check_import i ≡ ok tt) ↔ IsValidImport i
unfolding check_import
check_import_iff i = (λ h. ground arith, λ v. ground arith)

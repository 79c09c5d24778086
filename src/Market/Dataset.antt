-- ===== src/Market/Dataset.antt =====
-- `DatasetManifest` (backend/app/domain/dataset.py) and the checks of its construction. That the
-- status and the policy are members of their enumerations holds here by their types.
use idx_backtest_lab.Common.{
  ◌≡◌, refl, ◌↔◌, ◌≤◌, Bool, true, false, not, Option, none, some, String, Result, ok, ◌>>◌,
  raise_if, arith, ltb,
}
use idx_backtest_lab.Common.Int.{ℤ, pos, ◌≤ℤ◌, ltb_ℤ}
use idx_backtest_lab.Common.Text.{is_empty, is_blank}
use idx_backtest_lab.Common.Time.{Date, Datetime}

pub data DatasetValidationStatus : Type 0 where
  pending valid warning rejected : DatasetValidationStatus

pub data InstrumentMappingPolicy : Type 0 where
  provided_internal_id ticker_as_of_import : InstrumentMappingPolicy

-- `DatasetValidationError`, by the rule that is broken.
pub data Fault : Type 0 where
  empty_dataset_id version_not_positive blank_name blank_source_name : Fault
  blank_bar_interval blank_timezone blank_adjustment_policy naive_created_at : Fault
  coverage_out_of_order : Fault

pub record DatasetManifest : Type 0 where
  pub dataset_id : String
  pub version : ℤ
  pub name : String
  pub source_name : String
  pub bar_interval : String
  pub timezone : String
  pub adjustment_policy : String
  pub validation_status : DatasetValidationStatus
  pub created_at_utc : Datetime
  pub source_reference : Option String
  pub license_reference : Option String
  pub content_checksum : Option String
  pub coverage_start_date : Option Date
  pub coverage_end_date : Option Date
  pub validation_summary : Option String
  pub instrument_mapping_policy : InstrumentMappingPolicy

-- `start is not None and end is not None and start > end`
coverage_reversed : Option Date → Option Date → Bool
coverage_reversed (some start) (some last) = ltb last start
coverage_reversed start last = false

-- `DatasetManifest.__post_init__`
unfoldable pub check_dataset : DatasetManifest → Result Fault (Unit {0})
unfolding coverage_reversed
check_dataset d = do
  raise_if (is_empty d.dataset_id) empty_dataset_id
  raise_if (ltb_ℤ d.version (pos 1)) version_not_positive
  raise_if (is_blank d.name) blank_name
  raise_if (is_blank d.source_name) blank_source_name
  raise_if (is_blank d.bar_interval) blank_bar_interval
  raise_if (is_blank d.timezone) blank_timezone
  raise_if (is_blank d.adjustment_policy) blank_adjustment_policy
  raise_if (not d.created_at_utc.is_aware) naive_created_at
  raise_if (coverage_reversed d.coverage_start_date d.coverage_end_date) coverage_out_of_order

-- A coverage whose ends, where both are known, are in order.
abbrev pub IsCoverage : Option Date → Option Date → Type 0
IsCoverage (some start) (some last) = start ≤ last
IsCoverage start last = Unit

coverage_reversed_iff :
    (start last : Option Date) → (coverage_reversed start last ≡ false) ↔ IsCoverage start last
unfolding coverage_reversed
coverage_reversed_iff (some start) (some last) = (λ h. ground arith, λ v. ground arith)
coverage_reversed_iff (some start) none = (λ h. tt, λ v. refl)
coverage_reversed_iff none last = (λ h. tt, λ v. refl)

-- A dataset that is accepted.
pub record IsValidDataset (d : DatasetManifest) : Type 0 where
  pub has_id : is_empty d.dataset_id ≡ false
  pub version : pos 1 ≤ℤ d.version
  pub has_name : is_blank d.name ≡ false
  pub has_source : is_blank d.source_name ≡ false
  pub has_interval : is_blank d.bar_interval ≡ false
  pub has_timezone : is_blank d.timezone ≡ false
  pub has_policy : is_blank d.adjustment_policy ≡ false
  pub aware : d.created_at_utc.is_aware ≡ true
  pub coverage : IsCoverage d.coverage_start_date d.coverage_end_date

check_dataset-flags :
    (d : DatasetManifest)
    → (check_dataset d ≡ ok tt) ↔ (
        (is_empty d.dataset_id ≡ false)
        × (pos 1 ≤ℤ d.version)
        × (is_blank d.name ≡ false)
        × (is_blank d.source_name ≡ false)
        × (is_blank d.bar_interval ≡ false)
        × (is_blank d.timezone ≡ false)
        × (is_blank d.adjustment_policy ≡ false)
        × (d.created_at_utc.is_aware ≡ true)
        × (coverage_reversed d.coverage_start_date d.coverage_end_date ≡ false))
unfolding check_dataset
check_dataset-flags d = (λ h. ground arith, λ v. ground arith)

-- A dataset is accepted exactly when its texts are not empty, its version is positive, its time has a
-- zone, and its coverage, where both ends are known, does not end before it starts.
pub check_dataset_iff : (d : DatasetManifest) → (check_dataset d ≡ ok tt) ↔ IsValidDataset d
check_dataset_iff d = (
  λ h.
      let (a, b, c, e, f, g, i, j, k) = (check_dataset-flags d).0 h in
      record {
        has_id = a;
        version = b;
        has_name = c;
        has_source = e;
        has_interval = f;
        has_timezone = g;
        has_policy = i;
        aware = j;
        coverage = (coverage_reversed_iff d.coverage_start_date d.coverage_end_date).0 k;
      },
  λ v. (check_dataset-flags d).1 (
    v.has_id,
    v.version,
    v.has_name,
    v.has_source,
    v.has_interval,
    v.has_timezone,
    v.has_policy,
    v.aware,
    (coverage_reversed_iff d.coverage_start_date d.coverage_end_date).1 v.coverage,
  ),
)

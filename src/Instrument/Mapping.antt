-- ===== src/Instrument/Mapping.antt =====
-- `DatasetInstrumentMapping` (backend/app/domain/instrument.py), the table of mappings
-- (backend/app/infrastructure/db/dataset_instrument_mapping_repository.py) and
-- `create_dataset_instrument_mapping`
-- (backend/app/application/dataset_instrument_mapping_service.py). The one status, RESOLVED, holds by
-- its type. The tables of datasets and instruments, the identifiers and the clock are parameters.
pub mod Laws
use idx_backtest_lab.Common.{
  Bool, true, false, ◌&&◌, not, Option, none, some, List, [], ◌∷◌, String, Result, ok, err, ◌>>=◌,
  ◌>>◌, raise_if, if◌then◌else◌, ltb,
}
use idx_backtest_lab.Common.Text.{eqs, is_empty, is_blank}
use idx_backtest_lab.Common.Time.{Date, Datetime}
use idx_backtest_lab.Optimization.Partitions.{date_ranges_overlap}

-- The exceptions: `InstrumentValidationError` by its rule, those of the service, and the primary key
-- of the table.
pub data Fault : Type 0 where
  empty_mapping_id empty_dataset_id blank_identifier empty_instrument_id : Fault
  blank_decision_source ends_before_start naive_time : Fault
  dataset_not_found instrument_not_found mapping_overlap constraint_violated : Fault

pub record DatasetInstrumentMapping : Type 0 where
  pub mapping_id : String
  pub dataset_id : String
  pub source_instrument_identifier : String
  pub instrument_id : String
  pub effective_from : Date
  pub decision_source : String
  pub created_at_utc : Datetime
  pub effective_to : Option Date

-- `effective_to is not None and effective_to < effective_from`
unfoldable pub is_before_start : Option Date → Date → Bool
is_before_start none effective_from = false
is_before_start (some effective_to) effective_from = ltb effective_to effective_from

-- `DatasetInstrumentMapping.__post_init__`
unfoldable pub check_mapping : DatasetInstrumentMapping → Result Fault (Unit {0})
unfolding is_before_start
check_mapping m = do
  raise_if (is_empty m.mapping_id) empty_mapping_id
  raise_if (is_empty m.dataset_id) empty_dataset_id
  raise_if (is_blank m.source_instrument_identifier) blank_identifier
  raise_if (is_empty m.instrument_id) empty_instrument_id
  raise_if (is_blank m.decision_source) blank_decision_source
  raise_if (is_before_start m.effective_to m.effective_from) ends_before_start
  raise_if (not m.created_at_utc.is_aware) naive_time

-- `find_overlapping`
unfoldable pub find_overlapping :
    (dataset_id source_instrument_identifier : String) (effective_from : Date)
    → Option Date
    → List DatasetInstrumentMapping
    → List DatasetInstrumentMapping
find_overlapping dataset_id identifier effective_from effective_to [] = []
find_overlapping dataset_id identifier effective_from effective_to (m ∷ rows) =
    let rest = find_overlapping dataset_id identifier effective_from effective_to rows in
    if eqs m.dataset_id dataset_id
      && eqs m.source_instrument_identifier identifier
      && date_ranges_overlap effective_from effective_to m.effective_from m.effective_to
    then m ∷ rest
    else rest

unfoldable pub has_mapping : String → List DatasetInstrumentMapping → Bool
has_mapping id [] = false
has_mapping id (m ∷ rows) =
    let rest = has_mapping id rows in if eqs m.mapping_id id then true else rest

-- The row of a mapping as it is read again: its time is in UTC.
unfoldable pub mapping_row : DatasetInstrumentMapping → DatasetInstrumentMapping
mapping_row m = record {
  mapping_id = m.mapping_id;
  dataset_id = m.dataset_id;
  source_instrument_identifier = m.source_instrument_identifier;
  instrument_id = m.instrument_id;
  effective_from = m.effective_from;
  decision_source = m.decision_source;
  created_at_utc = record { instant = m.created_at_utc.instant; is_aware = true };
  effective_to = m.effective_to;
}

-- `create`
unfoldable pub create :
    List DatasetInstrumentMapping
    → DatasetInstrumentMapping
    → Result Fault DatasetInstrumentMapping × List DatasetInstrumentMapping
create rows m =
    if has_mapping m.mapping_id rows
    then (err constraint_violated, rows)
    else (ok m, mapping_row m ∷ rows)

unfoldable pub raise_overlap : List DatasetInstrumentMapping → Result Fault (Unit {0})
raise_overlap [] = ok tt
raise_overlap (m ∷ rows) = err mapping_overlap

-- The arguments of the service.
pub record MappingRequest : Type 0 where
  pub dataset_id : String
  pub source_instrument_identifier : String
  pub instrument_id : String
  pub effective_from : Date
  pub decision_source : String
  pub effective_to : Option Date

unfoldable pub mapping_of : MappingRequest → String → Datetime → DatasetInstrumentMapping
mapping_of q id now = record {
  mapping_id = id;
  dataset_id = q.dataset_id;
  source_instrument_identifier = q.source_instrument_identifier;
  instrument_id = q.instrument_id;
  effective_from = q.effective_from;
  decision_source = q.decision_source;
  created_at_utc = now;
  effective_to = q.effective_to;
}

module _ (has_dataset has_instrument : String → Bool) (new_id : String) (now : Datetime) where
  -- What is checked before the row is written.
  unfoldable pub prepare_mapping :
      MappingRequest → List DatasetInstrumentMapping → Result Fault DatasetInstrumentMapping
  unfolding mapping_of
  prepare_mapping q rows = do
    raise_if (not (has_dataset q.dataset_id)) dataset_not_found
    raise_if (not (has_instrument q.instrument_id)) instrument_not_found
    raise_overlap (
        find_overlapping q.dataset_id q.source_instrument_identifier q.effective_from q.effective_to
          rows)
    check_mapping (mapping_of q new_id now)
    ok (mapping_of q new_id now)

  unfoldable pub create_prepared :
      List DatasetInstrumentMapping
      → Result Fault DatasetInstrumentMapping
      → Result Fault DatasetInstrumentMapping × List DatasetInstrumentMapping
  create_prepared rows (err e) = (err e, rows)
  create_prepared rows (ok m) = create rows m

  -- `create_dataset_instrument_mapping`
  unfoldable pub create_dataset_instrument_mapping :
      MappingRequest
      → List DatasetInstrumentMapping
      → Result Fault DatasetInstrumentMapping × List DatasetInstrumentMapping
  create_dataset_instrument_mapping q rows = create_prepared rows (prepare_mapping q rows)

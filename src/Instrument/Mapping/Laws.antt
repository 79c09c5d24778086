-- ===== src/Instrument/Mapping/Laws.antt =====
-- Mappings of one identifier never share a day.
use idx_backtest_lab.Common.{
  ◌≡◌, ◌<◌, ◌⊎◌, inl, inr, refl, subst, Bool, false, not, Option, List, [], ◌∷◌, String, Result, ok,
  err, >>-eq-ok, ok-injective, Bool-cases, All, arith, raise_if,
}
use idx_backtest_lab.Common.Text.{eqs}
use idx_backtest_lab.Common.Time.{Date, Datetime, or_date_max}
use idx_backtest_lab.Optimization.Partitions.{date_ranges_overlap}
use idx_backtest_lab.Instrument.Mapping.{
  Fault, dataset_not_found, instrument_not_found, constraint_violated, DatasetInstrumentMapping,
  check_mapping, find_overlapping, has_mapping, mapping_row, create, raise_overlap, MappingRequest,
  mapping_of, prepare_mapping, create_prepared, create_dataset_instrument_mapping,
}

-- Two mappings are of different datasets or identifiers, or one ends before the other starts.
abbrev pub IsApart : DatasetInstrumentMapping → DatasetInstrumentMapping → Type 0
IsApart a b =
    (eqs b.dataset_id a.dataset_id ≡ false)
    ⊎ (eqs b.source_instrument_identifier a.source_instrument_identifier ≡ false)
    ⊎ (or_date_max a.effective_to < b.effective_from)
    ⊎ (or_date_max b.effective_to < a.effective_from)

abbrev pub IsDisjoint : List DatasetInstrumentMapping → Type 0
IsDisjoint [] = Unit
IsDisjoint (m ∷ rows) = All (IsApart m) rows × IsDisjoint rows

-- A call either returns a mapping that passes its checks and adds its row, or raises and adds none.
abbrev pub IsOutcome :
    List DatasetInstrumentMapping
    → Result Fault DatasetInstrumentMapping × List DatasetInstrumentMapping
    → Type 0
IsOutcome rows out =
    ((m : DatasetInstrumentMapping) × (check_mapping m ≡ ok tt)
      × (out ≡ (ok m, mapping_row m ∷ rows)))
    ⊎ ((e : Fault) × (out ≡ (err e, rows)))

date_ranges_overlap-apart :
    (a_from : Date) (a_to : Option Date) (b_from : Date) (b_to : Option Date)
    → date_ranges_overlap a_from a_to b_from b_to ≡ false
    → (or_date_max a_to < b_from) ⊎ (or_date_max b_to < a_from)
unfolding date_ranges_overlap
date_ranges_overlap-apart a_from a_to b_from b_to h = ground arith

find_overlapping-IsApart :
    (m : DatasetInstrumentMapping) (rows : List DatasetInstrumentMapping)
    → find_overlapping m.dataset_id m.source_instrument_identifier m.effective_from m.effective_to
        rows
      ≡ []
    → All (IsApart m) rows
unfolding find_overlapping
find_overlapping-IsApart m [] h = tt
find_overlapping-IsApart m (r ∷ rows) h = elim (Bool-cases (eqs r.dataset_id m.dataset_id)) [
  | inr other ↦ (inl other, find_overlapping-IsApart m rows (rw other at h))
  | inl d ↦ elim (Bool-cases (eqs r.source_instrument_identifier m.source_instrument_identifier)) [
    | inr other ↦ (inr (inl other), find_overlapping-IsApart m rows (rw (d, other) at h))
    | inl i ↦
        elim (Bool-cases
          (date_ranges_overlap m.effective_from m.effective_to r.effective_from r.effective_to)) [
            | inl shared ↦
                let rest =
                  find_overlapping m.dataset_id m.source_instrument_identifier m.effective_from
                    m.effective_to rows in
                let full : r ∷ rest ≡ [] = rw (d, i, shared) at h in cc
            | inr none_shared ↦ (
              inr (inr (date_ranges_overlap-apart m.effective_from m.effective_to _ _ none_shared)),
              find_overlapping-IsApart m rows (rw (d, i, none_shared) at h),
            )
          ]
  ]
]

raise_overlap_lem : (rows : List DatasetInstrumentMapping) → raise_overlap rows ≡ ok tt → rows ≡ []
unfolding raise_overlap
raise_overlap_lem [] h = refl
raise_overlap_lem (m ∷ rows) h = cc

create-Kept :
    (m : DatasetInstrumentMapping) (rows : List DatasetInstrumentMapping)
    → check_mapping m ≡ ok tt
    → All (IsApart m) rows
    → IsDisjoint rows
    → IsDisjoint (create rows m).1 × IsOutcome rows (create rows m)
unfolding create mapping_row
create-Kept m rows valid apart h = elim (Bool-cases (has_mapping m.mapping_id rows)) [
  | inl taken ↦ (rw taken h, inr (constraint_violated, rw taken refl))
  | inr new ↦ (rw new (apart, h), inl (m, valid, rw new refl))
]

module _ (has_dataset has_instrument : String → Bool) (new_id : String) (now : Datetime) where
  prepare_mapping_lem :
      (q : MappingRequest) (rows : List DatasetInstrumentMapping) (m : DatasetInstrumentMapping)
      → prepare_mapping has_dataset has_instrument new_id now q rows ≡ ok m
      → (check_mapping m ≡ ok tt) × All (IsApart m) rows
  unfolding prepare_mapping mapping_of
  prepare_mapping_lem q rows m h =
      let (_, h1) = >>-eq-ok (raise_if (not (has_dataset q.dataset_id)) dataset_not_found) _ h in
      let (_, h2) =
        >>-eq-ok (raise_if (not (has_instrument q.instrument_id)) instrument_not_found) _ h1 in
      let (free, h3) =
        >>-eq-ok
          (raise_overlap (
            find_overlapping q.dataset_id q.source_instrument_identifier q.effective_from
              q.effective_to rows))
          _ h2 in
      let (valid, h4) = >>-eq-ok (check_mapping (mapping_of q new_id now)) _ h3 in
      subst (λ x. (check_mapping x ≡ ok tt) × All (IsApart x) rows) (ok-injective h4)
        (valid, find_overlapping-IsApart (mapping_of q new_id now) rows (raise_overlap_lem _ free))

  create_prepared-Kept :
      (q : MappingRequest) (rows : List DatasetInstrumentMapping)
      → IsDisjoint rows
      → (prepared : Result Fault DatasetInstrumentMapping)
      → prepare_mapping has_dataset has_instrument new_id now q rows ≡ prepared
      → IsDisjoint (create_prepared has_dataset has_instrument new_id now rows prepared).1
        × IsOutcome rows (create_prepared has_dataset has_instrument new_id now rows prepared)
  unfolding create_prepared
  create_prepared-Kept q rows h (err e) k = (h, inr (e, refl))
  create_prepared-Kept q rows h (ok m) k =
      let (valid, apart) = prepare_mapping_lem q rows m k in create-Kept m rows valid apart h

  -- Where the mappings of one identifier of a dataset share no day, they share none after a call
  -- either, whatever is asked for; a call returns a mapping that passes its checks and adds its row,
  -- or raises and leaves the table as it is.
  pub create_dataset_instrument_mapping-IsDisjoint :
      (q : MappingRequest) (rows : List DatasetInstrumentMapping)
      → IsDisjoint rows
      → IsDisjoint
          (create_dataset_instrument_mapping has_dataset has_instrument new_id now q rows).1
        × IsOutcome rows
            (create_dataset_instrument_mapping has_dataset has_instrument new_id now q rows)
  unfolding create_dataset_instrument_mapping
  create_dataset_instrument_mapping-IsDisjoint q rows h =
      create_prepared-Kept q rows h (prepare_mapping has_dataset has_instrument new_id now q rows)
        refl

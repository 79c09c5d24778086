-- ===== src/Ingestion/Csv/Order.antt =====
-- The order of the rows that `parse_csv` returns.
use idx_backtest_lab.Common.{
  ℕ, suc, ◌<◌, ◌≡◌, ◌≢◌, refl, sym, subst, inl, inr, false, Option, none, some, List, [], ◌∷◌,
  String, ok, >>=-eq-ok, >>-eq-ok, ok-injective, raise_if, Bool-cases, eq_iff, arith, All, All-In,
  All-of_In,
}
use idx_backtest_lab.Common.Text.{eqs}
use idx_backtest_lab.Ingestion.Csv.{
  Library, ParsedRow, parse_row, last_timestamp, is_not_after, is_seen, require_unique_and_sorted,
  parse_rows, not_empty, validate_header, parse_table, decoded, parse_csv,
}
use idx_backtest_lab.Ingestion.Csv.Laws.{
  IsGoodRow, IsBefore, IsChronological, IsNumbered, IsClean, raise_if-false, parse_row-IsGoodRow,
}

-- A row is later than the last of its instrument's rows so far.
IsLater : List ParsedRow → ParsedRow → Type 0
IsLater before r =
    (t : ℕ) → last_timestamp r.instrument_identifier before ≡ some t → t < r.timestamp_utc.instant

is_not_after_lem :
    (r : ParsedRow) (o : Option ℕ) (t : ℕ)
    → is_not_after r o ≡ false
    → o ≡ some t
    → t < r.timestamp_utc.instant
unfolding is_not_after
is_not_after_lem r none t h k = cc
is_not_after_lem r (some u) t h k =
    let later : u < r.timestamp_utc.instant = ground arith in
    let same : u ≡ t = cc in subst (λ x. x < r.timestamp_utc.instant) same later

require_unique_and_sorted-IsLater :
    (r : ParsedRow) (before : List ParsedRow)
    → require_unique_and_sorted r before ≡ ok tt
    → IsLater before r
unfolding require_unique_and_sorted IsLater
require_unique_and_sorted-IsLater r before h t k =
    let (_, sorted) = >>-eq-ok (raise_if (is_seen r before) _) _ h in
    is_not_after_lem r (last_timestamp r.instrument_identifier before) t (raise_if-false _ _ sorted)
      k

-- Where a row is added, a later row comes after it if they are of the same instrument.
IsLater-IsBefore :
    (r q : ParsedRow) (before : List ParsedRow) → IsLater (r ∷ before) q → IsBefore r q
unfolding IsLater last_timestamp
IsLater-IsBefore r q before h =
    elim (Bool-cases (eqs r.instrument_identifier q.instrument_identifier)) [
      | inl same ↦ inr (h r.timestamp_utc.instant (rw same refl))
      | inr other ↦ inl other
    ]

IsLater-earlier :
    (r q : ParsedRow) (before : List ParsedRow)
    → IsLater before r
    → IsLater (r ∷ before) q
    → IsLater before q
unfolding IsLater last_timestamp
IsLater-earlier r q before first second t k =
    elim (Bool-cases (eqs r.instrument_identifier q.instrument_identifier)) [
      | inl same ↦
          let id = (eq_iff r.instrument_identifier q.instrument_identifier).0 same in
          let low : t < r.timestamp_utc.instant =
            first t (subst (λ i. last_timestamp i before ≡ some t) (sym id) k) in
          let high = second r.timestamp_utc.instant (rw same refl) in omega arith
      | inr other ↦ second t (rw other k)
    ]

module _ {B : Type 0} (lib : Library B) (interval zone : String) where
  -- The rows of a loop that succeeds.
  record IsParsed (n : ℕ) (before rows : List ParsedRow) : Type 0 where
    good : All IsGoodRow rows
    chronological : IsChronological rows
    numbered : IsNumbered n rows
    later : All (IsLater before) rows

  parse_rows-IsParsed :
      (header : List String) (n : ℕ) (before : List ParsedRow) (raws : List (List String))
      (rows : List ParsedRow)
      → parse_rows lib interval zone header n before raws ≡ ok rows
      → IsParsed n before rows
  unfolding parse_rows
  parse_rows-IsParsed header n before [] rows h =
      subst (IsParsed n before) (ok-injective h)
        (record { good = tt; chronological = tt; numbered = tt; later = tt })
  parse_rows-IsParsed header n before (raw ∷ raws) rows h =
      let (r, read, h1) = >>=-eq-ok (parse_row lib interval zone n header raw) _ h in
      let (unique, h2) = >>-eq-ok (require_unique_and_sorted r before) _ h1 in
      let (rest, parsed, h3) =
        >>=-eq-ok (parse_rows lib interval zone header (suc n) (r ∷ before) raws) _ h2 in
      let (good, number) = parse_row-IsGoodRow lib interval zone n header raw r read in
      let ih = parse_rows-IsParsed header (suc n) (r ∷ before) raws rest parsed in
      let later = require_unique_and_sorted-IsLater r before unique in
      subst (IsParsed n before) (ok-injective h3) (record {
        good = (good, ih.good);
        chronological = (
          All-of_In (IsBefore r) rest (λ q m.
              IsLater-IsBefore r q before (All-In (IsLater (r ∷ before)) rest ih.later q m)),
          ih.chronological,
        );
        numbered = (number, ih.numbered);
        later = (
          later,
          All-of_In (IsLater before) rest (λ q m.
              IsLater-earlier r q before later (All-In (IsLater (r ∷ before)) rest ih.later q m)),
        );
      })

  not_empty_lem :
      (rows accepted : List ParsedRow)
      → not_empty rows ≡ ok accepted
      → (rows ≡ accepted) × (accepted ≢ [])
  unfolding not_empty
  not_empty_lem [] accepted h = cc
  not_empty_lem (r ∷ rows) accepted h = let same = ok-injective h in (same, λ none_left. cc)

  -- The rows of a file that is accepted: there is at least one; each names its instrument and has a
  -- time in a zone, a positive low with open and close between low and high, and a zero-volume flag
  -- that is true just when its volume is 0; they are numbered on from 2, and any two of one instrument
  -- are in strictly ascending order of time.
  pub parse_csv-IsClean :
      (raw_bytes : B) (rows : List ParsedRow)
      → parse_csv lib interval zone raw_bytes ≡ ok rows
      → IsClean rows
  unfolding parse_csv parse_table
  parse_csv-IsClean raw_bytes rows h =
      let (text, _, h1) = >>=-eq-ok (decoded (lib.decode raw_bytes)) _ h in
      table (lib.csv_reader text) h1
    where
      table : (t : List (List String)) → parse_table lib interval zone t ≡ ok rows → IsClean rows
      table [] k = cc
      table (header ∷ raws) k =
          let (_, k1) = >>-eq-ok (validate_header header) _ k in
          let (parsed, loop, k2) = >>=-eq-ok (parse_rows lib interval zone header 2 [] raws) _ k1 in
          let (same, filled) = not_empty_lem parsed rows k2 in
          let result =
            subst (IsParsed 2 []) same (parse_rows-IsParsed header 2 [] raws parsed loop) in
          (filled, result.good, result.numbered, result.chronological)

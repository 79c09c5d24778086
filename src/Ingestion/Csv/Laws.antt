-- ===== src/Ingestion/Csv/Laws.antt =====
-- What an accepted file is.
use idx_backtest_lab.Common.{
  ℕ, suc, ◌<◌, ◌≡◌, ◌≢◌, refl, subst, ◌∙◌, inl, inr, ◌⊎◌, Bool, true, false, not, Option, none,
  some, List, [], ◌∷◌, String, ok, err, ◌>>=◌, >>=-eq-ok, >>-eq-ok, ok-injective, if_cases,
  raise_if, length, arith, All, ◌==◌,
}
use idx_backtest_lab.Common.Int.{ℤ, pos, ◌≤ℤ◌, ◌<ℤ◌, leb_ℤ}
use idx_backtest_lab.Common.Text.{eqs, is_empty, strip}
use idx_backtest_lab.Common.Time.{Date, Datetime}
use idx_backtest_lab.Ingestion.Csv.{
  Library, ParsedRow, required_cell, positive, parse_decimal, parse_volume, of_zone, of_date,
  parse_date_only_timestamp, of_datetime, parse_offset_timestamp, or_offset, parse_timestamp,
  require_ohlc_relationship, parse_row,
}

-- A row that is accepted: it names an instrument, its time has a zone, its prices are positive with
-- open and close between low and high, and it tells whether nothing was traded.
pub record IsGoodRow (r : ParsedRow) : Type 0 where
  pub has_instrument : is_empty r.instrument_identifier ≡ false
  pub aware : r.timestamp_utc.is_aware ≡ true
  pub low_positive : pos 0 <ℤ r.low
  pub low_open : r.low ≤ℤ r.open_price
  pub open_high : r.open_price ≤ℤ r.high
  pub low_close : r.low ≤ℤ r.close
  pub close_high : r.close ≤ℤ r.high
  pub zero : r.zero_volume ≡ (r.volume == 0)

-- Of two rows of one instrument, the second is later.
abbrev pub IsBefore : ParsedRow → ParsedRow → Type 0
IsBefore r q =
    (eqs r.instrument_identifier q.instrument_identifier ≡ false)
    ⊎ (r.timestamp_utc.instant < q.timestamp_utc.instant)

-- The rows of an instrument are in strictly ascending order of time, so no two have the same time.
abbrev pub IsChronological : List ParsedRow → Type 0
IsChronological [] = Unit
IsChronological (r ∷ rs) = All (IsBefore r) rs × IsChronological rs

-- The rows are numbered as the lines of the file, from a number on.
abbrev pub IsNumbered : ℕ → List ParsedRow → Type 0
IsNumbered n [] = Unit
IsNumbered n (r ∷ rs) = (r.row_number ≡ n) × IsNumbered (suc n) rs

-- What a file that is accepted contains.
abbrev pub IsClean : List ParsedRow → Type 0
IsClean rows = (rows ≢ []) × All IsGoodRow rows × IsNumbered 2 rows × IsChronological rows

pub raise_if-false :
    {E : Type 0} (test : Bool) (fault : E) → raise_if test fault ≡ ok tt → test ≡ false
raise_if-false true fault h = cc
raise_if-false false fault h = refl

module _ {B : Type 0} (lib : Library B) where
  positive_lem : (n : ℕ) (o : Option (Option ℤ)) (d : ℤ) → positive n o ≡ ok d → pos 0 <ℤ d
  unfolding positive
  positive_lem n none d h = cc
  positive_lem n (some none) d h = cc
  positive_lem n (some (some v)) d h = elim (if_cases (leb_ℤ v (pos 0)) (err _) (ok v) h) [
    | inl (low, refused) ↦ cc
    | inr (high, same) ↦ subst (λ x. pos 0 <ℤ x) (ok-injective same) (ground arith)
  ]

  of_datetime-aware :
      (n : ℕ) (o : Option Datetime) (t : Datetime) → of_datetime n o ≡ ok t → t.is_aware ≡ true
  unfolding of_datetime
  of_datetime-aware n none t h = cc
  of_datetime-aware n (some u) t h = elim (if_cases u.is_aware (ok _) (err _) h) [
    | inl (aware, same) ↦ subst (λ x. x.is_aware ≡ true) (ok-injective same) refl
    | inr (naive, refused) ↦ cc
  ]

  or_offset-aware :
      (value : String) (n : ℕ) (o : Option Datetime) (t : Datetime)
      → ((u : Datetime) → o ≡ some u → u.is_aware ≡ true)
      → or_offset lib value n o ≡ ok t
      → t.is_aware ≡ true
  unfolding or_offset parse_offset_timestamp
  or_offset-aware value n none t k h = of_datetime-aware n (lib.read_datetime value) t h
  or_offset-aware value n (some u) t k h =
      subst (λ x. x.is_aware ≡ true) (ok-injective h) (k u refl)

  of_zone-aware :
      (n : ℕ) (z : Option ℕ) (o : Option Datetime) (u : Datetime)
      → of_zone n z ≡ ok o
      → o ≡ some u
      → u.is_aware ≡ true
  unfolding of_zone
  of_zone-aware n none o u h k = cc
  of_zone-aware n (some instant) o u h k =
      let same : some (record { instant = instant; is_aware = true }) ≡ some u =
        ok-injective h ∙ k in
      let time : record { instant = instant; is_aware = true } ≡ u = cc in
      subst (λ x. x.is_aware ≡ true) time refl

  of_date-aware :
      (zone : String) (n : ℕ) (d : Option Date) (o : Option Datetime) (u : Datetime)
      → of_date lib zone n d ≡ ok o
      → o ≡ some u
      → u.is_aware ≡ true
  unfolding of_date
  of_date-aware zone n none o u h k = let nothing : none ≡ some u = ok-injective h ∙ k in cc
  of_date-aware zone n (some d) o u h k = of_zone-aware n (lib.midnight zone d) o u h k

  parse_timestamp-aware :
      (value interval zone : String) (n : ℕ) (t : Datetime)
      → parse_timestamp lib value interval zone n ≡ ok t
      → t.is_aware ≡ true
  unfolding parse_timestamp parse_date_only_timestamp parse_offset_timestamp
  parse_timestamp-aware value interval zone n t h =
      elim (if_cases (eqs interval "1d")
        (of_date lib zone n (lib.read_date value) >>= or_offset lib value n)
        (of_datetime n (lib.read_datetime value)) h) [
          | inl (daily, e) ↦
              let (o, read, e') = >>=-eq-ok (of_date lib zone n (lib.read_date value)) _ e in
              or_offset-aware value n o t
                (λ u k. of_date-aware zone n (lib.read_date value) o u read k) e'
          | inr (other, e) ↦ of_datetime-aware n (lib.read_datetime value) t e
        ]

  require_ohlc_relationship_lem :
      (o hi lo c : ℤ) (n : ℕ)
      → require_ohlc_relationship o hi lo c n ≡ ok tt
      → (lo ≤ℤ o) × (o ≤ℤ hi) × (lo ≤ℤ c) × (c ≤ℤ hi)
  unfolding require_ohlc_relationship
  require_ohlc_relationship_lem o hi lo c n h =
      let related = raise_if-false _ _ h in (ground arith, ground arith, ground arith, ground arith)

  module _ (interval zone : String) where
    pub parse_row-IsGoodRow :
        (n : ℕ) (header raw : List String) (r : ParsedRow)
        → parse_row lib interval zone n header raw ≡ ok r
        → IsGoodRow r × (r.row_number ≡ n)
    unfolding parse_row parse_decimal
    parse_row-IsGoodRow n header raw r h =
        let cells = λ (column : String). required_cell column header raw in
        let (_, h1) = >>-eq-ok (raise_if (not (length raw == length header)) _) _ h in
        let (id, _, h2) = >>=-eq-ok (cells "instrument_identifier") _ h1 in
        let (named, h3) = >>-eq-ok (raise_if (is_empty (strip id)) _) _ h2 in
        let (stamp, _, h4) = >>=-eq-ok (cells "timestamp") _ h3 in
        let (t, timed, h5) = >>=-eq-ok (parse_timestamp lib stamp interval zone n) _ h4 in
        let (open_text, _, h6) = >>=-eq-ok (cells "open") _ h5 in
        let (o, _, h7) = >>=-eq-ok (positive n (lib.read_decimal open_text)) _ h6 in
        let (high_text, _, h8) = >>=-eq-ok (cells "high") _ h7 in
        let (hi, _, h9) = >>=-eq-ok (positive n (lib.read_decimal high_text)) _ h8 in
        let (low_text, _, h10) = >>=-eq-ok (cells "low") _ h9 in
        let (lo, low_read, h11) = >>=-eq-ok (positive n (lib.read_decimal low_text)) _ h10 in
        let (close_text, _, h12) = >>=-eq-ok (cells "close") _ h11 in
        let (c, _, h13) = >>=-eq-ok (positive n (lib.read_decimal close_text)) _ h12 in
        let (related, h14) = >>-eq-ok (require_ohlc_relationship o hi lo c n) _ h13 in
        let (volume_text, _, h15) = >>=-eq-ok (cells "volume") _ h14 in
        let (v, _, h16) = >>=-eq-ok (parse_volume lib volume_text n) _ h15 in
        let (low_open, open_high, low_close, close_high) =
          require_ohlc_relationship_lem o hi lo c n related in
        subst (λ x. IsGoodRow x × (x.row_number ≡ n)) (ok-injective h16)
          (
            record {
              has_instrument = raise_if-false _ _ named;
              aware = parse_timestamp-aware stamp interval zone n t timed;
              low_positive = positive_lem n _ lo low_read;
              low_open = low_open;
              open_high = open_high;
              low_close = low_close;
              close_high = close_high;
              zero = refl;
            },
            refl,
          )

-- ===== src/Market/Bar.antt =====
-- `NormalizedBar` (backend/app/domain/market_data.py) and the checks of its construction. Prices are
-- finite decimals, as whole multiples of one smallest unit. An exception is a `Fault`, one for each
-- `raise`.
use idx_backtest_lab.Common.{
  ◌≡◌, ◌↔◌, true, false, ◌&&◌, not, Option, arith, if◌then◌else◌, String, Result, ok, ◌>>◌,
  raise_if,
}
use idx_backtest_lab.Common.Int.{ℤ, pos, ◌≤ℤ◌, ◌<ℤ◌, ltb_ℤ, leb_ℤ}
use idx_backtest_lab.Common.Text.{is_empty, is_blank}
use idx_backtest_lab.Common.Time.{Datetime}

pub record NormalizedBar : Type 0 where
  pub bar_id : String
  pub dataset_id : String
  pub source_instrument_identifier : String
  pub timestamp_utc : Datetime
  pub bar_interval : String
  pub open_price : ℤ
  pub high : ℤ
  pub low : ℤ
  pub close : ℤ
  pub volume : ℤ
  pub currency : Option String
  pub source_row_id : Option String

pub data Fault : Type 0 where
  empty_bar_id empty_dataset_id blank_source blank_interval naive_timestamp : Fault
  ohlc_not_positive ohlc_out_of_order negative_volume : Fault

-- Python's `min` of two numbers.
abbrev min_ℤ : ℤ → ℤ → ℤ
min_ℤ a b = if ltb_ℤ b a then b else a

-- `NormalizedBar.__post_init__`
unfoldable pub check_bar : NormalizedBar → Result Fault (Unit {0})
check_bar b = do
  raise_if (is_empty b.bar_id) empty_bar_id
  raise_if (is_empty b.dataset_id) empty_dataset_id
  raise_if (is_blank b.source_instrument_identifier) blank_source
  raise_if (is_blank b.bar_interval) blank_interval
  raise_if (not b.timestamp_utc.is_aware) naive_timestamp
  raise_if (leb_ℤ (min_ℤ (min_ℤ (min_ℤ b.open_price b.high) b.low) b.close) (pos 0))
      ohlc_not_positive
  raise_if
      (not (
        leb_ℤ b.low b.open_price
        && leb_ℤ b.open_price b.high
        && (leb_ℤ b.low b.close && leb_ℤ b.close b.high)))
      ohlc_out_of_order
  raise_if (ltb_ℤ b.volume (pos 0)) negative_volume

-- A bar that is accepted.
pub record IsValidBar (b : NormalizedBar) : Type 0 where
  pub has_id : is_empty b.bar_id ≡ false
  pub has_dataset : is_empty b.dataset_id ≡ false
  pub has_source : is_blank b.source_instrument_identifier ≡ false
  pub has_interval : is_blank b.bar_interval ≡ false
  pub aware : b.timestamp_utc.is_aware ≡ true
  pub low_positive : pos 0 <ℤ b.low
  pub low_open : b.low ≤ℤ b.open_price
  pub open_high : b.open_price ≤ℤ b.high
  pub low_close : b.low ≤ℤ b.close
  pub close_high : b.close ≤ℤ b.high
  pub volume_nonneg : pos 0 ≤ℤ b.volume

-- A bar is accepted exactly when its texts are not empty, its time has a zone, its low is positive,
-- open and close lie between low and high, and its volume is not negative.
pub check_bar_iff : (b : NormalizedBar) → (check_bar b ≡ ok tt) ↔ IsValidBar b
unfolding check_bar
check_bar_iff b = (λ h. ground arith, λ v. ground arith)

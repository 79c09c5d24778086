-- ===== src/Common/Time.antt =====
-- `date` and `datetime`: a date is its ordinal number, an instant a number of microseconds.
use idx_backtest_lab.Common.{ℕ, Bool, Option, none, some}

-- `date.toordinal()`, which orders dates.
abbrev pub Date : Type 0
Date = ℕ

-- `date.max`, the 31st of December 9999.
abbrev pub date_max : Date
date_max = 3652059

-- A `datetime`: its instant, and whether `tzinfo` is set.
pub record Datetime : Type 0 where
  pub instant : ℕ
  pub is_aware : Bool

-- `end or date.max`
abbrev pub or_date_max : Option Date → Date
or_date_max none = date_max
or_date_max (some d) = d

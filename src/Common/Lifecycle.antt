-- ===== src/Common/Lifecycle.antt =====
-- A status with a table of allowed transitions, and the walks through it.
use idx_backtest_lab.Common.{◌≡◌, Bool, true, List, [], ◌∷◌}

module _ {S : Type 0} (allowed : S → S → Bool) where
  -- A sequence of allowed transitions.
  pub data Walk : S → S → Type 0 where
    stop : {s : S} → Walk s s
    next : {s t : S} (n : S) → allowed s n ≡ true → Walk n t → Walk s t

module _ {S : Type 0} {allowed : S → S → Bool} where
  -- The statuses on the way, the first and the last included.
  abbrev pub visited : {s t : S} → Walk allowed s t → List S
  visited (stop {s}) = s ∷ []
  visited (next {s} n h w) = s ∷ visited w

  -- One sequence of allowed transitions after another.
  pub onward_walk : {s t u : S} → Walk allowed s t → Walk allowed t u → Walk allowed s u
  onward_walk stop v = v
  onward_walk (next n h w) v = next n h (onward_walk w v)

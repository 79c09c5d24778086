-- ===== src/Artifact/Snapshots/Reference.antt =====
-- The snapshots by the documented valuation: at each bar's close, the cash and the holdings after
-- the last event that is not later than the bar.
use mathlib.Core.Path.{ap₂}
use idx_backtest_lab.Common.{
  ℕ, ◌+◌, ◌≡◌, refl, ◌≤◌, true, false, List, [], ◌∷◌, arith, leb, if◌then◌else◌, All, String,
  Bool-cases, inl, inr, sym, ap, ◌∙◌,
}
use idx_backtest_lab.Common.Int.{ℤ}
use idx_backtest_lab.Common.Time.{Datetime}
use idx_backtest_lab.Execution.{CashEvent, PositionEvent}
use idx_backtest_lab.Market.Bar.{NormalizedBar}
use idx_backtest_lab.Artifact.Snapshots.{
  PortfolioSnapshot, advance, advance_cash, advance_position, snapshot, snapshots_from,
  build_portfolio_snapshots,
}

module _ {E : Type 0} (time : E → Datetime) where
  -- Elements in the order of their times.
  abbrev pub InOrder : List E → Type 0
  InOrder [] = Unit
  InOrder (e ∷ events) = All (λ f. (time e).instant ≤ (time f).instant) events × InOrder events

module _ {E V : Type 0} (time : E → Datetime) (value : E → V) where
  -- The value after the last of the events that are not later than `t`, wherever they stand.
  unfoldable pub latest : Datetime → V → List E → V
  latest t current [] = current
  latest t current (e ∷ events) =
      latest t (if leb (time e).instant t.instant then value e else current) events

  latest_later :
      (t : Datetime) (v : V) (e : E) (events : List E)
      → leb (time e).instant t.instant ≡ false
      → All (λ f. (time e).instant ≤ (time f).instant) events
      → latest t v events ≡ v
  unfolding latest
  latest_later t v e [] h k = refl
  latest_later t v e (f ∷ events) h k =
      let later : leb (time f).instant t.instant ≡ false = ground (arith, k.0) in
      rw later (latest_later t v e events h k.1)

  advance-latest :
      (t : Datetime) (v : V) (events : List E)
      → InOrder time events
      → (advance time value t v events).0 ≡ latest t v events
  unfolding advance latest
  advance-latest t v [] h = refl
  advance-latest t v (e ∷ events) h = elim (Bool-cases (leb (time e).instant t.instant)) [
    | inl q ↦ rw q (advance-latest t (value e) events h.1)
    | inr q ↦ rw q (sym (latest_later t v e events q h.0))
  ]

  -- To advance to `t` and then to a later `u` is to advance to `u`.
  advance-advance :
      (t u : Datetime) (v : V) (events : List E)
      → t.instant ≤ u.instant
      → advance time value u (advance time value t v events).0 (advance time value t v events).1
        ≡ advance time value u v events
  unfolding advance
  advance-advance t u v [] h = refl
  advance-advance t u v (e ∷ events) h = elim (Bool-cases (leb (time e).instant t.instant)) [
    | inl q ↦
        let q' : leb (time e).instant u.instant ≡ true = ground arith in
        rw (q, q') (advance-advance t u (value e) events h)
    | inr q ↦ rw q refl
  ]

abbrev pub cash_time : CashEvent → Datetime
cash_time e = e.timestamp_utc

abbrev pub position_time : PositionEvent → Datetime
position_time e = e.timestamp_utc

abbrev pub bar_time : NormalizedBar → Datetime
bar_time b = b.timestamp_utc

-- The cash after the last cash event that is not later than `t`.
abbrev pub cash_at : Datetime → ℤ → List CashEvent → ℤ
cash_at = latest cash_time (λ e. e.cash_after)

-- The quantity after the last position event that is not later than `t`.
abbrev pub quantity_at : Datetime → List PositionEvent → ℕ
quantity_at t = latest position_time (λ e. e.quantity) t 0

module _ (currency : String) (initial : ℤ) (cs : List CashEvent) (ps : List PositionEvent) where
  -- Each bar's snapshot on its own, from all events.
  unfoldable pub valued_from : ℕ → List NormalizedBar → List PortfolioSnapshot
  valued_from sequence [] = []
  valued_from sequence (bar ∷ bars) =
      snapshot currency sequence bar (cash_at bar.timestamp_utc initial cs)
        (quantity_at bar.timestamp_utc ps)
      ∷ valued_from (sequence + 1) bars

  -- What is left of the events leads on from `t` as all of them do.
  abbrev CashAgrees : ℕ → ℤ → List CashEvent → Type 0
  CashAgrees t c rest =
      (u : Datetime) → t ≤ u.instant → advance_cash u c rest ≡ advance_cash u initial cs

  abbrev PositionAgrees : ℕ → ℕ → List PositionEvent → Type 0
  PositionAgrees t q rest =
      (u : Datetime) → t ≤ u.instant → advance_position u q rest ≡ advance_position u 0 ps

  CashAgrees-advance :
      (t : ℕ) (u : Datetime) (c : ℤ) (rest : List CashEvent)
      → t ≤ u.instant
      → CashAgrees t c rest
      → CashAgrees u.instant (advance_cash u c rest).0 (advance_cash u c rest).1
  unfolding advance_cash
  CashAgrees-advance t u c rest le h v m =
      advance-advance cash_time (λ e. e.cash_after) u v c rest m ∙ h v (omega arith)

  PositionAgrees-advance :
      (t : ℕ) (u : Datetime) (q : ℕ) (rest : List PositionEvent)
      → t ≤ u.instant
      → PositionAgrees t q rest
      → PositionAgrees u.instant (advance_position u q rest).0 (advance_position u q rest).1
  unfolding advance_position
  PositionAgrees-advance t u q rest le h v m =
      advance-advance position_time (λ e. e.quantity) u v q rest m ∙ h v (omega arith)

  module _ (cash_order : InOrder cash_time cs) (position_order : InOrder position_time ps) where
    snapshots_from-valued :
        (t sequence : ℕ) (bars : List NormalizedBar) (c : ℤ) (rest : List CashEvent) (q : ℕ)
        (rest' : List PositionEvent)
        → All (λ b. t ≤ b.timestamp_utc.instant) bars
        → InOrder bar_time bars
        → CashAgrees t c rest
        → PositionAgrees t q rest'
        → snapshots_from currency sequence bars c rest q rest' ≡ valued_from sequence bars
    unfolding snapshots_from valued_from advance_cash advance_position
    snapshots_from-valued t k [] c rest q rest' after order hc hp = refl
    snapshots_from-valued t k (bar ∷ bars) c rest q rest' after order hc hp =
        let u = bar.timestamp_utc in
        let cash_now : (advance_cash u c rest).0 ≡ cash_at u initial cs =
          ap (λ (x : ℤ × List CashEvent). x.0) (hc u after.0)
          ∙ advance-latest cash_time (λ e. e.cash_after) u initial cs cash_order in
        let quantity_now : (advance_position u q rest').0 ≡ quantity_at u ps =
          ap (λ (x : ℕ × List PositionEvent). x.0) (hp u after.0)
          ∙ advance-latest position_time (λ e. e.quantity) u 0 ps position_order in
        ap₂ (◌∷◌) (ap₂ (snapshot currency k bar) cash_now quantity_now) (
          snapshots_from-valued u.instant (k + 1) bars _ _ _ _ order.0 order.1
            (CashAgrees-advance t u c rest after.0 hc)
            (PositionAgrees-advance t u q rest' after.0 hp))

    after_zero : (bars : List NormalizedBar) → All (λ b. 0 ≤ b.timestamp_utc.instant) bars
    after_zero [] = tt
    after_zero (b ∷ bars) = (omega arith, after_zero bars)

-- With bars and events in the order of their times, the one pass over bars and events values every
-- bar by the cash and the quantity after the last event that is not later than that bar.
pub build_portfolio_snapshots-valued :
    (bars : List NormalizedBar) (cash_events : List CashEvent)
    (position_events : List PositionEvent) (initial_cash : ℤ) (currency : String)
    → InOrder bar_time bars
    → InOrder cash_time cash_events
    → InOrder position_time position_events
    → build_portfolio_snapshots bars cash_events position_events initial_cash currency
      ≡ valued_from currency initial_cash cash_events position_events 0 bars
unfolding build_portfolio_snapshots
build_portfolio_snapshots-valued bars cs ps initial currency hb hc hp =
    snapshots_from-valued currency initial cs ps hc hp 0 0 bars initial cs 0 ps
      (after_zero currency initial cs ps hc hp bars) hb (λ u h. refl) (λ u h. refl)

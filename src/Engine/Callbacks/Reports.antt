-- ===== src/Engine/Callbacks/Reports.antt =====
-- The order events of the strategy beside its fills.
use idx_backtest_lab.Common.{
  ℕ, ◌<◌, ◌≡◌, refl, some, List, [], ◌∷◌, ◌++◌, ok, All, ◌==◌, if_cases, Bool-cases, inl, inr,
  subst,
}
use idx_backtest_lab.Common.Int.{pos}
use idx_backtest_lab.Execution.{filled, rejected, OrderEvent, FillEvent}
use idx_backtest_lab.Engine.State.{Params, OrderContext, State, init_state, context_of, without}
use idx_backtest_lab.Engine.Callbacks.{
  Callback, submit, warn, fill_event, fill_on, reject, handle_all,
}
use idx_backtest_lab.Engine.Callbacks.Steps.{
  Step, idle, warned, submitted, filled_order, rejected_order, handle_all-invariant,
}

-- A fill is that of the order of an event: of the same instrument and side, of all its shares, at
-- least one, and without costs.
pub record IsFillOf (e : OrderEvent) (f : FillEvent) : Type 0 where
  pub reported : e.status ≡ filled
  pub same_order : f.order_id ≡ e.order_id
  pub same_instrument : f.instrument_id ≡ e.instrument_id
  pub same_side : f.side ≡ e.side
  pub all_shares : f.quantity ≡ e.intended_quantity
  pub not_empty : 0 < f.quantity
  pub no_commission : f.commission ≡ pos 0
  pub no_tax : f.tax ≡ pos 0
  pub no_slippage : f.slippage ≡ pos 0

-- Order events that are reported one after the other, each with its fill or as a rejection.
pub data Reports : List OrderEvent → List FillEvent → Type 0 where
  nothing : Reports [] []
  filled_next :
      (es : List OrderEvent) (fs : List FillEvent) (e : OrderEvent) (f : FillEvent)
      → Reports es fs
      → IsFillOf e f
      → Reports (es ++ e ∷ []) (fs ++ f ∷ [])
  rejected_next :
      (es : List OrderEvent) (fs : List FillEvent) (e : OrderEvent)
      → Reports es fs
      → e.status ≡ rejected
      → Reports (es ++ e ∷ []) fs

abbrev HasShares : ℕ × OrderContext → Type 0
HasShares c = 0 < c.1.intended_quantity

without-HasShares :
    (ref : ℕ) (cs : List (ℕ × OrderContext)) → All HasShares cs → All HasShares (without ref cs)
unfolding without
without-HasShares ref [] h = tt
without-HasShares ref ((r, c) ∷ cs) (h, hs) = elim (Bool-cases (r == ref)) [
  | inl same ↦ rw same (without-HasShares ref cs hs)
  | inr other ↦ rw other (h, without-HasShares ref cs hs)
]

context_of-HasShares :
    (ref : ℕ) (cs : List (ℕ × OrderContext)) (c : OrderContext)
    → context_of ref cs ≡ some c
    → All HasShares cs
    → 0 < c.intended_quantity
unfolding context_of
context_of-HasShares ref [] c e h = cc
context_of-HasShares ref ((r, d) ∷ cs) c e (h, hs) =
    elim (if_cases (r == ref) (some d) (context_of ref cs) e) [
      | inl (same, found) ↦
          let same_context : d ≡ c = cc in subst (λ x. 0 < x.intended_quantity) same_context h
      | inr (other, found) ↦ context_of-HasShares ref cs c found hs
    ]

record IsReported (s : State) : Type 0 where
  reports : Reports s.order_events s.fill_events
  shares : All HasShares s.order_context

module _ (p : Params) where
  Step-IsReported : (s s' : State) → Step p s s' → IsReported s → IsReported s'
  unfolding warn submit fill_on reject fill_event
  Step-IsReported s s' (idle t) h = h
  Step-IsReported s s' (warned warning t) h = record { reports = h.reports; shares = h.shares }
  Step-IsReported s s' (submitted ref side quantity created_at t positive) h = record {
    reports = h.reports;
    shares = (positive, without-HasShares ref t.order_context h.shares);
  }
  Step-IsReported s s' (filled_order ref c bar t known) h = record {
    reports = filled_next t.order_events t.fill_events _ _ h.reports (record {
      reported = refl;
      same_order = refl;
      same_instrument = refl;
      same_side = refl;
      all_shares = refl;
      not_empty = context_of-HasShares ref t.order_context c known h.shares;
      no_commission = refl;
      no_tax = refl;
      no_slippage = refl;
    });
    shares = without-HasShares ref t.order_context h.shares;
  }
  Step-IsReported s s' (rejected_order ref c status_name t known) h = record {
    reports = rejected_next t.order_events t.fill_events _ h.reports refl;
    shares = without-HasShares ref t.order_context h.shares;
  }

  -- Whatever callbacks are made, every order event is a rejection or is reported with the fill of its
  -- order, for all of its shares, at least one, and without costs; there are no other fills, and both
  -- lists have the same sequence.
  pub handle_all-Reports :
      (calls : List Callback) (s : State)
      → handle_all p calls (init_state p) ≡ ok s
      → Reports s.order_events s.fill_events
  unfolding init_state
  handle_all-Reports calls s e =
      (handle_all-invariant p IsReported Step-IsReported calls (init_state p) s e
        (record { reports = nothing; shares = tt })).reports

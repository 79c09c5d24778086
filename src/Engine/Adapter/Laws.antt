-- ===== src/Engine/Adapter/Laws.antt =====
-- What the result of the adapter reports.
use idx_backtest_lab.Common.{
  ℕ, ◌+◌, ◌≡◌, refl, subst, Bool, inl, inr, ◌⊎◌, Option, none, some, List, [], ◌∷◌, String, Result,
  ok, err, >>=-eq-ok, ok-injective, length,
}
use idx_backtest_lab.Common.Int.{ℤ}
use idx_backtest_lab.Execution.{completed, failed, ExecutionResult}
use idx_backtest_lab.Engine.Sizing.{Arithmetic, Raised}
use idx_backtest_lab.Engine.Signals.{Signal, strategy_lines}
use idx_backtest_lab.Engine.State.{Params, OrderContext, State, init_state}
use idx_backtest_lab.Engine.Callbacks.{
  Callback, submit, warn, fill_on, reject, handle_all, code_at_stop, stop,
}
use idx_backtest_lab.Engine.Callbacks.Steps.{
  Step, idle, warned, submitted, filled_order, rejected_order, handle_all-invariant,
}
use idx_backtest_lab.Engine.Callbacks.Accounts.{Account, opened, handle_all-IsBooked}
use idx_backtest_lab.Engine.Callbacks.Reports.{Reports, nothing, handle_all-Reports}
use idx_backtest_lab.Engine.Adapter.{
  Arguments, in_units, build_metadata, terminal_status, or_backtrader_error, params_of,
  run_strategy, result_of, execute,
}

-- A result of the engine is coherent: an account that is opened with the capital books its fills one
-- after the other, its order events are reported with its fills, and the count in its metadata is
-- that of all its events; it has failed exactly when it has a failure code, which is either that of an
-- exception, and then nothing is reported, or that of an order without a next bar.
pub record IsCoherent (initial : ℤ) (r : ExecutionResult) : Type 0 where
  pub books : (cash : ℤ) × Account initial cash r.fill_events r.cash_events r.position_events
  pub orders : Reports r.order_events r.fill_events
  pub counted :
      r.metadata.event_count
      ≡ length r.order_events
        + length r.fill_events
        + length r.position_events
        + length r.cash_events
  pub status :
      ((r.terminal_status ≡ completed) × (r.failure_code ≡ none))
      ⊎ ((r.terminal_status ≡ failed) × (r.failure_code ≡ some "missing_next_bar"))
      ⊎ ((r.terminal_status ≡ failed)
          × (r.failure_code ≡ some "engine_error")
          × (r.order_events ≡ [])
          × (r.metadata.event_count ≡ 0))

abbrev NotFailed : State → Type 0
NotFailed s = s.failure_code ≡ none

Step-NotFailed : (p : Params) (s s' : State) → Step p s s' → NotFailed s → NotFailed s'
unfolding warn submit fill_on reject
Step-NotFailed p s s' (idle t) h = h
Step-NotFailed p s s' (warned warning t) h = h
Step-NotFailed p s s' (submitted ref side quantity created_at t positive) h = h
Step-NotFailed p s s' (filled_order ref c bar t known) h = h
Step-NotFailed p s s' (rejected_order ref c status_name t known) h = h

status_at_stop :
    {A B : Type 0} (open_orders : List (ℕ × OrderContext)) (code : Option String)
    → code ≡ none
    → ((terminal_status (code_at_stop open_orders code) ≡ completed)
        × (code_at_stop open_orders code ≡ none))
      ⊎ ((terminal_status (code_at_stop open_orders code) ≡ failed)
          × (code_at_stop open_orders code ≡ some "missing_next_bar"))
      ⊎ ((terminal_status (code_at_stop open_orders code) ≡ failed)
          × (code_at_stop open_orders code ≡ some "engine_error")
          × A
          × B)
unfolding terminal_status code_at_stop
status_at_stop [] code e = inl (rw e refl, e)
status_at_stop (c ∷ cs) code e = inr (inl (refl, refl))

module _ (arithmetic : Arithmetic) (unit_places : ℕ) (is_positive : Signal → ℕ → Bool)
    (cerebro : Params → Option (List Callback)) (a : Arguments) where
  stopped-IsCoherent :
      (p : Params) (s : State)
      → p.initial_cash ≡ in_units unit_places a.manifest.capital.amount
      → (calls : List Callback) → handle_all p calls (init_state p) ≡ ok s
      → IsCoherent
          (in_units unit_places a.manifest.capital.amount)
          (result_of arithmetic unit_places is_positive cerebro a (ok (stop s)))
  unfolding result_of stop build_metadata init_state
  stopped-IsCoherent p s capital calls e = record {
    books = (
      s.available_cash,
      subst (λ c. Account c s.available_cash s.fill_events s.cash_events s.position_events) capital
          (handle_all-IsBooked p calls s e),
    );
    orders = handle_all-Reports p calls s e;
    counted = refl;
    status =
        status_at_stop s.order_context s.failure_code
          (handle_all-invariant p NotFailed (Step-NotFailed p) calls (init_state p) s e refl);
  }

  result-IsCoherent :
      (outcome : Result Raised State)
      → run_strategy arithmetic unit_places is_positive cerebro a ≡ outcome
      → IsCoherent
          (in_units unit_places a.manifest.capital.amount)
          (result_of arithmetic unit_places is_positive cerebro a outcome)
  unfolding run_strategy params_of result_of build_metadata
  result-IsCoherent (err raised) e = record {
    books = (in_units unit_places a.manifest.capital.amount, opened);
    orders = nothing;
    counted = refl;
    status = inr (inr (refl, refl, refl, refl));
  }
  result-IsCoherent (ok s) e =
      let (lines, _, e1) = >>=-eq-ok (strategy_lines a.strategy.kind a.strategy.parameters) _ e in
      let p = params_of arithmetic unit_places is_positive cerebro a lines in
      let (calls, _, e2) = >>=-eq-ok (or_backtrader_error (cerebro p)) _ e1 in
      let (t, handled, e3) = >>=-eq-ok (handle_all p calls (init_state p)) _ e2 in
      subst
        (λ s.
          IsCoherent (in_units unit_places a.manifest.capital.amount)
            (result_of arithmetic unit_places is_positive cerebro a (ok s)))
        (ok-injective e3) (stopped-IsCoherent p t refl calls handled)

  -- Whatever strategy and bars it is given, and whatever backtrader does, `execute` returns a coherent
  -- result for the capital of the manifest.
  pub execute-IsCoherent :
      IsCoherent
        (in_units unit_places a.manifest.capital.amount)
        (execute arithmetic unit_places is_positive cerebro a)
  unfolding execute
  execute-IsCoherent =
      result-IsCoherent (run_strategy arithmetic unit_places is_positive cerebro a) refl

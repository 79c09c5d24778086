-- ===== src/Optimization/Execute/Returned.antt =====
-- What each call of `execute_optimization` leaves in the tables where it returns.
use idx_backtest_lab.Common.{◌≡◌, sym, ap, subst, ◌∙◌, Option, none, some, String, Result, ok, err}
use idx_backtest_lab.Common.Int.{ℤ}
use idx_backtest_lab.Common.Time.{Date, Datetime}
use idx_backtest_lab.Common.Action.{give, fail, read, clean_up, >>=-returned, read-returned}
use idx_backtest_lab.Execution.{TerminalStatus}
use idx_backtest_lab.Optimization.Status.{OptimizationStatus}
use idx_backtest_lab.Optimization.Records.{OptimizationManifest}
use idx_backtest_lab.Optimization.Store as Store
use idx_backtest_lab.Optimization.Store.{
  Tables, put, get, list_candidates, transition_status, update_optimization, record_selection,
  record_holdout_result,
}
use idx_backtest_lab.Optimization.Store.Rows.{moved}
use idx_backtest_lab.Optimization.Store.Laws.{
  Transitioned, transition_status-Transitioned, put-same,
}
use idx_backtest_lab.Optimization.Services.{ServiceFault, Services}
use idx_backtest_lab.Optimization.Execute.{
  beside_tables, from_service, beside_world, from_repository, transition, run_period, asserted,
  stored,
}

module _ {W : Type 0} (p : Services W) where
  pub beside_tables-returned :
      {A : Type 0} (t t' : Tables) (o : Result String A × W) (a : A) (w' : W)
      → beside_tables p t o ≡ (ok a, (w', t'))
      → t' ≡ t
  unfolding beside_tables
  beside_tables-returned t t' (ok b, w) a w' h = cc
  beside_tables-returned t t' (err message, w) a w' h = cc

  pub from_service-returned :
      {A : Type 0} (call : W → Result String A × W) (s s' : W × Tables) (a : A)
      → from_service p call s ≡ (ok a, s')
      → s'.1 ≡ s.1
  unfolding from_service
  from_service-returned call (w, t) (w', t') a h = beside_tables-returned t t' (call w) a w' h

  pub beside_world-returned :
      (w : W) (o : Result Store.Fault OptimizationManifest × Tables) (row : OptimizationManifest)
      (s' : W × Tables)
      → beside_world p w o ≡ (ok row, s')
      → o ≡ (ok row, s'.1)
  unfolding beside_world
  beside_world-returned w (ok b, t) row (w', t') h = cc
  beside_world-returned w (err fault, t) row (w', t') h = cc

  pub transition-returned :
      (id : String) (expected next_status : OptimizationStatus) (started finished : Option Datetime)
      (code : Option String) (s s' : W × Tables) (row : OptimizationManifest)
      → transition p id expected next_status started finished code s ≡ (ok row, s')
      → Transitioned id expected next_status started finished code s.1 (ok row, s'.1)
  unfolding transition from_repository
  transition-returned id expected next_status started finished code (w, t) s' row h =
      subst (λ o. Transitioned id expected next_status started finished code t o)
        (beside_world-returned w (transition_status t id expected next_status started finished code)
          row s' h)
        (transition_status-Transitioned id expected next_status started finished code t)

  pub asserted-returned :
      (o : Option OptimizationManifest) (s s' : W × Tables) (r : OptimizationManifest)
      → asserted p o s ≡ (ok r, s')
      → (s' ≡ s) × (o ≡ some r)
  unfolding asserted fail give
  asserted-returned none s s' r h = cc
  asserted-returned (some m) s s' r h = (cc, cc)

  pub stored-returned :
      (id : String) (s s' : W × Tables) (r : OptimizationManifest)
      → stored p id s ≡ (ok r, s')
      → (s' ≡ s) × (s.1.optimizations id ≡ some r)
  unfolding stored get
  stored-returned id s s' r h =
      let (o, t, e, k) = >>=-returned (read (λ s. get s.1 id)) (asserted p) s s' r h in
      let (o_eq, t_eq) = read-returned (λ s. get s.1 id) s t o e in
      let (same, row) = asserted-returned o t s' r k in (same ∙ t_eq, sym o_eq ∙ row)

  pub run_period-returned :
      (m : OptimizationManifest) (strategy_id : String) (version : ℤ) (start_date end_date : Date)
      (s s' : W × Tables) (run : String × TerminalStatus)
      → run_period p m strategy_id version start_date end_date s ≡ (ok run, s')
      → s'.1 ≡ s.1
  unfolding run_period give
  run_period-returned m strategy_id version start_date end_date s s' run h =
      let (manifest, t, e, k) = >>=-returned (from_service p _) _ s s' run h in
      let (result, u, e', k') = >>=-returned (from_service p _) _ t s' run k in
      let last : s' ≡ u = cc in
      ap (λ x. x.1) last
      ∙ from_service-returned _ t u result e'
      ∙ from_service-returned _ s t manifest e

  pub clean_up-returned :
      {A : Type 0} (cleanup : W × Tables → W × Tables) (o : Result ServiceFault A × (W × Tables))
      (a : A) (s : W × Tables)
      → clean_up cleanup o ≡ (ok a, s)
      → o ≡ (ok a, s)
  unfolding clean_up
  clean_up-returned cleanup (err raised, t) a s h = cc
  clean_up-returned cleanup (ok b, t) a s h = h

  -- The row after `transition_status`, for a table that the call returns with.
  pub row_after :
      (id : String) (expected next_status : OptimizationStatus) (started finished : Option Datetime)
      (code : Option String) (s s' : W × Tables) (row : OptimizationManifest)
      → transition p id expected next_status started finished code s ≡ (ok row, s')
      → (m : OptimizationManifest) × (s.1.optimizations id ≡ some m)
        × (s'.1.optimizations id ≡ some (moved next_status started finished code m))
        × (s'.1.candidates ≡ s.1.candidates)
  unfolding put
  row_after id expected next_status started finished code s s' row h =
      let (m, e, _, _, row_eq, table) =
        transition-returned id expected next_status started finished code s s' row h in
      (
        m,
        e,
        ap (λ t. t.optimizations id) table ∙ put-same id row s.1 ∙ ap (λ r. some r) row_eq,
        ap (λ t. t.candidates) table,
      )

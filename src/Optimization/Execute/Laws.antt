-- ===== src/Optimization/Execute/Laws.antt =====
-- The life of the optimizations over an execution, whatever the services do.
use idx_backtest_lab.Common.{
  ℕ, Option, none, some, List, [], ◌∷◌, String, Result, ok, err, inl, inr, Bool-cases,
}
use idx_backtest_lab.Common.Int.{ℤ}
use idx_backtest_lab.Common.Time.{Date, Datetime}
use idx_backtest_lab.Common.Action.{
  give, fail, read, write, IsJourney, Within, >>=-Within, >>-Within, except_then-Within,
}
use idx_backtest_lab.Execution as Engine
use idx_backtest_lab.Execution.{TerminalStatus}
use idx_backtest_lab.Strategy.Spec.{StrategySpecV1}
use idx_backtest_lab.Optimization.Status.{OptimizationStatus, created, failed}
use idx_backtest_lab.Optimization.Records.{
  candidate_pending, same_candidate_status, OptimizationCandidate, OptimizationManifest,
}
use idx_backtest_lab.Optimization.Selection.{CandidateSelectionInput}
use idx_backtest_lab.Optimization.Store as Store
use idx_backtest_lab.Optimization.Store.{Tables, get, transition_status}
use idx_backtest_lab.Optimization.Store.Laws.{
  AllLive, AllLive-refl, AllLive-trans, transition_status-AllLive, record_selection-AllLive,
  record_holdout_result-AllLive, record_candidate_result-AllLive,
}
use idx_backtest_lab.Optimization.Services.{ServiceFault, Services, has_status, find_candidate}
use idx_backtest_lab.Optimization.Execute.{
  beside_tables, from_service, beside_world, from_repository, transition, update, run_period,
  try_fail, after_validation, after_train, execute_candidate, execute_pending,
  run_train_validation_phase, select_best, asserted, stored, run_holdout, run_selected,
  after_selection, execute_eligible, execute_found, execute_optimization,
}

module _ {W : Type 0} (p : Services W) where
  abbrev Live : W × Tables → W × Tables → Type 0
  Live s s' = AllLive s.1 s'.1

  live : IsJourney Live
  live = record {
    still = λ s. AllLive-refl s.1;
    onward = λ s t u h k. AllLive-trans s.1 t.1 u.1 h k;
  }

  beside_tables-Live :
      {A : Type 0} (w : W) (t : Tables) (o : Result String A × W)
      → Live (w, t) (beside_tables p t o).1
  unfolding beside_tables
  beside_tables-Live w t (ok a, w') = AllLive-refl t
  beside_tables-Live w t (err message, w') = AllLive-refl t

  from_service-Live :
      {A : Type 0} (call : W → Result String A × W) → Within Live (from_service p call)
  unfolding from_service
  from_service-Live call (w, t) = beside_tables-Live w t (call w)

  beside_world-Live :
      {A : Type 0} (w : W) (t : Tables) (o : Result Store.Fault A × Tables)
      → AllLive t o.1
      → AllLive t (beside_world p w o).1.1
  unfolding beside_world
  beside_world-Live w t (ok a, t') h = h
  beside_world-Live w t (err fault, t') h = h

  transition-Live :
      (id : String) (expected next_status : OptimizationStatus) (started finished : Option Datetime)
      (code : Option String)
      → Within Live (transition p id expected next_status started finished code)
  unfolding transition from_repository
  transition-Live id expected next_status started finished code (w, t) =
      beside_world-Live w t (transition_status t id expected next_status started finished code)
        (transition_status-AllLive id expected next_status started finished code t)

  update-Live :
      (change : Tables → Tables)
      → ((t : Tables) → AllLive t (change t))
      → Within Live (update p change)
  unfolding update write
  update-Live change h s = h s.1

  read-Live : {A : Type 0} (f : W × Tables → A) → Within Live (read {E = ServiceFault} f)
  unfolding read
  read-Live f s = AllLive-refl s.1

  give-Live : {A : Type 0} (a : A) → Within Live (give {E = ServiceFault} a)
  unfolding give
  give-Live a s = AllLive-refl s.1

  fail-Live : (A : Type 0) (e : ServiceFault) → Within Live (fail {A = A} e)
  unfolding fail
  fail-Live A e s = AllLive-refl s.1

  run_period-Live :
      (m : OptimizationManifest) (strategy_id : String) (version : ℤ) (start_date end_date : Date)
      → Within Live (run_period p m strategy_id version start_date end_date)
  unfolding run_period
  run_period-Live m strategy_id version start_date end_date =
      >>=-Within Live live _ _ (from_service-Live _)
        λ run. >>=-Within Live live _ _ (from_service-Live _) λ result. give-Live _

  try_fail-Live :
      (id : String) (current : OptimizationStatus) (code : String) (s : W × Tables)
      → Live s (try_fail p id current code s)
  unfolding try_fail
  try_fail-Live id current code (w, t) =
      transition_status-AllLive id current failed none (some p.failed_at) (some code) t

  after_validation-Live :
      (m : OptimizationManifest) (c : OptimizationCandidate) (spec : StrategySpecV1)
      (train_run : String) (run : String × TerminalStatus) (warnings : ℕ) (w : W)
      → Within Live (after_validation p m c spec train_run run warnings w)
  unfolding after_validation
  after_validation-Live m c spec train_run (run, Engine.failed) warnings w =
      update-Live _ λ t. record_candidate_result-AllLive t c.candidate_id _
  after_validation-Live m c spec train_run (run, Engine.completed) warnings w =
      update-Live _ λ t. record_candidate_result-AllLive t c.candidate_id _

  after_train-Live :
      (m : OptimizationManifest) (c : OptimizationCandidate) (spec : StrategySpecV1)
      (run : String × TerminalStatus)
      → Within Live (after_train p m c spec run)
  unfolding after_train
  after_train-Live m c spec (run, Engine.failed) =
      >>=-Within Live live _ _ (read-Live _)
        λ warnings. update-Live _ λ t. record_candidate_result-AllLive t c.candidate_id _
  after_train-Live m c spec (run, Engine.completed) =
      >>=-Within Live live _ _ (run_period-Live m _ _ _ _) λ validation.
        >>=-Within Live live _ _ (read-Live _) λ warnings.
          >>=-Within Live live _ _ (read-Live _)
            λ w. after_validation-Live m c spec run validation warnings w

  execute_candidate-Live :
      (m : OptimizationManifest) (c : OptimizationCandidate) → Within Live (execute_candidate p m c)
  unfolding execute_candidate
  execute_candidate-Live m c = >>=-Within Live live _ _ (from_service-Live _) λ spec.
      >>=-Within Live live _ _ (run_period-Live m _ _ _ _) λ train. after_train-Live m c spec train

  execute_pending-Live :
      (m : OptimizationManifest) (cs : List OptimizationCandidate)
      → Within Live (execute_pending p m cs)
  unfolding execute_pending
  execute_pending-Live m [] = give-Live tt
  execute_pending-Live m (c ∷ cs) =
      elim (Bool-cases (same_candidate_status c.status candidate_pending)) [
        | inl pending ↦
            rw pending
              (>>-Within Live live _ _ (execute_candidate-Live m c) (execute_pending-Live m cs))
        | inr other ↦ rw other (execute_pending-Live m cs)
      ]

  run_train_validation_phase-Live :
      (id : String) (m : OptimizationManifest) (total : ℕ)
      → Within Live (run_train_validation_phase p id m total)
  unfolding run_train_validation_phase
  run_train_validation_phase-Live id m total = >>=-Within Live live _ _ (read-Live _) λ candidates.
      except_then-Within Live live _ _ (execute_pending-Live m candidates) (try_fail-Live id _ _)

  select_best-Live :
      (id : String) (m : OptimizationManifest) (total : ℕ) → Within Live (select_best p id m total)
  unfolding select_best
  select_best-Live id m total = >>=-Within Live live _ _ (read-Live _) λ candidates.
      >>-Within Live live _ _ (update-Live _ λ t. record_selection-AllLive t id _) (give-Live _)

  asserted-Live : (o : Option OptimizationManifest) → Within Live (asserted p o)
  unfolding asserted
  asserted-Live none = fail-Live _ _
  asserted-Live (some m) = give-Live m

  stored-Live : (id : String) → Within Live (stored p id)
  unfolding stored
  stored-Live id = >>=-Within Live live _ _ (read-Live _) asserted-Live

  run_holdout-Live :
      (id : String) (m : OptimizationManifest) (strategy_id : Option String) (version : Option ℤ)
      → Within Live (run_holdout p id m strategy_id version)
  unfolding run_holdout
  run_holdout-Live id m (some strategy_id) (some version) =
      >>=-Within Live live _ _
        (except_then-Within Live live _ _ (run_period-Live m _ _ _ _) (try_fail-Live id _ _))
        λ run. >>=-Within Live live _ _ (read-Live _) λ objective.
          >>-Within Live live _ _ (update-Live _ λ t. record_holdout_result-AllLive t id _)
            (>>-Within Live live _ _ (transition-Live id _ _ _ _ _) (stored-Live id))
  run_holdout-Live id m none version = fail-Live _ _
  run_holdout-Live id m (some strategy_id) none = fail-Live _ _

  run_selected-Live :
      (id : String) (m : OptimizationManifest) (c : Option OptimizationCandidate)
      → Within Live (run_selected p id m c)
  unfolding run_selected
  run_selected-Live id m none = fail-Live _ _
  run_selected-Live id m (some c) = run_holdout-Live id m c.strategy_id c.strategy_version

  after_selection-Live :
      (id : String) (m : OptimizationManifest)
      (selected : List OptimizationCandidate × Option CandidateSelectionInput)
      → Within Live (after_selection p id m selected)
  unfolding after_selection
  after_selection-Live id m (candidates, none) =
      >>-Within Live live _ _ (transition-Live id _ _ _ _ _) (stored-Live id)
  after_selection-Live id m (candidates, some chosen) =
      >>-Within Live live _ _ (transition-Live id _ _ _ _ _)
        (run_selected-Live id m (find_candidate chosen.candidate_id candidates))

  execute_eligible-Live :
      (id : String) (m : OptimizationManifest) → Within Live (execute_eligible p id m)
  unfolding execute_eligible
  execute_eligible-Live id m = >>-Within Live live _ _ (transition-Live id _ _ _ _ _) (
      >>-Within Live live _ _ (transition-Live id _ _ _ _ _) (
        >>-Within Live live _ _ (run_train_validation_phase-Live id m _) (
          >>-Within Live live _ _ (transition-Live id _ _ _ _ _)
            (>>=-Within Live live _ _ (select_best-Live id m _) (after_selection-Live id m)))))

  execute_found-Live :
      (id : String) (o : Option OptimizationManifest) → Within Live (execute_found p id o)
  unfolding execute_found
  execute_found-Live id none = fail-Live _ _
  execute_found-Live id (some m) = elim (Bool-cases (has_status m.status created)) [
    | inl eligible ↦ rw eligible (execute_eligible-Live id m)
    | inr other ↦ rw other (fail-Live _ _)
  ]

  -- Whatever the services return, raise or do to their own state, an execution takes no optimization
  -- off its life: the status of each moves along allowed transitions only, and its identifier, checksum
  -- and canonical text stay as they were created.
  pub execute_optimization-AllLive :
      (id : String) (w : W) (t : Tables) → AllLive t (execute_optimization p id (w, t)).1.1
  unfolding execute_optimization
  execute_optimization-AllLive id w t =
      >>=-Within Live live _ _ (read-Live _) (execute_found-Live id) (w, t)

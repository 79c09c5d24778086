-- ===== src/Optimization/Execute/Outcome.antt =====
-- What an execution that returns leaves in the tables.
use idx_backtest_lab.Common.{
  ℕ, ◌+◌, ◌≡◌, refl, sym, ap, subst, ◌∙◌, ◌⊎◌, inl, inr, Option, none, some, List, String, ok, err,
  Bool-cases,
}
use idx_backtest_lab.Common.Int.{ℤ}
use idx_backtest_lab.Common.Action.{
  ◌>>◌, give, fail, read, write, except_then, >>=-returned, >>-returned, read-returned,
}
use idx_backtest_lab.Run.Store.{coalesce}
use idx_backtest_lab.Optimization.Status.{
  created, validating, running_train_validation, selecting, running_holdout, completed, failed,
}
use idx_backtest_lab.Optimization.Records.{OptimizationCandidate, OptimizationManifest}
use idx_backtest_lab.Optimization.Selection.{
  CandidateSelectionInput, select_candidate, IsBest, select_candidate-IsBest,
}
use idx_backtest_lab.Optimization.Store.{
  Tables, get, list_candidates, update_optimization, record_selection, record_holdout_result,
}
use idx_backtest_lab.Optimization.Store.Rows.{moved, with_selection, HoldoutResult, with_holdout}
use idx_backtest_lab.Optimization.Store.Laws.{
  update_optimization-row, update_optimization-same, same_ordinal,
}
use idx_backtest_lab.Optimization.Services.{
  optimization_not_eligible, Services, has_status, find_candidate, selection_inputs,
}
use idx_backtest_lab.Optimization.Execute.{
  run_train_validation_phase, transition, update, run_period, try_fail, selection, select_best,
  stored, run_holdout, holdout_objective, run_selected, after_selection, execute_eligible,
  execute_found, execute_optimization,
}
use idx_backtest_lab.Optimization.Execute.Returned.{
  stored-returned, run_period-returned, clean_up-returned, row_after,
}

module _ {W : Type 0} (p : Services W) where
  -- What the holdout run leaves of a stored optimization.
  abbrev Held :
      String → OptimizationManifest → W × Tables → OptimizationManifest → W × Tables → Type 0
  Held id m s r s' =
      (s'.1.optimizations id ≡ some r)
      × (r.status ≡ completed)
      × (r.selected_candidate_id ≡ m.selected_candidate_id)
      × ((run : String) × (r.holdout_run_id ≡ some run))
      × (s'.1.candidates ≡ s.1.candidates)

  finish_holdout :
      (id : String) (m : OptimizationManifest) (h : HoldoutResult) (s s' : W × Tables)
      (r : OptimizationManifest)
      → s.1.optimizations id ≡ some m
      → (update p (λ t. record_holdout_result t id h)
            >> (transition p id running_holdout completed none (some p.finished_at) none
                >> stored p id))
          s
        ≡ (ok r, s')
      → Held id m s r s'
  unfolding update write record_holdout_result with_holdout moved update_optimization
  finish_holdout id m h s s' r row e =
      let (_, t, wrote, e1) =
        >>-returned (update p (λ t. record_holdout_result t id h)) _ s s' r e in
      let (moved_row, u, moved_to, e2) =
        >>-returned (transition p id running_holdout completed none (some p.finished_at) none)
          (stored p id) t s' r e1 in
      let (m', before, after, kept) = row_after p id _ _ _ _ _ t u moved_row moved_to in
      let (same, found) = stored-returned p id u s' r e2 in
      let table : t.1 ≡ update_optimization id (with_holdout h) s.1 = cc in
      let (old, old_row, m'_eq) =
        update_optimization-row id (with_holdout h) s.1 m'
          (subst (λ x. x.optimizations id ≡ some m') table before) in
      let old_eq : old ≡ m = cc in
      let r_eq : r ≡ moved completed none (some p.finished_at) none (with_holdout h m) = cc in
      (
        rw same found,
        ap (λ x. x.status) r_eq,
        ap (λ x. x.selected_candidate_id) r_eq,
        (h.holdout_run_id, ap (λ x. x.holdout_run_id) r_eq),
        ap (λ x. x.1.candidates) same ∙ kept ∙ ap (λ x. x.candidates) table,
      )

  run_holdout-returned :
      (id : String) (m stored_row : OptimizationManifest) (strategy_id : Option String)
      (version : Option ℤ) (s s' : W × Tables) (r : OptimizationManifest)
      → s.1.optimizations id ≡ some stored_row
      → run_holdout p id m strategy_id version s ≡ (ok r, s')
      → Held id stored_row s r s'
  unfolding run_holdout except_then fail
  run_holdout-returned id m old (some strategy_id) (some version) s s' r row e =
      let period = run_period p m strategy_id version m.holdout_start m.holdout_end in
      let (run, t, ran, e1) =
        >>=-returned (except_then period (try_fail p id running_holdout "unexpected_error")) _ s s'
          r e in
      let unchanged =
        run_period-returned p m strategy_id version m.holdout_start m.holdout_end s t run (
          clean_up-returned p (try_fail p id running_holdout "unexpected_error") (period s) run t
            ran) in
      let (objective, u, was_read, e2) =
        >>=-returned (read (λ s. holdout_objective p run.0 run.1 m.objective_metric_key s.0)) _ t s'
          r e1 in
      let (_, same) = read-returned _ t u objective was_read in
      let tables : u.1 ≡ s.1 = ap (λ x. x.1) same ∙ unchanged in
      let (found, done, chosen, held, kept) =
        finish_holdout id old _ u s' r (subst (λ x. x.optimizations id ≡ some old) (sym tables) row)
          e2 in
      (found, done, chosen, held, kept ∙ ap (λ x. x.candidates) tables)
  run_holdout-returned id m old none version s s' r row e = cc
  run_holdout-returned id m old (some strategy_id) none s s' r row e = cc

  run_selected-returned :
      (id : String) (m stored_row : OptimizationManifest) (c : Option OptimizationCandidate)
      (s s' : W × Tables) (r : OptimizationManifest)
      → s.1.optimizations id ≡ some stored_row
      → run_selected p id m c s ≡ (ok r, s')
      → Held id stored_row s r s'
  unfolding run_selected fail
  run_selected-returned id m old none s s' r row e = cc
  run_selected-returned id m old (some c) s s' r row e =
      run_holdout-returned id m old c.strategy_id c.strategy_version s s' r row e

  -- How an execution that returns `r` has chosen among the candidates.
  abbrev pub Concluded : List OptimizationCandidate → OptimizationManifest → Type 0
  Concluded candidates r =
      ((select_candidate (selection_inputs candidates) ≡ none)
        × (r.status ≡ failed)
        × (r.failure_code ≡ some "no_eligible_candidate"))
      ⊎ ((c : CandidateSelectionInput) × IsBest (selection_inputs candidates) c
          × (r.status ≡ completed)
          × (r.selected_candidate_id ≡ some c.candidate_id)
          × ((run : String) × (r.holdout_run_id ≡ some run)))

  after_selection-returned :
      (id : String) (m old : OptimizationManifest) (candidates : List OptimizationCandidate)
      (chosen : Option CandidateSelectionInput) (s s' : W × Tables) (r : OptimizationManifest)
      → select_candidate (selection_inputs candidates) ≡ chosen
      → s.1.optimizations id ≡ some (with_selection (selection p m candidates chosen) old)
      → after_selection p id m (candidates, chosen) s ≡ (ok r, s')
      → (s'.1.optimizations id ≡ some r)
        × Concluded candidates r
        × (s'.1.candidates ≡ s.1.candidates)
  unfolding after_selection moved with_selection selection coalesce
  after_selection-returned id m old candidates none s s' r choice row e =
      let (moved_row, t, moved_to, e1) =
        >>-returned
          (transition p id selecting failed none (some p.finished_at)
            (some "no_eligible_candidate"))
          (stored p id) s s' r e in
      let (before_row, _, after, kept) = row_after p id _ _ _ _ _ s t moved_row moved_to in
      let (same, found) = stored-returned p id t s' r e1 in
      let r_eq : r
          ≡ moved failed none (some p.finished_at) (some "no_eligible_candidate") before_row =
        cc in
      (
        rw same found,
        inl (choice, ap (λ x. x.status) r_eq, ap (λ x. x.failure_code) r_eq),
        ap (λ x. x.1.candidates) same ∙ kept,
      )
  after_selection-returned id m old candidates (some chosen) s s' r choice row e =
      let (moved_row, t, moved_to, e1) =
        >>-returned (transition p id selecting running_holdout none none none)
          (run_selected p id m (find_candidate chosen.candidate_id candidates)) s s' r e in
      let (before_row, before, after, kept) = row_after p id _ _ _ _ _ s t moved_row moved_to in
      let (found, done, picked, held, kept_too) =
        run_selected-returned id m (moved running_holdout none none none before_row)
          (find_candidate chosen.candidate_id candidates) t s' r after e1 in
      let before_eq : before_row ≡ with_selection (selection p m candidates (some chosen)) old =
        cc in
      (
        found,
        inr (
          chosen,
          select_candidate-IsBest (selection_inputs candidates) chosen choice,
          done,
          picked ∙ ap (λ x. x.selected_candidate_id) before_eq,
          held,
        ),
        kept_too ∙ kept,
      )

  select_best-returned :
      (id : String) (m : OptimizationManifest) (total : ℕ) (s s' : W × Tables)
      (selected : List OptimizationCandidate × Option CandidateSelectionInput)
      → select_best p id m total s ≡ (ok selected, s')
      → (selected.0 ≡ (list_candidates s.1 id total 0).0)
        × (select_candidate (selection_inputs selected.0) ≡ selected.1)
        × (s'.1 ≡ record_selection s.1 id (selection p m selected.0 selected.1))
  unfolding select_best update write give
  select_best-returned id m total s s' selected e =
      let listed : W × Tables → List OptimizationCandidate =
        λ s. (list_candidates s.1 id total 0).0 in
      let (candidates, t, was_read, e1) = >>=-returned (read listed) _ s s' selected e in
      let (listed_eq, t_eq) = read-returned listed s t candidates was_read in
      let chosen = select_candidate (selection_inputs candidates) in
      let (_, u, wrote, e2) =
        >>-returned (update p (λ t. record_selection t id (selection p m candidates chosen))) _ t s'
          selected e1 in
      let selected_eq : selected ≡ (candidates, chosen) = cc in
      let s'_eq : s' ≡ (t.0, record_selection t.1 id (selection p m candidates chosen)) = cc in
      (
        ap (λ x. x.0) selected_eq ∙ listed_eq,
        rw selected_eq refl,
        rw (selected_eq, s'_eq, t_eq) refl,
      )

  list_candidates-of :
      (t u : Tables) (id : String) (limit offset : ℕ)
      → t.candidates ≡ u.candidates
      → list_candidates t id limit offset ≡ list_candidates u id limit offset
  unfolding list_candidates
  list_candidates-of t u id limit offset e = rw e refl

  execute_eligible-returned :
      (id : String) (m : OptimizationManifest) (s s' : W × Tables) (r : OptimizationManifest)
      → execute_eligible p id m s ≡ (ok r, s')
      → (s'.1.optimizations id ≡ some r)
        × Concluded (list_candidates s'.1 id (m.candidate_count + m.rejected_count) 0).0 r
  unfolding execute_eligible record_selection update_optimization
  execute_eligible-returned id m s s' r e =
      let total = m.candidate_count + m.rejected_count in
      let (_, s1, _, e1) =
        >>-returned (transition p id created validating _ none none) _ s s' r e in
      let (_, s2, _, e2) =
        >>-returned (transition p id validating running_train_validation none none none) _ s1 s' r
          e1 in
      let (_, s3, _, e3) = >>-returned (run_train_validation_phase p id m total) _ s2 s' r e2 in
      let (row, s4, moved_to, e4) =
        >>-returned (transition p id running_train_validation selecting none none none) _ s3 s' r
          e3 in
      let (before, _, after, _) = row_after p id _ _ _ _ _ s3 s4 row moved_to in
      let (selected, s5, chosen, e5) = >>=-returned (select_best p id m total) _ s4 s' r e4 in
      let (listed, choice, tables) = select_best-returned id m total s4 s5 selected chosen in
      let old = moved selecting none none none before in
      let sel = selection p m selected.0 selected.1 in
      let stored_row : s5.1.optimizations id ≡ some (with_selection sel old) =
        ap (λ t. t.optimizations id) tables
        ∙ update_optimization-same id (with_selection sel) s4.1 old after in
      let (found, concluded, kept) =
        after_selection-returned id m old selected.0 selected.1 s5 s' r choice stored_row e5 in
      let rows : s'.1.candidates ≡ s4.1.candidates = kept ∙ ap (λ t. t.candidates) tables in
      let listed_now : selected.0 ≡ (list_candidates s'.1 id total 0).0 =
        listed ∙ ap (λ x. x.0) (list_candidates-of s4.1 s'.1 id total 0 (sym rows)) in
      (found, subst (λ cs. Concluded cs r) listed_now concluded)

  execute_found-returned :
      (id : String) (o : Option OptimizationManifest) (s s' : W × Tables) (r : OptimizationManifest)
      → execute_found p id o s ≡ (ok r, s')
      → (m : OptimizationManifest) × (o ≡ some m)
        × (m.status ≡ created)
        × (s'.1.optimizations id ≡ some r)
        × Concluded (list_candidates s'.1 id (m.candidate_count + m.rejected_count) 0).0 r
  unfolding execute_found fail has_status
  execute_found-returned id none s s' r e = cc
  execute_found-returned id (some m) s s' r e = elim (Bool-cases (has_status m.status created)) [
    | inl eligible ↦
        let same : execute_found p id (some m) s ≡ execute_eligible p id m s = rw eligible refl in
        let (found, concluded) = execute_eligible-returned id m s s' r (sym same ∙ e) in
        (m, refl, same_ordinal m.status created eligible, found, concluded)
    | inr other ↦
        let same : execute_found p id (some m) s ≡ (err (optimization_not_eligible m.status), s) =
          rw other refl in
        cc
  ]

  -- An execution that returns was one of a created optimization, it returns the row that it leaves in
  -- the table, and that row agrees with the candidates in the table: it is completed, with the best
  -- candidate by the objective among the completed ones and with a holdout run; or it has failed, with
  -- the code for it, and no candidate was eligible.
  pub execute_optimization-Concluded :
      (id : String) (w : W) (t : Tables) (s : W × Tables) (r : OptimizationManifest)
      → execute_optimization p id (w, t) ≡ (ok r, s)
      → (m : OptimizationManifest) × (t.optimizations id ≡ some m)
        × (m.status ≡ created)
        × (s.1.optimizations id ≡ some r)
        × Concluded (list_candidates s.1 id (m.candidate_count + m.rejected_count) 0).0 r
  unfolding execute_optimization get
  execute_optimization-Concluded id w t s r e =
      let (o, u, was_read, e1) =
        >>=-returned (read (λ s. get s.1 id)) (execute_found p id) (w, t) s r e in
      let (o_eq, u_eq) = read-returned (λ s. get s.1 id) (w, t) u o was_read in
      let (m, found, fresh, row, concluded) = execute_found-returned id o u s r e1 in
      (m, sym o_eq ∙ found, fresh, row, concluded)

-- ===== src/Run/Execute/Laws.antt =====
-- How an execution leaves its run.
use idx_backtest_lab.Common.{
  ℕ, ◌≡◌, ◌≤◌, refl, ap, sym, Bool, ◌∙◌, subst, true, false, Option, none, some, List, [], ◌∷◌,
  String, Result, ok, err, arith, eq_iff, ltb, ◌⊎◌, err-injective, >>=-eq-err, inl, inr,
}
use idx_backtest_lab.Common.Time.{Datetime}
use idx_backtest_lab.Execution as Engine
use idx_backtest_lab.Execution.{ExecutionResult, TerminalStatus}
use idx_backtest_lab.Market.Bar.{NormalizedBar}
use idx_backtest_lab.Strategy.Spec.{StrategySpecV1}
use idx_backtest_lab.Common.Json.{Fields}
use idx_backtest_lab.Manifest.Classes as Manifest
use idx_backtest_lab.Manifest.Parse.Typed.{has_types}
use idx_backtest_lab.Manifest.Document.{parse_run_manifest}
use idx_backtest_lab.Manifest.Classes.{RunManifestV1}
use idx_backtest_lab.Run.Record.{
  BacktestRunStatus, created, running, completed, failed, same_status, is_transition_allowed,
  RunManifest, check_run, validate_temporal_fields, is_naive,
}
use idx_backtest_lab.Run.Store.{Runs, Outcome, put, changed, get, row_to_run, transition_status}
use idx_backtest_lab.Run.Store.Laws.{transition_status-ok, check_run-changed, check_run-times}
use idx_backtest_lab.Run.Execute.{
  loaded, known_strategy, from_manifest, ServiceFault, strategy_spec_not_found,
  unsupported_multi_instrument, snapshot_refused, empty_bar_snapshot, engine_execution_error,
  artifact_raised, or_artifact_raised, then_artifact, Ports, from_repository, move_then, fail_run,
  record_result, finish_run, run_engine, with_bars, with_instruments, prepare, execute_prepared,
  execute_found, execute_backtest_run,
}

-- The status that the service gives a run with the result of the engine.
abbrev pub status_of : TerminalStatus → BacktestRunStatus
status_of Engine.completed = completed
status_of Engine.failed = failed

abbrev FailedWith : String → RunManifest → Type 0
FailedWith code run = (run.status ≡ failed) × (run.failure_code ≡ some code)

-- How the row of the run, which was `before`, stands when the service returns or raises.
abbrev pub Agrees :
    (before : RunManifest) → Result ServiceFault ExecutionResult → RunManifest → Type 0
Agrees before (ok result) after = after.status ≡ status_of result.terminal_status
Agrees before (err unsupported_multi_instrument) after =
    FailedWith "unsupported_multi_instrument" after
Agrees before (err (snapshot_refused message)) after =
    FailedWith "unresolved_instrument_mapping" after
Agrees before (err empty_bar_snapshot) after = FailedWith "empty_bar_snapshot" after
Agrees before (err (engine_execution_error message)) after = FailedWith "engine_error" after
Agrees before (err (artifact_raised message)) after =
    (after.status ≡ completed) ⊎ (after.status ≡ failed)
Agrees before (err other) after = after ≡ before

-- A run that is not started, or that is at an end.
abbrev pub IsSettled : BacktestRunStatus → Type 0
IsSettled status = (status ≡ created) ⊎ (status ≡ completed) ⊎ (status ≡ failed)

-- An exception that leaves the row as it was.
abbrev Quiet : ServiceFault → Type 0
Quiet e = (run : RunManifest) → Agrees run (err e) run

-- Every value in the configuration has the type of its key in a manifest, as in the dictionaries
-- that the program writes.
abbrev pub is_typed : Option Fields → Bool
is_typed none = true
is_typed (some fields) = has_types fields

-- A run that is stored as the program stores a new one, and a clock that runs forward from its
-- creation on.
pub record IsReady (p : Ports) (run : RunManifest) : Type 0 where
  pub valid : check_run p.is_json run ≡ ok tt
  pub configured : is_typed (p.json_loads run.configuration_json) ≡ true
  pub is_created : run.status ≡ created
  pub not_started : run.started_at_utc ≡ none
  pub not_finished : run.finished_at_utc ≡ none
  pub first_aware : p.first_clock.is_aware ≡ true
  pub last_aware : p.last_clock.is_aware ≡ true
  pub after_creation : run.created_at_utc.instant ≤ p.first_clock.instant
  pub forward : p.first_clock.instant ≤ p.last_clock.instant

put-same : (id : String) (run : RunManifest) (runs : Runs) → put id run runs id ≡ some run
unfolding put
put-same id run runs = rw ((eq_iff id id).1 refl) refl

module _ (p : Ports) (id : String) where
  move_then-ok :
      (runs : Runs) (expected next : BacktestRunStatus) (started finished : Option Datetime)
      (code : Option String) (r : Result ServiceFault ExecutionResult) (run row : RunManifest)
      → transition_status p.is_json runs id expected next started finished code
        ≡ (ok row, put id row runs)
      → move_then p id runs expected next started finished code r ≡ (r, put id row runs)
  unfolding move_then
  move_then-ok runs expected next started finished code r run row e = rw e refl

  loaded-Quiet : (fields : Option Fields) (e : ServiceFault) → loaded p id fields ≡ err e → Quiet e
  unfolding loaded
  loaded-Quiet none e h = subst (λ e. Quiet e) (err-injective h) (λ run. refl)
  loaded-Quiet (some fields) e h = from (parse_run_manifest p.codec fields) h
    where
      from : (m : Result Manifest.Fault RunManifestV1) → from_manifest m ≡ err e → Quiet e
      from (ok m) h = cc
      from (err f) h = subst (λ e. Quiet e) (err-injective h) (λ run. refl)

  known_strategy-Quiet :
      (checksum : String) (s : Option StrategySpecV1) (e : ServiceFault)
      → known_strategy p id checksum s ≡ err e
      → Quiet e
  unfolding known_strategy
  known_strategy-Quiet checksum none e h = subst (λ e. Quiet e) (err-injective h) (λ run. refl)
  known_strategy-Quiet checksum (some s) e h =
      let f : strategy_spec_not_found ≡ e = ground arith in subst (λ e. Quiet e) f (λ run. refl)

  prepare-Quiet : (run : RunManifest) (e : ServiceFault) → prepare p id run ≡ err e → Quiet e
  unfolding prepare
  prepare-Quiet run e h =
      elim (>>=-eq-err (loaded p id (p.json_loads run.configuration_json)) _ h) [
        | inl first ↦ loaded-Quiet _ e first
        | inr (m, _, rest) ↦
            elim (>>=-eq-err (known_strategy p id m.strategy_ref.checksum _) _ rest) [
              | inl second ↦
                  known_strategy-Quiet m.strategy_ref.checksum
                    (p.get_strategy m.strategy_ref.strategy_id m.strategy_ref.version) e second
              | inr (s, _, never) ↦ cc
            ]
      ]

  module _ (runs : Runs) (run : RunManifest) (stored : runs id ≡ some run)
      (ready : IsReady p run) where
    -- The row of the run agrees with what the service returns or raises.
    abbrev Ends : Outcome ServiceFault ExecutionResult → Type 0
    Ends o = (after : RunManifest) × (o.1 id ≡ some after) × Agrees run o.0 after

    abbrev failed_row : String → RunManifest
    failed_row code = changed failed none (some p.first_clock) (some code) run

    abbrev running_row : RunManifest
    running_row = changed running (some p.first_clock) none none run

    times : validate_temporal_fields run ≡ ok tt
    times = check_run-times p.is_json run ready.valid

    created_aware : run.created_at_utc.is_aware ≡ true
    unfolding validate_temporal_fields
    created_aware = let valid = times in ground arith

    not_before : (a b : ℕ) → a ≤ b → ltb b a ≡ false
    not_before a b h = ground arith

    failed_row-times : (code : String) → validate_temporal_fields (failed_row code) ≡ ok tt
    unfolding changed validate_temporal_fields
    failed_row-times code = rw (created_aware, ready.not_started) refl

    running_row-times : validate_temporal_fields running_row ≡ ok tt
    unfolding changed validate_temporal_fields
    running_row-times =
        rw (created_aware, ready.not_finished, not_before _ _ ready.after_creation) refl

    ended_row-times :
        (next : BacktestRunStatus) (code : Option String)
        → validate_temporal_fields (changed next none (some p.last_clock) code running_row) ≡ ok tt
    unfolding changed validate_temporal_fields
    ended_row-times next code =
        rw (created_aware, not_before _ _ ready.after_creation, not_before _ _ ready.forward) refl

    running_row-valid : check_run p.is_json running_row ≡ ok tt
    running_row-valid =
        check_run-changed p.is_json running (some p.first_clock) none none run ready.valid
          running_row-times

    -- A failure before the engine's turn.
    fail_created :
        (code : String) (r : Result ServiceFault ExecutionResult)
        → Agrees run r (failed_row code)
        → Ends (fail_run p id runs created p.first_clock (some code) r)
    unfolding fail_run is_naive is_transition_allowed
    fail_created code r agrees =
        let moved =
          move_then-ok runs created failed none (some p.first_clock) (some code) r run
            (failed_row code)
            (transition_status-ok p.is_json runs id created failed none (some p.first_clock)
              (some code) run stored ready.is_created refl (rw ready.first_aware refl)
              (check_run-changed p.is_json failed none (some p.first_clock) (some code) run
                ready.valid (failed_row-times code))) in
        subst (λ o. Ends o) (sym moved)
          (failed_row code, put-same id (failed_row code) runs, agrees)

    started : Runs
    started = put id running_row runs

    -- The end of a run that the engine had.
    end_running :
        (next : BacktestRunStatus) (code : Option String) (r : Result ServiceFault ExecutionResult)
        → is_transition_allowed running next ≡ true
        → Agrees run r (changed next none (some p.last_clock) code running_row)
        → Ends (move_then p id started running next none (some p.last_clock) code r)
    unfolding is_naive changed started
    end_running next code r allowed agrees =
        let row = changed next none (some p.last_clock) code running_row in
        let moved =
          move_then-ok started running next none (some p.last_clock) code r running_row row (
            transition_status-ok p.is_json started id running next none (some p.last_clock) code
              running_row (put-same id running_row runs) refl allowed (rw ready.last_aware refl)
              (check_run-changed p.is_json next none (some p.last_clock) code running_row
                running_row-valid (ended_row-times next code))) in
        subst (λ o. Ends o) (sym moved) (row, put-same id row started, agrees)

    record_result-Ends :
        (result : ExecutionResult) (t : TerminalStatus)
        → result.terminal_status ≡ t
        → Ends (record_result p id started result t)
    unfolding record_result fail_run changed is_transition_allowed
    record_result-Ends result Engine.completed e =
        end_running completed none (ok result) refl (sym (ap status_of e))
    record_result-Ends result Engine.failed e =
        end_running failed result.failure_code (ok result) refl (sym (ap status_of e))

    then_artifact-Ends :
        (artifact : ExecutionResult → Result String (Unit {0}))
        (o : Outcome ServiceFault ExecutionResult)
        → Ends o
        → Ends (then_artifact p id artifact o)
    unfolding then_artifact or_artifact_raised
    then_artifact-Ends artifact (err e, t) h = h
    then_artifact-Ends artifact (ok result, t) (after, stored_after, status) =
        (after, stored_after, agrees (artifact result))
      where
        either : (t : TerminalStatus) → (status_of t ≡ completed) ⊎ (status_of t ≡ failed)
        either Engine.completed = inl refl
        either Engine.failed = inr refl

        agrees :
            (written : Result String (Unit {0}))
            → Agrees run (or_artifact_raised p id result written) after
        agrees (ok u) = status
        agrees (err message) = rw status (either result.terminal_status)

    finish_run-Ends :
        (artifact : ExecutionResult → Result String (Unit {0}))
        (outcome : Result String ExecutionResult)
        → Ends (finish_run p id started artifact outcome)
    unfolding finish_run fail_run changed is_transition_allowed
    finish_run-Ends artifact (err message) =
        end_running failed (some "engine_error") (err (engine_execution_error message)) refl
          (refl, refl)
    finish_run-Ends artifact (ok result) =
        then_artifact-Ends artifact (record_result p id started result result.terminal_status)
          (record_result-Ends result result.terminal_status refl)

    with_bars-Ends :
        (execute : List NormalizedBar → Result String ExecutionResult)
        (artifact : List NormalizedBar → ExecutionResult → Result String (Unit {0}))
        (bars : Result String (List NormalizedBar))
        → Ends (with_bars p id runs execute artifact bars)
    unfolding with_bars changed run_engine is_naive is_transition_allowed put started
    with_bars-Ends execute artifact (err message) =
        fail_created "unresolved_instrument_mapping" (err (snapshot_refused message)) (refl, refl)
    with_bars-Ends execute artifact (ok []) =
        fail_created "empty_bar_snapshot" (err empty_bar_snapshot) (refl, refl)
    with_bars-Ends execute artifact (ok (bar ∷ bars)) =
        let moved =
          transition_status-ok p.is_json runs id created running (some p.first_clock) none none run
            stored ready.is_created refl (rw ready.first_aware refl) running_row-valid in
        subst
          (λ o. Ends (
            run_engine p id (from_repository o.0) o.1 (artifact (bar ∷ bars))
              (execute (bar ∷ bars))))
          (sym moved) (finish_run-Ends (artifact (bar ∷ bars)) (execute (bar ∷ bars)))

    with_instruments-Ends :
        (m : RunManifestV1) (s : StrategySpecV1) (instruments : List String)
        → Ends (with_instruments p id runs run m s instruments)
    unfolding with_instruments changed
    with_instruments-Ends m s (instrument ∷ []) = with_bars-Ends _ _ _
    with_instruments-Ends m s [] =
        fail_created "unsupported_multi_instrument" (err unsupported_multi_instrument) (refl, refl)
    with_instruments-Ends m s (x ∷ y ∷ rest) =
        fail_created "unsupported_multi_instrument" (err unsupported_multi_instrument) (refl, refl)

    execute_prepared-Ends :
        (q : Result ServiceFault (RunManifestV1 × StrategySpecV1))
        → prepare p id run ≡ q
        → Ends (execute_prepared p id runs run q)
    unfolding execute_prepared
    execute_prepared-Ends (err e) h = (run, stored, prepare-Quiet run e h run)
    execute_prepared-Ends (ok (m, s)) h = with_instruments-Ends m s m.universe.instrument_ids

    -- Executing a newly created run, with a manifest's types in its configuration and a clock that
    -- runs forward, leaves its row in agreement with what the service returns or raises. With a
    -- result the run is completed or failed as the result says. With more than one instrument,
    -- refused or missing bars or an exception of the engine it is failed with the code of that
    -- case. Where the artifact is refused after the engine's result, the run stays completed or
    -- failed. With any other exception the row is unchanged.
    pub execute_backtest_run-Agrees :
        (after : RunManifest) × ((execute_backtest_run p id runs).1 id ≡ some after)
        × Agrees run (execute_backtest_run p id runs).0 after
    unfolding execute_backtest_run execute_found get row_to_run same_status
    execute_backtest_run-Agrees =
        let found : get p.is_json runs id ≡ ok (some run) = rw (stored, ready.valid) refl in
        let same : same_status run.status created ≡ true = rw ready.is_created refl in
        let here : execute_backtest_run p id runs
            ≡ execute_prepared p id runs run (prepare p id run) =
          rw (stored, ready.valid, same) refl in
        subst (λ o. Ends o) (sym here) (execute_prepared-Ends (prepare p id run) refl)

    Agrees-IsSettled :
        (r : Result ServiceFault ExecutionResult) (after : RunManifest)
        → Agrees run r after
        → IsSettled after.status
    Agrees-IsSettled (ok result) after h = rw h (ended result.terminal_status)
      where
        ended : (t : TerminalStatus) → IsSettled (status_of t)
        ended Engine.completed = inr (inl refl)
        ended Engine.failed = inr (inr refl)
    Agrees-IsSettled (err unsupported_multi_instrument) after h = inr (inr h.0)
    Agrees-IsSettled (err (snapshot_refused message)) after h = inr (inr h.0)
    Agrees-IsSettled (err empty_bar_snapshot) after h = inr (inr h.0)
    Agrees-IsSettled (err (engine_execution_error message)) after h = inr (inr h.0)
    Agrees-IsSettled (err (artifact_raised message)) after h = inr h
    Agrees-IsSettled (err other) after h = inl (ap (λ r. r.status) h ∙ ready.is_created)

    -- Executing a newly created run, with a manifest's types in its configuration and a clock that
    -- runs forward, never leaves it `RUNNING` or cancelled: whatever the repositories, the engine
    -- and the artifact writer do, the run is then still created, or completed, or failed.
    pub execute_backtest_run-IsSettled :
        (after : RunManifest) × ((execute_backtest_run p id runs).1 id ≡ some after)
        × IsSettled after.status
    execute_backtest_run-IsSettled =
        let (after, e, agrees) = execute_backtest_run-Agrees in
        (after, e, Agrees-IsSettled (execute_backtest_run p id runs).0 after agrees)

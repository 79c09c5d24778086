-- ===== src/Run/Store/Laws.antt =====
-- `transition_status` is a compare-and-swap along the allowed transitions.
use idx_backtest_lab.Common.{
  ℕ, zero, suc, ◌∙◌, ◌≡◌, refl, ap, sym, subst, Bool, true, false, ◌⊎◌, inl, inr, Option, none,
  some, String, ok, >>-eq-ok, arith, eq_iff, Bool-cases, ◌||◌,
}
use idx_backtest_lab.Common.Text.{eqs}
use idx_backtest_lab.Common.Time.{Datetime}
use idx_backtest_lab.Run.Record.{
  BacktestRunStatus, created, running, completed, failed, cancelled, ordinal, same_status,
  is_transition_allowed, RunManifest, check_run, validate_identity, validate_status_and_payload,
  validate_temporal_fields, validate_manifest_reference, is_naive,
}
use idx_backtest_lab.Run.Store.{
  coalesce, in_utc, Runs, put, changed, row_to_run, update_row, transition_status,
}

-- The status at a position.
abbrev status_at : ℕ → BacktestRunStatus
status_at zero = created
status_at (suc zero) = running
status_at (suc (suc zero)) = completed
status_at (suc (suc (suc zero))) = failed
status_at (suc (suc (suc (suc n)))) = cancelled

status_at-ordinal : (s : BacktestRunStatus) → status_at (ordinal s) ≡ s
unfolding ordinal
status_at-ordinal created = refl
status_at-ordinal running = refl
status_at-ordinal completed = refl
status_at-ordinal failed = refl
status_at-ordinal cancelled = refl

same_status_lem : (s t : BacktestRunStatus) → same_status s t ≡ true → s ≡ t
unfolding same_status
same_status_lem s t h =
    let same : ordinal s ≡ ordinal t = ground arith in
    sym (status_at-ordinal s) ∙ ap status_at same ∙ status_at-ordinal t

-- A time that is given takes the place of the old one, as UTC; without one the old one stays.
abbrev pub TimeSet : (given old new : Option Datetime) → Type 0
TimeSet none old new = new ≡ old
TimeSet (some t) old new = new ≡ some (record { instant = t.instant; is_aware = true })

abbrev pub CodeSet : (given old new : Option String) → Type 0
CodeSet none old new = new ≡ old
CodeSet (some code) old new = new ≡ some code

-- A row of which only the status, the times and the code are new.
pub record IsMove (next : BacktestRunStatus) (started finished : Option Datetime)
    (code : Option String) (run row : RunManifest) : Type 0 where
  pub status : row.status ≡ next
  pub start_set : TimeSet started run.started_at_utc row.started_at_utc
  pub finish_set : TimeSet finished run.finished_at_utc row.finished_at_utc
  pub code_set : CodeSet code run.failure_code row.failure_code
  pub run_id : row.run_id ≡ run.run_id
  pub dataset_id : row.dataset_id ≡ run.dataset_id
  pub strategy_spec_version : row.strategy_spec_version ≡ run.strategy_spec_version
  pub engine_version : row.engine_version ≡ run.engine_version
  pub configuration_json : row.configuration_json ≡ run.configuration_json
  pub created_at_utc : row.created_at_utc ≡ run.created_at_utc
  pub warning_count : row.warning_count ≡ run.warning_count
  pub schema_version : row.schema_version ≡ run.schema_version
  pub manifest_checksum : row.manifest_checksum ≡ run.manifest_checksum
  pub strategy_id : row.strategy_id ≡ run.strategy_id
  pub strategy_version : row.strategy_version ≡ run.strategy_version

-- What a transition does to the row of its run: nothing, or one allowed move from the expected
-- status to the next.
abbrev pub Moved :
    (expected next : BacktestRunStatus) (started finished : Option Datetime) (code : Option String)
    → Option RunManifest
    → Option RunManifest
    → Type 0
Moved expected next started finished code before after =
    (after ≡ before)
    ⊎ ((run : RunManifest) × (row : RunManifest) × (before ≡ some run)
        × (run.status ≡ expected)
        × (is_transition_allowed expected next ≡ true)
        × (after ≡ some row)
        × IsMove next started finished code run row)

changed-TimeSet : (given old : Option Datetime) → TimeSet given old (coalesce (in_utc given) old)
unfolding coalesce in_utc
changed-TimeSet none old = refl
changed-TimeSet (some t) old = refl

changed-CodeSet : (given old : Option String) → CodeSet given old (coalesce given old)
unfolding coalesce
changed-CodeSet none old = refl
changed-CodeSet (some code) old = refl

changed-IsMove :
    (next : BacktestRunStatus) (started finished : Option Datetime) (code : Option String)
    (run : RunManifest)
    → IsMove next started finished code run (changed next started finished code run)
unfolding changed
changed-IsMove next started finished code run = record {
  status = refl;
  start_set = changed-TimeSet started run.started_at_utc;
  finish_set = changed-TimeSet finished run.finished_at_utc;
  code_set = changed-CodeSet code run.failure_code;
  run_id = refl;
  dataset_id = refl;
  strategy_spec_version = refl;
  engine_version = refl;
  configuration_json = refl;
  created_at_utc = refl;
  warning_count = refl;
  schema_version = refl;
  manifest_checksum = refl;
  strategy_id = refl;
  strategy_version = refl;
}

module _ (is_json : String → Bool) where
  update_row-others :
      (runs : Runs) (id j : String) (expected next : BacktestRunStatus)
      (started finished : Option Datetime) (code : Option String) (row : Option RunManifest)
      → eqs id j ≡ false
      → (update_row is_json id expected next started finished code runs row).1 j ≡ runs j
  unfolding update_row put
  update_row-others runs id j expected next started finished code none other = refl
  update_row-others runs id j expected next started finished code (some run) other = ground arith

  -- A transition of one run leaves the row of every other run as it is, whether it succeeds or not.
  pub transition_status-others :
      (runs : Runs) (id j : String) (expected next : BacktestRunStatus)
      (started finished : Option Datetime) (code : Option String)
      → eqs id j ≡ false
      → (transition_status is_json runs id expected next started finished code).1 j ≡ runs j
  unfolding transition_status
  transition_status-others runs id j expected next started finished code other =
      ground
        (arith, update_row-others runs id j expected next started finished code (runs id) other)

  update_row-Moved :
      (runs : Runs) (id : String) (expected next : BacktestRunStatus)
      (started finished : Option Datetime) (code : Option String) (row : Option RunManifest)
      → is_transition_allowed expected next ≡ true
      → runs id ≡ row
      → Moved expected next started finished code
          (runs id)
          ((update_row is_json id expected next started finished code runs row).1 id)
  unfolding update_row put
  update_row-Moved runs id expected next started finished code none h e = inl refl
  update_row-Moved runs id expected next started finished code (some run) h e =
      elim (Bool-cases (same_status run.status expected)) [
        | inl same ↦ inr (
          run,
          changed next started finished code run,
          e,
          same_status_lem run.status expected same,
          h,
          rw (same, (eq_iff id id).1 refl) refl,
          changed-IsMove next started finished code run,
        )
        | inr other ↦ inl (rw other refl)
      ]

  -- A transition of a run leaves its row as it is, or the run had the expected status, the move to
  -- the next one is allowed, and the row has the new status, each time that is given in UTC and the
  -- code if one is given, and all else as before.
  pub transition_status-Moved :
      (runs : Runs) (id : String) (expected next : BacktestRunStatus)
      (started finished : Option Datetime) (code : Option String)
      → Moved expected next started finished code
          (runs id)
          ((transition_status is_json runs id expected next started finished code).1 id)
  unfolding transition_status
  transition_status-Moved runs id expected next started finished code =
      elim (Bool-cases (is_transition_allowed expected next)) [
        | inl allowed ↦ elim (Bool-cases (is_naive started || is_naive finished)) [
          | inl naive ↦ inl (rw (allowed, naive) refl)
          | inr aware ↦
              let same : transition_status is_json runs id expected next started finished code
                  ≡ update_row is_json id expected next started finished code runs (runs id) =
                rw (allowed, aware) refl in
              subst (λ outcome. Moved expected next started finished code (runs id) (outcome.1 id))
                (sym same)
                (update_row-Moved runs id expected next started finished code (runs id) allowed
                  refl)
        ]
        | inr refused ↦ inl (rw refused refl)
      ]

  same_status_refl : (s : BacktestRunStatus) → same_status s s ≡ true
  unfolding same_status
  same_status_refl s = ground arith

  -- A transition that nothing stands against.
  pub transition_status-ok :
      (runs : Runs) (id : String) (expected next : BacktestRunStatus)
      (started finished : Option Datetime) (code : Option String) (run : RunManifest)
      → runs id ≡ some run
      → run.status ≡ expected
      → is_transition_allowed expected next ≡ true
      → (is_naive started || is_naive finished) ≡ false
      → check_run is_json (changed next started finished code run) ≡ ok tt
      → transition_status is_json runs id expected next started finished code ≡ (
        ok (changed next started finished code run),
        put id (changed next started finished code run) runs,
      )
  unfolding transition_status update_row row_to_run
  transition_status-ok runs id expected next started finished code run e s allowed aware checked =
      let same : same_status run.status expected ≡ true =
        subst (λ t. same_status run.status t ≡ true) s (same_status_refl run.status) in
      rw (allowed, aware, e, same, checked) refl

  check_run-parts :
      (r : RunManifest)
      → check_run is_json r ≡ ok tt
      → (validate_identity r ≡ ok tt)
        × (validate_status_and_payload is_json r ≡ ok tt)
        × (validate_temporal_fields r ≡ ok tt)
        × (validate_manifest_reference r ≡ ok tt)
  unfolding check_run
  check_run-parts r h =
      let (identity, h1) = >>-eq-ok (validate_identity r) _ h in
      let (payload, h2) = >>-eq-ok (validate_status_and_payload is_json r) _ h1 in
      let (times, reference) = >>-eq-ok (validate_temporal_fields r) _ h2 in
      (identity, payload, times, reference)

  check_run-of-parts :
      (r : RunManifest)
      → validate_identity r ≡ ok tt
      → validate_status_and_payload is_json r ≡ ok tt
      → validate_temporal_fields r ≡ ok tt
      → validate_manifest_reference r ≡ ok tt
      → check_run is_json r ≡ ok tt
  unfolding check_run
  check_run-of-parts r identity payload times reference =
      rw (identity, payload, times, reference) refl

  -- Only the times of a changed row are in question.
  pub check_run-changed :
      (next : BacktestRunStatus) (started finished : Option Datetime) (code : Option String)
      (run : RunManifest)
      → check_run is_json run ≡ ok tt
      → validate_temporal_fields (changed next started finished code run) ≡ ok tt
      → check_run is_json (changed next started finished code run) ≡ ok tt
  unfolding changed validate_identity validate_status_and_payload validate_manifest_reference
  check_run-changed next started finished code run h times =
      let (identity, payload, _, reference) = check_run-parts run h in
      check_run-of-parts (changed next started finished code run) identity payload times reference

  -- The times of a run that a check has passed.
  pub check_run-times :
      (run : RunManifest) → check_run is_json run ≡ ok tt → validate_temporal_fields run ≡ ok tt
  check_run-times run h = (check_run-parts run h).2

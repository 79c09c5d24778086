-- ===== src/Optimization/Store/Laws.antt =====
-- What the calls of the repository of optimizations do to the life of an optimization.
use idx_backtest_lab.Common.{
  ◌≡◌, refl, sym, ap, subst, ◌∙◌, inl, inr, true, Option, none, some, String, Result, ok, err, ◌==◌,
  Bool-cases, eq_iff,
}
use idx_backtest_lab.Common.Text.{eqs}
use idx_backtest_lab.Common.Time.{Datetime}
use idx_backtest_lab.Common.Lifecycle.{Walk, stop, next, onward_walk}
use idx_backtest_lab.Optimization.Status.{
  OptimizationStatus, created, validating, running_train_validation, selecting, running_holdout,
  completed, failed, cancelled, ordinal, is_transition_allowed,
}
use idx_backtest_lab.Optimization.Records.{OptimizationManifest}
use idx_backtest_lab.Optimization.Store.{
  Fault, Tables, put, update_row, transition_status, changed_row, update_optimization,
  record_candidate_result, record_selection, record_holdout_result,
}
use idx_backtest_lab.Optimization.Store.Rows.{
  moved, CandidateResult, Selected, with_selection, HoldoutResult, with_holdout,
}

-- The life of an optimization: its status moves along allowed transitions, and what it was created
-- with stays.
pub record Lives (m m' : OptimizationManifest) : Type 0 where
  pub walk : Walk is_transition_allowed m.status m'.status
  pub same_id : m'.optimization_id ≡ m.optimization_id
  pub same_checksum : m'.checksum ≡ m.checksum
  pub same_json : m'.manifest_json ≡ m.manifest_json

abbrev pub LivesOn : Option OptimizationManifest → Option OptimizationManifest → Type 0
LivesOn none none = Unit
LivesOn (some m) (some m') = Lives m m'
LivesOn m m' = ⊥

abbrev pub AllLive : Tables → Tables → Type 0
AllLive t t' = (id : String) → LivesOn (t.optimizations id) (t'.optimizations id)

LivesOn-refl : (m : Option OptimizationManifest) → LivesOn m m
LivesOn-refl none = tt
LivesOn-refl (some m) = record {
  walk = stop;
  same_id = refl;
  same_checksum = refl;
  same_json = refl;
}

LivesOn-trans : (a b c : Option OptimizationManifest) → LivesOn a b → LivesOn b c → LivesOn a c
LivesOn-trans none none c h k = k
LivesOn-trans (some a) (some b) (some c) h k = record {
  walk = onward_walk h.walk k.walk;
  same_id = k.same_id ∙ h.same_id;
  same_checksum = k.same_checksum ∙ h.same_checksum;
  same_json = k.same_json ∙ h.same_json;
}
LivesOn-trans none (some b) c h k = elim h [ ]
LivesOn-trans (some a) none c h k = elim h [ ]
LivesOn-trans (some a) (some b) none h k = elim k [ ]

pub AllLive-refl : (t : Tables) → AllLive t t
AllLive-refl t id = LivesOn-refl (t.optimizations id)

pub AllLive-trans : (t u v : Tables) → AllLive t u → AllLive u v → AllLive t v
AllLive-trans t u v h k id =
    LivesOn-trans (t.optimizations id) (u.optimizations id) (v.optimizations id) (h id) (k id)

pub same_ordinal : (s t : OptimizationStatus) → (ordinal s == ordinal t) ≡ true → s ≡ t
unfolding ordinal
same_ordinal created created h = refl
same_ordinal validating validating h = refl
same_ordinal running_train_validation running_train_validation h = refl
same_ordinal selecting selecting h = refl
same_ordinal running_holdout running_holdout h = refl
same_ordinal completed completed h = refl
same_ordinal failed failed h = refl
same_ordinal cancelled cancelled h = refl
same_ordinal s t h = cc

module _ (id : String) (expected next_status : OptimizationStatus)
    (started finished : Option Datetime) (code : Option String) where
  -- What a transition does to the row of its optimization: it fails and leaves it, or the row had the
  -- expected status, the move to the next one is allowed, and the call returns the row that it leaves.
  abbrev pub Transitioned : Tables → Result Fault OptimizationManifest × Tables → Type 0
  Transitioned t (err fault, t') = t' ≡ t
  Transitioned t (ok row, t') =
      (m : OptimizationManifest) × (t.optimizations id ≡ some m)
      × (m.status ≡ expected)
      × (is_transition_allowed expected next_status ≡ true)
      × (row ≡ moved next_status started finished code m)
      × (t' ≡ put id row t)

  update_row-Transitioned :
      (t : Tables) (o : Option OptimizationManifest)
      → is_transition_allowed expected next_status ≡ true
      → t.optimizations id ≡ o
      → Transitioned t (update_row t id expected next_status started finished code o)
  unfolding update_row
  update_row-Transitioned t none allowed e = refl
  update_row-Transitioned t (some m) allowed e =
      elim (Bool-cases (ordinal m.status == ordinal expected)) [
        | inl same ↦ rw same (m, e, same_ordinal m.status expected same, allowed, refl, refl)
        | inr other ↦ rw other refl
      ]

  pub transition_status-Transitioned :
      (t : Tables)
      → Transitioned t (transition_status t id expected next_status started finished code)
  unfolding transition_status
  transition_status-Transitioned t =
      elim (Bool-cases (is_transition_allowed expected next_status)) [
        | inl allowed ↦ rw allowed (update_row-Transitioned t (t.optimizations id) allowed refl)
        | inr refused ↦ rw refused refl
      ]

  put-AllLive :
      (t : Tables) (m : OptimizationManifest)
      → t.optimizations id ≡ some m
      → m.status ≡ expected
      → is_transition_allowed expected next_status ≡ true
      → AllLive t (put id (moved next_status started finished code m) t)
  unfolding put moved
  put-AllLive t m e s allowed j = elim (Bool-cases (eqs id j)) [
    | inl same ↦
        let row : t.optimizations j ≡ some m =
          subst (λ i. t.optimizations i ≡ some m) ((eq_iff id j).0 same) e in
        rw (same, row)
          (record {
            walk = next next_status (rw s allowed) stop;
            same_id = refl;
            same_checksum = refl;
            same_json = refl;
          })
    | inr other ↦ rw other (LivesOn-refl (t.optimizations j))
  ]

  AllLive-of_Transitioned :
      (t : Tables) (outcome : Result Fault OptimizationManifest × Tables)
      → Transitioned t outcome
      → AllLive t outcome.1
  AllLive-of_Transitioned t (err fault, t') h = subst (λ u. AllLive t u) (sym h) (AllLive-refl t)
  AllLive-of_Transitioned t (ok row, t') (m, e, s, allowed, row_eq, table) =
      subst (λ u. AllLive t u) (sym (table ∙ ap (λ r. put id r t) row_eq))
        (put-AllLive t m e s allowed)

  pub transition_status-AllLive :
      (t : Tables) → AllLive t (transition_status t id expected next_status started finished code).1
  transition_status-AllLive t =
      AllLive-of_Transitioned t (transition_status t id expected next_status started finished code)
        (transition_status-Transitioned t)

update_optimization-AllLive :
    (id : String) (change : OptimizationManifest → OptimizationManifest)
    → ((m : OptimizationManifest) → Lives m (change m))
    → (t : Tables) → AllLive t (update_optimization id change t)
unfolding update_optimization changed_row
update_optimization-AllLive id change h t j = elim (Bool-cases (eqs id j)) [
  | inl same ↦ rw same (changed_row-LivesOn (t.optimizations j))
  | inr other ↦ rw other (LivesOn-refl (t.optimizations j))
]
  where
    changed_row-LivesOn : (o : Option OptimizationManifest) → LivesOn o (changed_row change o)
    changed_row-LivesOn none = tt
    changed_row-LivesOn (some m) = h m

pub record_selection-AllLive :
    (t : Tables) (id : String) (s : Selected) → AllLive t (record_selection t id s)
unfolding record_selection with_selection
record_selection-AllLive t id s =
    update_optimization-AllLive id (with_selection s)
      (λ m. record { walk = stop; same_id = refl; same_checksum = refl; same_json = refl }) t

pub record_holdout_result-AllLive :
    (t : Tables) (id : String) (h : HoldoutResult) → AllLive t (record_holdout_result t id h)
unfolding record_holdout_result with_holdout
record_holdout_result-AllLive t id h =
    update_optimization-AllLive id (with_holdout h)
      (λ m. record { walk = stop; same_id = refl; same_checksum = refl; same_json = refl }) t

pub record_candidate_result-AllLive :
    (t : Tables) (id : String) (r : CandidateResult) → AllLive t (record_candidate_result t id r)
unfolding record_candidate_result
record_candidate_result-AllLive t id r j = LivesOn-refl (t.optimizations j)

pub put-same :
    (id : String) (m : OptimizationManifest) (t : Tables) → (put id m t).optimizations id ≡ some m
unfolding put
put-same id m t = rw ((eq_iff id id).1 refl) refl

-- The row that an `UPDATE` of an optimization leaves is the changed one.
pub update_optimization-row :
    (id : String) (change : OptimizationManifest → OptimizationManifest) (t : Tables)
    (m : OptimizationManifest)
    → (update_optimization id change t).optimizations id ≡ some m
    → (old : OptimizationManifest) × (t.optimizations id ≡ some old) × (m ≡ change old)
unfolding update_optimization changed_row
update_optimization-row id change t m h =
    of_row (t.optimizations id) refl (rw ((eq_iff id id).1 refl) at h)
  where
    of_row :
        (o : Option OptimizationManifest)
        → t.optimizations id ≡ o
        → changed_row change o ≡ some m
        → (old : OptimizationManifest) × (t.optimizations id ≡ some old) × (m ≡ change old)
    of_row none e k = cc
    of_row (some old) e k = (old, e, cc)

pub update_optimization-same :
    (id : String) (change : OptimizationManifest → OptimizationManifest) (t : Tables)
    (old : OptimizationManifest)
    → t.optimizations id ≡ some old
    → (update_optimization id change t).optimizations id ≡ some (change old)
unfolding update_optimization changed_row
update_optimization-same id change t old e = rw ((eq_iff id id).1 refl, e) refl

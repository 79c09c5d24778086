-- ===== src/Optimization/Tests.antt =====
-- Concrete optimizations.
use idx_backtest_lab.Common.{
  ◌≡◌, ◌↔◌, ◌≤◌, ◌<◌, ◌+◌, ◌≢◌, ◌&&◌, refl, ap, ◌∙◌, eq_iff, sym, true, false, inl, inr, none, some,
  [], ◌∷◌, In, All, String, ok, arith, length,
}
use idx_backtest_lab.Common.Int.{ℤ, pos, ◌-ℤ◌, ◌≤ℤ◌}
use idx_backtest_lab.Common.Text.{eqs}
use idx_backtest_lab.Common.Order.{int_order, pair_order}
use idx_backtest_lab.Common.Sorted.{contains, IsAscending}
use idx_backtest_lab.Common.Lifecycle.{Walk, stop, next, visited}
use idx_backtest_lab.Optimization.Status.{
  created, validating, running_train_validation, selecting, running_holdout, completed,
  is_transition_allowed, stage, completed_path, length-visited-le,
}
use idx_backtest_lab.Optimization.Partitions.{
  validate_grid_inputs, date_ranges_overlap, Partitions, validate_partitions,
  validate_grid_inputs_iff, validate_partitions-no_overlap,
}
use idx_backtest_lab.Optimization.Grid.{
  canonicalize_grid, contains-canonicalize_grid, canonicalize_grid-IsAscending,
  canonicalize_grid-ext,
}
use idx_backtest_lab.Optimization.Selection.{
  CandidateSelectionInput, select_candidate, IsBest, select_candidate-IsBest, select_candidate-none,
  select_candidate-ext,
}

abbrev wide : CandidateSelectionInput
wide = record {
  candidate_id = "a";
  fast_window = pos 5;
  slow_window = pos 20;
  objective_value = some (pos 3);
}

abbrev narrow : CandidateSelectionInput
narrow = record {
  candidate_id = "b";
  fast_window = pos 5;
  slow_window = pos 10;
  objective_value = some (pos 3);
}

abbrev unmeasured : CandidateSelectionInput
unmeasured = record {
  candidate_id = "c";
  fast_window = pos 2;
  slow_window = pos 4;
  objective_value = none;
}

select_candidate-IsBest_example : IsBest (unmeasured ∷ wide ∷ narrow ∷ []) narrow
unfolding select_candidate ◌-ℤ◌
select_candidate-IsBest_example =
    select_candidate-IsBest (unmeasured ∷ wide ∷ narrow ∷ []) narrow refl

select_candidate-none_example :
    (select_candidate (unmeasured ∷ []) ≡ none)
    ↔ ((c : CandidateSelectionInput) → In c (unmeasured ∷ []) → c.objective_value ≡ none)
select_candidate-none_example = select_candidate-none (unmeasured ∷ [])

swap : (c : CandidateSelectionInput) → In c (wide ∷ narrow ∷ []) ↔ In c (narrow ∷ wide ∷ [])
swap c = (turn, turn')
  where
    turn : In c (wide ∷ narrow ∷ []) → In c (narrow ∷ wide ∷ [])
    turn (inl p) = inr (inl p)
    turn (inr (inl p)) = inl p
    turn (inr (inr n)) = elim n [ ]

    turn' : In c (narrow ∷ wide ∷ []) → In c (wide ∷ narrow ∷ [])
    turn' (inl p) = inr (inl p)
    turn' (inr (inl p)) = inl p
    turn' (inr (inr n)) = elim n [ ]

id_of : CandidateSelectionInput → String
id_of c = c.candidate_id

apart : ¬ (id_of wide ≡ id_of narrow)
unfolding id_of
apart h = let e : eqs "a" "b" ≡ true = (eq_iff "a" "b").1 h in cc

same_id :
    (c d : CandidateSelectionInput)
    → In c (wide ∷ narrow ∷ [])
    → In d (wide ∷ narrow ∷ [])
    → c.candidate_id ≡ d.candidate_id
    → c ≡ d
unfolding id_of
same_id c d (inl p) (inl q) h = p ∙ sym q
same_id c d (inl p) (inr (inl q)) h = absurd (apart (sym (ap id_of p) ∙ h ∙ ap id_of q))
same_id c d (inr (inl p)) (inl q) h = absurd (apart (sym (ap id_of q) ∙ sym h ∙ ap id_of p))
same_id c d (inr (inl p)) (inr (inl q)) h = p ∙ sym q
same_id c d (inr (inr n)) k h = elim n [ ]
same_id c d k (inr (inr n)) h = elim n [ ]

select_candidate-ext_example :
    select_candidate (wide ∷ narrow ∷ []) ≡ select_candidate (narrow ∷ wide ∷ [])
select_candidate-ext_example =
    select_candidate-ext (wide ∷ narrow ∷ []) (narrow ∷ wide ∷ []) swap same_id

contains-canonicalize_grid_example :
    contains (pos 3, pos 10) (canonicalize_grid (pos 5 ∷ pos 3 ∷ pos 5 ∷ []) (pos 10 ∷ []))
    ≡ (contains (pos 3) (pos 5 ∷ pos 3 ∷ pos 5 ∷ []) && contains (pos 10) (pos 10 ∷ []))
contains-canonicalize_grid_example =
    contains-canonicalize_grid (pos 5 ∷ pos 3 ∷ pos 5 ∷ []) (pos 10 ∷ []) (pos 3) (pos 10)

canonicalize_grid-IsAscending_example :
    IsAscending (canonicalize_grid (pos 5 ∷ pos 3 ∷ pos 5 ∷ []) (pos 10 ∷ pos 7 ∷ []))
canonicalize_grid-IsAscending_example =
    canonicalize_grid-IsAscending (pos 5 ∷ pos 3 ∷ pos 5 ∷ []) (pos 10 ∷ pos 7 ∷ [])

repeated : (w : ℤ) → contains w (pos 5 ∷ pos 3 ∷ []) ≡ contains w (pos 3 ∷ pos 5 ∷ pos 5 ∷ [])
unfolding contains
repeated w = ground arith

canonicalize_grid-ext_example :
    canonicalize_grid (pos 5 ∷ pos 3 ∷ []) (pos 10 ∷ [])
    ≡ canonicalize_grid (pos 3 ∷ pos 5 ∷ pos 5 ∷ []) (pos 10 ∷ [])
canonicalize_grid-ext_example =
    canonicalize_grid-ext (pos 5 ∷ pos 3 ∷ []) (pos 3 ∷ pos 5 ∷ pos 5 ∷ []) (pos 10 ∷ [])
      (pos 10 ∷ []) repeated (λ w. refl)

validate_grid_inputs_iff_example : (validate_grid_inputs (pos 5 ∷ []) (pos 10 ∷ []) ≡ ok tt) ↔ (
    ((pos 5 ∷ []) ≢ [])
    × ((pos 10 ∷ []) ≢ [])
    × All (λ w. pos 1 ≤ℤ w) (pos 5 ∷ [])
    × All (λ w. pos 1 ≤ℤ w) (pos 10 ∷ []))
validate_grid_inputs_iff_example = validate_grid_inputs_iff (pos 5 ∷ []) (pos 10 ∷ [])

abbrev pub quarters : Partitions
quarters = record {
  train_start = 1;
  train_end = 60;
  validation_start = 61;
  validation_end = 90;
  holdout_start = 100;
  holdout_end = 120;
}

validate_partitions-no_overlap_example :
    (1 ≤ 60)
    × (61 ≤ 90)
    × (100 ≤ 120)
    × (date_ranges_overlap 1 (some 60) 61 (some 90) ≡ false)
    × (date_ranges_overlap 1 (some 60) 100 (some 120) ≡ false)
    × (date_ranges_overlap 61 (some 90) 100 (some 120) ≡ false)
    × (60 < 61)
    × (90 < 100)
unfolding validate_partitions
validate_partitions-no_overlap_example = validate_partitions-no_overlap quarters refl

whole_life : Walk is_transition_allowed created completed
unfolding is_transition_allowed
whole_life = next validating refl (
    next running_train_validation refl
      (next selecting refl (next running_holdout refl (next completed refl stop))))

completed_path_example :
    visited whole_life
    ≡ created ∷ validating ∷ running_train_validation ∷ selecting ∷ running_holdout ∷ completed ∷ []
completed_path_example = completed_path whole_life

length-visited-le_example : stage created + length (visited whole_life) ≤ 6
length-visited-le_example = length-visited-le whole_life

-- ===== src/Optimization/Create/Laws.antt =====
-- What `create_optimization` leaves for the execution to find.
use idx_backtest_lab.Common.{
  ◌⊎◌, subst, ℕ, suc, ◌+◌, ◌-◌, ◌≤◌, ◌≡◌, refl, sym, ap, ◌∙◌, inl, inr, Bool, false, ◌&&◌, Option,
  none, some, List, [], ◌∷◌, ◌++◌, map, String, Result, ok, err, >>=-eq-ok, >>-eq-ok, ok-injective,
  if_cases, if◌then◌else◌, length, Bool-cases, eq_iff, arith, ltb,
}
use mathlib.Core.List.{append-nil, append_assoc}
use idx_backtest_lab.Common.Int.{ℤ, ◌<ℤ◌, ◌≤ℤ◌}
use idx_backtest_lab.Common.Text.{eqs}
use idx_backtest_lab.Manifest.Classes.{Decimal}
use idx_backtest_lab.Market.Dataset.{DatasetManifest}
use idx_backtest_lab.Optimization.Grid.{canonicalize_grid, is_valid_candidate_pair}
use idx_backtest_lab.Optimization.Records.{
  candidate_pending, candidate_rejected, same_candidate_status, OptimizationCandidate,
  OptimizationManifest,
}
use idx_backtest_lab.Optimization.Store as Store
use idx_backtest_lab.Optimization.Store.{
  Tables, clashes, insert_candidates, commit, insert_optimization, in_columns, insert_row, create,
  candidates_of, insert_by_sequence, by_sequence, page_of, list_candidates,
}
use idx_backtest_lab.Optimization.Store.Rows.{candidate_row}
use idx_backtest_lab.Optimization.Create.{
  CreatePorts, CreateOptimizationRequest, CreateFault, valid_pairs, status_of_pair, reason_of_pair,
  candidates_from, manifest_of, pairs_of, or_raise, dataset_not_found, known_instrument,
  check_request, check_coverage, parsed, parse_decimal, prepare, after_create, store_prepared,
  create_optimization,
}

-- A candidate waits for its run if its fast window is below its slow one, and is refused otherwise.
abbrev pub HasStatus : (fast slow : ℤ) → OptimizationCandidate → Type 0
HasStatus fast slow c =
    ((fast <ℤ slow) × (c.status ≡ candidate_pending) × (c.rejection_reason ≡ none))
    ⊎ ((slow ≤ℤ fast)
        × (c.status ≡ candidate_rejected)
        × (c.rejection_reason ≡ some "fast_window must be less than slow_window"))

-- A new candidate of an optimization: the pair at a position of the grid, without any result.
pub record IsNewCandidate (optimization candidate : String) (n : ℕ) (fast slow : ℤ)
    (c : OptimizationCandidate) : Type 0 where
  pub optimization_id : c.optimization_id ≡ optimization
  pub candidate_id : c.candidate_id ≡ candidate
  pub sequence : c.sequence ≡ n
  pub fast_window : c.fast_window ≡ fast
  pub slow_window : c.slow_window ≡ slow
  pub has_status : HasStatus fast slow c
  pub strategy_id : c.strategy_id ≡ none
  pub strategy_version : c.strategy_version ≡ none
  pub train_run_id : c.train_run_id ≡ none
  pub validation_run_id : c.validation_run_id ≡ none
  pub objective_status : c.objective_status ≡ none
  pub objective_value : c.objective_value ≡ none
  pub warning_count : c.warning_count ≡ 0

-- One new candidate for each pair, in the order of the pairs, numbered from a position on; the ids
-- are those that the factory gives after the optimization's.
abbrev pub AreOfPairs :
    (ids : ℕ → String) (n : ℕ) → List (ℤ × ℤ) → List OptimizationCandidate → Type 0
AreOfPairs ids n [] [] = Unit
AreOfPairs ids n ((fast, slow) ∷ pairs) (c ∷ cs) =
    IsNewCandidate (ids 0) (ids (suc n)) n fast slow c × AreOfPairs ids (suc n) pairs cs
AreOfPairs ids n pairs cs = ⊥

insert_candidates-rows :
    (cs rows rows' : List OptimizationCandidate)
    → insert_candidates cs rows ≡ some rows'
    → rows' ≡ rows ++ map candidate_row cs
unfolding insert_candidates
insert_candidates-rows [] rows rows' h =
    let same : rows ≡ rows' = cc in sym same ∙ sym (append-nil rows)
insert_candidates-rows (c ∷ cs) rows rows' h =
    elim (if_cases (clashes c rows) none (insert_candidates cs (rows ++ candidate_row c ∷ [])) h) [
      | inl (clash, refused) ↦ cc
      | inr (fits, inserted) ↦
          insert_candidates-rows cs (rows ++ candidate_row c ∷ []) rows' inserted
          ∙ append_assoc rows (candidate_row c ∷ []) (map candidate_row cs)
    ]

-- The rows of the candidates after a creation that returns.
commit-rows :
    (t t' : Tables) (id : String) (row : OptimizationManifest)
    (o : Option (List OptimizationCandidate))
    → commit t id row o ≡ (ok tt, t')
    → o ≡ some t'.candidates
unfolding commit
commit-rows t t' id row none h = cc
commit-rows t t' id row (some rows) h =
    ap (λ (x : Result Store.Fault (Unit {0}) × Tables). some x.1.candidates) h

insert_optimization-rows :
    (t t' : Tables) (row : OptimizationManifest) (cs : List OptimizationCandidate)
    (o : Option OptimizationManifest)
    → insert_optimization t row cs o ≡ (ok tt, t')
    → t'.candidates ≡ t.candidates ++ map candidate_row cs
unfolding insert_optimization
insert_optimization-rows t t' row cs (some old) h = cc
insert_optimization-rows t t' row cs none h =
    insert_candidates-rows cs t.candidates t'.candidates
      (commit-rows t t' row.optimization_id row (insert_candidates cs t.candidates) h)

insert_row-rows :
    (dataset_exists instrument_exists : String → Bool) (t t' : Tables)
    (cs : List OptimizationCandidate) (o : Option OptimizationManifest)
    → insert_row dataset_exists instrument_exists t cs o ≡ (ok tt, t')
    → t'.candidates ≡ t.candidates ++ map candidate_row cs
unfolding insert_row
insert_row-rows dataset_exists instrument_exists t t' cs none h = cc
insert_row-rows dataset_exists instrument_exists t t' cs (some row) h =
    elim (if_cases (dataset_exists row.dataset_id && instrument_exists row.instrument_id)
      (insert_optimization t row cs (t.optimizations row.optimization_id))
      (err Store.constraint_violated, t) h) [
        | inl (known, inserted) ↦ insert_optimization-rows t t' row cs _ inserted
        | inr (unknown, refused) ↦ cc
      ]

page_of-all : (cs : List OptimizationCandidate) → page_of (length cs) 0 cs ≡ cs
unfolding page_of
page_of-all [] = refl
page_of-all (c ∷ cs) = ap (◌∷◌ c) (page_of-all cs)

candidates_of-append :
    (id : String) (xs ys : List OptimizationCandidate)
    → candidates_of id (xs ++ ys) ≡ candidates_of id xs ++ candidates_of id ys
unfolding candidates_of
candidates_of-append id [] ys = refl
candidates_of-append id (x ∷ xs) ys = elim (Bool-cases (eqs x.optimization_id id)) [
  | inl same ↦ rw (same, candidates_of-append id xs ys) refl
  | inr other ↦ rw (other, candidates_of-append id xs ys) refl
]

-- How many candidates are to be executed.
abbrev pub count_pending : List OptimizationCandidate → ℕ
count_pending [] = 0
count_pending (c ∷ cs) =
    if same_candidate_status c.status candidate_pending
    then suc (count_pending cs)
    else count_pending cs

module _ (p : CreatePorts) (request : CreateOptimizationRequest) (max_candidate_count : ℤ) where
  abbrev pub rows_from : ℕ → List (ℤ × ℤ) → List OptimizationCandidate
  rows_from n pairs = map candidate_row (candidates_from p request max_candidate_count n pairs)

  candidates_of-rows :
      (n : ℕ) (pairs : List (ℤ × ℤ))
      → candidates_of (p.id_factory 0) (rows_from n pairs) ≡ rows_from n pairs
  unfolding candidates_of candidates_from candidate_row
  candidates_of-rows n [] = refl
  candidates_of-rows n (pair ∷ pairs) =
      rw ((eq_iff (p.id_factory 0) (p.id_factory 0)).1 refl, candidates_of-rows (suc n) pairs) refl

  by_sequence-rows :
      (n : ℕ) (pairs : List (ℤ × ℤ)) → by_sequence (rows_from n pairs) ≡ rows_from n pairs
  unfolding by_sequence insert_by_sequence candidates_from candidate_row
  by_sequence-rows n [] = refl
  by_sequence-rows n (pair ∷ []) = refl
  by_sequence-rows n (pair ∷ pair' ∷ pairs) =
      let later : ltb (suc n) n ≡ false = ground arith in
      rw (by_sequence-rows (suc n) (pair' ∷ pairs), later) refl

  length-rows : (n : ℕ) (pairs : List (ℤ × ℤ)) → length (rows_from n pairs) ≡ length pairs
  unfolding candidates_from
  length-rows n [] = refl
  length-rows n (pair ∷ pairs) = ap suc (length-rows (suc n) pairs)

  length-valid_pairs : (pairs : List (ℤ × ℤ)) → length (valid_pairs pairs) ≤ length pairs
  unfolding valid_pairs
  length-valid_pairs [] = omega arith
  length-valid_pairs ((fast, slow) ∷ pairs) = ground (arith, length-valid_pairs pairs)

  count_pending-rows :
      (n : ℕ) (pairs : List (ℤ × ℤ))
      → count_pending (rows_from n pairs) ≡ length (valid_pairs pairs)
  unfolding valid_pairs candidates_from candidate_row status_of_pair same_candidate_status
  count_pending-rows n [] = refl
  count_pending-rows n ((fast, slow) ∷ pairs) =
      elim (Bool-cases (is_valid_candidate_pair fast slow)) [
        | inl valid ↦ rw (valid, count_pending-rows (suc n) pairs) refl
        | inr other ↦ rw (other, count_pending-rows (suc n) pairs) refl
      ]

  prepare-manifest_of :
      (m : OptimizationManifest)
      → prepare p request max_candidate_count ≡ ok m
      → (dataset : DatasetManifest) × (capital : Decimal) × (fraction : Decimal)
        × (increment : Decimal) × (rate : Decimal) × (m
            ≡ manifest_of p request max_candidate_count dataset
                (pairs_of p request max_candidate_count)
                capital
                fraction
                increment
                rate)
  unfolding prepare parsed
  prepare-manifest_of m h =
      let (_, h1) = >>-eq-ok (check_request p request max_candidate_count) _ h in
      let (dataset, _, h2) =
        >>=-eq-ok (or_raise dataset_not_found (p.get_dataset request.dataset_id)) _ h1 in
      let (_, h3) =
        >>-eq-ok
          (known_instrument p request max_candidate_count
            (p.instrument_exists request.instrument_id))
          _ h2 in
      let (_, h4) =
        >>-eq-ok (check_coverage p request max_candidate_count)
          (parsed p request max_candidate_count dataset) h3 in
      let parse = parse_decimal p request max_candidate_count in
      let (capital, _, h5) = >>=-eq-ok (parse request.capital_amount "capital_amount") _ h4 in
      let (fraction, _, h6) =
        >>=-eq-ok (parse request.position_sizing_fraction "position_sizing_fraction") _ h5 in
      let (increment, _, h7) =
        >>=-eq-ok (parse request.quantity_increment "quantity_increment") _ h6 in
      let (rate, _, h8) = >>=-eq-ok (parse request.risk_free_rate "risk_free_rate") _ h7 in
      (dataset, capital, fraction, increment, rate, sym (ok-injective h8))

  after_create-stored :
      (m m' : OptimizationManifest) (o : Result Store.Fault (Unit {0}) × Tables) (t : Tables)
      → after_create p request max_candidate_count m o ≡ (ok m', t)
      → (m ≡ m') × (o ≡ (ok tt, t))
  unfolding after_create
  after_create-stored m m' (ok u, t') t h = (cc, cc)
  after_create-stored m m' (err fault, t') t h = cc

  store_prepared-stored :
      (t t' : Tables) (o : Result CreateFault OptimizationManifest) (m : OptimizationManifest)
      → store_prepared p request max_candidate_count t o ≡ (ok m, t')
      → (o ≡ ok m)
        × (t'.candidates ≡ t.candidates ++ rows_from 0 (pairs_of p request max_candidate_count))
  unfolding store_prepared create
  store_prepared-stored t t' (err fault) m h = cc
  store_prepared-stored t t' (ok m') m h =
      let (same, created_now) = after_create-stored m' m _ t' h in
      (
        ap (λ x. ok x) same,
        insert_row-rows p.dataset_exists p.instrument_exists t t' _ _ created_now,
      )

  counts :
      (pairs : List (ℤ × ℤ))
      → length (valid_pairs pairs) + (length pairs - length (valid_pairs pairs)) ≡ length pairs
  counts pairs = omega (arith, length-valid_pairs pairs)

  rows_from-AreOfPairs :
      (n : ℕ) (pairs : List (ℤ × ℤ)) → AreOfPairs p.id_factory n pairs (rows_from n pairs)
  unfolding candidates_from candidate_row status_of_pair reason_of_pair is_valid_candidate_pair
  rows_from-AreOfPairs n [] = tt
  rows_from-AreOfPairs n ((fast, slow) ∷ pairs) = (
    record {
      optimization_id = refl;
      candidate_id = refl;
      sequence = refl;
      fast_window = refl;
      slow_window = refl;
      has_status = elim (Bool-cases (is_valid_candidate_pair fast slow)) [
        | inl lower ↦ inl (ground arith, rw lower refl, rw lower refl)
        | inr other ↦ inr (ground arith, rw other refl, rw other refl)
      ];
      strategy_id = refl;
      strategy_version = refl;
      train_run_id = refl;
      validation_run_id = refl;
      objective_status = refl;
      objective_value = refl;
      warning_count = refl;
    },
    rows_from-AreOfPairs (suc n) pairs,
  )

  -- A creation that returns, where the new id has no candidates yet, leaves one new candidate for each
  -- pair of the grid in the table, in the order of the grid: the page that an execution asks for, of as
  -- many candidates as the counts of the manifest add up to, has all of them and no other, each with
  -- its pair, its number, and pending just when its fast window is below its slow one; and as many of
  -- them are pending as the manifest counts.
  pub create_optimization-Listed :
      (t t' : Tables) (m : OptimizationManifest)
      → candidates_of (p.id_factory 0) t.candidates ≡ []
      → create_optimization p request max_candidate_count t ≡ (ok m, t')
      → let page =
          (list_candidates t' m.optimization_id (m.candidate_count + m.rejected_count) 0).0 in
        AreOfPairs p.id_factory 0 (canonicalize_grid request.fast_windows request.slow_windows) page
        × (m.optimization_id ≡ p.id_factory 0)
        × (m.candidate_count ≡ count_pending page)
  unfolding create_optimization manifest_of list_candidates
  create_optimization-Listed t t' m unused h =
      let pairs = pairs_of p request max_candidate_count in
      let rows = rows_from 0 pairs in
      let (prepared, table) =
        store_prepared-stored t t' (prepare p request max_candidate_count) m h in
      let (dataset, capital, fraction, increment, rate, m_eq) = prepare-manifest_of m prepared in
      let own : candidates_of (p.id_factory 0) t'.candidates ≡ rows =
        rw (table, candidates_of-append (p.id_factory 0) t.candidates rows, unused)
          (candidates_of-rows 0 pairs) in
      let total : m.candidate_count + m.rejected_count ≡ length rows =
        rw m_eq (counts pairs) ∙ sym (length-rows 0 pairs) in
      let id_eq : m.optimization_id ≡ p.id_factory 0 = ap (λ x. x.optimization_id) m_eq in
      let page =
        (list_candidates t' m.optimization_id (m.candidate_count + m.rejected_count) 0).0 in
      let listed : page ≡ rows =
        rw (id_eq, own, by_sequence-rows 0 pairs, total) (page_of-all rows) in
      (
        subst (λ cs. AreOfPairs p.id_factory 0 pairs cs) (sym listed)
            (rows_from-AreOfPairs 0 pairs),
        id_eq,
        ap (λ x. x.candidate_count) m_eq
            ∙ sym (count_pending-rows 0 pairs)
            ∙ ap count_pending (sym listed),
      )

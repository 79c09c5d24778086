-- ===== src/Optimization/Selection.antt =====
-- `select_candidate` (backend/app/domain/optimization.py). Objective values are only compared, so a
-- finite set of decimals is given by whole multiples of a unit that they share.
use mathlib.Core.Path.{subst}
use idx_backtest_lab.Common.{
  ◌≡◌, ◌⊎◌, inl, inr, refl, true, false, Option, none, some, List, [], ◌∷◌, arith, Option-cases, In,
  All-In, String, ◌∙◌, sym, ap, ◌↔◌,
}
use idx_backtest_lab.Common.Int.{ℤ, pos, ◌-ℤ◌, ◌<ℤ◌, ltb_ℤ, int_laws, pos_part, neg_part}
use idx_backtest_lab.Common.Text.{text_lt, text_order, text_total}
use idx_backtest_lab.Common.Order.{int_order, pair_order, ◌≺◌, lex-eq_false}
use idx_backtest_lab.Common.Sorted.{min_by, In-min_by, min_by-le}

pub record CandidateSelectionInput : Type 0 where
  pub candidate_id : String
  pub fast_window : ℤ
  pub slow_window : ℤ
  pub objective_value : Option ℤ

-- `[c for c in candidates if c.objective_value is not None]`, each with its value.
abbrev Eligible : Type 0
Eligible = ℤ × CandidateSelectionInput

with_value : Option ℤ → CandidateSelectionInput → List Eligible → List Eligible
with_value none c rest = rest
with_value (some v) c rest = (v, c) ∷ rest

eligible : List CandidateSelectionInput → List Eligible
unfolding with_value
eligible [] = []
eligible (c ∷ cs) = with_value c.objective_value c (eligible cs)

abbrev Key : Type 0
Key = ℤ × (ℤ × (ℤ × String))

-- The windows and the identifier, which break a tie.
abbrev fast_key : CandidateSelectionInput → ℤ × String
fast_key c = (c.fast_window, c.candidate_id)

abbrev slow_key : CandidateSelectionInput → ℤ × (ℤ × String)
slow_key c = (c.slow_window, fast_key c)

sort_key : Eligible → Key
sort_key (value, c) = (pos 0 -ℤ value, slow_key c)

first_least : List Eligible → Option CandidateSelectionInput
unfolding sort_key min_by
first_least [] = none
first_least (c ∷ cs) = some (min_by sort_key c cs).1

unfoldable pub select_candidate : List CandidateSelectionInput → Option CandidateSelectionInput
unfolding first_least eligible
select_candidate candidates = first_least (eligible candidates)

In-with_value :
    (v : ℤ) (c : CandidateSelectionInput) (o : Option ℤ) (d : CandidateSelectionInput)
    (rest : List Eligible)
    → In (v, c) (with_value o d rest)
    → ((c ≡ d) × (o ≡ some v)) ⊎ In (v, c) rest
unfolding with_value
In-with_value v c none d rest m = inr m
In-with_value v c (some u) d rest (inl p) =
    inl (ap (λ (x : Eligible). x.1) p, ap (λ (x : Eligible). some x.0) (sym p))
In-with_value v c (some u) d rest (inr m) = inr m

In-with_value_of_In :
    (x : Eligible) (o : Option ℤ) (d : CandidateSelectionInput) (rest : List Eligible)
    → In x rest
    → In x (with_value o d rest)
unfolding with_value
In-with_value_of_In x none d rest m = m
In-with_value_of_In x (some u) d rest m = inr m

-- An entry of `eligible` is a candidate with its value, and the other way round.
In-eligible :
    (cs : List CandidateSelectionInput) (v : ℤ) (c : CandidateSelectionInput)
    → In (v, c) (eligible cs)
    → In c cs × (c.objective_value ≡ some v)
unfolding eligible
In-eligible [] v c h = elim h [ ]
In-eligible (d ∷ cs) v c h = elim (In-with_value v c d.objective_value d (eligible cs) h) [
  | inl (p, e) ↦ (inl p, rw p e)
  | inr m ↦ let (m', e) = In-eligible cs v c m in (inr m', e)
]

In-eligible_of_In :
    (cs : List CandidateSelectionInput) (v : ℤ) (c : CandidateSelectionInput)
    → In c cs
    → c.objective_value ≡ some v
    → In (v, c) (eligible cs)
unfolding eligible
In-eligible_of_In [] v c h e = elim h [ ]
In-eligible_of_In (d ∷ cs) v c (inl p) e = rw (← p) (rw e (inl refl))
In-eligible_of_In (d ∷ cs) v c (inr m) e =
    In-with_value_of_In (v, c) d.objective_value d (eligible cs) (In-eligible_of_In cs v c m e)

-- `c` at value `u` is not ranked before `w` at value `v`.
abbrev pub RanksAfter : ℤ → CandidateSelectionInput → ℤ → CandidateSelectionInput → Type 0
RanksAfter v w u c =
    (u <ℤ v)
    ⊎ ((u ≡ v)
        × ((w.slow_window <ℤ c.slow_window)
            ⊎ ((w.slow_window ≡ c.slow_window)
                × ((w.fast_window <ℤ c.fast_window)
                    ⊎ ((w.fast_window ≡ c.fast_window)
                        × (text_lt c.candidate_id w.candidate_id ≡ false))))))

negated_lt : (u v : ℤ) → ltb_ℤ (pos 0 -ℤ v) (pos 0 -ℤ u) ≡ true → u <ℤ v
unfolding ◌-ℤ◌
negated_lt u v h = ground arith

negated_eq : (u v : ℤ) → pos 0 -ℤ u ≡ pos 0 -ℤ v → u ≡ v
negated_eq u v h = omega (int_laws, ap pos_part h, ap neg_part h)

ranks_by_slow :
    (w c : CandidateSelectionInput)
    → (slow_key c ≺ slow_key w) ≡ false
    → (w.slow_window <ℤ c.slow_window)
      ⊎ ((w.slow_window ≡ c.slow_window)
          × ((w.fast_window <ℤ c.fast_window)
              ⊎ ((w.fast_window ≡ c.fast_window)
                  × (text_lt c.candidate_id w.candidate_id ≡ false))))
ranks_by_slow w c h = elim (lex-eq_false (slow_key c) (slow_key w) h) [
  | inl p ↦ inl (ground arith)
  | inr (p, k) ↦ inr (sym p, by_fast (lex-eq_false (fast_key c) (fast_key w) k))
]
  where
    by_fast :
        (ltb_ℤ w.fast_window c.fast_window ≡ true)
          ⊎ ((c.fast_window ≡ w.fast_window) × (text_lt c.candidate_id w.candidate_id ≡ false))
        → (w.fast_window <ℤ c.fast_window)
          ⊎ ((w.fast_window ≡ c.fast_window) × (text_lt c.candidate_id w.candidate_id ≡ false))
    by_fast (inl p) = inl (ground arith)
    by_fast (inr (p, k)) = inr (sym p, k)

ranks_of_key :
    (v u : ℤ) (w c : CandidateSelectionInput)
    → (sort_key (u, c) ≺ sort_key (v, w)) ≡ false
    → RanksAfter v w u c
unfolding sort_key
ranks_of_key v u w c h = elim (lex-eq_false (sort_key (u, c)) (sort_key (v, w)) h) [
  | inl p ↦ inl (negated_lt u v p)
  | inr (p, k) ↦ inr (negated_eq u v p, ranks_by_slow w c k)
]

-- `some w` is the choice: a candidate of the list, and no other is ranked before it.
first_least_cases :
    (cs : List CandidateSelectionInput) (es : List Eligible)
    → ((x : Eligible) → In x es → In x.1 cs × (x.1.objective_value ≡ some x.0))
    → (w : CandidateSelectionInput) → first_least es ≡ some w
    → (v : ℤ) × (w.objective_value ≡ some v)
      × In w cs
      × ((x : Eligible) → In x es → RanksAfter v w x.0 x.1)
unfolding first_least
first_least_cases cs [] from w h = cc
first_least_cases cs (e ∷ es) from w h =
    let best = min_by sort_key e es in
    let here = from best (In-min_by sort_key e es) in
    let same : best.1 ≡ w = cc in
    (
      best.0,
      subst (λ z. z.objective_value ≡ some best.0) same here.1,
      subst (λ z. In z cs) same here.0,
      λ x m.
          subst (λ z. RanksAfter best.0 z x.0 x.1) same
            (ranks_of_key best.0 x.0 best.1 x.1 (All-In _ (e ∷ es) (min_by-le sort_key e es) x m)),
    )

-- `w` is one of the candidates, has an objective value, and no candidate with an objective value is
-- ranked before it.
abbrev pub IsBest : List CandidateSelectionInput → CandidateSelectionInput → Type 0
IsBest candidates w =
    (v : ℤ) × (w.objective_value ≡ some v)
    × In w candidates
    × ((c : CandidateSelectionInput) (u : ℤ)
        → In c candidates
        → c.objective_value ≡ some u
        → RanksAfter v w u c)

-- The selected candidate is one of the candidates, it has an objective value, and no candidate
-- with an objective value is ranked before it: by a higher value, at equal values by a lower slow
-- window, then by a lower fast window, then by a lesser identifier.
pub select_candidate-IsBest :
    (candidates : List CandidateSelectionInput) (w : CandidateSelectionInput)
    → select_candidate candidates ≡ some w
    → IsBest candidates w
unfolding select_candidate
select_candidate-IsBest cs w h =
    let (v, e, m, best) = first_least_cases cs (eligible cs) (λ x. In-eligible cs x.0 x.1) w h in
    (v, e, m, λ c u k f. best (u, c) (In-eligible_of_In cs u c k f))

not_least : (es : List Eligible) (x : Eligible) → first_least es ≡ none → ¬ In x es
unfolding first_least
not_least [] x h m = m
not_least (e ∷ es) x h m = cc

least_of_nil : (es : List Eligible) → ((x : Eligible) → ¬ In x es) → first_least es ≡ none
unfolding first_least
least_of_nil [] h = refl
least_of_nil (e ∷ es) h = absurd (h e (inl refl))

-- Nothing is selected exactly when no candidate has an objective value.
pub select_candidate-none :
    (candidates : List CandidateSelectionInput)
    → (select_candidate candidates ≡ none)
      ↔ ((c : CandidateSelectionInput) → In c candidates → c.objective_value ≡ none)
unfolding select_candidate
select_candidate-none cs = (
  λ h c m. elim (Option-cases c.objective_value) [
    | inl e ↦ e
    | inr (v, e) ↦ absurd (not_least (eligible cs) (v, c) h (In-eligible_of_In cs v c m e))
  ],
  λ h.
      least_of_nil (eligible cs)
        λ x m. let (k, e) = In-eligible cs x.0 x.1 m in let f = h x.1 k in cc (e, f),
)

-- Two candidates that are not ranked before one another have one identifier.
same_rank :
    (v u : ℤ) (w c : CandidateSelectionInput)
    → RanksAfter v w u c
    → RanksAfter u c v w
    → c.candidate_id ≡ w.candidate_id
same_rank v u w c h k = ground (arith, text_total c.candidate_id w.candidate_id)

-- The choice does not depend on the order in which the candidates are listed, as long as
-- different candidates have different identifiers.
pub select_candidate-ext :
    (xs ys : List CandidateSelectionInput)
    → ((c : CandidateSelectionInput) → In c xs ↔ In c ys)
    → ((c d : CandidateSelectionInput)
        → In c xs
        → In d xs
        → c.candidate_id ≡ d.candidate_id
        → c ≡ d)
    → select_candidate xs ≡ select_candidate ys
select_candidate-ext xs ys same ids = elim (Option-cases (select_candidate xs)) [
  | inl e ↦
      e ∙ sym ((select_candidate-none ys).1 λ c m. (select_candidate-none xs).0 e c ((same c).1 m))
  | inr (w, e) ↦ elim (Option-cases (select_candidate ys)) [
    | inl f ↦
        (select_candidate-none xs).1 (λ c m. (select_candidate-none ys).0 f c ((same c).0 m))
        ∙ sym f
    | inr (c, f) ↦
        e
        ∙ ap some (agree w c (select_candidate-IsBest xs w e) (select_candidate-IsBest ys c f))
        ∙ sym f
  ]
]
  where
    agree : (w c : CandidateSelectionInput) → IsBest xs w → IsBest ys c → w ≡ c
    agree w c (v, e, m, best) (u, f, k, best') =
        ids w c m ((same c).1 k)
          (same_rank u v c w (best' w v ((same w).0 m) e) (best c u ((same c).1 k) f))

-- ===== src/Strategy/Build/RoundTrip.antt =====
-- `build_parameters` reads what `to_canonical_dict` writes.
use idx_backtest_lab.Common.{
  ◌≡◌, refl, ap, subst, some, List, [], ◌∷◌, String, Result, ok, All, ◌>>◌, ◌>>=◌,
}
use idx_backtest_lab.Common.Json.{list, get, as_int, as_text}
use idx_backtest_lab.Strategy.Parameters.{
  Fault, BaseStrategyParameters, sma, rsi, macd, bollinger, check_base, kind_of_base,
  base_canonical_dict, ComboCondition, check_condition, StrategyParameters, base, combo, kind_of,
  MultiIndicatorComboParameters, to_canonical_dict, condition_items, condition_dict, is_in,
}
use idx_backtest_lab.Strategy.Parameters.Valid.{
  IsValidBase, check_base_iff, IsValidParameters, IsValidCombo, check_combo_iff,
}
use idx_backtest_lab.Strategy.Build.{
  or_type_error, int_argument, text_argument, only, no_other, build_sma, build_rsi, build_macd,
  build_bollinger, build_base, condition_of, build_condition, condition_kind, build_from_value,
  build_conditions, build_parameters, build_supported, build_combo_parameters, combo_of,
}

build_base-base_canonical_dict :
    (b : BaseStrategyParameters)
    → check_base b ≡ ok tt
    → build_base (kind_of_base b) (base_canonical_dict b) ≡ ok b
unfolding build_base base_canonical_dict kind_of_base check_base build_sma build_rsi build_macd
    build_bollinger no_other only is_in int_argument text_argument or_type_error get as_int as_text
build_base-base_canonical_dict (sma p) h = ap (λ r. r >> ok (sma p)) h
build_base-base_canonical_dict (rsi p) h = ap (λ r. r >> ok (rsi p)) h
build_base-base_canonical_dict (macd p) h = ap (λ r. r >> ok (macd p)) h
build_base-base_canonical_dict (bollinger p) h = ap (λ r. r >> ok (bollinger p)) h

-- The rest of the loop's body, once the parameters are built.
abbrev with_parameters : String → Result Fault BaseStrategyParameters → Result Fault ComboCondition
with_parameters kind built = do
  b ← built
  check_condition (record { kind = kind; parameters = b })
  ok (record { kind = kind; parameters = b })

written_condition :
    (b : BaseStrategyParameters)
    → check_base b ≡ ok tt
    → condition_of (condition_dict (record { kind = kind_of_base b; parameters = b }))
      ≡ ok (record { kind = kind_of_base b; parameters = b })
unfolding condition_of build_condition condition_kind build_from_value check_condition
    condition_dict kind_of_base get is_in
written_condition (sma p) h =
    ap (with_parameters "sma_crossover") (build_base-base_canonical_dict (sma p) h)
written_condition (rsi p) h =
    ap (with_parameters "rsi_threshold") (build_base-base_canonical_dict (rsi p) h)
written_condition (macd p) h =
    ap (with_parameters "macd_crossover") (build_base-base_canonical_dict (macd p) h)
written_condition (bollinger p) h =
    ap (with_parameters "bollinger_breakout") (build_base-base_canonical_dict (bollinger p) h)

condition_of-condition_dict :
    (c : ComboCondition)
    → (kind_of_base c.parameters ≡ c.kind) × IsValidBase c.parameters
    → condition_of (condition_dict c) ≡ ok c
condition_of-condition_dict c (same, valid) =
    subst
      (λ k.
        condition_of (condition_dict (record { kind = k; parameters = c.parameters }))
        ≡ ok (record { kind = k; parameters = c.parameters }))
      same (written_condition c.parameters ((check_base_iff c.parameters).1 valid))

build_conditions-condition_items :
    (cs : List ComboCondition)
    → All (λ c. (kind_of_base c.parameters ≡ c.kind) × IsValidBase c.parameters) cs
    → build_conditions (condition_items cs) ≡ ok cs
unfolding build_conditions condition_items
build_conditions-condition_items [] h = refl
build_conditions-condition_items (c ∷ cs) h =
    rw (condition_of-condition_dict c h.0, build_conditions-condition_items cs h.1) refl

build_combo-canonical :
    (m : MultiIndicatorComboParameters)
    → IsValidCombo m
    → combo_of (some (list (condition_items m.conditions))) ≡ ok (combo m)
unfolding combo_of
build_combo-canonical m v =
    let checked = (check_combo_iff m).1 (v.at_least_two, v.at_most_three, v.distinct) in
    rw (build_conditions-condition_items m.conditions v.each, checked) refl

-- Valid parameters, written by `to_canonical_dict`, are read back by `build_parameters` as the same
-- parameters: for each of the four base kinds and for a combination.
pub build_parameters-to_canonical_dict :
    (p : StrategyParameters)
    → IsValidParameters p
    → build_parameters (kind_of p) (to_canonical_dict p) ≡ ok p
unfolding build_parameters build_supported build_combo_parameters kind_of kind_of_base
    to_canonical_dict is_in get
build_parameters-to_canonical_dict (base (sma p)) v =
    ap (λ r. r >>= λ b. ok (base b))
      (build_base-base_canonical_dict (sma p) ((check_base_iff (sma p)).1 v))
build_parameters-to_canonical_dict (base (rsi p)) v =
    ap (λ r. r >>= λ b. ok (base b))
      (build_base-base_canonical_dict (rsi p) ((check_base_iff (rsi p)).1 v))
build_parameters-to_canonical_dict (base (macd p)) v =
    ap (λ r. r >>= λ b. ok (base b))
      (build_base-base_canonical_dict (macd p) ((check_base_iff (macd p)).1 v))
build_parameters-to_canonical_dict (base (bollinger p)) v =
    ap (λ r. r >>= λ b. ok (base b))
      (build_base-base_canonical_dict (bollinger p) ((check_base_iff (bollinger p)).1 v))
build_parameters-to_canonical_dict (combo m) v = build_combo-canonical m v

-- ===== src/Strategy/Build/Sound.antt =====
-- What `build_parameters` returns is valid.
use idx_backtest_lab.Common.{
  ◌≡◌, ◌≢◌, true, Result, err, ap, refl, sym, ◌∙◌, subst, raise_if, not, >>-eq-ok, ok-injective,
  inl, inr, List, String, ok, arith, eq_iff, Option, some, ◌>>=◌, All, Bool-cases, >>=-eq-ok,
}
use idx_backtest_lab.Common.Text.{eqs}
use idx_backtest_lab.Common.Json.{Value, mapping, list, Items, end, item, Fields, get, has_whole}
use idx_backtest_lab.Strategy.Parameters.{
  Fault, untyped, BaseStrategyParameters, check_base, kind_of_base, ComboCondition, check_condition,
  StrategyParameters, base, kind_of, is_in, supported_strategy_kinds, unsupported_kind, check_combo,
}
use idx_backtest_lab.Strategy.Parameters.Valid.{
  IsValidBase, check_base_iff, IsValidParameters, check_combo_iff,
}
use idx_backtest_lab.Strategy.Build.Whole.{build_parameters-IsTyped}
use idx_backtest_lab.Strategy.Build.{
  build_sma, build_rsi, build_macd, build_bollinger, build_base, build_from_value, build_condition,
  condition_of, condition_kind, build_conditions, combo_of, build_combo_parameters, build_supported,
  build_parameters,
}

-- Parameters that pass the checks of their class, which is the class of the kind.
abbrev Checked : String → BaseStrategyParameters → Type 0
Checked kind b = (check_base b ≡ ok tt) × (kind_of_base b ≡ kind)

module _ (raw : Fields) (b : BaseStrategyParameters) where
  build_sma-Checked : build_sma raw ≡ ok b → Checked "sma_crossover" b
  unfolding build_sma check_base kind_of_base
  build_sma-Checked h = ground arith

  build_rsi-Checked : build_rsi raw ≡ ok b → Checked "rsi_threshold" b
  unfolding build_rsi check_base kind_of_base
  build_rsi-Checked h = ground arith

  build_macd-Checked : build_macd raw ≡ ok b → Checked "macd_crossover" b
  unfolding build_macd check_base kind_of_base
  build_macd-Checked h = ground arith

  build_bollinger-Checked : build_bollinger raw ≡ ok b → Checked "bollinger_breakout" b
  unfolding build_bollinger check_base kind_of_base
  build_bollinger-Checked h = ground arith

build_base-Checked :
    (kind : String) (raw : Fields) (b : BaseStrategyParameters)
    → build_base kind raw ≡ ok b
    → Checked kind b
unfolding build_base
build_base-Checked kind raw b h = ground (
  arith,
  eq_iff kind "sma_crossover",
  eq_iff kind "rsi_threshold",
  eq_iff kind "macd_crossover",
  eq_iff kind "bollinger_breakout",
  build_sma-Checked raw b,
  build_rsi-Checked raw b,
  build_macd-Checked raw b,
  build_bollinger-Checked raw b,
)

-- Parameters that the build returns for a base kind are accepted ones of that kind.
pub build_base-IsValid :
    (kind : String) (raw : Fields) (b : BaseStrategyParameters)
    → build_base kind raw ≡ ok b
    → IsValidBase b × (kind_of_base b ≡ kind)
build_base-IsValid kind raw b h =
    let (checked, same) = build_base-Checked kind raw b h in ((check_base_iff b).0 checked, same)

abbrev IsValidCondition : ComboCondition → Type 0
IsValidCondition c = (kind_of_base c.parameters ≡ c.kind) × IsValidBase c.parameters

build_from_value-IsValid :
    (kind : String) (v : Value) (b : BaseStrategyParameters)
    → build_from_value kind v ≡ ok b
    → IsValidBase b × (kind_of_base b ≡ kind)
unfolding build_from_value
build_from_value-IsValid kind (mapping raw) b h = build_base-IsValid kind raw b h
build_from_value-IsValid kind v b h = cc

build_condition-IsValid :
    (kind parameters : Option Value) (c : ComboCondition)
    → build_condition kind parameters ≡ ok c
    → IsValidCondition c
unfolding build_condition check_condition
build_condition-IsValid (some kind) (some parameters) c h =
    let (k, hk, h1) = >>=-eq-ok (condition_kind kind) _ h in
    let (b, hb, h2) = >>=-eq-ok (build_from_value k parameters) _ h1 in
    let (valid, same) = build_from_value-IsValid k parameters b hb in
    let e : record { kind = k; parameters = b } ≡ c = ground arith in
    subst (λ c. IsValidCondition c) e (same, valid)
build_condition-IsValid kind parameters c h = cc

condition_of-IsValid : (v : Value) (c : ComboCondition) → condition_of v ≡ ok c → IsValidCondition c
unfolding condition_of
condition_of-IsValid (mapping raw) c h =
    build_condition-IsValid (get "kind" raw) (get "parameters" raw) c h
condition_of-IsValid v c h = cc

build_conditions-IsValid :
    (items : Items) (cs : List ComboCondition)
    → build_conditions items ≡ ok cs
    → All IsValidCondition cs
unfolding build_conditions
build_conditions-IsValid end cs h = subst (λ cs. All IsValidCondition cs) (ok-injective h) tt
build_conditions-IsValid (item v items) cs h =
    let (c, hc, h1) = >>=-eq-ok (condition_of v) _ h in
    let (rest, hr, h2) = >>=-eq-ok (build_conditions items) _ h1 in
    subst (λ cs. All IsValidCondition cs) (ok-injective h2)
      (condition_of-IsValid v c hc, build_conditions-IsValid items rest hr)

combo_of-IsValid :
    (v : Option Value) (p : StrategyParameters)
    → combo_of v ≡ ok p
    → IsValidParameters p × (kind_of p ≡ "multi_indicator_combo")
unfolding combo_of kind_of
combo_of-IsValid (some (list items)) p h =
    let (cs, hc, h1) = >>=-eq-ok (build_conditions items) _ h in
    let (checked, same) = >>-eq-ok (check_combo (record { conditions = cs })) _ h1 in
    let (least, most, distinct) = (check_combo_iff (record { conditions = cs })).0 checked in
    subst (λ p. IsValidParameters p × (kind_of p ≡ "multi_indicator_combo")) (ok-injective same)
      (
        record {
          at_least_two = least;
          at_most_three = most;
          distinct = distinct;
          each = build_conditions-IsValid items cs hc;
        },
        refl,
      )
combo_of-IsValid v p h = cc

build_supported-IsValid :
    (kind : String) (raw : Fields) (p : StrategyParameters)
    → build_supported kind raw ≡ ok p
    → IsValidParameters p × (kind_of p ≡ kind)
unfolding build_supported build_combo_parameters kind_of
build_supported-IsValid kind raw p h = elim (Bool-cases (eqs kind "multi_indicator_combo")) [
  | inl e ↦
      let (valid, same) = combo_of-IsValid (get "conditions" raw) p (ground arith) in
      (valid, same ∙ sym ((eq_iff kind "multi_indicator_combo").0 e))
  | inr e ↦
      let built : (build_base kind raw >>= λ b. ok (base b)) ≡ ok p = ground arith in
      let (b, hb, same) = >>=-eq-ok (build_base kind raw) _ built in
      subst (λ p. IsValidParameters p × (kind_of p ≡ kind)) (ok-injective same)
        (build_base-IsValid kind raw b hb)
]

-- Valid parameters of the kind, or a fault of the source.
abbrev pub Answers : String → Result Fault StrategyParameters → Type 0
Answers kind (ok p) = IsValidParameters p × (kind_of p ≡ kind)
Answers kind (err fault) = fault ≢ untyped

built_parameters :
    (kind : String) (raw : Fields) (p : StrategyParameters)
    → build_parameters kind raw ≡ ok p
    → IsValidParameters p × (kind_of p ≡ kind)
unfolding build_parameters
built_parameters kind raw p h =
    build_supported-IsValid kind raw p
      (>>-eq-ok (raise_if (not (is_in kind supported_strategy_kinds)) unsupported_kind) _ h).1

Answers-of :
    (kind : String) (outcome : Result Fault StrategyParameters)
    → ((p : StrategyParameters) → outcome ≡ ok p → IsValidParameters p × (kind_of p ≡ kind))
    → outcome ≢ err untyped
    → Answers kind outcome
Answers-of kind (ok p) valid typed = valid p refl
Answers-of kind (err fault) valid typed = λ same. typed (ap (λ e. err e) same)

-- From a mapping in which every number is an `int`, `build_parameters` returns parameters that satisfy
-- the conditions of their class, each condition of a combination included, and that belong to the
-- requested kind; or it raises a fault of the source.
pub build_parameters-IsValid :
    (kind : String) (raw : Fields) → has_whole raw ≡ true → Answers kind (build_parameters kind raw)
build_parameters-IsValid kind raw whole =
    Answers-of kind (build_parameters kind raw) (built_parameters kind raw)
      (build_parameters-IsTyped kind raw whole)

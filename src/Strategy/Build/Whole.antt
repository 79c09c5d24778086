-- ===== src/Strategy/Build/Whole.antt =====
-- Where every number is an `int`, the build ends as the source does, never with `untyped`.
use idx_backtest_lab.Common.{
  ◌≡◌, ◌≢◌, refl, Bool, true, false, Option, none, some, List, String, Result, ok, err, ◌>>=◌, ◌>>◌,
  raise_if, if◌then◌else◌, err-injective, arith, not,
}
use idx_backtest_lab.Common.Int.{ℤ}
use idx_backtest_lab.Common.Text.{eqs}
use idx_backtest_lab.Common.Json.{
  Value, boolean, int, fractional, as_int, mapping, list, Items, end, item, Fields, get, is_whole,
  are_whole, has_whole, get-is_whole, and-parts, text, as_text,
}
use idx_backtest_lab.Strategy.Parameters.{
  Fault, untyped, BaseStrategyParameters, check_sma, check_rsi, check_macd, check_bollinger,
  check_price_field, check_base, sma, rsi, macd, bollinger, parameters_do_not_match, ComboCondition,
  check_condition, check_combo, is_in, supported_strategy_kinds, unsupported_kind,
}
use idx_backtest_lab.Strategy.Build.{
  or_type_error, only, whole_argument, int_argument, text_argument, no_other, build_sma, build_rsi,
  build_macd, build_bollinger, build_base, build_from_value, build_condition, condition_of,
  condition_kind, build_conditions, combo_of, build_combo_parameters, build_supported,
  build_parameters,
}

-- A computation that never ends with `untyped`.
abbrev pub IsTyped : {A : Type 0} → Result Fault A → Type 0
IsTyped m = m ≢ err untyped

pub >>=-IsTyped :
    {A B : Type 0} (m : Result Fault A) (f : A → Result Fault B)
    → IsTyped m
    → ((a : A) → m ≡ ok a → IsTyped (f a))
    → IsTyped (m >>= f)
>>=-IsTyped (ok a) f h k = k a refl
>>=-IsTyped (err e) f h k = λ same. h (ground arith)

pub >>-IsTyped :
    {B : Type 0} (m : Result Fault (Unit {0})) (rest : Result Fault B)
    → IsTyped m
    → IsTyped rest
    → IsTyped (m >> rest)
>>-IsTyped (ok u) rest h k = k
>>-IsTyped (err e) rest h k = λ same. h (ground arith)

or_type_error-IsTyped : {A : Type 0} (o : Option A) → IsTyped (or_type_error o)
unfolding or_type_error
or_type_error-IsTyped none = λ e. cc
or_type_error-IsTyped (some a) = λ e. cc

or_type_error-eq_ok : {A : Type 0} (o : Option A) (a : A) → or_type_error o ≡ ok a → o ≡ some a
unfolding or_type_error
or_type_error-eq_ok none a h = cc
or_type_error-eq_ok (some b) a h = cc

whole_argument-IsTyped : (v : Value) → is_whole v ≡ true → IsTyped (whole_argument v)
unfolding whole_argument or_type_error as_int
whole_argument-IsTyped (fractional s) h = cc
whole_argument-IsTyped (int n) h = λ e. cc
whole_argument-IsTyped (boolean true) h = λ e. cc
whole_argument-IsTyped (boolean false) h = λ e. cc
whole_argument-IsTyped v h = λ e. cc

raise_if-IsTyped : (test : Bool) (fault : Fault) → fault ≢ untyped → IsTyped (raise_if test fault)
raise_if-IsTyped true fault h = λ e. h (err-injective e)
raise_if-IsTyped false fault h = λ e. cc

-- The checks of the classes have their own faults.
check_base-IsTyped : (b : BaseStrategyParameters) → IsTyped (check_base b)
unfolding check_base check_sma check_rsi check_macd check_bollinger check_price_field
check_base-IsTyped (sma p) = λ e. ground arith
check_base-IsTyped (rsi p) = λ e. ground arith
check_base-IsTyped (macd p) = λ e. ground arith
check_base-IsTyped (bollinger p) = λ e. ground arith

module _ (raw : Fields) (whole : has_whole raw ≡ true) where
  int_argument-IsTyped : (name : String) → IsTyped (int_argument name raw)
  unfolding int_argument
  int_argument-IsTyped name =
      >>=-IsTyped (or_type_error (get name raw)) whole_argument
        (or_type_error-IsTyped (get name raw))
        λ v e.
          whole_argument-IsTyped v
            (get-is_whole name raw v whole (or_type_error-eq_ok (get name raw) v e))

  text_argument-IsTyped : (name : String) → IsTyped (text_argument name raw)
  unfolding text_argument
  text_argument-IsTyped name =
      >>=-IsTyped (or_type_error (get name raw)) (λ v. or_type_error (as_text v))
        (or_type_error-IsTyped (get name raw)) λ v e. or_type_error-IsTyped (as_text v)

  int_then :
      {B : Type 0} (name : String) (f : ℤ → Result Fault B)
      → ((n : ℤ) → IsTyped (f n))
      → IsTyped (int_argument name raw >>= f)
  int_then name f k = >>=-IsTyped (int_argument name raw) f (int_argument-IsTyped name) λ n e. k n

  text_then :
      {B : Type 0} (name : String) (f : String → Result Fault B)
      → ((s : String) → IsTyped (f s))
      → IsTyped (text_argument name raw >>= f)
  text_then name f k =
      >>=-IsTyped (text_argument name raw) f (text_argument-IsTyped name) λ s e. k s

  checked_then : (b : BaseStrategyParameters) → IsTyped (check_base b >> ok b)
  checked_then b = >>-IsTyped (check_base b) (ok b) (check_base-IsTyped b) (λ h. cc)

  names_then :
      {B : Type 0} (names : List String) (m : Result Fault B)
      → IsTyped m
      → IsTyped (no_other names raw >> m)
  unfolding no_other
  names_then names m h =
      >>-IsTyped (no_other names raw) m
        (raise_if-IsTyped (not (only names raw)) parameters_do_not_match (λ e. cc)) h

  build_sma-IsTyped : IsTyped (build_sma raw)
  unfolding build_sma check_base
  build_sma-IsTyped = names_then _ _ (
      int_then "fast_window" _ λ fast. int_then "slow_window" _ λ slow.
        text_then "price_field" _ λ price.
          checked_then
            (sma (record { fast_window = fast; slow_window = slow; price_field = price })))

  build_rsi-IsTyped : IsTyped (build_rsi raw)
  unfolding build_rsi check_base
  build_rsi-IsTyped = names_then _ _ (
      int_then "period" _ λ period. int_then "oversold_threshold" _ λ oversold.
        int_then "overbought_threshold" _ λ overbought. text_then "price_field" _ λ price.
          checked_then (
            rsi (record {
              period = period;
              oversold_threshold = oversold;
              overbought_threshold = overbought;
              price_field = price;
            })))

  build_macd-IsTyped : IsTyped (build_macd raw)
  unfolding build_macd check_base
  build_macd-IsTyped = names_then _ _ (
      int_then "fast_period" _ λ fast. int_then "slow_period" _ λ slow.
        int_then "signal_period" _ λ signal. text_then "price_field" _ λ price. checked_then (
          macd (record {
            fast_period = fast;
            slow_period = slow;
            signal_period = signal;
            price_field = price;
          })))

  build_bollinger-IsTyped : IsTyped (build_bollinger raw)
  unfolding build_bollinger check_base
  build_bollinger-IsTyped = names_then _ _ (
      int_then "period" _ λ period. int_then "num_std_dev" _ λ deviations.
        text_then "price_field" _ λ price.
          checked_then
            (bollinger (record { period = period; num_std_dev = deviations; price_field = price })))

  if-IsTyped :
      {A : Type 0} (test : Bool) (m m' : Result Fault A)
      → IsTyped m
      → IsTyped m'
      → IsTyped (if test then m else m')
  if-IsTyped true m m' h h' = h
  if-IsTyped false m m' h h' = h'

  build_base-IsTyped : (kind : String) → IsTyped (build_base kind raw)
  unfolding build_base
  build_base-IsTyped kind = if-IsTyped (eqs kind "sma_crossover") _ _ build_sma-IsTyped (
      if-IsTyped (eqs kind "rsi_threshold") _ _ build_rsi-IsTyped (
        if-IsTyped (eqs kind "macd_crossover") _ _ build_macd-IsTyped
          (if-IsTyped (eqs kind "bollinger_breakout") _ _ build_bollinger-IsTyped (λ e. cc))))

build_from_value-IsTyped :
    (kind : String) (v : Value) → is_whole v ≡ true → IsTyped (build_from_value kind v)
unfolding build_from_value
build_from_value-IsTyped kind (mapping raw) h = build_base-IsTyped raw h kind
build_from_value-IsTyped kind v h = λ e. cc

condition_kind-IsTyped : (v : Value) → IsTyped (condition_kind v)
unfolding condition_kind
condition_kind-IsTyped (text kind) = λ e. ground arith
condition_kind-IsTyped (list xs) = λ e. cc
condition_kind-IsTyped (mapping fs) = λ e. cc
condition_kind-IsTyped v = λ e. cc

check_condition-IsTyped : (c : ComboCondition) → IsTyped (check_condition c)
unfolding check_condition
check_condition-IsTyped c = λ e. ground arith

build_condition-IsTyped :
    (kind parameters : Option Value)
    → ((v : Value) → parameters ≡ some v → is_whole v ≡ true)
    → IsTyped (build_condition kind parameters)
unfolding build_condition
build_condition-IsTyped (some kind) (some parameters) h =
    >>=-IsTyped (condition_kind kind) _ (condition_kind-IsTyped kind) λ k e.
      >>=-IsTyped (build_from_value k parameters) _
        (build_from_value-IsTyped k parameters (h parameters refl))
        λ b e'.
          >>-IsTyped (check_condition (record { kind = k; parameters = b })) _
            (check_condition-IsTyped (record { kind = k; parameters = b })) (λ none. cc)
build_condition-IsTyped kind parameters h = λ e. cc

condition_of-IsTyped : (v : Value) → is_whole v ≡ true → IsTyped (condition_of v)
unfolding condition_of
condition_of-IsTyped (mapping raw) h =
    build_condition-IsTyped (get "kind" raw) (get "parameters" raw)
      (λ v. get-is_whole "parameters" raw v h)
condition_of-IsTyped v h = λ e. cc

build_conditions-IsTyped :
    (items : Items) → are_whole items ≡ true → IsTyped (build_conditions items)
unfolding build_conditions
build_conditions-IsTyped end h = λ e. cc
build_conditions-IsTyped (item v items) h =
    let (first, rest) = and-parts (is_whole v) (are_whole items) h in
    >>=-IsTyped (condition_of v) _ (condition_of-IsTyped v first) λ c e.
      >>=-IsTyped (build_conditions items) _ (build_conditions-IsTyped items rest) λ cs e' none. cc

combo_of-IsTyped :
    (o : Option Value) → ((v : Value) → o ≡ some v → is_whole v ≡ true) → IsTyped (combo_of o)
unfolding combo_of check_combo
combo_of-IsTyped (some (list items)) h =
    >>=-IsTyped (build_conditions items) _ (build_conditions-IsTyped items (h (list items) refl))
      λ cs e. λ e'. ground arith
combo_of-IsTyped o h = λ e. cc

-- Where every number in the mapping is an `int`, the build never ends with `untyped`.
pub build_parameters-IsTyped :
    (kind : String) (raw : Fields) → has_whole raw ≡ true → IsTyped (build_parameters kind raw)
unfolding build_parameters build_supported build_combo_parameters
build_parameters-IsTyped kind raw whole =
    >>-IsTyped (raise_if (not (is_in kind supported_strategy_kinds)) unsupported_kind) _
      (raise_if-IsTyped (not (is_in kind supported_strategy_kinds)) unsupported_kind (λ e. cc))
      (if-IsTyped raw whole (eqs kind "multi_indicator_combo") _ _
        (combo_of-IsTyped (get "conditions" raw) (λ v. get-is_whole "conditions" raw v whole))
        (>>=-IsTyped (build_base kind raw) _ (build_base-IsTyped raw whole kind) λ b e none. cc))

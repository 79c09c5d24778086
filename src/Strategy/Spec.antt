-- ===== src/Strategy/Spec.antt =====
-- `SignalPolicy` and `StrategySpecV1` (backend/app/domain/strategy_spec.py) and
-- `create_strategy_spec` (backend/app/application/strategy_spec_service.py) up to the call of the
-- repository. The id, the time, `isoformat`, `compute_checksum` and `canonical_json_bytes` are
-- parameters.
use idx_backtest_lab.Common.{
  ◌≡◌, ◌≢◌, ap, err, refl, Bool, true, false, ◌&&◌, not, String, Result, ok, ◌>>◌, ◌>>=◌, raise_if,
  arith, eq_iff, >>=-eq-ok, >>-eq-ok, ok-injective, subst,
}
use idx_backtest_lab.Common.Int.{ℤ, pos, ◌≤ℤ◌, ltb_ℤ, leb_ℤ}
use idx_backtest_lab.Common.Text.{eqs, is_empty, is_blank}
use idx_backtest_lab.Common.Time.{Datetime}
use idx_backtest_lab.Common.Json.{boolean, int, text, mapping, Fields, done, field, has_whole}
use idx_backtest_lab.Strategy.Parameters.{
  Fault, untyped, Check, StrategyParameters, kind_of, required_warmup_bars, to_canonical_dict,
  is_in, supported_strategy_kinds, signal_time_not_bar_close, eligible_after_bars_not_positive,
  not_long_only, empty_strategy_id, version_not_positive, unsupported_schema_version, blank_name,
  spec_kind_unsupported, spec_kind_mismatch, too_few_warmup_bars, naive_created_at, empty_checksum,
  empty_canonical_json,
}
use idx_backtest_lab.Strategy.Parameters.Valid.{IsValidParameters}
use idx_backtest_lab.Strategy.Build.{build_parameters}
use idx_backtest_lab.Strategy.Build.Whole.{
  IsTyped, >>=-IsTyped, >>-IsTyped, build_parameters-IsTyped,
}
use idx_backtest_lab.Strategy.Build.Sound.{Answers, build_parameters-IsValid}

pub record SignalPolicy : Type 0 where
  pub signal_time : String
  pub eligible_after_bars : ℤ
  pub long_only : Bool

unfoldable pub check_signal_policy : SignalPolicy → Check
check_signal_policy p = do
  raise_if (not (eqs p.signal_time "bar_close")) signal_time_not_bar_close
  raise_if (ltb_ℤ p.eligible_after_bars (pos 1)) eligible_after_bars_not_positive
  raise_if (not p.long_only) not_long_only

unfoldable pub signal_policy_dict : SignalPolicy → Fields
signal_policy_dict p = field "signal_time" (text p.signal_time) (
    field "eligible_after_bars" (int p.eligible_after_bars)
      (field "long_only" (boolean p.long_only) done))

abbrev pub strategy_schema_version : ℤ
strategy_schema_version = pos 1

pub record StrategySpecV1 : Type 0 where
  pub strategy_id : String
  pub version : ℤ
  pub schema_version : ℤ
  pub name : String
  pub kind : String
  pub parameters : StrategyParameters
  pub signal_policy : SignalPolicy
  pub created_at_utc : Datetime
  pub checksum : String
  pub canonical_json : String

unfoldable pub check_spec : StrategySpecV1 → Check
unfolding is_in
check_spec s = do
  raise_if (is_empty s.strategy_id) empty_strategy_id
  raise_if (ltb_ℤ s.version (pos 1)) version_not_positive
  raise_if
      (not (
        leb_ℤ s.schema_version strategy_schema_version
        && leb_ℤ strategy_schema_version s.schema_version))
      unsupported_schema_version
  raise_if (is_blank s.name) blank_name
  raise_if (not (is_in s.kind supported_strategy_kinds)) spec_kind_unsupported
  raise_if (not (eqs (kind_of s.parameters) s.kind)) spec_kind_mismatch
  raise_if (ltb_ℤ s.signal_policy.eligible_after_bars (required_warmup_bars s.parameters))
      too_few_warmup_bars
  raise_if (not s.created_at_utc.is_aware) naive_created_at
  raise_if (is_empty s.checksum) empty_checksum
  raise_if (is_empty s.canonical_json) empty_canonical_json

-- The dictionary that `to_canonical_dict` and `create_strategy_spec` write, by the text of the time.
unfoldable pub canonical : (Datetime → String) → StrategySpecV1 → Fields
unfolding signal_policy_dict to_canonical_dict
canonical format_utc s = field "schema_version" (int s.schema_version) (
    field "strategy_id" (text s.strategy_id) (
      field "version" (int s.version) (
        field "name" (text s.name) (
          field "kind" (text s.kind) (
            field "parameters" (mapping (to_canonical_dict s.parameters)) (
              field "signal_policy" (mapping (signal_policy_dict s.signal_policy))
                (field "created_at_utc" (text (format_utc s.created_at_utc)) done)))))))

-- The arguments of `create_strategy_spec`.
pub record Request : Type 0 where
  pub name : String
  pub kind : String
  pub parameters : Fields
  pub signal_time : String
  pub eligible_after_bars : ℤ
  pub long_only : Bool

module _ (format_utc : Datetime → String) (compute_checksum canonical_text : Fields → String)
    (id_factory : String) (clock : Datetime) where
  -- The object that is built, its checks aside.
  unsealed : Request → StrategyParameters → String → String → StrategySpecV1
  unsealed r parameters checksum canonical_json = record {
    strategy_id = id_factory;
    version = pos 1;
    schema_version = strategy_schema_version;
    name = r.name;
    kind = r.kind;
    parameters = parameters;
    signal_policy = record {
      signal_time = r.signal_time;
      eligible_after_bars = r.eligible_after_bars;
      long_only = r.long_only;
    };
    created_at_utc = clock;
    checksum = checksum;
    canonical_json = canonical_json;
  }

  -- With the checksum and the text of its canonical dictionary, which holds neither.
  sealed : Request → StrategyParameters → StrategySpecV1
  unfolding unsealed canonical
  sealed r parameters =
      let dict = canonical format_utc (unsealed r parameters "" "") in
      unsealed r parameters (compute_checksum dict) (canonical_text dict)

  unfoldable pub create_strategy_spec : Request → Result Fault StrategySpecV1
  unfolding sealed
  create_strategy_spec r = do
    parameters ← build_parameters r.kind r.parameters
    check_signal_policy (sealed r parameters).signal_policy
    check_spec (sealed r parameters)
    ok (sealed r parameters)

  -- A spec that the creation hands to the repository: valid parameters of the requested kind, a
  -- signal policy that waits for at least the strategy's warm-up, and a checksum and a text that are
  -- those of its own canonical dictionary.
  pub record IsSound (r : Request) (s : StrategySpecV1) : Type 0 where
    pub parameters : IsValidParameters s.parameters
    pub kind : kind_of s.parameters ≡ r.kind
    pub same_kind : s.kind ≡ r.kind
    pub warmed_up : required_warmup_bars s.parameters ≤ℤ s.signal_policy.eligible_after_bars
    pub at_bar_close : s.signal_policy.signal_time ≡ "bar_close"
    pub long_only : s.signal_policy.long_only ≡ true
    pub named : is_blank s.name ≡ false
    pub aware : s.created_at_utc.is_aware ≡ true
    pub checksum : s.checksum ≡ compute_checksum (canonical format_utc s)
    pub text : s.canonical_json ≡ canonical_text (canonical format_utc s)

  check_spec-bounds :
      (s : StrategySpecV1)
      → check_spec s ≡ ok tt
      → (required_warmup_bars s.parameters ≤ℤ s.signal_policy.eligible_after_bars)
        × (is_blank s.name ≡ false)
        × (s.created_at_utc.is_aware ≡ true)
  unfolding check_spec
  check_spec-bounds s h = ground arith

  check_signal_policy-fields :
      (p : SignalPolicy)
      → check_signal_policy p ≡ ok tt
      → (p.signal_time ≡ "bar_close") × (p.long_only ≡ true)
  unfolding check_signal_policy
  check_signal_policy-fields p h = ground (arith, eq_iff p.signal_time "bar_close")

  created_spec :
      (r : Request) (s : StrategySpecV1)
      → has_whole r.parameters ≡ true
      → create_strategy_spec r ≡ ok s
      → IsSound r s
  unfolding create_strategy_spec sealed unsealed canonical
  created_spec r s whole h =
      let (p, built, h1) = >>=-eq-ok (build_parameters r.kind r.parameters) _ h in
      let (policy, h2) = >>-eq-ok (check_signal_policy (sealed r p).signal_policy) _ h1 in
      let (checked, same) = >>-eq-ok (check_spec (sealed r p)) _ h2 in
      let (valid, kind) =
        subst (λ o. Answers r.kind o) built (build_parameters-IsValid r.kind r.parameters whole) in
      let (warm, named, aware) = check_spec-bounds (sealed r p) checked in
      let (close, long) = check_signal_policy-fields (sealed r p).signal_policy policy in
      subst (λ s. IsSound r s) (ok-injective same)
        (record {
          parameters = valid;
          kind = kind;
          same_kind = refl;
          warmed_up = warm;
          at_bar_close = close;
          long_only = long;
          named = named;
          aware = aware;
          checksum = refl;
          text = refl;
        })

  -- A sound spec, or a fault of the source.
  abbrev pub Creates : Request → Result Fault StrategySpecV1 → Type 0
  Creates r (ok s) = IsSound r s
  Creates r (err fault) = fault ≢ untyped

  create_strategy_spec-IsTyped :
      (r : Request) → has_whole r.parameters ≡ true → IsTyped (create_strategy_spec r)
  unfolding create_strategy_spec check_signal_policy check_spec
  create_strategy_spec-IsTyped r whole =
      >>=-IsTyped (build_parameters r.kind r.parameters) _
        (build_parameters-IsTyped r.kind r.parameters whole)
        λ p e.
          >>-IsTyped (check_signal_policy (sealed r p).signal_policy) _ (λ h. ground arith)
            (>>-IsTyped (check_spec (sealed r p)) (ok (sealed r p)) (λ h. ground arith) (λ h. cc))

  Creates-of :
      (r : Request) (outcome : Result Fault StrategySpecV1)
      → ((s : StrategySpecV1) → outcome ≡ ok s → IsSound r s)
      → IsTyped outcome
      → Creates r outcome
  Creates-of r (ok s) sound typed = sound s refl
  Creates-of r (err fault) sound typed = λ same. typed (ap (λ e. err e) same)

  -- For a request in whose parameters every number is an `int`, `create_strategy_spec` hands a sound
  -- spec to the repository: its parameters are valid and of the requested kind, its policy waits for
  -- at least the warm-up that they need and is long-only at the bar's close, its name is not blank,
  -- its time is aware, and its checksum and text are those of its own canonical dictionary. Or it
  -- raises a fault of the source.
  pub create_strategy_spec-IsSound :
      (r : Request) → has_whole r.parameters ≡ true → Creates r (create_strategy_spec r)
  create_strategy_spec-IsSound r whole =
      Creates-of r (create_strategy_spec r) (λ s. created_spec r s whole)
        (create_strategy_spec-IsTyped r whole)

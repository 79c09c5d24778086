-- ===== src/Manifest/Parse.antt =====
-- `to_canonical_dict` and `parse_run_manifest` (backend/app/domain/backtest_manifest.py). The text of
-- a decimal, a date and a time, and the reading of it, belong to Python's library and are
-- parameters. The source stores a value of another JSON type than its field's as it is, or meets it in a
-- later step; the classes have no value for it here, and the model ends with `untyped`.
pub mod Typed
use idx_backtest_lab.Common.{
  Bool, true, false, ◌&&◌, not, Option, none, some, List, [], ◌∷◌, String, Result, ok, err, ◌>>◌,
  ◌>>=◌, raise_if, if◌then◌else◌,
}
use idx_backtest_lab.Common.Int.{ℤ}
use idx_backtest_lab.Common.Text.{eqs}
use idx_backtest_lab.Common.Time.{Date, Datetime}
use idx_backtest_lab.Common.Json.{
  Value, int, text, list, mapping, Items, end, item, Fields, done, field, get, as_int, as_text,
}
use idx_backtest_lab.Manifest.Classes.{
  Fault, key_error, type_error, untyped, malformed, Decimal, StrategyRef, check_strategy_ref,
  DatasetRef, check_dataset_ref, Universe, check_universe, SignalAndFill, check_signal_and_fill,
  KindSetting, check_kind_setting, EngineRef, check_engine_ref,
}

-- What is there, or the exception.
unfoldable pub or_raise : {A : Type 0} → Fault → Option A → Result Fault A
or_raise e none = err e
or_raise e (some a) = ok a

unfoldable pub as_mapping : Value → Option Fields
as_mapping (mapping fields) = some fields
as_mapping v = none

unfoldable pub texts : Items → Option (List String)
texts end = some []
texts (item (text s) items) = with_text s (texts items)
  where
    with_text : String → Option (List String) → Option (List String)
    with_text s none = none
    with_text s (some ss) = some (s ∷ ss)
texts (item v items) = none

unfoldable pub as_texts : Value → Option (List String)
unfolding texts
as_texts (list items) = texts items
as_texts v = none

unfoldable pub text_items : List String → Items
text_items [] = end
text_items (s ∷ ss) = item (text s) (text_items ss)

-- `data[key]`
unfoldable pub at : String → Fields → Result Fault Value
unfolding get or_raise
at key raw = or_raise key_error (get key raw)

unfoldable pub text_at : String → Fields → Result Fault String
unfolding at as_text or_raise
text_at key raw = do v ← at key raw; or_raise untyped (as_text v)

unfoldable pub int_at : String → Fields → Result Fault ℤ
unfolding at as_int or_raise
int_at key raw = do v ← at key raw; or_raise untyped (as_int v)

unfoldable pub mapping_at : String → Fields → Result Fault Fields
unfolding at as_mapping or_raise
mapping_at key raw = do v ← at key raw; or_raise untyped (as_mapping v)

unfoldable pub texts_at : String → Fields → Result Fault (List String)
unfolding at as_texts or_raise
texts_at key raw = do v ← at key raw; or_raise untyped (as_texts v)

-- A text that another function reads.
unfoldable pub read_at : {A : Type 0} → (String → Option A) → String → Fields → Result Fault A
unfolding text_at or_raise
read_at read key raw = do s ← text_at key raw; or_raise malformed (read s)

unfoldable pub is_member : String → List String → Bool
is_member s [] = false
is_member s (t ∷ ts) = let rest = is_member s ts in if eqs s t then true else rest

unfoldable pub only : List String → Fields → Bool
unfolding is_member
only names done = true
only names (field key v fields) = is_member key names && only names fields

-- The names that a call with `**fields` takes.
unfoldable pub names_only : List String → Fields → Result Fault (Unit {0})
unfolding only
names_only names fields = raise_if (not (only names fields)) type_error

-- A keyword argument of a call with `**fields`.
unfoldable pub text_keyword : String → Fields → Result Fault String
unfolding get as_text or_raise
text_keyword name fields = do
  v ← or_raise type_error (get name fields)
  or_raise untyped (as_text v)

unfoldable pub int_keyword : String → Fields → Result Fault ℤ
unfolding get as_int or_raise
int_keyword name fields = do v ← or_raise type_error (get name fields); or_raise untyped (as_int v)

-- One that has a default.
unfoldable pub text_default : String → Option Value → Result Fault String
unfolding as_text or_raise
text_default default none = ok default
text_default default (some v) = or_raise untyped (as_text v)

unfoldable pub strategy_ref_dict : StrategyRef → Fields
strategy_ref_dict r =
    field "strategy_id" (text r.strategy_id)
      (field "version" (int r.version) (field "checksum" (text r.checksum) done))

unfoldable pub new_strategy_ref : Fields → Result Fault StrategyRef
unfolding names_only text_keyword int_keyword
new_strategy_ref d = do
  names_only ("strategy_id" ∷ "version" ∷ "checksum" ∷ []) d
  strategy_id ← text_keyword "strategy_id" d
  version ← int_keyword "version" d
  checksum ← text_keyword "checksum" d
  let r : StrategyRef = record { strategy_id = strategy_id; version = version; checksum = checksum }
  check_strategy_ref r
  ok r

unfoldable pub dataset_ref_dict : DatasetRef → Fields
dataset_ref_dict r =
    field "dataset_id" (text r.dataset_id) (field "content_checksum" (text r.content_checksum) done)

unfoldable pub new_dataset_ref : Fields → Result Fault DatasetRef
unfolding names_only text_keyword
new_dataset_ref d = do
  names_only ("dataset_id" ∷ "content_checksum" ∷ []) d
  dataset_id ← text_keyword "dataset_id" d
  content_checksum ← text_keyword "content_checksum" d
  let r : DatasetRef = record { dataset_id = dataset_id; content_checksum = content_checksum }
  check_dataset_ref r
  ok r

unfoldable pub universe_dict : Universe → Fields
universe_dict u =
    field "instrument_ids" (list (text_items u.instrument_ids))
      (field "unresolved_identifier_policy" (text u.unresolved_identifier_policy) done)

unfoldable pub new_universe : Fields → Result Fault Universe
unfolding texts_at text_at
new_universe d = do
  instrument_ids ← texts_at "instrument_ids" d
  policy ← text_at "unresolved_identifier_policy" d
  let u : Universe = record {
    instrument_ids = instrument_ids;
    unresolved_identifier_policy = policy;
  }
  check_universe u
  ok u

unfoldable pub signal_and_fill_dict : SignalAndFill → Fields
signal_and_fill_dict s = field "signal_time" (text s.signal_time) (
    field "fill_time" (text s.fill_time)
      (field "missing_next_bar_policy" (text s.missing_next_bar_policy) done))

unfoldable pub new_signal_and_fill : Fields → Result Fault SignalAndFill
unfolding names_only text_default get
new_signal_and_fill d = do
  names_only ("signal_time" ∷ "fill_time" ∷ "missing_next_bar_policy" ∷ []) d
  signal_time ← text_default "bar_close" (get "signal_time" d)
  fill_time ← text_default "next_bar_open" (get "fill_time" d)
  policy ← text_default "reject" (get "missing_next_bar_policy" d)
  let s : SignalAndFill = record {
    signal_time = signal_time;
    fill_time = fill_time;
    missing_next_bar_policy = policy;
  }
  check_signal_and_fill s
  ok s

unfoldable pub kind_setting_dict : KindSetting → Fields
kind_setting_dict k = field "kind" (text k.kind) done

unfoldable pub new_kind_setting : Fields → Result Fault KindSetting
unfolding names_only text_keyword
new_kind_setting d = do
  names_only ("kind" ∷ []) d
  kind ← text_keyword "kind" d
  check_kind_setting (record { kind = kind })
  ok (record { kind = kind })

unfoldable pub engine_ref_dict : EngineRef → Fields
engine_ref_dict r =
    field "adapter_name" (text r.adapter_name)
      (field "adapter_version" (text r.adapter_version) done)

unfoldable pub new_engine_ref : Fields → Result Fault EngineRef
unfolding names_only text_keyword
new_engine_ref d = do
  names_only ("adapter_name" ∷ "adapter_version" ∷ []) d
  adapter_name ← text_keyword "adapter_name" d
  adapter_version ← text_keyword "adapter_version" d
  let r : EngineRef = record { adapter_name = adapter_name; adapter_version = adapter_version }
  check_engine_ref r
  ok r

-- The text of the library's values and its reading: `format(value, "f")` and `Decimal(text)`,
-- `date.isoformat` and `date.fromisoformat`, `_format_utc` and `_parse_utc`.
pub record Codec : Type 0 where
  pub decimal_str : Decimal → String
  pub read_decimal : String → Option Decimal
  pub format_date : Date → String
  pub read_date : String → Option Date
  pub format_utc : Datetime → String
  pub parse_utc : String → Option Datetime

-- ===== src/Manifest/Parse/Typed.antt =====
-- A dictionary in which every value has the type of its key is read as the source reads it, never with
-- `untyped`.
use idx_backtest_lab.Common.{
  ◌≡◌, ◌≢◌, refl, subst, inl, inr, if_cases, if◌then◌else◌, eq_iff, ok-injective, >>=-eq-ok, Bool,
  true, false, ◌&&◌, not, Option, none, some, List, [], ◌∷◌, String, Result, ok, err, ◌>>=◌, ◌>>◌,
  raise_if, err-injective, arith,
}
use idx_backtest_lab.Common.Text.{eqs}
use idx_backtest_lab.Common.Json.{
  Value, int, text, list, mapping, Items, end, item, Fields, done, field, get, as_int, as_text,
  and-parts,
}
use idx_backtest_lab.Manifest.Classes.{Fault, untyped, key_error, type_error, malformed}
use idx_backtest_lab.Manifest.Parse.{
  or_raise, as_mapping, texts, as_texts, at, text_at, int_at, mapping_at, texts_at, read_at, only,
  names_only, text_keyword, int_keyword, text_default,
}

pub data KeyType : Type 0 where
  int_key mapping_key texts_key text_key : KeyType

abbrev is_of : String → List String → Bool
is_of key [] = false
is_of key (name ∷ names) = if eqs key name then true else is_of key names

-- The type of the values of a key, in the manifest's dictionary and in those in it.
abbrev pub type_of_key : String → KeyType
type_of_key key =
    if is_of key ("schema_version" ∷ "version" ∷ "money_scale" ∷ "annualization_basis" ∷ [])
    then int_key
    else if eqs key "instrument_ids"
    then texts_key
    else if is_of key (
        "strategy_ref" ∷ "dataset_ref" ∷ "universe" ∷ "period" ∷ "capital" ∷ "signal_and_fill"
        ∷ "execution" ∷ "metrics" ∷ "engine_ref" ∷ "benchmark" ∷ "position_sizing" ∷ "rounding"
        ∷ "commission" ∷ "tax" ∷ "slippage" ∷ "liquidity" ∷ "price_limit" ∷ [])
    then mapping_key
    else text_key

abbrev pub are_texts : Items → Bool
are_texts end = true
are_texts (item (text s) items) = are_texts items
are_texts (item v items) = false

-- Every value in a dictionary, and in those in it, has the type of its key.
abbrev mutual
  pub fits : KeyType → Value → Bool
  fits int_key (int n) = true
  fits mapping_key (mapping fields) = has_types fields
  fits texts_key (list items) = are_texts items
  fits text_key (text s) = true
  fits k v = false

  pub has_types : Fields → Bool
  has_types done = true
  has_types (field key v fields) = fits (type_of_key key) v && has_types fields

get-fits :
    (key : String) (fields : Fields) (v : Value)
    → has_types fields ≡ true
    → get key fields ≡ some v
    → fits (type_of_key key) v ≡ true
unfolding get
get-fits key done v h e = cc
get-fits key (field k u fields) v h e =
    let (first, rest) = and-parts (fits (type_of_key k) u) (has_types fields) h in
    elim (if_cases (eqs k key) (some u) (get key fields) e) [
      | inl (same, here) ↦
          let found : u ≡ v = cc in
          subst (λ x. fits (type_of_key key) x ≡ true) found
            (subst (λ x. fits (type_of_key x) u ≡ true) ((eq_iff k key).0 same) first)
      | inr (other, there) ↦ get-fits key fields v rest there
    ]

-- A computation that never ends with `untyped`.
abbrev pub IsTyped : {A : Type 0} → Result Fault A → Type 0
IsTyped m = m ≢ err untyped

pub >>=-IsTyped :
    {A B : Type 0} (m : Result Fault A) (f : A → Result Fault B)
    → IsTyped m
    → ((a : A) → m ≡ ok a → IsTyped (f a))
    → IsTyped (m >>= f)
>>=-IsTyped (ok a) f h k = k a refl
>>=-IsTyped (err e) f h k = λ same. h (ground arith)

pub >>-IsTyped :
    {B : Type 0} (m : Result Fault (Unit {0})) (rest : Result Fault B)
    → IsTyped m
    → IsTyped rest
    → IsTyped (m >> rest)
>>-IsTyped (ok u) rest h k = k
>>-IsTyped (err e) rest h k = λ same. h (ground arith)

pub or_raise-IsTyped :
    {A : Type 0} (e : Fault) (o : Option A) → e ≢ untyped → IsTyped (or_raise e o)
unfolding or_raise
or_raise-IsTyped e none h = λ same. h (err-injective same)
or_raise-IsTyped e (some a) h = λ same. cc

or_raise-eq_ok : {A : Type 0} (e : Fault) (o : Option A) (a : A) → or_raise e o ≡ ok a → o ≡ some a
unfolding or_raise
or_raise-eq_ok e none a h = cc
or_raise-eq_ok e (some b) a h = cc

-- What is read of a value of its type.
text_of : (v : Value) → fits text_key v ≡ true → IsTyped (or_raise untyped (as_text v))
unfolding or_raise as_text
text_of (text s) h = λ e. cc
text_of v h = cc

int_of : (v : Value) → fits int_key v ≡ true → IsTyped (or_raise untyped (as_int v))
unfolding or_raise as_int
int_of (int n) h = λ e. cc
int_of v h = cc

fields_of :
    (v : Value)
    → fits mapping_key v ≡ true
    → IsTyped (or_raise untyped (as_mapping v))
      × ((fields : Fields) → or_raise untyped (as_mapping v) ≡ ok fields → has_types fields ≡ true)
unfolding or_raise as_mapping
fields_of (mapping fs) h = (λ e. cc, λ fields e. subst (λ x. has_types x ≡ true) (ok-injective e) h)
fields_of v h = cc

texts-some : (items : Items) → are_texts items ≡ true → texts items ≢ none
unfolding texts
texts-some end h = λ e. cc
texts-some (item (text s) items) h = λ e. ground (arith, texts-some items h)
texts-some (item v items) h = cc

texts_of : (v : Value) → fits texts_key v ≡ true → IsTyped (or_raise untyped (as_texts v))
unfolding or_raise as_texts
texts_of (list items) h = λ e. ground (arith, texts-some items h)
texts_of v h = cc

raise_if-IsTyped : (test : Bool) (fault : Fault) → fault ≢ untyped → IsTyped (raise_if test fault)
raise_if-IsTyped true fault h = λ e. h (err-injective e)
raise_if-IsTyped false fault h = λ e. cc

module _ (d : Fields) (typed : has_types d ≡ true) where
  value-fits :
      (fault : Fault) (key : String) (v : Value)
      → or_raise fault (get key d) ≡ ok v
      → fits (type_of_key key) v ≡ true
  value-fits fault key v e = get-fits key d v typed (or_raise-eq_ok fault (get key d) v e)

  of_key :
      (k : KeyType) (key : String) (v : Value)
      → type_of_key key ≡ k
      → fits (type_of_key key) v ≡ true
      → fits k v ≡ true
  of_key k key v same h = subst (λ t. fits t v ≡ true) same h

  pub text_at-IsTyped : (key : String) → type_of_key key ≡ text_key → IsTyped (text_at key d)
  unfolding text_at at
  text_at-IsTyped key k =
      >>=-IsTyped (or_raise key_error (get key d)) _ (or_raise-IsTyped key_error _ (λ e. cc))
        λ v e. text_of v (of_key text_key key v k (value-fits key_error key v e))

  pub int_at-IsTyped : (key : String) → type_of_key key ≡ int_key → IsTyped (int_at key d)
  unfolding int_at at
  int_at-IsTyped key k =
      >>=-IsTyped (or_raise key_error (get key d)) _ (or_raise-IsTyped key_error _ (λ e. cc))
        λ v e. int_of v (of_key int_key key v k (value-fits key_error key v e))

  pub texts_at-IsTyped : (key : String) → type_of_key key ≡ texts_key → IsTyped (texts_at key d)
  unfolding texts_at at
  texts_at-IsTyped key k =
      >>=-IsTyped (or_raise key_error (get key d)) _ (or_raise-IsTyped key_error _ (λ e. cc))
        λ v e. texts_of v (of_key texts_key key v k (value-fits key_error key v e))

  -- A computation that goes on with a mapping of the dictionary.
  pub mapping_then :
      {B : Type 0} (key : String) (f : Fields → Result Fault B)
      → type_of_key key ≡ mapping_key
      → ((part : Fields) → has_types part ≡ true → IsTyped (f part))
      → IsTyped (mapping_at key d >>= f)
  unfolding mapping_at at
  mapping_then key f k h =
      >>=-IsTyped (mapping_at key d) f
        (>>=-IsTyped (or_raise key_error (get key d)) _ (or_raise-IsTyped key_error _ (λ e. cc))
          λ v e. (fields_of v (of_key mapping_key key v k (value-fits key_error key v e))).0)
        λ part read.
          let (v, e, e') = >>=-eq-ok (or_raise key_error (get key d)) _ read in
          h part
            ((fields_of v (of_key mapping_key key v k (value-fits key_error key v e))).1 part e')

  pub read_at-IsTyped :
      {A : Type 0} (read : String → Option A) (key : String)
      → type_of_key key ≡ text_key
      → IsTyped (read_at read key d)
  unfolding read_at
  read_at-IsTyped read key k =
      >>=-IsTyped (text_at key d) _ (text_at-IsTyped key k)
        λ s e. or_raise-IsTyped malformed (read s) (λ e. cc)

  pub names_only-IsTyped : (names : List String) → IsTyped (names_only names d)
  unfolding names_only
  names_only-IsTyped names = raise_if-IsTyped (not (only names d)) type_error (λ e. cc)

  pub text_keyword-IsTyped :
      (key : String) → type_of_key key ≡ text_key → IsTyped (text_keyword key d)
  unfolding text_keyword
  text_keyword-IsTyped key k =
      >>=-IsTyped (or_raise type_error (get key d)) _ (or_raise-IsTyped type_error _ (λ e. cc))
        λ v e. text_of v (of_key text_key key v k (value-fits type_error key v e))

  pub int_keyword-IsTyped : (key : String) → type_of_key key ≡ int_key → IsTyped (int_keyword key d)
  unfolding int_keyword
  int_keyword-IsTyped key k =
      >>=-IsTyped (or_raise type_error (get key d)) _ (or_raise-IsTyped type_error _ (λ e. cc))
        λ v e. int_of v (of_key int_key key v k (value-fits type_error key v e))

  pub text_default-IsTyped :
      (default key : String)
      → type_of_key key ≡ text_key
      → IsTyped (text_default default (get key d))
  unfolding text_default
  text_default-IsTyped default key k = from (get key d) refl
    where
      from : (o : Option Value) → get key d ≡ o → IsTyped (text_default default o)
      from none e = λ h. cc
      from (some v) e = text_of v (of_key text_key key v k (get-fits key d v typed e))

-- ===== src/Common/Json.antt =====
-- The values that JSON objects are made of. A number that is not an `int`, a NaN or an infinity too,
-- is known by its text only.
use idx_backtest_lab.Common.{
  ◌≡◌, refl, ◌&&◌, subst, inl, inr, if_cases, Bool, true, false, Option, none, some, String,
  if◌then◌else◌,
}
use idx_backtest_lab.Common.Int.{ℤ, pos}
use idx_backtest_lab.Common.Text.{eqs}

mutual
  pub data Value : Type 0 where
    null : Value
    boolean : Bool → Value
    int : ℤ → Value
    fractional : String → Value
    text : String → Value
    list : Items → Value
    mapping : Fields → Value

  pub data Items : Type 0 where
    end : Items
    item : Value → Items → Items

  pub data Fields : Type 0 where
    done : Fields
    field : String → Value → Fields → Fields

-- `raw.get(key)`
unfoldable pub get : String → Fields → Option Value
get key done = none
get key (field k v fields) = let rest = get key fields in if eqs k key then some v else rest

-- An `int`; `bool` is a kind of `int`.
unfoldable pub as_int : Value → Option ℤ
as_int (int n) = some n
as_int (boolean true) = some (pos 1)
as_int (boolean false) = some (pos 0)
as_int v = none

unfoldable pub as_text : Value → Option String
as_text (text s) = some s
as_text v = none

-- No value in it is a number that is not an `int`.
abbrev mutual
  pub is_whole : Value → Bool
  is_whole (fractional s) = false
  is_whole (list items) = are_whole items
  is_whole (mapping fields) = has_whole fields
  is_whole v = true

  pub are_whole : Items → Bool
  are_whole end = true
  are_whole (item v items) = is_whole v && are_whole items

  pub has_whole : Fields → Bool
  has_whole done = true
  has_whole (field key v fields) = is_whole v && has_whole fields

pub and-parts : (a b : Bool) → (a && b) ≡ true → (a ≡ true) × (b ≡ true)
and-parts true b h = (refl, h)
and-parts false b h = cc

-- A field of such an object is such a value.
pub get-is_whole :
    (key : String) (fields : Fields) (v : Value)
    → has_whole fields ≡ true
    → get key fields ≡ some v
    → is_whole v ≡ true
unfolding get
get-is_whole key done v h e = cc
get-is_whole key (field k u fields) v h e =
    let (first, rest) = and-parts (is_whole u) (has_whole fields) h in
    elim (if_cases (eqs k key) (some u) (get key fields) e) [
      | inl (same, here) ↦ let found : u ≡ v = cc in subst (λ x. is_whole x ≡ true) found first
      | inr (other, there) ↦ get-is_whole key fields v rest there
    ]

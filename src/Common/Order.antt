-- ===== src/Common/Order.antt =====
-- What Python's `sorted`, `min` and `set` use of their elements: a linear order by a Boolean test.
use mathlib.Core.Path.{◌≡◌}
use mathlib.Core.Bool.{Bool, true, false, not, ◌&&◌}
use mathlib.Core.Logic.{◌⊎◌, inl, inr}
use Prim.Native.Nat.{ℕ}
use native.Mathlib.Omega.{arith}
use idx_backtest_lab.Common.Tests.{ltb, if◌then◌else◌, Bool-cases}
use idx_backtest_lab.Common.Int.{ℤ, ltb_ℤ, eq_of_parts}

pub record LinearOrder {ℓ} (A : Type ℓ) : Type ℓ where
  pub precedes : A → A → Bool
  pub irrefl : (a : A) → precedes a a ≡ false
  pub transitive : (a b c : A) → precedes a b ≡ true → precedes b c ≡ true → precedes a c ≡ true
  pub total : (a b : A) → precedes a b ≡ false → precedes b a ≡ false → a ≡ b

module _ {ℓ} {A : Type ℓ} ⦃o : LinearOrder A⦄ where
  -- `a < b`
  infix 50 ◌≺◌
  abbrev pub ◌≺◌ : A → A → Bool
  a ≺ b = o.precedes a b

  -- `a == b`
  infix 50 ◌≈◌
  abbrev pub ◌≈◌ : A → A → Bool
  a ≈ b = not (a ≺ b) && not (b ≺ a)

  pub ≈→eq : (a b : A) → (a ≈ b) ≡ true → a ≡ b
  ≈→eq a b h = ground (arith, o.total a b)

  pub ≈_refl : (a : A) → (a ≈ a) ≡ true
  ≈_refl a = ground (arith, o.irrefl a)

  pub asymmetric : (a b : A) → (a ≺ b) ≡ true → (b ≺ a) ≡ false
  asymmetric a b h = ground (arith, o.irrefl a, o.transitive a b a)

pub nat_irrefl : (a : ℕ) → ltb a a ≡ false
nat_irrefl a = ground arith

pub nat_trans : (a b c : ℕ) → ltb a b ≡ true → ltb b c ≡ true → ltb a c ≡ true
nat_trans a b c p q = ground arith

pub nat_total : (a b : ℕ) → ltb a b ≡ false → ltb b a ≡ false → a ≡ b
nat_total a b p q = ground arith

instance abbrev pub nat_order : LinearOrder ℕ
nat_order = record {
  precedes = ltb;
  irrefl = nat_irrefl;
  transitive = nat_trans;
  total = nat_total;
}

pub int_irrefl : (a : ℤ) → ltb_ℤ a a ≡ false
int_irrefl a = ground arith

pub int_trans : (a b c : ℤ) → ltb_ℤ a b ≡ true → ltb_ℤ b c ≡ true → ltb_ℤ a c ≡ true
int_trans a b c p q = ground arith

pub int_total : (a b : ℤ) → ltb_ℤ a b ≡ false → ltb_ℤ b a ≡ false → a ≡ b
int_total a b p q = eq_of_parts a b (ground arith)

instance abbrev pub int_order : LinearOrder ℤ
int_order = record {
  precedes = ltb_ℤ;
  irrefl = int_irrefl;
  transitive = int_trans;
  total = int_total;
}

-- Tuples compare by their first difference.
module _ {ℓ κ} {A : Type ℓ} {B : Type κ} ⦃o : LinearOrder A⦄ ⦃p : LinearOrder B⦄ where
  abbrev pub lex : A × B → A × B → Bool
  lex (a, b) (c, d) = if a ≺ c then true else if c ≺ a then false else b ≺ d

  pub lex_irrefl : (x : A × B) → lex x x ≡ false
  lex_irrefl (a, b) = ground (arith, o.irrefl a, p.irrefl b)

  pub lex_trans : (x y z : A × B) → lex x y ≡ true → lex y z ≡ true → lex x z ≡ true
  lex_trans (a, b) (c, d) (e, f) h k = ground (
    arith,
    o.total a c,
    o.total c e,
    o.irrefl a,
    o.irrefl c,
    o.irrefl e,
    o.transitive a c e,
    o.transitive c e a,
    o.transitive e a c,
    asymmetric a e,
    asymmetric a c,
    p.transitive b d f,
  )

  pub lex_total : (x y : A × B) → lex x y ≡ false → lex y x ≡ false → x ≡ y
  lex_total (a, b) (c, d) h k = ground (arith, o.total a c, p.total b d, asymmetric a c)

  instance abbrev pub pair_order : LinearOrder (A × B)
  pair_order = record {
    precedes = lex;
    irrefl = lex_irrefl;
    transitive = lex_trans;
    total = lex_total;
  }

  -- What it means that the first tuple is not before the second.
  pub lex-eq_false :
      (x y : A × B) → lex x y ≡ false → ((y.0 ≺ x.0) ≡ true) ⊎ ((x.0 ≡ y.0) × ((x.1 ≺ y.1) ≡ false))
  lex-eq_false (a, b) (c, d) h = elim (Bool-cases (c ≺ a)) [
    | inl e ↦ inl e
    | inr e ↦ inr (o.total a c (ground arith) e, ground arith)
  ]

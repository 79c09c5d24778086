-- ===== src/Artifact/Metrics/Drawdown.antt =====
-- What the loop of `_max_drawdown_metric` computes: the largest relative fall of the equity.
use native.Mathlib.Nat.{mul-le-mul_right}
use idx_backtest_lab.Common.{
  ℕ, ◌+◌, ◌*◌, ◌≡◌, refl, ◌≤◌, ◌<◌, ◌⊎◌, inl, inr, true, false, some, List, [], ◌∷◌, arith,
  if◌then◌else◌, All, Bool-cases, ltb→lt, ltb-eq_false, ap, In, ◌∙◌,
}
use idx_backtest_lab.Common.Int.{
  ℤ, pos, pos_part, neg_part, ◌-ℤ◌, ◌≤ℤ◌, ◌<ℤ◌, ltb_ℤ, *ℤ_parts, -ℤ_parts,
}
use idx_backtest_lab.Artifact.Snapshots.{PortfolioSnapshot}
use idx_backtest_lab.Artifact.Metrics.{
  Fraction, max_ℤ, fraction_lt, min_fraction, drawdown, drawdown_from, no_drawdown,
  max_drawdown_metric, ratio,
}

-- `f` is at most `x / y - 1`, with both divisors multiplied out.
abbrev pub AtMostFall : Fraction → ℕ → ℕ → Type 0
AtMostFall f x y =
    y * pos_part f.numerator + f.denominator * y ≤ f.denominator * x + y * neg_part f.numerator

-- A product that is cancelled.
le_of_mul : (a b k : ℕ) → 0 < k → a * k ≤ b * k → a ≤ b
le_of_mul a b k h m = grind arith

-- `g` is at most `f`, in the parts of the numerators.
abbrev AtMost : Fraction → Fraction → Type 0
AtMost g f =
    f.denominator * pos_part g.numerator + g.denominator * neg_part f.numerator
    ≤ g.denominator * pos_part f.numerator + f.denominator * neg_part g.numerator

AtMost-of_lt : (g f : Fraction) → fraction_lt g f ≡ true → AtMost g f
AtMost-of_lt g f h =
    omega
      (arith, ltb→lt _ _ h, *ℤ_parts f.denominator g.numerator, *ℤ_parts g.denominator f.numerator)

AtMost-of_not_lt : (g f : Fraction) → fraction_lt g f ≡ false → AtMost f g
AtMost-of_not_lt g f h = omega (
  arith,
  ltb-eq_false _ _ h,
  *ℤ_parts f.denominator g.numerator,
  *ℤ_parts g.denominator f.numerator,
)

AtMostFall-of_AtMost :
    (g f : Fraction) (x y : ℕ)
    → 0 < f.denominator
    → AtMost g f
    → AtMostFall f x y
    → AtMostFall g x y
AtMostFall-of_AtMost g f x y h p q =
    le_of_mul _ _ f.denominator h
      (omega (arith, mul-le-mul_right y p, mul-le-mul_right g.denominator q))

module _ (f g : Fraction) (x y : ℕ) where
  min_fraction-le_left : 0 < f.denominator → AtMostFall f x y → AtMostFall (min_fraction f g) x y
  min_fraction-le_left h p = elim (Bool-cases (fraction_lt g f)) [
    | inl e ↦ rw e (AtMostFall-of_AtMost g f x y h (AtMost-of_lt g f e) p)
    | inr e ↦ rw e p
  ]

  min_fraction-le_right : 0 < g.denominator → AtMostFall g x y → AtMostFall (min_fraction f g) x y
  min_fraction-le_right h p = elim (Bool-cases (fraction_lt g f)) [
    | inl e ↦ rw e p
    | inr e ↦ rw e (AtMostFall-of_AtMost f g x y h (AtMost-of_not_lt g f e) p)
  ]

no_negative : (e : ℤ) → pos 0 ≤ℤ e → neg_part e ≡ 0
no_negative e h = ground arith

fall_parts : (e peak y p n : ℕ) → p + peak ≡ n + e → y ≤ peak → y * p + peak * y ≤ peak * e + y * n
fall_parts e peak y p n h le =
    let times : y * (p + peak) ≡ y * (n + e) = ap (λ k. y * k) h in
    omega (arith, times, mul-le-mul_right e le)

-- The fall from the peak is at most the fall from any lower value.
drawdown-le :
    (e peak : ℤ) (y : ℕ)
    → pos 0 ≤ℤ e
    → pos 0 ≤ℤ peak
    → y ≤ pos_part peak
    → AtMostFall (drawdown e peak) (pos_part e) y
drawdown-le e peak y he hp le =
    fall_parts (pos_part e) (pos_part peak) y _ _
      (omega (arith, -ℤ_parts e peak, no_negative e he, no_negative peak hp)) le

-- A relative fall: at most 0 and at least -1, with a positive divisor.
abbrev pub IsFall : Fraction → Type 0
IsFall f = (0 < f.denominator) × (pos_part f.numerator ≡ 0) × (neg_part f.numerator ≤ f.denominator)

drawdown-IsFall : (e peak : ℤ) → pos 0 ≤ℤ e → e ≤ℤ peak → pos 0 <ℤ peak → IsFall (drawdown e peak)
unfolding ◌-ℤ◌
drawdown-IsFall e peak he le hp = ground arith

-- The accumulator after one more snapshot.
abbrev next_drawdown : ℤ → ℤ → Fraction → Fraction
next_drawdown e peak f = if ltb_ℤ (pos 0) peak then min_fraction f (drawdown e peak) else f

next_drawdown-IsFall :
    (e peak : ℤ) (f : Fraction)
    → pos 0 ≤ℤ e
    → e ≤ℤ peak
    → IsFall f
    → IsFall (next_drawdown e peak f)
next_drawdown-IsFall e peak f he le hf = elim (Bool-cases (ltb_ℤ (pos 0) peak)) [
  | inl p ↦ rw p (elim (Bool-cases (fraction_lt (drawdown e peak) f)) [
    | inl q ↦ rw q (drawdown-IsFall e peak he le (ltb→lt _ _ p))
    | inr q ↦ rw q hf
  ])
  | inr p ↦ rw p hf
]

next_drawdown-le :
    (e peak : ℤ) (f : Fraction) (x y : ℕ)
    → IsFall f
    → AtMostFall f x y
    → AtMostFall (next_drawdown e peak f) x y
next_drawdown-le e peak f x y hf h = elim (Bool-cases (ltb_ℤ (pos 0) peak)) [
  | inl p ↦ rw p (min_fraction-le_left f (drawdown e peak) x y hf.0 h)
  | inr p ↦ rw p h
]

next_drawdown-le_fall :
    (e peak : ℤ) (f : Fraction) (y : ℕ)
    → pos 0 ≤ℤ e
    → 0 < y
    → y ≤ pos_part peak
    → AtMostFall (next_drawdown e peak f) (pos_part e) y
next_drawdown-le_fall e peak f y he hy le =
    let p : ltb_ℤ (pos 0) peak ≡ true = ground arith in
    rw p (
      min_fraction-le_right f (drawdown e peak) (pos_part e) y (omega arith)
        (drawdown-le e peak y he (omega (arith, ltb→lt _ _ p)) le))

max_ℤ_bounds : (a b : ℤ) → (a ≤ℤ max_ℤ a b) × (b ≤ℤ max_ℤ a b)
max_ℤ_bounds a b = ground arith

abbrev pub NonNegative : List PortfolioSnapshot → Type 0
NonNegative = All (λ s. pos 0 ≤ℤ s.total_equity)

-- The result is at most what the accumulator is at most, and it stays a fall.
module _ (x y : ℕ) where
  drawdown_from-le :
      (peak : ℤ) (f : Fraction) (ss : List PortfolioSnapshot)
      → NonNegative ss
      → IsFall f
      → AtMostFall f x y
      → AtMostFall (drawdown_from peak f ss) x y
  unfolding drawdown_from
  drawdown_from-le peak f [] hs hf h = h
  drawdown_from-le peak f (s ∷ ss) hs hf h =
      let e = s.total_equity in
      let peak' = max_ℤ peak e in
      drawdown_from-le peak' (next_drawdown e peak' f) ss hs.1
        (next_drawdown-IsFall e peak' f hs.0 (max_ℤ_bounds peak e).1 hf)
        (next_drawdown-le e peak' f x y hf h)

drawdown_from-IsFall :
    (peak : ℤ) (f : Fraction) (ss : List PortfolioSnapshot)
    → NonNegative ss
    → IsFall f
    → IsFall (drawdown_from peak f ss)
unfolding drawdown_from
drawdown_from-IsFall peak f [] hs hf = hf
drawdown_from-IsFall peak f (s ∷ ss) hs hf =
    let e = s.total_equity in
    drawdown_from-IsFall (max_ℤ peak e) (next_drawdown e (max_ℤ peak e) f) ss hs.1
      (next_drawdown-IsFall e (max_ℤ peak e) f hs.0 (max_ℤ_bounds peak e).1 hf)

-- The equity of a snapshot, as a natural number.
abbrev pub equity : PortfolioSnapshot → ℕ
equity s = pos_part s.total_equity

below_peak : (y : ℕ) (a b : ℤ) → y ≤ pos_part a → a ≤ℤ b → y ≤ pos_part b
below_peak y a b h k = ground arith

-- Below the peak there is no value from which a later snapshot falls by more.
drawdown_from-worst :
    (peak : ℤ) (f : Fraction) (y : ℕ) (ss : List PortfolioSnapshot)
    → NonNegative ss
    → IsFall f
    → 0 < y
    → y ≤ pos_part peak
    → All (λ t. AtMostFall (drawdown_from peak f ss) (equity t) y) ss
unfolding drawdown_from
drawdown_from-worst peak f y [] hs hf hy le = tt
drawdown_from-worst peak f y (s ∷ ss) hs hf hy le =
    let e = s.total_equity in
    let peak' = max_ℤ peak e in
    let f' = next_drawdown e peak' f in
    let le' = below_peak y peak peak' le (max_ℤ_bounds peak e).0 in
    let hf' = next_drawdown-IsFall e peak' f hs.0 (max_ℤ_bounds peak e).1 hf in
    (
      drawdown_from-le (equity s) y peak' f' ss hs.1 hf'
          (next_drawdown-le_fall e peak' f y hs.0 hy le'),
      drawdown_from-worst peak' f' y ss hs.1 hf' hy le',
    )

-- `f` is at most the relative change from any snapshot with a positive equity to a later one.
abbrev pub IsWorst : Fraction → List PortfolioSnapshot → Type 0
IsWorst f [] = Unit
IsWorst f (s ∷ ss) =
    (0 < equity s → All (λ t. AtMostFall f (equity t) (equity s)) ss) × IsWorst f ss

drawdown_from-IsWorst :
    (peak : ℤ) (f : Fraction) (ss : List PortfolioSnapshot)
    → NonNegative ss
    → IsFall f
    → IsWorst (drawdown_from peak f ss) ss
unfolding drawdown_from
drawdown_from-IsWorst peak f [] hs hf = tt
drawdown_from-IsWorst peak f (s ∷ ss) hs hf =
    let e = s.total_equity in
    let peak' = max_ℤ peak e in
    let f' = next_drawdown e peak' f in
    let hf' = next_drawdown-IsFall e peak' f hs.0 (max_ℤ_bounds peak e).1 hf in
    (
      λ hy.
          drawdown_from-worst peak' f' (equity s) ss hs.1 hf' hy
            (below_peak (equity s) e peak' (omega arith) (max_ℤ_bounds peak e).1),
      drawdown_from-IsWorst peak' f' ss hs.1 hf',
    )

-- `f` is the relative change from a value to one of the snapshots.
abbrev pub IsFallFrom : Fraction → ℤ → List PortfolioSnapshot → Type 0
IsFallFrom f start ss = (t : PortfolioSnapshot) × In t ss × (f ≡ drawdown t.total_equity start)

-- `f` is the relative change from one of the snapshots to it or a later one.
abbrev pub IsFallIn : Fraction → List PortfolioSnapshot → Type 0
IsFallIn f [] = ⊥
IsFallIn f (s ∷ ss) = IsFallFrom f s.total_equity (s ∷ ss) ⊎ IsFallIn f ss

max_ℤ_cases : (a b : ℤ) → (max_ℤ a b ≡ a) ⊎ (max_ℤ a b ≡ b)
max_ℤ_cases a b = ground arith

next_drawdown_cases :
    (e peak : ℤ) (f : Fraction)
    → (next_drawdown e peak f ≡ f) ⊎ (next_drawdown e peak f ≡ drawdown e peak)
next_drawdown_cases e peak f = elim (Bool-cases (ltb_ℤ (pos 0) peak)) [
  | inl p ↦ rw p (elim (Bool-cases (fraction_lt (drawdown e peak) f)) [
    | inl q ↦ rw q (inr refl)
    | inr q ↦ rw q (inl refl)
  ])
  | inr p ↦ rw p (inl refl)
]

-- What the loop can return.
abbrev Found : Fraction → Fraction → ℤ → List PortfolioSnapshot → Type 0
Found r f peak ss = (r ≡ f) ⊎ (IsFallFrom r peak ss ⊎ IsFallIn r ss)

-- A fall from the new peak is one from the old peak or from the snapshot that raised it.
Found-from :
    (r f : Fraction) (peak : ℤ) (s : PortfolioSnapshot) (ss : List PortfolioSnapshot)
    → IsFallFrom r (max_ℤ peak s.total_equity) (s ∷ ss)
    → Found r f peak (s ∷ ss)
Found-from r f peak s ss (t, m, e) = elim (max_ℤ_cases peak s.total_equity) [
  | inl p ↦ inr (inl (t, m, e ∙ ap (drawdown t.total_equity) p))
  | inr p ↦ inr (inr (inl (t, m, e ∙ ap (drawdown t.total_equity) p)))
]

drawdown_from-Found :
    (peak : ℤ) (f : Fraction) (ss : List PortfolioSnapshot)
    → Found (drawdown_from peak f ss) f peak ss
unfolding drawdown_from
drawdown_from-Found peak f [] = inl refl
drawdown_from-Found peak f (s ∷ ss) =
    let e = s.total_equity in
    let peak' = max_ℤ peak e in
    let f' = next_drawdown e peak' f in
    let r = drawdown_from peak' f' ss in
    elim (drawdown_from-Found peak' f' ss) [
      | inl same ↦ elim (next_drawdown_cases e peak' f) [
        | inl kept ↦ inl (same ∙ kept)
        | inr fell ↦ Found-from r f peak s ss (s, inl refl, same ∙ fell)
      ]
      | inr (inl (t, m, q)) ↦ Found-from r f peak s ss (t, inr m, q)
      | inr (inr inside) ↦ inr (inr (inr inside))
    ]

-- With equities that are not negative, the maximal drawdown lies between -1 and 0, no snapshot's
-- equity falls relative to an earlier one by more, and it is 0 or the relative change between two
-- snapshots.
pub max_drawdown_metric-IsWorst :
    (s : PortfolioSnapshot) (ss : List PortfolioSnapshot)
    → NonNegative (s ∷ ss)
    → (f : Fraction) × ((max_drawdown_metric (s ∷ ss)).value ≡ some (ratio f))
      × IsFall f
      × IsWorst f (s ∷ ss)
      × ((f ≡ no_drawdown) ⊎ IsFallIn f (s ∷ ss))
unfolding max_drawdown_metric
max_drawdown_metric-IsWorst s ss h =
    let none_yet : IsFall no_drawdown = omega arith in
    let e = s.total_equity in
    (
      drawdown_from e no_drawdown (s ∷ ss),
      refl,
      drawdown_from-IsFall e no_drawdown (s ∷ ss) h none_yet,
      drawdown_from-IsWorst e no_drawdown (s ∷ ss) h none_yet,
      elim (drawdown_from-Found e no_drawdown (s ∷ ss)) [
        | inl z ↦ inl z
        | inr (inl x) ↦ inr (inl x)
        | inr (inr x) ↦ inr x
      ],
    )

-- ===== src/Optimization/Grid.antt =====
-- `canonicalize_grid` and `is_valid_candidate_pair` (backend/app/domain/optimization.py).
use idx_backtest_lab.Common.{◌≡◌, refl, Bool, true, ◌&&◌, List, [], ◌∷◌, ◌++◌, arith, if◌then◌else◌}
use idx_backtest_lab.Common.Int.{ℤ, ltb_ℤ}
use idx_backtest_lab.Common.Order.{int_order, pair_order, ◌≈◌}
use idx_backtest_lab.Common.Sorted.{
  contains, to_set, sorted, IsAscending, sorted-IsAscending, to_set-IsDistinct, contains-sorted,
  contains-to_set, sorted-to_set-ext,
}

-- `[(fast, slow) for slow in slows]`
pairs_with : ℤ → List ℤ → List (ℤ × ℤ)
pairs_with fast [] = []
pairs_with fast (slow ∷ slows) = (fast, slow) ∷ pairs_with fast slows

-- `[(fast, slow) for fast in fasts for slow in slows]`
product : List ℤ → List ℤ → List (ℤ × ℤ)
unfolding pairs_with
product [] slows = []
product (fast ∷ fasts) slows = pairs_with fast slows ++ product fasts slows

unfoldable pub canonicalize_grid : List ℤ → List ℤ → List (ℤ × ℤ)
unfolding product
canonicalize_grid fast_windows slow_windows =
    let fast_sorted = sorted (to_set fast_windows) in
    let slow_sorted = sorted (to_set slow_windows) in
    sorted (to_set (product fast_sorted slow_sorted))

unfoldable pub is_valid_candidate_pair : ℤ → ℤ → Bool
is_valid_candidate_pair fast_window slow_window = ltb_ℤ fast_window slow_window

contains-append :
    (p : ℤ × ℤ) (xs ys : List (ℤ × ℤ))
    → contains p (xs ++ ys) ≡ (if contains p xs then true else contains p ys)
unfolding contains
contains-append p [] ys = refl
contains-append p (x ∷ xs) ys = ground (arith, contains-append p xs ys)

-- Pairs are equal when both parts are.
pair_≈ : (a b c d : ℤ) → (◌≈◌ {A = ℤ × ℤ} (a, b) (c, d)) ≡ ((a ≈ c) && (b ≈ d))
pair_≈ a b c d = ground arith

contains-pairs_with :
    (fast a b : ℤ) (slows : List ℤ)
    → contains (a, b) (pairs_with fast slows) ≡ ((a ≈ fast) && contains b slows)
unfolding contains pairs_with
contains-pairs_with fast a b [] = ground arith
contains-pairs_with fast a b (slow ∷ slows) =
    ground (arith, pair_≈ a b fast slow, contains-pairs_with fast a b slows)

contains-product :
    (a b : ℤ) (fasts slows : List ℤ)
    → contains (a, b) (product fasts slows) ≡ (contains a fasts && contains b slows)
unfolding contains product
contains-product a b [] slows = refl
contains-product a b (fast ∷ fasts) slows =
    rw (contains-append (a, b) (pairs_with fast slows) (product fasts slows)) (
      rw (contains-pairs_with fast a b slows)
        (rw (contains-product a b fasts slows) (ground arith)))

-- The grid lists exactly the pairs of a declared fast window and a declared slow window.
pub contains-canonicalize_grid :
    (fast_windows slow_windows : List ℤ) (fast slow : ℤ)
    → contains (fast, slow) (canonicalize_grid fast_windows slow_windows)
      ≡ (contains fast fast_windows && contains slow slow_windows)
unfolding canonicalize_grid
contains-canonicalize_grid fs ss a b = simp (contains-sorted, contains-to_set, contains-product)

-- The grid is in strictly ascending order, so it lists no pair twice.
pub canonicalize_grid-IsAscending :
    (fast_windows slow_windows : List ℤ) → IsAscending (canonicalize_grid fast_windows slow_windows)
unfolding canonicalize_grid
canonicalize_grid-IsAscending fs ss = sorted-IsAscending _ (to_set-IsDistinct _)

-- The order of the windows, and repetitions among them, make no difference to the grid.
pub canonicalize_grid-ext :
    (fasts fasts' slows slows' : List ℤ)
    → ((w : ℤ) → contains w fasts ≡ contains w fasts')
    → ((w : ℤ) → contains w slows ≡ contains w slows')
    → canonicalize_grid fasts slows ≡ canonicalize_grid fasts' slows'
unfolding canonicalize_grid
canonicalize_grid-ext fs fs' ss ss' hf hs =
    cc (sorted-to_set-ext fs fs' hf, sorted-to_set-ext ss ss' hs)

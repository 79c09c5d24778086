-- ===== src/Common/Distinct.antt =====
-- `len(set(xs)) == len(xs)`, the test for repetitions.
use idx_backtest_lab.Common.{◌≡◌, ◌↔◌, ◌≤◌, refl, false, List, [], ◌∷◌, String, arith, length}
use idx_backtest_lab.Common.Text.{text_order}
use idx_backtest_lab.Common.Sorted.{to_set, IsDistinct, contains, contains-to_set}

length-to_set-le : (xs : List String) → length (to_set xs) ≤ length xs
unfolding to_set
length-to_set-le [] = omega arith
length-to_set-le (x ∷ xs) = ground (arith, length-to_set-le xs)

-- `len(set(xs)) == len(xs)` exactly when nothing is repeated.
pub length-to_set_iff : (xs : List String) → (length (to_set xs) ≡ length xs) ↔ IsDistinct xs
unfolding to_set
length-to_set_iff [] = (λ h. tt, λ h. refl)
length-to_set_iff (x ∷ xs) = (
  λ h.
      let new : contains x xs ≡ false = ground (arith, contains-to_set x xs, length-to_set-le xs) in
      (new, (length-to_set_iff xs).0 (ground (arith, contains-to_set x xs))),
  λ h. ground (arith, contains-to_set x xs, (length-to_set_iff xs).1 h.1),
)

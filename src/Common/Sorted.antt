-- ===== src/Common/Sorted.antt =====
-- `set(xs)`, `sorted(xs)` and `min(xs, key=...)` over a linear order.
use mathlib.Core.Path.{subst}
use idx_backtest_lab.Common.{
  inl, inr, In, ◌⊎◌, ◌≡◌, inl, inr, refl, Bool, true, false, List, [], ◌∷◌, arith, if◌then◌else◌,
  Bool-cases, All, sym, ◌∙◌,
}
use idx_backtest_lab.Common.Order.{LinearOrder, ◌≺◌, ◌≈◌, ≈→eq, ≈_refl, asymmetric}

module _ {ℓ} {A : Type ℓ} ⦃o : LinearOrder A⦄ where
  -- `a in xs`
  unfoldable pub contains : A → List A → Bool
  contains a [] = false
  contains a (x ∷ xs) = let rest = contains a xs in if a ≈ x then true else rest

  -- `set(xs)`, as a list without repetitions. Its order is used by no caller.
  unfoldable pub to_set : List A → List A
  unfolding contains
  to_set [] = []
  to_set (x ∷ xs) = let rest = to_set xs in if contains x rest then rest else x ∷ rest

  unfoldable pub insert : A → List A → List A
  insert a [] = a ∷ []
  insert a (x ∷ xs) = let rest = insert a xs in if x ≺ a then x ∷ rest else a ∷ x ∷ xs

  unfoldable pub sorted : List A → List A
  unfolding insert
  sorted [] = []
  sorted (x ∷ xs) = insert x (sorted xs)

  -- Strictly ascending.
  abbrev pub IsAscending : List A → Type 0
  IsAscending [] = Unit
  IsAscending (x ∷ xs) = All (λ y. (x ≺ y) ≡ true) xs × IsAscending xs

  -- No element occurs twice.
  abbrev pub IsDistinct : List A → Type 0
  IsDistinct [] = Unit
  IsDistinct (x ∷ xs) = (contains x xs ≡ false) × IsDistinct xs

  pub contains-to_set : (a : A) (xs : List A) → contains a (to_set xs) ≡ contains a xs
  unfolding contains to_set
  contains-to_set a [] = refl
  contains-to_set a (x ∷ xs) = elim (Bool-cases (a ≈ x)) [
    | inl e ↦ ground (arith, ≈→eq a x e, contains-to_set a xs, contains-to_set x xs)
    | inr e ↦ ground (arith, contains-to_set a xs)
  ]

  pub to_set-IsDistinct : (xs : List A) → IsDistinct (to_set xs)
  unfolding contains to_set
  to_set-IsDistinct [] = tt
  to_set-IsDistinct (x ∷ xs) = ground (arith, to_set-IsDistinct xs)

  pub contains-insert :
      (b a : A) (xs : List A) → contains b (insert a xs) ≡ (if b ≈ a then true else contains b xs)
  unfolding contains insert
  contains-insert b a [] = refl
  contains-insert b a (x ∷ xs) = ground (arith, contains-insert b a xs)

  pub contains-sorted : (b : A) (xs : List A) → contains b (sorted xs) ≡ contains b xs
  unfolding contains sorted
  contains-sorted b [] = refl
  contains-sorted b (x ∷ xs) =
      rw (contains-insert b x (sorted xs)) (rw (contains-sorted b xs) (ground arith))

  All-insert : (P : A → Type 0) (a : A) (xs : List A) → P a → All P xs → All P (insert a xs)
  unfolding insert
  All-insert P a [] p h = (p, tt)
  All-insert P a (x ∷ xs) p h = elim (Bool-cases (x ≺ a)) [
    | inl e ↦ rw e (h.0, All-insert P a xs p h.1)
    | inr e ↦ rw e (p, h)
  ]

  All-above :
      (a x : A) (xs : List A)
      → (a ≺ x) ≡ true
      → All (λ y. (x ≺ y) ≡ true) xs
      → All (λ y. (a ≺ y) ≡ true) xs
  All-above a x [] h k = tt
  All-above a x (y ∷ xs) h k = (o.transitive a x y h k.0, All-above a x xs h k.1)

  insert-IsAscending :
      (a : A) (xs : List A) → contains a xs ≡ false → IsAscending xs → IsAscending (insert a xs)
  unfolding contains insert
  insert-IsAscending a [] h k = (tt, tt)
  insert-IsAscending a (x ∷ xs) h k = elim (Bool-cases (x ≺ a)) [
    | inl e ↦ rw e (All-insert _ a xs e k.0, insert-IsAscending a xs (ground arith) k.1)
    | inr e ↦ let f : (a ≺ x) ≡ true = ground arith in rw e ((f, All-above a x xs f k.0), k)
  ]

  pub sorted-IsAscending : (xs : List A) → IsDistinct xs → IsAscending (sorted xs)
  unfolding sorted
  sorted-IsAscending [] h = tt
  sorted-IsAscending (x ∷ xs) h =
      insert-IsAscending x (sorted xs) (rw (contains-sorted x xs) h.0) (sorted-IsAscending xs h.1)

  not_below :
      (x : A) (xs : List A) (b : A)
      → All (λ y. (x ≺ y) ≡ true) xs
      → contains b xs ≡ true
      → (x ≺ b) ≡ true
  unfolding contains
  not_below x [] b h k = cc
  not_below x (y ∷ xs) b h k = elim (Bool-cases (b ≈ y)) [
    | inl e ↦ rw (≈→eq b y e) h.0
    | inr e ↦ not_below x xs b h.1 (ground arith)
  ]

  absent_above : (x : A) (xs : List A) → All (λ y. (x ≺ y) ≡ true) xs → contains x xs ≡ false
  absent_above x xs h = elim (Bool-cases (contains x xs)) [
    | inl e ↦ absurd (ground (arith, not_below x xs x h e, o.irrefl x))
    | inr e ↦ e
  ]

  -- The tails of two ascending lists with one head and the same elements.
  same_tails :
      (x : A) (xs ys : List A)
      → All (λ y. (x ≺ y) ≡ true) xs
      → All (λ y. (x ≺ y) ≡ true) ys
      → ((b : A) → contains b (x ∷ xs) ≡ contains b (x ∷ ys))
      → (b : A) → contains b xs ≡ contains b ys
  unfolding contains
  same_tails x xs ys h k e b = elim (Bool-cases (b ≈ x)) [
    | inl q ↦ rw (≈→eq b x q) (absent_above x xs h ∙ sym (absent_above x ys k))
    | inr q ↦ ground (arith, e b)
  ]

  same_heads :
      (x y : A) (xs ys : List A)
      → All (λ z. (x ≺ z) ≡ true) xs
      → All (λ z. (y ≺ z) ≡ true) ys
      → ((b : A) → contains b (x ∷ xs) ≡ contains b (y ∷ ys))
      → x ≡ y
  unfolding contains
  same_heads x y xs ys h k e = ground (
    arith,
    e x,
    e y,
    ≈_refl x,
    ≈_refl y,
    ≈→eq x y,
    asymmetric x y,
    not_below x xs y h,
    not_below y ys x k,
  )

  -- Two ascending lists with the same elements are one list.
  pub IsAscending-ext :
      (xs ys : List A)
      → IsAscending xs
      → IsAscending ys
      → ((b : A) → contains b xs ≡ contains b ys)
      → xs ≡ ys
  unfolding contains
  IsAscending-ext [] [] h k e = refl
  IsAscending-ext [] (y ∷ ys) h k e = ground (arith, e y, ≈_refl y)
  IsAscending-ext (x ∷ xs) [] h k e = ground (arith, e x, ≈_refl x)
  IsAscending-ext (x ∷ xs) (y ∷ ys) h k e =
      let same = sym (same_heads x y xs ys h.0 k.0 e) in
      let above : All (λ z. (x ≺ z) ≡ true) ys =
        subst (λ z. All (λ w. (z ≺ w) ≡ true) ys) same k.0 in
      let agree : (b : A) → contains b (x ∷ xs) ≡ contains b (x ∷ ys) =
        subst (λ z. (b : A) → contains b (x ∷ xs) ≡ contains b (z ∷ ys)) same e in
      cc (same, IsAscending-ext xs ys h.1 k.1 (same_tails x xs ys h.0 above agree))

  -- What `sorted(set(xs))` returns depends only on which elements `xs` has.
  pub sorted-to_set-ext :
      (xs ys : List A)
      → ((b : A) → contains b xs ≡ contains b ys)
      → sorted (to_set xs) ≡ sorted (to_set ys)
  sorted-to_set-ext xs ys e =
      IsAscending-ext _ _ (sorted-IsAscending _ (to_set-IsDistinct xs))
        (sorted-IsAscending _ (to_set-IsDistinct ys))
        λ b. simp (contains-sorted, contains-to_set) (e b)

-- `not (b < a)` is transitive.
not_below_trans {ℓ} :
    {K : Type ℓ} ⦃o : LinearOrder K⦄ (a b c : K)
    → (b ≺ a) ≡ false
    → (c ≺ b) ≡ false
    → (c ≺ a) ≡ false
not_below_trans ⦃o⦄ a b c h k =
    ground (arith, o.total a b, o.transitive c a b, o.irrefl a, o.irrefl b)

-- `min(xs, key=...)`: the first of the elements with the least key.
module _ {ℓ} {K : Type ℓ} {A : Type 0} ⦃o : LinearOrder K⦄ (key : A → K) where
  -- The element that is kept, of the best so far and the next.
  lesser : A → A → A
  lesser best x = if key x ≺ key best then x else best

  unfoldable pub min_by : A → List A → A
  unfolding lesser
  min_by best [] = best
  min_by best (x ∷ xs) = min_by (lesser best x) xs

  lesser-le :
      (best x : A)
      → ((key best ≺ key (lesser best x)) ≡ false) × ((key x ≺ key (lesser best x)) ≡ false)
  unfolding lesser
  lesser-le best x =
      ground (arith, o.irrefl (key x), o.irrefl (key best), asymmetric (key x) (key best))

  lesser_cases : (best x : A) → (lesser best x ≡ best) ⊎ (lesser best x ≡ x)
  unfolding lesser
  lesser_cases best x = ground arith

  pub In-min_by : (best : A) (xs : List A) → In (min_by best xs) (best ∷ xs)
  unfolding min_by lesser
  In-min_by best [] = inl refl
  In-min_by best (x ∷ xs) = place (In-min_by (lesser best x) xs)
    where
      place : {b : A} → In b (lesser best x ∷ xs) → In b (best ∷ x ∷ xs)
      place (inr m) = inr (inr m)
      place (inl e) = elim (lesser_cases best x) [ inl f ↦ inl (e ∙ f) | inr f ↦ inr (inl (e ∙ f)) ]

  -- No element has a lesser key.
  pub min_by-le :
      (best : A) (xs : List A) → All (λ x. (key x ≺ key (min_by best xs)) ≡ false) (best ∷ xs)
  unfolding min_by lesser
  min_by-le best [] = (o.irrefl (key best), tt)
  min_by-le best (x ∷ xs) =
      let rest = min_by-le (lesser best x) xs in
      let both = lesser-le best x in
      (
        not_below_trans {K = K} _ _ _ rest.0 both.0,
        (not_below_trans {K = K} _ _ _ rest.0 both.1, rest.1),
      )

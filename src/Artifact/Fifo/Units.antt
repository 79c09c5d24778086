-- ===== src/Artifact/Fifo/Units.antt =====
-- First in, first out share by share: the queue holds the price of every open share, and a sale
-- takes as many shares off its front as it sells.
use Prim.Native.Nat.add
use mathlib.Core.Path.{ap₂}
use mathlib.Core.List.{append-nil, append_assoc}
use native.Mathlib.Decide.{dec_lt}
use native.Mathlib.Nat.{zero-add}
use idx_backtest_lab.Common.{
  ℕ, zero, suc, ◌+◌, ◌-◌, ◌≡◌, refl, true, false, List, [], ◌∷◌, ◌++◌, ◌==◌, min, arith, ap, sym,
  length, ◌<◌, ◌≤◌, lt→ltb, ◌∙◌,
}
use idx_backtest_lab.Common.Int.{ℤ, pos, ◌+ℤ◌, ◌-ℤ◌, ◌*ℤ◌, int_laws}
use idx_backtest_lab.Execution.{FillEvent, OrderSide, buy, sell}
use idx_backtest_lab.Artifact.Fifo.{
  Lot, close_lots, costs, on_fill, realized_from, compute_fifo_realized_pnl,
}

-- The shares of a number of shares at one price.
abbrev pub shares : ℕ → ℤ → List ℤ
shares zero price = []
shares (suc n) price = price ∷ shares n price

-- The open shares of the open lots, oldest first.
unfoldable pub shares_of : List Lot → List ℤ
shares_of [] = []
shares_of ((quantity, price) ∷ lots) = shares quantity price ++ shares_of lots

-- Sell `n` shares at a price: the profit, and the shares that stay open. No share is sold that is
-- not open.
unfoldable pub sell_shares : ℤ → ℕ → List ℤ → ℤ × List ℤ
sell_shares price zero open_shares = (pos 0, open_shares)
sell_shares price (suc n) [] = (pos 0, [])
sell_shares price (suc n) (cost ∷ open_shares) =
    let (profit, rest) = sell_shares price n open_shares in (profit +ℤ (price -ℤ cost), rest)

share_step : OrderSide → FillEvent → List ℤ → (List ℤ → List ℤ) → List ℤ
unfolding sell_shares
share_step buy fill open_shares later = later (open_shares ++ shares fill.quantity fill.price)
share_step sell fill open_shares later =
    let (profit, rest) = sell_shares fill.price fill.quantity open_shares in
    (profit -ℤ costs fill) ∷ later rest

unfoldable pub share_profits : List FillEvent → List ℤ → List ℤ
unfolding share_step
share_profits [] open_shares = []
share_profits (fill ∷ fills) open_shares =
    share_step fill.side fill open_shares (share_profits fills)

sell_shares-nil : (price : ℤ) (n : ℕ) → sell_shares price n [] ≡ (pos 0, [])
unfolding sell_shares
sell_shares-nil price zero = refl
sell_shares-nil price (suc n) = refl

-- One more share of a lot.
*ℤ-suc : (m : ℕ) (a p : ℤ) → p +ℤ m *ℤ a +ℤ a ≡ p +ℤ suc m *ℤ a
*ℤ-suc m a p = omega int_laws

zero-*ℤ : (a p : ℤ) → p ≡ p +ℤ 0 *ℤ a
zero-*ℤ a p = omega int_laws

-- Selling `m` shares of one price and then `n` more.
module _ (price cost : ℤ) (n : ℕ) (open_shares : List ℤ) where
  sell_shares-lot :
      (m : ℕ)
      → sell_shares price (m + n) (shares m cost ++ open_shares) ≡ (
        (sell_shares price n open_shares).0 +ℤ m *ℤ (price -ℤ cost),
        (sell_shares price n open_shares).1,
      )
  unfolding sell_shares
  sell_shares-lot zero =
      rw zero-add (ap (λ p. (p, (sell_shares price n open_shares).1)) (zero-*ℤ _ _))
  sell_shares-lot (suc m) = rw (add.suc m n) (
      ap (λ (x : ℤ × List ℤ). (x.0 +ℤ (price -ℤ cost), x.1)) (sell_shares-lot m)
      ∙ ap (λ p. (p, (sell_shares price n open_shares).1)) (*ℤ-suc m (price -ℤ cost) _))

shares-add : (m n : ℕ) (cost : ℤ) → shares (m + n) cost ≡ shares m cost ++ shares n cost
shares-add zero n cost = rw zero-add refl
shares-add (suc m) n cost = rw (add.suc m n) (ap (◌∷◌ cost) (shares-add m n cost))

min-eq_right : (r q : ℕ) → q ≤ r → min r q ≡ q
min-eq_right r q h = omega arith

min-eq_left : (r q : ℕ) → r ≤ q → min r q ≡ r
min-eq_left r q h = omega arith

module _ (price cost pnl : ℤ) (r q : ℕ) (lots : List Lot) (more : 0 < r) where
  -- A lot that is sold whole is taken off the queue.
  close_lots-whole :
      q ≤ r
      → close_lots price r pnl ((q, cost) ∷ lots)
        ≡ close_lots price (r - q) (pnl +ℤ q *ℤ (price -ℤ cost)) lots
  unfolding close_lots
  close_lots-whole h =
      let same : (q == q) ≡ true = ground arith in
      rw (lt→ltb 0 r more, min-eq_right r q h) (rw same)

  -- A lot that is larger stays at the front, smaller, and the sale is done.
  close_lots-part :
      r < q
      → close_lots price r pnl ((q, cost) ∷ lots)
        ≡ (pnl +ℤ r *ℤ (price -ℤ cost), (q - r, cost) ∷ lots)
  unfolding close_lots
  close_lots-part h =
      let differ : (r == q) ≡ false = ground arith in
      rw (lt→ltb 0 r more, min-eq_left r q (omega arith)) (rw differ)

-- The profit of a sale, on top of the profit so far, and the shares that stay open.
abbrev IsSale : ℤ → ℕ → ℤ → List ℤ → ℤ × List Lot → Type 0
IsSale price r pnl open_shares result =
    (result.0 ≡ pnl +ℤ (sell_shares price r open_shares).0)
    × (shares_of result.1 ≡ (sell_shares price r open_shares).1)

-- The shares of a lot, the first `r` of them apart.
split_lot :
    (r q : ℕ) (cost : ℤ) (open_shares : List ℤ)
    → r < q
    → shares q cost ++ open_shares ≡ shares r cost ++ (shares (q - r) cost ++ open_shares)
split_lot r q cost open_shares h =
    let parts : q ≡ r + (q - r) = omega arith in
    ap (λ n. shares n cost ++ open_shares) parts
    ∙ ap (λ l. l ++ open_shares) (shares-add r (q - r) cost)
    ∙ append_assoc (shares r cost) (shares (q - r) cost) open_shares

module _ (price cost : ℤ) (r q : ℕ) (open_shares : List ℤ) where
  sell_whole :
      q ≤ r
      → sell_shares price r (shares q cost ++ open_shares) ≡ (
        (sell_shares price (r - q) open_shares).0 +ℤ q *ℤ (price -ℤ cost),
        (sell_shares price (r - q) open_shares).1,
      )
  sell_whole h =
      let parts : r ≡ q + (r - q) = omega arith in
      ap (λ n. sell_shares price n (shares q cost ++ open_shares)) parts
      ∙ sell_shares-lot price cost (r - q) open_shares q

  sell_part :
      r < q
      → sell_shares price r (shares q cost ++ open_shares)
        ≡ (pos 0 +ℤ r *ℤ (price -ℤ cost), shares (q - r) cost ++ open_shares)
  unfolding sell_shares
  sell_part h =
      let parts : r ≡ r + 0 = omega arith in
      ap (λ l. sell_shares price r l) (split_lot r q cost open_shares h)
      ∙ ap (λ n. sell_shares price n (shares r cost ++ (shares (q - r) cost ++ open_shares))) parts
      ∙ sell_shares-lot price cost 0 (shares (q - r) cost ++ open_shares) r

module _ (price : ℤ) where
  part-IsSale :
      (r q : ℕ) (cost pnl : ℤ) (lots : List Lot)
      → r < q
      → IsSale price r pnl
          (shares_of ((q, cost) ∷ lots))
          (pnl +ℤ r *ℤ (price -ℤ cost), (q - r, cost) ∷ lots)
  unfolding shares_of
  part-IsSale r q cost pnl lots h =
      rw (sell_part price cost r q (shares_of lots) h) (omega int_laws, refl)

  whole-IsSale :
      (r q : ℕ) (cost pnl : ℤ) (lots : List Lot) (result : ℤ × List Lot)
      → q ≤ r
      → IsSale price (r - q) (pnl +ℤ q *ℤ (price -ℤ cost)) (shares_of lots) result
      → IsSale price r pnl (shares_of ((q, cost) ∷ lots)) result
  unfolding shares_of
  whole-IsSale r q cost pnl lots result h (profit, rest) =
      rw (sell_whole price cost r q (shares_of lots) h) (rw profit (omega int_laws), rest)

  -- The loop over the lots sells the shares of the lots, on top of the profit so far.
  close_lots-IsSale :
      (r : ℕ) (pnl : ℤ) (lots : List Lot)
      → IsSale price r pnl (shares_of lots) (close_lots price r pnl lots)
  close_lots-IsSale r pnl [] =
      unfold close_lots shares_of in rw (sell_shares-nil price r) (omega int_laws, refl)
  close_lots-IsSale zero pnl ((q, c) ∷ lots) =
      unfold close_lots sell_shares in (omega int_laws, refl)
  close_lots-IsSale (suc r) pnl ((q, c) ∷ lots) = elim (dec_lt (suc r) q) [
    | yes h ↦
        rw (close_lots-part price c pnl (suc r) q lots (omega arith) h)
          (part-IsSale (suc r) q c pnl lots h)
    | no h ↦
        let fits : q ≤ suc r = omega arith in
        rw (close_lots-whole price c pnl (suc r) q lots (omega arith) fits)
          (whole-IsSale (suc r) q c pnl lots _ fits (close_lots-IsSale (suc r - q) _ lots))
  ]

shares_of-append :
    (lots : List Lot) (q : ℕ) (price : ℤ)
    → shares_of (lots ++ (q, price) ∷ []) ≡ shares_of lots ++ shares q price
unfolding shares_of
shares_of-append [] q price = append-nil (shares q price)
shares_of-append ((r, cost) ∷ lots) q price =
    rw (shares_of-append lots q price) (sym (append_assoc (shares r cost) _ _))

zero-+ℤ : (a : ℤ) → pos 0 +ℤ a ≡ a
zero-+ℤ a = omega int_laws

-- One fill, when the later fills agree.
on_fill-eq :
    (side : OrderSide) (fill : FillEvent) (lots : List Lot) (fills : List FillEvent)
    → ((l : List Lot) → realized_from fills l ≡ share_profits fills (shares_of l))
    → on_fill side fill lots (realized_from fills)
      ≡ share_step side fill (shares_of lots) (share_profits fills)
unfolding on_fill share_step
on_fill-eq buy fill lots fills later =
    later (lots ++ (fill.quantity, fill.price) ∷ [])
    ∙ ap (share_profits fills) (shares_of-append lots fill.quantity fill.price)
on_fill-eq sell fill lots fills later =
    let (profit, rest) = close_lots-IsSale fill.price fill.quantity (pos 0) lots in
    ap₂ (λ p l. (p -ℤ costs fill) ∷ l) (profit ∙ zero-+ℤ _)
      (later _ ∙ ap (share_profits fills) rest)

realized_from-eq :
    (fills : List FillEvent) (lots : List Lot)
    → realized_from fills lots ≡ share_profits fills (shares_of lots)
unfolding realized_from share_profits
realized_from-eq [] lots = refl
realized_from-eq (fill ∷ fills) lots =
    on_fill-eq fill.side fill lots fills (λ l. realized_from-eq fills l)

-- The profits that are realized lot by lot are those of selling single shares, first in, first
-- out.
pub compute_fifo_realized_pnl-eq_shares :
    (fills : List FillEvent) → compute_fifo_realized_pnl fills ≡ share_profits fills []
unfolding compute_fifo_realized_pnl
compute_fifo_realized_pnl-eq_shares fills = unfold shares_of in realized_from-eq fills []

-- How many of the fills are sales.
abbrev pub sale_count : List FillEvent → ℕ
sale_count [] = 0
sale_count (fill ∷ fills) = elim fill.side [
  | buy ↦ sale_count fills
  | sell ↦ suc (sale_count fills)
]

length-on_fill :
    (side : OrderSide) (fill : FillEvent) (lots : List Lot) (fills : List FillEvent)
    → ((l : List Lot) → length (realized_from fills l) ≡ sale_count fills)
    → length (on_fill side fill lots (realized_from fills))
      ≡ elim side [ buy ↦ sale_count fills | sell ↦ suc (sale_count fills) ]
unfolding on_fill
length-on_fill buy fill lots fills later = later _
length-on_fill sell fill lots fills later = ap suc (later _)

length-realized_from :
    (fills : List FillEvent) (lots : List Lot)
    → length (realized_from fills lots) ≡ sale_count fills
unfolding realized_from
length-realized_from [] lots = refl
length-realized_from (fill ∷ fills) lots =
    length-on_fill fill.side fill lots fills (λ l. length-realized_from fills l)

-- Every sale is one trade, also a sale that closes no open share.
pub length-compute_fifo_realized_pnl :
    (fills : List FillEvent) → length (compute_fifo_realized_pnl fills) ≡ sale_count fills
unfolding compute_fifo_realized_pnl
length-compute_fifo_realized_pnl fills = length-realized_from fills []

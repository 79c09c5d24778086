-- ===== src/Engine/Callbacks/Orders.antt =====
-- The orders of the strategy: each is settled at most once, and each fill is that of a filled order.
use idx_backtest_lab.Common.{
  ℕ, suc, ◌+◌, ◌≤◌, ◌≡◌, refl, subst, ◌⊎◌, inl, inr, Bool, true, false, some, List, [], ◌∷◌, ◌++◌,
  String, ok, Bool-cases, if_cases, ◌==◌, arith, eq_iff,
}
use idx_backtest_lab.Common.Text.{eqs}
use idx_backtest_lab.Common.Time.{Datetime}
use idx_backtest_lab.Execution.{OrderSide, OrderEvent}
use idx_backtest_lab.Engine.State.{Params, OrderContext, State, init_state, context_of, without}
use idx_backtest_lab.Engine.Callbacks.{Callback, submit, warn, fill_on, reject, handle_all}
use idx_backtest_lab.Engine.Callbacks.Steps.{
  Step, idle, warned, submitted, filled_order, rejected_order, handle_all-invariant,
}

-- How often an order is settled, and how often it is open.
abbrev bit : Bool → ℕ
bit true = 1
bit false = 0

abbrev pub settled : String → List OrderEvent → ℕ
settled id [] = 0
settled id (e ∷ es) = bit (eqs e.order_id id) + settled id es

abbrev pub open_orders : String → List (ℕ × OrderContext) → ℕ
open_orders id [] = 0
open_orders id ((r, c) ∷ cs) = bit (eqs c.order_id id) + open_orders id cs

settled-append :
    (id : String) (es : List OrderEvent) (e : OrderEvent)
    → settled id (es ++ e ∷ []) ≡ settled id es + bit (eqs e.order_id id)
settled-append id [] e = omega arith
settled-append id (x ∷ es) e = omega (arith, settled-append id es e)

open_orders-without :
    (id : String) (ref : ℕ) (cs : List (ℕ × OrderContext))
    → open_orders id (without ref cs) ≤ open_orders id cs
unfolding without
open_orders-without id ref [] = omega arith
open_orders-without id ref ((r, c) ∷ cs) = ground (arith, open_orders-without id ref cs)

open_orders-found :
    (id : String) (ref : ℕ) (c : OrderContext) (cs : List (ℕ × OrderContext))
    → context_of ref cs ≡ some c
    → bit (eqs c.order_id id) + open_orders id (without ref cs) ≤ open_orders id cs
unfolding without context_of
open_orders-found id ref c [] h = cc
open_orders-found id ref c ((r, d) ∷ cs) h =
    elim (if_cases (r == ref) (some d) (context_of ref cs) h) [
      | inl (same, found) ↦
          let id_eq : d.order_id ≡ c.order_id = cc in
          rw (same, id_eq) (omega (arith, open_orders-without id ref cs))
      | inr (other, found) ↦ rw other (omega (arith, open_orders-found id ref c cs found))
    ]

-- Every id of the factory is that of an order that is settled or open at most once, and an id that it
-- has not given out is neither.
record IsOrderly (p : Params) (s : State) : Type 0 where
  once : (id : String) → settled id s.order_events + open_orders id s.order_context ≤ 1
  fresh :
      (k : ℕ)
      → s.ids_taken ≤ k
      → settled (p.id_factory k) s.order_events + open_orders (p.id_factory k) s.order_context ≡ 0

module _ (p : Params) (distinct : (j k : ℕ) → p.id_factory j ≡ p.id_factory k → j ≡ k) where
  submit-IsOrderly :
      (ref : ℕ) (side : OrderSide) (quantity : ℕ) (created_at : Datetime) (s : State)
      → IsOrderly p s
      → IsOrderly p (submit p ref side quantity created_at s)
  unfolding submit
  submit-IsOrderly ref side quantity created_at s h = record {
    once = λ id. once_of id (Bool-cases (eqs (p.id_factory s.ids_taken) id));
    fresh =
        λ k taken. fresh_of k taken (Bool-cases (eqs (p.id_factory s.ids_taken) (p.id_factory k)));
  }
    where
      once_of :
          (id : String)
          → (eqs (p.id_factory s.ids_taken) id ≡ true) ⊎ (eqs (p.id_factory s.ids_taken) id ≡ false)
          → settled id s.order_events
              + (bit (eqs (p.id_factory s.ids_taken) id)
                  + open_orders id (without ref s.order_context))
            ≤ 1
      once_of id (inl new) =
          let same : p.id_factory s.ids_taken ≡ id = (eq_iff (p.id_factory s.ids_taken) id).0 new in
          let unused : settled id s.order_events + open_orders id s.order_context ≡ 0 =
            subst (λ i. settled i s.order_events + open_orders i s.order_context ≡ 0) same
              (h.fresh s.ids_taken (omega arith)) in
          rw new (omega (arith, unused, open_orders-without id ref s.order_context))
      once_of id (inr old) =
          rw old (omega (arith, h.once id, open_orders-without id ref s.order_context))

      fresh_of :
          (k : ℕ)
          → suc s.ids_taken ≤ k
          → (eqs (p.id_factory s.ids_taken) (p.id_factory k) ≡ true)
            ⊎ (eqs (p.id_factory s.ids_taken) (p.id_factory k) ≡ false)
          → settled (p.id_factory k) s.order_events
              + (bit (eqs (p.id_factory s.ids_taken) (p.id_factory k))
                  + open_orders (p.id_factory k) (without ref s.order_context))
            ≡ 0
      fresh_of k taken (inl new) = omega (
        arith,
        distinct s.ids_taken k ((eq_iff (p.id_factory s.ids_taken) (p.id_factory k)).0 new),
      )
      fresh_of k taken (inr old) = rw old (
          omega (
            arith,
            h.fresh k (omega arith),
            open_orders-without (p.id_factory k) ref s.order_context,
          ))

  settle-IsOrderly :
      (ref : ℕ) (c : OrderContext) (e : OrderEvent) (s t : State)
      → context_of ref s.order_context ≡ some c
      → e.order_id ≡ c.order_id
      → t.order_events ≡ s.order_events ++ e ∷ []
      → t.order_context ≡ without ref s.order_context
      → t.ids_taken ≡ s.ids_taken
      → IsOrderly p s
      → IsOrderly p t
  settle-IsOrderly ref c e s t known id_eq events context taken h =
      let moves : (id : String)
          → settled id t.order_events + open_orders id t.order_context
            ≤ settled id s.order_events + open_orders id s.order_context =
        λ id.
          rw (events, context, settled-append id s.order_events e, id_eq)
            (omega (arith, open_orders-found id ref c s.order_context known)) in
      record {
        once = λ id. omega (arith, moves id, h.once id);
        fresh = λ k new. omega (arith, moves (p.id_factory k), h.fresh k (omega (arith, taken)));
      }

  Step-IsOrderly : (s s' : State) → Step p s s' → IsOrderly p s → IsOrderly p s'
  unfolding warn fill_on reject
  Step-IsOrderly s s' (idle t) h = h
  Step-IsOrderly s s' (warned warning t) h = record { once = h.once; fresh = h.fresh }
  Step-IsOrderly s s' (submitted ref side quantity created_at t positive) h =
      submit-IsOrderly ref side quantity created_at t h
  Step-IsOrderly s s' (filled_order ref c bar t known) h =
      settle-IsOrderly ref c _ t (fill_on p ref c t bar) known refl refl refl refl h
  Step-IsOrderly s s' (rejected_order ref c status_name t known) h =
      settle-IsOrderly ref c _ t (reject p ref c status_name t) known refl refl refl refl h

  -- When the factory never gives the same id twice, no callbacks make the strategy report an order
  -- twice, be it as filled or as rejected, or report it while it is still open.
  pub handle_all-once :
      (calls : List Callback) (s : State)
      → handle_all p calls (init_state p) ≡ ok s
      → (id : String) → settled id s.order_events + open_orders id s.order_context ≤ 1
  unfolding init_state
  handle_all-once calls s e =
      let start : IsOrderly p (init_state p) = record {
        once = λ id. omega arith;
        fresh = λ k taken. omega arith;
      } in
      (handle_all-invariant p (IsOrderly p) Step-IsOrderly calls (init_state p) s e start).once

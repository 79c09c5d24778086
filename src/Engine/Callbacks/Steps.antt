-- ===== src/Engine/Callbacks/Steps.antt =====
-- What one callback does to the strategy, as a step relation, and the invariants of a run.
use idx_backtest_lab.Common.{
  ℕ, ◌<◌, ◌≡◌, refl, subst, inl, inr, ◌&&◌, Option, none, some, List, [], ◌∷◌, String, Result, ok,
  ◌>>=◌, if◌then◌else◌, >>=-eq-ok, ok-injective, if_cases, arith, Bool-cases,
}
use idx_backtest_lab.Common.Int.{ℤ, pos, pos_part, ltb_ℤ, leb_ℤ}
use idx_backtest_lab.Common.Time.{Datetime}
use idx_backtest_lab.Market.Bar.{NormalizedBar}
use idx_backtest_lab.Execution.{OrderSide, buy, sell, ExecutionWarning}
use idx_backtest_lab.Engine.Sizing.{Raised, int_quantity}
use idx_backtest_lab.Engine.State.{Params, OrderContext, State, bar_at, context_of}
use idx_backtest_lab.Engine.Callbacks.{
  BtStatus, completed, another, Callback, next, notify_order, submit, warn, submit_sized,
  submit_entry, submit_exit, trade_on, on_next, fill_on, handle_fill, reject, notify_known,
  on_notify, handle, handle_all,
}

-- Nothing; a warning; an order of some shares; the fill or the rejection of an open order.
pub data Step (p : Params) : State → State → Type 0 where
  idle : (s : State) → Step p s s
  warned : (warning : ExecutionWarning) (s : State) → Step p s (warn warning s)
  submitted :
      (ref : ℕ) (side : OrderSide) (quantity : ℕ) (created_at : Datetime) (s : State)
      → 0 < quantity
      → Step p s (submit p ref side quantity created_at s)
  filled_order :
      (ref : ℕ) (c : OrderContext) (bar : NormalizedBar) (s : State)
      → context_of ref s.order_context ≡ some c
      → Step p s (fill_on p ref c s bar)
  rejected_order :
      (ref : ℕ) (c : OrderContext) (status_name : String) (s : State)
      → context_of ref s.order_context ≡ some c
      → Step p s (reject p ref c status_name s)

module _ (p : Params) where
  idle_of : (s s' : State) → ◌≡◌ {A = Result Raised State} (ok s) (ok s') → Step p s s'
  idle_of s s' e = subst (λ t. Step p s t) (ok-injective e) (idle s)

  submit_sized-Step :
      (bar : NormalizedBar) (ref : ℕ) (s : State) (quantity : ℤ)
      → Step p s (submit_sized p bar ref s quantity)
  unfolding submit_sized
  submit_sized-Step bar ref s quantity = elim (Bool-cases (leb_ℤ quantity (pos 0))) [
    | inl none_left ↦ rw none_left (warned _ s)
    | inr some_left ↦
        rw some_left (submitted ref buy (pos_part quantity) bar.timestamp_utc s (ground arith))
  ]

  submit_entry-Step :
      (bar : NormalizedBar) (ref : ℕ) (s s' : State)
      → submit_entry p bar ref s ≡ ok s'
      → Step p s s'
  unfolding submit_entry
  submit_entry-Step bar ref s s' e =
      let sized =
        int_quantity p.arithmetic p.unit_places p.money_scale s.available_cash p.fraction bar.close
          p.quantity_increment in
      let sent : ℤ → Result Raised State = λ quantity. ok (submit_sized p bar ref s quantity) in
      elim (if_cases (leb_ℤ bar.close (pos 0)) (ok s) (sized >>= sent) e) [
        | inl (worthless, same) ↦ idle_of s s' same
        | inr (priced, ordered) ↦
            let (quantity, _, same) = >>=-eq-ok sized sent ordered in
            subst (λ t. Step p s t) (ok-injective same) (submit_sized-Step bar ref s quantity)
      ]

  exit-Step :
      (length_data : ℕ) (size : ℤ) (ref : ℕ) (s s' : State) (bar : NormalizedBar)
      → ◌≡◌ {A = Result Raised State}
          (if ltb_ℤ (pos 0) size && p.exit_signal length_data
            then ok (submit_exit p bar ref size s)
            else ok s)
          (ok s')
      → Step p s s'
  unfolding submit_exit
  exit-Step length_data size ref s s' bar e =
      elim (if_cases (ltb_ℤ (pos 0) size && p.exit_signal length_data)
        (ok (submit_exit p bar ref size s)) (ok s) e) [
          | inl (exits, same) ↦
              subst (λ t. Step p s t) (ok-injective same)
                (submitted ref sell (pos_part size) bar.timestamp_utc s (ground arith))
          | inr (waits, same) ↦ idle_of s s' same
        ]

  trade_on-Step :
      (length_data : ℕ) (size : ℤ) (ref : ℕ) (s s' : State) (bar : NormalizedBar)
      → trade_on p length_data size ref s bar ≡ ok s'
      → Step p s s'
  unfolding trade_on
  trade_on-Step length_data size ref s s' bar e =
      elim (if_cases _ (submit_entry p bar ref s)
        (if ltb_ℤ (pos 0) size && p.exit_signal length_data
          then ok (submit_exit p bar ref size s)
          else ok s)
        e) [
          | inl (enters, entered) ↦ submit_entry-Step bar ref s s' entered
          | inr (other, e') ↦ exit-Step length_data size ref s s' bar e'
        ]

  on_next-Step :
      (length_data : ℕ) (size : ℤ) (ref : ℕ) (s s' : State)
      → on_next p length_data size ref s ≡ ok s'
      → Step p s s'
  unfolding on_next
  on_next-Step length_data size ref s s' e =
      let traded = bar_at p.bars length_data >>= trade_on p length_data size ref s in
      elim (if_cases (ltb_ℤ (pos length_data) p.eligible_after_bars) (ok s) traded e) [
        | inl (early, same) ↦ idle_of s s' same
        | inr (late, e') ↦
            let (bar, _, done) = >>=-eq-ok (bar_at p.bars length_data) _ e' in
            trade_on-Step length_data size ref s s' bar done
      ]

  notify_known-Step :
      (length_data ref : ℕ) (status : BtStatus) (name : String) (c : OrderContext) (s s' : State)
      → context_of ref s.order_context ≡ some c
      → notify_known p length_data ref status name c s ≡ ok s'
      → Step p s s'
  unfolding notify_known handle_fill
  notify_known-Step length_data ref completed name c s s' known e =
      let (bar, _, same) = >>=-eq-ok (bar_at p.bars length_data) _ e in
      subst (λ t. Step p s t) (ok-injective same) (filled_order ref c bar s known)
  notify_known-Step length_data ref another name c s s' known e = idle_of s s' e
  notify_known-Step length_data ref status name c s s' known e =
      subst (λ t. Step p s t) (ok-injective e) (rejected_order ref c name s known)

  on_notify-Step :
      (length_data ref : ℕ) (status : BtStatus) (name : String) (o : Option OrderContext)
      (s s' : State)
      → context_of ref s.order_context ≡ o
      → on_notify p length_data ref status name s o ≡ ok s'
      → Step p s s'
  unfolding on_notify
  on_notify-Step length_data ref status name none s s' known e = idle_of s s' e
  on_notify-Step length_data ref status name (some c) s s' known e =
      notify_known-Step length_data ref status name c s s' known e

  pub handle-Step : (call : Callback) (s s' : State) → handle p call s ≡ ok s' → Step p s s'
  unfolding handle
  handle-Step (next length_data size ref) s s' e = on_next-Step length_data size ref s s' e
  handle-Step (notify_order length_data ref status name) s s' e =
      on_notify-Step length_data ref status name (context_of ref s.order_context) s s' refl e

  -- What every step keeps holds after any callbacks.
  pub handle_all-invariant :
      (P : State → Type 0)
      → ((s s' : State) → Step p s s' → P s → P s')
      → (calls : List Callback) (s s' : State) → handle_all p calls s ≡ ok s'
      → P s
      → P s'
  unfolding handle_all
  handle_all-invariant P keeps [] s s' e h = subst P (ok-injective e) h
  handle_all-invariant P keeps (call ∷ calls) s s' e h =
      let (t, first, later) = >>=-eq-ok (handle p call s) _ e in
      handle_all-invariant P keeps calls t s' later (keeps s t (handle-Step call s t first) h)

-- ===== src/Subscription/Fines.antt =====
-- Fines and the price of a payment (src/subscription_maintenance.rs).
use gt06n_tcp_server.Prelude.{
  ℕ, zero, suc, ◌*◌, ◌^◌, ◌≤◌, ◌<◌, ◌≡◌, refl, sym, subst, ◌↔◌, arith, Bool, true, not,
  if◌then◌else◌, Option, none, some,
}
use gt06n_tcp_server.Prelude.Int.{
  ℤ, pos, negsuc, pos_part, neg_part, ◌+ℤ◌, ◌≤ℤ◌, +ℤ_nonneg, int_laws, wrap_i64, wrap_i64_self,
  ltb_ℤ,
}
use gt06n_tcp_server.Chrono.{Chrono, IsChrono}
use gt06n_tcp_server.Subscription.{
  withdrawal, fine_amount_for_overdue_days, subscription_max_fine_idr, max_zero, is_none,
  is_instant, lifecycle_for, wib_date, days_until_expiry_wib, overdue_days_wib,
  subscription_lifecycle_state, payment_quote, customer_referenced_device_fee_idr,
}

-- A fine is never negative and never above the cap, it does not fall as days pass, it is a thousand
-- rupiah a day up to the seventh day and the cap from then on.
pub fine_amount_for_overdue_days_bounds :
    (d e : ℤ)
    → d ≤ℤ e
    → (pos 0 ≤ℤ fine_amount_for_overdue_days d)
      × (fine_amount_for_overdue_days d ≤ℤ fine_amount_for_overdue_days e)
      × (fine_amount_for_overdue_days e ≤ℤ subscription_max_fine_idr)
      × ((n : ℕ) → d ≡ pos n → n ≤ 7 → fine_amount_for_overdue_days d ≡ pos (n * 1000))
      × ((n : ℕ) → d ≡ pos n → 7 ≤ n → fine_amount_for_overdue_days d ≡ subscription_max_fine_idr)
unfolding fine_amount_for_overdue_days
fine_amount_for_overdue_days_bounds d e h =
    (ground arith, ground arith, ground arith, λ n eq k. ground arith, λ n eq k. ground arith)

-- The prices that the program deals in.
abbrev pub IsPrice : ℤ → Type 0
IsPrice a = (neg_part a ≡ 0) × (pos_part a < 2 ^ 60)

fine_IsPrice : (d : ℤ) → IsPrice (fine_amount_for_overdue_days d)
unfolding fine_amount_for_overdue_days
fine_IsPrice d = ground arith

abbrev pub fee_or_zero : Option ℤ → ℤ
fee_or_zero none = pos 0
fee_or_zero (some fee) = fee

wrapped_sum :
    (a b c d : ℤ)
    → IsPrice a
    → IsPrice b
    → IsPrice c
    → IsPrice d
    → wrap_i64 (wrap_i64 (wrap_i64 (a +ℤ b) +ℤ c) +ℤ d) ≡ a +ℤ b +ℤ c +ℤ d
wrapped_sum a b c d ha hb hc hd =
    let ab = +ℤ_nonneg a b ha.0 hb.0 in
    let abc = +ℤ_nonneg (a +ℤ b) c ab.0 hc.0 in
    let abcd = +ℤ_nonneg (a +ℤ b +ℤ c) d abc.0 hd.0 in
    rw
      (
        wrap_i64_self (a +ℤ b) (omega arith, omega arith),
        wrap_i64_self (a +ℤ b +ℤ c) (omega arith, omega arith),
        wrap_i64_self (a +ℤ b +ℤ c +ℤ d) (omega arith, omega arith),
      )
      refl

fine_capped : (d : ℤ) → pos_part (fine_amount_for_overdue_days d) ≤ 7000
unfolding fine_amount_for_overdue_days
fine_capped d = ground arith

sum_bounds :
    (a b c d fee : ℤ)
    → IsPrice a
    → IsPrice b
    → IsPrice c
    → IsPrice d
    → pos_part b ≤ 10_000
    → pos_part d ≤ 7_000
    → c ≤ℤ fee
    → (a ≤ℤ a +ℤ b +ℤ c +ℤ d) × (a +ℤ b +ℤ c +ℤ d ≤ℤ a +ℤ fee +ℤ pos 17_000)
sum_bounds a b c d fee ha hb hc hd kb kd kc = (omega int_laws, omega int_laws)

abbrev reference_fee : Bool → ℤ
reference_fee referenced = if referenced then customer_referenced_device_fee_idr else pos 0

reference_fee-IsPrice :
    (r : Bool) → IsPrice (reference_fee r) × (pos_part (reference_fee r) ≤ 10_000)
reference_fee-IsPrice r = ground arith

abbrev charged : Bool → ℤ → ℤ
charged paid_before fee = if paid_before then pos 0 else fee

charged-IsPrice :
    (b : Bool) (fee : ℤ) → IsPrice fee → IsPrice (charged b fee) × (charged b fee ≤ℤ fee)
charged-IsPrice b fee h = ground arith

-- The parts of a quote are prices, and its first sum does not wrap.
pub payment_quote-IsPrice :
    (chrono : Chrono) (price : ℤ) (referenced : Bool) (shipment : Option ℤ) (paid_before : Bool)
    (period_end : Option chrono.Instant) (now : chrono.Instant)
    → IsPrice price
    → IsPrice (fee_or_zero shipment)
    → let q = payment_quote chrono price referenced shipment paid_before period_end now in
      (wrap_i64 (q.base_amount_idr +ℤ q.customer_reference_fee_idr)
        ≡ q.base_amount_idr +ℤ q.customer_reference_fee_idr)
      × IsPrice q.shipment_fee_idr
      × IsPrice q.fine_amount_idr
unfolding payment_quote
payment_quote-IsPrice chrono price referenced shipment paid_before period_end now hp hs =
    let q = payment_quote chrono price referenced shipment paid_before period_end now in
    let ref = (reference_fee-IsPrice referenced).0 in
    let sum = +ℤ_nonneg price (reference_fee referenced) hp.0 ref.0 in
    (
      wrap_i64_self (price +ℤ reference_fee referenced) (omega arith, omega arith),
      (charged-IsPrice paid_before (fee_or_zero shipment) hs).0,
      fine_IsPrice q.overdue_days,
    )

-- For prices below 2^60 the total of a quote is the exact sum of its parts: `i64` does not wrap.
-- It is at least the plan's price and exceeds it by no more than the shipment fee, the customer fee
-- and the capped fine (together 17,000 rupiah), and the shipment fee is not charged for a device
-- that has a paid payment.
pub payment_quote_total :
    (chrono : Chrono) (price : ℤ) (referenced : Bool) (shipment : Option ℤ) (paid_before : Bool)
    (period_end : Option chrono.Instant) (now : chrono.Instant)
    → IsPrice price
    → IsPrice (fee_or_zero shipment)
    → let q = payment_quote chrono price referenced shipment paid_before period_end now in
      (q.total_amount_idr
        ≡ q.base_amount_idr +ℤ q.customer_reference_fee_idr +ℤ q.shipment_fee_idr
          +ℤ q.fine_amount_idr)
      × (price ≤ℤ q.total_amount_idr)
      × (q.total_amount_idr ≤ℤ price +ℤ charged paid_before (fee_or_zero shipment) +ℤ pos 17_000)
unfolding payment_quote
payment_quote_total chrono price referenced shipment paid_before period_end now hp hs =
    let q = payment_quote chrono price referenced shipment paid_before period_end now in
    let fee = charged paid_before (fee_or_zero shipment) in
    let (ref, ref_cap) = reference_fee-IsPrice referenced in
    let (ship, _) = charged-IsPrice paid_before (fee_or_zero shipment) hs in
    let fine = fine_IsPrice q.overdue_days in
    let exact =
      wrapped_sum price (reference_fee referenced) fee (fine_amount_for_overdue_days q.overdue_days)
        hp ref ship fine in
    let (low, high) =
      sum_bounds price (reference_fee referenced) fee (fine_amount_for_overdue_days q.overdue_days)
        fee hp ref ship fine ref_cap (fine_capped q.overdue_days) (omega arith) in
    (
      exact,
      subst (λ t. price ≤ℤ t) (sym exact) low,
      subst (λ t. t ≤ℤ price +ℤ fee +ℤ pos 17_000) (sym exact) high,
    )

lifecycle_fine :
    (d e : ℤ) (p : Bool) (pre lod : Option ℤ) (w r : Bool)
    → pos_part d ≡ neg_part e
    → pos_part e ≡ neg_part d
    → let s = lifecycle_for d (max_zero e) p pre lod w r in
      (fine_amount_for_overdue_days (max_zero e) ≡ s.fine_amount_idr)
      × ((ltb_ℤ (pos 7) (max_zero e) ≡ true) ↔ (s.stage ≡ withdrawal))
unfolding lifecycle_for fine_amount_for_overdue_days
lifecycle_fine (pos zero) e p pre lod w r h k =
    (ground arith, (λ q. ground arith, λ q. ground arith))
lifecycle_fine (pos (suc n)) e p pre lod w r h k =
    (ground arith, (λ q. ground arith, λ q. ground arith))
lifecycle_fine (negsuc n) e p pre lod w r h k =
    (ground arith, (λ q. ground arith, λ q. ground arith))

-- The fine that a quote charges is the fine that the subscription's lifecycle shows at that moment,
-- and the quote asks for withdrawal exactly in the lifecycle's withdrawal stage.
pub payment_quote-lifecycle :
    (chrono : Chrono) (laws : IsChrono chrono) (price : ℤ) (referenced : Bool) (shipment : Option ℤ)
    (paid_before : Bool) (period_end now : chrono.Instant) (for_period_end : Option chrono.Instant)
    (pre_day overdue_day : Option ℤ) (withdrawal_required : Bool)
    (resolved_at : Option chrono.Instant)
    → let q = payment_quote chrono price referenced shipment paid_before (some period_end) now in
      let s =
        subscription_lifecycle_state chrono
          (some period_end)
          now
          for_period_end
          pre_day
          overdue_day
          withdrawal_required
          resolved_at in
      (q.fine_amount_idr ≡ s.fine_amount_idr)
      × ((q.withdrawal_required ≡ true) ↔ (s.stage ≡ withdrawal))
unfolding payment_quote subscription_lifecycle_state days_until_expiry_wib overdue_days_wib
payment_quote-lifecycle chrono laws price referenced shipment paid_before period_end now
      for_period_end pre_day overdue_day withdrawal_required resolved_at =
    lifecycle_fine _ _ (is_instant chrono for_period_end period_end) pre_day overdue_day
      withdrawal_required (not (is_none resolved_at))
      (laws.num_days_flip (wib_date chrono period_end) (wib_date chrono now))
      (laws.num_days_flip (wib_date chrono now) (wib_date chrono period_end))

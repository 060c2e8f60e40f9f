-- ===== src/Tests/Subscriptions.antt =====
-- The theorems on subscriptions and payments, for a period that ends on day 100.
use gt06n_tcp_server.Prelude.{ℕ, ◌*◌, ◌≡◌, ◌↔◌, ◌≤◌, arith, true, false, not, none, some}
use gt06n_tcp_server.Prelude.Int.{ℤ, pos, ◌+ℤ◌, ◌≤ℤ◌}
use gt06n_tcp_server.Subscription.{
  subscription_max_fine_idr, fine_amount_for_overdue_days, is_instant, is_none,
  resolve_subscription_maintenance_action, subscription_lifecycle_state, payment_quote, withdrawal,
}
use gt06n_tcp_server.Subscription.Agreement.{
  due, current_overdue_day, resolve_subscription_maintenance_action-due,
}
use gt06n_tcp_server.Subscription.Fines.{
  fine_amount_for_overdue_days_bounds, payment_quote_total, payment_quote-lifecycle,
}
use gt06n_tcp_server.Midtrans.{basic, SubscriptionPlan, subscription_plan_for_tier}
use gt06n_tcp_server.Midtrans.Items.{total, total-checkout}
use gt06n_tcp_server.Midtrans.Checkout.{checkout}
use gt06n_tcp_server.Tests.Data.{days, days-IsChrono}

resolve_subscription_maintenance_action-due_example :
    resolve_subscription_maintenance_action days
      (pos 100)
      (pos 103)
      (some (pos 100))
      none
      (current_overdue_day
        (is_instant days (some (pos 100)) (pos 100))
        (not (is_none {A = ℤ} none))
        (some (pos 2)))
      false
    ≡ due (
        subscription_lifecycle_state days
          (some (pos 100))
          (pos 103)
          (some (pos 100))
          none
          (some (pos 2))
          false
          none)
resolve_subscription_maintenance_action-due_example =
    resolve_subscription_maintenance_action-due days days-IsChrono (pos 100) (pos 103)
      (some (pos 100)) none (some (pos 2)) false none

fine_amount_for_overdue_days_bounds_example :
    (pos 0 ≤ℤ fine_amount_for_overdue_days (pos 3))
    × (fine_amount_for_overdue_days (pos 3) ≤ℤ fine_amount_for_overdue_days (pos 9))
    × (fine_amount_for_overdue_days (pos 9) ≤ℤ subscription_max_fine_idr)
    × ((n : ℕ) → pos 3 ≡ pos n → n ≤ 7 → fine_amount_for_overdue_days (pos 3) ≡ pos (n * 1000))
    × ((n : ℕ)
        → pos 3 ≡ pos n
        → 7 ≤ n
        → fine_amount_for_overdue_days (pos 3) ≡ subscription_max_fine_idr)
fine_amount_for_overdue_days_bounds_example =
    fine_amount_for_overdue_days_bounds (pos 3) (pos 9) (omega arith)

payment_quote_total_example :
    let q =
      payment_quote days (pos 45000) true (some (pos 15000)) false (some (pos 100)) (pos 103) in
    (q.total_amount_idr
      ≡ q.base_amount_idr +ℤ q.customer_reference_fee_idr +ℤ q.shipment_fee_idr
        +ℤ q.fine_amount_idr)
    × (pos 45000 ≤ℤ q.total_amount_idr)
    × (q.total_amount_idr ≤ℤ pos 45000 +ℤ pos 15000 +ℤ pos 17000)
payment_quote_total_example =
    payment_quote_total days (pos 45000) true (some (pos 15000)) false (some (pos 100)) (pos 103)
      (omega arith) (omega arith)

payment_quote-lifecycle_example :
    let q = payment_quote days (pos 45000) false none true (some (pos 100)) (pos 110) in
    let s = subscription_lifecycle_state days (some (pos 100)) (pos 110) none none none true none in
    (q.fine_amount_idr ≡ s.fine_amount_idr)
    × ((q.withdrawal_required ≡ true) ↔ (s.stage ≡ withdrawal))
payment_quote-lifecycle_example =
    payment_quote-lifecycle days days-IsChrono (pos 45000) false none true (pos 100) (pos 110) none
      none none true none

abbrev plan : SubscriptionPlan
plan = subscription_plan_for_tier (pos 45000) (pos 35000) basic

total-checkout_example :
    let c =
      checkout days
        (λ now. "now")
        (pos 24)
        plan
        "hb-11-1"
        (pos 103)
        true
        (some (pos 15000))
        false
        (some (pos 100)) in
    (total c.request.item_details ≡ c.request.transaction_details.gross_amount)
    × (c.request.transaction_details.gross_amount ≡ c.recorded_gross_amount_idr)
unfolding subscription_plan_for_tier
total-checkout_example =
    total-checkout days (λ now. "now") (pos 24) plan "hb-11-1" (pos 103) true (some (pos 15000))
      false (some (pos 100)) (omega arith, omega arith) (omega arith, omega arith)

-- ===== src/Midtrans/Checkout.antt =====
-- The payment that a user starts in src/bot.rs: one quote gives the amount that is recorded for the
-- order and the request to Midtrans.
use gt06n_tcp_server.Prelude.{Bool, Option}
use gt06n_tcp_server.Prelude.Int.{ℤ, ◌+ℤ◌, wrap_i64}
use gt06n_tcp_server.Chrono.{Chrono}
use gt06n_tcp_server.Subscription.{payment_quote}
use gt06n_tcp_server.Midtrans.{SubscriptionPlan, MidtransSnapRequest, snap_request}
use Prim.Native.String.{String}

-- The `gross_amount_idr` of the pending payment, and the request.
pub record Checkout : Type 0 where
  pub recorded_gross_amount_idr : ℤ
  pub request : MidtransSnapRequest

-- With what the queries of the quote return.
unfoldable pub checkout :
    (chrono : Chrono)
    → (chrono.Instant → String)
    → ℤ
    → SubscriptionPlan
    → String
    → chrono.Instant
    → Bool
    → Option ℤ
    → Bool
    → Option chrono.Instant
    → Checkout
unfolding snap_request payment_quote
checkout chrono format expiry_hours plan order_id created_at has_customer_referenced_device
      device_shipment_fee_idr prior_paid_payment_exists current_period_end_at =
    let quote =
      payment_quote chrono plan.price_idr has_customer_referenced_device device_shipment_fee_idr
        prior_paid_payment_exists current_period_end_at created_at in
    record {
      recorded_gross_amount_idr = quote.total_amount_idr;
      request =
          snap_request format expiry_hours plan order_id created_at
            (wrap_i64 (quote.base_amount_idr +ℤ quote.customer_reference_fee_idr))
            quote.shipment_fee_idr quote.total_amount_idr quote.fine_amount_idr;
    }

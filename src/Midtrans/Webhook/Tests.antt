-- ===== src/Midtrans/Webhook/Tests.antt =====
-- The theorems on the payment webhook, for an order of a user whose period runs until day 20.
use gt06n_tcp_server.Prelude.{
  refl, ok, arith, ◌<◌, ℕ, ◌≡◌, ◌⊎◌, List, [], ◌∷◌, length, true, Option, none, some,
}
use gt06n_tcp_server.Prelude.Int.{ℤ, pos, ◌+ℤ◌, ltb_ℤ}
use gt06n_tcp_server.Effects.{Env}
use gt06n_tcp_server.Billing.{SubscriptionStatus, PaymentStatus, Payment, Subscription, Tables}
use gt06n_tcp_server.Midtrans.{
  MidtransPaymentStatus, MidtransWebhookNotification, map_midtrans_status,
  verify_midtrans_signature,
}
use gt06n_tcp_server.Midtrans.Webhook.{
  MidtransWebhookApplyOutcome, MidtransSubscriptionRecord, find_payment, find_of_user,
  apply_midtrans_webhook, post_midtrans_webhook,
}
use gt06n_tcp_server.Midtrans.Webhook.Safety.{IsPaidInFull, post_midtrans_webhook_safe}
use gt06n_tcp_server.Midtrans.Webhook.Renewal.{
  later_of, paid_until, apply_midtrans_webhook_renews, apply_midtrans_webhook_once,
}
use gt06n_tcp_server.Tests.Data.{days, days-IsChrono}
use Prim.Native.String.{String}

abbrev gross : String → Option ℤ
gross text = some (pos 45000)

abbrev next_id : List (Subscription ℤ) → ℕ
next_id rows = length rows

abbrev digest : String → String
digest text = text

abbrev notification : MidtransWebhookNotification
notification = record {
  order_id = "hb-11-1";
  status_code = "200";
  gross_amount = "45000.00";
  signature_key = "HB-11-120045000.00key";
  transaction_status = "settlement";
  transaction_id = some "t1";
  payment_type = none;
  fraud_status = none;
}

abbrev start : Env (Tables ℤ)
start = record {
  store = record {
    subscriptions =
        (record {
          id = 3;
          telegram_user_id = 11;
          chat_id = pos 12;
          plan_code = "monthly_basic";
          status = SubscriptionStatus.active;
          current_period_start_at = some (pos 0);
          current_period_end_at = some (pos 20);
        })
        ∷ [];
    sanctions = [];
    payments =
        (record {
          id = 1;
          telegram_user_id = 11;
          chat_id = pos 12;
          subscription_id = none;
          payment_status = PaymentStatus.pending;
          plan_code = "monthly_basic";
          gross_amount_idr = pos 45000;
          period_days = pos 30;
          provider_order_id = "hb-11-1";
          provider_transaction_id = none;
          payment_type = none;
          paid_at = none;
        })
        ∷ [];
    outbox = [];
  };
  faults = [];
}

post_midtrans_webhook_safe_example :
    ((post_midtrans_webhook days gross next_id digest
        (pos 0)
        (some "key")
        none
        notification
        (pos 5)
        start).1.store.subscriptions
      ≡ start.store.subscriptions)
    ⊎ ((key : String) × (some "key" ≡ some key)
        × (verify_midtrans_signature digest key notification.order_id notification.status_code
              notification.gross_amount notification.signature_key
            ≡ true)
        × (map_midtrans_status notification.transaction_status ≡ some MidtransPaymentStatus.paid)
        × IsPaidInFull days gross next_id digest
            (pos 0)
            (find_payment notification.order_id start.store.payments)
            notification
            MidtransPaymentStatus.paid)
post_midtrans_webhook_safe_example =
    post_midtrans_webhook_safe days gross next_id digest (pos 0) (some "key") none notification
      (pos 5) start

abbrev renewed_subscription : MidtransSubscriptionRecord ℤ
renewed_subscription = record {
  id = 3;
  telegram_user_id = 11;
  chat_id = pos 12;
  plan_code = "monthly_basic";
  current_period_end_at = some (pos 50);
}

abbrev settled : Env (Tables ℤ)
settled =
    (apply_midtrans_webhook days gross next_id digest (pos 0) notification
      MidtransPaymentStatus.paid (pos 5) start).1

first_notification :
    apply_midtrans_webhook days gross next_id digest
      (pos 0)
      notification
      MidtransPaymentStatus.paid
      (pos 5)
      start
    ≡ (ok (MidtransWebhookApplyOutcome.paid renewed_subscription), settled)
unfolding apply_midtrans_webhook find_payment find_of_user ◌+ℤ◌
first_notification = refl

positive_days :
    (p : Payment ℤ)
    → find_payment "hb-11-1" start.store.payments ≡ some p
    → (k : ℕ) × (p.period_days ≡ pos k) × (0 < k)
unfolding find_payment
positive_days p h = (30, cc, omega arith)

apply_midtrans_webhook_renews_example :
    (payment : Payment ℤ) × (row : Subscription ℤ) × (end : ℤ) × (find_payment "hb-11-1"
        start.store.payments
      ≡ some payment)
    × (find_of_user payment.telegram_user_id settled.store.subscriptions ≡ some row)
    × (row.status ≡ SubscriptionStatus.active)
    × (row.current_period_end_at ≡ some end)
    × (some (pos 50) ≡ some end)
    × (end
        ≡ days.add_days
            (later_of days
              (pos 5)
              (paid_until (find_of_user payment.telegram_user_id start.store.subscriptions)))
            payment.period_days)
    × (ltb_ℤ (pos 5) end ≡ true)
    × ((old_end : ℤ)
        → paid_until (find_of_user payment.telegram_user_id start.store.subscriptions)
          ≡ some old_end
        → ltb_ℤ old_end end ≡ true)
apply_midtrans_webhook_renews_example =
    apply_midtrans_webhook_renews days gross next_id digest (pos 0) days-IsChrono notification
      MidtransPaymentStatus.paid (pos 5) start settled renewed_subscription positive_days
      first_notification

apply_midtrans_webhook_once_example :
    (apply_midtrans_webhook days gross next_id digest
      (pos 0)
      notification
      MidtransPaymentStatus.refunded
      (pos 6)
      settled).1.store
    ≡ settled.store
apply_midtrans_webhook_once_example =
    apply_midtrans_webhook_once days gross next_id digest (pos 0) notification notification
      MidtransPaymentStatus.paid MidtransPaymentStatus.refunded (pos 5) (pos 6) start settled
      renewed_subscription first_notification refl

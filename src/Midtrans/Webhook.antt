-- ===== src/Midtrans/Webhook.antt =====
-- src/midtrans.rs, `apply_midtrans_webhook`, and its caller `post_midtrans_webhook` in src/api.rs. The
-- database transaction is an `Effects.transaction` over the billing tables. The value of the amount's
-- text (`parse::<f64>`, rounded to `i64`), SHA-512 and the ids that the database hands out are
-- parameters. The notification's JSON text is not stored.
pub mod Paid
pub mod Renewal
pub mod Safety
mod Tests
use gt06n_tcp_server.Prelude.{
  ℕ, List, [], ◌∷◌, ◌++◌, false, ◌==◌, not, if◌then◌else◌, Option, none, some, Result, ok, err,
}
use gt06n_tcp_server.Prelude.Int.{ℤ, pos, ltb_ℤ}
use gt06n_tcp_server.Effects.{M, row_not_found, ◌>>=◌, ◌>>◌, return, fail, call, transaction}
use gt06n_tcp_server.Chrono.{Chrono}
use gt06n_tcp_server.Billing.{
  SubscriptionStatus, PaymentStatus, Subscription, Sanction, Payment, Message, payment_sticker,
  payment_success, Tables,
}
use gt06n_tcp_server.Midtrans.{
  MidtransPaymentStatus, MidtransWebhookNotification, map_midtrans_status,
  verify_midtrans_signature,
}
use Prim.Native.String.{String}
use text.Mathlib.Text.{◌==◌ as str_eq}

abbrev pub with_default : {A : Type 0} → A → Option A → A
with_default a none = a
with_default a (some b) = b

-- SQL's COALESCE.
abbrev pub coalesce : {A : Type 0} → Option A → Option A → Option A
coalesce (some a) b = some a
coalesce none b = b

-- `new_status`
pub new_status : MidtransPaymentStatus → PaymentStatus
new_status MidtransPaymentStatus.pending = PaymentStatus.pending
new_status MidtransPaymentStatus.paid = PaymentStatus.paid
new_status MidtransPaymentStatus.expired = PaymentStatus.expired
new_status MidtransPaymentStatus.failed = PaymentStatus.failed
new_status MidtransPaymentStatus.refunded = PaymentStatus.refunded

pub data ApiError : Type 0 where
  missing_midtrans_server_key invalid_midtrans_signature unsupported_midtrans_status : ApiError

-- The `status` of the reply.
pub data Reply : Type 0 where
  paid ignored unknown_order : Reply

pub record MidtransSubscriptionRecord (I : Type 0) : Type 0 where
  pub id : ℕ
  pub telegram_user_id : ℕ
  pub chat_id : ℤ
  pub plan_code : String
  pub current_period_end_at : Option I

pub data MidtransWebhookApplyOutcome (I : Type 0) : Type 0 where
  paid : MidtransSubscriptionRecord I → MidtransWebhookApplyOutcome I
  ignored : MidtransWebhookApplyOutcome I
  unknown_order : MidtransWebhookApplyOutcome I

module _ {I : Type 0} where
  -- `WHERE provider_order_id = $1`
  pub find_payment : String → List (Payment I) → Option (Payment I)
  find_payment order_id [] = none
  find_payment order_id (row ∷ rows) =
      if str_eq row.provider_order_id order_id then some row else find_payment order_id rows

  -- `UPDATE telegram_payment_events … WHERE id = $1`
  pub update_payment : ℕ → (Payment I → Payment I) → List (Payment I) → List (Payment I)
  update_payment id set [] = []
  update_payment id set (row ∷ rows) =
      (if row.id == id then set row else row) ∷ update_payment id set rows

  -- `WHERE telegram_user_id = $1`
  pub find_of_user : ℕ → List (Subscription I) → Option (Subscription I)
  find_of_user user [] = none
  find_of_user user (row ∷ rows) =
      if row.telegram_user_id == user then some row else find_of_user user rows

  -- `INSERT … ON CONFLICT (telegram_user_id) DO UPDATE`: a row that is there keeps its id.
  pub put_subscription : Subscription I → List (Subscription I) → List (Subscription I)
  put_subscription new [] = new ∷ []
  put_subscription new (row ∷ rows) =
      if row.telegram_user_id == new.telegram_user_id
      then (record new { id = row.id }) ∷ rows
      else row ∷ put_subscription new rows

  -- The columns that a notification brings along.
  pub noted : MidtransWebhookNotification → Payment I → Payment I
  noted notification row = record row {
    provider_transaction_id = coalesce notification.transaction_id row.provider_transaction_id;
    payment_type = coalesce notification.payment_type row.payment_type;
  }

  -- `WHERE subscription_id = $1`, with the time `now` of the database.
  pub resolve_sanctions : I → ℕ → List (Sanction I) → List (Sanction I)
  resolve_sanctions now id [] = []
  resolve_sanctions now id (row ∷ rows) =
      (if row.subscription_id == id
        then (record row {
          last_pre_expiry_reminded_for_period_end_at = none;
          last_pre_expiry_reminded_day = none;
          last_overdue_reminded_day = none;
          fine_amount_idr = pos 0;
          withdrawal_required = false;
          withdrawal_required_at = none;
          resolved_at = some now;
        })
        else row)
      ∷ resolve_sanctions now id rows

  set_payment : ℕ → (Payment I → Payment I) → M (Tables I) (Unit {0})
  unfolding call update_payment
  set_payment id set = call (λ t. (tt, record t { payments = update_payment id set t.payments }))

  resolve_subscription_sanction : I → ℕ → M (Tables I) (Unit {0})
  unfolding call resolve_sanctions
  resolve_subscription_sanction now id =
      call (λ t. (tt, record t { sanctions = resolve_sanctions now id t.sanctions }))

  commit : M (Tables I) (Unit {0})
  unfolding call
  commit = call (λ t. (tt, t))

  send : Message I → M (Tables I) (Unit {0})
  unfolding call
  send message = call (λ t. (tt, record t { outbox = t.outbox ++ (message ∷ []) }))

-- The parameters: the clock's operations, the rounded value of an amount's text (`none` where it does
-- not parse), the id that the database gives to a new subscription, SHA-512 in
-- hexadecimal, and the database's NOW().
module _ (chrono : Chrono) (gross_amount_of : String → Option ℤ)
    (fresh_id : List (Subscription chrono.Instant) → ℕ) (sha512_hex : String → String)
    (db_now : chrono.Instant) where
  open chrono use {Instant, before, add_days}

  -- `(period_start, period_end)` for a row with these columns.
  pub period_from : Option Instant → Option Instant → ℤ → Instant → Instant × Instant
  period_from none start period_days received_at = (received_at, add_days received_at period_days)
  period_from (some current_period_end_at) start period_days received_at =
      if before received_at current_period_end_at
      then (with_default received_at start, add_days current_period_end_at period_days)
      else (received_at, add_days received_at period_days)

  pub period_of : Option (Subscription Instant) → ℤ → Instant → Instant × Instant
  unfolding period_from
  period_of none period_days received_at = (received_at, add_days received_at period_days)
  period_of (some row) period_days received_at =
      period_from row.current_period_end_at row.current_period_start_at period_days received_at

  -- The row that the INSERT proposes.
  pub renewed :
      Payment Instant
      → Instant
      → Option (Subscription Instant)
      → List (Subscription Instant)
      → Subscription Instant
  unfolding period_of
  renewed payment received_at existing rows =
      let (period_start, period_end) = period_of existing payment.period_days received_at in
      record {
        id = fresh_id rows;
        telegram_user_id = payment.telegram_user_id;
        chat_id = payment.chat_id;
        plan_code = payment.plan_code;
        status = SubscriptionStatus.active;
        current_period_start_at = some period_start;
        current_period_end_at = some period_end;
      }

  -- `INSERT … RETURNING`
  upsert_subscription :
      Payment Instant
      → Instant
      → Option (Subscription Instant)
      → M (Tables Instant) (Option (Subscription Instant))
  unfolding call renewed put_subscription find_of_user
  upsert_subscription payment received_at existing = call (λ t.
      let rows =
        put_subscription (renewed payment received_at existing t.subscriptions) t.subscriptions in
      (find_of_user payment.telegram_user_id rows, record t { subscriptions = rows }))

  -- From the returned row on.
  pub settle_payment :
      Payment Instant
      → MidtransWebhookNotification
      → Instant
      → Option (Subscription Instant)
      → M (Tables Instant) (MidtransWebhookApplyOutcome Instant)
  unfolding set_payment noted resolve_subscription_sanction commit
  settle_payment payment notification received_at none = fail row_not_found
  settle_payment payment notification received_at (some subscription) = do
    set_payment payment.id (λ row. record (noted notification row) {
      subscription_id = some subscription.id;
      payment_status = PaymentStatus.paid;
      paid_at = some received_at;
    })
    resolve_subscription_sanction db_now subscription.id
    commit
    return (
        MidtransWebhookApplyOutcome.paid (record {
          id = subscription.id;
          telegram_user_id = subscription.telegram_user_id;
          chat_id = subscription.chat_id;
          plan_code = payment.plan_code;
          current_period_end_at = subscription.current_period_end_at;
        }))

  commit_ignored : M (Tables Instant) (MidtransWebhookApplyOutcome Instant)
  unfolding commit
  commit_ignored = do commit; return MidtransWebhookApplyOutcome.ignored

  -- A paid notification for a pending payment, with the value of its amount.
  pub apply_paid :
      Payment Instant
      → MidtransWebhookNotification
      → Instant
      → Option ℤ
      → M (Tables Instant) (MidtransWebhookApplyOutcome Instant)
  unfolding call find_of_user commit_ignored upsert_subscription settle_payment
  apply_paid payment notification received_at none = fail row_not_found
  apply_paid payment notification received_at (some notified_gross_amount) =
      if ltb_ℤ notified_gross_amount payment.gross_amount_idr then commit_ignored else (do
        existing ← call (λ t. (find_of_user payment.telegram_user_id t.subscriptions, t))
        subscription ← upsert_subscription payment received_at existing
        settle_payment payment notification received_at subscription)

  set_status_ignored :
      Payment Instant
      → MidtransWebhookNotification
      → PaymentStatus
      → M (Tables Instant) (MidtransWebhookApplyOutcome Instant)
  unfolding set_payment noted commit_ignored
  set_status_ignored payment notification status = do
    set_payment payment.id (λ row. record (noted notification row) { payment_status = status })
    commit_ignored

  -- `mapped_status != Paid` and its else, for a pending payment.
  pub apply_pending :
      Payment Instant
      → MidtransWebhookNotification
      → MidtransPaymentStatus
      → Instant
      → M (Tables Instant) (MidtransWebhookApplyOutcome Instant)
  unfolding apply_paid set_status_ignored new_status
  apply_pending payment notification MidtransPaymentStatus.paid received_at =
      apply_paid payment notification received_at (gross_amount_of notification.gross_amount)
  apply_pending payment notification MidtransPaymentStatus.pending received_at =
      set_status_ignored payment notification (new_status MidtransPaymentStatus.pending)
  apply_pending payment notification MidtransPaymentStatus.expired received_at =
      set_status_ignored payment notification (new_status MidtransPaymentStatus.expired)
  apply_pending payment notification MidtransPaymentStatus.failed received_at =
      set_status_ignored payment notification (new_status MidtransPaymentStatus.failed)
  apply_pending payment notification MidtransPaymentStatus.refunded received_at =
      set_status_ignored payment notification (new_status MidtransPaymentStatus.refunded)

  -- A notification for a payment that is there, by its status; the columns of a payment that is
  -- neither paid nor pending are noted without a change of status.
  pub apply_found :
      Payment Instant
      → PaymentStatus
      → MidtransWebhookNotification
      → MidtransPaymentStatus
      → Instant
      → M (Tables Instant) (MidtransWebhookApplyOutcome Instant)
  unfolding commit_ignored set_payment noted apply_pending
  apply_found payment PaymentStatus.paid notification mapped received_at = commit_ignored
  apply_found payment PaymentStatus.pending notification mapped received_at =
      apply_pending payment notification mapped received_at
  apply_found payment PaymentStatus.expired notification mapped received_at = do
    set_payment payment.id (noted notification)
    commit_ignored
  apply_found payment PaymentStatus.failed notification mapped received_at = do
    set_payment payment.id (noted notification)
    commit_ignored
  apply_found payment PaymentStatus.refunded notification mapped received_at = do
    set_payment payment.id (noted notification)
    commit_ignored

  pub apply_row :
      Option (Payment Instant)
      → MidtransWebhookNotification
      → MidtransPaymentStatus
      → Instant
      → M (Tables Instant) (MidtransWebhookApplyOutcome Instant)
  unfolding commit apply_found
  apply_row none notification mapped received_at = do
    commit
    return MidtransWebhookApplyOutcome.unknown_order
  apply_row (some payment) notification mapped received_at =
      apply_found payment payment.payment_status notification mapped received_at

  pub apply_midtrans_webhook :
      MidtransWebhookNotification
      → MidtransPaymentStatus
      → Instant
      → M (Tables Instant) (MidtransWebhookApplyOutcome Instant)
  unfolding transaction call find_payment apply_row
  apply_midtrans_webhook notification mapped received_at = transaction (do
    payment ← call (λ t. (find_payment notification.order_id t.payments, t))
    apply_row payment notification mapped received_at)

  -- The messages to a user who has paid: none without a bot token.
  notify_paid : Option String → MidtransSubscriptionRecord Instant → M (Tables Instant) (Unit {0})
  unfolding send
  notify_paid none subscription = return tt
  notify_paid (some token) subscription = do
    send (payment_sticker subscription.chat_id)
    send (payment_success subscription.chat_id subscription.current_period_end_at)

  reply_to :
      Option String
      → MidtransWebhookApplyOutcome Instant
      → M (Tables Instant) (Result ApiError Reply)
  unfolding notify_paid
  reply_to token (MidtransWebhookApplyOutcome.paid subscription) = do
    notify_paid token subscription
    return (ok Reply.paid)
  reply_to token MidtransWebhookApplyOutcome.ignored = return (ok Reply.ignored)
  reply_to token MidtransWebhookApplyOutcome.unknown_order = return (ok Reply.unknown_order)

  pub post_verified :
      Option String
      → MidtransWebhookNotification
      → Instant
      → Option MidtransPaymentStatus
      → M (Tables Instant) (Result ApiError Reply)
  unfolding apply_midtrans_webhook reply_to
  post_verified token notification now none = return (err unsupported_midtrans_status)
  post_verified token notification now (some mapped) = do
    outcome ← apply_midtrans_webhook notification mapped now
    reply_to token outcome

  -- With the server key and the bot token of the configuration.
  pub post_midtrans_webhook :
      Option String
      → Option String
      → MidtransWebhookNotification
      → Instant
      → M (Tables Instant) (Result ApiError Reply)
  unfolding post_verified map_midtrans_status verify_midtrans_signature
  post_midtrans_webhook none token notification now = return (err missing_midtrans_server_key)
  post_midtrans_webhook (some server_key) token notification now =
      if not (
        verify_midtrans_signature sha512_hex server_key notification.order_id
          notification.status_code notification.gross_amount notification.signature_key)
      then return (err invalid_midtrans_signature)
      else post_verified token notification now
          (map_midtrans_status notification.transaction_status)

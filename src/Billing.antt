-- ===== src/Billing.antt =====
-- The tables that subscriptions and payments live in (migrations/0009, 0010, 0011, 0015 to 0018),
-- and the messages that go out to Telegram. The columns that no code reads back (creation and update
-- times, raw JSON) are left out. A status is one of the values that its CHECK constraint admits.
pub mod Rows
use gt06n_tcp_server.Prelude.{
  ℕ, List, [], ◌∷◌, ◌++◌, Bool, true, false, ◌==◌, if◌then◌else◌, Option, none, some, map,
}
use gt06n_tcp_server.Prelude.Int.{ℤ}
use Prim.Native.String.{String}

pub data SubscriptionStatus : Type 0 where
  active expired canceled past_due : SubscriptionStatus

pub data PaymentStatus : Type 0 where
  pending paid expired failed refunded : PaymentStatus

pub record Subscription (I : Type 0) : Type 0 where
  pub id : ℕ
  pub telegram_user_id : ℕ
  pub chat_id : ℤ
  pub plan_code : String
  pub status : SubscriptionStatus
  pub current_period_start_at : Option I
  pub current_period_end_at : Option I

pub record Sanction (I : Type 0) : Type 0 where
  pub subscription_id : ℕ
  pub telegram_user_id : ℕ
  pub chat_id : ℤ
  pub last_pre_expiry_reminded_for_period_end_at : Option I
  pub last_pre_expiry_reminded_day : Option ℤ
  pub last_overdue_reminded_day : Option ℤ
  pub fine_amount_idr : ℤ
  pub withdrawal_required : Bool
  pub withdrawal_required_at : Option I
  pub resolved_at : Option I

pub record Payment (I : Type 0) : Type 0 where
  pub id : ℕ
  pub telegram_user_id : ℕ
  pub chat_id : ℤ
  pub subscription_id : Option ℕ
  pub payment_status : PaymentStatus
  pub plan_code : String
  pub gross_amount_idr : ℤ
  pub period_days : ℤ
  pub provider_order_id : String
  pub provider_transaction_id : Option String
  pub payment_type : Option String
  pub paid_at : Option I

-- The messages of the maintenance job and of the webhook.
pub data Message (I : Type 0) : Type 0 where
  pre_expiry : (chat_id : ℤ) → Message I
  expiry_day : (chat_id : ℤ) → Message I
  overdue : (chat_id fine_amount_idr : ℤ) → Message I
  payment_sticker : (chat_id : ℤ) → Message I
  payment_success : (chat_id : ℤ) (current_period_end_at : Option I) → Message I

pub record Tables (I : Type 0) : Type 0 where
  pub subscriptions : List (Subscription I)
  pub sanctions : List (Sanction I)
  pub payments : List (Payment I)
  pub outbox : List (Message I)

module _ {I : Type 0} where
  unfoldable pub find_subscription : ℕ → List (Subscription I) → Option (Subscription I)
  find_subscription id [] = none
  find_subscription id (row ∷ rows) = if row.id == id then some row else find_subscription id rows

  unfoldable pub find_sanction : ℕ → List (Sanction I) → Option (Sanction I)
  find_sanction id [] = none
  find_sanction id (row ∷ rows) =
      if row.subscription_id == id then some row else find_sanction id rows

  -- `INSERT … ON CONFLICT (subscription_id) DO UPDATE`, with the row that results.
  unfoldable pub put_sanction : Sanction I → List (Sanction I) → List (Sanction I)
  put_sanction new [] = new ∷ []
  put_sanction new (row ∷ rows) =
      if row.subscription_id == new.subscription_id then new ∷ rows else row ∷ put_sanction new rows

  -- `UPDATE telegram_subscriptions SET status = $2 WHERE id = $1`
  unfoldable pub with_status :
      ℕ → SubscriptionStatus → List (Subscription I) → List (Subscription I)
  with_status id status [] = []
  with_status id status (row ∷ rows) =
      (if row.id == id then record row { status = status } else row) ∷ with_status id status rows

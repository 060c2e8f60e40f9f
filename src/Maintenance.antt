-- ===== src/Maintenance.antt =====
-- src/subscription_maintenance.rs: the daily job. It reads the subscriptions with their sanction
-- rows, and for each one sends the message that is due and records it. There is no transaction: a
-- failure stops the job and leaves what was done.
pub mod Once
pub mod Repeat
pub mod Stored
mod Tests
use gt06n_tcp_server.Prelude.{
  ℕ, List, [], ◌∷◌, ◌++◌, Bool, true, false, ◌&&◌, ◌||◌, not, ltb, ◌==◌, if◌then◌else◌, Option,
  none, some,
}
use gt06n_tcp_server.Prelude.Int.{ℤ, pos, as_i32}
use gt06n_tcp_server.Effects.{M, Env, ◌>>=◌, ◌>>◌, return, call}
use gt06n_tcp_server.Chrono.{Chrono}
use gt06n_tcp_server.Subscription.{
  SubscriptionMaintenanceAction, no_action, pre_expiry_reminder, expiry_day_reminder,
  overdue_reminder, mark_withdrawal_required, is_none, is_instant,
  resolve_subscription_maintenance_action,
}
use gt06n_tcp_server.Billing.{
  SubscriptionStatus, active, past_due, Subscription, Sanction, Message, Tables, find_sanction,
  find_subscription, put_sanction, with_status,
}
use gt06n_tcp_server.Midtrans.{midtrans_basic_plan_code, midtrans_ojol_plan_code}
use text.Mathlib.Text.{◌==◌ as str_eq}

pub record SubscriptionMaintenanceRecord (I : Type 0) : Type 0 where
  pub subscription_id : ℕ
  pub telegram_user_id : ℕ
  pub chat_id : ℤ
  pub current_period_end_at : I
  pub last_pre_expiry_reminded_for_period_end_at : Option I
  pub last_pre_expiry_reminded_day : Option ℤ
  pub last_overdue_reminded_day : Option ℤ
  pub withdrawal_required : Bool
  pub resolved_at : Option I

-- `ts.status IN ('active', 'past_due')`
abbrev is_kept : SubscriptionStatus → Bool
is_kept SubscriptionStatus.active = true
is_kept SubscriptionStatus.past_due = true
is_kept SubscriptionStatus.expired = false
is_kept SubscriptionStatus.canceled = false

module _ (chrono : Chrono) where
  open chrono use {Instant, same, before}

  abbrev pub Record : Type 0
  Record = SubscriptionMaintenanceRecord Instant

  -- The columns of the left join for a row with the period end `end`.
  pub joined : Subscription Instant → Instant → Option (Sanction Instant) → Record
  joined row end none = record {
    subscription_id = row.id;
    telegram_user_id = row.telegram_user_id;
    chat_id = row.chat_id;
    current_period_end_at = end;
    last_pre_expiry_reminded_for_period_end_at = none;
    last_pre_expiry_reminded_day = none;
    last_overdue_reminded_day = none;
    withdrawal_required = false;
    resolved_at = none;
  }
  joined row end (some s) = record {
    subscription_id = row.id;
    telegram_user_id = row.telegram_user_id;
    chat_id = row.chat_id;
    current_period_end_at = end;
    last_pre_expiry_reminded_for_period_end_at = s.last_pre_expiry_reminded_for_period_end_at;
    last_pre_expiry_reminded_day = s.last_pre_expiry_reminded_day;
    last_overdue_reminded_day = s.last_overdue_reminded_day;
    withdrawal_required = s.withdrawal_required;
    resolved_at = s.resolved_at;
  }

  pub with_end : Subscription Instant → Option Instant → Option (Sanction Instant) → Option Record
  unfolding joined
  with_end row none sanction = none
  with_end row (some end) sanction = some (joined row end sanction)

  -- The WHERE clause and the join.
  pub record_of : List (Sanction Instant) → Subscription Instant → Option Record
  unfolding with_end
  record_of sanctions row =
      if (str_eq row.plan_code midtrans_basic_plan_code
          || str_eq row.plan_code midtrans_ojol_plan_code)
        && is_kept row.status
      then with_end row row.current_period_end_at (find_sanction row.id sanctions)
      else none

  -- ORDER BY current_period_end_at ASC, id ASC
  comes_first : Record → Record → Bool
  comes_first r s =
      before r.current_period_end_at s.current_period_end_at
      || (same r.current_period_end_at s.current_period_end_at
          && ltb r.subscription_id s.subscription_id)

  insert_record : Record → List Record → List Record
  insert_record r [] = r ∷ []
  insert_record r (s ∷ rest) = if comes_first r s then r ∷ s ∷ rest else s ∷ insert_record r rest

  add_record : Option Record → List Record → List Record
  add_record none rest = rest
  add_record (some r) rest = insert_record r rest

  -- `fetch_subscription_maintenance_records`
  fetch_records : List (Sanction Instant) → List (Subscription Instant) → List Record
  unfolding record_of insert_record add_record
  fetch_records sanctions [] = []
  fetch_records sanctions (row ∷ rows) =
      add_record (record_of sanctions row) (fetch_records sanctions rows)

  -- SQL's COALESCE, and IS DISTINCT FROM on instants.
  abbrev coalesce : {A : Type 0} → Option A → Option A → Option A
  coalesce (some a) b = some a
  coalesce none b = b

  abbrev is_distinct : Option Instant → Option Instant → Bool
  is_distinct none none = false
  is_distinct none (some b) = true
  is_distinct (some a) none = true
  is_distinct (some a) (some b) = not (same a b)

  -- The row that `upsert_sanction_state` inserts, and the row that it makes of an old one.
  pub merged : Sanction Instant → Option (Sanction Instant) → Sanction Instant
  merged new none = new
  merged new (some old) =
      let other_period =
        is_distinct new.last_pre_expiry_reminded_for_period_end_at
          old.last_pre_expiry_reminded_for_period_end_at in
      record new {
        last_pre_expiry_reminded_for_period_end_at =
            coalesce new.last_pre_expiry_reminded_for_period_end_at
              old.last_pre_expiry_reminded_for_period_end_at;
        last_pre_expiry_reminded_day =
            if other_period
            then new.last_pre_expiry_reminded_day
            else coalesce new.last_pre_expiry_reminded_day old.last_pre_expiry_reminded_day;
        last_overdue_reminded_day =
            if other_period
            then new.last_overdue_reminded_day
            else coalesce new.last_overdue_reminded_day old.last_overdue_reminded_day;
        withdrawal_required_at = coalesce new.withdrawal_required_at old.withdrawal_required_at;
      }

  pub upsert : Sanction Instant → Tables Instant → Tables Instant
  unfolding merged
  upsert new t = record t {
    sanctions =
        put_sanction (merged new (find_sanction new.subscription_id t.sanctions)) t.sanctions;
  }

  upsert_sanction_state :
      Record
      → Option Instant
      → Option ℤ
      → Option ℤ
      → ℤ
      → Bool
      → Option Instant
      → M (Tables Instant) (Unit {0})
  unfolding upsert call
  upsert_sanction_state r for_period_end pre_day overdue_day fine_amount_idr withdrawal
        withdrawal_at =
      call (λ t. (
        tt,
        upsert
            (record {
              subscription_id = r.subscription_id;
              telegram_user_id = r.telegram_user_id;
              chat_id = r.chat_id;
              last_pre_expiry_reminded_for_period_end_at = for_period_end;
              last_pre_expiry_reminded_day = pre_day;
              last_overdue_reminded_day = overdue_day;
              fine_amount_idr = fine_amount_idr;
              withdrawal_required = withdrawal;
              withdrawal_required_at = withdrawal_at;
              resolved_at = none;
            })
            t,
      ))

  set_subscription_status : ℕ → SubscriptionStatus → M (Tables Instant) (Unit {0})
  unfolding call
  set_subscription_status id status =
      call (λ t. (tt, record t { subscriptions = with_status id status t.subscriptions }))

  send_telegram_message : Message Instant → M (Tables Instant) (Unit {0})
  unfolding call
  send_telegram_message message = call (λ t. (tt, record t { outbox = t.outbox ++ (message ∷ []) }))

  mark_pre_expiry_reminder_sent : Record → Instant → ℤ → M (Tables Instant) (Unit {0})
  unfolding upsert_sanction_state
  mark_pre_expiry_reminder_sent r period_end_at days_until_expiry =
      upsert_sanction_state r (some period_end_at) (some (as_i32 days_until_expiry)) none (pos 0)
        false none

  -- The pre-expiry day is kept only if it is one of the current period.
  abbrev kept_pre_day : Record → Option ℤ
  kept_pre_day r =
      if is_instant chrono r.last_pre_expiry_reminded_for_period_end_at r.current_period_end_at
      then r.last_pre_expiry_reminded_day
      else none

  mark_overdue_reminder_sent : Record → ℤ → ℤ → M (Tables Instant) (Unit {0})
  unfolding upsert_sanction_state set_subscription_status
  mark_overdue_reminder_sent r overdue_days fine_amount_idr = do
    set_subscription_status r.subscription_id past_due
    upsert_sanction_state r (some r.current_period_end_at) (kept_pre_day r)
        (some (as_i32 overdue_days)) fine_amount_idr false none

  record_withdrawal : Record → ℤ → ℤ → Instant → M (Tables Instant) (Unit {0})
  unfolding upsert_sanction_state set_subscription_status
  record_withdrawal r overdue_days fine_amount_idr now = do
    set_subscription_status r.subscription_id past_due
    upsert_sanction_state r (some r.current_period_end_at) (kept_pre_day r)
        (some (as_i32 overdue_days)) fine_amount_idr true (some now)

  -- The match on the action.
  pub perform : Instant → Record → SubscriptionMaintenanceAction → M (Tables Instant) (Unit {0})
  unfolding send_telegram_message mark_pre_expiry_reminder_sent mark_overdue_reminder_sent
      record_withdrawal
  perform now r no_action = return tt
  perform now r (pre_expiry_reminder days_until_expiry) = do
    send_telegram_message (Message.pre_expiry r.chat_id)
    mark_pre_expiry_reminder_sent r r.current_period_end_at days_until_expiry
  perform now r expiry_day_reminder = do
    send_telegram_message (Message.expiry_day r.chat_id)
    mark_pre_expiry_reminder_sent r r.current_period_end_at (pos 0)
  perform now r (overdue_reminder overdue_days fine_amount_idr) = do
    send_telegram_message (Message.overdue r.chat_id fine_amount_idr)
    mark_overdue_reminder_sent r overdue_days fine_amount_idr
  perform now r (mark_withdrawal_required overdue_days fine_amount_idr) =
      record_withdrawal r overdue_days fine_amount_idr now

  -- The action of a record, with the overdue day that the loop computes for it.
  pub action_of : Instant → Record → SubscriptionMaintenanceAction
  action_of now r =
      resolve_subscription_maintenance_action chrono r.current_period_end_at now
        r.last_pre_expiry_reminded_for_period_end_at r.last_pre_expiry_reminded_day
        (if not (is_none r.resolved_at)
            || not (
                is_instant chrono r.last_pre_expiry_reminded_for_period_end_at
                  r.current_period_end_at)
          then none
          else r.last_overdue_reminded_day)
        r.withdrawal_required

  -- The body of the loop.
  pub maintain : Instant → Record → M (Tables Instant) (Unit {0})
  unfolding perform action_of
  maintain now r = perform now r (action_of now r)

  -- `for record in records`
  maintain_all : Instant → List Record → M (Tables Instant) (Unit {0})
  unfolding maintain
  maintain_all now [] = return tt
  maintain_all now (r ∷ rest) = let later = maintain_all now rest in maintain now r >> later

  pub run_subscription_maintenance : Instant → M (Tables Instant) (Unit {0})
  unfolding maintain_all fetch_records call
  run_subscription_maintenance now = do
    records ← call (λ t. (fetch_records t.sanctions t.subscriptions, t))
    maintain_all now records

  -- The record of a subscription as the job would read it now.
  pub current_record : ℕ → Tables Instant → Option Record
  unfolding record_of
  current_record id t = elim (find_subscription id t.subscriptions) [
    | none ↦ none
    | some row ↦ record_of t.sanctions row
  ]

-- ===== src/Maintenance/Tests.antt =====
-- The daily job (src/subscription_maintenance.rs) for one subscription whose period ended three days
-- ago.
use gt06n_tcp_server.Prelude.{◌≡◌, refl, [], ◌∷◌, true, false, none, some, ok}
use gt06n_tcp_server.Prelude.Int.{ℤ, pos, ◌-ℤ◌, as_i32}
use gt06n_tcp_server.Effects.{Env}
use gt06n_tcp_server.Billing.{SubscriptionStatus, Tables, find_subscription, find_sanction, overdue}
use gt06n_tcp_server.Subscription.{
  wib_date, resolve_subscription_maintenance_action, days_until_expiry_wib, overdue_days_wib,
  resolve_for, fine_amount_for_overdue_days,
}
use gt06n_tcp_server.Maintenance.{
  SubscriptionMaintenanceRecord, current_record, record_of, with_end, joined, maintain, perform,
  action_of,
}
use gt06n_tcp_server.Maintenance.Repeat.{maintain_twice}
use gt06n_tcp_server.Tests.Data.{days, days-IsChrono}

abbrev tables : Tables ℤ
tables = record {
  subscriptions =
      (record {
        id = 4;
        telegram_user_id = 11;
        chat_id = pos 12;
        plan_code = "monthly_basic";
        status = SubscriptionStatus.active;
        current_period_start_at = some (pos 70);
        current_period_end_at = some (pos 100);
      })
      ∷ [];
  sanctions = [];
  payments = [];
  outbox = [];
}

-- The pass makes three calls, so the failure that is due fourth does not stop it.
abbrev start : Env (Tables ℤ)
start = record { store = tables; faults = false ∷ false ∷ false ∷ true ∷ [] }

abbrev row : SubscriptionMaintenanceRecord ℤ
row = record {
  subscription_id = 4;
  telegram_user_id = 11;
  chat_id = pos 12;
  current_period_end_at = pos 100;
  last_pre_expiry_reminded_for_period_end_at = none;
  last_pre_expiry_reminded_day = none;
  last_overdue_reminded_day = none;
  withdrawal_required = false;
  resolved_at = none;
}

row_read : current_record days 4 tables ≡ some row
unfolding current_record find_subscription find_sanction record_of with_end joined
row_read = refl

abbrev later : Env (Tables ℤ)
later = (maintain days (pos 103) row start).1

first_pass : maintain days (pos 103) row start ≡ (ok tt, later)
unfolding maintain perform action_of resolve_subscription_maintenance_action days_until_expiry_wib
    overdue_days_wib resolve_for fine_amount_for_overdue_days wib_date ◌-ℤ◌ as_i32
first_pass = refl

one_message : later.store.outbox ≡ overdue (pos 12) (pos 3000) ∷ []
unfolding maintain perform action_of resolve_subscription_maintenance_action days_until_expiry_wib
    overdue_days_wib resolve_for fine_amount_for_overdue_days wib_date ◌-ℤ◌ as_i32
one_message = refl

maintain_twice_example :
    (r' : SubscriptionMaintenanceRecord ℤ) × (current_record days 4 later.store ≡ some r')
    × (maintain days (pos 103) r' later ≡ (ok tt, later))
maintain_twice_example =
    maintain_twice days days-IsChrono 4 (pos 103) (pos 103) row start later row_read first_pass refl

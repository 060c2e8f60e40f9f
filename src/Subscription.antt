-- ===== src/Subscription.antt =====
-- src/subscription_maintenance.rs: the rules of a subscription's life (reminders, fines,
-- withdrawal) and the price of a payment. The records that the job keeps are in `Maintenance`.
pub mod Agreement
pub mod Fines
use gt06n_tcp_server.Prelude.{
  ℕ, ◌+◌, ◌*◌, Bool, true, false, ◌&&◌, ◌||◌, not, if◌then◌else◌, Option, none, some,
}
use gt06n_tcp_server.Prelude.Int.{
  ℤ, pos, negsuc, sub_ℕ, ◌+ℤ◌, ltb_ℤ, leb_ℤ, eqb_ℤ, as_i32, wrap_i64,
}
use gt06n_tcp_server.Chrono.{Chrono}

abbrev pub wib_offset_seconds : ℕ
wib_offset_seconds = 7 * 60 * 60

abbrev pub subscription_pre_expiry_reminder_days : ℤ
subscription_pre_expiry_reminder_days = pos 5

abbrev pub subscription_daily_fine_idr : ℕ
subscription_daily_fine_idr = 1_000

abbrev pub subscription_max_fine_days : ℤ
subscription_max_fine_days = pos 7

abbrev pub subscription_max_fine_idr : ℤ
subscription_max_fine_idr = pos 7_000

abbrev pub customer_referenced_device_fee_idr : ℤ
customer_referenced_device_fee_idr = pos 10_000

pub record SubscriptionPaymentQuote : Type 0 where
  pub base_amount_idr : ℤ
  pub customer_reference_fee_idr : ℤ
  pub shipment_fee_idr : ℤ
  pub fine_amount_idr : ℤ
  pub total_amount_idr : ℤ
  pub overdue_days : ℤ
  pub withdrawal_required : Bool

pub data SubscriptionLifecycleStage : Type 0 where
  active pre_expiry expiry_day overdue withdrawal : SubscriptionLifecycleStage

pub record SubscriptionLifecycleState : Type 0 where
  pub stage : SubscriptionLifecycleStage
  pub day : Option ℤ
  pub reminder_sent : Option Bool
  pub fine_amount_idr : ℤ
  pub withdrawal_required : Bool

pub data SubscriptionMaintenanceAction : Type 0 where
  no_action : SubscriptionMaintenanceAction
  pre_expiry_reminder : (days_until_expiry : ℤ) → SubscriptionMaintenanceAction
  expiry_day_reminder : SubscriptionMaintenanceAction
  overdue_reminder : (overdue_days fine_amount_idr : ℤ) → SubscriptionMaintenanceAction
  mark_withdrawal_required : (overdue_days fine_amount_idr : ℤ) → SubscriptionMaintenanceAction

-- `.max(0)`
abbrev pub max_zero : ℤ → ℤ
max_zero d = if ltb_ℤ d (pos 0) then pos 0 else d

-- `.clamp(0, high)`
abbrev pub clamp_zero : ℤ → ℤ → ℤ
clamp_zero high d = if ltb_ℤ d (pos 0) then pos 0 else if ltb_ℤ high d then high else d

abbrev pub times : ℤ → ℕ → ℤ
times (pos n) k = pos (n * k)
times (negsuc n) k = sub_ℕ 0 ((n + 1) * k)

unfoldable pub fine_amount_for_overdue_days : ℤ → ℤ
fine_amount_for_overdue_days overdue_days =
    times (clamp_zero subscription_max_fine_days overdue_days) subscription_daily_fine_idr

-- `option == Some(value)` for a stored day.
abbrev pub is_day : Option ℤ → ℤ → Bool
is_day none d = false
is_day (some e) d = eqb_ℤ e d

abbrev pub is_none {ℓ} : {A : Type ℓ} → Option A → Bool
is_none none = true
is_none (some a) = false

-- `resolve_subscription_maintenance_action` from the computed days on. `for_period` says whether
-- the last reminder was for the current period end.
unfoldable pub resolve_for :
    ℤ → ℤ → Bool → Option ℤ → Option ℤ → Bool → SubscriptionMaintenanceAction
resolve_for days_until_expiry overdue_days for_period last_pre_expiry_reminded_day
      last_overdue_reminded_day withdrawal_required =
    let for_day = is_day last_pre_expiry_reminded_day (as_i32 days_until_expiry) in
    let legacy_d_minus_five_was_sent =
      for_period
      && is_none last_pre_expiry_reminded_day
      && eqb_ℤ days_until_expiry subscription_pre_expiry_reminder_days in
    if leb_ℤ (pos 1) days_until_expiry
      && leb_ℤ days_until_expiry subscription_pre_expiry_reminder_days
      && (not for_period || (not for_day && not legacy_d_minus_five_was_sent))
    then pre_expiry_reminder days_until_expiry
    else if eqb_ℤ days_until_expiry (pos 0)
        && (not for_period || not (is_day last_pre_expiry_reminded_day (pos 0)))
    then expiry_day_reminder
    else if eqb_ℤ overdue_days (pos 0)
    then no_action
    else let fine_amount_idr = fine_amount_for_overdue_days overdue_days in
      if leb_ℤ overdue_days subscription_max_fine_days
      then (if not (is_day last_overdue_reminded_day (as_i32 overdue_days))
          then overdue_reminder overdue_days fine_amount_idr
          else no_action)
      else if not withdrawal_required
      then mark_withdrawal_required overdue_days fine_amount_idr
      else no_action

-- `subscription_lifecycle_state` behind the test for a period end, from the computed days on.
unfoldable pub lifecycle_for :
    ℤ → ℤ → Bool → Option ℤ → Option ℤ → Bool → Bool → SubscriptionLifecycleState
lifecycle_for days_until_expiry overdue_days for_period last_pre_expiry_reminded_day
      last_overdue_reminded_day withdrawal_required resolved =
    if ltb_ℤ subscription_pre_expiry_reminder_days days_until_expiry
    then record {
      stage = active;
      day = none;
      reminder_sent = none;
      fine_amount_idr = pos 0;
      withdrawal_required = withdrawal_required;
    }
    else let legacy_d_minus_five_was_sent =
        for_period
        && is_none last_pre_expiry_reminded_day
        && eqb_ℤ days_until_expiry subscription_pre_expiry_reminder_days in
      if ltb_ℤ (pos 0) days_until_expiry
      then record {
        stage = pre_expiry;
        day = some days_until_expiry;
        reminder_sent = some (
            legacy_d_minus_five_was_sent
            || (for_period && is_day last_pre_expiry_reminded_day (as_i32 days_until_expiry)));
        fine_amount_idr = pos 0;
        withdrawal_required = withdrawal_required;
      }
      else if eqb_ℤ days_until_expiry (pos 0)
      then record {
        stage = expiry_day;
        day = some (pos 0);
        reminder_sent = some (for_period && is_day last_pre_expiry_reminded_day (pos 0));
        fine_amount_idr = pos 0;
        withdrawal_required = withdrawal_required;
      }
      else let fine_amount_idr = fine_amount_for_overdue_days overdue_days in
        if leb_ℤ overdue_days subscription_max_fine_days
        then record {
          stage = overdue;
          day = some overdue_days;
          reminder_sent = some (
              not resolved
              && (for_period && is_day last_overdue_reminded_day (as_i32 overdue_days)));
          fine_amount_idr = fine_amount_idr;
          withdrawal_required = withdrawal_required;
        }
        else record {
          stage = withdrawal;
          day = some overdue_days;
          reminder_sent = none;
          fine_amount_idr = fine_amount_idr;
          withdrawal_required = withdrawal_required;
        }

module _ (chrono : Chrono) where
  open chrono use {Instant, Date, same, local_date, num_days}

  unfoldable pub wib_date : Instant → Date
  wib_date value = local_date wib_offset_seconds value

  unfoldable pub days_until_expiry_wib : Instant → Instant → ℤ
  days_until_expiry_wib current_period_end_at now =
      num_days (wib_date current_period_end_at) (wib_date now)

  unfoldable pub overdue_days_wib : Instant → Instant → ℤ
  overdue_days_wib current_period_end_at now =
      max_zero (num_days (wib_date now) (wib_date current_period_end_at))

  -- `option == Some(instant)`
  abbrev pub is_instant : Option Instant → Instant → Bool
  is_instant none t = false
  is_instant (some s) t = same s t

  unfoldable pub resolve_subscription_maintenance_action :
      Instant
      → Instant
      → Option Instant
      → Option ℤ
      → Option ℤ
      → Bool
      → SubscriptionMaintenanceAction
  resolve_subscription_maintenance_action current_period_end_at now
        last_pre_expiry_reminded_for_period_end_at last_pre_expiry_reminded_day
        last_overdue_reminded_day withdrawal_required =
      resolve_for (days_until_expiry_wib current_period_end_at now)
        (overdue_days_wib current_period_end_at now)
        (is_instant last_pre_expiry_reminded_for_period_end_at current_period_end_at)
        last_pre_expiry_reminded_day last_overdue_reminded_day withdrawal_required

  unfoldable pub subscription_lifecycle_state :
      Option Instant
      → Instant
      → Option Instant
      → Option ℤ
      → Option ℤ
      → Bool
      → Option Instant
      → SubscriptionLifecycleState
  subscription_lifecycle_state none now for_period_end pre_day overdue_day withdrawal_required
        resolved_at =
      record {
        stage = active;
        day = none;
        reminder_sent = none;
        fine_amount_idr = pos 0;
        withdrawal_required = withdrawal_required;
      }
  subscription_lifecycle_state (some period_end) now for_period_end pre_day overdue_day
        withdrawal_required resolved_at =
      lifecycle_for (days_until_expiry_wib period_end now) (overdue_days_wib period_end now)
        (is_instant for_period_end period_end) pre_day overdue_day withdrawal_required
        (not (is_none resolved_at))

  -- `build_subscription_payment_quote` from what its queries return: whether the device of the user
  -- is referenced by a customer, the device's shipment fee, whether the device has a paid payment,
  -- and the end of the user's period. Sums are in `i64`.
  unfoldable pub payment_quote :
      ℤ → Bool → Option ℤ → Bool → Option Instant → Instant → SubscriptionPaymentQuote
  payment_quote price_idr has_customer_referenced_device device_shipment_fee_idr
        prior_paid_payment_exists current_period_end_at now =
      let overdue_days : ℤ = elim current_period_end_at [
        | none ↦ pos 0
        | some period_end ↦ overdue_days_wib period_end now
      ] in
      let fine_amount_idr = fine_amount_for_overdue_days overdue_days in
      let customer_reference_fee_idr =
        if has_customer_referenced_device then customer_referenced_device_fee_idr else pos 0 in
      let device_fee : ℤ = elim device_shipment_fee_idr [ none ↦ pos 0 | some fee ↦ fee ] in
      let shipment_fee_idr = if prior_paid_payment_exists then pos 0 else device_fee in
      record {
        base_amount_idr = price_idr;
        customer_reference_fee_idr = customer_reference_fee_idr;
        shipment_fee_idr = shipment_fee_idr;
        fine_amount_idr = fine_amount_idr;
        total_amount_idr = wrap_i64 (
            wrap_i64 (wrap_i64 (price_idr +ℤ customer_reference_fee_idr) +ℤ shipment_fee_idr)
            +ℤ fine_amount_idr);
        overdue_days = overdue_days;
        withdrawal_required = ltb_ℤ subscription_max_fine_days overdue_days;
      }

-- ===== src/Subscription/Agreement.antt =====
-- The maintenance job and the API (src/subscription_maintenance.rs) judge a subscription by two
-- functions, `resolve_subscription_maintenance_action` and `subscription_lifecycle_state`. They
-- agree.
use gt06n_tcp_server.Prelude.{
  ℕ, zero, suc, ◌≡◌, arith, Bool, false, ◌||◌, not, if◌then◌else◌, Option, none, some,
}
use gt06n_tcp_server.Prelude.Int.{ℤ, pos, negsuc, pos_part, neg_part}
use gt06n_tcp_server.Chrono.{Chrono, IsChrono}
use gt06n_tcp_server.Subscription.{
  SubscriptionLifecycleState, pre_expiry, expiry_day, overdue, withdrawal,
  SubscriptionLifecycleStage, SubscriptionMaintenanceAction, no_action, pre_expiry_reminder,
  expiry_day_reminder, overdue_reminder, mark_withdrawal_required, max_zero, is_none, is_instant,
  resolve_for, lifecycle_for, wib_date, days_until_expiry_wib, overdue_days_wib,
  resolve_subscription_maintenance_action, subscription_lifecycle_state,
}

-- What is still to be done in a stage, for the day that is shown.
abbrev stage_action :
    SubscriptionLifecycleStage → Option ℤ → Option Bool → ℤ → Bool → SubscriptionMaintenanceAction
stage_action pre_expiry (some day) (some false) fine w = pre_expiry_reminder day
stage_action expiry_day (some day) (some false) fine w = expiry_day_reminder
stage_action overdue (some day) (some false) fine w = overdue_reminder day fine
stage_action withdrawal (some day) sent fine false = mark_withdrawal_required day fine
stage_action _ _ _ _ _ = no_action

abbrev pub due : SubscriptionLifecycleState → SubscriptionMaintenanceAction
due s = stage_action s.stage s.day s.reminder_sent s.fine_amount_idr s.withdrawal_required

-- The overdue day that the job passes on: none if the sanction is resolved or of another period.
abbrev pub current_overdue_day : Bool → Bool → Option ℤ → Option ℤ
current_overdue_day for_period resolved day = if resolved || not for_period then none else day

-- By the sign of the days to go: before, on and after the day of expiry.
before_expiry :
    (n : ℕ) (p : Bool) (pre lod : Option ℤ) (w r : Bool)
    → resolve_for (pos (suc n)) (pos 0) p pre (current_overdue_day p r lod) w
      ≡ due (lifecycle_for (pos (suc n)) (pos 0) p pre lod w r)
unfolding resolve_for lifecycle_for
before_expiry n p pre lod w r = ground arith

on_expiry :
    (p : Bool) (pre lod : Option ℤ) (w r : Bool)
    → resolve_for (pos 0) (pos 0) p pre (current_overdue_day p r lod) w
      ≡ due (lifecycle_for (pos 0) (pos 0) p pre lod w r)
unfolding resolve_for lifecycle_for
on_expiry p pre lod w r = ground arith

after_expiry :
    (n : ℕ) (p : Bool) (pre lod : Option ℤ) (w r : Bool)
    → resolve_for (negsuc n) (pos (suc n)) p pre (current_overdue_day p r lod) w
      ≡ due (lifecycle_for (negsuc n) (pos (suc n)) p pre lod w r)
unfolding resolve_for lifecycle_for
after_expiry n p pre lod w r = ground arith

by_days :
    (d e : ℤ) (p : Bool) (pre lod : Option ℤ) (w r : Bool)
    → pos_part d ≡ neg_part e
    → pos_part e ≡ neg_part d
    → resolve_for d (max_zero e) p pre (current_overdue_day p r lod) w
      ≡ due (lifecycle_for d (max_zero e) p pre lod w r)
by_days (pos zero) e p pre lod w r h k =
    let none_over : max_zero e ≡ pos 0 = ground arith in rw none_over (on_expiry p pre lod w r)
by_days (pos (suc n)) e p pre lod w r h k =
    let none_over : max_zero e ≡ pos 0 = ground arith in
    rw none_over (before_expiry n p pre lod w r)
by_days (negsuc n) e p pre lod w r h k =
    let over : max_zero e ≡ pos (suc n) = ground arith in rw over (after_expiry n p pre lod w r)

-- The job does exactly what the lifecycle that the API shows calls for: it reminds in the stages
-- before and on expiry and while fines run if and only if the shown reminder is not yet sent, with
-- the day and the fine that are shown, marks for withdrawal if and only if that stage is reached and
-- the mark is missing, and does nothing else. The overdue day is passed on as the job does it.
pub resolve_subscription_maintenance_action-due :
    (chrono : Chrono) (laws : IsChrono chrono) (period_end now : chrono.Instant)
    (for_period_end : Option chrono.Instant) (pre_day overdue_day : Option ℤ)
    (withdrawal_required : Bool) (resolved_at : Option chrono.Instant)
    → resolve_subscription_maintenance_action chrono period_end now for_period_end pre_day
        (current_overdue_day
          (is_instant chrono for_period_end period_end)
          (not (is_none resolved_at))
          overdue_day)
        withdrawal_required
      ≡ due (
          subscription_lifecycle_state chrono
            (some period_end)
            now
            for_period_end
            pre_day
            overdue_day
            withdrawal_required
            resolved_at)
unfolding resolve_subscription_maintenance_action subscription_lifecycle_state days_until_expiry_wib
    overdue_days_wib
resolve_subscription_maintenance_action-due chrono laws period_end now for_period_end pre_day
      overdue_day withdrawal_required resolved_at =
    by_days _ _ (is_instant chrono for_period_end period_end) pre_day overdue_day
      withdrawal_required (not (is_none resolved_at))
      (laws.num_days_flip (wib_date chrono period_end) (wib_date chrono now))
      (laws.num_days_flip (wib_date chrono now) (wib_date chrono period_end))

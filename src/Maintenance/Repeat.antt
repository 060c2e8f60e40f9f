-- ===== src/Maintenance/Repeat.antt =====
-- A second run of the daily job (src/subscription_maintenance.rs) on the same day.
use gt06n_tcp_server.Prelude.{
  ℕ, ◌≡◌, refl, sym, ap, subst, ◌∙◌, arith, List, Bool, true, false, ◌||◌, not, if◌then◌else◌,
  Option, none, some, ok,
}
use gt06n_tcp_server.Prelude.Int.{ℤ, pos, as_i32}
use gt06n_tcp_server.Effects.{Env, ◌>>◌, >>=_ok, call_ok}
use gt06n_tcp_server.Chrono.{Chrono, IsChrono}
use gt06n_tcp_server.Subscription.{
  SubscriptionMaintenanceAction, no_action, pre_expiry_reminder, expiry_day_reminder,
  overdue_reminder, mark_withdrawal_required, is_none, is_instant, max_zero, resolve_for, wib_date,
  days_until_expiry_wib, overdue_days_wib, resolve_subscription_maintenance_action,
}
use gt06n_tcp_server.Billing.{
  Subscription, Sanction, Message, Tables, find_sanction, with_status, past_due,
}
use gt06n_tcp_server.Billing.Rows.{find_subscription_id}
use gt06n_tcp_server.Maintenance.{
  SubscriptionMaintenanceRecord, joined, with_end, record_of, merged, upsert, upsert_sanction_state,
  set_subscription_status, send_telegram_message, mark_pre_expiry_reminder_sent,
  mark_overdue_reminder_sent, record_withdrawal, kept_pre_day, perform, action_of, maintain,
  current_record,
}
use gt06n_tcp_server.Maintenance.Once.{Once-on_any_day}
use gt06n_tcp_server.Maintenance.Stored.{with_sanction, current_record-upsert, find_row}

module _ (chrono : Chrono) (laws : IsChrono chrono) where
  open chrono use {Instant}

  abbrev Row : Type 0
  Row = SubscriptionMaintenanceRecord Instant

  -- The days to go and over, of a record at a moment.
  abbrev to_go : Row → Instant → ℤ
  to_go r now = days_until_expiry_wib chrono r.current_period_end_at now

  abbrev over : Row → Instant → ℤ
  over r now = overdue_days_wib chrono r.current_period_end_at now

  to_go-same :
      (end now now' : Instant)
      → wib_date chrono now ≡ wib_date chrono now'
      → (days_until_expiry_wib chrono end now' ≡ days_until_expiry_wib chrono end now)
        × (overdue_days_wib chrono end now' ≡ overdue_days_wib chrono end now)
  unfolding days_until_expiry_wib overdue_days_wib
  to_go-same end now now' day = (
    ap (λ t. chrono.num_days (wib_date chrono end) t) (sym day),
    ap (λ t. max_zero (chrono.num_days t (wib_date chrono end))) (sym day),
  )

  -- What the rule answers once the row `m` is stored for the current period.
  action_of-stored :
      (r : Row) (m : Sanction Instant) (now now' : Instant)
      → wib_date chrono now ≡ wib_date chrono now'
      → m.last_pre_expiry_reminded_for_period_end_at ≡ some r.current_period_end_at
      → m.resolved_at ≡ none
      → action_of chrono now' (with_sanction chrono r m)
        ≡ resolve_for
            (to_go r now)
            (over r now)
            true
            m.last_pre_expiry_reminded_day
            m.last_overdue_reminded_day
            m.withdrawal_required
  unfolding action_of resolve_subscription_maintenance_action
  action_of-stored r m now now' day period open_sanction =
      let (d, o) = to_go-same r.current_period_end_at now now' day in
      rw (
        period,
        open_sanction,
        (laws.same_iff r.current_period_end_at r.current_period_end_at).1 refl,
        d,
        o,
      )

  same_day :
      (r : Row) (now now' : Instant)
      → wib_date chrono now ≡ wib_date chrono now'
      → action_of chrono now' r ≡ action_of chrono now r
  unfolding action_of resolve_subscription_maintenance_action
  same_day r now now' day =
      let (d, o) = to_go-same r.current_period_end_at now now' day in rw (d, o)

  -- What the rule says of the record after each of its actions.
  abbrev After : Row → Instant → SubscriptionMaintenanceAction → Type 0
  After r now before =
      let next : Option ℤ → Option ℤ → Bool → SubscriptionMaintenanceAction =
        λ pre lod w. resolve_for (to_go r now) (over r now) true pre lod w in
      ((x : ℤ) (lod' : Option ℤ) (w' : Bool)
        → before ≡ pre_expiry_reminder x
        → next (some (as_i32 x)) lod' w' ≡ no_action)
      × ((lod' : Option ℤ) (w' : Bool)
          → before ≡ expiry_day_reminder
          → next (some (as_i32 (pos 0))) lod' w' ≡ no_action)
      × ((x f : ℤ) (pre' : Option ℤ) (w' : Bool)
          → before ≡ overdue_reminder x f
          → next pre' (some (as_i32 x)) w' ≡ no_action)
      × ((x f : ℤ) (pre' lod' : Option ℤ)
          → before ≡ mark_withdrawal_required x f
          → next pre' lod' true ≡ no_action)

  after : (r : Row) (now : Instant) → After r now (action_of chrono now r)
  unfolding action_of resolve_subscription_maintenance_action days_until_expiry_wib overdue_days_wib
  after r now =
      Once-on_any_day
        (chrono.num_days (wib_date chrono r.current_period_end_at) (wib_date chrono now))
        (chrono.num_days (wib_date chrono now) (wib_date chrono r.current_period_end_at))
        (is_instant chrono r.last_pre_expiry_reminded_for_period_end_at r.current_period_end_at)
        r.last_pre_expiry_reminded_day
        (if not (is_none r.resolved_at)
            || not (
                is_instant chrono r.last_pre_expiry_reminded_for_period_end_at
                  r.current_period_end_at)
          then none
          else r.last_overdue_reminded_day)
        r.withdrawal_required
        (laws.num_days_flip (wib_date chrono r.current_period_end_at) (wib_date chrono now))
        (laws.num_days_flip (wib_date chrono now) (wib_date chrono r.current_period_end_at))

  with_end-id :
      (row : Subscription Instant) (end : Option Instant) (s : Option (Sanction Instant)) {r : Row}
      → with_end chrono row end s ≡ some r
      → r.subscription_id ≡ row.id
  unfolding with_end joined
  with_end-id row none s h = cc
  with_end-id row (some end) none h = ground arith
  with_end-id row (some end) (some s) h = ground arith

  record_of-id :
      (sanctions : List (Sanction Instant)) (row : Subscription Instant) {r : Row}
      → record_of chrono sanctions row ≡ some r
      → r.subscription_id ≡ row.id
  unfolding record_of
  record_of-id sanctions row {r} h =
      ground
        (arith, with_end-id row row.current_period_end_at (find_sanction row.id sanctions) {r = r})

  current_record-id :
      (id : ℕ) (t : Tables Instant) {r : Row}
      → current_record chrono id t ≡ some r
      → r.subscription_id ≡ id
  current_record-id id t h =
      let (row, found, read) = find_row chrono id t h in
      record_of-id t.sanctions row read ∙ find_subscription_id id t.subscriptions row found

  abbrev Settled : ℕ → Instant → Env (Tables Instant) → Type 0
  Settled id now' e' =
      (r' : Row) × (current_record chrono id e'.store ≡ some r')
      × (maintain chrono now' r' e' ≡ (ok tt, e'))

  settled :
      (id : ℕ) (now' : Instant) (e' : Env (Tables Instant)) (r' : Row)
      → current_record chrono id e'.store ≡ some r'
      → action_of chrono now' r' ≡ no_action
      → Settled id now' e'
  unfolding maintain perform
  settled id now' e' r' h q = (r', h, rw q)

  -- The columns that an upsert gives win over the old ones.
  merged_columns :
      (new : Sanction Instant) (old : Option (Sanction Instant))
      → ((t : Instant)
          → new.last_pre_expiry_reminded_for_period_end_at ≡ some t
          → (merged chrono new old).last_pre_expiry_reminded_for_period_end_at ≡ some t)
        × ((d : ℤ)
            → new.last_pre_expiry_reminded_day ≡ some d
            → (merged chrono new old).last_pre_expiry_reminded_day ≡ some d)
        × ((d : ℤ)
            → new.last_overdue_reminded_day ≡ some d
            → (merged chrono new old).last_overdue_reminded_day ≡ some d)
        × ((merged chrono new old).withdrawal_required ≡ new.withdrawal_required)
        × ((merged chrono new old).resolved_at ≡ new.resolved_at)
  unfolding merged
  merged_columns new none = ((λ t h. h), (λ d h. h), (λ d h. h), refl, refl)
  merged_columns new (some old) =
      ((λ t h. rw h), (λ d h. ground arith), (λ d h. ground arith), refl, refl)

  -- A record for which the row `new` was upserted is settled if the rule is content with its columns.
  upserted :
      (id : ℕ) (now now' : Instant) (r : Row) (new : Sanction Instant)
      (old : Option (Sanction Instant)) (e' : Env (Tables Instant))
      → wib_date chrono now ≡ wib_date chrono now'
      → current_record chrono id e'.store ≡ some (with_sanction chrono r (merged chrono new old))
      → new.last_pre_expiry_reminded_for_period_end_at ≡ some r.current_period_end_at
      → new.resolved_at ≡ none
      → (let m = merged chrono new old in
          resolve_for
            (to_go r now)
            (over r now)
            true
            m.last_pre_expiry_reminded_day
            m.last_overdue_reminded_day
            m.withdrawal_required
          ≡ no_action)
      → Settled id now' e'
  upserted id now now' r new old e' day stored period open_sanction quiet =
      let m = merged chrono new old in
      let (keeps_period, _, _, _, keeps_resolved) = merged_columns new old in
      settled id now' e' (with_sanction chrono r m) stored (
        action_of-stored r m now now' day (keeps_period r.current_period_end_at period)
          (keeps_resolved ∙ open_sanction)
        ∙ quiet)

  -- A message leaves what the job reads.
  sent :
      (id : ℕ) (message : Message Instant) (e e₁ : Env (Tables Instant)) {r : Row}
      → current_record chrono id e.store ≡ some r
      → send_telegram_message chrono message e ≡ (ok tt, e₁)
      → current_record chrono id e₁.store ≡ some r
  unfolding send_telegram_message current_record
  sent id message e e₁ {r} now_read h =
      subst (λ t. current_record chrono id t ≡ some r) (ap (λ x. x.1) (call_ok _ e h)) now_read

  -- The message and then the mark of a reminder before or on expiry.
  marked_pre :
      (id : ℕ) (now now' : Instant) (r : Row) (x : ℤ) (message : Message Instant)
      (e e' : Env (Tables Instant))
      → wib_date chrono now ≡ wib_date chrono now'
      → current_record chrono id e.store ≡ some r
      → ((lod : Option ℤ) (w : Bool)
          → resolve_for (to_go r now) (over r now) true (some (as_i32 x)) lod w ≡ no_action)
      → (send_telegram_message chrono message
            >> mark_pre_expiry_reminder_sent chrono r r.current_period_end_at x)
          e
        ≡ (ok tt, e')
      → Settled id now' e'
  unfolding mark_pre_expiry_reminder_sent upsert_sanction_state
  marked_pre id now now' r x message e e' day now_read quiet h =
      let (_, e₁, h₁, h₂) =
        >>=_ok (send_telegram_message chrono message)
          (λ _. mark_pre_expiry_reminder_sent chrono r r.current_period_end_at x) e h in
      let new : Sanction Instant = record {
        subscription_id = r.subscription_id;
        telegram_user_id = r.telegram_user_id;
        chat_id = r.chat_id;
        last_pre_expiry_reminded_for_period_end_at = some r.current_period_end_at;
        last_pre_expiry_reminded_day = some (as_i32 x);
        last_overdue_reminded_day = none;
        fine_amount_idr = pos 0;
        withdrawal_required = false;
        withdrawal_required_at = none;
        resolved_at = none;
      } in
      let old = find_sanction r.subscription_id e₁.store.sanctions in
      let m = merged chrono new old in
      let read₁ = sent id message e e₁ now_read h₁ in
      let stored =
        subst (λ t. current_record chrono id t ≡ some (with_sanction chrono r m))
          (ap (λ x. x.1) (call_ok _ e₁ h₂))
          (current_record-upsert chrono id e₁.store new (current_record-id id e₁.store read₁)
            read₁).0 in
      let (_, keeps_pre, _, _, _) = merged_columns new old in
      upserted id now now' r new old e' day stored refl refl (
        subst
          (λ p.
            resolve_for (to_go r now) (over r now) true p m.last_overdue_reminded_day
              m.withdrawal_required
            ≡ no_action)
          (sym (keeps_pre (as_i32 x) refl))
          (quiet m.last_overdue_reminded_day m.withdrawal_required))

  -- The status and the row of an overdue subscription.
  marked_late :
      (now now' : Instant) (r : Row) (x fine : ℤ) (w : Bool) (since : Option Instant)
      (e e' : Env (Tables Instant))
      → wib_date chrono now ≡ wib_date chrono now'
      → current_record chrono r.subscription_id e.store ≡ some r
      → ((pre : Option ℤ)
          → resolve_for (to_go r now) (over r now) true pre (some (as_i32 x)) w ≡ no_action)
      → (set_subscription_status chrono r.subscription_id past_due
            >> upsert_sanction_state chrono r
                (some r.current_period_end_at)
                (kept_pre_day chrono r)
                (some (as_i32 x))
                fine
                w
                since)
          e
        ≡ (ok tt, e')
      → Settled r.subscription_id now' e'
  unfolding set_subscription_status upsert_sanction_state
  marked_late now now' r x fine w since e e' day now_read quiet h =
      let id = r.subscription_id in
      let (_, e₁, h₁, h₂) =
        >>=_ok (set_subscription_status chrono id past_due)
          (λ _.
            upsert_sanction_state chrono r (some r.current_period_end_at) (kept_pre_day chrono r)
              (some (as_i32 x)) fine w since)
          e h in
      let new : Sanction Instant = record {
        subscription_id = r.subscription_id;
        telegram_user_id = r.telegram_user_id;
        chat_id = r.chat_id;
        last_pre_expiry_reminded_for_period_end_at = some r.current_period_end_at;
        last_pre_expiry_reminded_day = kept_pre_day chrono r;
        last_overdue_reminded_day = some (as_i32 x);
        fine_amount_idr = fine;
        withdrawal_required = w;
        withdrawal_required_at = since;
        resolved_at = none;
      } in
      let old = find_sanction id e.store.sanctions in
      let m = merged chrono new old in
      let marked = record e.store {
        subscriptions = with_status id past_due e.store.subscriptions;
      } in
      let store₁ : marked ≡ e₁.store = ap (λ y. y.1) (call_ok _ e h₁) in
      let store₂ : upsert chrono new marked ≡ e'.store =
        ap (upsert chrono new) store₁ ∙ ap (λ y. y.1) (call_ok _ e₁ h₂) in
      let stored =
        subst (λ t. current_record chrono id t ≡ some (with_sanction chrono r m)) store₂
          (current_record-upsert chrono id e.store new refl now_read).1 in
      let (_, _, keeps_overdue, _, _) = merged_columns new old in
      let (_, _, _, keeps_mark, _) = merged_columns new old in
      upserted id now now' r new old e' day stored refl refl
        (rw (keeps_overdue (as_i32 x) refl, keeps_mark) (quiet m.last_pre_expiry_reminded_day))

  performed :
      (now now' : Instant) (r : Row) (a : SubscriptionMaintenanceAction)
      (e e' : Env (Tables Instant))
      → wib_date chrono now ≡ wib_date chrono now'
      → current_record chrono r.subscription_id e.store ≡ some r
      → action_of chrono now r ≡ a
      → perform chrono now r a e ≡ (ok tt, e')
      → Settled r.subscription_id now' e'
  unfolding perform mark_overdue_reminder_sent record_withdrawal
  performed now now' r no_action e e' day read act h =
      settled r.subscription_id now' e' r
        (subst (λ y. current_record chrono r.subscription_id y ≡ some r) (ap (λ z. z.1.store) h)
          read)
        (same_day r now now' day ∙ act)
  performed now now' r (pre_expiry_reminder x) e e' day read act h =
      marked_pre r.subscription_id now now' r x (Message.pre_expiry r.chat_id) e e' day read
        (λ lod w. (after r now).0 x lod w act) h
  performed now now' r expiry_day_reminder e e' day read act h =
      marked_pre r.subscription_id now now' r (pos 0) (Message.expiry_day r.chat_id) e e' day read
        (λ lod w. (after r now).1 lod w act) h
  performed now now' r (overdue_reminder x f) e e' day read act h =
      let (_, e₁, h₁, h₂) =
        >>=_ok (send_telegram_message chrono (Message.overdue r.chat_id f))
          (λ _. mark_overdue_reminder_sent chrono r x f) e h in
      marked_late now now' r x f false none e₁ e' day
        (sent r.subscription_id (Message.overdue r.chat_id f) e e₁ read h₁)
        (λ pre. (after r now).2 x f pre false act) h₂
  performed now now' r (mark_withdrawal_required x f) e e' day read act h =
      marked_late now now' r x f true (some now) e e' day read
        (λ pre. (after r now).3 x f pre (some (as_i32 x)) act) h

  -- If the job has treated a subscription without a failure, then a later pass on the same local day
  -- that reads the subscription again finds its record, sends nothing, writes nothing and succeeds,
  -- whichever calls are to fail.
  pub maintain_twice :
      (id : ℕ) (now now' : Instant) (r : SubscriptionMaintenanceRecord Instant)
      (e e' : Env (Tables Instant))
      → current_record chrono id e.store ≡ some r
      → maintain chrono now r e ≡ (ok tt, e')
      → wib_date chrono now ≡ wib_date chrono now'
      → (r' : SubscriptionMaintenanceRecord Instant) × (current_record chrono id e'.store ≡ some r')
        × (maintain chrono now' r' e' ≡ (ok tt, e'))
  unfolding maintain
  maintain_twice id now now' r e e' read h day =
      let own = current_record-id id e.store read in
      subst (λ k. Settled k now' e') own
        (performed now now' r (action_of chrono now r) e e' day
          (subst (λ k. current_record chrono k e.store ≡ some r) (sym own) read) refl h)

-- ===== src/Maintenance/Stored.antt =====
-- What the daily job (src/subscription_maintenance.rs) reads back of what it has written.
use gt06n_tcp_server.Prelude.{ℕ, ◌≡◌, refl, sym, ap, subst, ◌∙◌, arith, List, Option, none, some}
use gt06n_tcp_server.Chrono.{Chrono}
use gt06n_tcp_server.Billing.{
  past_due, Subscription, Sanction, Tables, find_sanction, find_subscription, put_sanction,
  with_status,
}
use gt06n_tcp_server.Billing.Rows.{
  find_sanction-put_sanction, past_due_row, find_subscription-with_status, find_subscription_id,
}
use gt06n_tcp_server.Maintenance.{
  SubscriptionMaintenanceRecord, joined, with_end, record_of, merged, upsert, current_record,
}

module _ (chrono : Chrono) where
  open chrono use {Instant}

  -- A record with the columns of another sanction row.
  abbrev pub with_sanction :
      SubscriptionMaintenanceRecord Instant
      → Sanction Instant
      → SubscriptionMaintenanceRecord Instant
  with_sanction r s = record r {
    last_pre_expiry_reminded_for_period_end_at = s.last_pre_expiry_reminded_for_period_end_at;
    last_pre_expiry_reminded_day = s.last_pre_expiry_reminded_day;
    last_overdue_reminded_day = s.last_overdue_reminded_day;
    withdrawal_required = s.withdrawal_required;
    resolved_at = s.resolved_at;
  }

  joined-with_sanction :
      (row : Subscription Instant) (end : Instant) (old : Option (Sanction Instant))
      (s : Sanction Instant)
      → joined chrono row end (some s) ≡ with_sanction (joined chrono row end old) s
  unfolding joined
  joined-with_sanction row end none s = refl
  joined-with_sanction row end (some t) s = refl

  with_end-some :
      (row : Subscription Instant) (end : Option Instant) (old : Option (Sanction Instant))
      (s : Sanction Instant) {r : SubscriptionMaintenanceRecord Instant}
      → with_end chrono row end old ≡ some r
      → with_end chrono row end (some s) ≡ some (with_sanction r s)
  unfolding with_end
  with_end-some row none old s h = cc
  with_end-some row (some end) old s h = cc (joined-with_sanction row end old s)

  past_due_same :
      (row : Subscription Instant) (end : Option Instant) (sanction : Option (Sanction Instant))
      → with_end chrono (past_due_row row) end sanction ≡ with_end chrono row end sanction
  unfolding with_end joined
  past_due_same row none sanction = refl
  past_due_same row (some end) none = refl
  past_due_same row (some end) (some s) = refl

  -- The filter passes a row on its plan code and its status alone.
  record_of-some :
      (before after : List (Sanction Instant)) (row : Subscription Instant) (s : Sanction Instant)
      {r : SubscriptionMaintenanceRecord Instant}
      → record_of chrono before row ≡ some r
      → find_sanction row.id after ≡ some s
      → (record_of chrono after row ≡ some (with_sanction r s))
        × (record_of chrono after (past_due_row row) ≡ some (with_sanction r s))
  unfolding record_of
  record_of-some before after row s h e = ground (
    arith,
    with_end-some row row.current_period_end_at (find_sanction row.id before) s,
    past_due_same row row.current_period_end_at (some s),
  )

  merged_id :
      (new : Sanction Instant) (old : Option (Sanction Instant))
      → (merged chrono new old).subscription_id ≡ new.subscription_id
  unfolding merged
  merged_id new none = refl
  merged_id new (some old) = refl

  pub find_row :
      (id : ℕ) (t : Tables Instant) {r : SubscriptionMaintenanceRecord Instant}
      → current_record chrono id t ≡ some r
      → (row : Subscription Instant) × (find_subscription id t.subscriptions ≡ some row)
        × (record_of chrono t.sanctions row ≡ some r)
  unfolding current_record
  find_row id t {r} h = at (find_subscription id t.subscriptions) refl h
    where
      at :
          (found : Option (Subscription Instant))
          → find_subscription id t.subscriptions ≡ found
          → (elim found [ none ↦ none | some row ↦ record_of chrono t.sanctions row ]) ≡ some r
          → (row : Subscription Instant) × (find_subscription id t.subscriptions ≡ some row)
            × (record_of chrono t.sanctions row ≡ some r)
      at none e q = cc
      at (some row) e q = (row, e, q)

  current_of :
      (id : ℕ) (t : Tables Instant) (row : Subscription Instant)
      {r : SubscriptionMaintenanceRecord Instant}
      → find_subscription id t.subscriptions ≡ some row
      → record_of chrono t.sanctions row ≡ some r
      → current_record chrono id t ≡ some r
  unfolding current_record
  current_of id t row found read =
      ap (λ o. elim o [ none ↦ none | some row ↦ record_of chrono t.sanctions row ]) found ∙ read

  -- What the job reads back after it has upserted a sanction row for a subscription, and after it
  -- has also set the subscription's status to past due.
  pub current_record-upsert :
      (id : ℕ) (t : Tables Instant) (new : Sanction Instant)
      {r : SubscriptionMaintenanceRecord Instant}
      → new.subscription_id ≡ id
      → current_record chrono id t ≡ some r
      → let after =
          with_sanction r (merged chrono new (find_sanction new.subscription_id t.sanctions)) in
        (current_record chrono id (upsert chrono new t) ≡ some after)
        × (current_record chrono id (
              upsert chrono new
                (record t { subscriptions = with_status id past_due t.subscriptions }))
            ≡ some after)
  unfolding upsert
  current_record-upsert id t new {r} own h =
      let (row, found, read) = find_row id t h in
      let m = merged chrono new (find_sanction new.subscription_id t.sanctions) in
      let key : m.subscription_id ≡ row.id =
        merged_id new (find_sanction new.subscription_id t.sanctions)
        ∙ own
        ∙ sym (find_subscription_id id t.subscriptions row found) in
      let stored : find_sanction row.id (put_sanction m t.sanctions) ≡ some m =
        subst (λ k. find_sanction k (put_sanction m t.sanctions) ≡ some m) key
          (find_sanction-put_sanction m t.sanctions) in
      let (same_status, late_status) =
        record_of-some t.sanctions (put_sanction m t.sanctions) row m read stored in
      let later = record t { subscriptions = with_status id past_due t.subscriptions } in
      (
        current_of id (upsert chrono new t) row found same_status,
        current_of id (upsert chrono new later) (past_due_row row)
            (find_subscription-with_status id t.subscriptions row found) late_status,
      )

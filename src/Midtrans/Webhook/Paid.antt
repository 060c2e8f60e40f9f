-- ===== src/Midtrans/Webhook/Paid.antt =====
-- What `apply_midtrans_webhook` (src/midtrans.rs) has done when it answers that an order is paid.
use gt06n_tcp_server.Prelude.{
  ℕ, ◌≡◌, inl, inr, refl, sym, ap, subst, ◌∙◌, List, Bool-cases, Option, none, some, ok,
  if◌then◌else◌,
}
use gt06n_tcp_server.Prelude.Int.{ℤ, ltb_ℤ}
use gt06n_tcp_server.Effects.{M, Env, ◌>>=◌, ◌>>◌, return, call, call_ok, >>=_ok, transaction_ok}
use gt06n_tcp_server.Chrono.{Chrono}
use gt06n_tcp_server.Billing.{PaymentStatus, Subscription, Payment, Tables}
use gt06n_tcp_server.Midtrans.{MidtransPaymentStatus, MidtransWebhookNotification}
use gt06n_tcp_server.Midtrans.Webhook.{
  MidtransWebhookApplyOutcome, MidtransSubscriptionRecord, find_payment, set_payment,
  update_payment, commit, noted, resolve_subscription_sanction, find_of_user, put_subscription,
  renewed, upsert_subscription, settle_payment, apply_paid, apply_pending, apply_found, apply_row,
  apply_midtrans_webhook, commit_ignored, set_status_ignored,
}
use Prim.Native.String.{String}

module _ (chrono : Chrono) (gross_amount_of : String → Option ℤ)
    (fresh_id : List (Subscription chrono.Instant) → ℕ) (sha512_hex : String → String)
    (db_now : chrono.Instant) where
  open chrono use {Instant}

  abbrev Outcome : Type 0
  Outcome = MidtransWebhookApplyOutcome Instant

  abbrev State : Type 0
  State = Env (Tables Instant)

  abbrev ignore : M (Tables Instant) Outcome
  ignore = commit_ignored chrono gross_amount_of fresh_id sha512_hex db_now

  -- The columns of a payment that is settled.
  abbrev pub paid_row :
      MidtransWebhookNotification → Instant → ℕ → Payment Instant → Payment Instant
  paid_row n now id row = record (noted n row) {
    subscription_id = some id;
    payment_status = PaymentStatus.paid;
    paid_at = some now;
  }

  ignore_not_paid :
      (e e' : State) (s : MidtransSubscriptionRecord Instant) {X : Type 0}
      → ignore e ≡ (ok (MidtransWebhookApplyOutcome.paid s), e')
      → X
  unfolding commit_ignored
  ignore_not_paid e e' s h =
      let (_, e₁, h₁, h₂) = >>=_ok commit (λ _. return MidtransWebhookApplyOutcome.ignored) e h in
      cc

  noted_not_paid :
      (id : ℕ) (set : Payment Instant → Payment Instant) (e e' : State)
      (s : MidtransSubscriptionRecord Instant) {X : Type 0}
      → (set_payment id set >> ignore) e ≡ (ok (MidtransWebhookApplyOutcome.paid s), e')
      → X
  noted_not_paid id set e e' s h =
      let (_, e₁, h₁, h₂) = >>=_ok (set_payment id set) (λ _. ignore) e h in
      ignore_not_paid e₁ e' s h₂

  -- A payment `payment` was settled on the way from `e` to `e'`, with the answer `s`.
  abbrev pub IsSettled :
      Payment Instant
      → MidtransWebhookNotification
      → Instant
      → State
      → State
      → MidtransSubscriptionRecord Instant
      → Type 0
  IsSettled payment n now e e' s =
      (row : Subscription Instant) × (e'.store.payments
        ≡ update_payment payment.id (paid_row n now row.id) e.store.payments)
      × (e'.store.subscriptions
          ≡ put_subscription
              (renewed chrono gross_amount_of fresh_id sha512_hex db_now payment now
                (find_of_user payment.telegram_user_id e.store.subscriptions) e.store.subscriptions)
              e.store.subscriptions)
      × (find_of_user payment.telegram_user_id e'.store.subscriptions ≡ some row)
      × (s.current_period_end_at ≡ row.current_period_end_at)

  settle_payment-paid :
      (payment : Payment Instant) (n : MidtransWebhookNotification) (now : Instant)
      (found : Option (Subscription Instant)) (e e' : State)
      (s : MidtransSubscriptionRecord Instant)
      → settle_payment chrono gross_amount_of fresh_id sha512_hex db_now payment n now found e
        ≡ (ok (MidtransWebhookApplyOutcome.paid s), e')
      → (row : Subscription Instant) × (found ≡ some row)
        × (e'.store.payments ≡ update_payment payment.id (paid_row n now row.id) e.store.payments)
        × (e'.store.subscriptions ≡ e.store.subscriptions)
        × (s.current_period_end_at ≡ row.current_period_end_at)
  unfolding settle_payment set_payment resolve_subscription_sanction commit
  settle_payment-paid payment n now none e e' s h = cc
  settle_payment-paid payment n now (some row) e e' s h =
      let (_, e₁, h₁, k₁) = >>=_ok (set_payment payment.id (paid_row n now row.id)) _ e h in
      let (_, e₂, h₂, k₂) = >>=_ok (resolve_subscription_sanction db_now row.id) _ e₁ k₁ in
      let (_, e₃, h₃, k₃) = >>=_ok commit _ e₂ k₂ in
      let c₁ = call_ok _ e h₁ in
      let c₂ = call_ok _ e₁ h₂ in
      let c₃ = call_ok _ e₂ h₃ in
      (
        row,
        refl,
        sym (
            ap (λ y. y.1.payments) c₁
            ∙ ap (λ y. y.1.payments) c₂
            ∙ ap (λ y. y.1.payments) c₃
            ∙ ap (λ y. y.1.store.payments) k₃),
        sym (
            ap (λ y. y.1.subscriptions) c₁
            ∙ ap (λ y. y.1.subscriptions) c₂
            ∙ ap (λ y. y.1.subscriptions) c₃
            ∙ ap (λ y. y.1.store.subscriptions) k₃),
        cc,
      )

  apply_paid-paid :
      (payment : Payment Instant) (n : MidtransWebhookNotification) (now : Instant)
      (amount : Option ℤ) (e e' : State) (s : MidtransSubscriptionRecord Instant)
      → apply_paid chrono gross_amount_of fresh_id sha512_hex db_now payment n now amount e
        ≡ (ok (MidtransWebhookApplyOutcome.paid s), e')
      → IsSettled payment n now e e' s
  unfolding apply_paid upsert_subscription
  apply_paid-paid payment n now none e e' s h = cc
  apply_paid-paid payment n now (some a) e e' s h =
      elim (Bool-cases (ltb_ℤ a payment.gross_amount_idr)) [
        | inl short ↦ ignore_not_paid e e' s (
            subst
              (λ b.
                (if b then ignore else take_payment) e
                ≡ (ok (MidtransWebhookApplyOutcome.paid s), e'))
              short h)
        | inr enough ↦ charged (
            subst
              (λ b.
                (if b then ignore else take_payment) e
                ≡ (ok (MidtransWebhookApplyOutcome.paid s), e'))
              enough h)
      ]
    where
      query : Tables Instant → Option (Subscription Instant) × Tables Instant
      query t = (find_of_user payment.telegram_user_id t.subscriptions, t)

      insert : Option (Subscription Instant) → M (Tables Instant) (Option (Subscription Instant))
      insert existing =
          upsert_subscription chrono gross_amount_of fresh_id sha512_hex db_now payment now existing

      settle : Option (Subscription Instant) → M (Tables Instant) Outcome
      settle found =
          settle_payment chrono gross_amount_of fresh_id sha512_hex db_now payment n now found

      take_payment : M (Tables Instant) Outcome
      take_payment = call query >>= λ existing. insert existing >>= settle

      put : Option (Subscription Instant) → Tables Instant → List (Subscription Instant)
      put existing t =
          put_subscription
            (renewed chrono gross_amount_of fresh_id sha512_hex db_now payment now existing
              t.subscriptions)
            t.subscriptions

      charged :
          take_payment e ≡ (ok (MidtransWebhookApplyOutcome.paid s), e')
          → IsSettled payment n now e e' s
      charged k =
          let (existing, e₁, h₁, k₁) =
            >>=_ok (call query) (λ existing. insert existing >>= settle) e k in
          let (found, e₂, h₂, k₂) = >>=_ok (insert existing) settle e₁ k₁ in
          let (row, is_row, payments, subscriptions, end) =
            settle_payment-paid payment n now found e₂ e' s k₂ in
          let c₁ = call_ok query e h₁ in
          let c₂ = call_ok _ e₁ h₂ in
          let inserted = ap (λ y. y.1.subscriptions) c₂ in
          (
            row,
            payments
                ∙ ap (update_payment payment.id (paid_row n now row.id))
                    (sym (ap (λ y. y.1.payments) c₁ ∙ ap (λ y. y.1.payments) c₂)),
            subscriptions ∙ sym (ap (λ y. put y.0 y.1) c₁ ∙ inserted),
            ap (find_of_user payment.telegram_user_id) (subscriptions ∙ sym inserted)
                ∙ ap (λ y. y.0) c₂
                ∙ is_row,
            end,
          )

  -- The payment was pending and of the notified order, and it was settled.
  abbrev pub IsPaid :
      Option (Payment Instant)
      → MidtransWebhookNotification
      → Instant
      → State
      → State
      → MidtransSubscriptionRecord Instant
      → Type 0
  IsPaid found n now e e' s =
      (payment : Payment Instant) × (found ≡ some payment) × IsSettled payment n now e e' s

  set_status_not_paid :
      (payment : Payment Instant) (n : MidtransWebhookNotification) (status : PaymentStatus)
      (e e' : State) (s : MidtransSubscriptionRecord Instant) {X : Type 0}
      → set_status_ignored chrono gross_amount_of fresh_id sha512_hex db_now payment n status e
        ≡ (ok (MidtransWebhookApplyOutcome.paid s), e')
      → X
  unfolding set_status_ignored
  set_status_not_paid payment n status e e' s h =
      noted_not_paid payment.id (λ row. record (noted n row) { payment_status = status }) e e' s h

  apply_pending-paid :
      (payment : Payment Instant) (n : MidtransWebhookNotification) (mapped : MidtransPaymentStatus)
      (now : Instant) (e e' : State) (s : MidtransSubscriptionRecord Instant)
      → apply_pending chrono gross_amount_of fresh_id sha512_hex db_now payment n mapped now e
        ≡ (ok (MidtransWebhookApplyOutcome.paid s), e')
      → IsSettled payment n now e e' s
  unfolding apply_pending
  apply_pending-paid payment n MidtransPaymentStatus.paid now e e' s h =
      apply_paid-paid payment n now (gross_amount_of n.gross_amount) e e' s h
  apply_pending-paid payment n MidtransPaymentStatus.pending now e e' s h =
      set_status_not_paid payment n _ e e' s h
  apply_pending-paid payment n MidtransPaymentStatus.expired now e e' s h =
      set_status_not_paid payment n _ e e' s h
  apply_pending-paid payment n MidtransPaymentStatus.failed now e e' s h =
      set_status_not_paid payment n _ e e' s h
  apply_pending-paid payment n MidtransPaymentStatus.refunded now e e' s h =
      set_status_not_paid payment n _ e e' s h

  apply_found-paid :
      (payment : Payment Instant) (status : PaymentStatus) (n : MidtransWebhookNotification)
      (mapped : MidtransPaymentStatus) (now : Instant) (e e' : State)
      (s : MidtransSubscriptionRecord Instant)
      → apply_found chrono gross_amount_of fresh_id sha512_hex db_now payment status n mapped now e
        ≡ (ok (MidtransWebhookApplyOutcome.paid s), e')
      → IsSettled payment n now e e' s
  unfolding apply_found
  apply_found-paid payment PaymentStatus.paid n mapped now e e' s h = ignore_not_paid e e' s h
  apply_found-paid payment PaymentStatus.pending n mapped now e e' s h =
      apply_pending-paid payment n mapped now e e' s h
  apply_found-paid payment PaymentStatus.expired n mapped now e e' s h =
      noted_not_paid payment.id (noted n) e e' s h
  apply_found-paid payment PaymentStatus.failed n mapped now e e' s h =
      noted_not_paid payment.id (noted n) e e' s h
  apply_found-paid payment PaymentStatus.refunded n mapped now e e' s h =
      noted_not_paid payment.id (noted n) e e' s h

  apply_row-paid :
      (found : Option (Payment Instant)) (n : MidtransWebhookNotification)
      (mapped : MidtransPaymentStatus) (now : Instant) (e e' : State)
      (s : MidtransSubscriptionRecord Instant)
      → apply_row chrono gross_amount_of fresh_id sha512_hex db_now found n mapped now e
        ≡ (ok (MidtransWebhookApplyOutcome.paid s), e')
      → IsPaid found n now e e' s
  unfolding apply_row
  apply_row-paid none n mapped now e e' s h =
      let (_, e₁, h₁, k₁) =
        >>=_ok commit (λ _. return MidtransWebhookApplyOutcome.unknown_order) e h in
      cc
  apply_row-paid (some payment) n mapped now e e' s h =
      (payment, refl, apply_found-paid payment payment.payment_status n mapped now e e' s h)

  pub apply_midtrans_webhook-paid :
      (n : MidtransWebhookNotification) (mapped : MidtransPaymentStatus) (now : Instant)
      (e e' : State) (s : MidtransSubscriptionRecord Instant)
      → apply_midtrans_webhook chrono gross_amount_of fresh_id sha512_hex db_now n mapped now e
        ≡ (ok (MidtransWebhookApplyOutcome.paid s), e')
      → (t : State) × (t.store ≡ e.store)
        × IsPaid (find_payment n.order_id e.store.payments) n now t e' s
  unfolding apply_midtrans_webhook
  apply_midtrans_webhook-paid n mapped now e e' s h =
      let query : Tables Instant → Option (Payment Instant) × Tables Instant =
        λ t. (find_payment n.order_id t.payments, t) in
      let rest : Option (Payment Instant) → M (Tables Instant) Outcome =
        λ found. apply_row chrono gross_amount_of fresh_id sha512_hex db_now found n mapped now in
      let (found, e₁, h₁, k₁) =
        >>=_ok (call query) rest e (transaction_ok (call query >>= rest) e h) in
      let c = call_ok query e h₁ in
      (
        e₁,
        sym (ap (λ y. y.1) c),
        subst (λ o. IsPaid o n now e₁ e' s) (sym (ap (λ y. y.0) c))
            (apply_row-paid found n mapped now e₁ e' s k₁),
      )

-- ===== src/Midtrans/Webhook/Safety.antt =====
-- What a notification of the payment provider must show before a subscription changes
-- (src/midtrans.rs, src/api.rs).
use gt06n_tcp_server.Prelude.{
  ℕ, ◌≡◌, ◌⊎◌, inl, inr, refl, ap, subst, ◌∙◌, arith, List, true, Bool-cases, Option, none, some,
  ok,
}
use gt06n_tcp_server.Prelude.Int.{ℤ, ◌≤ℤ◌, ltb_ℤ}
use gt06n_tcp_server.Effects.{M, Env, ◌>>=◌, ◌>>◌, return, call, call_ok}
use gt06n_tcp_server.Effects.Keeps.{Keeps, Keeps-call, Keeps->>=, Keeps-transaction}
use gt06n_tcp_server.Chrono.{Chrono}
use gt06n_tcp_server.Billing.{PaymentStatus, Subscription, Payment, Message, Tables}
use gt06n_tcp_server.Midtrans.{
  MidtransPaymentStatus, MidtransWebhookNotification, map_midtrans_status,
  verify_midtrans_signature,
}
use gt06n_tcp_server.Midtrans.Webhook.{
  MidtransWebhookApplyOutcome, MidtransSubscriptionRecord, Reply, find_payment, set_payment, commit,
  send, apply_paid, apply_pending, apply_found, apply_row, apply_midtrans_webhook, commit_ignored,
  set_status_ignored, notify_paid, reply_to, post_verified, post_midtrans_webhook,
}
use Prim.Native.String.{String}

module _ (chrono : Chrono) (gross_amount_of : String → Option ℤ)
    (fresh_id : List (Subscription chrono.Instant) → ℕ) (sha512_hex : String → String)
    (db_now : chrono.Instant) where
  open chrono use {Instant}

  abbrev subs : Tables Instant → List (Subscription Instant)
  subs t = t.subscriptions

  -- A pending payment of the order is there, and the notification reports it as paid in full.
  abbrev pub IsPaidInFull :
      Option (Payment Instant) → MidtransWebhookNotification → MidtransPaymentStatus → Type 0
  IsPaidInFull found n mapped =
      (payment : Payment Instant) × (amount : ℤ) × (found ≡ some payment)
      × (payment.payment_status ≡ PaymentStatus.pending)
      × (mapped ≡ MidtransPaymentStatus.paid)
      × (gross_amount_of n.gross_amount ≡ some amount)
      × (payment.gross_amount_idr ≤ℤ amount)

  commit-Keeps : (e : Env (Tables Instant)) → Keeps subs commit e
  unfolding commit
  commit-Keeps e = Keeps-call subs _ e (λ s. refl)

  commit_ignored-Keeps :
      (e : Env (Tables Instant))
      → Keeps subs (commit_ignored chrono gross_amount_of fresh_id sha512_hex db_now) e
  unfolding commit_ignored
  commit_ignored-Keeps e =
      Keeps->>= subs commit (λ _. return MidtransWebhookApplyOutcome.ignored) e (commit-Keeps e)
        (λ a e₁ h. refl)

  set_payment-Keeps :
      (id : ℕ) (set : Payment Instant → Payment Instant) (e : Env (Tables Instant))
      → Keeps subs (set_payment id set) e
  unfolding set_payment
  set_payment-Keeps id set e = Keeps-call subs _ e (λ s. refl)

  noted_ignored-Keeps :
      (id : ℕ) (set : Payment Instant → Payment Instant) (e : Env (Tables Instant))
      → Keeps subs
          (set_payment id set >> commit_ignored chrono gross_amount_of fresh_id sha512_hex db_now)
          e
  noted_ignored-Keeps id set e =
      Keeps->>= subs (set_payment id set)
        (λ _. commit_ignored chrono gross_amount_of fresh_id sha512_hex db_now) e
        (set_payment-Keeps id set e) (λ a e₁ h. commit_ignored-Keeps e₁)

  set_status_ignored-Keeps :
      (payment : Payment Instant) (n : MidtransWebhookNotification) (status : PaymentStatus)
      (e : Env (Tables Instant))
      → Keeps subs
          (set_status_ignored chrono gross_amount_of fresh_id sha512_hex db_now payment n status)
          e
  unfolding set_status_ignored
  set_status_ignored-Keeps payment n status e = noted_ignored-Keeps payment.id _ e

  abbrev Untouched : M (Tables Instant) (MidtransWebhookApplyOutcome Instant) → Type 0
  Untouched m = (e : Env (Tables Instant)) → Keeps subs m e

  apply_paid-safe :
      (payment : Payment Instant) (n : MidtransWebhookNotification) (now : Instant)
      (amount : Option ℤ)
      → Untouched
          (apply_paid chrono gross_amount_of fresh_id sha512_hex db_now payment n now amount)
        ⊎ ((a : ℤ) × (amount ≡ some a) × (payment.gross_amount_idr ≤ℤ a))
  unfolding apply_paid
  apply_paid-safe payment n now none = inl (λ e. refl)
  apply_paid-safe payment n now (some a) = elim (Bool-cases (ltb_ℤ a payment.gross_amount_idr)) [
    | inl short ↦ inl (λ e. rw short (commit_ignored-Keeps e))
    | inr enough ↦ inr (a, refl, ground arith)
  ]

  apply_pending-safe :
      (payment : Payment Instant) (n : MidtransWebhookNotification) (mapped : MidtransPaymentStatus)
      (now : Instant)
      → Untouched
          (apply_pending chrono gross_amount_of fresh_id sha512_hex db_now payment n mapped now)
        ⊎ ((a : ℤ) × (mapped ≡ MidtransPaymentStatus.paid)
            × (gross_amount_of n.gross_amount ≡ some a)
            × (payment.gross_amount_idr ≤ℤ a))
  unfolding apply_pending
  apply_pending-safe payment n MidtransPaymentStatus.paid now =
      elim (apply_paid-safe payment n now (gross_amount_of n.gross_amount)) [
        | inl keeps ↦ inl keeps
        | inr (a, amount, enough) ↦ inr (a, refl, amount, enough)
      ]
  apply_pending-safe payment n MidtransPaymentStatus.pending now =
      inl (λ e. set_status_ignored-Keeps payment n _ e)
  apply_pending-safe payment n MidtransPaymentStatus.expired now =
      inl (λ e. set_status_ignored-Keeps payment n _ e)
  apply_pending-safe payment n MidtransPaymentStatus.failed now =
      inl (λ e. set_status_ignored-Keeps payment n _ e)
  apply_pending-safe payment n MidtransPaymentStatus.refunded now =
      inl (λ e. set_status_ignored-Keeps payment n _ e)

  apply_found-safe :
      (payment : Payment Instant) (status : PaymentStatus) (n : MidtransWebhookNotification)
      (mapped : MidtransPaymentStatus) (now : Instant)
      → Untouched (
          apply_found chrono gross_amount_of fresh_id sha512_hex db_now payment status n mapped now)
        ⊎ ((a : ℤ) × (status ≡ PaymentStatus.pending)
            × (mapped ≡ MidtransPaymentStatus.paid)
            × (gross_amount_of n.gross_amount ≡ some a)
            × (payment.gross_amount_idr ≤ℤ a))
  unfolding apply_found
  apply_found-safe payment PaymentStatus.paid n mapped now = inl commit_ignored-Keeps
  apply_found-safe payment PaymentStatus.pending n mapped now =
      elim (apply_pending-safe payment n mapped now) [
        | inl keeps ↦ inl keeps
        | inr (a, is_paid, amount, enough) ↦ inr (a, refl, is_paid, amount, enough)
      ]
  apply_found-safe payment PaymentStatus.expired n mapped now =
      inl (λ e. noted_ignored-Keeps payment.id _ e)
  apply_found-safe payment PaymentStatus.failed n mapped now =
      inl (λ e. noted_ignored-Keeps payment.id _ e)
  apply_found-safe payment PaymentStatus.refunded n mapped now =
      inl (λ e. noted_ignored-Keeps payment.id _ e)

  apply_row-safe :
      (found : Option (Payment Instant)) (n : MidtransWebhookNotification)
      (mapped : MidtransPaymentStatus) (now : Instant)
      → Untouched (apply_row chrono gross_amount_of fresh_id sha512_hex db_now found n mapped now)
        ⊎ IsPaidInFull found n mapped
  unfolding apply_row
  apply_row-safe none n mapped now = inl (λ e.
      Keeps->>= subs commit (λ _. return MidtransWebhookApplyOutcome.unknown_order) e
        (commit-Keeps e) (λ a e₁ h. refl))
  apply_row-safe (some payment) n mapped now =
      elim (apply_found-safe payment payment.payment_status n mapped now) [
        | inl keeps ↦ inl keeps
        | inr (a, is_pending, is_paid, amount, enough) ↦
            inr (payment, a, refl, is_pending, is_paid, amount, enough)
      ]

  apply_midtrans_webhook-safe :
      (n : MidtransWebhookNotification) (mapped : MidtransPaymentStatus) (now : Instant)
      (e : Env (Tables Instant))
      → Keeps subs
          (apply_midtrans_webhook chrono gross_amount_of fresh_id sha512_hex db_now n mapped now)
          e
        ⊎ IsPaidInFull (find_payment n.order_id e.store.payments) n mapped
  unfolding apply_midtrans_webhook
  apply_midtrans_webhook-safe n mapped now e =
      elim (apply_row-safe (find_payment n.order_id e.store.payments) n mapped now) [
        | inr paid_in_full ↦ inr paid_in_full
        | inl keeps ↦
            let query : Tables Instant → Option (Payment Instant) × Tables Instant =
              λ t. (find_payment n.order_id t.payments, t) in
            let rest : Option (Payment Instant)
                → M (Tables Instant) (MidtransWebhookApplyOutcome Instant) =
              λ found.
                apply_row chrono gross_amount_of fresh_id sha512_hex db_now found n mapped now in
            inl (
              Keeps-transaction subs (call query >>= rest) e (
                Keeps->>= subs (call query) rest e (Keeps-call subs query e (λ s. refl))
                  (λ found e₁ h.
                    subst (λ p. Keeps subs (rest p) e₁) (ap (λ x. x.0) (call_ok query e h))
                      (keeps e₁))))
      ]

  send-Keeps : (message : Message Instant) (e : Env (Tables Instant)) → Keeps subs (send message) e
  unfolding send
  send-Keeps message e = Keeps-call subs _ e (λ s. refl)

  notify_paid-Keeps :
      (token : Option String) (s : MidtransSubscriptionRecord Instant) (e : Env (Tables Instant))
      → Keeps subs (notify_paid chrono gross_amount_of fresh_id sha512_hex db_now token s) e
  unfolding notify_paid
  notify_paid-Keeps none s e = refl
  notify_paid-Keeps (some token) s e =
      Keeps->>= subs (send (Message.payment_sticker s.chat_id))
        (λ _. send (Message.payment_success s.chat_id s.current_period_end_at)) e
        (send-Keeps (Message.payment_sticker s.chat_id) e)
        (λ a e₁ h. send-Keeps (Message.payment_success s.chat_id s.current_period_end_at) e₁)

  reply_to-Keeps :
      (token : Option String) (o : MidtransWebhookApplyOutcome Instant) (e : Env (Tables Instant))
      → Keeps subs (reply_to chrono gross_amount_of fresh_id sha512_hex db_now token o) e
  unfolding reply_to
  reply_to-Keeps token (MidtransWebhookApplyOutcome.paid s) e =
      Keeps->>= subs (notify_paid chrono gross_amount_of fresh_id sha512_hex db_now token s)
        (λ _. return (ok Reply.paid)) e (notify_paid-Keeps token s e) (λ a e₁ h. refl)
  reply_to-Keeps token MidtransWebhookApplyOutcome.ignored e = refl
  reply_to-Keeps token MidtransWebhookApplyOutcome.unknown_order e = refl

  post_verified-safe :
      (token : Option String) (n : MidtransWebhookNotification) (now : Instant)
      (mapped : Option MidtransPaymentStatus) (e : Env (Tables Instant))
      → Keeps subs
          (post_verified chrono gross_amount_of fresh_id sha512_hex db_now token n now mapped)
          e
        ⊎ ((m : MidtransPaymentStatus) × (mapped ≡ some m)
            × IsPaidInFull (find_payment n.order_id e.store.payments) n m)
  unfolding post_verified
  post_verified-safe token n now none e = inl refl
  post_verified-safe token n now (some m) e = elim (apply_midtrans_webhook-safe n m now e) [
    | inr paid_in_full ↦ inr (m, refl, paid_in_full)
    | inl keeps ↦ inl (
        Keeps->>= subs
          (apply_midtrans_webhook chrono gross_amount_of fresh_id sha512_hex db_now n m now)
          (reply_to chrono gross_amount_of fresh_id sha512_hex db_now token) e keeps
          (λ o e₁ h. reply_to-Keeps token o e₁))
  ]

  -- A request to the webhook leaves every subscription as it is, whichever calls fail, unless it
  -- carries a signature that the configured server key verifies, reports its order as settled or
  -- captured, the order has a pending payment, and the notified amount covers the amount charged.
  pub post_midtrans_webhook_safe :
      (server_key token : Option String) (n : MidtransWebhookNotification) (now : Instant)
      (e : Env (Tables Instant))
      → ((post_midtrans_webhook chrono gross_amount_of fresh_id sha512_hex db_now server_key token n
            now e).1.store.subscriptions
          ≡ e.store.subscriptions)
        ⊎ ((key : String) × (server_key ≡ some key)
            × (verify_midtrans_signature sha512_hex key n.order_id n.status_code n.gross_amount
                  n.signature_key
                ≡ true)
            × (map_midtrans_status n.transaction_status ≡ some MidtransPaymentStatus.paid)
            × IsPaidInFull (find_payment n.order_id e.store.payments) n MidtransPaymentStatus.paid)
  unfolding post_midtrans_webhook
  post_midtrans_webhook_safe none token n now e = inl refl
  post_midtrans_webhook_safe (some key) token n now e =
      elim (Bool-cases (
        verify_midtrans_signature sha512_hex key n.order_id n.status_code n.gross_amount
          n.signature_key)) [
            | inr refused ↦ inl (rw refused)
            | inl verified ↦
                elim (post_verified-safe token n now (map_midtrans_status n.transaction_status) e) [
                  | inl keeps ↦ inl (rw verified keeps)
                  | inr (m, status, (payment, amount, found, is_pending, is_paid, value, enough)) ↦
                      inr (
                        key,
                        refl,
                        verified,
                        status ∙ ap some is_paid,
                        (payment, amount, found, is_pending, refl, value, enough),
                      )
                ]
          ]

-- ===== src/Midtrans/Webhook/Renewal.antt =====
-- The paid period after `apply_midtrans_webhook` (src/midtrans.rs) has settled an order, and a second
-- notification for the same order.
use gt06n_tcp_server.Prelude.{
  ℕ, ◌≡◌, ◌<◌, inl, inr, refl, sym, ap, subst, ◌∙◌, arith, List, [], ◌∷◌, true, false, Bool-cases,
  Option, none, some, ok, if◌then◌else◌,
}
use gt06n_tcp_server.Prelude.Int.{ℤ, pos}
use gt06n_tcp_server.Effects.{M, Env, ◌>>=◌, return, call, call_ok}
use gt06n_tcp_server.Effects.Keeps.{Keeps, Keeps-call, Keeps->>=, Keeps-transaction}
use gt06n_tcp_server.Chrono.{Chrono, IsChrono}
use gt06n_tcp_server.Billing.{SubscriptionStatus, PaymentStatus, Subscription, Payment, Tables}
use gt06n_tcp_server.Midtrans.{MidtransPaymentStatus, MidtransWebhookNotification}
use gt06n_tcp_server.Midtrans.Webhook.{
  MidtransWebhookApplyOutcome, MidtransSubscriptionRecord, find_payment, update_payment, commit,
  noted, find_of_user, put_subscription, period_from, period_of, renewed, apply_found, apply_row,
  apply_midtrans_webhook, commit_ignored,
}
use gt06n_tcp_server.Midtrans.Webhook.Paid.{paid_row, apply_midtrans_webhook-paid}
use Prim.Native.String.{String}

-- The end that a user has paid up to, if there is one.
unfoldable pub paid_until : {I : Type 0} → Option (Subscription I) → Option I
paid_until none = none
paid_until (some row) = row.current_period_end_at

-- The later of a moment and an end, if there is one.
unfoldable pub later_of :
    (chrono : Chrono) → chrono.Instant → Option chrono.Instant → chrono.Instant
later_of chrono now none = now
later_of chrono now (some end) = if chrono.before now end then end else now

module _ (chrono : Chrono) (gross_amount_of : String → Option ℤ)
    (fresh_id : List (Subscription chrono.Instant) → ℕ) (sha512_hex : String → String)
    (db_now : chrono.Instant) where
  open chrono use {Instant, before}

  abbrev State : Type 0
  State = Env (Tables Instant)

  find_payment-update_payment :
      (order : String) (rows : List (Payment Instant)) (p : Payment Instant)
      (n : MidtransWebhookNotification) (now : Instant) (id : ℕ)
      → find_payment order rows ≡ some p
      → find_payment order (
          update_payment p.id
            (paid_row chrono gross_amount_of fresh_id sha512_hex db_now n now id)
            rows)
        ≡ some (paid_row chrono gross_amount_of fresh_id sha512_hex db_now n now id p)
  unfolding find_payment update_payment noted
  find_payment-update_payment order [] p n now id h = cc
  find_payment-update_payment order (row ∷ rows) p n now id h =
      ground (arith, find_payment-update_payment order rows p n now id)

  find_of_user-put_subscription :
      (new : Subscription Instant) (rows : List (Subscription Instant)) (row : Subscription Instant)
      → find_of_user new.telegram_user_id (put_subscription new rows) ≡ some row
      → (row.current_period_end_at ≡ new.current_period_end_at) × (row.status ≡ new.status)
  unfolding find_of_user put_subscription
  find_of_user-put_subscription new [] row h = (ground arith, ground arith)
  find_of_user-put_subscription new (r ∷ rows) row h =
      ground (arith, find_of_user-put_subscription new rows row)

  -- Neither the moment nor the end before it is behind the later of them.
  later_of-latest :
      (laws : IsChrono chrono) (now : Instant) (ends : Option Instant) (end : Instant)
      → (before (later_of chrono now ends) now ≡ false)
        × (ends ≡ some end → before (later_of chrono now ends) end ≡ false)
  unfolding later_of
  later_of-latest laws now none end = (laws.before_irrefl now, λ h. cc)
  later_of-latest laws now (some old) end = elim (Bool-cases (before now old)) [
    | inl running ↦ rw running (
      not_both old now running,
      λ h. subst (λ o. before old o ≡ false) (cc) (laws.before_irrefl old),
    )
    | inr over ↦ rw over (laws.before_irrefl now, λ h. subst (λ o. before now o ≡ false) (cc) over)
  ]
    where
      not_both : (a b : Instant) → before b a ≡ true → before a b ≡ false
      not_both a b h = elim (Bool-cases (before a b)) [
        | inl k ↦ let loop = laws.before_trans a b a k h in let never = laws.before_irrefl a in cc
        | inr k ↦ k
      ]

  -- A positive number of days from there leads behind both.
  ahead :
      (laws : IsChrono chrono) (a b : Instant) (k : ℕ)
      → 0 < k
      → before b a ≡ false
      → before a (chrono.add_days b (pos k)) ≡ true
  ahead laws a b k h not_earlier = elim (Bool-cases (before a b)) [
    | inl past ↦ laws.before_trans a b (chrono.add_days b (pos k)) past (laws.add_days_later b k h)
    | inr same_time ↦
        subst (λ o. before o (chrono.add_days b (pos k)) ≡ true)
          (laws.before_total b a not_earlier same_time) (laws.add_days_later b k h)
  ]

  -- The new end is the paid days after the later of the moment and the old end.
  period_of-exact :
      (existing : Option (Subscription Instant)) (days : ℤ) (now : Instant)
      → (period_of chrono gross_amount_of fresh_id sha512_hex db_now existing days now).1
        ≡ chrono.add_days (later_of chrono now (paid_until existing)) days
  unfolding period_of period_from later_of paid_until
  period_of-exact none days now = refl
  period_of-exact (some row) days now = at row.current_period_end_at
    where
      at :
          (ends : Option Instant)
          → (period_from chrono gross_amount_of fresh_id sha512_hex db_now ends
              row.current_period_start_at days now).1
            ≡ chrono.add_days (later_of chrono now ends) days
      at none = refl
      at (some end) = ground arith

  paid_twice :
      (p : Payment Instant) (n : MidtransWebhookNotification) (mapped : MidtransPaymentStatus)
      (now : Instant) (e : State)
      → p.payment_status ≡ PaymentStatus.paid
      → Keeps
          (λ t. t)
          (apply_row chrono gross_amount_of fresh_id sha512_hex db_now (some p) n mapped now)
          e
  unfolding apply_row apply_found commit_ignored commit
  paid_twice p n mapped now e h =
      subst
        (λ st.
          Keeps (λ t. t)
            (apply_found chrono gross_amount_of fresh_id sha512_hex db_now p st n mapped now) e)
        (sym h)
        (Keeps->>= (λ t. t) commit (λ _. return MidtransWebhookApplyOutcome.ignored) e
          (Keeps-call (λ t. t) (λ t. (tt, t)) e (λ s. refl)) (λ a e₁ q. refl))

  -- When a notification is answered as paid, the tables hold afterwards an active subscription of the
  -- payment's user, and the period that is reported ends where the stored one does: exactly the days that
  -- the payment is for after the moment of payment or, if the user's period before ended later, after that
  -- end. So it ends after both. The payment's number of days is positive, as the table's constraint
  -- requires.
  pub apply_midtrans_webhook_renews :
      (laws : IsChrono chrono) (n : MidtransWebhookNotification) (mapped : MidtransPaymentStatus)
      (now : Instant) (e e' : Env (Tables Instant)) (s : MidtransSubscriptionRecord Instant)
      → ((p : Payment Instant)
          → find_payment n.order_id e.store.payments ≡ some p
          → (k : ℕ) × (p.period_days ≡ pos k) × (0 < k))
      → apply_midtrans_webhook chrono gross_amount_of fresh_id sha512_hex db_now n mapped now e
        ≡ (ok (MidtransWebhookApplyOutcome.paid s), e')
      → (payment : Payment Instant) × (row : Subscription Instant) × (end : Instant) × (find_payment
            n.order_id e.store.payments
          ≡ some payment)
        × (find_of_user payment.telegram_user_id e'.store.subscriptions ≡ some row)
        × (row.status ≡ SubscriptionStatus.active)
        × (row.current_period_end_at ≡ some end)
        × (s.current_period_end_at ≡ some end)
        × (end
            ≡ chrono.add_days
                (later_of chrono now
                  (paid_until (find_of_user payment.telegram_user_id e.store.subscriptions)))
                payment.period_days)
        × (before now end ≡ true)
        × ((old_end : Instant)
            → paid_until (find_of_user payment.telegram_user_id e.store.subscriptions)
              ≡ some old_end
            → before old_end end ≡ true)
  unfolding renewed
  apply_midtrans_webhook_renews laws n mapped now e e' s positive h =
      let (t, same_store, (payment, found, (row, _, subscriptions, stored, shown))) =
        apply_midtrans_webhook-paid chrono gross_amount_of fresh_id sha512_hex db_now n mapped now e
          e' s h in
      let (k, is_k, more) = positive payment found in
      let existing = find_of_user payment.telegram_user_id t.store.subscriptions in
      let new =
        renewed chrono gross_amount_of fresh_id sha512_hex db_now payment now existing
          t.store.subscriptions in
      let (row_end, row_status) =
        find_of_user-put_subscription new t.store.subscriptions row
          (subst (λ l. find_of_user payment.telegram_user_id l ≡ some row) subscriptions stored) in
      let old = paid_until (find_of_user payment.telegram_user_id e.store.subscriptions) in
      let from = later_of chrono now old in
      let end = chrono.add_days from payment.period_days in
      let same_end : some
            (period_of chrono gross_amount_of fresh_id sha512_hex db_now existing
              payment.period_days now).1
          ≡ some end =
        ap (λ i. some i) (period_of-exact existing payment.period_days now)
        ∙ ap
            (λ st. some (
              chrono.add_days
                (later_of chrono now
                  (paid_until (find_of_user payment.telegram_user_id st.subscriptions)))
                payment.period_days))
            same_store in
      let ends : row.current_period_end_at ≡ some end = row_end ∙ same_end in
      let after : (a : Instant) → before from a ≡ false → before a end ≡ true = λ a not_earlier.
        subst (λ z. before a (chrono.add_days from z) ≡ true) (sym is_k)
          (ahead laws a from k more not_earlier) in
      (
        payment,
        row,
        end,
        found,
        stored,
        row_status,
        ends,
        shown ∙ ends,
        refl,
        after now (later_of-latest laws now old now).0,
        λ old_end q. after old_end ((later_of-latest laws now old old_end).1 q),
      )

  -- Once a notification was answered as paid, no further notification for the same order, of whatever
  -- status and at whatever time, changes anything in the tables.
  pub apply_midtrans_webhook_once :
      (n n' : MidtransWebhookNotification) (mapped mapped' : MidtransPaymentStatus)
      (now now' : Instant) (e e' : Env (Tables Instant)) (s : MidtransSubscriptionRecord Instant)
      → apply_midtrans_webhook chrono gross_amount_of fresh_id sha512_hex db_now n mapped now e
        ≡ (ok (MidtransWebhookApplyOutcome.paid s), e')
      → n'.order_id ≡ n.order_id
      → (apply_midtrans_webhook chrono gross_amount_of fresh_id sha512_hex db_now n' mapped' now'
          e').1.store
        ≡ e'.store
  unfolding apply_midtrans_webhook
  apply_midtrans_webhook_once n n' mapped mapped' now now' e e' s h order =
      let (t, same_store, (payment, found, (row, payments, _, _, _))) =
        apply_midtrans_webhook-paid chrono gross_amount_of fresh_id sha512_hex db_now n mapped now e
          e' s h in
      let settled =
        paid_row chrono gross_amount_of fresh_id sha512_hex db_now n now row.id payment in
      let still : find_payment n'.order_id e'.store.payments ≡ some settled =
        rw (order, payments)
          (find_payment-update_payment n.order_id t.store.payments payment n now row.id (
            subst (λ st. find_payment n.order_id st.payments ≡ some payment) (sym same_store)
              found)) in
      let query : Tables Instant → Option (Payment Instant) × Tables Instant =
        λ u. (find_payment n'.order_id u.payments, u) in
      let rest : Option (Payment Instant)
          → M (Tables Instant) (MidtransWebhookApplyOutcome Instant) =
        λ o. apply_row chrono gross_amount_of fresh_id sha512_hex db_now o n' mapped' now' in
      Keeps-transaction (λ u. u) (call query >>= rest) e'
        (Keeps->>= (λ u. u) (call query) rest e' (Keeps-call (λ u. u) query e' (λ u. refl))
          (λ o e₁ q.
            subst (λ x. Keeps (λ u. u) (rest x) e₁) (sym still ∙ ap (λ y. y.0) (call_ok query e' q))
              (paid_twice settled n' mapped' now' e₁ refl)))

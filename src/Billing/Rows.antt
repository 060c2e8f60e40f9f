-- ===== src/Billing/Rows.antt =====
-- Reading rows of the billing tables back after a write.
use gt06n_tcp_server.Prelude.{
  ℕ, ◌≡◌, arith, List, [], ◌∷◌, Bool-cases, inl, inr, ◌==◌, ==_refl, some,
}
use gt06n_tcp_server.Billing.{
  past_due, Subscription, Sanction, find_sanction, find_subscription, put_sanction, with_status,
}

module _ {I : Type 0} where
  pub find_sanction-put_sanction :
      (new : Sanction I) (rows : List (Sanction I))
      → find_sanction new.subscription_id (put_sanction new rows) ≡ some new
  unfolding find_sanction put_sanction
  find_sanction-put_sanction new [] = rw (==_refl new.subscription_id)
  find_sanction-put_sanction new (row ∷ rows) =
      elim (Bool-cases (row.subscription_id == new.subscription_id)) [
        | inl e ↦ rw e (rw (==_refl new.subscription_id))
        | inr e ↦ rw e (rw e (find_sanction-put_sanction new rows))
      ]

  abbrev pub past_due_row : Subscription I → Subscription I
  past_due_row row = record row { status = past_due }

  pub find_subscription-with_status :
      (id : ℕ) (rows : List (Subscription I)) (row : Subscription I)
      → find_subscription id rows ≡ some row
      → find_subscription id (with_status id past_due rows) ≡ some (past_due_row row)
  unfolding find_subscription with_status
  find_subscription-with_status id [] row h = cc
  find_subscription-with_status id (r ∷ rows) row h =
      ground (arith, find_subscription-with_status id rows row)

  pub find_subscription_id :
      (id : ℕ) (rows : List (Subscription I)) (row : Subscription I)
      → find_subscription id rows ≡ some row
      → row.id ≡ id
  unfolding find_subscription
  find_subscription_id id [] row h = cc
  find_subscription_id id (r ∷ rows) row h = ground (arith, find_subscription_id id rows row)

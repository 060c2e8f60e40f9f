-- ===== src/Effects/Keeps.antt =====
-- What a chain of calls leaves of the store alone, whichever of them fail.
use gt06n_tcp_server.Prelude.{List, [], ◌∷◌, Bool, true, false, Result, ok, err, ◌≡◌, refl, ◌∙◌}
use gt06n_tcp_server.Effects.{
  M, Env, Failure, bind_result, ◌>>=◌, call, call_at, transaction, settle,
}

module _ {S B : Type 0} (part : S → B) where
  abbrev pub Keeps : {A : Type 0} → M S A → Env S → Type 0
  Keeps m e = part (m e).1.store ≡ part e.store

  pub Keeps-call :
      {A : Type 0} (act : S → A × S) (e : Env S)
      → ((s : S) → part (act s).1 ≡ part s)
      → Keeps (call act) e
  unfolding call
  Keeps-call act e h = at e.faults
    where
      at : (faults : List Bool) → part (call_at faults act e.store).1.store ≡ part e.store
      at [] = h e.store
      at (false ∷ faults) = h e.store
      at (true ∷ faults) = refl

  pub Keeps->>= :
      {A C : Type 0} (m : M S A) (k : A → M S C) (e : Env S)
      → Keeps m e
      → ((a : A) (e₁ : Env S) → m e ≡ (ok a, e₁) → Keeps (k a) e₁)
      → Keeps (m >>= k) e
  Keeps->>= {A} {C} m k e first rest = at (m e) refl first
    where
      at :
          (r : Result Failure A × Env S)
          → m e ≡ r
          → part r.1.store ≡ part e.store
          → part (bind_result k r).1.store ≡ part e.store
      at (ok a, e₁) p q = rest a e₁ p ∙ q
      at (err x, e₁) p q = q

  pub Keeps-transaction : {A : Type 0} (m : M S A) (e : Env S) → Keeps m e → Keeps (transaction m) e
  unfolding transaction
  Keeps-transaction {A} m e h = at (m e) h
    where
      at :
          (r : Result Failure A × Env S)
          → part r.1.store ≡ part e.store
          → part (settle e.store r).1.store ≡ part e.store
      at (ok a, e₁) q = q
      at (err x, e₁) q = refl

-- ===== src/Effects/Follows.antt =====
-- How the store after a chain of calls relates to the one before, whichever of them fail.
use gt06n_tcp_server.Prelude.{List, [], ◌∷◌, Bool, true, false, Result, ok, err, ◌≡◌, refl}
use gt06n_tcp_server.Effects.{M, Env, Failure, bind_result, ◌>>=◌, call, call_at, >>=_ok}

module _ {S : Type 0} where
  -- A statement on the store behind a chain: where its first step fails, and where it goes on.
  pub after->>= :
      {A C : Type 0} (Q : S → Type 0) (m : M S A) (k : A → M S C) (e : Env S)
      → ((x : Failure) (e₁ : Env S) → m e ≡ (err x, e₁) → Q e₁.store)
      → ((a : A) (e₁ : Env S) → m e ≡ (ok a, e₁) → Q (k a e₁).1.store)
      → Q ((m >>= k) e).1.store
  after->>= {A} {C} Q m k e failed rest = at (m e) refl
    where
      at : (r : Result Failure A × Env S) → m e ≡ r → Q (bind_result k r).1.store
      at (ok a, e₁) p = rest a e₁ p
      at (err x, e₁) p = failed x e₁ p

  pub after-call :
      {A : Type 0} (Q : S → Type 0) (act : S → A × S) (e : Env S)
      → Q e.store
      → Q (act e.store).1
      → Q (call act e).1.store
  unfolding call
  after-call {A} Q act e failed done = at e.faults
    where
      at : (faults : List Bool) → Q (call_at faults act e.store).1.store
      at [] = done
      at (false ∷ faults) = done
      at (true ∷ faults) = failed

  -- A chain that succeeds, seen from its first step.
  pub within->>= :
      {A C : Type 0} {B : Type 0} (m : M S A) (k : A → M S C) (e : Env S) {c : C} {e' : Env S}
      → (m >>= k) e ≡ (ok c, e')
      → ((a : A) (e₁ : Env S) → m e ≡ (ok a, e₁) → k a e₁ ≡ (ok c, e') → B)
      → B
  within->>= m k e h rest = let (a, e₁, p, q) = >>=_ok m k e h in rest a e₁ p q

module _ {S : Type 0} (R : S → S → Type 0) (trans : (a b c : S) → R a b → R b c → R a c) where
  abbrev pub Follows : {A : Type 0} → M S A → Env S → Type 0
  Follows m e = R e.store (m e).1.store

  pub Follows-call :
      {A : Type 0} (act : S → A × S) (e : Env S)
      → ((s : S) → R s s)
      → ((s : S) → R s (act s).1)
      → Follows (call act) e
  unfolding call
  Follows-call act e same h = at e.faults
    where
      at : (faults : List Bool) → R e.store (call_at faults act e.store).1.store
      at [] = h e.store
      at (false ∷ faults) = h e.store
      at (true ∷ faults) = same e.store

  pub Follows->>= :
      {A C : Type 0} (m : M S A) (k : A → M S C) (e : Env S)
      → Follows m e
      → ((a : A) (e₁ : Env S) → m e ≡ (ok a, e₁) → Follows (k a) e₁)
      → Follows (m >>= k) e
  Follows->>= {A} {C} m k e first rest = at (m e) refl first
    where
      at :
          (r : Result Failure A × Env S)
          → m e ≡ r
          → R e.store r.1.store
          → R e.store (bind_result k r).1.store
      at (ok a, e₁) p q = trans e.store e₁.store (k a e₁).1.store q (rest a e₁ p)
      at (err x, e₁) p q = q

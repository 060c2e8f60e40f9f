-- ===== src/Effects.antt =====
-- Calls that can fail: a query or a request either takes effect or fails. Which of them fail is a
-- list of outcomes that the calls use up (`true` is a failure; none is left to fail at its end).
pub mod Follows
pub mod Keeps
use gt06n_tcp_server.Prelude.{List, [], ◌∷◌, Bool, true, false, Result, ok, err, ◌≡◌, refl, arith}

pub data Failure : Type 0 where
  query_failed : Failure
  row_not_found : Failure

pub record Env (S : Type 0) : Type 0 where
  pub store : S
  pub faults : List Bool

abbrev pub M : Type 0 → Type 0 → Type 0
M S A = Env S → Result Failure A × Env S

abbrev pub bind_result :
    {S A B : Type 0} → (A → M S B) → Result Failure A × Env S → Result Failure B × Env S
bind_result f (ok a, e) = f a e
bind_result f (err x, e) = (err x, e)

infixl 5 ◌>>=◌ ◌>>◌
abbrev pub ◌>>=◌ : {S A B : Type 0} → M S A → (A → M S B) → M S B
◌>>=◌ m f e = bind_result f (m e)

abbrev pub ◌>>◌ : {S B : Type 0} → M S (Unit {0}) → M S B → M S B
m >> k = m >>= λ _. k

abbrev pub return : {S A : Type 0} → A → M S A
return a e = (ok a, e)

abbrev pub fail : {S A : Type 0} → Failure → M S A
fail x e = (err x, e)

-- One call that acts on the store and answers.
call_at : {S A : Type 0} → List Bool → (S → A × S) → S → Result Failure A × Env S
call_at [] act s = let (a, s') = act s in (ok a, record { store = s'; faults = [] })
call_at (false ∷ faults) act s =
    let (a, s') = act s in (ok a, record { store = s'; faults = faults })
call_at (true ∷ faults) act s = (err query_failed, record { store = s; faults = faults })

unfoldable pub call : {S A : Type 0} → (S → A × S) → M S A
unfolding call_at
call act e = call_at e.faults act e.store

settle : {S A : Type 0} → S → Result Failure A × Env S → Result Failure A × Env S
settle before (ok a, e) = (ok a, e)
settle before (err x, e) = (err x, record { store = before; faults = e.faults })

-- `pool.begin()` to `tx.commit()`: a failure on the way drops the transaction, which takes back all
-- that it did.
unfoldable pub transaction : {S A : Type 0} → M S A → M S A
unfolding settle
transaction m e = settle e.store (m e)

-- A failed transaction leaves the store as it was.
pub transaction_failed :
    {S A : Type 0} (m : M S A) (e : Env S) {x : Failure} {f : Env S}
    → transaction m e ≡ (err x, f)
    → f.store ≡ e.store
unfolding transaction
transaction_failed m e h = settle_failed e.store (m e) h
  where
    settle_failed :
        {S A : Type 0} (before : S) (r : Result Failure A × Env S) {x : Failure} {f : Env S}
        → settle before r ≡ (err x, f)
        → f.store ≡ before
    settle_failed before (ok a, e) h = cc
    settle_failed before (err x, e) h = ground arith

-- A chain that succeeds has a first step that succeeds.
pub >>=_ok :
    {S A B : Type 0} (m : M S A) (f : A → M S B) (e : Env S) {b : B} {e' : Env S}
    → (m >>= f) e ≡ (ok b, e')
    → (a : A) × (e₁ : Env S) × (m e ≡ (ok a, e₁)) × (f a e₁ ≡ (ok b, e'))
>>=_ok {S} {A} m f e {b} {e'} h = split (m e) refl h
  where
    split :
        (r : Result Failure A × Env S)
        → m e ≡ r
        → bind_result f r ≡ (ok b, e')
        → (a : A) × (e₁ : Env S) × (m e ≡ (ok a, e₁)) × (f a e₁ ≡ (ok b, e'))
    split (ok a, e₁) p q = (a, e₁, p, q)
    split (err x, e₁) p q = cc

-- A call that succeeds has done what it does to the store.
pub call_ok :
    {S A : Type 0} (act : S → A × S) (e : Env S) {a : A} {e' : Env S}
    → call act e ≡ (ok a, e')
    → act e.store ≡ (a, e'.store)
unfolding call
call_ok {S} {A} act e {a} {e'} h = at e.faults h
  where
    at :
        (faults : List Bool) → call_at faults act e.store ≡ (ok a, e') → act e.store ≡ (a, e'.store)
    at [] q = cc
    at (false ∷ faults) q = cc
    at (true ∷ faults) q = cc

-- A transaction that succeeds is the run of what it holds.
pub transaction_ok :
    {S A : Type 0} (m : M S A) (e : Env S) {a : A} {f : Env S}
    → transaction m e ≡ (ok a, f)
    → m e ≡ (ok a, f)
unfolding transaction
transaction_ok m e h = settle_ok e.store (m e) h
  where
    settle_ok :
        {S A : Type 0} (before : S) (r : Result Failure A × Env S) {a : A} {f : Env S}
        → settle before r ≡ (ok a, f)
        → r ≡ (ok a, f)
    settle_ok before (ok a, e) h = h
    settle_ok before (err x, e) h = cc

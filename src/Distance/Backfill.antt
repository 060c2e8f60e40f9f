-- ===== src/Distance/Backfill.antt =====
-- The backfill (src/service_distance.rs) against the history of locations.
use gt06n_tcp_server.Prelude.{
  ℕ, ◌≡◌, ◌≢◌, inl, inr, refl, sym, ap, subst, ◌∙◌, arith, List, [], ◌∷◌, Bool-cases, map, none,
  Result, ok, err,
}
use gt06n_tcp_server.Float.{Float64}
use gt06n_tcp_server.Chrono.{Chrono}
use gt06n_tcp_server.Effects.{
  M, Env, Failure, bind_result, ◌>>=◌, ◌>>◌, call, >>=_ok, call_ok, transaction, transaction_ok,
  transaction_failed,
}
use gt06n_tcp_server.Effects.Keeps.{Keeps-call}
use gt06n_tcp_server.Protocol.Framing.{bytes_eq}
use gt06n_tcp_server.Tracking.{bytes_eq_iff, find_odometer}
use gt06n_tcp_server.Distance.{
  Point, Store, delete_daily, delete_odometer, points_of, process_location_distance, process_all,
  rebuild, backfill_device_distance, backfill_each, backfill_all_device_distances,
}
use gt06n_tcp_server.Distance.Ledger.{
  Ledger, replay, ledger_in, days_of, process_location_distance_ok, ledger_in-processed,
  ledger_in-processed_ne, rows_kept, find_odometer-delete_odometer,
  find_odometer-delete_odometer_ne, days_of-delete_daily, days_of-delete_daily_ne,
}

module _ (fl : Float64) (chrono : Chrono) (P N : Type 0) where
  abbrev S : Type 0
  S = Store fl chrono P N

  abbrev ledger_of : List ℕ → S → Ledger fl chrono
  ledger_of imei t = ledger_in fl chrono P N imei t

  -- The ledger that the history of a device calls for.
  abbrev pub history : List ℕ → S → Ledger fl chrono
  history imei t = replay fl chrono imei (points_of fl chrono P N imei t.locations) (none, [])

  -- The distance tables agree with the locations, for every device.
  abbrev pub IsReplayed : S → Type 0
  IsReplayed t = (imei : List ℕ) → ledger_in fl chrono P N imei t ≡ history imei t

  -- `t'` is `t` with the points `ps` of the device `imei` accounted for.
  abbrev Accounts : List ℕ → List (Point fl chrono) → S → S → Type 0
  Accounts imei ps t t' =
      (ledger_of imei t' ≡ replay fl chrono imei ps (ledger_of imei t))
      × ((other : List ℕ) → other ≢ imei → ledger_of other t' ≡ ledger_of other t)
      × (t'.locations ≡ t.locations)
      × (t'.devices ≡ t.devices)
      × (t'.heartbeats ≡ t.heartbeats)

  process_all-Accounts :
      (imei : List ℕ) (ps : List (Point fl chrono)) (e e' : Env S)
      → process_all fl chrono P N imei ps e ≡ (ok tt, e')
      → Accounts imei ps e.store e'.store
  unfolding process_all replay
  process_all-Accounts imei [] e e' h =
      subst (λ t. Accounts imei [] e.store t) (ap (λ y. y.1.store) h)
        (refl, (λ other ne. refl), refl, refl, refl)
  process_all-Accounts imei (p ∷ ps) e e' h =
      let (m, e₁, h₁, k₁) =
        >>=_ok (process_location_distance fl chrono P N imei p)
          (λ _. process_all fl chrono P N imei ps) e h in
      let (l, o, a, b, c) = process_all-Accounts imei ps e₁ e' k₁ in
      let store₁ = process_location_distance_ok fl chrono P N imei p e e₁ h₁ in
      let (a₁, b₁, c₁) = rows_kept fl chrono P N imei p e.store in
      (
        l
            ∙ ap (λ t. replay fl chrono imei ps (ledger_of imei t)) store₁
            ∙ ap (replay fl chrono imei ps) (ledger_in-processed fl chrono P N imei p e.store),
        λ other ne.
            o other ne
            ∙ ap (ledger_of other) store₁
            ∙ ledger_in-processed_ne fl chrono P N other imei p e.store ne,
        a ∙ ap (λ t. t.locations) store₁ ∙ a₁,
        b ∙ ap (λ t. t.devices) store₁ ∙ b₁,
        c ∙ ap (λ t. t.heartbeats) store₁ ∙ c₁,
      )

  rebuild_ok :
      (imei : List ℕ) (ps : List (Point fl chrono)) (e e' : Env S)
      → rebuild fl chrono P N imei ps e ≡ (ok tt, e')
      → (ledger_of imei e'.store ≡ replay fl chrono imei ps (none, []))
        × ((other : List ℕ) → other ≢ imei → ledger_of other e'.store ≡ ledger_of other e.store)
        × (e'.store.locations ≡ e.store.locations)
        × (e'.store.devices ≡ e.store.devices)
        × (e'.store.heartbeats ≡ e.store.heartbeats)
  unfolding rebuild
  rebuild_ok imei ps e e' h =
      let no_daily : S → Unit {0} × S =
        λ t. (tt, record t { daily = delete_daily fl chrono imei t.daily }) in
      let no_odometer : S → Unit {0} × S =
        λ t. (tt, record t { odometers = delete_odometer fl chrono imei t.odometers }) in
      let commit : S → Unit {0} × S = λ t. (tt, t) in
      let last = process_all fl chrono P N imei ps >> call commit in
      let (_, e₁, h₁, k₁) = >>=_ok (call no_daily) (λ _. call no_odometer >> last) e h in
      let (_, e₂, h₂, k₂) = >>=_ok (call no_odometer) (λ _. last) e₁ k₁ in
      let (_, e₃, h₃, k₃) = >>=_ok (process_all fl chrono P N imei ps) (λ _. call commit) e₂ k₂ in
      let cleared : (no_odometer (no_daily e.store).1).1 ≡ e₂.store =
        ap (λ y. (no_odometer y.1).1) (call_ok no_daily e h₁)
        ∙ ap (λ y. y.1) (call_ok no_odometer e₁ h₂) in
      let same : e₃.store ≡ e'.store = ap (λ y. y.1) (call_ok commit e₃ k₃) in
      let (l, o, a, b, c) =
        subst (λ t. Accounts imei ps e₂.store t) same (process_all-Accounts imei ps e₂ e₃ h₃) in
      (
        l
            ∙ ap (λ t. replay fl chrono imei ps (ledger_of imei t)) (sym cleared)
            ∙ ap
                (λ x.
                  replay fl chrono imei ps
                    (x, days_of fl chrono imei (delete_daily fl chrono imei e.store.daily)))
                (find_odometer-delete_odometer fl chrono imei e.store.odometers)
            ∙ ap (λ x. replay fl chrono imei ps (none, x))
                (days_of-delete_daily fl chrono imei e.store.daily),
        λ other ne.
            o other ne
            ∙ ap (ledger_of other) (sym cleared)
            ∙ ap (λ x. (x, days_of fl chrono other (delete_daily fl chrono imei e.store.daily)))
                (find_odometer-delete_odometer_ne fl chrono other imei e.store.odometers ne)
            ∙ ap (λ x. (find_odometer other e.store.odometers, x))
                (days_of-delete_daily_ne fl chrono other imei e.store.daily ne),
        a ∙ ap (λ t. t.locations) (sym cleared),
        b ∙ ap (λ t. t.devices) (sym cleared),
        c ∙ ap (λ t. t.heartbeats) (sym cleared),
      )

  -- A backfill that succeeds leaves, for its device, the odometer and the daily distances that a replay
  -- of all the stored locations in the order of their ids gives, whatever the tables held before. The
  -- other devices' distances and the other tables stay as they are.
  pub backfill_device_distance_rebuilds :
      (imei : List ℕ) (e e' : Env (Store fl chrono P N))
      → backfill_device_distance fl chrono P N imei e ≡ (ok tt, e')
      → (ledger_in fl chrono P N imei e'.store
          ≡ replay fl chrono imei (points_of fl chrono P N imei e.store.locations) (none, []))
        × ((other : List ℕ)
            → other ≢ imei
            → ledger_in fl chrono P N other e'.store ≡ ledger_in fl chrono P N other e.store)
        × (e'.store.locations ≡ e.store.locations)
        × (e'.store.devices ≡ e.store.devices)
        × (e'.store.heartbeats ≡ e.store.heartbeats)
  unfolding backfill_device_distance
  backfill_device_distance_rebuilds imei e e' h =
      let query : S → List (Point fl chrono) × S =
        λ t. (points_of fl chrono P N imei t.locations, t) in
      let (ps, e₁, h₁, k₁) =
        >>=_ok (call query) (λ ps. transaction (rebuild fl chrono P N imei ps)) e h in
      let answer = call_ok query e h₁ in
      let (l, o, a, b, c) =
        rebuild_ok imei ps e₁ e' (transaction_ok (rebuild fl chrono P N imei ps) e₁ k₁) in
      (
        l ∙ ap (λ y. replay fl chrono imei y.0 (none, [])) (sym answer),
        λ other ne. o other ne ∙ ap (λ y. ledger_of other y.1) (sym answer),
        a ∙ ap (λ y. y.1.locations) (sym answer),
        b ∙ ap (λ y. y.1.devices) (sym answer),
        c ∙ ap (λ y. y.1.heartbeats) (sym answer),
      )

  -- No ledger and no location changed.
  abbrev Unmoved : S → S → Type 0
  Unmoved t t' =
      ((imei : List ℕ) → ledger_of imei t' ≡ ledger_of imei t) × (t'.locations ≡ t.locations)

  Unmoved-IsReplayed : (t t' : S) → Unmoved t t' → IsReplayed t → IsReplayed t'
  Unmoved-IsReplayed t t' (l, a) r imei =
      l imei
      ∙ r imei
      ∙ ap (λ x. replay fl chrono imei (points_of fl chrono P N imei x) (none, [])) (sym a)

  Unmoved->>= :
      {A C : Type 0} (m : M S A) (k : A → M S C) (e : Env S)
      → Unmoved e.store (m e).1.store
      → ((a : A) (e₁ : Env S) → m e ≡ (ok a, e₁) → Unmoved e₁.store (k a e₁).1.store)
      → Unmoved e.store ((m >>= k) e).1.store
  Unmoved->>= {A} {C} m k e first rest = at (m e) refl first
    where
      at :
          (r : Result Failure A × Env S)
          → m e ≡ r
          → Unmoved e.store r.1.store
          → Unmoved e.store (bind_result k r).1.store
      at (ok a, e₁) p (l, b) = let (l', b') = rest a e₁ p in ((λ imei. l' imei ∙ l imei), b' ∙ b)
      at (err x, e₁) p q = q

  -- A backfill that fails takes everything back.
  backfill_failed :
      (imei : List ℕ) (e e' : Env S) {x : Failure}
      → backfill_device_distance fl chrono P N imei e ≡ (err x, e')
      → e'.store ≡ e.store
  unfolding backfill_device_distance
  backfill_failed imei e e' {x} h = at (call query e) refl h
    where
      query : S → List (Point fl chrono) × S
      query t = (points_of fl chrono P N imei t.locations, t)

      at :
          (r : Result Failure (List (Point fl chrono)) × Env S)
          → call query e ≡ r
          → bind_result (λ ps. transaction (rebuild fl chrono P N imei ps)) r ≡ (err x, e')
          → e'.store ≡ e.store
      at (ok ps, e₁) p q =
          transaction_failed (rebuild fl chrono P N imei ps) e₁ q
          ∙ sym (ap (λ y. y.1) (call_ok query e p))
      at (err y, e₁) p q =
          sym (ap (λ z. z.1.store) q)
          ∙ ap (λ z. z.1.store) (sym p)
          ∙ Keeps-call (λ t. t) query e (λ t. refl)

  backfill_device_distance-Unmoved :
      (imei : List ℕ) (e : Env S)
      → IsReplayed e.store
      → Unmoved e.store (backfill_device_distance fl chrono P N imei e).1.store
  backfill_device_distance-Unmoved imei e r =
      at (backfill_device_distance fl chrono P N imei e) refl
    where
      at :
          (o : Result Failure (Unit {0}) × Env S)
          → backfill_device_distance fl chrono P N imei e ≡ o
          → Unmoved e.store o.1.store
      at (ok tt, e') p =
          let (l, o, a, b, c) = backfill_device_distance_rebuilds imei e e' p in
          (
            λ other. elim (Bool-cases (bytes_eq other imei)) [
              | inl same ↦
                  let own : other ≡ imei = (bytes_eq_iff other imei).0 same in
                  subst (λ i. ledger_of i e'.store ≡ ledger_of i e.store) (sym own)
                    (l ∙ sym (r imei))
              | inr differs ↦ o other (λ own. ground (arith, bytes_eq_iff other imei))
            ],
            a,
          )
      at (err x, e') p =
          let same = backfill_failed imei e e' p in
          ((λ other. ap (ledger_of other) same), ap (λ t. t.locations) same)

  backfill_each-Unmoved :
      (imeis : List (List ℕ)) (e : Env S)
      → IsReplayed e.store
      → Unmoved e.store (backfill_each fl chrono P N imeis e).1.store
  unfolding backfill_each
  backfill_each-Unmoved [] e r = ((λ imei. refl), refl)
  backfill_each-Unmoved (imei ∷ imeis) e r =
      let first = backfill_device_distance-Unmoved imei e r in
      Unmoved->>= (backfill_device_distance fl chrono P N imei)
        (λ _. backfill_each fl chrono P N imeis) e first
        (λ a e₁ h.
          backfill_each-Unmoved imeis e₁ (
            Unmoved-IsReplayed e.store e₁.store (subst (λ y. Unmoved e.store y.1.store) h first) r))

  -- Where the distance tables agree with the stored locations, a backfill of all devices changes no
  -- distance, whichever of its calls fail and in whatever order the devices come: live accounting and
  -- the rebuild from history give the same tables.
  pub backfill_all_device_distances_agrees :
      (in_order : List (List ℕ) → List (List ℕ)) (e : Env (Store fl chrono P N))
      → IsReplayed e.store
      → (imei : List ℕ)
      → ledger_in fl chrono P N imei
          (backfill_all_device_distances fl chrono P N in_order e).1.store
        ≡ ledger_in fl chrono P N imei e.store
  unfolding backfill_all_device_distances
  backfill_all_device_distances_agrees in_order e r =
      let query : S → List (List ℕ) × S = λ t. (in_order (map (λ d. d.imei) t.devices), t) in
      let kept : (call query e).1.store ≡ e.store = Keeps-call (λ t. t) query e (λ t. refl) in
      (Unmoved->>= (call query) (backfill_each fl chrono P N) e
        ((λ imei. ap (ledger_of imei) kept), ap (λ t. t.locations) kept)
        (λ imeis e₁ h.
          backfill_each-Unmoved imeis e₁
            (subst IsReplayed (ap (λ y. y.1) (call_ok query e h)) r))).0

-- ===== src/Distance/Ledger.antt =====
-- What the distance tables hold for one device, and what `process_location_distance`
-- (src/service_distance.rs) makes of it.
use gt06n_tcp_server.Prelude.{
  ℕ, ◌≡◌, ◌≢◌, refl, sym, ap, ◌∙◌, arith, List, [], ◌∷◌, ◌++◌, Bool, true, false, if◌then◌else◌,
  Option, none, some, ok,
}
use gt06n_tcp_server.Float.{Float64}
use gt06n_tcp_server.Chrono.{Chrono}
use gt06n_tcp_server.Effects.{M, Env, ◌>>=◌, return, call, >>=_ok, call_ok}
use gt06n_tcp_server.Protocol.Framing.{bytes_eq}
use gt06n_tcp_server.Tracking.{OdometerRow, DailyRow, find_odometer, bytes_eq_iff}
use gt06n_tcp_server.Distance.{
  Point, previous_of, is_processed, accepted_meters, odometer_row, upsert_odometer, upsert_daily,
  wib_date, delete_daily, delete_odometer, Store, add_odometer, add_daily, process_after,
  process_location_distance,
}

module _ (fl : Float64) (chrono : Chrono) where
  open fl use {F, from_int, lt}
  open chrono use {Instant, Date}

  -- The odometer row and the daily rows of one device.
  abbrev pub Ledger : Type 0
  Ledger = Option (OdometerRow Instant F) × List (DailyRow Date F)

  unfoldable pub days_of : List ℕ → List (DailyRow Date F) → List (DailyRow Date F)
  days_of imei [] = []
  days_of imei (row ∷ rows) =
      if bytes_eq row.imei imei then row ∷ days_of imei rows else days_of imei rows

  abbrev pub ledger : List ℕ → List (OdometerRow Instant F) → List (DailyRow Date F) → Ledger
  ledger imei odometers daily = (find_odometer imei odometers, days_of imei daily)

  -- One point on the ledger of its device.
  pub account : List ℕ → Point fl chrono → Ledger → Ledger
  account imei point (odometer, days) =
      let previous = previous_of fl chrono odometer in
      let meters = accepted_meters fl chrono previous point in
      if is_processed fl chrono previous point then (odometer, days) else (
        some (odometer_row fl chrono imei meters point odometer),
        (if lt (from_int 0) meters
            then upsert_daily fl chrono imei (wib_date fl chrono point.server_received_at) meters
                days
            else days),
      )

  -- All points in order.
  unfoldable pub replay : List ℕ → List (Point fl chrono) → Ledger → Ledger
  replay imei [] l = l
  replay imei (p ∷ ps) l = replay imei ps (account imei p l)

  pub replay-append :
      (imei : List ℕ) (ps qs : List (Point fl chrono)) (l : Ledger)
      → replay imei (ps ++ qs) l ≡ replay imei qs (replay imei ps l)
  unfolding replay
  replay-append imei [] qs l = refl
  replay-append imei (p ∷ ps) qs l = replay-append imei ps qs (account imei p l)

  find_odometer-upsert_odometer :
      (imei : List ℕ) (m : F) (p : Point fl chrono) (rows : List (OdometerRow Instant F))
      → find_odometer imei (upsert_odometer fl chrono imei m p rows)
        ≡ some (odometer_row fl chrono imei m p (find_odometer imei rows))
  unfolding find_odometer upsert_odometer odometer_row
  find_odometer-upsert_odometer imei m p [] = ground (arith, bytes_eq_iff imei imei)
  find_odometer-upsert_odometer imei m p (row ∷ rows) =
      ground (arith, bytes_eq_iff imei imei, find_odometer-upsert_odometer imei m p rows)

  find_odometer-upsert_odometer_ne :
      (other imei : List ℕ) (m : F) (p : Point fl chrono) (rows : List (OdometerRow Instant F))
      → other ≢ imei
      → find_odometer other (upsert_odometer fl chrono imei m p rows) ≡ find_odometer other rows
  unfolding find_odometer upsert_odometer odometer_row
  find_odometer-upsert_odometer_ne other imei m p [] ne = ground (arith, bytes_eq_iff imei other)
  find_odometer-upsert_odometer_ne other imei m p (row ∷ rows) ne = ground (
    arith,
    bytes_eq_iff imei other,
    bytes_eq_iff row.imei imei,
    bytes_eq_iff row.imei other,
    find_odometer-upsert_odometer_ne other imei m p rows ne,
  )

  days_of-upsert_daily :
      (imei : List ℕ) (d : Date) (m : F) (rows : List (DailyRow Date F))
      → days_of imei (upsert_daily fl chrono imei d m rows)
        ≡ upsert_daily fl chrono imei d m (days_of imei rows)
  unfolding days_of upsert_daily
  days_of-upsert_daily imei d m [] = ground (arith, bytes_eq_iff imei imei)
  days_of-upsert_daily imei d m (row ∷ rows) =
      ground (arith, bytes_eq_iff row.imei imei, days_of-upsert_daily imei d m rows)

  days_of-upsert_daily_ne :
      (other imei : List ℕ) (d : Date) (m : F) (rows : List (DailyRow Date F))
      → other ≢ imei
      → days_of other (upsert_daily fl chrono imei d m rows) ≡ days_of other rows
  unfolding days_of upsert_daily
  days_of-upsert_daily_ne other imei d m [] ne = ground (arith, bytes_eq_iff imei other)
  days_of-upsert_daily_ne other imei d m (row ∷ rows) ne = ground (
    arith,
    bytes_eq_iff row.imei imei,
    bytes_eq_iff row.imei other,
    days_of-upsert_daily_ne other imei d m rows ne,
  )

  pub find_odometer-delete_odometer :
      (imei : List ℕ) (rows : List (OdometerRow Instant F))
      → find_odometer imei (delete_odometer fl chrono imei rows) ≡ none
  unfolding find_odometer delete_odometer
  find_odometer-delete_odometer imei [] = refl
  find_odometer-delete_odometer imei (row ∷ rows) =
      ground (arith, find_odometer-delete_odometer imei rows)

  pub find_odometer-delete_odometer_ne :
      (other imei : List ℕ) (rows : List (OdometerRow Instant F))
      → other ≢ imei
      → find_odometer other (delete_odometer fl chrono imei rows) ≡ find_odometer other rows
  unfolding find_odometer delete_odometer
  find_odometer-delete_odometer_ne other imei [] ne = refl
  find_odometer-delete_odometer_ne other imei (row ∷ rows) ne = ground (
    arith,
    bytes_eq_iff row.imei imei,
    bytes_eq_iff row.imei other,
    find_odometer-delete_odometer_ne other imei rows ne,
  )

  pub days_of-delete_daily :
      (imei : List ℕ) (rows : List (DailyRow Date F))
      → days_of imei (delete_daily fl chrono imei rows) ≡ []
  unfolding days_of delete_daily
  days_of-delete_daily imei [] = refl
  days_of-delete_daily imei (row ∷ rows) = ground (arith, days_of-delete_daily imei rows)

  pub days_of-delete_daily_ne :
      (other imei : List ℕ) (rows : List (DailyRow Date F))
      → other ≢ imei
      → days_of other (delete_daily fl chrono imei rows) ≡ days_of other rows
  unfolding days_of delete_daily
  days_of-delete_daily_ne other imei [] ne = refl
  days_of-delete_daily_ne other imei (row ∷ rows) ne = ground (
    arith,
    bytes_eq_iff row.imei imei,
    bytes_eq_iff row.imei other,
    days_of-delete_daily_ne other imei rows ne,
  )

  module _ (P N : Type 0) where
    abbrev pub ledger_in : List ℕ → Store fl chrono P N → Ledger
    ledger_in imei t = ledger imei t.odometers t.daily

    -- The store after a run of `process_location_distance`, from the previous point on.
    abbrev pub processed_after :
        List ℕ
        → Point fl chrono
        → Option (Point fl chrono)
        → Store fl chrono P N
        → Store fl chrono P N
    processed_after imei p previous t =
        let meters = accepted_meters fl chrono previous p in
        if is_processed fl chrono previous p then t else (record t {
          odometers = upsert_odometer fl chrono imei meters p t.odometers;
          daily =
              if lt (from_int 0) meters
              then upsert_daily fl chrono imei (wib_date fl chrono p.server_received_at) meters
                  t.daily
              else t.daily;
        })

    abbrev pub processed : List ℕ → Point fl chrono → Store fl chrono P N → Store fl chrono P N
    processed imei p t =
        processed_after imei p (previous_of fl chrono (find_odometer imei t.odometers)) t

    add_daily_ok :
        (imei : List ℕ) (p : Point fl chrono) (m : F) (e e' : Env (Store fl chrono P N))
        → add_daily fl chrono P N imei p m e ≡ (ok tt, e')
        → e'.store ≡ record e.store {
          daily =
              if lt (from_int 0) m
              then upsert_daily fl chrono imei
                  (wib_date fl chrono p.server_received_at)
                  m
                  e.store.daily
              else e.store.daily;
        }
    unfolding add_daily
    add_daily_ok imei p m e e' h = at (lt (from_int 0) m) h
      where
        put : Store fl chrono P N → Unit {0} × Store fl chrono P N
        put t = (
          tt,
          record t {
            daily = upsert_daily fl chrono imei (wib_date fl chrono p.server_received_at) m t.daily;
          },
        )

        at :
            (b : Bool)
            → (if b then call put else return tt) e ≡ (ok tt, e')
            → e'.store ≡ record e.store {
              daily =
                  if b
                  then upsert_daily fl chrono imei
                      (wib_date fl chrono p.server_received_at)
                      m
                      e.store.daily
                  else e.store.daily;
            }
        at true q = sym (ap (λ y. y.1) (call_ok put e q))
        at false q = sym (ap (λ y. y.1.store) q)

    process_after_ok :
        (imei : List ℕ) (p : Point fl chrono) (previous : Option (Point fl chrono))
        (e e' : Env (Store fl chrono P N)) {m : F}
        → process_after fl chrono P N imei p previous e ≡ (ok m, e')
        → e'.store ≡ processed_after imei p previous e.store
    unfolding process_after add_odometer
    process_after_ok imei p previous e e' {m} h = at (is_processed fl chrono previous p) h
      where
        meters : F
        meters = accepted_meters fl chrono previous p

        rest : M (Store fl chrono P N) F
        rest = add_odometer fl chrono P N imei meters p >>= λ _.
            add_daily fl chrono P N imei p meters >>= λ _. return meters

        put_daily : Store fl chrono P N → Store fl chrono P N
        put_daily t = record t {
          daily =
              if lt (from_int 0) meters
              then upsert_daily fl chrono imei (wib_date fl chrono p.server_received_at) meters
                  t.daily
              else t.daily;
        }

        at :
            (b : Bool)
            → (if b then return (from_int 0) else rest) e ≡ (ok m, e')
            → e'.store ≡ (
                if b then e.store else (record e.store {
                  odometers = upsert_odometer fl chrono imei meters p e.store.odometers;
                  daily =
                      if lt (from_int 0) meters
                      then upsert_daily fl chrono imei
                          (wib_date fl chrono p.server_received_at)
                          meters
                          e.store.daily
                      else e.store.daily;
                }))
        at true q = sym (ap (λ y. y.1.store) q)
        at false q =
            let (_, e₁, h₁, k₁) =
              >>=_ok (add_odometer fl chrono P N imei meters p)
                (λ _. add_daily fl chrono P N imei p meters >>= λ _. return meters) e q in
            let (_, e₂, h₂, k₂) =
              >>=_ok (add_daily fl chrono P N imei p meters) (λ _. return meters) e₁ k₁ in
            sym (ap (λ y. y.1.store) k₂)
            ∙ add_daily_ok imei p meters e₁ e₂ h₂
            ∙ ap put_daily (sym (ap (λ y. y.1) (call_ok _ e h₁)))

    -- A run that succeeds has this store, whatever else was going on.
    pub process_location_distance_ok :
        (imei : List ℕ) (p : Point fl chrono) (e e' : Env (Store fl chrono P N)) {m : F}
        → process_location_distance fl chrono P N imei p e ≡ (ok m, e')
        → e'.store ≡ processed imei p e.store
    unfolding process_location_distance
    process_location_distance_ok imei p e e' h =
        let query : Store fl chrono P N → Option (Point fl chrono) × Store fl chrono P N =
          λ t. (previous_of fl chrono (find_odometer imei t.odometers), t) in
        let (_, e₁, h₁, k₁) =
          >>=_ok (call (λ t. (tt, t))) (λ _. call query >>= process_after fl chrono P N imei p) e
            h in
        let (previous, e₂, h₂, k₂) =
          >>=_ok (call query) (process_after fl chrono P N imei p) e₁ k₁ in
        let same = ap (λ y. y.1) (call_ok (λ t. (tt, t)) e h₁) in
        process_after_ok imei p previous e₂ e' k₂
        ∙ sym (
            ap (processed imei p) same
            ∙ ap (λ y. processed_after imei p y.0 y.1) (call_ok query e₁ h₂))

    -- One run is one step of the ledger of its device, and leaves the other devices alone.
    pub ledger_in-processed :
        (imei : List ℕ) (p : Point fl chrono) (t : Store fl chrono P N)
        → ledger_in imei (processed imei p t) ≡ account imei p (ledger_in imei t)
    unfolding account
    ledger_in-processed imei p t = ground (
      arith,
      find_odometer-upsert_odometer imei
          (accepted_meters fl chrono (previous_of fl chrono (find_odometer imei t.odometers)) p) p
          t.odometers,
      days_of-upsert_daily imei (wib_date fl chrono p.server_received_at)
          (accepted_meters fl chrono (previous_of fl chrono (find_odometer imei t.odometers)) p)
          t.daily,
    )

    pub ledger_in-processed_ne :
        (other imei : List ℕ) (p : Point fl chrono) (t : Store fl chrono P N)
        → other ≢ imei
        → ledger_in other (processed imei p t) ≡ ledger_in other t
    ledger_in-processed_ne other imei p t ne = ground (
      arith,
      find_odometer-upsert_odometer_ne other imei
          (accepted_meters fl chrono (previous_of fl chrono (find_odometer imei t.odometers)) p) p
          t.odometers ne,
      days_of-upsert_daily_ne other imei (wib_date fl chrono p.server_received_at)
          (accepted_meters fl chrono (previous_of fl chrono (find_odometer imei t.odometers)) p)
          t.daily ne,
    )

    -- Neither touches the other tables.
    pub rows_kept :
        (imei : List ℕ) (p : Point fl chrono) (t : Store fl chrono P N)
        → ((processed imei p t).locations ≡ t.locations)
          × ((processed imei p t).devices ≡ t.devices)
          × ((processed imei p t).heartbeats ≡ t.heartbeats)
    rows_kept imei p t = ground arith

-- ===== src/Database/Persisted.antt =====
-- The transactions of `persist_event` (src/db.rs) keep the distance tables in step with the stored
-- locations.
use gt06n_tcp_server.Prelude.{
  ℕ, ◌≡◌, ◌<◌, refl, sym, ap, subst, ◌∙◌, List, [], ◌∷◌, ◌++◌, All, Option, none, some, Result, ok,
  err,
}
use gt06n_tcp_server.Float.{Float64}
use gt06n_tcp_server.Chrono.{Chrono}
use gt06n_tcp_server.Effects.{
  M, Env, Failure, ◌>>=◌, >>=_ok, call_ok, transaction, transaction_ok, transaction_failed,
}
use gt06n_tcp_server.Effects.Keeps.{Keeps}
use gt06n_tcp_server.Events.{DeviceEvent}
use gt06n_tcp_server.Protocol.{GpsTimestamp, LocationPacket}
use gt06n_tcp_server.Tracking.{LocationRow, OdometerRow, DailyRow}
use gt06n_tcp_server.Distance.{
  Store, backfill_all_device_distances, point_of, process_location_distance,
}
use gt06n_tcp_server.Distance.Ledger.{ledger_in, processed, process_location_distance_ok}
use gt06n_tcp_server.Distance.Backfill.{IsReplayed, backfill_all_device_distances_agrees}
use gt06n_tcp_server.Database.{
  ClockRead, Sequences, upsert_device_last_seen, inserted, location_row, insert_location,
  update_device_latest_location, location_columns, commit, point_at, persist_login,
  persist_heartbeat, persist_location, persist_event, handle_event, handle_all,
}
use gt06n_tcp_server.Database.Kept.{
  Keeps-ok, commit-Keeps, set_device-Keeps, upsert_device_last_seen-Keeps, persist_login-Keeps,
  persist_heartbeat-Keeps,
}
use gt06n_tcp_server.Database.Replayed.{part, part-IsReplayed, appended-IsReplayed}

module _ (fl : Float64) (chrono : Chrono) (P N : Type 0)
    (next : Sequences (chrono.Instant) P (fl.F) N) (naive_of : GpsTimestamp → Option N)
    (naive_now : ClockRead → chrono.Instant → N) where
  open fl use {F}
  open chrono use {Instant}

  abbrev S : Type 0
  S = Store fl chrono P N

  abbrev tables :
      S
      → List (OdometerRow Instant F)
        × List (DailyRow (chrono.Date) F)
        × List (LocationRow Instant P F N)
  tables t = part fl chrono P N t

  abbrev Row : Type 0
  Row = LocationRow Instant P F N

  -- The row of a location, among those that are there.
  abbrev row_of : ℕ → List ℕ → P → Instant → LocationPacket F → S → Row
  row_of pk imei peer at packet t =
      location_row fl chrono P N next naive_of naive_now pk imei peer at packet t.locations

  -- A location's transaction that succeeds has stored its row and accounted for it.
  persist_location_ok :
      (peer : P) (imei : List ℕ) (packet : LocationPacket F) (now : Instant) (e e' : Env S)
      → persist_location fl chrono P N next naive_of naive_now peer imei packet now e ≡ (ok tt, e')
      → (pk : ℕ) × (t : S) × (tables t ≡ tables e.store)
        × (tables e'.store
            ≡ tables (
                processed fl chrono P N imei
                  (point_of fl chrono P N (row_of pk imei peer now packet t))
                  (record t {
                    locations = t.locations ++ (row_of pk imei peer now packet t ∷ []);
                  })))
  unfolding persist_location insert_location update_device_latest_location point_at point_of
      location_row location_columns
  persist_location_ok peer imei packet now e e' h =
      let login = upsert_device_last_seen fl chrono P N next naive_of naive_now imei peer now in
      let insert : ℕ → M S ℕ =
        λ pk. insert_location fl chrono P N next naive_of naive_now pk imei peer now packet in
      let measure : ℕ → M S F = λ id.
        process_location_distance fl chrono P N imei
          (point_at fl chrono P N next naive_of naive_now id now packet) in
      let latest : ℕ → M S (Unit {0}) = λ pk.
        update_device_latest_location fl chrono P N next naive_of naive_now pk peer now packet in
      let done = commit fl chrono P N next naive_of naive_now in
      let (pk, e₁, h₁, k₁) =
        >>=_ok login (λ pk. insert pk >>= λ id. measure id >>= λ _. latest pk >>= λ _. done) e h in
      let (id, e₂, h₂, k₂) =
        >>=_ok (insert pk) (λ id. measure id >>= λ _. latest pk >>= λ _. done) e₁ k₁ in
      let (m, e₃, h₃, k₃) = >>=_ok (measure id) (λ _. latest pk >>= λ _. done) e₂ k₂ in
      let (_, e₄, h₄, k₄) = >>=_ok (latest pk) (λ _. done) e₃ k₃ in
      (
        pk,
        e₁.store,
        Keeps-ok fl chrono P N next naive_of naive_now login e e₁
            (upsert_device_last_seen-Keeps fl chrono P N next naive_of naive_now imei peer now e)
            h₁,
        Keeps-ok fl chrono P N next naive_of naive_now done e₄ e'
              (commit-Keeps fl chrono P N next naive_of naive_now e₄) k₄
            ∙ Keeps-ok fl chrono P N next naive_of naive_now (latest pk) e₃ e₄
                (set_device-Keeps fl chrono P N next naive_of naive_now pk _ e₃) h₄
            ∙ ap tables (
                process_location_distance_ok fl chrono P N imei
                  (point_at fl chrono P N next naive_of naive_now id now packet) e₂ e₃ h₃)
            ∙ ap
                (λ y. tables (
                  processed fl chrono P N imei
                    (point_at fl chrono P N next naive_of naive_now (y.0) now packet) (y.1)))
                (sym (
                  call_ok (inserted fl chrono P N next naive_of naive_now pk imei peer now packet)
                    e₁ h₂)),
      )

  -- Ids of locations only grow, as the ids of a `BIGSERIAL` column do.
  abbrev pub IsFresh : Type 0
  IsFresh = (rows : List Row) → All (λ row. row.id < next.location_id rows) rows

  persist_location-IsReplayed :
      (fresh : IsFresh) (peer : P) (imei : List ℕ) (packet : LocationPacket F) (now : Instant)
      (e e' : Env S)
      → IsReplayed fl chrono P N e.store
      → persist_location fl chrono P N next naive_of naive_now peer imei packet now e ≡ (ok tt, e')
      → IsReplayed fl chrono P N e'.store
  unfolding location_row
  persist_location-IsReplayed fresh peer imei packet now e e' r h =
      let (pk, t, same, after) = persist_location_ok peer imei packet now e e' h in
      let row = row_of pk imei peer now packet t in
      let u = record t { locations = t.locations ++ (row ∷ []) } in
      part-IsReplayed fl chrono P N (processed fl chrono P N imei (point_of fl chrono P N row) u)
        e'.store after
        (appended-IsReplayed fl chrono P N t u row (fresh t.locations) refl
          (part-IsReplayed fl chrono P N e.store t same r))

  -- A transaction that has the property whenever it succeeds has it always: a failure changes nothing.
  transaction-IsReplayed :
      (m : M S (Unit {0})) (e : Env S)
      → IsReplayed fl chrono P N e.store
      → ((e' : Env S) → m e ≡ (ok tt, e') → IsReplayed fl chrono P N e'.store)
      → IsReplayed fl chrono P N (transaction m e).1.store
  transaction-IsReplayed m e r h = at (transaction m e) refl
    where
      at :
          (y : Result Failure (Unit {0}) × Env S)
          → transaction m e ≡ y
          → IsReplayed fl chrono P N y.1.store
      at (ok tt, e') q = h e' (transaction_ok m e q)
      at (err x, e') q =
          subst (λ (t : S). IsReplayed fl chrono P N t) (sym (transaction_failed m e q)) r

  keeping-IsReplayed :
      (m : M S (Unit {0})) (e : Env S)
      → IsReplayed fl chrono P N e.store
      → Keeps tables m e
      → IsReplayed fl chrono P N (transaction m e).1.store
  keeping-IsReplayed m e r k = transaction-IsReplayed m e r (λ e' h.
      part-IsReplayed fl chrono P N e.store e'.store
        (Keeps-ok fl chrono P N next naive_of naive_now m e e' k h) r)

  -- Whatever the event, and whichever statement of its transaction fails: if the odometers and daily
  -- distances were the replay of the stored locations, they are so after `persist_event`. The condition is
  -- that a new location's id is above all those stored.
  pub persist_event-IsReplayed :
      (fresh : IsFresh) (event : DeviceEvent P F) (now : Instant) (e : Env S)
      → IsReplayed fl chrono P N e.store
      → IsReplayed fl chrono P N
          (persist_event fl chrono P N next naive_of naive_now event now e).1.store
  unfolding persist_event
  persist_event-IsReplayed fresh (DeviceEvent.login peer imei serial) now e r =
      keeping-IsReplayed (persist_login fl chrono P N next naive_of naive_now peer imei now) e r
        (persist_login-Keeps fl chrono P N next naive_of naive_now peer imei now e)
  persist_event-IsReplayed fresh (DeviceEvent.heartbeat peer none packet) now e r = r
  persist_event-IsReplayed fresh (DeviceEvent.heartbeat peer (some imei) packet) now e r =
      keeping-IsReplayed
        (persist_heartbeat fl chrono P N next naive_of naive_now peer imei packet now) e r
        (persist_heartbeat-Keeps fl chrono P N next naive_of naive_now peer imei packet now e)
  persist_event-IsReplayed fresh (DeviceEvent.location peer none packet) now e r = r
  persist_event-IsReplayed fresh (DeviceEvent.location peer (some imei) packet) now e r =
      transaction-IsReplayed
        (persist_location fl chrono P N next naive_of naive_now peer imei packet now) e r
        (λ e' h. persist_location-IsReplayed fresh peer imei packet now e e' r h)

  -- Any number of events, from any connections in any order, each at its own time and with any
  -- statements failing, leave the odometers and daily distances the replay of the stored locations, if
  -- they were so before and new locations get ids above the stored ones.
  pub handle_all-IsReplayed :
      (fresh : IsFresh) (events : List (Instant × DeviceEvent P F)) (e : Env S)
      → IsReplayed fl chrono P N e.store
      → IsReplayed fl chrono P N (handle_all fl chrono P N next naive_of naive_now events e).store
  unfolding handle_all handle_event
  handle_all-IsReplayed fresh [] e r = r
  handle_all-IsReplayed fresh ((now, event) ∷ events) e r =
      handle_all-IsReplayed fresh events
        (handle_event fl chrono P N next naive_of naive_now now event e)
        (persist_event-IsReplayed fresh event now e r)

  -- Started on tables in step with the stored locations, and with ids of new locations above the stored
  -- ones, the handler of events keeps exactly the distances that a backfill computes: whatever events have
  -- been handled, a backfill of all devices, in any order and whichever of its calls fail, changes no
  -- odometer and no daily row of any device.
  pub backfill_all-handle_all :
      (fresh : IsFresh) (in_order : List (List ℕ) → List (List ℕ))
      (events : List (Instant × DeviceEvent P F)) (e : Env S)
      → IsReplayed fl chrono P N e.store
      → (imei : List ℕ)
      → ledger_in fl chrono P N imei
          (backfill_all_device_distances fl chrono P N in_order
            (handle_all fl chrono P N next naive_of naive_now events e)).1.store
        ≡ ledger_in fl chrono P N imei
            (handle_all fl chrono P N next naive_of naive_now events e).store
  backfill_all-handle_all fresh in_order events e r =
      backfill_all_device_distances_agrees fl chrono P N in_order
        (handle_all fl chrono P N next naive_of naive_now events e)
        (handle_all-IsReplayed fresh events e r)

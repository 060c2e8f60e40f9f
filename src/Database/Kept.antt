-- ===== src/Database/Kept.antt =====
-- The statements of `persist_event` (src/db.rs) that leave locations and distances alone.
use gt06n_tcp_server.Prelude.{ℕ, ◌≡◌, refl, subst, List, Bool, Option, none, some, ok}
use gt06n_tcp_server.Float.{Float64}
use gt06n_tcp_server.Chrono.{Chrono}
use gt06n_tcp_server.Effects.{M, Env, call}
use gt06n_tcp_server.Effects.Keeps.{Keeps, Keeps-call, Keeps->>=}
use gt06n_tcp_server.Protocol.{GpsTimestamp, HeartbeatPacket}
use gt06n_tcp_server.Tracking.{LocationRow, OdometerRow, DailyRow}
use gt06n_tcp_server.Distance.{Store}
use gt06n_tcp_server.Database.{
  ClockRead, Device, Sequences, upserted, returned_id, upsert_returning, upsert_device_login,
  upsert_device_last_seen, updated, set_device, previous_acc_high, fetch_previous_acc_high,
  heartbeat_inserted, heartbeat_columns, insert_heartbeat, update_device_latest_heartbeat,
  committed, commit, persist_login, persist_heartbeat,
}
use gt06n_tcp_server.Database.Replayed.{part}

module _ (fl : Float64) (chrono : Chrono) (P N : Type 0)
    (next : Sequences (chrono.Instant) P (fl.F) N) (naive_of : GpsTimestamp → Option N)
    (naive_now : ClockRead → chrono.Instant → N) where
  open fl use {F}
  open chrono use {Instant}

  abbrev pub S : Type 0
  S = Store fl chrono P N

  abbrev pub tables :
      S
      → List (OdometerRow Instant F)
        × List (DailyRow (chrono.Date) F)
        × List (LocationRow Instant P F N)
  tables t = part fl chrono P N t

  -- What succeeds and keeps the tables has them afterwards.
  pub Keeps-ok :
      {A : Type 0} (m : M S A) (e e₁ : Env S) {a : A}
      → Keeps tables m e
      → m e ≡ (ok a, e₁)
      → tables e₁.store ≡ tables e.store
  Keeps-ok m e e₁ k h = subst (λ y. tables y.1.store ≡ tables e.store) h k

  pub commit-Keeps : (e : Env S) → Keeps tables (commit fl chrono P N next naive_of naive_now) e
  unfolding commit
  commit-Keeps e = Keeps-call tables (committed fl chrono P N next naive_of naive_now) e (λ s. refl)

  pub set_device-Keeps :
      (pk : ℕ) (set : Device fl chrono P N → Device fl chrono P N) (e : Env S)
      → Keeps tables (set_device fl chrono P N next naive_of naive_now pk set) e
  unfolding set_device
  set_device-Keeps pk set e =
      Keeps-call tables (updated fl chrono P N next naive_of naive_now pk set) e (λ s. refl)

  returned_id-Keeps :
      (found : Option (Device fl chrono P N)) (e : Env S)
      → Keeps tables (returned_id fl chrono P N next naive_of naive_now found) e
  unfolding returned_id
  returned_id-Keeps none e = refl
  returned_id-Keeps (some row) e = refl

  upsert_returning-Keeps :
      (imei : List ℕ) (new : List (Device fl chrono P N) → Device fl chrono P N)
      (set : Device fl chrono P N → Device fl chrono P N) (e : Env S)
      → Keeps tables (upsert_returning fl chrono P N next naive_of naive_now imei new set) e
  unfolding upsert_returning
  upsert_returning-Keeps imei new set e =
      let act = upserted fl chrono P N next naive_of naive_now imei new set in
      Keeps->>= tables (call act) (returned_id fl chrono P N next naive_of naive_now) e
        (Keeps-call tables act e (λ s. refl)) (λ a e₁ h. returned_id-Keeps a e₁)

  fetch_previous_acc_high-Keeps :
      (imei : List ℕ) (e : Env S)
      → Keeps tables (fetch_previous_acc_high fl chrono P N next naive_of naive_now imei) e
  unfolding fetch_previous_acc_high
  fetch_previous_acc_high-Keeps imei e =
      Keeps-call tables (previous_acc_high fl chrono P N next naive_of naive_now imei) e (λ s. refl)

  pub upsert_device_last_seen-Keeps :
      (imei : List ℕ) (peer : P) (now : Instant) (e : Env S)
      → Keeps tables (upsert_device_last_seen fl chrono P N next naive_of naive_now imei peer now) e
  unfolding upsert_device_last_seen
  upsert_device_last_seen-Keeps imei peer now e = upsert_returning-Keeps imei _ _ e

  insert_heartbeat-Keeps :
      (pk : ℕ) (imei : List ℕ) (peer : P) (now : Instant) (packet : HeartbeatPacket) (e : Env S)
      → Keeps tables
          (insert_heartbeat fl chrono P N next naive_of naive_now pk imei peer now packet)
          e
  unfolding insert_heartbeat
  insert_heartbeat-Keeps pk imei peer now packet e =
      let act : Option Bool → S → Unit {0} × S = λ previous.
        heartbeat_inserted fl chrono P N next naive_of naive_now pk imei peer now
          (heartbeat_columns fl chrono P N next naive_of naive_now packet previous) in
      Keeps->>= tables (fetch_previous_acc_high fl chrono P N next naive_of naive_now imei)
        (λ previous. call (act previous)) e (fetch_previous_acc_high-Keeps imei e)
        (λ previous e₁ h. Keeps-call tables (act previous) e₁ (λ s. refl))

  update_device_latest_heartbeat-Keeps :
      (pk : ℕ) (imei : List ℕ) (peer : P) (now : Instant) (packet : HeartbeatPacket) (e : Env S)
      → Keeps tables
          (update_device_latest_heartbeat fl chrono P N next naive_of naive_now pk imei peer now
            packet)
          e
  unfolding update_device_latest_heartbeat
  update_device_latest_heartbeat-Keeps pk imei peer now packet e =
      Keeps->>= tables (fetch_previous_acc_high fl chrono P N next naive_of naive_now imei) _ e
        (fetch_previous_acc_high-Keeps imei e) (λ previous e₁ h. set_device-Keeps pk _ e₁)

  pub persist_login-Keeps :
      (peer : P) (imei : List ℕ) (now : Instant) (e : Env S)
      → Keeps tables (persist_login fl chrono P N next naive_of naive_now peer imei now) e
  unfolding persist_login upsert_device_login
  persist_login-Keeps peer imei now e =
      Keeps->>= tables (upsert_device_login fl chrono P N next naive_of naive_now imei peer now)
        (λ pk. commit fl chrono P N next naive_of naive_now) e (upsert_returning-Keeps imei _ _ e)
        (λ pk e₁ h. commit-Keeps e₁)

  pub persist_heartbeat-Keeps :
      (peer : P) (imei : List ℕ) (packet : HeartbeatPacket) (now : Instant) (e : Env S)
      → Keeps tables
          (persist_heartbeat fl chrono P N next naive_of naive_now peer imei packet now)
          e
  unfolding persist_heartbeat
  persist_heartbeat-Keeps peer imei packet now e =
      Keeps->>= tables (upsert_device_last_seen fl chrono P N next naive_of naive_now imei peer now)
        _ e (upsert_device_last_seen-Keeps imei peer now e)
        (λ pk e₁ h.
          Keeps->>= tables
            (insert_heartbeat fl chrono P N next naive_of naive_now pk imei peer now packet) _ e₁
            (insert_heartbeat-Keeps pk imei peer now packet e₁)
            (λ _ e₂ h₂.
              Keeps->>= tables
                (update_device_latest_heartbeat fl chrono P N next naive_of naive_now pk imei peer
                  now packet)
                _ e₂ (update_device_latest_heartbeat-Keeps pk imei peer now packet e₂)
                (λ _ e₃ h₃. commit-Keeps e₃)))

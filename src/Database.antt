-- ===== src/Database.antt =====
-- src/db.rs: how the events of the devices are stored. `persist_event` runs one transaction per
-- event. The time of the call, the ids that the database hands out, the conversion of a GPS time to one
-- without a zone (`chrono`), and what the clock shows where a statement replaces a date that does not
-- exist, at each of the two statements anew, are parameters.
pub mod Kept
pub mod Persisted
pub mod Replayed
pub mod Stored
pub mod Tests
use gt06n_tcp_server.Prelude.{
  ℕ, List, [], ◌∷◌, ◌++◌, Bool, true, false, ◌&&◌, not, ◌==◌, leb, if◌then◌else◌, is_empty, Option,
  none, some, Result, ok, err,
}
use gt06n_tcp_server.Float.{Float64}
use gt06n_tcp_server.Chrono.{Chrono}
use gt06n_tcp_server.Effects.{
  M, Env, Failure, row_not_found, ◌>>=◌, ◌>>◌, return, fail, call, transaction,
}
use gt06n_tcp_server.Events.{DeviceEvent}
use gt06n_tcp_server.Protocol.{
  EngineStatus, GpsTimestamp, HeartbeatPacket, LocationPacket, protocol_location,
  protocol_heartbeat, protocol_extended_location,
}
use gt06n_tcp_server.Protocol.Framing.{bytes_eq}
use gt06n_tcp_server.Protocol.Format.{
  format_bytes_hex, decode_terminal_info_flags, resolve_acc_high, resolve_engine_status_guess,
}
use gt06n_tcp_server.Tracking.{
  LocationColumns, HeartbeatColumns, LocationRow, HeartbeatRow, DeviceRow, Devices,
}
use gt06n_tcp_server.Distance.{DistanceLocationPoint, Store, process_location_distance}
use Prim.Native.String.{String}

unfoldable pub packet_family : {F : Type 0} → LocationPacket F → String
packet_family packet = if is_empty packet.extra_data then "location" else "extended_location"

unfoldable pub extended_protocol_number : {F : Type 0} → LocationPacket F → ℕ
extended_protocol_number packet =
    if is_empty packet.extra_data then protocol_location else protocol_extended_location

unfoldable pub engine_status_as_str : EngineStatus → String
engine_status_as_str EngineStatus.on = "on"
engine_status_as_str EngineStatus.off = "off"
engine_status_as_str EngineStatus.unknown = "unknown"

-- The two statements of a location's transaction that read the clock for a date that does not exist:
-- the row's INSERT and the UPDATE of its device.
pub data ClockRead : Type 0 where
  inserting updating : ClockRead

-- What an insert fills in.
pub record Sequences (I P F N : Type 0) : Type 0 where
  pub device_id : List (DeviceRow I P F N) → ℕ
  pub location_id : List (LocationRow I P F N) → ℕ
  pub heartbeat_id : List (HeartbeatRow I P) → ℕ

module _ (fl : Float64) (chrono : Chrono) (P N : Type 0) where
  open fl use {F}
  open chrono use {Instant}

  abbrev pub Device : Type 0
  Device = DeviceRow Instant P F N

  module _ (next : Sequences Instant P F N) (naive_of : GpsTimestamp → Option N)
      (naive_now : ClockRead → Instant → N) where
    -- With what the clock shows at the call.
    pub gps_timestamp_to_naive : N → GpsTimestamp → N
    gps_timestamp_to_naive present timestamp = elim (naive_of timestamp) [
      | none ↦ present
      | some naive ↦ naive
    ]

    -- What both statements for a location bind, each with its own reading of the clock.
    pub location_columns : N → LocationPacket F → LocationColumns F N
    unfolding gps_timestamp_to_naive extended_protocol_number packet_family format_bytes_hex
    location_columns present packet = record {
      gps_timestamp = gps_timestamp_to_naive present packet.timestamp;
      protocol_number = extended_protocol_number packet;
      packet_family = packet_family packet;
      latitude = packet.latitude;
      longitude = packet.longitude;
      speed_kph = packet.speed_kph;
      course = packet.course;
      course_status = packet.course_status;
      satellite_count = packet.satellite_count;
      gps_info_length = packet.gps_info_length;
      extra_data_hex = format_bytes_hex packet.extra_data;
    }

    -- What both statements for a heartbeat bind, with the ignition state that was stored last.
    pub heartbeat_columns : HeartbeatPacket → Option Bool → HeartbeatColumns
    unfolding decode_terminal_info_flags resolve_acc_high resolve_engine_status_guess
        engine_status_as_str
    heartbeat_columns packet previous_acc_high =
        let flags = decode_terminal_info_flags packet.terminal_info in
        let effective_acc_high = resolve_acc_high flags.acc_high previous_acc_high in
        record {
          protocol_number = protocol_heartbeat;
          terminal_info_raw = packet.terminal_info;
          terminal_info_bits = flags.binary;
          gps_tracking_on = flags.gps_tracking_on;
          bit_1_guess = flags.bit_1_guess;
          acc_high = effective_acc_high;
          bit_3_guess = flags.bit_3_guess;
          vibration_detected = flags.vibration_detected;
          bit_4_guess = flags.bit_4_guess;
          engine_status_guess =
              engine_status_as_str (resolve_engine_status_guess effective_acc_high);
          voltage_level = packet.voltage_level;
          gsm_signal_strength = packet.gsm_signal_strength;
          alarm_language = packet.alarm_language;
        }

    -- The row of a device that is seen for the first time.
    pub new_device : List ℕ → P → Instant → Option Instant → List Device → Device
    new_device imei peer_addr now last_login_at rows = record {
      id = next.device_id rows;
      imei = imei;
      first_seen_at = now;
      last_seen_at = now;
      last_login_at = last_login_at;
      last_heartbeat_at = none;
      last_location_at = none;
      latest_peer_addr = some peer_addr;
      latest_protocol_number = none;
      latest_packet_family = none;
      latest_location = none;
      latest_heartbeat = none;
    }

    -- `INSERT INTO devices … ON CONFLICT (imei) DO UPDATE`: with the row to insert and the update.
    pub upsert_device : List ℕ → Device → (Device → Device) → List Device → List Device
    upsert_device imei new set [] = new ∷ []
    upsert_device imei new set (row ∷ rows) =
        if bytes_eq row.imei imei then set row ∷ rows else row ∷ upsert_device imei new set rows

    pub find_device : List ℕ → List Device → Option Device
    find_device imei [] = none
    find_device imei (row ∷ rows) =
        if bytes_eq row.imei imei then some row else find_device imei rows

    -- `UPDATE devices … WHERE id = $1`
    pub update_device : ℕ → (Device → Device) → List Device → List Device
    update_device id set [] = []
    update_device id set (row ∷ rows) =
        (if row.id == id then set row else row) ∷ update_device id set rows

    -- `RETURNING id` of the row that was inserted or updated.
    pub returned_id : Option Device → M (Store fl chrono P N) ℕ
    returned_id none = fail row_not_found
    returned_id (some row) = return row.id

    pub seen : P → Instant → Device → Device
    seen peer_addr now row = record row { last_seen_at = now; latest_peer_addr = some peer_addr }

    pub logged_in : P → Instant → Device → Device
    logged_in peer_addr now row = record row {
      last_seen_at = now;
      last_login_at = some now;
      latest_peer_addr = some peer_addr;
    }

    -- The statement, and the row with its id.
    abbrev pub upserted :
        List ℕ
        → (List Device → Device)
        → (Device → Device)
        → Store fl chrono P N
        → Option Device × Store fl chrono P N
    upserted imei new set t =
        let rows = upsert_device imei (new t.devices) set t.devices in
        (find_device imei rows, record t { devices = rows })

    pub upsert_returning :
        List ℕ → (List Device → Device) → (Device → Device) → M (Store fl chrono P N) ℕ
    unfolding call returned_id
    upsert_returning imei new set = call (upserted imei new set) >>= returned_id

    pub upsert_device_login : List ℕ → P → Instant → M (Store fl chrono P N) ℕ
    unfolding upsert_returning new_device logged_in
    upsert_device_login imei peer_addr now =
        upsert_returning imei (new_device imei peer_addr now (some now)) (logged_in peer_addr now)

    pub upsert_device_last_seen : List ℕ → P → Instant → M (Store fl chrono P N) ℕ
    unfolding upsert_returning new_device seen
    upsert_device_last_seen imei peer_addr now =
        upsert_returning imei (new_device imei peer_addr now none) (seen peer_addr now)

    pub location_row :
        ℕ
        → List ℕ
        → P
        → Instant
        → LocationPacket F
        → List (LocationRow Instant P F N)
        → LocationRow Instant P F N
    unfolding location_columns
    location_row device_pk imei peer_addr server_received_at packet rows = record {
      id = next.location_id rows;
      device_id = device_pk;
      imei = imei;
      server_received_at = server_received_at;
      columns = location_columns (naive_now inserting server_received_at) packet;
      peer_addr = peer_addr;
    }

    abbrev pub inserted :
        ℕ → List ℕ → P → Instant → LocationPacket F → Store fl chrono P N → ℕ × Store fl chrono P N
    inserted device_pk imei peer_addr server_received_at packet t =
        let row = location_row device_pk imei peer_addr server_received_at packet t.locations in
        (row.id, record t { locations = t.locations ++ (row ∷ []) })

    pub insert_location : ℕ → List ℕ → P → Instant → LocationPacket F → M (Store fl chrono P N) ℕ
    unfolding call location_row
    insert_location device_pk imei peer_addr server_received_at packet =
        call (inserted device_pk imei peer_addr server_received_at packet)

    pub with_location : P → Instant → LocationPacket F → Device → Device
    unfolding location_columns packet_family extended_protocol_number
    with_location peer_addr server_received_at packet row = record row {
      last_seen_at = server_received_at;
      last_location_at = some server_received_at;
      latest_peer_addr = some peer_addr;
      latest_protocol_number = some (extended_protocol_number packet);
      latest_packet_family = some (packet_family packet);
      latest_location = some (location_columns (naive_now updating server_received_at) packet);
    }

    abbrev pub updated :
        ℕ → (Device → Device) → Store fl chrono P N → Unit {0} × Store fl chrono P N
    updated device_pk set t = (tt, record t { devices = update_device device_pk set t.devices })

    pub set_device : ℕ → (Device → Device) → M (Store fl chrono P N) (Unit {0})
    unfolding call update_device
    set_device device_pk set = call (updated device_pk set)

    pub update_device_latest_location :
        ℕ → P → Instant → LocationPacket F → M (Store fl chrono P N) (Unit {0})
    unfolding set_device with_location
    update_device_latest_location device_pk peer_addr server_received_at packet =
        set_device device_pk (with_location peer_addr server_received_at packet)

    -- `WHERE imei = $1 AND acc_high IS NOT NULL ORDER BY id DESC LIMIT 1`
    pub latest_acc_high :
        List ℕ → List (HeartbeatRow Instant P) → Option (ℕ × Bool) → Option (ℕ × Bool)
    latest_acc_high imei [] best = best
    latest_acc_high imei (row ∷ rows) best =
        latest_acc_high imei rows
          (if bytes_eq row.imei imei then later best row.id row.columns.acc_high else best)
      where
        later : Option (ℕ × Bool) → ℕ → Option Bool → Option (ℕ × Bool)
        later best id none = best
        later none id (some acc) = some (id, acc)
        later (some (j, b)) id (some acc) = if leb j id then some (id, acc) else some (j, b)

    abbrev pub previous_acc_high : List ℕ → Store fl chrono P N → Option Bool × Store fl chrono P N
    previous_acc_high imei t = (
      elim (latest_acc_high imei t.heartbeats none) [ none ↦ none | some found ↦ some found.1 ],
      t,
    )

    pub fetch_previous_acc_high : List ℕ → M (Store fl chrono P N) (Option Bool)
    unfolding call latest_acc_high
    fetch_previous_acc_high imei = call (previous_acc_high imei)

    abbrev pub heartbeat_inserted :
        ℕ
        → List ℕ
        → P
        → Instant
        → HeartbeatColumns
        → Store fl chrono P N
        → Unit {0} × Store fl chrono P N
    heartbeat_inserted device_pk imei peer_addr server_received_at columns t = (
      tt,
      record t {
        heartbeats =
            t.heartbeats
            ++ ((record {
              id = next.heartbeat_id t.heartbeats;
              device_id = device_pk;
              imei = imei;
              server_received_at = server_received_at;
              columns = columns;
              peer_addr = peer_addr;
            })
                ∷ []);
      },
    )

    pub insert_heartbeat :
        ℕ → List ℕ → P → Instant → HeartbeatPacket → M (Store fl chrono P N) (Unit {0})
    unfolding call fetch_previous_acc_high heartbeat_columns
    insert_heartbeat device_pk imei peer_addr server_received_at packet = do
      previous ← fetch_previous_acc_high imei
      call (
          heartbeat_inserted device_pk imei peer_addr server_received_at
            (heartbeat_columns packet previous))

    pub with_heartbeat : P → Instant → HeartbeatColumns → Device → Device
    with_heartbeat peer_addr server_received_at columns row = record row {
      last_seen_at = server_received_at;
      last_heartbeat_at = some server_received_at;
      latest_peer_addr = some peer_addr;
      latest_protocol_number = some protocol_heartbeat;
      latest_packet_family = some "heartbeat";
      latest_heartbeat = some columns;
    }

    pub update_device_latest_heartbeat :
        ℕ → List ℕ → P → Instant → HeartbeatPacket → M (Store fl chrono P N) (Unit {0})
    unfolding fetch_previous_acc_high set_device with_heartbeat heartbeat_columns
    update_device_latest_heartbeat device_pk imei peer_addr server_received_at packet = do
      previous ← fetch_previous_acc_high imei
      set_device device_pk
          (with_heartbeat peer_addr server_received_at (heartbeat_columns packet previous))

    abbrev pub committed : Store fl chrono P N → Unit {0} × Store fl chrono P N
    committed t = (tt, t)

    pub commit : M (Store fl chrono P N) (Unit {0})
    unfolding call
    commit = call committed

    pub point_at : ℕ → Instant → LocationPacket F → DistanceLocationPoint Instant F
    point_at location_id server_received_at packet = record {
      id = location_id;
      server_received_at = server_received_at;
      latitude = packet.latitude;
      longitude = packet.longitude;
      speed_kph = packet.speed_kph;
    }

    -- The transactions of the three kinds of event.
    pub persist_login : P → List ℕ → Instant → M (Store fl chrono P N) (Unit {0})
    unfolding upsert_device_login commit
    persist_login peer_addr imei now = do device_pk ← upsert_device_login imei peer_addr now; commit

    pub persist_heartbeat :
        P → List ℕ → HeartbeatPacket → Instant → M (Store fl chrono P N) (Unit {0})
    unfolding upsert_device_last_seen insert_heartbeat update_device_latest_heartbeat commit
    persist_heartbeat peer_addr imei packet server_received_at = do
      device_pk ← upsert_device_last_seen imei peer_addr server_received_at
      insert_heartbeat device_pk imei peer_addr server_received_at packet
      update_device_latest_heartbeat device_pk imei peer_addr server_received_at packet
      commit

    pub persist_location :
        P → List ℕ → LocationPacket F → Instant → M (Store fl chrono P N) (Unit {0})
    unfolding upsert_device_last_seen insert_location process_location_distance
        update_device_latest_location commit point_at
    persist_location peer_addr imei packet server_received_at = do
      device_pk ← upsert_device_last_seen imei peer_addr server_received_at
      location_id ← insert_location device_pk imei peer_addr server_received_at packet
      meters ←
          process_location_distance fl chrono P N imei
            (point_at location_id server_received_at packet)
      update_device_latest_location device_pk peer_addr server_received_at packet
      commit

    -- At the time `now`. Without a login on the connection there is nothing to store under.
    pub persist_event : DeviceEvent P F → Instant → M (Store fl chrono P N) (Unit {0})
    unfolding transaction persist_login persist_heartbeat persist_location
    persist_event (DeviceEvent.login peer_addr imei serial) now =
        transaction (persist_login peer_addr imei now)
    persist_event (DeviceEvent.heartbeat peer_addr none packet) now = return tt
    persist_event (DeviceEvent.heartbeat peer_addr (some imei) packet) now =
        transaction (persist_heartbeat peer_addr imei packet now)
    persist_event (DeviceEvent.location peer_addr none packet) now = return tt
    persist_event (DeviceEvent.location peer_addr (some imei) packet) now =
        transaction (persist_location peer_addr imei packet now)

    -- `DatabaseEventHandler::handle_event`: a failure is logged and goes no further.
    pub handle_event :
        Instant → DeviceEvent P F → Env (Store fl chrono P N) → Env (Store fl chrono P N)
    unfolding persist_event
    handle_event now event e = (persist_event event now e).1

    -- All events that reach the handler, from whatever connections, with the times at which they do.
    pub handle_all :
        List (Instant × DeviceEvent P F) → Env (Store fl chrono P N) → Env (Store fl chrono P N)
    unfolding handle_event
    handle_all [] e = e
    handle_all ((now, event) ∷ events) e = handle_all events (handle_event now event e)

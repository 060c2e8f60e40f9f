-- ===== src/Tracking.antt =====
-- The tables of the devices (migrations/0001, 0002, 0019): devices, their locations and heartbeats,
-- and the distances. Columns that are set together stand in a record of their own; creation and
-- update times are left out. `N` is the type of times without a zone.
use gt06n_tcp_server.Prelude.{
  ℕ, ◌≡◌, ◌↔◌, refl, arith, List, [], ◌∷◌, Bool, true, if◌then◌else◌, Option, none, some,
}
use gt06n_tcp_server.Protocol.Framing.{bytes_eq}
use Prim.Native.String.{String}

-- What a location packet leaves in `device_locations` and in the `latest_*` columns of `devices`.
pub record LocationColumns (F N : Type 0) : Type 0 where
  pub gps_timestamp : N
  pub protocol_number : ℕ
  pub packet_family : String
  pub latitude : F
  pub longitude : F
  pub speed_kph : ℕ
  pub course : ℕ
  pub course_status : ℕ
  pub satellite_count : ℕ
  pub gps_info_length : ℕ
  pub extra_data_hex : List ℕ

-- What a heartbeat leaves in `device_heartbeats` and in the `latest_*` columns of `devices`.
pub record HeartbeatColumns : Type 0 where
  pub protocol_number : ℕ
  pub terminal_info_raw : ℕ
  pub terminal_info_bits : List ℕ
  pub gps_tracking_on : Bool
  pub bit_1_guess : Bool
  pub acc_high : Option Bool
  pub bit_3_guess : Bool
  pub vibration_detected : Bool
  pub bit_4_guess : Bool
  pub engine_status_guess : String
  pub voltage_level : ℕ
  pub gsm_signal_strength : ℕ
  pub alarm_language : ℕ

pub record LocationRow (I P F N : Type 0) : Type 0 where
  pub id : ℕ
  pub device_id : ℕ
  pub imei : List ℕ
  pub server_received_at : I
  pub columns : LocationColumns F N
  pub peer_addr : P

pub record HeartbeatRow (I P : Type 0) : Type 0 where
  pub id : ℕ
  pub device_id : ℕ
  pub imei : List ℕ
  pub server_received_at : I
  pub columns : HeartbeatColumns
  pub peer_addr : P

pub record DeviceRow (I P F N : Type 0) : Type 0 where
  pub id : ℕ
  pub imei : List ℕ
  pub first_seen_at : I
  pub last_seen_at : I
  pub last_login_at : Option I
  pub last_heartbeat_at : Option I
  pub last_location_at : Option I
  pub latest_peer_addr : Option P
  pub latest_protocol_number : Option ℕ
  pub latest_packet_family : Option String
  pub latest_location : Option (LocationColumns F N)
  pub latest_heartbeat : Option HeartbeatColumns

pub record OdometerRow (I F : Type 0) : Type 0 where
  pub imei : List ℕ
  pub total_distance_meters : F
  pub last_processed_location_id : Option ℕ
  pub last_server_received_at : Option I
  pub last_latitude : Option F
  pub last_longitude : Option F
  pub last_speed_kph : Option ℕ

pub record DailyRow (D F : Type 0) : Type 0 where
  pub imei : List ℕ
  pub distance_date : D
  pub distance_meters : F

pub record Devices (I D P F N : Type 0) : Type 0 where
  pub devices : List (DeviceRow I P F N)
  pub locations : List (LocationRow I P F N)
  pub heartbeats : List (HeartbeatRow I P)
  pub odometers : List (OdometerRow I F)
  pub daily : List (DailyRow D F)

-- `WHERE imei = $1` in a table with one row per device, and the row put in its place.
module _ {I F : Type 0} where
  unfoldable pub find_odometer : List ℕ → List (OdometerRow I F) → Option (OdometerRow I F)
  find_odometer imei [] = none
  find_odometer imei (row ∷ rows) =
      if bytes_eq row.imei imei then some row else find_odometer imei rows

pub bytes_eq_iff : (a b : List ℕ) → (bytes_eq a b ≡ true) ↔ (a ≡ b)
bytes_eq_iff [] [] = (λ h. refl, λ h. refl)
bytes_eq_iff [] (y ∷ ys) = (λ h. cc, λ h. cc)
bytes_eq_iff (x ∷ xs) [] = (λ h. cc, λ h. cc)
bytes_eq_iff (x ∷ xs) (y ∷ ys) = ground (arith, bytes_eq_iff xs ys)

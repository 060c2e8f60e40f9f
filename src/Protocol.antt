-- ===== src/Protocol.antt =====
-- src/protocol.rs: the data of the GT06 / Concox protocol and its constants. A byte or a wider
-- unsigned integer is a number, `Vec<u8>` and `String` are lists of numbers (bytes, code points),
-- and a coordinate, `f64` in the source, has a type that the records take as a parameter.
pub mod Crc
pub mod Framing
pub mod Format
pub mod Decode
use gt06n_tcp_server.Prelude.{ℕ, ◌<◌, Bool, List, [], ◌∷◌, Option}
use Prim.Native.String.{String}

abbrev pub IsByte : ℕ → Type 0
IsByte b = b < 256

abbrev pub IsU16 : ℕ → Type 0
IsU16 n = n < 65536

abbrev pub start_bytes : List ℕ
start_bytes = 0x78 ∷ 0x78 ∷ []

abbrev pub stop_bytes : List ℕ
stop_bytes = 0x0D ∷ 0x0A ∷ []

abbrev pub protocol_login : ℕ
protocol_login = 0x01

abbrev pub protocol_location : ℕ
protocol_location = 0x12

abbrev pub protocol_heartbeat : ℕ
protocol_heartbeat = 0x13

abbrev pub protocol_extended_location : ℕ
protocol_extended_location = 0x22

pub data TimestampEncoding : Type 0 where
  bcd concox_extended : TimestampEncoding

pub data HemisphereEncoding : Type 0 where
  classic_gt06 concox_extended : HemisphereEncoding

pub record Frame : Type 0 where
  pub protocol_number : ℕ
  pub payload : List ℕ
  pub serial : ℕ

pub record LoginPacket : Type 0 where
  pub imei : List ℕ
  pub extra_data : List ℕ

pub record HeartbeatPacket : Type 0 where
  pub terminal_info : ℕ
  pub voltage_level : ℕ
  pub gsm_signal_strength : ℕ
  pub alarm_language : ℕ

pub data EngineStatus : Type 0 where
  on off unknown : EngineStatus

pub record TerminalInfoFlags : Type 0 where
  pub raw : ℕ
  pub binary : List ℕ
  pub gps_tracking_on : Bool
  pub bit_1_guess : Bool
  pub acc_high : Option Bool
  pub bit_3_guess : Bool
  pub bit_4_guess : Bool
  pub vibration_detected : Bool
  pub engine_status_guess : EngineStatus

pub record GpsTimestamp : Type 0 where
  pub year : ℕ
  pub month : ℕ
  pub day : ℕ
  pub hour : ℕ
  pub minute : ℕ
  pub second : ℕ

pub record LocationPacket (F : Type 0) : Type 0 where
  pub timestamp : GpsTimestamp
  pub gps_info_length : ℕ
  pub satellite_count : ℕ
  pub latitude : F
  pub longitude : F
  pub speed_kph : ℕ
  pub course : ℕ
  pub course_status : ℕ
  pub extra_data : List ℕ

pub record UnknownPacket : Type 0 where
  pub protocol_number : ℕ
  pub payload : List ℕ

pub data Gt06Message (F : Type 0) : Type 0 where
  login : LoginPacket → Gt06Message F
  heartbeat : HeartbeatPacket → Gt06Message F
  location : LocationPacket F → Gt06Message F
  unknown : UnknownPacket → Gt06Message F

pub data ProtocolError : Type 0 where
  invalid_length : ℕ → ProtocolError
  invalid_stop_bytes : ProtocolError
  checksum_mismatch : ProtocolError
  invalid_payload : ℕ → String → ProtocolError

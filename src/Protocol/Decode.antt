-- ===== src/Protocol/Decode.antt =====
-- src/protocol.rs: `decode_message` and the decoders of the packet families. A coordinate is a
-- value of the float type that the section takes.
pub mod Imei
pub mod Total
pub mod Location
use gt06n_tcp_server.Prelude.{
  ℕ, ◌+◌, ◌*◌, ◌/◌, ◌%◌, List, [], ◌∷◌, Bool, true, false, ◌&&◌, not, ltb, ◌==◌, if◌then◌else◌,
  length, get_or, take, drop, Result, ok, err,
}
use gt06n_tcp_server.Float.{Float64}
use gt06n_tcp_server.Protocol.{
  Frame, Gt06Message, login, heartbeat, location, unknown, ProtocolError, invalid_payload,
  GpsTimestamp, LocationPacket, TimestampEncoding, HemisphereEncoding, protocol_login,
  protocol_location, protocol_heartbeat, protocol_extended_location,
}
use gt06n_tcp_server.Protocol.Framing.{from_be_bytes}
use Prim.Native.Nat.{bit_and}

-- The digits of the identity, two to a byte.
imei_digits : List ℕ → List ℕ
imei_digits [] = []
imei_digits (byte ∷ rest) =
    (b'0' + bit_and (byte / 16) 0x0F) ∷ (b'0' + bit_and byte 0x0F) ∷ imei_digits rest

starts_with : ℕ → List ℕ → Bool
starts_with c [] = false
starts_with c (x ∷ xs) = x == c

unfoldable pub decode_bcd_imei : List ℕ → List ℕ
unfolding imei_digits starts_with
decode_bcd_imei bytes =
    let digits = imei_digits bytes in
    if length digits == 16 && starts_with b'0' digits then drop 1 digits else digits

-- In `u8`.
unfoldable pub bcd_to_decimal : ℕ → ℕ
bcd_to_decimal byte = (bit_and (byte / 16) 0x0F * 10 + bit_and byte 0x0F) % 256

-- The year is a `u16`.
unfoldable pub decode_timestamp : List ℕ → TimestampEncoding → GpsTimestamp
unfolding bcd_to_decimal
decode_timestamp bytes TimestampEncoding.bcd = record {
  year = (2000 + bcd_to_decimal (get_or bytes 0 0)) % 65536;
  month = bcd_to_decimal (get_or bytes 1 0);
  day = bcd_to_decimal (get_or bytes 2 0);
  hour = bcd_to_decimal (get_or bytes 3 0);
  minute = bcd_to_decimal (get_or bytes 4 0);
  second = bcd_to_decimal (get_or bytes 5 0);
}
decode_timestamp bytes TimestampEncoding.concox_extended = record {
  year = (2000 + get_or bytes 0 0) % 65536;
  month = get_or bytes 1 0;
  day = get_or bytes 2 0;
  hour = get_or bytes 3 0;
  minute = bcd_to_decimal (get_or bytes 4 0);
  second = bcd_to_decimal (get_or bytes 5 0);
}

-- `u32::from_be_bytes` of four bytes from index `i` on.
abbrev pub be_u32_at : ℕ → List ℕ → ℕ
be_u32_at i bytes =
    get_or bytes i 0 * 16777216
    + get_or bytes (i + 1) 0 * 65536
    + get_or bytes (i + 2) 0 * 256
    + get_or bytes (i + 3) 0

module _ (fl : Float64) where
  open fl use {F, from_int, neg, div}

  unfoldable pub decode_coordinates : ℕ → ℕ → ℕ → HemisphereEncoding → F × F
  decode_coordinates raw_latitude raw_longitude course_status HemisphereEncoding.classic_gt06 =
      let latitude = div (from_int raw_latitude) (from_int 1_800_000) in
      let longitude = div (from_int raw_longitude) (from_int 1_800_000) in
      (
        if not (bit_and course_status 0x0400 == 0) then neg latitude else latitude,
        if not (bit_and course_status 0x0800 == 0) then neg longitude else longitude,
      )
  decode_coordinates raw_latitude raw_longitude course_status HemisphereEncoding.concox_extended =
      let latitude = div (from_int raw_latitude) (from_int 1_800_000) in
      let longitude = div (from_int raw_longitude) (from_int 1_800_000) in
      (if bit_and course_status 0x2000 == 0 then neg latitude else latitude, longitude)

  abbrev Decoded : Type 0
  Decoded = Result ProtocolError (Gt06Message F)

  unfoldable pub decode_login : Frame → Decoded
  decode_login frame =
      if ltb (length frame.payload) 8
      then err (invalid_payload frame.protocol_number "login payload must be at least 8 bytes")
      else ok (
          login (record {
            imei = decode_bcd_imei (take 8 frame.payload);
            extra_data = drop 8 frame.payload;
          }))

  unfoldable pub decode_heartbeat : Frame → Decoded
  decode_heartbeat frame =
      if ltb (length frame.payload) 5
      then err (invalid_payload frame.protocol_number "heartbeat payload must be at least 5 bytes")
      else ok (
          heartbeat (record {
            terminal_info = get_or frame.payload 0 0;
            voltage_level = get_or frame.payload 1 0;
            gsm_signal_strength = get_or frame.payload 2 0;
            alarm_language = from_be_bytes (get_or frame.payload 3 0) (get_or frame.payload 4 0);
          }))

  -- What `decode_location_payload` builds once the length is checked.
  location_packet : List ℕ → Bool → TimestampEncoding → HemisphereEncoding → LocationPacket F
  location_packet payload allow_extra_data timestamp_encoding hemisphere_encoding =
      let gps_info = get_or payload 6 0 in
      let course_status = from_be_bytes (get_or payload 16 0) (get_or payload 17 0) in
      let (latitude, longitude) =
        decode_coordinates (be_u32_at 7 payload) (be_u32_at 11 payload) course_status
          hemisphere_encoding in
      record {
        timestamp = decode_timestamp (take 6 payload) timestamp_encoding;
        gps_info_length = gps_info / 16;
        satellite_count = bit_and gps_info 0x0F;
        latitude = latitude;
        longitude = longitude;
        speed_kph = get_or payload 15 0;
        course = bit_and course_status 0x03FF;
        course_status = course_status;
        extra_data = if allow_extra_data then drop 18 payload else [];
      }

  unfoldable pub decode_location_payload :
      Frame → Bool → TimestampEncoding → HemisphereEncoding → Decoded
  unfolding location_packet
  decode_location_payload frame allow_extra_data timestamp_encoding hemisphere_encoding =
      if ltb (length frame.payload) 18
      then err (invalid_payload frame.protocol_number "location payload must be at least 18 bytes")
      else ok (
          location
            (location_packet frame.payload allow_extra_data timestamp_encoding hemisphere_encoding))

  unfoldable pub decode_location : Frame → Decoded
  unfolding decode_location_payload
  decode_location frame =
      decode_location_payload frame false TimestampEncoding.bcd HemisphereEncoding.classic_gt06

  unfoldable pub decode_extended_location : Frame → Decoded
  unfolding decode_location_payload
  decode_extended_location frame =
      decode_location_payload frame true TimestampEncoding.concox_extended
        HemisphereEncoding.concox_extended

  unfoldable pub decode_message : Frame → Decoded
  unfolding decode_login decode_heartbeat decode_location decode_extended_location
  decode_message frame =
      if frame.protocol_number == protocol_login
      then decode_login frame
      else if frame.protocol_number == protocol_heartbeat
      then decode_heartbeat frame
      else if frame.protocol_number == protocol_location
      then decode_location frame
      else if frame.protocol_number == protocol_extended_location
      then decode_extended_location frame
      else ok
          (unknown (record { protocol_number = frame.protocol_number; payload = frame.payload }))

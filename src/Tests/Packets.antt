-- ===== src/Tests/Packets.antt =====
-- The theorems on packets and on bytes as text at concrete input.
use gt06n_tcp_server.Prelude.{
  ℕ, ◌-◌, ◌*◌, ◌≡◌, ◌↔◌, ◌⊎◌, ◌≤◌, ◌<◌, refl, arith, List, [], ◌∷◌, ◌++◌, map, All, length, none,
  some, ok, err, if◌then◌else◌,
}
use gt06n_tcp_server.Protocol.{
  Gt06Message, login, location, on, off, invalid_payload, protocol_login, protocol_location,
}
use gt06n_tcp_server.Protocol.Format.{
  format_bytes_hex, decode_terminal_info_flags, resolve_acc_high,
}
use gt06n_tcp_server.Protocol.Format.Hex.{parse_hex, format_bytes_hex_reads_back}
use gt06n_tcp_server.Protocol.Format.Flags.{shows, decode_terminal_info_flags_shown}
use gt06n_tcp_server.Protocol.Decode.{decode_message, decode_bcd_imei}
use gt06n_tcp_server.Protocol.Decode.Imei.{
  pack_nibbles, to_char, IsDigit, IsBcd, decode_message-login, decode_bcd_imei_decimal,
}
use gt06n_tcp_server.Protocol.Decode.Total.{min_payload, decode_message_total}
use gt06n_tcp_server.Protocol.Decode.Location.{
  location_payload, course_word, decode_message-location,
}
use gt06n_tcp_server.Tests.Data.{exprs, Expr, lit, minus, quotient, imei_bytes, login_frame}
use Prim.Native.String.{String}

abbrev digits : List ℕ
digits = 1 ∷ 2 ∷ 3 ∷ 4 ∷ 5 ∷ 6 ∷ 7 ∷ 8 ∷ 9 ∷ 0 ∷ 1 ∷ 2 ∷ 3 ∷ 4 ∷ 5 ∷ []

decode_message-login_example :
    decode_message exprs (record {
      protocol_number = protocol_login;
      payload = pack_nibbles (0 ∷ digits) ++ (0xAB ∷ []);
      serial = 1;
    })
    ≡ ok (login (record { imei = map to_char digits; extra_data = 0xAB ∷ [] }))
decode_message-login_example = decode_message-login exprs digits (0xAB ∷ []) 1 refl (omega arith)

decode_bcd_imei_decimal_example :
    ((length (decode_bcd_imei imei_bytes) ≡ 15) ⊎ (length (decode_bcd_imei imei_bytes) ≡ 16))
    × (All IsDigit (decode_bcd_imei imei_bytes) ↔ All IsBcd imei_bytes)
decode_bcd_imei_decimal_example = decode_bcd_imei_decimal imei_bytes (omega arith) refl

decode_message_total_example :
    (min_payload login_frame.protocol_number ≤ length login_frame.payload
      → (m : Gt06Message Expr) × (decode_message exprs login_frame ≡ ok m))
    × (length login_frame.payload < min_payload login_frame.protocol_number
        → (why : String) × (decode_message exprs login_frame
            ≡ err (invalid_payload login_frame.protocol_number why)))
decode_message_total_example = decode_message_total exprs login_frame

-- The 24th of May 2023 near Jakarta: 6.2 degrees south, 106.8 degrees east.
decode_message-location_example :
    decode_message exprs (record {
      protocol_number = protocol_location;
      payload = location_payload exprs 23 5 24 10 30 15 12 9 11160000 192240000 40 280 1 0 4;
      serial = 3;
    })
    ≡ ok (
        location (record {
          timestamp = record {
            year = 2023;
            month = 5;
            day = 24;
            hour = 10;
            minute = 30;
            second = 15;
          };
          gps_info_length = 12;
          satellite_count = 9;
          latitude = minus (quotient (lit 11160000) (lit 1800000));
          longitude = quotient (lit 192240000) (lit 1800000);
          speed_kph = 40;
          course = 280;
          course_status = course_word exprs 23 5 24 10 30 15 12 9 11160000 192240000 40 280 1 0 4;
          extra_data = [];
        }))
decode_message-location_example =
    decode_message-location exprs 23 5 24 10 30 15 12 9 11160000 192240000 40 280 1 0 4 3
      (omega arith)

format_bytes_hex_reads_back_example :
    (parse_hex (format_bytes_hex imei_bytes) ≡ imei_bytes)
    × (length (format_bytes_hex imei_bytes) ≡ 3 * length imei_bytes - 1)
format_bytes_hex_reads_back_example = format_bytes_hex_reads_back imei_bytes (omega arith)

decode_terminal_info_flags_shown_example :
    let flags = decode_terminal_info_flags 0x46 in
    (flags.gps_tracking_on ≡ shows 0x46 7)
    × (flags.bit_1_guess ≡ shows 0x46 6)
    × (resolve_acc_high flags.acc_high none ≡ some (shows 0x46 5))
    × (flags.bit_3_guess ≡ shows 0x46 4)
    × (flags.bit_4_guess ≡ shows 0x46 3)
    × (flags.vibration_detected ≡ shows 0x46 1)
    × (flags.engine_status_guess ≡ (if shows 0x46 5 then on else off))
decode_terminal_info_flags_shown_example = decode_terminal_info_flags_shown 0x46 none (omega arith)

-- ===== src/Protocol/Format.antt =====
-- src/protocol.rs: bytes as text (`format_bytes_hex`, `format_byte_bits`) and the flags of a
-- heartbeat's terminal information byte.
pub mod Hex
pub mod Flags
use gt06n_tcp_server.Prelude.{
  ℕ, zero, suc, ◌+◌, ◌-◌, ◌/◌, ◌%◌, List, [], ◌∷◌, ◌++◌, Bool, not, leb, ◌==◌, if◌then◌else◌,
  Option, none, some,
}
use gt06n_tcp_server.Protocol.{TerminalInfoFlags, EngineStatus, on, off, unknown}
use Prim.Native.Nat.{bit_and}

-- `0..=9` and `10..=15`; the arm for more is unreachable.
nibble_to_hex : ℕ → ℕ
nibble_to_hex nibble = if leb nibble 9 then b'0' + nibble else b'A' + (nibble - 10)

hex_byte : ℕ → List ℕ
unfolding nibble_to_hex
hex_byte byte = nibble_to_hex (byte / 16) ∷ nibble_to_hex (bit_and byte 0x0F) ∷ []

-- The bytes behind the first one: each is led by a space.
format_rest : List ℕ → List ℕ
unfolding hex_byte
format_rest [] = []
format_rest (byte ∷ rest) = b' ' ∷ (hex_byte byte ++ format_rest rest)

unfoldable pub format_bytes_hex : List ℕ → List ℕ
unfolding format_rest
format_bytes_hex [] = []
format_bytes_hex (byte ∷ rest) = hex_byte byte ++ format_rest rest

-- The `n` lowest binary digits, highest first.
binary_digits : ℕ → ℕ → List ℕ
binary_digits zero byte = []
binary_digits (suc n) byte = binary_digits n (byte / 2) ++ ((b'0' + byte % 2) ∷ [])

-- `{byte:08b}`
unfoldable pub format_byte_bits : ℕ → List ℕ
unfolding binary_digits
format_byte_bits byte = binary_digits 8 byte

unfoldable pub resolve_acc_high : Option Bool → Option Bool → Option Bool
resolve_acc_high (some current) previous = some current
resolve_acc_high none previous = previous

unfoldable pub resolve_engine_status_guess : Option Bool → EngineStatus
resolve_engine_status_guess (some Bool.true) = on
resolve_engine_status_guess (some Bool.false) = off
resolve_engine_status_guess none = unknown

unfoldable pub decode_terminal_info_flags : ℕ → TerminalInfoFlags
unfolding resolve_engine_status_guess format_byte_bits
decode_terminal_info_flags raw =
    let acc_high : Option Bool = some (not (bit_and raw 0x04 == 0)) in
    record {
      raw = raw;
      binary = format_byte_bits raw;
      gps_tracking_on = not (bit_and raw 0x01 == 0);
      bit_1_guess = not (bit_and raw 0x02 == 0);
      acc_high = acc_high;
      bit_3_guess = not (bit_and raw 0x08 == 0);
      bit_4_guess = not (bit_and raw 0x10 == 0);
      vibration_detected = not (bit_and raw 0x40 == 0);
      engine_status_guess = resolve_engine_status_guess acc_high;
    }

-- ===== src/Protocol/Framing.antt =====
-- src/protocol.rs: `FrameDecoder::next_frame`, which cuts one frame off a receive buffer, and
-- `encode_ack`, which builds the reply. The buffer is a list of bytes, and the decoder returns what
-- is left of it beside its result.
pub mod Shape
pub mod View
pub mod Stream
pub mod RoundTrip
pub mod Sound
pub mod Progress
pub mod Corruption
use gt06n_tcp_server.Prelude.{
  ℕ, ◌+◌, ◌-◌, ◌*◌, ◌/◌, ◌%◌, List, [], ◌∷◌, ◌++◌, Bool, true, false, ◌&&◌, not, ltb, ◌==◌,
  if◌then◌else◌, length, get_or, take, drop, slice, Option, none, some, Result, ok, err,
}
use gt06n_tcp_server.Protocol.{
  Frame, ProtocolError, invalid_length, invalid_stop_bytes, checksum_mismatch, start_bytes,
  stop_bytes,
}
use gt06n_tcp_server.Protocol.Crc.{crc16_x25}

abbrev pub bytes_eq : List ℕ → List ℕ → Bool
bytes_eq [] [] = true
bytes_eq [] (y ∷ ys) = false
bytes_eq (x ∷ xs) [] = false
bytes_eq (x ∷ xs) (y ∷ ys) = x == y && bytes_eq xs ys

-- `u16::from_be_bytes` and `to_be_bytes`
abbrev pub from_be_bytes : ℕ → ℕ → ℕ
from_be_bytes hi lo = hi * 256 + lo

abbrev pub to_be_bytes : ℕ → List ℕ
to_be_bytes n = n / 256 ∷ n % 256 ∷ []

abbrev pub Decoded : Type 0
Decoded = Result ProtocolError (Option Frame) × List ℕ

-- The body of `next_frame` once the buffer begins with the start bytes. An index is `get_or _ _ 0`;
-- each is behind the test of the length that makes it defined.
pub frame_at_start : List ℕ → Decoded
frame_at_start buffer =
    if ltb (length buffer) 5
    then (ok none, buffer)
    else let len = get_or buffer 2 0 in
      if ltb len 5
      then (err (invalid_length len), drop 1 buffer)
      else let total_frame_len = len + 5 in
        if ltb (length buffer) total_frame_len
        then (ok none, buffer)
        else if not (bytes_eq (slice (total_frame_len - 2) total_frame_len buffer) stop_bytes)
        then (err invalid_stop_bytes, drop 1 buffer)
        else let crc_index = total_frame_len - 4 in
          let calculated_crc = crc16_x25 (slice 2 crc_index buffer) in
          let reported_crc =
            from_be_bytes (get_or buffer crc_index 0) (get_or buffer (crc_index + 1) 0) in
          if not (calculated_crc == reported_crc)
          then (err checksum_mismatch, drop 1 buffer)
          else let frame_bytes = take total_frame_len buffer in
            let payload_start : ℕ = 4 in
            let payload_end = payload_start + (len - 5) in
            (
              ok (
                  some (record {
                    protocol_number = get_or frame_bytes 3 0;
                    payload = slice payload_start payload_end frame_bytes;
                    serial =
                        from_be_bytes (get_or frame_bytes payload_end 0)
                          (get_or frame_bytes (payload_end + 1) 0);
                  })),
              drop total_frame_len buffer,
            )

-- The loop: `buffer.advance(1); continue` is the recursive call.
unfoldable pub next_frame : List ℕ → Decoded
unfolding frame_at_start
next_frame [] = (ok none, [])
next_frame (a ∷ []) = (ok none, a ∷ [])
next_frame (a ∷ b ∷ rest) =
    let advanced = next_frame (b ∷ rest) in
    if bytes_eq (a ∷ b ∷ []) start_bytes then frame_at_start (a ∷ b ∷ rest) else advanced

unfoldable pub encode_ack : ℕ → ℕ → List ℕ
encode_ack protocol_number serial =
    let content = 0x05 ∷ protocol_number ∷ to_be_bytes serial in
    start_bytes ++ (content ++ (to_be_bytes (crc16_x25 content) ++ stop_bytes))

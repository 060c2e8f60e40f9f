-- ===== src/Tests/Frames.antt =====
-- The theorems on frames at concrete bytes.
use gt06n_tcp_server.Prelude.{
  ℕ, ◌≡◌, ◌≢◌, ◌≤◌, ◌<◌, refl, arith, List, [], ◌∷◌, ◌++◌, All, drop, length, Option, none, some,
  Result, ok, err,
}
use gt06n_tcp_server.Protocol.{Frame, IsByte, ProtocolError, checksum_mismatch}
use gt06n_tcp_server.Protocol.Crc.{crc16_x25}
use gt06n_tcp_server.Protocol.Crc.Detection.{crc16_x25_altered}
use gt06n_tcp_server.Protocol.Framing.{next_frame, encode_ack}
use gt06n_tcp_server.Protocol.Framing.Stream.{next_frame-append, next_frame-append_none}
use gt06n_tcp_server.Protocol.Framing.RoundTrip.{build_frame, next_frame-build_frame_after_noise}
use gt06n_tcp_server.Protocol.Framing.Sound.{next_frame_sound}
use gt06n_tcp_server.Protocol.Framing.Progress.{next_frame_shrinks, next_frame_waiting_bound}
use gt06n_tcp_server.Protocol.Framing.Corruption.{frame_with_crc, crc_of, next_frame_altered}
use gt06n_tcp_server.Tests.Data.{login_frame, imei_bytes}

-- The acknowledgement of a login, as the protocol's documents give it.
ack_login :
    encode_ack 0x01 1 ≡ 0x78 ∷ 0x78 ∷ 0x05 ∷ 0x01 ∷ 0x00 ∷ 0x01 ∷ 0xD9 ∷ 0xDC ∷ 0x0D ∷ 0x0A ∷ []
unfolding encode_ack crc16_x25
ack_login = refl

-- A login on the wire, behind a byte of noise and in front of the beginning of a frame.
abbrev login_bytes : List ℕ
login_bytes =
    120 ∷ 120 ∷ 13 ∷ 1 ∷ 1 ∷ 35 ∷ 69 ∷ 103 ∷ 137 ∷ 1 ∷ 35 ∷ 69 ∷ 0 ∷ 1 ∷ 140 ∷ 221 ∷ 13 ∷ 10 ∷ []

abbrev received : List ℕ
received = 0xFF ∷ (login_bytes ++ (0x78 ∷ []))

abbrev behind : List ℕ
behind = 0x78 ∷ []

abbrev found : Result ProtocolError (Option Frame)
found = ok (some login_frame)

abbrev half : List ℕ
half = 0x78 ∷ 0x78 ∷ 13 ∷ []

received_frame : next_frame received ≡ (ok (some login_frame), 0x78 ∷ [])
unfolding next_frame crc16_x25
received_frame = refl

half_frame : next_frame (0xFF ∷ 0x78 ∷ 0x78 ∷ 13 ∷ []) ≡ (ok none, 0x78 ∷ 0x78 ∷ 13 ∷ [])
unfolding next_frame
half_frame = refl

received-IsByte : All IsByte received
received-IsByte = omega arith

next_frame_sound_example :
    (skipped : List ℕ) × (received ≡ skipped ++ (build_frame 1 imei_bytes 1 ++ (0x78 ∷ [])))
    × (length imei_bytes ≤ 250)
next_frame_sound_example =
    next_frame_sound received login_frame (0x78 ∷ []) received-IsByte received_frame

next_frame-append_example :
    next_frame (received ++ (0x78 ∷ 5 ∷ []))
    ≡ (ok (some login_frame), (0x78 ∷ []) ++ (0x78 ∷ 5 ∷ []))
next_frame-append_example =
    next_frame-append received (0x78 ∷ 5 ∷ []) (ok (some login_frame)) (0x78 ∷ []) (λ e. cc)
      received_frame

next_frame-append_none_example :
    next_frame ((0xFF ∷ 0x78 ∷ 0x78 ∷ 13 ∷ []) ++ (1 ∷ []))
    ≡ next_frame ((0x78 ∷ 0x78 ∷ 13 ∷ []) ++ (1 ∷ []))
next_frame-append_none_example =
    next_frame-append_none (0xFF ∷ 0x78 ∷ 0x78 ∷ 13 ∷ []) (1 ∷ []) (0x78 ∷ 0x78 ∷ 13 ∷ [])
      half_frame

next_frame_shrinks_example :
    (length behind ≤ length received) × (found ≢ ok none → length behind < length received)
next_frame_shrinks_example =
    next_frame_shrinks received (ok (some login_frame)) (0x78 ∷ []) received_frame

next_frame_waiting_bound_example : length half < 260
next_frame_waiting_bound_example =
    next_frame_waiting_bound (0xFF ∷ 0x78 ∷ 0x78 ∷ 13 ∷ []) (0x78 ∷ 0x78 ∷ 13 ∷ []) (omega arith)
      half_frame

next_frame-build_frame_after_noise_example :
    next_frame ((0x0D ∷ 0x0A ∷ []) ++ (build_frame 0x01 imei_bytes 1 ++ (0x78 ∷ [])))
    ≡ (ok (some login_frame), 0x78 ∷ [])
next_frame-build_frame_after_noise_example =
    next_frame-build_frame_after_noise (0x0D ∷ 0x0A ∷ []) 0x01 imei_bytes 1 (0x78 ∷ [])
      (omega arith) (omega arith)

crc16_x25_altered_example :
    (crc16_x25 (0x05 ∷ 0x01 ∷ 0x00 ∷ []) < 65536)
    × (crc16_x25 (0x05 ∷ 0x01 ∷ 0x00 ∷ []) ≢ crc16_x25 (0x05 ∷ 0x11 ∷ 0x00 ∷ []))
crc16_x25_altered_example =
    crc16_x25_altered (0x05 ∷ []) 0x01 0x11 (0x00 ∷ []) (omega arith) (omega arith) (omega arith)
      (omega arith) (omega arith)

next_frame_altered_example :
    let altered =
      frame_with_crc 0x13 (0x44 ∷ 0x11 ∷ 0x04 ∷ []) 2 (crc_of 0x13 (0x44 ∷ 0x01 ∷ 0x04 ∷ []) 2) in
    next_frame (altered ++ []) ≡ (err checksum_mismatch, drop 1 (altered ++ []))
next_frame_altered_example =
    next_frame_altered 0x13 (0x44 ∷ []) 0x01 0x11 (0x04 ∷ []) 2 [] (omega arith) (omega arith)
      (omega arith) (omega arith) (omega arith) (omega arith) (omega arith) (omega arith)

-- ===== src/Protocol/Framing/RoundTrip.antt =====
-- Frames as devices build them (`build_frame` of the tests in src/protocol.rs) against
-- `next_frame`: what is built is read back.
use gt06n_tcp_server.Prelude.{
  ℕ, ◌+◌, ◌%◌, ◌/◌, ◌≤◌, ◌≡◌, ◌≢◌, refl, sym, ap, ◌∙◌, arith, List, [], ◌∷◌, ◌++◌, append_assoc, ok,
  some, length, All,
}
use gt06n_tcp_server.Protocol.{start_bytes, stop_bytes}
use gt06n_tcp_server.Protocol.Crc.{crc16_x25}
use gt06n_tcp_server.Protocol.Framing.{to_be_bytes, next_frame, encode_ack}
use gt06n_tcp_server.Protocol.Framing.Shape.{one_frame, verdict, covered, frame_at_start-one_frame}
use gt06n_tcp_server.Protocol.Framing.Stream.{next_frame_at_start, next_frame_advance}

-- `length as u8` is the remainder.
unfoldable pub build_frame : ℕ → List ℕ → ℕ → List ℕ
build_frame protocol_number payload serial =
    let len = length payload + 5 in
    let content = len % 256 ∷ protocol_number ∷ (payload ++ to_be_bytes serial) in
    start_bytes ++ (content ++ (to_be_bytes (crc16_x25 content) ++ stop_bytes))

-- Acknowledgements are frames with an empty payload.
pub encode_ack-build_frame : (p serial : ℕ) → encode_ack p serial ≡ build_frame p [] serial
unfolding encode_ack build_frame
encode_ack-build_frame p serial = refl

pub build_frame-one_frame :
    (p : ℕ) (payload : List ℕ) (serial : ℕ) (rest : List ℕ)
    → length payload ≤ 250
    → let len = length payload + 5 in
      let crc = crc16_x25 (covered len p payload (serial / 256) (serial % 256)) in
      build_frame p payload serial ++ rest
      ≡ one_frame 0x78 0x78 len p payload
          (serial / 256)
          (serial % 256)
          (crc / 256)
          (crc % 256)
          0x0D
          0x0A
          rest
unfolding build_frame
build_frame-one_frame p payload serial rest h =
    let e : (length payload + 5) % 256 ≡ length payload + 5 = omega arith in
    rw e (simp append_assoc)

build_frame-verdict :
    (p : ℕ) (payload : List ℕ) (serial : ℕ) (rest : List ℕ)
    → let len = length payload + 5 in
      let crc = crc16_x25 (covered len p payload (serial / 256) (serial % 256)) in
      verdict 0x78 0x78 len p payload
        (serial / 256)
        (serial % 256)
        (crc / 256)
        (crc % 256)
        0x0D
        0x0A
        rest
      ≡ (ok (some (record { protocol_number = p; payload = payload; serial = serial })), rest)
build_frame-verdict p payload serial rest = ground arith

-- `next_frame` reads back any frame whose payload fits the length byte, and leaves what follows.
pub next_frame-build_frame :
    (p : ℕ) (payload : List ℕ) (serial : ℕ) (rest : List ℕ)
    → length payload ≤ 250
    → next_frame (build_frame p payload serial ++ rest)
      ≡ (ok (some (record { protocol_number = p; payload = payload; serial = serial })), rest)
next_frame-build_frame p payload serial rest h =
    ap next_frame (build_frame-one_frame p payload serial rest h)
    ∙ next_frame_at_start 0x78 0x78 _ refl
    ∙ frame_at_start-one_frame 0x78 0x78 _ p payload _ _ _ _ _ _ rest refl
    ∙ build_frame-verdict p payload serial rest

-- Bytes without a start byte are passed over.
pub next_frame_noise :
    (noise rest : List ℕ)
    → All (λ b. b ≢ 0x78) noise
    → next_frame (noise ++ (0x78 ∷ rest)) ≡ next_frame (0x78 ∷ rest)
next_frame_noise [] rest h = refl
next_frame_noise (a ∷ []) rest (ha, h) = next_frame_advance a 0x78 rest (ground arith)
next_frame_noise (a ∷ b ∷ noise) rest (ha, h) =
    next_frame_advance a b (noise ++ (0x78 ∷ rest)) (ground arith)
    ∙ next_frame_noise (b ∷ noise) rest h

-- After any line noise that holds no start byte, `next_frame` still finds the frame.
pub next_frame-build_frame_after_noise :
    (noise : List ℕ) (p : ℕ) (payload : List ℕ) (serial : ℕ) (rest : List ℕ)
    → All (λ b. b ≢ 0x78) noise
    → length payload ≤ 250
    → next_frame (noise ++ (build_frame p payload serial ++ rest))
      ≡ (ok (some (record { protocol_number = p; payload = payload; serial = serial })), rest)
next_frame-build_frame_after_noise noise p payload serial rest quiet h =
    let e = build_frame-one_frame p payload serial rest h in
    ap (λ t. next_frame (noise ++ t)) e
    ∙ next_frame_noise noise _ quiet
    ∙ ap next_frame (sym e)
    ∙ next_frame-build_frame p payload serial rest h

-- ===== src/Protocol/Framing/Corruption.antt =====
-- What `next_frame` (src/protocol.rs) does with a frame one payload byte of which was altered on
-- the way.
use gt06n_tcp_server.Prelude.{
  ℕ, ◌+◌, ◌/◌, ◌%◌, ◌≤◌, ◌<◌, ◌≡◌, ◌≢◌, refl, sym, ap, ◌∙◌, arith, List, ◌∷◌, ◌++◌, append_assoc,
  err, drop, length, length-append, All, All-append,
}
use gt06n_tcp_server.Protocol.{checksum_mismatch, start_bytes, stop_bytes, IsByte}
use gt06n_tcp_server.Protocol.Crc.{crc16_x25}
use gt06n_tcp_server.Protocol.Crc.Detection.{crc16_x25_altered}
use gt06n_tcp_server.Protocol.Framing.{to_be_bytes, next_frame}
use gt06n_tcp_server.Protocol.Framing.Shape.{one_frame, verdict, frame_at_start-one_frame}
use gt06n_tcp_server.Protocol.Framing.Stream.{next_frame_at_start}

-- A frame that carries the checksum `crc`, right or wrong.
abbrev pub frame_with_crc : ℕ → List ℕ → ℕ → ℕ → List ℕ
frame_with_crc p payload serial crc =
    let content = (length payload + 5) % 256 ∷ p ∷ (payload ++ to_be_bytes serial) in
    start_bytes ++ (content ++ (to_be_bytes crc ++ stop_bytes))

-- The checksum of the frame that was sent.
abbrev pub crc_of : ℕ → List ℕ → ℕ → ℕ
crc_of p payload serial =
    crc16_x25 ((length payload + 5) % 256 ∷ p ∷ (payload ++ to_be_bytes serial))

frame_with_crc-one_frame :
    (p : ℕ) (payload : List ℕ) (serial crc : ℕ) (rest : List ℕ)
    → length payload ≤ 250
    → frame_with_crc p payload serial crc ++ rest
      ≡ one_frame 0x78 0x78
          (length payload + 5)
          p
          payload
          (serial / 256)
          (serial % 256)
          (crc / 256)
          (crc % 256)
          0x0D
          0x0A
          rest
frame_with_crc-one_frame p payload serial crc rest h =
    let e : (length payload + 5) % 256 ≡ length payload + 5 = omega arith in
    rw e (simp append_assoc)

-- With a checksum that is not the one of its content, a frame is refused.
next_frame_wrong_crc :
    (p : ℕ) (payload : List ℕ) (serial crc : ℕ) (rest : List ℕ)
    → length payload ≤ 250
    → crc_of p payload serial ≢ crc
    → next_frame (frame_with_crc p payload serial crc ++ rest)
      ≡ (err checksum_mismatch, drop 1 (frame_with_crc p payload serial crc ++ rest))
next_frame_wrong_crc p payload serial crc rest h wrong =
    let e = frame_with_crc-one_frame p payload serial crc rest h in
    let small : (length payload + 5) % 256 ≡ length payload + 5 = omega arith in
    ap next_frame e
    ∙ next_frame_at_start 0x78 0x78 _ refl
    ∙ frame_at_start-one_frame 0x78 0x78 _ p payload _ _ _ _ _ _ rest refl
    ∙ rejected small
    ∙ ap (λ t. (err checksum_mismatch, drop 1 t)) (sym e)
  where
    rejected :
        (length payload + 5) % 256 ≡ length payload + 5
        → verdict 0x78 0x78
            (length payload + 5)
            p
            payload
            (serial / 256)
            (serial % 256)
            (crc / 256)
            (crc % 256)
            0x0D
            0x0A
            rest
          ≡ (
            err checksum_mismatch,
            drop 1 (
                one_frame 0x78 0x78
                  (length payload + 5)
                  p
                  payload
                  (serial / 256)
                  (serial % 256)
                  (crc / 256)
                  (crc % 256)
                  0x0D
                  0x0A
                  rest),
          )
    rejected small = ground arith

-- A frame in which one payload byte was altered is refused with a checksum error, one byte of the
-- buffer is dropped, and nothing is delivered.
pub next_frame_altered :
    (p : ℕ) (front : List ℕ) (x y : ℕ) (back : List ℕ) (serial : ℕ) (rest : List ℕ)
    → IsByte p
    → All IsByte front
    → x < 256
    → y < 256
    → All IsByte back
    → serial < 65536
    → length (front ++ (y ∷ back)) ≤ 250
    → x ≢ y
    → let altered =
        frame_with_crc p (front ++ (y ∷ back)) serial (crc_of p (front ++ (x ∷ back)) serial) in
      next_frame (altered ++ rest) ≡ (err checksum_mismatch, drop 1 (altered ++ rest))
next_frame_altered p front x y back serial rest hp hf hx hy hb hs fits d =
    next_frame_wrong_crc p (front ++ (y ∷ back)) serial _ rest fits (λ e. differs (sym e))
  where
    len : ℕ
    len = (length (front ++ (y ∷ back)) + 5) % 256

    tail : List ℕ
    tail = back ++ to_be_bytes serial

    covers :
        (z : ℕ)
        → (length (front ++ (z ∷ back)) + 5) % 256
            ∷ p
            ∷ ((front ++ (z ∷ back)) ++ to_be_bytes serial)
          ≡ (len ∷ p ∷ front) ++ (z ∷ tail)
    covers z =
        let same : (length (front ++ (z ∷ back)) + 5) % 256 ≡ len =
          omega (arith, length-append front (z ∷ back), length-append front (y ∷ back)) in
        rw (same, append_assoc front (z ∷ back) (to_be_bytes serial)) refl

    differs : crc_of p (front ++ (x ∷ back)) serial ≢ crc_of p (front ++ (y ∷ back)) serial
    differs e =
        (crc16_x25_altered (len ∷ p ∷ front) x y tail (omega arith, (hp, hf)) hx hy
            (All-append IsByte back _ hb (omega arith, (omega arith, tt))) d).1
          (ap crc16_x25 (sym (covers x)) ∙ e ∙ ap crc16_x25 (covers y))

-- ===== src/Protocol/Framing/Sound.antt =====
-- The frames that `next_frame` (src/protocol.rs) yields are frames as devices build them.
use gt06n_tcp_server.Prelude.{
  ℕ, ◌+◌, ◌≤◌, ◌<◌, ◌≡◌, sym, ap, subst, ◌∙◌, arith, List, [], ◌∷◌, ◌++◌, Bool-cases, inl, inr, ok,
  some, true, length, All, All-append_right,
}
use gt06n_tcp_server.Protocol.{Frame, IsByte}
use gt06n_tcp_server.Protocol.Crc.{crc16_x25}
use gt06n_tcp_server.Protocol.Framing.{from_be_bytes, frame_at_start, next_frame}
use gt06n_tcp_server.Protocol.Framing.Shape.{one_frame, verdict, covered, frame_at_start-one_frame}
use gt06n_tcp_server.Protocol.Framing.View.{
  waits, bad_length, whole, reading, frame_at_start_bad_length,
}
use gt06n_tcp_server.Protocol.Framing.Stream.{
  starts, next_frame-nil, next_frame-singleton, next_frame_at_start, next_frame_advance,
}
use gt06n_tcp_server.Protocol.Framing.RoundTrip.{build_frame, build_frame-one_frame}

module _ (a b len p : ℕ) (payload : List ℕ) (s₁ s₂ c₁ c₂ e₁ e₂ : ℕ) (rest : List ℕ) where
  verdict_frame :
      (f : Frame) (r : List ℕ)
      → verdict a b len p payload s₁ s₂ c₁ c₂ e₁ e₂ rest ≡ (ok (some f), r)
      → (e₁ ≡ 0x0D)
        × (e₂ ≡ 0x0A)
        × (crc16_x25 (covered len p payload s₁ s₂) ≡ from_be_bytes c₁ c₂)
        × (f ≡ record { protocol_number = p; payload = payload; serial = from_be_bytes s₁ s₂ })
        × (r ≡ rest)
  verdict_frame f r h = ground arith

  one_frame_bytes :
      All IsByte (one_frame a b len p payload s₁ s₂ c₁ c₂ e₁ e₂ rest)
      → (len < 256) × (s₂ < 256) × (c₂ < 256)
  one_frame_bytes (_, (_, (hl, (_, t)))) =
      let (_, (h₂, (_, (k₂, _)))) =
        All-append_right IsByte payload (s₁ ∷ s₂ ∷ c₁ ∷ c₂ ∷ e₁ ∷ e₂ ∷ rest) t in
      (hl, h₂, k₂)

  one_frame_rebuilt :
      len ≡ length payload + 5
      → len < 256
      → s₂ < 256
      → c₂ < 256
      → crc16_x25 (covered len p payload s₁ s₂) ≡ from_be_bytes c₁ c₂
      → one_frame 0x78 0x78 len p payload s₁ s₂ c₁ c₂ 0x0D 0x0A rest
        ≡ build_frame p payload (from_be_bytes s₁ s₂) ++ rest
  one_frame_rebuilt fits hl h₂ k₂ crc =
      ground (arith, build_frame-one_frame p payload (from_be_bytes s₁ s₂) rest (omega arith))

  one_frame-build_frame :
      (f : Frame) (r : List ℕ)
      → (a ≡ 0x78) × (b ≡ 0x78)
      → len ≡ length payload + 5
      → All IsByte (one_frame a b len p payload s₁ s₂ c₁ c₂ e₁ e₂ rest)
      → verdict a b len p payload s₁ s₂ c₁ c₂ e₁ e₂ rest ≡ (ok (some f), r)
      → (one_frame a b len p payload s₁ s₂ c₁ c₂ e₁ e₂ rest
          ≡ build_frame f.protocol_number f.payload f.serial ++ r)
        × (length f.payload ≤ 250)
  one_frame-build_frame f r s fits bytes h =
      let (stop_hi, stop_lo, crc, ef, er) = verdict_frame f r h in
      let (hl, h₂, k₂) = one_frame_bytes bytes in
      ground (arith, one_frame_rebuilt fits hl h₂ k₂ crc)

abbrev Rebuilds : Frame → List ℕ → List ℕ → Type 0
Rebuilds f r buffer =
    (buffer ≡ build_frame f.protocol_number f.payload f.serial ++ r) × (length f.payload ≤ 250)

frame_at_start-build_frame :
    (a b : ℕ) (tail : List ℕ) (f : Frame) (r : List ℕ)
    → starts a b ≡ true
    → All IsByte (a ∷ b ∷ tail)
    → frame_at_start (a ∷ b ∷ tail) ≡ (ok (some f), r)
    → Rebuilds f r (a ∷ b ∷ tail)
frame_at_start-build_frame a b tail f r s bytes h = elim (reading (a ∷ b ∷ tail)) [
  | waits e _ ↦ cc
  | bad_length a' b' len p q rest e small ↦
      cc (frame_at_start_bad_length a' b' len p q rest small, ap frame_at_start e)
  | whole a' b' len p payload s₁ s₂ c₁ c₂ e₁ e₂ rest fits e ↦ subst (Rebuilds f r) (sym e) (
      one_frame-build_frame a' b' len p payload s₁ s₂ c₁ c₂ e₁ e₂ rest f r (ground (arith, e)) fits
        (subst (All IsByte) e bytes)
        (sym (
            ap frame_at_start e
            ∙ frame_at_start-one_frame a' b' len p payload s₁ s₂ c₁ c₂ e₁ e₂ rest fits)
          ∙ h))
]

-- Whatever bytes arrive, a frame that `next_frame` yields lay in the buffer exactly as a device
-- would have built it, after some skipped bytes and before what remains: no frame is made up.
pub next_frame_sound :
    (buffer : List ℕ) (f : Frame) (r : List ℕ)
    → All IsByte buffer
    → next_frame buffer ≡ (ok (some f), r)
    → (skipped : List ℕ) × (buffer
        ≡ skipped ++ (build_frame f.protocol_number f.payload f.serial ++ r))
      × (length f.payload ≤ 250)
next_frame_sound [] f r bytes h = cc next_frame-nil
next_frame_sound (a ∷ []) f r bytes h = cc (next_frame-singleton a)
next_frame_sound (a ∷ b ∷ rest) f r (ha, bytes) h = elim (Bool-cases (starts a b)) [
  | inl s ↦
      let (e, k) =
        frame_at_start-build_frame a b rest f r s (ha, bytes)
          (sym (next_frame_at_start a b rest s) ∙ h) in
      ([], e, k)
  | inr s ↦
      let (skipped, e, k) =
        next_frame_sound (b ∷ rest) f r bytes (sym (next_frame_advance a b rest s) ∙ h) in
      (a ∷ skipped, ap (λ t. a ∷ t) e, k)
]

-- ===== src/Protocol/Framing/Shape.antt =====
-- What the body of `next_frame` (src/protocol.rs) answers on a buffer that holds one whole frame,
-- cut into its fields.
use gt06n_tcp_server.Prelude.{
  ℕ, ◌+◌, ◌-◌, ◌≡◌, refl, sym, ap, ◌∙◌, arith, List, [], ◌∷◌, ◌++◌, append_assoc, not, ltb-false,
  ◌==◌, if◌then◌else◌, length, length-append, get_or, take, drop, slice, take-eq, drop-eq,
  get_or-eq, slice-eq, some, ok, err,
}
use gt06n_tcp_server.Protocol.{invalid_stop_bytes, checksum_mismatch, stop_bytes}
use gt06n_tcp_server.Protocol.Crc.{crc16_x25}
use gt06n_tcp_server.Protocol.Framing.{Decoded, bytes_eq, from_be_bytes, frame_at_start}

-- The bytes that the checksum covers, as they lie in the buffer.
abbrev pub covered : ℕ → ℕ → List ℕ → ℕ → ℕ → List ℕ
covered len p payload s₁ s₂ = len ∷ p ∷ (payload ++ (s₁ ∷ s₂ ∷ []))

module _ (a b len p : ℕ) (payload : List ℕ) (s₁ s₂ c₁ c₂ e₁ e₂ : ℕ) (rest : List ℕ) where
  abbrev pub one_frame : List ℕ
  one_frame = a ∷ b ∷ len ∷ p ∷ (payload ++ (s₁ ∷ s₂ ∷ c₁ ∷ c₂ ∷ e₁ ∷ e₂ ∷ rest))

  -- The verdict on it.
  abbrev pub verdict : Decoded
  verdict =
      if not (bytes_eq (e₁ ∷ e₂ ∷ []) stop_bytes)
      then (err invalid_stop_bytes, drop 1 one_frame)
      else if not (crc16_x25 (covered len p payload s₁ s₂) == from_be_bytes c₁ c₂)
      then (err checksum_mismatch, drop 1 one_frame)
      else (
        ok (some (record { protocol_number = p; payload = payload; serial = from_be_bytes s₁ s₂ })),
        rest,
      )

  length-one_frame : length one_frame ≡ length payload + 10 + length rest
  length-one_frame = omega (arith, length-append payload (s₁ ∷ s₂ ∷ c₁ ∷ c₂ ∷ e₁ ∷ e₂ ∷ rest))

  -- The frame, cut before `tail`.
  cut :
      (head tail : List ℕ)
      → one_frame ≡ a ∷ b ∷ len ∷ p ∷ (payload ++ (head ++ tail))
      → one_frame ≡ (a ∷ b ∷ len ∷ p ∷ (payload ++ head)) ++ tail
  cut head tail e = e ∙ ap (λ t. a ∷ b ∷ len ∷ p ∷ t) (sym (append_assoc payload head tail))

  length_head :
      (head : List ℕ)
      → length (a ∷ b ∷ len ∷ p ∷ (payload ++ head)) ≡ length payload + 4 + length head
  length_head head = omega (arith, length-append payload head)

  module _ (fits : len ≡ length payload + 5) where
    stop_at : slice (len + 5 - 2) (len + 5) one_frame ≡ e₁ ∷ e₂ ∷ []
    stop_at =
        slice-eq _ _ one_frame (a ∷ b ∷ len ∷ p ∷ (payload ++ (s₁ ∷ s₂ ∷ c₁ ∷ c₂ ∷ [])))
          (e₁ ∷ e₂ ∷ []) rest (cut (s₁ ∷ s₂ ∷ c₁ ∷ c₂ ∷ []) (e₁ ∷ e₂ ∷ rest) refl)
          (omega (arith, length_head (s₁ ∷ s₂ ∷ c₁ ∷ c₂ ∷ []))) (omega arith)

    covered_at : slice 2 (len + 5 - 4) one_frame ≡ covered len p payload s₁ s₂
    covered_at =
        slice-eq _ _ one_frame (a ∷ b ∷ []) (covered len p payload s₁ s₂) (c₁ ∷ c₂ ∷ e₁ ∷ e₂ ∷ rest)
          (cut (s₁ ∷ s₂ ∷ []) (c₁ ∷ c₂ ∷ e₁ ∷ e₂ ∷ rest) refl) refl
          (omega (arith, length_head (s₁ ∷ s₂ ∷ [])))

    crc_hi : get_or one_frame (len + 5 - 4) 0 ≡ c₁
    crc_hi =
        get_or-eq _ one_frame (a ∷ b ∷ len ∷ p ∷ (payload ++ (s₁ ∷ s₂ ∷ []))) c₁
          (c₂ ∷ e₁ ∷ e₂ ∷ rest) 0 (cut (s₁ ∷ s₂ ∷ []) (c₁ ∷ c₂ ∷ e₁ ∷ e₂ ∷ rest) refl)
          (omega (arith, length_head (s₁ ∷ s₂ ∷ [])))

    crc_lo : get_or one_frame (len + 5 - 4 + 1) 0 ≡ c₂
    crc_lo =
        get_or-eq _ one_frame (a ∷ b ∷ len ∷ p ∷ (payload ++ (s₁ ∷ s₂ ∷ c₁ ∷ []))) c₂
          (e₁ ∷ e₂ ∷ rest) 0 (cut (s₁ ∷ s₂ ∷ c₁ ∷ []) (c₂ ∷ e₁ ∷ e₂ ∷ rest) refl)
          (omega (arith, length_head (s₁ ∷ s₂ ∷ c₁ ∷ [])))

    abbrev whole : List ℕ
    whole = a ∷ b ∷ len ∷ p ∷ (payload ++ (s₁ ∷ s₂ ∷ c₁ ∷ c₂ ∷ e₁ ∷ e₂ ∷ []))

    taken : take (len + 5) one_frame ≡ whole
    taken =
        take-eq _ one_frame whole rest (cut (s₁ ∷ s₂ ∷ c₁ ∷ c₂ ∷ e₁ ∷ e₂ ∷ []) rest refl)
          (omega (arith, length_head (s₁ ∷ s₂ ∷ c₁ ∷ c₂ ∷ e₁ ∷ e₂ ∷ [])))

    left : drop (len + 5) one_frame ≡ rest
    left =
        drop-eq _ one_frame whole rest (cut (s₁ ∷ s₂ ∷ c₁ ∷ c₂ ∷ e₁ ∷ e₂ ∷ []) rest refl)
          (omega (arith, length_head (s₁ ∷ s₂ ∷ c₁ ∷ c₂ ∷ e₁ ∷ e₂ ∷ [])))

    payload_at : slice 4 (4 + (len - 5)) whole ≡ payload
    payload_at =
        slice-eq _ _ whole (a ∷ b ∷ len ∷ p ∷ []) payload (s₁ ∷ s₂ ∷ c₁ ∷ c₂ ∷ e₁ ∷ e₂ ∷ []) refl
          refl (omega arith)

    serial_hi : get_or whole (4 + (len - 5)) 0 ≡ s₁
    serial_hi =
        get_or-eq _ whole (a ∷ b ∷ len ∷ p ∷ payload) s₁ (s₂ ∷ c₁ ∷ c₂ ∷ e₁ ∷ e₂ ∷ []) 0 refl
          (omega arith)

    serial_lo : get_or whole (4 + (len - 5) + 1) 0 ≡ s₂
    serial_lo =
        get_or-eq _ whole (a ∷ b ∷ len ∷ p ∷ (payload ++ (s₁ ∷ []))) s₂ (c₁ ∷ c₂ ∷ e₁ ∷ e₂ ∷ []) 0
          (ap (λ t. a ∷ b ∷ len ∷ p ∷ t)
            (sym (append_assoc payload (s₁ ∷ []) (s₂ ∷ c₁ ∷ c₂ ∷ e₁ ∷ e₂ ∷ []))))
          (omega (arith, length_head (s₁ ∷ [])))

    pub frame_at_start-one_frame : frame_at_start one_frame ≡ verdict
    unfolding frame_at_start
    frame_at_start-one_frame =
        rw
          (
            ltb-false (length one_frame) 5 (omega (arith, length-one_frame)),
            ltb-false len 5 (omega arith),
            ltb-false (length one_frame) (len + 5) (omega (arith, length-one_frame)),
            stop_at,
            covered_at,
            crc_hi,
            crc_lo,
            taken,
            left,
            payload_at,
            serial_hi,
            serial_lo,
          )
          refl

-- ===== src/Protocol/Format/Flags.antt =====
-- `decode_terminal_info_flags` (src/protocol.rs) against its binary text.
use gt06n_tcp_server.Prelude.{
  ℕ, ◌<◌, ◌≡◌, refl, ap, ◌∙◌, arith, Bool, true, false, ◌&&◌, not, ◌==◌, get_or, Option, none, some,
  if◌then◌else◌,
}
use gt06n_tcp_server.Prelude.Bits.{passes_below, passes_below_at}
use gt06n_tcp_server.Protocol.{on, off}
use gt06n_tcp_server.Protocol.Format.{
  resolve_acc_high, resolve_engine_status_guess, decode_terminal_info_flags,
}

-- The flag that the character at place `i` of the binary text stands for.
abbrev pub shows : ℕ → ℕ → Bool
shows raw i = get_or (decode_terminal_info_flags raw).binary i b'0' == b'1'

same : Bool → Bool → Bool
same true b = b
same false b = not b

same→eq : (a b : Bool) → same a b ≡ true → a ≡ b
unfolding same
same→eq a b h = ground arith

both : (a b : Bool) → (a && b) ≡ true → (a ≡ true) × (b ≡ true)
both a b h = ground arith

status_shown : (b : Bool) → resolve_engine_status_guess (some b) ≡ (if b then on else off)
unfolding resolve_engine_status_guess
status_shown true = refl
status_shown false = refl

abbrev acc_flag : Option Bool → Bool
acc_flag (some b) = b
acc_flag none = false

agrees : ℕ → Bool
unfolding decode_terminal_info_flags same
agrees raw =
    let flags = decode_terminal_info_flags raw in
    same flags.gps_tracking_on (shows raw 7)
    && (same flags.bit_1_guess (shows raw 6)
        && (same (acc_flag flags.acc_high) (shows raw 5)
            && (same flags.bit_3_guess (shows raw 4)
                && (same flags.bit_4_guess (shows raw 3)
                    && same flags.vibration_detected (shows raw 1)))))

agrees_table : passes_below 256 agrees ≡ true
unfolding passes_below agrees
agrees_table = refl

-- Every flag of a terminal information byte is the character of its binary text at its own place,
-- and the previous ignition state never matters: the byte always decides it, so the engine status
-- is never unknown.
pub decode_terminal_info_flags_shown :
    (raw : ℕ) (previous : Option Bool)
    → raw < 256
    → let flags = decode_terminal_info_flags raw in
      (flags.gps_tracking_on ≡ shows raw 7)
      × (flags.bit_1_guess ≡ shows raw 6)
      × (resolve_acc_high flags.acc_high previous ≡ some (shows raw 5))
      × (flags.bit_3_guess ≡ shows raw 4)
      × (flags.bit_4_guess ≡ shows raw 3)
      × (flags.vibration_detected ≡ shows raw 1)
      × (flags.engine_status_guess ≡ (if shows raw 5 then on else off))
unfolding decode_terminal_info_flags resolve_acc_high agrees
decode_terminal_info_flags_shown raw previous h =
    let (gps, t₁) = both _ _ (passes_below_at 256 agrees raw agrees_table h) in
    let (one, t₂) = both _ _ t₁ in
    let (acc, t₃) = both _ _ t₂ in
    let (three, t₄) = both _ _ t₃ in
    let (four, vibration) = both _ _ t₄ in
    let acc_shown = same→eq _ _ acc in
    (
      same→eq _ _ gps,
      same→eq _ _ one,
      ap some acc_shown,
      same→eq _ _ three,
      same→eq _ _ four,
      same→eq _ _ vibration,
      status_shown _ ∙ ap (λ b. if b then on else off) acc_shown,
    )

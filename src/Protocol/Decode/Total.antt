-- ===== src/Protocol/Decode/Total.antt =====
-- When `decode_message` (src/protocol.rs) succeeds.
use gt06n_tcp_server.Prelude.{
  ℕ, ◌≤◌, ◌<◌, ◌≡◌, refl, arith, ltb, ◌==◌, if◌then◌else◌, length, ok, err, Result, Bool-cases, inl,
  inr, ltb-false, lt→ltb,
}
use gt06n_tcp_server.Float.{Float64}
use gt06n_tcp_server.Protocol.{
  Frame, Gt06Message, ProtocolError, invalid_payload, protocol_login, protocol_location,
  protocol_heartbeat, protocol_extended_location,
}
use gt06n_tcp_server.Protocol.Decode.{decode_message}
use Prim.Native.String.{String}

-- The shortest payload that a packet family can have.
abbrev pub min_payload : ℕ → ℕ
min_payload p =
    if p == protocol_login
    then 8
    else if p == protocol_heartbeat
    then 5
    else if p == protocol_location
    then 18
    else if p == protocol_extended_location
    then 18
    else 0

abbrev Verdict : (fl : Float64) → ℕ → ℕ → ℕ → Result ProtocolError (Gt06Message fl.F) → Type 0
Verdict fl least given p decoded =
    (least ≤ given → (m : Gt06Message fl.F) × (decoded ≡ ok m))
    × (given < least → (why : String) × (decoded ≡ err (invalid_payload p why)))

guarded :
    (fl : Float64) (least given p : ℕ) (why : String) (m : Gt06Message fl.F)
    → Verdict fl least given p (if ltb given least then err (invalid_payload p why) else ok m)
guarded fl least given p why m =
    (λ h. (m, rw (ltb-false given least h)), λ h. (why, rw (lt→ltb given least h)))

-- A frame is decoded exactly when its payload has the least length of its family. A shorter one is
-- an error that names the frame's own protocol number.
pub decode_message_total :
    (fl : Float64) (frame : Frame)
    → (min_payload frame.protocol_number ≤ length frame.payload
        → (m : Gt06Message fl.F) × (decode_message fl frame ≡ ok m))
      × (length frame.payload < min_payload frame.protocol_number
          → (why : String) × (decode_message fl frame
              ≡ err (invalid_payload frame.protocol_number why)))
unfolding decode_message
decode_message_total fl frame = elim (Bool-cases (frame.protocol_number == protocol_login)) [
  | inl e ↦ rw e (guarded fl 8 _ _ _ _)
  | inr e ↦ rw e (elim (Bool-cases (frame.protocol_number == protocol_heartbeat)) [
    | inl h ↦ rw h (guarded fl 5 _ _ _ _)
    | inr h ↦ rw h (elim (Bool-cases (frame.protocol_number == protocol_location)) [
      | inl l ↦ rw l (guarded fl 18 _ _ _ _)
      | inr l ↦ rw l (elim (Bool-cases (frame.protocol_number == protocol_extended_location)) [
        | inl x ↦ rw x (guarded fl 18 _ _ _ _)
        | inr x ↦ rw x ((λ _. (_, refl)), λ k. absurd (omega arith))
      ])
    ])
  ])
]

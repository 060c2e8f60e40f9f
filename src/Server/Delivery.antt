-- ===== src/Server/Delivery.antt =====
-- What `handle_connection` (src/server.rs) delivers to the outside when a device sends well-formed
-- frames: an account of the protocol without buffers, reads or loops.
use gt06n_tcp_server.Prelude.{
  ℕ, ◌≤◌, ◌≡◌, ◌≢◌, refl, sym, ap, ◌∙◌, List, [], ◌∷◌, ◌++◌, append_assoc, append-nil, map, true,
  length, All, Option, none, some, Result, ok, err,
}
use gt06n_tcp_server.Float.{Float64}
use gt06n_tcp_server.Protocol.{
  Frame, Gt06Message, ProtocolError, protocol_login, protocol_heartbeat,
}
use gt06n_tcp_server.Protocol.Framing.{encode_ack}
use gt06n_tcp_server.Protocol.Framing.RoundTrip.{build_frame, next_frame-build_frame}
use gt06n_tcp_server.Protocol.Framing.Stream.{next_frame-nil}
use gt06n_tcp_server.Protocol.Decode.{decode_message}
use gt06n_tcp_server.Events.{DeviceEvent}
use gt06n_tcp_server.Server.{
  Connection, Effect, wrote, delivered, bytes, waiting, disconnected, react, after_frame,
  after_drain, continue_with, serve, handle_connection,
}
use gt06n_tcp_server.Server.Chunks.{
  round, serve_read, observe, handle_connection_chunks, loop, append-ne-nil,
}
use mathlib.Core.List.{flatten}

-- The bytes of a sequence of frames.
unfoldable pub wire : List Frame → List ℕ
wire [] = []
wire (f ∷ frames) = build_frame f.protocol_number f.payload f.serial ++ wire frames

abbrev pub Fits : Frame → Type 0
Fits f = length f.payload ≤ 250

module _ (fl : Float64) {P : Type 0} (peer : P) where
  -- The device that events are attributed to after a message.
  abbrev pub device_after :
      Option (List ℕ) → Result ProtocolError (Gt06Message fl.F) → Option (List ℕ)
  device_after id (ok (Gt06Message.login packet)) = some packet.imei
  device_after id _ = id

  -- A login and a heartbeat are acknowledged and delivered, a location is delivered, and nothing
  -- else is seen.
  abbrev pub effects :
      Option (List ℕ) → ℕ → Result ProtocolError (Gt06Message fl.F) → List (Effect P fl.F)
  effects id serial (ok (Gt06Message.login packet)) =
      wrote (encode_ack protocol_login serial)
      ∷ delivered (DeviceEvent.login peer packet.imei serial)
      ∷ []
  effects id serial (ok (Gt06Message.heartbeat packet)) =
      wrote (encode_ack protocol_heartbeat serial)
      ∷ delivered (DeviceEvent.heartbeat peer id packet)
      ∷ []
  effects id serial (ok (Gt06Message.location packet)) =
      delivered (DeviceEvent.location peer id packet) ∷ []
  effects id serial _ = []

  pub device_at_end : Option (List ℕ) → List Frame → Option (List ℕ)
  device_at_end id [] = id
  device_at_end id (f ∷ frames) = device_at_end (device_after id (decode_message fl f)) frames

  pub expected : Option (List ℕ) → List Frame → List (Effect P fl.F)
  expected id [] = []
  expected id (f ∷ frames) =
      effects id f.serial (decode_message fl f)
      ++ expected (device_after id (decode_message fl f)) frames

  -- A connection on which every write succeeds.
  abbrev conn : List ℕ → Option (List ℕ) → List (Effect P fl.F) → Connection P fl.F
  conn b id t = record { buffer = b; device_id = id; write_outcomes = []; trace = t }

  react-effects :
      (f : Frame) (m : Result ProtocolError (Gt06Message fl.F)) (b : List ℕ) (id : Option (List ℕ))
      (t : List (Effect P fl.F))
      → react fl peer f m (conn b id t)
        ≡ (conn b (device_after id m) (t ++ effects id f.serial m), true)
  unfolding react
  react-effects f (ok (Gt06Message.login packet)) b id t =
      ap (λ u. (conn b (some packet.imei) u, true)) (append_assoc t _ _)
  react-effects f (ok (Gt06Message.heartbeat packet)) b id t =
      ap (λ u. (conn b id u, true)) (append_assoc t _ _)
  react-effects f (ok (Gt06Message.location packet)) b id t = refl
  react-effects f (ok (Gt06Message.unknown packet)) b id t =
      ap (λ u. (conn b id u, true)) (sym (append-nil t))
  react-effects f (err e) b id t = ap (λ u. (conn b id u, true)) (sym (append-nil t))

  drain_frames :
      (frames : List Frame) (id : Option (List ℕ)) (t : List (Effect P fl.F))
      → All Fits frames
      → loop fl peer (conn (wire frames) id t)
        ≡ (conn [] (device_at_end id frames) (t ++ expected id frames), waiting)
  unfolding wire device_at_end expected continue_with
  drain_frames [] id t h =
      round fl peer (conn [] id t) (ok none) [] next_frame-nil
      ∙ ap (λ u. (conn [] id u, waiting)) (sym (append-nil t))
  drain_frames (f ∷ frames) id t (fits, h) =
      let m = decode_message fl f in
      round fl peer (conn (wire (f ∷ frames)) id t) (ok (some f)) (wire frames)
        (next_frame-build_frame f.protocol_number f.payload f.serial (wire frames) fits)
      ∙ ap (after_frame fl peer (loop fl peer)) (react-effects f m (wire frames) id t)
      ∙ drain_frames frames (device_after id m) (t ++ effects id f.serial m) h
      ∙ ap (λ u. (conn [] (device_at_end (device_after id m) frames) u, waiting))
          (append_assoc t _ _)

  one_read :
      (frames : List Frame)
      → All Fits frames
      → wire frames ≢ []
      → observe fl peer (handle_connection fl peer [] (bytes (wire frames) ∷ bytes [] ∷ []))
        ≡ (device_at_end none frames, [], expected none frames, disconnected)
  unfolding handle_connection
  one_read frames fits h =
      ap (observe fl peer) (serve_read fl peer (conn [] none []) (wire frames) (bytes [] ∷ []) h)
      ∙ ap (λ x. observe fl peer (after_drain fl peer (serve fl peer (bytes [] ∷ [])) x))
          (drain_frames frames none [] fits)

  -- A device that sends well-formed frames and closes the connection, while every write succeeds:
  -- however its bytes are cut into reads, each frame has its effects exactly once and in order, and
  -- nothing else happens.
  pub handle_connection_session :
      (frames : List Frame) (chunk : List ℕ) (chunks : List (List ℕ))
      → All Fits frames
      → chunk ++ flatten chunks ≡ wire frames
      → chunk ≢ []
      → All (λ t. t ≢ []) chunks
      → observe fl peer
          (handle_connection fl peer [] (bytes chunk ∷ (map bytes chunks ++ (bytes [] ∷ []))))
        ≡ (device_at_end none frames, [], expected none frames, disconnected)
  handle_connection_session frames chunk chunks fits cut h hs =
      handle_connection_chunks fl peer [] chunk chunks (bytes [] ∷ []) h hs
      ∙ ap (λ t. observe fl peer (handle_connection fl peer [] (bytes t ∷ bytes [] ∷ []))) cut
      ∙ one_read frames fits (λ e. append-ne-nil chunk (flatten chunks) h (cut ∙ e))

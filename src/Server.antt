-- ===== src/Server.antt =====
-- src/server.rs: `handle_connection`. What the peer sends is a list of reads, whether the socket
-- takes each reply is a list of outcomes (`true` once it is used up), and what the connection does
-- to the outside, replies and events, is a trace in order. Logging is left out.
pub mod Loop
pub mod Chunks
pub mod Delivery
pub mod Attribution
pub mod Bounds
use gt06n_tcp_server.Prelude.{
  ℕ, zero, suc, List, [], ◌∷◌, ◌++◌, Bool, true, false, if◌then◌else◌, length, Option, none, some,
  Result, ok, err,
}
use gt06n_tcp_server.Float.{Float64}
use gt06n_tcp_server.Protocol.{
  Frame, LoginPacket, HeartbeatPacket, Gt06Message, ProtocolError, protocol_login,
  protocol_heartbeat,
}
use gt06n_tcp_server.Protocol.Framing.{next_frame, encode_ack}
use gt06n_tcp_server.Protocol.Decode.{decode_message}
use gt06n_tcp_server.Events.{DeviceEvent}

-- What `read_buf` gives: bytes (none of them means that the peer closed) or an I/O error.
pub data Read : Type 0 where
  bytes : List ℕ → Read
  failed : Read

pub data Effect (P F : Type 0) : Type 0 where
  wrote : List ℕ → Effect P F
  delivered : DeviceEvent P F → Effect P F

pub record Connection (P F : Type 0) : Type 0 where
  pub buffer : List ℕ
  pub device_id : Option (List ℕ)
  pub write_outcomes : List Bool
  pub trace : List (Effect P F)

-- How a loop of the handler ends. `waiting`: the buffer holds no further frame. `stuck` is no state
-- of the program: the inner loop ran out of fuel.
pub data Status : Type 0 where
  waiting disconnected io_failed stuck : Status

module _ {P F : Type 0} where
  abbrev pub emit : Effect P F → Connection P F → Connection P F
  emit e c = record c { trace = c.trace ++ (e ∷ []) }

  -- `stream.write_all(&ack).await?`: the flag says whether it succeeded.
  write_all_at : List Bool → List ℕ → Connection P F → Connection P F × Bool
  write_all_at [] ack c = (emit (wrote ack) c, true)
  write_all_at (true ∷ rest) ack c = (emit (wrote ack) (record c { write_outcomes = rest }), true)
  write_all_at (false ∷ rest) ack c = (record c { write_outcomes = rest }, false)

  write_all : List ℕ → Connection P F → Connection P F × Bool
  unfolding write_all_at
  write_all ack c = write_all_at c.write_outcomes ack c

  -- What stands behind `write_all`: it runs only if the reply was sent.
  and_then : (Connection P F → Connection P F) → Connection P F × Bool → Connection P F × Bool
  and_then k (c, true) = (k c, true)
  and_then k (c, false) = (c, false)

module _ (fl : Float64) {P : Type 0} (peer_addr : P) where
  abbrev pub Conn : Type 0
  Conn = Connection P fl.F

  -- Behind the reply to a login and to a heartbeat.
  accept_login : Frame → LoginPacket → Conn → Conn
  accept_login frame packet c =
      emit (delivered (DeviceEvent.login peer_addr packet.imei frame.serial))
        (record c { device_id = some packet.imei })

  accept_heartbeat : HeartbeatPacket → Conn → Conn
  accept_heartbeat packet c =
      emit (delivered (DeviceEvent.heartbeat peer_addr c.device_id packet)) c

  -- The match on the decoded message. The flag is false if the handler returns with an I/O error.
  pub react : Frame → Result ProtocolError (Gt06Message fl.F) → Conn → Conn × Bool
  unfolding write_all and_then accept_login accept_heartbeat
  react frame (ok (Gt06Message.login packet)) c =
      and_then (accept_login frame packet) (write_all (encode_ack protocol_login frame.serial) c)
  react frame (ok (Gt06Message.heartbeat packet)) c =
      and_then (accept_heartbeat packet) (write_all (encode_ack protocol_heartbeat frame.serial) c)
  react frame (ok (Gt06Message.location packet)) c =
      (emit (delivered (DeviceEvent.location peer_addr c.device_id packet)) c, true)
  react frame (ok (Gt06Message.unknown packet)) c = (c, true)
  react frame (err error) c = (c, true)

  -- After a frame the inner loop goes on, unless a reply could not be sent.
  pub after_frame : (Conn → Conn × Status) → Conn × Bool → Conn × Status
  after_frame loop (c, true) = loop c
  after_frame loop (c, false) = (c, io_failed)

  -- After the inner loop the handler reads again, unless it has returned.
  pub after_drain : (Conn → Conn × Status) → Conn × Status → Conn × Status
  after_drain again (c, waiting) = again c
  after_drain again (c, disconnected) = (c, disconnected)
  after_drain again (c, io_failed) = (c, io_failed)
  after_drain again (c, stuck) = (c, stuck)

  -- What the inner loop does with the answer of `next_frame`; `loop` is its next round.
  pub continue_with :
      (Conn → Conn × Status) → Result ProtocolError (Option Frame) → Conn → Conn × Status
  unfolding react after_frame
  continue_with loop (ok (some frame)) c =
      after_frame loop (react frame (decode_message fl frame) c)
  continue_with loop (ok none) c = (c, waiting)
  continue_with loop (err error) c = loop c

  -- The inner loop, on fuel.
  drain : ℕ → Conn → Conn × Status
  unfolding continue_with
  drain zero c = (c, stuck)
  drain (suc fuel) c =
      let (res, rest) = next_frame c.buffer in
      continue_with (drain fuel) res (record c { buffer = rest })

  -- Every round but the last takes a byte off the buffer, so this fuel is enough.
  pub drain_all : Conn → Conn × Status
  unfolding drain
  drain_all c = drain (suc (length c.buffer)) c

  -- The outer loop. At the end of the list the peer has sent no more yet.
  pub serve : List Read → Conn → Conn × Status
  unfolding drain_all after_drain
  serve [] c = (c, waiting)
  serve (failed ∷ reads) c = (c, io_failed)
  serve (bytes [] ∷ reads) c = (c, disconnected)
  serve (bytes (b ∷ bs) ∷ reads) c =
      after_drain (serve reads) (drain_all (record c { buffer = c.buffer ++ (b ∷ bs) }))

  -- A fresh connection.
  pub handle_connection : List Bool → List Read → Conn × Status
  unfolding serve
  handle_connection outcomes reads =
      serve reads (record { buffer = []; device_id = none; write_outcomes = outcomes; trace = [] })

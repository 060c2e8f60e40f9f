-- ===== src/Events.antt =====
-- src/events.rs: the events that a connection delivers, and the handler that passes one event to
-- several handlers. A peer address and a coordinate are values of parameter types.
use gt06n_tcp_server.Prelude.{ℕ, List, [], ◌∷◌, ◌++◌, ◌≡◌, refl, Option}
use gt06n_tcp_server.Protocol.{HeartbeatPacket, LocationPacket}

pub data DeviceEvent (P F : Type 0) : Type 0 where
  login : (peer_addr : P) (imei : List ℕ) (serial : ℕ) → DeviceEvent P F
  heartbeat :
      (peer_addr : P) (device_id : Option (List ℕ)) (packet : HeartbeatPacket) → DeviceEvent P F
  location :
      (peer_addr : P) (device_id : Option (List ℕ)) (packet : LocationPacket F) → DeviceEvent P F

-- A handler acts on a world of its choice.
abbrev pub Handler : Type 0 → Type 0 → Type 0 → Type 0
Handler P F W = DeviceEvent P F → W → W

-- `CompositeEventHandler::handle_event`: every handler in turn, each with the event.
pub composite : {P F W : Type 0} → List (Handler P F W) → Handler P F W
composite [] event world = world
composite (handler ∷ handlers) event world = composite handlers event (handler event world)

-- Nesting composites is the same as one composite of all the handlers in order.
pub composite-append :
    {P F W : Type 0} (hs ks : List (Handler P F W)) (event : DeviceEvent P F) (world : W)
    → composite (hs ++ ks) event world ≡ composite ks event (composite hs event world)
unfolding composite
composite-append [] ks event world = refl
composite-append (h ∷ hs) ks event world = composite-append hs ks event (h event world)

-- ===== src/Server/Attribution.antt =====
-- To which device `handle_connection` (src/server.rs) attributes what it delivers, on any input.
use gt06n_tcp_server.Prelude.{
  ℕ, zero, suc, ◌≡◌, refl, sym, ap, subst, ◌∙◌, List, [], ◌∷◌, ◌++◌, Bool, true, false, length,
  Option, none, some, Result, ok, err,
}
use gt06n_tcp_server.Float.{Float64}
use gt06n_tcp_server.Protocol.{Frame, Gt06Message, ProtocolError}
use gt06n_tcp_server.Protocol.Framing.{next_frame}
use gt06n_tcp_server.Protocol.Decode.{decode_message}
use gt06n_tcp_server.Events.{DeviceEvent}
use gt06n_tcp_server.Server.{
  Connection, Effect, wrote, delivered, Read, bytes, failed, Status, waiting, disconnected,
  io_failed, stuck, emit, write_all, write_all_at, and_then, accept_login, accept_heartbeat, react,
  after_frame, after_drain, continue_with, drain, drain_all, serve, handle_connection,
}

module _ {P F : Type 0} where
  -- The device of the last login that was delivered, with `id` where there is none.
  abbrev pub last_login : Option (List ℕ) → List (Effect P F) → Option (List ℕ)
  last_login id [] = id
  last_login id (wrote ack ∷ rest) = last_login id rest
  last_login id (delivered (DeviceEvent.login peer imei serial) ∷ rest) =
      last_login (some imei) rest
  last_login id (delivered (DeviceEvent.heartbeat peer device packet) ∷ rest) = last_login id rest
  last_login id (delivered (DeviceEvent.location peer device packet) ∷ rest) = last_login id rest

  -- Every heartbeat and every location carries the device of the last login before it.
  abbrev pub IsAttributed : Option (List ℕ) → List (Effect P F) → Type 0
  IsAttributed id [] = Unit {0}
  IsAttributed id (wrote ack ∷ rest) = IsAttributed id rest
  IsAttributed id (delivered (DeviceEvent.login peer imei serial) ∷ rest) =
      IsAttributed (some imei) rest
  IsAttributed id (delivered (DeviceEvent.heartbeat peer device packet) ∷ rest) =
      (device ≡ id) × IsAttributed id rest
  IsAttributed id (delivered (DeviceEvent.location peer device packet) ∷ rest) =
      (device ≡ id) × IsAttributed id rest

  last_login-append :
      (id : Option (List ℕ)) (t u : List (Effect P F))
      → last_login id (t ++ u) ≡ last_login (last_login id t) u
  last_login-append id [] u = refl
  last_login-append id (wrote ack ∷ t) u = last_login-append id t u
  last_login-append id (delivered (DeviceEvent.login peer imei serial) ∷ t) u =
      last_login-append (some imei) t u
  last_login-append id (delivered (DeviceEvent.heartbeat peer device packet) ∷ t) u =
      last_login-append id t u
  last_login-append id (delivered (DeviceEvent.location peer device packet) ∷ t) u =
      last_login-append id t u

  IsAttributed-append :
      (id : Option (List ℕ)) (t u : List (Effect P F))
      → IsAttributed id t
      → IsAttributed (last_login id t) u
      → IsAttributed id (t ++ u)
  IsAttributed-append id [] u h k = k
  IsAttributed-append id (wrote ack ∷ t) u h k = IsAttributed-append id t u h k
  IsAttributed-append id (delivered (DeviceEvent.login peer imei serial) ∷ t) u h k =
      IsAttributed-append (some imei) t u h k
  IsAttributed-append id (delivered (DeviceEvent.heartbeat peer device packet) ∷ t) u (e, h) k =
      (e, IsAttributed-append id t u h k)
  IsAttributed-append id (delivered (DeviceEvent.location peer device packet) ∷ t) u (e, h) k =
      (e, IsAttributed-append id t u h k)

  -- The invariant of a connection.
  pub record IsSound (c : Connection P F) : Type 0 where
    pub device : c.device_id ≡ last_login none c.trace
    pub attributed : IsAttributed none c.trace

  -- Adding an effect that is rightly attributed, and the device that follows from it.
  emit-IsSound :
      (e : Effect P F) (c : Connection P F)
      → IsSound c
      → IsAttributed c.device_id (e ∷ [])
      → IsSound (emit e (record c { device_id = last_login c.device_id (e ∷ []) }))
  emit-IsSound e c v h = record {
    device =
        ap (λ t. last_login t (e ∷ [])) v.device ∙ sym (last_login-append none c.trace (e ∷ []));
    attributed =
        IsAttributed-append none c.trace (e ∷ []) v.attributed
          (subst (λ t. IsAttributed t (e ∷ [])) v.device h);
  }

module _ (fl : Float64) {P : Type 0} (peer : P) where
  abbrev C : Type 0
  C = Connection P fl.F

  and_then-IsSound :
      (k : C → C) (ack : List ℕ) (outcomes : List Bool) (c : C)
      → ((d : C) → IsSound d → IsSound (k d))
      → IsSound c
      → IsSound (and_then k (write_all_at outcomes ack c)).0
  unfolding and_then write_all_at
  and_then-IsSound k ack [] c h v = h _ (emit-IsSound (wrote ack) c v tt)
  and_then-IsSound k ack (true ∷ ws) c h v = h _ (
      emit-IsSound (wrote ack) (record c { write_outcomes = ws })
        (record { device = v.device; attributed = v.attributed }) tt)
  and_then-IsSound k ack (false ∷ ws) c h v = record {
    device = v.device;
    attributed = v.attributed;
  }

  react-IsSound :
      (frame : Frame) (m : Result ProtocolError (Gt06Message fl.F)) (c : C)
      → IsSound c
      → IsSound (react fl peer frame m c).0
  unfolding react write_all accept_login accept_heartbeat
  react-IsSound frame (ok (Gt06Message.login packet)) c v =
      and_then-IsSound (accept_login fl peer frame packet) _ c.write_outcomes c
        (λ d w. emit-IsSound (delivered (DeviceEvent.login peer packet.imei frame.serial)) d w tt) v
  react-IsSound frame (ok (Gt06Message.heartbeat packet)) c v =
      and_then-IsSound (accept_heartbeat fl peer packet) _ c.write_outcomes c
        (λ d w.
          emit-IsSound (delivered (DeviceEvent.heartbeat peer d.device_id packet)) d w (refl, tt))
        v
  react-IsSound frame (ok (Gt06Message.location packet)) c v =
      emit-IsSound (delivered (DeviceEvent.location peer c.device_id packet)) c v (refl, tt)
  react-IsSound frame (ok (Gt06Message.unknown packet)) c v = v
  react-IsSound frame (err e) c v = v

  after_frame-IsSound :
      (loop : C → C × Status) (x : C × Bool)
      → ((d : C) → IsSound d → IsSound (loop d).0)
      → IsSound x.0
      → IsSound (after_frame fl peer loop x).0
  unfolding after_frame
  after_frame-IsSound loop (c, true) h v = h c v
  after_frame-IsSound loop (c, false) h v = v

  continue_with-IsSound :
      (loop : C → C × Status) (res : Result ProtocolError (Option Frame)) (c : C)
      → ((d : C) → IsSound d → IsSound (loop d).0)
      → IsSound c
      → IsSound (continue_with fl peer loop res c).0
  unfolding continue_with
  continue_with-IsSound loop (ok (some frame)) c h v =
      after_frame-IsSound loop _ h (react-IsSound frame (decode_message fl frame) c v)
  continue_with-IsSound loop (ok none) c h v = v
  continue_with-IsSound loop (err e) c h v = h c v

  abbrev rebuffered : (b : List ℕ) (c : C) → IsSound c → IsSound (record c { buffer = b })
  rebuffered b c v = record { device = v.device; attributed = v.attributed }

  drain-IsSound : (fuel : ℕ) (c : C) → IsSound c → IsSound (drain fl peer fuel c).0
  unfolding drain
  drain-IsSound zero c v = v
  drain-IsSound (suc fuel) c v =
      continue_with-IsSound (drain fl peer fuel) (next_frame c.buffer).0 _ (drain-IsSound fuel)
        (rebuffered (next_frame c.buffer).1 c v)

  after_drain-IsSound :
      (again : C → C × Status) (x : C × Status)
      → ((d : C) → IsSound d → IsSound (again d).0)
      → IsSound x.0
      → IsSound (after_drain fl peer again x).0
  unfolding after_drain
  after_drain-IsSound again (c, waiting) h v = h c v
  after_drain-IsSound again (c, disconnected) h v = v
  after_drain-IsSound again (c, io_failed) h v = v
  after_drain-IsSound again (c, stuck) h v = v

  serve-IsSound : (reads : List Read) (c : C) → IsSound c → IsSound (serve fl peer reads c).0
  unfolding serve drain_all
  serve-IsSound [] c v = v
  serve-IsSound (failed ∷ reads) c v = v
  serve-IsSound (bytes [] ∷ reads) c v = v
  serve-IsSound (bytes (b ∷ bs) ∷ reads) c v =
      let received = record c { buffer = c.buffer ++ (b ∷ bs) } in
      after_drain-IsSound (serve fl peer reads) (drain_all fl peer received) (serve-IsSound reads)
        (drain-IsSound (suc (length received.buffer)) received (rebuffered received.buffer c v))

  -- Whatever bytes arrive and whichever writes fail: every heartbeat and location that a connection
  -- delivers carries the identity of the last login that it delivered before, none if there was no
  -- login, and that is also the identity that the connection keeps.
  pub handle_connection_attribution :
      (outcomes : List Bool) (reads : List Read)
      → let c = (handle_connection fl peer outcomes reads).0 in
        IsAttributed none c.trace × (c.device_id ≡ last_login none c.trace)
  unfolding handle_connection
  handle_connection_attribution outcomes reads =
      let v =
        serve-IsSound reads
          (record { buffer = []; device_id = none; write_outcomes = outcomes; trace = [] })
          (record { device = refl; attributed = tt }) in
      (v.attributed, v.device)

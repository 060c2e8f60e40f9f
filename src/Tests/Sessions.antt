-- ===== src/Tests/Sessions.antt =====
-- The theorems on connections, for a device that logs in and sends a heartbeat in two reads.
use gt06n_tcp_server.Prelude.{
  ℕ, ◌≡◌, ◌≢◌, ◌<◌, refl, arith, List, [], ◌∷◌, ◌++◌, true, false, map, length, none,
}
use gt06n_tcp_server.Protocol.Crc.{crc16_x25}
use gt06n_tcp_server.Protocol.Framing.RoundTrip.{build_frame}
use gt06n_tcp_server.Server.{bytes, failed, waiting, stuck, disconnected, handle_connection}
use gt06n_tcp_server.Server.Chunks.{observe, handle_connection_chunks}
use gt06n_tcp_server.Server.Delivery.{wire, device_at_end, expected, handle_connection_session}
use gt06n_tcp_server.Server.Attribution.{IsAttributed, last_login, handle_connection_attribution}
use gt06n_tcp_server.Server.Bounds.{handle_connection_bounds}
use gt06n_tcp_server.Tests.Data.{exprs, login_frame, heartbeat_frame}
use mathlib.Core.List.{flatten}

abbrev peer : ℕ
peer = 7

abbrev first : List ℕ
first = 120 ∷ 120 ∷ 13 ∷ 1 ∷ 1 ∷ 35 ∷ 69 ∷ 103 ∷ 137 ∷ []

abbrev second : List ℕ
second =
    1 ∷ 35 ∷ 69 ∷ 0 ∷ 1 ∷ 140 ∷ 221 ∷ 13 ∷ 10 ∷ 120 ∷ 120 ∷ 10 ∷ 19 ∷ 68 ∷ 1 ∷ 4 ∷ 0 ∷ 1 ∷ 0 ∷ 2
    ∷ 124 ∷ 250 ∷ 13 ∷ 10 ∷ []

on_the_wire : first ++ flatten (second ∷ []) ≡ wire (login_frame ∷ heartbeat_frame ∷ [])
unfolding wire build_frame crc16_x25 flatten
on_the_wire = refl

handle_connection_session_example :
    observe exprs peer
      (handle_connection exprs peer [] (bytes first ∷ (map bytes (second ∷ []) ++ (bytes [] ∷ []))))
    ≡ (
      device_at_end exprs peer none (login_frame ∷ heartbeat_frame ∷ []),
      [],
      expected exprs peer none (login_frame ∷ heartbeat_frame ∷ []),
      disconnected,
    )
handle_connection_session_example =
    handle_connection_session exprs peer (login_frame ∷ heartbeat_frame ∷ []) first (second ∷ [])
      (omega arith) on_the_wire (λ e. cc) ((λ e. cc), tt)

handle_connection_chunks_example :
    observe exprs peer (
      handle_connection exprs peer
        (true ∷ false ∷ [])
        (bytes first ∷ (map bytes (second ∷ []) ++ (failed ∷ []))))
    ≡ observe exprs peer (
        handle_connection exprs peer
          (true ∷ false ∷ [])
          (bytes (first ++ flatten (second ∷ [])) ∷ (failed ∷ [])))
handle_connection_chunks_example =
    handle_connection_chunks exprs peer (true ∷ false ∷ []) first (second ∷ []) (failed ∷ [])
      (λ e. cc) ((λ e. cc), tt)

handle_connection_attribution_example :
    let c = (handle_connection exprs peer [] (bytes first ∷ bytes second ∷ [])).0 in
    IsAttributed none c.trace × (c.device_id ≡ last_login none c.trace)
handle_connection_attribution_example =
    handle_connection_attribution exprs peer [] (bytes first ∷ bytes second ∷ [])

handle_connection_bounds_example :
    let result = handle_connection exprs peer [] (bytes first ∷ []) in
    (result.1 ≢ stuck) × (result.1 ≡ waiting → length result.0.buffer < 260)
handle_connection_bounds_example =
    handle_connection_bounds exprs peer [] (bytes first ∷ []) (omega arith)

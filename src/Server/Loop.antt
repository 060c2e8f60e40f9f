-- ===== src/Server/Loop.antt =====
-- The inner loop of `handle_connection` (src/server.rs): it ends, it obeys an equation without
-- fuel, and it does the same on bytes that arrive in parts.
use gt06n_tcp_server.Prelude.{
  ℕ, zero, suc, ◌<◌, ◌≡◌, ◌≢◌, refl, ap, arith, List, [], ◌∷◌, ◌++◌, Bool, true, false, length,
  none, some, Result, ok, err,
}
use gt06n_tcp_server.Float.{Float64}
use gt06n_tcp_server.Protocol.{Frame, Gt06Message, ProtocolError}
use gt06n_tcp_server.Protocol.Framing.{next_frame}
use gt06n_tcp_server.Protocol.Framing.Progress.{next_frame_shrinks}
use gt06n_tcp_server.Protocol.Framing.Stream.{Step}
use gt06n_tcp_server.Protocol.Decode.{decode_message}
use gt06n_tcp_server.Server.{
  Connection, Status, write_all_at, write_all, and_then, accept_login, accept_heartbeat, react,
  after_frame, continue_with, drain, drain_all,
}

module _ (fl : Float64) {P : Type 0} (peer : P) where
  abbrev pub C : Type 0
  C = Connection P fl.F

  -- The connection with its buffer replaced, and with bytes behind it.
  abbrev pub with_buffer : List ℕ → C → C
  with_buffer b c = record c { buffer = b }

  abbrev feed : List ℕ → C → C
  feed more c = record c { buffer = c.buffer ++ more }

  abbrev pub flagged : (C → C) → C × Bool → C × Bool
  flagged f (c, b) = (f c, b)

  and_then-with_buffer :
      (k : C → C) (b ack : List ℕ) (c : C) (outcomes : List Bool)
      → ((d : C) → k (with_buffer b d) ≡ with_buffer b (k d))
      → and_then k (write_all_at outcomes ack (with_buffer b c))
        ≡ flagged (with_buffer b) (and_then k (write_all_at outcomes ack c))
  unfolding and_then write_all_at
  and_then-with_buffer k b ack c [] h = ap (λ d. (d, true)) (h _)
  and_then-with_buffer k b ack c (true ∷ ws) h = ap (λ d. (d, true)) (h _)
  and_then-with_buffer k b ack c (false ∷ ws) h = refl

  -- A frame is handled without a look at the buffer, which stays as it is.
  pub react-with_buffer :
      (frame : Frame) (m : Result ProtocolError (Gt06Message fl.F)) (b : List ℕ) (c : C)
      → react fl peer frame m (with_buffer b c) ≡ flagged (with_buffer b) (react fl peer frame m c)
  unfolding react write_all accept_login accept_heartbeat
  react-with_buffer frame (ok (Gt06Message.login packet)) b c =
      and_then-with_buffer (accept_login fl peer frame packet) b _ c c.write_outcomes (λ d. refl)
  react-with_buffer frame (ok (Gt06Message.heartbeat packet)) b c =
      and_then-with_buffer (accept_heartbeat fl peer packet) b _ c c.write_outcomes (λ d. refl)
  react-with_buffer frame (ok (Gt06Message.location packet)) b c = refl
  react-with_buffer frame (ok (Gt06Message.unknown packet)) b c = refl
  react-with_buffer frame (err error) b c = refl

  pub react_buffer :
      (frame : Frame) (m : Result ProtocolError (Gt06Message fl.F)) (c : C)
      → (react fl peer frame m c).0.buffer ≡ c.buffer
  react_buffer frame m c = ap (λ (x : C × Bool). x.0.buffer) (react-with_buffer frame m c.buffer c)

  after_frame-ext :
      (f g : C → C × Status) (x : C × Bool)
      → f x.0 ≡ g x.0
      → after_frame fl peer f x ≡ after_frame fl peer g x
  unfolding after_frame
  after_frame-ext f g (c, true) h = h
  after_frame-ext f g (c, false) h = refl

  continue_with-ext :
      (f g : C → C × Status) (res : Step) (c : C)
      → (res ≢ ok none → (d : C) → d.buffer ≡ c.buffer → f d ≡ g d)
      → continue_with fl peer f res c ≡ continue_with fl peer g res c
  unfolding continue_with
  continue_with-ext f g (ok (some frame)) c h =
      after_frame-ext f g (react fl peer frame (decode_message fl frame) c)
        (h (λ e. cc) _ (react_buffer frame (decode_message fl frame) c))
  continue_with-ext f g (ok none) c h = refl
  continue_with-ext f g (err e) c h = h (λ e. cc) c refl

  -- More fuel than the buffer has bytes makes no difference.
  drain-fuel :
      (n m : ℕ) (c : C)
      → length c.buffer < n
      → length c.buffer < m
      → drain fl peer n c ≡ drain fl peer m c
  unfolding drain
  drain-fuel zero m c h k = absurd (omega arith)
  drain-fuel (suc n) zero c h k = absurd (omega arith)
  drain-fuel (suc n) (suc m) c h k =
      let (_, less) = next_frame_shrinks c.buffer _ _ refl in
      continue_with-ext (drain fl peer n) (drain fl peer m) (next_frame c.buffer).0
        (with_buffer (next_frame c.buffer).1 c)
        (λ decided d e.
          drain-fuel n m d (omega (arith, ap length e, less decided))
            (omega (arith, ap length e, less decided)))

  -- The loop without fuel: one round, then the loop again.
  pub drain_all_round :
      (c : C)
      → drain_all fl peer c
        ≡ continue_with fl peer
            (drain_all fl peer)
            (next_frame c.buffer).0
            (with_buffer (next_frame c.buffer).1 c)
  unfolding drain_all
  drain_all_round c =
      let (_, less) = next_frame_shrinks c.buffer _ _ refl in
      continue_with-ext (drain fl peer (length c.buffer)) (drain_all fl peer)
        (next_frame c.buffer).0 (with_buffer (next_frame c.buffer).1 c)
        (λ decided d e.
          drain-fuel (length c.buffer) (suc (length d.buffer)) d
            (omega (arith, ap length e, less decided)) (omega arith))

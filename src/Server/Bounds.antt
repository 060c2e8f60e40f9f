-- ===== src/Server/Bounds.antt =====
-- The loops of `handle_connection` (src/server.rs) end, and the receive buffer stays small.
use gt06n_tcp_server.Prelude.{
  ℕ, zero, suc, ◌<◌, ◌≡◌, ◌≢◌, refl, sym, ap, subst, arith, List, [], ◌∷◌, ◌++◌, Bool, true, false,
  length, All, All-append, none, some, ok, err,
}
use gt06n_tcp_server.Float.{Float64}
use gt06n_tcp_server.Protocol.{IsByte}
use gt06n_tcp_server.Protocol.Framing.{next_frame}
use gt06n_tcp_server.Protocol.Framing.Progress.{
  next_frame_shrinks, next_frame_waiting_bound, next_frame_bytes,
}
use gt06n_tcp_server.Protocol.Framing.Stream.{Step}
use gt06n_tcp_server.Protocol.Decode.{decode_message}
use gt06n_tcp_server.Server.{
  Connection, Read, bytes, failed, Status, waiting, disconnected, io_failed, stuck, react,
  after_frame, after_drain, continue_with, drain, drain_all, serve, handle_connection,
}
use gt06n_tcp_server.Server.Loop.{react_buffer}

abbrev pub AreBytes : Read → Type 0
AreBytes (bytes chunk) = All IsByte chunk
AreBytes failed = Unit {0}

module _ (fl : Float64) {P : Type 0} (peer : P) where
  abbrev C : Type 0
  C = Connection P fl.F

  -- The loop has come to an end, and waits only with a short buffer of bytes.
  abbrev Ended : C × Status → Type 0
  Ended (c, s) = (s ≢ stuck) × (s ≡ waiting → (length c.buffer < 260) × All IsByte c.buffer)

  after_frame-Ended :
      (loop : C → C × Status) (x : C × Bool) → Ended (loop x.0) → Ended (after_frame fl peer loop x)
  unfolding after_frame
  after_frame-Ended loop (c, true) h = h
  after_frame-Ended loop (c, false) h = (λ e. cc, λ e. cc)

  continue_with-Ended :
      (loop : C → C × Status) (res : Step) (c : C)
      → (res ≡ ok none → (length c.buffer < 260) × All IsByte c.buffer)
      → (res ≢ ok none → (d : C) → d.buffer ≡ c.buffer → Ended (loop d))
      → Ended (continue_with fl peer loop res c)
  unfolding continue_with
  continue_with-Ended loop (ok (some frame)) c w h =
      let m = decode_message fl frame in
      after_frame-Ended loop (react fl peer frame m c)
        (h (λ e. cc) (react fl peer frame m c).0 (react_buffer fl peer frame m c))
  continue_with-Ended loop (ok none) c w h = (λ e. cc, λ _. w refl)
  continue_with-Ended loop (err e) c w h = h (λ q. cc) c refl

  drain-Ended :
      (fuel : ℕ) (c : C)
      → length c.buffer < fuel
      → All IsByte c.buffer
      → Ended (drain fl peer fuel c)
  unfolding drain
  drain-Ended zero c h b = absurd (omega arith)
  drain-Ended (suc fuel) c h b =
      let res = (next_frame c.buffer).0 in
      let r = (next_frame c.buffer).1 in
      let (_, less) = next_frame_shrinks c.buffer res r refl in
      let rest_bytes = next_frame_bytes c.buffer res r b refl in
      continue_with-Ended (drain fl peer fuel) res (record c { buffer = r })
        (λ e. (next_frame_waiting_bound c.buffer r b (ap (λ (t : Step). (t, r)) e), rest_bytes))
        (λ decided d e.
          drain-Ended fuel d (omega (arith, ap length e, less decided))
            (subst (All IsByte) (sym e) rest_bytes))

  abbrev Bounded : C × Status → Type 0
  Bounded (c, s) = (s ≢ stuck) × (s ≡ waiting → length c.buffer < 260)

  after_drain-Bounded :
      (again : C → C × Status) (x : C × Status)
      → ((d : C) → length d.buffer < 260 → All IsByte d.buffer → Bounded (again d))
      → Ended x
      → Bounded (after_drain fl peer again x)
  unfolding after_drain
  after_drain-Bounded again (c, waiting) h (_, v) = h c (v refl).0 (v refl).1
  after_drain-Bounded again (c, disconnected) h v = (λ e. cc, λ e. cc)
  after_drain-Bounded again (c, io_failed) h v = (λ e. cc, λ e. cc)
  after_drain-Bounded again (c, stuck) h (v, _) = absurd (v refl)

  serve-Bounded :
      (reads : List Read) (c : C)
      → All AreBytes reads
      → length c.buffer < 260
      → All IsByte c.buffer
      → Bounded (serve fl peer reads c)
  unfolding serve drain_all
  serve-Bounded [] c hs k b = (λ e. cc, λ _. k)
  serve-Bounded (failed ∷ reads) c hs k b = (λ e. cc, λ e. cc)
  serve-Bounded (bytes [] ∷ reads) c hs k b = (λ e. cc, λ e. cc)
  serve-Bounded (bytes (x ∷ xs) ∷ reads) c (h, hs) k b =
      let received = record c { buffer = c.buffer ++ (x ∷ xs) } in
      after_drain-Bounded (serve fl peer reads) (drain_all fl peer received)
        (λ d l v. serve-Bounded reads d hs l v)
        (drain-Ended (suc (length received.buffer)) received (omega arith)
          (All-append IsByte c.buffer (x ∷ xs) b h))

  -- The inner loop ends on every input, and whenever the connection waits for the next read, its
  -- receive buffer holds fewer than 260 bytes, however much the peer has sent.
  pub handle_connection_bounds :
      (outcomes : List Bool) (reads : List Read)
      → All AreBytes reads
      → let result = handle_connection fl peer outcomes reads in
        (result.1 ≢ stuck) × (result.1 ≡ waiting → length result.0.buffer < 260)
  unfolding handle_connection
  handle_connection_bounds outcomes reads hs =
      serve-Bounded reads
        (record { buffer = []; device_id = none; write_outcomes = outcomes; trace = [] }) hs
        (omega arith) tt

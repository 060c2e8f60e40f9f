-- ===== src/Server/Chunks.antt =====
-- `handle_connection` (src/server.rs) does not depend on how the network cuts the byte stream.
use gt06n_tcp_server.Prelude.{
  ℕ, zero, suc, ◌<◌, ◌≡◌, ◌≢◌, refl, sym, ap, ◌∙◌, arith, List, [], ◌∷◌, ◌++◌, append_assoc,
  append-nil, Bool, true, false, length, All, map, Option, none, some, Result, ok, err,
}
use gt06n_tcp_server.Float.{Float64}
use gt06n_tcp_server.Protocol.{Frame, Gt06Message, ProtocolError}
use gt06n_tcp_server.Protocol.Framing.{Decoded, next_frame}
use gt06n_tcp_server.Protocol.Framing.Progress.{next_frame_shrinks}
use gt06n_tcp_server.Protocol.Framing.Stream.{Step, next_frame-append, next_frame-append_none}
use gt06n_tcp_server.Protocol.Decode.{decode_message}
use gt06n_tcp_server.Server.{
  Connection, Effect, Read, bytes, Status, waiting, disconnected, io_failed, stuck, react,
  after_frame, after_drain, continue_with, drain_all, serve, handle_connection,
}
use gt06n_tcp_server.Server.Loop.{
  with_buffer, flagged, react-with_buffer, react_buffer, drain_all_round,
}
use mathlib.Core.Path.{fun_ext}
use mathlib.Core.List.{flatten}

pub append-ne-nil : (front back : List ℕ) → front ≢ [] → front ++ back ≢ []
append-ne-nil [] back h = absurd (h refl)
append-ne-nil (b ∷ front) back h = λ e. cc

module _ (fl : Float64) {P : Type 0} (peer : P) where
  abbrev pub C : Type 0
  C = Connection P fl.F

  abbrev pub loop : C → C × Status
  loop = drain_all fl peer

  abbrev pub feed : List ℕ → C → C
  feed more c = with_buffer fl peer (c.buffer ++ more) c

  -- The loop on more bytes, once it has run on the first ones.
  resume : List ℕ → C × Status → C × Status
  resume more (c, waiting) = loop (feed more c)
  resume more (c, disconnected) = (feed more c, disconnected)
  resume more (c, io_failed) = (feed more c, io_failed)
  resume more (c, stuck) = (feed more c, stuck)

  abbrev Resumes : List ℕ → C → Type 0
  Resumes more c = loop (feed more c) ≡ resume more (loop c)

  after_frame-resume :
      (more : List ℕ) (x : C × Bool)
      → Resumes more x.0
      → after_frame fl peer loop (flagged fl peer (feed more) x)
        ≡ resume more (after_frame fl peer loop x)
  unfolding after_frame resume
  after_frame-resume more (c, true) h = h
  after_frame-resume more (c, false) h = refl

  -- One round, with the answer of `next_frame` named.
  pub round :
      (c : C) (res : Step) (r : List ℕ)
      → next_frame c.buffer ≡ (res, r)
      → loop c ≡ continue_with fl peer loop res (with_buffer fl peer r c)
  round c res r e =
      drain_all_round fl peer c
      ∙ ap (λ (d : Decoded). continue_with fl peer loop d.0 (with_buffer fl peer d.1 c)) e

  react-feed :
      (frame : Frame) (m : Result ProtocolError (Gt06Message fl.F)) (r more : List ℕ) (c : C)
      → react fl peer frame m (with_buffer fl peer (r ++ more) c)
        ≡ flagged fl peer (feed more) (react fl peer frame m (with_buffer fl peer r c))
  react-feed frame m r more c =
      react-with_buffer fl peer frame m (r ++ more) c
      ∙ ap (flagged fl peer (feed more)) (sym (react-with_buffer fl peer frame m r c))

  Resumes-round :
      (more : List ℕ) (c : C) (res : Step) (r : List ℕ)
      → next_frame c.buffer ≡ (res, r)
      → (res ≢ ok none → (d : C) → d.buffer ≡ r → Resumes more d)
      → Resumes more c
  unfolding continue_with resume
  Resumes-round more c (ok none) r e ih =
      drain_all_round fl peer (feed more c)
      ∙ ap (λ (d : Decoded). continue_with fl peer loop d.0 (with_buffer fl peer d.1 c))
          (next_frame-append_none c.buffer more r e)
      ∙ sym (drain_all_round fl peer (with_buffer fl peer (r ++ more) c))
      ∙ ap (resume more) (sym (round c (ok none) r e))
  Resumes-round more c (err error) r e ih =
      round (feed more c) (err error) (r ++ more)
        (next_frame-append c.buffer more (err error) r (λ q. cc) e)
      ∙ ih (λ q. cc) (with_buffer fl peer r c) refl
      ∙ ap (resume more) (sym (round c (err error) r e))
  Resumes-round more c (ok (some frame)) r e ih =
      let m = decode_message fl frame in
      let x = react fl peer frame m (with_buffer fl peer r c) in
      round (feed more c) (ok (some frame)) (r ++ more)
        (next_frame-append c.buffer more (ok (some frame)) r (λ q. cc) e)
      ∙ ap (after_frame fl peer loop) (react-feed frame m r more c)
      ∙ after_frame-resume more x
          (ih (λ q. cc) x.0 (react_buffer fl peer frame m (with_buffer fl peer r c)))
      ∙ ap (resume more) (sym (round c (ok (some frame)) r e))

  resumes : (k : ℕ) (more : List ℕ) (c : C) → length c.buffer < k → Resumes more c
  resumes zero more c h = absurd (omega arith)
  resumes (suc k) more c h =
      let (_, less) =
        next_frame_shrinks c.buffer (next_frame c.buffer).0 (next_frame c.buffer).1 refl in
      Resumes-round more c (next_frame c.buffer).0 (next_frame c.buffer).1 refl
        (λ decided d e. resumes k more d (omega (arith, ap length e, less decided)))

  -- What can be seen of a connection from outside: its replies and events in order, how it ended,
  -- and what it will attribute events to. The receive buffer is not seen.
  abbrev pub observe : C × Status → Option (List ℕ) × List Bool × List (Effect P fl.F) × Status
  observe (c, s) = (c.device_id, c.write_outcomes, c.trace, s)

  pub serve_read :
      (c : C) (chunk : List ℕ) (reads : List Read)
      → chunk ≢ []
      → serve fl peer (bytes chunk ∷ reads) c
        ≡ after_drain fl peer (serve fl peer reads) (loop (feed chunk c))
  unfolding serve
  serve_read c [] reads h = absurd (h refl)
  serve_read c (b ∷ bs) reads h = refl

  after_resume :
      (k : C → C × Status) (more : List ℕ) (x : C × Status)
      → observe (after_drain fl peer k (resume more x))
        ≡ observe (after_drain fl peer (λ d. after_drain fl peer k (loop (feed more d))) x)
  unfolding after_drain resume
  after_resume k more (c, waiting) = refl
  after_resume k more (c, disconnected) = refl
  after_resume k more (c, io_failed) = refl
  after_resume k more (c, stuck) = refl

  -- Two reads, or one read of the same bytes.
  serve_join :
      (c : C) (front back : List ℕ) (reads : List Read)
      → front ≢ []
      → back ≢ []
      → observe (serve fl peer (bytes (front ++ back) ∷ reads) c)
        ≡ observe (serve fl peer (bytes front ∷ bytes back ∷ reads) c)
  serve_join c front back reads hf hb =
      ap observe (serve_read c (front ++ back) reads (append-ne-nil front back hf))
      ∙ ap
          (λ t.
            observe (after_drain fl peer (serve fl peer reads) (loop (with_buffer fl peer t c))))
          (sym (append_assoc c.buffer front back))
      ∙ ap (λ t. observe (after_drain fl peer (serve fl peer reads) t))
          (resumes (suc (length (c.buffer ++ front))) back (feed front c) (omega arith))
      ∙ after_resume (serve fl peer reads) back (loop (feed front c))
      ∙ ap (λ (k : C → C × Status). observe (after_drain fl peer k (loop (feed front c))))
          (fun_ext (λ d. sym (serve_read d back reads hb)))
      ∙ ap observe (sym (serve_read c front (bytes back ∷ reads) hf))

  serve_chunks :
      (c : C) (chunk : List ℕ) (chunks : List (List ℕ)) (reads : List Read)
      → chunk ≢ []
      → All (λ t. t ≢ []) chunks
      → observe (serve fl peer (bytes chunk ∷ (map bytes chunks ++ reads)) c)
        ≡ observe (serve fl peer (bytes (chunk ++ flatten chunks) ∷ reads) c)
  unfolding flatten
  serve_chunks c chunk [] reads h hs =
      ap (λ t. observe (serve fl peer (bytes t ∷ reads) c)) (sym (append-nil chunk))
  serve_chunks c chunk (next ∷ chunks) reads h (hn, hs) =
      sym (serve_join c chunk next (map bytes chunks ++ reads) h hn)
      ∙ serve_chunks c (chunk ++ next) chunks reads (append-ne-nil chunk next h) hs
      ∙ ap (λ t. observe (serve fl peer (bytes t ∷ reads) c))
          (append_assoc chunk next (flatten chunks))

  -- However the network cuts the bytes of a peer into reads, none of them empty, the connection
  -- sends the same replies, delivers the same events in the same order, attributes them to the same
  -- device and ends in the same way as if all bytes had come in one read, whichever writes fail.
  pub handle_connection_chunks :
      (outcomes : List Bool) (chunk : List ℕ) (chunks : List (List ℕ)) (reads : List Read)
      → chunk ≢ []
      → All (λ t. t ≢ []) chunks
      → observe (handle_connection fl peer outcomes (bytes chunk ∷ (map bytes chunks ++ reads)))
        ≡ observe (handle_connection fl peer outcomes (bytes (chunk ++ flatten chunks) ∷ reads))
  unfolding handle_connection
  handle_connection_chunks outcomes chunk chunks reads h hs = serve_chunks _ chunk chunks reads h hs

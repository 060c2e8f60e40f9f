-- ===== src/Protocol/Framing/Stream.antt =====
-- `next_frame` (src/protocol.rs) on a buffer that grows: bytes that arrive later change neither a
-- frame nor an error that is already decided, and the bytes it drops while it waits never mattered.
use gt06n_tcp_server.Prelude.{
  ℕ, ◌≡◌, ◌≢◌, refl, sym, ap, subst, ◌∙◌, arith, List, [], ◌∷◌, ◌++◌, append_assoc, Bool-cases, inl,
  inr, ok, none, true, false, Result, Option, Bool,
}
use gt06n_tcp_server.Protocol.{Frame, ProtocolError, start_bytes}
use gt06n_tcp_server.Protocol.Framing.{Decoded, bytes_eq, frame_at_start, next_frame}
use gt06n_tcp_server.Protocol.Framing.Shape.{one_frame, verdict, frame_at_start-one_frame}
use gt06n_tcp_server.Protocol.Framing.View.{
  waits, bad_length, whole, reading, frame_at_start_bad_length,
}

abbrev pub Step : Type 0
Step = Result ProtocolError (Option Frame)

abbrev pub starts : ℕ → ℕ → Bool
starts a b = bytes_eq (a ∷ b ∷ []) start_bytes

pub next_frame-nil : next_frame [] ≡ (ok none, [])
unfolding next_frame
next_frame-nil = refl

pub next_frame-singleton : (a : ℕ) → next_frame (a ∷ []) ≡ (ok none, a ∷ [])
unfolding next_frame
next_frame-singleton a = refl

pub next_frame_at_start :
    (a b : ℕ) (rest : List ℕ)
    → starts a b ≡ true
    → next_frame (a ∷ b ∷ rest) ≡ frame_at_start (a ∷ b ∷ rest)
unfolding next_frame
next_frame_at_start a b rest h = rw h

pub next_frame_advance :
    (a b : ℕ) (rest : List ℕ)
    → starts a b ≡ false
    → next_frame (a ∷ b ∷ rest) ≡ next_frame (b ∷ rest)
unfolding next_frame
next_frame_advance a b rest h = rw h

module _ (a b len p : ℕ) (payload : List ℕ) (s₁ s₂ c₁ c₂ e₁ e₂ : ℕ) (rest more : List ℕ) where
  verdict-append :
      (res : Step) (r : List ℕ)
      → verdict a b len p payload s₁ s₂ c₁ c₂ e₁ e₂ rest ≡ (res, r)
      → verdict a b len p payload s₁ s₂ c₁ c₂ e₁ e₂ (rest ++ more) ≡ (res, r ++ more)
  verdict-append res r h =
      ground (arith, append_assoc payload (s₁ ∷ s₂ ∷ c₁ ∷ c₂ ∷ e₁ ∷ e₂ ∷ rest) more)

  one_frame-append :
      one_frame a b len p payload s₁ s₂ c₁ c₂ e₁ e₂ rest ++ more
      ≡ one_frame a b len p payload s₁ s₂ c₁ c₂ e₁ e₂ (rest ++ more)
  one_frame-append =
      ap (λ t. a ∷ b ∷ len ∷ p ∷ t) (append_assoc payload (s₁ ∷ s₂ ∷ c₁ ∷ c₂ ∷ e₁ ∷ e₂ ∷ rest) more)

abbrev Extends : List ℕ → List ℕ → Step → List ℕ → Type 0
Extends more buffer res r =
    frame_at_start buffer ≡ (res, r) → frame_at_start (buffer ++ more) ≡ (res, r ++ more)

frame_at_start-append :
    (buffer more : List ℕ) (res : Step) (r : List ℕ) → res ≢ ok none → Extends more buffer res r
frame_at_start-append buffer more res r decided = elim (reading buffer) [
  | waits e _ ↦ λ h. absurd (decided (ap (λ (d : Decoded). d.0) (sym h ∙ e)))
  | bad_length a b len p q rest e small ↦
      subst (λ t. Extends more t res r) (sym e)
        (λ h. cc (
          frame_at_start_bad_length a b len p q rest small,
          frame_at_start_bad_length a b len p q (rest ++ more) small,
        ))
  | whole a b len p payload s₁ s₂ c₁ c₂ e₁ e₂ rest fits e ↦
      subst (λ t. Extends more t res r) (sym e)
        (λ h.
          ap frame_at_start (one_frame-append a b len p payload s₁ s₂ c₁ c₂ e₁ e₂ rest more)
          ∙ frame_at_start-one_frame a b len p payload s₁ s₂ c₁ c₂ e₁ e₂ (rest ++ more) fits
          ∙ verdict-append a b len p payload s₁ s₂ c₁ c₂ e₁ e₂ rest more res r
              (sym (frame_at_start-one_frame a b len p payload s₁ s₂ c₁ c₂ e₁ e₂ rest fits) ∙ h))
]

-- Once `next_frame` has found a frame or an error, more bytes behind the buffer leave the answer as
-- it is and only lengthen what remains.
pub next_frame-append :
    (buffer more : List ℕ) (res : Step) (r : List ℕ)
    → res ≢ ok none
    → next_frame buffer ≡ (res, r)
    → next_frame (buffer ++ more) ≡ (res, r ++ more)
next_frame-append [] more res r decided h =
    absurd (decided (ap (λ (d : Decoded). d.0) (sym h ∙ next_frame-nil)))
next_frame-append (a ∷ []) more res r decided h =
    absurd (decided (ap (λ (d : Decoded). d.0) (sym h ∙ next_frame-singleton a)))
next_frame-append (a ∷ b ∷ rest) more res r decided h = elim (Bool-cases (starts a b)) [
  | inl s ↦
      next_frame_at_start a b (rest ++ more) s
      ∙ frame_at_start-append (a ∷ b ∷ rest) more res r decided
          (sym (next_frame_at_start a b rest s) ∙ h)
  | inr s ↦
      next_frame_advance a b (rest ++ more) s
      ∙ next_frame-append (b ∷ rest) more res r decided (sym (next_frame_advance a b rest s) ∙ h)
]

frame_at_start-none : (buffer r : List ℕ) → frame_at_start buffer ≡ (ok none, r) → r ≡ buffer
frame_at_start-none buffer r h = elim (reading buffer) [
  | waits e _ ↦ cc
  | bad_length a b len p q rest e small ↦
      cc (frame_at_start_bad_length a b len p q rest small, ap frame_at_start e)
  | whole a b len p payload s₁ s₂ c₁ c₂ e₁ e₂ rest fits e ↦ ground (
    arith,
    ap frame_at_start e,
    frame_at_start-one_frame a b len p payload s₁ s₂ c₁ c₂ e₁ e₂ rest fits,
  )
]

-- When `next_frame` asks for more bytes, the prefix that it has dropped has no influence on what
-- follows: whatever arrives, the whole buffer and the remainder decode alike.
pub next_frame-append_none :
    (buffer more r : List ℕ)
    → next_frame buffer ≡ (ok none, r)
    → next_frame (buffer ++ more) ≡ next_frame (r ++ more)
next_frame-append_none [] more r h =
    ap (λ (d : Decoded). next_frame (d.1 ++ more)) (sym next_frame-nil ∙ h)
next_frame-append_none (a ∷ []) more r h =
    ap (λ (d : Decoded). next_frame (d.1 ++ more)) (sym (next_frame-singleton a) ∙ h)
next_frame-append_none (a ∷ b ∷ rest) more r h = elim (Bool-cases (starts a b)) [
  | inl s ↦
      ap (λ t. next_frame (t ++ more))
        (sym (frame_at_start-none (a ∷ b ∷ rest) r (sym (next_frame_at_start a b rest s) ∙ h)))
  | inr s ↦
      next_frame_advance a b (rest ++ more) s
      ∙ next_frame-append_none (b ∷ rest) more r (sym (next_frame_advance a b rest s) ∙ h)
]

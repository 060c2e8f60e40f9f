-- ===== src/Protocol/Framing/Progress.antt =====
-- How much `next_frame` (src/protocol.rs) takes off its buffer, and how much it can leave waiting.
use gt06n_tcp_server.Prelude.{
  ℕ, ◌+◌, ◌≤◌, ◌<◌, ◌≡◌, ◌≢◌, sym, ap, subst, ◌∙◌, arith, ◌⊎◌, get_or, List, [], ◌∷◌, ◌++◌,
  Bool-cases, inl, inr, ok, none, length, length-append, All, All-append_right,
}
use gt06n_tcp_server.Protocol.{IsByte}
use gt06n_tcp_server.Protocol.Framing.{Decoded, frame_at_start, next_frame}
use gt06n_tcp_server.Protocol.Framing.Shape.{one_frame, verdict, frame_at_start-one_frame}
use gt06n_tcp_server.Protocol.Framing.View.{
  waits, bad_length, whole, reading, frame_at_start_bad_length,
}
use gt06n_tcp_server.Protocol.Framing.Stream.{
  Step, starts, next_frame-nil, next_frame-singleton, next_frame_at_start, next_frame_advance,
}

abbrev Shrinks : Step → List ℕ → List ℕ → Type 0
Shrinks res r buffer = (length r ≤ length buffer) × (res ≢ ok none → length r < length buffer)

module _ (a b len p : ℕ) (payload : List ℕ) (s₁ s₂ c₁ c₂ e₁ e₂ : ℕ) (rest : List ℕ) where
  verdict_shrinks :
      (res : Step) (r : List ℕ)
      → verdict a b len p payload s₁ s₂ c₁ c₂ e₁ e₂ rest ≡ (res, r)
      → length r < length (one_frame a b len p payload s₁ s₂ c₁ c₂ e₁ e₂ rest)
  verdict_shrinks res r h =
      ground (arith, length-append payload (s₁ ∷ s₂ ∷ c₁ ∷ c₂ ∷ e₁ ∷ e₂ ∷ rest))

frame_at_start-Shrinks :
    (buffer : List ℕ) (res : Step) (r : List ℕ)
    → frame_at_start buffer ≡ (res, r)
    → Shrinks res r buffer
frame_at_start-Shrinks buffer res r h = elim (reading buffer) [
  | waits e _ ↦
      let same = sym e ∙ h in
      (ground arith, λ decided. absurd (decided (ap (λ (d : Decoded). d.0) (sym same))))
  | bad_length a b len p q rest e small ↦
      let seen =
        sym (frame_at_start_bad_length a b len p q rest small) ∙ sym (ap frame_at_start e) ∙ h in
      subst (Shrinks res r) (sym e) (ground arith, λ _. ground arith)
  | whole a b len p payload s₁ s₂ c₁ c₂ e₁ e₂ rest fits e ↦
      let seen =
        sym (frame_at_start-one_frame a b len p payload s₁ s₂ c₁ c₂ e₁ e₂ rest fits)
        ∙ sym (ap frame_at_start e)
        ∙ h in
      let k = verdict_shrinks a b len p payload s₁ s₂ c₁ c₂ e₁ e₂ rest res r seen in
      subst (Shrinks res r) (sym e) (omega (arith, k), λ _. k)
]

-- `next_frame` never lengthens the buffer, and takes at least a byte off it with every frame and
-- every error: a loop that calls it until it asks for more bytes ends.
pub next_frame_shrinks :
    (buffer : List ℕ) (res : Step) (r : List ℕ)
    → next_frame buffer ≡ (res, r)
    → (length r ≤ length buffer) × (res ≢ ok none → length r < length buffer)
next_frame_shrinks [] res r h =
    let e = sym next_frame-nil ∙ h in
    (ground arith, λ decided. absurd (decided (ap (λ (d : Decoded). d.0) (sym e))))
next_frame_shrinks (a ∷ []) res r h =
    let e = sym (next_frame-singleton a) ∙ h in
    (ground arith, λ decided. absurd (decided (ap (λ (d : Decoded). d.0) (sym e))))
next_frame_shrinks (a ∷ b ∷ rest) res r h = elim (Bool-cases (starts a b)) [
  | inl s ↦ frame_at_start-Shrinks (a ∷ b ∷ rest) res r (sym (next_frame_at_start a b rest s) ∙ h)
  | inr s ↦
      let (le, lt) =
        next_frame_shrinks (b ∷ rest) res r (sym (next_frame_advance a b rest s) ∙ h) in
      (omega arith, λ decided. omega (arith, lt decided))
]

abbrev Bounded : List ℕ → List ℕ → Type 0
Bounded r buffer = frame_at_start buffer ≡ (ok none, r) → length r < 260

third_byte : (buffer : List ℕ) → All IsByte buffer → get_or buffer 2 0 < 256
third_byte (_ ∷ (_ ∷ (c ∷ rest))) (_, (_, (hc, _))) = hc
third_byte [] h = omega arith
third_byte (_ ∷ []) h = omega arith
third_byte (_ ∷ _ ∷ []) h = omega arith

short_buffer :
    (buffer : List ℕ)
    → All IsByte buffer
    → (length buffer < 5) ⊎ (length buffer < get_or buffer 2 0 + 5)
    → length buffer < 260
short_buffer buffer bytes (inl h) = omega arith
short_buffer buffer bytes (inr h) = omega (arith, third_byte buffer bytes)

frame_at_start_waits : (buffer r : List ℕ) → All IsByte buffer → Bounded r buffer
frame_at_start_waits buffer r bytes = elim (reading buffer) [
  | waits e short ↦ λ h.
      subst (λ t. length t < 260) (ap (λ (d : Decoded). d.1) (sym e ∙ h))
        (short_buffer buffer bytes short)
  | bad_length a b len p q rest e small ↦
      λ h. cc (frame_at_start_bad_length a b len p q rest small, ap frame_at_start e)
  | whole a b len p payload s₁ s₂ c₁ c₂ e₁ e₂ rest fits e ↦ λ h. ground (
    arith,
    ap frame_at_start e,
    frame_at_start-one_frame a b len p payload s₁ s₂ c₁ c₂ e₁ e₂ rest fits,
  )
]

-- While `next_frame` waits for more bytes it keeps fewer than 260 of them, so a peer cannot make
-- the receive buffer grow without bound.
pub next_frame_waiting_bound :
    (buffer r : List ℕ) → All IsByte buffer → next_frame buffer ≡ (ok none, r) → length r < 260
next_frame_waiting_bound [] r bytes h = let e = sym next_frame-nil ∙ h in ground arith
next_frame_waiting_bound (a ∷ []) r bytes h =
    let e = sym (next_frame-singleton a) ∙ h in ground arith
next_frame_waiting_bound (a ∷ b ∷ rest) r (ha, bytes) h = elim (Bool-cases (starts a b)) [
  | inl s ↦
      frame_at_start_waits (a ∷ b ∷ rest) r (ha, bytes) (sym (next_frame_at_start a b rest s) ∙ h)
  | inr s ↦ next_frame_waiting_bound (b ∷ rest) r bytes (sym (next_frame_advance a b rest s) ∙ h)
]

module _ (a b len p : ℕ) (payload : List ℕ) (s₁ s₂ c₁ c₂ e₁ e₂ : ℕ) (rest : List ℕ) where
  verdict_rest :
      (res : Step) (r : List ℕ)
      → verdict a b len p payload s₁ s₂ c₁ c₂ e₁ e₂ rest ≡ (res, r)
      → (r ≡ b ∷ len ∷ p ∷ (payload ++ (s₁ ∷ s₂ ∷ c₁ ∷ c₂ ∷ e₁ ∷ e₂ ∷ rest))) ⊎ (r ≡ rest)
  verdict_rest res r h = ground arith

  one_frame_rest_bytes :
      (res : Step) (r : List ℕ)
      → All IsByte (one_frame a b len p payload s₁ s₂ c₁ c₂ e₁ e₂ rest)
      → verdict a b len p payload s₁ s₂ c₁ c₂ e₁ e₂ rest ≡ (res, r)
      → All IsByte r
  one_frame_rest_bytes res r (ha, (hb, (hl, (hp, t)))) h = elim (verdict_rest res r h) [
    | inl e ↦ subst (All IsByte) (sym e) (hb, (hl, (hp, t)))
    | inr e ↦
        let (_, (_, (_, (_, (_, (_, k)))))) =
          All-append_right IsByte payload (s₁ ∷ s₂ ∷ c₁ ∷ c₂ ∷ e₁ ∷ e₂ ∷ rest) t in
        subst (All IsByte) (sym e) k
  ]

abbrev KeepsBytes : Step → List ℕ → List ℕ → Type 0
KeepsBytes res r buffer = All IsByte buffer → frame_at_start buffer ≡ (res, r) → All IsByte r

abbrev left_of : Decoded → List ℕ
left_of d = d.1

frame_at_start_bytes : (buffer : List ℕ) (res : Step) (r : List ℕ) → KeepsBytes res r buffer
frame_at_start_bytes buffer res r = elim (reading buffer) [
  | waits e _ ↦ λ bytes h. subst (All IsByte) (ap left_of (sym e ∙ h)) bytes
  | bad_length a b len p q rest e small ↦ subst (KeepsBytes res r) (sym e) (λ bytes h.
      subst (All IsByte) (ap left_of (sym (frame_at_start_bad_length a b len p q rest small) ∙ h))
        bytes.1)
  | whole a b len p payload s₁ s₂ c₁ c₂ e₁ e₂ rest fits e ↦
      subst (KeepsBytes res r) (sym e) (λ bytes h.
        one_frame_rest_bytes a b len p payload s₁ s₂ c₁ c₂ e₁ e₂ rest res r bytes
          (sym (frame_at_start-one_frame a b len p payload s₁ s₂ c₁ c₂ e₁ e₂ rest fits) ∙ h))
]

-- What `next_frame` leaves of a buffer of bytes are bytes.
pub next_frame_bytes :
    (buffer : List ℕ) (res : Step) (r : List ℕ)
    → All IsByte buffer
    → next_frame buffer ≡ (res, r)
    → All IsByte r
next_frame_bytes [] res r bytes h = subst (All IsByte) (ap left_of (sym next_frame-nil ∙ h)) bytes
next_frame_bytes (a ∷ []) res r bytes h =
    subst (All IsByte) (ap left_of (sym (next_frame-singleton a) ∙ h)) bytes
next_frame_bytes (a ∷ b ∷ rest) res r (ha, bytes) h = elim (Bool-cases (starts a b)) [
  | inl s ↦
      frame_at_start_bytes (a ∷ b ∷ rest) res r (ha, bytes)
        (sym (next_frame_at_start a b rest s) ∙ h)
  | inr s ↦ next_frame_bytes (b ∷ rest) res r bytes (sym (next_frame_advance a b rest s) ∙ h)
]

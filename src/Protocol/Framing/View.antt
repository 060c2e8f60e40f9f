-- ===== src/Protocol/Framing/View.antt =====
-- The three things that the body of `next_frame` (src/protocol.rs) can meet behind the start bytes:
-- too few bytes, an impossible length, or a whole frame.
use gt06n_tcp_server.Prelude.{
  ℕ, zero, suc, ◌+◌, ◌-◌, ◌≤◌, ◌<◌, ◌≡◌, refl, sym, ap, ◌∙◌, arith, List, [], ◌∷◌, ◌++◌, ltb,
  ltb→lt, Bool-cases, inl, inr, ◌⊎◌, length, length-drop, get_or, take, drop, take-append-drop, ok,
  err, none,
}
use gt06n_tcp_server.Protocol.{invalid_length}
use gt06n_tcp_server.Protocol.Framing.{frame_at_start}
use gt06n_tcp_server.Protocol.Framing.Shape.{one_frame}

pub data Reading (buffer : List ℕ) : Type 0 where
  waits :
      frame_at_start buffer ≡ (ok none, buffer)
      → (length buffer < 5) ⊎ (length buffer < get_or buffer 2 0 + 5)
      → Reading buffer
  bad_length :
      (a b len p q : ℕ) (rest : List ℕ)
      → buffer ≡ a ∷ b ∷ len ∷ p ∷ q ∷ rest
      → len < 5
      → Reading buffer
  whole :
      (a b len p : ℕ) (payload : List ℕ) (s₁ s₂ c₁ c₂ e₁ e₂ : ℕ) (rest : List ℕ)
      → len ≡ length payload + 5
      → buffer ≡ one_frame a b len p payload s₁ s₂ c₁ c₂ e₁ e₂ rest
      → Reading buffer

-- The last six bytes of a frame, taken off a tail that is long enough.
trailer :
    (t : List ℕ)
    → 6 ≤ length t
    → (s₁ s₂ c₁ c₂ e₁ e₂ : ℕ) × (rest : List ℕ) × (t ≡ s₁ ∷ s₂ ∷ c₁ ∷ c₂ ∷ e₁ ∷ e₂ ∷ rest)
trailer (s₁ ∷ s₂ ∷ c₁ ∷ c₂ ∷ e₁ ∷ e₂ ∷ rest) h = (s₁, s₂, c₁, c₂, e₁, e₂, rest, refl)
trailer [] h = absurd (omega arith)
trailer (_ ∷ []) h = absurd (omega arith)
trailer (_ ∷ _ ∷ []) h = absurd (omega arith)
trailer (_ ∷ _ ∷ _ ∷ []) h = absurd (omega arith)
trailer (_ ∷ _ ∷ _ ∷ _ ∷ []) h = absurd (omega arith)
trailer (_ ∷ _ ∷ _ ∷ _ ∷ _ ∷ []) h = absurd (omega arith)

length-take_le : (n : ℕ) (xs : List ℕ) → n ≤ length xs → length (take n xs) ≡ n
length-take_le zero xs h = refl
length-take_le (suc n) [] h = absurd (omega arith)
length-take_le (suc n) (x ∷ xs) h = ap suc (length-take_le n xs (omega arith))

whole_frame :
    (a b len p : ℕ) (tail : List ℕ)
    → 5 ≤ len
    → len + 5 ≤ length tail + 4
    → Reading (a ∷ b ∷ len ∷ p ∷ tail)
whole_frame a b len p tail h k =
    let n = len - 5 in
    let (s₁, s₂, c₁, c₂, e₁, e₂, rest, e) =
      trailer (drop n tail) (omega (arith, length-drop n tail)) in
    whole a b len p (take n tail) s₁ s₂ c₁ c₂ e₁ e₂ rest (omega (arith, length-take_le n tail))
      (ap (λ t. a ∷ b ∷ len ∷ p ∷ t) (sym (take-append-drop n tail) ∙ ap (λ t. take n tail ++ t) e))

pub reading : (buffer : List ℕ) → Reading buffer
unfolding frame_at_start
reading (a ∷ b ∷ len ∷ p ∷ q ∷ rest) = elim (Bool-cases (ltb len 5)) [
  | inl small ↦ bad_length a b len p q rest refl (ltb→lt len 5 small)
  | inr big ↦ elim (Bool-cases (ltb (length (a ∷ b ∷ len ∷ p ∷ q ∷ rest)) (len + 5))) [
    | inl short ↦ waits (ground arith) (inr (ltb→lt _ _ short))
    | inr long ↦ whole_frame a b len p (q ∷ rest) (ground arith) (ground arith)
  ]
]
reading [] = waits refl (inl (omega arith))
reading (_ ∷ []) = waits refl (inl (omega arith))
reading (_ ∷ _ ∷ []) = waits refl (inl (omega arith))
reading (_ ∷ _ ∷ _ ∷ []) = waits refl (inl (omega arith))
reading (_ ∷ _ ∷ _ ∷ _ ∷ []) = waits refl (inl (omega arith))

pub frame_at_start_bad_length :
    (a b len p q : ℕ) (rest : List ℕ)
    → len < 5
    → frame_at_start (a ∷ b ∷ len ∷ p ∷ q ∷ rest)
      ≡ (err (invalid_length len), b ∷ len ∷ p ∷ q ∷ rest)
unfolding frame_at_start
frame_at_start_bad_length a b len p q rest h = ground arith

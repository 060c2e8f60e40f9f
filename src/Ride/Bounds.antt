-- ===== src/Ride/Bounds.antt =====
-- How long a ride can be said to last (`total_riding_seconds` of src/bot.rs).
use gt06n_tcp_server.Prelude.{
  ℕ, ◌+◌, ◌*◌, ◌≤◌, ◌≡◌, inl, inr, arith, List, [], ◌∷◌, length, false, Bool-cases,
}
use gt06n_tcp_server.Prelude.Int.{pos_part}
use gt06n_tcp_server.Float.{Float64}
use gt06n_tcp_server.Chrono.{Chrono, IsChrono}
use gt06n_tcp_server.Ride.{riding_window, total_riding_seconds}

module _ (fl : Float64) (chrono : Chrono) where
  open chrono use {Instant, before, num_seconds}

  -- `num_seconds` leaves off the part of a second. So the whole seconds of two spans, one behind the
  -- other, are at most those of the span that they make up.
  abbrev pub IsElapsed : Type 0
  IsElapsed =
      (a b c : Instant)
      → before b a ≡ false
      → before c b ≡ false
      → pos_part (num_seconds b a) + pos_part (num_seconds c b) ≤ pos_part (num_seconds c a)

  -- No point is earlier than the one before it.
  unfoldable pub Ascending : Instant × ℕ → List (Instant × ℕ) → Type 0
  Ascending p [] = Unit {0}
  Ascending p (q ∷ rest) = (before q.0 p.0 ≡ false) × Ascending q rest

  unfoldable pub last_of : Instant × ℕ → List (Instant × ℕ) → Instant
  last_of p [] = p.0
  last_of p (q ∷ rest) = last_of q rest

  pub riding_window_bounds :
      (p q : Instant × ℕ)
      → (riding_window fl chrono p q ≤ 300)
        × (riding_window fl chrono p q ≤ pos_part (num_seconds q.0 p.0))
  unfolding riding_window
  riding_window_bounds (p, v) (q, w) = (ground arith, ground arith)

  total_at_most :
      (p : Instant × ℕ) (rest : List (Instant × ℕ))
      → total_riding_seconds fl chrono (p ∷ rest) ≤ 300 * length rest
  unfolding total_riding_seconds
  total_at_most p [] = omega arith
  total_at_most p (q ∷ rest) =
      let a = total_at_most q rest in let b = (riding_window_bounds p q).0 in ground arith

  pub not_before_trans :
      (laws : IsChrono chrono) (a b c : Instant)
      → before b a ≡ false
      → before c b ≡ false
      → before c a ≡ false
  not_before_trans laws a b c h k = elim (Bool-cases (before c a)) [
    | inr not_earlier ↦ not_earlier
    | inl earlier ↦ elim (Bool-cases (before a b)) [
      | inl later ↦ let contrary = laws.before_trans c a b earlier later in cc
      | inr not_later ↦ let same_time = laws.before_total a b not_later h in cc
    ]
  ]

  total_in_span :
      (laws : IsChrono chrono) (elapsed : IsElapsed) (p q : Instant × ℕ) (rest : List (Instant × ℕ))
      → Ascending p (q ∷ rest)
      → (before (last_of q rest) p.0 ≡ false)
        × (total_riding_seconds fl chrono (p ∷ q ∷ rest)
            ≤ pos_part (num_seconds (last_of q rest) p.0))
  unfolding total_riding_seconds Ascending last_of
  total_in_span laws elapsed p q [] (h, k) =
      (h, let b = (riding_window_bounds p q).1 in omega arith)
  total_in_span laws elapsed p q (r ∷ rest) (h, k) =
      let (n, b) = total_in_span laws elapsed q r rest k in
      let s = elapsed p.0 q.0 (last_of r rest) h n in
      let w = (riding_window_bounds p q).1 in
      (not_before_trans laws p.0 q.0 (last_of r rest) h n, omega arith)

  -- The riding time of two or more points, none earlier than the one before it, is at most five minutes
  -- for each step between them, and at most the whole seconds between the first and the last.
  pub total_riding_seconds_bounds :
      (laws : IsChrono chrono) (elapsed : IsElapsed) (p q : Instant × ℕ) (rest : List (Instant × ℕ))
      → Ascending p (q ∷ rest)
      → (total_riding_seconds fl chrono (p ∷ q ∷ rest) ≤ 300 * length (q ∷ rest))
        × (total_riding_seconds fl chrono (p ∷ q ∷ rest)
            ≤ pos_part (num_seconds (last_of q rest) p.0))
  total_riding_seconds_bounds laws elapsed p q rest h =
      (total_at_most p (q ∷ rest), (total_in_span laws elapsed p q rest h).1)

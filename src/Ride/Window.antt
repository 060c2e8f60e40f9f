-- ===== src/Ride/Window.antt =====
-- The riding time of a whole ride summary (src/bot.rs): the rows between two times, in order.
use gt06n_tcp_server.Prelude.{
  ℕ, ◌≤◌, ◌≡◌, inl, inr, refl, arith, List, [], ◌∷◌, map, Bool, Bool-cases, true, false, some,
  if◌then◌else◌, ◌&&◌, not,
}
use gt06n_tcp_server.Prelude.Int.{pos_part}
use gt06n_tcp_server.Float.{Float64}
use gt06n_tcp_server.Chrono.{Chrono, IsChrono}
use gt06n_tcp_server.Protocol.Framing.{bytes_eq}
use gt06n_tcp_server.Tracking.{LocationRow}
use gt06n_tcp_server.Ride.{
  RideSummary, total_riding_seconds, earlier_row, insert_row, rows_between, summary_of,
  summary_of_rows, ride_summary,
}
use gt06n_tcp_server.Ride.Bounds.{IsElapsed, not_before_trans, riding_window_bounds}

module _ (fl : Float64) (chrono : Chrono) (laws : IsChrono chrono) where
  open fl use {F}
  open chrono use {Instant, same, before, num_seconds}

  -- Points in order between two times.
  abbrev InOrder : Instant → Instant → List (Instant × ℕ) → Type 0
  InOrder lo hi [] = before hi lo ≡ false
  InOrder lo hi (p ∷ rest) = (before p.0 lo ≡ false) × InOrder p.0 hi rest

  InOrder-ends :
      (lo hi : Instant) (points : List (Instant × ℕ)) → InOrder lo hi points → before hi lo ≡ false
  InOrder-ends lo hi [] h = h
  InOrder-ends lo hi (p ∷ rest) (h, k) =
      not_before_trans fl chrono laws lo p.0 hi h (InOrder-ends p.0 hi rest k)

  total_until :
      (elapsed : IsElapsed fl chrono) (p : Instant × ℕ) (hi : Instant) (rest : List (Instant × ℕ))
      → InOrder p.0 hi rest
      → total_riding_seconds fl chrono (p ∷ rest) ≤ pos_part (num_seconds hi p.0)
  unfolding total_riding_seconds
  total_until elapsed p hi [] h = omega arith
  total_until elapsed p hi (q ∷ rest) (h, k) =
      let later = total_until elapsed q hi rest k in
      let first = (riding_window_bounds fl chrono p q).1 in
      let sum = elapsed p.0 q.0 hi h (InOrder-ends q.0 hi rest k) in omega arith

  module _ (P N : Type 0) where
    abbrev Row : Type 0
    Row = LocationRow Instant P F N

    abbrev point : Row → Instant × ℕ
    point row = (row.server_received_at, row.columns.speed_kph)

    abbrev Sorted : Instant → Instant → List Row → Type 0
    Sorted lo hi rows = InOrder lo hi (map point rows)

    -- What comes first in the order is not later in time, and what does not is not earlier.
    earlier_row-before :
        (a b : Row)
        → ((earlier_row fl chrono P N a b ≡ true)
            → before b.server_received_at a.server_received_at ≡ false)
          × ((earlier_row fl chrono P N a b ≡ false)
              → before a.server_received_at b.server_received_at ≡ false)
    unfolding earlier_row
    earlier_row-before a b = (
      λ h. elim (Bool-cases (before b.server_received_at a.server_received_at)) [
        | inr no_later ↦ no_later
        | inl later ↦
            let loop =
              laws.before_trans a.server_received_at b.server_received_at a.server_received_at in
            let never = laws.before_irrefl a.server_received_at in
            let eq = laws.same_iff a.server_received_at b.server_received_at in
            ground (arith, h, later, loop, never, eq)
      ],
      λ h. ground (arith, h),
    )

    insert_row-Sorted :
        (lo hi : Instant) (row : Row) (rows : List Row)
        → before row.server_received_at lo ≡ false
        → before hi row.server_received_at ≡ false
        → Sorted lo hi rows
        → Sorted lo hi (insert_row fl chrono P N row rows)
    unfolding insert_row
    insert_row-Sorted lo hi row [] h k s = (h, k)
    insert_row-Sorted lo hi row (r ∷ rows) h k (first, s) =
        elim (Bool-cases (earlier_row fl chrono P N row r)) [
          | inl early ↦ rw early (h, ((earlier_row-before row r).0 early, s))
          | inr late ↦ rw late (
            first,
            insert_row-Sorted r.server_received_at hi row rows ((earlier_row-before row r).1 late) k
                s,
          )
        ]

    rows_between-Sorted :
        (imei : List ℕ) (lo hi : Instant) (rows : List Row)
        → before hi lo ≡ false
        → Sorted lo hi (rows_between fl chrono P N imei lo hi rows)
    unfolding rows_between
    rows_between-Sorted imei lo hi [] h = h
    rows_between-Sorted imei lo hi (row ∷ rows) h =
        let later = rows_between-Sorted imei lo hi rows h in
        at (bytes_eq row.imei imei) (before row.server_received_at lo)
          (before hi row.server_received_at) refl refl later
      where
        at :
            (b c d : Bool)
            → before row.server_received_at lo ≡ c
            → before hi row.server_received_at ≡ d
            → Sorted lo hi (rows_between fl chrono P N imei lo hi rows)
            → Sorted lo hi (
                if b && not c && not d
                then insert_row fl chrono P N row (rows_between fl chrono P N imei lo hi rows)
                else rows_between fl chrono P N imei lo hi rows)
        at false c d p q s = s
        at true true d p q s = s
        at true false true p q s = s
        at true false false p q s =
            insert_row-Sorted lo hi row (rows_between fl chrono P N imei lo hi rows) p q s

    summary_of_rows_bounds :
        (elapsed : IsElapsed fl chrono) (lo hi : Instant) (rows : List Row)
        → Sorted lo hi rows
        → (s : RideSummary F) × (summary_of_rows fl chrono P N rows ≡ some s)
          × (s.riding_seconds ≤ pos_part (num_seconds hi lo))
    unfolding summary_of_rows summary_of
    summary_of_rows_bounds elapsed lo hi [] h = (_, refl, omega arith)
    summary_of_rows_bounds elapsed lo hi (a ∷ []) h = (_, refl, omega arith)
    summary_of_rows_bounds elapsed lo hi (a ∷ b ∷ rows) (h, k) =
        let until = total_until elapsed (point a) hi (map point (b ∷ rows)) k in
        let whole =
          elapsed lo a.server_received_at hi h
            (InOrder-ends a.server_received_at hi (map point (b ∷ rows)) k) in
        (_, refl, omega arith)

    -- A ride that does not end before it starts has a summary, and the riding time in it is at most the
    -- whole seconds from the start to the end of the ride, whatever locations are stored and in whatever
    -- order they stand in the table.
    pub ride_summary_bounds :
        (elapsed : IsElapsed fl chrono) (imei : List ℕ) (started_at ended_at : Instant)
        (rows : List Row)
        → before ended_at started_at ≡ false
        → (s : RideSummary F) × (ride_summary fl chrono P N imei started_at ended_at rows ≡ some s)
          × (s.riding_seconds ≤ pos_part (num_seconds ended_at started_at))
    unfolding ride_summary
    ride_summary_bounds elapsed imei started_at ended_at rows h =
        summary_of_rows_bounds elapsed started_at ended_at
          (rows_between fl chrono P N imei started_at ended_at rows)
          (rows_between-Sorted imei started_at ended_at rows h)

-- ===== src/Distance/Segments.antt =====
-- Which steps between two locations count towards the distance (`accepted_segment_meters` of
-- src/service_distance.rs).
use gt06n_tcp_server.Prelude.{
  ℕ, ltb, ◌&&◌, ◌||◌, not, if◌then◌else◌, ◌≡◌, ◌≤◌, ◌⊎◌, ◌↔◌, refl, ap, ◌∙◌, arith, Bool, true,
  false, Option, none, some,
}
use gt06n_tcp_server.Prelude.Int.{ℤ, pos, negsuc, pos_part, leb_ℤ}
use gt06n_tcp_server.Float.{Float64}
use gt06n_tcp_server.Chrono.{Chrono}
use gt06n_tcp_server.Distance.{
  Point, valid_coordinates, haversine_distance_meters, implied_speed_kph, plausible_segment,
  accepted_segment_meters,
}

module _ (fl : Float64) (chrono : Chrono) where
  open fl use {F, lt, from_int}
  open chrono use {num_seconds}

  -- What makes a step of `m` meters in `n` seconds count.
  abbrev pub IsCounted : Point fl chrono → Point fl chrono → F → ℕ → Type 0
  IsCounted previous current m n =
      (valid_coordinates fl chrono previous.latitude previous.longitude ≡ true)
      × (valid_coordinates fl chrono current.latitude current.longitude ≡ true)
      × (1 ≤ n)
      × (n ≤ 300)
      × ((2 ≤ previous.speed_kph) ⊎ (2 ≤ current.speed_kph))
      × (lt m (from_int 5) ≡ false)
      × (lt (from_int 180) (implied_speed_kph fl chrono m n) ≡ false)

  abbrev meters_between : Point fl chrono → Point fl chrono → F
  meters_between previous current =
      haversine_distance_meters fl chrono previous.latitude previous.longitude current.latitude
        current.longitude

  plausible_segment_iff :
      (d m : F) (n : ℕ)
      → (plausible_segment fl chrono d n ≡ some m) ↔ (
          (m ≡ d)
          × (lt m (from_int 5) ≡ false)
          × (lt (from_int 180) (implied_speed_kph fl chrono m n) ≡ false))
  unfolding plausible_segment
  plausible_segment_iff d m n = (λ h. ground arith, λ (same, far, slow). ground (arith, same))

  -- A step between two locations counts exactly if both have valid coordinates, the second was received
  -- 1 to 300 seconds after the first, one of the two speeds is at least 2 km/h, and the great-circle
  -- distance is not below 5 meters and implies no speed above 180 km/h. It counts with that distance.
  pub accepted_segment_meters_iff :
      (previous current : Point fl chrono) (m : F)
      → (accepted_segment_meters fl chrono previous current ≡ some m) ↔ (
          (n : ℕ) × (num_seconds current.server_received_at previous.server_received_at ≡ pos n)
          × (m
              ≡ haversine_distance_meters fl chrono previous.latitude previous.longitude
                  current.latitude current.longitude)
          × IsCounted previous current m n)
  unfolding accepted_segment_meters
  accepted_segment_meters_iff previous current m =
      at (num_seconds current.server_received_at previous.server_received_at)
    where
      d : F
      d = meters_between previous current

      v : Bool
      v = valid_coordinates fl chrono previous.latitude previous.longitude

      w : Bool
      w = valid_coordinates fl chrono current.latitude current.longitude

      accepted : ℤ → Option F
      accepted gap =
          if not v || not w
          then none
          else if not (leb_ℤ (pos 1) gap && leb_ℤ gap (pos 300))
          then none
          else if ltb previous.speed_kph 2 && ltb current.speed_kph 2
          then none
          else plausible_segment fl chrono d (pos_part gap)

      forward : (n : ℕ) → accepted (pos n) ≡ some m → (m ≡ d) × IsCounted previous current m n
      forward n h = ground (arith, plausible_segment_iff d m n)

      backward : (n : ℕ) → m ≡ d → IsCounted previous current m n → accepted (pos n) ≡ some m
      backward n same h = ground (arith, plausible_segment_iff d m n)

      at :
          (gap : ℤ)
          → (accepted gap ≡ some m)
            ↔ ((n : ℕ) × (gap ≡ pos n) × (m ≡ d) × IsCounted previous current m n)
      at (pos n) = (
        λ h. let (same, counted) = forward n h in (n, refl, same, counted),
        λ (k, eq, same, counted). ap accepted eq ∙ backward k same counted,
      )
      at (negsuc n) = (λ h. ground arith, λ (k, eq, same, h). cc)

-- ===== src/Ride.antt =====
-- src/bot.rs: what the bot reports of a ride, from the locations between its start and its end.
pub mod Bounds
pub mod Tests
pub mod Window
use gt06n_tcp_server.Prelude.{
  ℕ, ◌+◌, ◌*◌, List, [], ◌∷◌, Bool, true, false, ◌&&◌, ◌||◌, not, ltb, leb, if◌then◌else◌, map,
  Option, none, some,
}
use gt06n_tcp_server.Prelude.Int.{ℤ, pos, pos_part, leb_ℤ}
use gt06n_tcp_server.Float.{Float64}
use gt06n_tcp_server.Chrono.{Chrono}
use gt06n_tcp_server.Protocol.Framing.{bytes_eq}
use gt06n_tcp_server.Tracking.{LocationRow}

abbrev pub riding_time_moving_speed_kph : ℕ
riding_time_moving_speed_kph = 3

abbrev pub riding_time_max_point_gap_secs : ℕ
riding_time_max_point_gap_secs = 5 * 60

pub record RideSummary (F : Type 0) : Type 0 where
  pub total_distance_km : F
  pub riding_seconds : ℕ
  pub average_speed_kph : F

module _ (fl : Float64) (chrono : Chrono) where
  open fl use {F, from_int, add, sub, mul, div, lt, sin, cos, sqrt, atan2, to_radians, abs, max}
  open chrono use {Instant, same, before, num_seconds}

  -- `.powi(2)`
  abbrev square : F → F
  square x = mul x x

  pub haversine_distance_km : F × F → F × F → F
  haversine_distance_km (start_latitude, start_longitude) (end_latitude, end_longitude) =
      let start = to_radians start_latitude in
      let end = to_radians end_latitude in
      let delta_latitude = abs (sub end start) in
      let delta_longitude = abs (to_radians (sub end_longitude start_longitude)) in
      let a =
        add (square (sin (div delta_latitude (from_int 2))))
          (mul (mul (cos start) (cos end)) (square (sin (div delta_longitude (from_int 2))))) in
      let c = mul (from_int 2) (atan2 (sqrt a) (sqrt (sub (from_int 1) a))) in mul (from_int 6371) c

  -- The literals 0.08 and 0.5.
  abbrev spike_km : F
  spike_km = div (from_int 8) (from_int 100)

  abbrev half : F
  half = div (from_int 1) (from_int 2)

  is_spike : F × F → F × F → F × F → Bool
  unfolding haversine_distance_km
  is_spike previous current next =
      let distance_from_previous = haversine_distance_km previous current in
      let distance_to_next = haversine_distance_km current next in
      let neighbour_distance = haversine_distance_km previous next in
      lt spike_km distance_from_previous
      && lt spike_km distance_to_next
      && lt neighbour_distance (mul (max distance_from_previous distance_to_next) half)

  -- The points behind the one at `index - 1`; the last of them is always kept.
  pub cleaned_after : F × F → List (F × F) → List (F × F)
  unfolding is_spike
  cleaned_after previous [] = []
  cleaned_after previous (last ∷ []) = last ∷ []
  cleaned_after previous (current ∷ next ∷ rest) =
      let cleaned = cleaned_after current (next ∷ rest) in
      if is_spike previous current next then cleaned else current ∷ cleaned

  -- Fewer than three points have none between others, so they stay.
  pub filter_gps_spike_outliers : List (F × F) → List (F × F)
  unfolding cleaned_after
  filter_gps_spike_outliers [] = []
  filter_gps_spike_outliers (first ∷ rest) = first ∷ cleaned_after first rest

  -- The sum over `windows(2)`.
  pub route_from : F → List (F × F) → F
  unfolding haversine_distance_km
  route_from total [] = total
  route_from total (last ∷ []) = total
  route_from total (start ∷ end ∷ rest) =
      route_from (add total (haversine_distance_km start end)) (end ∷ rest)

  pub total_route_distance_km : List (F × F) → F
  unfolding filter_gps_spike_outliers route_from
  total_route_distance_km points = route_from (from_int 0) (filter_gps_spike_outliers points)

  -- What one window adds to the riding time.
  pub riding_window : Instant × ℕ → Instant × ℕ → ℕ
  riding_window (previous_time, previous_speed) (current_time, current_speed) =
      if ltb previous_speed riding_time_moving_speed_kph
        || ltb current_speed riding_time_moving_speed_kph
      then 0
      else let gap_seconds = num_seconds current_time previous_time in
        if not (leb_ℤ (pos 1) gap_seconds && leb_ℤ gap_seconds (pos riding_time_max_point_gap_secs))
        then 0
        else pos_part gap_seconds

  pub total_riding_seconds : List (Instant × ℕ) → ℕ
  unfolding riding_window
  total_riding_seconds [] = 0
  total_riding_seconds (last ∷ []) = 0
  total_riding_seconds (previous ∷ current ∷ rest) =
      riding_window previous current + total_riding_seconds (current ∷ rest)

  unfoldable pub should_send_ride_summary : Option (RideSummary F) → Bool
  should_send_ride_summary none = false
  should_send_ride_summary (some summary) =
      lt (from_int 0) summary.total_distance_km && ltb 0 summary.riding_seconds

  module _ (P N : Type 0) where
    abbrev Row : Type 0
    Row = LocationRow Instant P F N

    -- `ORDER BY server_received_at ASC, id ASC`
    earlier_row : Row → Row → Bool
    earlier_row a b =
        before a.server_received_at b.server_received_at
        || (same a.server_received_at b.server_received_at && ltb a.id b.id)

    insert_row : Row → List Row → List Row
    unfolding earlier_row
    insert_row row [] = row ∷ []
    insert_row row (r ∷ rows) =
        if earlier_row row r then row ∷ r ∷ rows else r ∷ insert_row row rows

    -- `WHERE imei = $1 AND server_received_at >= $2 AND server_received_at <= $3`, in order.
    unfoldable pub rows_between : List ℕ → Instant → Instant → List Row → List Row
    unfolding insert_row
    rows_between imei started_at ended_at [] = []
    rows_between imei started_at ended_at (row ∷ rows) =
        let later = rows_between imei started_at ended_at rows in
        if bytes_eq row.imei imei
          && not (before row.server_received_at started_at)
          && not (before ended_at row.server_received_at)
        then insert_row row later
        else later

    -- The summary of a list of locations in order.
    pub summary_of : List Row → RideSummary F
    unfolding total_route_distance_km total_riding_seconds
    summary_of rows =
        let total_distance_km =
          total_route_distance_km
            (map (λ (row : Row). (row.columns.latitude, row.columns.longitude)) rows) in
        let riding_seconds =
          total_riding_seconds
            (map (λ (row : Row). (row.server_received_at, row.columns.speed_kph)) rows) in
        let riding_hours = div (from_int riding_seconds) (from_int 3600) in
        record {
          total_distance_km = total_distance_km;
          riding_seconds = riding_seconds;
          average_speed_kph =
              if lt (from_int 0) riding_hours
              then div total_distance_km riding_hours
              else from_int 0;
        }

    -- What `fetch_ride_summary` makes of the rows it reads.
    unfoldable pub summary_of_rows : List Row → Option (RideSummary F)
    unfolding summary_of
    summary_of_rows (a ∷ b ∷ rows) = some (summary_of (a ∷ b ∷ rows))
    summary_of_rows _ = some (record {
      total_distance_km = from_int 0;
      riding_seconds = 0;
      average_speed_kph = from_int 0;
    })

    unfoldable pub ride_summary : List ℕ → Instant → Instant → List Row → Option (RideSummary F)
    unfolding rows_between summary_of_rows
    ride_summary imei started_at ended_at rows =
        summary_of_rows (rows_between imei started_at ended_at rows)

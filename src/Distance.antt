-- ===== src/Distance.antt =====
-- src/service_distance.rs: the distance that a device has travelled, from the locations that it
-- reports. `process_location_distance` runs inside the transaction of its caller. The advisory lock
-- lets one transaction per device at a time go on, so it is a call that may fail and does nothing.
pub mod Backfill
pub mod Ledger
pub mod Segments
pub mod Tests
use gt06n_tcp_server.Prelude.{
  ℕ, ◌+◌, ◌*◌, List, [], ◌∷◌, ◌++◌, Bool, true, false, ◌&&◌, ◌||◌, not, ltb, leb, ◌==◌,
  if◌then◌else◌, map, Option, none, some,
}
use gt06n_tcp_server.Prelude.Int.{ℤ, pos, pos_part, leb_ℤ, eqb_ℤ}
use gt06n_tcp_server.Float.{Float64}
use gt06n_tcp_server.Chrono.{Chrono}
use gt06n_tcp_server.Effects.{M, ◌>>=◌, ◌>>◌, return, call, transaction}
use gt06n_tcp_server.Protocol.Framing.{bytes_eq}
use gt06n_tcp_server.Tracking.{
  LocationRow, OdometerRow, DailyRow, DeviceRow, Devices, find_odometer,
}

abbrev pub wib_offset_seconds : ℕ
wib_offset_seconds = 7 * 60 * 60

abbrev pub max_point_gap_seconds : ℤ
max_point_gap_seconds = pos (5 * 60)

abbrev pub min_reported_moving_speed_kph : ℕ
min_reported_moving_speed_kph = 2

pub record DistanceLocationPoint (I F : Type 0) : Type 0 where
  pub id : ℕ
  pub server_received_at : I
  pub latitude : F
  pub longitude : F
  pub speed_kph : ℕ

module _ (fl : Float64) (chrono : Chrono) where
  open fl use {
    F, from_int, neg, add, sub, mul, div, lt, le, is_finite, sin, cos, sqrt, atan2, to_radians,
  }
  open chrono use {Instant, Date, local_date, num_days, num_seconds}

  abbrev pub Point : Type 0
  Point = DistanceLocationPoint Instant F

  abbrev pub min_segment_meters : F
  min_segment_meters = from_int 5

  abbrev pub max_plausible_speed_kph : F
  max_plausible_speed_kph = from_int 180

  unfoldable pub wib_date : Instant → Date
  wib_date timestamp = local_date wib_offset_seconds timestamp

  -- `(low..=high).contains(&x)`
  abbrev within : F → F → F → Bool
  within low high x = le low x && le x high

  unfoldable pub valid_coordinates : F → F → Bool
  valid_coordinates latitude longitude =
      is_finite latitude
      && is_finite longitude
      && within (neg (from_int 90)) (from_int 90) latitude
      && within (neg (from_int 180)) (from_int 180) longitude

  -- `.powi(2)`
  abbrev square : F → F
  square x = mul x x

  unfoldable pub haversine_distance_meters : F → F → F → F → F
  haversine_distance_meters start_latitude start_longitude end_latitude end_longitude =
      let start = to_radians start_latitude in
      let end = to_radians end_latitude in
      let delta_latitude = sub end start in
      let delta_longitude = to_radians (sub end_longitude start_longitude) in
      let a =
        add (square (sin (div delta_latitude (from_int 2))))
          (mul (mul (cos start) (cos end)) (square (sin (div delta_longitude (from_int 2))))) in
      let c = mul (from_int 2) (atan2 (sqrt a) (sqrt (sub (from_int 1) a))) in
      mul (from_int 6371000) c

  unfoldable pub implied_speed_kph : F → ℕ → F
  implied_speed_kph distance_meters gap_seconds =
      div (div distance_meters (from_int 1000)) (div (from_int gap_seconds) (from_int 3600))

  -- The tests behind the distance, each with its `return None`.
  pub plausible_segment : F → ℕ → Option F
  unfolding implied_speed_kph
  plausible_segment distance_meters gap_seconds =
      if lt distance_meters min_segment_meters
      then none
      else if lt max_plausible_speed_kph (implied_speed_kph distance_meters gap_seconds)
      then none
      else some distance_meters

  unfoldable pub accepted_segment_meters : Point → Point → Option F
  unfolding valid_coordinates haversine_distance_meters plausible_segment
  accepted_segment_meters previous current =
      if not (valid_coordinates previous.latitude previous.longitude)
        || not (valid_coordinates current.latitude current.longitude)
      then none
      else let gap_seconds = num_seconds current.server_received_at previous.server_received_at in
        if not (leb_ℤ (pos 1) gap_seconds && leb_ℤ gap_seconds max_point_gap_seconds)
        then none
        else if ltb previous.speed_kph min_reported_moving_speed_kph
            && ltb current.speed_kph min_reported_moving_speed_kph
        then none
        else plausible_segment
            (haversine_distance_meters previous.latitude previous.longitude current.latitude
              current.longitude)
            (pos_part gap_seconds)

  -- `PreviousDistancePoint`, if no column of the row is NULL.
  abbrev some_point : Option ℕ → Option Instant → Option F → Option F → Option ℕ → Option Point
  some_point (some id) (some at) (some latitude) (some longitude) (some speed_kph) = some (record {
    id = id;
    server_received_at = at;
    latitude = latitude;
    longitude = longitude;
    speed_kph = speed_kph;
  })
  some_point _ _ _ _ _ = none

  unfoldable pub previous_of : Option (OdometerRow Instant F) → Option Point
  previous_of none = none
  previous_of (some row) =
      some_point row.last_processed_location_id row.last_server_received_at row.last_latitude
        row.last_longitude row.last_speed_kph

  -- `point.id <= value.id`
  unfoldable pub is_processed : Option Point → Point → Bool
  is_processed none point = false
  is_processed (some value) point = leb point.id value.id

  unfoldable pub accepted_meters : Option Point → Point → F
  unfolding accepted_segment_meters
  accepted_meters none point = from_int 0
  accepted_meters (some value) point = elim (accepted_segment_meters value point) [
    | none ↦ from_int 0
    | some meters ↦ meters
  ]

  -- The row that the INSERT proposes, and the row that it makes of an old one.
  unfoldable pub odometer_row :
      List ℕ → F → Point → Option (OdometerRow Instant F) → OdometerRow Instant F
  odometer_row imei meters point old = record {
    imei = imei;
    total_distance_meters = elim old [
      | none ↦ meters
      | some row ↦ add row.total_distance_meters meters
    ];
    last_processed_location_id = some point.id;
    last_server_received_at = some point.server_received_at;
    last_latitude = some point.latitude;
    last_longitude = some point.longitude;
    last_speed_kph = some point.speed_kph;
  }

  -- `INSERT … ON CONFLICT (imei) DO UPDATE`
  unfoldable pub upsert_odometer :
      List ℕ → F → Point → List (OdometerRow Instant F) → List (OdometerRow Instant F)
  unfolding odometer_row
  upsert_odometer imei meters point [] = odometer_row imei meters point none ∷ []
  upsert_odometer imei meters point (row ∷ rows) =
      if bytes_eq row.imei imei
      then odometer_row imei meters point (some row) ∷ rows
      else row ∷ upsert_odometer imei meters point rows

  -- Dates are equal if no day lies between them.
  unfoldable pub same_day : Date → Date → Bool
  same_day a b = eqb_ℤ (num_days a b) (pos 0)

  -- `INSERT … ON CONFLICT (imei, distance_date) DO UPDATE`
  unfoldable pub upsert_daily : List ℕ → Date → F → List (DailyRow Date F) → List (DailyRow Date F)
  unfolding same_day
  upsert_daily imei date meters [] =
      (record { imei = imei; distance_date = date; distance_meters = meters }) ∷ []
  upsert_daily imei date meters (row ∷ rows) =
      if bytes_eq row.imei imei && same_day row.distance_date date
      then (record row { distance_meters = add row.distance_meters meters }) ∷ rows
      else row ∷ upsert_daily imei date meters rows

  unfoldable pub insert_point : Point → List Point → List Point
  insert_point p [] = p ∷ []
  insert_point p (q ∷ rest) = if ltb p.id q.id then p ∷ q ∷ rest else q ∷ insert_point p rest

  pub delete_daily : List ℕ → List (DailyRow Date F) → List (DailyRow Date F)
  delete_daily imei [] = []
  delete_daily imei (row ∷ rows) =
      if bytes_eq row.imei imei then delete_daily imei rows else row ∷ delete_daily imei rows

  pub delete_odometer : List ℕ → List (OdometerRow Instant F) → List (OdometerRow Instant F)
  delete_odometer imei [] = []
  delete_odometer imei (row ∷ rows) =
      if bytes_eq row.imei imei then delete_odometer imei rows else row ∷ delete_odometer imei rows

  module _ (P N : Type 0) where
    abbrev pub Store : Type 0
    Store = Devices Instant Date P F N

    unfoldable pub add_odometer : List ℕ → F → Point → M Store (Unit {0})
    unfolding call upsert_odometer
    add_odometer imei meters point =
        call (λ t. (tt, record t { odometers = upsert_odometer imei meters point t.odometers }))

    unfoldable pub add_daily : List ℕ → Point → F → M Store (Unit {0})
    unfolding call upsert_daily wib_date
    add_daily imei point meters =
        if lt (from_int 0) meters
        then call (λ t. (
          tt,
          record t { daily = upsert_daily imei (wib_date point.server_received_at) meters t.daily },
        ))
        else return tt

    -- Behind the lock and the query for the previous point.
    unfoldable pub process_after : List ℕ → Point → Option Point → M Store F
    unfolding is_processed accepted_meters add_odometer add_daily
    process_after imei point previous =
        if is_processed previous point then return (from_int 0) else do
          add_odometer imei (accepted_meters previous point) point
          add_daily imei point (accepted_meters previous point)
          return (accepted_meters previous point)

    unfoldable pub process_location_distance : List ℕ → Point → M Store F
    unfolding call find_odometer previous_of process_after
    process_location_distance imei point = do
      call (λ t. (tt, t))
      previous ← call (λ t. (previous_of (find_odometer imei t.odometers), t))
      process_after imei point previous

    -- The columns that the backfill reads of a location.
    unfoldable pub point_of : LocationRow Instant P F N → Point
    point_of row = record {
      id = row.id;
      server_received_at = row.server_received_at;
      latitude = row.columns.latitude;
      longitude = row.columns.longitude;
      speed_kph = row.columns.speed_kph;
    }

    -- `WHERE imei = $1 ORDER BY id ASC`
    unfoldable pub points_of : List ℕ → List (LocationRow Instant P F N) → List Point
    unfolding point_of insert_point
    points_of imei [] = []
    points_of imei (row ∷ rows) =
        if bytes_eq row.imei imei
        then insert_point (point_of row) (points_of imei rows)
        else points_of imei rows

    -- `for point in points`
    pub process_all : List ℕ → List Point → M Store (Unit {0})
    unfolding process_location_distance
    process_all imei [] = return tt
    process_all imei (point ∷ points) =
        process_location_distance imei point >>= λ _. process_all imei points

    pub rebuild : List ℕ → List Point → M Store (Unit {0})
    unfolding call process_all delete_daily delete_odometer
    rebuild imei points = do
      call (λ t. (tt, record t { daily = delete_daily imei t.daily }))
      call (λ t. (tt, record t { odometers = delete_odometer imei t.odometers }))
      process_all imei points
      call (λ t. (tt, t))

    pub backfill_device_distance : List ℕ → M Store (Unit {0})
    unfolding call points_of transaction rebuild
    backfill_device_distance imei = do
      points ← call (λ t. (points_of imei t.locations, t))
      transaction (rebuild imei points)

    -- `for imei in imeis`, each in its own transaction.
    pub backfill_each : List (List ℕ) → M Store (Unit {0})
    unfolding backfill_device_distance
    backfill_each [] = return tt
    backfill_each (imei ∷ imeis) =
        let later = backfill_each imeis in backfill_device_distance imei >> later

    -- `SELECT imei FROM devices ORDER BY imei ASC`, with the order of the database's texts.
    pub backfill_all_device_distances : (List (List ℕ) → List (List ℕ)) → M Store (Unit {0})
    unfolding call backfill_each
    backfill_all_device_distances in_order = do
      imeis ← call (λ t. (in_order (map (λ (d : DeviceRow Instant P F N). d.imei) t.devices), t))
      backfill_each imeis

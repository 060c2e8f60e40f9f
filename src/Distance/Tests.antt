-- ===== src/Distance/Tests.antt =====
-- Distances (src/service_distance.rs) of a device with two locations twenty meters apart.
use gt06n_tcp_server.Prelude.{ℕ, ◌≡◌, ◌≢◌, ◌↔◌, refl, [], ◌∷◌, List, none, some, ok}
use gt06n_tcp_server.Prelude.Int.{ℤ, pos, ◌-ℤ◌}
use gt06n_tcp_server.Effects.{Env, call, transaction}
use gt06n_tcp_server.Tracking.{LocationRow, find_odometer}
use gt06n_tcp_server.Distance.{
  Point, Store, delete_daily, delete_odometer, points_of, insert_point, point_of,
  haversine_distance_meters, accepted_segment_meters, valid_coordinates, implied_speed_kph,
  plausible_segment, accepted_meters, previous_of, is_processed, odometer_row, upsert_odometer,
  upsert_daily, add_odometer, add_daily, process_after, process_location_distance, process_all,
  rebuild, backfill_device_distance,
}
use gt06n_tcp_server.Distance.Ledger.{replay, ledger_in}
use gt06n_tcp_server.Distance.Backfill.{backfill_device_distance_rebuilds}
use gt06n_tcp_server.Distance.Segments.{IsCounted, accepted_segment_meters_iff}
use gt06n_tcp_server.Tests.Data.{whole, days}

abbrev imei : List ℕ
imei = 0x31 ∷ 0x32 ∷ []

abbrev location : ℕ → ℤ → ℕ → LocationRow ℤ ℕ ℕ ℕ
location id at latitude = record {
  id = id;
  device_id = 1;
  imei = imei;
  server_received_at = at;
  columns = record {
    gps_timestamp = 0;
    protocol_number = 0x12;
    packet_family = "location";
    latitude = latitude;
    longitude = 20;
    speed_kph = 30;
    course = 0;
    course_status = 0;
    satellite_count = 9;
    gps_info_length = 12;
    extra_data_hex = [];
  };
  peer_addr = 0;
}

-- The second location is stored first, and no distance is known yet.
abbrev two_locations : Env (Store whole days ℕ ℕ)
two_locations = record {
  store = record {
    devices = [];
    locations = location 8 (pos 160) 60 ∷ location 7 (pos 100) 20 ∷ [];
    heartbeats = [];
    odometers = [];
    daily = [];
  };
  faults = [];
}

abbrev at_start : Point whole days
at_start = record {
  id = 7;
  server_received_at = pos 100;
  latitude = 20;
  longitude = 20;
  speed_kph = 30;
}

abbrev at_end : Point whole days
at_end = record {
  id = 8;
  server_received_at = pos 160;
  latitude = 60;
  longitude = 20;
  speed_kph = 30;
}

twenty_meters : accepted_segment_meters whole days at_start at_end ≡ some 20
unfolding accepted_segment_meters valid_coordinates haversine_distance_meters plausible_segment
    implied_speed_kph ◌-ℤ◌
twenty_meters = refl

accepted_segment_meters_iff_example :
    (accepted_segment_meters whole days at_start at_end ≡ some 20) ↔ (
      (n : ℕ) × (pos 60 ≡ pos n)
      × (20 ≡ haversine_distance_meters whole days 20 20 60 20)
      × IsCounted whole days at_start at_end 20 n)
unfolding ◌-ℤ◌
accepted_segment_meters_iff_example = accepted_segment_meters_iff whole days at_start at_end 20

abbrev rebuilt : Env (Store whole days ℕ ℕ)
rebuilt = (backfill_device_distance whole days ℕ ℕ imei two_locations).1

rebuilt_ok : backfill_device_distance whole days ℕ ℕ imei two_locations ≡ (ok tt, rebuilt)
unfolding backfill_device_distance call transaction rebuild process_all process_location_distance
    process_after add_odometer add_daily points_of point_of insert_point delete_daily
    delete_odometer find_odometer upsert_odometer odometer_row upsert_daily accepted_meters
    accepted_segment_meters valid_coordinates haversine_distance_meters plausible_segment
    implied_speed_kph previous_of is_processed ◌-ℤ◌
rebuilt_ok = refl

backfill_device_distance_rebuilds_example :
    (ledger_in whole days ℕ ℕ imei rebuilt.store
      ≡ replay whole days imei
          (points_of whole days ℕ ℕ imei two_locations.store.locations)
          (none, []))
    × ((other : List ℕ)
        → other ≢ imei
        → ledger_in whole days ℕ ℕ other rebuilt.store
          ≡ ledger_in whole days ℕ ℕ other two_locations.store)
    × (rebuilt.store.locations ≡ two_locations.store.locations)
    × (rebuilt.store.devices ≡ two_locations.store.devices)
    × (rebuilt.store.heartbeats ≡ two_locations.store.heartbeats)
backfill_device_distance_rebuilds_example =
    backfill_device_distance_rebuilds whole days ℕ ℕ imei two_locations rebuilt rebuilt_ok

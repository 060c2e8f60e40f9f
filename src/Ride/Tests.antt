-- ===== src/Ride/Tests.antt =====
-- The riding time (src/bot.rs) of points that are not whole seconds apart.
use gt06n_tcp_server.Prelude.{
  ℕ, suc, ◌*◌, ◌+◌, ◌/◌, ◌≤◌, ◌≡◌, refl, arith, List, Option, none, some, [], ◌∷◌, false,
}
use gt06n_tcp_server.Prelude.Int.{ℤ, pos, negsuc, pos_part, neg_part, ◌-ℤ◌, ltb_ℤ, -ℤ_parts}
use gt06n_tcp_server.Chrono.{Chrono, IsChrono}
use gt06n_tcp_server.Ride.{
  RideSummary, total_riding_seconds, riding_window, ride_summary, rows_between, insert_row,
  earlier_row, summary_of, summary_of_rows,
}
use gt06n_tcp_server.Ride.Window.{ride_summary_bounds}
use gt06n_tcp_server.Tracking.{LocationRow}
use gt06n_tcp_server.Ride.Bounds.{IsElapsed, Ascending, last_of, total_riding_seconds_bounds}
use gt06n_tcp_server.Tests.Data.{whole, days, days-IsChrono}

-- The whole seconds of a number of tenths, towards zero.
abbrev whole_seconds : ℤ → ℤ
whole_seconds (pos n) = pos (n / 10)
whole_seconds (negsuc n) = pos 0 -ℤ pos (suc n / 10)

-- Instants in tenths of a second.
abbrev tenths : Chrono
tenths = record days { num_seconds = λ a b. whole_seconds (a -ℤ b) }

tenths-IsChrono : IsChrono tenths
tenths-IsChrono = record {
  same_iff = days-IsChrono.same_iff;
  num_days_flip = days-IsChrono.num_days_flip;
  before_trans = days-IsChrono.before_trans;
  before_total = days-IsChrono.before_total;
  before_irrefl = days-IsChrono.before_irrefl;
  add_days_later = days-IsChrono.add_days_later;
  add_days_mono = days-IsChrono.add_days_mono;
  add_days_date = days-IsChrono.add_days_date;
}

-- A difference that is not negative, in tenths.
seconds_of :
    (a b : ℤ)
    → ltb_ℤ a b ≡ false
    → (n : ℕ) × (a -ℤ b ≡ pos n) × (n + pos_part b + neg_part a ≡ pos_part a + neg_part b)
seconds_of a b h = at (a -ℤ b) (-ℤ_parts a b) refl
  where
    at :
        (d : ℤ)
        → pos_part d + neg_part a + pos_part b ≡ neg_part d + pos_part a + neg_part b
        → a -ℤ b ≡ d
        → (n : ℕ) × (a -ℤ b ≡ pos n) × (n + pos_part b + neg_part a ≡ pos_part a + neg_part b)
    at (pos n) q r = (n, r, omega arith)
    at (negsuc n) q r = ground (arith, h, q)

tenths-IsElapsed : IsElapsed whole tenths
tenths-IsElapsed a b c h k =
    let (m, p, x) = seconds_of b a h in
    let (n, q, y) = seconds_of c b k in
    let (l, r, z) = seconds_of c a (ground (arith, h, k)) in
    let sum : m / 10 + n / 10 ≤ l / 10 = omega arith in rw (p, q, r) sum

abbrev first : ℤ × ℕ
first = (pos 1009, 20)

abbrev second : ℤ × ℕ
second = (pos 1604, 30)

abbrev third : ℤ × ℕ
third = (pos 9003, 25)

under_a_minute : total_riding_seconds whole tenths (first ∷ second ∷ third ∷ []) ≡ 59
unfolding total_riding_seconds riding_window ◌-ℤ◌
under_a_minute = refl

in_order : Ascending whole tenths first (second ∷ third ∷ [])
unfolding Ascending
in_order = (refl, (refl, tt))

total_riding_seconds_bounds_example :
    (total_riding_seconds whole tenths (first ∷ second ∷ third ∷ []) ≤ 300 * 2)
    × (total_riding_seconds whole tenths (first ∷ second ∷ third ∷ []) ≤ 799)
unfolding last_of ◌-ℤ◌
total_riding_seconds_bounds_example =
    total_riding_seconds_bounds whole tenths tenths-IsChrono tenths-IsElapsed first second
      (third ∷ []) in_order

abbrev row_at : ℕ → ℤ → LocationRow ℤ ℕ ℕ ℕ
row_at id time = record {
  id = id;
  device_id = 1;
  imei = 0x31 ∷ 0x32 ∷ [];
  server_received_at = time;
  columns = record {
    gps_timestamp = 0;
    protocol_number = 18;
    packet_family = "location";
    latitude = 20;
    longitude = 20;
    speed_kph = 30;
    course = 0;
    course_status = 0;
    satellite_count = 9;
    gps_info_length = 12;
    extra_data_hex = [];
  };
  peer_addr = 9;
}

-- Two of the rows are not between the times, and the others stand in no order.
abbrev rows : List (LocationRow ℤ ℕ ℕ ℕ)
rows =
    row_at 1 (pos 1604)
    ∷ row_at 2 (pos 2100)
    ∷ row_at 3 (pos 1009)
    ∷ row_at 4 (pos 900)
    ∷ row_at 5 (pos 1999)
    ∷ []

abbrev seconds_in : Option (RideSummary ℕ) → ℕ
seconds_in none = 0
seconds_in (some summary) = summary.riding_seconds

ride_seconds :
    seconds_in (ride_summary whole tenths ℕ ℕ (0x31 ∷ 0x32 ∷ []) (pos 1000) (pos 2000) rows) ≡ 98
unfolding ride_summary rows_between insert_row earlier_row summary_of_rows summary_of
    total_riding_seconds riding_window ◌-ℤ◌
ride_seconds = refl

ride_summary_bounds_example :
    (s : RideSummary ℕ) × (ride_summary whole tenths ℕ ℕ
        (0x31 ∷ 0x32 ∷ [])
        (pos 1000)
        (pos 2000)
        rows
      ≡ some s)
    × (s.riding_seconds ≤ 100)
unfolding ◌-ℤ◌
ride_summary_bounds_example =
    ride_summary_bounds whole tenths tenths-IsChrono ℕ ℕ tenths-IsElapsed (0x31 ∷ 0x32 ∷ [])
      (pos 1000) (pos 2000) rows refl

-- ===== src/Database/Tests.antt =====
-- The database handler (src/db.rs) for a device that logs in and reports two locations.
use gt06n_tcp_server.Prelude.{
  ℕ, ◌≡◌, ◌<◌, ◌≤◌, ◌+◌, suc, refl, arith, [], ◌∷◌, List, All, true, false, if◌then◌else◌, leb,
  none, some, Option,
}
use gt06n_tcp_server.Prelude.Int.{ℤ, pos, pos_part}
use gt06n_tcp_server.Effects.{Env}
use gt06n_tcp_server.Events.{DeviceEvent}
use gt06n_tcp_server.Protocol.{GpsTimestamp, LocationPacket}
use gt06n_tcp_server.Tracking.{LocationRow, find_odometer}
use gt06n_tcp_server.Distance.{points_of, Store, backfill_all_device_distances}
use gt06n_tcp_server.Distance.Ledger.{days_of, replay, ledger_in}
use gt06n_tcp_server.Distance.Backfill.{IsReplayed}
use gt06n_tcp_server.Database.{ClockRead, inserting, updating, Sequences, persist_event, handle_all}
use gt06n_tcp_server.Database.Persisted.{
  IsFresh, persist_event-IsReplayed, handle_all-IsReplayed, backfill_all-handle_all,
}
use gt06n_tcp_server.Tests.Data.{whole, days}

abbrev Row : Type 0
Row = LocationRow ℤ ℕ ℕ ℕ

-- An id above all those there are.
abbrev next_id : List Row → ℕ
next_id [] = 1
next_id (row ∷ rows) = suc row.id + next_id rows

below : (rows : List Row) (n : ℕ) → next_id rows ≤ n → All (λ (row : Row). row.id < n) rows
below [] n h = ground arith
below (row ∷ rows) n h = (omega arith, below rows n (omega arith))

abbrev sequences : Sequences ℤ ℕ ℕ ℕ
sequences = record { device_id = λ rows. 1; location_id = next_id; heartbeat_id = λ rows. 1 }

-- The update reads the clock one step after the insert.
abbrev clock : ClockRead → ℤ → ℕ
clock inserting now = pos_part now
clock updating now = suc (pos_part now)

abbrev naive_of : GpsTimestamp → Option ℕ
naive_of t = if leb t.day 31 then some t.minute else none

fresh : IsFresh whole days ℕ ℕ sequences naive_of clock
fresh rows = below rows (next_id rows) (omega arith)

abbrev imei : List ℕ
imei = 0x31 ∷ 0x32 ∷ []

abbrev packet : ℕ → LocationPacket ℕ
packet latitude = record {
  timestamp = record { year = 2025; month = 6; day = 39; hour = 8; minute = 30; second = 0 };
  gps_info_length = 12;
  satellite_count = 9;
  latitude = latitude;
  longitude = 20;
  speed_kph = 30;
  course = 0;
  course_status = 0;
  extra_data = [];
}

abbrev at_latitude : ℕ → DeviceEvent ℕ ℕ
at_latitude latitude = DeviceEvent.location 9 (some imei) (packet latitude)

abbrev empty : Env (Store whole days ℕ ℕ)
empty = record {
  store = record { devices = []; locations = []; heartbeats = []; odometers = []; daily = [] };
  faults = [];
}

-- The same, with a failure of the third statement.
abbrev failing : Env (Store whole days ℕ ℕ)
failing = record empty { faults = false ∷ false ∷ true ∷ [] }

empty-IsReplayed : IsReplayed whole days ℕ ℕ empty.store
unfolding replay find_odometer points_of days_of
empty-IsReplayed device = refl

abbrev events : List (ℤ × DeviceEvent ℕ ℕ)
events =
    (pos 90, DeviceEvent.login 9 imei 1)
    ∷ (pos 100, at_latitude 20)
    ∷ (pos 160, at_latitude 60)
    ∷ []

abbrev handled : Env (Store whole days ℕ ℕ)
handled = handle_all whole days ℕ ℕ sequences naive_of clock events empty

persist_event-IsReplayed_example :
    IsReplayed whole days ℕ ℕ
      (persist_event whole days ℕ ℕ sequences naive_of clock
        (at_latitude 20)
        (pos 100)
        failing).1.store
persist_event-IsReplayed_example =
    persist_event-IsReplayed whole days ℕ ℕ sequences naive_of clock fresh (at_latitude 20)
      (pos 100) failing empty-IsReplayed

handle_all-IsReplayed_example : IsReplayed whole days ℕ ℕ handled.store
handle_all-IsReplayed_example =
    handle_all-IsReplayed whole days ℕ ℕ sequences naive_of clock fresh events empty
      empty-IsReplayed

backfill_all-handle_all_example :
    ledger_in whole days ℕ ℕ imei
      (backfill_all_device_distances whole days ℕ ℕ (λ imeis. imeis) handled).1.store
    ≡ ledger_in whole days ℕ ℕ imei handled.store
backfill_all-handle_all_example =
    backfill_all-handle_all whole days ℕ ℕ sequences naive_of clock fresh (λ imeis. imeis) events
      empty empty-IsReplayed imei

abbrev stored : Env (Store whole days ℕ ℕ)
stored = (persist_event whole days ℕ ℕ sequences naive_of clock (at_latitude 20) (pos 100) empty).1

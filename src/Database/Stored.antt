-- ===== src/Database/Stored.antt =====
-- What a location event stores (`persist_event` of src/db.rs).
use gt06n_tcp_server.Prelude.{
  ℕ, ◌≡◌, List, [], ◌∷◌, ◌++◌, ◌==◌, if◌then◌else◌, is_empty, Option, none, some,
}
use gt06n_tcp_server.Float.{Float64}
use gt06n_tcp_server.Chrono.{Chrono}
use gt06n_tcp_server.Protocol.{GpsTimestamp, LocationPacket}
use gt06n_tcp_server.Tracking.{LocationColumns, LocationRow}
use gt06n_tcp_server.Protocol.Format.{format_bytes_hex}
use gt06n_tcp_server.Distance.{Store, point_of}
use gt06n_tcp_server.Distance.Ledger.{processed}
use gt06n_tcp_server.Database.{
  packet_family, ClockRead, Device, Sequences, find_device, update_device, location_row,
  with_location,
}

module _ (fl : Float64) (chrono : Chrono) (P N : Type 0)
    (next : Sequences (chrono.Instant) P (fl.F) N) (naive_of : GpsTimestamp → Option N)
    (naive_now : ClockRead → chrono.Instant → N) where
  open fl use {F}
  open chrono use {Instant}

  abbrev S : Type 0
  S = Store fl chrono P N

  abbrev D : Type 0
  D = Device fl chrono P N

  abbrev find : List ℕ → List D → Option D
  find imei rows = find_device fl chrono P N next naive_of naive_now imei rows

  abbrev update : ℕ → (D → D) → List D → List D
  update pk set rows = update_device fl chrono P N next naive_of naive_now pk set rows

  abbrev put : ℕ → (D → D) → D → D
  put pk set row = if row.id == pk then set row else row

  abbrev map_put : ℕ → (D → D) → Option D → Option D
  map_put pk set found = elim found [ none ↦ none | some row ↦ some (put pk set row) ]

  abbrev row_of : ℕ → List ℕ → P → Instant → LocationPacket F → S → LocationRow Instant P F N
  row_of pk imei peer at packet t =
      location_row fl chrono P N next naive_of naive_now pk imei peer at packet t.locations

  -- The store between the last-seen update of a device and the end of a location's transaction.
  abbrev stored : ℕ → List ℕ → P → Instant → LocationPacket F → S → S
  stored pk imei peer now packet t =
      let row = row_of pk imei peer now packet t in
      let u =
        processed fl chrono P N imei (point_of fl chrono P N row)
          (record t { locations = t.locations ++ (row ∷ []) }) in
      record u {
        devices =
            update pk (with_location fl chrono P N next naive_of naive_now peer now packet)
              u.devices;
      }

  -- The columns `columns` hold the packet: each its own field, the hexadecimal text of what follows the
  -- classic fields, protocol and family as there is something or not, and the packet's own time or, for a
  -- date that does not exist, `present`.
  unfoldable pub Holds : N → LocationPacket F → LocationColumns F N → Type 0
  Holds present packet columns =
      (columns.latitude ≡ packet.latitude)
      × (columns.longitude ≡ packet.longitude)
      × (columns.speed_kph ≡ packet.speed_kph)
      × (columns.course ≡ packet.course)
      × (columns.course_status ≡ packet.course_status)
      × (columns.satellite_count ≡ packet.satellite_count)
      × (columns.gps_info_length ≡ packet.gps_info_length)
      × (columns.gps_timestamp
          ≡ elim (naive_of packet.timestamp) [ none ↦ present | some naive ↦ naive ])
      × (columns.protocol_number ≡ (if is_empty packet.extra_data then 0x12 else 0x22))
      × (columns.packet_family
          ≡ (if is_empty packet.extra_data then "location" else "extended_location"))
      × (columns.extra_data_hex ≡ format_bytes_hex packet.extra_data)

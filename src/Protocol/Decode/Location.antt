-- ===== src/Protocol/Decode/Location.antt =====
-- The location packet (src/protocol.rs) against an encoder of its fields.
use gt06n_tcp_server.Prelude.{
  ℕ, ◌+◌, ◌*◌, ◌/◌, ◌%◌, ◌^◌, ◌<◌, ◌≡◌, refl, arith, List, [], ◌∷◌, ◌++◌, true, ◌&&◌, ◌==◌,
  if◌then◌else◌, take, ok,
}
use gt06n_tcp_server.Prelude.Bits.{passes_below, passes_below_at}
use gt06n_tcp_server.Float.{Float64}
use gt06n_tcp_server.Protocol.{location, protocol_location, TimestampEncoding, HemisphereEncoding}
use gt06n_tcp_server.Protocol.Framing.{to_be_bytes}
use gt06n_tcp_server.Protocol.Decode.{
  bcd_to_decimal, decode_coordinates, decode_timestamp, location_packet, decode_message,
}
use gt06n_tcp_server.Protocol.Decode.Imei.{low_nibble}
use Prim.Native.Nat.{bit_and}

abbrev pub to_bcd : ℕ → ℕ
to_bcd n = n / 10 * 16 + n % 10

abbrev pub to_be_u32 : ℕ → List ℕ
to_be_u32 n = n / 16777216 ∷ n / 65536 % 256 ∷ n / 256 % 256 ∷ n % 256 ∷ []

bcd_table : passes_below 100 (λ n. bcd_to_decimal (to_bcd n) == n) ≡ true
unfolding passes_below bcd_to_decimal
bcd_table = refl

pub bcd_to_decimal-to_bcd : (n : ℕ) → n < 100 → bcd_to_decimal (to_bcd n) ≡ n
bcd_to_decimal-to_bcd n h = ground (arith, passes_below_at 100 _ n bcd_table h)

word_table :
    passes_below 65536 (λ w.
      (bit_and w 0x03FF == w % 1024)
      && ((if bit_and w 0x0400 == 0 then w / 1024 % 2 == 0 else w / 1024 % 2 == 1)
          && (if bit_and w 0x0800 == 0 then w / 2048 % 2 == 0 else w / 2048 % 2 == 1)))
    ≡ true
unfolding passes_below
word_table = refl

word_bits :
    (w : ℕ)
    → w < 65536
    → (bit_and w 0x03FF ≡ w % 1024)
      × ((bit_and w 0x0400 == 0) ≡ (w / 1024 % 2 == 0))
      × ((bit_and w 0x0800 == 0) ≡ (w / 2048 % 2 == 0))
word_bits w h = ground (arith, passes_below_at 65536 _ w word_table h)

module _ (fl : Float64) (y mo d h mi s gps sats lat lon speed course south west upper : ℕ) where
  -- The course word: ten bits of course, a bit for south, a bit for west, four more bits.
  abbrev pub course_word : ℕ
  course_word = course + south * 1024 + west * 2048 + upper * 4096

  -- The 18 bytes of a classic location packet, times in binary-coded decimals.
  abbrev pub location_payload : List ℕ
  location_payload =
      to_bcd y
      ∷ to_bcd mo
      ∷ to_bcd d
      ∷ to_bcd h
      ∷ to_bcd mi
      ∷ to_bcd s
      ∷ (gps * 16 + sats)
      ∷ (to_be_u32 lat ++ (to_be_u32 lon ++ (speed ∷ to_be_bytes course_word)))

  abbrev degrees : ℕ → ℕ → fl.F
  degrees raw negative =
      let value = fl.div (fl.from_int raw) (fl.from_int 1_800_000) in
      if negative == 1 then fl.neg value else value

  abbrev pub IsFix : Type 0
  IsFix =
      (lat < 2 ^ 32)
      × (lon < 2 ^ 32)
      × (speed < 256)
      × (y < 100)
      × (mo < 100)
      × (d < 100)
      × (h < 100)
      × (mi < 100)
      × (s < 100)
      × (gps < 16)
      × (sats < 16)
      × (course < 1024)
      × (south < 2)
      × (west < 2)
      × (upper < 16)

  hemisphere :
      IsFix
      → decode_coordinates fl lat lon course_word HemisphereEncoding.classic_gt06
        ≡ (degrees lat south, degrees lon west)
  unfolding decode_coordinates
  hemisphere fix = let (_, ns, ew) = word_bits course_word (omega arith) in ground arith

  times :
      IsFix
      → decode_timestamp (take 6 location_payload) TimestampEncoding.bcd
        ≡ record { year = 2000 + y; month = mo; day = d; hour = h; minute = mi; second = s }
  unfolding decode_timestamp
  times fix = ground (
    arith,
    bcd_to_decimal-to_bcd y (omega arith),
    bcd_to_decimal-to_bcd mo (omega arith),
    bcd_to_decimal-to_bcd d (omega arith),
    bcd_to_decimal-to_bcd h (omega arith),
    bcd_to_decimal-to_bcd mi (omega arith),
    bcd_to_decimal-to_bcd s (omega arith),
  )

  -- A classic location packet is decoded to the fix that the device encoded: the date and time, the
  -- satellites, the raw coordinates over 1,800,000 with a minus sign for south and for west, the
  -- speed and the course.
  pub decode_message-location :
      (serial : ℕ)
      → IsFix
      → decode_message fl (record {
        protocol_number = protocol_location;
        payload = location_payload;
        serial = serial;
      })
        ≡ ok (
            location (record {
              timestamp = record {
                year = 2000 + y;
                month = mo;
                day = d;
                hour = h;
                minute = mi;
                second = s;
              };
              gps_info_length = gps;
              satellite_count = sats;
              latitude = degrees lat south;
              longitude = degrees lon west;
              speed_kph = speed;
              course = course;
              course_status = course_word;
              extra_data = [];
            }))
  unfolding decode_message location_packet
  decode_message-location serial fix =
      let (low, _, _) = word_bits course_word (omega arith) in
      ground (arith, times fix, hemisphere fix, low_nibble (gps * 16 + sats) (omega arith), low)

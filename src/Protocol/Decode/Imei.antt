-- ===== src/Protocol/Decode/Imei.antt =====
-- `decode_bcd_imei` and the login packet (src/protocol.rs) against the packing of an identity into
-- half-bytes.
use gt06n_tcp_server.Prelude.{
  ℕ, suc, ◌+◌, ◌*◌, ◌/◌, ◌%◌, ◌≤◌, ◌<◌, ◌≡◌, ◌↔◌, ◌⊎◌, refl, sym, ap, arith, List, [], ◌∷◌, ◌++◌,
  map, true, ◌&&◌, Bool-cases, inl, inr, ltb-false, ◌==◌, if◌then◌else◌, length, length-map,
  length-append, drop, take-eq, drop-eq, All, ok,
}
use gt06n_tcp_server.Prelude.Bits.{passes_below, passes_below_at}
use gt06n_tcp_server.Float.{Float64}
use gt06n_tcp_server.Protocol.{IsByte, login, protocol_login}
use gt06n_tcp_server.Protocol.Decode.{imei_digits, starts_with, decode_bcd_imei, decode_message}
use Prim.Native.Nat.{bit_and}

nibble_table :
    passes_below 256 (λ b. (bit_and (b / 16) 0x0F == b / 16) && (bit_and b 0x0F == b % 16)) ≡ true
unfolding passes_below
nibble_table = refl

pub high_nibble : (b : ℕ) → b < 256 → bit_and (b / 16) 0x0F ≡ b / 16
high_nibble b h = ground (arith, passes_below_at 256 _ b nibble_table h)

pub low_nibble : (b : ℕ) → b < 256 → bit_and b 0x0F ≡ b % 16
low_nibble b h = ground (arith, passes_below_at 256 _ b nibble_table h)

-- Half-bytes, two to a byte, the first one in the upper half.
pub pack_nibbles : List ℕ → List ℕ
pack_nibbles [] = []
pack_nibbles (h ∷ []) = h * 16 ∷ []
pack_nibbles (h ∷ l ∷ rest) = (h * 16 + l) ∷ pack_nibbles rest

abbrev pub to_char : ℕ → ℕ
to_char d = b'0' + d

abbrev pub IsDecimal : ℕ → Type 0
IsDecimal d = d < 10

imei_digits-pack_nibbles :
    (k : ℕ) (ds : List ℕ)
    → length ds ≡ k + k
    → All IsDecimal ds
    → imei_digits (pack_nibbles ds) ≡ map to_char ds
unfolding imei_digits pack_nibbles
imei_digits-pack_nibbles k [] e h = refl
imei_digits-pack_nibbles k (d ∷ []) e h = absurd (omega arith)
imei_digits-pack_nibbles ℕ.zero (d ∷ c ∷ ds) e h = absurd (omega arith)
imei_digits-pack_nibbles (suc k) (d ∷ c ∷ ds) e (hd, (hc, h)) = ground (
  arith,
  high_nibble (d * 16 + c) (omega arith),
  low_nibble (d * 16 + c) (omega arith),
  imei_digits-pack_nibbles k ds (omega arith) h,
)

length-pack_nibbles : (k : ℕ) (ds : List ℕ) → length ds ≡ k + k → length (pack_nibbles ds) ≡ k
unfolding pack_nibbles
length-pack_nibbles ℕ.zero [] e = refl
length-pack_nibbles (suc k) [] e = absurd (omega arith)
length-pack_nibbles k (d ∷ []) e = absurd (omega arith)
length-pack_nibbles ℕ.zero (d ∷ c ∷ ds) e = absurd (omega arith)
length-pack_nibbles (suc k) (d ∷ c ∷ ds) e = ap suc (length-pack_nibbles k ds (omega arith))

decode_bcd_imei-pack_nibbles :
    (ds : List ℕ)
    → length ds ≡ 15
    → All IsDecimal ds
    → decode_bcd_imei (pack_nibbles (0 ∷ ds)) ≡ map to_char ds
unfolding decode_bcd_imei
decode_bcd_imei-pack_nibbles ds e h =
    rw (imei_digits-pack_nibbles 8 (0 ∷ ds) (omega arith) (omega arith, h))
      (ground (arith, length-map to_char ds))

-- A login packet whose first eight bytes carry a 15-digit IMEI behind a zero half-byte is decoded
-- to exactly that IMEI in text, and the bytes behind it are its extra data.
pub decode_message-login :
    (fl : Float64) (ds extra : List ℕ) (serial : ℕ)
    → length ds ≡ 15
    → All IsDecimal ds
    → decode_message fl (record {
      protocol_number = protocol_login;
      payload = pack_nibbles (0 ∷ ds) ++ extra;
      serial = serial;
    })
      ≡ ok (login (record { imei = map to_char ds; extra_data = extra }))
unfolding decode_message
decode_message-login fl ds extra serial e h =
    let packed = pack_nibbles (0 ∷ ds) in
    let eight : length packed ≡ 8 = length-pack_nibbles 8 (0 ∷ ds) (omega arith) in
    rw
      (
        ltb-false (length (packed ++ extra)) 8 (omega (arith, length-append packed extra)),
        take-eq 8 (packed ++ extra) packed extra refl (sym eight),
        drop-eq 8 (packed ++ extra) packed extra refl (sym eight),
        decode_bcd_imei-pack_nibbles ds e h,
      )
      refl

abbrev pub IsDigit : ℕ → Type 0
IsDigit c = (b'0' ≤ c) × (c ≤ b'9')

abbrev pub IsBcd : ℕ → Type 0
IsBcd b = (b / 16 < 10) × (b % 16 < 10)

imei_digits-IsDigit :
    (bytes : List ℕ) → All IsByte bytes → All IsBcd bytes → All IsDigit (imei_digits bytes)
unfolding imei_digits
imei_digits-IsDigit [] hb h = tt
imei_digits-IsDigit (b ∷ bytes) (hb, hbs) (h, hs) =
    let hi = high_nibble b hb in
    let lo = low_nibble b hb in (omega arith, (omega arith, imei_digits-IsDigit bytes hbs hs))

imei_digits-IsBcd :
    (bytes : List ℕ) → All IsByte bytes → All IsDigit (imei_digits bytes) → All IsBcd bytes
unfolding imei_digits
imei_digits-IsBcd [] hb h = tt
imei_digits-IsBcd (b ∷ bytes) (hb, hbs) (h, (k, hs)) =
    let hi = high_nibble b hb in
    let lo = low_nibble b hb in (omega arith, imei_digits-IsBcd bytes hbs hs)

length-imei_digits : (bytes : List ℕ) → length (imei_digits bytes) ≡ length bytes + length bytes
unfolding imei_digits
length-imei_digits [] = refl
length-imei_digits (b ∷ bytes) = omega (arith, length-imei_digits bytes)

-- Dropping a leading '0' does not change whether all characters are digits.
strip_digits :
    (l : List ℕ)
    → All IsDigit (if length l == 16 && starts_with b'0' l then drop 1 l else l) ↔ All IsDigit l
unfolding starts_with
strip_digits [] = (λ h. h, λ h. h)
strip_digits (c ∷ l) = elim (Bool-cases (length (c ∷ l) == 16 && c == b'0')) [
  | inl e ↦ rw e (λ h. (ground arith, h), λ h. h.1)
  | inr e ↦ rw e (λ h. h, λ h. h)
]

-- The identity of eight bytes has 15 or 16 characters, and it is made of decimal digits exactly
-- when every half-byte is one: other bytes are accepted, and give other characters.
pub decode_bcd_imei_decimal :
    (bytes : List ℕ)
    → All IsByte bytes
    → length bytes ≡ 8
    → ((length (decode_bcd_imei bytes) ≡ 15) ⊎ (length (decode_bcd_imei bytes) ≡ 16))
      × (All IsDigit (decode_bcd_imei bytes) ↔ All IsBcd bytes)
unfolding decode_bcd_imei
decode_bcd_imei_decimal bytes hb e =
    let strip = strip_digits (imei_digits bytes) in
    (
      stripped_length (imei_digits bytes) (omega (arith, length-imei_digits bytes)),
      (λ h. imei_digits-IsBcd bytes hb (strip.0 h), λ h. strip.1 (imei_digits-IsDigit bytes hb h)),
    )
  where
    stripped_length :
        (l : List ℕ)
        → length l ≡ 16
        → let s = (if length l == 16 && starts_with b'0' l then drop 1 l else l) in
          (length s ≡ 15) ⊎ (length s ≡ 16)
    stripped_length [] h = absurd (omega arith)
    stripped_length (c ∷ l) h = ground arith

-- ===== src/Protocol/Format/Hex.antt =====
-- `format_bytes_hex` and `format_byte_bits` (src/protocol.rs) against readers of their output.
use gt06n_tcp_server.Prelude.{
  ℕ, ◌+◌, ◌-◌, ◌*◌, ◌/◌, ◌<◌, ◌≡◌, refl, ap, arith, List, [], ◌∷◌, ◌++◌, true, leb, ◌==◌,
  if◌then◌else◌, length, All,
}
use gt06n_tcp_server.Prelude.Bits.{passes_below, passes_below_at}
use gt06n_tcp_server.Protocol.{IsByte}
use gt06n_tcp_server.Protocol.Format.{nibble_to_hex, hex_byte, format_rest, format_bytes_hex}
use Prim.Native.Nat.{bit_and}

-- The value of a hexadecimal digit.
abbrev pub hex_value : ℕ → ℕ
hex_value c = if leb c b'9' then c - b'0' else c - b'A' + 10

-- A reader of space-separated pairs of digits.
pub parse_hex : List ℕ → List ℕ
parse_hex (hi ∷ lo ∷ _ ∷ rest) = (hex_value hi * 16 + hex_value lo) ∷ parse_hex rest
parse_hex (hi ∷ lo ∷ []) = (hex_value hi * 16 + hex_value lo) ∷ []
parse_hex (_ ∷ []) = []
parse_hex [] = []

hex_table :
    passes_below 256 (λ b.
      hex_value (nibble_to_hex (b / 16)) * 16 + hex_value (nibble_to_hex (bit_and b 0x0F)) == b)
    ≡ true
unfolding passes_below nibble_to_hex
hex_table = refl

hex_pair :
    (b : ℕ)
    → b < 256
    → hex_value (nibble_to_hex (b / 16)) * 16 + hex_value (nibble_to_hex (bit_and b 0x0F)) ≡ b
hex_pair b h = ground (arith, passes_below_at 256 _ b hex_table h)

parse_hex-format_rest :
    (b : ℕ) (bytes : List ℕ)
    → b < 256
    → All IsByte bytes
    → parse_hex (hex_byte b ++ format_rest bytes) ≡ b ∷ bytes
unfolding parse_hex hex_byte format_rest
parse_hex-format_rest b [] h hs = ap (λ t. t ∷ []) (hex_pair b h)
parse_hex-format_rest b (c ∷ bytes) h (hc, hs) =
    cc (hex_pair b h, parse_hex-format_rest c bytes hc hs)

length-format_rest : (bytes : List ℕ) → length (format_rest bytes) ≡ 3 * length bytes
unfolding format_rest
length-format_rest [] = refl
length-format_rest (b ∷ bytes) = omega (arith, length-format_rest bytes)

-- The hexadecimal text of a byte string determines it, and has exactly the 3 * n - 1 characters
-- for which the code reserves room (none for no bytes).
pub format_bytes_hex_reads_back :
    (bytes : List ℕ)
    → All IsByte bytes
    → (parse_hex (format_bytes_hex bytes) ≡ bytes)
      × (length (format_bytes_hex bytes) ≡ 3 * length bytes - 1)
unfolding format_bytes_hex
format_bytes_hex_reads_back [] h = (unfold parse_hex in refl, refl)
format_bytes_hex_reads_back (b ∷ bytes) (hb, h) =
    (parse_hex-format_rest b bytes hb h, omega (arith, length-format_rest bytes))

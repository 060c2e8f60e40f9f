-- ===== src/Protocol/Crc/Detection.antt =====
-- `crc16_x25` (src/protocol.rs) as a check: its width, and why no single altered byte passes it.
use gt06n_tcp_server.Prelude.{
  ℕ, zero, suc, ◌+◌, ◌*◌, ◌<◌, ◌≡◌, ◌≢◌, refl, sym, ap, ◌∙◌, arith, List, [], ◌∷◌, ◌++◌, Bool, ◌&&◌,
  ltb, ◌==◌, if◌then◌else◌, All, All-append,
}
use gt06n_tcp_server.Prelude.Bits.{
  passes_below, passes_below_at, bit_xor_cancel, bit_xor_cancel_left, bit_xor-lt,
}
use gt06n_tcp_server.Protocol.{IsByte}
use gt06n_tcp_server.Protocol.Crc.{crc_round, crc_rounds, crc_byte, crc_from, crc16_x25}
use Prim.Native.Nat.{bit_xor}

-- One round backwards: the top bit tells which branch was taken.
round_back : ℕ → ℕ
round_back y = if ltb y 0x8000 then y * 2 else bit_xor y 0x8408 * 2 + 1

round_table :
    passes_below 65536 (λ x. (round_back (crc_round x) == x) && ltb (crc_round x) 65536) ≡ Bool.true
unfolding passes_below crc_round round_back
round_table = refl

crc_round-lt : (x : ℕ) → x < 65536 → crc_round x < 65536
crc_round-lt x h = ground (arith, passes_below_at 65536 _ x round_table h)

crc_round_back : (x : ℕ) → x < 65536 → round_back (crc_round x) ≡ x
crc_round_back x h = ground (arith, passes_below_at 65536 _ x round_table h)

crc_round_injective : (x y : ℕ) → x < 65536 → y < 65536 → crc_round x ≡ crc_round y → x ≡ y
crc_round_injective x y h k e = sym (crc_round_back x h) ∙ ap round_back e ∙ crc_round_back y k

crc_rounds-lt : (n x : ℕ) → x < 65536 → crc_rounds n x < 65536
unfolding crc_rounds
crc_rounds-lt zero x h = h
crc_rounds-lt (suc n) x h = crc_rounds-lt n (crc_round x) (crc_round-lt x h)

crc_rounds_injective : (n x y : ℕ) → x < 65536 → y < 65536 → crc_rounds n x ≡ crc_rounds n y → x ≡ y
unfolding crc_rounds
crc_rounds_injective zero x y h k e = e
crc_rounds_injective (suc n) x y h k e =
    crc_round_injective x y h k
      (crc_rounds_injective n (crc_round x) (crc_round y) (crc_round-lt x h) (crc_round-lt y k) e)

crc_byte-lt : (crc byte : ℕ) → crc < 65536 → byte < 256 → crc_byte crc byte < 65536
unfolding crc_byte
crc_byte-lt crc byte h k = crc_rounds-lt 8 _ (bit_xor-lt 16 crc byte h (omega arith))

crc_byte_injective :
    (c d byte : ℕ) → c < 65536 → d < 65536 → byte < 256 → crc_byte c byte ≡ crc_byte d byte → c ≡ d
unfolding crc_byte
crc_byte_injective c d byte hc hd hb e = bit_xor_cancel c d byte (
    crc_rounds_injective 8 _ _ (bit_xor-lt 16 c byte hc (omega arith))
      (bit_xor-lt 16 d byte hd (omega arith)) e)

crc_byte_injective_byte :
    (crc x y : ℕ) → crc < 65536 → x < 256 → y < 256 → crc_byte crc x ≡ crc_byte crc y → x ≡ y
unfolding crc_byte
crc_byte_injective_byte crc x y hc hx hy e = bit_xor_cancel_left x y crc (
    crc_rounds_injective 8 _ _ (bit_xor-lt 16 crc x hc (omega arith))
      (bit_xor-lt 16 crc y hc (omega arith)) e)

crc_from-lt :
    (crc : ℕ) (bytes : List ℕ) → crc < 65536 → All IsByte bytes → crc_from crc bytes < 65536
unfolding crc_from
crc_from-lt crc [] h k = h
crc_from-lt crc (b ∷ bytes) h (hb, k) =
    crc_from-lt (crc_byte crc b) bytes (crc_byte-lt crc b h hb) k

crc_from_injective :
    (c d : ℕ) (bytes : List ℕ)
    → c < 65536
    → d < 65536
    → All IsByte bytes
    → crc_from c bytes ≡ crc_from d bytes
    → c ≡ d
unfolding crc_from
crc_from_injective c d [] hc hd k e = e
crc_from_injective c d (b ∷ bytes) hc hd (hb, k) e = crc_byte_injective c d b hc hd hb (
    crc_from_injective (crc_byte c b) (crc_byte d b) bytes (crc_byte-lt c b hc hb)
      (crc_byte-lt d b hd hb) k e)

crc_from_altered :
    (crc : ℕ) (front : List ℕ) (x y : ℕ) (back : List ℕ)
    → crc < 65536
    → All IsByte front
    → x < 256
    → y < 256
    → All IsByte back
    → crc_from crc (front ++ (x ∷ back)) ≡ crc_from crc (front ++ (y ∷ back))
    → x ≡ y
unfolding crc_from
crc_from_altered crc [] x y back hc hf hx hy hb e = crc_byte_injective_byte crc x y hc hx hy (
    crc_from_injective (crc_byte crc x) (crc_byte crc y) back (crc_byte-lt crc x hc hx)
      (crc_byte-lt crc y hc hy) hb e)
crc_from_altered crc (a ∷ front) x y back hc (ha, hf) hx hy hb e =
    crc_from_altered (crc_byte crc a) front x y back (crc_byte-lt crc a hc ha) hf hx hy hb e

-- The checksum is a 16-bit number, and two byte strings that differ in exactly one byte have
-- different checksums.
pub crc16_x25_altered :
    (front : List ℕ) (x y : ℕ) (back : List ℕ)
    → All IsByte front
    → x < 256
    → y < 256
    → All IsByte back
    → x ≢ y
    → (crc16_x25 (front ++ (x ∷ back)) < 65536)
      × (crc16_x25 (front ++ (x ∷ back)) ≢ crc16_x25 (front ++ (y ∷ back)))
unfolding crc16_x25
crc16_x25_altered front x y back hf hx hy hb d = (
  omega arith,
  λ e. d (
      crc_from_altered 0xFFFF front x y back (omega arith) hf hx hy hb (
        omega (
          arith,
          crc_from-lt 0xFFFF (front ++ (x ∷ back)) (omega arith)
              (All-append IsByte front _ hf (hx, hb)),
          crc_from-lt 0xFFFF (front ++ (y ∷ back)) (omega arith)
              (All-append IsByte front _ hf (hy, hb)),
        ))),
)

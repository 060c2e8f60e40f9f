-- ===== src/Protocol/Crc.antt =====
-- src/protocol.rs: `crc16_x25`, bit by bit as the code computes it.
pub mod Detection
use gt06n_tcp_server.Prelude.{ℕ, zero, suc, ◌-◌, ◌/◌, List, [], ◌∷◌, ◌==◌, not, if◌then◌else◌}
use Prim.Native.Nat.{bit_and, bit_xor}

-- One round of the inner loop.
crc_round : ℕ → ℕ
crc_round crc = if not (bit_and crc 0x0001 == 0) then bit_xor (crc / 2) 0x8408 else crc / 2

-- `for _ in 0..8`
crc_rounds : ℕ → ℕ → ℕ
crc_rounds zero crc = crc
crc_rounds (suc n) crc = crc_rounds n (crc_round crc)

crc_byte : ℕ → ℕ → ℕ
unfolding crc_round crc_rounds
crc_byte crc byte = crc_rounds 8 (bit_xor crc byte)

-- `for byte in data`
crc_from : ℕ → List ℕ → ℕ
unfolding crc_byte
crc_from crc [] = crc
crc_from crc (byte ∷ rest) = crc_from (crc_byte crc byte) rest

-- `!crc` on 16 bits is the difference from 0xFFFF.
unfoldable pub crc16_x25 : List ℕ → ℕ
unfolding crc_from
crc16_x25 bytes = 0xFFFF - crc_from 0xFFFF bytes

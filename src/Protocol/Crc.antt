-- ===== src/Protocol/Crc.antt =====
-- The CRC-8/MAXIM checksum of a protocol line (src/etst/protocol.py, `compute_crc8`).
pub mod Detect
use Prim.Native.Nat.{bit_and, bit_xor}
use embedded_test_runner.Base.{ℕ, zero, suc, ◌*◌, List, [], ◌∷◌, ◌==◌, if◌then◌else◌, Text}
use embedded_test_runner.Protocol.Utf8.{encode}

abbrev pub crc8_poly : ℕ
crc8_poly = 0x31

abbrev pub crc8_init : ℕ
crc8_init = 0

-- one round of the inner loop; `crc << 1` is a product
crc_round : ℕ → ℕ
crc_round crc =
    if bit_and crc 0x80 == 0
    then bit_and (crc * 2) 0xff
    else bit_and (bit_xor (crc * 2) crc8_poly) 0xff

-- `for _ in range(8)`, on the rounds that are left
crc_rounds : ℕ → ℕ → ℕ
crc_rounds zero crc = crc
crc_rounds (suc n) crc = crc_rounds n (crc_round crc)

crc_byte : ℕ → ℕ → ℕ
crc_byte crc byte = crc_rounds 8 (bit_xor crc byte)

-- the loop over the encoded bytes
crc_bytes : ℕ → List ℕ → ℕ
crc_bytes crc [] = crc
crc_bytes crc (byte ∷ bytes) = crc_bytes (crc_byte crc byte) bytes

unfoldable pub compute_crc8 : Text → ℕ
unfolding crc_bytes crc_byte crc_rounds crc_round encode
compute_crc8 data' = crc_bytes crc8_init (encode data')

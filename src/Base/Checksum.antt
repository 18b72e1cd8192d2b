-- ===== src/Base/Checksum.antt =====
-- hash/crc32 with the Castagnoli table (Go's standard library).
use Prim.Native.Nat.{ℕ, zero, suc, ◌-◌, ◌/◌, ◌%◌, ◌^◌, ◌<◌, bit_xor}
use mathlib.Core.Path.{◌≡◌, refl}
use mathlib.Core.List.{[], ◌∷◌}
use native.Mathlib.Omega.{arith}
use parallax_kv.Base.Tests.{◌==◌, nat_eq, if◌then◌else◌}
use parallax_kv.Base.Words.{Bytes}

abbrev castagnoli : ℕ
castagnoli = 0x82f63b78

table_bits : ℕ → ℕ → ℕ
table_bits zero crc = crc
table_bits (suc n) crc =
    table_bits n (if crc % 2 == 1 then bit_xor (crc / 2) castagnoli else crc / 2)

update : ℕ → Bytes → ℕ
unfolding table_bits
update crc [] = crc
update crc (b ∷ bs) = update (bit_xor (table_bits 8 (bit_xor (crc % 256) b)) (crc / 256)) bs

-- the complement of the register, which starts as the complement of 0
unfoldable pub checksum : Bytes → ℕ
unfolding update
checksum bs = 0xffffffff - update 0xffffffff bs

pub checksum_bound : (bs : Bytes) → checksum bs < 2 ^ 32
unfolding checksum
checksum_bound bs = omega arith

-- the check value of CRC-32C, of "123456789"
check_value :
    checksum (0x31 ∷ 0x32 ∷ 0x33 ∷ 0x34 ∷ 0x35 ∷ 0x36 ∷ 0x37 ∷ 0x38 ∷ 0x39 ∷ []) ≡ 0xe3069283
unfolding checksum update table_bits
check_value = refl

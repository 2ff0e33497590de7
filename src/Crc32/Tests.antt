-- ===== src/Crc32/Tests.antt =====
-- The checksums of the digits from 1 to 9.
use ufprog.Common.{ℕ, ◌≡◌, refl, arith, List, [], ◌∷◌}
use ufprog.Crc32.{
  crc32, crc32_be, crc32_reflected_cal, crc32_reflected_init, reflected_polynomial, reflected_steps,
  normal_steps,
}
use ufprog.Crc32.Bitwise.{bit_by_bit, crc32_reflected_cal-bit_by_bit}

abbrev digits : List ℕ
digits = 49 ∷ 50 ∷ 51 ∷ 52 ∷ 53 ∷ 54 ∷ 55 ∷ 56 ∷ 57 ∷ []

crc32-digits : crc32 0 digits ≡ 0xcbf43926
unfolding crc32 reflected_steps
crc32-digits = refl

crc32_be-digits : crc32_be 0 digits ≡ 0xfc891918
unfolding crc32_be normal_steps
crc32_be-digits = refl

crc32_reflected_cal-bit_by_bit_example :
    crc32_reflected_cal 0xffffffff (49 ∷ 50 ∷ []) (crc32_reflected_init reflected_polynomial)
    ≡ bit_by_bit reflected_polynomial 0xffffffff (49 ∷ 50 ∷ [])
crc32_reflected_cal-bit_by_bit_example =
    crc32_reflected_cal-bit_by_bit reflected_polynomial 0xffffffff (49 ∷ 50 ∷ [])
      (omega arith, (omega arith, tt))

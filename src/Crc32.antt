-- ===== src/Crc32.antt =====
-- common/crc32.c: checksums with tables of 256 entries. A buffer is the list of its bytes.
pub mod Bitwise
pub mod Tests
use ufprog.Common.{
  ℕ, zero, suc, ◌+◌, ◌*◌, ◌/◌, ◌%◌, ◌^◌, u8, u32, bit_xor, bit_and, ◌==◌, if◌then◌else◌, Bool, true,
  false, List, [], ◌∷◌, get_or,
}

-- `CRC32_REFLECTED_POLYNOMIAL` and `CRC32_NORMAL_POLYNOMIAL`
abbrev pub reflected_polynomial : ℕ
reflected_polynomial = 0xedb88320

abbrev pub normal_polynomial : ℕ
normal_polynomial = 0x04c11db7

-- A round of the inner loop of `crc32_reflected_init`, and `n` of them.
abbrev pub reflected_step : (poly v : ℕ) → ℕ
reflected_step poly v = bit_xor (v / 2) (if v % 2 == 0 then 0 else poly)

unfoldable pub reflected_steps : (poly n v : ℕ) → ℕ
reflected_steps poly zero v = v
reflected_steps poly (suc n) v = reflected_steps poly n (reflected_step poly v)

-- The entries from `i` on.
unfoldable pub reflected_entries : (poly left i : ℕ) → List ℕ
reflected_entries poly zero i = []
reflected_entries poly (suc left) i = reflected_steps poly 8 i ∷ reflected_entries poly left (i + 1)

unfoldable pub crc32_reflected_init : (poly : ℕ) → List ℕ
unfolding reflected_entries
crc32_reflected_init poly = reflected_entries poly 256 0

unfoldable pub crc32_reflected_cal : (crc : ℕ) → List ℕ → (crc32_table : List ℕ) → ℕ
crc32_reflected_cal crc [] crc32_table = crc
crc32_reflected_cal crc (b ∷ bs) crc32_table =
    crc32_reflected_cal (bit_xor (get_or crc32_table (u8 (bit_xor crc b)) 0) (crc / 2 ^ 8)) bs
      crc32_table

-- The same with the highest bit first.
abbrev pub normal_step : (poly v : ℕ) → ℕ
normal_step poly v = bit_xor (u32 (v * 2)) (if bit_and v (2 ^ 31) == 0 then 0 else poly)

unfoldable pub normal_steps : (poly n v : ℕ) → ℕ
normal_steps poly zero v = v
normal_steps poly (suc n) v = normal_steps poly n (normal_step poly v)

unfoldable pub normal_entries : (poly left i : ℕ) → List ℕ
normal_entries poly zero i = []
normal_entries poly (suc left) i =
    normal_steps poly 8 (u32 (i * 2 ^ 24)) ∷ normal_entries poly left (i + 1)

unfoldable pub crc32_normal_init : (poly : ℕ) → List ℕ
unfolding normal_entries
crc32_normal_init poly = normal_entries poly 256 0

unfoldable pub crc32_normal_cal : (crc : ℕ) → List ℕ → (crc32_table : List ℕ) → ℕ
crc32_normal_cal crc [] crc32_table = crc
crc32_normal_cal crc (b ∷ bs) crc32_table =
    crc32_normal_cal
      (bit_xor (get_or crc32_table (u8 (bit_xor (crc / 2 ^ 24) b)) 0) (u32 (crc * 2 ^ 8))) bs
      crc32_table

unfoldable pub crc32_no_comp : (crc : ℕ) → List ℕ → ℕ
unfolding crc32_reflected_cal crc32_reflected_init
crc32_no_comp crc bytes = crc32_reflected_cal crc bytes (crc32_reflected_init reflected_polynomial)

unfoldable pub crc32_be_no_comp : (crc : ℕ) → List ℕ → ℕ
unfolding crc32_normal_cal crc32_normal_init
crc32_be_no_comp crc bytes = crc32_normal_cal crc bytes (crc32_normal_init normal_polynomial)

unfoldable pub crc32 : (crc : ℕ) → List ℕ → ℕ
unfolding crc32_no_comp
crc32 crc bytes = bit_xor (crc32_no_comp (bit_xor crc 0xffffffff) bytes) 0xffffffff

unfoldable pub crc32_be : (crc : ℕ) → List ℕ → ℕ
unfolding crc32_be_no_comp
crc32_be crc bytes = bit_xor (crc32_be_no_comp (bit_xor crc 0xffffffff) bytes) 0xffffffff

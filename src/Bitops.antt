-- ===== src/Bitops.antt =====
-- common/bitops.c and common/include/ufprog/bits.h: finding the first and last set bit, counting
-- bits, and the bitwise majority of several buffers. `size_t` has 64 bits (SIZE_MAX is UINT64_MAX).
pub mod Lowest
pub mod Highest
pub mod Weight
pub mod Majority
pub mod Halves
pub mod Wide
pub mod Search
pub mod Power
pub mod Tests
use ufprog.Common.{ℕ, zero, suc, ◌+◌, ◌-◌, ◌/◌, ◌*◌, ◌^◌, bit_and, bit_or, min, u8, u32, u64}
use ufprog.Common.{◌<<<◌, ◌>>>◌, ◌==◌, ltb, if◌then◌else◌, List, [], ◌∷◌, get_or, length}
use ufprog.Common.{Bool, ◌&&◌, not}

-- The two locals of `generic_ffs` and `generic_fls`.
pub record FindState : Type 0 where
  pub num : ℕ
  pub word : ℕ

-- `if ((word & mask) == 0) { num += k; word >>= k; }`
skip_low : ℕ → ℕ → FindState → FindState
skip_low mask k s =
    if bit_and s.word mask == 0 then record { num = s.num + k; word = s.word >>> k } else s

pub generic_ffs : ℕ → ℕ
generic_ffs w =
    if w == 0
    then 0
    else (let s5 = skip_low 0xffffffff 32 (record { num = 1; word = w }) in
        let s4 = skip_low 0xffff 16 s5 in
        let s3 = skip_low 0xff 8 s4 in
        let s2 = skip_low 0xf 4 s3 in
        let s1 = skip_low 0x3 2 s2 in if bit_and s1.word 0x1 == 0 then s1.num + 1 else s1.num)

-- `if (!(word & mask)) { num -= k; word <<= k; }`; `num` is at least `k` there.
skip_high : ℕ → ℕ → FindState → FindState
skip_high mask k s =
    if bit_and s.word mask == 0 then record { num = s.num - k; word = u64 (s.word <<< k) } else s

pub generic_fls : ℕ → ℕ
generic_fls w =
    if w == 0
    then 0
    else (let s5 = skip_high 0xffffffff00000000 32 (record { num = 64; word = w }) in
        let s4 = skip_high 0xffff000000000000 16 s5 in
        let s3 = skip_high 0xff00000000000000 8 s4 in
        let s2 = skip_high 0xf000000000000000 4 s3 in
        let s1 = skip_high 0xc000000000000000 2 s2 in (skip_high 0x8000000000000000 1 s1).num)

-- `(n != 0 && ((n & (n - 1)) == 0))`
unfoldable pub is_power_of_2 : ℕ → Bool
is_power_of_2 n = not (n == 0) && (bit_and n (n - 1) == 0)

pub generic_hweight32 : ℕ → ℕ
generic_hweight32 w =
    let r0 = u32 (bit_and w 0x55555555 + bit_and (w >>> 1) 0x55555555) in
    let r1 = u32 (bit_and r0 0x33333333 + bit_and (r0 >>> 2) 0x33333333) in
    let r2 = u32 (bit_and r1 0x0f0f0f0f + bit_and (r1 >>> 4) 0x0f0f0f0f) in
    let r3 = u32 (bit_and r2 0x00ff00ff + bit_and (r2 >>> 8) 0x00ff00ff) in
    u32 (bit_and r3 0x0000ffff + bit_and (r3 >>> 16) 0x0000ffff)

pub generic_hweight16 : ℕ → ℕ
generic_hweight16 w =
    let r0 = u32 (bit_and w 0x5555 + bit_and (w >>> 1) 0x5555) in
    let r1 = u32 (bit_and r0 0x3333 + bit_and (r0 >>> 2) 0x3333) in
    let r2 = u32 (bit_and r1 0x0f0f + bit_and (r1 >>> 4) 0x0f0f) in
    u32 (bit_and r2 0x00ff + bit_and (r2 >>> 8) 0x00ff)

pub generic_hweight8 : ℕ → ℕ
generic_hweight8 w =
    let r0 = u32 (bit_and w 0x55 + bit_and (w >>> 1) 0x55) in
    let r1 = u32 (bit_and r0 0x33 + bit_and (r0 >>> 2) 0x33) in
    u32 (bit_and r1 0x0f + bit_and (r1 >>> 4) 0x0f)

-- The loop over `k`: how many of the buffers have bit `j` of byte `i`.
pub count_sources : List (List ℕ) → ℕ → ℕ → ℕ → ℕ
count_sources [] i j cnt = cnt
count_sources (b ∷ bs) i j cnt =
    count_sources bs i j (if bit_and (get_or b i 0) (2 ^ j) == 0 then cnt else cnt + 1)

-- The loop over `j`, with `left` rounds to go.
pub majority_byte : List (List ℕ) → ℕ → ℕ → ℕ → ℕ → ℕ
majority_byte bufs i zero j val = val
majority_byte bufs i (suc left) j val =
    majority_byte bufs i left (j + 1)
      (if ltb (length bufs / 2) (count_sources bufs i j 0) then bit_or val (2 ^ j) else val)

-- The loop over `i`: the bytes from `dst[i]` on.
pub majority_from : List (List ℕ) → ℕ → ℕ → List ℕ
majority_from bufs i zero = []
majority_from bufs i (suc left) = majority_byte bufs i 8 0 0 ∷ majority_from bufs (i + 1) left

-- What is written to `dstbuf[0..bufsize)`. Nothing is written when there is no buffer or no byte.
pub bitwise_majority : List (List ℕ) → ℕ → List ℕ
unfolding majority_from
bitwise_majority bufs bufsize = if (length bufs == 0) then [] else majority_from bufs 0 bufsize

-- ===== src/Bitops/Search.antt =====
-- Both bit searches of a word.
use ufprog.Common.{ℕ, ◌+◌, ◌-◌, ◌*◌, ◌^◌, ◌≤◌, ◌<◌, ◌≡◌, ◌≢◌}
use ufprog.Bitops.{generic_ffs, generic_fls}
use ufprog.Bitops.Lowest.{generic_ffs-lowest}
use ufprog.Bitops.Highest.{generic_fls-highest}

-- `n` is the number, from 1, of the lowest set bit of the word: it is an odd multiple of `2 ^ (n - 1)`.
pub record IsLowestBit (w n : ℕ) : Type 0 where
  pub odd_multiple : (q : ℕ) × (w ≡ (2 * q + 1) * 2 ^ (n - 1))
  pub from_1 : 1 ≤ n
  pub up_to_64 : n ≤ 64

-- `n` is the number, from 1, of the highest set bit of the word.
pub record IsHighestBit (w n : ℕ) : Type 0 where
  pub at_least : 2 ^ (n - 1) ≤ w
  pub below : w < 2 ^ n
  pub from_1 : 1 ≤ n
  pub up_to_64 : n ≤ 64

-- For a non-zero 64-bit word, `generic_ffs` is the number, from 1, of its lowest set bit, and
-- `generic_fls` that of its highest.
pub search-IsExact :
    (w : ℕ) → w ≢ 0 → w < 2 ^ 64 → IsLowestBit w (generic_ffs w) × IsHighestBit w (generic_fls w)
search-IsExact w nz lt =
    let (q, e, from, upto) = generic_ffs-lowest w nz lt in
    let (low, high, from', upto') = generic_fls-highest w nz lt in
    (
      record { odd_multiple = (q, e); from_1 = from; up_to_64 = upto },
      record { at_least = low; below = high; from_1 = from'; up_to_64 = upto' },
    )

-- ===== src/Bitops/Halves.antt =====
-- common/bitops.c: a line of `generic_hweight16` and `generic_hweight32`, on each half of the word.
use native.Mathlib.Nat.{one-le-pow, mod-lt, div-add-mod', zero-mul, mul-le-mul_right}
use native.Mathlib.Nat.{add-mul-div_right, div-lt_iff_lt-mul}
use ufprog.Common.{ℕ, ◌+◌, ◌-◌, ◌*◌, ◌/◌, ◌%◌, ◌^◌, ◌≤◌, ◌<◌, ◌≡◌, arith, ap, ◌∙◌}
use ufprog.Bitmap.Field.{div_fields, mod_fields}
use ufprog.Common.{
  bit_and, bit_and_split, bit_and-zero, bit_and-fits, bit_and_mask, bit_and_ones, pow-add, u32,
  ◌>>>◌,
}

-- `(res & mask) + ((res >> shift) & mask)`
abbrev pub fold : (s m a : ℕ) → ℕ
fold s m a = u32 (bit_and a m + bit_and (a >>> s) m)

module _ (s j q r : ℕ) (hr : r < 2 ^ (s + j)) where
  shifted :
      (q * 2 ^ (s + j) + r) / 2 ^ s ≡ q / 2 ^ s * 2 ^ (s + j) + (q % 2 ^ s * 2 ^ j + r / 2 ^ s)
  shifted =
      ap (λ (t : ℕ). t / 2 ^ s) (omega (arith, ap (λ (t : ℕ). q * t) (pow-add s j)))
      ∙ add-mul-div_right r (q * 2 ^ j) (one-le-pow s 2 (omega arith))
      ∙ omega (
        arith,
        ap (λ (t : ℕ). t * 2 ^ j) (div-add-mod' q (2 ^ s)),
        ap (λ (t : ℕ). q / 2 ^ s * t) (pow-add s j),
      )

  low_part : r / 2 ^ s < 2 ^ j
  low_part = (div-lt_iff_lt-mul (one-le-pow s 2 (omega arith))).1 (omega (arith, hr, pow-add s j))

pub fold-fits : (s m a : ℕ) → 2 * m < 2 ^ 32 → fold s m a ≤ 2 * m
fold-fits s m a h = omega (arith, bit_and-fits a m, bit_and-fits (a >>> s) m)

fold_exact : (s m a : ℕ) → 2 * m < 2 ^ 32 → fold s m a ≡ bit_and a m + bit_and (a >>> s) m
fold_exact s m a h = omega (arith, bit_and-fits a m, bit_and-fits (a >>> s) m)

module _ (s j m q r : ℕ) (hr : r < 2 ^ (s + j)) (hm : m < 2 ^ j) where
  -- What the high half shifts into the low one is cleared by the mask.
  masked : bit_and (q % 2 ^ s * 2 ^ j + r / 2 ^ s) m ≡ bit_and (r / 2 ^ s) m
  masked =
      let em : 0 * 2 ^ j + m ≡ m = omega (arith, zero-mul (2 ^ j)) in
      omega (
        arith,
        ap (bit_and (q % 2 ^ s * 2 ^ j + r / 2 ^ s)) em,
        bit_and_split j (q % 2 ^ s) (r / 2 ^ s) 0 m (low_part s j q r hr) hm,
        ap (λ (t : ℕ). t * 2 ^ j) (bit_and-zero (q % 2 ^ s)),
        zero-mul (2 ^ j),
      )

  within : q % 2 ^ s * 2 ^ j + r / 2 ^ s < 2 ^ (s + j)
  within = omega (
    arith,
    low_part s j q r hr,
    mul-le-mul_right (2 ^ j) (mod-lt q (one-le-pow s 2 (omega arith))),
    pow-add s j,
  )

  narrow : m < 2 ^ (s + j)
  narrow = omega (arith, hm, mul-le-mul_right (2 ^ j) (one-le-pow s 2 (omega arith)), pow-add s j)

  pub fold-halves :
      2 * (m * 2 ^ (s + j) + m) < 2 ^ 32
      → fold s (m * 2 ^ (s + j) + m) (q * 2 ^ (s + j) + r) ≡ fold s m q * 2 ^ (s + j) + fold s m r
  fold-halves small =
      let k : ℕ = 2 ^ (s + j) in
      let light : 2 * m < 2 ^ 32 = omega (arith, small) in
      omega (
        arith,
        fold_exact s (m * 2 ^ (s + j) + m) (q * 2 ^ (s + j) + r) small,
        ap (λ (t : ℕ). t * 2 ^ (s + j)) (fold_exact s m q light),
        fold_exact s m r light,
        bit_and_split (s + j) q r m m hr narrow,
        ap (λ (t : ℕ). bit_and t (m * 2 ^ (s + j) + m)) (shifted s j q r hr),
        bit_and_split (s + j) (q / 2 ^ s) (q % 2 ^ s * 2 ^ j + r / 2 ^ s) m m within narrow,
        masked,
      )

-- The last line adds the halves.
pub fold-joins :
    (k q r : ℕ)
    → q < 2 ^ k
    → r < 2 ^ k
    → 2 * (2 ^ k - 1) < 2 ^ 32
    → fold k (2 ^ k - 1) (q * 2 ^ k + r) ≡ q + r
fold-joins k q r hq hr small = omega (
  arith,
  fold_exact k (2 ^ k - 1) (q * 2 ^ k + r) small,
  bit_and_mask k (q * 2 ^ k + r),
  mod_fields k q r hr,
  ap (λ (t : ℕ). bit_and t (2 ^ k - 1)) (div_fields k q r hr),
  bit_and_ones k q hq,
)

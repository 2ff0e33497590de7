-- ===== src/Bitmap/Field.antt =====
-- One store into a cell: the field that is written, and the bits below and above it.
use native.Mathlib.Nat.{mod-eq_of_lt, one-le-pow}
use native.Mathlib.Nat.{add-mul-div_right, div-eq_of_lt, add-mul-mod_self_right, add_comm}
use native.Mathlib.Nat.{
  pow-le-pow_right, lt_of_lt_of_le, lt_of_le_of_lt, zero-add, mul-le-mul_right,
}
use ufprog.Common.{ℕ, ◌+◌, ◌-◌, ◌/◌, ◌*◌, ◌%◌, ◌^◌, ◌≤◌, ◌<◌, ◌≡◌, arith, ap, sym, ◌∙◌}
use ufprog.Common.{bit_and, bit_or, bit_and_split, bit_or_split, bit_and_ones, bit_and-zero}
use ufprog.Common.{zero-bit_or, bit_or-zero, pow-add}
use ufprog.Bitmap.{store_unit}

-- A number below `2 ^ s`, above a multiple of it.
pub div_fields : (s q r : ℕ) → r < 2 ^ s → (q * 2 ^ s + r) / 2 ^ s ≡ q
div_fields s q r h =
    let pos : 1 ≤ 2 ^ s = one-le-pow s 2 (omega arith) in
    ap (λ (t : ℕ). t / 2 ^ s) (add_comm (q * 2 ^ s) r)
    ∙ add-mul-div_right r q pos
    ∙ ap (λ (t : ℕ). t + q) (div-eq_of_lt h)
    ∙ zero-add q

pub mod_fields : (s q r : ℕ) → r < 2 ^ s → (q * 2 ^ s + r) % 2 ^ s ≡ r
mod_fields s q r h =
    ap (λ (t : ℕ). t % 2 ^ s) (add_comm (q * 2 ^ s) r)
    ∙ add-mul-mod_self_right r q (2 ^ s)
    ∙ mod-eq_of_lt h

-- The cell with `hi` above the field, `f` in it and `lo` below it.
abbrev pub cell_of : (s k hi f lo : ℕ) → ℕ
cell_of s k hi f lo = (hi * 2 ^ k + f) * 2 ^ s + lo

clear_field :
    (s k t hi f lo : ℕ)
    → hi < 2 ^ t
    → f < 2 ^ k
    → lo < 2 ^ s
    → bit_and (cell_of s k hi f lo) (cell_of s k (2 ^ t - 1) 0 (2 ^ s - 1)) ≡ cell_of s k hi 0 lo
clear_field s k t hi f lo hh hf hl = omega (
  arith,
  bit_and_split s (hi * 2 ^ k + f) lo ((2 ^ t - 1) * 2 ^ k + 0) (2 ^ s - 1) hl
      (omega (arith, one-le-pow s 2)),
  bit_and_ones s lo hl,
  ap (λ (x : ℕ). x * 2 ^ s) (upper ∙ ap (λ (x : ℕ). x * 2 ^ k + 0) (bit_and_ones t hi hh)),
)
  where
    upper : bit_and (hi * 2 ^ k + f) ((2 ^ t - 1) * 2 ^ k + 0) ≡ bit_and hi (2 ^ t - 1) * 2 ^ k + 0
    upper = omega (
      arith,
      bit_and_split k hi f (2 ^ t - 1) 0 hf (one-le-pow k 2 (omega arith)),
      bit_and-zero f,
    )

fill_field :
    (s k hi v lo : ℕ)
    → v < 2 ^ k
    → lo < 2 ^ s
    → bit_or (cell_of s k hi 0 lo) (v * 2 ^ s) ≡ cell_of s k hi v lo
fill_field s k hi v lo hv hl = omega (
  arith,
  ap (bit_or (cell_of s k hi 0 lo)) aligned,
  bit_or_split s (hi * 2 ^ k + 0) lo v 0 hl (one-le-pow s 2 (omega arith)),
  bit_or-zero lo,
  ap (λ (x : ℕ). x * 2 ^ s) upper,
)
  where
    aligned : v * 2 ^ s + 0 ≡ v * 2 ^ s
    aligned = omega arith

    low : 0 * 2 ^ k + v ≡ v
    low = omega arith

    upper : bit_or (hi * 2 ^ k + 0) v ≡ hi * 2 ^ k + v
    upper = omega (
      arith,
      ap (bit_or (hi * 2 ^ k + 0)) low,
      bit_or_split k hi 0 0 v (one-le-pow k 2 (omega arith)) hv,
      zero-bit_or v,
      ap (λ (x : ℕ). x * 2 ^ k) (bit_or-zero hi),
    )

-- The complement of a field's mask, with `a`, `b` and `c` the masks of its three parts.
mask_parts :
    (a b c : ℕ)
    → (a + 1) * (b + 1) * (c + 1) - 1 - b * (c + 1) % ((a + 1) * (b + 1) * (c + 1))
      ≡ (a * (b + 1) + 0) * (c + 1) + c
mask_parts a b c =
    omega (arith, mod-eq_of_lt {n = b * (c + 1)} {m = (a + 1) * (b + 1) * (c + 1)} (omega arith))

pow_pred : (k : ℕ) → 2 ^ k - 1 + 1 ≡ 2 ^ k
pow_pred k = omega (arith, one-le-pow k 2)

pow-add_three : (s k t w : ℕ) → t + k + s ≡ w → 2 ^ t * 2 ^ k * 2 ^ s ≡ 2 ^ w
pow-add_three s k t w e =
    sym (pow-add (t + k) s ∙ ap (λ (x : ℕ). x * 2 ^ s) (pow-add t k)) ∙ ap (λ (x : ℕ). 2 ^ x) e

-- Within `t + k + s` bits.
clear_mask :
    (s k t w : ℕ)
    → t + k + s ≡ w
    → 2 ^ w - 1 - (2 ^ k - 1) * 2 ^ s % 2 ^ w ≡ cell_of s k (2 ^ t - 1) 0 (2 ^ s - 1)
clear_mask s k t w e =
    let parts = mask_parts (2 ^ t - 1) (2 ^ k - 1) (2 ^ s - 1) in
    rw (pow_pred t, pow_pred k, pow_pred s, pow-add_three s k t w e) at parts

pub cell_of-lt :
    (s k t bits hi f lo : ℕ)
    → t + k + s ≡ bits
    → hi < 2 ^ t
    → f < 2 ^ k
    → lo < 2 ^ s
    → cell_of s k hi f lo < 2 ^ bits
cell_of-lt s k t bits hi f lo e hh hf hl =
    let top : hi * 2 ^ k + f + 1 ≤ 2 ^ t * 2 ^ k = omega (arith, mul-le-mul_right (2 ^ k) hh) in
    omega (arith, mul-le-mul_right (2 ^ s) top, pow-add_three s k t bits e)

pow_mono : {a b : ℕ} → a ≤ b → 2 ^ a ≤ 2 ^ b
pow_mono h = pow-le-pow_right (omega arith) h

-- What `bitmap_set` makes of a cell, when it computes in `w` bits at least as many as the cell has.
pub store_unit-eq :
    (s k t bits w hi f v lo : ℕ)
    → t + k + s ≡ bits
    → bits ≤ w
    → hi < 2 ^ t
    → f < 2 ^ k
    → v < 2 ^ k
    → lo < 2 ^ s
    → store_unit w bits (cell_of s k hi f lo) (2 ^ k - 1) v s ≡ cell_of s k hi v lo
unfolding store_unit
store_unit-eq s k t bits w hi f v lo e le hh hf hv hl =
    rw (mask, clear, cleared_fits, value_fits, fill_field s k hi v lo hv hl, result_fits)
  where
    wide : t + (w - bits) + k + s ≡ w
    wide = omega arith

    hi_wide : hi < 2 ^ (t + (w - bits))
    hi_wide = lt_of_lt_of_le hh (pow_mono (omega arith))

    mask :
        2 ^ w - 1 - (2 ^ k - 1) * 2 ^ s % 2 ^ w
        ≡ cell_of s k (2 ^ (t + (w - bits)) - 1) 0 (2 ^ s - 1)
    mask = clear_mask s k (t + (w - bits)) w wide

    clear :
        bit_and (cell_of s k hi f lo) (cell_of s k (2 ^ (t + (w - bits)) - 1) 0 (2 ^ s - 1))
        ≡ cell_of s k hi 0 lo
    clear = clear_field s k (t + (w - bits)) hi f lo hi_wide hf hl

    cleared_fits : cell_of s k hi 0 lo % 2 ^ bits ≡ cell_of s k hi 0 lo
    cleared_fits =
        mod-eq_of_lt (cell_of-lt s k t bits hi 0 lo e hh (one-le-pow k 2 (omega arith)) hl)

    value_fits : v * 2 ^ s % 2 ^ w ≡ v * 2 ^ s
    value_fits = mod-eq_of_lt (
        lt_of_lt_of_le
          (lt_of_le_of_lt (value_le) (
            cell_of-lt s k t bits 0 v 0 e (one-le-pow t 2 (omega arith)) hv
              (one-le-pow s 2 (omega arith))))
          (pow_mono le))
      where
        value_le : v * 2 ^ s ≤ cell_of s k 0 v 0
        value_le = omega arith

    result_fits : cell_of s k hi v lo % 2 ^ bits ≡ cell_of s k hi v lo
    result_fits = mod-eq_of_lt (cell_of-lt s k t bits hi v lo e hh hv hl)

-- ===== src/Bitmap/Inv.antt =====
-- The representation invariant of `struct ufprog_bitmap`, and what it says of indices and shifts.
use native.Mathlib.Nat.{mod-lt, div-lt_iff_lt-mul, div-add-mod', mul-le-mul_right, mul_comm}
use ufprog.Common.{ℕ, ◌+◌, ◌-◌, ◌*◌, ◌%◌, ◌^◌, ◌≤◌, ◌<◌, ◌≡◌, ◌≢◌, ◌⊎◌, arith, some, get_or, length}
use ufprog.Common.{ap, inl, inr}
use native.Mathlib.Decide.{dec_lt}
use ufprog.Bitmap.{Bitmap, computing_width, unit_index, unit_shift}

pub record IsValid (bm : Bitmap) : Type 0 where
  pub width : ℕ
  pub has_width : computing_width bm.cell_size ≡ some width
  pub cell_fits : bm.cell_size ≤ width
  pub parts : bm.units_per_cell * bm.unit_size ≡ bm.cell_size
  pub some_units : 1 ≤ bm.units_per_cell
  pub some_bits : 1 ≤ bm.unit_size
  pub mask : bm.unit_mask ≡ 2 ^ bm.unit_size - 1
  pub room : bm.unit_count ≤ bm.units_per_cell * length bm.cells
  pub cells_small : (i : ℕ) → get_or bm.cells i 0 < 2 ^ bm.cell_size

module _ (bm : Bitmap) (v : IsValid bm) where
  pub index_in_range : (u : ℕ) → u < bm.unit_count → unit_index bm u < length bm.cells
  index_in_range u h =
      (div-lt_iff_lt-mul v.some_units).1
        (omega (arith, v.room, mul_comm bm.units_per_cell (length bm.cells)))

  pub shift_in_cell : (u : ℕ) → unit_shift bm u + bm.unit_size ≤ bm.cell_size
  shift_in_cell u = omega (
    arith,
    v.parts,
    mul-le-mul_right bm.unit_size (mod-lt u {m = bm.units_per_cell} v.some_units),
  )

  -- Two units of one cell do not overlap.
  pub shifts_apart :
      (u j : ℕ)
      → u ≢ j
      → unit_index bm u ≡ unit_index bm j
      → (unit_shift bm u + bm.unit_size ≤ unit_shift bm j)
        ⊎ (unit_shift bm j + bm.unit_size ≤ unit_shift bm u)
  shifts_apart u j ne e = elim (dec_lt (u % n) (j % n)) [
    | yes h ↦ inl (omega (arith, mul-le-mul_right bm.unit_size h))
    | no h ↦ inr (omega (arith, mul-le-mul_right bm.unit_size (other_way h)))
  ]
    where
      n : ℕ
      n = bm.units_per_cell

      other_way : ¬ (u % n < j % n) → j % n < u % n
      other_way h = elim (dec_lt (j % n) (u % n)) [
        | yes p ↦ p
        | no p ↦
            absurd (ne (omega (arith, div-add-mod' u n, div-add-mod' j n, ap (λ (t : ℕ). t * n) e)))
      ]

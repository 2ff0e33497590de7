-- ===== src/Bitmap/Access.antt =====
-- `bitmap_get` after `bitmap_set`: units behave as separate variables.
use mathlib.Core.Logic.{◌⊎◌}
use native.Mathlib.Decide.{ℕ_discrete, dec_lt}
use native.Mathlib.Nat.{one-le-pow}
use ufprog.Common.{ℕ, ◌+◌, ◌-◌, ◌/◌, ◌^◌, ◌≤◌, ◌<◌, ◌≡◌, ◌≢◌, refl, arith, ap, sym, ◌∙◌}
use ufprog.Common.{
  get_or, set, get_or-set_self, get_or-set_ne, length-set, bit_and_mask, leb_of_gt, ltb_of_ge,
  ==_iff, ==_of_ne,
}
use ufprog.Common.{◌==◌, if◌then◌else◌, ok, invalid_parameter, done, err}
use ufprog.Bitmap.{Bitmap, bitmap_get, bitmap_set, store_unit, unit_index, unit_shift}
use ufprog.Bitmap.Inv.{IsValid, index_in_range, shift_in_cell, shifts_apart}
use ufprog.Bitmap.Read.{field}
use ufprog.Bitmap.Store.{store_unit-lt, field-store_self, field-store_below, field-store_above}
use ufprog.Common.{inl, inr}

-- The unit of a valid bitmap.
abbrev pub unit_at : Bitmap → ℕ → ℕ
unit_at bm u = field (unit_shift bm u) bm.unit_size (get_or bm.cells (unit_index bm u) 0)

-- The bitmap with one cell stored to.
abbrev pub with_unit : Bitmap → ℕ → ℕ → ℕ → Bitmap
with_unit bm w u v = record bm {
  cells = set bm.cells (unit_index bm u) (
      store_unit w bm.cell_size (get_or bm.cells (unit_index bm u) 0) bm.unit_mask v
        (unit_shift bm u));
}

pub bitmap_get_out :
    (bm : Bitmap) (u : ℕ) → bm.unit_count ≤ u → bitmap_get bm u ≡ err invalid_parameter
unfolding bitmap_get
bitmap_get_out bm u h = ground arith

module _ (bm : Bitmap) (valid : IsValid bm) where
  pub bitmap_get-eq : (u : ℕ) → u < bm.unit_count → bitmap_get bm u ≡ done (unit_at bm u)
  unfolding bitmap_get
  bitmap_get-eq u h =
      rw (leb_of_gt bm.unit_count u h, valid.has_width, valid.mask)
        (ap done
          (bit_and_mask bm.unit_size (get_or bm.cells (unit_index bm u) 0 / 2 ^ unit_shift bm u)))

  pub bitmap_set-eq :
      (u v : ℕ)
      → u < bm.unit_count
      → v ≤ bm.unit_mask
      → bitmap_set bm u v ≡ (ok, with_unit bm valid.width u v)
  unfolding bitmap_set
  bitmap_set-eq u v hu hv =
      rw (leb_of_gt bm.unit_count u hu, ltb_of_ge bm.unit_mask v hv, valid.has_width)

module _ (bm : Bitmap) (valid : IsValid bm) (u v : ℕ) (hu : u < bm.unit_count)
    (hv : v ≤ bm.unit_mask) where
  abbrev old : ℕ
  old = get_or bm.cells (unit_index bm u) 0

  abbrev stored : ℕ
  stored = store_unit valid.width bm.cell_size old bm.unit_mask v (unit_shift bm u)

  rest :
      bm.cell_size - bm.unit_size - unit_shift bm u + bm.unit_size + unit_shift bm u ≡ bm.cell_size
  rest = omega (arith, shift_in_cell bm valid u)

  value_fits : v < 2 ^ bm.unit_size
  value_fits = omega (arith, valid.mask, one-le-pow bm.unit_size 2, hv)

  stored-lt : stored < 2 ^ bm.cell_size
  stored-lt = rw valid.mask (
      store_unit-lt (unit_shift bm u) bm.unit_size (bm.cell_size - bm.unit_size - unit_shift bm u)
        bm.cell_size valid.width old v rest valid.cell_fits (valid.cells_small (unit_index bm u))
        value_fits)

  -- Another unit's field of the stored cell.
  stored-apart :
      (j : ℕ)
      → u ≢ j
      → unit_index bm u ≡ unit_index bm j
      → field (unit_shift bm j) bm.unit_size stored ≡ field (unit_shift bm j) bm.unit_size old
  stored-apart j ne e = rw valid.mask (elim (shifts_apart bm valid u j ne e) [
    | inl above ↦
        field-store_above (unit_shift bm u) bm.unit_size
          (bm.cell_size - bm.unit_size - unit_shift bm u) bm.cell_size valid.width old v rest
          valid.cell_fits (valid.cells_small (unit_index bm u)) value_fits (unit_shift bm j) above
    | inr below ↦
        field-store_below (unit_shift bm u) bm.unit_size
          (bm.cell_size - bm.unit_size - unit_shift bm u) bm.cell_size valid.width old v rest
          valid.cell_fits (valid.cells_small (unit_index bm u)) value_fits (unit_shift bm j) below
  ])

  stored-here : field (unit_shift bm u) bm.unit_size stored ≡ v
  stored-here = rw valid.mask (
      field-store_self (unit_shift bm u) bm.unit_size
        (bm.cell_size - bm.unit_size - unit_shift bm u) bm.cell_size valid.width old v rest
        valid.cell_fits (valid.cells_small (unit_index bm u)) value_fits)

  with_unit-IsValid : IsValid (with_unit bm valid.width u v)
  with_unit-IsValid = record {
    width = valid.width;
    has_width = valid.has_width;
    cell_fits = valid.cell_fits;
    parts = valid.parts;
    some_units = valid.some_units;
    some_bits = valid.some_bits;
    mask = valid.mask;
    room = rw (length-set bm.cells (unit_index bm u) stored) valid.room;
    cells_small = λ i. elim (ℕ_discrete (unit_index bm u) i) [
      | yes e ↦ rw (← e) (
          rw (get_or-set_self bm.cells (unit_index bm u) stored 0 (index_in_range bm valid u hu))
            stored-lt)
      | no e ↦ rw (get_or-set_ne bm.cells (unit_index bm u) i stored 0 e) (valid.cells_small i)
    ];
  }

  unit_at-with_unit_self : unit_at (with_unit bm valid.width u v) u ≡ v
  unit_at-with_unit_self =
      rw (get_or-set_self bm.cells (unit_index bm u) stored 0 (index_in_range bm valid u hu))
        stored-here

  unit_at-with_unit_ne : (j : ℕ) → u ≢ j → unit_at (with_unit bm valid.width u v) j ≡ unit_at bm j
  unit_at-with_unit_ne j ne = elim (ℕ_discrete (unit_index bm u) (unit_index bm j)) [
    | yes e ↦
        ap
          (λ (i : ℕ).
            field (unit_shift bm j) bm.unit_size
              (get_or (set bm.cells (unit_index bm u) stored) i 0))
          (sym e)
        ∙ ap (field (unit_shift bm j) bm.unit_size)
            (get_or-set_self bm.cells (unit_index bm u) stored 0 (index_in_range bm valid u hu))
        ∙ stored-apart j ne e
        ∙ ap (λ (i : ℕ). field (unit_shift bm j) bm.unit_size (get_or bm.cells i 0)) e
    | no e ↦
        ap (field (unit_shift bm j) bm.unit_size)
          (get_or-set_ne bm.cells (unit_index bm u) (unit_index bm j) stored 0 e)
  ]

  -- On a valid bitmap `bitmap_set` of a unit and a value in range succeeds and keeps the bitmap
  -- valid.
  pub bitmap_set-IsValid : ((bitmap_set bm u v).0 ≡ ok) × IsValid (bitmap_set bm u v).1
  bitmap_set-IsValid = rw (bitmap_set-eq bm valid u v hu hv) (refl, with_unit-IsValid)

  -- After `bitmap_set` in range, `bitmap_get` gives the value for that unit, and for every other
  -- unit, in range or not, what it gave before.
  pub bitmap_get-bitmap_set :
      (j : ℕ) → bitmap_get (bitmap_set bm u v).1 j ≡ (if u == j then done v else bitmap_get bm j)
  bitmap_get-bitmap_set j = rw (bitmap_set-eq bm valid u v hu hv) (elim (ℕ_discrete u j) [
    | yes e ↦ rw ((==_iff u j).1 e) (
        rw (← e) (
          bitmap_get-eq (with_unit bm valid.width u v) with_unit-IsValid u hu
          ∙ ap done unit_at-with_unit_self))
    | no e ↦ rw (==_of_ne u j e) (elim (dec_lt j bm.unit_count) [
      | yes h ↦
          bitmap_get-eq (with_unit bm valid.width u v) with_unit-IsValid j h
          ∙ ap done (unit_at-with_unit_ne j e)
          ∙ sym (bitmap_get-eq bm valid j h)
      | no h ↦
          bitmap_get_out (with_unit bm valid.width u v) j (omega arith)
          ∙ sym (bitmap_get_out bm j (omega arith))
    ])
  ])

-- Outside the range, or with a value too large for a unit, `bitmap_set` fails and changes nothing.
pub bitmap_set_rejects :
    (bm : Bitmap) (u v : ℕ)
    → (bm.unit_count ≤ u) ⊎ (bm.unit_mask < v)
    → bitmap_set bm u v ≡ (invalid_parameter, bm)
unfolding bitmap_set
bitmap_set_rejects bm u v h = ground arith

pub unit_count-bitmap_set :
    (bm : Bitmap) (u v : ℕ) → (bitmap_set bm u v).1.unit_count ≡ bm.unit_count
unfolding bitmap_set
unit_count-bitmap_set bm u v = ground arith

pub unit_mask-bitmap_set : (bm : Bitmap) (u v : ℕ) → (bitmap_set bm u v).1.unit_mask ≡ bm.unit_mask
unfolding bitmap_set
unit_mask-bitmap_set bm u v = ground arith

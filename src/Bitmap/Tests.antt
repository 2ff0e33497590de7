-- ===== src/Bitmap/Tests.antt =====
-- A bitmap of four two-bit units, 1, 2, 1 and 1, in one cell of 64 bits.
use ufprog.Common.{ℕ, zero, suc, ◌^◌, ◌<◌, ◌≡◌, refl, arith, [], ◌∷◌, get_or}
use ufprog.Common.{done, ◌==◌, if◌then◌else◌, ok}
use ufprog.Bitmap.{Bitmap, computing_width, bitmap_get, bitmap_set, load_from}
use ufprog.Bitmap.Inv.{IsValid}
use ufprog.Bitmap.Access.{bitmap_set-IsValid, bitmap_get-bitmap_set}

abbrev pub two_bit_map : Bitmap
two_bit_map = record {
  cell_size = 64;
  units_per_cell = 32;
  unit_size = 2;
  unit_count = 4;
  unit_mask = 3;
  unit_init_val = 0;
  cells = 89 ∷ [];
  size = 8;
}

pub two_bit_map-IsValid : IsValid two_bit_map
unfolding computing_width
two_bit_map-IsValid = record {
  width = 64;
  has_width = refl;
  cell_fits = omega arith;
  parts = refl;
  some_units = omega arith;
  some_bits = omega arith;
  mask = refl;
  room = omega arith;
  cells_small = small;
}
  where
    small : (i : ℕ) → get_or (89 ∷ []) i 0 < 2 ^ 64
    small zero = omega arith
    small (suc i) = omega arith

pub unit0 : bitmap_get two_bit_map 0 ≡ done 1
unfolding bitmap_get load_from computing_width
unit0 = refl

pub unit1 : bitmap_get two_bit_map 1 ≡ done 2
unfolding bitmap_get load_from computing_width
unit1 = refl

pub unit2 : bitmap_get two_bit_map 2 ≡ done 1
unfolding bitmap_get load_from computing_width
unit2 = refl

pub unit3 : bitmap_get two_bit_map 3 ≡ done 1
unfolding bitmap_get load_from computing_width
unit3 = refl

bitmap_set-IsValid_example :
    ((bitmap_set two_bit_map 2 3).0 ≡ ok) × IsValid (bitmap_set two_bit_map 2 3).1
bitmap_set-IsValid_example =
    bitmap_set-IsValid two_bit_map two_bit_map-IsValid 2 3 (omega arith) (omega arith)

bitmap_get-bitmap_set_example :
    bitmap_get (bitmap_set two_bit_map 2 3).1 1
    ≡ (if 2 == 1 then done 3 else bitmap_get two_bit_map 1)
bitmap_get-bitmap_set_example =
    bitmap_get-bitmap_set two_bit_map two_bit_map-IsValid 2 3 (omega arith) (omega arith) 1

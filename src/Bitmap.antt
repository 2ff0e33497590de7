-- ===== src/Bitmap.antt =====
-- common/bitmap.c: an array of small unsigned units packed into cells of 8, 16, 32 or 64 bits.
-- The storage is the list of its cells. `sizeof(uintptr_t)` is 8.
pub mod Field
pub mod Read
pub mod Store
pub mod Inv
pub mod Access
pub mod Tests
use ufprog.Common.{ℕ, zero, suc, ◌+◌, ◌-◌, ◌*◌, ◌/◌, ◌%◌, ◌^◌, bit_and, bit_or, u8, u16, u32, u64}
use ufprog.Common.{◌<<<◌, ◌>>>◌, ◌==◌, ltb, leb, if◌then◌else◌, Bool, ◌||◌, not, Option, none, some}
use ufprog.Common.{List, [], get_or, set, replicate, length, Status, ok, invalid_parameter, nomem}
use ufprog.Common.{Result, done, err}

-- `struct ufprog_bitmap`; `size` is in bytes.
pub record Bitmap : Type 0 where
  pub cell_size : ℕ
  pub units_per_cell : ℕ
  pub unit_size : ℕ
  pub unit_count : ℕ
  pub unit_mask : ℕ
  pub unit_init_val : ℕ
  pub cells : List ℕ
  pub size : ℕ

-- `enum bitmap_cell_type`
pub data CellType : Type 0 where
  cell_1b cell_2b cell_4b cell_8b cell_ptr : CellType

abbrev pub bits_per_cell : CellType → ℕ
bits_per_cell cell_1b = 8
bits_per_cell cell_2b = 16
bits_per_cell cell_4b = 32
bits_per_cell cell_8b = 64
bits_per_cell cell_ptr = 64

-- In `uint32_t` arithmetic.
pub bitmap_size : ℕ → ℕ → ℕ → ℕ
bitmap_size cell_size unit_size unit_count =
    let num_cells = u32 (u32 (unit_count * unit_size) + cell_size + 2 ^ 32 - 1) / cell_size in
    u32 (num_cells * cell_size) / 8

-- `while (bits) { fill <<= unit_size; fill |= init; bits -= unit_size; }` on fuel `bits`: each round
-- takes at least one bit off.
pub fill_loop : ℕ → ℕ → ℕ → ℕ → ℕ → ℕ
fill_loop zero unit_size init bits fill = fill
fill_loop (suc fuel) unit_size init bits fill =
    let next =
      fill_loop fuel unit_size init (bits - unit_size) (bit_or (u64 (fill <<< unit_size)) init) in
    if bits == 0 then fill else next

-- The cell of `bits` bits in which every byte is `byte`, as `memset` leaves it.
pub byte_cell : ℕ → ℕ → ℕ
byte_cell bits byte = byte * ((2 ^ bits - 1) / 255)

-- The fill value of `bitmap_reset` and the cell that it gives.
pub reset_cell : ℕ → ℕ → ℕ → ℕ
unfolding fill_loop byte_cell
reset_cell cell_size unit_size init =
    let bits = if leb unit_size 8 then 8 else cell_size in
    let fill = fill_loop bits unit_size init bits 0 in
    if leb unit_size 8 then byte_cell cell_size (u8 fill) else fill % 2 ^ cell_size

pub bitmap_reset : Bitmap → Bitmap
bitmap_reset bm = record bm {
  cells =
      replicate (bm.size * 8 / bm.cell_size)
        (reset_cell bm.cell_size bm.unit_size bm.unit_init_val);
}

-- `malloc` says whether an allocation of that many bytes is granted. The structure itself has
-- `header` bytes.
pub bitmap_create : (malloc : ℕ → Bool) (header : ℕ) → CellType → ℕ → ℕ → ℕ → Result Bitmap
unfolding bitmap_size bitmap_reset
bitmap_create malloc header cell_type unit_size unit_count init =
    let bits = bits_per_cell cell_type in
    let unit_mask = u32 (2 ^ unit_size - 1) in
    let bm_size = bitmap_size bits unit_size unit_count in
    if unit_size == 0 || unit_count == 0
    then err invalid_parameter
    else if not (bits % unit_size == 0) || leb bits unit_size
    then err invalid_parameter
    else if ltb unit_mask init
    then err invalid_parameter
    else if not (malloc (header + bm_size))
    then err nomem
    else done (
        bitmap_reset (record {
          cell_size = bits;
          units_per_cell = bits / unit_size;
          unit_size = unit_size;
          unit_count = unit_count;
          unit_mask = unit_mask;
          unit_init_val = init;
          cells = [];
          size = bm_size;
        }))

-- `val &= ~(mask << shift); val |= v << shift;` on a cell of `bits` bits, computed in a type of `w`.
pub store_unit : (w bits cell mask v shift : ℕ) → ℕ
store_unit w bits cell mask v shift =
    let cleared = bit_and cell (2 ^ w - 1 - (mask <<< shift) % 2 ^ w) % 2 ^ bits in
    bit_or cleared ((v <<< shift) % 2 ^ w) % 2 ^ bits

-- The `switch` over the cell size; `none` is its `default`.
pub computing_width : ℕ → Option ℕ
computing_width cell_size =
    if cell_size == 8 || (cell_size == 16 || cell_size == 32)
    then some 32
    else if cell_size == 64
    then some 64
    else none

-- A unit's cell, and the shift of the unit within it.
abbrev pub unit_index : Bitmap → ℕ → ℕ
unit_index bm unit = unit / bm.units_per_cell

abbrev pub unit_shift : Bitmap → ℕ → ℕ
unit_shift bm unit = unit % bm.units_per_cell * bm.unit_size

store_in : Bitmap → ℕ → ℕ → Option ℕ → Status × Bitmap
store_in bm unit v none = (invalid_parameter, bm)
store_in bm unit v (some w) =
    let index = unit_index bm unit in
    let cell =
      store_unit w bm.cell_size (get_or bm.cells index 0) bm.unit_mask v (unit_shift bm unit) in
    (ok, record bm { cells = set bm.cells index cell })

pub bitmap_set : Bitmap → ℕ → ℕ → Status × Bitmap
unfolding store_in
bitmap_set bm unit v =
    if leb bm.unit_count unit || ltb bm.unit_mask v
    then (invalid_parameter, bm)
    else store_in bm unit v (computing_width bm.cell_size)

load_from : Bitmap → ℕ → Option ℕ → Result ℕ
load_from bm unit none = err invalid_parameter
load_from bm unit (some w) =
    done (bit_and (get_or bm.cells (unit_index bm unit) 0 >>> unit_shift bm unit) bm.unit_mask)

pub bitmap_get : Bitmap → ℕ → Result ℕ
unfolding load_from
bitmap_get bm unit =
    if leb bm.unit_count unit
    then err invalid_parameter
    else load_from bm unit (computing_width bm.cell_size)

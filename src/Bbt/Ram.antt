-- ===== src/Bbt/Ram.antt =====
-- flash/nand/core/bbt-ram.c: the table that keeps the state of each block in a bitmap and asks the
-- chip for a block whose state is not known.
pub mod Ask
pub mod Calls
pub mod Scan
pub mod Tests
use ufprog.Common.{ℕ, zero, suc, ◌+◌, ◌-◌, ◌^◌, bit_and, bit_or, leb, ◌==◌, ◌||◌, if◌then◌else◌}
use ufprog.Common.{Bool, true, false, not, Option, none, some, Status, ok, fail, invalid_parameter}
use ufprog.Common.{device_io_error, is_ok, is_fail, Result, done, err}
use ufprog.Bitmap.{Bitmap, cell_ptr, bitmap_create, bitmap_set, bitmap_get, bitmap_reset}
use ufprog.Bitops.{generic_fls}
use ufprog.Bbt.{st_unknown, st_good, st_bad, st_max, BbtTable, Bbt}
use ufprog.Nand.Api.{NandOps, Geometry}

-- `struct nand_bbt_ram`, less its name and the pointer to the chip.
pub record BbtRam : Type 0 where
  pub bm : Bitmap
  pub config : ℕ

-- The table and the world that its chip lives in.
pub record RamWorld (W : Type 0) : Type 0 where
  pub ram : BbtRam
  pub world : W

-- `BBT_F_FULL_SCAN`
abbrev pub full_scan : ℕ
full_scan = 1

-- What `ufprog_nand_checkbad` says of a block.
abbrev pub state_of : Status → ℕ
state_of ret = if is_ok ret then st_good else if is_fail ret then st_bad else st_unknown

module _ {W : Type 0} (nand : NandOps W) (geo : Geometry) where
  pub reprobe_block : ℕ → RamWorld W → ℕ × RamWorld W
  reprobe_block block s =
      let (ret, w) = nand.checkbad block s.world in
      let state = state_of ret in
      (state, record { ram = record s.ram { bm = (bitmap_set s.ram.bm block state).1 }; world = w })

  -- The loop over the blocks with `left` to go; the first result is `has_checkable`.
  pub scan : ℕ → ℕ → Bool → RamWorld W → Bool × RamWorld W
  scan zero block has_checkable s = (has_checkable, s)
  scan (suc left) block has_checkable s =
      let (state, s') = reprobe_block block s in
      scan left (block + 1) (has_checkable || not (state == st_unknown)) s'

  pub reprobe : RamWorld W → Status × RamWorld W
  unfolding scan
  reprobe s =
      if bit_and s.ram.config full_scan == 0
      then (ok, record s { ram = record s.ram { bm = bitmap_reset s.ram.bm } })
      else (let (has_checkable, s') = scan geo.block_count 0 false s in
          (if has_checkable then ok else device_io_error, s'))

  -- `config &= ~clr; config |= set & BBT_F_FULL_SCAN`
  pub modify_config : ℕ → ℕ → RamWorld W → Status × RamWorld W
  modify_config clr add s = (
    ok,
    record s {
      ram = record s.ram {
        config = bit_or (bit_and s.ram.config (2 ^ 32 - 1 - clr)) (bit_and add full_scan);
      };
    },
  )

  pub get_config : RamWorld W → ℕ
  get_config s = s.ram.config

  found : ℕ → ℕ → RamWorld W → Status × ℕ × RamWorld W
  found block val s =
      if val == st_unknown
      then (let (state, s') = reprobe_block block s in (ok, state, s'))
      else (ok, val, s)

  -- Where `*state` is not written it is given as unknown, which is what the callers set it to.
  pub get_state : ℕ → RamWorld W → Status × ℕ × RamWorld W
  unfolding found
  get_state block s =
      if leb geo.block_count block
      then (invalid_parameter, st_unknown, s)
      else elim (bitmap_get s.ram.bm block) [
        | err ret ↦ (ret, st_unknown, s)
        | done val ↦ found block val s
      ]

  pub set_state : ℕ → ℕ → RamWorld W → Status × RamWorld W
  set_state block state s =
      if leb geo.block_count block || leb st_max state
      then (invalid_parameter, s)
      else (let (ret, bm) = bitmap_set s.ram.bm block state in
          (ret, record s { ram = record s.ram { bm = bm } }))

  -- The function pointers that `ufprog_bbt_ram_create` fills in.
  abbrev pub ram_table : BbtTable (RamWorld W)
  ram_table = record {
    reprobe = reprobe;
    commit = none;
    modify_config = some modify_config;
    get_config = some get_config;
    get_state = get_state;
    set_state = set_state;
    is_reserved = none;
  }

  pub ram_bbt : Bbt (RamWorld W)
  ram_bbt = record { driver = none; own = ram_table }

-- `ufprog_bbt_ram_create`: the bitmap has a unit of `fls(__BBT_ST_MAX) - 1` bits for each block.
pub ram_create : (malloc : ℕ → Bool) (header : ℕ) → Geometry → Result BbtRam
ram_create malloc header geo =
    elim (bitmap_create malloc header cell_ptr (generic_fls st_max - 1) geo.block_count
      st_unknown) [ err ret ↦ err ret | done bm ↦ done (record { bm = bm; config = 0 }) ]

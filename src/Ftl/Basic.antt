-- ===== src/Ftl/Basic.antt =====
-- flash/nand/core/ftl-basic.c: the built-in translation layer, which skips bad and reserved blocks.
-- Messages to the log are left out; the bitmap of blocks that were reported is kept.
pub mod Place
pub mod Settled
pub mod Transfer
pub mod Read
pub mod Retry
pub mod Write
pub mod Erase
pub mod Confined
pub mod Tests
use ufprog.Common.{ℕ, zero, suc, ◌+◌, ◌-◌, ◌^◌, ◌<<<◌, ◌>>>◌, u32, bit_and, leb, ltb, ◌==◌, ◌||◌}
use ufprog.Common.{if◌then◌else◌, Bool, true, false, not, Option, none, some, Result, done, err}
use ufprog.Common.{Status, ok, fail, device_io_error, is_ok}
use ufprog.Bitmap.{Bitmap, cell_ptr, bitmap_create, bitmap_get, bitmap_set}
use ufprog.Bbt
use ufprog.Bbt.{Bbt, st_unknown, st_bad}
use ufprog.Nand.Api.{NandOps, Geometry}

-- The part of `struct nand_ftl_basic` that changes, and the world it works on.
pub record FtlState (W : Type 0) : Type 0 where
  pub reported : Bitmap
  pub world : W

-- `FTL_BASIC_F_DONT_CHECK_BAD`
abbrev pub dont_check_bad : ℕ
dont_check_bad = 1

abbrev pub skb_retries : ℕ
skb_retries = 3

-- The value of `set` after `bitmap_get(bftl->bm, block, &set)` with `set = 0` before.
abbrev pub value_or_zero : Result ℕ → ℕ
value_or_zero (done v) = v
value_or_zero (err ret) = 0

module _ {W : Type 0} where
  pub unusable_block_notice : ℕ → FtlState W → FtlState W
  unusable_block_notice block s =
      if value_or_zero (bitmap_get s.reported block) == 0
      then record s { reported = (bitmap_set s.reported block 1).1 }
      else s

  -- The second half of `ftl_basic_is_good_block`, on the state that the table gave.
  judge : ℕ → Status → ℕ → FtlState W → Status × FtlState W
  judge block ret state s =
      if not (is_ok ret) || (state == st_unknown)
      then (if is_ok ret then device_io_error else ret, s)
      else if state == st_bad
      then (fail, unusable_block_notice block s)
      else (ok, s)

  pub is_good_block : Bbt W → ℕ → FtlState W → Status × FtlState W
  unfolding judge
  is_good_block bbt block s =
      let (reserved, w) = Bbt.is_reserved bbt block s.world in
      let (ret, state, w') = Bbt.get_state bbt block w in
      if reserved
      then (fail, unusable_block_notice block (record s { world = w }))
      else judge block ret state (record s { world = w' })

-- `ufprog_ftl_basic_create` when a bad block table is given: a bitmap of one bit for each block.
pub ftl_create : (malloc : ℕ → Bool) (header : ℕ) → Geometry → Result Bitmap
ftl_create malloc header geo = bitmap_create malloc header cell_ptr 1 geo.block_count 0

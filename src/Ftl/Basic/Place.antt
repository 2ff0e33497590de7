-- ===== src/Ftl/Basic/Place.antt =====
-- `ftl_basic_get_block_page`: from a page of a partition to a block and a page within it.
pub mod Scan
pub mod Map
pub mod Inside
pub mod Errors
pub mod Tests
use ufprog.Common.{ℕ, zero, suc, ◌+◌, ◌-◌, ◌>>>◌, u32, bit_and, leb, ◌==◌, if◌then◌else◌}
use ufprog.Common.{
  Option, none, some, Result, done, err, Status, is_ok, is_fail, address_out_of_range,
}
use ufprog.Bbt.{Bbt}
use ufprog.Nand.Api.{Geometry}
use ufprog.Ftl.Api.{Part}
use ufprog.Ftl.Basic.{FtlState, is_good_block, dont_check_bad}

-- `*retblock`, `*retendblock` and `*retpage`
pub record Place : Type 0 where
  pub block : ℕ
  pub end_block : ℕ
  pub page : ℕ

-- The locals `curr_block` and `logical_block`.
pub record Walk : Type 0 where
  pub curr : ℕ
  pub logical : ℕ

module _ {W : Type 0} (bbt : Bbt W) where
  -- The loop, with `left` blocks before the end of the partition.
  pub walk : (left curr logical offset : ℕ) → FtlState W → Result Walk × FtlState W
  walk zero curr logical offset s = (done (record { curr = curr; logical = logical }), s)
  walk (suc left) curr logical offset s =
      let (ret, s') = is_good_block bbt curr s in
      let skipped = walk left (curr + 1) logical offset s' in
      let counted = walk left (curr + 1) (logical + 1) offset s' in
      let stay : Walk = record { curr = curr; logical = logical } in
      if leb offset logical
      then (done stay, s)
      else if is_ok ret
      then (if logical == offset then (done stay, s') else counted)
      else if is_fail ret
      then skipped
      else (err ret, s')

  -- What follows the loop.
  finish : (offset end_block page : ℕ) → Result Walk × FtlState W → Result Place × FtlState W
  finish offset end_block page (err ret, s) = (err ret, s)
  finish offset end_block page (done at, s) =
      if at.logical == offset
      then (done (record { block = at.curr; end_block = end_block; page = page }), s)
      else (err address_out_of_range, s)

  -- The walk over the blocks from `base` on.
  search_from : (base end_block offset page : ℕ) → FtlState W → Result Place × FtlState W
  unfolding finish
  search_from base end_block offset page s =
      finish offset end_block page (walk (end_block - base) base 0 offset s)

  module _ (geo : Geometry) (flags : ℕ) where
    -- With `FTL_BASIC_F_DONT_CHECK_BAD` the block is taken unchecked.
    located : (unchecked base end_block offset page : ℕ) → FtlState W → Result Place × FtlState W
    located unchecked base end_block offset page s =
        if bit_and flags dont_check_bad == 0
        then search_from base end_block offset page s
        else (done (record { block = unchecked; end_block = end_block; page = page }), s)

    pub get_block_page : Option Part → ℕ → FtlState W → Result Place × FtlState W
    unfolding located
    get_block_page none page s =
        let block = page >>> geo.pages_per_block_shift in
        located block block geo.block_count 0 (bit_and page geo.pages_per_block_mask) s
    get_block_page (some part) page s =
        let offset = page >>> geo.pages_per_block_shift in
        located (u32 (part.base_block + offset)) part.base_block
          (u32 (part.base_block + part.part_blocks)) offset (bit_and page geo.pages_per_block_mask)
          s

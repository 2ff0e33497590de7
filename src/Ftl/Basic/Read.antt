-- ===== src/Ftl/Basic/Read.antt =====
-- `ftl_basic_read_pages` and `ftl_basic_read_page`.
pub mod Count
pub mod Masked
pub mod Tests
pub mod Inside
use ufprog.Common.{ℕ, zero, suc, ◌+◌, ◌-◌, u32, bit_and, ◌==◌, ◌||◌, if◌then◌else◌}
use ufprog.Common.{Bool, true, false, not, Option, none, some, Result, done, err}
use ufprog.Common.{Status, ok, address_out_of_range, is_ok, is_fail, is_uncorrectable}
use ufprog.Bbt.{Bbt}
use ufprog.Nand.Api.{NandOps, Geometry}
use ufprog.Ftl.Api.{Part, Callback, buffer_of, pre_call, read_ignored}
use ufprog.Ftl.Basic.{FtlState}
use ufprog.Ftl.Basic.Place.{Place, get_block_page}
use ufprog.Ftl.Basic.Transfer.{
  Transfer, part_count, first_page, advance, check_block, after_transfer,
}

-- A round of the loop ends it with a status and a count, or goes on to the next block.
pub data Round (W : Type 0) : Type 0 where
  stop : Status → ℕ → FtlState W → Round W
  next : Transfer → FtlState W → Round W

module _ {W : Type 0} (nand : NandOps W) (bbt : Bbt W) (geo : Geometry) (flags : ℕ) where
  module _ (raw : Bool) (read_flags : ℕ) (cb : Option (Callback W)) where
    -- From the read of the block's pages on.
    read_block : ℕ → Transfer → FtlState W → Round W
    read_block curr t s =
        let n = part_count geo t in
        let (ret, retcnt, w) =
          nand.read_pages (first_page geo curr t) n (buffer_of cb t.p) raw read_flags s.world in
        let (ret', failed, w') = after_transfer cb ret retcnt w in
        let s' : FtlState W = record s { world = w' } in
        if failed
        then stop ret' (u32 (t.total + retcnt)) s'
        else if is_ok ret' || read_ignored ret' read_flags
        then next (advance geo t) s'
        else stop ret' t.total s'

    pub read_round : ℕ → Transfer → FtlState W → Round W
    unfolding read_block
    read_round curr t s =
        let (ret, s1) = check_block bbt flags curr s in
        let (pre_ret, w) = pre_call cb (part_count geo t) s1.world in
        if is_ok ret
        then (if is_ok pre_ret
            then read_block curr t (record s1 { world = w })
            else stop pre_ret t.total (record s1 { world = w }))
        else if is_fail ret
        then next (record t { ret = ret }) s1
        else stop ret t.total s1

    -- The loop, with `left` blocks before `end_block`.
    pub read_loop : ℕ → ℕ → Transfer → FtlState W → Status × ℕ × FtlState W
    read_loop zero curr t s = (if t.count == 0 then t.ret else address_out_of_range, t.total, s)
    read_loop (suc left) curr t s =
        let more : Status × ℕ × FtlState W = elim (read_round curr t s) [
          | stop ret total s' ↦ (ret, total, s')
          | next t' s' ↦ read_loop left (curr + 1) t' s'
        ] in
        if t.count == 0 then (t.ret, t.total, s) else more

    read_from : ℕ → ℕ → Result Place × FtlState W → Status × ℕ × FtlState W
    read_from count buf (err ret, s) = (ret, 0, s)
    read_from count buf (done at, s) =
        read_loop (at.end_block - at.block) at.block
          (record { count = count; offset = at.page; total = 0; p = buf; ret = ok }) s

  -- Partition, page, count, buffer; the second result is `*retcount`.
  pub read_pages :
      Option Part
      → ℕ
      → ℕ
      → ℕ
      → Bool
      → ℕ
      → Option (Callback W)
      → FtlState W
      → Status × ℕ × FtlState W
  unfolding read_from
  read_pages part page count buf raw read_flags cb s =
      read_from raw read_flags cb count buf (get_block_page bbt geo flags part page s)

  pub read_page : Option Part → ℕ → ℕ → Bool → FtlState W → Status × ℕ × FtlState W
  unfolding read_pages
  read_page part page buf raw s = read_pages part page 1 buf raw 0 none s

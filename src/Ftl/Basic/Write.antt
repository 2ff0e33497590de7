-- ===== src/Ftl/Basic/Write.antt =====
-- `ftl_basic_write_pages` and `ftl_basic_write_page`.
pub mod Inside
pub mod Count
pub mod Tests
pub mod Unwritten
use ufprog.Common.{ℕ, zero, suc, ◌+◌, ◌-◌, u32, ◌==◌, if◌then◌else◌}
use ufprog.Common.{Bool, true, false, not, Option, none, some, Result, done, err}
use ufprog.Common.{Status, ok, address_out_of_range, is_ok, is_fail}
use ufprog.Bbt
use ufprog.Bbt.{Bbt, st_bad, st_erased}
use ufprog.Nand.Api.{NandOps, Geometry}
use ufprog.Ftl.Api.{Part, Callback, buffer_of, pre_call}
use ufprog.Ftl.Basic.{FtlState, skb_retries}
use ufprog.Ftl.Basic.Place.{Place, get_block_page}
use ufprog.Ftl.Basic.Retry.{Round, stop, next, skip, retry, spoil, note_state, give_up, retry_loop}
use ufprog.Ftl.Basic.Transfer.{
  Transfer, part_count, first_page, advance, check_block, after_transfer,
}

module _ {W : Type 0} (nand : NandOps W) (bbt : Bbt W) (geo : Geometry) (flags : ℕ) where
  module _ (raw ignore_error : Bool) (cb : Option (Callback W)) where
    -- After a failed write: a torture test, if the write began at the block's first page.
    pub recover : Status → ℕ → Transfer → FtlState W → Round W
    recover ret curr t s =
        let (tested, w) = nand.torture_block curr s.world in
        let s' : FtlState W = record s { world = w } in
        if not (t.offset == 0)
        then stop ret t.total s
        else if is_ok tested
        then retry (record t { ret = tested }) (note_state bbt curr st_erased s')
        else if ignore_error
        then give_up nand bbt curr t s'
        else stop tested t.total s'

    write_block : ℕ → Transfer → FtlState W → Round W
    unfolding recover
    write_block curr t s =
        let n = part_count geo t in
        let (ret, retcnt, w) =
          nand.write_pages (first_page geo curr t) n (buffer_of cb t.p) raw ignore_error s.world in
        let (ret', failed, w') = after_transfer cb ret retcnt w in
        let s' : FtlState W = record s { world = w' } in
        if failed
        then stop ret' (u32 (t.total + retcnt)) s'
        else if is_ok ret'
        then next (advance geo t) s'
        else recover ret' curr t s'

    pub write_round : ℕ → Transfer → FtlState W → Round W
    unfolding write_block
    write_round curr t s =
        let (ret, s1) = check_block bbt flags curr s in
        let (pre_ret, w) = pre_call cb (part_count geo t) s1.world in
        if is_ok ret
        then (if is_ok pre_ret
            then write_block curr t (record s1 { world = w })
            else stop pre_ret t.total (record s1 { world = w }))
        else if is_fail ret
        then skip (record t { ret = ret }) s1
        else stop ret t.total s1

    pub write_loop : (left retries : ℕ) → ℕ → Transfer → FtlState W → Status × ℕ × FtlState W
    write_loop = retry_loop write_round

    write_from : ℕ → ℕ → Result Place × FtlState W → Status × ℕ × FtlState W
    write_from count buf (err ret, s) = (ret, 0, s)
    write_from count buf (done at, s) =
        write_loop (at.end_block - at.block) skb_retries at.block
          (record { count = count; offset = at.page; total = 0; p = buf; ret = ok }) s

  -- Partition, page, count, buffer; the second result is `*retcount`.
  pub write_pages :
      Option Part
      → ℕ
      → ℕ
      → ℕ
      → Bool
      → Bool
      → Option (Callback W)
      → FtlState W
      → Status × ℕ × FtlState W
  unfolding write_from
  write_pages part page count buf raw ignore_error cb s =
      write_from raw ignore_error cb count buf (get_block_page bbt geo flags part page s)

  -- `retcount` is NULL here: the caller sees the status alone.
  pub write_page : Option Part → ℕ → ℕ → Bool → FtlState W → Status × ℕ × FtlState W
  unfolding write_pages
  write_page part page buf raw s = write_pages part page 1 buf raw false none s

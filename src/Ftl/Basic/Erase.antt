-- ===== src/Ftl/Basic/Erase.antt =====
-- `ftl_basic_erase_blocks`, `ftl_basic_erase_block`, `ftl_basic_block_checkbad` and
-- `ftl_basic_block_markbad`.
pub mod Inside
use ufprog.Common.{ℕ, zero, suc, ◌+◌, ◌-◌, ◌<<<◌, ◌>>>◌, u32, ◌==◌, if◌then◌else◌}
use ufprog.Common.{Bool, true, false, Option, none, some, Result, done, err}
use ufprog.Common.{Status, ok, fail, address_out_of_range, is_ok, is_fail}
use ufprog.Bbt
use ufprog.Bbt.{Bbt, st_bad, st_erased}
use ufprog.Nand.Api.{NandOps, Geometry}
use ufprog.Ftl.Api.{Part, Callback, post_call}
use ufprog.Ftl.Basic.{FtlState, skb_retries}
use ufprog.Ftl.Basic.Place.{Place, get_block_page}
use ufprog.Ftl.Basic.Transfer.{Transfer, check_block}
use ufprog.Ftl.Basic.Retry.{Round, stop, next, skip, retry, spoil, note_state, give_up, retry_loop}

module _ {W : Type 0} (nand : NandOps W) (bbt : Bbt W) (geo : Geometry) (flags : ℕ) where
  module _ (spread : Bool) (cb : Option (Callback W)) where
    -- After a block is erased: the count, and the callback. `ecnt` is `total`.
    pub erased : ℕ → Transfer → FtlState W → Round W
    erased curr t s =
        let s1 = note_state bbt curr st_erased s in
        let (ret, w) = post_call cb 1 s1.world in
        let s2 : FtlState W = record s1 { world = w } in
        if is_ok ret
        then next (record t { count = t.count - 1; total = u32 (t.total + 1); ret = ret }) s2
        else stop ret (u32 (t.total + 1)) s2

    -- After a failed erase: a torture test.
    erase_failed : ℕ → Transfer → FtlState W → Round W
    unfolding erased
    erase_failed curr t s =
        let (ret, w) = nand.torture_block curr s.world in
        let s' : FtlState W = record s { world = w } in
        if is_ok ret
        then erased curr t s'
        else if spread
        then give_up nand bbt curr t s'
        else stop ret t.total s'

    pub erase_round : ℕ → Transfer → FtlState W → Round W
    unfolding erase_failed
    erase_round curr t s =
        let (ret, s1) = check_block bbt flags curr s in
        let (wiped, w) = nand.erase_block (u32 (curr <<< geo.pages_per_block_shift)) s1.world in
        let s2 : FtlState W = record s1 { world = w } in
        if is_ok ret
        then (if is_ok wiped then erased curr t s2 else erase_failed curr t s2)
        else if is_fail ret
        then skip (record t { ret = ret }) s1
        else stop ret t.total s1

    pub erase_loop : (left retries : ℕ) → ℕ → Transfer → FtlState W → Status × ℕ × FtlState W
    erase_loop = retry_loop erase_round

    -- `ret` starts as UFP_FAIL; a failure to place the block leaves `*retcount` alone, given as 0.
    erase_from : ℕ → Result Place × FtlState W → Status × ℕ × FtlState W
    erase_from count (err ret, s) = (ret, 0, s)
    erase_from count (done at, s) =
        erase_loop (at.end_block - at.block) skb_retries at.block
          (record { count = count; offset = 0; total = 0; p = 0; ret = fail }) s

  -- Partition, block, count, spread; the second result is `*retcount`.
  pub erase_blocks :
      Option Part → ℕ → ℕ → Bool → Option (Callback W) → FtlState W → Status × ℕ × FtlState W
  unfolding erase_from
  erase_blocks part block count spread cb s =
      erase_from spread cb count
        (get_block_page bbt geo flags part (u32 (block <<< geo.pages_per_block_shift)) s)

  pub erase_block : Option Part → ℕ → Bool → FtlState W → Status × ℕ × FtlState W
  unfolding erase_blocks
  erase_block part page spread s =
      erase_blocks part (page >>> geo.pages_per_block_shift) 1 spread none s

  -- A `ufprog_bool` returned as a status: true is 1, which is UFP_FAIL.
  pub block_checkbad : ℕ → FtlState W → Status × FtlState W
  block_checkbad block s =
      let (bad, w) = Bbt.has_state st_bad bbt block s.world in
      (if bad then fail else ok, record s { world = w })

  pub block_markbad : ℕ → FtlState W → Status × FtlState W
  block_markbad block s =
      let (ret, w) = nand.markbad block s.world in
      let s' : FtlState W = record s { world = w } in
      (ret, if is_ok ret then note_state bbt block st_bad s' else s')

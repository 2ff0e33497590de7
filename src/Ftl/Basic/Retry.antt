-- ===== src/Ftl/Basic/Retry.antt =====
-- What `ftl_basic_write_pages` and `ftl_basic_erase_blocks` share: the loop
-- `while (curr_block < end_block && count && retries)` with its test at the end, and the marking of a
-- block that a torture test failed.
pub mod Inside
pub mod Count
pub mod Exhausted
use ufprog.Common.{ℕ, zero, suc, ◌+◌, ◌==◌, if◌then◌else◌, Status, ok, address_out_of_range, is_ok}
use ufprog.Bbt
use ufprog.Bbt.{Bbt, st_bad}
use ufprog.Nand.Api.{NandOps}
use ufprog.Ftl.Basic.{FtlState, skb_retries}
use ufprog.Ftl.Basic.Transfer.{Transfer}

-- How a round of a loop with retries ends. `next` and `skip` go on to the next block, `next` with
-- the retries set back; `retry` and `spoil` take one retry, on the same block and on the next.
pub data Round (W : Type 0) : Type 0 where
  stop : Status → ℕ → FtlState W → Round W
  next : Transfer → FtlState W → Round W
  skip : Transfer → FtlState W → Round W
  retry : Transfer → FtlState W → Round W
  spoil : Transfer → FtlState W → Round W

module _ {W : Type 0} where
  -- `ufprog_bbt_set_state(bftl->bbt, block, state)`, whose status is not looked at.
  unfoldable pub note_state : Bbt W → ℕ → ℕ → FtlState W → FtlState W
  note_state bbt block state s = record s { world = (Bbt.set_state bbt block state s.world).1 }

  -- After a failed torture test: mark the block bad and go on to the next.
  pub give_up : NandOps W → Bbt W → ℕ → Transfer → FtlState W → Round W
  unfolding note_state
  give_up nand bbt curr t s =
      let (ret, w) = nand.markbad curr s.world in
      let s' : FtlState W = record s { world = w } in
      if is_ok ret
      then spoil (record t { ret = ret }) (note_state bbt curr st_bad s')
      else stop ret t.total s'

module _ {W : Type 0} (round : ℕ → Transfer → FtlState W → Round W) where
  -- The loop, with `left` blocks before `end_block` and `retries` to go; the second result is the
  -- count of pages or blocks done.
  unfoldable pub retry_loop :
      (left retries : ℕ) → ℕ → Transfer → FtlState W → Status × ℕ × FtlState W
  retry_loop left zero curr t s = (t.ret, t.total, s)
  retry_loop zero (suc retries) curr t s =
      (if t.count == 0 then t.ret else address_out_of_range, t.total, s)
  retry_loop (suc left) (suc retries) curr t s =
      let more : Status × ℕ × FtlState W = elim (round curr t s) [
        | stop ret total s' ↦ (ret, total, s')
        | next t' s' ↦ retry_loop left skb_retries (curr + 1) t' s'
        | skip t' s' ↦ retry_loop left (suc retries) (curr + 1) t' s'
        | retry t' s' ↦ retry_loop (suc left) retries curr t' s'
        | spoil t' s' ↦ retry_loop left retries (curr + 1) t' s'
      ] in
      if t.count == 0 then (t.ret, t.total, s) else more

-- ===== src/Ftl/Basic/Write/Count.antt =====
-- What UFP_OK of a write says about the count of pages written.
use ufprog.Common.{ℕ, ◌+◌, ◌-◌, ◌^◌, ◌<◌, ◌≡◌, ◌≢◌, arith}
use ufprog.Common.{
  Bool, false, Bool-cases, inl, inr, Option, Result, done, err, Status, ok, is_ok, ok_of, not_ok,
}
use ufprog.Bbt.{Bbt}
use ufprog.Nand.Api.{NandOps, Geometry}
use ufprog.Ftl.Api.{Part, Callback, buffer_of, pre_call}
use ufprog.Ftl.Basic.{FtlState, skb_retries}
use ufprog.Ftl.Basic.Transfer.{Transfer, check_block, part_count, first_page, after_transfer}
use ufprog.Ftl.Basic.Transfer.Sum.{advance_sum, after_transfer-failed}
use ufprog.Ftl.Basic.Place.{Place, get_block_page}
use ufprog.Ftl.Basic.Place.Errors.{IsHonest, get_block_page-IsHonest}
use ufprog.Ftl.Basic.Retry.Count.{Counted, retry_loop-Counted}
use ufprog.Ftl.Basic.Write.{recover, write_block, write_round, write_loop, write_from, write_pages}

module _ {W : Type 0} (nand : NandOps W) (bbt : Bbt W) (geo : Geometry) (flags : ℕ) (raw : Bool)
    (cb : Option (Callback W)) (count : ℕ) (small : count < 2 ^ 32)
    (never : (block : ℕ) (w : W) → (nand.torture_block block w).0 ≢ ok) where
  recover-Counted :
      (ret : Status) (c : ℕ) (t : Transfer) (s : FtlState W)
      → ret ≢ ok
      → Counted count (recover nand bbt geo flags raw false cb ret c t s)
  unfolding recover
  recover-Counted ret c t s h = elim (Bool-cases (is_ok (nand.torture_block c s.world).0)) [
    | inl e ↦ absurd (never c s.world (ok_of _ e))
    | inr e ↦ ground (arith, e, h, never c s.world)
  ]

  write_block-Counted :
      (c : ℕ) (t : Transfer) (s : FtlState W)
      → t.total + t.count ≡ count
      → Counted count (write_block nand bbt geo flags raw false cb c t s)
  unfolding write_block
  write_block-Counted c t s e =
      let (ret, n, w) =
        nand.write_pages (first_page geo c t) (part_count geo t) (buffer_of cb t.p) raw false
          s.world in
      let (ret', failed, w') = after_transfer cb ret n w in
      ground (
        arith,
        advance_sum geo count small t e,
        after_transfer-failed cb ret n w,
        (λ (h : is_ok ret' ≡ false).
            recover-Counted ret' c t (record s { world = w' }) (not_ok ret' h)),
      )

  write_round-Counted :
      (c : ℕ) (t : Transfer) (s : FtlState W)
      → t.total + t.count ≡ count
      → Counted count (write_round nand bbt geo flags raw false cb c t s)
  unfolding write_round
  write_round-Counted c t s e =
      let s1 = (check_block bbt flags c s).1 in
      ground (
        arith,
        write_block-Counted c t (record s1 { world = (pre_call cb (part_count geo t) s1.world).1 })
            e,
        not_ok (check_block bbt flags c s).0,
        not_ok (pre_call cb (part_count geo t) s1.world).0,
      )

  write_from-Counted :
      (buf : ℕ) (r : Result Place × FtlState W)
      → IsHonest r.0
      → let (ret, total, s') = write_from nand bbt geo flags raw false cb count buf r in
        ret ≡ ok → total ≡ count
  unfolding write_from write_loop
  write_from-Counted buf (err ret, s) k h = absurd (k h)
  write_from-Counted buf (done at, s) k h =
      retry_loop-Counted (write_round nand bbt geo flags raw false cb) count write_round-Counted
        (at.end_block - at.block) (skb_retries - 1) at.block _ s (omega arith) h

  -- If no torture test of the chip ever passes, `ftl_basic_write_pages` without `ignore_error` that
  -- gives UFP_OK for fewer than 2^32 pages has counted as many pages as were asked for, whatever else
  -- the chip, the bad block table and the callbacks do.
  pub write_pages_complete :
      (part : Option Part) (page buf : ℕ) (s : FtlState W)
      → let (ret, total, s') = write_pages nand bbt geo flags part page count buf raw false cb s in
        ret ≡ ok → total ≡ count
  unfolding write_pages
  write_pages_complete part page buf s =
      write_from-Counted buf (get_block_page bbt geo flags part page s)
        (get_block_page-IsHonest bbt geo flags part page s)

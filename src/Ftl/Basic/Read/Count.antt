-- ===== src/Ftl/Basic/Read/Count.antt =====
-- A read that succeeds has read as many pages as were asked for.
use ufprog.Common.{ℕ, zero, suc, ◌+◌, ◌-◌, ◌^◌, ◌<◌, ◌≡◌, ◌≢◌, arith, ◌==◌, ==_iff}
use ufprog.Common.{Bool, either, Option, Result, done, err, Status, ok, not_ok}
use ufprog.Bbt.{Bbt}
use ufprog.Nand.Api.{NandOps, Geometry}
use ufprog.Ftl.Api.{Part, Callback, buffer_of, pre_call}
use ufprog.Ftl.Basic.{FtlState}
use ufprog.Ftl.Basic.Transfer.{Transfer, check_block, part_count, first_page, after_transfer}
use ufprog.Ftl.Basic.Transfer.Sum.{advance_sum, after_transfer-failed}
use ufprog.Ftl.Basic.Place.{Place, get_block_page}
use ufprog.Ftl.Basic.Place.Errors.{IsHonest, get_block_page-IsHonest}
use ufprog.Ftl.Basic.Read.{
  Round, stop, next, read_block, read_round, read_loop, read_from, read_pages,
}

module _ {W : Type 0} (nand : NandOps W) (bbt : Bbt W) (geo : Geometry) (flags : ℕ) (raw : Bool)
    (read_flags : ℕ) (cb : Option (Callback W)) (count : ℕ) (small : count < 2 ^ 32) where
  -- A round that stops has failed, and one that goes on keeps the sum of pages done and to do.
  abbrev Counted : Round W → Type 0
  Counted (stop ret total s) = ret ≢ ok
  Counted (next t s) = t.total + t.count ≡ count

  read_block-Counted :
      (c : ℕ) (t : Transfer) (s : FtlState W)
      → t.total + t.count ≡ count
      → Counted (read_block nand bbt geo flags raw read_flags cb c t s)
  unfolding read_block
  read_block-Counted c t s e =
      let (ret, n, w) =
        nand.read_pages (first_page geo c t) (part_count geo t) (buffer_of cb t.p) raw read_flags
          s.world in
      ground (
        arith,
        advance_sum geo count small t e,
        after_transfer-failed cb ret n w,
        not_ok (after_transfer cb ret n w).0,
      )

  read_round-Counted :
      (c : ℕ) (t : Transfer) (s : FtlState W)
      → t.total + t.count ≡ count
      → Counted (read_round nand bbt geo flags raw read_flags cb c t s)
  unfolding read_round
  read_round-Counted c t s e =
      let s1 = (check_block bbt flags c s).1 in
      ground (
        arith,
        read_block-Counted c t (record s1 { world = (pre_call cb (part_count geo t) s1.world).1 })
            e,
        not_ok (check_block bbt flags c s).0,
        not_ok (pre_call cb (part_count geo t) s1.world).0,
      )

  read_loop-Counted :
      (left c : ℕ) (t : Transfer) (s : FtlState W)
      → t.total + t.count ≡ count
      → let (ret, total, s') = read_loop nand bbt geo flags raw read_flags cb left c t s in
        ret ≡ ok → total ≡ count
  unfolding read_loop
  read_loop-Counted zero c t s e = ground arith
  read_loop-Counted (suc left) c t s e =
      either (λ (x : Status × ℕ × FtlState W). x.0 ≡ ok → x.1 ≡ count) (t.count == 0)
        (λ z h. omega (arith, e, (==_iff t.count 0).0 z))
        (λ z.
          on _ (λ t' s' e'. read_loop-Counted left (c + 1) t' s' e') (read_round-Counted c t s e))
    where
      on :
          (r : Round W)
          → ((t' : Transfer) (s' : FtlState W)
              → t'.total + t'.count ≡ count
              → (read_loop nand bbt geo flags raw read_flags cb left (c + 1) t' s').0 ≡ ok
              → (read_loop nand bbt geo flags raw read_flags cb left (c + 1) t' s').1 ≡ count)
          → Counted r
          → let more : Status × ℕ × FtlState W = elim r [
            | stop ret total s' ↦ (ret, total, s')
            | next t' s' ↦ read_loop nand bbt geo flags raw read_flags cb left (c + 1) t' s'
          ] in
            more.0 ≡ ok → more.1 ≡ count
      on (stop ret total s') rest k h = absurd (k h)
      on (next t' s') rest k h = rest t' s' k h

  read_from-Counted :
      (buf : ℕ) (r : Result Place × FtlState W)
      → IsHonest r.0
      → let (ret, total, s') = read_from nand bbt geo flags raw read_flags cb count buf r in
        ret ≡ ok → total ≡ count
  unfolding read_from
  read_from-Counted buf (err ret, s) k h = absurd (k h)
  read_from-Counted buf (done at, s) k h =
      read_loop-Counted (at.end_block - at.block) at.block _ s (omega arith) h

  -- If `ftl_basic_read_pages` gives UFP_OK for fewer than 2^32 pages, its count of pages read is the
  -- count asked for, whatever the chip, the bad block table and the callbacks do.
  pub read_pages_complete :
      (part : Option Part) (page buf : ℕ) (s : FtlState W)
      → let (ret, total, s') =
          read_pages nand bbt geo flags part page count buf raw read_flags cb s in
        ret ≡ ok → total ≡ count
  unfolding read_pages
  read_pages_complete part page buf s =
      read_from-Counted buf (get_block_page bbt geo flags part page s)
        (get_block_page-IsHonest bbt geo flags part page s)

-- ===== src/Ftl/Basic/Write/Unwritten.antt =====
-- A write that does nothing and succeeds.
use ufprog.Common.{ℕ, suc, ◌-◌, ◌<◌, ◌≡◌, ◌≢◌, refl, arith}
use ufprog.Common.{Bool, false, Option, none, done, Status, ok, is_ok}
use ufprog.Bbt.{Bbt}
use ufprog.Nand.Api.{NandOps, Geometry}
use ufprog.Ftl.Api.{Part, pre_call}
use ufprog.Ftl.Basic.{FtlState, skb_retries}
use ufprog.Ftl.Basic.Transfer.{Transfer, check_block, part_count, first_page, after_transfer}
use ufprog.Ftl.Basic.Place.{Place, get_block_page}
use ufprog.Ftl.Basic.Retry.{retry}
use ufprog.Ftl.Basic.Retry.Exhausted.{retry_loop-exhausted}
use ufprog.Ftl.Basic.Write.{
  recover, write_block, write_round, write_loop, write_from, write_pages, write_page,
}

module _ {W : Type 0} (nand : NandOps W) (bbt : Bbt W) (geo : Geometry) (flags : ℕ) (raw : Bool)
    (refuses : (first n buf : ℕ) (w : W)
      → is_ok (nand.write_pages first n buf raw false w).0 ≡ false)
    (passes : (block : ℕ) (w : W) → (nand.torture_block block w).0 ≡ ok) (c : ℕ)
    (good : (s : FtlState W) → (check_block bbt flags c s).0 ≡ ok) where
  recover_passed :
      (ret : Status) (t : Transfer) (s : FtlState W)
      → t.offset ≡ 0
      → (s' : FtlState W) × (recover nand bbt geo flags raw false none ret c t s
          ≡ retry (record t { ret = ok }) s')
  unfolding recover
  recover_passed ret t s o = rw (passes c s.world, o) (_, refl)

  write_block_refused :
      (t : Transfer) (s : FtlState W)
      → t.offset ≡ 0
      → (s' : FtlState W) × (write_block nand bbt geo flags raw false none c t s
          ≡ retry (record t { ret = ok }) s')
  unfolding write_block after_transfer
  write_block_refused t s o =
      rw (refuses (first_page geo c t) (part_count geo t) t.p s.world) (recover_passed _ t _ o)

  write_round_refused :
      (t : Transfer) (s : FtlState W)
      → t.offset ≡ 0
      → (s' : FtlState W) × (write_round nand bbt geo flags raw false none c t s
          ≡ retry (record t { ret = ok }) s')
  unfolding write_round pre_call
  write_round_refused t s o = rw (good s) (write_block_refused t _ o)

  write_from_refused :
      (count buf left : ℕ) (at : Place) (s : FtlState W)
      → count ≢ 0
      → at.block ≡ c
      → at.page ≡ 0
      → at.end_block - c ≡ suc left
      → let (ret, total, s') =
          write_from nand bbt geo flags raw false none count buf (done at, s) in
        (ret ≡ ok) × (total ≡ 0)
  unfolding write_from write_loop
  write_from_refused count buf left at s more b o e =
      let t : Transfer = record { count = count; offset = at.page; total = 0; p = buf; ret = ok } in
      let r =
        retry_loop-exhausted (write_round nand bbt geo flags raw false none) c (λ s. Unit {0}) t
          more (λ s u. let (s', q) = write_round_refused t s o in (s', q, tt)) left
          (skb_retries - 1) s tt in
      rw (b, e) (r.0, r.1)

module _ {W : Type 0} (nand : NandOps W) (bbt : Bbt W) (geo : Geometry) (flags : ℕ)
    (raw : Bool) where
  -- If the chip fails every write but passes every torture test, `ftl_basic_write_page` of the first
  -- page of a block that checks as good gives UFP_OK, with no page written (its count, which its
  -- caller never sees, is 0).
  pub write_page_unwritten :
      (part : Option Part) (page buf : ℕ) (s s1 : FtlState W) (at : Place)
      → ((first n p : ℕ) (w : W) → is_ok (nand.write_pages first n p raw false w).0 ≡ false)
      → ((block : ℕ) (w : W) → (nand.torture_block block w).0 ≡ ok)
      → ((s : FtlState W) → (check_block bbt flags at.block s).0 ≡ ok)
      → get_block_page bbt geo flags part page s ≡ (done at, s1)
      → at.page ≡ 0
      → at.block < at.end_block
      → let (ret, total, s') = write_page nand bbt geo flags part page buf raw s in
        (ret ≡ ok) × (total ≡ 0)
  unfolding write_page write_pages
  write_page_unwritten part page buf s s1 at refuses passes good e o h = rw e (
      write_from_refused nand bbt geo flags raw refuses passes at.block good 1 buf
        (at.end_block - at.block - 1) at s1 (omega arith) refl o (omega arith))

-- ===== src/Ftl/Basic/Write/Inside.antt =====
-- A write through the translation layer stays inside its partition and off bad blocks.
use ufprog.Common.{ℕ, ◌-◌, ◌≤◌, ◌<◌, ◌≡◌, arith}
use ufprog.Common.{Bool, true, Option, Result, done, err, Status, is_ok, ok_of, bit_and}
use ufprog.Bbt.{Bbt, st_erased}
use ufprog.Nand.Api.{NandOps, Geometry}
use ufprog.Ftl.Api.{Part, Callback, buffer_of, pre_call}
use ufprog.Ftl.Basic.{FtlState, skb_retries}
use ufprog.Ftl.Basic.Transfer.{Transfer, check_block, part_count, first_page, after_transfer}
use ufprog.Ftl.Basic.Place.{Place}
use ufprog.Ftl.Basic.Place.Inside.{IsInside, begin_of, end_of, Fits, get_block_page-IsInside}
use ufprog.Ftl.Basic.Confined.{with_world, IsRegular, IsConfined, page_in_block, InBlock-round}
use ufprog.Ftl.Basic.Retry.{note_state, give_up}
use ufprog.Ftl.Basic.Retry.Inside.{Kept, give_up-Kept, retry_loop-keeps}
use ufprog.Ftl.Basic.Write.{recover, write_block, write_round, write_loop, write_from, write_pages}

module _ {W : Type 0} (nand : NandOps W) (bbt : Bbt W) (geo : Geometry) (flags : ℕ)
    (raw ignore_error : Bool) (cb : Option (Callback W)) (lo hi : ℕ) (Good : ℕ → Type 0)
    (P : FtlState W → Type 0) (regular : IsRegular geo hi)
    (confined : IsConfined nand bbt geo flags cb lo hi Good P) where
  recover-Kept :
      (ret : Status) (c : ℕ) (t : Transfer) (s : FtlState W)
      → lo ≤ c
      → c < hi
      → Good c
      → t.offset < geo.pages_per_block
      → P s
      → Kept geo P (recover nand bbt geo flags raw ignore_error cb ret c t s)
  unfolding recover
  recover-Kept ret c t s l h g o p = ground (arith, tested, noted, gave_up)
    where
      tested : P (with_world s (nand.torture_block c s.world).1)
      tested = confined.tortures c s l h g p

      noted : P (note_state bbt c st_erased (with_world s (nand.torture_block c s.world).1))
      noted = confined.notes c st_erased _ l h g tested

      gave_up : Kept geo P (give_up nand bbt c t (with_world s (nand.torture_block c s.world).1))
      gave_up = give_up-Kept nand bbt geo flags cb lo hi Good P confined c t _ l h g o tested

  write_block-Kept :
      (c : ℕ) (t : Transfer) (s : FtlState W)
      → lo ≤ c
      → c < hi
      → Good c
      → t.offset < geo.pages_per_block
      → P s
      → Kept geo P (write_block nand bbt geo flags raw ignore_error cb c t s)
  unfolding write_block
  write_block-Kept c t s l h g o p = ground (arith, moved, recovered)
    where
      r : Status × ℕ × W
      r =
          nand.write_pages (first_page geo c t) (part_count geo t) (buffer_of cb t.p) raw
            ignore_error s.world

      moved : P (with_world s (after_transfer cb r.0 r.1 r.2).2)
      moved = confined.transfers r.0 r.1 (with_world s r.2) (
          confined.writes c _ _ _ raw ignore_error s l h g (InBlock-round geo hi regular c t h o) p)

      recovered : Kept geo P (
          recover nand bbt geo flags raw ignore_error cb
            (after_transfer cb r.0 r.1 r.2).0
            c
            t
            (with_world s (after_transfer cb r.0 r.1 r.2).2))
      recovered = recover-Kept _ c t _ l h g o moved

  write_round-Kept :
      (c : ℕ) (t : Transfer) (s : FtlState W)
      → lo ≤ c
      → c < hi
      → t.offset < geo.pages_per_block
      → P s
      → Kept geo P (write_round nand bbt geo flags raw ignore_error cb c t s)
  unfolding write_round
  write_round-Kept c t s l h o p = ground (arith, asked, prepared, goes_on)
    where
      asked : P (check_block bbt flags c s).1
      asked = confined.asks c s l h p

      prepared : P (
          with_world
            (check_block bbt flags c s).1
            (pre_call cb (part_count geo t) (check_block bbt flags c s).1.world).1)
      prepared = confined.pres (part_count geo t) (check_block bbt flags c s).1 asked

      goes_on :
          is_ok (check_block bbt flags c s).0 ≡ true
          → Kept geo P (
              write_block nand bbt geo flags raw ignore_error cb c t (
                with_world
                  (check_block bbt flags c s).1
                  (pre_call cb (part_count geo t) (check_block bbt flags c s).1.world).1))
      goes_on good =
          write_block-Kept c t _ l h (confined.judged c s l h p (ok_of _ good)) o prepared

  write_from-keeps :
      (count buf page : ℕ) (r : Result Place × FtlState W)
      → page < geo.pages_per_block
      → IsInside lo hi page r.0 × P r.1
      → P (write_from nand bbt geo flags raw ignore_error cb count buf r).2
  unfolding write_from write_loop
  write_from-keeps count buf page (err ret, s) h k = k.1
  write_from-keeps count buf page (done at, s) h k =
      let (l, e, f) = k.0 in
      retry_loop-keeps geo (write_round nand bbt geo flags raw ignore_error cb) lo hi P
        write_round-Kept (at.end_block - at.block) skb_retries at.block _ s l (omega (arith, e))
        (rw f h) k.1

module _ {W : Type 0} (nand : NandOps W) (bbt : Bbt W) (geo : Geometry) (flags : ℕ)
    (part : Option Part) (page : ℕ) (cb : Option (Callback W)) (Good : ℕ → Type 0)
    (P : FtlState W → Type 0) where
  -- `ftl_basic_write_pages` keeps every property of the state that the caller's callbacks keep, that
  -- questions to the bad block table about blocks of the partition keep, and that these keep for a
  -- block of the partition that the table called good (or that is not checked, with
  -- FTL_BASIC_F_DONT_CHECK_BAD): writes of pages of that one block, its torture test, marking it bad
  -- and noting its state in the table. It does nothing else. The partition's blocks must have page
  -- numbers that do not wrap.
  pub write_pages-keeps :
      (count buf : ℕ) (raw ignore_error : Bool) (s : FtlState W)
      → IsRegular geo (end_of geo part)
      → Fits geo part page
      → IsConfined nand bbt geo flags cb (begin_of geo part page) (end_of geo part) Good P
      → P s
      → P (write_pages nand bbt geo flags part page count buf raw ignore_error cb s).2
  unfolding write_pages
  write_pages-keeps count buf raw ignore_error s regular fits confined p =
      write_from-keeps nand bbt geo flags raw ignore_error cb _ _ Good P regular confined count buf
        (bit_and page geo.pages_per_block_mask) _ (page_in_block geo (end_of geo part) regular page)
        (get_block_page-IsInside bbt geo flags P part page s confined.asks fits p)

-- ===== src/Ftl/Basic/Erase/Inside.antt =====
-- An erase through the translation layer stays inside its partition and off bad blocks.
use ufprog.Common.{ℕ, ◌-◌, ◌≤◌, ◌<◌, ◌≡◌, arith, u32, ◌<<<◌}
use ufprog.Common.{Bool, true, Option, Result, done, err, is_ok, ok_of}
use native.Mathlib.Nat.{one-le-pow}
use ufprog.Bbt.{Bbt, st_erased}
use ufprog.Nand.Api.{NandOps, Geometry}
use ufprog.Ftl.Api.{Part, Callback, post_call}
use ufprog.Ftl.Basic.{FtlState, skb_retries}
use ufprog.Ftl.Basic.Transfer.{Transfer, check_block}
use ufprog.Ftl.Basic.Place.{Place}
use ufprog.Ftl.Basic.Place.Inside.{IsInside, begin_of, end_of, Fits, get_block_page-IsInside}
use ufprog.Ftl.Basic.Confined.{with_world, IsRegular, IsConfined, block_page-eq}
use ufprog.Ftl.Basic.Retry.{note_state, give_up}
use ufprog.Ftl.Basic.Retry.Inside.{Kept, give_up-Kept, retry_loop-keeps}
use ufprog.Ftl.Basic.Erase.{erased, erase_failed, erase_round, erase_loop, erase_from, erase_blocks}

module _ {W : Type 0} (nand : NandOps W) (bbt : Bbt W) (geo : Geometry) (flags : ℕ) (spread : Bool)
    (cb : Option (Callback W)) (lo hi : ℕ) (Good : ℕ → Type 0) (P : FtlState W → Type 0)
    (regular : IsRegular geo hi) (confined : IsConfined nand bbt geo flags cb lo hi Good P) where
  erased-Kept :
      (c : ℕ) (t : Transfer) (s : FtlState W)
      → lo ≤ c
      → c < hi
      → Good c
      → t.offset < geo.pages_per_block
      → P s
      → Kept geo P (erased nand bbt geo flags spread cb c t s)
  unfolding erased
  erased-Kept c t s l h g o p = ground (arith, posted)
    where
      posted : P (
          with_world
            (note_state bbt c st_erased s)
            (post_call cb 1 (note_state bbt c st_erased s).world).1)
      posted = confined.posts 1 _ (confined.notes c st_erased s l h g p)

  erase_failed-Kept :
      (c : ℕ) (t : Transfer) (s : FtlState W)
      → lo ≤ c
      → c < hi
      → Good c
      → t.offset < geo.pages_per_block
      → P s
      → Kept geo P (erase_failed nand bbt geo flags spread cb c t s)
  unfolding erase_failed
  erase_failed-Kept c t s l h g o p = ground (arith, tested, passed, gave_up)
    where
      tested : P (with_world s (nand.torture_block c s.world).1)
      tested = confined.tortures c s l h g p

      passed :
          Kept geo P (
            erased nand bbt geo flags spread cb c t (with_world s (nand.torture_block c s.world).1))
      passed = erased-Kept c t _ l h g o tested

      gave_up : Kept geo P (give_up nand bbt c t (with_world s (nand.torture_block c s.world).1))
      gave_up = give_up-Kept nand bbt geo flags cb lo hi Good P confined c t _ l h g o tested

  erase_round-Kept :
      (c : ℕ) (t : Transfer) (s : FtlState W)
      → lo ≤ c
      → c < hi
      → t.offset < geo.pages_per_block
      → P s
      → Kept geo P (erase_round nand bbt geo flags spread cb c t s)
  unfolding erase_round
  erase_round-Kept c t s l h o p = ground (arith, asked, goes_on, failed)
    where
      asked : P (check_block bbt flags c s).1
      asked = confined.asks c s l h p

      s2 : FtlState W
      s2 =
          with_world (check_block bbt flags c s).1
            (nand.erase_block (u32 (c <<< geo.pages_per_block_shift))
              (check_block bbt flags c s).1.world).1

      good_of : is_ok (check_block bbt flags c s).0 ≡ true → Good c
      good_of good = confined.judged c s l h p (ok_of _ good)

      wiped : is_ok (check_block bbt flags c s).0 ≡ true → P s2
      wiped good =
          confined.erases c _ (check_block bbt flags c s).1 l h (good_of good)
            (block_page-eq geo hi regular c h) asked

      goes_on :
          is_ok (check_block bbt flags c s).0 ≡ true
          → Kept geo P (erased nand bbt geo flags spread cb c t s2)
      goes_on good = erased-Kept c t s2 l h (good_of good) o (wiped good)

      failed :
          is_ok (check_block bbt flags c s).0 ≡ true
          → Kept geo P (erase_failed nand bbt geo flags spread cb c t s2)
      failed good = erase_failed-Kept c t s2 l h (good_of good) o (wiped good)

  erase_from-keeps :
      (count page : ℕ) (r : Result Place × FtlState W)
      → IsInside lo hi page r.0 × P r.1
      → P (erase_from nand bbt geo flags spread cb count r).2
  unfolding erase_from erase_loop
  erase_from-keeps count page (err ret, s) k = k.1
  erase_from-keeps count page (done at, s) k =
      let (l, e, f) = k.0 in
      retry_loop-keeps geo (erase_round nand bbt geo flags spread cb) lo hi P erase_round-Kept
        (at.end_block - at.block) skb_retries at.block _ s l (omega (arith, e))
        (omega (arith, regular.power, one-le-pow geo.pages_per_block_shift 2)) k.1

module _ {W : Type 0} (nand : NandOps W) (bbt : Bbt W) (geo : Geometry) (flags : ℕ)
    (part : Option Part) (block : ℕ) (cb : Option (Callback W)) (Good : ℕ → Type 0)
    (P : FtlState W → Type 0) where
  abbrev pub page_of : ℕ
  page_of = u32 (block <<< geo.pages_per_block_shift)

  -- `ftl_basic_erase_blocks` keeps every property of the state that the caller's callback keeps, that
  -- questions to the bad block table about blocks of the partition keep, and that these keep for a
  -- block of the partition that the table called good (or that is not checked, with
  -- FTL_BASIC_F_DONT_CHECK_BAD): its erase, by the number of its first page, its torture test, marking
  -- it bad and noting its state in the table. It does nothing else. The partition's blocks must have
  -- page numbers that do not wrap.
  pub erase_blocks-keeps :
      (count : ℕ) (spread : Bool) (s : FtlState W)
      → IsRegular geo (end_of geo part)
      → Fits geo part page_of
      → IsConfined nand bbt geo flags cb (begin_of geo part page_of) (end_of geo part) Good P
      → P s
      → P (erase_blocks nand bbt geo flags part block count spread cb s).2
  unfolding erase_blocks
  erase_blocks-keeps count spread s regular fits confined p =
      erase_from-keeps nand bbt geo flags spread cb _ _ Good P regular confined count _ _
        (get_block_page-IsInside bbt geo flags P part page_of s confined.asks fits p)

-- ===== src/Ftl/Basic/Read/Inside.antt =====
-- A read through the translation layer stays inside its partition and off bad blocks.
use ufprog.Common.{ℕ, zero, suc, ◌+◌, ◌-◌, ◌≤◌, ◌<◌, ◌≡◌, arith, ◌==◌}
use ufprog.Common.{Bool, true, either, Option, Result, done, err, Status, is_ok, ok_of, bit_and}
use ufprog.Bbt.{Bbt}
use ufprog.Nand.Api.{NandOps, Geometry}
use ufprog.Ftl.Api.{Part, Callback, buffer_of, pre_call}
use ufprog.Ftl.Basic.{FtlState}
use ufprog.Ftl.Basic.Transfer.{Transfer, check_block, part_count, first_page, after_transfer}
use ufprog.Ftl.Basic.Place.{Place}
use ufprog.Ftl.Basic.Place.Inside.{IsInside, begin_of, end_of, Fits, get_block_page-IsInside}
use ufprog.Ftl.Basic.Confined.{with_world, IsRegular, IsConfined, page_in_block, InBlock-round}
use ufprog.Ftl.Basic.Read.{
  Round, stop, next, read_block, read_round, read_loop, read_from, read_pages,
}

module _ {W : Type 0} (nand : NandOps W) (bbt : Bbt W) (geo : Geometry) (flags : ℕ) (raw : Bool)
    (read_flags : ℕ) (cb : Option (Callback W)) (lo hi : ℕ) (Good : ℕ → Type 0)
    (P : FtlState W → Type 0) (regular : IsRegular geo hi)
    (confined : IsConfined nand bbt geo flags cb lo hi Good P) where
  -- A round keeps `P`, and leaves the offset in a block.
  abbrev Kept : Round W → Type 0
  Kept (stop ret total s) = P s
  Kept (next t s) = P s × (t.offset < geo.pages_per_block)

  read_block-Kept :
      (c : ℕ) (t : Transfer) (s : FtlState W)
      → lo ≤ c
      → c < hi
      → Good c
      → t.offset < geo.pages_per_block
      → P s
      → Kept (read_block nand bbt geo flags raw read_flags cb c t s)
  unfolding read_block
  read_block-Kept c t s l h g o p = ground (arith, moved)
    where
      r : Status × ℕ × W
      r =
          nand.read_pages (first_page geo c t) (part_count geo t) (buffer_of cb t.p) raw read_flags
            s.world

      moved : P (with_world s (after_transfer cb r.0 r.1 r.2).2)
      moved =
          confined.transfers r.0 r.1 (with_world s r.2)
            (confined.reads c _ _ _ raw read_flags s l h g (InBlock-round geo hi regular c t h o) p)

  read_round-Kept :
      (c : ℕ) (t : Transfer) (s : FtlState W)
      → lo ≤ c
      → c < hi
      → t.offset < geo.pages_per_block
      → P s
      → Kept (read_round nand bbt geo flags raw read_flags cb c t s)
  unfolding read_round
  read_round-Kept c t s l h o p = ground (arith, asked, prepared, goes_on)
    where
      asked : P (check_block bbt flags c s).1
      asked = confined.asks c s l h p

      prepared : P (
          with_world
            (check_block bbt flags c s).1
            (pre_call cb (part_count geo t) (check_block bbt flags c s).1.world).1)
      prepared = confined.pres (part_count geo t) (check_block bbt flags c s).1 asked

      goes_on :
          is_ok (check_block bbt flags c s).0 ≡ true
          → Kept (
              read_block nand bbt geo flags raw read_flags cb c t (
                with_world
                  (check_block bbt flags c s).1
                  (pre_call cb (part_count geo t) (check_block bbt flags c s).1.world).1))
      goes_on good = read_block-Kept c t _ l h (confined.judged c s l h p (ok_of _ good)) o prepared

  read_loop-keeps :
      (left c : ℕ) (t : Transfer) (s : FtlState W)
      → lo ≤ c
      → left ≤ hi - c
      → t.offset < geo.pages_per_block
      → P s
      → P (read_loop nand bbt geo flags raw read_flags cb left c t s).2
  unfolding read_loop
  read_loop-keeps zero c t s l h o p = p
  read_loop-keeps (suc left) c t s l h o p =
      either (λ (x : Status × ℕ × FtlState W). P x.2) (t.count == 0) (λ e. p)
        (λ e.
          on _ (λ t' s' o' p'. read_loop-keeps left (c + 1) t' s' (omega arith) (omega arith) o' p')
            (read_round-Kept c t s l (omega arith) o p))
    where
      on :
          (r : Round W)
          → ((t' : Transfer) (s' : FtlState W)
              → t'.offset < geo.pages_per_block
              → P s'
              → P (read_loop nand bbt geo flags raw read_flags cb left (c + 1) t' s').2)
          → Kept r
          → let more : Status × ℕ × FtlState W = elim r [
            | stop ret total s' ↦ (ret, total, s')
            | next t' s' ↦ read_loop nand bbt geo flags raw read_flags cb left (c + 1) t' s'
          ] in
            P more.2
      on (stop ret total s') rest k = k
      on (next t' s') rest k = rest t' s' k.1 k.0

  read_from-keeps :
      (count buf page : ℕ) (r : Result Place × FtlState W)
      → page < geo.pages_per_block
      → IsInside lo hi page r.0 × P r.1
      → P (read_from nand bbt geo flags raw read_flags cb count buf r).2
  unfolding read_from
  read_from-keeps count buf page (err ret, s) h k = k.1
  read_from-keeps count buf page (done at, s) h k =
      let (l, e, f) = k.0 in
      read_loop-keeps (at.end_block - at.block) at.block _ s l (omega (arith, e)) (rw f h) k.1

module _ {W : Type 0} (nand : NandOps W) (bbt : Bbt W) (geo : Geometry) (flags : ℕ)
    (part : Option Part) (page : ℕ) (cb : Option (Callback W)) (Good : ℕ → Type 0)
    (P : FtlState W → Type 0) where
  -- `ftl_basic_read_pages` keeps every property of the state that the caller's callbacks keep, that
  -- questions to the bad block table about blocks of the partition keep, and that reads of the chip
  -- keep whose pages lie in one block of the partition that the table called good (or that is not
  -- checked, with FTL_BASIC_F_DONT_CHECK_BAD): it does nothing else to the chip. The partition's
  -- blocks must have page numbers that do not wrap.
  pub read_pages-keeps :
      (count buf : ℕ) (raw : Bool) (read_flags : ℕ) (s : FtlState W)
      → IsRegular geo (end_of geo part)
      → Fits geo part page
      → IsConfined nand bbt geo flags cb (begin_of geo part page) (end_of geo part) Good P
      → P s
      → P (read_pages nand bbt geo flags part page count buf raw read_flags cb s).2
  unfolding read_pages
  read_pages-keeps count buf raw read_flags s regular fits confined p =
      read_from-keeps nand bbt geo flags raw read_flags cb _ _ Good P regular confined count buf
        (bit_and page geo.pages_per_block_mask) _ (page_in_block geo (end_of geo part) regular page)
        (get_block_page-IsInside bbt geo flags P part page s confined.asks fits p)

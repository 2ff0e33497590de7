-- ===== src/Ftl/Basic/Confined.antt =====
-- What it takes for a property of the state to survive an operation of the translation layer: it
-- survives asking the table about blocks `lo` to `hi`, the caller's callbacks, and operations of the
-- chip on pages of one such block that was found good.
use native.Mathlib.Nat.{mod-lt, mod-eq_of_lt, mul-le-mul_right, one-le-pow, le-add_right}
use ufprog.Common.{ℕ, ◌+◌, ◌-◌, ◌*◌, ◌^◌, ◌≤◌, ◌<◌, ◌≡◌, arith, ap, ◌∙◌, u32, bit_and, bit_and_mask}
use ufprog.Common.{Bool, Option, Status, ok}
use ufprog.Bbt.{Bbt}
use ufprog.Nand.Api.{NandOps, Geometry}
use ufprog.Ftl.Api.{Callback, pre_call, post_call}
use ufprog.Ftl.Basic.{FtlState}
use ufprog.Ftl.Basic.Transfer.{Transfer, check_block, after_transfer, part_count, first_page}
use ufprog.Ftl.Basic.Retry.{note_state}

abbrev pub with_world : {W : Type 0} → FtlState W → W → FtlState W
with_world s w = record s { world = w }

-- The `n` pages from `first` on lie in block `c`.
pub record InBlock (geo : Geometry) (c first n : ℕ) : Type 0 where
  pub begins : c * 2 ^ geo.pages_per_block_shift ≤ first
  pub ends : first + n ≤ (c + 1) * 2 ^ geo.pages_per_block_shift

-- The shift is that of the number of pages of a block, and the pages of the blocks below `hi` have
-- 32-bit numbers.
pub record IsRegular (geo : Geometry) (hi : ℕ) : Type 0 where
  pub power : geo.pages_per_block ≡ 2 ^ geo.pages_per_block_shift
  pub mask : geo.pages_per_block_mask ≡ 2 ^ geo.pages_per_block_shift - 1
  pub numbered : hi * 2 ^ geo.pages_per_block_shift ≤ 2 ^ 32

module _ {W : Type 0} (nand : NandOps W) (bbt : Bbt W) (geo : Geometry) (flags : ℕ)
    (cb : Option (Callback W)) where
  pub record IsConfined (lo hi : ℕ) (Good : ℕ → Type 0) (P : FtlState W → Type 0) : Type 0 where
    pub asks : (c : ℕ) (s : FtlState W) → lo ≤ c → c < hi → P s → P (check_block bbt flags c s).1
    pub judged :
        (c : ℕ) (s : FtlState W)
        → lo ≤ c
        → c < hi
        → P s
        → (check_block bbt flags c s).0 ≡ ok
        → Good c
    pub reads :
        (c first n buf : ℕ) (raw : Bool) (read_flags : ℕ) (s : FtlState W)
        → lo ≤ c
        → c < hi
        → Good c
        → InBlock geo c first n
        → P s
        → P (with_world s (nand.read_pages first n buf raw read_flags s.world).2)
    pub writes :
        (c first n buf : ℕ) (raw ignore_error : Bool) (s : FtlState W)
        → lo ≤ c
        → c < hi
        → Good c
        → InBlock geo c first n
        → P s
        → P (with_world s (nand.write_pages first n buf raw ignore_error s.world).2)
    pub erases :
        (c first : ℕ) (s : FtlState W)
        → lo ≤ c
        → c < hi
        → Good c
        → first ≡ c * 2 ^ geo.pages_per_block_shift
        → P s
        → P (with_world s (nand.erase_block first s.world).1)
    pub tortures :
        (c : ℕ) (s : FtlState W)
        → lo ≤ c
        → c < hi
        → Good c
        → P s
        → P (with_world s (nand.torture_block c s.world).1)
    pub marks :
        (c : ℕ) (s : FtlState W)
        → lo ≤ c
        → c < hi
        → Good c
        → P s
        → P (with_world s (nand.markbad c s.world).1)
    pub notes :
        (c state : ℕ) (s : FtlState W)
        → lo ≤ c
        → c < hi
        → Good c
        → P s
        → P (note_state bbt c state s)
    pub pres : (n : ℕ) (s : FtlState W) → P s → P (with_world s (pre_call cb n s.world).1)
    pub transfers :
        (ret : Status) (n : ℕ) (s : FtlState W)
        → P s
        → P (with_world s (after_transfer cb ret n s.world).2)
    pub posts : (n : ℕ) (s : FtlState W) → P s → P (with_world s (post_call cb n s.world).1)

module _ (geo : Geometry) (hi : ℕ) (regular : IsRegular geo hi) where
  -- The first page of a block has the number that the shift gives.
  pub block_page-eq :
      (c : ℕ) → c < hi → u32 (c * 2 ^ geo.pages_per_block_shift) ≡ c * 2 ^ geo.pages_per_block_shift
  block_page-eq c h = mod-eq_of_lt (
      omega (
        arith,
        regular.numbered,
        mul-le-mul_right (2 ^ geo.pages_per_block_shift) h,
        one-le-pow geo.pages_per_block_shift 2,
      ))

  pub page_in_block : (page : ℕ) → bit_and page geo.pages_per_block_mask < geo.pages_per_block
  page_in_block page =
      rw (regular.power, regular.mask, bit_and_mask geo.pages_per_block_shift page)
        (mod-lt page (one-le-pow geo.pages_per_block_shift 2 (omega arith)))

  -- The pages of one round of a transfer lie in its block.
  pub InBlock-round :
      (c : ℕ) (t : Transfer)
      → c < hi
      → t.offset < geo.pages_per_block
      → InBlock geo c (first_page geo c t) (part_count geo t)
  InBlock-round c t h o =
      rw first (record { begins = le-add_right _ _; ends = ground (arith, room) })
    where
      top : (c + 1) * 2 ^ geo.pages_per_block_shift ≤ 2 ^ 32
      top = omega (arith, regular.numbered, mul-le-mul_right (2 ^ geo.pages_per_block_shift) h)

      first : first_page geo c t ≡ c * 2 ^ geo.pages_per_block_shift + t.offset
      first =
          ap (λ (x : ℕ). u32 (x + t.offset)) (block_page-eq c h)
          ∙ mod-eq_of_lt (omega (arith, top, regular.power))

      small : geo.pages_per_block ≤ 2 ^ 32
      small = omega (arith, top, regular.power)

      room :
          u32 (geo.pages_per_block + 2 ^ 32 - t.offset) + t.offset ≤ 2 ^ geo.pages_per_block_shift
      room = omega (arith, regular.power, small)

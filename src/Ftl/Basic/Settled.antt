-- ===== src/Ftl/Basic/Settled.antt =====
-- A RAM table in which every block's state is known is settled: the translation layer sees a fixed
-- set of good blocks, and the chip is left alone.
use ufprog.Common.{ℕ, ◌<◌, ◌≡◌, ◌≢◌, arith, Bool, not, ◌==◌}
use ufprog.Common.{==_of_ne, if◌then◌else◌, Status, ok, fail, done}
use ufprog.Bitmap.{bitmap_get}
use ufprog.Bbt.{st_unknown, st_bad}
use ufprog.Bbt.Ram.{RamWorld, ram_bbt}
use ufprog.Bbt.Ram.Ask.{IsSized, get_state_known}
use ufprog.Bbt.Ram.Calls.{get_state-ram_bbt, is_reserved-ram_bbt}
use ufprog.Nand.Api.{NandOps, Geometry}
use ufprog.Ftl.Basic.{FtlState, is_good_block, judge, unusable_block_notice}
use ufprog.Ftl.Basic.Place.Scan.{IsSettled}

module _ {W : Type 0} (nand : NandOps W) (geo : Geometry) (states : ℕ → ℕ) where
  -- The table holds `states`, none of them unknown.
  pub record IsKnown (s : FtlState (RamWorld W)) : Type 0 where
    pub sized : IsSized geo s.world.ram
    pub held : (b : ℕ) → b < geo.block_count → bitmap_get s.world.ram.bm b ≡ done (states b)
    pub known : (b : ℕ) → b < geo.block_count → states b ≢ st_unknown

  abbrev pub good_state : ℕ → Bool
  good_state b = not (states b == st_bad)

  world-notice : (b : ℕ) (s : FtlState (RamWorld W)) → (unusable_block_notice b s).world ≡ s.world
  unfolding unusable_block_notice
  world-notice b s = ground arith

  world-judge :
      (b : ℕ) (ret : Status) (state : ℕ) (s : FtlState (RamWorld W))
      → (judge b ret state s).1.world ≡ s.world
  unfolding judge
  world-judge b ret state s = ground (arith, world-notice b s)

  judge_known :
      (b state : ℕ) (s : FtlState (RamWorld W))
      → state ≢ st_unknown
      → (judge b ok state s).0 ≡ (if not (state == st_bad) then ok else fail)
  unfolding judge
  judge_known b state s h = rw (==_of_ne state st_unknown h) (ground arith)

  -- Asking a settled RAM table about a block leaves the table, the chip and the world as they are.
  answered :
      (b : ℕ) (s : FtlState (RamWorld W))
      → b < geo.block_count
      → IsKnown s
      → let (ret, s') = is_good_block (ram_bbt nand geo) b s in
        (ret ≡ (if good_state b then ok else fail)) × (s'.world ≡ s.world)
  unfolding is_good_block
  answered b s h k =
      rw
        (
          is_reserved-ram_bbt nand geo b s.world,
          get_state-ram_bbt nand geo b s.world,
          get_state_known nand geo b (states b) s.world h (k.held b h) (k.known b h),
        )
        (judge_known b (states b) s (k.known b h), world-judge b ok (states b) s)

  kept : {s s' : FtlState (RamWorld W)} → s'.world ≡ s.world → IsKnown s → IsKnown s'
  kept {s} {s'} e k = record {
    sized = rw e k.sized;
    held = λ b h. rw e (k.held b h);
    known = k.known;
  }

  -- While every block's state is known, the RAM table answers for each block of the chip, always
  -- alike, and asking it keeps every state known.
  pub ram_bbt-IsSettled : IsSettled (ram_bbt nand geo) good_state geo.block_count IsKnown
  ram_bbt-IsSettled = record {
    answer = λ b s h k. (answered b s h k).0;
    keeps = λ b s h k. kept (answered b s h k).1 k;
  }

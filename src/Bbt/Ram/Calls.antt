-- ===== src/Bbt/Ram/Calls.antt =====
-- The calls of bbt.c on a RAM table reach the functions of bbt-ram.c.
use ufprog.Common.{ℕ, ◌≡◌, refl, false}
use ufprog.Bbt
use ufprog.Bbt.Ram.{RamWorld, ram_bbt, get_state}
use ufprog.Nand.Api.{NandOps, Geometry}

module _ {W : Type 0} (nand : NandOps W) (geo : Geometry) (block : ℕ) (s : RamWorld W) where
  pub get_state-ram_bbt : Bbt.get_state (ram_bbt nand geo) block s ≡ get_state nand geo block s
  unfolding Bbt.get_state ram_bbt
  get_state-ram_bbt = refl

  pub is_reserved-ram_bbt : Bbt.is_reserved (ram_bbt nand geo) block s ≡ (false, s)
  unfolding Bbt.is_reserved ram_bbt
  is_reserved-ram_bbt = refl

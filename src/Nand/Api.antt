-- ===== src/Nand/Api.antt =====
-- What the bad block table and the translation layer use of a NAND chip (flash/nand/core/nand.c and
-- the geometry of flash/nand/core/include/ufprog/nand.h). Every call takes and returns the state of the world `W`:
-- the chip, the bus and the memory that buffers lie in. A buffer is its address.
use ufprog.Common.{ℕ, Bool, Status}

-- The fields of `struct nand_memorg` and `struct nand_memaux_info` that the code reads.
pub record Geometry : Type 0 where
  pub pages_per_block : ℕ
  pub pages_per_block_shift : ℕ
  pub pages_per_block_mask : ℕ
  pub block_count : ℕ
  pub page_shift : ℕ
  pub oob_page_size : ℕ
  pub size : ℕ

pub record NandOps (W : Type 0) : Type 0 where
  -- `ufprog_nand_checkbad(nand, NULL, block)` and `ufprog_nand_markbad(nand, NULL, block)`
  pub checkbad : ℕ → W → Status × W
  pub markbad : ℕ → W → Status × W
  -- `ufprog_nand_erase_block(nand, page)`
  pub erase_block : ℕ → W → Status × W
  pub torture_block : ℕ → W → Status × W
  -- page, count, buffer, raw, flags; the second result is `*retcount`
  pub read_pages : ℕ → ℕ → ℕ → Bool → ℕ → W → Status × ℕ × W
  -- page, count, buffer, raw, ignore_error
  pub write_pages : ℕ → ℕ → ℕ → Bool → Bool → W → Status × ℕ × W

-- ===== src/Nand/Torture/Unwritten.antt =====
-- The torture test of a block erases it and reads it, and writes nothing.
use ufprog.Common.{ℕ, ◌≡◌, arith, u32, leb, ltb, ◌<<<◌, either}
use ufprog.Common.{Bool, false, ◌&&◌, none, some, Status}
use ufprog.Nand.Api.{Geometry}
use ufprog.Nand.Chip.{Machine, ChipOps, EccOps, check_ret}
use ufprog.Nand.Pages.Keeps.{read_pages-keeps, erase_block-keeps}
use ufprog.Nand.Torture.{erased_test, torture_test_pattern, torture_block}

module _ {C : Type 0} (ops : ChipOps C) (geo : Geometry) (P : C → Type 0)
    (erases : (page : ℕ) (c : C) → P c → P (ops.erase_block page c).1)
    (reads : (page column len : ℕ) (c : C) → P c → P (ops.read_page page column len c).2)
    (enables : (ecc : EccOps C) (enable : Bool) (c : C)
      → ops.ecc ≡ some ecc
      → P c
      → P (ecc.set_enable enable c).1)
    (own : ops.read_pages ≡ none) where
  check_ret-keeps :
      (r : Status × Machine C) (k : Machine C → Status × Machine C)
      → P r.1.chip
      → ((m : Machine C) → P m.chip → P (k m).1.chip)
      → P (check_ret r k).1.chip
  unfolding check_ret
  check_ret-keeps (ret, m) k p h = ground (arith, p, h m p)

  erased_test-keeps :
      (block : ℕ) (m : Machine C) → P m.chip → P (erased_test ops geo block m).1.chip
  unfolding erased_test
  erased_test-keeps block m p =
      let first = u32 (block <<< geo.pages_per_block_shift) in
      check_ret-keeps _ _ (erase_block-keeps ops geo P erases reads enables own first m p) λ m p.
        check_ret-keeps _ _
          (read_pages-keeps ops geo P erases reads enables own first geo.pages_per_block
            ops.page_cache0 0 m p)
          λ m p. p

  -- On a chip that allows no second write of a page (`random_page_write` off or at most one partial
  -- write) and that has no read function of its own for many pages, `ufprog_nand_torture_block` keeps
  -- every property of the chip that erases, page reads and the switch of the ECC engine keep: it never
  -- writes a test pattern.
  pub torture_block-unwritten :
      (random_page_write : Bool) (nops block : ℕ) (m : Machine C)
      → (random_page_write && ltb 1 nops) ≡ false
      → P m.chip
      → P (torture_block ops geo random_page_write nops block m).1.chip
  unfolding torture_block torture_test_pattern
  torture_block-unwritten random_page_write nops block m h p =
      let first = u32 (block <<< geo.pages_per_block_shift) in
      either (λ (x : Status × Machine C). P x.1.chip) (leb geo.block_count block) (λ e. p)
        (λ e. check_ret-keeps _ _ (erased_test-keeps block m p) λ m p.
          check_ret-keeps _ _ (erased_test-keeps block m p) λ m p.
            check_ret-keeps _ _ (rw h p)
              λ m p. erase_block-keeps ops geo P erases reads enables own first m p)

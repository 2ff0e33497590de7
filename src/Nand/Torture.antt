-- ===== src/Nand/Torture.antt =====
-- flash/nand/core/nand.c: the torture test of a block.
pub mod Unwritten
use ufprog.Common.{ℕ, zero, suc, ◌+◌, ◌-◌, ◌^◌, ◌<<<◌, u32, ◌==◌, leb, ltb, ◌&&◌, if◌then◌else◌}
use ufprog.Common.{Bool, true, false, Status, ok, fail, invalid_parameter, is_ok}
use ufprog.Nand.Api.{Geometry}
use ufprog.Nand.Chip.{Machine, ChipOps, check_ret, fill}
use ufprog.Nand.Pages.{read_pages, write_pages, erase_block}

-- `TORTURE_TEST_PAT` and `TORTURE_TEST_CMP_PAT`
abbrev pub torture_test_pat : ℕ
torture_test_pat = 90

abbrev pub torture_test_cmp_pat : ℕ
torture_test_cmp_pat = 2 ^ 8 - 1 - torture_test_pat

pub torture_check_pattern : (mem : ℕ → ℕ) (buf count pat : ℕ) → Status
torture_check_pattern mem buf zero pat = ok
torture_check_pattern mem buf (suc count) pat =
    let rest = torture_check_pattern mem (buf + 1) count pat in
    if mem buf == pat then rest else fail

module _ {C : Type 0} (ops : ChipOps C) (geo : Geometry) where
  abbrev oob_block_size : ℕ
  oob_block_size = u32 (geo.oob_page_size <<< geo.pages_per_block_shift)

  -- All pages of the block, raw, into the first page cache.
  abbrev read_all : ℕ → Machine C → Status × Machine C
  read_all first m =
      let (ret, n, m') = read_pages ops geo first geo.pages_per_block ops.page_cache0 true 0 m in
      (ret, m')

  abbrev write_all : ℕ → Machine C → Status × Machine C
  write_all first m =
      let (ret, n, m') =
        write_pages ops geo first geo.pages_per_block ops.page_cache0 true false m in
      (ret, m')

  abbrev checked : ℕ → Machine C → Status × Machine C
  checked pat m = (torture_check_pattern m.mem ops.page_cache0 oob_block_size pat, m)

  -- With `erase`: the block is erased and read. What follows the check of the erased pages stands
  -- under no test there, and returns.
  pub erased_test : ℕ → Machine C → Status × Machine C
  erased_test block m =
      let first = u32 (block <<< geo.pages_per_block_shift) in
      check_ret (erase_block ops geo first m)
        λ m. check_ret (read_all first m) (checked (2 ^ 8 - 1))

  -- The pattern is written and read back.
  pub written_test : (block pat : ℕ) → Machine C → Status × Machine C
  written_test block pat m =
      let first = u32 (block <<< geo.pages_per_block_shift) in
      let buf = ops.page_cache0 in
      check_ret (write_all first (record m { mem = fill pat oob_block_size buf m.mem })) λ m.
        check_ret
          (read_all first (record m { mem = fill (2 ^ 8 - 1 - pat) oob_block_size buf m.mem }))
          (checked pat)

  pub torture_test_pattern : (block pat : ℕ) → Bool → Machine C → Status × Machine C
  torture_test_pattern block pat erase m =
      if erase then erased_test block m else written_test block pat m

  pub torture_block : (random_page_write : Bool) (nops : ℕ) → ℕ → Machine C → Status × Machine C
  torture_block random_page_write nops block m =
      let again = λ (m : Machine C).
        if random_page_write && ltb 1 nops
        then torture_test_pattern block torture_test_pat false m
        else (ok, m) in
      let tests = check_ret (torture_test_pattern block torture_test_pat true m) λ m.
        check_ret (torture_test_pattern block torture_test_cmp_pat true m) λ m.
          check_ret (again m)
            λ m. erase_block ops geo (u32 (block <<< geo.pages_per_block_shift)) m in
      if leb geo.block_count block then (invalid_parameter, m) else tests

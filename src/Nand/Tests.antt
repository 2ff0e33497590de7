-- ===== src/Nand/Tests.antt =====
-- Runs on a chip with no ECC engine whose state counts the pages written to it.
use ufprog.Common.{ℕ, ◌+◌, ◌≡◌, refl, arith}
use ufprog.Common.{Bool, true, false, none, some, replicate, ok}
use ufprog.Bbt.Ram.Tests.{small_geo}
use ufprog.Nand.Chip.{Machine, ChipOps, EccOps}
use ufprog.Nand.Pages.{read_pages, write_pages}
use ufprog.Nand.Pages.Count.{IsComplete, pages-IsComplete}
use ufprog.Nand.Torture.{torture_block}
use ufprog.Nand.Torture.Unwritten.{torture_block-unwritten}

abbrev pub blank_chip : ChipOps ℕ
blank_chip = record {
  read_page = λ page column len c. (ok, replicate len 255, c);
  write_page = λ page column bytes c. (ok, c + 1);
  erase_block = λ page c. (ok, c);
  read_pages = none;
  write_pages = none;
  ecc = none;
  page_cache0 = 0;
  page_cache1 = 16384;
}

abbrev blank : Machine ℕ
blank = record { mem = λ a. 0; chip = 0 }

pages-IsComplete_example :
    IsComplete 3 (read_pages blank_chip small_geo 2 3 100 true 0 blank)
    × IsComplete 3 (write_pages blank_chip small_geo 2 3 100 true false blank)
pages-IsComplete_example =
    pages-IsComplete blank_chip small_geo 2 3 100 true false 0 blank (omega arith) refl refl

no_ecc :
    (ecc : EccOps ℕ) (enable : Bool) (c : ℕ)
    → blank_chip.ecc ≡ some ecc
    → c ≡ 0
    → (ecc.set_enable enable c).1 ≡ 0
no_ecc ecc enable c e h = absurd (ground (arith, e))

torture_block-unwritten_example : (torture_block blank_chip small_geo false 1 2 blank).1.chip ≡ 0
torture_block-unwritten_example =
    torture_block-unwritten blank_chip small_geo (λ c. c ≡ 0) (λ page c h. h)
      (λ page column len c h. h) no_ecc refl false 1 2 blank refl refl

-- ===== src/Ftl/Basic/Read/Tests.antt =====
-- A read on the small chip.
use ufprog.Common.{◌≡◌, refl, arith, false, none, some, ok}
use ufprog.Bbt.{get_state, is_reserved}
use ufprog.Bbt.Ram.Tests.{small_geo}
use ufprog.Ftl.Api.{pre_call}
use ufprog.Ftl.Basic.{is_good_block, judge, unusable_block_notice}
use ufprog.Ftl.Basic.Place.Tests.{placed5}
use ufprog.Ftl.Basic.Transfer.{check_block, after_transfer}
use ufprog.Ftl.Basic.Read.{read_block, read_round, read_loop, read_from, read_pages}
use ufprog.Ftl.Basic.Read.Count.{read_pages_complete}
use ufprog.Ftl.Basic.Read.Masked.{read_pages_masked}
use ufprog.Nand.Api.{NandOps}
use ufprog.Ftl.Api.{Callback}
use ufprog.Common.{device_io_error, ℕ}
use ufprog.Ftl.Basic.Tests.{counting_nand, fixed_bbt, start, whole_chip}

-- Six pages from page 5 of the good blocks on: pages 1 to 3 of block 2 and 0 to 2 of block 3.
read_run :
    (read_pages counting_nand fixed_bbt small_geo 0 (some whole_chip) 5 6 100 false 0 none start).0
    ≡ ok
unfolding read_pages read_from read_loop read_round read_block check_block after_transfer pre_call
    get_state is_reserved is_good_block judge unusable_block_notice
read_run = rw placed5 refl

read_pages_complete_example :
    (read_pages counting_nand fixed_bbt small_geo 0 (some whole_chip) 5 6 100 false 0 none start).1
    ≡ 6
read_pages_complete_example =
    read_pages_complete counting_nand fixed_bbt small_geo 0 false 0 none 6 (omega arith)
      (some whole_chip) 5 100 start read_run

abbrev quiet : Callback ℕ
quiet = record { pre = none; post = λ n w. (ok, w); buffer = 0 }

-- Every read transfers one page; on the second chip each is reported as failed.
abbrev one_page_nand : NandOps ℕ
one_page_nand = record counting_nand { read_pages = λ first n buf raw flags w. (ok, 1, w) }

abbrev failing_nand : NandOps ℕ
failing_nand = record counting_nand {
  read_pages = λ first n buf raw flags w. (device_io_error, 1, w);
}

read_pages_masked_example :
    read_pages failing_nand fixed_bbt small_geo 0
      (some whole_chip)
      5
      6
      100
      false
      0
      (some quiet)
      start
    ≡ read_pages one_page_nand fixed_bbt small_geo 0
        (some whole_chip)
        5
        6
        100
        false
        0
        (some quiet)
        start
read_pages_masked_example =
    read_pages_masked one_page_nand failing_nand fixed_bbt small_geo 0 false 0 quiet
      (λ first n buf w e. omega (arith, e)) (λ first n buf w. refl) (λ first n buf w. refl)
      (some whole_chip) 5 6 100 start

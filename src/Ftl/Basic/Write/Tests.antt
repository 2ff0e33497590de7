-- ===== src/Ftl/Basic/Write/Tests.antt =====
-- Writes on the small chip, and on one that refuses every write.
use ufprog.Common.{ℕ, ◌≡◌, ◌≢◌, refl, arith, false, none, some, ok, device_io_error}
use ufprog.Bbt.{get_state, is_reserved}
use ufprog.Bbt.Ram.Tests.{small_geo}
use ufprog.Nand.Api.{NandOps}
use ufprog.Ftl.Api.{pre_call}
use ufprog.Ftl.Basic.{FtlState, is_good_block, judge, unusable_block_notice}
use ufprog.Ftl.Basic.Place.Tests.{placed5, placed_all}
use ufprog.Ftl.Basic.Transfer.{check_block, after_transfer}
use ufprog.Ftl.Basic.Retry.{retry_loop}
use ufprog.Ftl.Basic.Write.{
  write_block, write_round, write_loop, write_from, write_pages, write_page,
}
use ufprog.Ftl.Basic.Write.Count.{write_pages_complete}
use ufprog.Ftl.Basic.Write.Unwritten.{write_page_unwritten}
use ufprog.Ftl.Basic.Tests.{counting_nand, fixed_bbt, good_bbt, start, whole_chip}

write_run :
    (write_pages counting_nand fixed_bbt small_geo 0
      (some whole_chip)
      5
      6
      100
      false
      false
      none
      start).0
    ≡ ok
unfolding write_pages write_from write_loop write_round write_block retry_loop check_block
    after_transfer pre_call get_state is_reserved is_good_block judge unusable_block_notice
write_run = rw placed5 refl

fails_torture : (block : ℕ) (w : ℕ) → (counting_nand.torture_block block w).0 ≢ ok
fails_torture block w h = ground (arith, h)

write_pages_complete_example :
    (write_pages counting_nand fixed_bbt small_geo 0
      (some whole_chip)
      5
      6
      100
      false
      false
      none
      start).1
    ≡ 6
write_pages_complete_example =
    write_pages_complete counting_nand fixed_bbt small_geo 0 false none 6 (omega arith)
      fails_torture (some whole_chip) 5 100 start write_run

abbrev refusing_nand : NandOps ℕ
refusing_nand = record counting_nand {
  write_pages = λ first n buf raw ignore_error w. (device_io_error, 0, w);
  torture_block = λ c w. (ok, w);
}

all_good : (s : FtlState ℕ) → (check_block good_bbt 0 2 s).0 ≡ ok
unfolding check_block is_good_block judge unusable_block_notice get_state is_reserved
all_good s = refl

write_page_unwritten_example :
    let (ret, total, s') =
      write_page refusing_nand good_bbt small_geo 0 (some whole_chip) 8 100 false start in
    (ret ≡ ok) × (total ≡ 0)
write_page_unwritten_example =
    write_page_unwritten refusing_nand good_bbt small_geo 0 false (some whole_chip) 8 100 start
      start (record { block = 2; end_block = 4; page = 0 }) (λ first n p w. refl) (λ block w. refl)
      all_good placed_all refl (omega arith)

-- ===== src/Ftl/Basic/Tests.antt =====
-- Runs of the translation layer on a small chip: four blocks of four pages, block 1 bad. The world
-- counts the operations that change block 1.
use ufprog.Common.{◌/◌, ℕ, ◌+◌, ◌*◌, ◌^◌, ◌<◌, ◌≡◌, ◌≢◌, refl, arith, u32, ◌==◌, ltb, ◌&&◌}
use ufprog.Common.{true, false, none, some, if◌then◌else◌}
use ufprog.Common.{ok, fail, device_io_error}
use ufprog.Bitmap.Tests.{two_bit_map}
use ufprog.Bbt.Ram.Tests.{small_geo}
use ufprog.Bbt.{Bbt, st_good, st_bad, get_state, set_state, is_reserved}
use ufprog.Nand.Api.{NandOps}
use ufprog.Ftl.Api.{Part, pre_call}
use ufprog.Ftl.Basic.{FtlState, is_good_block, judge, unusable_block_notice}
use ufprog.Ftl.Basic.Transfer.{check_block, after_transfer}
use ufprog.Ftl.Basic.Retry.{note_state}
use ufprog.Ftl.Basic.Confined.{InBlock, IsRegular, IsConfined}
use ufprog.Ftl.Basic.Read.{read_pages}
use ufprog.Ftl.Basic.Write.{write_pages}
use ufprog.Ftl.Basic.Erase.{erase_blocks}
use ufprog.Ftl.Basic.Read.Inside.{read_pages-keeps}
use ufprog.Ftl.Basic.Write.Inside.{write_pages-keeps}
use ufprog.Ftl.Basic.Erase.Inside.{erase_blocks-keeps}

-- Whether `n` pages from `first` on meet block 1.
abbrev hits : ℕ → ℕ → ℕ
hits first n = if ltb first 8 && ltb 4 (first + n) then 1 else 0

abbrev pub counting_nand : NandOps ℕ
counting_nand = record {
  checkbad = λ c w. (if c == 1 then fail else ok, w);
  markbad = λ c w. (ok, if c == 1 then w + 1 else w);
  erase_block = λ first w. (ok, w + hits first 4);
  torture_block = λ c w. (device_io_error, if c == 1 then w + 1 else w);
  read_pages = λ first n buf raw flags w. (ok, n, w);
  write_pages = λ first n buf raw ignore_error w. (ok, n, w + hits first n);
}

abbrev pub fixed_bbt : Bbt ℕ
fixed_bbt = record {
  driver = none;
  own = record {
    reprobe = λ w. (ok, w);
    commit = none;
    modify_config = none;
    get_config = none;
    get_state = λ c w. (ok, if c == 1 then st_bad else st_good, w);
    set_state = λ c st w. (ok, w);
    is_reserved = none;
  };
}

-- All blocks good.
abbrev pub good_bbt : Bbt ℕ
good_bbt = record {
  driver = none;
  own = record fixed_bbt.own { get_state = λ c w. (ok, st_good, w) };
}

abbrev pub start : FtlState ℕ
start = record { reported = two_bit_map; world = 0 }

abbrev pub whole_chip : Part
whole_chip = record { base_block = 0; part_blocks = 4 }

abbrev IsUntouched : FtlState ℕ → Type 0
IsUntouched s = s.world ≡ 0

small_geo-IsRegular : IsRegular small_geo 4
small_geo-IsRegular = record { power = refl; mask = refl; numbered = omega arith }

same_world : (c : ℕ) (s : FtlState ℕ) → (check_block fixed_bbt 0 c s).1.world ≡ s.world
unfolding check_block is_good_block judge unusable_block_notice get_state is_reserved
same_world c s = ground arith

found_good : (c : ℕ) (s : FtlState ℕ) → (check_block fixed_bbt 0 c s).0 ≡ ok → c ≢ 1
unfolding check_block is_good_block judge unusable_block_notice get_state is_reserved
found_good c s h = ground (arith, h)

missed : (c first n : ℕ) → c ≢ 1 → InBlock small_geo c first n → hits first n ≡ 0
missed c first n ne h = ground (arith, ne, h.begins, h.ends)

small-IsConfined : IsConfined counting_nand fixed_bbt small_geo 0 none 0 4 (λ c. c ≢ 1) IsUntouched
unfolding note_state set_state pre_call after_transfer
small-IsConfined = record {
  asks = λ c s l h p. rw (same_world c s) p;
  judged = λ c s l h p e. found_good c s e;
  reads = λ c first n buf raw flags s l h g i p. p;
  writes = λ c first n buf raw ignore_error s l h g i p. omega (arith, p, missed c first n g i);
  erases = λ c first s l h g e p. ground (arith, p, g, e);
  tortures = λ c s l h g p. ground (arith, p, g);
  marks = λ c s l h g p. ground (arith, p, g);
  notes = λ c state s l h g p. ground (arith, p);
  pres = λ n s p. p;
  transfers = λ ret n s p. p;
  posts = λ n s p. p;
}

chip_Fits : (0 + 4 < 2 ^ 32) × (0 + 5 / 2 ^ 2 < 2 ^ 32)
chip_Fits = (omega arith, omega arith)

read_pages-keeps_example :
    IsUntouched
      (read_pages counting_nand fixed_bbt small_geo 0
        (some whole_chip)
        5
        6
        100
        false
        0
        none
        start).2
read_pages-keeps_example =
    read_pages-keeps counting_nand fixed_bbt small_geo 0 (some whole_chip) 5 none (λ c. c ≢ 1)
      IsUntouched 6 100 false 0 start small_geo-IsRegular chip_Fits small-IsConfined refl

write_pages-keeps_example :
    IsUntouched
      (write_pages counting_nand fixed_bbt small_geo 0
        (some whole_chip)
        5
        6
        100
        false
        false
        none
        start).2
write_pages-keeps_example =
    write_pages-keeps counting_nand fixed_bbt small_geo 0 (some whole_chip) 5 none (λ c. c ≢ 1)
      IsUntouched 6 100 false false start small_geo-IsRegular chip_Fits small-IsConfined refl

erase_Fits : (0 + 4 < 2 ^ 32) × (0 + u32 (1 * 2 ^ 2) / 2 ^ 2 < 2 ^ 32)
erase_Fits = (omega arith, omega arith)

erase_blocks-keeps_example :
    IsUntouched
      (erase_blocks counting_nand fixed_bbt small_geo 0 (some whole_chip) 1 2 true none start).2
erase_blocks-keeps_example =
    erase_blocks-keeps counting_nand fixed_bbt small_geo 0 (some whole_chip) 1 none (λ c. c ≢ 1)
      IsUntouched 2 true start small_geo-IsRegular erase_Fits small-IsConfined refl

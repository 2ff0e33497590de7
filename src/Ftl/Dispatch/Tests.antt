-- ===== src/Ftl/Dispatch/Tests.antt =====
-- Calls on a layer of four pages to a block and sixteen pages, whose world counts the reads of pages
-- below 5.
use ufprog.Common.{ℕ, ◌+◌, ◌-◌, ◌^◌, ◌≤◌, ◌<◌, ◌≡◌, refl, arith, ltb, if◌then◌else◌}
use ufprog.Common.{true, false, none, some, ok}
use ufprog.Bbt.Ram.Tests.{small_geo}
use ufprog.Ftl.Api.{Part}
use ufprog.Ftl.Dispatch.{Ftl, FtlSize, get_size, in_range, validate_virt_part_info}
use ufprog.Ftl.Dispatch.Request.{validate_virt_part_info-inside, validate_virt_part_info-wraps}
use ufprog.Ftl.Dispatch.Pages.{generic_read_pages, generic_write_pages, generic_erase_blocks}
use ufprog.Ftl.Dispatch.Pages.Loop.{IsComplete, generic-IsComplete, generic_read_pages-keeps}

abbrev small_ftl : Ftl ℕ
small_ftl = record {
  driver = none;
  own = record {
    get_size = λ w. (32768, w);
    read_page = λ part page buf raw w. (ok, if ltb page 5 then w + 1 else w);
    write_page = λ part page buf raw w. (ok, w);
    erase_block = λ part page spread w. (ok, w);
    read_pages = none;
    write_pages = none;
    erase_blocks = none;
    block_checkbad = λ block w. (ok, w);
    block_markbad = λ block w. (ok, w);
  };
}

-- Blocks 1 and 2.
abbrev middle : Part
middle = record { base_block = 1; part_blocks = 2 }

abbrev fresh : FtlSize ℕ
fresh = record { size = 0; ftl_total_pages = 0; world = 0 }

accepted : (validate_virt_part_info small_ftl small_geo (some middle) 3 5 fresh).0 ≡ true
unfolding validate_virt_part_info in_range get_size
accepted = refl

validate_virt_part_info-inside_example :
    (4 + 8
      ≤ (validate_virt_part_info small_ftl small_geo (some middle) 3 5 fresh).1.ftl_total_pages)
    × (3 < 8)
    × (3 + 5 ≤ 8)
validate_virt_part_info-inside_example =
    validate_virt_part_info-inside small_ftl small_geo middle 3 5 fresh (omega arith) (omega arith)
      accepted

sixteen : (get_size small_ftl small_geo fresh).1.ftl_total_pages ≡ 16
unfolding get_size
sixteen = refl

validate_virt_part_info-wraps_example :
    (2 ^ 32 - 3 < 2 ^ 32)
    × (8 < 3 + (2 ^ 32 - 3))
    × ((validate_virt_part_info small_ftl small_geo (some middle) 3 (2 ^ 32 - 3) fresh).0 ≡ true)
validate_virt_part_info-wraps_example =
    validate_virt_part_info-wraps small_ftl small_geo middle 3 fresh (omega arith)
      (omega (arith, sixteen)) (omega (arith, sixteen)) (omega arith) (omega arith)

generic-IsComplete_example :
    IsComplete 2 (generic_read_pages small_ftl small_geo (some middle) 1 2 100 false 0 none 0)
    × IsComplete 2
        (generic_write_pages small_ftl small_geo (some middle) 1 2 100 false false none 0)
    × IsComplete 2 (generic_erase_blocks small_ftl small_geo (some middle) 1 2 false none 0)
generic-IsComplete_example =
    generic-IsComplete small_ftl small_geo (some middle) 2 none 0 (omega arith) 1 100 false false
      false 0

generic_read_pages-keeps_example :
    (generic_read_pages small_ftl small_geo (some middle) 5 3 100 false 0 none 0).2 ≡ 0
generic_read_pages-keeps_example =
    generic_read_pages-keeps small_ftl small_geo (some middle) none (λ w. w ≡ 0) 5 3 100 false 0 0
      (omega arith) (λ p b w l h k. ground (arith, l, k)) (λ w k. k) refl

-- ===== src/Nand/Marker/Tests.antt =====
-- Markers on two small chips: one whose page 4 is marked, and one that remembers a write.
use ufprog.Common.{ℕ, ◌≡◌, ◌⊎◌, refl, ◌∙◌, arith, ◌==◌, if◌then◌else◌, leb}
use ufprog.Common.{none, [], ◌∷◌, Status, ok, fail, device_io_error}
use ufprog.Bbt.Ram.Tests.{small_geo}
use ufprog.Nand.Chip.{Machine, ChipOps, check_ret}
use ufprog.Nand.Pages.{write_page}
use ufprog.Nand.Marker.{
  BbmConfig, is_marker_clear, are_clear, read_markers, convert_cache, check_bbm, checkbad,
  mark_positions, write_bbm, mark_page, mark_pages, markbad,
}
use ufprog.Nand.Marker.Verdict.{some_bad, clear_pages, checkbad-verdict}
use ufprog.Nand.Marker.Marked.{markbad-IsMarked}

-- Raw markers of one byte at column 0, on the first two pages.
abbrev raw_cfg : BbmConfig
raw_cfg = record {
  flags = 4;
  pages = 0 ∷ 1 ∷ [];
  check_pos = 0 ∷ [];
  check_width = 8;
  mark_pos = 0 ∷ [];
  mark_bytes = 1;
}

abbrev fixed_chip : ChipOps ℕ
fixed_chip = record {
  read_page = λ page column len c. (ok, (if page == 4 then 0 else 255) ∷ [], c);
  write_page = λ page column bytes c. (ok, 1);
  erase_block = λ page c. (ok, c);
  read_pages = none;
  write_pages = none;
  ecc = none;
  page_cache0 = 0;
  page_cache1 = 16384;
}

-- State 1 once a page was written.
abbrev marking_chip : ChipOps ℕ
marking_chip = record fixed_chip {
  read_page = λ page column len c. (ok, (if c == 1 then 0 else 255) ∷ [], c);
}

abbrev blank : Machine ℕ
blank = record { mem = λ a. 0; chip = 0 }

abbrev page4_bad : ℕ → Status
page4_bad page = if page == 4 then fail else ok

page4_stable :
    (page : ℕ) (m : Machine ℕ)
    → (check_bbm fixed_chip small_geo 8 raw_cfg page m).0 ≡ page4_bad page
unfolding check_bbm read_markers convert_cache are_clear is_marker_clear check_ret
page4_stable page m = ground arith

checkbad-verdict_example : (checkbad fixed_chip small_geo 8 raw_cfg 1 blank).0 ≡ (
    if some_bad page4_bad 4 raw_cfg.pages
    then fail
    else if leb 1 (clear_pages page4_bad 4 raw_cfg.pages)
    then ok
    else device_io_error)
checkbad-verdict_example =
    checkbad-verdict fixed_chip small_geo 8 raw_cfg page4_bad page4_stable 1 blank (omega arith)

mark_run : (markbad marking_chip small_geo 8 raw_cfg 1 blank).0 ≡ ok
unfolding markbad mark_pages mark_page write_bbm mark_positions check_bbm read_markers convert_cache
    are_clear is_marker_clear check_ret write_page
mark_run = refl

abbrev Remembers : ℕ → Machine ℕ → Type 0
Remembers page m = m.chip ≡ 1

write_remembered :
    (page : ℕ) (m : Machine ℕ)
    → (write_bbm marking_chip small_geo 8 raw_cfg page m).0 ≡ ok
    → (write_bbm marking_chip small_geo 8 raw_cfg page m).1.chip ≡ 1
unfolding write_bbm convert_cache check_ret write_page mark_positions
write_remembered page m w = ground (arith, w)

write_still :
    (page : ℕ) (m : Machine ℕ)
    → m.chip ≡ 1
    → (write_bbm marking_chip small_geo 8 raw_cfg page m).1.chip ≡ 1
unfolding write_bbm convert_cache check_ret write_page mark_positions
write_still page m k = ground (arith, k)

check_still :
    (page : ℕ) (m : Machine ℕ) → (check_bbm marking_chip small_geo 8 raw_cfg page m).1.chip ≡ m.chip
unfolding check_bbm read_markers convert_cache are_clear is_marker_clear check_ret
check_still page m = ground arith

markbad-IsMarked_example :
    ((markbad marking_chip small_geo 8 raw_cfg 1 blank).1.chip ≡ 1)
    ⊎ ((markbad marking_chip small_geo 8 raw_cfg 1 blank).1.chip ≡ 1)
    ⊎ ⊥
markbad-IsMarked_example =
    markbad-IsMarked marking_chip small_geo 8 raw_cfg Remembers
      (λ page m w c.
        check_still page (write_bbm marking_chip small_geo 8 raw_cfg page m).1
        ∙ write_remembered page m w)
      (λ page other m k. write_still other m k) (λ page other m k. check_still other m ∙ k) 1 blank
      mark_run

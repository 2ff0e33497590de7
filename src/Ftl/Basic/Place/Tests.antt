-- ===== src/Ftl/Basic/Place/Tests.antt =====
-- Pages placed on the small chip.
use ufprog.Common.{ℕ, zero, suc, ◌<◌, ◌≡◌, refl, arith, ◌==◌}
use ufprog.Common.{some, done, if◌then◌else◌}
use ufprog.Bitmap.{bitmap_get}
use ufprog.Bbt.{st_good, st_bad, get_state, is_reserved}
use ufprog.Bbt.Ram.{RamWorld, ram_bbt}
use ufprog.Bbt.Ram.Tests.{small_geo, asked_nand, small_ram, small_ram-IsSized}
use ufprog.Bitmap.Tests.{two_bit_map, unit0, unit1, unit2, unit3}
use ufprog.Ftl.Basic.{FtlState, is_good_block, judge, unusable_block_notice}
use ufprog.Ftl.Basic.Settled.{IsKnown, good_state, ram_bbt-IsSettled}
use ufprog.Ftl.Basic.Place.{walk, finish, search_from, located, get_block_page}
use ufprog.Ftl.Basic.Place.Scan.{IsSettled}
use ufprog.Ftl.Basic.Place.Map.{IsLocated, get_block_page-IsLocated}
use ufprog.Ftl.Basic.Tests.{fixed_bbt, good_bbt, start, whole_chip}

-- Page 5 is page 1 of the second good block, looked for from block 1 on.
pub placed5 :
    get_block_page fixed_bbt small_geo 0 (some whole_chip) 5 start
    ≡ (done (record { block = 1; end_block = 4; page = 1 }), start)
unfolding get_block_page located search_from finish walk is_good_block judge unusable_block_notice
    get_state is_reserved
placed5 = refl

pub placed_all :
    get_block_page good_bbt small_geo 0 (some whole_chip) 8 start
    ≡ (done (record { block = 2; end_block = 4; page = 0 }), start)
unfolding get_block_page located search_from finish walk is_good_block judge unusable_block_notice
    get_state is_reserved
placed_all = refl

-- The states in the RAM table of the small chip.
abbrev states : ℕ → ℕ
states c = if c == 1 then st_bad else st_good

known_start : FtlState (RamWorld ℕ)
known_start = record { reported = two_bit_map; world = small_ram }

held : (b : ℕ) → b < 4 → bitmap_get two_bit_map b ≡ done (states b)
held zero h = unit0
held (suc zero) h = unit1
held (suc (suc zero)) h = unit2
held (suc (suc (suc zero))) h = unit3
held (suc (suc (suc (suc b)))) h = absurd (omega (arith, h))

known_start-IsKnown : IsKnown asked_nand small_geo states known_start
unfolding known_start
known_start-IsKnown = record {
  sized = small_ram-IsSized;
  held = held;
  known = λ b h e. ground (arith, e);
}

ram_bbt-IsSettled_example :
    IsSettled
      (ram_bbt asked_nand small_geo)
      (good_state asked_nand small_geo states)
      4
      (IsKnown asked_nand small_geo states)
ram_bbt-IsSettled_example = ram_bbt-IsSettled asked_nand small_geo states

get_block_page-IsLocated_example :
    let (r, s') =
      get_block_page (ram_bbt asked_nand small_geo) small_geo 0 (some whole_chip) 5 known_start in
    IsLocated
      (ram_bbt asked_nand small_geo)
      (good_state asked_nand small_geo states)
      4
      (IsKnown asked_nand small_geo states)
      (ram_bbt-IsSettled asked_nand small_geo states)
      0
      4
      1
      1
      r
    × IsKnown asked_nand small_geo states s'
get_block_page-IsLocated_example =
    get_block_page-IsLocated (ram_bbt asked_nand small_geo) (good_state asked_nand small_geo states)
      4 (IsKnown asked_nand small_geo states) (ram_bbt-IsSettled asked_nand small_geo states)
      small_geo 0 refl refl whole_chip 5 known_start (omega arith) (omega arith) known_start-IsKnown

-- ===== src/SpiNor/Erase/Sizes.antt =====
-- flash/spi-nor/spi-nor.c: the erase sizes of a part, and of a region.
use ufprog.Common.{ℕ, ◌+◌, ◌^◌, u32, ◌==◌, ltb, ◌&&◌, ◌||◌, if◌then◌else◌}
use ufprog.Common.{List, [], ◌∷◌}
use ufprog.Common.{}
use ufprog.SpiNor.Api.{EraseSectorInfo, EraseRegion}
use ufprog.SpiNor.Regs.{has}

-- `SNOR_F_SECT_4K`, `SNOR_F_SECT_32K`, `SNOR_F_SECT_64K` and `SNOR_F_SECT_256K`
abbrev f_sect_4k : ℕ
f_sect_4k = 4

abbrev f_sect_32k : ℕ
f_sect_32k = 8

abbrev f_sect_64k : ℕ
f_sect_64k = 16

abbrev f_sect_256k : ℕ
f_sect_256k = 32

-- The entries of `spi_nor_gen_erase_info`; the rest of its array is zero.
unfoldable pub gen_erase_info : (part_flags : ℕ) → List EraseSectorInfo → List EraseSectorInfo
gen_erase_info part_flags [] = []
gen_erase_info part_flags (ei ∷ eis) =
    let more = gen_erase_info part_flags eis in
    if ei.size == 0
    then more
    else if (has part_flags f_sect_4k && (ei.size == 4096))
        || (has part_flags f_sect_32k && (ei.size == 32768))
    then ei ∷ more
    else if has part_flags (f_sect_64k + f_sect_256k) && (ei.size == 65536)
    then (if has part_flags f_sect_256k then record ei { size = 262144 } else ei) ∷ more
    else more

-- The loop of `spi_nor_fill_erase_region_erasesizes` from entry `i` on.
fill_erasesizes : (region_size : ℕ) → List EraseSectorInfo → (i : ℕ) → EraseRegion → EraseRegion
fill_erasesizes region_size [] i erg = erg
fill_erasesizes region_size (ei ∷ eis) i erg =
    let clamped = if ltb region_size ei.size then u32 region_size else ei.size in
    let e1 : EraseRegion =
      if (erg.min_erasesize == 0) || ltb ei.size erg.min_erasesize
      then record erg { min_erasesize = clamped }
      else erg in
    let e2 : EraseRegion =
      if ltb erg.max_erasesize ei.size then record e1 { max_erasesize = clamped } else e1 in
    fill_erasesizes region_size eis (i + 1) (if has erg.erasesizes_mask (2 ^ i) then e2 else erg)

unfoldable pub fill_erase_region_erasesizes :
    List EraseSectorInfo → EraseRegion → (region_size : ℕ) → EraseRegion
unfolding fill_erasesizes
fill_erase_region_erasesizes infos erg region_size =
    fill_erasesizes region_size infos 0 (record erg { min_erasesize = 0; max_erasesize = 0 })

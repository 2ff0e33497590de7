-- ===== src/SpiNor/Wp.antt =====
-- flash/spi-nor/wp.c and wp.h: the regions that the protection bits of a status register stand for,
-- listing them, reading the one in force and setting one.
pub mod Entries
pub mod Tables1
pub mod Tables3
pub mod Tables3Sec
pub mod Tables4
pub mod Lookup
pub mod RoundTrip
pub mod Complete
pub mod Unset
pub mod Unreadable
pub mod Tests
use ufprog.Common.{
  ℕ, zero, suc, ◌+◌, ◌-◌, ◌*◌, ◌/◌, ◌%◌, ◌^◌, ◌>>>◌, u64, bit_and, bit_or, ◌==◌, ltb, ◌&&◌, ◌||◌,
  if◌then◌else◌, not,
}
use ufprog.Common.{
  Bool, true, false, Option, none, some, List, [], ◌∷◌, ◌++◌, Call, Result, done, err,
}
use ufprog.Common.{Status, ok, fail, unsupported, flash_not_probed, not_exist, pure, fail_with}
use ufprog.Common.{and_then, ◌>>=◌, ◌>>◌, ending, map_done}
use ufprog.SpiNor.Api.{SpiMem, Snor, RegAccess, Setup, WpRegion}
use ufprog.SpiNor.Regs.{has, read_reg, read_reg_acc, set_low_speed, bus_lock, bus_unlock}
use ufprog.SpiNor.RegWrite.{write_reg_acc}

-- `enum snor_wp_range_scale_type`; any other number is `invalid`.
pub data ScaleType : Type 0 where
  none_of_it : ScaleType
  all_of_it : ScaleType
  lshift : ScaleType
  rshift : ScaleType
  multi : ScaleType
  invalid : ScaleType

-- `struct spi_nor_wp_range` and `struct spi_nor_wp_info`
pub record WpRange : Type 0 where
  pub sr_val : ℕ
  pub type : ScaleType
  pub granularity : ℕ
  pub scale : ℕ
  pub flags : ℕ

pub record WpInfo : Type 0 where
  pub sr_mask : ℕ
  pub ranges : List WpRange

-- `SNOR_WPF_LOWER`, `SNOR_WPF_CMP` and `SNOR_WPF_CMP_FULL`
abbrev pub lower : ℕ
lower = 1

abbrev pub complementary : ℕ
complementary = 2

abbrev pub complementary_full : ℕ
complementary_full = 4

-- The `switch` of `spi_nor_gen_wp_region`.
abbrev pub scaled : (chip_size : ℕ) → ScaleType → (granularity scale : ℕ) → Result ℕ
scaled chip_size none_of_it granularity scale = done 0
scaled chip_size all_of_it granularity scale = done chip_size
scaled chip_size lshift granularity scale = done (u64 (granularity * 2 ^ scale))
scaled chip_size rshift granularity scale = done (chip_size / 2 ^ scale)
scaled chip_size multi granularity scale = done (u64 (granularity * scale))
scaled chip_size invalid granularity scale = err unsupported

-- What follows it: the place of a range of `size` bytes, or of the rest of the chip.
pub place : (chip_size flags size : ℕ) → WpRegion
place chip_size flags size =
    let s1 = if ltb chip_size size then chip_size else size in
    let s2 =
      if has flags complementary && has flags complementary_full
      then (if s1 == 0 then chip_size else if s1 == chip_size then 0 else s1)
      else s1 in
    let region : WpRegion =
      if has flags complementary
      then if has flags lower
        then record { base = s2; size = chip_size - s2 }
        else record { base = 0; size = chip_size - s2 }
      else if has flags lower
      then record { base = 0; size = s2 }
      else record { base = chip_size - s2; size = s2 } in
    if region.base == chip_size then record region { base = 0 } else region

pub gen_wp_region : (chip_size : ℕ) → WpRange → Result WpRegion
unfolding place
gen_wp_region chip_size range =
    map_done (place chip_size range.flags)
      (scaled chip_size range.type range.granularity range.scale)

-- The first range with a given value of the register.
pub find_range : (value : ℕ) → List WpRange → Option WpRange
find_range value [] = none
find_range value (r ∷ rs) = if value == r.sr_val then some r else find_range value rs

-- The first range that gives a region. An entry that gives none ends the search.
pub find_region : (chip_size base size : ℕ) → List WpRange → Result WpRange
unfolding gen_wp_region
find_region chip_size base size [] = err not_exist
find_region chip_size base size (r ∷ rs) =
    let rest = find_region chip_size base size rs in
    elim (gen_wp_region chip_size r) [
      | err e ↦ err e
      | done rg ↦ if (rg.base == base) && (rg.size == size) then done r else rest
    ]

-- The loop of `ufprog_spi_nor_get_wp_region_list`, which is there twice: `i` is 0 at the first range.
pub collect :
    (chip_size : ℕ) (first none_set all_set : Bool) (last : WpRegion)
    → List WpRange
    → Result (List WpRegion)
unfolding gen_wp_region
collect chip_size first none_set all_set last [] = done []
collect chip_size first none_set all_set last (r ∷ rs) = elim (gen_wp_region chip_size r) [
  | err e ↦ err e
  | done rg ↦
      let is_none = rg.size == 0 in
      let is_all = not is_none && (rg.size == chip_size) in
      let taken =
        if is_none
        then not none_set
        else if is_all
        then not all_set
        else first || not (rg.base == last.base) || not (rg.size == last.size) in
      map_done (λ l. if taken then rg ∷ l else l)
        (collect chip_size false (none_set || is_none) (all_set || is_all) rg rs)
]

module _ {W : Type 0} (spi : SpiMem W) (setup : Setup W) (left_over : ℕ)
    (wp : Option (WpInfo × RegAccess W)) (wp_regacc : Option (RegAccess W)) where
  -- The table, and the guards that all three functions begin with.
  with_ranges : {A : Type 0} → (WpInfo → RegAccess W → Call (Snor W) A) → Call (Snor W) A
  with_ranges body s =
      if setup.size == 0
      then (err flash_not_probed, s)
      else elim wp [ none ↦ (err unsupported, s) | some (info, access) ↦ body info access s ]

  -- Memory for the list is taken to be there.
  pub get_wp_region_list : Call (Snor W) (List WpRegion)
  unfolding with_ranges collect
  get_wp_region_list = with_ranges λ info access s. elim s.wp_regions [
    | some regions ↦ (done regions, s)
    | none ↦
        elim (collect setup.size true false false (record { base = 0; size = 0 }) info.ranges) [
          | err e ↦ (err e, s)
          | done regions ↦ (done regions, record s { wp_regions = some regions })
        ]
  ]

  region_of : Option WpRange → Result WpRegion
  unfolding gen_wp_region
  region_of none = err fail
  region_of (some range) = gen_wp_region setup.size range

  pub get_wp_region : Call (Snor W) WpRegion
  unfolding with_ranges region_of find_range
  get_wp_region = with_ranges λ info access.
      set_low_speed spi setup
      >> (read_reg spi setup left_over access >>= λ regval s.
          (region_of (find_range (bit_and regval info.sr_mask) info.ranges), s))

  -- The bits set under the bus lock, read back, and cleared again if they did not take.
  program : WpInfo → RegAccess W → WpRange → Call (Snor W) (Unit {0})
  program info access range = read_reg_acc spi setup left_over access >>= λ regval.
      let cleared = regval - bit_and regval info.sr_mask in
      let wanted = bit_or cleared range.sr_val in
      write_reg_acc spi setup left_over access wanted false
      >> (read_reg_acc spi setup left_over access >>= λ retval.
          if bit_and retval info.sr_mask == range.sr_val
          then pure tt
          else write_reg_acc spi setup left_over access (wanted - bit_and wanted info.sr_mask)
              false)

  access_or : RegAccess W → Option (RegAccess W) → RegAccess W
  access_or access none = access
  access_or access (some other) = other

  pub set_wp_region : WpRegion → Call (Snor W) (Unit {0})
  unfolding with_ranges find_region program access_or
  set_wp_region region = with_ranges λ info access s.
      elim (find_region setup.size (if region.size == setup.size then 0 else region.base)
        region.size info.ranges) [
          | err e ↦ (err e, s)
          | done range ↦ and_then (set_low_speed spi setup s) (λ _ s1.
              ending (program info (access_or access wp_regacc) range) (bus_unlock spi setup)
                (bus_lock spi setup s1))
        ]

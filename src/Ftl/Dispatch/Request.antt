-- ===== src/Ftl/Dispatch/Request.antt =====
-- What `validate_virt_part_info` accepts.
use ufprog.Common.{ℕ, ◌+◌, ◌-◌, ◌^◌, ◌≤◌, ◌<◌, ◌≡◌, arith, u32, sym, ◌<<<◌}
use ufprog.Common.{true, some}
use ufprog.Nand.Api.{Geometry}
use ufprog.Ftl.Api.{Part}
use ufprog.Ftl.Dispatch.{Ftl, FtlSize, in_range, get_size, validate_virt_part_info}

module _ {W : Type 0} (ftl : Ftl W) (geo : Geometry) (part : Part) where
  -- The pages of the chip before the partition, and those of the partition.
  abbrev pub start_of : ℕ
  start_of = part.base_block <<< geo.pages_per_block_shift

  abbrev pub pages_of : ℕ
  pages_of = part.part_blocks <<< geo.pages_per_block_shift

  in_range-inside :
      (total page count : ℕ)
      → start_of + pages_of < 2 ^ 32
      → page + count < 2 ^ 32
      → in_range ftl geo total (some part) page count ≡ true
      → (start_of + pages_of ≤ total) × (page < pages_of) × (page + count ≤ pages_of)
  unfolding in_range
  in_range-inside total page count fits small h = ground (arith, fits, small, h)

  -- If the page numbers of the partition's end and of the request's end do not wrap, a request that
  -- `validate_virt_part_info` accepts lies in the partition, and the partition in the chip.
  pub validate_virt_part_info-inside :
      (page count : ℕ) (s : FtlSize W)
      → start_of + pages_of < 2 ^ 32
      → page + count < 2 ^ 32
      → let (valid, s') = validate_virt_part_info ftl geo (some part) page count s in
        valid ≡ true
        → (start_of + pages_of ≤ s'.ftl_total_pages) × (page < pages_of) × (page + count ≤ pages_of)
  unfolding validate_virt_part_info
  validate_virt_part_info-inside page count s fits small h =
      let p : u32 page ≡ page = omega (arith, small) in
      let c : u32 count ≡ count = omega (arith, small) in
      in_range-inside (get_size ftl geo s).1.ftl_total_pages page count fits small
        (rw (sym p, sym c) h)

  in_range_wraps :
      (total page : ℕ)
      → start_of + pages_of < 2 ^ 32
      → start_of < total
      → start_of + pages_of ≤ total
      → page < pages_of
      → in_range ftl geo total (some part) page (2 ^ 32 - page) ≡ true
  unfolding in_range
  in_range_wraps total page fits starts inside h = ground (arith, fits, starts, inside, h)

  -- For every page but the first of a partition that lies in the chip there is a 32-bit count that
  -- `validate_virt_part_info` accepts although the request ends beyond the partition, however few
  -- pages it has: 2^32 less the page, whose 32-bit sum with the page is 0.
  pub validate_virt_part_info-wraps :
      (page : ℕ) (s : FtlSize W)
      → start_of + pages_of < 2 ^ 32
      → start_of < (get_size ftl geo s).1.ftl_total_pages
      → start_of + pages_of ≤ (get_size ftl geo s).1.ftl_total_pages
      → 1 ≤ page
      → page < pages_of
      → (2 ^ 32 - page < 2 ^ 32)
        × (pages_of < page + (2 ^ 32 - page))
        × ((validate_virt_part_info ftl geo (some part) page (2 ^ 32 - page) s).0 ≡ true)
  unfolding validate_virt_part_info
  validate_virt_part_info-wraps page s fits starts inside later h =
      let p : u32 page ≡ page = omega (arith, fits, h) in
      let c : u32 (2 ^ 32 - page) ≡ 2 ^ 32 - page = omega (arith, later) in
      (
        omega (arith, later),
        omega (arith, fits),
        rw (p, c) (in_range_wraps (get_size ftl geo s).1.ftl_total_pages page fits starts inside h),
      )

-- ===== src/Nand/Marker.antt =====
-- flash/nand/core/nand.c: bad block markers, written to and looked for in some pages of a block.
pub mod Verdict
pub mod Marked
pub mod Tests
use ufprog.Common.{
  ℕ, zero, suc, ◌+◌, ◌-◌, ◌*◌, ◌/◌, ◌%◌, ◌^◌, ◌<<<◌, u32, bit_and, ◌==◌, leb, ltb, ◌||◌, ◌&&◌,
  if◌then◌else◌, not,
}
use ufprog.Common.{Bool, true, false, Option, none, some, List, [], ◌∷◌, length, Result, done, err}
use ufprog.Common.{
  Status, ok, fail, invalid_parameter, device_io_error, data_verification_fail, is_ok, is_fail,
}
use ufprog.Bitops.{generic_hweight8}
use ufprog.Nand.Api.{Geometry}
use ufprog.Nand.Chip.{Machine, ChipOps, check_ret, set_enable, fetch, copy_in, copy_out, fill}
use ufprog.Nand.Pages.{read_page, write_page}

-- `struct nand_bbm_config`: of each array the first `num` entries.
pub record BbmConfig : Type 0 where
  pub flags : ℕ
  pub pages : List ℕ
  pub check_pos : List ℕ
  pub check_width : ℕ
  pub mark_pos : List ℕ
  pub mark_bytes : ℕ

-- `ECC_F_BBM_MARK_WHOLE_PAGE`, `ECC_F_BBM_RAW` and `ECC_F_BBM_CANONICAL_LAYOUT`
abbrev pub bbm_mark_whole_page : ℕ
bbm_mark_whole_page = 2

abbrev pub bbm_raw : ℕ
bbm_raw = 4

abbrev pub bbm_canonical_layout : ℕ
bbm_canonical_layout = 8

abbrev has : ℕ → ℕ → Bool
has flags flag = not (bit_and flags flag == 0)

-- The inner loop of the check on one position: `whole` bytes of ones, and `rest` ones in the next.
pub is_marker_clear : (mem : ℕ → ℕ) (whole rest bad : ℕ) → Bool
is_marker_clear mem zero rest bad = rest == 0 || not (ltb (generic_hweight8 (mem bad)) rest)
is_marker_clear mem (suc whole) rest bad =
    let more = is_marker_clear mem whole rest (bad + 1) in
    if mem bad == 2 ^ 8 - 1 then more else false

pub are_clear : (mem : ℕ → ℕ) (width buf : ℕ) → List ℕ → Bool
are_clear mem width buf [] = true
are_clear mem width buf (pos ∷ more) =
    is_marker_clear mem (width / 8) (width % 8) (buf + pos) && are_clear mem width buf more

-- The marker's bytes at each position set to 0, in a page at `buf`; `pos & ~1` on a 16-bit bus.
pub mark_positions : (wide : Bool) (bytes buf : ℕ) → List ℕ → (ℕ → ℕ) → ℕ → ℕ
mark_positions wide bytes buf [] mem = mem
mark_positions wide bytes buf (pos ∷ more) mem =
    mark_positions wide bytes buf more
      (fill 0 bytes (buf + (if wide then pos - pos % 2 else pos)) mem)

module _ {C : Type 0} (ops : ChipOps C) (geo : Geometry) (bus_width : ℕ) (cfg : BbmConfig) where
  -- The bytes at each position alone.
  pub read_markers : (page : ℕ) → List ℕ → Machine C → Status × Machine C
  read_markers page [] m = (ok, m)
  read_markers page (pos ∷ more) m =
      check_ret
        (fetch ops geo.oob_page_size page pos ((cfg.check_width + 7) / 8) (ops.page_cache0 + pos) m)
        (read_markers page more)

  -- The page in the first cache, turned into the second one if the markers' places are those of the
  -- canonical layout and the ECC engine has another; the address of the one that counts.
  pub convert_cache : (from_canonical : Bool) → Machine C → Status × ℕ × Machine C
  convert_cache from_canonical m =
      let given : Option (Bool → List ℕ → C → Status × List ℕ × C) = elim ops.ecc [
        | none ↦ none
        | some ecc ↦ ecc.convert
      ] in
      let made : Status × ℕ × Machine C = elim given [
        | none ↦ (ok, ops.page_cache0, m)
        | some convert ↦
            let (ret, bytes, c) =
              convert from_canonical (copy_out m.mem ops.page_cache0 geo.oob_page_size) m.chip in
            (ret, ops.page_cache1, record { mem = copy_in bytes ops.page_cache1 m.mem; chip = c })
      ] in
      if has cfg.flags bbm_canonical_layout then made else (ok, ops.page_cache0, m)

  pub check_bbm : ℕ → Machine C → Status × Machine C
  check_bbm page m =
      let width = if cfg.check_width == 0 then 8 else cfg.check_width in
      let markers =
        check_ret (set_enable ops geo.oob_page_size false m) (read_markers page cfg.check_pos) in
      let whole = read_page ops geo page ops.page_cache0 (has cfg.flags bbm_raw) m in
      let looked = λ (m : Machine C).
        let (ret, buf, m') = convert_cache false m in
        if is_ok ret
        then (if are_clear m'.mem width buf cfg.check_pos then ok else fail, m')
        else (ret, m') in
      check_ret
        (if has cfg.flags bbm_raw && not (has cfg.flags bbm_canonical_layout)
          then markers
          else whole)
        looked

  pub write_bbm : ℕ → Machine C → Status × Machine C
  write_bbm page m =
      let wide = bus_width == 16 in
      let bytes = if cfg.mark_bytes == 0 then (if wide then 2 else 1) else cfg.mark_bytes in
      let whole = fill 0 geo.oob_page_size ops.page_cache0 m.mem in
      let ones = fill (2 ^ 8 - 1) geo.oob_page_size ops.page_cache0 m.mem in
      let marked = mark_positions wide bytes ops.page_cache0 cfg.mark_pos ones in
      let mem = if has cfg.flags bbm_mark_whole_page then whole else marked in
      let (ret, buf, m') = convert_cache true (record m { mem = mem }) in
      if is_ok ret then write_page ops geo page buf (has cfg.flags bbm_raw) m' else (ret, m')

  -- The loop of `ufprog_nand_checkbad` from the pages that are left on: none for an early UFP_FAIL, or
  -- the number of pages that could not be checked.
  pub check_pages : (base fails : ℕ) → List ℕ → Machine C → Option ℕ × Machine C
  check_pages base fails [] m = (some fails, m)
  check_pages base fails (idx ∷ more) m =
      let (ret, m') = check_bbm (u32 (base + idx)) m in
      let clear = check_pages base fails more m' in
      let unknown = check_pages base (fails + 1) more m' in
      if is_ok ret then clear else if is_fail ret then (none, m') else unknown

  pub checkbad : ℕ → Machine C → Status × Machine C
  checkbad block m =
      let (r, m') = check_pages (u32 (block <<< geo.pages_per_block_shift)) 0 cfg.pages m in
      let ret : Status = elim r [
        | none ↦ fail
        | some fails ↦ if ltb fails (length cfg.pages) then ok else device_io_error
      ] in
      if leb geo.block_count block then (invalid_parameter, m) else (ret, m')

  -- One page of `ufprog_nand_markbad`: write the marker, and see that it is there.
  pub mark_page : ℕ → Machine C → Status × Bool × Machine C
  mark_page page m =
      let (ret, m1) = write_bbm page m in
      let (ret', m2) = check_bbm page m1 in
      if not (is_ok ret)
      then (ret, false, m1)
      else if is_fail ret'
      then (ret', true, m2)
      else (if is_ok ret' then data_verification_fail else ret', false, m2)

  -- The loop: the last status, and the number of pages marked.
  pub mark_pages : (base : ℕ) → Status → (marked : ℕ) → List ℕ → Machine C → Status × ℕ × Machine C
  mark_pages base ret marked [] m = (ret, marked, m)
  mark_pages base ret marked (idx ∷ more) m =
      let (ret', done_now, m') = mark_page (u32 (base + idx)) m in
      mark_pages base ret' (if done_now then marked + 1 else marked) more m'

  pub markbad : ℕ → Machine C → Status × Machine C
  markbad block m =
      let (ret, marked, m') =
        mark_pages (u32 (block <<< geo.pages_per_block_shift)) fail 0 cfg.pages m in
      if leb geo.block_count block
      then (invalid_parameter, m)
      else (if marked == 0 then ret else ok, m')

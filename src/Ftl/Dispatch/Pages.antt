-- ===== src/Ftl/Dispatch/Pages.antt =====
-- The calls of ftl.c for many pages or blocks, and the loops of `generic_ftl_read_pages`,
-- `generic_ftl_write_pages` and `generic_ftl_erase_blocks`.
pub mod Loop
use ufprog.Common.{ℕ, zero, suc, ◌+◌, ◌<<<◌, u32, ◌==◌, ◌||◌, if◌then◌else◌}
use ufprog.Common.{Bool, true, false, not, Option, none, some}
use ufprog.Common.{Status, ok, invalid_parameter, is_ok}
use ufprog.Nand.Api.{Geometry}
use ufprog.Ftl.Api.{Part, Callback, buffer_of, pre_call, post_call, read_ignored}
use ufprog.Ftl.Dispatch.{FtlTable, Ftl, FtlSize, table, optional, validate_virt_part_info}

module _ {W : Type 0} where
  -- What the three loops share: `step` on a page and a buffer, then the counts, then the callback.
  -- The second result is the count of pages done.
  pub each_page :
      (step : ℕ → ℕ → W → Status × W) (stride size : ℕ) (cb : Option (Callback W))
      (count page p total : ℕ)
      → W
      → Status × ℕ × W
  each_page step stride size cb zero page p total w = (ok, total, w)
  each_page step stride size cb (suc count) page p total w =
      let (ret, w1) = step page (buffer_of cb p) w in
      let (ret', w2) = post_call cb 1 w1 in
      let rest =
        each_page step stride size cb count (u32 (page + stride)) (p + size) (u32 (total + 1)) w2 in
      if is_ok ret
      then (if is_ok ret' then rest else (ret', u32 (total + 1), w2))
      else (ret, total, w1)

module _ {W : Type 0} (ftl : Ftl W) (geo : Geometry) where
  pub read_step : Option Part → Bool → ℕ → ℕ → ℕ → W → Status × W
  read_step part raw flags page buf w =
      let (ret, w') = (table ftl).read_page part page buf raw w in
      (if is_ok ret || read_ignored ret flags then ok else ret, w')

  -- The loop calls `cb->pre` with no test; a callback with no `pre` is given as one that does nothing.
  pub write_step : Option Part → Bool → Bool → Option (Callback W) → ℕ → ℕ → W → Status × W
  write_step part raw ignore_error cb page buf w =
      let (ready, w1) = pre_call cb 1 w in
      let (ret, w2) = (table ftl).write_page part page buf raw w1 in
      if is_ok ready then (if is_ok ret || ignore_error then ok else ret, w2) else (ready, w1)

  pub generic_read_pages :
      Option Part → ℕ → ℕ → ℕ → Bool → ℕ → Option (Callback W) → W → Status × ℕ × W
  generic_read_pages part page count buf raw flags cb w =
      each_page (read_step part raw flags) 1 geo.oob_page_size cb count page buf 0 w

  pub generic_write_pages :
      Option Part → ℕ → ℕ → ℕ → Bool → Bool → Option (Callback W) → W → Status × ℕ × W
  generic_write_pages part page count buf raw ignore_error cb w =
      each_page (write_step part raw ignore_error cb) 1 geo.oob_page_size cb count page buf 0 w

  pub generic_erase_blocks : Option Part → ℕ → ℕ → Bool → Option (Callback W) → W → Status × ℕ × W
  generic_erase_blocks part block count spread cb w =
      each_page (λ page buf w. (table ftl).erase_block part page spread w) geo.pages_per_block 0 cb
        count (u32 (block <<< geo.pages_per_block_shift)) 0 0 w

  -- The tests in front of a call for many pages.
  abbrev pub served :
      Option Part → ℕ → ℕ → ℕ → (W → Status × ℕ × W) → FtlSize W → Status × ℕ × FtlSize W
  served part page pages count call s =
      let (valid, s') = validate_virt_part_info ftl geo part page pages s in
      let (ret, total, w) = call s'.world in
      if not valid
      then (invalid_parameter, 0, s')
      else if count == 0
      then (ok, 0, s')
      else (ret, total, record s' { world = w })

  abbrev pub read_call :
      Option Part → ℕ → ℕ → ℕ → Bool → ℕ → Option (Callback W) → W → Status × ℕ × W
  read_call = elim (optional (λ t. t.read_pages) ftl) [ none ↦ generic_read_pages | some f ↦ f ]

  abbrev pub write_call :
      Option Part → ℕ → ℕ → ℕ → Bool → Bool → Option (Callback W) → W → Status × ℕ × W
  write_call = elim (optional (λ t. t.write_pages) ftl) [ none ↦ generic_write_pages | some f ↦ f ]

  abbrev pub erase_call : Option Part → ℕ → ℕ → Bool → Option (Callback W) → W → Status × ℕ × W
  erase_call = elim (optional (λ t. t.erase_blocks) ftl) [
    | none ↦ generic_erase_blocks
    | some f ↦ f
  ]

  -- A call with no buffer of its own needs one from the callback.
  pub read_pages :
      Option Part → ℕ → ℕ → ℕ → Bool → ℕ → Option (Callback W) → FtlSize W → Status × ℕ × FtlSize W
  read_pages part page count buf raw flags cb s =
      if buffer_of cb buf == 0
      then (invalid_parameter, 0, s)
      else served part page count count (read_call part page count buf raw flags cb) s

  pub write_pages :
      Option Part
      → ℕ
      → ℕ
      → ℕ
      → Bool
      → Bool
      → Option (Callback W)
      → FtlSize W
      → Status × ℕ × FtlSize W
  write_pages part page count buf raw ignore_error cb s =
      if buffer_of cb buf == 0
      then (invalid_parameter, 0, s)
      else served part page count count (write_call part page count buf raw ignore_error cb) s

  pub erase_blocks :
      Option Part → ℕ → ℕ → Bool → Option (Callback W) → FtlSize W → Status × ℕ × FtlSize W
  erase_blocks part block count spread cb s =
      served part (u32 (block <<< geo.pages_per_block_shift))
        (u32 (count <<< geo.pages_per_block_shift)) count (erase_call part block count spread cb) s

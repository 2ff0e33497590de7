-- ===== src/Nand/Pages.antt =====
-- flash/nand/core/nand.c: reads, writes and erases of pages, with the ECC engine's part in them.
pub mod Count
pub mod Keeps
use ufprog.Common.{bit_and, ℕ, zero, suc, ◌+◌, ◌>>>◌, u32, ◌==◌, leb, ltb, ◌||◌, if◌then◌else◌, not}
use ufprog.Common.{Bool, true, false, Option, none, some}
use ufprog.Common.{Status, ok, address_out_of_range, is_ok, is_corrected}
use ufprog.Nand.Api.{Geometry}
use ufprog.Nand.Chip.{Machine, ChipOps, check_ret, set_enable, fetch, decode, encode, program}
use ufprog.Ftl.Api.{read_ignored, ignore_io_error}

module _ {C : Type 0} (ops : ChipOps C) (geo : Geometry) where
  -- `nand->maux.page_count`
  abbrev pub page_count : ℕ
  page_count = u32 (geo.size >>> geo.page_shift)

  unfoldable pub read_page : (page buf : ℕ) → Bool → Machine C → Status × Machine C
  read_page page buf raw m =
      let go = check_ret (set_enable ops geo.oob_page_size (not raw) m) λ m.
        check_ret (fetch ops geo.oob_page_size page 0 geo.oob_page_size buf m) λ m.
          let (ret, m') = decode ops geo.oob_page_size raw buf m in
          (if is_corrected ret then ok else ret, m') in
      if leb (geo.size >>> geo.page_shift) page then (address_out_of_range, m) else go

  -- A status of the ECC engine that does not end the loop of `ufprog_nand_read_pages`.
  abbrev pub passes : Status → ℕ → Bool
  passes ret flags = is_ok ret || is_corrected ret || read_ignored ret flags

  -- The test of a failed `nand->read_page`: any kind is passed over with the flag for I/O errors.
  abbrev pub io_passes : Status → ℕ → Bool
  io_passes ret flags = is_ok ret || not (bit_and flags ignore_io_error == 0)

  pub read_loop : Bool → (flags count page p rdcnt : ℕ) → Machine C → Status × ℕ × Machine C
  read_loop raw flags zero page p rdcnt m = (ok, rdcnt, m)
  read_loop raw flags (suc count) page p rdcnt m =
      let (ret, m1) = fetch ops geo.oob_page_size page 0 geo.oob_page_size p m in
      let (ret', m2) = decode ops geo.oob_page_size raw p m1 in
      let rest =
        read_loop raw flags count (u32 (page + 1)) (p + geo.oob_page_size) (u32 (rdcnt + 1)) m2 in
      if not (io_passes ret flags)
      then (ret, rdcnt, m1)
      else if passes ret' flags
      then rest
      else (ret', rdcnt, m2)

  -- What `ufprog_nand_read_pages` and `ufprog_nand_write_pages` begin with. On an early return
  -- `*retcount` is 0.
  abbrev pub with_pages :
      (page count : ℕ)
      → Bool
      → (Machine C → Status × ℕ × Machine C)
      → Machine C
      → Status × ℕ × Machine C
  with_pages page count raw go m =
      let (ret, m') = set_enable ops geo.oob_page_size (not raw) m in
      if leb page_count page || ltb page_count (u32 (page + count))
      then (address_out_of_range, 0, m)
      else if count == 0
      then (ok, 0, m)
      else if is_ok ret
      then go m'
      else (ret, 0, m')

  pub read_pages : (page count buf : ℕ) → Bool → ℕ → Machine C → Status × ℕ × Machine C
  read_pages page count buf raw flags m =
      let go : Machine C → Status × ℕ × Machine C = elim ops.read_pages [
        | none ↦ read_loop raw flags count page buf 0
        | some f ↦ f page count buf flags
      ] in
      with_pages page count raw go m

  unfoldable pub write_page : (page buf : ℕ) → Bool → Machine C → Status × Machine C
  write_page page buf raw m =
      let go = check_ret (set_enable ops geo.oob_page_size (not raw) m) λ m.
        let (ret, tmp, m') = encode ops geo.oob_page_size raw buf m in
        check_ret (ret, m') (program ops geo.oob_page_size page tmp) in
      if leb (geo.size >>> geo.page_shift) page then (address_out_of_range, m) else go

  pub write_loop : Bool → Bool → (count page p wrcnt : ℕ) → Machine C → Status × ℕ × Machine C
  write_loop raw ignore_error zero page p wrcnt m = (ok, wrcnt, m)
  write_loop raw ignore_error (suc count) page p wrcnt m =
      let (ret, tmp, m1) = encode ops geo.oob_page_size raw p m in
      let (ret', m2) = program ops geo.oob_page_size page tmp m1 in
      let rest =
        write_loop raw ignore_error count (u32 (page + 1)) (p + geo.oob_page_size) (u32 (wrcnt + 1))
          m2 in
      if not (is_ok ret || ignore_error)
      then (ret, wrcnt, m1)
      else if is_ok ret' || ignore_error
      then rest
      else (ret', wrcnt, m2)

  pub write_pages : (page count buf : ℕ) → Bool → Bool → Machine C → Status × ℕ × Machine C
  write_pages page count buf raw ignore_error m =
      let go : Machine C → Status × ℕ × Machine C = elim ops.write_pages [
        | none ↦ write_loop raw ignore_error count page buf 0
        | some f ↦ f page count buf ignore_error
      ] in
      with_pages page count raw go m

  pub erase_block : ℕ → Machine C → Status × Machine C
  erase_block page m =
      let (ret, c) = ops.erase_block page m.chip in
      if leb (geo.size >>> geo.page_shift) page
      then (address_out_of_range, m)
      else (ret, record m { chip = c })

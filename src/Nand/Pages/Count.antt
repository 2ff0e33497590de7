-- ===== src/Nand/Pages/Count.antt =====
-- Reads and writes of pages: their counts, and the pages that they touch.
use ufprog.Common.{
  ℕ, zero, suc, ◌+◌, ◌^◌, ◌≤◌, ◌<◌, ◌≡◌, ◌≢◌, arith, u32, leb, ltb, ◌==◌, ==_iff, either, bit_and,
}
use ufprog.Common.{
  Bool, true, false, not, ◌||◌, Option, none, some, Status, ok, is_ok, is_corrected, not_ok,
  address_out_of_range,
}
use ufprog.Nand.Api.{Geometry}
use ufprog.Nand.Chip.{Machine, ChipOps, set_enable, fetch, decode, encode, program}
use ufprog.Nand.Pages.{
  page_count, with_pages, passes, io_passes, read_loop, read_pages, write_loop, write_pages,
}
use ufprog.Ftl.Api.{read_ignored, ignore_io_error}

-- The count is no more than `count`, and just that with UFP_OK.
pub record IsComplete {C : Type 0} (count : ℕ) (r : Status × ℕ × Machine C) : Type 0 where
  pub bounded : r.1 ≤ count
  pub whole : r.0 ≡ ok → r.1 ≡ count

module _ {C : Type 0} (ops : ChipOps C) (geo : Geometry) where
  failed :
      (count total : ℕ) (ret : Status) (m : Machine C)
      → total ≤ count
      → ret ≢ ok
      → IsComplete count (ret, total, m)
  failed count total ret m le h = record { bounded = le; whole = λ k. absurd (h k) }

  moved :
      (n count : ℕ) {r : Status × ℕ × Machine C} → n ≡ count → IsComplete n r → IsComplete count r
  moved n count e h = record {
    bounded = omega (arith, e, h.bounded);
    whole = λ k. omega (arith, e, h.whole k);
  }

  abbrev Result3 : Type 0
  Result3 = Status × ℕ × Machine C

  not_ok_of : (ret : Status) (b : Bool) → not (is_ok ret || b) ≡ true → ret ≢ ok
  not_ok_of ret b h = ground arith

  not_passed : (ret : Status) (a b : Bool) → (is_ok ret || a || b) ≡ false → ret ≢ ok
  not_passed ret a b h = ground arith

  not_ok_or : (ret : Status) (b : Bool) → (is_ok ret || b) ≡ false → ret ≢ ok
  not_ok_or ret b h = ground arith

  out_of_range : address_out_of_range ≢ ok
  out_of_range h = ground arith

  read_loop-IsComplete :
      (raw : Bool) (flags count page p rdcnt : ℕ) (m : Machine C)
      → rdcnt + count < 2 ^ 32
      → IsComplete (rdcnt + count) (read_loop ops geo raw flags count page p rdcnt m)
  unfolding read_loop
  read_loop-IsComplete raw flags zero page p rdcnt m h = record {
    bounded = omega arith;
    whole = λ e. omega arith;
  }
  read_loop-IsComplete raw flags (suc count) page p rdcnt m h =
      let (ret, m1) = fetch ops geo.oob_page_size page 0 geo.oob_page_size p m in
      let (ret', m2) = decode ops geo.oob_page_size raw p m1 in
      let more =
        read_loop-IsComplete raw flags count (u32 (page + 1)) (p + geo.oob_page_size)
          (u32 (rdcnt + 1)) m2 (omega (arith, h)) in
      either (IsComplete (rdcnt + suc count)) (not (io_passes ops geo ret flags))
        (λ e.
          failed _ rdcnt ret m1 (omega arith)
            (not_ok_of ret (not (bit_and flags ignore_io_error == 0)) e))
        (λ e.
          either (IsComplete (rdcnt + suc count)) (passes ops geo ret' flags)
            (λ e'. moved (u32 (rdcnt + 1) + count) _ (omega (arith, h)) more)
            (λ e'.
              failed _ rdcnt ret' m2 (omega arith)
                (not_passed ret' (is_corrected ret') (read_ignored ret' flags) e')))

  write_loop-IsComplete :
      (raw ignore_error : Bool) (count page p wrcnt : ℕ) (m : Machine C)
      → wrcnt + count < 2 ^ 32
      → IsComplete (wrcnt + count) (write_loop ops geo raw ignore_error count page p wrcnt m)
  unfolding write_loop
  write_loop-IsComplete raw ignore_error zero page p wrcnt m h = record {
    bounded = omega arith;
    whole = λ e. omega arith;
  }
  write_loop-IsComplete raw ignore_error (suc count) page p wrcnt m h =
      let (ret, tmp, m1) = encode ops geo.oob_page_size raw p m in
      let (ret', m2) = program ops geo.oob_page_size page tmp m1 in
      let more =
        write_loop-IsComplete raw ignore_error count (u32 (page + 1)) (p + geo.oob_page_size)
          (u32 (wrcnt + 1)) m2 (omega (arith, h)) in
      either (IsComplete (wrcnt + suc count)) (not (is_ok ret || ignore_error))
        (λ e. failed _ wrcnt ret m1 (omega arith) (not_ok_of ret ignore_error e))
        (λ e.
          either (IsComplete (wrcnt + suc count)) (is_ok ret' || ignore_error)
            (λ e'. moved (u32 (wrcnt + 1) + count) _ (omega (arith, h)) more)
            (λ e'. failed _ wrcnt ret' m2 (omega arith) (not_ok_or ret' ignore_error e')))

  with_pages-IsComplete :
      (page count : ℕ) (raw : Bool) (go : Machine C → Result3) (m : Machine C)
      → ((m : Machine C) → IsComplete count (go m))
      → IsComplete count (with_pages ops geo page count raw go m)
  with_pages-IsComplete page count raw go m h =
      let (ret, m') = set_enable ops geo.oob_page_size (not raw) m in
      either (IsComplete count)
        (leb (page_count ops geo) page || ltb (page_count ops geo) (u32 (page + count)))
        (λ e. failed count 0 address_out_of_range m (omega arith) out_of_range)
        (λ e.
          either (IsComplete count) (count == 0)
            (λ z. record {
              bounded = omega arith;
              whole = λ k. omega (arith, (==_iff count 0).0 z);
            })
            (λ z.
              either (IsComplete count) (is_ok ret) (λ g. h m')
                (λ g. failed count 0 ret m' (omega arith) (not_ok ret g))))

  own_loop :
      {F : Type 0} (count : ℕ) (o : Option F) (loop : Machine C → Result3)
      (call : F → Machine C → Result3)
      → o ≡ none
      → ((m : Machine C) → IsComplete (0 + count) (loop m))
      → (m : Machine C)
      → let go : Machine C → Result3 = elim o [ none ↦ loop | some f ↦ call f ] in
        IsComplete count (go m)
  own_loop count none loop call e h m = moved (0 + count) count (omega arith) (h m)
  own_loop count (some f) loop call e h m = absurd (ground (arith, e))

  -- On a chip with no function of its own for many pages, `ufprog_nand_read_pages` and
  -- `ufprog_nand_write_pages` of fewer than 2^32 pages never count more pages than were asked for, and
  -- count just that when they give UFP_OK, whatever the chip and its ECC engine do.
  pub pages-IsComplete :
      (page count buf : ℕ) (raw ignore_error : Bool) (flags : ℕ) (m : Machine C)
      → count < 2 ^ 32
      → ops.read_pages ≡ none
      → ops.write_pages ≡ none
      → IsComplete count (read_pages ops geo page count buf raw flags m)
        × IsComplete count (write_pages ops geo page count buf raw ignore_error m)
  unfolding read_pages write_pages
  pages-IsComplete page count buf raw ignore_error flags m small er ew = (
    with_pages-IsComplete page count raw _ m (
        own_loop count ops.read_pages _ (λ f. f page count buf flags) er
          (λ m. read_loop-IsComplete raw flags count page buf 0 m (omega (arith, small)))),
    with_pages-IsComplete page count raw _ m (
        own_loop count ops.write_pages _ (λ f. f page count buf ignore_error) ew
          (λ m. write_loop-IsComplete raw ignore_error count page buf 0 m (omega (arith, small)))),
  )

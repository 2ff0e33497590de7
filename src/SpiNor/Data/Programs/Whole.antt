-- ===== src/SpiNor/Data/Programs/Whole.antt =====
-- `ufprog_spi_nor_write` with `spi_nor_page_program` as its page writer.
use native.Mathlib.Nat.{one-le-pow, mod-lt}
use ufprog.Common.{ℕ, ◌+◌, ◌-◌, ◌%◌, ◌^◌, ◌≤◌, ◌<◌, ◌≡◌, refl, arith, ap, ◌∙◌, List, length, drop}
use ufprog.Common.{some, done}
use ufprog.SpiNor.Api.{SpiMem, Snor, Setup}
use ufprog.SpiNor.Data.{write}
use ufprog.SpiNor.Data.Bytes.{bytes_at, length-bytes_at, drop-bytes_at}
use ufprog.SpiNor.Data.Writes.{write_lem}
use ufprog.SpiNor.Data.Programs.{IsProgrammed, taken, PageEnds, page_programs}

module _ {W : Type 0} (spi : SpiMem W) (setup : Setup W) (left_over k : ℕ) (src : ℕ → ℕ)
    (Upto : ℕ → Snor W → Type 0) (chip : IsProgrammed spi setup left_over k src Upto) where
  -- `rest` is what the source still has from `a` on.
  Written : ℕ → List ℕ → Snor W → Type 0
  Written a rest s = (m : ℕ) × (rest ≡ bytes_at src a m) × Upto a s

  GoesOn : ℕ → List ℕ → Snor W → Type 0
  GoesOn a rest s =
      (n : ℕ) × (0 < n)
      × (n ≤ length rest)
      × ((setup.write_page a rest s).0 ≡ done n)
      × Written (a + n) (drop n rest) (setup.write_page a rest s).1

  page_writes_on :
      (a m : ℕ) (s : Snor W) → 0 < m → a + m ≤ setup.size → Upto a s → GoesOn a (bytes_at src a m) s
  unfolding GoesOn Written PageEnds taken
  page_writes_on a m s pos below upto =
      let block : 1 ≤ 2 ^ k = one-le-pow k 2 (omega arith) in
      let low : a % 2 ^ k < 2 ^ k = mod-lt a block in
      let n : ℕ = taken spi setup left_over k src Upto chip a m in
      let some_n : 0 < n = ground (arith, pos, low) in
      let few : n ≤ m = ground arith in
      let (s', ran, u) = page_programs spi setup left_over k src Upto chip a m s below upto in
      let call = chip.writer a (bytes_at src a m) s ∙ ran in
      (
        n,
        some_n,
        omega (arith, few, length-bytes_at src a m),
        ap (λ p. p.0) call,
        (m - n, drop-bytes_at src a n m few, rw call u),
      )

  writes_on :
      (a : ℕ) (rest : List ℕ) (s : Snor W)
      → 0 < length rest
      → a + length rest ≤ setup.size
      → Written a rest s
      → GoesOn a rest s
  unfolding Written
  writes_on a rest s pos below (m, e, upto) =
      let size : length rest ≡ m = ap length e ∙ length-bytes_at src a m in
      rw e (page_writes_on a m s (omega (arith, pos, size)) (omega (arith, below, size)) upto)

  -- With `spi_nor_page_program` as its page writer, on a chip that can be programmed within a page,
  -- a write inside of the chip returns `UFP_OK` and has put each byte to its address: the operations
  -- follow each other without a gap, and none of them leaves a page.
  pub write-programs :
      (fuel addr len : ℕ) (s : Snor W)
      → len ≤ fuel
      → addr < setup.size
      → addr + len ≤ setup.size
      → Upto addr s
      → let call = write spi setup left_over fuel addr (bytes_at src addr len) s in
        (call.0 ≡ some (done tt)) × Upto (addr + len) call.1
  unfolding Written GoesOn
  write-programs fuel addr len s enough inside below upto =
      let size = length-bytes_at src addr len in
      let bytes : List ℕ = bytes_at src addr len in
      let whole : addr + len ≡ addr + length bytes = omega (arith, size) in
      let fits : addr + length bytes ≤ setup.size = omega (arith, size, below) in
      let (ran, (m, none_left, u)) =
        write_lem spi setup left_over chip.widths chip.fits_64 Written writes_on
          (λ a rest width s (m, e, u). (m, e, chip.still a width s u)) fuel addr bytes s
          (omega (arith, size, enough)) inside fits (len, refl, upto) in
      (ran, rw whole u)

-- ===== src/SpiNor/Data/Programs.antt =====
-- Writing data to a chip with `spi_nor_page_program` as the page writer.
pub mod Whole
use native.Mathlib.Decide.{ℕ_discrete, dec_lt}
use native.Mathlib.Nat.{one-le-pow, mod-lt, div-add-mod'}
use ufprog.Common.{
  ℕ, zero, suc, ◌+◌, ◌-◌, ◌*◌, ◌/◌, ◌%◌, ◌^◌, ◌≤◌, ◌<◌, ◌≡◌, ◌≢◌, refl, arith, ap, sym, ◌∙◌, u32,
  u64, bit_and, bit_and_mask, ◌==◌, ==_of_ne, ltb_of_ge, ltb, lt→ltb, ltb_of_ge, if◌then◌else◌,
  Bool, true, false, Option, none, some, List, [], ◌∷◌, length, take, drop, min,
}
use ufprog.Common.{Result, done, err, and_then, and_then-done, pure}
use ufprog.SpiNor.Api.{SpiMem, Snor, Setup}
use ufprog.SpiNor.Regs.{on_world, set_speed, set_low_speed, set_high_speed}
use ufprog.SpiNor.Control.{setup_addr, set_bus_width, data_write_enable, wait_busy}
use ufprog.SpiNor.Data.{
  page_op, room_in_page, program_round, program_loop, page_program, write, next_write, ended_or,
}
use ufprog.SpiNor.Data.Bytes.{bytes_at, length-bytes_at, take-bytes_at, drop-bytes_at}
use ufprog.SpiNor.Data.Reads.{setup_addr_plain}
use ufprog.SpiNor.Data.Writes.{write_lem, write_is_ok}

-- What an interface and a chip promise that is programmed with the bytes of `src`: `Upto a s` says
-- that in state `s` they are written up to address `a`. Setting up an operation keeps that, and
-- programming bytes from `a` on within a page extends it.
pub record IsProgrammed {W : Type 0} (spi : SpiMem W) (setup : Setup W) (left_over k : ℕ)
    (src : ℕ → ℕ) (Upto : ℕ → Snor W → Type 0) : Type 0 where
  pub fits_64 : setup.size < 2 ^ 64
  pub paged : setup.page_size ≡ 2 ^ k
  pub small : 2 ^ k < 2 ^ 32
  pub plain : setup.write_addr_high_byte ≡ none
  pub writer :
      (a : ℕ) (bytes : List ℕ) (s : Snor W)
      → (setup.write_page a bytes s ≡ page_program spi setup left_over a bytes s)
  pub enabled :
      (a : ℕ) (s : Snor W)
      → Upto a s
      → ((data_write_enable spi setup s).0 ≡ done tt) × Upto a (data_write_enable spi setup s).1
  pub adjusted :
      (a m : ℕ) (s : Snor W)
      → 0 < m
      → Upto a s
      → let op = page_op spi setup left_over a (bytes_at src a m) in
        (n : ℕ) × (0 < n)
        × (n ≤ m)
        × ((on_world (spi.adjust_op_size op) s).0 ≡ done n)
        × Upto a (on_world (spi.adjust_op_size op) s).1
  pub programmed :
      (page a n : ℕ) (s : Snor W)
      → page * 2 ^ k ≤ a
      → a + n ≤ page * 2 ^ k + 2 ^ k
      → a + n ≤ setup.size
      → Upto a s
      → let op = page_op spi setup left_over a (bytes_at src a n) in
        (b : List ℕ) × ((on_world (spi.exec_op op) s).0 ≡ done b)
        × Upto (a + n) (on_world (spi.exec_op op) s).1
  pub speeds :
      (speed a : ℕ) (s : Snor W)
      → Upto a s
      → ((set_speed spi setup speed s).0 ≡ done tt) × Upto a (set_speed spi setup speed s).1
  pub waits :
      (a : ℕ) (s : Snor W)
      → Upto a s
      → ((wait_busy spi setup left_over setup.max_pp_time_ms s).0 ≡ done tt)
        × Upto a (wait_busy spi setup left_over setup.max_pp_time_ms s).1
  pub widths : (width : ℕ) (s : Snor W) → (set_bus_width spi setup width s).0 ≡ done tt
  pub still : (a width : ℕ) (s : Snor W) → Upto a s → Upto a (set_bus_width spi setup width s).1

module _ {W : Type 0} (spi : SpiMem W) (setup : Setup W) (left_over k : ℕ) (src : ℕ → ℕ)
    (Upto : ℕ → Snor W → Type 0) (chip : IsProgrammed spi setup left_over k src Upto) where
  -- A round writes some of the bytes.
  Step : (a m : ℕ) → Snor W → Type 0
  Step a m s =
      (n : ℕ) × (0 < n)
      × (n ≤ m)
      × (s' : Snor W) × (program_round spi setup left_over a (bytes_at src a m) s ≡ (done n, s'))
      × Upto (a + n) s'

  round_programs :
      (page a m : ℕ) (s : Snor W)
      → 0 < m
      → page * 2 ^ k ≤ a
      → a + m ≤ page * 2 ^ k + 2 ^ k
      → a + m ≤ setup.size
      → Upto a s
      → Step a m s
  unfolding Step program_round set_low_speed set_high_speed
  round_programs page a m s pos low high below upto =
      let (en, u1) = chip.enabled a s upto in
      let s1 = (data_write_enable spi setup s).1 in
      let (n, some_n, few, took, u2) = chip.adjusted a m s1 pos u1 in
      let s2 =
        (on_world (spi.adjust_op_size (page_op spi setup left_over a (bytes_at src a m))) s1).1 in
      let (fast, u3) = chip.speeds setup.speed_high a s2 u2 in
      let s3 = (set_high_speed spi setup s2).1 in
      let (b, wrote, u4) =
        chip.programmed page a n s3 low (omega (arith, few, high)) (omega (arith, few, below)) u3 in
      let s4 = (on_world (spi.exec_op (page_op spi setup left_over a (bytes_at src a n))) s3).1 in
      let (slow, u5) = chip.speeds setup.speed_low (a + n) s4 u4 in
      let s5 = (set_low_speed spi setup s4).1 in
      let (waited, u6) = chip.waits (a + n) s5 u5 in
      (
        n,
        some_n,
        few,
        (wait_busy spi setup left_over setup.max_pp_time_ms s5).1,
        rw
            (
              setup_addr_plain spi setup a s chip.plain,
              en,
              took,
              fast,
              take-bytes_at src a n m few,
              wrote,
              slow,
              waited,
            )
            refl,
        u6,
      )

  -- The loop after a round.
  program_on :
      (fuel a m n : ℕ) (s s1 s2 : Snor W)
      → 0 < n
      → n ≤ m
      → a + m ≤ setup.size
      → (program_round spi setup left_over a (bytes_at src a m) s ≡ (done n, s1))
      → (program_loop spi setup left_over fuel (a + n) (bytes_at src (a + n) (m - n)) s1
          ≡ (some (done tt), s2))
      → (program_loop spi setup left_over (suc fuel) a (bytes_at src a m) s ≡ (some (done tt), s2))
  unfolding program_loop
  program_on fuel a m n s s1 s2 pos few below round rest =
      let fits = chip.fits_64 in
      let on : u64 (a + n) ≡ a + n = omega (arith, fits, few, below) in
      let len = length-bytes_at src a m in
      rw
        (
          ==_of_ne (length (bytes_at src a m)) 0 (λ z. omega (arith, z, len, pos, few)),
          round,
          on,
          ltb_of_ge (length (bytes_at src a m)) n (omega (arith, len, few)),
          drop-bytes_at src a n m few,
        )
        rest

  LoopEnds : (fuel a m : ℕ) → Snor W → Type 0
  LoopEnds fuel a m s =
      (s' : Snor W) × (program_loop spi setup left_over fuel a (bytes_at src a m) s
        ≡ (some (done tt), s'))
      × Upto (a + m) s'

  loop_programs :
      (fuel page a m : ℕ) (s : Snor W)
      → m ≤ fuel
      → page * 2 ^ k ≤ a
      → a + m ≤ page * 2 ^ k + 2 ^ k
      → a + m ≤ setup.size
      → Upto a s
      → LoopEnds fuel a m s
  unfolding LoopEnds program_loop Step
  loop_programs zero page a m s enough low high below upto =
      let e : m ≡ 0 = omega (arith, enough) in
      let e' : a + 0 ≡ a = omega arith in (s, rw e refl, rw (e, e') upto)
  loop_programs (suc fuel) page a m s enough low high below upto = elim (ℕ_discrete m 0) [
    | yes over ↦ let e' : a + 0 ≡ a = omega arith in (s, rw over refl, rw (over, e') upto)
    | no more ↦
        let (n, some_n, few, s1, round, u1) =
          round_programs page a m s (omega (arith, more)) low high below upto in
        let (s2, rest, u2) =
          loop_programs fuel page (a + n) (m - n) s1 (omega (arith, few, enough, some_n))
            (omega (arith, low)) (omega (arith, few, high)) (omega (arith, few, below)) u1 in
        let whole : a + m ≡ a + n + (m - n) = omega (arith, few) in
        (s2, program_on fuel a m n s s1 s2 some_n few below round rest, rw whole u2)
  ]

  room_in_page_lem : (a : ℕ) → room_in_page spi setup left_over a ≡ 2 ^ k - a % 2 ^ k
  unfolding room_in_page
  room_in_page_lem a =
      let pos : 1 ≤ 2 ^ k = one-le-pow k 2 (omega arith) in
      let low : a % 2 ^ k < 2 ^ k = mod-lt a pos in
      let paged = chip.paged in
      let small = chip.small in
      let mask : u32 (setup.page_size + (2 ^ 32 - 1)) ≡ 2 ^ k - 1 =
        omega (arith, paged, small, pos) in
      rw (mask, bit_and_mask k a, paged) (omega (arith, small, pos, low))

  -- What `page_program` takes of `m` bytes.
  pub taken : (a m : ℕ) → ℕ
  taken a m = min m (2 ^ k - a % 2 ^ k)

  pub PageEnds : (a m : ℕ) → Snor W → Type 0
  PageEnds a m s =
      (s' : Snor W) × (page_program spi setup left_over a (bytes_at src a m) s
        ≡ (done (taken a m), s'))
      × Upto (a + taken a m) s'

  taken_lem : (a m : ℕ) → (if ltb m (2 ^ k - a % 2 ^ k) then m else 2 ^ k - a % 2 ^ k) ≡ taken a m
  unfolding taken
  taken_lem a m = ground arith

  pub page_programs : (a m : ℕ) (s : Snor W) → a + m ≤ setup.size → Upto a s → PageEnds a m s
  unfolding PageEnds page_program LoopEnds taken
  page_programs a m s below upto =
      let pos : 1 ≤ 2 ^ k = one-le-pow k 2 (omega arith) in
      let low : a % 2 ^ k < 2 ^ k = mod-lt a pos in
      let split = div-add-mod' a (2 ^ k) in
      let n : ℕ = taken a m in
      let few : n ≤ m = ground arith in
      let in_page : n ≤ 2 ^ k - a % 2 ^ k = ground arith in
      let (s', looped, u) =
        loop_programs n (a / 2 ^ k) a n s (omega arith) (omega (arith, split))
          (omega (arith, split, in_page, low)) (omega (arith, few, below)) upto in
      (
        s',
        rw
            (
              length-bytes_at src a m,
              room_in_page_lem a,
              taken_lem a m,
              take-bytes_at src a n m few,
              looped,
            )
            refl,
        u,
      )

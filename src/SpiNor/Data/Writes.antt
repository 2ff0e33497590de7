-- ===== src/SpiNor/Data/Writes.antt =====
-- Writing data to a chip, page by page.
use native.Mathlib.Decide.{ℕ_discrete}
use ufprog.Common.{
  ℕ, zero, suc, ◌+◌, ◌^◌, ◌≤◌, ◌<◌, ◌≡◌, ◌≢◌, refl, arith, ap, u64, ◌==◌, ==_of_ne, ltb_of_ge,
  leb_of_gt, ltb, if◌then◌else◌, true, Option, none, some, List, [], ◌∷◌, length, drop, length-drop,
}
use ufprog.Common.{Result, done, err}
use ufprog.SpiNor.Api.{SpiMem, Snor, Setup}
use ufprog.SpiNor.Control.{set_bus_width}
use ufprog.SpiNor.Data.{next_write, write_loop, write}

-- A page writer's answer to a call with the bytes `rest`: it fails, or takes some of them.
abbrev pub IsAnswer : List ℕ → Result ℕ → Type 0
IsAnswer rest (err e) = Unit {0}
IsAnswer rest (done n) = (0 < n) × (n ≤ length rest)

module _ {W : Type 0} (spi : SpiMem W) (setup : Setup W) (left_over : ℕ)
    (widths : (width : ℕ) (s : Snor W) → (set_bus_width spi setup width s).0 ≡ done tt)
    (fits_64 : setup.size < 2 ^ 64) where
  HasEnded : Option (Result (Unit {0})) × Snor W → Type 0
  HasEnded p = (r : Result (Unit {0})) × (p.0 ≡ some r)

  -- The loop after an answer.
  answered :
      (fuel a : ℕ) (rest : List ℕ) (p : Result ℕ) (s : Snor W)
      → IsAnswer rest p
      → ((n : ℕ) (s : Snor W)
          → 0 < n
          → n ≤ length rest
          → HasEnded (write_loop spi setup left_over fuel (u64 (a + n)) (drop n rest) s))
      → HasEnded (
          next_write p s (λ n s.
            let later = write_loop spi setup left_over fuel (u64 (a + n)) (drop n rest) s in
            if ltb (length rest) n then (none, s) else later))
  unfolding HasEnded
  answered fuel a rest (err e) s answer ends = (err e, refl)
  answered fuel a rest (done n) s (some_n, few) ends =
      let (r, ran) = ends n s some_n few in (r, rw (ltb_of_ge (length rest) n few) ran)

  loop_ended :
      (fuel a : ℕ) (rest : List ℕ) (s : Snor W)
      → ((a : ℕ) (rest : List ℕ) (s : Snor W)
          → 0 < length rest
          → IsAnswer rest (setup.write_page a rest s).0)
      → length rest ≤ fuel
      → HasEnded (write_loop spi setup left_over fuel a rest s)
  unfolding write_loop HasEnded
  loop_ended zero a rest s answers enough =
      let none_left : length rest ≡ 0 = omega (arith, enough) in (done tt, rw none_left refl)
  loop_ended (suc fuel) a rest s answers enough = elim (ℕ_discrete (length rest) 0) [
    | yes over ↦ (done tt, rw over refl)
    | no more ↦
        let b = ==_of_ne (length rest) 0 more in
        let (r, ran) =
          answered fuel a rest (setup.write_page a rest s).0 (setup.write_page a rest s).1
            (answers a rest s (omega (arith, more)))
            (λ n s1 some_n few.
              let left = length-drop n rest in
              loop_ended fuel (u64 (a + n)) (drop n rest) s1 answers
                (omega (arith, left, some_n, few, enough))) in
        (r, rw b ran)
  ]

  -- When the bus width can be set, and each call of the page writer either fails or takes at least one
  -- and no more than all of the bytes that are left, a write inside of the chip ends within as many
  -- rounds as there are bytes and returns `UFP_OK`, also if a call failed.
  pub write_is_ok :
      (fuel addr : ℕ) (bytes : List ℕ) (s : Snor W)
      → ((a : ℕ) (rest : List ℕ) (s : Snor W)
          → 0 < length rest
          → IsAnswer rest (setup.write_page a rest s).0)
      → length bytes ≤ fuel
      → addr < setup.size
      → addr + length bytes ≤ setup.size
      → (write spi setup left_over fuel addr bytes s).0 ≡ some (done tt)
  unfolding write HasEnded
  write_is_ok fuel addr bytes s answers enough inside below =
      let sum : u64 (addr + length bytes) ≡ addr + length bytes = omega (arith, fits_64, below) in
      let s1 = (set_bus_width spi setup setup.pp_io_info.cmd_bw s).1 in
      let (r, ran) = loop_ended fuel addr bytes s1 answers enough in
      rw
        (
          ==_of_ne setup.size 0 (λ z. omega (arith, z, inside)),
          sum,
          leb_of_gt setup.size addr inside,
          ltb_of_ge setup.size (addr + length bytes) below,
          widths setup.pp_io_info.cmd_bw s,
          ran,
        )
        (ap some (widths setup.cmd_buswidth _))

  -- `Written a rest s`: all but `rest` is written in state `s`, and that goes to address `a`.
  module _ (Written : ℕ → List ℕ → Snor W → Type 0)
      (page : (a : ℕ) (rest : List ℕ) (s : Snor W)
        → 0 < length rest
        → a + length rest ≤ setup.size
        → Written a rest s
        → (n : ℕ) × (0 < n)
          × (n ≤ length rest)
          × ((setup.write_page a rest s).0 ≡ done n)
          × Written (a + n) (drop n rest) (setup.write_page a rest s).1)
      (still : (a : ℕ) (rest : List ℕ) (width : ℕ) (s : Snor W)
        → Written a rest s
        → Written a rest (set_bus_width spi setup width s).1) where
    -- The end of the loop: nothing is left.
    abbrev pub HasWritten : ℕ → Option (Result (Unit {0})) × Snor W → Type 0
    HasWritten end p = (p.0 ≡ some (done tt)) × Written end [] p.1

    nothing_left :
        (a : ℕ) (rest : List ℕ) (s : Snor W)
        → length rest ≡ 0
        → Written a rest s
        → Written (a + length rest) [] s
    nothing_left a [] s none_left so_far = let e : a + 0 ≡ a = omega arith in rw e so_far
    nothing_left a (b ∷ rest) s none_left so_far = absurd (omega (arith, none_left))

    write_on :
        (fuel a n : ℕ) (rest : List ℕ) (s : Snor W)
        → length rest ≢ 0
        → n ≤ length rest
        → a + length rest ≤ setup.size
        → (setup.write_page a rest s).0 ≡ done n
        → HasWritten (a + n + length (drop n rest)) (
            write_loop spi setup left_over fuel (a + n) (drop n rest) (setup.write_page a rest s).1)
        → HasWritten (a + length rest) (write_loop spi setup left_over (suc fuel) a rest s)
    unfolding write_loop
    write_on fuel a n rest s more few below took later =
        let left = length-drop n rest in
        let on : u64 (a + n) ≡ a + n = omega (arith, fits_64, few, below) in
        let whole : a + length rest ≡ a + n + length (drop n rest) = omega (arith, left, few) in
        let s1 : Snor W = (setup.write_page a rest s).1 in
        let step : write_loop spi setup left_over (suc fuel) a rest s
            ≡ write_loop spi setup left_over fuel (a + n) (drop n rest) s1 =
          rw (==_of_ne (length rest) 0 more, took, ltb_of_ge (length rest) n few)
            (ap (λ (x : ℕ). write_loop spi setup left_over fuel x (drop n rest) s1) on) in
        rw (whole, step) later

    loop_writes :
        (fuel a : ℕ) (rest : List ℕ) (s : Snor W)
        → length rest ≤ fuel
        → a + length rest ≤ setup.size
        → Written a rest s
        → HasWritten (a + length rest) (write_loop spi setup left_over fuel a rest s)
    unfolding write_loop
    loop_writes zero a rest s enough below so_far =
        let over : length rest ≡ 0 = omega (arith, enough) in
        let over' : (length rest == 0) ≡ true = rw over refl in
        (rw over' refl, nothing_left a rest s over so_far)
    loop_writes (suc fuel) a rest s enough below so_far = elim (ℕ_discrete (length rest) 0) [
      | yes over ↦
          let over' : (length rest == 0) ≡ true = rw over refl in
          (rw over' refl, rw over' (nothing_left a rest s over so_far))
      | no more ↦
          let (n, some_n, few, took, so_far1) = page a rest s (omega (arith, more)) below so_far in
          let left = length-drop n rest in
          write_on fuel a n rest s more few below took (
            loop_writes fuel (a + n) (drop n rest) (setup.write_page a rest s).1
              (omega (arith, left, some_n, few, enough)) (omega (arith, left, few, below)) so_far1)
    ]

    -- A write inside of the chip returns `UFP_OK` and has written all of the bytes, page by page and in
    -- order, within as many rounds as there are bytes, if each call of
    -- the page writer takes at least one of the bytes that are left and advances what is written by as
    -- many as it says.
    pub write_lem :
        (fuel addr : ℕ) (bytes : List ℕ) (s : Snor W)
        → length bytes ≤ fuel
        → addr < setup.size
        → addr + length bytes ≤ setup.size
        → Written addr bytes s
        → HasWritten (addr + length bytes) (write spi setup left_over fuel addr bytes s)
    unfolding write
    write_lem fuel addr bytes s enough inside below so_far =
        let sum : u64 (addr + length bytes) ≡ addr + length bytes = omega (arith, fits_64, below) in
        let s1 = (set_bus_width spi setup setup.pp_io_info.cmd_bw s).1 in
        let (ran, looped) =
          loop_writes fuel addr bytes s1 enough below
            (still addr bytes setup.pp_io_info.cmd_bw s so_far) in
        rw
          (
            ==_of_ne setup.size 0 (λ z. omega (arith, z, inside)),
            sum,
            leb_of_gt setup.size addr inside,
            ltb_of_ge setup.size (addr + length bytes) below,
            widths setup.pp_io_info.cmd_bw s,
            ran,
          )
          (
            ap some (widths setup.cmd_buswidth _),
            still (addr + length bytes) [] setup.cmd_buswidth _ looped,
          )

-- ===== src/SpiNor/Data/Reads.antt =====
-- Reading data from a chip, however the interface splits the operations.
use native.Mathlib.Decide.{ℕ_discrete}
use native.Mathlib.Nat.{mod-lt}
use ufprog.Common.{
  ℕ, zero, suc, ◌+◌, ◌-◌, ◌^◌, ◌≤◌, ◌<◌, ◌≡◌, ◌⊎◌, inl, inr, ◌%◌, refl, arith, ap, u64, ==_of_ne,
  ltb_of_ge, leb_of_gt, Option, none, some, List,
}
use ufprog.Common.{Call, done}
use ufprog.SpiNor.Api.{SpiMem, Snor, Setup}
use ufprog.SpiNor.Regs.{on_world, set_speed, set_low_speed, set_high_speed, bus_lock}
use ufprog.SpiNor.Control.{setup_addr, set_bus_width}
use ufprog.SpiNor.Data.Bytes.{bytes_at, bytes_at_split}
use ufprog.SpiNor.Data.{
  pre_read, data_read_op, die_clip, read_round, read_loop, read_no_check, read,
}

pub setup_addr_plain :
    {W : Type 0} (spi : SpiMem W) (setup : Setup W) (addr : ℕ) (s : Snor W)
    → setup.write_addr_high_byte ≡ none
    → (setup_addr spi setup addr s ≡ (done addr, s))
unfolding setup_addr
setup_addr_plain spi setup addr s h = rw h refl

no_hook :
    {W : Type 0} (o : Option (ℕ → ℕ → Call (Snor W) (Unit {0}))) (addr len : ℕ) (s : Snor W)
    → o ≡ none
    → (pre_read o addr len s ≡ (done tt, s))
no_hook o addr len s h = rw h refl

-- Dies of `granularity` bytes, or a single one for 0: the bytes are all of the die of the first.
abbrev pub IsInDie : (granularity addr len : ℕ) → Type 0
IsInDie granularity addr len = (granularity ≡ 0) ⊎ (addr % granularity + len ≤ granularity)

-- What an interface and a chip promise that holds `mem` and `Ready` states: the interface takes at
-- least one byte of an operation, and an operation that stays within a die gives the bytes of the
-- address. Of others nothing is said.
pub record IsReader {W : Type 0} (spi : SpiMem W) (setup : Setup W) (left_over : ℕ) (mem : ℕ → ℕ)
    (Ready : Snor W → Type 0) : Type 0 where
  pub fits_64 : setup.size < 2 ^ 64
  pub plain : setup.write_addr_high_byte ≡ none
  pub hookless : setup.pre_read_hook ≡ none
  pub adjusted :
      (addr len : ℕ) (s : Snor W)
      → 0 < len
      → Ready s
      → let op = data_read_op spi setup left_over addr len in
        (n : ℕ) × (0 < n)
        × (n ≤ len)
        × ((on_world (spi.adjust_op_size op) s).0 ≡ done n)
        × Ready (on_world (spi.adjust_op_size op) s).1
  pub given :
      (addr len : ℕ) (s : Snor W)
      → addr + len ≤ setup.size
      → IsInDie setup.die_read_granularity addr len
      → Ready s
      → let op = data_read_op spi setup left_over addr len in
        ((on_world (spi.exec_op op) s).0 ≡ done (bytes_at mem addr len))
        × Ready (on_world (spi.exec_op op) s).1
  pub speeds :
      (speed : ℕ) (s : Snor W)
      → Ready s
      → ((set_speed spi setup speed s).0 ≡ done tt) × Ready (set_speed spi setup speed s).1
  pub widths :
      (width : ℕ) (s : Snor W)
      → Ready s
      → ((set_bus_width spi setup width s).0 ≡ done tt) × Ready (set_bus_width spi setup width s).1
  pub locks : (s : Snor W) → Ready s → Ready (bus_lock spi setup s)

module _ {W : Type 0} (spi : SpiMem W) (setup : Setup W) (left_over : ℕ) (mem : ℕ → ℕ)
    (Ready : Snor W → Type 0) (reader : IsReader spi setup left_over mem Ready) where
  clipped :
      (addr len : ℕ)
      → 0 < len
      → (0 < die_clip spi setup left_over addr len)
        × (die_clip spi setup left_over addr len ≤ len)
        × IsInDie setup.die_read_granularity addr (die_clip spi setup left_over addr len)
  unfolding die_clip
  clipped addr len pos =
      let size : ℕ = setup.die_read_granularity in
      elim (ℕ_discrete size 0) [
        | yes single ↦ rw single (pos, omega arith, inl refl)
        | no dies ↦
            let low : addr % size < size = mod-lt addr (omega (arith, dies)) in
            rw (==_of_ne size 0 dies)
              (ground (arith, pos, low), ground arith, inr (ground (arith, low)))
      ]

  shorter :
      (granularity addr len n : ℕ)
      → n ≤ len
      → IsInDie granularity addr len
      → IsInDie granularity addr n
  shorter granularity addr len n few (inl single) = inl single
  shorter granularity addr len n few (inr inside) = inr (omega (arith, few, inside))

  Given : (addr len : ℕ) → Snor W → Type 0
  Given addr len s =
      (n : ℕ) × (0 < n)
      × (n ≤ len)
      × (s' : Snor W) × (read_round spi setup left_over addr len s
          ≡ (done (n, bytes_at mem addr n), s'))
      × Ready s'

  round_reads :
      (addr len : ℕ) (s : Snor W) → 0 < len → addr + len ≤ setup.size → Ready s → Given addr len s
  unfolding Given read_round
  round_reads addr len s pos below ready =
      let c = clipped addr len pos in
      let (n, some_n, few, took, ready1) =
        reader.adjusted addr (die_clip spi setup left_over addr len) s c.0 ready in
      let s1 =
        (on_world
          (spi.adjust_op_size
            (data_read_op spi setup left_over addr (die_clip spi setup left_over addr len)))
          s).1 in
      let inside =
        shorter setup.die_read_granularity addr (die_clip spi setup left_over addr len) n few c.2 in
      let (gave, ready2) = reader.given addr n s1 (omega (arith, below, few, c.1)) inside ready1 in
      (
        n,
        some_n,
        omega (arith, few, c.1),
        (on_world (spi.exec_op (data_read_op spi setup left_over addr n)) s1).1,
        rw (setup_addr_plain spi setup addr s reader.plain, took, gave) refl,
        ready2,
      )

  -- The loop after a round.
  read_on :
      (fuel addr len n : ℕ) (s s1 s2 : Snor W)
      → 0 < n
      → n ≤ len
      → addr + len ≤ setup.size
      → (read_round spi setup left_over addr len s ≡ (done (n, bytes_at mem addr n), s1))
      → (read_loop spi setup left_over fuel (addr + n) (len - n) s1
          ≡ (some (done (bytes_at mem (addr + n) (len - n))), s2))
      → (read_loop spi setup left_over (suc fuel) addr len s
          ≡ (some (done (bytes_at mem addr len)), s2))
  unfolding read_loop
  read_on fuel addr len n s s1 s2 pos few below round rest =
      let fits = reader.fits_64 in
      let on : u64 (addr + n) ≡ addr + n = omega (arith, fits, few, below) in
      let left : u64 (len + (2 ^ 64 - n)) ≡ len - n = omega (arith, fits, few, below, pos) in
      rw (==_of_ne len 0 (λ z. omega (arith, z, pos, few)), round, on, left, rest)
        (ap (λ (b : List ℕ). (some (done b), s2)) (bytes_at_split mem addr n len few))

  LoopGiven : (fuel addr len : ℕ) → Snor W → Type 0
  LoopGiven fuel addr len s =
      (s' : Snor W) × (read_loop spi setup left_over fuel addr len s
        ≡ (some (done (bytes_at mem addr len)), s'))
      × Ready s'

  loop_reads :
      (fuel addr len : ℕ) (s : Snor W)
      → len ≤ fuel
      → addr + len ≤ setup.size
      → Ready s
      → LoopGiven fuel addr len s
  unfolding LoopGiven read_loop Given
  loop_reads zero addr len s enough below ready =
      let e : len ≡ 0 = omega (arith, enough) in (s, rw e refl, ready)
  loop_reads (suc fuel) addr len s enough below ready = elim (ℕ_discrete len 0) [
    | yes over ↦ (s, rw over refl, ready)
    | no more ↦
        let (n, some_n, few, s1, round, ready1) =
          round_reads addr len s (omega (arith, more)) below ready in
        let (s2, rest, ready2) =
          loop_reads fuel (addr + n) (len - n) s1 (omega (arith, few, enough, some_n))
            (omega (arith, few, below)) ready1 in
        (s2, read_on fuel addr len n s s1 s2 some_n few below round rest, ready2)
  ]

  -- A read inside of the chip gives the bytes at the addresses that it asks for, in order, whatever
  -- number of bytes the interface takes at once, also over the ends of dies, although an operation
  -- of the chip is right only within one.
  pub read_lem :
      (addr len : ℕ) (s : Snor W)
      → addr < setup.size
      → addr + len ≤ setup.size
      → Ready s
      → (read spi setup left_over addr len s).0 ≡ done (bytes_at mem addr len)
  unfolding read read_no_check LoopGiven set_high_speed set_low_speed
  read_lem addr len s inside below ready =
      let fits = reader.fits_64 in
      let sum : u64 (addr + len) ≡ addr + len = omega (arith, fits, below) in
      let locked = bus_lock spi setup s in
      let (wide, ready1) = reader.widths setup.read_io_info.cmd_bw locked (reader.locks s ready) in
      let s1 = (set_bus_width spi setup setup.read_io_info.cmd_bw locked).1 in
      let (fast, ready2) = reader.speeds setup.speed_high s1 ready1 in
      let s2 = (set_high_speed spi setup s1).1 in
      let (s3, looped, ready3) = loop_reads len addr len s2 (omega arith) below ready2 in
      let (slow, ready4) = reader.speeds setup.speed_low s3 ready3 in
      let (narrow, _) = reader.widths setup.cmd_buswidth (set_low_speed spi setup s3).1 ready4 in
      rw
        (
          ==_of_ne setup.size 0 (λ z. omega (arith, z, inside)),
          sum,
          leb_of_gt setup.size addr inside,
          ltb_of_ge setup.size (addr + len) below,
          wide,
          no_hook setup.pre_read_hook addr len s1 reader.hookless,
          fast,
          looped,
          slow,
          narrow,
        )
        refl

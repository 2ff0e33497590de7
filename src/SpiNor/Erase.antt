-- ===== src/SpiNor/Erase.antt =====
-- flash/spi-nor/spi-nor.c: erase regions, the range that an erase covers, and erasing it block by
-- block.
pub mod Sizes
pub mod Ends
pub mod Plan
pub mod Range
pub mod Sweep
pub mod Whole
pub mod Tests
use ufprog.Common.{
  ℕ, zero, suc, ◌+◌, ◌-◌, ◌*◌, ◌/◌, ◌%◌, ◌^◌, u32, u64, bit_and, ◌==◌, ltb, leb, ◌&&◌, ◌||◌,
  if◌then◌else◌, not,
}
use ufprog.Common.{Bool, true, false, Option, none, some, List, [], ◌∷◌, Call, Result, done, err}
use ufprog.Common.{
  Status, fail, invalid_parameter, unsupported, flash_not_probed, address_out_of_range, pure,
  and_then, ◌>>=◌, ◌>>◌, ending, map_done,
}
use ufprog.Bitops.{is_power_of_2}
use ufprog.SpiNor.Api.{SpiMem, SpiOp, no_data, Snor, Setup, EraseSectorInfo, EraseRegion}
use ufprog.SpiNor.Regs.{has, on_world, set_low_speed, bus_lock, bus_unlock}
use ufprog.SpiNor.Control.{setup_addr, data_write_enable, wait_busy}

-- The loop of `spi_nor_get_erase_region_at`: the region with an address and the offset of its start.
region_from : List EraseRegion → (addr offset : ℕ) → Option (EraseRegion × ℕ)
region_from [] addr offset = none
region_from (erg ∷ ergs) addr offset =
    let later = region_from ergs addr (u64 (offset + erg.size)) in
    if leb offset addr && ltb addr (u64 (offset + erg.size)) then some (erg, offset) else later

pub get_erase_region_at : List EraseRegion → (addr : ℕ) → Option (EraseRegion × ℕ)
unfolding region_from
get_erase_region_at [] addr = none
get_erase_region_at (erg ∷ []) addr = some (erg, 0)
get_erase_region_at (erg ∷ next ∷ ergs) addr = region_from (erg ∷ next ∷ ergs) addr 0

-- `addr & ~(min_erasesize - 1)` where that is a power of two, or the multiple of it from the region's
-- start.
pub round_down : (erg : EraseRegion) (region_base addr : ℕ) → ℕ
round_down erg region_base addr =
    if is_power_of_2 erg.min_erasesize
    then addr - bit_and addr (erg.min_erasesize - 1)
    else u64 (region_base + (addr - region_base) / erg.min_erasesize * erg.min_erasesize)

-- The end: rounded up if the size is a power of two, and down if not.
pub round_end : (erg : EraseRegion) (region_base addr : ℕ) → ℕ
unfolding round_down
round_end erg region_base addr =
    if is_power_of_2 erg.min_erasesize
    then round_down erg region_base (u64 (addr + erg.min_erasesize - 1))
    else round_down erg region_base addr

range_in : (addr len : ℕ) → Option (EraseRegion × ℕ) → Option (EraseRegion × ℕ) → Result (ℕ × ℕ)
unfolding round_end
range_in addr len none last = err unsupported
range_in addr len (some (erg, base)) none = err unsupported
range_in addr len (some (erg, base)) (some (erg', base')) =
    done (round_down erg base addr, round_end erg' base' (u64 (addr + len)))

pub get_erase_range : (chip_size : ℕ) → List EraseRegion → (addr len : ℕ) → Result (ℕ × ℕ)
unfolding get_erase_region_at range_in
get_erase_range chip_size [] addr len = if len == 0 then err invalid_parameter else err unsupported
get_erase_range chip_size (erg ∷ ergs) addr len =
    if (len == 0) || leb chip_size addr
    then err invalid_parameter
    else range_in addr len (get_erase_region_at (erg ∷ ergs) addr)
        (get_erase_region_at (erg ∷ ergs) (u64 (addr + len + (2 ^ 64 - 1))))

-- One round of the loop of `spi_nor_erase_at`: whether an entry fits from `start` on within `room`
-- bytes. Its size counts as at most that of the region.
abbrev erasesize_of : EraseRegion → EraseSectorInfo → ℕ
erasesize_of erg ei = if ltb erg.size ei.size then u32 erg.size else ei.size

pub fits : (erg : EraseRegion) (region_base start room : ℕ) → EraseSectorInfo → Bool
fits erg region_base start room ei =
    let erasesize = erasesize_of erg ei in
    (if is_power_of_2 erasesize
      then bit_and start (erasesize - 1) == 0
      else (start - region_base) % erasesize == 0)
    && leb erasesize room

pub better : EraseRegion → EraseSectorInfo → Option EraseSectorInfo → Bool
better erg ei none = true
better erg ei (some best) = ltb best.size (erasesize_of erg ei)

pub choose :
    (erg : EraseRegion) (region_base start room : ℕ)
    → List EraseSectorInfo
    → (i : ℕ) → Option EraseSectorInfo
    → Option EraseSectorInfo
unfolding fits better
choose erg region_base start room [] i best = best
choose erg region_base start room (ei ∷ eis) i best =
    choose erg region_base start room eis (i + 1) (
      if has erg.erasesizes_mask (2 ^ i) && fits erg region_base start room ei && better erg ei best
      then some ei
      else best)

module _ {W : Type 0} (spi : SpiMem W) (setup : Setup W) (left_over : ℕ) where
  pub erase_block : (addr : ℕ) → EraseSectorInfo → Call (Snor W) (Unit {0})
  erase_block addr ei s =
      let op : SpiOp = record {
        opcode = ei.opcode;
        cmd_bw = s.cmd_buswidth_curr;
        naddr = setup.naddr;
        addr = addr;
        addr_bw = s.cmd_buswidth_curr;
        ndummy = 0;
        dummy_bw = 0;
        payload = no_data;
        data_bw = 0;
      } in
      and_then (set_low_speed spi setup s) (λ _. setup_addr spi setup addr >>= λ low.
      data_write_enable spi setup >>= λ _.
      on_world (spi.exec_op (record op { addr = low })) >>= λ _.
      wait_busy spi setup left_over ei.max_erase_time_ms)

  -- The number of bytes that a call of `spi_nor_erase_at` says it erased.
  pub erase_chosen : (start room : ℕ) → Option EraseSectorInfo → Call (Snor W) ℕ
  unfolding erase_block
  erase_chosen start room none s = (done 0, s)
  erase_chosen start room (some ei) s =
      and_then (erase_block start ei s) (λ _. pure (if ltb room ei.size then u32 room else ei.size))

  pub erase_in : (addr maxlen : ℕ) → Option (EraseRegion × ℕ) → Call (Snor W) ℕ
  unfolding erase_chosen round_down choose
  erase_in addr maxlen none s = (err unsupported, s)
  erase_in addr maxlen (some (erg, base)) s =
      let start = round_down erg base addr in
      let end = round_down erg base (u64 (addr + maxlen)) in
      let last = if ltb (u64 (base + erg.size)) end then u64 (base + erg.size) else end in
      let room = u64 (last + (2 ^ 64 - start)) in
      erase_chosen start room (choose erg base start room setup.erase_info 0 none) s

  -- `spi_nor_erase_at` and `ufprog_spi_nor_erase_at`
  pub erase_at : (addr maxlen : ℕ) → Call (Snor W) ℕ
  unfolding erase_in get_erase_region_at
  erase_at addr maxlen s = erase_in addr maxlen (get_erase_region_at setup.erase_regions addr) s

  pub locked_erase_at : (addr maxlen : ℕ) → Call (Snor W) ℕ
  unfolding erase_at
  locked_erase_at addr maxlen s =
      if maxlen == 0
      then (err invalid_parameter, s)
      else ending (erase_at addr maxlen) (bus_unlock spi setup) (bus_lock spi setup s)

  -- How the loop of `ufprog_spi_nor_erase` leaves: `ended` is false if it ran out of fuel.
  pub record LoopEnd : Type 0 where
    pub ended : Bool
    pub ret : Result (Unit {0})
    pub start : ℕ
    pub state : Snor W

  abbrev stopped : Result (Unit {0}) → ℕ → Snor W → LoopEnd
  stopped ret start s = record { ended = true; ret = ret; start = start; state = s }

  -- `if (ret || !size) break; start += size;`
  abbrev pub next_round : Result ℕ → (start : ℕ) → Snor W → (ℕ → LoopEnd) → LoopEnd
  next_round (err e) start s go_on = stopped (err e) start s
  next_round (done size) start s go_on =
      if size == 0 then stopped (done tt) start s else go_on (start + size)

  pub erase_loop : (fuel start end : ℕ) → Snor W → LoopEnd
  unfolding erase_at
  erase_loop zero start end s = record {
    ended = leb end start;
    ret = done tt;
    start = start;
    state = s;
  }
  erase_loop (suc fuel) start end s =
      if leb end start
      then stopped (done tt) start s
      else (let (r, s') = erase_at start (end - start) s in
          next_round r start s' (λ start'. erase_loop fuel start' end s'))

  -- What is checked after the loop.
  erase_result : (end : ℕ) → LoopEnd → Result (Unit {0}) × Snor W
  erase_result end l =
      if l.start == end
      then (l.ret, bus_unlock spi setup l.state)
      else (err fail, bus_unlock spi setup l.state)

  pub erase : (addr len : ℕ) → Call (Snor W) (Unit {0})
  unfolding get_erase_range erase_loop erase_result
  erase addr len s =
      if setup.size == 0
      then (err flash_not_probed, s)
      else if leb setup.size addr || ltb setup.size (u64 (addr + len))
      then (err address_out_of_range, s)
      else and_then (get_erase_range setup.size setup.erase_regions addr len, s)
          (λ (start, end) s.
            erase_result end (erase_loop (end - start) start end (bus_lock spi setup s)))

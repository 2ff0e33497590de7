-- ===== src/SpiNor/Data.antt =====
-- flash/spi-nor/spi-nor.c: reading and writing data. A buffer is the list of its bytes; `none` from
-- a loop stands for one that goes on.
pub mod Bytes
pub mod Reads
pub mod Writes
pub mod Programs
pub mod Aai
pub mod Tests
use ufprog.Common.{
  ℕ, zero, suc, ◌+◌, ◌-◌, ◌*◌, ◌/◌, ◌%◌, ◌^◌, u32, u64, bit_and, ◌==◌, ltb, leb, ◌||◌,
  if◌then◌else◌, not,
}
use ufprog.Common.{Bool, true, false, Option, none, some, List, [], ◌∷◌, ◌++◌, length, take, drop}
use ufprog.Common.{Call, Result, done, err, Status, fail, flash_not_probed, address_out_of_range}
use ufprog.Common.{pure, and_then, ◌>>=◌, ◌>>◌, ending, returning, map_done}
use ufprog.SpiNor.Api.{SpiMem, SpiOp, Payload, no_data, data_in, data_out, Snor, Setup}
use ufprog.SpiNor.Regs.{on_world, set_low_speed, set_high_speed, bus_lock, bus_unlock}
use ufprog.SpiNor.Control.{setup_addr, set_bus_width, data_write_enable, wait_busy}

-- What a call returns after its loop. A loop that goes on is given as a failure.
abbrev pub ended_or : {A : Type 0} → Option (Result A) → Result A
ended_or (some r) = r
ended_or none = err fail

abbrev pub joined : List ℕ → Option (Result (List ℕ)) → Option (Result (List ℕ))
joined bytes none = none
joined bytes (some r) = some (map_done (λ rest. bytes ++ rest) r)

abbrev pub Running : Type 0 → Type 0 → Type 0
Running W A = Snor W → Option (Result A) × Snor W

module _ {W : Type 0} where
  -- A failed round leaves the loop, and one of `n` bytes lets it go on.
  abbrev pub next_read :
      Result (ℕ × List ℕ) → Snor W → (ℕ → Running W (List ℕ)) → Option (Result (List ℕ)) × Snor W
  next_read (err e) s go_on = (some (err e), s)
  next_read (done (n, bytes)) s go_on = let (more, s') = go_on n s in (joined bytes more, s')

  abbrev pub next_write :
      {A : Type 0}
      → Result A
      → Snor W
      → (A → Running W (Unit {0}))
      → Option (Result (Unit {0})) × Snor W
  next_write (err e) s go_on = (some (err e), s)
  next_write (done n) s go_on = go_on n s

  -- What follows a loop, whatever it returns, if it ends.
  abbrev pub when_ended :
      Option (Result (Unit {0}))
      → Snor W
      → Call (Snor W) (Unit {0})
      → Option (Result (Unit {0})) × Snor W
  when_ended none s call = (none, s)
  when_ended (some _) s call = let (r, s') = call s in (some r, s')

  abbrev pub pre_read :
      Option (ℕ → ℕ → Call (Snor W) (Unit {0})) → (addr len : ℕ) → Call (Snor W) (Unit {0})
  pre_read none addr len s = (done tt, s)
  pre_read (some f) addr len s = f addr len s

module _ {W : Type 0} (spi : SpiMem W) (setup : Setup W) (left_over : ℕ) where
  pub data_read_op : (addr len : ℕ) → SpiOp
  data_read_op addr len = record {
    opcode = setup.read_opcode;
    cmd_bw = setup.read_io_info.cmd_bw;
    naddr = setup.naddr;
    addr = addr;
    addr_bw = setup.read_io_info.addr_bw;
    ndummy = setup.read_ndummy;
    dummy_bw = setup.read_io_info.addr_bw;
    payload = data_in len;
    data_bw = setup.read_io_info.data_bw;
  }

  -- No more than what is left of a die.
  die_clip : (addr len : ℕ) → ℕ
  die_clip addr len =
      let chklen = setup.die_read_granularity - addr % setup.die_read_granularity in
      if setup.die_read_granularity == 0 then len else if ltb chklen len then chklen else len

  -- A round of the loop of `ufprog_spi_nor_read_no_check`: `op.data.len` and the bytes read.
  pub read_round : (addr len : ℕ) → Call (Snor W) (ℕ × List ℕ)
  unfolding data_read_op die_clip
  read_round addr len s = and_then (setup_addr spi setup addr s) (λ low.
      on_world (spi.adjust_op_size (data_read_op low (die_clip addr len))) >>= λ n.
      on_world (spi.exec_op (data_read_op low n)) >>= λ bytes. pure (n, bytes))

  pub read_loop : (fuel addr len : ℕ) → Running W (List ℕ)
  unfolding read_round
  read_loop zero addr len s = (if len == 0 then some (done []) else none, s)
  read_loop (suc fuel) addr len s =
      if len == 0
      then (some (done []), s)
      else (let (r, s') = read_round addr len s in
          next_read r s' (λ n. read_loop fuel (u64 (addr + n)) (u64 (len + (2 ^ 64 - n)))))

  pub read_no_check : (addr len : ℕ) → Call (Snor W) (List ℕ)
  unfolding read_loop
  read_no_check addr len s = and_then (pre_read setup.pre_read_hook addr len s) (λ _.
      set_high_speed spi setup >>= λ _ s1.
      let (r, s2) = read_loop len addr len s1 in
      returning (ended_or r) (set_low_speed spi setup s2))

  -- The tests that reading, writing and erasing start with.
  abbrev in_chip :
      {R : Type 0} → (Status → R) → (addr len : ℕ) → (Snor W → R × Snor W) → Snor W → R × Snor W
  in_chip refused addr len call s =
      if setup.size == 0
      then (refused flash_not_probed, s)
      else if leb setup.size addr || ltb setup.size (u64 (addr + len))
      then (refused address_out_of_range, s)
      else call s

  pub read : (addr len : ℕ) → Call (Snor W) (List ℕ)
  unfolding read_no_check
  read addr len = in_chip err addr len (λ s.
      ending
        (set_bus_width spi setup setup.read_io_info.cmd_bw >>= λ _.
          read_no_check addr len >>= λ bytes.
          set_bus_width spi setup setup.cmd_buswidth >>= λ _. pure bytes)
        (bus_unlock spi setup) (bus_lock spi setup s))

  pub page_op : (addr : ℕ) → List ℕ → SpiOp
  page_op addr bytes = record {
    opcode = setup.pp_opcode;
    cmd_bw = setup.pp_io_info.cmd_bw;
    naddr = setup.naddr;
    addr = addr;
    addr_bw = setup.pp_io_info.addr_bw;
    ndummy = 0;
    dummy_bw = 0;
    payload = data_out bytes;
    data_bw = setup.pp_io_info.data_bw;
  }

  -- What is left of the page of an address.
  pub room_in_page : (addr : ℕ) → ℕ
  room_in_page addr =
      u64 (setup.page_size + (2 ^ 64 - bit_and addr (u32 (setup.page_size + (2 ^ 32 - 1)))))

  -- A round of the loop of `spi_nor_page_program`.
  pub program_round : (addr : ℕ) → List ℕ → Call (Snor W) ℕ
  unfolding page_op
  program_round addr bytes s = and_then (setup_addr spi setup addr s) (λ low.
      data_write_enable spi setup >>= λ _.
      on_world (spi.adjust_op_size (page_op low bytes)) >>= λ n. set_high_speed spi setup >>= λ _.
      on_world (spi.exec_op (page_op low (take n bytes))) >>= λ _. set_low_speed spi setup >>= λ _.
      wait_busy spi setup left_over setup.max_pp_time_ms >>= λ _. pure n)

  pub program_loop : (fuel addr : ℕ) → List ℕ → Running W (Unit {0})
  unfolding program_round
  program_loop zero addr bytes s = (if length bytes == 0 then some (done tt) else none, s)
  program_loop (suc fuel) addr bytes s =
      if length bytes == 0
      then (some (done tt), s)
      else (let (r, s') = program_round addr bytes s in
          next_write r s' (λ n s.
            let rest = program_loop fuel (u64 (addr + n)) (drop n bytes) s in
            if ltb (length bytes) n then (none, s) else rest))

  pub page_program : (addr : ℕ) → List ℕ → Call (Snor W) ℕ
  unfolding program_loop room_in_page
  page_program addr bytes s =
      let proglen =
        if ltb (length bytes) (room_in_page addr) then length bytes else room_in_page addr in
      let (r, s') = program_loop proglen addr (take proglen bytes) s in
      and_then (ended_or r, s') (λ _. pure proglen)

  -- `ufprog_spi_nor_write_page`
  pub write_page : (addr : ℕ) → List ℕ → Call (Snor W) ℕ
  write_page addr bytes = in_chip err addr (length bytes) (λ s.
      ending
        (set_bus_width spi setup setup.pp_io_info.cmd_bw >>= λ _.
          setup.write_page addr bytes >>= λ n.
          set_bus_width spi setup setup.cmd_buswidth >>= λ _. pure n)
        (bus_unlock spi setup) (bus_lock spi setup s))

  -- The loop of `ufprog_spi_nor_write`. It goes on for ever after a page writer that takes no byte,
  -- and past the end of the buffer, as `len` wraps, after one that takes more than there are.
  pub write_loop : (fuel addr : ℕ) → List ℕ → Running W (Unit {0})
  write_loop zero addr bytes s = (if length bytes == 0 then some (done tt) else none, s)
  write_loop (suc fuel) addr bytes s =
      if length bytes == 0
      then (some (done tt), s)
      else (let (r, s') = setup.write_page addr bytes s in
          next_write r s' (λ n s.
            let rest = write_loop fuel (u64 (addr + n)) (drop n bytes) s in
            if ltb (length bytes) n then (none, s) else rest))

  -- The status of the loop is dropped. `fuel` is the number of rounds it may take, and the result is
  -- `none` if it has not ended after them.
  pub write : (fuel addr : ℕ) → List ℕ → Running W (Unit {0})
  unfolding write_loop
  write fuel addr bytes =
      in_chip (λ e. some (err e)) addr (length bytes)
        (λ s.
          let (wide, s1) = set_bus_width spi setup setup.pp_io_info.cmd_bw s in
          next_write wide s1 (λ _ s.
            let (r, s2) = write_loop fuel addr bytes s in
            when_ended r s2 (set_bus_width spi setup setup.cmd_buswidth)))

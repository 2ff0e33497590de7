-- ===== src/SpiNor/Control.antt =====
-- flash/spi-nor/spi-nor.c: write enable and disable, waiting for the chip, the address register and
-- the width of the command bus.
pub mod Wait
use ufprog.Common.{
  ℕ, zero, suc, ◌+◌, ◌*◌, ◌/◌, ◌%◌, ◌^◌, u8, u32, bit_and, bit_or, ◌==◌, ltb, leb, if◌then◌else◌,
  not, ◌||◌,
}
use ufprog.Common.{Bool, true, false, Option, none, some, List, [], ◌∷◌, Call, Result, done, err}
use ufprog.Common.{Status, ok, fail, timeout, unsupported, pure, fail_with, and_then, ◌>>=◌, ◌>>◌}
use ufprog.SpiNor.Api.{
  SpiOp, Payload, no_data, data_in, data_out, SpiMem, Snor, RegAccess, IoInfo, Setup,
}
use ufprog.SpiNor.Regs.{has, on_world, run_hook, read_reg_acc}

-- `SNOR_F_NO_WREN`, `SR_BUSY` and `SR_WEL`
abbrev pub f_no_wren : ℕ
f_no_wren = 2 ^ 18

abbrev pub sr_busy : ℕ
sr_busy = 1

abbrev pub sr_wel : ℕ
sr_wel = 2

-- What a wait for the chip ends with. `out_of_fuel` stands for a loop that goes on.
pub data Waited : Type 0 where
  finished : Result (Unit {0}) → Waited
  out_of_fuel : Waited

abbrev out_payload : List ℕ → Payload
out_payload [] = no_data
out_payload (b ∷ bs) = data_out (b ∷ bs)

module _ {W : Type 0} where
  -- `SNOR_WRITE_NO_ADDR_DUMMY_OP`
  unfoldable pub opcode_op : (opcode : ℕ) (bytes : List ℕ) → Snor W → SpiOp
  opcode_op opcode bytes s = record {
    opcode = opcode;
    cmd_bw = s.cmd_buswidth_curr;
    naddr = 0;
    addr = 0;
    addr_bw = 0;
    ndummy = 0;
    dummy_bw = 0;
    payload = out_payload bytes;
    data_bw = s.cmd_buswidth_curr;
  }

module _ {W : Type 0} (spi : SpiMem W) (setup : Setup W) where
  unfoldable pub issue_single_opcode : ℕ → Call (Snor W) (Unit {0})
  unfolding opcode_op
  issue_single_opcode opcode s =
      and_then (on_world (spi.exec_op (opcode_op opcode [] s)) s) (λ _. pure tt)

  -- `spi_nor_write_reg`: a register's byte after its opcode.
  unfoldable pub write_reg_byte : (opcode val : ℕ) → Call (Snor W) (Unit {0})
  unfolding opcode_op
  write_reg_byte opcode val s =
      and_then (on_world (spi.exec_op (opcode_op opcode (val ∷ []) s)) s) (λ _. pure tt)

  -- `left_over` is what the local variable holds before.
  unfoldable pub read_sr : (left_over : ℕ) → Call (Snor W) ℕ
  unfolding read_reg_acc
  read_sr left_over s =
      and_then (read_reg_acc spi setup left_over setup.sr_r s) (λ val. pure (bit_and val 0xff))

  unfoldable pub volatile_write_enable : Call (Snor W) (Unit {0})
  unfolding issue_single_opcode
  volatile_write_enable s =
      if has setup.flags f_no_wren then (done tt, s) else issue_single_opcode 0x50 s

  -- Command 06h or 04h, after which the latch bit has to be `set`.
  switch_write : (opcode : ℕ) (set : Bool) (left_over : ℕ) → Call (Snor W) (Unit {0})
  unfolding issue_single_opcode read_sr
  switch_write opcode set left_over s =
      if has setup.flags f_no_wren
      then (done tt, s)
      else and_then (issue_single_opcode opcode s) (λ _. read_sr left_over >>= λ val.
          if has val sr_wel
          then (if set then pure tt else fail_with fail)
          else (if set then fail_with fail else pure tt))

  unfoldable pub write_enable : (left_over : ℕ) → Call (Snor W) (Unit {0})
  unfolding switch_write
  write_enable = switch_write 0x06 true

  unfoldable pub write_disable : (left_over : ℕ) → Call (Snor W) (Unit {0})
  unfolding switch_write
  write_disable = switch_write 0x04 false

  unfoldable pub data_write_enable : Call (Snor W) (Unit {0})
  data_write_enable s =
      if has setup.flags f_no_wren then (done tt, s) else setup.data_write_enable s

  pub timer : Snor W → ℕ × Snor W
  timer s = let (now, w) = spi.timer_us s.world in (now, record s { world = w })

  -- What the loop of `spi_nor_wait_busy` does with a status, and with the last one that it reads once
  -- the time is over.
  abbrev pub after_status : Result ℕ → Snor W → (Snor W → Waited × Snor W) → Waited × Snor W
  after_status (err e) s still_busy = (finished (err e), s)
  after_status (done sr) s still_busy =
      if not (has sr sr_busy) then (finished (done tt), s) else still_busy s

  abbrev pub last_status : Result ℕ → Snor W → Waited × Snor W
  last_status (err e) s = (finished (err e), s)
  last_status (done sr) s = (finished (if has sr sr_busy then err timeout else done tt), s)

  -- The loop, with the time at which it gives up. It goes out of fuel only while the timer stands
  -- still.
  unfoldable pub poll : (fuel left_over tmo : ℕ) → Snor W → (Waited × Snor W)
  unfolding read_sr timer
  poll zero left_over tmo s = (out_of_fuel, s)
  poll (suc fuel) left_over tmo s =
      let (r, s1) = read_sr left_over s in
      after_status r s1 (λ s1.
        let (now, s2) = timer s1 in
        let (last, s3) = read_sr left_over s2 in
        if leb now tmo then poll fuel left_over tmo s2 else last_status last s3)

  out_of_time : Waited → Result (Unit {0})
  out_of_time (finished r) = r
  out_of_time out_of_fuel = err timeout

  -- `wait_ms * 1000` is a product of 32 bits. A timer that moves on ends the loop within the fuel.
  unfoldable pub wait_busy : (left_over wait_ms : ℕ) → Call (Snor W) (Unit {0})
  unfolding poll out_of_time timer
  wait_busy left_over wait_ms s =
      let (now, s1) = timer s in
      let (r, s2) = poll (u32 (wait_ms * 1000) + 2) left_over (now + u32 (wait_ms * 1000)) s1 in
      (out_of_time r, s2)

  -- The high byte of an address goes to a register of the chip; the rest stays in the operation.
  unfoldable pub setup_addr : ℕ → Call (Snor W) ℕ
  setup_addr addr s = elim setup.write_addr_high_byte [
    | none ↦ (done addr, s)
    | some write_high ↦
        let high_byte = u8 (addr / 2 ^ 24) in
        if high_byte == s.curr_high_addr
        then (done (addr % 2 ^ 24), s)
        else and_then (write_high high_byte s)
            (λ _ s1. (done (addr % 2 ^ 24), record s1 { curr_high_addr = high_byte }))
  ]

  -- `ctrl` is one of `spi_nor_dpi_control` and `spi_nor_qpi_control`.
  unfoldable pub bus_control :
      (Bool → Option (Call (Snor W) (Unit {0}))) → (width : ℕ) → Bool → Call (Snor W) (Unit {0})
  bus_control ctrl width enable s = elim (ctrl enable) [
    | none ↦ (done tt, s)
    | some f ↦
        and_then (f s)
          (λ _ s1. (done tt, record s1 { cmd_buswidth_curr = if enable then width else 1 }))
  ]

  unfoldable pub quad_enable : Call (Snor W) (Unit {0})
  quad_enable s = elim setup.quad_enable [
    | none ↦ (done tt, s)
    | some f ↦
        if s.qe_set
        then (done tt, s)
        else and_then (f s) (λ _ s1. (done tt, record s1 { qe_set = true }))
  ]

  abbrev setup_hook : Option (Bool → Call (Snor W) (Unit {0})) → Bool → Call (Snor W) (Unit {0})
  setup_hook none enable s = (done tt, s)
  setup_hook (some f) enable s = f enable s

  setup_qpi_read_param : Call (Snor W) (Unit {0})
  unfolding write_reg_byte
  setup_qpi_read_param s =
      if setup.qpi_dc_shift == 0 || not setup.read_dc_valid
      then (done tt, s)
      else write_reg_byte 0xc0
          (u8 (bit_or setup.qpi_set (setup.read_dc_idx * 2 ^ setup.qpi_dc_shift))) s

  -- One `switch` of `spi_nor_set_bus_width`: leave a width, or enter it.
  width_switch : (width : ℕ) (enable : Bool) → Call (Snor W) (Unit {0})
  unfolding bus_control setup_qpi_read_param
  width_switch width enable s =
      if width == 2
      then and_then (bus_control setup.dpi_control 2 enable s)
          (λ _. setup_hook setup.setup_dpi enable)
      else if width == 4
      then and_then (bus_control setup.qpi_control 4 enable s) (λ _.
        (if enable then setup_qpi_read_param else pure tt) >> setup_hook setup.setup_qpi enable)
      else (done tt, s)

  unfoldable pub set_bus_width : ℕ → Call (Snor W) (Unit {0})
  unfolding width_switch
  set_bus_width width s =
      if width == s.cmd_buswidth_curr
      then (done tt, s)
      else and_then (width_switch s.cmd_buswidth_curr false s) (λ _.
        width_switch width true >>= λ _ s2. (done tt, record s2 { cmd_buswidth_curr = width }))

  -- `ufprog_spi_nor_select_die`
  unfoldable pub select_die : ℕ → Call (Snor W) (Unit {0})
  unfolding write_reg_byte
  select_die index s =
      if index == s.curr_die
      then (done tt, s)
      else and_then
          (if leb setup.ndies (u8 index)
            then (err unsupported, s)
            else if setup.ndies == 1
            then (done tt, s)
            else write_reg_byte 0xc2 (u8 index) s)
          (λ _ s1. (done tt, record s1 { curr_die = index }))

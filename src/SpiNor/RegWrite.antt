-- ===== src/SpiNor/RegWrite.antt =====
-- flash/spi-nor/regs.c: writing registers.
use ufprog.Common.{ℕ, ◌-◌, ◌*◌, ◌/◌, ◌%◌, ◌^◌, bit_and, bit_or, ◌==◌, ltb, if◌then◌else◌, not, ◌&&◌}
use ufprog.Common.{Bool, true, false, Option, none, some, List, [], ◌∷◌, Call, Result, done, err}
use ufprog.Common.{unsupported, flash_not_probed, pure, and_then, ◌>>=◌, ending}
use ufprog.SpiNor.Api.{SpiOp, data_out, SpiMem, Snor, RegDesc, RegAccess, RegAccessType, Setup}
use ufprog.SpiNor.Api.{normal, read_multi_write_once}
use ufprog.SpiNor.Regs.{
  has, on_world, run_hook, set_low_speed, read_reg_acc, get_reg_bytes, bus_lock, bus_unlock,
  big_endian, status_reg, no_wren, volatile_no_wren, volatile_wren_50h, has_volatile_wr_opcode,
  addr_4b_mode, no_poll, no_wrdis, data_acc_timing,
}
use ufprog.SpiNor.Control.{write_enable, write_disable, volatile_write_enable, wait_busy}

-- `SNOR_F_SR_NON_VOLATILE | SNOR_F_SR_VOLATILE`, and `SNOR_F_SR_VOLATILE_WREN_50H`
abbrev f_sr_wren : ℕ
f_sr_wren = 192

abbrev f_sr_volatile_wren_50h : ℕ
f_sr_volatile_wren_50h = 256

abbrev byte : ℕ → ℕ → ℕ
byte val k = val / 2 ^ (8 * k) % 2 ^ 8

-- The bytes of a register's value; any number of bytes but 1, 2 and 3 counts as 4.
unfoldable pub encode : (big : Bool) (ndata val : ℕ) → List ℕ
encode big ndata val =
    if ndata == 1
    then byte val 0 ∷ []
    else if ndata == 2
    then if big then byte val 1 ∷ byte val 0 ∷ [] else byte val 0 ∷ byte val 1 ∷ []
    else if ndata == 3
    then if big
      then byte val 2 ∷ byte val 1 ∷ byte val 0 ∷ []
      else byte val 0 ∷ byte val 1 ∷ byte val 2 ∷ []
    else if big
    then byte val 3 ∷ byte val 2 ∷ byte val 1 ∷ byte val 0 ∷ []
    else byte val 0 ∷ byte val 1 ∷ byte val 2 ∷ byte val 3 ∷ []

-- How a write of a register is let through: with command 06h, with command 50h, with another
-- opcode, or as it is.
pub data Unlock : Type 0 where
  wren : Unlock
  wren_50h : Unlock
  volatile_opcode : Unlock
  plain : Unlock

unfoldable pub unlock_of : (param_flags flags : ℕ) (volatile_write : Bool) → Unlock
unlock_of param_flags flags volatile_write =
    if volatile_write && not (has flags volatile_no_wren)
    then if has flags status_reg
      then if has param_flags f_sr_volatile_wren_50h
        then wren_50h
        else if has param_flags f_sr_wren
        then wren
        else plain
      else if has flags volatile_wren_50h
      then wren_50h
      else if has flags has_volatile_wr_opcode
      then volatile_opcode
      else plain
    else if not volatile_write && not (has flags no_wren)
    then if has flags status_reg
      then if has param_flags f_sr_wren
        then wren
        else if has param_flags f_sr_volatile_wren_50h
        then wren_50h
        else plain
      else wren
    else plain

abbrev is_wren : Unlock → Bool
is_wren wren = true
is_wren _ = false

module _ {W : Type 0} where
  write_op : RegDesc → Unlock → List ℕ → Snor W → SpiOp
  write_op desc unlock bytes s = record {
    opcode = elim unlock [ volatile_opcode ↦ desc.write_opcode_volatile | _ ↦ desc.write_opcode ];
    cmd_bw = s.cmd_buswidth_curr;
    naddr = if has desc.flags addr_4b_mode then (if s.a4b_mode then 4 else 3) else desc.naddr;
    addr = desc.addr;
    addr_bw = s.cmd_buswidth_curr;
    ndummy = desc.ndummy_write;
    dummy_bw = s.cmd_buswidth_curr;
    payload = data_out bytes;
    data_bw = s.cmd_buswidth_curr;
  }

module _ {W : Type 0} (spi : SpiMem W) (setup : Setup W) (left_over : ℕ) where
  prepare : Unlock → Call (Snor W) (Unit {0})
  prepare wren s = write_enable spi setup left_over s
  prepare wren_50h s = volatile_write_enable spi setup s
  prepare volatile_opcode s = (done tt, s)
  prepare plain s = (done tt, s)

  -- The transfer, between the unlocking and `out`.
  transfer : RegDesc → Unlock → SpiOp → Call (Snor W) (Unit {0})
  transfer desc unlock op s =
      and_then (if has desc.flags data_acc_timing then set_low_speed spi setup s else (done tt, s))
        (λ _. on_world (spi.exec_op op) >>= λ _.
          if is_wren unlock && not (has desc.flags no_poll)
          then wait_busy spi setup left_over setup.max_nvcr_pp_time_ms
          else pure tt)

  -- `ndata` is 0 for the register's own number of bytes. The status of the disabling is dropped.
  unfoldable pub write_reg_desc :
      RegDesc → (val ndata : ℕ) (volatile_write : Bool) → Call (Snor W) (Unit {0})
  unfolding encode unlock_of prepare transfer write_op
  write_reg_desc desc val ndata volatile_write s =
      let n = if ndata == 0 then desc.ndata else ndata in
      let bytes = encode (has desc.flags big_endian) n val in
      let unlock = unlock_of setup.flags desc.flags volatile_write in
      if ltb 4 n
      then (err unsupported, s)
      else if not (spi.supports_op (write_op desc plain bytes s) s.world)
      then (err unsupported, s)
      else and_then (prepare unlock s) (λ _.
        ending (transfer desc unlock (write_op desc unlock bytes s)) (λ s'.
          if is_wren unlock && not (has desc.flags no_wrdis)
          then (write_disable spi setup left_over s').1
          else s'))

  -- The loop of `spi_nor_write_reg_acc`. A register of four bytes, for which the source computes
  -- `1 << 32`, keeps its value; those of the tables have at most two.
  unfoldable pub write_descs :
      (big : Bool)
      → List RegDesc
      → (val shift : ℕ) (volatile_write : Bool) → Call (Snor W) (Unit {0})
  unfolding write_reg_desc
  write_descs big [] val shift volatile_write s = (done tt, s)
  write_descs big (d ∷ ds) val shift volatile_write s =
      let bits = d.ndata * 8 in
      let left = shift - bits in
      let part = if big then val / 2 ^ left % 2 ^ bits else val % 2 ^ bits in
      and_then (write_reg_desc d part 0 volatile_write s)
        (λ _. write_descs big ds (if big then val else val / 2 ^ bits) left volatile_write)

  write_once : List RegDesc → (val : ℕ) (volatile_write : Bool) → Call (Snor W) (Unit {0})
  unfolding write_reg_desc
  write_once [] val volatile_write s = (done tt, s)
  write_once (d ∷ ds) val volatile_write s =
      write_reg_desc d val (get_reg_bytes (d ∷ ds)) volatile_write s

  write_parts :
      RegAccessType → RegAccess W → (val : ℕ) (volatile_write : Bool) → Call (Snor W) (Unit {0})
  unfolding write_descs write_once
  write_parts normal access val volatile_write s =
      write_descs access.write_big_endian access.desc val (get_reg_bytes access.desc * 8)
        volatile_write s
  write_parts read_multi_write_once access val volatile_write s =
      write_once access.desc val volatile_write s

  -- With a `post_acc` its status replaces that of the write.
  after_access : Option (Call (Snor W) (Unit {0})) → Result (Unit {0}) → Call (Snor W) (Unit {0})
  after_access none r s = (r, s)
  after_access (some post) r s = post s

  unfoldable pub write_reg_acc :
      RegAccess W → (val : ℕ) (volatile_write : Bool) → Call (Snor W) (Unit {0})
  unfolding write_parts after_access
  write_reg_acc access val volatile_write s = and_then (run_hook access.pre_acc s) (λ _ s1.
      let (r, s2) = write_parts access.type access val volatile_write s1 in
      after_access access.post_acc r s2)

  unfoldable pub write_reg : RegAccess W → (val : ℕ) → Call (Snor W) (Unit {0})
  unfolding write_reg_acc
  write_reg access val s =
      if setup.size == 0
      then (err flash_not_probed, s)
      else ending (write_reg_acc access val false) (bus_unlock spi setup) (bus_lock spi setup s)

  -- `val & ~clr`
  abbrev clear_bits : ℕ → ℕ → ℕ
  clear_bits val clr = val - bit_and val clr

  unfoldable pub update_reg_acc :
      RegAccess W → (clr set : ℕ) (volatile_write : Bool) → Call (Snor W) (Unit {0})
  unfolding write_reg_acc
  update_reg_acc access clr set volatile_write s =
      and_then (read_reg_acc spi setup left_over access s) (λ val.
        let new = bit_or (clear_bits val clr) set in
        if new == val then pure tt else write_reg_acc access new volatile_write)

  unfoldable pub update_reg : RegAccess W → (clr set : ℕ) → Call (Snor W) (Unit {0})
  unfolding update_reg_acc
  update_reg access clr set s =
      if setup.size == 0
      then (err flash_not_probed, s)
      else ending (update_reg_acc access clr set false) (bus_unlock spi setup)
          (bus_lock spi setup s)

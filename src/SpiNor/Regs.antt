-- ===== src/SpiNor/Regs.antt =====
-- flash/spi-nor/regs.c: reading registers. What a variable holds that the source leaves
-- uninitialised is a parameter, `left_over`.
use ufprog.Common.{ℕ, ◌+◌, ◌*◌, ◌<<<◌, u32, bit_and, bit_or, ◌==◌, ltb, if◌then◌else◌, not}
use ufprog.Common.{Bool, Option, none, some, List, [], ◌∷◌, get_or, Call, Result, done, err}
use ufprog.Common.{unsupported, flash_not_probed, pure, and_then, ◌>>=◌}
use ufprog.Common.{ending}
use ufprog.SpiNor.Api.{SpiOp, data_in, SpiMem, Snor, RegDesc, RegAccess}
use ufprog.SpiNor.Api.{Setup}

-- `flags & flag`
abbrev pub has : ℕ → ℕ → Bool
has flags flag = not (bit_and flags flag == 0)

-- `SNOR_REGACC_F_...`
abbrev pub big_endian : ℕ
big_endian = 1

abbrev pub status_reg : ℕ
status_reg = 2

abbrev pub no_wren : ℕ
no_wren = 4

abbrev pub volatile_no_wren : ℕ
volatile_no_wren = 8

abbrev pub volatile_wren_50h : ℕ
volatile_wren_50h = 16

abbrev pub has_volatile_wr_opcode : ℕ
has_volatile_wr_opcode = 32

abbrev pub addr_4b_mode : ℕ
addr_4b_mode = 64

abbrev pub no_poll : ℕ
no_poll = 128

abbrev pub no_wrdis : ℕ
no_wrdis = 256

abbrev pub data_acc_timing : ℕ
data_acc_timing = 512

-- The number of bytes of a register.
unfoldable pub get_reg_bytes : List RegDesc → ℕ
get_reg_bytes [] = 0
get_reg_bytes (d ∷ ds) = u32 (d.ndata + get_reg_bytes ds)

-- The value of a register from the bytes read, by their number.
unfoldable pub decode : (big : Bool) (ndata : ℕ) → List ℕ → ℕ
decode big ndata bytes =
    let b = λ (i : ℕ). get_or bytes i 0 in
    if ndata == 1
    then b 0
    else if ndata == 2
    then if big then bit_or (b 1) (b 0 <<< 8) else bit_or (b 0) (b 1 <<< 8)
    else if ndata == 3
    then if big
      then bit_or (bit_or (b 2) (b 1 <<< 8)) (b 0 <<< 8)
      else bit_or (bit_or (b 0) (b 1 <<< 8)) (u32 (b 1 <<< 24))
    else if big
    then bit_or (bit_or (bit_or (b 3) (b 2 <<< 8)) (b 1 <<< 16)) (u32 (b 0 <<< 24))
    else bit_or (bit_or (bit_or (b 0) (b 1 <<< 8)) (b 2 <<< 16)) (u32 (b 3 <<< 24))

module _ {W : Type 0} where
  -- A call of the interface.
  abbrev pub on_world : {A : Type 0} → Call W A → Call (Snor W) A
  on_world m s = let (r, w) = m s.world in (r, record s { world = w })

  -- `if (hook) STATUS_CHECK_RET(hook(snor))`
  abbrev pub run_hook : Option (Call (Snor W) (Unit {0})) → Call (Snor W) (Unit {0})
  run_hook none s = (done tt, s)
  run_hook (some f) s = f s

  -- The operation that reads a register.
  unfoldable pub read_op : Setup W → RegDesc → Snor W → SpiOp
  read_op setup desc s = record {
    opcode = desc.read_opcode;
    cmd_bw = s.cmd_buswidth_curr;
    naddr = if has desc.flags addr_4b_mode then (if s.a4b_mode then 4 else 3) else desc.naddr;
    addr = desc.addr;
    addr_bw = s.cmd_buswidth_curr;
    ndummy =
        if has desc.flags data_acc_timing
        then (if setup.read_io_info.cmd_bw == s.cmd_buswidth_curr then setup.read_ndummy else 1)
        else desc.ndummy_read;
    dummy_bw = s.cmd_buswidth_curr;
    payload = data_in desc.ndata;
    data_bw = s.cmd_buswidth_curr;
  }

-- An interface without speed control is no error.
abbrev pub tolerate : Result (Unit {0}) → Result (Unit {0})
tolerate (err unsupported) = done tt
tolerate r = r

module _ {W : Type 0} (spi : SpiMem W) (setup : Setup W) where
  unfoldable pub set_speed : ℕ → Call (Snor W) (Unit {0})
  set_speed speed s =
      let (r, w) = spi.set_speed speed s.world in (tolerate r, record s { world = w })

  unfoldable pub set_low_speed : Call (Snor W) (Unit {0})
  unfolding set_speed
  set_low_speed = set_speed setup.speed_low

  unfoldable pub set_high_speed : Call (Snor W) (Unit {0})
  unfolding set_speed
  set_high_speed = set_speed setup.speed_high

  unfoldable pub read_reg_desc : RegDesc → Call (Snor W) ℕ
  unfolding read_op decode set_low_speed
  read_reg_desc desc s =
      let op = read_op setup desc s in
      if ltb 4 desc.ndata
      then (err unsupported, s)
      else if not (spi.supports_op op s.world)
      then (err unsupported, s)
      else and_then (if has desc.flags data_acc_timing then set_low_speed s else (done tt, s)) (λ _.
        on_world (spi.exec_op op) >>= λ bytes.
        pure (decode (has desc.flags big_endian) desc.ndata bytes))

  -- The loop of `spi_nor_read_reg_acc`: `val` and `shift` are its variables.
  unfoldable pub read_descs : (big : Bool) → List RegDesc → (val shift : ℕ) → Call (Snor W) ℕ
  read_descs big [] val shift s = (done val, s)
  read_descs big (d ∷ ds) val shift s = and_then (read_reg_desc d s) (λ part.
      read_descs big ds
        (if big then bit_or (u32 (val <<< shift)) part else bit_or val (u32 (part <<< shift)))
        (shift + d.ndata * 8))

  -- What `*retval` is when the loop has ended: a failed read leaves it alone.
  abbrev pub value_or : ℕ → Result ℕ → ℕ
  value_or left_over (done val) = val
  value_or left_over (err e) = left_over

  -- The status of a failed read is dropped: what `post_acc` returns counts.
  unfoldable pub read_reg_acc : (left_over : ℕ) → RegAccess W → Call (Snor W) ℕ
  unfolding read_descs
  read_reg_acc left_over access s = and_then (run_hook access.pre_acc s) (λ _ s1.
      let (r, s2) = read_descs access.read_big_endian access.desc 0 0 s1 in
      and_then (run_hook access.post_acc s2) (λ _. pure (value_or left_over r)))

  -- `ufprog_spi_nor_bus_lock` and `ufprog_spi_nor_bus_unlock`
  abbrev pub bus_lock : Snor W → Snor W
  bus_lock s = record s { world = spi.bus_lock s.world }

  abbrev pub bus_unlock : Snor W → Snor W
  bus_unlock s = record s { world = spi.bus_unlock s.world }

  unfoldable pub read_reg : (left_over : ℕ) → RegAccess W → Call (Snor W) ℕ
  unfolding read_reg_acc
  read_reg left_over access s =
      if setup.size == 0
      then (err flash_not_probed, s)
      else ending (read_reg_acc left_over access) bus_unlock (bus_lock s)

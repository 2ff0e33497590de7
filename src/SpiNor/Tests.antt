-- ===== src/SpiNor/Tests.antt =====
-- A chip with nothing but a status register, which is the world.
use ufprog.Common.{
  ℕ, ◌*◌, ◌%◌, ◌^◌, ◌≡◌, arith, ap, ◌∙◌, zero-bit_or, ◌==◌, if◌then◌else◌, u32, true, false, none,
  [], ◌∷◌,
}
use ufprog.Common.{done}
use ufprog.SpiNor.Api.{SpiMem, Payload, data_out, Snor, Setup, IoInfo}
use ufprog.SpiNor.Api.{RegAccess, normal}
use ufprog.SpiNor.Regs.{
  read_reg_acc, read_descs, read_reg_desc, decode, read_op, set_low_speed, set_speed, get_reg_bytes,
}
use ufprog.SpiNor.RegWrite.{write_reg_acc, write_descs, write_reg_desc, encode, unlock_of}

abbrev pub store_in : Payload → ℕ → ℕ
store_in (data_out (b ∷ bs)) w = b
store_in _ w = w

-- Opcode 05h reads the register and 01h writes it.
abbrev pub register_spi : SpiMem ℕ
register_spi = record {
  supports_op = λ op w. true;
  adjust_op_size = λ op w. (done 0, w);
  exec_op = λ op w.
      if op.opcode == 5
      then (done (w % 2 ^ 8 ∷ []), w)
      else (done [], if op.opcode == 1 then store_in op.payload w else w);
  set_speed = λ speed w. (done tt, w);
  bus_lock = λ w. w;
  bus_unlock = λ w. w;
  timer_us = λ w. (0, w);
}

abbrev pub sr_acc : RegAccess ℕ
sr_acc = record {
  type = normal;
  read_big_endian = false;
  write_big_endian = false;
  desc =
      record {
        flags = 2;
        read_opcode = 0x05;
        write_opcode = 0x01;
        write_opcode_volatile = 0;
        naddr = 0;
        ndummy_read = 0;
        ndummy_write = 0;
        ndata = 1;
        addr = 0;
      }
      ∷ [];
  pre_acc = none;
  post_acc = none;
}

abbrev one_bit : IoInfo
one_bit = record { cmd_bw = 1; addr_bw = 1; data_bw = 1 }

-- A chip of 16 MB.
abbrev pub small_setup : Setup ℕ
small_setup = record {
  flags = 0;
  size = 2 ^ 24;
  page_size = 256;
  ndies = 1;
  max_pp_time_ms = 1;
  max_nvcr_pp_time_ms = 1;
  speed_low = 1;
  speed_high = 2;
  naddr = 3;
  cmd_buswidth = 1;
  die_read_granularity = 0;
  read_opcode = 3;
  read_ndummy = 0;
  read_io_info = one_bit;
  pp_opcode = 2;
  pp_io_info = one_bit;
  sr_r = sr_acc;
  erase_info = [];
  erase_regions = [];
  data_write_enable = λ s. (done tt, s);
  pre_read_hook = none;
  write_page = λ addr bytes s. (done 0, s);
  write_addr_high_byte = none;
  quad_enable = none;
  dpi_control = λ enable. none;
  qpi_control = λ enable. none;
  setup_dpi = none;
  setup_qpi = none;
  qpi_dc_shift = 0;
  qpi_set = 0;
  read_dc_valid = false;
  read_dc_idx = 0;
}

abbrev pub small_snor : Snor ℕ
small_snor = record {
  curr_die = 0;
  curr_high_addr = 0;
  cmd_buswidth_curr = 1;
  qe_set = false;
  a4b_mode = false;
  wp_regions = none;
  world = 0x83;
}

pub register_read :
    (s : Snor ℕ) → read_reg_acc register_spi small_setup 0 sr_acc s ≡ (done (s.world % 2 ^ 8), s)
unfolding read_reg_acc read_descs read_reg_desc decode read_op set_low_speed set_speed
register_read s =
    ap (λ (t : ℕ). (done t, s)) (zero-bit_or (u32 (s.world % 2 ^ 8 * 2 ^ 0)) ∙ omega arith)

pub register_written :
    (v : ℕ) (s : Snor ℕ)
    → write_reg_acc register_spi small_setup 0 sr_acc v false s
      ≡ (done tt, record s { world = v % 2 ^ 8 })
unfolding write_reg_acc write_descs write_reg_desc encode unlock_of set_low_speed set_speed
    get_reg_bytes
register_written v s = ap (λ (t : ℕ). (done tt, record s { world = t })) (omega arith)

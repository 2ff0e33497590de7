-- ===== src/SpiNor/Data/Tests.antt =====
-- A chip whose byte at an address is the address, with dies of 64 bytes for reading, behind an
-- interface that takes four bytes at once.
use ufprog.Common.{
  ℕ, ◌+◌, ◌*◌, ◌/◌, ◌%◌, ◌<◌, ◌≡◌, inl, inr, some, ltb, Bool-cases, refl, arith, ap, ◌∙◌, ◌==◌,
  ◌&&◌, if◌then◌else◌, List, [], ◌∷◌, length, min,
}
use ufprog.Common.{Result, done, err, fail}
use ufprog.SpiNor.Api.{SpiMem, Payload, no_data, data_in, data_out, Snor, Setup}
use ufprog.SpiNor.Regs.{set_speed, set_low_speed, set_high_speed, read_reg_acc, read_reg_desc}
use ufprog.SpiNor.Control.{set_bus_width, setup_addr, data_write_enable, wait_busy, read_sr}
use ufprog.SpiNor.Data.{data_read_op, page_op, read, write, page_program}
use ufprog.SpiNor.Data.Bytes.{bytes_at, bytes_at_same, length-bytes_at}
use ufprog.SpiNor.Data.Reads.{IsReader, IsInDie, read_lem}
use ufprog.SpiNor.Data.Programs.{IsProgrammed}
use ufprog.SpiNor.Data.Programs.Whole.{write-programs}
use ufprog.SpiNor.Data.Writes.{IsAnswer, write_is_ok}
use ufprog.SpiNor.Tests.{register_spi, small_setup, small_snor}

abbrev pub len_of : Payload → ℕ
len_of (data_in n) = n
len_of (data_out bytes) = length bytes
len_of no_data = 0

abbrev pub byte_of : ℕ → ℕ
byte_of a = a

-- An operation starts again at the beginning of its die of 64 bytes when it comes to the end.
abbrev in_die_of : (addr a : ℕ) → ℕ
in_die_of addr a = addr / 64 * 64 + a % 64

abbrev reading_spi : SpiMem ℕ
reading_spi = record register_spi {
  adjust_op_size = λ op w. (done (min (len_of op.payload) 4), w);
  exec_op = λ op w. (
    done (if op.opcode == 3 then bytes_at (in_die_of op.addr) op.addr (len_of op.payload) else []),
    w,
  );
}

abbrev dies_setup : Setup ℕ
dies_setup = record small_setup { die_read_granularity = 64 }

abbrev with_writer : (ℕ → List ℕ → Snor ℕ → Result ℕ × Snor ℕ) → Setup ℕ
with_writer w = record small_setup { write_page = w }

any_width :
    (spi : SpiMem ℕ) (w : ℕ → List ℕ → Snor ℕ → Result ℕ × Snor ℕ) (width : ℕ) (s : Snor ℕ)
    → (set_bus_width spi (with_writer w) width s).0 ≡ done tt
unfolding set_bus_width
any_width spi w width s = ground arith

same_world :
    (spi : SpiMem ℕ) (w : ℕ → List ℕ → Snor ℕ → Result ℕ × Snor ℕ) (width : ℕ) (s : Snor ℕ)
    → (set_bus_width spi (with_writer w) width s).1.world ≡ s.world
unfolding set_bus_width
same_world spi w width s = ground arith

dies_width : (width : ℕ) (s : Snor ℕ) → (set_bus_width reading_spi dies_setup width s).0 ≡ done tt
unfolding set_bus_width
dies_width width s = ground arith

unwrapped :
    (addr len : ℕ)
    → IsInDie 64 addr len
    → bytes_at (in_die_of addr) addr len ≡ bytes_at byte_of addr len
unwrapped addr len (inl single) = absurd (omega (arith, single))
unwrapped addr len (inr inside) =
    bytes_at_same (in_die_of addr) byte_of addr len (λ i h. omega (arith, inside, h))

reader : IsReader reading_spi dies_setup 0 byte_of (λ s. Unit {0})
unfolding data_read_op set_speed
reader = record {
  fits_64 = omega arith;
  plain = refl;
  hookless = refl;
  adjusted = λ addr len s pos ready. (min len 4, ground (arith, pos), ground arith, refl, tt);
  given = λ addr len s below inside ready. (ap done (unwrapped addr len inside), tt);
  speeds = λ speed s ready. (refl, tt);
  widths = λ width s ready. (dies_width width s, tt);
  locks = λ s ready. tt;
}

-- Ten bytes over the end of a die.
read_lem_example :
    (read reading_spi dies_setup 0 0x7d 10 small_snor).0
    ≡ done (125 ∷ 126 ∷ 127 ∷ 128 ∷ 129 ∷ 130 ∷ 131 ∷ 132 ∷ 133 ∷ 134 ∷ [])
read_lem_example =
    read_lem reading_spi dies_setup 0 byte_of (λ s. Unit {0}) reader 125 10 small_snor (omega arith)
      (omega arith) tt

-- A byte at once up to the address 101, and then a failure.
abbrev failing : ℕ → List ℕ → Snor ℕ → Result ℕ × Snor ℕ
failing addr bytes s = (if ltb 101 addr then err fail else done 1, s)

failing_answers :
    (a : ℕ) (rest : List ℕ) (s : Snor ℕ) → 0 < length rest → IsAnswer rest (failing a rest s).0
failing_answers a rest s pos = elim (Bool-cases (ltb 101 a)) [
  | inl e ↦ rw e tt
  | inr e ↦ rw e (omega arith, pos)
]

write_is_ok_example :
    (write reading_spi (with_writer failing) 0 4 100 (1 ∷ 2 ∷ 3 ∷ 4 ∷ []) small_snor).0
    ≡ some (done tt)
write_is_ok_example =
    write_is_ok reading_spi (with_writer failing) 0 (any_width reading_spi failing) (omega arith) 4
      100 (1 ∷ 2 ∷ 3 ∷ 4 ∷ []) small_snor failing_answers (omega arith) (omega arith) (omega arith)

-- A chip whose world is the address up to which it is programmed.
abbrev programming_spi : SpiMem ℕ
programming_spi = record reading_spi {
  exec_op =
      λ op w. (done [], if (op.opcode == 2) && (op.addr == w) then w + len_of op.payload else w);
}

abbrev programming_setup : Setup ℕ
programming_setup = with_writer (page_program programming_spi small_setup 0)

same_writer :
    (a : ℕ) (bytes : List ℕ) (s : Snor ℕ)
    → (page_program programming_spi small_setup 0 a bytes s
        ≡ page_program programming_spi programming_setup 0 a bytes s)
unfolding page_program setup_addr data_write_enable set_low_speed set_high_speed wait_busy read_sr
    read_reg_acc read_reg_desc
same_writer a bytes s = refl

idle : (s : Snor ℕ) → (wait_busy programming_spi programming_setup 0 1 s ≡ (done tt, s))
unfolding wait_busy read_sr set_low_speed read_reg_acc read_reg_desc
idle s = refl

programmed_chip : IsProgrammed programming_spi programming_setup 0 8 byte_of (λ a s. s.world ≡ a)
unfolding page_op set_speed data_write_enable
programmed_chip = record {
  fits_64 = omega arith;
  paged = refl;
  small = omega arith;
  plain = refl;
  writer = same_writer;
  enabled = λ a s e. (refl, e);
  adjusted = λ a m s pos e.
      (min m 4, ground (arith, pos), ground arith, rw (length-bytes_at byte_of a m) refl, e);
  programmed =
      λ page a n s low high below e. ([], refl, rw (e, length-bytes_at byte_of a n) (ground arith));
  speeds = λ speed a s e. (refl, e);
  waits = λ a s e. (ap (λ p. p.0) (idle s), ap (λ p. p.1.world) (idle s) ∙ e);
  widths = any_width programming_spi (page_program programming_spi small_setup 0);
  still = λ a width s e.
      same_world programming_spi (page_program programming_spi small_setup 0) width s ∙ e;
}

-- 700 bytes from the address 0x83 on.
write-programs_example :
    ((write programming_spi programming_setup 0 700 0x83 (bytes_at byte_of 0x83 700) small_snor).0
      ≡ some (done tt))
    × ((write programming_spi programming_setup 0 700 0x83
          (bytes_at byte_of 0x83 700)
          small_snor).1.world
        ≡ 0x83 + 700)
write-programs_example =
    write-programs programming_spi programming_setup 0 8 byte_of (λ a s. s.world ≡ a)
      programmed_chip 700 0x83 700 small_snor (omega arith) (omega arith) (omega arith) refl

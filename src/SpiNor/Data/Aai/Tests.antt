-- ===== src/SpiNor/Data/Aai/Tests.antt =====
-- A chip whose world is the address up to which it is written, behind an interface that takes one
-- byte at once.
use ufprog.Common.{
  ℕ, ◌+◌, ◌^◌, ◌≡◌, refl, arith, ap, ◌∙◌, u64, ◌==◌, ◌||◌, if◌then◌else◌, Bool, true, false, [],
  ◌∷◌, min,
}
use ufprog.Common.{done}
use ufprog.SpiNor.Api.{SpiMem, Snor, Setup}
use ufprog.SpiNor.Regs.{set_speed, set_low_speed, read_reg_acc, read_reg_desc}
use ufprog.SpiNor.Control.{write_enable, write_disable, wait_busy, read_sr}
use ufprog.SpiNor.Data.Bytes.{bytes_at}
use ufprog.SpiNor.Data.Aai.{byte_program, word_program, aai_write}
use ufprog.SpiNor.Data.Aai.Sweep.{IsWordWise, aai_write_lem}
use ufprog.SpiNor.Data.Tests.{len_of, byte_of}
use ufprog.SpiNor.Tests.{register_spi, small_setup, small_snor}

-- A byte goes to the address of the operation or, without one, to that of the chip.
abbrev put : (here : Bool) (w : ℕ) → ℕ
put here w = if here then w + 1 else w

abbrev counting_spi : SpiMem ℕ
counting_spi = record register_spi {
  adjust_op_size = λ op w. (done (min (len_of op.payload) 1), w);
  exec_op = λ op w.
      if op.opcode == 2
      then (done [], put (op.addr == w) w)
      else if op.opcode == 0xad
      then (done [], put ((op.naddr == 0) || (op.addr == w)) w)
      else (done (0 ∷ []), w);
}

-- Without write enabling.
abbrev counting_setup : Setup ℕ
counting_setup = record small_setup { flags = 2 ^ 18 }

byte_put :
    (a : ℕ) (s : Snor ℕ)
    → (byte_program counting_spi counting_setup 0 a (byte_of a) s
        ≡ (done tt, record s { world = put (a == s.world) s.world }))
unfolding byte_program wait_busy read_sr set_low_speed read_reg_acc read_reg_desc
byte_put a s = refl

word_put_first :
    (a : ℕ) (s : Snor ℕ)
    → (word_program counting_spi counting_setup 0 a (byte_of a) (byte_of (a + 1)) true s ≡ (
      done tt,
      record s {
        world = put (u64 (a + 1) == put (a == s.world) s.world) (put (a == s.world) s.world);
      },
    ))
unfolding word_program wait_busy read_sr set_low_speed read_reg_acc read_reg_desc
word_put_first a s = refl

word_put_later :
    (a : ℕ) (s : Snor ℕ)
    → (word_program counting_spi counting_setup 0 a (byte_of a) (byte_of (a + 1)) false s
        ≡ (done tt, record s { world = s.world + 1 + 1 }))
unfolding word_program wait_busy read_sr set_low_speed read_reg_acc read_reg_desc
word_put_later a s = refl

idle : (s : Snor ℕ) → (wait_busy counting_spi counting_setup 0 1000 s ≡ (done tt, s))
unfolding wait_busy read_sr set_low_speed read_reg_acc read_reg_desc
idle s = refl

counting_chip :
    IsWordWise counting_spi counting_setup 0 byte_of (λ a s. s.world ≡ a) (λ a s. s.world ≡ a)
unfolding set_speed write_enable write_disable
counting_chip = record {
  fits_64 = omega arith;
  speeds = λ speed a s e. (refl, e);
  enabled = λ a s e. (refl, e);
  byte = λ a s below e.
      (ap (λ p. p.0) (byte_put a s), ap (λ p. p.1.world) (byte_put a s) ∙ ground (arith, e));
  first = λ a s even below e.
      let next : u64 (a + 1) ≡ a + 1 = omega (arith, below) in
      (
        ap (λ p. p.0) (word_put_first a s),
        ap (λ p. p.1.world) (word_put_first a s) ∙ ground (arith, e, next),
      );
  later = λ a s even below e. (
    ap (λ p. p.0) (word_put_later a s),
    ap (λ p. p.1.world) (word_put_later a s) ∙ omega (arith, e),
  );
  disabled = λ a s e. (refl, e);
  waits = λ a s e. (ap (λ p. p.0) (idle s), ap (λ p. p.1.world) (idle s) ∙ e);
}

-- Eight bytes from an odd address on.
aai_write_lem_example :
    ((aai_write counting_spi counting_setup 0 0x83 0x83 (bytes_at byte_of 0x84 7) small_snor).0
      ≡ done 8)
    × ((aai_write counting_spi counting_setup 0 0x83 0x83
          (bytes_at byte_of 0x84 7)
          small_snor).1.world
        ≡ 0x83 + 8)
aai_write_lem_example =
    aai_write_lem counting_spi counting_setup 0 byte_of (λ a s. s.world ≡ a) (λ a s. s.world ≡ a)
      counting_chip 0x83 7 small_snor (omega arith) refl

-- ===== src/SpiNor/Data/Aai.antt =====
-- flash/spi-nor/spi-nor.c: writing words with an address that the chip counts on (AAI). There is at
-- least one byte to write.
pub mod Sweep
pub mod Tests
use ufprog.Common.{
  ℕ, zero, suc, ◌+◌, ◌-◌, ◌*◌, ◌%◌, ◌^◌, u64, ◌==◌, ltb, if◌then◌else◌, not, Bool, true, false,
  Option, none, some, List, [], ◌∷◌, length, take, drop,
}
use ufprog.Common.{Call, Result, done, err, pure, and_then, ◌>>=◌, ◌>>◌, returning}
use ufprog.SpiNor.Api.{SpiMem, SpiOp, data_out, Snor, Setup}
use ufprog.SpiNor.Regs.{on_world, set_low_speed, set_high_speed}
use ufprog.SpiNor.Control.{write_enable, write_disable, wait_busy}
use ufprog.SpiNor.Data.{Running, ended_or, next_write}

-- `SNOR_PP_TIMEOUT_MS`
abbrev pub pp_timeout_ms : ℕ
pp_timeout_ms = 1000

module _ {W : Type 0} (spi : SpiMem W) (setup : Setup W) (left_over : ℕ) where
  -- An operation on one line, with `naddr` bytes of an address or none.
  one_line_op : (opcode naddr addr : ℕ) → List ℕ → SpiOp
  one_line_op opcode naddr addr bytes = record {
    opcode = opcode;
    cmd_bw = 1;
    naddr = naddr;
    addr = addr;
    addr_bw = if naddr == 0 then 0 else 1;
    ndummy = 0;
    dummy_bw = 0;
    payload = data_out bytes;
    data_bw = 1;
  }

  unfoldable pub byte_program : (addr x : ℕ) → Call (Snor W) (Unit {0})
  unfolding one_line_op
  byte_program addr x s =
      and_then (on_world (spi.exec_op (one_line_op 0x02 setup.naddr addr (x ∷ []))) s)
        (λ _. wait_busy spi setup left_over pp_timeout_ms)

  -- A round of the loop of `spi_nor_word_program`: `val` is the operation's address.
  word_round : (first : Bool) (val : ℕ) → List ℕ → Call (Snor W) ℕ
  unfolding one_line_op
  word_round first val bytes s =
      let op = one_line_op 0xad (if first then setup.naddr else 0) val in
      and_then (on_world (spi.adjust_op_size (op bytes)) s) (λ n.
        on_world (spi.exec_op (op (take n bytes))) >>= λ _.
        wait_busy spi setup left_over pp_timeout_ms >>= λ _. pure n)

  word_loop : (fuel : ℕ) (first : Bool) (addr val : ℕ) → List ℕ → Running W (Unit {0})
  unfolding word_round
  word_loop zero first addr val bytes s = (if length bytes == 0 then some (done tt) else none, s)
  word_loop (suc fuel) first addr val bytes s =
      if length bytes == 0
      then (some (done tt), s)
      else (let (r, s') = word_round first val bytes s in
          next_write r s' (λ n s.
            let rest = word_loop fuel first (u64 (addr + n)) (u64 (addr + n)) (drop n bytes) s in
            if ltb (length bytes) n then (none, s) else rest))

  unfoldable pub word_program : (addr x y : ℕ) (first : Bool) → Call (Snor W) (Unit {0})
  unfolding word_loop
  word_program addr x y first s =
      let (r, s') = word_loop 2 first addr (if first then addr else 0) (x ∷ y ∷ []) s in
      (ended_or r, s')

  -- `while (len >= 2)`: the bytes that are left over after the words, and their address.
  unfoldable pub words : (addr : ℕ) (first : Bool) → List ℕ → Call (Snor W) (ℕ × List ℕ)
  words addr first [] s = (done (addr, []), s)
  words addr first (x ∷ []) s = (done (addr, x ∷ []), s)
  words addr first (x ∷ y ∷ rest) s =
      and_then (word_program addr x y first s) (λ _. words (u64 (addr + 2)) false rest)

  -- The three parts of `spi_nor_aai_write`: a byte at an odd address, words, and a last byte.
  unfoldable pub odd_byte : (addr x : ℕ) (rest : List ℕ) → Call (Snor W) (ℕ × List ℕ)
  odd_byte addr x rest s =
      if addr % 2 == 0
      then (done (addr, x ∷ rest), s)
      else and_then (write_enable spi setup left_over s)
          (λ _. byte_program addr x >>= λ _. pure (u64 (addr + 1), rest))

  unfoldable pub all_words : (addr : ℕ) → List ℕ → Call (Snor W) (ℕ × List ℕ)
  unfolding words
  all_words addr [] s = (done (addr, []), s)
  all_words addr (x ∷ []) s = (done (addr, x ∷ []), s)
  all_words addr (x ∷ y ∷ rest) s = and_then (write_enable spi setup left_over s) (λ _.
      words addr true (x ∷ y ∷ rest) >>= λ left. write_disable spi setup left_over >>= λ _.
      wait_busy spi setup left_over pp_timeout_ms >>= λ _. pure left)

  unfoldable pub last_byte : (addr : ℕ) → List ℕ → Call (Snor W) (Unit {0})
  last_byte addr [] s = (done tt, s)
  last_byte addr (x ∷ _) s =
      and_then (write_enable spi setup left_over s) (λ _. byte_program addr x)

  -- The buffer is its first byte and the others.
  unfoldable pub aai_write : (addr x : ℕ) (rest : List ℕ) → Call (Snor W) ℕ
  unfolding odd_byte all_words last_byte
  aai_write addr x bytes s = and_then (set_high_speed spi setup s) (λ _ s1.
      let (r, s2) =
        (odd_byte addr x bytes >>= λ (addr, rest).
        all_words addr rest >>= λ (addr, rest). last_byte addr rest)
          s1 in
      and_then (returning r (set_low_speed spi setup s2)) (λ _. pure (suc (length bytes))))

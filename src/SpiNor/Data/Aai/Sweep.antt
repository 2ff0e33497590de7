-- ===== src/SpiNor/Data/Aai/Sweep.antt =====
-- What a write by words puts to a chip.
use native.Mathlib.Decide.{ℕ_discrete}
use ufprog.Common.{
  ℕ, zero, suc, ◌+◌, ◌%◌, ◌^◌, ◌≤◌, ◌<◌, ◌≡◌, ◌⊎◌, inl, inr, refl, arith, u64, ==_of_ne, Bool, true,
  false, List,
}
use ufprog.Common.{Result, done}
use ufprog.SpiNor.Api.{SpiMem, Snor, Setup}
use ufprog.SpiNor.Regs.{set_speed, set_low_speed, set_high_speed}
use ufprog.SpiNor.Control.{write_enable, write_disable, wait_busy}
use ufprog.SpiNor.Data.Bytes.{bytes_at, length-bytes_at}
use ufprog.SpiNor.Data.Aai.{
  byte_program, word_program, words, odd_byte, all_words, last_byte, aai_write, pp_timeout_ms,
}

-- What a chip promises that is written with the bytes of `src`: `Upto a s` says that they are there
-- up to address `a`, and `InWords a s` that the chip counts the address itself and has come to `a`.
-- Words begin at even addresses, the first with its address and the others without, and disabling
-- ends them.
pub record IsWordWise {W : Type 0} (spi : SpiMem W) (setup : Setup W) (left_over : ℕ) (src : ℕ → ℕ)
    (Upto InWords : ℕ → Snor W → Type 0) : Type 0 where
  pub fits_64 : setup.size < 2 ^ 64
  pub speeds :
      (speed a : ℕ) (s : Snor W)
      → Upto a s
      → ((set_speed spi setup speed s).0 ≡ done tt) × Upto a (set_speed spi setup speed s).1
  pub enabled :
      (a : ℕ) (s : Snor W)
      → Upto a s
      → ((write_enable spi setup left_over s).0 ≡ done tt)
        × Upto a (write_enable spi setup left_over s).1
  pub byte :
      (a : ℕ) (s : Snor W)
      → a < setup.size
      → Upto a s
      → ((byte_program spi setup left_over a (src a) s).0 ≡ done tt)
        × Upto (a + 1) (byte_program spi setup left_over a (src a) s).1
  pub first :
      (a : ℕ) (s : Snor W)
      → a % 2 ≡ 0
      → a + 2 ≤ setup.size
      → Upto a s
      → let call = word_program spi setup left_over a (src a) (src (a + 1)) true s in
        (call.0 ≡ done tt) × InWords (a + 2) call.1
  pub later :
      (a : ℕ) (s : Snor W)
      → a % 2 ≡ 0
      → a + 2 ≤ setup.size
      → InWords a s
      → let call = word_program spi setup left_over a (src a) (src (a + 1)) false s in
        (call.0 ≡ done tt) × InWords (a + 2) call.1
  pub disabled :
      (a : ℕ) (s : Snor W)
      → InWords a s
      → ((write_disable spi setup left_over s).0 ≡ done tt)
        × Upto a (write_disable spi setup left_over s).1
  pub waits :
      (a : ℕ) (s : Snor W)
      → Upto a s
      → ((wait_busy spi setup left_over pp_timeout_ms s).0 ≡ done tt)
        × Upto a (wait_busy spi setup left_over pp_timeout_ms s).1

module _ {W : Type 0} (spi : SpiMem W) (setup : Setup W) (left_over : ℕ) (src : ℕ → ℕ)
    (Upto InWords : ℕ → Snor W → Type 0)
    (chip : IsWordWise spi setup left_over src Upto InWords) where
  -- A part of the write leaves the bytes from an address on, up to the same end.
  Remains :
      (Done : ℕ → Snor W → Type 0) (Rest : ℕ → ℕ → Type 0) (end : ℕ)
      → Result (ℕ × List ℕ) × Snor W
      → Type 0
  Remains Done Rest end p =
      (a : ℕ) × (m : ℕ) × (s' : Snor W) × (p ≡ (done (a, bytes_at src a m), s'))
      × (a + m ≡ end)
      × Rest a m
      × Done a s'

  AtMostOne : ℕ → ℕ → Type 0
  AtMostOne a m = m ≤ 1

  Even : ℕ → ℕ → Type 0
  Even a m = (a % 2 ≡ 0) ⊎ (m ≡ 0)

  -- The loop after a word.
  word_on :
      (m a : ℕ) (first : Bool) (s : Snor W) (p : Result (ℕ × List ℕ) × Snor W)
      → a + 2 ≤ setup.size
      → (word_program spi setup left_over a (src a) (src (a + 1)) first s).0 ≡ done tt
      → (words spi setup left_over
            (a + 2)
            false
            (bytes_at src (a + 2) m)
            (word_program spi setup left_over a (src a) (src (a + 1)) first s).1
          ≡ p)
      → (words spi setup left_over a first (bytes_at src a (suc (suc m))) s ≡ p)
  unfolding words
  word_on m a first s p below wrote rest =
      let fits = chip.fits_64 in
      let next : u64 (a + 2) ≡ a + 2 = omega (arith, fits, below) in
      let two : a + 1 + 1 ≡ a + 2 = omega arith in rw (wrote, next, two) rest

  words_left :
      (m a : ℕ) (s : Snor W)
      → a % 2 ≡ 0
      → a + m ≤ setup.size
      → InWords a s
      → Remains InWords AtMostOne (a + m) (words spi setup left_over a false (bytes_at src a m) s)
  unfolding words Remains AtMostOne
  words_left zero a s even below here = (a, 0, s, refl, refl, omega arith, here)
  words_left (suc zero) a s even below here = (a, 1, s, refl, refl, omega arith, here)
  words_left (suc (suc m)) a s even below here =
      let (wrote, on) = chip.later a s even (omega (arith, below)) here in
      let s1 = (word_program spi setup left_over a (src a) (src (a + 1)) false s).1 in
      let (a', m', s', ran, whole, few, there) =
        words_left m (a + 2) s1 (omega (arith, even)) (omega (arith, below)) on in
      (
        a',
        m',
        s',
        word_on m a false s _ (omega (arith, below)) wrote ran,
        omega (arith, whole),
        few,
        there,
      )

  words_first :
      (m a : ℕ) (s : Snor W)
      → a % 2 ≡ 0
      → a + suc (suc m) ≤ setup.size
      → Upto a s
      → Remains InWords AtMostOne
          (a + suc (suc m))
          (words spi setup left_over a true (bytes_at src a (suc (suc m))) s)
  unfolding Remains AtMostOne
  words_first m a s even below here =
      let (wrote, on) = chip.first a s even (omega (arith, below)) here in
      let s1 = (word_program spi setup left_over a (src a) (src (a + 1)) true s).1 in
      let (a', m', s', ran, whole, few, there) =
        words_left m (a + 2) s1 (omega (arith, even)) (omega (arith, below)) on in
      (
        a',
        m',
        s',
        word_on m a true s _ (omega (arith, below)) wrote ran,
        omega (arith, whole),
        few,
        there,
      )

  odd_byte_left :
      (m a : ℕ) (s : Snor W)
      → a + suc m ≤ setup.size
      → Upto a s
      → Remains Upto Even
          (a + suc m)
          (odd_byte spi setup left_over a (src a) (bytes_at src (a + 1) m) s)
  unfolding odd_byte Remains Even
  odd_byte_left m a s below here = elim (ℕ_discrete (a % 2) 0) [
    | yes even ↦ (a, suc m, s, rw even refl, refl, inl even, here)
    | no odd ↦
        let (en, u1) = chip.enabled a s here in
        let s1 = (write_enable spi setup left_over s).1 in
        let (wrote, u2) = chip.byte a s1 (omega (arith, below)) u1 in
        let fits = chip.fits_64 in
        let next : u64 (a + 1) ≡ a + 1 = omega (arith, fits, below) in
        (
          a + 1,
          m,
          (byte_program spi setup left_over a (src a) s1).1,
          rw (==_of_ne (a % 2) 0 odd, en, wrote, next) refl,
          omega arith,
          inl (omega (arith, odd)),
          u2,
        )
  ]

  all_words_left :
      (m a : ℕ) (s : Snor W)
      → Even a m
      → a + m ≤ setup.size
      → Upto a s
      → Remains Upto AtMostOne (a + m) (all_words spi setup left_over a (bytes_at src a m) s)
  unfolding all_words Remains Even AtMostOne
  all_words_left zero a s even below here = (a, 0, s, refl, refl, omega arith, here)
  all_words_left (suc zero) a s even below here = (a, 1, s, refl, refl, omega arith, here)
  all_words_left (suc (suc m)) a s (inr none_left) below here = absurd (omega (arith, none_left))
  all_words_left (suc (suc m)) a s (inl even) below here =
      let (en, u1) = chip.enabled a s here in
      let s1 = (write_enable spi setup left_over s).1 in
      let (a', m', s2, ran, whole, few, on) = words_first m a s1 even below u1 in
      let (dis, u3) = chip.disabled a' s2 on in
      let s3 = (write_disable spi setup left_over s2).1 in
      let (idle, u4) = chip.waits a' s3 u3 in
      (
        a',
        m',
        (wait_busy spi setup left_over pp_timeout_ms s3).1,
        rw (en, ran, dis, idle) refl,
        whole,
        few,
        u4,
      )

  LastEnds : (a m : ℕ) → Snor W → Type 0
  LastEnds a m s =
      (s' : Snor W) × (last_byte spi setup left_over a (bytes_at src a m) s ≡ (done tt, s'))
      × Upto (a + m) s'

  last_byte_ends :
      (m a : ℕ) (s : Snor W) → AtMostOne a m → a + m ≤ setup.size → Upto a s → LastEnds a m s
  unfolding last_byte LastEnds AtMostOne
  last_byte_ends zero a s few below here = let e : a + 0 ≡ a = omega arith in (s, refl, rw e here)
  last_byte_ends (suc zero) a s few below here =
      let (en, u1) = chip.enabled a s here in
      let s1 = (write_enable spi setup left_over s).1 in
      let (wrote, u2) = chip.byte a s1 (omega (arith, below)) u1 in
      ((byte_program spi setup left_over a (src a) s1).1, rw (en, wrote) refl, u2)
  last_byte_ends (suc (suc m)) a s few below here = absurd (omega (arith, few))

  -- On a chip that is written word by word, a write of at least one byte inside of it returns `UFP_OK`
  -- with the number of the bytes, and has put each to its address: first a single byte if the address is odd, then words at
  -- even addresses, then a single byte if one is left.
  pub aai_write_lem :
      (addr n : ℕ) (s : Snor W)
      → addr + suc n ≤ setup.size
      → Upto addr s
      → let call = aai_write spi setup left_over addr (src addr) (bytes_at src (addr + 1) n) s in
        (call.0 ≡ done (suc n)) × Upto (addr + suc n) call.1
  unfolding aai_write Remains LastEnds set_high_speed set_low_speed
  aai_write_lem addr n s below here =
      let (fast, u1) = chip.speeds setup.speed_high addr s here in
      let s1 = (set_high_speed spi setup s).1 in
      let (a2, m2, s2, odd, whole2, even, u2) = odd_byte_left n addr s1 below u1 in
      let (a3, m3, s3, mid, whole3, few, u3) =
        all_words_left m2 a2 s2 even (omega (arith, whole2, below)) u2 in
      let (s4, last, u4) = last_byte_ends m3 a3 s3 few (omega (arith, whole2, whole3, below)) u3 in
      let (slow, u5) = chip.speeds setup.speed_low (a3 + m3) s4 u4 in
      let end : addr + suc n ≡ a3 + m3 = omega (arith, whole2, whole3) in
      (
        rw (fast, odd, mid, last, slow, length-bytes_at src (addr + 1) n) refl,
        rw (end, fast, odd, mid, last, slow) u5,
      )

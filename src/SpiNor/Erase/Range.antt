-- ===== src/SpiNor/Erase/Range.antt =====
-- The range that an erase covers, on a chip with one region of a block size `2 ^ k`.
use native.Mathlib.Nat.{
  one-le-pow, mod-lt, div-add-mod', mul-mod_left, div-lt_iff_lt-mul, mul-le-mul_right,
  pow-le-pow_right,
}
use ufprog.Common.{
  ℕ, ◌+◌, ◌-◌, ◌*◌, ◌/◌, ◌%◌, ◌^◌, ◌≤◌, ◌<◌, ◌≡◌, refl, arith, ap, ◌∙◌, bit_and_mask, u64,
  leb_of_gt, ==_of_ne, done,
}
use ufprog.Bitops.Power.{is_power_of_2-pow}
use ufprog.SpiNor.Api.{SpiMem, Setup, EraseRegion, EraseSectorInfo}
use ufprog.SpiNor.Erase.{round_end, range_in, get_erase_range, get_erase_region_at}
use ufprog.SpiNor.Erase.Plan.{IsUniform, round_down_blocks}

-- Aligned bounds around `[addr, addr + len)`, by less than a block on each side.
pub record IsRange (k chip_size addr len start end : ℕ) : Type 0 where
  pub start_aligned : start % 2 ^ k ≡ 0
  pub end_aligned : end % 2 ^ k ≡ 0
  pub below : start ≤ addr
  pub above : addr + len ≤ end
  pub near_start : addr < start + 2 ^ k
  pub near_end : end < addr + len + 2 ^ k
  pub on_chip : end ≤ chip_size

module _ (k : ℕ) where
  size_pos : 1 ≤ 2 ^ k
  size_pos = one-le-pow k 2 (omega arith)

  as_blocks : (x : ℕ) → x - x % 2 ^ k ≡ x / 2 ^ k * 2 ^ k
  as_blocks x = omega (arith, div-add-mod' x (2 ^ k))

  down_aligned : (x : ℕ) → (x - x % 2 ^ k) % 2 ^ k ≡ 0
  down_aligned x = ap (λ (t : ℕ). t % 2 ^ k) (as_blocks x) ∙ mul-mod_left (x / 2 ^ k) (2 ^ k)

  -- Rounding up stays below an aligned limit.
  up-le : (x limit : ℕ) → limit % 2 ^ k ≡ 0 → x < limit + 2 ^ k → x - x % 2 ^ k ≤ limit
  up-le x limit h lt =
      let few : x / 2 ^ k < limit / 2 ^ k + 1 =
        (div-lt_iff_lt-mul size_pos).1
          (omega (arith, lt, h, div-add-mod' limit (2 ^ k), one_more (limit / 2 ^ k))) in
      omega
        (arith, as_blocks x, mul-le-mul_right (2 ^ k) (le_of few), div-add-mod' limit (2 ^ k), h)
    where
      one_more : (q : ℕ) → (q + 1) * 2 ^ k ≡ q * 2 ^ k + 2 ^ k
      one_more q = omega arith

      le_of : {a b : ℕ} → a < b + 1 → a ≤ b
      le_of l = omega (arith, l)

module _ {W : Type 0} (spi : SpiMem W) (setup : Setup W) (left_over : ℕ)
    (Supported : EraseSectorInfo → Type 0) (erg : EraseRegion) (k : ℕ)
    (uniform : IsUniform setup Supported erg k) where
  block_le : 2 ^ k ≤ 2 ^ 32
  block_le = pow-le-pow_right {n = 2} (omega arith) {i = k} {j = 32} (omega (arith, uniform.few))

  round_end_blocks :
      (a : ℕ) → a ≤ setup.size → round_end erg 0 a ≡ a + 2 ^ k - 1 - (a + 2 ^ k - 1) % 2 ^ k
  unfolding round_end
  round_end_blocks a h =
      let no_wrap : u64 (a + 2 ^ k - 1) ≡ a + 2 ^ k - 1 =
        omega (arith, h, uniform.fits_64, block_le) in
      rw (uniform.smallest, is_power_of_2-pow k, no_wrap)
        (ap (λ (t : ℕ). a + 2 ^ k - 1 - t) (bit_and_mask k (a + 2 ^ k - 1)))

  -- The range of an erase within the chip is the smallest one of whole blocks around it.
  pub get_erase_range-IsRange :
      (addr len : ℕ)
      → 1 ≤ len
      → addr + len ≤ setup.size
      → (start : ℕ) × (end : ℕ) × (get_erase_range setup.size setup.erase_regions addr len
          ≡ done (start, end))
        × IsRange k setup.size addr len start end
  unfolding get_erase_range get_erase_region_at range_in
  get_erase_range-IsRange addr len pos inside =
      let some_block : 1 ≤ 2 ^ k = size_pos k in
      let x : ℕ = addr + len + 2 ^ k - 1 in
      let no_wrap : u64 (addr + len) ≡ addr + len = omega (arith, inside, uniform.fits_64) in
      (
        addr - addr % 2 ^ k,
        x - x % 2 ^ k,
        rw
            (
              uniform.regions,
              ==_of_ne len 0 (λ z. omega (arith, pos, z)),
              leb_of_gt setup.size addr (omega (arith, pos, inside)),
              no_wrap,
              round_down_blocks spi setup left_over Supported erg k uniform addr,
              round_end_blocks (addr + len) inside,
            )
            refl,
        record {
          start_aligned = down_aligned k addr;
          end_aligned = down_aligned k x;
          below = omega arith;
          above = omega (arith, mod-lt x some_block, some_block);
          near_start = omega (arith, mod-lt addr some_block);
          near_end = omega (arith, some_block);
          on_chip = up-le k x setup.size uniform.blocks (omega (arith, inside, some_block, pos));
        },
      )

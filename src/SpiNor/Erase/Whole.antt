-- ===== src/SpiNor/Erase/Whole.antt =====
-- `ufprog_spi_nor_erase` as a whole, on a chip with one region of a block size `2 ^ k`.
use ufprog.Common.{
  ℕ, ◌+◌, ◌-◌, ◌%◌, ◌≤◌, ◌≡◌, refl, arith, ap, sym, ◌∙◌, u64, leb_of_gt, ltb_of_ge, ==_of_ne, ◌==◌,
  Bool-cases, inl, inr, done,
}
use native.Mathlib.Decide.{ℕ_discrete}
use ufprog.SpiNor.Api.{SpiMem, Snor, Setup, EraseRegion, EraseSectorInfo}
use ufprog.SpiNor.Regs.{bus_lock, bus_unlock}
use ufprog.SpiNor.Erase.{erase_block, erase_loop, erase, erase_result, get_erase_range, LoopEnd}
use ufprog.SpiNor.Erase.Plan.{IsUniform}
use ufprog.SpiNor.Erase.Range.{IsRange, get_erase_range-IsRange}
use ufprog.SpiNor.Erase.Sweep.{erase_loop-keeps, erase_loop-covers}

module _ {W : Type 0} (spi : SpiMem W) (setup : Setup W) (left_over : ℕ)
    (Supported : EraseSectorInfo → Type 0) (erg : EraseRegion) (k : ℕ)
    (uniform : IsUniform setup Supported erg k) (addr len : ℕ) (pos : 1 ≤ len)
    (inside : addr + len ≤ setup.size) where
  result_state :
      (end : ℕ) (l : LoopEnd spi setup left_over)
      → (erase_result spi setup left_over end l).1 ≡ bus_unlock spi setup l.state
  unfolding erase_result
  result_state end l = elim (Bool-cases (l.start == end)) [
    | inl whole ↦ rw whole refl
    | inr short ↦ rw short refl
  ]

  result_done :
      (end : ℕ) (l : LoopEnd spi setup left_over)
      → (erase_result spi setup left_over end l).0 ≡ done tt
      → l.start ≡ end
  unfolding erase_result
  result_done end l h = elim (ℕ_discrete l.start end) [
    | yes e ↦ e
    | no short ↦ absurd (cc (rw (==_of_ne l.start end short) at h))
  ]

  erase_runs :
      (start end : ℕ) (s : Snor W)
      → get_erase_range setup.size setup.erase_regions addr len ≡ done (start, end)
      → erase spi setup left_over addr len s
        ≡ erase_result spi setup left_over end
            (erase_loop spi setup left_over (end - start) start end (bus_lock spi setup s))
  unfolding erase
  erase_runs start end s range =
      let no_wrap : u64 (addr + len) ≡ addr + len = omega (arith, inside, uniform.fits_64) in
      rw
        (
          ==_of_ne setup.size 0 (λ z. omega (arith, z, uniform.not_empty)),
          leb_of_gt setup.size addr (omega (arith, pos, inside)),
          no_wrap,
          ltb_of_ge setup.size (addr + len) inside,
          range,
        )
        refl

  module _ (Safe : Snor W → Type 0) (locks : (s : Snor W) → Safe s → Safe (bus_lock spi setup s))
      (unlocks : (s : Snor W) → Safe s → Safe (bus_unlock spi setup s))
      (keep : (start end a : ℕ) (ei : EraseSectorInfo) (s : Snor W)
        → IsRange k setup.size addr len start end
        → start ≤ a
        → a + ei.size ≤ end
        → a % ei.size ≡ 0
        → Supported ei
        → Safe s
        → Safe (erase_block spi setup left_over a ei s).1) where
    -- Whatever holds before an erase within the chip, and is kept by the erasing of the aligned
    -- blocks that lie in the smallest range of whole blocks around it, holds after it: no other block
    -- is erased, also when a call fails.
    pub erase-keeps : (s : Snor W) → Safe s → Safe (erase spi setup left_over addr len s).1
    erase-keeps s safe =
        let (start, end, range, is_range) =
          get_erase_range-IsRange spi setup left_over Supported erg k uniform addr len pos inside in
        let swept =
          erase_loop-keeps spi setup left_over Supported erg k uniform end is_range.end_aligned
            is_range.on_chip start Safe (λ a ei s. keep start end a ei s is_range) (end - start)
            start (bus_lock spi setup s) is_range.start_aligned (omega arith) (locks s safe) in
        rw (erase_runs start end s range, result_state end _) (unlocks _ swept)

  module _ (Erased : ℕ → Snor W → Type 0)
      (locks : (a : ℕ) (s : Snor W) → Erased a s → Erased a (bus_lock spi setup s))
      (unlocks : (a : ℕ) (s : Snor W) → Erased a s → Erased a (bus_unlock spi setup s))
      (advance : (a : ℕ) (ei : EraseSectorInfo) (s : Snor W)
        → a + ei.size ≤ setup.size
        → a % ei.size ≡ 0
        → Supported ei
        → Erased a s
        → (erase_block spi setup left_over a ei s).0 ≡ done tt
        → Erased (a + ei.size) (erase_block spi setup left_over a ei s).1) where
    -- If erasing an aligned block extends what is erased to the block's end, then an erase within the
    -- chip that succeeds has erased the smallest range of whole blocks around it.
    pub erase-covers :
        (s : Snor W)
        → ((start end : ℕ) → IsRange k setup.size addr len start end → Erased start s)
        → (erase spi setup left_over addr len s).0 ≡ done tt
        → (start : ℕ) × (end : ℕ) × IsRange k setup.size addr len start end
          × Erased end (erase spi setup left_over addr len s).1
    erase-covers s begin h =
        let (start, end, range, is_range) =
          get_erase_range-IsRange spi setup left_over Supported erg k uniform addr len pos inside in
        let loop = erase_loop spi setup left_over (end - start) start end (bus_lock spi setup s) in
        let whole : loop.start ≡ end =
          result_done end loop (ap (λ p. p.0) (sym (erase_runs start end s range)) ∙ h) in
        let swept =
          erase_loop-covers spi setup left_over Supported erg k uniform end is_range.end_aligned
            is_range.on_chip start Erased
            (λ a ei s _ top. advance a ei s (omega (arith, top, is_range.on_chip))) (end - start)
            start (bus_lock spi setup s) is_range.start_aligned (omega arith)
            (locks start s (begin start end is_range)) whole in
        (
          start,
          end,
          is_range,
          rw (erase_runs start end s range, result_state end loop) (unlocks end _ swept),
        )

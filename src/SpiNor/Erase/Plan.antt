-- ===== src/SpiNor/Erase/Plan.antt =====
-- What `spi_nor_erase_at` erases, on a chip with one erase region whose smallest block is a power of
-- two.
use ufprog.Common.{
  ℕ, ◌+◌, ◌-◌, ◌%◌, ◌^◌, ◌≤◌, ◌<◌, ◌≡◌, refl, arith, ap, sym, ◌∙◌, bit_and, bit_and_mask, u64, ◌==◌,
  ==_iff, leb, leb→le, ltb_of_ge, ◌&&◌, both, if_true, if_false, if◌then◌else◌, Bool, true,
  Bool-cases, inl, inr, Option, none, some, List, [], ◌∷◌,
}
use mathlib.Core.Option.{some_inj}
use ufprog.Bitops.{is_power_of_2}
use ufprog.Bitops.Power.{is_power_of_2-pow, is_power_of_2_iff}
use ufprog.SpiNor.Api.{SpiMem, Snor, Setup, EraseRegion, EraseSectorInfo}
use ufprog.SpiNor.Regs.{has}
use ufprog.SpiNor.Erase.{
  round_down, get_erase_region_at, fits, better, choose, erase_chosen, erase_at, erasesize_of,
}

-- The sizes that the region's mask selects, from entry `i` on: multiples of its smallest block, and
-- no larger than the region. What `Supported` says of them is left to the chip.
abbrev pub AreBlocks :
    (Supported : EraseSectorInfo → Type 0) (erg : EraseRegion) (k : ℕ)
    → List EraseSectorInfo
    → (i : ℕ) → Type 0
AreBlocks Supported erg k [] i = Unit {0}
AreBlocks Supported erg k (ei ∷ eis) i =
    (has erg.erasesizes_mask (2 ^ i) ≡ true
      → (1 ≤ ei.size) × (ei.size % 2 ^ k ≡ 0) × (ei.size ≤ erg.size) × Supported ei)
    × AreBlocks Supported erg k eis (i + 1)

-- A chip of a uniform block size `2 ^ k`.
pub record IsUniform {W : Type 0} (setup : Setup W) (Supported : EraseSectorInfo → Type 0)
    (erg : EraseRegion) (k : ℕ) : Type 0 where
  pub regions : setup.erase_regions ≡ erg ∷ []
  pub smallest : erg.min_erasesize ≡ 2 ^ k
  pub whole : erg.size ≡ setup.size
  pub not_empty : 1 ≤ setup.size
  pub fits_64 : setup.size < 2 ^ 63
  pub few : k < 32
  pub blocks : setup.size % 2 ^ k ≡ 0
  pub sizes : AreBlocks Supported erg k setup.erase_info 0

-- An entry that `choose` takes is selected by the mask, and fits; its blocks begin at `start`.
pub record IsChosen (Supported : EraseSectorInfo → Type 0) (erg : EraseRegion) (k start room : ℕ)
    (ei : EraseSectorInfo) : Type 0 where
  pub not_none : 1 ≤ ei.size
  pub is_blocks : ei.size % 2 ^ k ≡ 0
  pub supported : Supported ei
  pub in_room : ei.size ≤ room
  pub aligned : start % ei.size ≡ 0

aligned_at :
    (start size : ℕ)
    → (if is_power_of_2 size then bit_and start (size - 1) == 0 else (start - 0) % size == 0) ≡ true
    → start % size ≡ 0
aligned_at start size h = elim (Bool-cases (is_power_of_2 size)) [
  | inl power ↦
      let (j, e) = (is_power_of_2_iff size).0 power in
      let zero_bits : bit_and start (size - 1) ≡ 0 =
        (==_iff (bit_and start (size - 1)) 0).0 (sym (if_true _ _ power) ∙ h) in
      ap (λ (t : ℕ). start % t) e
      ∙ sym (bit_and_mask j start)
      ∙ ap (λ (t : ℕ). bit_and start (t - 1)) (sym e)
      ∙ zero_bits
  | inr other ↦
      let no_base : start - 0 ≡ start = omega arith in
      ap (λ (t : ℕ). t % size) (sym no_base)
      ∙ (==_iff ((start - 0) % size) 0).0 (sym (if_false _ _ other) ∙ h)
]

fits-IsChosen :
    (Supported : EraseSectorInfo → Type 0) (erg : EraseRegion) (k start room : ℕ)
    (ei : EraseSectorInfo)
    → (1 ≤ ei.size) × (ei.size % 2 ^ k ≡ 0) × (ei.size ≤ erg.size) × Supported ei
    → fits erg 0 start room ei ≡ true
    → IsChosen Supported erg k start room ei
unfolding fits
fits-IsChosen Supported erg k start room ei (pos, blocks, small, known) h =
    let same : erasesize_of erg ei ≡ ei.size = rw (ltb_of_ge erg.size ei.size small) refl in
    let e : ℕ = erasesize_of erg ei in
    let tests =
      both (if is_power_of_2 e then bit_and start (e - 1) == 0 else (start - 0) % e == 0)
        (leb e room) h in
    record {
      not_none = pos;
      is_blocks = blocks;
      supported = known;
      in_room = leb→le ei.size room (rw same at (tests.1));
      aligned = aligned_at start ei.size (rw same at (tests.0));
    }

pub choose-IsChosen :
    (Supported : EraseSectorInfo → Type 0) (erg : EraseRegion) (k start room : ℕ)
    (eis : List EraseSectorInfo) (i : ℕ) (best : Option EraseSectorInfo) {ei : EraseSectorInfo}
    → AreBlocks Supported erg k eis i
    → ((b : EraseSectorInfo) → best ≡ some b → IsChosen Supported erg k start room b)
    → choose erg 0 start room eis i best ≡ some ei
    → IsChosen Supported erg k start room ei
unfolding choose
choose-IsChosen Supported erg k start room [] i best blocks had h = had _ h
choose-IsChosen Supported erg k start room (x ∷ eis) i best {ei} blocks had h =
    let test : Bool =
      has erg.erasesizes_mask (2 ^ i) && fits erg 0 start room x && better erg x best in
    choose-IsChosen Supported erg k start room eis (i + 1) (if test then some x else best) blocks.1
      (λ b e. elim (Bool-cases test) [
        | inl taken ↦
            let (front, _) = both _ _ taken in
            let (selected, fit) = both _ _ front in
            let it : x ≡ b = some_inj.0 (sym (if_true _ _ taken) ∙ e) in
            rw (← it) (fits-IsChosen Supported erg k start room x (blocks.0 selected) fit)
        | inr left ↦ had b (sym (if_false _ _ left) ∙ e)
      ])
      h

module _ {W : Type 0} (spi : SpiMem W) (setup : Setup W) (left_over : ℕ)
    (Supported : EraseSectorInfo → Type 0) (erg : EraseRegion) (k : ℕ)
    (uniform : IsUniform setup Supported erg k) where
  pub round_down_blocks : (addr : ℕ) → round_down erg 0 addr ≡ addr - addr % 2 ^ k
  unfolding round_down
  round_down_blocks addr =
      rw (uniform.smallest, is_power_of_2-pow k) (ap (λ (t : ℕ). addr - t) (bit_and_mask k addr))

  round_down_aligned : (addr : ℕ) → addr % 2 ^ k ≡ 0 → round_down erg 0 addr ≡ addr
  round_down_aligned addr h = round_down_blocks addr ∙ omega (arith, h)

  -- From an aligned address to an aligned end within the chip nothing is rounded.
  pub erase_at_aligned :
      (start end : ℕ) (s : Snor W)
      → start % 2 ^ k ≡ 0
      → end % 2 ^ k ≡ 0
      → start < end
      → end ≤ setup.size
      → erase_at spi setup left_over start (end - start) s
        ≡ erase_chosen spi setup left_over start
            (end - start)
            (choose erg 0 start (end - start) setup.erase_info 0 none)
            s
  unfolding erase_at get_erase_region_at
  erase_at_aligned start end s hs he lt top =
      let to_end : u64 (start + (end - start)) ≡ end = omega (arith, lt, top, uniform.fits_64) in
      let region_end : u64 (0 + erg.size) ≡ setup.size =
        omega (arith, uniform.whole, uniform.fits_64) in
      let room : u64 (end + (2 ^ 64 - start)) ≡ end - start =
        omega (arith, lt, top, uniform.fits_64) in
      rw
        (
          uniform.regions,
          round_down_aligned start hs,
          to_end,
          round_down_aligned end he,
          region_end,
          ltb_of_ge setup.size end top,
          room,
        )
        refl

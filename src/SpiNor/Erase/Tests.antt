-- ===== src/SpiNor/Erase/Tests.antt =====
-- A chip of 256 KB with blocks of 4 KB and 64 KB, whose world is the address up to which it is
-- erased: a block extends that if it begins there.
use ufprog.Common.{
  ℕ, ◌+◌, ◌^◌, ◌≤◌, ◌≡◌, ◌⊎◌, inl, inr, refl, arith, ap, sym, ◌∙◌, ◌==◌, if◌then◌else◌, [], ◌∷◌,
  done,
}
use ufprog.Bitops.{is_power_of_2}
use ufprog.SpiNor.Api.{SpiMem, Snor, Setup, EraseRegion, EraseSectorInfo}
use ufprog.SpiNor.Tests.{register_spi, small_setup, small_snor}
use ufprog.SpiNor.Regs.{set_low_speed, read_reg_acc, read_reg_desc}
use ufprog.SpiNor.Control.{setup_addr, data_write_enable, wait_busy, read_sr}
use ufprog.SpiNor.Erase.{erase_block, erase}
use ufprog.SpiNor.Erase.Sizes.{gen_erase_info, fill_erase_region_erasesizes}
use ufprog.SpiNor.Erase.Plan.{IsUniform}
use ufprog.SpiNor.Erase.Range.{IsRange}
use ufprog.SpiNor.Erase.Whole.{erase-keeps, erase-covers}

abbrev block_4k : EraseSectorInfo
block_4k = record { opcode = 0x20; size = 4096; max_erase_time_ms = 1 }

abbrev block_64k : EraseSectorInfo
block_64k = record { opcode = 0xd8; size = 65536; max_erase_time_ms = 1 }

abbrev extend : (addr size w : ℕ) → ℕ
extend addr size w = if addr == w then w + size else w

abbrev erasing_spi : SpiMem ℕ
erasing_spi = record register_spi {
  exec_op = λ op w.
      if op.opcode == 0x20
      then (done [], extend op.addr 4096 w)
      else if op.opcode == 0xd8
      then (done [], extend op.addr 65536 w)
      else (done (0 ∷ []), w);
}

abbrev whole_region : EraseRegion
whole_region = record {
  size = 2 ^ 18;
  min_erasesize = 4096;
  max_erasesize = 65536;
  erasesizes_mask = 3;
}

abbrev erasing_setup : Setup ℕ
erasing_setup = record small_setup {
  flags = 2 ^ 18;
  size = 2 ^ 18;
  erase_info = block_64k ∷ block_4k ∷ [];
  erase_regions = whole_region ∷ [];
}

sizes_filled :
    fill_erase_region_erasesizes
      (block_64k ∷ block_4k ∷ [])
      (record whole_region { min_erasesize = 0; max_erasesize = 0 })
      (2 ^ 18)
    ≡ whole_region
unfolding fill_erase_region_erasesizes
sizes_filled = refl

-- A part with sectors of 4 KB and 256 KB.
sizes_chosen :
    gen_erase_info 36 (block_4k ∷ block_64k ∷ [])
    ≡ block_4k ∷ record block_64k { size = 2 ^ 18 } ∷ []
unfolding gen_erase_info
sizes_chosen = refl

abbrev IsBlock : EraseSectorInfo → Type 0
IsBlock ei = (ei ≡ block_64k) ⊎ (ei ≡ block_4k)

is_uniform : IsUniform erasing_setup IsBlock whole_region 12
is_uniform = record {
  regions = refl;
  smallest = refl;
  whole = refl;
  not_empty = omega arith;
  fits_64 = omega arith;
  few = omega arith;
  blocks = refl;
  sizes = (
    λ e. (omega arith, refl, omega arith, inl refl),
    (λ e. (omega arith, refl, omega arith, inr refl), tt),
  );
}

erased_4k :
    (a : ℕ) (s : Snor ℕ)
    → erase_block erasing_spi erasing_setup 0 a block_4k s
      ≡ (done tt, record s { world = extend a 4096 s.world })
unfolding erase_block set_low_speed setup_addr data_write_enable wait_busy read_sr read_reg_acc
    read_reg_desc
erased_4k a s = refl

erased_64k :
    (a : ℕ) (s : Snor ℕ)
    → erase_block erasing_spi erasing_setup 0 a block_64k s
      ≡ (done tt, record s { world = extend a 65536 s.world })
unfolding erase_block set_low_speed setup_addr data_write_enable wait_busy read_sr read_reg_acc
    read_reg_desc
erased_64k a s = refl

erased_block :
    (a : ℕ) (ei : EraseSectorInfo) (s : Snor ℕ)
    → IsBlock ei
    → erase_block erasing_spi erasing_setup 0 a ei s
      ≡ (done tt, record s { world = extend a ei.size s.world })
erased_block a ei s (inl e) =
    ap (λ b. erase_block erasing_spi erasing_setup 0 a b s) e
    ∙ erased_64k a s
    ∙ ap (λ (n : ℕ). (done tt, record s { world = extend a n s.world })) (sym (ap (λ b. b.size) e))
erased_block a ei s (inr e) =
    ap (λ b. erase_block erasing_spi erasing_setup 0 a b s) e
    ∙ erased_4k a s
    ∙ ap (λ (n : ℕ). (done tt, record s { world = extend a n s.world })) (sym (ap (λ b. b.size) e))

-- 60000 bytes from 70000 on, in blocks from 69632 up to 131072.
not_yet : Snor ℕ
not_yet = record small_snor { world = 69632 }

erased_all : (erase erasing_spi erasing_setup 0 70000 60000 not_yet).0 ≡ done tt
unfolding erase erase_block set_low_speed setup_addr data_write_enable wait_busy read_sr
    read_reg_acc read_reg_desc not_yet is_power_of_2
erased_all = refl

reaches :
    (a : ℕ) (ei : EraseSectorInfo) (s : Snor ℕ)
    → IsBlock ei
    → s.world ≡ a
    → (erase_block erasing_spi erasing_setup 0 a ei s).1.world ≡ a + ei.size
reaches a ei s known here = ap (λ p. p.1.world) (erased_block a ei s known) ∙ ground (arith, here)

erase-covers_example :
    (start : ℕ) × (end : ℕ) × IsRange 12 (2 ^ 18) 70000 60000 start end
    × ((erase erasing_spi erasing_setup 0 70000 60000 not_yet).1.world ≡ end)
unfolding not_yet
erase-covers_example =
    erase-covers erasing_spi erasing_setup 0 IsBlock whole_region 12 is_uniform 70000 60000
      (omega arith) (omega arith) (λ a s. s.world ≡ a) (λ a s e. e) (λ a s e. e)
      (λ a ei s top aligned known here worked. reaches a ei s known here) not_yet
      (λ start end range. omega (arith, range.start_aligned, range.below, range.near_start))
      erased_all

stays :
    (end a : ℕ) (ei : EraseSectorInfo) (s : Snor ℕ)
    → IsBlock ei
    → a + ei.size ≤ end
    → end ≤ 2 ^ 18
    → s.world ≤ 2 ^ 18
    → (erase_block erasing_spi erasing_setup 0 a ei s).1.world ≤ 2 ^ 18
stays end a ei s known below top safe =
    rw (ap (λ p. p.1.world) (erased_block a ei s known)) (ground (arith, below, top, safe))

erase-keeps_example : (erase erasing_spi erasing_setup 0 70000 60000 not_yet).1.world ≤ 2 ^ 18
unfolding not_yet
erase-keeps_example =
    erase-keeps erasing_spi erasing_setup 0 IsBlock whole_region 12 is_uniform 70000 60000
      (omega arith) (omega arith) (λ s. s.world ≤ 2 ^ 18) (λ s h. h) (λ s h. h)
      (λ start end a ei s range below top aligned known safe.
        stays end a ei s known top range.on_chip safe)
      not_yet (omega arith)

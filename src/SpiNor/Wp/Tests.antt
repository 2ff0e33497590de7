-- ===== src/SpiNor/Wp/Tests.antt =====
-- The tables, and a chip of 16 MB with the table of three protection bits and one for the bottom.
use ufprog.Common.{get_or, ◌+◌, if◌then◌else◌, ◌==◌, [], ◌∷◌}
use ufprog.Common.{
  ℕ, ◌+◌, ◌%◌, ◌^◌, ◌<◌, ◌≡◌, refl, arith, ap, ◌∙◌, bit_and, bit_and-mod, true, none, some, done,
  err, fail, inl,
}
use ufprog.SpiNor.Api.{SpiMem, Snor, WpRegion}
use ufprog.SpiNor.Wp.Tables3.{wpr_3bp_tb}
use ufprog.SpiNor.Wp.Entries.{wp_bp_lo, tb, bp1}
use ufprog.SpiNor.Wp.Complete.{IsComplete, complete_tables, tables-IsComplete}
use ufprog.SpiNor.Wp.Tables1.{wpr_1bp}
use ufprog.SpiNor.Wp.Lookup.{is_sound}
use ufprog.SpiNor.Wp.Unset.{IsLocked, set_wp_region_unset}
use ufprog.SpiNor.Wp.RoundTrip.{IsRegister, get_wp_region-set_wp_region, set, get}
use ufprog.SpiNor.Regs.{set_low_speed, read_reg_acc, read_reg_desc}
use ufprog.SpiNor.RegWrite.{write_reg_acc}
use ufprog.SpiNor.Wp.{set_wp_region, get_wp_region, find_region}
use ufprog.SpiNor.Wp.Tables4.{wpr_4bp_tb}
use ufprog.SpiNor.Wp.Unreadable.{wpr_4bp_tb_unreadable}
use ufprog.SpiNor.Tests.{
  register_spi, small_setup, small_snor, sr_acc, register_read, register_written,
}

abbrev status : Snor ℕ → ℕ
status s = s.world % 2 ^ 8

register_chip : (mask : ℕ) → mask < 2 ^ 8 → IsRegister register_spi small_setup 0 sr_acc mask status
unfolding set_low_speed
register_chip mask h = record {
  probed = refl;
  reads = λ s. ap (λ p. p.0) (register_read s);
  reads_keep = λ s. ap (λ p. status p.1) (register_read s);
  writes = λ v s. ap (λ p. p.0) (register_written v s);
  takes = λ v s.
      ap (λ p. bit_and (status p.1) mask) (register_written v s)
      ∙ bit_and-mod 8 (v % 2 ^ 8) mask h
      ∙ bit_and-mod 8 v mask h;
  slows = λ s. refl;
  slows_keep = λ s. refl;
  locks_keep = λ s. refl;
  unlocks_keep = λ s. refl;
}

small_chip : IsRegister register_spi small_setup 0 sr_acc wpr_3bp_tb.sr_mask status
small_chip = register_chip wpr_3bp_tb.sr_mask (omega arith)

-- The lower 128 KB.
abbrev lower_two : WpRegion
lower_two = record { base = 0; size = 2 ^ 17 }

set_runs :
    (set register_spi small_setup 0 wpr_3bp_tb sr_acc status small_chip lower_two small_snor).0
    ≡ done tt
unfolding set_wp_region set_low_speed read_reg_acc read_reg_desc write_reg_acc
set_runs = refl

tb_sound : is_sound wpr_3bp_tb ≡ true
unfolding is_sound
tb_sound = refl

get_wp_region-set_wp_region_example :
    (get register_spi small_setup 0 wpr_3bp_tb sr_acc status small_chip
      (set register_spi small_setup 0 wpr_3bp_tb sr_acc status small_chip lower_two small_snor).1).0
    ≡ done lower_two
get_wp_region-set_wp_region_example =
    get_wp_region-set_wp_region register_spi small_setup 0 wpr_3bp_tb sr_acc status small_chip
      lower_two small_snor tb_sound set_runs

-- The same chip with opcode 01h out of order.
abbrev locked_spi : SpiMem ℕ
locked_spi = record register_spi {
  exec_op = λ op w. (done (if op.opcode == 5 then 0x83 ∷ [] else []), w);
}

fixed_chip : IsLocked locked_spi small_setup 0 sr_acc 0x83
unfolding set_low_speed read_reg_acc read_reg_desc write_reg_acc
fixed_chip = record { probed = refl; reads = λ s. refl; writes = λ v s. refl; slows = λ s. refl }

set_wp_region_unset_example :
    (set_wp_region locked_spi small_setup 0 (some (wpr_3bp_tb, sr_acc)) none lower_two small_snor).0
    ≡ done tt
unfolding find_region
set_wp_region_unset_example =
    set_wp_region_unset locked_spi small_setup 0 wpr_3bp_tb sr_acc 0x83 fixed_chip lower_two
      (wp_bp_lo (tb + bp1) 1) small_snor found (λ e. omega (arith, e))
  where
    found : find_region (2 ^ 24) 0 (2 ^ 17) wpr_3bp_tb.ranges ≡ done (wp_bp_lo (tb + bp1) 1)
    found = refl

-- A chip with BP3, BP2 and BP0 set.
full_chip : IsRegister register_spi small_setup 0 sr_acc wpr_4bp_tb.sr_mask status
full_chip = register_chip wpr_4bp_tb.sr_mask (omega arith)

wpr_4bp_tb_unreadable_example :
    (get_wp_region register_spi small_setup 0
      (some (wpr_4bp_tb, sr_acc))
      none
      (record small_snor { world = 0x34 })).0
    ≡ err fail
wpr_4bp_tb_unreadable_example =
    wpr_4bp_tb_unreadable register_spi small_setup 0 sr_acc status
      (record small_snor { world = 0x34 }) full_chip (inl refl)

tables-IsComplete_example : IsComplete (get_or complete_tables 13 wpr_1bp)
tables-IsComplete_example = tables-IsComplete 13 (omega arith)

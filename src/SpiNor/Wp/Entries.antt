-- ===== src/SpiNor/Wp/Entries.antt =====
-- flash/spi-nor/wp.h and wp.c: the entries of the range tables. The bits of a value are different
-- ones, so that `|` is a sum.
use ufprog.Common.{ℕ, ◌+◌}
use ufprog.SpiNor.Wp.{WpRange, none_of_it, all_of_it, lshift, rshift, lower, complementary}

abbrev pub bp0 : ℕ
bp0 = 4

abbrev pub bp1 : ℕ
bp1 = 8

abbrev pub bp2 : ℕ
bp2 = 16

abbrev pub tb : ℕ
tb = 32

abbrev pub sec : ℕ
sec = 64

abbrev pub cmp : ℕ
cmp = 16384

abbrev pub bp3 : ℕ
bp3 = 32

abbrev pub tb4 : ℕ
tb4 = 64

abbrev pub bp_1_0 : ℕ
bp_1_0 = bp1 + bp0

abbrev pub bp_1_0_tb : ℕ
bp_1_0_tb = tb + bp1 + bp0

abbrev pub bp_2_0 : ℕ
bp_2_0 = bp2 + bp1 + bp0

abbrev pub bp_2_0_tb : ℕ
bp_2_0_tb = tb + bp2 + bp1 + bp0

abbrev pub bp_2_0_tb_sec : ℕ
bp_2_0_tb_sec = sec + tb + bp2 + bp1 + bp0

abbrev pub bp_2_0_tb_sec_cmp : ℕ
bp_2_0_tb_sec_cmp = cmp + sec + tb + bp2 + bp1 + bp0

abbrev pub bp_3_0 : ℕ
bp_3_0 = bp3 + bp2 + bp1 + bp0

abbrev pub bp_3_0_tb : ℕ
bp_3_0_tb = tb4 + bp3 + bp2 + bp1 + bp0

abbrev pub bp_3_0_tb_cmp : ℕ
bp_3_0_tb_cmp = cmp + tb4 + bp3 + bp2 + bp1 + bp0

abbrev pub wp_none : ℕ → WpRange
wp_none sr_val = record {
  sr_val = sr_val;
  type = none_of_it;
  granularity = 0;
  scale = 0;
  flags = 0;
}

abbrev pub wp_all : ℕ → WpRange
wp_all sr_val = record { sr_val = sr_val; type = all_of_it; granularity = 0; scale = 0; flags = 0 }

-- `SNOR_WP_BP_BLK`, `SNOR_WP_BP_SEC` and `SNOR_WP_BP_RATIO`
abbrev wp_bp_blk : (sr_val scale flags : ℕ) → WpRange
wp_bp_blk sr_val scale flags = record {
  sr_val = sr_val;
  type = lshift;
  granularity = 65536;
  scale = scale;
  flags = flags;
}

abbrev wp_bp_sec : (sr_val scale flags : ℕ) → WpRange
wp_bp_sec sr_val scale flags = record {
  sr_val = sr_val;
  type = lshift;
  granularity = 4096;
  scale = scale;
  flags = flags;
}

abbrev wp_bp_ratio : (sr_val scale flags : ℕ) → WpRange
wp_bp_ratio sr_val scale flags = record {
  sr_val = sr_val;
  type = rshift;
  granularity = 0;
  scale = scale;
  flags = flags;
}

abbrev pub wp_bp_cmp_lo : ℕ → ℕ → WpRange
wp_bp_cmp_lo sr_val scale = wp_bp_blk sr_val scale complementary

abbrev pub wp_bp_cmp_up : ℕ → ℕ → WpRange
wp_bp_cmp_up sr_val scale = wp_bp_blk sr_val scale (lower + complementary)

abbrev pub wp_bp_lo : ℕ → ℕ → WpRange
wp_bp_lo sr_val scale = wp_bp_blk sr_val scale lower

abbrev pub wp_bp_up : ℕ → ℕ → WpRange
wp_bp_up sr_val scale = wp_bp_blk sr_val scale 0

abbrev pub wp_rp_cmp_lo : ℕ → ℕ → WpRange
wp_rp_cmp_lo sr_val scale = wp_bp_ratio sr_val scale complementary

abbrev pub wp_rp_cmp_up : ℕ → ℕ → WpRange
wp_rp_cmp_up sr_val scale = wp_bp_ratio sr_val scale (lower + complementary)

abbrev pub wp_rp_lo : ℕ → ℕ → WpRange
wp_rp_lo sr_val scale = wp_bp_ratio sr_val scale lower

abbrev pub wp_rp_up : ℕ → ℕ → WpRange
wp_rp_up sr_val scale = wp_bp_ratio sr_val scale 0

abbrev pub wp_sp_cmp_lo : ℕ → ℕ → WpRange
wp_sp_cmp_lo sr_val scale = wp_bp_sec sr_val scale complementary

abbrev pub wp_sp_cmp_up : ℕ → ℕ → WpRange
wp_sp_cmp_up sr_val scale = wp_bp_sec sr_val scale (lower + complementary)

abbrev pub wp_sp_lo : ℕ → ℕ → WpRange
wp_sp_lo sr_val scale = wp_bp_sec sr_val scale lower

abbrev pub wp_sp_up : ℕ → ℕ → WpRange
wp_sp_up sr_val scale = wp_bp_sec sr_val scale 0

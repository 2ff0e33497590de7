-- ===== src/SpiNor/Wp/Tables3.antt =====
-- flash/spi-nor/wp.c: the tables with three protection bits.
use ufprog.Common.{◌+◌, [], ◌∷◌}
use ufprog.SpiNor.Wp.{WpInfo}
use ufprog.SpiNor.Wp.Entries.{
  bp0, bp1, bp2, tb, bp_2_0, bp_2_0_tb, wp_all, wp_bp_lo, wp_bp_up, wp_none, wp_rp_lo, wp_rp_up,
}

abbrev pub wpr_3bp_up : WpInfo
wpr_3bp_up = record {
  sr_mask = bp_2_0;
  ranges =
      wp_none 0
      ∷ wp_all (bp2 + bp1 + bp0)
      ∷ wp_bp_up bp0 0
      ∷ wp_bp_up bp1 1
      ∷ wp_bp_up (bp1 + bp0) 2
      ∷ wp_bp_up bp2 3
      ∷ wp_bp_up (bp2 + bp0) 4
      ∷ wp_bp_up (bp2 + bp1) 5
      ∷ [];
}

abbrev pub wpr_3bp_up_ratio : WpInfo
wpr_3bp_up_ratio = record {
  sr_mask = bp_2_0;
  ranges =
      wp_none 0
      ∷ wp_all (bp2 + bp1 + bp0)
      ∷ wp_rp_up bp0 6
      ∷ wp_rp_up bp1 5
      ∷ wp_rp_up (bp1 + bp0) 4
      ∷ wp_rp_up bp2 3
      ∷ wp_rp_up (bp2 + bp0) 2
      ∷ wp_rp_up (bp2 + bp1) 1
      ∷ [];
}

abbrev pub wpr_3bp_lo : WpInfo
wpr_3bp_lo = record {
  sr_mask = bp_2_0;
  ranges =
      wp_none 0
      ∷ wp_all (bp2 + bp1 + bp0)
      ∷ wp_bp_lo bp0 0
      ∷ wp_bp_lo bp1 1
      ∷ wp_bp_lo (bp1 + bp0) 2
      ∷ wp_bp_lo bp2 3
      ∷ wp_bp_lo (bp2 + bp0) 4
      ∷ wp_bp_lo (bp2 + bp1) 5
      ∷ [];
}

abbrev pub wpr_3bp_lo_ratio : WpInfo
wpr_3bp_lo_ratio = record {
  sr_mask = bp_2_0;
  ranges =
      wp_none 0
      ∷ wp_all (bp2 + bp1 + bp0)
      ∷ wp_rp_lo bp0 6
      ∷ wp_rp_lo bp1 5
      ∷ wp_rp_lo (bp1 + bp0) 4
      ∷ wp_rp_lo bp2 3
      ∷ wp_rp_lo (bp2 + bp0) 2
      ∷ wp_rp_lo (bp2 + bp1) 1
      ∷ [];
}

abbrev pub wpr_3bp_tb : WpInfo
wpr_3bp_tb = record {
  sr_mask = bp_2_0_tb;
  ranges =
      wp_none 0
      ∷ wp_none tb
      ∷ wp_all (bp2 + bp1 + bp0)
      ∷ wp_all (tb + bp2 + bp1 + bp0)
      ∷ wp_bp_up bp0 0
      ∷ wp_bp_up bp1 1
      ∷ wp_bp_up (bp1 + bp0) 2
      ∷ wp_bp_up bp2 3
      ∷ wp_bp_up (bp2 + bp0) 4
      ∷ wp_bp_up (bp2 + bp1) 5
      ∷ wp_bp_lo (tb + bp0) 0
      ∷ wp_bp_lo (tb + bp1) 1
      ∷ wp_bp_lo (tb + bp1 + bp0) 2
      ∷ wp_bp_lo (tb + bp2) 3
      ∷ wp_bp_lo (tb + bp2 + bp0) 4
      ∷ wp_bp_lo (tb + bp2 + bp1) 5
      ∷ [];
}

abbrev pub wpr_3bp_tb_ratio : WpInfo
wpr_3bp_tb_ratio = record {
  sr_mask = bp_2_0_tb;
  ranges =
      wp_none 0
      ∷ wp_none tb
      ∷ wp_all (bp2 + bp1 + bp0)
      ∷ wp_all (tb + bp2 + bp1 + bp0)
      ∷ wp_rp_up bp0 6
      ∷ wp_rp_up bp1 5
      ∷ wp_rp_up (bp1 + bp0) 4
      ∷ wp_rp_up bp2 3
      ∷ wp_rp_up (bp2 + bp0) 2
      ∷ wp_rp_up (bp2 + bp1) 1
      ∷ wp_rp_lo (tb + bp0) 6
      ∷ wp_rp_lo (tb + bp1) 5
      ∷ wp_rp_lo (tb + bp1 + bp0) 4
      ∷ wp_rp_lo (tb + bp2) 3
      ∷ wp_rp_lo (tb + bp2 + bp0) 2
      ∷ wp_rp_lo (tb + bp2 + bp1) 1
      ∷ [];
}

-- ===== src/SpiNor/Wp/Tables1.antt =====
-- flash/spi-nor/wp.c: the tables with one and two protection bits.
use ufprog.Common.{◌+◌, [], ◌∷◌}
use ufprog.SpiNor.Wp.{WpInfo}
use ufprog.SpiNor.Wp.Entries.{
  bp0, bp1, tb, bp_1_0, bp_1_0_tb, wp_all, wp_bp_lo, wp_bp_up, wp_none, wp_rp_lo, wp_rp_up,
}

abbrev pub wpr_1bp : WpInfo
wpr_1bp = record { sr_mask = bp0; ranges = wp_none 0 ∷ wp_all bp0 ∷ [] }

abbrev pub wpr_2bp_all : WpInfo
wpr_2bp_all = record {
  sr_mask = bp_1_0;
  ranges = wp_none 0 ∷ wp_all (bp1 + bp0) ∷ wp_all bp0 ∷ wp_all bp1 ∷ [];
}

abbrev pub wpr_2bp_up : WpInfo
wpr_2bp_up = record {
  sr_mask = bp_1_0;
  ranges = wp_none 0 ∷ wp_all (bp1 + bp0) ∷ wp_bp_up bp0 0 ∷ wp_bp_up bp1 1 ∷ [];
}

abbrev pub wpr_2bp_up_ratio : WpInfo
wpr_2bp_up_ratio = record {
  sr_mask = bp_1_0;
  ranges = wp_none 0 ∷ wp_all (bp1 + bp0) ∷ wp_rp_up bp0 2 ∷ wp_rp_up bp1 1 ∷ [];
}

abbrev pub wpr_2bp_lo : WpInfo
wpr_2bp_lo = record {
  sr_mask = bp_1_0;
  ranges = wp_none 0 ∷ wp_all (bp1 + bp0) ∷ wp_bp_lo bp0 0 ∷ wp_bp_lo bp1 1 ∷ [];
}

abbrev pub wpr_2bp_lo_ratio : WpInfo
wpr_2bp_lo_ratio = record {
  sr_mask = bp_1_0;
  ranges = wp_none 0 ∷ wp_all (bp1 + bp0) ∷ wp_rp_lo bp0 2 ∷ wp_rp_lo bp1 1 ∷ [];
}

abbrev pub wpr_2bp_tb : WpInfo
wpr_2bp_tb = record {
  sr_mask = bp_1_0_tb;
  ranges =
      wp_none 0
      ∷ wp_none tb
      ∷ wp_all (bp1 + bp0)
      ∷ wp_all (tb + bp1 + bp0)
      ∷ wp_bp_up bp0 0
      ∷ wp_bp_up bp1 1
      ∷ wp_bp_lo (tb + bp0) 0
      ∷ wp_bp_lo (tb + bp1) 1
      ∷ [];
}

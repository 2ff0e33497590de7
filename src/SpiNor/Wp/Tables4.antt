-- ===== src/SpiNor/Wp/Tables4.antt =====
-- flash/spi-nor/wp.c: the tables with four protection bits.
use ufprog.Common.{◌+◌, [], ◌∷◌}
use ufprog.SpiNor.Wp.{WpInfo}
use ufprog.SpiNor.Wp.Entries.{
  bp0, bp1, bp2, cmp, bp3, tb4, bp_3_0, bp_3_0_tb, bp_3_0_tb_cmp, wp_all, wp_bp_cmp_lo,
  wp_bp_cmp_up, wp_bp_lo, wp_bp_up, wp_none,
}

abbrev pub wpr_4bp_up : WpInfo
wpr_4bp_up = record {
  sr_mask = bp_3_0;
  ranges =
      wp_none 0
      ∷ wp_all (bp3 + bp2 + bp1 + bp0)
      ∷ wp_bp_up bp0 0
      ∷ wp_bp_up bp1 1
      ∷ wp_bp_up (bp1 + bp0) 2
      ∷ wp_bp_up bp2 3
      ∷ wp_bp_up (bp2 + bp0) 4
      ∷ wp_bp_up (bp2 + bp1) 5
      ∷ wp_bp_up (bp2 + bp1 + bp0) 6
      ∷ wp_bp_up bp3 7
      ∷ wp_bp_up (bp3 + bp0) 8
      ∷ wp_bp_up (bp3 + bp1) 9
      ∷ wp_bp_up (bp3 + bp1 + bp0) 10
      ∷ wp_bp_up (bp3 + bp2) 11
      ∷ wp_bp_up (bp3 + bp2 + bp0) 12
      ∷ wp_bp_up (bp3 + bp2 + bp1) 13
      ∷ [];
}

abbrev pub wpr_4bp_lo : WpInfo
wpr_4bp_lo = record {
  sr_mask = bp_3_0;
  ranges =
      wp_none 0
      ∷ wp_all (bp3 + bp2 + bp1 + bp0)
      ∷ wp_bp_lo bp0 0
      ∷ wp_bp_lo bp1 1
      ∷ wp_bp_lo (bp1 + bp0) 2
      ∷ wp_bp_lo bp2 3
      ∷ wp_bp_lo (bp2 + bp0) 4
      ∷ wp_bp_lo (bp2 + bp1) 5
      ∷ wp_bp_lo (bp2 + bp1 + bp0) 6
      ∷ wp_bp_lo bp3 7
      ∷ wp_bp_lo (bp3 + bp0) 8
      ∷ wp_bp_lo (bp3 + bp1) 9
      ∷ wp_bp_lo (bp3 + bp1 + bp0) 10
      ∷ wp_bp_lo (bp3 + bp2) 11
      ∷ wp_bp_lo (bp3 + bp2 + bp0) 12
      ∷ wp_bp_lo (bp3 + bp2 + bp1) 13
      ∷ [];
}

abbrev pub wpr_4bp_tb : WpInfo
wpr_4bp_tb = record {
  sr_mask = bp_3_0_tb;
  ranges =
      wp_none 0
      ∷ wp_none tb4
      ∷ wp_all (bp3 + bp2 + bp1 + bp0)
      ∷ wp_all (tb4 + bp3 + bp2 + bp1 + bp0)
      ∷ wp_bp_up bp0 0
      ∷ wp_bp_up bp1 1
      ∷ wp_bp_up (bp1 + bp0) 2
      ∷ wp_bp_up bp2 3
      ∷ wp_bp_up (bp2 + bp0) 4
      ∷ wp_bp_up (bp2 + bp1) 5
      ∷ wp_bp_up (bp2 + bp1 + bp0) 6
      ∷ wp_bp_up bp3 7
      ∷ wp_bp_up (bp3 + bp0) 8
      ∷ wp_bp_up (bp3 + bp1) 9
      ∷ wp_bp_up (bp3 + bp1 + bp0) 10
      ∷ wp_bp_up (bp3 + bp2) 11
      ∷ wp_bp_up (bp3 + bp2 + bp1) 12
      ∷ wp_bp_up (bp3 + bp2 + bp1) 13
      ∷ wp_bp_lo (tb4 + bp0) 0
      ∷ wp_bp_lo (tb4 + bp1) 1
      ∷ wp_bp_lo (tb4 + bp1 + bp0) 2
      ∷ wp_bp_lo (tb4 + bp2) 3
      ∷ wp_bp_lo (tb4 + bp2 + bp0) 4
      ∷ wp_bp_lo (tb4 + bp2 + bp1) 5
      ∷ wp_bp_lo (tb4 + bp2 + bp1 + bp0) 6
      ∷ wp_bp_lo (tb4 + bp3) 7
      ∷ wp_bp_lo (tb4 + bp3 + bp0) 8
      ∷ wp_bp_lo (tb4 + bp3 + bp1) 9
      ∷ wp_bp_lo (tb4 + bp3 + bp1 + bp0) 10
      ∷ wp_bp_lo (tb4 + bp3 + bp2) 11
      ∷ wp_bp_lo (tb4 + bp3 + bp2 + bp1) 12
      ∷ wp_bp_lo (tb4 + bp3 + bp2 + bp1) 13
      ∷ [];
}

abbrev pub wpr_4bp_tb_cmp : WpInfo
wpr_4bp_tb_cmp = record {
  sr_mask = bp_3_0_tb_cmp;
  ranges =
      wp_none 0
      ∷ wp_none tb4
      ∷ wp_none (cmp + bp3 + bp2 + bp1 + bp0)
      ∷ wp_none (cmp + tb4 + bp3 + bp2 + bp1 + bp0)
      ∷ wp_all (bp3 + bp2 + bp1 + bp0)
      ∷ wp_all (tb4 + bp3 + bp2 + bp1 + bp0)
      ∷ wp_all cmp
      ∷ wp_all (cmp + tb4)
      ∷ wp_bp_up bp0 0
      ∷ wp_bp_up bp1 1
      ∷ wp_bp_up (bp1 + bp0) 2
      ∷ wp_bp_up bp2 3
      ∷ wp_bp_up (bp2 + bp0) 4
      ∷ wp_bp_up (bp2 + bp1) 5
      ∷ wp_bp_up (bp2 + bp1 + bp0) 6
      ∷ wp_bp_up bp3 7
      ∷ wp_bp_up (bp3 + bp0) 8
      ∷ wp_bp_up (bp3 + bp1) 9
      ∷ wp_bp_up (bp3 + bp1 + bp0) 10
      ∷ wp_bp_up (bp3 + bp2) 11
      ∷ wp_bp_up (bp3 + bp2 + bp1) 12
      ∷ wp_bp_up (bp3 + bp2 + bp1) 13
      ∷ wp_bp_lo (tb4 + bp0) 0
      ∷ wp_bp_lo (tb4 + bp1) 1
      ∷ wp_bp_lo (tb4 + bp1 + bp0) 2
      ∷ wp_bp_lo (tb4 + bp2) 3
      ∷ wp_bp_lo (tb4 + bp2 + bp0) 4
      ∷ wp_bp_lo (tb4 + bp2 + bp1) 5
      ∷ wp_bp_lo (tb4 + bp2 + bp1 + bp0) 6
      ∷ wp_bp_lo (tb4 + bp3) 7
      ∷ wp_bp_lo (tb4 + bp3 + bp0) 8
      ∷ wp_bp_lo (tb4 + bp3 + bp1) 9
      ∷ wp_bp_lo (tb4 + bp3 + bp1 + bp0) 10
      ∷ wp_bp_lo (tb4 + bp3 + bp2) 11
      ∷ wp_bp_lo (tb4 + bp3 + bp2 + bp1) 12
      ∷ wp_bp_lo (tb4 + bp3 + bp2 + bp1) 13
      ∷ wp_bp_cmp_lo (cmp + bp0) 0
      ∷ wp_bp_cmp_lo (cmp + bp1) 1
      ∷ wp_bp_cmp_lo (cmp + bp1 + bp0) 2
      ∷ wp_bp_cmp_lo (cmp + bp2) 3
      ∷ wp_bp_cmp_lo (cmp + bp2 + bp0) 4
      ∷ wp_bp_cmp_lo (cmp + bp2 + bp1) 5
      ∷ wp_bp_cmp_lo (cmp + bp2 + bp1 + bp0) 6
      ∷ wp_bp_cmp_lo (cmp + bp3) 7
      ∷ wp_bp_cmp_lo (cmp + bp3 + bp0) 8
      ∷ wp_bp_cmp_lo (cmp + bp3 + bp1) 9
      ∷ wp_bp_cmp_lo (cmp + bp3 + bp1 + bp0) 10
      ∷ wp_bp_cmp_lo (cmp + bp3 + bp2) 11
      ∷ wp_bp_cmp_lo (cmp + bp3 + bp2 + bp1) 12
      ∷ wp_bp_cmp_lo (cmp + bp3 + bp2 + bp1) 13
      ∷ wp_bp_cmp_up (cmp + tb4 + bp0) 0
      ∷ wp_bp_cmp_up (cmp + tb4 + bp1) 1
      ∷ wp_bp_cmp_up (cmp + tb4 + bp1 + bp0) 2
      ∷ wp_bp_cmp_up (cmp + tb4 + bp2) 3
      ∷ wp_bp_cmp_up (cmp + tb4 + bp2 + bp0) 4
      ∷ wp_bp_cmp_up (cmp + tb4 + bp2 + bp1) 5
      ∷ wp_bp_cmp_up (cmp + tb4 + bp2 + bp1 + bp0) 6
      ∷ wp_bp_cmp_up (cmp + tb4 + bp3) 7
      ∷ wp_bp_cmp_up (cmp + tb4 + bp3 + bp0) 8
      ∷ wp_bp_cmp_up (cmp + tb4 + bp3 + bp1) 9
      ∷ wp_bp_cmp_up (cmp + tb4 + bp3 + bp1 + bp0) 10
      ∷ wp_bp_cmp_up (cmp + tb4 + bp3 + bp2) 11
      ∷ wp_bp_cmp_up (cmp + tb4 + bp3 + bp2 + bp1) 12
      ∷ wp_bp_cmp_up (cmp + tb4 + bp3 + bp2 + bp1) 13
      ∷ [];
}

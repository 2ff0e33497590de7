-- ===== src/SpiNor/Wp/Tables3Sec.antt =====
-- flash/spi-nor/wp.c: the tables with three protection bits and a sector bit.
use ufprog.Common.{◌+◌, [], ◌∷◌}
use ufprog.SpiNor.Wp.{WpInfo}
use ufprog.SpiNor.Wp.Entries.{
  bp0, bp1, bp2, tb, sec, cmp, bp_2_0_tb_sec, bp_2_0_tb_sec_cmp, wp_all, wp_bp_cmp_lo, wp_bp_cmp_up,
  wp_bp_lo, wp_bp_up, wp_none, wp_rp_cmp_lo, wp_rp_cmp_up, wp_rp_lo, wp_rp_up, wp_sp_cmp_lo,
  wp_sp_cmp_up, wp_sp_lo, wp_sp_up,
}

abbrev pub wpr_3bp_tb_sec : WpInfo
wpr_3bp_tb_sec = record {
  sr_mask = bp_2_0_tb_sec;
  ranges =
      wp_none 0
      ∷ wp_none tb
      ∷ wp_none sec
      ∷ wp_none (sec + tb)
      ∷ wp_all (bp2 + bp1 + bp0)
      ∷ wp_all (tb + bp2 + bp1 + bp0)
      ∷ wp_all (sec + bp2 + bp1 + bp0)
      ∷ wp_all (sec + tb + bp2 + bp1 + bp0)
      ∷ wp_bp_up bp0 0
      ∷ wp_bp_up bp1 1
      ∷ wp_bp_up (bp1 + bp0) 2
      ∷ wp_bp_up bp2 3
      ∷ wp_bp_up (bp2 + bp0) 4
      ∷ wp_bp_up (bp2 + bp1) 5
      ∷ wp_bp_lo (tb + bp0) 0
      ∷ wp_bp_lo (tb + bp1) 1
      ∷ wp_bp_lo (tb + bp1 + bp0) 2
      ∷ wp_bp_lo (tb + bp2) 3
      ∷ wp_bp_lo (tb + bp2 + bp0) 4
      ∷ wp_bp_lo (tb + bp2 + bp1) 5
      ∷ wp_sp_up (sec + bp0) 0
      ∷ wp_sp_up (sec + bp1) 1
      ∷ wp_sp_up (sec + bp1 + bp0) 2
      ∷ wp_sp_up (sec + bp2) 3
      ∷ wp_sp_up (sec + bp2 + bp0) 3
      ∷ wp_sp_up (sec + bp2 + bp1) 3
      ∷ wp_sp_lo (sec + tb + bp0) 0
      ∷ wp_sp_lo (sec + tb + bp1) 1
      ∷ wp_sp_lo (sec + tb + bp1 + bp0) 2
      ∷ wp_sp_lo (sec + tb + bp2) 3
      ∷ wp_sp_lo (sec + tb + bp2 + bp0) 3
      ∷ wp_sp_lo (sec + tb + bp2 + bp1) 3
      ∷ [];
}

abbrev pub wpr_3bp_tb_sec_ratio : WpInfo
wpr_3bp_tb_sec_ratio = record {
  sr_mask = bp_2_0_tb_sec;
  ranges =
      wp_none 0
      ∷ wp_none tb
      ∷ wp_none sec
      ∷ wp_none (sec + tb)
      ∷ wp_all (bp2 + bp1 + bp0)
      ∷ wp_all (tb + bp2 + bp1 + bp0)
      ∷ wp_all (sec + bp2 + bp1 + bp0)
      ∷ wp_all (sec + tb + bp2 + bp1 + bp0)
      ∷ wp_rp_up bp0 6
      ∷ wp_rp_up bp1 5
      ∷ wp_rp_up (bp1 + bp0) 4
      ∷ wp_rp_up bp2 3
      ∷ wp_rp_up (bp2 + bp0) 2
      ∷ wp_rp_up (bp2 + bp1) 1
      ∷ wp_rp_lo (tb + bp0) 6
      ∷ wp_rp_lo (tb + bp1) 5
      ∷ wp_rp_lo (tb + bp1 + bp0) 4
      ∷ wp_rp_lo (tb + bp2) 3
      ∷ wp_rp_lo (tb + bp2 + bp0) 2
      ∷ wp_rp_lo (tb + bp2 + bp1) 1
      ∷ wp_sp_up (sec + bp0) 0
      ∷ wp_sp_up (sec + bp1) 1
      ∷ wp_sp_up (sec + bp1 + bp0) 2
      ∷ wp_sp_up (sec + bp2) 3
      ∷ wp_sp_up (sec + bp2 + bp0) 3
      ∷ wp_sp_up (sec + bp2 + bp1) 3
      ∷ wp_sp_lo (sec + tb + bp0) 0
      ∷ wp_sp_lo (sec + tb + bp1) 1
      ∷ wp_sp_lo (sec + tb + bp1 + bp0) 2
      ∷ wp_sp_lo (sec + tb + bp2) 3
      ∷ wp_sp_lo (sec + tb + bp2 + bp0) 3
      ∷ wp_sp_lo (sec + tb + bp2 + bp1) 3
      ∷ [];
}

abbrev pub wpr_3bp_tb_sec_cmp : WpInfo
wpr_3bp_tb_sec_cmp = record {
  sr_mask = bp_2_0_tb_sec_cmp;
  ranges =
      wp_none 0
      ∷ wp_none tb
      ∷ wp_none sec
      ∷ wp_none (sec + tb)
      ∷ wp_none (cmp + bp2 + bp1 + bp0)
      ∷ wp_none (cmp + tb + bp2 + bp1 + bp0)
      ∷ wp_none (cmp + sec + bp2 + bp1 + bp0)
      ∷ wp_none (cmp + sec + tb + bp2 + bp1 + bp0)
      ∷ wp_all (bp2 + bp1 + bp0)
      ∷ wp_all (sec + tb + bp2 + bp1 + bp0)
      ∷ wp_all (sec + bp2 + bp1 + bp0)
      ∷ wp_all (tb + bp2 + bp1 + bp0)
      ∷ wp_all cmp
      ∷ wp_all (cmp + tb)
      ∷ wp_all (cmp + sec)
      ∷ wp_all (cmp + sec + tb)
      ∷ wp_bp_up bp0 0
      ∷ wp_bp_up bp1 1
      ∷ wp_bp_up (bp1 + bp0) 2
      ∷ wp_bp_up bp2 3
      ∷ wp_bp_up (bp2 + bp0) 4
      ∷ wp_bp_up (bp2 + bp1) 5
      ∷ wp_bp_lo (tb + bp0) 0
      ∷ wp_bp_lo (tb + bp1) 1
      ∷ wp_bp_lo (tb + bp1 + bp0) 2
      ∷ wp_bp_lo (tb + bp2) 3
      ∷ wp_bp_lo (tb + bp2 + bp0) 4
      ∷ wp_bp_lo (tb + bp2 + bp1) 5
      ∷ wp_sp_up (sec + bp0) 0
      ∷ wp_sp_up (sec + bp1) 1
      ∷ wp_sp_up (sec + bp1 + bp0) 2
      ∷ wp_sp_up (sec + bp2) 3
      ∷ wp_sp_up (sec + bp2 + bp0) 3
      ∷ wp_sp_up (sec + bp2 + bp1) 3
      ∷ wp_sp_lo (sec + tb + bp0) 0
      ∷ wp_sp_lo (sec + tb + bp1) 1
      ∷ wp_sp_lo (sec + tb + bp1 + bp0) 2
      ∷ wp_sp_lo (sec + tb + bp2) 3
      ∷ wp_sp_lo (sec + tb + bp2 + bp0) 3
      ∷ wp_sp_lo (sec + tb + bp2 + bp1) 3
      ∷ wp_bp_cmp_lo (cmp + bp0) 0
      ∷ wp_bp_cmp_lo (cmp + bp1) 1
      ∷ wp_bp_cmp_lo (cmp + bp1 + bp0) 2
      ∷ wp_bp_cmp_lo (cmp + bp2) 3
      ∷ wp_bp_cmp_lo (cmp + bp2 + bp0) 4
      ∷ wp_bp_cmp_up (cmp + tb + bp0) 0
      ∷ wp_bp_cmp_up (cmp + tb + bp1) 1
      ∷ wp_bp_cmp_up (cmp + tb + bp1 + bp0) 2
      ∷ wp_bp_cmp_up (cmp + tb + bp2) 3
      ∷ wp_bp_cmp_up (cmp + tb + bp2 + bp0) 4
      ∷ wp_sp_cmp_lo (cmp + sec + bp0) 0
      ∷ wp_sp_cmp_lo (cmp + sec + bp1) 1
      ∷ wp_sp_cmp_lo (cmp + sec + bp1 + bp0) 2
      ∷ wp_sp_cmp_lo (cmp + sec + bp2) 3
      ∷ wp_sp_cmp_lo (cmp + sec + bp2 + bp0) 3
      ∷ wp_sp_cmp_lo (cmp + sec + bp2 + bp1) 3
      ∷ wp_sp_cmp_up (cmp + sec + tb + bp0) 0
      ∷ wp_sp_cmp_up (cmp + sec + tb + bp1) 1
      ∷ wp_sp_cmp_up (cmp + sec + tb + bp1 + bp0) 2
      ∷ wp_sp_cmp_up (cmp + sec + tb + bp2) 3
      ∷ wp_sp_cmp_up (cmp + sec + tb + bp2 + bp0) 3
      ∷ wp_sp_cmp_up (cmp + sec + tb + bp2 + bp1) 3
      ∷ [];
}

abbrev pub wpr_3bp_tb_sec_cmp_ratio : WpInfo
wpr_3bp_tb_sec_cmp_ratio = record {
  sr_mask = bp_2_0_tb_sec_cmp;
  ranges =
      wp_none 0
      ∷ wp_none tb
      ∷ wp_none sec
      ∷ wp_none (sec + tb)
      ∷ wp_none (cmp + bp2 + bp1 + bp0)
      ∷ wp_none (cmp + tb + bp2 + bp1 + bp0)
      ∷ wp_none (cmp + sec + bp2 + bp1 + bp0)
      ∷ wp_none (cmp + sec + tb + bp2 + bp1 + bp0)
      ∷ wp_all (bp2 + bp1 + bp0)
      ∷ wp_all (sec + tb + bp2 + bp1 + bp0)
      ∷ wp_all (sec + bp2 + bp1 + bp0)
      ∷ wp_all (tb + bp2 + bp1 + bp0)
      ∷ wp_all cmp
      ∷ wp_all (cmp + tb)
      ∷ wp_all (cmp + sec)
      ∷ wp_all (cmp + sec + tb)
      ∷ wp_rp_up bp0 6
      ∷ wp_rp_up bp1 5
      ∷ wp_rp_up (bp1 + bp0) 4
      ∷ wp_rp_up bp2 3
      ∷ wp_rp_up (bp2 + bp0) 2
      ∷ wp_rp_up (bp2 + bp1) 1
      ∷ wp_rp_lo (tb + bp0) 6
      ∷ wp_rp_lo (tb + bp1) 5
      ∷ wp_rp_lo (tb + bp1 + bp0) 4
      ∷ wp_rp_lo (tb + bp2) 3
      ∷ wp_rp_lo (tb + bp2 + bp0) 2
      ∷ wp_rp_lo (tb + bp2 + bp1) 1
      ∷ wp_sp_up (sec + bp0) 0
      ∷ wp_sp_up (sec + bp1) 1
      ∷ wp_sp_up (sec + bp1 + bp0) 2
      ∷ wp_sp_up (sec + bp2) 3
      ∷ wp_sp_up (sec + bp2 + bp0) 3
      ∷ wp_sp_up (sec + bp2 + bp1) 3
      ∷ wp_sp_lo (sec + tb + bp0) 0
      ∷ wp_sp_lo (sec + tb + bp1) 1
      ∷ wp_sp_lo (sec + tb + bp1 + bp0) 2
      ∷ wp_sp_lo (sec + tb + bp2) 3
      ∷ wp_sp_lo (sec + tb + bp2 + bp0) 3
      ∷ wp_sp_lo (sec + tb + bp2 + bp1) 3
      ∷ wp_rp_cmp_lo (cmp + bp0) 6
      ∷ wp_rp_cmp_lo (cmp + bp1) 5
      ∷ wp_rp_cmp_lo (cmp + bp1 + bp0) 4
      ∷ wp_rp_cmp_lo (cmp + bp2) 3
      ∷ wp_rp_cmp_lo (cmp + bp2 + bp0) 2
      ∷ wp_rp_cmp_up (cmp + tb + bp0) 6
      ∷ wp_rp_cmp_up (cmp + tb + bp1) 5
      ∷ wp_rp_cmp_up (cmp + tb + bp1 + bp0) 4
      ∷ wp_rp_cmp_up (cmp + tb + bp2) 3
      ∷ wp_rp_cmp_up (cmp + tb + bp2 + bp0) 2
      ∷ wp_sp_cmp_lo (cmp + sec + bp0) 0
      ∷ wp_sp_cmp_lo (cmp + sec + bp1) 1
      ∷ wp_sp_cmp_lo (cmp + sec + bp1 + bp0) 2
      ∷ wp_sp_cmp_lo (cmp + sec + bp2) 3
      ∷ wp_sp_cmp_lo (cmp + sec + bp2 + bp0) 3
      ∷ wp_sp_cmp_lo (cmp + sec + bp2 + bp1) 3
      ∷ wp_sp_cmp_up (cmp + sec + tb + bp0) 0
      ∷ wp_sp_cmp_up (cmp + sec + tb + bp1) 1
      ∷ wp_sp_cmp_up (cmp + sec + tb + bp1 + bp0) 2
      ∷ wp_sp_cmp_up (cmp + sec + tb + bp2) 3
      ∷ wp_sp_cmp_up (cmp + sec + tb + bp2 + bp0) 3
      ∷ wp_sp_cmp_up (cmp + sec + tb + bp2 + bp1) 3
      ∷ [];
}

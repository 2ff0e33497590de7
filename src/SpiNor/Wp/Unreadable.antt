-- ===== src/SpiNor/Wp/Unreadable.antt =====
-- Values of the status register that a table has no range for.
use ufprog.Common.{ℕ, ◌+◌, ◌≡◌, ◌⊎◌, inl, inr, ap, bit_and, none, some, err, fail}
use ufprog.SpiNor.Api.{SpiMem, Snor, Setup, RegAccess}
use ufprog.SpiNor.Wp.{find_range, get_wp_region}
use ufprog.SpiNor.Wp.Entries.{bp0, bp2, bp3, tb4}
use ufprog.SpiNor.Wp.Tables4.{wpr_4bp_tb}
use ufprog.SpiNor.Wp.RoundTrip.{IsRegister, get_misses}

module _ {W : Type 0} (spi : SpiMem W) (setup : Setup W) (left_over : ℕ) (access : RegAccess W)
    (reg : Snor W → ℕ) (s : Snor W) where
  -- On a chip with the table `wpr_4bp_tb` whose register keeps what is written to it and holds BP3,
  -- BP2 and BP0, with or without the bit for the bottom, `ufprog_spi_nor_get_wp_region` fails.
  pub wpr_4bp_tb_unreadable :
      IsRegister spi setup left_over access wpr_4bp_tb.sr_mask reg
      → (bit_and (reg s) wpr_4bp_tb.sr_mask ≡ bp3 + bp2 + bp0)
        ⊎ (bit_and (reg s) wpr_4bp_tb.sr_mask ≡ tb4 + bp3 + bp2 + bp0)
      → (get_wp_region spi setup left_over (some (wpr_4bp_tb, access)) none s).0 ≡ err fail
  unfolding find_range
  wpr_4bp_tb_unreadable ir (inl top) =
      get_misses spi setup left_over wpr_4bp_tb access reg ir s
        (ap (λ (t : ℕ). find_range t wpr_4bp_tb.ranges) top)
  wpr_4bp_tb_unreadable ir (inr bottom) =
      get_misses spi setup left_over wpr_4bp_tb access reg ir s
        (ap (λ (t : ℕ). find_range t wpr_4bp_tb.ranges) bottom)

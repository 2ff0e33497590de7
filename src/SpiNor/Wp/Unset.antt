-- ===== src/SpiNor/Wp/Unset.antt =====
-- Setting a region on a chip that does not take it.
use ufprog.Common.{
  ℕ, ◌-◌, ◌≡◌, ◌≢◌, bit_and, bit_or, ◌==◌, ==_of_ne, if◌then◌else◌, false, none, some, done,
  and_then-done,
}
use ufprog.SpiNor.Api.{SpiMem, Snor, Setup, RegAccess, WpRegion}
use ufprog.SpiNor.Regs.{read_reg_acc, set_low_speed, bus_lock}
use ufprog.SpiNor.RegWrite.{write_reg_acc}
use ufprog.SpiNor.Wp.{WpInfo, WpRange, find_region, set_wp_region, program}

-- A chip that reads `value` from its register whatever is written to it.
pub record IsLocked {W : Type 0} (spi : SpiMem W) (setup : Setup W) (left_over : ℕ)
    (access : RegAccess W) (value : ℕ) : Type 0 where
  pub probed : (setup.size == 0) ≡ false
  pub reads : (s : Snor W) → (read_reg_acc spi setup left_over access s).0 ≡ done value
  pub writes :
      (v : ℕ) (s : Snor W) → (write_reg_acc spi setup left_over access v false s).0 ≡ done tt
  pub slows : (s : Snor W) → (set_low_speed spi setup s).0 ≡ done tt

module _ {W : Type 0} (spi : SpiMem W) (setup : Setup W) (left_over : ℕ) (info : WpInfo)
    (access : RegAccess W) (value : ℕ) (locked : IsLocked spi setup left_over access value) where
  program_unset :
      (r : WpRange) (s : Snor W)
      → bit_and value info.sr_mask ≢ r.sr_val
      → (program spi setup left_over (some (info, access)) none info access r s).0 ≡ done tt
  unfolding program
  program_unset r s differs =
      let s1 = (read_reg_acc spi setup left_over access s).1 in
      let wanted = bit_or (value - bit_and value info.sr_mask) r.sr_val in
      let s2 = (write_reg_acc spi setup left_over access wanted false s1).1 in
      let s3 = (read_reg_acc spi setup left_over access s2).1 in
      rw (and_then-done (read_reg_acc spi setup left_over access s) _ (locked.reads s)) (
        rw
          (and_then-done (write_reg_acc spi setup left_over access wanted false s1) _
            (locked.writes wanted s1))
          (rw (and_then-done (read_reg_acc spi setup left_over access s2) _ (locked.reads s2))
            (rw (==_of_ne _ _ differs) (locked.writes (wanted - bit_and wanted info.sr_mask) s3))))

  -- On a chip that keeps its register as it is, setting a region of the table gives `UFP_OK`
  -- although the protection bits are not those of the region.
  pub set_wp_region_unset :
      (region : WpRegion) (r : WpRange) (s : Snor W)
      → find_region setup.size
          (if region.size == setup.size then 0 else region.base)
          region.size
          info.ranges
        ≡ done r
      → bit_and value info.sr_mask ≢ r.sr_val
      → (set_wp_region spi setup left_over (some (info, access)) none region s).0 ≡ done tt
  unfolding set_wp_region
  set_wp_region_unset region r s found differs =
      let s1 = bus_lock spi setup (set_low_speed spi setup s).1 in
      rw (locked.probed, found, and_then-done (set_low_speed spi setup s) _ (locked.slows s))
        (program_unset r s1 differs)

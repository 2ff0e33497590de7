-- ===== src/SpiNor/Wp/RoundTrip.antt =====
-- Setting a region and reading it back, over a register that holds what is written to it.
use ufprog.Common.{
  ℕ, ◌-◌, ◌≡◌, refl, arith, ap, ◌∙◌, bit_and, bit_or, bit_and-replaced, ◌==◌, ==_iff, if◌then◌else◌,
  true, false, inl, inr, none, some,
}
use ufprog.Common.{Call, Result, done, err, fail, Result-cases, and_then-done}
use ufprog.SpiNor.Api.{SpiMem, Snor, Setup, RegAccess, WpRegion}
use ufprog.SpiNor.Regs.{read_reg_acc, read_reg, set_low_speed, bus_lock, bus_unlock}
use ufprog.SpiNor.RegWrite.{write_reg_acc}
use ufprog.SpiNor.Wp.{
  WpInfo, WpRange, gen_wp_region, find_range, find_region, get_wp_region, set_wp_region, program,
}
use ufprog.SpiNor.Wp.Lookup.{is_sound, find_region-IsFound}

-- A chip whose accesses work: the masked bits of the register `reg` are read as they are, and after
-- a write they are what was written. Nothing else touches them.
pub record IsRegister {W : Type 0} (spi : SpiMem W) (setup : Setup W) (left_over : ℕ)
    (access : RegAccess W) (mask : ℕ) (reg : Snor W → ℕ) : Type 0 where
  pub probed : (setup.size == 0) ≡ false
  pub reads : (s : Snor W) → (read_reg_acc spi setup left_over access s).0 ≡ done (reg s)
  pub reads_keep : (s : Snor W) → reg (read_reg_acc spi setup left_over access s).1 ≡ reg s
  pub writes :
      (v : ℕ) (s : Snor W) → (write_reg_acc spi setup left_over access v false s).0 ≡ done tt
  pub takes :
      (v : ℕ) (s : Snor W)
      → bit_and (reg (write_reg_acc spi setup left_over access v false s).1) mask ≡ bit_and v mask
  pub slows : (s : Snor W) → (set_low_speed spi setup s).0 ≡ done tt
  pub slows_keep : (s : Snor W) → reg (set_low_speed spi setup s).1 ≡ reg s
  pub locks_keep : (s : Snor W) → reg (bus_lock spi setup s) ≡ reg s
  pub unlocks_keep : (s : Snor W) → reg (bus_unlock spi setup s) ≡ reg s

module _ {W : Type 0} (spi : SpiMem W) (setup : Setup W) (left_over : ℕ) (info : WpInfo)
    (access : RegAccess W) (reg : Snor W → ℕ)
    (ir : IsRegister spi setup left_over access info.sr_mask reg) where
  read_found : (s : Snor W) → (read_reg spi setup left_over access s).0 ≡ done (reg s)
  unfolding read_reg
  read_found s = rw ir.probed (ir.reads (bus_lock spi setup s) ∙ ap done (ir.locks_keep s))

  pub get_finds :
      (s : Snor W) (r : WpRange)
      → find_range (bit_and (reg s) info.sr_mask) info.ranges ≡ some r
      → (get_wp_region spi setup left_over (some (info, access)) none s).0
        ≡ gen_wp_region setup.size r
  unfolding get_wp_region
  get_finds s r f =
      rw
        (
          ir.probed,
          and_then-done (set_low_speed spi setup s) _ (ir.slows s),
          and_then-done (read_reg spi setup left_over access (set_low_speed spi setup s).1) _
              (read_found (set_low_speed spi setup s).1),
          ir.slows_keep s,
          f,
        )
        refl

  pub get_misses :
      (s : Snor W)
      → find_range (bit_and (reg s) info.sr_mask) info.ranges ≡ none
      → (get_wp_region spi setup left_over (some (info, access)) none s).0 ≡ err fail
  unfolding get_wp_region
  get_misses s f =
      rw
        (
          ir.probed,
          and_then-done (set_low_speed spi setup s) _ (ir.slows s),
          and_then-done (read_reg spi setup left_over access (set_low_speed spi setup s).1) _
              (read_found (set_low_speed spi setup s).1),
          ir.slows_keep s,
          f,
        )
        refl

  -- The states after the first read, the write and the read back.
  module _ (r : WpRange) (within : bit_and r.sr_val info.sr_mask ≡ r.sr_val) (s : Snor W) where
    wanted : ℕ
    wanted = bit_or (reg s - bit_and (reg s) info.sr_mask) r.sr_val

    read_once : Snor W
    read_once = (read_reg_acc spi setup left_over access s).1

    written : Snor W
    unfolding read_once wanted
    written = (write_reg_acc spi setup left_over access wanted false read_once).1

    read_back : Snor W
    unfolding written
    read_back = (read_reg_acc spi setup left_over access written).1

    written_holds : bit_and (reg written) info.sr_mask ≡ r.sr_val
    unfolding written wanted
    written_holds =
        ir.takes wanted read_once ∙ bit_and-replaced (reg s) info.sr_mask r.sr_val within

    read_back_holds : bit_and (reg read_back) info.sr_mask ≡ r.sr_val
    unfolding read_back
    read_back_holds = ap (λ (t : ℕ). bit_and t info.sr_mask) (ir.reads_keep written) ∙ written_holds

    program_takes :
        program spi setup left_over (some (info, access)) none info access r s
        ≡ (done tt, read_back)
    unfolding program read_back written wanted read_once
    program_takes = rw (and_then-done (read_reg_acc spi setup left_over access s) _ (ir.reads s)) (
        rw
          (and_then-done (write_reg_acc spi setup left_over access wanted false read_once) _
            (ir.writes wanted read_once))
          (rw (and_then-done (read_reg_acc spi setup left_over access written) _ (ir.reads written))
            (rw ((==_iff _ _).1 written_holds) refl)))

  -- The base that is looked for: that of a region of the whole chip does not count.
  abbrev pub base_of : WpRegion → ℕ
  base_of region = if region.size == setup.size then 0 else region.base

  abbrev pub set : WpRegion → Call (Snor W) (Unit {0})
  set = set_wp_region spi setup left_over (some (info, access)) none

  abbrev pub get : Call (Snor W) WpRegion
  get = get_wp_region spi setup left_over (some (info, access)) none

  pub set_takes :
      (region : WpRegion) (s : Snor W) (r : WpRange)
      → bit_and r.sr_val info.sr_mask ≡ r.sr_val
      → find_region setup.size (base_of region) region.size info.ranges ≡ done r
      → ((set region s).0 ≡ done tt) × (bit_and (reg (set region s).1) info.sr_mask ≡ r.sr_val)
  unfolding set_wp_region
  set_takes region s r within f =
      let s2 = bus_lock spi setup (set_low_speed spi setup s).1 in
      let runs : set region s ≡ (done tt, bus_unlock spi setup (read_back r within s2)) =
        rw (ir.probed, f)
          (and_then-done (set_low_speed spi setup s) _ (ir.slows s)
            ∙ ap (λ (p : Result (Unit {0}) × Snor W). (p.0, bus_unlock spi setup p.1))
                (program_takes r within s2)) in
      (
        ap (λ (p : Result (Unit {0}) × Snor W). p.0) runs,
        ap (λ (p : Result (Unit {0}) × Snor W). bit_and (reg p.1) info.sr_mask) runs
            ∙ ap (λ (t : ℕ). bit_and t info.sr_mask) (ir.unlocks_keep (read_back r within s2))
            ∙ read_back_holds r within s2,
      )

  set_found :
      (region : WpRegion) (s : Snor W)
      → (set region s).0 ≡ done tt
      → (r : WpRange) × (find_region setup.size (base_of region) region.size info.ranges ≡ done r)
  unfolding set_wp_region
  set_found region s h =
      elim (Result-cases (find_region setup.size (base_of region) region.size info.ranges)) [
        | inl (r, found) ↦ (r, found)
        | inr (e, missing) ↦ absurd (cc (rw (ir.probed, missing) at h))
      ]

  -- On a chip whose register holds what is written to it, a region that has been set is the one
  -- in force, if the values of the table's ranges are different and within its mask.
  pub get_wp_region-set_wp_region :
      (region : WpRegion) (s : Snor W)
      → is_sound info ≡ true
      → (set region s).0 ≡ done tt
      → (get (set region s).1).0 ≡ done (record { base = base_of region; size = region.size })
  unfolding is_sound
  get_wp_region-set_wp_region region s sound h =
      let (r, found) = set_found region s h in
      let is_it =
        find_region-IsFound setup.size (base_of region) region.size info.sr_mask info.ranges
          (ground (arith, sound)) (ground (arith, sound)) found in
      let (_, took) = set_takes region s r is_it.within found in
      get_finds (set region s).1 r (ap (λ (t : ℕ). find_range t info.ranges) took ∙ is_it.first)
      ∙ is_it.region

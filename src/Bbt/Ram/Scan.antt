-- ===== src/Bbt/Ram/Scan.antt =====
-- The full scan of a RAM table, over a chip whose markers always say the same.
use ufprog.Common.{
  ℕ, zero, suc, ◌+◌, ◌≤◌, ◌<◌, ◌≡◌, ◌≢◌, ◌⊎◌, inl, inr, refl, sym, ap, ◌∙◌, arith, bit_and, ◌==◌,
  ==_of_ne, ◌||◌, not, if◌then◌else◌, Bool, false, Status, ok, device_io_error, done,
}
use native.Mathlib.Decide.{ℕ_discrete}
use ufprog.Bitmap.{bitmap_get}
use ufprog.Bitmap.Access.{bitmap_get-bitmap_set}
use ufprog.Bbt.{st_unknown}
use ufprog.Bbt.Ram.{RamWorld, state_of, full_scan, reprobe_block, scan, reprobe}
use ufprog.Bbt.Ram.Ask.{IsSized, reprobe_block-IsSized, reprobed, state_of-lt}
use ufprog.Nand.Api.{NandOps, Geometry}

-- Whether the state of one of the `left` blocks from `block` on can be told.
abbrev pub some_known : (ℕ → Status) → ℕ → ℕ → Bool
some_known verdict zero block = false
some_known verdict (suc left) block =
    not (state_of (verdict block) == st_unknown) || some_known verdict left (block + 1)

-- The table after the blocks `block` to `block + left` were scanned from `s`.
pub record IsScanned {W : Type 0} (geo : Geometry) (verdict : ℕ → Status) (left block : ℕ)
    (s s' : RamWorld W) : Type 0 where
  pub sized : IsSized geo s'.ram
  pub inside :
      (b : ℕ) → block ≤ b → b < block + left → bitmap_get s'.ram.bm b ≡ done (state_of (verdict b))
  pub outside :
      (b : ℕ) → (b < block) ⊎ (block + left ≤ b) → bitmap_get s'.ram.bm b ≡ bitmap_get s.ram.bm b

module _ {W : Type 0} (nand : NandOps W) (geo : Geometry) (verdict : ℕ → Status)
    (stable : (block : ℕ) (w : W) → (nand.checkbad block w).0 ≡ verdict block) where
  verdict_here :
      (block : ℕ) (s : RamWorld W) → (reprobe_block nand geo block s).0 ≡ state_of (verdict block)
  unfolding reprobe_block
  verdict_here block s = rw (stable block s.world) refl

  others_kept :
      (block b : ℕ) (s : RamWorld W)
      → IsSized geo s.ram
      → block < geo.block_count
      → block ≢ b
      → bitmap_get (reprobe_block nand geo block s).1.ram.bm b ≡ bitmap_get s.ram.bm b
  unfolding reprobe_block
  others_kept block b s v h ne =
      bitmap_get-bitmap_set s.ram.bm v.valid block _ (omega (arith, v.a_unit_each))
        (omega (arith, v.two_bits, state_of-lt (nand.checkbad block s.world).0)) b
      ∙ rw (==_of_ne block b ne) refl

  scan-IsScanned :
      (left block : ℕ) (known : Bool) (s : RamWorld W)
      → block + left ≤ geo.block_count
      → IsSized geo s.ram
      → let (known', s') = scan nand geo left block known s in
        (known' ≡ (known || some_known verdict left block)) × IsScanned geo verdict left block s s'
  unfolding scan
  scan-IsScanned zero block known s h v = (
    ground arith,
    record { sized = v; inside = λ b l u. absurd (omega (arith, l, u)); outside = λ b o. refl },
  )
  scan-IsScanned (suc left) block known s h v =
      let s1 = (reprobe_block nand geo block s).1 in
      let v1 = reprobe_block-IsSized nand geo block s (omega (arith, h)) v in
      let (k, r) =
        scan-IsScanned left (block + 1)
          (known || not ((reprobe_block nand geo block s).0 == st_unknown)) s1 (omega (arith, h))
          v1 in
      (
        k ∙ rw (verdict_here block s) (ground arith),
        record {
          sized = r.sized;
          inside = λ b l u. elim (ℕ_discrete block b) [
            | yes e ↦
                r.outside b (inl (omega (arith, e)))
                ∙ ap (bitmap_get s1.ram.bm) (sym e)
                ∙ reprobed nand geo block s v (omega (arith, h))
                ∙ ap done (verdict_here block s ∙ ap (λ (x : ℕ). state_of (verdict x)) e)
            | no ne ↦ r.inside b (omega (arith, l, ne)) (omega (arith, u))
          ];
          outside = λ b o.
              r.outside b
                (elim o [ inl lt ↦ inl (omega (arith, lt)) | inr ge ↦ inr (omega (arith, ge)) ])
              ∙ others_kept block b s v (omega (arith, h))
                  (λ e. elim o [ inl lt ↦ omega (arith, lt, e) | inr ge ↦ omega (arith, ge, e) ]);
        },
      )

  -- If the chip always says the same of a block's marker, `bbt_ram_reprobe` with a full scan leaves
  -- each block of the chip with the state that its marker tells, and gives UFP_OK if the state of at
  -- least one block could be told, and UFP_DEVICE_IO_ERROR if none could.
  pub reprobe-IsScanned :
      (s : RamWorld W)
      → IsSized geo s.ram
      → bit_and s.ram.config full_scan ≢ 0
      → let (ret, s') = reprobe nand geo s in
        (ret ≡ (if some_known verdict geo.block_count 0 then ok else device_io_error))
        × IsScanned geo verdict geo.block_count 0 s s'
  unfolding reprobe
  reprobe-IsScanned s v full =
      let (k, r) = scan-IsScanned geo.block_count 0 false s (omega arith) v in
      rw (==_of_ne (bit_and s.ram.config full_scan) 0 full, k) (refl, r)

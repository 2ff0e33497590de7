-- ===== src/Bbt/Ram/Ask.antt =====
-- The RAM table as a cache of what the chip says: a state that is set or was found is given back
-- with no further question to the chip.
use ufprog.Common.{ℕ, ◌<◌, ◌≡◌, ◌≢◌, refl, ap, ◌∙◌, arith}
use ufprog.Common.{if◌then◌else◌, leb_of_gt, ==_iff, ==_of_ne}
use ufprog.Common.{Bool, Status, ok, done}
use ufprog.Bitmap.{bitmap_set, bitmap_get}
use ufprog.Bitmap.Inv.{IsValid}
use native.Mathlib.Decide.{ℕ_discrete}
use ufprog.Bitmap.Access.{
  unit_at, bitmap_get-eq, bitmap_set-IsValid, bitmap_get-bitmap_set, unit_count-bitmap_set,
  unit_mask-bitmap_set,
}
use ufprog.Bbt.{st_unknown, st_max}
use ufprog.Bbt.Ram.{BbtRam, RamWorld, state_of, reprobe_block, get_state, set_state}
use ufprog.Nand.Api.{NandOps, Geometry}

-- The bitmap is valid and has a two-bit unit for each block.
pub record IsSized (geo : Geometry) (ram : BbtRam) : Type 0 where
  pub valid : IsValid ram.bm
  pub a_unit_each : ram.bm.unit_count ≡ geo.block_count
  pub two_bits : ram.bm.unit_mask ≡ 3

pub state_of-lt : (ret : Status) → state_of ret < st_max
state_of-lt ret = ground arith

module _ {W : Type 0} (nand : NandOps W) (geo : Geometry) where
  pub reprobe_block-IsSized :
      (block : ℕ) (s : RamWorld W)
      → block < geo.block_count
      → IsSized geo s.ram
      → IsSized geo (reprobe_block nand geo block s).1.ram
  unfolding reprobe_block
  reprobe_block-IsSized block s h v =
      let st = state_of (nand.checkbad block s.world).0 in
      record {
        valid =
            (bitmap_set-IsValid s.ram.bm v.valid block st (omega (arith, v.a_unit_each))
              (omega (arith, v.two_bits, state_of-lt (nand.checkbad block s.world).0))).1;
        a_unit_each = unit_count-bitmap_set s.ram.bm block st ∙ v.a_unit_each;
        two_bits = unit_mask-bitmap_set s.ram.bm block st ∙ v.two_bits;
      }

  pub get_state_known :
      (block state : ℕ) (s : RamWorld W)
      → block < geo.block_count
      → bitmap_get s.ram.bm block ≡ done state
      → state ≢ st_unknown
      → get_state nand geo block s ≡ (ok, state, s)
  unfolding get_state
  get_state_known block state s h e known =
      rw (leb_of_gt geo.block_count block h, e, ==_of_ne state st_unknown known)

  get_state_asks :
      (block : ℕ) (s : RamWorld W)
      → block < geo.block_count
      → bitmap_get s.ram.bm block ≡ done st_unknown
      → get_state nand geo block s
        ≡ (ok, (reprobe_block nand geo block s).0, (reprobe_block nand geo block s).1)
  unfolding get_state
  get_state_asks block s h e = rw (leb_of_gt geo.block_count block h, e)

  set_state-eq :
      (block state : ℕ) (s : RamWorld W)
      → IsSized geo s.ram
      → block < geo.block_count
      → state < st_max
      → set_state nand geo block state s
        ≡ (ok, record s { ram = record s.ram { bm = (bitmap_set s.ram.bm block state).1 } })
  unfolding set_state
  set_state-eq block state s v h hs = rw (
    leb_of_gt geo.block_count block h,
    leb_of_gt st_max state hs,
    (bitmap_set-IsValid s.ram.bm v.valid block state (omega (arith, v.a_unit_each))
        (omega (arith, v.two_bits))).0,
  )

  stored_state :
      (block state : ℕ) (s : RamWorld W)
      → IsSized geo s.ram
      → block < geo.block_count
      → state < st_max
      → bitmap_get (bitmap_set s.ram.bm block state).1 block ≡ done state
  stored_state block state s v h hs =
      bitmap_get-bitmap_set s.ram.bm v.valid block state (omega (arith, v.a_unit_each))
        (omega (arith, v.two_bits)) block
      ∙ ap (λ (b : Bool). if b then done state else bitmap_get s.ram.bm block)
          ((==_iff block block).1 refl)

  -- What the chip was found to say is what the bitmap then holds.
  pub reprobed :
      (block : ℕ) (s : RamWorld W)
      → IsSized geo s.ram
      → block < geo.block_count
      → bitmap_get (reprobe_block nand geo block s).1.ram.bm block
        ≡ done (reprobe_block nand geo block s).0
  unfolding reprobe_block
  reprobed block s v h = stored_state block _ s v h (state_of-lt (nand.checkbad block s.world).0)

  -- `bbt_ram_set_state` of a block of the chip to a proper state succeeds, and `bbt_ram_get_state`
  -- then gives that state and changes nothing, the chip included.
  pub get_state-set_state :
      (block state : ℕ) (s : RamWorld W)
      → IsSized geo s.ram
      → block < geo.block_count
      → state < st_max
      → state ≢ st_unknown
      → let (ret, s') = set_state nand geo block state s in
        (ret ≡ ok) × (get_state nand geo block s' ≡ (ok, state, s'))
  get_state-set_state block state s v h hs known =
      rw (set_state-eq block state s v h hs)
        (refl, get_state_known block state _ h (stored_state block state s v h hs) known)

  -- What `bbt_ram_get_state` answers, if it is not unknown, it answers again from the table alone:
  -- the second call changes nothing, and so does not ask the chip.
  pub get_state_again :
      (block : ℕ) (s : RamWorld W)
      → IsSized geo s.ram
      → block < geo.block_count
      → (get_state nand geo block s).1 ≢ st_unknown
      → let (ret, state, s') = get_state nand geo block s in
        (ret ≡ ok) × (get_state nand geo block s' ≡ (ok, state, s'))
  get_state_again block s v h known = elim (ℕ_discrete (unit_at s.ram.bm block) st_unknown) [
    | yes e ↦
        let asked = get_state_asks block s h (held ∙ ap done e) in
        rw asked (
          refl,
          get_state_known block (reprobe_block nand geo block s).0
              (reprobe_block nand geo block s).1 h (reprobed block s v h)
              (λ z. known (ap (λ r. r.1) asked ∙ z)),
        )
    | no e ↦
        let same = get_state_known block (unit_at s.ram.bm block) s h held e in rw same (refl, same)
  ]
    where
      held : bitmap_get s.ram.bm block ≡ done (unit_at s.ram.bm block)
      held = bitmap_get-eq s.ram.bm v.valid block (omega (arith, v.a_unit_each))

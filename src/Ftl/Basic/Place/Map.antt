-- ===== src/Ftl/Basic/Place/Map.antt =====
-- The map from pages of a partition to blocks, against a fixed set of good blocks.
use native.Mathlib.Nat.{mod-eq_of_lt, zero-add}
use ufprog.Common.{
  ℕ, ◌+◌, ◌-◌, ◌^◌, ◌/◌, ◌%◌, ◌≤◌, ◌<◌, ◌≡◌, ◌⊎◌, inl, inr, refl, arith, ap, sym, ◌∙◌,
}
use ufprog.Common.{Bool, true, false, Bool-cases, some, Result, done, err}
use ufprog.Common.{address_out_of_range, ◌==◌, bit_and, bit_and_mask}
use ufprog.Bbt.{Bbt}
use ufprog.Nand.Api.{Geometry}
use ufprog.Ftl.Api.{Part}
use ufprog.Ftl.Basic.{FtlState, dont_check_bad}
use ufprog.Ftl.Basic.Place.{Place, Walk, walk, finish, search_from, get_block_page}
use ufprog.Common.{==_iff}
use ufprog.Ftl.Basic.Place.Scan.{count_good, IsSettled, IsWalked, walk-IsWalked}

module _ {W : Type 0} (bbt : Bbt W) (good : ℕ → Bool) (limit : ℕ) (Inv : FtlState W → Type 0)
    (settled : IsSettled bbt good limit Inv) where
  -- A place in `[base, end_block]`, behind `offset` good blocks and no more blocks than needed.
  pub record IsPlaced (base end_block offset page : ℕ) (at : Place) : Type 0 where
    pub ends : at.end_block ≡ end_block
    pub within : at.page ≡ page
    pub from_base : base ≤ at.block
    pub up_to_end : at.block ≤ end_block
    pub rank : count_good good base (at.block - base) ≡ offset
    pub tight : (at.block ≡ base) ⊎ (good (at.block - 1) ≡ true)

  -- The place, or the one error: fewer than `offset` good blocks.
  abbrev pub IsLocated : (base end_block offset page : ℕ) → Result Place → Type 0
  IsLocated base end_block offset page (done at) = IsPlaced base end_block offset page at
  IsLocated base end_block offset page (err ret) =
      (ret ≡ address_out_of_range) × (count_good good base (end_block - base) < offset)

  finish-IsLocated :
      (base end_block offset page steps : ℕ) (s : FtlState W)
      → base ≤ end_block
      → steps ≤ end_block - base
      → 0 + count_good good base steps ≤ offset
      → (0 + count_good good base steps ≡ offset) ⊎ (steps ≡ end_block - base)
      → (0 + count_good good base steps ≡ offset → (steps ≡ 0) ⊎ (good (base + steps - 1) ≡ true))
      → IsLocated base end_block offset page
          (finish bbt offset end_block page
            (done (record { curr = base + steps; logical = 0 + count_good good base steps }), s)).0
  unfolding finish
  finish-IsLocated base end_block offset page steps s le reach most ended last =
      elim (Bool-cases (0 + count_good good base steps == offset)) [
        | inl e ↦ rw e (record {
          ends = refl;
          within = refl;
          from_base = omega arith;
          up_to_end = omega arith;
          rank = ap (count_good good base) run ∙ sym (zero-add _) ∙ (==_iff _ _).0 e;
          tight = elim (last ((==_iff _ _).0 e)) [ inl z ↦ inl (omega (arith, z)) | inr g ↦ inr g ];
        })
        | inr e ↦ rw e (
          refl,
          elim ended [
            | inl p ↦ cc (sym e ∙ (==_iff _ _).1 p)
            | inr p ↦ omega (arith, fewer e, ap (count_good good base) p)
          ],
        )
      ]
    where
      run : base + steps - base ≡ steps
      run = omega arith

      fewer :
          (0 + count_good good base steps == offset) ≡ false → count_good good base steps < offset
      fewer e = ground arith

  finish_state :
      (offset end_block page : ℕ) (r : Result Walk × FtlState W)
      → (finish bbt offset end_block page r).1 ≡ r.1
  unfolding finish
  finish_state offset end_block page (err ret, s) = refl
  finish_state offset end_block page (done at, s) = ground arith

  search_from-IsLocated :
      (base end_block offset page : ℕ) (s : FtlState W)
      → end_block ≤ limit
      → Inv s
      → base ≤ end_block
      → let (r, s') = search_from bbt base end_block offset page s in
        IsLocated base end_block offset page r × Inv s'
  unfolding search_from finish
  search_from-IsLocated base end_block offset page s b i le =
      let r = walk bbt (end_block - base) base 0 offset s in
      let v : IsWalked bbt good limit Inv settled (end_block - base) base 0 offset r =
        walk-IsWalked bbt good limit Inv settled (end_block - base) base 0 offset s (omega arith) i
          (omega arith) in
      let e = ap (λ (x : Result Walk). finish bbt offset end_block page (x, r.1)) v.result in
      (
        rw e (
            finish-IsLocated base end_block offset page v.steps r.1 le v.in_reach v.at_most v.ended
              v.last_good),
        rw (finish_state offset end_block page r) v.keeps,
      )

  module _ (geo : Geometry) (flags : ℕ) (checks : bit_and flags dont_check_bad ≡ 0)
      (mask : geo.pages_per_block_mask ≡ 2 ^ geo.pages_per_block_shift - 1) where
    -- With bad blocks checked, page `p` of a partition is placed at page `p % 2 ^ shift` of the block
    -- behind the first `p / 2 ^ shift` good blocks of the partition, and of no more blocks than
    -- needed; the call fails, and then with UFP_FLASH_ADDRESS_OUT_OF_RANGE, only if the partition has
    -- fewer good blocks than that. The partition's end must not wrap.
    pub get_block_page-IsLocated :
        (part : Part) (page : ℕ) (s : FtlState W)
        → part.base_block + part.part_blocks < 2 ^ 32
        → part.base_block + part.part_blocks ≤ limit
        → Inv s
        → let (r, s') = get_block_page bbt geo flags (some part) page s in
          IsLocated part.base_block
            (part.base_block + part.part_blocks)
            (page / 2 ^ geo.pages_per_block_shift)
            (page % 2 ^ geo.pages_per_block_shift)
            r
          × Inv s'
    unfolding get_block_page
    get_block_page-IsLocated part page s fits b i =
        rw
          (
            checks,
            mask,
            bit_and_mask geo.pages_per_block_shift page,
            mod-eq_of_lt {n = part.base_block + part.part_blocks} {m = 2 ^ 32} fits,
          )
          (search_from-IsLocated part.base_block (part.base_block + part.part_blocks) _ _ s b i
            (omega arith))

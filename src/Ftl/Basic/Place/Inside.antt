-- ===== src/Ftl/Basic/Place/Inside.antt =====
-- `get_block_page` asks only about blocks of the partition, and the place it gives lies in it.
use native.Mathlib.Nat.{mod-eq_of_lt}
use ufprog.Common.{ℕ, zero, suc, ◌+◌, ◌-◌, ◌^◌, ◌≤◌, ◌<◌, ◌≡◌, ◌>>>◌, refl, arith, sym}
use ufprog.Common.{true, Bool-cases, inl, inr, Option, none, some, Result, done, err}
use ufprog.Common.{is_ok, is_fail, leb, ◌==◌, bit_and}
use ufprog.Bbt.{Bbt}
use ufprog.Nand.Api.{Geometry}
use ufprog.Ftl.Api.{Part}
use ufprog.Ftl.Basic.{FtlState, is_good_block, dont_check_bad}
use ufprog.Ftl.Basic.Transfer.{check_block}
use ufprog.Ftl.Basic.Place.{Place, Walk, walk, finish, search_from, located, get_block_page}

-- The place lies in the range of blocks, and its page is the page asked for.
abbrev pub IsInside : (lo hi page : ℕ) → Result Place → Type 0
IsInside lo hi page (done at) = (lo ≤ at.block) × (at.end_block ≡ hi) × (at.page ≡ page)
IsInside lo hi page (err ret) = Unit {0}

-- Where the blocks of a partition begin and end; with no partition they run from the block asked for
-- to the end of the chip.
abbrev pub begin_of : Geometry → Option Part → ℕ → ℕ
begin_of geo none page = page >>> geo.pages_per_block_shift
begin_of geo (some part) page = part.base_block

abbrev pub end_of : Geometry → Option Part → ℕ
end_of geo none = geo.block_count
end_of geo (some part) = part.base_block + part.part_blocks

-- The numbers of the blocks of a partition, and of the block asked for, do not wrap.
abbrev pub Fits : Geometry → Option Part → ℕ → Type 0
Fits geo none page = Unit {0}
Fits geo (some part) page =
    (part.base_block + part.part_blocks < 2 ^ 32)
    × (part.base_block + (page >>> geo.pages_per_block_shift) < 2 ^ 32)

module _ {W : Type 0} (bbt : Bbt W) (lo hi : ℕ) (P : FtlState W → Type 0)
    (asks : (c : ℕ) (s : FtlState W) → lo ≤ c → c < hi → P s → P (is_good_block bbt c s).1) where
  abbrev Reaches : ℕ → Result Walk → Type 0
  Reaches curr (done at) = curr ≤ at.curr
  Reaches curr (err ret) = Unit {0}

  later : (curr : ℕ) (r : Result Walk) → Reaches (curr + 1) r → Reaches curr r
  later curr (done at) h = omega arith
  later curr (err ret) h = tt

  walk-keeps :
      (left curr logical offset : ℕ) (s : FtlState W)
      → lo ≤ curr
      → left ≤ hi - curr
      → P s
      → let (r, s') = walk bbt left curr logical offset s in Reaches curr r × P s'
  unfolding walk
  walk-keeps zero curr logical offset s l h p = (omega arith, p)
  walk-keeps (suc left) curr logical offset s l h p = elim (Bool-cases (leb offset logical)) [
    | inl e ↦ rw e (omega arith, p)
    | inr e ↦ rw e (elim (Bool-cases (is_ok (is_good_block bbt curr s).0)) [
      | inl good ↦ rw good (elim (Bool-cases (logical == offset)) [
        | inl same ↦ rw same (omega arith, asked)
        | inr more ↦ rw more (
            on _ (
              walk-keeps left (curr + 1) (logical + 1) offset (is_good_block bbt curr s).1
                (omega arith) (omega arith) asked))
      ])
      | inr not_good ↦ rw not_good (elim (Bool-cases (is_fail (is_good_block bbt curr s).0)) [
        | inl bad ↦ rw bad (
            on _ (
              walk-keeps left (curr + 1) logical offset (is_good_block bbt curr s).1 (omega arith)
                (omega arith) asked))
        | inr error ↦ rw error (tt, asked)
      ])
    ])
  ]
    where
      asked : P (is_good_block bbt curr s).1
      asked = asks curr s l (omega arith) p

      on :
          (x : Result Walk × FtlState W) → Reaches (curr + 1) x.0 × P x.1 → Reaches curr x.0 × P x.1
      on x h = (later curr x.0 h.0, h.1)

  finish-IsInside :
      (offset page : ℕ) (r : Result Walk × FtlState W)
      → Reaches lo r.0 × P r.1
      → let (r', s') = finish bbt offset hi page r in IsInside lo hi page r' × P s'
  unfolding finish
  finish-IsInside offset page (done at, s) h = elim (Bool-cases (at.logical == offset)) [
    | inl e ↦ rw e ((h.0, refl, refl), h.1)
    | inr e ↦ rw e (tt, h.1)
  ]
  finish-IsInside offset page (err ret, s) h = (tt, h.1)

  search_from-IsInside :
      (offset page : ℕ) (s : FtlState W)
      → P s
      → let (r, s') = search_from bbt lo hi offset page s in IsInside lo hi page r × P s'
  unfolding search_from
  search_from-IsInside offset page s p =
      finish-IsInside offset page (walk bbt (hi - lo) lo 0 offset s)
        (walk-keeps (hi - lo) lo 0 offset s (omega arith) (omega arith) p)

module _ {W : Type 0} (bbt : Bbt W) (geo : Geometry) (flags lo hi : ℕ) (P : FtlState W → Type 0)
    (asks : (c : ℕ) (s : FtlState W)
      → lo ≤ c
      → c < hi
      → P s
      → P (check_block bbt flags c s).1) where
  check_block-checked :
      (c : ℕ) (s : FtlState W)
      → (bit_and flags dont_check_bad == 0) ≡ true
      → check_block bbt flags c s ≡ is_good_block bbt c s
  unfolding check_block
  check_block-checked c s e = rw e refl

  located-IsInside :
      (unchecked offset page : ℕ) (s : FtlState W)
      → lo ≤ unchecked
      → P s
      → let (r, s') = located bbt geo flags unchecked lo hi offset page s in
        IsInside lo hi page r × P s'
  unfolding located
  located-IsInside unchecked offset page s h p =
      elim (Bool-cases (bit_and flags dont_check_bad == 0)) [
        | inl e ↦ rw e (
            search_from-IsInside bbt lo hi P
              (λ c s l h p. rw (sym (check_block-checked c s e)) (asks c s l h p)) offset page s p)
        | inr e ↦ rw e ((h, refl, refl), p)
      ]

module _ {W : Type 0} (bbt : Bbt W) (geo : Geometry) (flags : ℕ) (P : FtlState W → Type 0) where
  -- The table may be asked about every block of the partition.
  abbrev pub MayAsk : ℕ → ℕ → Type 0
  MayAsk lo hi = (c : ℕ) (s : FtlState W) → lo ≤ c → c < hi → P s → P (check_block bbt flags c s).1

  -- Placing a page asks about blocks of the partition alone, and the place lies in the partition or
  -- behind its end.
  pub get_block_page-IsInside :
      (part : Option Part) (page : ℕ) (s : FtlState W)
      → MayAsk (begin_of geo part page) (end_of geo part)
      → Fits geo part page
      → P s
      → let (r, s') = get_block_page bbt geo flags part page s in
        IsInside
          (begin_of geo part page)
          (end_of geo part)
          (bit_and page geo.pages_per_block_mask)
          r
        × P s'
  unfolding get_block_page
  get_block_page-IsInside none page s asks fits p =
      located-IsInside bbt geo flags _ _ P asks (page >>> geo.pages_per_block_shift) 0 _ s
        (omega arith) p
  get_block_page-IsInside (some part) page s asks fits p =
      rw
        (
          mod-eq_of_lt {n = part.base_block + part.part_blocks} {m = 2 ^ 32} fits.0,
          mod-eq_of_lt {n = part.base_block + (page >>> geo.pages_per_block_shift)} {m = 2 ^ 32}
              fits.1,
        )
        (located-IsInside bbt geo flags _ _ P asks
          (part.base_block + (page >>> geo.pages_per_block_shift))
          (page >>> geo.pages_per_block_shift) _ s (omega arith) p)

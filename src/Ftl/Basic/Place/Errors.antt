-- ===== src/Ftl/Basic/Place/Errors.antt =====
-- A page that is not placed comes with an error.
use ufprog.Common.{ℕ, zero, suc, ◌+◌, ◌-◌, bit_and, ◌≢◌, arith, ◌==◌}
use ufprog.Common.{either, Option, none, some, Result, done, err, ok, not_ok}
use ufprog.Bbt.{Bbt}
use ufprog.Nand.Api.{Geometry}
use ufprog.Ftl.Api.{Part}
use ufprog.Ftl.Basic.{FtlState, is_good_block, dont_check_bad}
use ufprog.Ftl.Basic.Place.{Place, Walk, walk, finish, search_from, located, get_block_page}

-- No error is UFP_OK.
abbrev pub IsHonest : {A : Type 0} → Result A → Type 0
IsHonest (done a) = Unit {0}
IsHonest (err ret) = ret ≢ ok

module _ {W : Type 0} (bbt : Bbt W) where
  walk-IsHonest :
      (left curr logical offset : ℕ) (s : FtlState W)
      → IsHonest (walk bbt left curr logical offset s).0
  unfolding walk
  walk-IsHonest zero curr logical offset s = tt
  walk-IsHonest (suc left) curr logical offset s = ground (
    arith,
    not_ok (is_good_block bbt curr s).0,
    walk-IsHonest left (curr + 1) logical offset (is_good_block bbt curr s).1,
    walk-IsHonest left (curr + 1) (logical + 1) offset (is_good_block bbt curr s).1,
  )

  finish-IsHonest :
      (offset end_block page : ℕ) (r : Result Walk × FtlState W)
      → IsHonest r.0
      → IsHonest (finish bbt offset end_block page r).0
  unfolding finish
  finish-IsHonest offset end_block page (err ret, s) h = h
  finish-IsHonest offset end_block page (done at, s) h = ground arith

  located-IsHonest :
      (geo : Geometry) (flags unchecked base end_block offset page : ℕ) (s : FtlState W)
      → IsHonest (located bbt geo flags unchecked base end_block offset page s).0
  unfolding located search_from
  located-IsHonest geo flags unchecked base end_block offset page s =
      either (λ (x : Result Place × FtlState W). IsHonest x.0) (bit_and flags dont_check_bad == 0)
        (λ e.
          finish-IsHonest offset end_block page _
            (walk-IsHonest (end_block - base) base 0 offset s))
        (λ e. tt)

  pub get_block_page-IsHonest :
      (geo : Geometry) (flags : ℕ) (part : Option Part) (page : ℕ) (s : FtlState W)
      → IsHonest (get_block_page bbt geo flags part page s).0
  unfolding get_block_page
  get_block_page-IsHonest geo flags none page s = located-IsHonest geo flags _ _ _ _ _ s
  get_block_page-IsHonest geo flags (some part) page s = located-IsHonest geo flags _ _ _ _ _ s

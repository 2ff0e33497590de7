-- ===== src/Ftl/Basic/Transfer.antt =====
-- What `ftl_basic_read_pages` and `ftl_basic_write_pages` share: their locals and the arithmetic on
-- them.
pub mod Sum
use ufprog.Common.{ℕ, ◌+◌, ◌*◌, ◌-◌, ◌^◌, ◌<<<◌, u32, bit_and, ltb, ◌==◌, if◌then◌else◌}
use ufprog.Common.{Bool, false, not, Option, none, some, Status, ok, is_ok}
use ufprog.Bbt.{Bbt}
use ufprog.Nand.Api.{Geometry}
use ufprog.Ftl.Api.{Callback}
use ufprog.Ftl.Basic.{FtlState, is_good_block, dont_check_bad}

-- `count`, `offset_page`, the pages done so far (`rdcnt` or `wrcnt`), `p` and `ret`.
pub record Transfer : Type 0 where
  pub count : ℕ
  pub offset : ℕ
  pub total : ℕ
  pub p : ℕ
  pub ret : Status

module _ (geo : Geometry) where
  -- `curr_cnt`: up to the end of the block, but no more than is wanted.
  abbrev pub part_count : Transfer → ℕ
  part_count t =
      let room = u32 (geo.pages_per_block + 2 ^ 32 - t.offset) in
      if ltb t.count room then t.count else room

  -- `curr_page`
  abbrev pub first_page : ℕ → Transfer → ℕ
  first_page curr t = u32 (u32 (curr <<< geo.pages_per_block_shift) + t.offset)

  -- The locals after a block is done.
  abbrev pub advance : Transfer → Transfer
  advance t = record {
    count = t.count - part_count t;
    offset = 0;
    total = u32 (t.total + part_count t);
    p = t.p + u32 (part_count t * geo.oob_page_size);
    ret = ok;
  }

module _ {W : Type 0} where
  -- The check of a block, which is left out with `FTL_BASIC_F_DONT_CHECK_BAD`.
  unfoldable pub check_block : Bbt W → ℕ → ℕ → FtlState W → Status × FtlState W
  check_block bbt flags curr s =
      if bit_and flags dont_check_bad == 0 then is_good_block bbt curr s else (ok, s)

  -- `if (cb && retcnt) { ret = cb->post(cb, retcnt); ... }`: the new `ret`, and whether `post` failed.
  unfoldable pub after_transfer : Option (Callback W) → Status → ℕ → W → Status × Bool × W
  after_transfer none ret retcnt w = (ret, false, w)
  after_transfer (some cb) ret retcnt w =
      if retcnt == 0
      then (ret, false, w)
      else (let (r, w') = cb.post retcnt w in (r, not (is_ok r), w'))

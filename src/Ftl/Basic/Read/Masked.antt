-- ===== src/Ftl/Basic/Read/Masked.antt =====
-- With a callback, the status of a read that transferred pages is lost.
use ufprog.Common.{ℕ, zero, suc, ◌+◌, ◌≡◌, ◌≢◌, refl, ◌==◌, ==_of_ne, Bool, if◌then◌else◌}
use ufprog.Common.{Option, some, Result, done, err, Status}
use ufprog.Bbt.{Bbt}
use ufprog.Nand.Api.{NandOps, Geometry}
use ufprog.Ftl.Api.{Part, Callback, buffer_of, pre_call}
use ufprog.Ftl.Basic.{FtlState}
use ufprog.Ftl.Basic.Transfer.{Transfer, check_block, part_count, first_page, after_transfer}
use ufprog.Ftl.Basic.Place.{Place, get_block_page}
use ufprog.Ftl.Basic.Read.{
  Round, stop, next, read_block, read_round, read_loop, read_from, read_pages,
}

module _ {W : Type 0} (nand nand' : NandOps W) (bbt : Bbt W) (geo : Geometry) (flags : ℕ)
    (raw : Bool) (read_flags : ℕ) (cb : Callback W)
    (some_pages : (first n buf : ℕ) (w : W) → (nand.read_pages first n buf raw read_flags w).1 ≢ 0)
    (same_count : (first n buf : ℕ) (w : W)
      → (nand'.read_pages first n buf raw read_flags w).1
        ≡ (nand.read_pages first n buf raw read_flags w).1)
    (same_world : (first n buf : ℕ) (w : W)
      → (nand'.read_pages first n buf raw read_flags w).2
        ≡ (nand.read_pages first n buf raw read_flags w).2) where
  status_lost :
      (ret ret' : Status) (n : ℕ) (w : W)
      → n ≢ 0
      → after_transfer (some cb) ret n w ≡ after_transfer (some cb) ret' n w
  unfolding after_transfer
  status_lost ret ret' n w h = rw (==_of_ne n 0 h) refl

  same_block :
      (c : ℕ) (t : Transfer) (s : FtlState W)
      → read_block nand' bbt geo flags raw read_flags (some cb) c t s
        ≡ read_block nand bbt geo flags raw read_flags (some cb) c t s
  unfolding read_block
  same_block c t s =
      let first = first_page geo c t in
      let n = part_count geo t in
      let buf = buffer_of (some cb) t.p in
      let r = nand.read_pages first n buf raw read_flags s.world in
      let r' = nand'.read_pages first n buf raw read_flags s.world in
      rw
        (
          same_count first n buf s.world,
          same_world first n buf s.world,
          status_lost r'.0 r.0 r.1 r.2 (some_pages first n buf s.world),
        )
        refl

  same_round :
      (c : ℕ) (t : Transfer) (s : FtlState W)
      → read_round nand' bbt geo flags raw read_flags (some cb) c t s
        ≡ read_round nand bbt geo flags raw read_flags (some cb) c t s
  unfolding read_round
  same_round c t s =
      let s1 = (check_block bbt flags c s).1 in
      rw (same_block c t (record s1 { world = (pre_call (some cb) (part_count geo t) s1.world).1 }))
        refl

  same_loop :
      (left c : ℕ) (t : Transfer) (s : FtlState W)
      → read_loop nand' bbt geo flags raw read_flags (some cb) left c t s
        ≡ read_loop nand bbt geo flags raw read_flags (some cb) left c t s
  unfolding read_loop
  same_loop zero c t s = refl
  same_loop (suc left) c t s = rw (same_round c t s) (
      on (read_round nand bbt geo flags raw read_flags (some cb) c t s)
        (λ t' s'. same_loop left (c + 1) t' s'))
    where
      on :
          (r : Round W)
          → ((t' : Transfer) (s' : FtlState W)
              → read_loop nand' bbt geo flags raw read_flags (some cb) left (c + 1) t' s'
                ≡ read_loop nand bbt geo flags raw read_flags (some cb) left (c + 1) t' s')
          → let more' : Status × ℕ × FtlState W = elim r [
            | stop ret total s' ↦ (ret, total, s')
            | next t' s' ↦ read_loop nand' bbt geo flags raw read_flags (some cb) left (c + 1) t' s'
          ] in
            let more : Status × ℕ × FtlState W = elim r [
              | stop ret total s' ↦ (ret, total, s')
              | next t' s' ↦
                  read_loop nand bbt geo flags raw read_flags (some cb) left (c + 1) t' s'
            ] in
            (if t.count == 0 then (t.ret, t.total, s) else more')
            ≡ (if t.count == 0 then (t.ret, t.total, s) else more)
      on (stop ret total s') h = refl
      on (next t' s') h = rw (h t' s') refl

  same_from :
      (count buf : ℕ) (r : Result Place × FtlState W)
      → read_from nand' bbt geo flags raw read_flags (some cb) count buf r
        ≡ read_from nand bbt geo flags raw read_flags (some cb) count buf r
  unfolding read_from
  same_from count buf (err ret, s) = refl
  same_from count buf (done at, s) = same_loop _ at.block _ s

  -- With a callback, and a chip whose reads always transfer some page, failed or not, the result of
  -- `ftl_basic_read_pages`, its status included, does not depend on the status of any read: a chip
  -- that reads the same pages with other statuses gives the same.
  pub read_pages_masked :
      (part : Option Part) (page count buf : ℕ) (s : FtlState W)
      → read_pages nand' bbt geo flags part page count buf raw read_flags (some cb) s
        ≡ read_pages nand bbt geo flags part page count buf raw read_flags (some cb) s
  unfolding read_pages
  read_pages_masked part page count buf s =
      same_from count buf (get_block_page bbt geo flags part page s)

-- ===== src/Ftl/Dispatch/Pages/Loop.antt =====
-- The loops over single pages: what they touch, and what their count says.
use native.Mathlib.Nat.{suc-mul}
use ufprog.Common.{ℕ, zero, suc, ◌+◌, ◌*◌, ◌^◌, ◌≤◌, ◌<◌, ◌≡◌, arith, u32, either}
use ufprog.Common.{Bool, Option, Status, ok, is_ok, not_ok}
use ufprog.Nand.Api.{Geometry}
use ufprog.Ftl.Api.{Part, Callback, buffer_of, post_call}
use ufprog.Ftl.Dispatch.{Ftl, table}
use ufprog.Ftl.Dispatch.Pages.{
  each_page, read_step, generic_read_pages, generic_write_pages, generic_erase_blocks,
}

module _ {W : Type 0} (step : ℕ → ℕ → W → Status × W) (stride size : ℕ)
    (cb : Option (Callback W)) where
  abbrev Result3 : Type 0
  Result3 = Status × ℕ × W

  pub each_page_complete :
      (count page p total : ℕ) (w : W)
      → total + count < 2 ^ 32
      → let (ret, total', w') = each_page step stride size cb count page p total w in
        (total' ≤ total + count) × (ret ≡ ok → total' ≡ total + count)
  unfolding each_page
  each_page_complete zero page p total w h = (omega arith, λ e. omega arith)
  each_page_complete (suc count) page p total w h =
      let (ret, w1) = step page (buffer_of cb p) w in
      let (ret', w2) = post_call cb 1 w1 in
      let next : u32 (total + 1) ≡ total + 1 = omega (arith, h) in
      let more =
        each_page_complete count (u32 (page + stride)) (p + size) (u32 (total + 1)) w2
          (omega (arith, h)) in
      either (λ (x : Result3). (x.1 ≤ total + suc count) × (x.0 ≡ ok → x.1 ≡ total + suc count))
        (is_ok ret)
        (λ e.
          either (λ (x : Result3). (x.1 ≤ total + suc count) × (x.0 ≡ ok → x.1 ≡ total + suc count))
            (is_ok ret') (λ e'. (omega (arith, more.0, next), λ k. omega (arith, more.1 k, next)))
            (λ e'. (omega (arith, next), λ k. absurd (not_ok ret' e' k))))
        (λ e. (omega arith, λ k. absurd (not_ok ret e k)))

  pub each_page_whole :
      (count page p : ℕ) (w : W)
      → count < 2 ^ 32
      → let (ret, total', w') = each_page step stride size cb count page p 0 w in
        (total' ≤ count) × (ret ≡ ok → total' ≡ count)
  each_page_whole count page p w h =
      let r = each_page_complete count page p 0 w (omega arith) in
      (omega (arith, r.0), λ e. omega (arith, r.1 e))

  pub each_page-keeps :
      (P : W → Type 0) (first last : ℕ)
      → last < 2 ^ 32
      → 1 ≤ stride
      → ((page p : ℕ) (w : W) → first ≤ page → page < last → P w → P (step page p w).1)
      → ((w : W) → P w → P (post_call cb 1 w).1)
      → (count page p total : ℕ) (w : W) → first ≤ page
      → page + count * stride ≤ last
      → P w
      → P (each_page step stride size cb count page p total w).2
  unfolding each_page
  each_page-keeps P first last small pos steps posts zero page p total w l h k = k
  each_page-keeps P first last small pos steps posts (suc count) page p total w l h k =
      either (λ (x : Result3). P x.2) (is_ok (step page (buffer_of cb p) w).0)
        (λ e.
          either (λ (x : Result3). P x.2)
            (is_ok (post_call cb 1 (step page (buffer_of cb p) w).1).0)
            (λ e'. rw same (
              each_page-keeps P first last small pos steps posts count (page + stride) (p + size)
                (u32 (total + 1)) _ (omega arith) room posted))
            (λ e'. posted))
        (λ e. stepped)
    where
      room : page + stride + count * stride ≤ last
      room = omega (arith, h, suc-mul count stride)

      same : u32 (page + stride) ≡ page + stride
      same = omega (arith, room, small)

      stepped : P (step page (buffer_of cb p) w).1
      stepped = steps page (buffer_of cb p) w l (omega (arith, room, pos)) k

      posted : P (post_call cb 1 (step page (buffer_of cb p) w).1).1
      posted = posts _ stepped

-- The count is no more than `count`, and is that with UFP_OK.
abbrev pub IsComplete : {W : Type 0} → ℕ → Status × ℕ × W → Type 0
IsComplete count (ret, total, w') = (total ≤ count) × (ret ≡ ok → total ≡ count)

module _ {W : Type 0} (ftl : Ftl W) (geo : Geometry) (part : Option Part) (count : ℕ)
    (cb : Option (Callback W)) (w : W) (small : count < 2 ^ 32) where
  -- The loops of ftl.c over pages or blocks, for fewer than 2^32 of them, never count more than was
  -- asked for, and count just that when they give UFP_OK.
  pub generic-IsComplete :
      (page buf : ℕ) (raw ignore_error spread : Bool) (flags : ℕ)
      → IsComplete count (generic_read_pages ftl geo part page count buf raw flags cb w)
        × IsComplete count (generic_write_pages ftl geo part page count buf raw ignore_error cb w)
        × IsComplete count (generic_erase_blocks ftl geo part page count spread cb w)
  unfolding generic_read_pages generic_write_pages generic_erase_blocks
  generic-IsComplete page buf raw ignore_error spread flags = (
    each_page_whole _ 1 geo.oob_page_size cb count page buf w small,
    each_page_whole _ 1 geo.oob_page_size cb count page buf w small,
    each_page_whole _ geo.pages_per_block 0 cb count _ 0 w small,
  )

module _ {W : Type 0} (ftl : Ftl W) (geo : Geometry) (part : Option Part) (cb : Option (Callback W))
    (P : W → Type 0) where
  -- `generic_ftl_read_pages` keeps every property that the callback keeps and that the layer's read of
  -- a single page keeps for each page of the request: it reads no page before or after those. The
  -- request's end must have a 32-bit number.
  pub generic_read_pages-keeps :
      (page count buf : ℕ) (raw : Bool) (flags : ℕ) (w : W)
      → page + count < 2 ^ 32
      → ((p b : ℕ) (w : W)
          → page ≤ p
          → p < page + count
          → P w
          → P ((table ftl).read_page part p b raw w).1)
      → ((w : W) → P w → P (post_call cb 1 w).1)
      → P w
      → P (generic_read_pages ftl geo part page count buf raw flags cb w).2
  unfolding generic_read_pages read_step
  generic_read_pages-keeps page count buf raw flags w small reads posts k =
      each_page-keeps (read_step ftl geo part raw flags) 1 geo.oob_page_size cb P page
        (page + count) small (omega arith) (λ p b w l h k. reads p b w l h k) posts count page buf 0
        w (omega arith) (omega arith) k

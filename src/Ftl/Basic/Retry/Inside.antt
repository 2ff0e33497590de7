-- ===== src/Ftl/Basic/Retry/Inside.antt =====
-- A loop with retries asks for rounds on blocks of its range alone.
use ufprog.Common.{ℕ, zero, suc, ◌+◌, ◌-◌, ◌≤◌, ◌<◌, arith, ◌==◌}
use ufprog.Common.{either, Option, Status}
use ufprog.Bbt.{Bbt, st_bad}
use ufprog.Nand.Api.{NandOps, Geometry}
use ufprog.Ftl.Api.{Callback}
use ufprog.Ftl.Basic.{FtlState, skb_retries}
use ufprog.Ftl.Basic.Transfer.{Transfer}
use ufprog.Ftl.Basic.Confined.{with_world, IsConfined}
use ufprog.Ftl.Basic.Retry.{Round, stop, next, skip, retry, spoil, note_state, give_up, retry_loop}

-- A round keeps `P`, and leaves the offset in a block.
abbrev pub Kept : {W : Type 0} → Geometry → (FtlState W → Type 0) → Round W → Type 0
Kept geo P (stop ret total s) = P s
Kept geo P (next t s) = P s × (t.offset < geo.pages_per_block)
Kept geo P (skip t s) = P s × (t.offset < geo.pages_per_block)
Kept geo P (retry t s) = P s × (t.offset < geo.pages_per_block)
Kept geo P (spoil t s) = P s × (t.offset < geo.pages_per_block)

module _ {W : Type 0} (nand : NandOps W) (bbt : Bbt W) (geo : Geometry) (flags : ℕ)
    (cb : Option (Callback W)) (lo hi : ℕ) (Good : ℕ → Type 0) (P : FtlState W → Type 0)
    (confined : IsConfined nand bbt geo flags cb lo hi Good P) where
  pub give_up-Kept :
      (c : ℕ) (t : Transfer) (s : FtlState W)
      → lo ≤ c
      → c < hi
      → Good c
      → t.offset < geo.pages_per_block
      → P s
      → Kept geo P (give_up nand bbt c t s)
  unfolding give_up
  give_up-Kept c t s l h g o p = ground (arith, marked, noted)
    where
      marked : P (with_world s (nand.markbad c s.world).1)
      marked = confined.marks c s l h g p

      noted : P (note_state bbt c st_bad (with_world s (nand.markbad c s.world).1))
      noted = confined.notes c st_bad _ l h g marked

module _ {W : Type 0} (geo : Geometry) (round : ℕ → Transfer → FtlState W → Round W) (lo hi : ℕ)
    (P : FtlState W → Type 0)
    (keeps : (c : ℕ) (t : Transfer) (s : FtlState W)
      → lo ≤ c
      → c < hi
      → t.offset < geo.pages_per_block
      → P s
      → Kept geo P (round c t s)) where
  pub retry_loop-keeps :
      (left retries c : ℕ) (t : Transfer) (s : FtlState W)
      → lo ≤ c
      → left ≤ hi - c
      → t.offset < geo.pages_per_block
      → P s
      → P (retry_loop round left retries c t s).2
  unfolding retry_loop
  retry_loop-keeps left zero c t s l h o p = p
  retry_loop-keeps zero (suc retries) c t s l h o p = p
  retry_loop-keeps (suc left) (suc retries) c t s l h o p =
      either (λ (x : Status × ℕ × FtlState W). P x.2) (t.count == 0) (λ e. p)
        (λ e.
          on _
            (λ retries' t' s' o' p'.
              retry_loop-keeps left retries' (c + 1) t' s' (omega arith) (omega arith) o' p')
            (λ t' s' o' p'. retry_loop-keeps (suc left) retries c t' s' l h o' p')
            (keeps c t s l (omega arith) o p))
    where
      on :
          (r : Round W)
          → ((retries' : ℕ) (t' : Transfer) (s' : FtlState W)
              → t'.offset < geo.pages_per_block
              → P s'
              → P (retry_loop round left retries' (c + 1) t' s').2)
          → ((t' : Transfer) (s' : FtlState W)
              → t'.offset < geo.pages_per_block
              → P s'
              → P (retry_loop round (suc left) retries c t' s').2)
          → Kept geo P r
          → let more : Status × ℕ × FtlState W = elim r [
            | stop ret total s' ↦ (ret, total, s')
            | next t' s' ↦ retry_loop round left skb_retries (c + 1) t' s'
            | skip t' s' ↦ retry_loop round left (suc retries) (c + 1) t' s'
            | retry t' s' ↦ retry_loop round (suc left) retries c t' s'
            | spoil t' s' ↦ retry_loop round left retries (c + 1) t' s'
          ] in
            P more.2
      on (stop ret total s') onward again k = k
      on (next t' s') onward again k = onward skb_retries t' s' k.1 k.0
      on (skip t' s') onward again k = onward (suc retries) t' s' k.1 k.0
      on (retry t' s') onward again k = again t' s' k.1 k.0
      on (spoil t' s') onward again k = onward retries t' s' k.1 k.0

-- ===== src/Ftl/Basic/Retry/Exhausted.antt =====
-- A loop whose retries run out gives the status of the last one.
use ufprog.Common.{ℕ, zero, suc, ◌≡◌, ◌≢◌, refl, ==_of_ne}
use ufprog.Ftl.Basic.{FtlState}
use ufprog.Ftl.Basic.Transfer.{Transfer}
use ufprog.Ftl.Basic.Retry.{Round, retry, retry_loop}

module _ {W : Type 0} (round : ℕ → Transfer → FtlState W → Round W) (c : ℕ)
    (P : FtlState W → Type 0) (t : Transfer) (more : t.count ≢ 0)
    (again : (s : FtlState W) → P s → (s' : FtlState W) × (round c t s ≡ retry t s') × P s') where
  -- Rounds that all ask for a retry, with nothing done, leave the loop as it began.
  pub retry_loop-exhausted :
      (left retries : ℕ) (s : FtlState W)
      → P s
      → let (ret, total, s') = retry_loop round (suc left) (suc retries) c t s in
        (ret ≡ t.ret) × (total ≡ t.total) × P s'
  unfolding retry_loop
  retry_loop-exhausted left zero s p =
      let (s', e, p') = again s p in rw (==_of_ne t.count 0 more, e) (refl, refl, p')
  retry_loop-exhausted left (suc retries) s p =
      let (s1, e, p1) = again s p in
      rw (==_of_ne t.count 0 more, e) (retry_loop-exhausted left retries s1 p1)

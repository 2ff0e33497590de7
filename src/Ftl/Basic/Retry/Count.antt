-- ===== src/Ftl/Basic/Retry/Count.antt =====
-- What the count of a loop with retries says when the loop gives UFP_OK.
use ufprog.Common.{ℕ, zero, suc, ◌+◌, ◌-◌, ◌≡◌, ◌≢◌, arith, ◌==◌, ==_iff, either}
use ufprog.Common.{Status, ok}
use ufprog.Ftl.Basic.{FtlState, skb_retries}
use ufprog.Ftl.Basic.Transfer.{Transfer}
use ufprog.Ftl.Basic.Retry.{Round, stop, next, skip, retry, spoil, retry_loop}

-- A round that stops has failed, one that goes on keeps the sum of what is done and to do, and none
-- takes a retry.
abbrev pub Counted : {W : Type 0} → ℕ → Round W → Type 0
Counted count (stop ret total s) = ret ≢ ok
Counted count (next t s) = t.total + t.count ≡ count
Counted count (skip t s) = t.total + t.count ≡ count
Counted count (retry t s) = ⊥
Counted count (spoil t s) = ⊥

module _ {W : Type 0} (round : ℕ → Transfer → FtlState W → Round W) (count : ℕ)
    (counts : (c : ℕ) (t : Transfer) (s : FtlState W)
      → t.total + t.count ≡ count
      → Counted count (round c t s)) where
  pub retry_loop-Counted :
      (left retries c : ℕ) (t : Transfer) (s : FtlState W)
      → t.total + t.count ≡ count
      → let (ret, total, s') = retry_loop round left (suc retries) c t s in ret ≡ ok → total ≡ count
  unfolding retry_loop
  retry_loop-Counted zero retries c t s e = ground arith
  retry_loop-Counted (suc left) retries c t s e =
      either (λ (x : Status × ℕ × FtlState W). x.0 ≡ ok → x.1 ≡ count) (t.count == 0)
        (λ z h. omega (arith, e, (==_iff t.count 0).0 z))
        (λ z.
          on _ (λ retries' t' s' e'. retry_loop-Counted left retries' (c + 1) t' s' e')
            (counts c t s e))
    where
      on :
          (r : Round W)
          → ((retries' : ℕ) (t' : Transfer) (s' : FtlState W)
              → t'.total + t'.count ≡ count
              → let (ret, total, s'') = retry_loop round left (suc retries') (c + 1) t' s' in
                ret ≡ ok → total ≡ count)
          → Counted count r
          → let more : Status × ℕ × FtlState W = elim r [
            | stop ret total s' ↦ (ret, total, s')
            | next t' s' ↦ retry_loop round left skb_retries (c + 1) t' s'
            | skip t' s' ↦ retry_loop round left (suc retries) (c + 1) t' s'
            | retry t' s' ↦ retry_loop round (suc left) retries c t' s'
            | spoil t' s' ↦ retry_loop round left retries (c + 1) t' s'
          ] in
            more.0 ≡ ok → more.1 ≡ count
      on (stop ret total s') onward k h = absurd (k h)
      on (next t' s') onward k h = onward (skb_retries - 1) t' s' k h
      on (skip t' s') onward k h = onward retries t' s' k h
      on (retry t' s') onward k h = absurd k
      on (spoil t' s') onward k h = absurd k

-- ===== src/Ftl/Basic/Transfer/Sum.antt =====
-- The locals of a transfer add up, and a callback that fails does so with an error.
use ufprog.Common.{ℕ, ◌+◌, ◌^◌, ◌<◌, ◌≡◌, ◌≢◌, arith}
use ufprog.Common.{true, Option, Status, ok}
use ufprog.Nand.Api.{Geometry}
use ufprog.Ftl.Api.{Callback}
use ufprog.Ftl.Basic.Transfer.{Transfer, advance, after_transfer}

module _ {W : Type 0} (cb : Option (Callback W)) (ret : Status) (n : ℕ) (w : W) where
  pub after_transfer-failed :
      (after_transfer cb ret n w).1 ≡ true → (after_transfer cb ret n w).0 ≢ ok
  unfolding after_transfer
  after_transfer-failed e = ground arith

module _ (geo : Geometry) (count : ℕ) (small : count < 2 ^ 32) where
  pub advance_sum :
      (t : Transfer)
      → t.total + t.count ≡ count
      → (advance geo t).total + (advance geo t).count ≡ count
  advance_sum t e = ground (arith, small)

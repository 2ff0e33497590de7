-- ===== src/Nand/Pages/Keeps.antt =====
-- A raw read of pages touches the chip through its own page reads and the ECC engine's switch alone.
use ufprog.Common.{ℕ, zero, suc, ◌+◌, ◌≡◌, refl, arith, u32}
use ufprog.Common.{Bool, true, false, Option, none, some, Status, ok}
use ufprog.Nand.Api.{Geometry}
use ufprog.Nand.Chip.{Machine, ChipOps, EccOps, set_enable, fetch}
use ufprog.Nand.Pages.{read_loop, read_pages, erase_block, with_pages}

module _ {C : Type 0} (ops : ChipOps C) (geo : Geometry) (P : C → Type 0)
    (erases : (page : ℕ) (c : C) → P c → P (ops.erase_block page c).1)
    (reads : (page column len : ℕ) (c : C) → P c → P (ops.read_page page column len c).2)
    (enables : (ecc : EccOps C) (enable : Bool) (c : C)
      → ops.ecc ≡ some ecc
      → P c
      → P (ecc.set_enable enable c).1)
    (own : ops.read_pages ≡ none) where
  set_enable-keeps :
      (enable : Bool) (m : Machine C)
      → P m.chip
      → P (set_enable ops geo.oob_page_size enable m).1.chip
  set_enable-keeps enable m p = go ops.ecc (λ ecc e. enables ecc enable m.chip e p)
    where
      go :
          (o : Option (EccOps C))
          → ((ecc : EccOps C) → o ≡ some ecc → P (ecc.set_enable enable m.chip).1)
          → let r : Status × Machine C = elim o [
            | none ↦ (ok, m)
            | some ecc ↦ let (ret, c) = ecc.set_enable enable m.chip in (ret, record m { chip = c })
          ] in
            P r.1.chip
      go none h = p
      go (some ecc) h = h ecc refl

  read_loop-keeps :
      (flags count page buf rdcnt : ℕ) (m : Machine C)
      → P m.chip
      → P (read_loop ops geo true flags count page buf rdcnt m).2.chip
  unfolding read_loop
  read_loop-keeps flags zero page buf rdcnt m p = p
  read_loop-keeps flags (suc count) page buf rdcnt m p =
      let m1 = (fetch ops geo.oob_page_size page 0 geo.oob_page_size buf m).1 in
      let p1 : P m1.chip = reads page 0 geo.oob_page_size m.chip p in
      ground (
        arith,
        p1,
        read_loop-keeps flags count (u32 (page + 1)) (buf + geo.oob_page_size) (u32 (rdcnt + 1)) m1
            p1,
      )

  pub read_pages-keeps :
      (page count buf flags : ℕ) (m : Machine C)
      → P m.chip
      → P (read_pages ops geo page count buf true flags m).2.chip
  unfolding read_pages
  read_pages-keeps page count buf flags m p = go ops.read_pages own
    where
      switched : P (set_enable ops geo.oob_page_size false m).1.chip
      switched = set_enable-keeps false m p

      go :
          (o : Option (ℕ → ℕ → ℕ → ℕ → Machine C → Status × ℕ × Machine C))
          → o ≡ none
          → let run : Machine C → Status × ℕ × Machine C = elim o [
            | none ↦ read_loop ops geo true flags count page buf 0
            | some f ↦ f page count buf flags
          ] in
            P (with_pages ops geo page count true run m).2.chip
      go none e = ground (
        arith,
        switched,
        read_loop-keeps flags count page buf 0 (set_enable ops geo.oob_page_size false m).1
            switched,
      )
      go (some f) e = absurd (ground (arith, e))

  pub erase_block-keeps :
      (page : ℕ) (m : Machine C) → P m.chip → P (erase_block ops geo page m).1.chip
  unfolding erase_block
  erase_block-keeps page m p = ground (arith, erases page m.chip p)

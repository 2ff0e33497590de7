-- ===== src/Nand/Marker/Verdict.antt =====
-- What `ufprog_nand_checkbad` makes of the verdicts on the marker pages of a block.
use ufprog.Common.{ℕ, ◌+◌, ◌<◌, ◌≡◌, refl, arith, u32, leb, ltb, ◌<<<◌, leb_of_gt}
use ufprog.Common.{
  Bool, true, false, Bool-cases, inl, inr, ◌||◌, Option, none, some, List, [], ◌∷◌, length, Status,
  ok, fail, device_io_error, is_ok, is_fail, if◌then◌else◌,
}
use ufprog.Nand.Api.{Geometry}
use ufprog.Nand.Chip.{Machine, ChipOps}
use ufprog.Nand.Marker.{BbmConfig, check_bbm, check_pages, checkbad}

-- Whether one of the pages `base + idx` is found bad, and how many of them are found clear.
abbrev pub some_bad : (ℕ → Status) → ℕ → List ℕ → Bool
some_bad verdict base [] = false
some_bad verdict base (idx ∷ more) =
    is_fail (verdict (u32 (base + idx))) || some_bad verdict base more

abbrev pub clear_pages : (ℕ → Status) → ℕ → List ℕ → ℕ
clear_pages verdict base [] = 0
clear_pages verdict base (idx ∷ more) =
    (if is_ok (verdict (u32 (base + idx))) then 1 else 0) + clear_pages verdict base more

module _ {C : Type 0} (ops : ChipOps C) (geo : Geometry) (bus_width : ℕ) (cfg : BbmConfig)
    (verdict : ℕ → Status)
    (stable : (page : ℕ) (m : Machine C)
      → (check_bbm ops geo bus_width cfg page m).0 ≡ verdict page) where
  -- Early, or with the pages that are not clear added up.
  abbrev Tally : ℕ → ℕ → List ℕ → Option ℕ → Type 0
  Tally base fails pages none = some_bad verdict base pages ≡ true
  Tally base fails pages (some n) =
      (some_bad verdict base pages ≡ false)
      × (n + clear_pages verdict base pages ≡ fails + length pages)

  Tally-clear :
      (base fails idx : ℕ) (more : List ℕ) (r : Option ℕ)
      → is_ok (verdict (u32 (base + idx))) ≡ true
      → Tally base fails more r
      → Tally base fails (idx ∷ more) r
  Tally-clear base fails idx more none e h = ground (arith, h)
  Tally-clear base fails idx more (some n) e h = ground (arith, e, h.0, h.1)

  Tally-unknown :
      (base fails idx : ℕ) (more : List ℕ) (r : Option ℕ)
      → is_ok (verdict (u32 (base + idx))) ≡ false
      → is_fail (verdict (u32 (base + idx))) ≡ false
      → Tally base (fails + 1) more r
      → Tally base fails (idx ∷ more) r
  Tally-unknown base fails idx more none e f h = ground (arith, h)
  Tally-unknown base fails idx more (some n) e f h = ground (arith, e, f, h.0, h.1)

  found :
      (base idx : ℕ) (more : List ℕ)
      → is_fail (verdict (u32 (base + idx))) ≡ true
      → some_bad verdict base (idx ∷ more) ≡ true
  found base idx more f = ground (arith, f)

  check_pages-Tally :
      (base fails : ℕ) (pages : List ℕ) (m : Machine C)
      → Tally base fails pages (check_pages ops geo bus_width cfg base fails pages m).0
  unfolding check_pages
  check_pages-Tally base fails [] m = (refl, refl)
  check_pages-Tally base fails (idx ∷ more) m =
      let page = u32 (base + idx) in
      let m' = (check_bbm ops geo bus_width cfg page m).1 in
      rw (stable page m) (elim (Bool-cases (is_ok (verdict page))) [
        | inl e ↦ rw e (Tally-clear base fails idx more _ e (check_pages-Tally base fails more m'))
        | inr e ↦ rw e (elim (Bool-cases (is_fail (verdict page))) [
          | inl f ↦ rw f (found base idx more f)
          | inr f ↦
              rw f (
                Tally-unknown base fails idx more _ e f
                  (check_pages-Tally base (fails + 1) more m'))
        ])
      ])

  judged :
      (base : ℕ) (pages : List ℕ) (r : Option ℕ)
      → Tally base 0 pages r
      → let ret : Status = elim r [
        | none ↦ fail
        | some n ↦ if ltb n (length pages) then ok else device_io_error
      ] in
        ret ≡ (
          if some_bad verdict base pages
          then fail
          else if leb 1 (clear_pages verdict base pages)
          then ok
          else device_io_error)
  judged base pages none h = rw h refl
  judged base pages (some n) h = rw h.0 (ground (arith, h.1))

  -- If the check of a page's marker always gives the same verdict, `ufprog_nand_checkbad` of a block of
  -- the chip gives UFP_FAIL if any marker page is found bad; else UFP_OK if at least one is found
  -- clear; and else, each of them having failed to be checked, UFP_DEVICE_IO_ERROR.
  pub checkbad-verdict :
      (block : ℕ) (m : Machine C)
      → block < geo.block_count
      → let base = u32 (block <<< geo.pages_per_block_shift) in
        (checkbad ops geo bus_width cfg block m).0 ≡ (
          if some_bad verdict base cfg.pages
          then fail
          else if leb 1 (clear_pages verdict base cfg.pages)
          then ok
          else device_io_error)
  unfolding checkbad
  checkbad-verdict block m h = rw (leb_of_gt geo.block_count block h) (
      judged (u32 (block <<< geo.pages_per_block_shift)) cfg.pages _
        (check_pages-Tally (u32 (block <<< geo.pages_per_block_shift)) 0 cfg.pages m))

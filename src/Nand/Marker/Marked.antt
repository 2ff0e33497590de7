-- ===== src/Nand/Marker/Marked.antt =====
-- What UFP_OK of `ufprog_nand_markbad` means.
use ufprog.Common.{◌⊎◌, ℕ, ◌+◌, ◌≡◌, ◌≢◌, refl, arith, leb, if◌then◌else◌, u32, ◌<<<◌}
use ufprog.Common.{
  true, false, Bool-cases, inl, inr, List, [], ◌∷◌, Status, ok, fail, is_ok, is_fail, ok_of,
  fail_of,
}
use ufprog.Nand.Api.{Geometry}
use ufprog.Nand.Chip.{Machine, ChipOps}
use ufprog.Nand.Marker.{BbmConfig, check_bbm, write_bbm, mark_page, mark_pages, markbad}

module _ {C : Type 0} (ops : ChipOps C) (geo : Geometry) (bus_width : ℕ) (cfg : BbmConfig) where
  module _ (Marked : ℕ → Machine C → Type 0)
      (found : (page : ℕ) (m : Machine C)
        → (write_bbm ops geo bus_width cfg page m).0 ≡ ok
        → let m1 = (write_bbm ops geo bus_width cfg page m).1 in
          (check_bbm ops geo bus_width cfg page m1).0 ≡ fail
          → Marked page (check_bbm ops geo bus_width cfg page m1).1)
      (write_keeps : (page other : ℕ) (m : Machine C)
        → Marked page m
        → Marked page (write_bbm ops geo bus_width cfg other m).1)
      (check_keeps : (page other : ℕ) (m : Machine C)
        → Marked page m
        → Marked page (check_bbm ops geo bus_width cfg other m).1) where
    -- One of the pages `base + idx` is marked.
    abbrev pub IsMarked : ℕ → List ℕ → Machine C → Type 0
    IsMarked base [] m = ⊥
    IsMarked base (idx ∷ more) m = Marked (u32 (base + idx)) m ⊎ IsMarked base more m

    mark_page-done :
        (page : ℕ) (m : Machine C)
        → (mark_page ops geo bus_width cfg page m).1 ≡ true
        → Marked page (mark_page ops geo bus_width cfg page m).2
    unfolding mark_page
    mark_page-done page m h =
        let w = ok_of (write_bbm ops geo bus_width cfg page m).0 (ground (arith, h)) in
        let c =
          fail_of
            (check_bbm ops geo bus_width cfg page (write_bbm ops geo bus_width cfg page m).1).0
            (ground (arith, h)) in
        rw (w, c) (found page m w c)

    mark_page-keeps :
        (page other : ℕ) (m : Machine C)
        → Marked page m
        → Marked page (mark_page ops geo bus_width cfg other m).2
    unfolding mark_page
    mark_page-keeps page other m h =
        let m1 = (write_bbm ops geo bus_width cfg other m).1 in
        let written = write_keeps page other m h in
        let checked = check_keeps page other m1 written in
        elim (Bool-cases (is_ok (write_bbm ops geo bus_width cfg other m).0)) [
          | inr e ↦ rw e written
          | inl e ↦ elim (Bool-cases (is_fail (check_bbm ops geo bus_width cfg other m1).0)) [
            | inl e' ↦ rw (e, e') checked
            | inr e' ↦ rw (e, e') checked
          ]
        ]

    mark_pages-keeps :
        (page base : ℕ) (ret : Status) (marked : ℕ) (pages : List ℕ) (m : Machine C)
        → Marked page m
        → Marked page (mark_pages ops geo bus_width cfg base ret marked pages m).2
    unfolding mark_pages
    mark_pages-keeps page base ret marked [] m h = h
    mark_pages-keeps page base ret marked (idx ∷ more) m h =
        let (ret', done_now, m') = mark_page ops geo bus_width cfg (u32 (base + idx)) m in
        mark_pages-keeps page base ret' (if done_now then marked + 1 else marked) more m'
          (mark_page-keeps page (u32 (base + idx)) m h)

    mark_page-undone :
        (page : ℕ) (m : Machine C)
        → (mark_page ops geo bus_width cfg page m).1 ≡ false
        → (mark_page ops geo bus_width cfg page m).0 ≢ ok
    unfolding mark_page
    mark_page-undone page m h z = ground (arith, h, z)

    -- A page is marked, or none is counted and the status is no UFP_OK.
    abbrev Outcome : ℕ → ℕ → List ℕ → Status × ℕ × Machine C → Type 0
    Outcome base marked pages r = IsMarked base pages r.2 ⊎ ((r.1 ≡ marked) × (r.0 ≢ ok))

    mark_pages-Outcome :
        (base : ℕ) (ret : Status) (marked : ℕ) (pages : List ℕ) (m : Machine C)
        → ret ≢ ok
        → Outcome base marked pages (mark_pages ops geo bus_width cfg base ret marked pages m)
    unfolding mark_pages
    mark_pages-Outcome base ret marked [] m h = inr (refl, h)
    mark_pages-Outcome base ret marked (idx ∷ more) m h =
        let page = u32 (base + idx) in
        let r = mark_page ops geo bus_width cfg page m in
        elim (Bool-cases r.1) [
          | inl e ↦ inl (
              inl (
                mark_pages-keeps page base r.0 (if r.1 then marked + 1 else marked) more r.2
                  (mark_page-done page m e)))
          | inr e ↦
              rw (e, mark_pages)
                (later (mark_pages ops geo bus_width cfg base r.0 marked more r.2)
                  (mark_pages-Outcome base r.0 marked more r.2 (mark_page-undone page m e)))
        ]
      where
        later :
            (r : Status × ℕ × Machine C)
            → Outcome base marked more r
            → Outcome base marked (idx ∷ more) r
        later r (inl k) = inl (inr k)
        later r (inr k) = inr k

    -- If `ufprog_nand_markbad` gives UFP_OK, the state that it leaves is one in which at least one of
    -- the block's marker pages is marked, for every sense of that word that holds after a check that
    -- found the page bad right after its marker was written with success, and that writing and
    -- checking the marker of any page leave alone.
    pub markbad-IsMarked :
        (block : ℕ) (m : Machine C)
        → (markbad ops geo bus_width cfg block m).0 ≡ ok
        → IsMarked
            (u32 (block <<< geo.pages_per_block_shift))
            cfg.pages
            (markbad ops geo bus_width cfg block m).1
    unfolding markbad
    markbad-IsMarked block m h =
        let base = u32 (block <<< geo.pages_per_block_shift) in
        elim (Bool-cases (leb geo.block_count block)) [
          | inl out ↦ absurd (ground (arith, h, out))
          | inr inside ↦
              elim (mark_pages-Outcome base fail 0 cfg.pages m (λ z. ground (arith, z))) [
                | inl k ↦ rw inside k
                | inr k ↦ absurd (ground (arith, h, inside, k.0, k.1))
              ]
        ]

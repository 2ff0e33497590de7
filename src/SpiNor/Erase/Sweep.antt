-- ===== src/SpiNor/Erase/Sweep.antt =====
-- An erase touches the blocks of its range and no others, and when it succeeds it has erased them all.
use native.Mathlib.Decide.{dec_le}
use native.Mathlib.Nat.{add-mod, zero-mod}
use ufprog.Common.{
  ℕ, zero, suc, ◌+◌, ◌-◌, ◌%◌, ◌^◌, ◌≤◌, ◌<◌, ◌≡◌, ◌⊎◌, refl, arith, ap, ◌∙◌, ltb_of_ge, leb_of_le,
  leb_of_gt, ==_of_ne, inl, inr, Option, none, Option-cases, Result, done, Result-cases, and_then,
  and_then-done, and_then-err, pure,
}
use ufprog.SpiNor.Api.{SpiMem, Snor, Setup, EraseRegion, EraseSectorInfo}
use ufprog.SpiNor.Erase.{choose, erase_block, erase_chosen, erase_at, erase_loop}
use ufprog.SpiNor.Erase.Plan.{IsUniform, IsChosen, choose-IsChosen, erase_at_aligned}

module _ {W : Type 0} (spi : SpiMem W) (setup : Setup W) (left_over : ℕ)
    (Supported : EraseSectorInfo → Type 0) (erg : EraseRegion) (k : ℕ)
    (uniform : IsUniform setup Supported erg k) (hi : ℕ) (hi_aligned : hi % 2 ^ k ≡ 0)
    (on_chip : hi ≤ setup.size) where
  abbrev pub block : ℕ → EraseSectorInfo → Snor W → Result (Unit {0}) × Snor W
  block a ei s = erase_block spi setup left_over a ei s

  -- A round erases one fitting block from `start` on, or none fits.
  abbrev Round : (start : ℕ) → Snor W → Result ℕ × Snor W → Type 0
  Round start s p =
      (p ≡ (done 0, s))
      ⊎ ((ei : EraseSectorInfo) × IsChosen Supported erg k start (hi - start) ei
          × (p ≡ and_then (block start ei s) (λ _. pure ei.size)))

  a_round :
      (start : ℕ) (s : Snor W)
      → start % 2 ^ k ≡ 0
      → start < hi
      → Round start s (erase_at spi setup left_over start (hi - start) s)
  unfolding erase_chosen
  a_round start s aligned lt =
      let chosen : Option EraseSectorInfo =
        choose erg 0 start (hi - start) setup.erase_info 0 none in
      let runs =
        erase_at_aligned spi setup left_over Supported erg k uniform start hi s aligned hi_aligned
          lt on_chip in
      elim (Option-cases chosen) [
        | inl nothing ↦ inl (runs ∙ rw nothing refl)
        | inr (ei, it) ↦
            let is_it =
              choose-IsChosen Supported erg k start (hi - start) setup.erase_info 0 none
                uniform.sizes (λ b e. absurd (cc)) it in
            inr (ei, is_it, runs ∙ rw (it, ltb_of_ge (hi - start) ei.size is_it.in_room) refl)
      ]

  next_aligned :
      (start : ℕ) (ei : EraseSectorInfo)
      → start % 2 ^ k ≡ 0
      → IsChosen Supported erg k start (hi - start) ei
      → (start + ei.size) % 2 ^ k ≡ 0
  next_aligned start ei aligned is_it =
      add-mod start ei.size (2 ^ k)
      ∙ ap (λ (t : ℕ). (t + ei.size % 2 ^ k) % 2 ^ k) aligned
      ∙ ap (λ (t : ℕ). (0 + t) % 2 ^ k) is_it.is_blocks
      ∙ zero-mod (2 ^ k)

  module _ (lo : ℕ) (Safe : Snor W → Type 0)
      (keep : (a : ℕ) (ei : EraseSectorInfo) (s : Snor W)
        → lo ≤ a
        → a + ei.size ≤ hi
        → a % ei.size ≡ 0
        → Supported ei
        → Safe s
        → Safe (block a ei s).1) where
    pub erase_loop-keeps :
        (fuel start : ℕ) (s : Snor W)
        → start % 2 ^ k ≡ 0
        → lo ≤ start
        → Safe s
        → Safe (erase_loop spi setup left_over fuel start hi s).state
    unfolding erase_loop
    erase_loop-keeps zero start s aligned above safe = safe
    erase_loop-keeps (suc fuel) start s aligned above safe = elim (dec_le hi start) [
      | yes over ↦ rw (leb_of_le hi start over) safe
      | no more ↦
          let lt : start < hi = omega (arith, more) in
          rw (leb_of_gt hi start lt) (elim (a_round start s aligned lt) [
            | inl idle ↦ rw idle safe
            | inr (ei, is_it, runs) ↦
                let top : start + ei.size ≤ hi = omega (arith, is_it.in_room, lt) in
                let kept = keep start ei s above top is_it.aligned is_it.supported safe in
                elim (Result-cases (block start ei s).0) [
                  | inr (e, failed) ↦ rw (runs, and_then-err (block start ei s) _ failed) kept
                  | inl (_, worked) ↦
                      rw
                        (
                          runs,
                          and_then-done (block start ei s) _ worked,
                          ==_of_ne ei.size 0 (λ z. omega (arith, z, is_it.not_none)),
                        )
                        (erase_loop-keeps fuel (start + ei.size) (block start ei s).1
                          (next_aligned start ei aligned is_it) (omega (arith, above)) kept)
                ]
          ])
    ]

  module _ (lo : ℕ) (Erased : ℕ → Snor W → Type 0)
      (advance : (a : ℕ) (ei : EraseSectorInfo) (s : Snor W)
        → lo ≤ a
        → a + ei.size ≤ hi
        → a % ei.size ≡ 0
        → Supported ei
        → Erased a s
        → (block a ei s).0 ≡ done tt
        → Erased (a + ei.size) (block a ei s).1) where
    pub erase_loop-covers :
        (fuel start : ℕ) (s : Snor W)
        → start % 2 ^ k ≡ 0
        → lo ≤ start
        → Erased start s
        → (erase_loop spi setup left_over fuel start hi s).start ≡ hi
        → Erased hi (erase_loop spi setup left_over fuel start hi s).state
    unfolding erase_loop
    erase_loop-covers zero start s aligned above so_far whole = rw (← whole) so_far
    erase_loop-covers (suc fuel) start s aligned above so_far whole = elim (dec_le hi start) [
      | yes over ↦
          let e = leb_of_le hi start over in
          let here : start ≡ hi = rw e at whole in rw e (rw (← here) so_far)
      | no more ↦
          let lt : start < hi = omega (arith, more) in
          let e = leb_of_gt hi start lt in
          elim (a_round start s aligned lt) [
            | inl idle ↦
                let here : start ≡ hi = rw (e, idle) at whole in absurd (omega (arith, lt, here))
            | inr (ei, is_it, runs) ↦
                let top : start + ei.size ≤ hi = omega (arith, is_it.in_room, lt) in
                elim (Result-cases (block start ei s).0) [
                  | inr (bad, failed) ↦
                      let here : start ≡ hi =
                        rw (e, runs, and_then-err (block start ei s) (λ _. pure ei.size) failed) at
                          whole in
                      absurd (omega (arith, lt, here))
                  | inl (_, worked) ↦
                      let more_left = ==_of_ne ei.size 0 (λ z. omega (arith, z, is_it.not_none)) in
                      let step = and_then-done (block start ei s) (λ _. pure ei.size) worked in
                      rw (e, runs, step, more_left)
                        (erase_loop-covers fuel (start + ei.size) (block start ei s).1
                          (next_aligned start ei aligned is_it) (omega (arith, above))
                          (advance start ei s above top is_it.aligned is_it.supported so_far worked)
                          (rw (e, runs, step, more_left) at whole))
                ]
          ]
    ]

-- ===== src/Bitops/Wide.antt =====
-- common/bitops.c: `generic_hweight16` and `generic_hweight32`, whose lines work on the halves of
-- the word apart.
use native.Mathlib.Nat.{zero-add, suc-add, pow-suc}
use ufprog.Common.{ℕ, zero, suc, ◌+◌, ◌*◌, ◌/◌, ◌%◌, ◌^◌, ◌<◌, ◌≡◌, arith, ap, sym, ◌∙◌}
use ufprog.Bitops.{generic_hweight8, generic_hweight16, generic_hweight32}
use ufprog.Bitops.Halves.{fold, fold-fits, fold-halves, fold-joins}
use ufprog.Bitops.Weight.{ones, generic_hweight8-ones}

ones-halves : (n j q r : ℕ) → r < 2 ^ n → ones (n + j) (q * 2 ^ n + r) ≡ ones n r + ones j q
ones-halves zero j q r h =
    let same : q * 1 + r ≡ q = omega (arith, h) in rw (zero-add j, same) (sym (zero-add (ones j q)))
ones-halves (suc n) j q r h =
    let times : q * 2 ^ suc n ≡ 2 * (q * 2 ^ n) =
      omega (arith, ap (λ (t : ℕ). q * t) (pow-suc 2 n)) in
    let low : (q * 2 ^ suc n + r) % 2 ≡ r % 2 = omega (arith, times) in
    let high : (q * 2 ^ suc n + r) / 2 ≡ q * 2 ^ n + r / 2 = omega (arith, times) in
    rw (suc-add n j) (
      omega (
        arith,
        low,
        ap (ones (n + j)) high,
        ones-halves n j q (r / 2) (omega (arith, h, pow-suc 2 n)),
      ))

-- The lines of `generic_hweight8` and `generic_hweight16` on the two halves of a word.
halves16 :
    (q r : ℕ)
    → q < 2 ^ 8
    → r < 2 ^ 8
    → generic_hweight16 (q * 2 ^ 8 + r) ≡ generic_hweight8 q + generic_hweight8 r
unfolding generic_hweight16 generic_hweight8
halves16 q r hq hr =
    let a0 : ℕ = fold 1 0x55 q in
    let b0 : ℕ = fold 1 0x55 r in
    let a1 : ℕ = fold 2 0x33 a0 in
    let b1 : ℕ = fold 2 0x33 b0 in
    let a2 : ℕ = fold 4 0x0f a1 in
    let b2 : ℕ = fold 4 0x0f b1 in
    ap (λ (t : ℕ). fold 8 0xff (fold 4 0x0f0f (fold 2 0x3333 t)))
      (fold-halves 1 7 0x55 q r hr (omega arith) (omega arith))
    ∙ ap (λ (t : ℕ). fold 8 0xff (fold 4 0x0f0f t))
        (fold-halves 2 6 0x33 a0 b0 (omega (arith, fold-fits 1 0x55 r (omega arith))) (omega arith)
          (omega arith))
    ∙ ap (fold 8 0xff) (
        fold-halves 4 4 0x0f a1 b1 (omega (arith, fold-fits 2 0x33 b0 (omega arith))) (omega arith)
          (omega arith))
    ∙ fold-joins 8 a2 b2 (omega (arith, fold-fits 4 0x0f a1 (omega arith)))
        (omega (arith, fold-fits 4 0x0f b1 (omega arith))) (omega arith)

halves32 :
    (q r : ℕ)
    → q < 2 ^ 16
    → r < 2 ^ 16
    → generic_hweight32 (q * 2 ^ 16 + r) ≡ generic_hweight16 q + generic_hweight16 r
unfolding generic_hweight32 generic_hweight16
halves32 q r hq hr =
    let a0 : ℕ = fold 1 0x5555 q in
    let b0 : ℕ = fold 1 0x5555 r in
    let a1 : ℕ = fold 2 0x3333 a0 in
    let b1 : ℕ = fold 2 0x3333 b0 in
    let a2 : ℕ = fold 4 0x0f0f a1 in
    let b2 : ℕ = fold 4 0x0f0f b1 in
    let a3 : ℕ = fold 8 0x00ff a2 in
    let b3 : ℕ = fold 8 0x00ff b2 in
    ap (λ (t : ℕ). fold 16 0xffff (fold 8 0xff00ff (fold 4 0x0f0f0f0f (fold 2 0x33333333 t))))
      (fold-halves 1 15 0x5555 q r hr (omega arith) (omega arith))
    ∙ ap (λ (t : ℕ). fold 16 0xffff (fold 8 0xff00ff (fold 4 0x0f0f0f0f t)))
        (fold-halves 2 14 0x3333 a0 b0 (omega (arith, fold-fits 1 0x5555 r (omega arith)))
          (omega arith) (omega arith))
    ∙ ap (λ (t : ℕ). fold 16 0xffff (fold 8 0xff00ff t))
        (fold-halves 4 12 0x0f0f a1 b1 (omega (arith, fold-fits 2 0x3333 b0 (omega arith)))
          (omega arith) (omega arith))
    ∙ ap (fold 16 0xffff) (
        fold-halves 8 8 0x00ff a2 b2 (omega (arith, fold-fits 4 0x0f0f b1 (omega arith)))
          (omega arith) (omega arith))
    ∙ fold-joins 16 a3 b3 (omega (arith, fold-fits 8 0x00ff a2 (omega arith)))
        (omega (arith, fold-fits 8 0x00ff b2 (omega arith))) (omega arith)

-- `generic_hweight16` is the number of ones of a 16-bit word.
generic_hweight16-ones : (w : ℕ) → w < 2 ^ 16 → generic_hweight16 w ≡ ones 16 w
generic_hweight16-ones w h =
    let q : ℕ = w / 2 ^ 8 in
    let r : ℕ = w % 2 ^ 8 in
    let whole : q * 2 ^ 8 + r ≡ w = omega arith in
    let hq : q < 2 ^ 8 = omega (arith, h) in
    let hr : r < 2 ^ 8 = omega arith in
    omega (
      arith,
      ap generic_hweight16 whole,
      ap (ones 16) whole,
      halves16 q r hq hr,
      generic_hweight8-ones q hq,
      generic_hweight8-ones r hr,
      ones-halves 8 8 q r hr,
    )

-- `generic_hweight32` is the number of ones of a 32-bit word.
generic_hweight32-ones : (w : ℕ) → w < 2 ^ 32 → generic_hweight32 w ≡ ones 32 w
generic_hweight32-ones w h =
    let q : ℕ = w / 2 ^ 16 in
    let r : ℕ = w % 2 ^ 16 in
    let whole : q * 2 ^ 16 + r ≡ w = omega arith in
    let hq : q < 2 ^ 16 = omega (arith, h) in
    let hr : r < 2 ^ 16 = omega arith in
    omega (
      arith,
      ap generic_hweight32 whole,
      ap (ones 32) whole,
      halves32 q r hq hr,
      generic_hweight16-ones q hq,
      generic_hweight16-ones r hr,
      ones-halves 16 16 q r hr,
    )

-- Each of the three bit counts is the number of ones of a word of its width.
pub generic_hweight-ones :
    (w : ℕ)
    → (w < 2 ^ 8 → generic_hweight8 w ≡ ones 8 w)
      × (w < 2 ^ 16 → generic_hweight16 w ≡ ones 16 w)
      × (w < 2 ^ 32 → generic_hweight32 w ≡ ones 32 w)
generic_hweight-ones w =
    (generic_hweight8-ones w, generic_hweight16-ones w, generic_hweight32-ones w)

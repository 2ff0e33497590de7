-- ===== src/Bitops/Weight.antt =====
-- common/bitops.c: `generic_hweight8`, by the table of its 256 values.
use ufprog.Common.{◌≤◌, ℕ, zero, suc, ◌+◌, ◌/◌, ◌%◌, ◌^◌, ◌<◌, ◌≡◌, refl, arith, Bool, true}
use ufprog.Common.{◌==◌, ==_iff, if◌then◌else◌, false, Bool-cases, inl, inr}
use native.Mathlib.Decide.{ℕ_discrete}
use ufprog.Bitops.{generic_hweight8}

-- The number of ones among the low `n` binary digits.
abbrev pub ones : ℕ → ℕ → ℕ
ones zero w = 0
ones (suc n) w = w % 2 + ones n (w / 2)

-- The count is right for the `left` numbers from `k` on.
agrees_from : ℕ → ℕ → Bool
agrees_from zero k = true
agrees_from (suc left) k =
    let later = agrees_from left (k + 1) in if generic_hweight8 k == ones 8 k then later else false

agrees_at :
    (left k w : ℕ)
    → agrees_from left k ≡ true
    → k ≤ w
    → w < k + left
    → generic_hweight8 w ≡ ones 8 w
unfolding agrees_from
agrees_at zero k w h low high = absurd (omega (arith, low, high))
agrees_at (suc left) k w h low high = elim (Bool-cases (generic_hweight8 k == ones 8 k)) [
  | inr wrong ↦ absurd (ground (arith, h, wrong))
  | inl right ↦ elim (ℕ_discrete k w) [
    | yes here ↦ rw (← here) ((==_iff (generic_hweight8 k) (ones 8 k)).0 right)
    | no there ↦
        agrees_at left (k + 1) w (ground (arith, h, right)) (omega (arith, low, there))
          (omega (arith, high))
  ]
]

byte_table : agrees_from 256 0 ≡ true
unfolding agrees_from generic_hweight8
byte_table = refl

-- `generic_hweight8` is the number of ones of a byte.
pub generic_hweight8-ones : (w : ℕ) → w < 2 ^ 8 → generic_hweight8 w ≡ ones 8 w
generic_hweight8-ones w h = agrees_at 256 0 w byte_table (omega arith) (omega (arith, h))

-- ===== src/Common/Step.antt =====
-- The lowest binary digit of `bit_and` and `bit_or`, from the recursion that they stand for.
use Prim.Native.Nat.{
  ℕ, zero, suc, ◌+◌, ◌-◌, ◌*◌, ◌/◌, ◌%◌, ◌≤◌, min, max, bit_and, bit_or, digits, bit_and-bitwise,
  bit_or-bitwise,
}
use mathlib.Core.Path.{◌≡◌, refl, ap, ◌∙◌}
use native.Mathlib.Nat.{zero-add, suc-add}
use native.Mathlib.Omega.{arith}

-- One digit more or less does not matter once the digits cover the first number.
more_digits :
    (z : ℕ → ℕ) (f : ℕ → ℕ → ℕ) (k x y : ℕ) → x ≤ k → digits z f k x y ≡ digits z f (suc k) x y
more_digits z f zero zero y h = refl
more_digits z f zero (suc x) y h = elim h [ ]
more_digits z f (suc k) zero y h = refl
more_digits z f (suc k) (suc x) y h =
    ap (λ (t : ℕ). t * 2 + f (suc x % 2) (y % 2))
      (more_digits z f k (suc x / 2) (y / 2) (omega arith))

enough_digits :
    (z : ℕ → ℕ) (f : ℕ → ℕ → ℕ) (extra x y : ℕ) → digits z f x x y ≡ digits z f (extra + x) x y
enough_digits z f zero x y = rw (zero-add x) refl
enough_digits z f (suc extra) x y =
    rw (suc-add extra x)
      (enough_digits z f extra x y ∙ more_digits z f (extra + x) x y (omega arith))

-- The digits of a number's half, counted by its predecessor.
pub half_digits :
    (z : ℕ → ℕ) (f : ℕ → ℕ → ℕ) (x y : ℕ)
    → digits z f (suc x / 2) (suc x / 2) y ≡ digits z f x (suc x / 2) y
half_digits z f x y =
    enough_digits z f (x - suc x / 2) (suc x / 2) y
    ∙ ap (λ (n : ℕ). digits z f n (suc x / 2) y) (omega arith)

abbrev pub LowestOf : (ℕ → ℕ → ℕ) → (ℕ → ℕ → ℕ) → ℕ → ℕ → Type 0
LowestOf op f x y = op x y ≡ op (x / 2) (y / 2) * 2 + f (x % 2) (y % 2)

pub bit_and_step : (x y : ℕ) → LowestOf bit_and min x y
bit_and_step zero y = omega (arith, bit_and-bitwise 0 (y / 2), bit_and-bitwise 0 y)
bit_and_step (suc x) y = omega (
  arith,
  half_digits (λ b. 0) min x (y / 2),
  bit_and-bitwise (suc x / 2) (y / 2),
  bit_and-bitwise (suc x) y,
)

pub bit_or_step : (x y : ℕ) → LowestOf bit_or max x y
bit_or_step zero y = omega (arith, bit_or-bitwise 0 (y / 2), bit_or-bitwise 0 y)
bit_or_step (suc x) y = omega (
  arith,
  half_digits (λ b. b) max x (y / 2),
  bit_or-bitwise (suc x / 2) (y / 2),
  bit_or-bitwise (suc x) y,
)

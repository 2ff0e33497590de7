-- ===== src/Bitops/Power.antt =====
-- common/include/ufprog/bits.h: `is_power_of_2`.
use native.Mathlib.Nat.{pow-suc, one-le-pow, mod_self}
use native.Mathlib.Decide.{ℕ_discrete}
use ufprog.Common.{
  ℕ, zero, suc, ◌-◌, ◌/◌, ◌%◌, ◌^◌, ◌≤◌, ◌≡◌, ◌≢◌, ◌↔◌, arith, ap, ◌∙◌, bit_and, bit_and_step,
  bit_and_mask, bit_and-zero, true,
}
use ufprog.Bitops.{is_power_of_2}

bit_and_self_upto : (n a : ℕ) → a ≤ n → bit_and a a ≡ a
bit_and_self_upto zero a h =
    let z : a ≡ 0 = omega arith in
    omega (arith, ap (λ (t : ℕ). bit_and t 0) z, ap (bit_and a) z, bit_and-zero a)
bit_and_self_upto (suc n) a h =
    ground (arith, bit_and_step a a, bit_and_self_upto n (a / 2) (omega arith))

abbrev IsPower : ℕ → Type 0
IsPower n = (k : ℕ) × (n ≡ 2 ^ k)

IsPower-upto : (m n : ℕ) → n ≤ m → n ≢ 0 → bit_and n (n - 1) ≡ 0 → IsPower n
IsPower-upto zero n h nz e = absurd (nz (omega (arith, h)))
IsPower-upto (suc m) n h nz e = elim (ℕ_discrete (n % 2) 0) [
  | yes even ↦
      let half : (n - 1) / 2 ≡ n / 2 - 1 = omega (arith, even, nz) in
      let less : bit_and (n / 2) (n / 2 - 1) ≡ 0 =
        omega (arith, e, bit_and_step n (n - 1), ap (bit_and (n / 2)) half) in
      let (k, p) =
        IsPower-upto m (n / 2) (omega (arith, h, even)) (λ z. nz (omega (arith, even, z))) less in
      (suc k, omega (arith, p, even, pow-suc 2 k))
  | no odd ↦
      let half : (n - 1) / 2 ≡ n / 2 = omega (arith, odd) in
      let top : n / 2 ≡ 0 = omega (
        arith,
        e,
        bit_and_step n (n - 1),
        ap (bit_and (n / 2)) half,
        bit_and_self_upto (n / 2) (n / 2) (omega arith),
      ) in
      (0, omega (arith, top, odd))
]

pub is_power_of_2-pow : (k : ℕ) → is_power_of_2 (2 ^ k) ≡ true
unfolding is_power_of_2
is_power_of_2-pow k =
    let pos : 1 ≤ 2 ^ k = one-le-pow k 2 (omega arith) in
    let low : bit_and (2 ^ k) (2 ^ k - 1) ≡ 0 = bit_and_mask k (2 ^ k) ∙ mod_self (2 ^ k) in
    ground (arith, pos, low)

-- `is_power_of_2` tells the powers of two from the other numbers.
pub is_power_of_2_iff : (n : ℕ) → (is_power_of_2 n ≡ true) ↔ ((k : ℕ) × (n ≡ 2 ^ k))
unfolding is_power_of_2
is_power_of_2_iff n = (
  λ h. IsPower-upto n n (omega arith) (λ z. ground (arith, h, z)) (ground (arith, h)),
  λ (k, p). ap is_power_of_2 p ∙ is_power_of_2-pow k,
)

-- ===== src/Common/Xor.antt =====
-- `^` on numbers by their lowest binary digits.
use Prim.Native.Nat.{
  ℕ, zero, suc, ◌+◌, ◌*◌, ◌/◌, ◌%◌, ◌^◌, ◌≤◌, ◌<◌, bit_xor, differ, bit_xor-bitwise,
}
use mathlib.Core.Path.{◌≡◌, refl, ap, sym, ◌∙◌}
use native.Mathlib.Omega.{arith}
use native.Mathlib.Nat.{pow-suc, mul_comm, div-div-eq-div-mul}
use ufprog.Common.Bits.{double}
use ufprog.Common.Step.{LowestOf, half_digits}

pub bit_xor_step : (x y : ℕ) → LowestOf bit_xor differ x y
bit_xor_step zero y = omega (arith, bit_xor-bitwise 0 (y / 2), bit_xor-bitwise 0 y)
bit_xor_step (suc x) y = omega (
  arith,
  half_digits (λ b. b) differ x (y / 2),
  bit_xor-bitwise (suc x / 2) (y / 2),
  bit_xor-bitwise (suc x) y,
)

differ_bits : (a b : ℕ) → a < 2 → b < 2 → differ a b ≡ (a + b) % 2
differ_bits zero zero ha hb = refl
differ_bits zero (suc zero) ha hb = refl
differ_bits (suc zero) zero ha hb = refl
differ_bits (suc zero) (suc zero) ha hb = refl
differ_bits zero (suc (suc b)) ha hb = absurd (omega (arith, hb))
differ_bits (suc zero) (suc (suc b)) ha hb = absurd (omega (arith, hb))
differ_bits (suc (suc a)) b ha hb = absurd (omega (arith, ha))

-- The lowest digit is that of the sum.
digit : (x y : ℕ) → bit_xor x y ≡ bit_xor (x / 2) (y / 2) * 2 + (x + y) % 2
digit x y = omega (arith, bit_xor_step x y, differ_bits (x % 2) (y % 2) (omega arith) (omega arith))

pub half-bit_xor : (x y : ℕ) → bit_xor x y / 2 ≡ bit_xor (x / 2) (y / 2)
half-bit_xor x y = omega (arith, digit x y)

pub parity-bit_xor : (x y : ℕ) → bit_xor x y % 2 ≡ (x + y) % 2
parity-bit_xor x y = omega (arith, digit x y)

pub zero-bit_xor : (y : ℕ) → bit_xor 0 y ≡ y
zero-bit_xor y = bit_xor-bitwise 0 y

comm_upto : (n x y : ℕ) → x ≤ n → y ≤ n → bit_xor x y ≡ bit_xor y x
comm_upto zero x y hx hy =
    let ex : x ≡ 0 = omega (arith, hx) in let ey : y ≡ 0 = omega (arith, hy) in rw (ex, ey) refl
comm_upto (suc n) x y hx hy = omega (
  arith,
  digit x y,
  digit y x,
  comm_upto n (x / 2) (y / 2) (omega (arith, hx)) (omega (arith, hy)),
)

pub bit_xor_comm : (x y : ℕ) → bit_xor x y ≡ bit_xor y x
bit_xor_comm x y = comm_upto (x + y) x y (omega arith) (omega arith)

pub bit_xor-zero : (x : ℕ) → bit_xor x 0 ≡ x
bit_xor-zero x = bit_xor_comm x 0 ∙ zero-bit_xor x

assoc_upto :
    (n x y z : ℕ) → x ≤ n → y ≤ n → z ≤ n → bit_xor (bit_xor x y) z ≡ bit_xor x (bit_xor y z)
assoc_upto zero x y z hx hy hz =
    let ex : x ≡ 0 = omega (arith, hx) in
    let ey : y ≡ 0 = omega (arith, hy) in let ez : z ≡ 0 = omega (arith, hz) in rw (ex, ey, ez) refl
assoc_upto (suc n) x y z hx hy hz = omega (
  arith,
  digit (bit_xor x y) z,
  digit x (bit_xor y z),
  ap (λ (t : ℕ). bit_xor t (z / 2)) (half-bit_xor x y),
  ap (bit_xor (x / 2)) (half-bit_xor y z),
  parity-bit_xor x y,
  parity-bit_xor y z,
  assoc_upto n (x / 2) (y / 2) (z / 2) (omega (arith, hx)) (omega (arith, hy)) (omega (arith, hz)),
)

pub bit_xor_assoc : (x y z : ℕ) → bit_xor (bit_xor x y) z ≡ bit_xor x (bit_xor y z)
bit_xor_assoc x y z = assoc_upto (x + y + z) x y z (omega arith) (omega arith) (omega arith)

pub bit_xor_swap : (x y z : ℕ) → bit_xor (bit_xor x y) z ≡ bit_xor (bit_xor x z) y
bit_xor_swap x y z =
    bit_xor_assoc x y z ∙ ap (bit_xor x) (bit_xor_comm y z) ∙ sym (bit_xor_assoc x z y)

-- Numbers with no digit in common.
pub bit_xor_join : (n r h : ℕ) → r < 2 ^ n → bit_xor r (h * 2 ^ n) ≡ r + h * 2 ^ n
bit_xor_join zero r h small =
    let e : r ≡ 0 = omega (arith, small) in rw e (zero-bit_xor (h * 2 ^ 0) ∙ omega arith)
bit_xor_join (suc n) r h small =
    let p : 2 ^ suc n ≡ 2 ^ n * 2 = pow-suc 2 n in
    let q : h * 2 ^ suc n ≡ 2 * (h * 2 ^ n) = double h n in
    let e : h * 2 ^ suc n / 2 ≡ h * 2 ^ n = omega (arith, q) in
    omega (
      arith,
      digit r (h * 2 ^ suc n),
      ap (bit_xor (r / 2)) e,
      bit_xor_join n (r / 2) h (omega (arith, small, p)),
      q,
    )

half-pow : (n x : ℕ) → x / 2 ^ suc n ≡ x / 2 / 2 ^ n
half-pow n x =
    ap (λ (t : ℕ). x / t) (pow-suc 2 n ∙ mul_comm (2 ^ n) 2) ∙ sym (div-div-eq-div-mul x 2 (2 ^ n))

pub div-bit_xor : (n x y : ℕ) → bit_xor x y / 2 ^ n ≡ bit_xor (x / 2 ^ n) (y / 2 ^ n)
div-bit_xor zero x y =
    let ex : x / 2 ^ 0 ≡ x = omega arith in
    let ey : y / 2 ^ 0 ≡ y = omega arith in rw (ex, ey) (omega arith)
div-bit_xor (suc n) x y =
    half-pow n (bit_xor x y)
    ∙ ap (λ (t : ℕ). t / 2 ^ n) (half-bit_xor x y)
    ∙ div-bit_xor n (x / 2) (y / 2)
    ∙ ap (λ (t : ℕ). bit_xor t (y / 2 / 2 ^ n)) (sym (half-pow n x))
    ∙ ap (bit_xor (x / 2 ^ suc n)) (sym (half-pow n y))

-- ===== src/Crc32/Bitwise.antt =====
-- The checksum with the table against the one that takes the bits one by one.
use native.Mathlib.Decide.{ℕ_discrete}
use native.Mathlib.Nat.{pow-suc}
use ufprog.Common.{
  ℕ, zero, suc, ◌+◌, ◌*◌, ◌/◌, ◌%◌, ◌^◌, ◌<◌, ◌≡◌, refl, arith, ap, sym, ◌∙◌, u8, bit_xor,
  bit_xor-zero, bit_xor_comm, bit_xor_swap, bit_xor_join, half-bit_xor, parity-bit_xor, div-bit_xor,
  ◌==◌, if◌then◌else◌, List, [], ◌∷◌, get_or,
}
use ufprog.Crc32.{
  reflected_step, reflected_steps, reflected_entries, crc32_reflected_init, crc32_reflected_cal,
}

-- One bit leaves the remainder at its low end, and the polynomial is subtracted if it is a one.
pub shift_out : (poly v : ℕ) → ℕ
shift_out poly v = if v % 2 == 1 then bit_xor poly (v / 2) else v / 2

pub shift_outs : (poly n v : ℕ) → ℕ
unfolding shift_out
shift_outs poly zero v = v
shift_outs poly (suc n) v = shift_out poly (shift_outs poly n v)

-- Each byte is added to the low end of the remainder, of which eight bits leave it then.
pub bit_by_bit : (poly crc : ℕ) → List ℕ → ℕ
unfolding shift_outs
bit_by_bit poly crc [] = crc
bit_by_bit poly crc (b ∷ bs) = bit_by_bit poly (shift_outs poly 8 (bit_xor crc b)) bs

abbrev pub AreBytes : List ℕ → Type 0
AreBytes [] = Unit {0}
AreBytes (b ∷ bs) = (b < 2 ^ 8) × AreBytes bs

shift_out_lem : (poly v : ℕ) → reflected_step poly v ≡ shift_out poly v
unfolding shift_out
shift_out_lem poly v = elim (ℕ_discrete (v % 2) 0) [
  | yes even ↦ rw even (bit_xor-zero (v / 2))
  | no odd ↦ let one : v % 2 ≡ 1 = omega (arith, odd) in rw one (bit_xor_comm (v / 2) poly)
]

reflected_steps_last :
    (poly n v : ℕ)
    → reflected_steps poly n (reflected_step poly v)
      ≡ reflected_step poly (reflected_steps poly n v)
unfolding reflected_steps
reflected_steps_last poly zero v = refl
reflected_steps_last poly (suc n) v = reflected_steps_last poly n (reflected_step poly v)

reflected_steps-shift_outs : (poly n v : ℕ) → reflected_steps poly n v ≡ shift_outs poly n v
unfolding reflected_steps shift_outs
reflected_steps-shift_outs poly zero v = refl
reflected_steps-shift_outs poly (suc n) v =
    reflected_steps_last poly n v
    ∙ ap (reflected_step poly) (reflected_steps-shift_outs poly n v)
    ∙ shift_out_lem poly (shift_outs poly n v)

entry_at :
    (poly left i j : ℕ)
    → j < left
    → get_or (reflected_entries poly left i) j 0 ≡ reflected_steps poly 8 (i + j)
unfolding reflected_entries
entry_at poly zero i j h = absurd (omega (arith, h))
entry_at poly (suc left) i zero h = let e : i + 0 ≡ i = omega arith in rw e refl
entry_at poly (suc left) i (suc j) h =
    let e : i + suc j ≡ i + 1 + j = omega arith in
    rw e (entry_at poly left (i + 1) j (omega (arith, h)))

-- A step does not mix the digits above the lowest with the polynomial.
step_apart :
    (poly x y : ℕ)
    → y % 2 ≡ 0
    → reflected_step poly (bit_xor x y) ≡ bit_xor (reflected_step poly x) (y / 2)
step_apart poly x y even =
    let same : bit_xor x y % 2 ≡ x % 2 = omega (arith, parity-bit_xor x y, even) in
    rw (same, half-bit_xor x y) (bit_xor_swap (x / 2) (y / 2) (if x % 2 == 0 then 0 else poly))

steps_apart :
    (poly n x h : ℕ)
    → reflected_steps poly n (bit_xor x (h * 2 ^ n)) ≡ bit_xor (reflected_steps poly n x) h
unfolding reflected_steps
steps_apart poly zero x h = let e : h * 2 ^ 0 ≡ h = omega arith in rw e refl
steps_apart poly (suc n) x h =
    let q : h * 2 ^ suc n ≡ h * 2 ^ n * 2 = omega (arith, ap (λ (t : ℕ). h * t) (pow-suc 2 n)) in
    let even : h * 2 ^ suc n % 2 ≡ 0 = omega (arith, q) in
    let half : h * 2 ^ suc n / 2 ≡ h * 2 ^ n = omega (arith, q) in
    ap (reflected_steps poly n)
      (step_apart poly x (h * 2 ^ suc n) even ∙ ap (bit_xor (reflected_step poly x)) half)
    ∙ steps_apart poly n (reflected_step poly x) h

-- A byte's look-up.
looked_up :
    (poly crc b : ℕ)
    → b < 2 ^ 8
    → bit_xor (get_or (crc32_reflected_init poly) (u8 (bit_xor crc b)) 0) (crc / 2 ^ 8)
      ≡ reflected_steps poly 8 (bit_xor crc b)
unfolding crc32_reflected_init
looked_up poly crc b small =
    let v : ℕ = bit_xor crc b in
    let low : v % 2 ^ 8 < 2 ^ 8 = omega arith in
    let none_above : b / 2 ^ 8 ≡ 0 = omega (arith, small) in
    let high : v / 2 ^ 8 ≡ crc / 2 ^ 8 =
      div-bit_xor 8 crc b ∙ ap (bit_xor (crc / 2 ^ 8)) none_above ∙ bit_xor-zero (crc / 2 ^ 8) in
    let parts : bit_xor (v % 2 ^ 8) (v / 2 ^ 8 * 2 ^ 8) ≡ v =
      bit_xor_join 8 (v % 2 ^ 8) (v / 2 ^ 8) low ∙ omega arith in
    let entry : get_or (reflected_entries poly 256 0) (v % 2 ^ 8) 0
        ≡ reflected_steps poly 8 (v % 2 ^ 8) =
      entry_at poly 256 0 (v % 2 ^ 8) low ∙ ap (reflected_steps poly 8) (omega arith) in
    ap (λ (t : ℕ). bit_xor t (crc / 2 ^ 8)) entry
    ∙ ap (bit_xor (reflected_steps poly 8 (v % 2 ^ 8))) (sym high)
    ∙ sym (steps_apart poly 8 (v % 2 ^ 8) (v / 2 ^ 8))
    ∙ ap (reflected_steps poly 8) parts

-- With the table of `crc32_reflected_init`, `crc32_reflected_cal` gives the checksum of the bytes by
-- division bit by bit, for every polynomial and start.
pub crc32_reflected_cal-bit_by_bit :
    (poly crc : ℕ) (bytes : List ℕ)
    → AreBytes bytes
    → crc32_reflected_cal crc bytes (crc32_reflected_init poly) ≡ bit_by_bit poly crc bytes
unfolding crc32_reflected_cal bit_by_bit
crc32_reflected_cal-bit_by_bit poly crc [] small = refl
crc32_reflected_cal-bit_by_bit poly crc (b ∷ bs) (small, rest) =
    ap (λ (t : ℕ). crc32_reflected_cal t bs (crc32_reflected_init poly))
      (looked_up poly crc b small ∙ reflected_steps-shift_outs poly 8 (bit_xor crc b))
    ∙ crc32_reflected_cal-bit_by_bit poly (shift_outs poly 8 (bit_xor crc b)) bs rest

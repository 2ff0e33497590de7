-- ===== src/Bitops/Highest.antt =====
-- common/bitops.c: the shifts of `generic_fls`, step by step.
use native.Mathlib.Nat.{
  le_of_mul-le-mul_right, lt_of_mul-lt-mul_right, div-eq_of_lt, add_comm, mul-le-mul_right,
  pow-le-pow_right, zero-mul, mul-lt-mul_of_pos_right, div-add-mod', one-le-pow, mod-lt,
  div-lt_iff_lt-mul, mod-eq_of_lt,
}
use native.Mathlib.Decide.{dec_le}
use mathlib.Core.Bool.{false≢true}
use ufprog.Common.{u64, ◌<<<◌}
use ufprog.Common.{
  ℕ, zero, suc, ◌+◌, ◌-◌, ◌/◌, ◌*◌, ◌^◌, ◌≤◌, ◌<◌, ◌≡◌, ◌≢◌, refl, arith, ap, sym, ◌∙◌,
}
use ufprog.Common.{bit_and, bit_and_high, pow-add, ◌==◌, Bool-cases, inl, inr, ==_iff}
use ufprog.Bitops.{FindState, skip_high, generic_fls}

-- `word` is `w` moved up by `64 - num` bits, and reaches bit `e`.
record HighInv (w e : ℕ) (s : FindState) : Type 0 where
  moves : s.word ≡ w * 2 ^ (64 - s.num)
  reaches : 2 ^ e ≤ s.word
  fits : s.word < 2 ^ 64
  at_most : s.num ≤ 64

-- What is moved up by more than `64 - k` bits and is not zero reaches bit `64 - k`.
room :
    (w k j num word : ℕ)
    → k + j ≡ 64
    → word ≡ w * 2 ^ (64 - num)
    → 1 ≤ word
    → word < 2 ^ j
    → k ≤ num
room w k j num word e m pos lt = elim (dec_le k num) [
  | yes h ↦ h
  | no h ↦
      let w_pos : 1 ≤ w = elim (dec_le 1 w) [
        | yes p ↦ p
        | no p ↦ absurd (
            omega
              (arith, ap (λ (t : ℕ). t * 2 ^ (64 - num)) (zero_of p), zero-mul (2 ^ (64 - num))))
      ] in
      absurd (
        omega (
          arith,
          mul-le-mul_right (2 ^ (64 - num)) w_pos,
          pow-le-pow_right {n = 2} (omega arith) {i = j} {j = 64 - num} (omega arith),
        ))
]
  where
    zero_of : ¬ (1 ≤ w) → w ≡ 0
    zero_of p = omega arith

lifted :
    (w k num word : ℕ)
    → k ≤ num
    → num ≤ 64
    → word ≡ w * 2 ^ (64 - num)
    → word * 2 ^ k ≡ w * 2 ^ (64 - (num - k))
lifted w k num word h top m =
    let e : 64 - (num - k) ≡ 64 - num + k = omega arith in
    omega (
      arith,
      ap (λ (t : ℕ). w * 2 ^ t) e,
      ap (λ (t : ℕ). w * t) (pow-add (64 - num) k),
      ap (λ (t : ℕ). t * 2 ^ k) m,
    )

-- The masks of `generic_fls` test for a set bit at or above bit `j`.
high_mask :
    (k j word : ℕ)
    → k + j ≡ 64
    → word < 2 ^ 64
    → bit_and word ((2 ^ k - 1) * 2 ^ j) ≡ word / 2 ^ j * 2 ^ j
high_mask k j word e lt = bit_and_high j k word (
    (div-lt_iff_lt-mul (one-le-pow j 2 (omega arith))).1
      (omega (arith, pow-add k j, ap (λ (t : ℕ). 2 ^ t) e)))

below_mask : (j word : ℕ) → word / 2 ^ j * 2 ^ j ≡ 0 → word < 2 ^ j
below_mask j word z =
    omega (arith, div-add-mod' word (2 ^ j), mod-lt word {m = 2 ^ j} (one-le-pow j 2 (omega arith)))

reaches_mask : (j word : ℕ) → word / 2 ^ j * 2 ^ j ≢ 0 → 2 ^ j ≤ word
reaches_mask j word nz = elim (dec_le (2 ^ j) word) [
  | yes h ↦ h
  | no h ↦ absurd (
      nz (
        ap (λ (t : ℕ). t * 2 ^ j) (div-eq_of_lt {n = word} {m = 2 ^ j} (omega arith))
        ∙ zero-mul (2 ^ j)))
]

skip_high-HighInv :
    (w k i : ℕ) (s : FindState)
    → k + (k + i) ≡ 64
    → HighInv w i s
    → HighInv w (k + i) (skip_high ((2 ^ k - 1) * 2 ^ (k + i)) k s)
unfolding skip_high
skip_high-HighInv w k i s e v =
    let mask = high_mask k (k + i) s.word e v.fits in
    elim (Bool-cases (bit_and s.word ((2 ^ k - 1) * 2 ^ (k + i)) == 0)) [
      | inl c ↦
          let low : s.word < 2 ^ (k + i) =
            below_mask (k + i) s.word (sym mask ∙ (==_iff _ 0).0 c) in
          let num_room : k ≤ s.num =
            room w k (k + i) s.num s.word e v.moves
              (omega (arith, v.reaches, one-le-pow i 2 (omega arith))) low in
          let whole : u64 (s.word <<< k) ≡ s.word * 2 ^ k = mod-eq_of_lt (no_wrap low) in
          rw c (record {
            moves = whole ∙ lifted w k s.num s.word num_room v.at_most v.moves;
            reaches = rw whole (omega (arith, pow-add k i, mul-le-mul_right (2 ^ k) v.reaches));
            fits = mod-lt (s.word * 2 ^ k) {m = 2 ^ 64} (omega arith);
            at_most = omega (arith, v.at_most);
          })
      | inr c ↦ rw c (record {
        moves = v.moves;
        reaches = reaches_mask (k + i) s.word (λ z. false≢true (sym c ∙ (==_iff _ 0).1 (mask ∙ z)));
        fits = v.fits;
        at_most = v.at_most;
      })
    ]
  where
    no_wrap : s.word < 2 ^ (k + i) → s.word * 2 ^ k < 2 ^ 64
    no_wrap low = omega (
      arith,
      pow-add (k + i) k,
      ap (λ (t : ℕ). 2 ^ t) (add_comm (k + i) k ∙ e),
      mul-lt-mul_of_pos_right {k = 2 ^ k} low (one-le-pow k 2 (omega arith)),
    )

fls_end : ℕ → FindState
fls_end w = skip_high 0x8000000000000000 1 (
    skip_high 0xc000000000000000 2 (
      skip_high 0xf000000000000000 4 (
        skip_high 0xff00000000000000 8 (
          skip_high 0xffff000000000000 16
            (skip_high 0xffffffff00000000 32 (record { num = 64; word = w }))))))

fls_end-HighInv : (w : ℕ) → w ≢ 0 → w < 2 ^ 64 → HighInv w 63 (fls_end w)
unfolding fls_end
fls_end-HighInv w nz lt = skip_high-HighInv w 1 62 _ refl (
    skip_high-HighInv w 2 60 _ refl (
      skip_high-HighInv w 4 56 _ refl (
        skip_high-HighInv w 8 48 _ refl (
          skip_high-HighInv w 16 32 _ refl (
            skip_high-HighInv w 32 0 (record { num = 64; word = w }) refl
              (record {
                moves = omega arith;
                reaches = omega arith;
                fits = lt;
                at_most = omega arith;
              }))))))

generic_fls-eq : (w : ℕ) → w ≢ 0 → generic_fls w ≡ (fls_end w).num
generic_fls-eq w nz = elim (Bool-cases (w == 0)) [
  | inl e ↦ absurd (nz ((==_iff w 0).0 e))
  | inr e ↦ unfold generic_fls fls_end in rw e
]

bounds_of :
    (w n word : ℕ)
    → word ≡ w * 2 ^ (64 - n)
    → 2 ^ 63 ≤ word
    → word < 2 ^ 64
    → n ≤ 64
    → (2 ^ (n - 1) ≤ w) × (w < 2 ^ n) × (1 ≤ n) × (n ≤ 64)
bounds_of w zero word e lo hi top = absurd (big w (word_lt e))
  where
    word_lt : word ≡ w * 2 ^ (64 - 0) → (word ≡ w * 2 ^ 64)
    word_lt p = p

    big : (v : ℕ) → word ≡ v * 2 ^ 64 → ⊥
    big v p = omega arith
bounds_of w (suc n) word e lo hi top =
    let d = 64 - suc n in
    let all : 2 ^ 64 ≡ 2 ^ suc n * 2 ^ d =
      ap (λ (t : ℕ). 2 ^ t) (exponent (suc n) top) ∙ pow-add (suc n) d in
    let most : 2 ^ 63 ≡ 2 ^ (suc n - 1) * 2 ^ d =
      ap (λ (t : ℕ). 2 ^ t) (exponent_pred n top) ∙ pow-add (suc n - 1) d in
    (
      le_of_mul-le-mul_right {k = 2 ^ d} (omega arith) (one-le-pow d 2 (omega arith)),
      lt_of_mul-lt-mul_right (2 ^ d) (omega arith),
      omega arith,
      top,
    )
  where
    exponent : (m : ℕ) → m ≤ 64 → 64 ≡ m + (64 - m)
    exponent m h = omega arith

    exponent_pred : (m : ℕ) → suc m ≤ 64 → 63 ≡ suc m - 1 + (64 - suc m)
    exponent_pred m h = omega arith

-- A non-zero 64-bit word lies in `[2 ^ (n - 1), 2 ^ n)` for `n` its `generic_fls`: `n` is the number
-- (from 1) of its highest set bit.
pub generic_fls-highest :
    (w : ℕ)
    → w ≢ 0
    → w < 2 ^ 64
    → (2 ^ (generic_fls w - 1) ≤ w)
      × (w < 2 ^ generic_fls w)
      × (1 ≤ generic_fls w)
      × (generic_fls w ≤ 64)
generic_fls-highest w nz lt =
    let v = fls_end-HighInv w nz lt in
    rw (generic_fls-eq w nz)
      (bounds_of w (fls_end w).num (fls_end w).word v.moves v.reaches v.fits v.at_most)

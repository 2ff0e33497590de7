-- ===== src/Bitmap/Read.antt =====
-- Reading a field of a cell, after a store to the same or to another field.
use native.Mathlib.Nat.{one-le-pow, div-add-mod', div-div-eq-div-mul, add-mul-div_right}
use native.Mathlib.Nat.{add-mul-mod_self_right, div-lt_iff_lt-mul}
use ufprog.Common.{ℕ, ◌+◌, ◌-◌, ◌/◌, ◌*◌, ◌%◌, ◌^◌, ◌≤◌, ◌<◌, ◌≡◌, arith, ap, sym, ◌∙◌, pow-add}
use ufprog.Bitmap.Field.{cell_of, div_fields, mod_fields}

-- The field of `k` bits from bit `s` on.
abbrev pub field : (s k x : ℕ) → ℕ
field s k x = x / 2 ^ s % 2 ^ k

pub cell_of-parts : (s k x : ℕ) → cell_of s k (x / 2 ^ s / 2 ^ k) (field s k x) (x % 2 ^ s) ≡ x
cell_of-parts s k x =
    omega
      (arith, ap (λ (t : ℕ). t * 2 ^ s) (div-add-mod' (x / 2 ^ s) (2 ^ k)), div-add-mod' x (2 ^ s))

pub field_self : (s k hi f lo : ℕ) → f < 2 ^ k → lo < 2 ^ s → field s k (cell_of s k hi f lo) ≡ f
field_self s k hi f lo hf hl =
    ap (λ (t : ℕ). t % 2 ^ k) (div_fields s (hi * 2 ^ k + f) lo hl) ∙ mod_fields k hi f hf

-- A field below is the low part's.
pub field-below : (s k j hi f lo : ℕ) → j + k ≤ s → field j k (cell_of s k hi f lo) ≡ field j k lo
field-below s k j hi f lo h =
    ap (λ (t : ℕ). t / 2 ^ j % 2 ^ k) regrouped
    ∙ ap (λ (t : ℕ). t % 2 ^ k)
        (add-mul-div_right lo (above * 2 ^ k) (one-le-pow j 2 (omega arith)))
    ∙ add-mul-mod_self_right (lo / 2 ^ j) above (2 ^ k)
  where
    above : ℕ
    above = (hi * 2 ^ k + f) * 2 ^ (s - (j + k))

    exponent : s ≡ s - (j + k) + (k + j)
    exponent = omega arith

    regrouped : cell_of s k hi f lo ≡ lo + above * 2 ^ k * 2 ^ j
    regrouped = omega (
      arith,
      ap (λ (t : ℕ). (hi * 2 ^ k + f) * 2 ^ t) exponent,
      ap (λ (t : ℕ). (hi * 2 ^ k + f) * t) (pow-add (s - (j + k)) (k + j)),
      ap (λ (t : ℕ). above * t) (pow-add k j),
    )

-- A field above is the high part's.
pub field-above :
    (s k j hi f lo : ℕ)
    → f < 2 ^ k
    → lo < 2 ^ s
    → s + k ≤ j
    → field j k (cell_of s k hi f lo) ≡ field (j - (s + k)) k hi
field-above s k j hi f lo hf hl h =
    ap (λ (t : ℕ). t % 2 ^ k)
      (ap (λ (t : ℕ). x / t) power
        ∙ sym (div-div-eq-div-mul x (2 ^ s * 2 ^ k) (2 ^ (j - (s + k))))
        ∙ ap (λ (t : ℕ). t / 2 ^ (j - (s + k)))
            (sym (div-div-eq-div-mul x (2 ^ s) (2 ^ k))
              ∙ ap (λ (t : ℕ). t / 2 ^ k) (div_fields s (hi * 2 ^ k + f) lo hl)
              ∙ div_fields k hi f hf))
  where
    x : ℕ
    x = cell_of s k hi f lo

    exponent : j ≡ s + k + (j - (s + k))
    exponent = omega arith

    power : 2 ^ j ≡ 2 ^ s * 2 ^ k * 2 ^ (j - (s + k))
    power =
        ap (λ (t : ℕ). 2 ^ t) exponent
        ∙ pow-add (s + k) (j - (s + k))
        ∙ ap (λ (t : ℕ). t * 2 ^ (j - (s + k))) (pow-add s k)

-- The part above a field of a number that fits.
pub above-lt : (s k t bits x : ℕ) → t + k + s ≡ bits → x < 2 ^ bits → x / 2 ^ s / 2 ^ k < 2 ^ t
above-lt s k t bits x e h = (div-lt_iff_lt-mul (one-le-pow k 2 (omega arith))).1 (
    (div-lt_iff_lt-mul (one-le-pow s 2 (omega arith))).1 (
      omega (
        arith,
        ap (λ (n : ℕ). 2 ^ n) e,
        pow-add (t + k) s,
        ap (λ (n : ℕ). n * 2 ^ s) (pow-add t k),
      )))

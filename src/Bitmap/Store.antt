-- ===== src/Bitmap/Store.antt =====
-- `store_unit` on any cell: the field written reads back, the others are as before.
use native.Mathlib.Nat.{mod-lt, one-le-pow}
use ufprog.Common.{ℕ, ◌+◌, ◌-◌, ◌/◌, ◌%◌, ◌^◌, ◌≤◌, ◌<◌, ◌≡◌, arith, ap, sym, ◌∙◌}
use ufprog.Bitmap.{store_unit}
use ufprog.Bitmap.Field.{cell_of, cell_of-lt, store_unit-eq}
use ufprog.Bitmap.Read.{field, cell_of-parts, field_self, field-below, field-above, above-lt}

module _ (s k t bits w x v : ℕ) (e : t + k + s ≡ bits) (le : bits ≤ w) (hx : x < 2 ^ bits)
    (hv : v < 2 ^ k) where
  result : ℕ
  result = cell_of s k (x / 2 ^ s / 2 ^ k) v (x % 2 ^ s)

  low : x % 2 ^ s < 2 ^ s
  low = mod-lt x (one-le-pow s 2 (omega arith))

  field_low : field s k x < 2 ^ k
  field_low = mod-lt (x / 2 ^ s) (one-le-pow k 2 (omega arith))

  stored : store_unit w bits x (2 ^ k - 1) v s ≡ result
  unfolding result
  stored =
      ap (λ (y : ℕ). store_unit w bits y (2 ^ k - 1) v s) (sym (cell_of-parts s k x))
      ∙ store_unit-eq s k t bits w (x / 2 ^ s / 2 ^ k) (field s k x) v (x % 2 ^ s) e le
          (above-lt s k t bits x e hx) field_low hv low

  pub store_unit-lt : store_unit w bits x (2 ^ k - 1) v s < 2 ^ bits
  unfolding result
  store_unit-lt = rw stored (cell_of-lt s k t bits _ v _ e (above-lt s k t bits x e hx) hv low)

  pub field-store_self : field s k (store_unit w bits x (2 ^ k - 1) v s) ≡ v
  unfolding result
  field-store_self = rw stored (field_self s k _ v _ hv low)

  pub field-store_below :
      (j : ℕ) → j + k ≤ s → field j k (store_unit w bits x (2 ^ k - 1) v s) ≡ field j k x
  unfolding result
  field-store_below j h =
      ap (field j k) stored
      ∙ field-below s k j _ v _ h
      ∙ sym (field-below s k j (x / 2 ^ s / 2 ^ k) (field s k x) (x % 2 ^ s) h)
      ∙ ap (field j k) (cell_of-parts s k x)

  pub field-store_above :
      (j : ℕ) → s + k ≤ j → field j k (store_unit w bits x (2 ^ k - 1) v s) ≡ field j k x
  unfolding result
  field-store_above j h =
      ap (field j k) stored
      ∙ field-above s k j _ v _ hv low h
      ∙ sym (field-above s k j (x / 2 ^ s / 2 ^ k) (field s k x) (x % 2 ^ s) field_low low h)
      ∙ ap (field j k) (cell_of-parts s k x)

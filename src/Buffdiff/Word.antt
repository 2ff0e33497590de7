-- ===== src/Buffdiff/Word.antt =====
-- Words are equal just when their bytes are, and the first difference of two ranges of bytes.
use ufprog.Common.{ℕ, zero, suc, ◌+◌, ◌-◌, ◌^◌, ◌≤◌, ◌<◌, ◌≡◌, refl, sym, ap, ◌∙◌, arith}
use native.Mathlib.Decide.{dec_le}
use native.Mathlib.Nat.{add-zero}
use ufprog.Buffdiff.{load_bytes, load, size_of_size}

-- Every cell of memory is a byte.
abbrev pub IsBytes : (ℕ → ℕ) → Type 0
IsBytes mem = (a : ℕ) → mem a < 2 ^ 8

module _ (mem : ℕ → ℕ) where
  -- The `n` bytes from `a` on are those from `b` on.
  abbrev pub Same : (a b n : ℕ) → Type 0
  Same a b n = (i : ℕ) → i < n → mem (a + i) ≡ mem (b + i)

  pub Same-suc : (a b n : ℕ) → mem a ≡ mem b → Same (a + 1) (b + 1) n → Same a b (suc n)
  Same-suc a b n e h zero l = ap mem (add-zero a) ∙ e ∙ sym (ap mem (add-zero b))
  Same-suc a b n e h (suc i) l = ap mem (on a) ∙ h i (omega arith) ∙ sym (ap mem (on b))
    where
      on : (x : ℕ) → x + suc i ≡ x + 1 + i
      on x = omega arith

  pub Same-tail : (a b n : ℕ) → Same a b (suc n) → Same (a + 1) (b + 1) n
  Same-tail a b n h i l = ap mem (on a) ∙ h (suc i) (omega arith) ∙ sym (ap mem (on b))
    where
      on : (x : ℕ) → x + 1 + i ≡ x + suc i
      on x = omega arith

  pub Same-head : (a b n : ℕ) → Same a b (suc n) → mem a ≡ mem b
  Same-head a b n h = sym (ap mem (add-zero a)) ∙ h 0 (omega arith) ∙ ap mem (add-zero b)

  pub Same-append : (a b m n : ℕ) → Same a b m → Same (a + m) (b + m) n → Same a b (m + n)
  Same-append a b m n h k i l = elim (dec_le m i) [
    | yes p ↦ ap mem (on a p) ∙ k (i - m) (omega arith) ∙ sym (ap mem (on b p))
    | no p ↦ h i (omega arith)
  ]
    where
      on : (x : ℕ) → m ≤ i → x + i ≡ x + m + (i - m)
      on x p = omega arith

  load_bytes-Same : IsBytes mem → (n a b : ℕ) → load_bytes mem a n ≡ load_bytes mem b n → Same a b n
  load_bytes-Same bytes zero a b e = λ i l. elim l [ ]
  load_bytes-Same bytes (suc n) a b e =
      Same-suc a b n (omega (arith, e, bytes a, bytes b))
        (load_bytes-Same bytes n (a + 1) (b + 1) (omega (arith, e, bytes a, bytes b)))

  Same-load_bytes : (n a b : ℕ) → Same a b n → load_bytes mem a n ≡ load_bytes mem b n
  Same-load_bytes zero a b h = refl
  Same-load_bytes (suc n) a b h =
      omega (arith, Same-head a b n h, Same-load_bytes n (a + 1) (b + 1) (Same-tail a b n h))

  pub load-Same : IsBytes mem → (a b : ℕ) → load mem a ≡ load mem b → Same a b size_of_size
  unfolding load
  load-Same bytes a b e = load_bytes-Same bytes size_of_size a b e

  pub Same-load : (a b : ℕ) → Same a b size_of_size → load mem a ≡ load mem b
  unfolding load
  Same-load a b h = Same-load_bytes size_of_size a b h

-- ===== src/Buffdiff/Loops.antt =====
-- The byte loop and the word loop give the first difference.
use ufprog.Common.{
  ℕ, zero, suc, ◌+◌, ◌-◌, ◌*◌, ◌/◌, ◌^◌, ◌<◌, ◌≡◌, ◌≢◌, sym, ap, ◌∙◌, arith, ◌==◌, ==_iff,
}
use ufprog.Common.{Option, none, some, false, Bool-cases, inl, inr}
use native.Mathlib.Nat.{add-zero, suc-mul, add_comm}
use ufprog.Buffdiff.{
  load, size_of_size, byte_loop, buf_diff_byte, sizeptr_pos, word_loop, buf_diff_sizeptr,
}
use ufprog.Buffdiff.Word.{IsBytes, Same, Same-suc, Same-append, load-Same, Same-load}

module _ (mem : ℕ → ℕ) where
  -- `n + d` for the first `d` below `len` at which the bytes from `a` and from `b` on differ; none if
  -- there is no such `d`.
  abbrev pub IsFirst : (a b n len : ℕ) → Option ℕ → Type 0
  IsFirst a b n len none = Same mem a b len
  IsFirst a b n len (some k) =
      (d : ℕ) × (k ≡ n + d) × (d < len) × (mem (a + d) ≢ mem (b + d)) × Same mem a b d

  -- A range in front that is the same, and a range behind.
  pub IsFirst-after :
      (a b n m len : ℕ) (r : Option ℕ)
      → Same mem a b m
      → IsFirst (a + m) (b + m) (n + m) len r
      → IsFirst a b n (m + len) r
  IsFirst-after a b n m len none h k = Same-append mem a b m len h k
  IsFirst-after a b n m len (some k) h (d, e, l, ne, same) = (
    m + d,
    omega (arith, e),
    omega arith,
    (λ z. ne (ap mem (sym (on a)) ∙ z ∙ ap mem (on b))),
    Same-append mem a b m d h same,
  )
    where
      on : (x : ℕ) → x + (m + d) ≡ x + m + d
      on x = omega arith

  -- A difference in the range in front.
  pub IsFirst-before :
      (a b n m len k : ℕ) → IsFirst a b n m (some k) → IsFirst a b n (m + len) (some k)
  IsFirst-before a b n m len k (d, e, l, ne, same) = (d, e, omega arith, ne, same)

  pub byte_loop-IsFirst : (left n a b : ℕ) → IsFirst a b n left (byte_loop mem left n a b)
  unfolding byte_loop
  byte_loop-IsFirst zero n a b = λ i l. elim l [ ]
  byte_loop-IsFirst (suc left) n a b = elim (Bool-cases (mem a == mem b)) [
    | inl e ↦ rw e (
        one_more (byte_loop mem left (n + 1) (a + 1) (b + 1)) ((==_iff (mem a) (mem b)).0 e)
          (byte_loop-IsFirst left (n + 1) (a + 1) (b + 1)))
    | inr e ↦ rw e (0, omega arith, omega arith, differs e, λ i l. elim l [ ])
  ]
    where
      differs : (mem a == mem b) ≡ false → mem (a + 0) ≢ mem (b + 0)
      differs e z = ground (arith, e, sym (ap mem (add-zero a)) ∙ z ∙ ap mem (add-zero b))

      one_more :
          (r : Option ℕ)
          → mem a ≡ mem b
          → IsFirst (a + 1) (b + 1) (n + 1) left r
          → IsFirst a b n (suc left) r
      one_more r e k =
          rw (one_plus left)
            (IsFirst-after a b n 1 left r (Same-suc mem a b 0 e (λ i l. elim l [ ])) k)
        where
          one_plus : (x : ℕ) → suc x ≡ 1 + x
          one_plus x = omega arith

  pub buf_diff_byte-IsFirst : (a b len : ℕ) → IsFirst a b 0 len (buf_diff_byte mem a b len)
  unfolding buf_diff_byte
  buf_diff_byte-IsFirst a b len = byte_loop-IsFirst len 0 a b

  module _ (bytes : IsBytes mem) where
    word_differs :
        (n a b len : ℕ) (r : Option ℕ)
        → (load mem a == load mem b) ≡ false
        → n + size_of_size < 2 ^ 64
        → IsFirst a b 0 size_of_size r
        → IsFirst a b n (size_of_size + len) (some (sizeptr_pos mem n r))
    unfolding sizeptr_pos
    word_differs n a b len none e h same = absurd (ground (arith, e, Same-load mem a b same))
    word_differs n a b len (some c) e h (d, ec, l, ne, same) =
        (d, omega (arith, ec, l, h), omega (arith, l), ne, same)

    pub word_loop-IsFirst :
        (words n a b : ℕ)
        → n + words * size_of_size < 2 ^ 64
        → IsFirst a b n (words * size_of_size) (word_loop mem words n a b)
    unfolding word_loop
    word_loop-IsFirst zero n a b h = λ i l. absurd (omega (arith, l))
    word_loop-IsFirst (suc words) n a b h =
        rw (suc-mul words size_of_size, add_comm (words * size_of_size) size_of_size)
          (elim (Bool-cases (load mem a == load mem b)) [
            | inl e ↦ rw e (
                IsFirst-after a b n size_of_size (words * size_of_size) _
                  (load-Same mem bytes a b ((==_iff (load mem a) (load mem b)).0 e))
                  (word_loop-IsFirst words (n + size_of_size) (a + size_of_size) (b + size_of_size)
                    (omega (arith, h))))
            | inr e ↦ rw e (
                word_differs n a b (words * size_of_size) _ e (omega (arith, h))
                  (buf_diff_byte-IsFirst a b size_of_size))
          ])

    pub buf_diff_sizeptr-IsFirst :
        (a b words : ℕ)
        → words * size_of_size < 2 ^ 64
        → IsFirst a b 0 (words * size_of_size) (buf_diff_sizeptr mem a b (words * size_of_size))
    unfolding buf_diff_sizeptr
    buf_diff_sizeptr-IsFirst a b words h =
        let e : (words * size_of_size + size_of_size - 1) / size_of_size ≡ words = omega arith in
        rw e (word_loop-IsFirst words 0 a b (omega (arith, h)))

-- ===== src/Buffdiff/First.antt =====
-- `bufdiff` gives the position of the first difference.
use ufprog.Common.{
  ℕ, ◌+◌, ◌-◌, ◌*◌, ◌/◌, ◌%◌, ◌^◌, ◌≤◌, ◌<◌, ◌≡◌, ◌≢◌, refl, ap, arith, u64, ◌==◌, ==_iff, bit_and,
  bit_and_mask,
}
use ufprog.Common.{Option, none, some, Bool-cases, inl, inr, ◌⊎◌}
use mathlib.Core.Path.{transport}
use native.Mathlib.Nat.{zero-add}
use ufprog.Buffdiff.{size_of_size, tail_part, two_parts, aligned_part, offset_part, bufdiff}
use ufprog.Buffdiff.Word.{IsBytes}
use ufprog.Buffdiff.Loops.{
  IsFirst, IsFirst-after, IsFirst-before, buf_diff_byte-IsFirst, buf_diff_sizeptr-IsFirst,
}

module _ (mem : ℕ → ℕ) where
  -- A difference found in a range behind `m` bytes, its position counted from there and moved.
  moved :
      (a b n len : ℕ) (r : Option ℕ)
      → n + len < 2 ^ 64
      → IsFirst mem a b 0 len r
      → IsFirst mem a b n len (elim r [ none ↦ none | some c ↦ some (u64 (n + c)) ])
  moved a b n len none h k = k
  moved a b n len (some c) h (d, e, l, ne, same) = (d, omega (arith, e, l, h), l, ne, same)

  tail_part-IsFirst :
      (a b ua whole left : ℕ)
      → ua + whole + left < 2 ^ 64
      → IsFirst mem (a + whole) (b + whole) (ua + whole) left (tail_part mem a b ua whole left)
  unfolding tail_part
  tail_part-IsFirst a b ua whole left h = elim (Bool-cases (left == 0)) [
    | inl e ↦ rw e (λ i l. absurd (omega (arith, l, (==_iff left 0).0 e)))
    | inr e ↦
        rw e
          (moved (a + whole) (b + whole) (ua + whole) left _ h (buf_diff_byte-IsFirst mem _ _ left))
  ]

  either_part :
      (a b ua whole left : ℕ) (r : Option ℕ)
      → ua + whole + left < 2 ^ 64
      → IsFirst mem a b 0 whole r
      → IsFirst mem a b ua
          (whole + left)
          (elim r [ none ↦ tail_part mem a b ua whole left | some c ↦ some (u64 (ua + c)) ])
  either_part a b ua whole left none h k =
      IsFirst-after mem a b ua whole left _ k (tail_part-IsFirst a b ua whole left h)
  either_part a b ua whole left (some c) h k =
      IsFirst-before mem a b ua whole left _ (moved a b ua whole (some c) (omega (arith, h)) k)

  module _ (bytes : IsBytes mem) where
    two_parts-IsFirst :
        (a b ua words left : ℕ)
        → ua + words * size_of_size + left < 2 ^ 64
        → IsFirst mem a b ua
            (words * size_of_size + left)
            (two_parts mem a b ua (words * size_of_size) left)
    unfolding two_parts
    two_parts-IsFirst a b ua words left h = elim (Bool-cases (words * size_of_size == 0)) [
      | inl e ↦ rw e (
          IsFirst-after mem a b ua (words * size_of_size) left _
            (λ i l. absurd (omega (arith, l, (==_iff (words * size_of_size) 0).0 e)))
            (tail_part-IsFirst a b ua (words * size_of_size) left h))
      | inr e ↦ rw e (
          either_part a b ua (words * size_of_size) left _ h
            (buf_diff_sizeptr-IsFirst mem bytes a b words (omega (arith, h))))
    ]

    aligned_part-IsFirst :
        (a b ua len : ℕ) → ua + len < 2 ^ 64 → IsFirst mem a b ua len (aligned_part mem a b ua len)
    unfolding aligned_part
    aligned_part-IsFirst a b ua len h =
        rw (low, whole)
          (transport
            (ap
              (λ (x : ℕ).
                IsFirst mem a b ua x (two_parts mem a b ua (len / 8 * size_of_size) (len % 8)))
              sum)
            (two_parts-IsFirst a b ua (len / 8) (len % 8) (omega (arith, h))))
      where
        low : bit_and len (size_of_size - 1) ≡ len % 8
        low = bit_and_mask 3 len

        whole : len - len % 8 ≡ len / 8 * size_of_size
        whole = omega arith

        sum : len / 8 * size_of_size + len % 8 ≡ len
        sum = omega arith

    front_part :
        (a b ua len : ℕ) (r : Option ℕ)
        → ua ≤ len
        → len < 2 ^ 64
        → IsFirst mem a b 0 ua r
        → IsFirst mem a b 0 len (elim r [
          | none ↦ aligned_part mem (a + ua) (b + ua) ua (u64 (len + 2 ^ 64 - ua))
          | some n ↦ some n
        ])
    front_part a b ua len none le h same = rw rest (
        transport
          (ap (λ (x : ℕ). IsFirst mem a b 0 x (aligned_part mem (a + ua) (b + ua) ua (len - ua)))
            sum)
          (IsFirst-after mem a b 0 ua (len - ua) _ same (
            rw (zero-add ua)
              (aligned_part-IsFirst (a + ua) (b + ua) ua (len - ua) (omega (arith, h))))))
      where
        rest : u64 (len + 2 ^ 64 - ua) ≡ len - ua
        rest = omega (arith, h, le)

        sum : ua + (len - ua) ≡ len
        sum = omega (arith, le)
    front_part a b ua len (some n) le h (d, e, l, ne, same) = (d, e, omega (arith, l, le), ne, same)

    offset_same-IsFirst :
        (a b ua len : ℕ)
        → len < 2 ^ 64
        → ua ≤ len
        → IsFirst mem a b 0 len (offset_part mem a b ua ua len)
    unfolding offset_part
    offset_same-IsFirst a b ua len small le =
        rw ((==_iff ua ua).1 refl) (elim (Bool-cases (ua == 0)) [
          | inl z ↦ rw z (at_zero ((==_iff ua 0).0 z))
          | inr z ↦ rw z (front_part a b ua len _ le small (buf_diff_byte-IsFirst mem a b ua))
        ])
      where
        at_zero : ua ≡ 0 → IsFirst mem a b 0 len (aligned_part mem a b ua len)
        at_zero z = rw z (aligned_part-IsFirst a b 0 len (omega (arith, small)))

    offset_part-IsFirst :
        (a b ua ub len : ℕ)
        → len < 2 ^ 64
        → (ua ≢ ub) ⊎ (ua ≤ len)
        → IsFirst mem a b 0 len (offset_part mem a b ua ub len)
    unfolding offset_part
    offset_part-IsFirst a b ua ub len small fits = elim (Bool-cases (ua == ub)) [
      | inr e ↦ rw e (buf_diff_byte-IsFirst mem a b len)
      | inl e ↦
          let same : ua ≡ ub = (==_iff ua ub).0 e in
          let le : ua ≤ len = elim fits [ inl ne ↦ absurd (ne same) | inr le ↦ le ] in
          transport (ap (λ (x : ℕ). IsFirst mem a b 0 len (offset_part mem a b ua x len)) same)
            (offset_same-IsFirst a b ua len small le)
    ]

    -- `bufdiff` returns true just when the two buffers are the same, and else gives the position of
    -- the first byte that differs; this holds if the buffers are aligned differently, or have at
    -- least as many bytes as their address has past a multiple of 8.
    pub bufdiff-IsFirst :
        (a b len : ℕ)
        → len < 2 ^ 64
        → (bit_and a (size_of_size - 1) ≢ bit_and b (size_of_size - 1))
          ⊎ (bit_and a (size_of_size - 1) ≤ len)
        → IsFirst mem a b 0 len (bufdiff mem a b len)
    unfolding bufdiff
    bufdiff-IsFirst a b len small fits = offset_part-IsFirst a b _ _ len small fits

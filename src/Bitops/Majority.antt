-- ===== src/Bitops/Majority.antt =====
-- common/bitops.c: `bitwise_majority`, bit by bit.
use native.Mathlib.Nat.{one-le-pow, mod-lt, div-add-mod', zero-mul, zero-add}
use native.Mathlib.Decide.{ℕ_discrete}
use ufprog.Common.{ℕ, zero, suc, ◌+◌, ◌*◌, ◌/◌, ◌%◌, ◌^◌, ◌≤◌, ◌<◌, ◌≡◌, refl, arith, ap, sym, ◌∙◌}
use ufprog.Common.{
  bit_and, bit_or, bit_and_split, bit_or_split, bit_and_mask, bit_and-zero, pow-add,
}
use ufprog.Common.{bit_or-zero, zero-bit_or}
use ufprog.Common.{
  ◌==◌, ltb, false, Bool-cases, inl, inr, if◌then◌else◌, List, [], ◌∷◌, get_or, length,
}
use ufprog.Bitmap.Field.{cell_of}
use ufprog.Bitmap.Read.{field_self, field-below}
use ufprog.Bitops.{count_sources, majority_byte, majority_from, bitwise_majority}

-- Bit `j` of a number.
abbrev pub bit : ℕ → ℕ → ℕ
bit a j = a / 2 ^ j % 2

-- The number of buffers whose byte `i` has bit `j`.
abbrev pub votes : List (List ℕ) → ℕ → ℕ → ℕ
votes [] i j = 0
votes (b ∷ bs) i j = bit (get_or b i 0) j + votes bs i j

-- One when more than half of the buffers have the bit.
abbrev pub winner : List (List ℕ) → ℕ → ℕ → ℕ
winner bufs i j = if ltb (length bufs) (2 * votes bufs i j) then 1 else 0

bit_and-bit : (a j : ℕ) → bit_and a (2 ^ j) ≡ bit a j * 2 ^ j
bit_and-bit a j =
    let pos : 1 ≤ 2 ^ j = one-le-pow j 2 (omega arith) in
    let ea : a / 2 ^ j * 2 ^ j + a % 2 ^ j ≡ a = div-add-mod' a (2 ^ j) in
    let em : 1 * 2 ^ j + 0 ≡ 2 ^ j = omega arith in
    omega (
      arith,
      ap (λ (t : ℕ). bit_and t (2 ^ j)) ea,
      ap (bit_and (a / 2 ^ j * 2 ^ j + a % 2 ^ j)) em,
      bit_and_split j (a / 2 ^ j) (a % 2 ^ j) 1 0 (mod-lt a pos) pos,
      bit_and-zero (a % 2 ^ j),
      ap (λ (t : ℕ). t * 2 ^ j) (bit_and_mask 1 (a / 2 ^ j)),
    )

-- `val |= BIT(j)` on a `val` of fewer than `j + 1` bits.
bit_or-bit : (a j : ℕ) → a < 2 ^ j → bit_or a (2 ^ j) ≡ 2 ^ j + a
bit_or-bit a j h =
    let ea : 0 * 2 ^ j + a ≡ a = omega (arith, zero-mul (2 ^ j)) in
    let em : 1 * 2 ^ j + 0 ≡ 2 ^ j = omega arith in
    omega (
      arith,
      ap (λ (t : ℕ). bit_or t (2 ^ j)) ea,
      ap (bit_or (0 * 2 ^ j + a)) em,
      bit_or_split j 0 a 1 0 h (one-le-pow j 2 (omega arith)),
      bit_or-zero a,
      ap (λ (t : ℕ). t * 2 ^ j) (zero-bit_or 1),
    )

count_one : (a j cnt : ℕ) → (if bit_and a (2 ^ j) == 0 then cnt else cnt + 1) ≡ cnt + bit a j
count_one a j cnt =
    let pos : 1 ≤ 2 ^ j = one-le-pow j 2 (omega arith) in
    let e : bit_and a (2 ^ j) ≡ bit a j * 2 ^ j = bit_and-bit a j in
    elim (ℕ_discrete (bit a j) 0) [
      | yes z ↦ ground (arith, e, z, ap (λ (t : ℕ). t * 2 ^ j) z, zero-mul (2 ^ j))
      | no n ↦
          let one : bit a j ≡ 1 = omega (arith, n) in
          ground (arith, e, one, ap (λ (t : ℕ). t * 2 ^ j) one, pos)
    ]

count_sources-votes :
    (bufs : List (List ℕ)) (i j cnt : ℕ) → count_sources bufs i j cnt ≡ cnt + votes bufs i j
unfolding count_sources
count_sources-votes [] i j cnt = omega arith
count_sources-votes (b ∷ bs) i j cnt =
    ap (count_sources bs i j) (count_one (get_or b i 0) j cnt)
    ∙ count_sources-votes bs i j (cnt + bit (get_or b i 0) j)
    ∙ omega arith

-- The same test as the code's, which halves the number of buffers.
half : (n v : ℕ) → ltb (n / 2) v ≡ ltb n (2 * v)
half n v = ground arith

winner-IsBit : (bufs : List (List ℕ)) (i j : ℕ) → winner bufs i j < 2
winner-IsBit bufs i j = ground arith

-- One round of the loop over `j` puts the winner in bit `j`.
round :
    (bufs : List (List ℕ)) (i j val : ℕ)
    → val < 2 ^ j
    → (if ltb (length bufs / 2) (count_sources bufs i j 0) then bit_or val (2 ^ j) else val)
      ≡ cell_of j 1 0 (winner bufs i j) val
round bufs i j val h = elim (Bool-cases (ltb (length bufs) (2 * votes bufs i j))) [
  | inl t ↦
      rw (count_sources-votes bufs i j 0, zero-add, half, t) (bit_or-bit val j h ∙ omega arith)
  | inr f ↦ rw (count_sources-votes bufs i j 0, zero-add, half, f) (omega (arith, zero-mul (2 ^ j)))
]

-- A round leaves `val` within the bits seen so far.
cell-fits : (j d val : ℕ) → d < 2 → val < 2 ^ j → cell_of j 1 0 d val < 2 ^ (j + 1)
cell-fits j d val hd h = elim (ℕ_discrete d 0) [
  | yes z ↦ omega (arith, pow-add j 1, ap (λ (t : ℕ). (0 * 2 ^ 1 + t) * 2 ^ j) z, zero-mul (2 ^ j))
  | no n ↦
      let one : d ≡ 1 = omega (arith, n, hd) in
      omega (arith, pow-add j 1, ap (λ (t : ℕ). (0 * 2 ^ 1 + t) * 2 ^ j) one)
]

-- Later rounds leave an earlier bit alone.
majority_byte-keeps :
    (bufs : List (List ℕ)) (i left j val m : ℕ)
    → val < 2 ^ j
    → m < j
    → bit (majority_byte bufs i left j val) m ≡ bit val m
unfolding majority_byte
majority_byte-keeps bufs i zero j val m h lt = refl
majority_byte-keeps bufs i (suc left) j val m h lt =
    let d : ℕ = winner bufs i j in
    ap (λ (t : ℕ). bit (majority_byte bufs i left (j + 1) t) m) (round bufs i j val h)
    ∙ majority_byte-keeps bufs i left (j + 1) (cell_of j 1 0 d val) m
        (cell-fits j d val (winner-IsBit bufs i j) h) (omega (arith, lt))
    ∙ field-below j 1 m 0 d val (omega (arith, lt))

majority_byte-elects :
    (bufs : List (List ℕ)) (i left j val m : ℕ)
    → val < 2 ^ j
    → j ≤ m
    → m < j + left
    → bit (majority_byte bufs i left j val) m ≡ winner bufs i m
unfolding majority_byte
majority_byte-elects bufs i zero j val m h low high = absurd (omega (arith, low, high))
majority_byte-elects bufs i (suc left) j val m h low high =
    let d : ℕ = winner bufs i j in
    let fits : cell_of j 1 0 d val < 2 ^ (j + 1) = cell-fits j d val (winner-IsBit bufs i j) h in
    ap (λ (t : ℕ). bit (majority_byte bufs i left (j + 1) t) m) (round bufs i j val h)
    ∙ elim (ℕ_discrete j m) [
      | yes e ↦
          majority_byte-keeps bufs i left (j + 1) (cell_of j 1 0 d val) m fits (omega (arith, e))
          ∙ ap (bit (cell_of j 1 0 d val)) (sym e)
          ∙ field_self j 1 0 d val (winner-IsBit bufs i j) h
          ∙ ap (winner bufs i) e
      | no n ↦
          majority_byte-elects bufs i left (j + 1) (cell_of j 1 0 d val) m fits
            (omega (arith, n, low)) (omega (arith, high))
    ]

get_or-majority_from :
    (bufs : List (List ℕ)) (i left k : ℕ)
    → k < left
    → get_or (majority_from bufs i left) k 0 ≡ majority_byte bufs (i + k) 8 0 0
unfolding majority_from
get_or-majority_from bufs i zero k h = absurd (omega (arith, h))
get_or-majority_from bufs i (suc left) zero h =
    ap (λ (t : ℕ). majority_byte bufs t 8 0 0) (omega arith)
get_or-majority_from bufs i (suc left) (suc k) h =
    get_or-majority_from bufs (i + 1) left k (omega (arith, h))
    ∙ ap (λ (t : ℕ). majority_byte bufs t 8 0 0) (omega arith)

-- When there is a buffer, a bit of a byte that `bitwise_majority` writes is one if more than half
-- of the buffers have it, and zero if not.
pub bitwise_majority-elects :
    (bufs : List (List ℕ)) (bufsize i j : ℕ)
    → 1 ≤ length bufs
    → i < bufsize
    → j < 8
    → bit (get_or (bitwise_majority bufs bufsize) i 0) j ≡ winner bufs i j
unfolding bitwise_majority
bitwise_majority-elects bufs bufsize i j some_buffer hi hj =
    let there : (length bufs == 0) ≡ false = ground (arith, some_buffer) in
    rw (there, get_or-majority_from bufs 0 bufsize i hi, zero-add)
      (majority_byte-elects bufs i 8 0 0 j (omega arith) (omega arith) (omega (arith, hj)))

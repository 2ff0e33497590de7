-- ===== src/Bitops/Lowest.antt =====
-- common/bitops.c: the shifts of `generic_ffs`, step by step.
use native.Mathlib.Nat.{mul-mod_left, div-add-mod'}
use ufprog.Common.{ℕ, ◌+◌, ◌-◌, ◌/◌, ◌*◌, ◌%◌, ◌^◌, ◌≤◌, ◌<◌, ◌≡◌, ◌≢◌, arith, ap, sym, ◌∙◌}
use ufprog.Common.{
  bit_and, bit_and_mask, pow-add, ◌==◌, Bool-cases, inl, inr, ==_iff, if◌then◌else◌,
}
use ufprog.Bitops.{FindState, skip_low, generic_ffs}

-- `word`, moved up by `num - 1` bits, is still `w`, and one of its low `k` bits is set.
record LowInv (w k : ℕ) (s : FindState) : Type 0 where
  keeps : s.word * 2 ^ (s.num - 1) ≡ w
  live : s.word % 2 ^ k ≢ 0
  at_least : 1 ≤ s.num
  at_most : s.num + k ≤ 65

zero_halves : (k x : ℕ) → x % 2 ^ k ≡ 0 → x / 2 ^ k % 2 ^ k ≡ 0 → x % 2 ^ (k + k) ≡ 0
zero_halves k x lo hi =
    let m = 2 ^ k in
    let e0 : x ≡ x / m * m = omega (arith, div-add-mod' x m) in
    let e1 : x / m ≡ x / m / m * m = omega (arith, div-add-mod' (x / m) m) in
    let e : x ≡ x / m / m * (2 ^ (k + k)) =
      omega (arith, ap (λ (t : ℕ). t * m) e1, ap (λ (t : ℕ). x / m / m * t) (pow-add k k)) in
    ap (λ (t : ℕ). t % 2 ^ (k + k)) e ∙ mul-mod_left (x / m / m) (2 ^ (k + k))

moved :
    (k num word : ℕ)
    → 1 ≤ num
    → word % 2 ^ k ≡ 0
    → word / 2 ^ k * 2 ^ (num + k - 1) ≡ word * 2 ^ (num - 1)
moved k num word pos low =
    let e : num + k - 1 ≡ k + (num - 1) = omega arith in
    let e0 : word / 2 ^ k * 2 ^ k ≡ word = omega (arith, div-add-mod' word (2 ^ k)) in
    omega (
      arith,
      ap (λ (t : ℕ). word / 2 ^ k * 2 ^ t) e,
      ap (λ (t : ℕ). word / 2 ^ k * t) (pow-add k (num - 1)),
      ap (λ (t : ℕ). t * 2 ^ (num - 1)) e0,
    )

skip_low-LowInv :
    (w k : ℕ) (s : FindState) → LowInv w (k + k) s → LowInv w k (skip_low (2 ^ k - 1) k s)
unfolding skip_low
skip_low-LowInv w k s v = elim (Bool-cases (bit_and s.word (2 ^ k - 1) == 0)) [
  | inl e ↦
      let low : s.word % 2 ^ k ≡ 0 = omega (arith, (==_iff _ 0).0 e, bit_and_mask k s.word) in
      rw e (record {
        keeps = moved k s.num s.word v.at_least low ∙ v.keeps;
        live = λ z. v.live (zero_halves k s.word low z);
        at_least = omega (arith, v.at_least);
        at_most = omega (arith, v.at_most);
      })
  | inr e ↦ rw e (record {
    keeps = v.keeps;
    live = ground (arith, bit_and_mask k s.word);
    at_least = v.at_least;
    at_most = omega (arith, v.at_most);
  })
]

ffs_start : ℕ → FindState
ffs_start w = skip_low 0x3 2 (
    skip_low 0xf 4 (
      skip_low 0xff 8 (skip_low 0xffff 16 (skip_low 0xffffffff 32 (record { num = 1; word = w })))))

ffs_start-LowInv : (w : ℕ) → w ≢ 0 → w < 2 ^ 64 → LowInv w 2 (ffs_start w)
unfolding ffs_start
ffs_start-LowInv w nz lt = skip_low-LowInv w 2 _ (
    skip_low-LowInv w 4 _ (
      skip_low-LowInv w 8 _ (
        skip_low-LowInv w 16 _ (
          skip_low-LowInv w 32 (record { num = 1; word = w })
            (record {
              keeps = omega arith;
              live = omega arith;
              at_least = omega arith;
              at_most = omega arith;
            })))))

generic_ffs-eq : (w : ℕ) → w ≢ 0 → generic_ffs w ≡ (skip_low 0x1 1 (ffs_start w)).num
generic_ffs-eq w nz = elim (Bool-cases (w == 0)) [
  | inl e ↦ absurd (nz ((==_iff w 0).0 e))
  | inr e ↦ unfold generic_ffs ffs_start in rw e (test (ffs_start w))
]
  where
    test :
        (s : FindState)
        → (if bit_and s.word 0x1 == 0 then s.num + 1 else s.num) ≡ (skip_low 0x1 1 s).num
    test s = unfold skip_low in ground arith

odd : (x : ℕ) → x % 2 ≢ 0 → x ≡ 2 * (x / 2) + 1
odd x h = omega arith

-- For a non-zero 64-bit word, `generic_ffs` is the number (from 1) of the lowest set bit: the word
-- is an odd multiple of `2 ^ (n - 1)`.
pub generic_ffs-lowest :
    (w : ℕ)
    → w ≢ 0
    → w < 2 ^ 64
    → (q : ℕ) × (w ≡ (2 * q + 1) * 2 ^ (generic_ffs w - 1))
      × (1 ≤ generic_ffs w)
      × (generic_ffs w ≤ 64)
generic_ffs-lowest w nz lt =
    let s = skip_low 0x1 1 (ffs_start w) in
    let v : LowInv w 1 s = skip_low-LowInv w 1 (ffs_start w) (ffs_start-LowInv w nz lt) in
    rw (generic_ffs-eq w nz) (
      s.word / 2,
      sym v.keeps ∙ ap (λ (t : ℕ). t * 2 ^ (s.num - 1)) (odd s.word v.live),
      v.at_least,
      omega (arith, v.at_most),
    )

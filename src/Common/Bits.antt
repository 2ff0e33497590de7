-- ===== src/Common/Bits.antt =====
-- `&` with masks and `|` of disjoint fields, as arithmetic, at every width.
use Prim.Native.Nat.{ℕ, zero, suc, ◌+◌, ◌-◌, ◌*◌, ◌/◌, ◌%◌, ◌^◌, ◌≤◌, ◌<◌}
use Prim.Native.Nat.{min, max, bit_and, bit_or, bit_and-bitwise, bit_or-bitwise}
use mathlib.Core.Path.{◌≡◌, refl, ap, ap₂}
use native.Mathlib.Nat.{pow-suc, one-le-pow, mod-lt, zero-mul, zero-add, suc-add}
use native.Mathlib.Nat.{div-add-mod'}
use native.Mathlib.Omega.{arith}
use ufprog.Common.Step.{bit_and_step, bit_or_step}

-- `(uintN_t)x`
abbrev pub u8 : ℕ → ℕ
u8 x = x % 2 ^ 8

abbrev pub u16 : ℕ → ℕ
u16 x = x % 2 ^ 16

abbrev pub u32 : ℕ → ℕ
u32 x = x % 2 ^ 32

abbrev pub u64 : ℕ → ℕ
u64 x = x % 2 ^ 64

infixl 70 ◌<<<◌ ◌>>>◌
-- `x << k` before its result is cut to a width, and `x >> k`.
abbrev pub ◌<<<◌ : ℕ → ℕ → ℕ
x <<< k = x * 2 ^ k

abbrev pub ◌>>>◌ : ℕ → ℕ → ℕ
x >>> k = x / 2 ^ k

bit_and-zero_upto : (n a : ℕ) → a ≤ n → bit_and a 0 ≡ 0
bit_and-zero_upto n zero h = refl
bit_and-zero_upto zero (suc a) h = absurd (omega arith)
bit_and-zero_upto (suc n) (suc a) h =
    omega (arith, bit_and_step (suc a) 0, bit_and-zero_upto n (suc a / 2) (omega arith))

pub bit_and-zero : (a : ℕ) → bit_and a 0 ≡ 0
bit_and-zero a = bit_and-zero_upto a a (omega arith)

bit_or-zero_upto : (n a : ℕ) → a ≤ n → bit_or a 0 ≡ a
bit_or-zero_upto n zero h = refl
bit_or-zero_upto zero (suc a) h = absurd (omega arith)
bit_or-zero_upto (suc n) (suc a) h =
    omega (arith, bit_or_step (suc a) 0, bit_or-zero_upto n (suc a / 2) (omega arith))

pub bit_or-zero : (a : ℕ) → bit_or a 0 ≡ a
bit_or-zero a = bit_or-zero_upto a a (omega arith)

pub zero-bit_or : (a : ℕ) → bit_or 0 a ≡ a
zero-bit_or a = bit_or-bitwise 0 a

pub zero-bit_and : (a : ℕ) → bit_and 0 a ≡ 0
zero-bit_and a = bit_and-bitwise 0 a

pub double : (q k : ℕ) → q * 2 ^ suc k ≡ 2 * (q * 2 ^ k)
double q k = omega (arith, ap (λ (t : ℕ). q * t) (pow-suc 2 k))

-- `&` and `|` work on the parts above and below bit `k` apart.
pub bit_and_split :
    (k q r m n : ℕ)
    → r < 2 ^ k
    → n < 2 ^ k
    → bit_and (q * 2 ^ k + r) (m * 2 ^ k + n) ≡ bit_and q m * 2 ^ k + bit_and r n
bit_and_split zero q r m n hr hn =
    let eq : q * 1 + r ≡ q = omega arith in
    let em : m * 1 + n ≡ m = omega arith in
    let er : r ≡ 0 = omega arith in
    let en : n ≡ 0 = omega arith in omega (arith, ap₂ bit_and eq em, ap₂ bit_and er en)
bit_and_split (suc k) q r m n hr hn = ground (
  arith,
  bit_and_step (q * 2 ^ suc k + r) (m * 2 ^ suc k + n),
  bit_and_step r n,
  double q k,
  double m k,
  double (bit_and q m) k,
  pow-suc 2 k,
  bit_and_split k q (r / 2) m (n / 2) (omega (arith, pow-suc 2 k)) (omega (arith, pow-suc 2 k)),
)

pub bit_or_split :
    (k q r m n : ℕ)
    → r < 2 ^ k
    → n < 2 ^ k
    → bit_or (q * 2 ^ k + r) (m * 2 ^ k + n) ≡ bit_or q m * 2 ^ k + bit_or r n
bit_or_split zero q r m n hr hn =
    let eq : q * 1 + r ≡ q = omega arith in
    let em : m * 1 + n ≡ m = omega arith in
    let er : r ≡ 0 = omega arith in
    let en : n ≡ 0 = omega arith in omega (arith, ap₂ bit_or eq em, ap₂ bit_or er en)
bit_or_split (suc k) q r m n hr hn = ground (
  arith,
  bit_or_step (q * 2 ^ suc k + r) (m * 2 ^ suc k + n),
  bit_or_step r n,
  double q k,
  double m k,
  double (bit_or q m) k,
  pow-suc 2 k,
  bit_or_split k q (r / 2) m (n / 2) (omega (arith, pow-suc 2 k)) (omega (arith, pow-suc 2 k)),
)

-- A mask of `k` ones keeps a number of `k` bits.
pub bit_and_ones : (k r : ℕ) → r < 2 ^ k → bit_and r (2 ^ k - 1) ≡ r
bit_and_ones zero r h = rw bit_and-zero (omega arith)
bit_and_ones (suc k) r h = omega (
  arith,
  bit_and_step r (2 ^ suc k - 1),
  pow-suc 2 k,
  one-le-pow k 2,
  ap (bit_and (r / 2)) (ones_half k),
  bit_and_ones k (r / 2) (omega (arith, pow-suc 2 k)),
)
  where
    ones_half : (j : ℕ) → (2 ^ suc j - 1) / 2 ≡ 2 ^ j - 1
    ones_half j = omega (arith, pow-suc 2 j, one-le-pow j 2)

pub bit_and_mask : (k a : ℕ) → bit_and a (2 ^ k - 1) ≡ a % 2 ^ k
bit_and_mask k a =
    let pos : 1 ≤ 2 ^ k = one-le-pow k 2 (omega arith) in
    let low : a % 2 ^ k < 2 ^ k = mod-lt a pos in
    let ea : a / 2 ^ k * 2 ^ k + a % 2 ^ k ≡ a = div-add-mod' a (2 ^ k) in
    let em : 0 * 2 ^ k + (2 ^ k - 1) ≡ 2 ^ k - 1 = omega arith in
    omega (
      arith,
      ap₂ bit_and ea em,
      bit_and_split k (a / 2 ^ k) (a % 2 ^ k) 0 (2 ^ k - 1) low (omega arith),
      bit_and-zero (a / 2 ^ k),
      zero-mul (2 ^ k),
      ap (λ (t : ℕ). t * 2 ^ k) (bit_and-zero (a / 2 ^ k)),
      bit_and_ones k (a % 2 ^ k) low,
    )

-- `a & ~(2 ^ k - 1)` within `k + j` bits.
pub bit_and_high :
    (k j a : ℕ) → a / 2 ^ k < 2 ^ j → bit_and a ((2 ^ j - 1) * 2 ^ k) ≡ a / 2 ^ k * 2 ^ k
bit_and_high k j a h =
    let pos : 1 ≤ 2 ^ k = one-le-pow k 2 (omega arith) in
    let low : a % 2 ^ k < 2 ^ k = mod-lt a pos in
    let ea : a / 2 ^ k * 2 ^ k + a % 2 ^ k ≡ a = div-add-mod' a (2 ^ k) in
    let em : (2 ^ j - 1) * 2 ^ k + 0 ≡ (2 ^ j - 1) * 2 ^ k = omega arith in
    omega (
      arith,
      ap₂ bit_and ea em,
      bit_and_split k (a / 2 ^ k) (a % 2 ^ k) (2 ^ j - 1) 0 low (omega arith),
      bit_and-zero (a % 2 ^ k),
      ap (λ (t : ℕ). t * 2 ^ k) (bit_and_ones j (a / 2 ^ k) h),
    )

pub pow-add : (a b : ℕ) → 2 ^ (a + b) ≡ 2 ^ a * 2 ^ b
pow-add zero b = rw zero-add (omega arith)
pow-add (suc a) b = rw (suc-add a b) (
    omega
      (arith, pow-suc 2 (a + b), pow-suc 2 a, pow-add a b, ap (λ (t : ℕ). t * 2 ^ b) (pow-suc 2 a)))

bit_and-upto : (n a m : ℕ) → m ≤ n → bit_and a m ≤ m
bit_and-upto zero a m h =
    let none_set : m ≡ 0 = omega arith in omega (arith, ap (bit_and a) none_set, bit_and-zero a)
bit_and-upto (suc n) a m h =
    ground (arith, bit_and_step a m, bit_and-upto n (a / 2) (m / 2) (omega arith))

-- `&` gives no more than the mask.
pub bit_and-fits : (a m : ℕ) → bit_and a m ≤ m
bit_and-fits a m = bit_and-upto m a m (omega arith)

bit_and-upto_left : (n a m : ℕ) → a ≤ n → bit_and a m ≤ a
bit_and-upto_left zero a m h =
    let none_set : a ≡ 0 = omega arith in
    omega (arith, ap (λ (t : ℕ). bit_and t m) none_set, zero-bit_and m)
bit_and-upto_left (suc n) a m h =
    ground (arith, bit_and_step a m, bit_and-upto_left n (a / 2) (m / 2) (omega arith))

pub bit_and-fits_left : (a m : ℕ) → bit_and a m ≤ a
bit_and-fits_left a m = bit_and-upto_left a a m (omega arith)

-- The bits of a field that are cleared and set anew are those that were set.
replaced_upto : (n x m v : ℕ) → m ≤ n → bit_and v m ≡ v → bit_and (bit_or (x - bit_and x m) v) m ≡ v
replaced_upto zero x m v h e =
    let none_set : m ≡ 0 = omega arith in
    omega (
      arith,
      e,
      ap (bit_and v) none_set,
      bit_and-zero v,
      ap (bit_and (bit_or (x - bit_and x m) v)) none_set,
      bit_and-zero (bit_or (x - bit_and x m) v),
    )
replaced_upto (suc n) x m v h e =
    let c : ℕ = x - bit_and x m in
    let o : ℕ = bit_or c v in
    let field : bit_and (v / 2) (m / 2) ≡ v / 2 = ground (arith, e, bit_and_step v m) in
    let low_v : min (v % 2) (m % 2) ≡ v % 2 = ground (arith, e, bit_and_step v m) in
    let half_c : c / 2 ≡ x / 2 - bit_and (x / 2) (m / 2) =
      ground (arith, bit_and_step x m, bit_and-fits_left (x / 2) (m / 2)) in
    let low_c : c % 2 ≡ x % 2 - min (x % 2) (m % 2) =
      ground (arith, bit_and_step x m, bit_and-fits_left (x / 2) (m / 2)) in
    let half_o : o / 2 ≡ bit_or (c / 2) (v / 2) = ground (arith, bit_or_step c v) in
    let low_o : o % 2 ≡ max (c % 2) (v % 2) = ground (arith, bit_or_step c v) in
    let ih = replaced_upto n (x / 2) (m / 2) (v / 2) (omega (arith, h)) field in
    ground (
      arith,
      bit_and_step o m,
      ap (λ (t : ℕ). bit_and t (m / 2)) half_o,
      ap (λ (t : ℕ). bit_and (bit_or t (v / 2)) (m / 2)) half_c,
      ih,
      low_v,
      low_c,
      low_o,
    )

pub bit_and-replaced : (x m v : ℕ) → bit_and v m ≡ v → bit_and (bit_or (x - bit_and x m) v) m ≡ v
bit_and-replaced x m v e = replaced_upto m x m v (omega arith) e

-- A mask of `k` bits reads those alone.
pub bit_and-mod : (k v m : ℕ) → m < 2 ^ k → bit_and (v % 2 ^ k) m ≡ bit_and v m
bit_and-mod k v m h =
    let pos : 1 ≤ 2 ^ k = one-le-pow k 2 (omega arith) in
    let em : 0 * 2 ^ k + m ≡ m = omega (arith, zero-mul (2 ^ k)) in
    omega (
      arith,
      ap₂ bit_and (div-add-mod' v (2 ^ k)) em,
      bit_and_split k (v / 2 ^ k) (v % 2 ^ k) 0 m (mod-lt v pos) h,
      ap (λ (t : ℕ). t * 2 ^ k) (bit_and-zero (v / 2 ^ k)),
      zero-mul (2 ^ k),
    )

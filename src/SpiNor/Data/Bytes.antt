-- ===== src/SpiNor/Data/Bytes.antt =====
-- The bytes of a buffer or a chip as a function of their address.
use ufprog.Common.{
  ℕ, zero, suc, ◌+◌, ◌-◌, ◌≤◌, ◌≡◌, ◌<◌, refl, arith, ap, sym, ◌∙◌, List, [], ◌∷◌, ◌++◌, length,
  take, drop,
}

-- The bytes from an address on.
abbrev pub bytes_at : (ℕ → ℕ) → (addr len : ℕ) → List ℕ
bytes_at mem addr zero = []
bytes_at mem addr (suc n) = mem addr ∷ bytes_at mem (addr + 1) n

pub bytes_at_same :
    (mem mem' : ℕ → ℕ) (addr n : ℕ)
    → ((i : ℕ) → i < n → mem (addr + i) ≡ mem' (addr + i))
    → bytes_at mem addr n ≡ bytes_at mem' addr n
bytes_at_same mem mem' addr zero same = refl
bytes_at_same mem mem' addr (suc n) same =
    let e : addr + 0 ≡ addr = omega arith in
    let head : mem addr ≡ mem' addr = ap mem (sym e) ∙ same 0 (omega arith) ∙ ap mem' e in
    let tail = bytes_at_same mem mem' (addr + 1) n (λ i h.
      let e : addr + suc i ≡ addr + 1 + i = omega arith in
      rw (sym e) (same (suc i) (omega (arith, h)))) in
    rw (head, tail) refl

bytes_at_add :
    (mem : ℕ → ℕ) (addr m n : ℕ)
    → bytes_at mem addr m ++ bytes_at mem (addr + m) n ≡ bytes_at mem addr (m + n)
bytes_at_add mem addr zero n =
    let e : addr + 0 ≡ addr = omega arith in let e' : 0 + n ≡ n = omega arith in rw (e, e') refl
bytes_at_add mem addr (suc m) n =
    let e : addr + suc m ≡ addr + 1 + m = omega arith in
    let e' : suc m + n ≡ suc (m + n) = omega arith in
    rw (e, e') (ap (λ t. mem addr ∷ t) (bytes_at_add mem (addr + 1) m n))

pub bytes_at_split :
    (mem : ℕ → ℕ) (addr n len : ℕ)
    → n ≤ len
    → bytes_at mem addr n ++ bytes_at mem (addr + n) (len - n) ≡ bytes_at mem addr len
bytes_at_split mem addr n len h =
    let whole : n + (len - n) ≡ len = omega (arith, h) in
    bytes_at_add mem addr n (len - n) ∙ ap (bytes_at mem addr) whole

pub length-bytes_at : (src : ℕ → ℕ) (a n : ℕ) → length (bytes_at src a n) ≡ n
length-bytes_at src a zero = refl
length-bytes_at src a (suc n) = ap suc (length-bytes_at src (a + 1) n)

pub take-bytes_at : (src : ℕ → ℕ) (a n m : ℕ) → n ≤ m → take n (bytes_at src a m) ≡ bytes_at src a n
take-bytes_at src a zero m h = refl
take-bytes_at src a (suc n) zero h = absurd (omega (arith, h))
take-bytes_at src a (suc n) (suc m) h =
    ap (λ (t : List ℕ). src a ∷ t) (take-bytes_at src (a + 1) n m (omega (arith, h)))

pub drop-bytes_at :
    (src : ℕ → ℕ) (a n m : ℕ) → n ≤ m → drop n (bytes_at src a m) ≡ bytes_at src (a + n) (m - n)
drop-bytes_at src a zero m h =
    let e : a + 0 ≡ a = omega arith in let e' : m - 0 ≡ m = omega arith in rw (e, e') refl
drop-bytes_at src a (suc n) zero h = absurd (omega (arith, h))
drop-bytes_at src a (suc n) (suc m) h =
    let e : a + suc n ≡ a + 1 + n = omega arith in
    let e' : suc m - suc n ≡ m - n = omega arith in
    rw (e, e') (drop-bytes_at src (a + 1) n m (omega (arith, h)))

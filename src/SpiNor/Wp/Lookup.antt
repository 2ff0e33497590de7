-- ===== src/SpiNor/Wp/Lookup.antt =====
-- Looking a region up in a table, and its range by the value of the register.
use ufprog.Common.{
  ℕ, ◌≡◌, arith, ap, sym, ◌∙◌, bit_and, ◌==◌, ◌&&◌, ==_of_ne, Result-cases, Bool, true, false,
  Bool-cases, inl, inr, Option, none, some, List, [], ◌∷◌, done,
}
use native.Mathlib.Decide.{ℕ_discrete}
use ufprog.SpiNor.Wp.{WpInfo, WpRange, gen_wp_region, find_range, find_region}

abbrev pub is_none {ℓ} : {A : Type ℓ} → Option A → Bool
is_none none = true
is_none (some a) = false

-- The values of the ranges are different, and lie within the mask.
pub distinct : List WpRange → Bool
unfolding find_range
distinct [] = true
distinct (r ∷ rs) = is_none (find_range r.sr_val rs) && distinct rs

pub all_within : (mask : ℕ) → List WpRange → Bool
all_within mask [] = true
all_within mask (r ∷ rs) = (bit_and r.sr_val mask == r.sr_val) && all_within mask rs

unfoldable pub is_sound : WpInfo → Bool
unfolding distinct all_within
is_sound info = distinct info.ranges && all_within info.sr_mask info.ranges

-- What it takes for a range to be the one looked up.
pub record IsFound (chip_size base size mask : ℕ) (rs : List WpRange) (r : WpRange) : Type 0 where
  pub region : gen_wp_region chip_size r ≡ done (record { base = base; size = size })
  pub within : bit_and r.sr_val mask ≡ r.sr_val
  pub first : find_range r.sr_val rs ≡ some r

skipped :
    (x r : WpRange) (rs : List WpRange)
    → find_range r.sr_val rs ≡ some r
    → is_none (find_range x.sr_val rs) ≡ true
    → find_range r.sr_val (x ∷ rs) ≡ some r
unfolding find_range
skipped x r rs f n = elim (ℕ_discrete r.sr_val x.sr_val) [
  | yes e ↦
      let found : find_range x.sr_val rs ≡ some r = ap (λ (t : ℕ). find_range t rs) (sym e) ∙ f in
      absurd (ground (arith, n, found))
  | no d ↦ rw (==_of_ne r.sr_val x.sr_val d) f
]

pub find_region-IsFound :
    (chip_size base size mask : ℕ) (rs : List WpRange) {r : WpRange}
    → distinct rs ≡ true
    → all_within mask rs ≡ true
    → find_region chip_size base size rs ≡ done r
    → IsFound chip_size base size mask rs r
unfolding find_region distinct all_within find_range
find_region-IsFound chip_size base size mask [] d a h = cc
find_region-IsFound chip_size base size mask (x ∷ rs) {r} d a h =
    let kept : distinct rs ≡ true = ground (arith, d) in
    let inside : all_within mask rs ≡ true = ground (arith, a) in
    elim (Result-cases (gen_wp_region chip_size x)) [
      | inr (e, bad) ↦ absurd (ground (arith, h, bad))
      | inl (rg, good) ↦ elim (Bool-cases ((rg.base == base) && (rg.size == size))) [
        | inl hit ↦
            let same : x ≡ r = ground (arith, h, good, hit) in
            rw (← same) (record {
              region = ground (arith, good, hit);
              within = ground (arith, a);
              first = ground arith;
            })
        | inr miss ↦
            let found : IsFound chip_size base size mask rs r =
              find_region-IsFound chip_size base size mask rs kept inside
                (ground (arith, h, good, miss)) in
            record {
              region = found.region;
              within = found.within;
              first = skipped x r rs found.first (ground (arith, d));
            }
      ]
    ]

-- ===== src/SpiNor/Wp/Complete.antt =====
-- Which tables have one range for each value of their bits.
use ufprog.Common.{
  ℕ, zero, suc, ◌+◌, ◌*◌, ◌/◌, ◌%◌, ◌^◌, ◌<◌, ◌≡◌, ◌≢◌, refl, arith, ap, sym, ◌∙◌, bit_and,
  bit_and_step, bit_and-zero, min, ltb, ltb→lt, ◌==◌, ◌&&◌, both, ◌||◌, not, Bool, true, Option,
  none, List, [], ◌∷◌, get_or, length,
}
use mathlib.Core.Bool.{false≢true}
use native.Mathlib.Decide.{ℕ_discrete}
use native.Mathlib.Nat.{pow-suc}
use ufprog.SpiNor.Wp.{WpInfo, WpRange, find_range}
use ufprog.SpiNor.Wp.Lookup.{is_none, is_sound}
use ufprog.SpiNor.Wp.Tables1.{
  wpr_1bp, wpr_2bp_all, wpr_2bp_up, wpr_2bp_up_ratio, wpr_2bp_lo, wpr_2bp_lo_ratio, wpr_2bp_tb,
}
use ufprog.SpiNor.Wp.Tables3.{
  wpr_3bp_up, wpr_3bp_up_ratio, wpr_3bp_lo, wpr_3bp_lo_ratio, wpr_3bp_tb, wpr_3bp_tb_ratio,
}
use ufprog.SpiNor.Wp.Tables3Sec.{wpr_3bp_tb_sec, wpr_3bp_tb_sec_ratio}
use ufprog.SpiNor.Wp.Tables4.{wpr_4bp_up, wpr_4bp_lo}

-- The test holds for each number whose bits are among the `n` bits of the mask.
all_submasks : (n mask : ℕ) → (ℕ → Bool) → Bool
all_submasks zero mask p = p 0
all_submasks (suc n) mask p =
    all_submasks n (mask / 2) (λ h. p (h * 2))
    && ((mask % 2 == 0) || all_submasks n (mask / 2) (λ h. p (h * 2 + 1)))

all_submasks_at :
    (n mask v : ℕ) (p : ℕ → Bool)
    → mask < 2 ^ n
    → all_submasks n mask p ≡ true
    → p (bit_and v mask) ≡ true
unfolding all_submasks
all_submasks_at zero mask v p h a =
    let no_bits : mask ≡ 0 = omega (arith, h) in rw (no_bits, bit_and-zero v) a
all_submasks_at (suc n) mask v p h a =
    let fits : mask / 2 < 2 ^ n = omega (arith, h, pow-suc 2 n) in
    let low : all_submasks n (mask / 2) (λ d. p (d * 2)) ≡ true = ground (arith, a) in
    elim (ℕ_discrete (min (v % 2) (mask % 2)) 0) [
      | yes clear ↦
          let e : bit_and v mask ≡ bit_and (v / 2) (mask / 2) * 2 =
            omega (arith, bit_and_step v mask, clear) in
          ap p e ∙ all_submasks_at n (mask / 2) (v / 2) (λ d. p (d * 2)) fits low
      | no set ↦
          let odd : mask % 2 ≡ 1 = omega (arith, set) in
          let e : bit_and v mask ≡ bit_and (v / 2) (mask / 2) * 2 + 1 =
            omega (arith, bit_and_step v mask, set) in
          let high : all_submasks n (mask / 2) (λ d. p (d * 2 + 1)) ≡ true =
            ground (arith, a, odd) in
          ap p e ∙ all_submasks_at n (mask / 2) (v / 2) (λ d. p (d * 2 + 1)) fits high
    ]

is_complete : WpInfo → Bool
unfolding all_submasks find_range
is_complete info = all_submasks 15 info.sr_mask (λ v. not (is_none (find_range v info.ranges)))

abbrev pub complete_tables : List WpInfo
complete_tables =
    wpr_1bp ∷ wpr_2bp_all ∷ wpr_2bp_up ∷ wpr_2bp_up_ratio ∷ wpr_2bp_lo ∷ wpr_2bp_lo_ratio
    ∷ wpr_2bp_tb ∷ wpr_3bp_up ∷ wpr_3bp_up_ratio ∷ wpr_3bp_lo ∷ wpr_3bp_lo_ratio ∷ wpr_3bp_tb
    ∷ wpr_3bp_tb_ratio ∷ wpr_3bp_tb_sec ∷ wpr_3bp_tb_sec_ratio ∷ wpr_4bp_up ∷ wpr_4bp_lo ∷ []

all_complete : List WpInfo → Bool
all_complete [] = true
all_complete (t ∷ ts) = is_complete t && is_sound t && ltb t.sr_mask (2 ^ 15) && all_complete ts

all_complete_tables : all_complete complete_tables ≡ true
unfolding all_complete is_complete is_sound
all_complete_tables = refl

-- What it means that a table says what each value of the register protects.
pub record IsComplete (info : WpInfo) : Type 0 where
  pub total : (v : ℕ) → find_range (bit_and v info.sr_mask) info.ranges ≢ none
  pub sound : is_sound info ≡ true

IsComplete-at :
    (info : WpInfo)
    → info.sr_mask < 2 ^ 15
    → is_complete info ≡ true
    → is_sound info ≡ true
    → IsComplete info
unfolding is_complete
IsComplete-at info fits complete sound = record {
  total = λ v e.
      let found =
        all_submasks_at 15 info.sr_mask v (λ w. not (is_none (find_range w info.ranges))) fits
          complete in
      false≢true (sym (ap (λ (o : Option WpRange). not (is_none o)) e) ∙ found);
  sound = sound;
}

IsComplete-in :
    (ts : List WpInfo) (i : ℕ) (d : WpInfo)
    → all_complete ts ≡ true
    → i < length ts
    → IsComplete (get_or ts i d)
unfolding all_complete
IsComplete-in [] i d a h = absurd (omega (arith, h))
IsComplete-in (t ∷ ts) zero d a h =
    let (front, _) = both _ _ a in
    let (tests, fits) = both _ _ front in
    let (complete, sound) = both _ _ tests in IsComplete-at t (ltb→lt _ _ fits) complete sound
IsComplete-in (t ∷ ts) (suc i) d a h =
    let (_, back) = both _ _ a in IsComplete-in ts i d back (omega (arith, h))

-- Each of the 17 tables but those with a complement bit and `wpr_4bp_tb` has a range for each value
-- of the status register, and one alone for each value of the bits.
pub tables-IsComplete : (i : ℕ) → i < 17 → IsComplete (get_or complete_tables i wpr_1bp)
tables-IsComplete i h =
    IsComplete-in complete_tables i wpr_1bp all_complete_tables (omega (arith, h))

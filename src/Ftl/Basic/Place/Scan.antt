-- ===== src/Ftl/Basic/Place/Scan.antt =====
-- The walk over the blocks of a partition, against a fixed set of good blocks.
use native.Mathlib.Nat.{add-zero, zero-add}
use mathlib.Core.Path.{ap₂}
use ufprog.Common.{
  ℕ, zero, suc, ◌+◌, ◌-◌, ◌≤◌, ◌<◌, ◌≡◌, ◌⊎◌, inl, inr, refl, arith, ap, sym, ◌∙◌, ◌≢◌,
}
use ufprog.Common.{Bool, true, Bool-cases, if◌then◌else◌, Result, done}
use ufprog.Common.{ok, fail}
use ufprog.Bbt.{Bbt}
use ufprog.Ftl.Basic.{FtlState, is_good_block}
use ufprog.Ftl.Basic.Place.{Walk, walk}
use ufprog.Common.{leb_of_gt, leb_of_le, ==_of_ne}
use native.Mathlib.Decide.{dec_le}

-- How many of the `n` blocks from `base` on are good.
abbrev pub count_good : (ℕ → Bool) → ℕ → ℕ → ℕ
count_good good base zero = 0
count_good good base (suc n) = (if good base then 1 else 0) + count_good good (base + 1) n

-- While `Inv` holds, the table calls a block `b` below `limit` good exactly when `good b`, and no
-- answer is an error.
pub record IsSettled {W : Type 0} (bbt : Bbt W) (good : ℕ → Bool) (limit : ℕ)
    (Inv : FtlState W → Type 0) : Type 0 where
  pub answer :
      (b : ℕ) (s : FtlState W)
      → b < limit
      → Inv s
      → (is_good_block bbt b s).0 ≡ (if good b then ok else fail)
  pub keeps : (b : ℕ) (s : FtlState W) → b < limit → Inv s → Inv (is_good_block bbt b s).1

module _ {W : Type 0} (bbt : Bbt W) (good : ℕ → Bool) (limit : ℕ) (Inv : FtlState W → Type 0)
    (settled : IsSettled bbt good limit Inv) where
  -- Where the walk ends: `steps` blocks on, having counted the good ones among them.
  pub record IsWalked (left curr logical offset : ℕ) (r : Result Walk × FtlState W) : Type 0 where
    pub keeps : Inv r.1
    pub steps : ℕ
    pub in_reach : steps ≤ left
    pub result :
        r.0 ≡ done (record { curr = curr + steps; logical = logical + count_good good curr steps })
    pub at_most : logical + count_good good curr steps ≤ offset
    pub ended : (logical + count_good good curr steps ≡ offset) ⊎ (steps ≡ left)
    pub last_good :
        logical + count_good good curr steps ≡ offset
        → (steps ≡ 0) ⊎ (good (curr + steps - 1) ≡ true)

  -- One more block in front of a walk.
  step_over :
      (left curr logical logical' offset : ℕ) (r : Result Walk × FtlState W)
      → logical' ≡ (if good curr then 1 else 0) + logical
      → (logical ≢ offset)
      → IsWalked left (curr + 1) logical' offset r
      → IsWalked (suc left) curr logical offset r
  step_over left curr logical logical' offset r e ne v =
      let sum : logical' + count_good good (curr + 1) v.steps
          ≡ logical + count_good good curr (suc v.steps) =
        omega (arith, e) in
      let place : curr + 1 + v.steps ≡ curr + suc v.steps = omega arith in
      record {
        keeps = v.keeps;
        steps = suc v.steps;
        in_reach = omega (arith, v.in_reach);
        result = v.result ∙ ap₂ (λ (a b : ℕ). walk_at a b) place sum;
        at_most = omega (arith, v.at_most, sum);
        ended = elim v.ended [ inl x ↦ inl (sym sum ∙ x) | inr x ↦ inr (ap suc x) ];
        last_good = λ h. inr (elim (v.last_good (sum ∙ h)) [
          | inl z ↦
              let here : curr + suc v.steps - 1 ≡ curr = omega (arith, z) in
              rw here (
                good_here (
                  sym
                    (ap (λ (n : ℕ). logical' + count_good good (curr + 1) n) z ∙ add-zero logical')
                  ∙ sum
                  ∙ h))
          | inr g ↦ ap good (previous v.steps) ∙ g
        ]);
      }
    where
      walk_at : ℕ → ℕ → Result Walk
      walk_at a b = done (record { curr = a; logical = b })

      previous : (n : ℕ) → curr + suc n - 1 ≡ curr + 1 + n - 1
      previous n = omega arith

      good_here : logical' ≡ offset → good curr ≡ true
      good_here h = elim (Bool-cases (good curr)) [
        | inl g ↦ g
        | inr g ↦ absurd (
            ne (
              sym (e ∙ ap (λ (b : Bool). (if b then 1 else 0) + logical) g ∙ zero-add logical) ∙ h))
      ]

  pub walk-IsWalked :
      (left curr logical offset : ℕ) (s : FtlState W)
      → curr + left ≤ limit
      → Inv s
      → logical ≤ offset
      → IsWalked left curr logical offset (walk bbt left curr logical offset s)
  unfolding walk
  walk-IsWalked zero curr logical offset s b i h = record {
    keeps = i;
    steps = 0;
    in_reach = omega arith;
    result = ground arith;
    at_most = omega arith;
    ended = inr refl;
    last_good = λ h. inl refl;
  }
  walk-IsWalked (suc left) curr logical offset s b i h = elim (dec_le offset logical) [
    | yes p ↦ rw (leb_of_le offset logical p) (record {
      keeps = i;
      steps = 0;
      in_reach = omega arith;
      result = ground arith;
      at_most = omega arith;
      ended = inl (omega arith);
      last_good = λ h'. inl refl;
    })
    | no p ↦
        rw (leb_of_gt offset logical (omega arith), settled.answer curr s (omega arith) i)
          (elim (Bool-cases (good curr)) [
            | inl g ↦
                rw (g, ==_of_ne logical offset (omega arith))
                  (step_over left curr logical (logical + 1) offset _ (rw g (omega arith))
                    (omega arith)
                    (walk-IsWalked left (curr + 1) (logical + 1) offset (is_good_block bbt curr s).1
                      (omega arith) (settled.keeps curr s (omega arith) i) (omega arith)))
            | inr g ↦ rw g (
                step_over left curr logical logical offset _ (rw g (omega arith)) (omega arith) (
                  walk-IsWalked left (curr + 1) logical offset (is_good_block bbt curr s).1
                    (omega arith) (settled.keeps curr s (omega arith) i) h))
          ])
  ]

-- ===== src/Bbt.antt =====
-- flash/nand/core/bbt.c: a bad block table behind function pointers. It belongs to a plugin driver,
-- or carries its own functions.
pub mod Ram
use ufprog.Common.{ℕ, leb, ◌==◌, ◌&&◌, is_ok, if◌then◌else◌, Bool, false, Option, none, some}
use ufprog.Common.{Status, ok, invalid_parameter, unsupported}

-- `enum nand_bbt_gen_state`
abbrev pub st_unknown : ℕ
st_unknown = 0

abbrev pub st_good : ℕ
st_good = 1

abbrev pub st_bad : ℕ
st_bad = 2

abbrev pub st_erased : ℕ
st_erased = 3

abbrev pub st_max : ℕ
st_max = 4

-- The function pointers of `struct ufprog_bbt_driver` and of `struct ufprog_nand_bbt`. Those that the
-- code tests against NULL are options. A call acts on the world `W`.
pub record BbtTable (W : Type 0) : Type 0 where
  pub reprobe : W → Status × W
  pub commit : Option (W → Status × W)
  pub modify_config : Option (ℕ → ℕ → W → Status × W)
  pub get_config : Option (W → ℕ)
  pub get_state : ℕ → W → Status × ℕ × W
  pub set_state : ℕ → ℕ → W → Status × W
  pub is_reserved : Option (ℕ → W → Bool × W)

-- `driver` is the table of `bbt->driver` with its instance, if both are set.
pub record Bbt (W : Type 0) : Type 0 where
  pub driver : Option (BbtTable W)
  pub own : BbtTable W

abbrev first {ℓ} : {F : Type ℓ} → Option F → Option F → Option F
first none own = own
first (some g) own = some g

module _ {W : Type 0} where
  -- The table whose mandatory functions are called.
  abbrev pub table : Bbt W → BbtTable W
  table b = elim b.driver [ none ↦ b.own | some d ↦ d ]

  -- The driver's optional function if it has one, or else the table's own.
  abbrev pub optional {ℓ} : {F : Type ℓ} → (BbtTable W → Option F) → Bbt W → Option F
  optional f b = first (elim b.driver [ none ↦ none | some d ↦ f d ]) (f b.own)

  pub reprobe : Bbt W → W → Status × W
  reprobe b w = (table b).reprobe w

  pub commit : Bbt W → W → Status × W
  commit b w = elim (optional (λ t. t.commit) b) [ none ↦ (ok, w) | some f ↦ f w ]

  pub modify_config : Bbt W → ℕ → ℕ → W → Status × W
  modify_config b clr add w = elim (optional (λ t. t.modify_config) b) [
    | none ↦ (unsupported, w)
    | some f ↦ f clr add w
  ]

  pub get_config : Bbt W → W → ℕ
  get_config b w = elim (optional (λ t. t.get_config) b) [ none ↦ 0 | some f ↦ f w ]

  unfoldable pub get_state : Bbt W → ℕ → W → Status × ℕ × W
  get_state b block w = (table b).get_state block w

  unfoldable pub set_state : Bbt W → ℕ → ℕ → W → Status × W
  set_state b block state w =
      if leb st_max state then (invalid_parameter, w) else (table b).set_state block state w

  unfoldable pub is_reserved : Bbt W → ℕ → W → Bool × W
  is_reserved b block w = elim (optional (λ t. t.is_reserved) b) [
    | none ↦ (false, w)
    | some f ↦ f block w
  ]

  -- `ufprog_bbt_is_unknown`, `_good`, `_bad` and `_erased` for the four states.
  pub has_state : ℕ → Bbt W → ℕ → W → Bool × W
  unfolding get_state
  has_state wanted b block w =
      let (ret, state, w') = get_state b block w in (is_ok ret && (state == wanted), w')

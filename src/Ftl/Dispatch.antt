-- ===== src/Ftl/Dispatch.antt =====
-- flash/nand/core/ftl.c: a translation layer behind function pointers, which belong to a plugin
-- driver or to the layer itself, with loops over single pages where there is none for many.
pub mod Request
pub mod Pages
pub mod Tests
use ufprog.Common.{ℕ, zero, suc, ◌+◌, ◌-◌, ◌<<<◌, ◌>>>◌, u32, leb, ltb, ◌==◌, ◌||◌, ◌&&◌}
use ufprog.Common.{if◌then◌else◌, Bool, true, false, not, Option, none, some}
use ufprog.Common.{Status, ok, invalid_parameter, is_ok}
use ufprog.Nand.Api.{Geometry}
use ufprog.Ftl.Api.{Part, Callback, buffer_of, pre_call, post_call, read_ignored}

-- The function pointers of `struct ufprog_ftl_driver` and of `struct ufprog_nand_ftl`; those that are
-- tested against NULL are options. The second result of a function for many pages is `*retcount`.
pub record FtlTable (W : Type 0) : Type 0 where
  pub get_size : W → ℕ × W
  pub read_page : Option Part → ℕ → ℕ → Bool → W → Status × W
  pub write_page : Option Part → ℕ → ℕ → Bool → W → Status × W
  pub erase_block : Option Part → ℕ → Bool → W → Status × W
  pub read_pages :
      Option (Option Part → ℕ → ℕ → ℕ → Bool → ℕ → Option (Callback W) → W → Status × ℕ × W)
  pub write_pages :
      Option (Option Part → ℕ → ℕ → ℕ → Bool → Bool → Option (Callback W) → W → Status × ℕ × W)
  pub erase_blocks : Option (Option Part → ℕ → ℕ → Bool → Option (Callback W) → W → Status × ℕ × W)
  pub block_checkbad : ℕ → W → Status × W
  pub block_markbad : ℕ → W → Status × W

-- `driver` is the table of `ftl->driver`, if the layer has a driver and an instance of it.
pub record Ftl (W : Type 0) : Type 0 where
  pub driver : Option (FtlTable W)
  pub own : FtlTable W

-- The fields of `struct ufprog_nand_ftl` that the calls change.
pub record FtlSize (W : Type 0) : Type 0 where
  pub size : ℕ
  pub ftl_total_pages : ℕ
  pub world : W

abbrev first {ℓ} : {F : Type ℓ} → Option F → Option F → Option F
first none own = own
first (some g) own = some g

module _ {W : Type 0} where
  -- The table whose mandatory functions are called.
  abbrev pub table : Ftl W → FtlTable W
  table ftl = elim ftl.driver [ none ↦ ftl.own | some d ↦ d ]

  abbrev pub optional {ℓ} : {F : Type ℓ} → (FtlTable W → Option F) → Ftl W → Option F
  optional f ftl = first (elim ftl.driver [ none ↦ none | some d ↦ f d ]) (f ftl.own)

module _ {W : Type 0} (ftl : Ftl W) (geo : Geometry) where
  pub get_size : FtlSize W → ℕ × FtlSize W
  get_size s =
      let (size, w) = (table ftl).get_size s.world in
      let asked : FtlSize W = record {
        size = size;
        ftl_total_pages = u32 (size >>> geo.page_shift);
        world = w;
      } in
      if s.size == 0 then (size, asked) else (s.size, s)

  -- The tests of `validate_virt_part_info`, against the number of pages of the layer.
  pub in_range : ℕ → Option Part → ℕ → ℕ → Bool
  in_range total none page count = ltb page total
  in_range total (some part) page count =
      let start = u32 (part.base_block <<< geo.pages_per_block_shift) in
      let pages = u32 (part.part_blocks <<< geo.pages_per_block_shift) in
      not (leb total start || ltb total (u32 (start + pages)))
      && not (leb pages page || ltb pages (u32 (page + count)))

  -- The parameters `page` and `count` are `uint32_t`.
  pub validate_virt_part_info : Option Part → ℕ → ℕ → FtlSize W → Bool × FtlSize W
  unfolding in_range get_size
  validate_virt_part_info part page count s =
      let s' = (get_size s).1 in (in_range s'.ftl_total_pages part (u32 page) (u32 count), s')

  -- A call is passed on, on the world alone, if its range is valid.
  abbrev validated :
      {A : Type 0} → Option Part → ℕ → ℕ → A → (W → A × W) → FtlSize W → A × FtlSize W
  validated part page count refused call s =
      let (valid, s') = validate_virt_part_info part page count s in
      let (a, w) = call s'.world in if valid then (a, record s' { world = w }) else (refused, s')

  pub read_page : Option Part → ℕ → ℕ → Bool → FtlSize W → Status × FtlSize W
  read_page part page buf raw s =
      validated part page 1 invalid_parameter (λ w. (table ftl).read_page part page buf raw w) s

  pub write_page : Option Part → ℕ → ℕ → Bool → FtlSize W → Status × FtlSize W
  write_page part page buf raw s =
      validated part page 1 invalid_parameter (λ w. (table ftl).write_page part page buf raw w) s

  pub erase_block : Option Part → ℕ → Bool → FtlSize W → Status × FtlSize W
  erase_block part page spread s =
      validated part page 1 invalid_parameter (λ w. (table ftl).erase_block part page spread w) s

  pub block_checkbad : ℕ → W → Status × W
  block_checkbad block w = (table ftl).block_checkbad block w

  pub block_markbad : ℕ → W → Status × W
  block_markbad block w = (table ftl).block_markbad block w

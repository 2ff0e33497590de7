-- ===== src/Bbt/Ram/Tests.antt =====
-- A RAM table of four blocks, block 1 bad, over a chip that is not asked.
use ufprog.Common.{Status, device_io_error, ℕ, ◌+◌, ◌≡◌, ◌≢◌, refl, arith, ok, fail, ap}
use ufprog.Common.{if◌then◌else◌, ◌==◌}
use ufprog.Bitmap.Tests.{two_bit_map, two_bit_map-IsValid, unit1}
use ufprog.Bbt.{st_unknown, st_bad, st_erased}
use ufprog.Bbt.Ram.Scan.{some_known, IsScanned, reprobe-IsScanned}
use ufprog.Bbt.Ram.{RamWorld, get_state, set_state, reprobe}
use ufprog.Bbt.Ram.Ask.{IsSized, get_state_known, get_state-set_state, get_state_again}
use ufprog.Nand.Api.{NandOps, Geometry}

abbrev pub small_geo : Geometry
small_geo = record {
  pages_per_block = 4;
  pages_per_block_shift = 2;
  pages_per_block_mask = 3;
  block_count = 4;
  page_shift = 11;
  oob_page_size = 2112;
  size = 32768;
}

-- The world counts the questions about markers.
abbrev pub asked_nand : NandOps ℕ
asked_nand = record {
  checkbad = λ c w. (if c == 1 then fail else ok, w + 1);
  markbad = λ c w. (ok, w);
  erase_block = λ first w. (ok, w);
  torture_block = λ c w. (ok, w);
  read_pages = λ first n buf raw flags w. (ok, n, w);
  write_pages = λ first n buf raw ignore_error w. (ok, n, w);
}

abbrev pub small_ram : RamWorld ℕ
small_ram = record { ram = record { bm = two_bit_map; config = 0 }; world = 0 }

pub small_ram-IsSized : IsSized small_geo small_ram.ram
small_ram-IsSized = record { valid = two_bit_map-IsValid; a_unit_each = refl; two_bits = refl }

get_state-set_state_example :
    let (ret, s') = set_state asked_nand small_geo 2 st_erased small_ram in
    (ret ≡ ok) × (get_state asked_nand small_geo 2 s' ≡ (ok, st_erased, s'))
get_state-set_state_example =
    get_state-set_state asked_nand small_geo 2 st_erased small_ram small_ram-IsSized (omega arith)
      (omega arith) (λ e. omega (arith, e))

bad_known : (get_state asked_nand small_geo 1 small_ram).1 ≢ st_unknown
bad_known e = omega (
  arith,
  e,
  ap (λ r. r.1)
      (get_state_known asked_nand small_geo 1 st_bad small_ram (omega arith) unit1
        (λ z. omega (arith, z))),
)

get_state_again_example :
    let (ret, state, s') = get_state asked_nand small_geo 1 small_ram in
    (ret ≡ ok) × (get_state asked_nand small_geo 1 s' ≡ (ok, state, s'))
get_state_again_example =
    get_state_again asked_nand small_geo 1 small_ram small_ram-IsSized (omega arith) bad_known

abbrev scanned_ram : RamWorld ℕ
scanned_ram = record { ram = record { bm = two_bit_map; config = 1 }; world = 0 }

scanned_ram-IsSized : IsSized small_geo scanned_ram.ram
scanned_ram-IsSized = record { valid = two_bit_map-IsValid; a_unit_each = refl; two_bits = refl }

abbrev marker : ℕ → Status
marker c = if c == 1 then fail else ok

reprobe-IsScanned_example :
    let (ret, s') = reprobe asked_nand small_geo scanned_ram in
    (ret ≡ (if some_known marker 4 0 then ok else device_io_error))
    × IsScanned small_geo marker 4 0 scanned_ram s'
reprobe-IsScanned_example =
    reprobe-IsScanned asked_nand small_geo marker (λ block w. refl) scanned_ram scanned_ram-IsSized
      (λ e. omega (arith, e))

-- ===== src/Nand/Chip.antt =====
-- The chip below flash/nand/core/nand.c: the function pointers of `struct nand_chip`, its ECC engine
-- and the memory that buffers lie in. Memory is a function from addresses to bytes; `C` is the state
-- of the chip and of its bus.
use ufprog.Common.{ℕ, zero, suc, ◌+◌, ◌==◌, ◌&&◌, leb, ltb, if◌then◌else◌}
use ufprog.Common.{Bool, true, false, Option, none, some, List, [], ◌∷◌, Status, ok, is_ok}

pub record Machine (C : Type 0) : Type 0 where
  pub mem : ℕ → ℕ
  pub chip : C

-- The calls of an ECC engine, `ufprog_ecc_...`: a page goes in and comes out, rewritten in place.
-- `convert` is none where `ufprog_ecc_support_convert_page_layout` says so.
pub record EccOps (C : Type 0) : Type 0 where
  pub set_enable : Bool → C → Status × C
  pub encode_page : List ℕ → C → Status × List ℕ × C
  pub decode_page : List ℕ → C → Status × List ℕ × C
  pub convert : Option (Bool → List ℕ → C → Status × List ℕ × C)

-- `read_page` gives the bytes that it puts into the buffer, for a page, a column and a length;
-- `read_pages` and `write_pages` may be NULL.
pub record ChipOps (C : Type 0) : Type 0 where
  pub read_page : ℕ → ℕ → ℕ → C → Status × List ℕ × C
  pub write_page : ℕ → ℕ → List ℕ → C → Status × C
  pub erase_block : ℕ → C → Status × C
  pub read_pages : Option (ℕ → ℕ → ℕ → ℕ → Machine C → Status × ℕ × Machine C)
  pub write_pages : Option (ℕ → ℕ → ℕ → Bool → Machine C → Status × ℕ × Machine C)
  pub ecc : Option (EccOps C)
  pub page_cache0 : ℕ
  pub page_cache1 : ℕ

-- `memcpy` from an address, and to one.
abbrev pub copy_out : (ℕ → ℕ) → ℕ → ℕ → List ℕ
copy_out mem a zero = []
copy_out mem a (suc n) = mem a ∷ copy_out mem (a + 1) n

abbrev pub copy_in : List ℕ → ℕ → (ℕ → ℕ) → ℕ → ℕ
copy_in [] a mem x = mem x
copy_in (b ∷ bs) a mem x = if x == a then b else copy_in bs (a + 1) mem x

-- `memset(a, v, n)`
abbrev pub fill : ℕ → ℕ → ℕ → (ℕ → ℕ) → ℕ → ℕ
fill v n a mem x = if leb a x && ltb x (a + n) then v else mem x

-- `STATUS_CHECK_RET`: go on only if the call succeeded.
unfoldable pub check_ret : {S : Type 0} → Status × S → (S → Status × S) → Status × S
check_ret (ret, s) go_on = if is_ok ret then go_on s else (ret, s)

module _ {C : Type 0} (ops : ChipOps C) (oob_page_size : ℕ) where
  -- `if (nand->ecc) ret = ufprog_ecc_set_enable(nand->ecc, enable)`
  abbrev pub set_enable : Bool → Machine C → Status × Machine C
  set_enable enable m = elim ops.ecc [
    | none ↦ (ok, m)
    | some ecc ↦ let (ret, c) = ecc.set_enable enable m.chip in (ret, record m { chip = c })
  ]

  -- `nand->read_page(nand, page, column, len, buf)`
  abbrev pub fetch : (page column len buf : ℕ) → Machine C → Status × Machine C
  fetch page column len buf m =
      let (ret, bytes, c) = ops.read_page page column len m.chip in
      (ret, record { mem = copy_in bytes buf m.mem; chip = c })

  -- `if (!raw && nand->ecc) ret = ufprog_ecc_decode_page(nand->ecc, buf)`
  abbrev pub decode : Bool → ℕ → Machine C → Status × Machine C
  decode true buf m = (ok, m)
  decode false buf m = elim ops.ecc [
    | none ↦ (ok, m)
    | some ecc ↦
        let (ret, bytes, c) = ecc.decode_page (copy_out m.mem buf oob_page_size) m.chip in
        (ret, record { mem = copy_in bytes buf m.mem; chip = c })
  ]

  -- The page to write, encoded in the page cache if it is not raw, and its address.
  abbrev pub encode : Bool → ℕ → Machine C → Status × ℕ × Machine C
  encode true buf m = (ok, buf, m)
  encode false buf m = elim ops.ecc [
    | none ↦ (ok, buf, m)
    | some ecc ↦
        let (ret, bytes, c) = ecc.encode_page (copy_out m.mem buf oob_page_size) m.chip in
        (
          ret,
          ops.page_cache0,
          record {
            mem =
                copy_in bytes ops.page_cache0
                  (copy_in (copy_out m.mem buf oob_page_size) ops.page_cache0 m.mem);
            chip = c;
          },
        )
  ]

  -- `nand->write_page(nand, page, 0, nand->maux.oob_page_size, data)`
  abbrev pub program : (page buf : ℕ) → Machine C → Status × Machine C
  program page buf m =
      let (ret, c) = ops.write_page page 0 (copy_out m.mem buf oob_page_size) m.chip in
      (ret, record m { chip = c })

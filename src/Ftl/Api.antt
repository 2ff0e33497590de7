-- ===== src/Ftl/Api.antt =====
-- flash/nand/core/include/ufprog/api_ftl.h: what the callers of a translation layer hand to it.
use ufprog.Common.{
  ℕ, Option, none, some, ◌==◌, if◌then◌else◌, Status, ok, is_uncorrectable, bit_and, Bool, not,
}

-- `struct ufprog_ftl_part`
pub record Part : Type 0 where
  pub base_block : ℕ
  pub part_blocks : ℕ

-- `struct ufprog_ftl_callback`: `pre` may be NULL, `post` is called untested; `buffer` is an address,
-- 0 for NULL.
pub record Callback (W : Type 0) : Type 0 where
  pub pre : Option (ℕ → W → Status × W)
  pub post : ℕ → W → Status × W
  pub buffer : ℕ

-- `NAND_READ_F_IGNORE_IO_ERROR` and `NAND_READ_F_IGNORE_ECC_ERROR`
abbrev pub ignore_io_error : ℕ
ignore_io_error = 1

abbrev pub ignore_ecc_error : ℕ
ignore_ecc_error = 2

-- A failed read is passed over with the flag for its kind of failure.
pub read_ignored : Status → ℕ → Bool
read_ignored ret flags =
    if is_uncorrectable ret
    then not (bit_and flags ignore_ecc_error == 0)
    else not (bit_and flags ignore_io_error == 0)

module _ {W : Type 0} where
  -- `cb && cb->buffer ? cb->buffer : p`
  abbrev pub buffer_of : Option (Callback W) → ℕ → ℕ
  buffer_of none p = p
  buffer_of (some cb) p = if cb.buffer == 0 then p else cb.buffer

  run_pre : Option (ℕ → W → Status × W) → ℕ → W → Status × W
  run_pre none n w = (ok, w)
  run_pre (some f) n w = f n w

  -- `if (cb && cb->pre) ret = cb->pre(cb, n)`
  unfoldable pub pre_call : Option (Callback W) → ℕ → W → Status × W
  unfolding run_pre
  pre_call none n w = (ok, w)
  pre_call (some cb) n w = run_pre cb.pre n w

  -- `if (cb) ret = cb->post(cb, n)`
  abbrev pub post_call : Option (Callback W) → ℕ → W → Status × W
  post_call none n w = (ok, w)
  post_call (some cb) n w = cb.post n w

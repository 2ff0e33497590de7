-- ===== src/Buffdiff.antt =====
-- common/buffdiff.c: the comparison of two buffers, word by word where both are aligned alike.
-- Memory is a function from addresses to bytes, on a machine with 64-bit `size_t`.
pub mod Word
pub mod Loops
pub mod First
pub mod Tests
use ufprog.Common.{ℕ, zero, suc, ◌+◌, ◌-◌, ◌*◌, ◌^◌, ◌%◌, ◌/◌, u64, bit_and, ◌==◌, if◌then◌else◌}
use ufprog.Common.{not, Option, none, some}

-- `sizeof(size_t)`
abbrev pub size_of_size : ℕ
size_of_size = 8

module _ (mem : ℕ → ℕ) where
  -- A little-endian word.
  abbrev pub load_bytes : ℕ → ℕ → ℕ
  load_bytes a zero = 0
  load_bytes a (suc n) = mem a + 2 ^ 8 * load_bytes (a + 1) n

  pub load : ℕ → ℕ
  load a = load_bytes a size_of_size

  -- The position of the first difference at or after `n` of `left` bytes from there; none if the
  -- function returns true.
  pub byte_loop : (left n a b : ℕ) → Option ℕ
  byte_loop zero n a b = none
  byte_loop (suc left) n a b =
      let rest = byte_loop left (n + 1) (a + 1) (b + 1) in if mem a == mem b then rest else some n

  pub buf_diff_byte : (a b len : ℕ) → Option ℕ
  buf_diff_byte a b len = byte_loop len 0 a b

  -- `*retpos` is the word's place and what `buf_diff_byte` sets of `cmppos`, which is 0 before.
  sizeptr_pos : ℕ → Option ℕ → ℕ
  sizeptr_pos n none = n
  sizeptr_pos n (some cmppos) = u64 (n + cmppos)

  -- The loop over `words` words.
  pub word_loop : (words n a b : ℕ) → Option ℕ
  word_loop zero n a b = none
  word_loop (suc words) n a b =
      let rest = word_loop words (n + size_of_size) (a + size_of_size) (b + size_of_size) in
      if load a == load b then rest else some (sizeptr_pos n (buf_diff_byte a b size_of_size))

  pub buf_diff_sizeptr : (a b len : ℕ) → Option ℕ
  buf_diff_sizeptr a b len = word_loop ((len + size_of_size - 1) / size_of_size) 0 a b

  -- The `left` bytes after the words, of which there are `whole` bytes after the first `ua`.
  pub tail_part : (a b ua whole left : ℕ) → Option ℕ
  tail_part a b ua whole left =
      if left == 0 then none else elim (buf_diff_byte (a + whole) (b + whole) left) [
        | none ↦ none
        | some cmppos ↦ some (u64 (ua + whole + cmppos))
      ]

  -- `whole` bytes in words, and then `left` bytes.
  pub two_parts : (a b ua whole left : ℕ) → Option ℕ
  two_parts a b ua whole left =
      let tail = tail_part a b ua whole left in
      if whole == 0 then tail else elim (buf_diff_sizeptr a b whole) [
        | none ↦ tail
        | some cmppos ↦ some (u64 (ua + cmppos))
      ]

  -- From `left = len & (sizeof(size_t) - 1)` on.
  pub aligned_part : (a b ua len : ℕ) → Option ℕ
  aligned_part a b ua len =
      let left = bit_and len (size_of_size - 1) in two_parts a b ua (len - left) left

  -- With `ua` and `ub` bytes past a multiple of the word's size. The length less the unaligned bytes
  -- wraps around below zero.
  pub offset_part : (a b ua ub len : ℕ) → Option ℕ
  offset_part a b ua ub len =
      let words : Option ℕ = elim (buf_diff_byte a b ua) [
        | none ↦ aligned_part (a + ua) (b + ub) ua (u64 (len + 2 ^ 64 - ua))
        | some n ↦ some n
      ] in
      if not (ua == ub)
      then buf_diff_byte a b len
      else if ua == 0
      then aligned_part a b ua len
      else words

  -- `*retpos` if the buffers differ; none if `bufdiff` returns true.
  pub bufdiff : (a b len : ℕ) → Option ℕ
  bufdiff a b len =
      offset_part a b (bit_and a (size_of_size - 1)) (bit_and b (size_of_size - 1)) len

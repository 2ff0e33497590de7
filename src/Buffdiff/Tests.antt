-- ===== src/Buffdiff/Tests.antt =====
-- Two buffers of zeros, but for one byte of the second.
use ufprog.Common.{ℕ, ◌≡◌, refl, arith, ◌==◌, if◌then◌else◌, inr, some}
use ufprog.Buffdiff.{
  bufdiff, offset_part, aligned_part, two_parts, tail_part, buf_diff_byte, byte_loop,
  buf_diff_sizeptr, word_loop, load, sizeptr_pos,
}
use ufprog.Buffdiff.Word.{IsBytes}
use ufprog.Buffdiff.Loops.{IsFirst}
use ufprog.Buffdiff.First.{bufdiff-IsFirst}

abbrev one_byte : ℕ → ℕ
one_byte a = if a == 25 then 1 else 0

one_byte-IsBytes : IsBytes one_byte
one_byte-IsBytes a = ground arith

-- Five bytes, then words: the byte at 25 is found in the second word, at position 14.
bufdiff_run : bufdiff one_byte 3 11 20 ≡ some 14
unfolding bufdiff offset_part aligned_part two_parts tail_part buf_diff_byte byte_loop
    buf_diff_sizeptr word_loop load sizeptr_pos
bufdiff_run = refl

bufdiff-IsFirst_example : IsFirst one_byte 3 11 0 20 (bufdiff one_byte 3 11 20)
bufdiff-IsFirst_example =
    bufdiff-IsFirst one_byte one_byte-IsBytes 3 11 20 (omega arith) (inr (omega arith))

-- ===== src/Bitops/Tests.antt =====
-- The bit operations at 40 = 0b101000, and a vote of three buffers.
use ufprog.Bitops.Majority.{bit, winner, bitwise_majority-elects}
use ufprog.Common.{List, [], ◌∷◌, get_or}
use ufprog.Common.{ℕ, ◌^◌, ◌<◌, ◌≡◌, arith}
use ufprog.Bitops.Wide.{generic_hweight-ones}
use ufprog.Bitops.{
  generic_hweight16, generic_hweight32, generic_ffs, generic_fls, generic_hweight8,
  bitwise_majority,
}
use ufprog.Bitops.Search.{IsLowestBit, IsHighestBit, search-IsExact}
use ufprog.Bitops.Weight.{ones}

search-IsExact_example : IsLowestBit 40 (generic_ffs 40) × IsHighestBit 40 (generic_fls 40)
search-IsExact_example = search-IsExact 40 (λ e. omega (arith, e)) (omega arith)

abbrev three_copies : List (List ℕ)
three_copies = (1 ∷ 40 ∷ []) ∷ (1 ∷ 44 ∷ []) ∷ (0 ∷ 8 ∷ []) ∷ []

bitwise_majority-elects_example :
    bit (get_or (bitwise_majority three_copies 2) 1 0) 5 ≡ winner three_copies 1 5
bitwise_majority-elects_example =
    bitwise_majority-elects three_copies 2 1 5 (omega arith) (omega arith) (omega arith)

generic_hweight-ones_example :
    (0xc3 < 2 ^ 8 → generic_hweight8 0xc3 ≡ ones 8 0xc3)
    × (0xc3 < 2 ^ 16 → generic_hweight16 0xc3 ≡ ones 16 0xc3)
    × (0xc3 < 2 ^ 32 → generic_hweight32 0xc3 ≡ ones 32 0xc3)
generic_hweight-ones_example = generic_hweight-ones 0xc3

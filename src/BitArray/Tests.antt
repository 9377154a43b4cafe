-- ===== src/BitArray/Tests.antt =====
-- Runs on two words, at their border.
use libyojimbo.Prelude.{◌≡◌, ◌^◌, arith, some, [], ◌∷◌, ◌==◌, if◌then◌else◌}
use libyojimbo.BitArray.{BitArray, set_bit, get_bit}
use libyojimbo.BitArray.Laws.{IsValid, set_bit_lem}

abbrev two_words : BitArray
two_words = record { size = 70; bytes = 16; data_ = 2 ^ 63 ∷ 1 ∷ [] }

two_words-IsValid : IsValid two_words
two_words-IsValid = record { covers = omega arith }

set_bit_lem_example :
    (b : BitArray) × (set_bit two_words 65 ≡ some b)
    × IsValid b
    × (get_bit b 64 ≡ (if 64 == 65 then some 1 else get_bit two_words 64))
set_bit_lem_example = set_bit_lem two_words 65 64 two_words-IsValid (omega arith) (omega arith)

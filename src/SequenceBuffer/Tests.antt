-- ===== src/SequenceBuffer/Tests.antt =====
-- Runs of a buffer of four entries across the wrap, and the theorems at concrete buffers.
use libyojimbo.Prelude.{
  ℕ, ◌%◌, ◌<◌, ◌≡◌, ◌↔◌, ◌⊎◌, refl, arith, none, some, [], ◌∷◌, ◌==◌, if◌then◌else◌,
}
use libyojimbo.Sequence.{sequence_greater_than}
use libyojimbo.Sequence.Order.{steps_ahead}
use libyojimbo.SequenceBuffer.{
  SequenceBuffer, free, new, remove_from, remove_entries, occupy, insert, remove, find, put,
}
use libyojimbo.SequenceBuffer.Removing.{IsValid, in_window}
use libyojimbo.SequenceBuffer.Laws.{put-IsValid, find-put, put_refuses}
use libyojimbo.SequenceBuffer.Lifecycle.{new_lem, find-remove}

-- Numbers 65534 and 65535 stored, the next one 0.
abbrev at_wrap : SequenceBuffer ℕ
at_wrap = record {
  size = 4;
  sequence = 0;
  entry_sequence = free ∷ free ∷ 65534 ∷ 65535 ∷ [];
  entries = 0 ∷ 0 ∷ 7 ∷ 8 ∷ [];
}

at_wrap-IsValid : IsValid at_wrap
at_wrap-IsValid = grind arith

-- Storing number 1 skips 0, and leaves both older numbers in the window.
abbrev past_wrap : SequenceBuffer ℕ
past_wrap = record {
  size = 4;
  sequence = 2;
  entry_sequence = free ∷ 1 ∷ 65534 ∷ 65535 ∷ [];
  entries = 0 ∷ 9 ∷ 7 ∷ 8 ∷ [];
}

put-at_wrap : put at_wrap 1 9 ≡ some past_wrap
unfolding put insert occupy remove_entries remove_from sequence_greater_than
put-at_wrap = refl

find-put_example :
    find past_wrap 65535
    ≡ (if 65535 == 1 then some 9 else if in_window 4 2 65535 then find at_wrap 65535 else none)
find-put_example =
    find-put at_wrap past_wrap 1 65535 9 at_wrap-IsValid (omega arith) (omega arith) (omega arith)
      put-at_wrap

put-IsValid_example : IsValid past_wrap
put-IsValid_example =
    put-IsValid at_wrap past_wrap 1 9 at_wrap-IsValid (omega arith) (omega arith) put-at_wrap

put_refuses_example : (put at_wrap 65000 9 ≡ none) ↔ (
    (4 < steps_ahead 0 65000)
    × ((steps_ahead 0 65000 < 32769) ⊎ ((steps_ahead 0 65000 ≡ 32769) × (65001 < 0))))
put_refuses_example = put_refuses at_wrap 65000 9 at_wrap-IsValid (omega arith) (omega arith)

new_lem_example : (b : SequenceBuffer ℕ) × (new 0 256 ≡ some b) × IsValid b × (find b 5 ≡ none)
new_lem_example = new_lem 0 256 5 (omega arith) (omega arith) (omega arith) (omega arith)

find-remove_example :
    find (remove at_wrap 2) 65534 ≡ (if 65534 % 4 == 2 % 4 then none else find at_wrap 65534)
find-remove_example = find-remove at_wrap 2 65534 at_wrap-IsValid (omega arith)

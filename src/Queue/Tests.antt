-- ===== src/Queue/Tests.antt =====
-- Runs of a queue that wraps, and the theorems at concrete queues.
use libyojimbo.Prelude.{ℕ, ◌≡◌, refl, arith, some, none, List, [], ◌∷◌}
use libyojimbo.Queue.{Queue, push, pop, run}
use libyojimbo.Queue.Fifo
use libyojimbo.Queue.Fifo.{Op, put, get}
use libyojimbo.Queue.Laws.{IsValid, run-Fifo}

-- 8, then 9, round the end of the array.
abbrev wrapped : Queue ℕ
wrapped = record { entries = 9 ∷ 7 ∷ 8 ∷ []; array_size = 3; start_index = 2; num_entries = 2 }

abbrev script : List (Op ℕ)
script = put 1 ∷ get ∷ get ∷ put 5 ∷ get ∷ get ∷ []

wrapped-IsValid : IsValid wrapped
wrapped-IsValid = omega arith

run-wrapped : run wrapped script ≡ some (8 ∷ 9 ∷ 1 ∷ 5 ∷ [])
unfolding run push pop
run-wrapped = refl

push_twice_fails : run wrapped (put 1 ∷ put 2 ∷ []) ≡ none
unfolding run push
push_twice_fails = refl

run-Fifo_example : run wrapped script ≡ Fifo.run 3 (8 ∷ 9 ∷ []) script
run-Fifo_example = run-Fifo 0 wrapped script wrapped-IsValid

-- ===== src/Queue/Fifo.antt =====
-- The abstract queue: a list of at most `size` values, oldest first.
use libyojimbo.Prelude.{
  ℕ, Option, none, some, List, [], ◌∷◌, ◌++◌, ltb, ◌>>=◌, ◌>>◌, assert, length,
}

-- What a client can ask of a queue.
pub data Op {ℓ} (A : Type ℓ) : Type ℓ where
  put : A → Op A
  get : Op A

module _ {ℓ} {A : Type ℓ} where
  unfoldable pub push : ℕ → List A → A → Option (List A)
  push size xs x = assert (ltb (length xs) size) >> some (xs ++ (x ∷ []))

  unfoldable pub pop : List A → Option (A × List A)
  pop [] = none
  pop (x ∷ xs) = some (x, xs)

  unfoldable pub run : ℕ → List A → List (Op A) → Option (List A)
  run size xs [] = some []
  run size xs (put x ∷ ops) = push size xs x >>= λ ys. run size ys ops
  run size xs (get ∷ ops) = pop xs >>= λ (y, ys). run size ys ops >>= λ zs. some (y ∷ zs)

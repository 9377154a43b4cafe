-- ===== src/Queue.antt =====
-- yojimbo_queue.h: `Queue<T>`, a FIFO over a circular array.
-- A call that fails an assertion of the source is `none`; so is a read outside the array.
pub mod Fifo
pub mod Laws
mod Tests
use libyojimbo.Prelude.{
  ℕ, ◌+◌, ◌-◌, ◌%◌, Bool, not, Option, some, List, [], ◌∷◌, ltb, ◌==◌, ◌>>=◌, ◌>>◌, assert,
  get_elem?, set, replicate,
}
use libyojimbo.Queue.Fifo.{Op, put, get}

-- The members of `Queue<T>`, less the allocator.
pub record Queue {ℓ} (A : Type ℓ) : Type ℓ where
  pub entries : List A
  pub array_size : ℕ
  pub start_index : ℕ
  pub num_entries : ℕ

module _ {ℓ} {A : Type ℓ} where
  -- The constructor; `zeroed` is what `memset` leaves in an entry.
  pub new : A → ℕ → Option (Queue A)
  new zeroed size = do
    assert (ltb 0 size)
    some (record {
      entries = replicate size zeroed;
      array_size = size;
      start_index = 0;
      num_entries = 0;
    })

  -- `Clear`
  unfoldable pub clear : Queue A → Queue A
  clear q = record q { start_index = 0; num_entries = 0 }

  -- `IsFull`
  unfoldable pub is_full : Queue A → Bool
  is_full q = q.num_entries == q.array_size

  -- `IsEmpty`
  unfoldable pub is_empty : Queue A → Bool
  is_empty q = q.num_entries == 0

  -- `Pop`
  pub pop : Queue A → Option (A × Queue A)
  unfolding is_empty
  pop q = do
    assert (not (is_empty q))
    entry ← get_elem? q.entries q.start_index
    some (
      entry,
      record q {
        start_index = (q.start_index + 1) % q.array_size;
        num_entries = q.num_entries - 1;
      },
    )

  -- `Push`
  pub push : Queue A → A → Option (Queue A)
  unfolding is_full
  push q value = do
    assert (not (is_full q))
    let index = (q.start_index + q.num_entries) % q.array_size
    some (record q { entries = set q.entries index value; num_entries = q.num_entries + 1 })

  -- `operator []`
  pub at : Queue A → ℕ → Option A
  unfolding is_empty
  at q index = do
    assert (not (is_empty q))
    assert (ltb index q.num_entries)
    get_elem? q.entries ((q.start_index + index) % q.array_size)

  -- A client's calls in order, with the values that it pops; it stops where a call fails.
  pub run : Queue A → List (Op A) → Option (List A)
  run q [] = some []
  run q (put x ∷ ops) = push q x >>= λ q'. run q' ops
  run q (get ∷ ops) = pop q >>= λ (x, q'). run q' ops >>= λ xs. some (x ∷ xs)

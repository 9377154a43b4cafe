-- ===== src/SequenceBuffer.antt =====
-- yojimbo_sequence_buffer.h: `SequenceBuffer<T>`, entries indexed by 16-bit sequence number.
-- A `T *` that the source returns is the index of the entry; `read` and `write` go through it.
pub mod Clearing
pub mod Window
pub mod Removing
pub mod Insert
pub mod Laws
pub mod Lifecycle
pub mod Writing
pub mod Appending
mod Tests
use libyojimbo.Prelude.{
  ℕ, zero, suc, ◌+◌, ◌-◌, ◌%◌, ◌^◌, Bool, not, Option, none, some, List, [], ltb, leb, ◌==◌, ◌>>=◌,
  ◌>>◌, assert, if◌then◌else◌, get_elem?, get_or, set, replicate,
}
use libyojimbo.Sequence.{sequence_greater_than, sequence_less_than}

-- 0xFFFFFFFF, the sequence of an entry that does not exist.
abbrev pub free : ℕ
free = 2 ^ 32 - 1

-- The members of `SequenceBuffer<T>`, less the allocator.
pub record SequenceBuffer {ℓ} (A : Type ℓ) : Type ℓ where
  pub size : ℕ
  pub sequence : ℕ
  pub entry_sequence : List ℕ
  pub entries : List A

-- The loop of `RemoveEntries` at a sequence, with the rounds left.
pub remove_from : ℕ → ℕ → ℕ → List ℕ → List ℕ
remove_from size zero sequence es = es
remove_from size (suc left) sequence es =
    remove_from size left (sequence + 1) (set es (sequence % size) free)

module _ {ℓ} {A : Type ℓ} where
  -- `Reset`
  unfoldable pub reset : SequenceBuffer A → SequenceBuffer A
  reset b = record b { sequence = 0; entry_sequence = replicate b.size free }

  -- The constructor; `fresh` stands for the memory of an entry that was never written.
  unfoldable pub new : A → ℕ → Option (SequenceBuffer A)
  unfolding reset
  new fresh size = do
    assert (ltb 0 size)
    some (
        reset (record {
          size = size;
          sequence = 0;
          entry_sequence = [];
          entries = replicate size fresh;
        }))

  -- `RemoveEntries`. Its second loop, over the whole array, runs where the first would go round.
  pub remove_entries : SequenceBuffer A → ℕ → ℕ → SequenceBuffer A
  remove_entries b start finish =
      let finish = if ltb finish start then finish + 65535 else finish in
      record b {
        entry_sequence =
            if ltb (finish - start) b.size
            then remove_from b.size (finish + 1 - start) start b.entry_sequence
            else remove_from b.size b.size 0 b.entry_sequence;
      }

  -- The end of `Insert`, once the sequence is known to fit.
  pub occupy : SequenceBuffer A → ℕ → ℕ × SequenceBuffer A
  occupy b sequence =
      let index = sequence % b.size in
      (index, record b { entry_sequence = set b.entry_sequence index sequence })

  -- `Insert`; `none` is the NULL that it returns with the buffer unchanged. The arguments of the two
  -- comparisons are cut to `uint16_t`.
  pub insert : SequenceBuffer A → ℕ → Option (ℕ × SequenceBuffer A)
  insert b sequence =
      if sequence_greater_than ((sequence + 1) % 65536) b.sequence
      then some (
          occupy
            (record (remove_entries b b.sequence sequence) { sequence = (sequence + 1) % 65536 })
            sequence)
      else if sequence_less_than sequence ((b.sequence + 65536 - b.size % 65536) % 65536)
      then none
      else some (occupy b sequence)

  -- `Remove`
  unfoldable pub remove : SequenceBuffer A → ℕ → SequenceBuffer A
  remove b sequence = record b { entry_sequence = set b.entry_sequence (sequence % b.size) free }

  -- `Available`
  unfoldable pub available : SequenceBuffer A → ℕ → Bool
  available b sequence = get_or b.entry_sequence (sequence % b.size) free == free

  -- `Exists`
  unfoldable pub exists : SequenceBuffer A → ℕ → Bool
  exists b sequence = get_or b.entry_sequence (sequence % b.size) free == sequence

  -- `Find`, both versions.
  unfoldable pub find_index : SequenceBuffer A → ℕ → Option ℕ
  find_index b sequence =
      let index = sequence % b.size in
      if get_or b.entry_sequence index free == sequence then some index else none

  -- `GetAtIndex`
  unfoldable pub get_at_index : SequenceBuffer A → ℕ → Option (Option ℕ)
  get_at_index b index = do
    assert (ltb index b.size)
    some (if not (get_or b.entry_sequence index free == free) then some index else none)

  -- A read and a write through the pointer to an entry.
  unfoldable pub read : SequenceBuffer A → ℕ → Option A
  read b index = get_elem? b.entries index

  unfoldable pub write : SequenceBuffer A → ℕ → A → SequenceBuffer A
  write b index value = record b { entries = set b.entries index value }

  -- `Find`, and a read of the entry that it finds.
  unfoldable pub find : SequenceBuffer A → ℕ → Option A
  unfolding find_index read
  find b sequence = find_index b sequence >>= λ index. read b index

  -- `Insert`, and a write of the whole entry, as the callers do.
  unfoldable pub put : SequenceBuffer A → ℕ → A → Option (SequenceBuffer A)
  unfolding write
  put b sequence value = insert b sequence >>= λ (index, b'). some (write b' index value)

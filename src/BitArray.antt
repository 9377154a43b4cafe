-- ===== src/BitArray.antt =====
-- yojimbo_bit_array.h: `BitArray`. A failed assertion is `none`, and so is an access outside the array.
pub mod Laws
mod Tests
use libyojimbo.Prelude.{
  ℕ, ◌+◌, ◌-◌, ◌*◌, ◌/◌, ◌%◌, ◌^◌, Option, none, some, List, [], ◌==◌, bit_and, bit_or, ltb,
  if◌then◌else◌, ◌>>=◌, ◌>>◌, assert, get_elem?, set, length, replicate,
}

-- The members of `BitArray`, less the allocator.
pub record BitArray : Type 0 where
  pub size : ℕ
  pub bytes : ℕ
  pub data_ : List ℕ

-- `Clear`
pub clear : BitArray → BitArray
clear b = record b { data_ = replicate (b.bytes / 8) 0 }

-- The constructor.
pub new : ℕ → Option BitArray
unfolding clear
new size = do
  assert (ltb 0 size)
  let bytes = 8 * (size / 64 + (if size % 64 == 0 then 0 else 1))
  assert (ltb 0 bytes)
  some (clear (record { size = size; bytes = bytes; data_ = [] }))

-- `SetBit`
pub set_bit : BitArray → ℕ → Option BitArray
set_bit b index = do
  assert (ltb index b.size)
  let bit_index = bit_and index (2 ^ 6 - 1)
  assert (ltb bit_index 64)
  word ← get_elem? b.data_ (index / 2 ^ 6)
  some (record b { data_ = set b.data_ (index / 2 ^ 6) (bit_or word (2 ^ bit_index)) })

-- `ClearBit`
pub clear_bit : BitArray → ℕ → Option BitArray
clear_bit b index = do
  assert (ltb index b.size)
  let bit_index = bit_and index (2 ^ 6 - 1)
  word ← get_elem? b.data_ (index / 2 ^ 6)
  some
      (record b { data_ = set b.data_ (index / 2 ^ 6) (bit_and word (2 ^ 64 - 1 - 2 ^ bit_index)) })

-- `GetBit`
pub get_bit : BitArray → ℕ → Option ℕ
get_bit b index = do
  assert (ltb index b.size)
  let bit_index = bit_and index (2 ^ 6 - 1)
  assert (ltb bit_index 64)
  word ← get_elem? b.data_ (index / 2 ^ 6)
  some (bit_and (word / 2 ^ bit_index) 1)

-- ===== src/Message.antt =====
-- yojimbo_message.h: `Message` and `BlockMessage`. What a derived class adds is a parameter. References
-- are counted by the factory; here the channels list the messages that they retain and release.
use libyojimbo.Prelude.{
  ℕ, ◌%◌, ◌^◌, Bool, true, false, not, Option, none, some, List, [], ltb, ◌>>◌, assert, length,
}

-- The members of `Message` and, for a block message, of `BlockMessage`; no block is the NULL.
pub record Message (P : Type 0) : Type 0 where
  pub id : ℕ
  pub type : ℕ
  pub block_message : Bool
  pub block_data : Option (List ℕ)
  pub payload : P

abbrev has_block : Option (List ℕ) → Bool
has_block none = false
has_block (some bytes) = true

-- `GetBlockData`, as the bytes it points to.
abbrev pub block_bytes : Option (List ℕ) → List ℕ
block_bytes none = []
block_bytes (some bytes) = bytes

module _ {P : Type 0} where
  -- `SetId`
  abbrev pub set_id : Message P → ℕ → Message P
  set_id m id = record m { id = id % 2 ^ 16 }

  -- `GetBlockSize`
  abbrev pub get_block_size : Message P → ℕ
  get_block_size m = length (block_bytes m.block_data)

  -- `AttachBlock`
  unfoldable pub attach_block : Message P → List ℕ → Option (Message P)
  attach_block m bytes = do
    assert (ltb 0 (length bytes))
    assert (not (has_block m.block_data))
    some (record m { block_data = some bytes })

-- ===== src/EncryptionManager.antt =====
-- yojimbo_encryption.cpp: `EncryptionManager`. The five arrays are one list of entries. Addresses and times
-- are parameters, with what the code asks of them; a key is the list of its bytes.
pub mod Laws
mod Tests
use libyojimbo.Prelude.{
  ℕ, zero, suc, ◌+◌, ◌*◌, Bool, true, false, not, ◌&&◌, Option, none, some, List, [], ◌∷◌, ltb,
  ◌==◌, if◌then◌else◌, ◌>>=◌, ◌>>◌, assert, get_elem?, set, length, replicate,
}

-- MaxEncryptionMappings, eight for each of MaxClients, and KeyBytes
abbrev pub max_encryption_mappings : ℕ
max_encryption_mappings = 64 * 8

abbrev pub key_bytes : ℕ
key_bytes = 32

-- What the code asks of addresses and of times: the equality of addresses and the address of the default
-- constructor; the times -1000 and 0, the sum, `<` and `>=`.
pub record World (A T : Type 0) : Type 0 where
  pub same_address : A → A → Bool
  pub no_address : A
  pub long_ago : T
  pub zero_time : T
  pub plus : T → T → T
  pub before : T → T → Bool
  pub at_least : T → T → Bool

-- The entry of an index in the arrays.
pub record Mapping (A T : Type 0) : Type 0 where
  pub last_access_time : T
  pub timeout : T
  pub address : A
  pub send_key : List ℕ
  pub receive_key : List ℕ

pub record EncryptionManager (A T : Type 0) : Type 0 where
  pub num_encryption_mappings : ℕ
  pub mappings : List (Mapping A T)

module _ {A T : Type 0} (world : World A T) where
  -- The tests of an entry: whether it has timed out, and whether it is the one of an address.
  abbrev pub expired : T → Mapping A T → Bool
  expired time m = world.before (world.plus m.last_access_time m.timeout) time

  abbrev pub matches : A → T → Mapping A T → Bool
  matches address time m =
      world.same_address m.address address
      && world.at_least (world.plus m.last_access_time m.timeout) time

  abbrev pub no_mapping : Mapping A T
  no_mapping = record {
    last_access_time = world.long_ago;
    timeout = world.zero_time;
    address = world.no_address;
    send_key = replicate key_bytes 0;
    receive_key = replicate key_bytes 0;
  }

  -- A loop over the entries from an index on, with the rounds left: the index of the first that passes a
  -- test. `none` is an access outside the arrays, `some none` a loop that finds nothing.
  unfoldable pub first_from : ℕ → ℕ → (Mapping A T → Bool) → List (Mapping A T) → Option (Option ℕ)
  first_from zero i test mappings = some none
  first_from (suc left) i test mappings =
      let rest = first_from left (i + 1) test mappings in
      get_elem? mappings i >>= λ m. if test m then some (some i) else rest

  -- `ResetEncryptionMappings`
  unfoldable pub reset_encryption_mappings : EncryptionManager A T → EncryptionManager A T
  reset_encryption_mappings e = record {
    num_encryption_mappings = 0;
    mappings = replicate max_encryption_mappings no_mapping;
  }

  add_found :
      EncryptionManager A T → Mapping A T → Option ℕ → Option ℕ → Bool × EncryptionManager A T
  add_found e new (some i) free = (true, record e { mappings = set e.mappings i new })
  add_found e new none (some i) = (
    true,
    record {
      num_encryption_mappings =
          if ltb e.num_encryption_mappings (i + 1) then i + 1 else e.num_encryption_mappings;
      mappings = set e.mappings i new;
    },
  )
  add_found e new none none = (false, e)

  -- `AddEncryptionMapping`
  unfoldable pub add_encryption_mapping :
      EncryptionManager A T → A → List ℕ → List ℕ → T → T → Option (Bool × EncryptionManager A T)
  unfolding first_from add_found
  add_encryption_mapping e address send_key receive_key time timeout = do
    found ← first_from e.num_encryption_mappings 0 (matches address time) e.mappings
    free ← first_from max_encryption_mappings 0 (expired time) e.mappings
    let new : Mapping A T = record {
      last_access_time = time;
      timeout = timeout;
      address = address;
      send_key = send_key;
      receive_key = receive_key;
    }
    some (add_found e new found free)

  -- The loop of `RemoveEncryptionMapping` that goes back from an index over entries that timed out.
  back_from : ℕ → T → List (Mapping A T) → Option ℕ
  back_from zero time mappings = some 0
  back_from (suc index) time mappings = do
    m ← get_elem? mappings index
    rest ← back_from index time mappings
    some (if world.at_least (world.plus m.last_access_time m.timeout) time then suc index else rest)

  remove_found : EncryptionManager A T → T → Option ℕ → Option (Bool × EncryptionManager A T)
  unfolding back_from
  remove_found e time none = some (false, e)
  remove_found e time (some i) = do
    let mappings = set e.mappings i no_mapping
    num ←
        (if i + 1 == e.num_encryption_mappings
          then back_from i time mappings
          else some e.num_encryption_mappings)
    some (true, record { num_encryption_mappings = num; mappings = mappings })

  -- `RemoveEncryptionMapping`
  unfoldable pub remove_encryption_mapping :
      EncryptionManager A T → A → T → Option (Bool × EncryptionManager A T)
  unfolding first_from remove_found
  remove_encryption_mapping e address time =
      first_from e.num_encryption_mappings 0 (λ m. world.same_address m.address address) e.mappings
      >>= λ found. remove_found e time found

  find_found : EncryptionManager A T → T → Option ℕ → Option (Option ℕ × EncryptionManager A T)
  find_found e time none = some (none, e)
  find_found e time (some i) = do
    m ← get_elem? e.mappings i
    some (some i, record e { mappings = set e.mappings i (record m { last_access_time = time }) })

  -- `FindEncryptionMapping`; the index is `none` for -1.
  unfoldable pub find_encryption_mapping :
      EncryptionManager A T → A → T → Option (Option ℕ × EncryptionManager A T)
  unfolding first_from find_found
  find_encryption_mapping e address time =
      first_from e.num_encryption_mappings 0 (matches address time) e.mappings >>= λ found.
      find_found e time found

-- `GetSendKey` and `GetReceiveKey`; the inner `none` is NULL.
unfoldable pub get_send_key :
    {A T : Type 0} → EncryptionManager A T → Option ℕ → Option (Option (List ℕ))
get_send_key e none = some none
get_send_key e (some index) = do
  assert (ltb index e.num_encryption_mappings)
  m ← get_elem? e.mappings index
  some (some m.send_key)

unfoldable pub get_receive_key :
    {A T : Type 0} → EncryptionManager A T → Option ℕ → Option (Option (List ℕ))
get_receive_key e none = some none
get_receive_key e (some index) = do
  assert (ltb index e.num_encryption_mappings)
  m ← get_elem? e.mappings index
  some (some m.receive_key)

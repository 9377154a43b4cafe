-- ===== src/PacketProcessor.antt =====
-- yojimbo_packet_processor.cpp: `PacketProcessor`; yojimbo_encryption.cpp: `Encrypt` and `Decrypt`.
-- The packet serialization and the cipher of libsodium are interfaces. A byte buffer is the list of the
-- bytes that were written to it, no buffer is NULL, and a failed assertion and a read or a write
-- outside a buffer are `none`; both buffers of the processor have its absolute maximum of bytes.
pub mod Laws
mod Tests
use libyojimbo.Prelude.{
  ℕ, ◌+◌, ◌-◌, ◌*◌, ◌%◌, ◌^◌, Bool, true, false, not, Option, none, some, List, [], ◌∷◌, ◌++◌, ltb,
  leb, ◌==◌, bit_and, bit_or, if◌then◌else◌, ◌>>=◌, ◌>>◌, assert, length, drop,
}
use libyojimbo.PacketSequence.{
  compress_packet_sequence, get_packet_sequence_bytes, decompress_packet_sequence,
}
use libyojimbo.ReplayProtection.{ReplayProtection, packet_already_received}

-- `PacketProcessErrors`
pub data PacketProcessErrors : Type 0 where
  packet_processor_error_none : PacketProcessErrors
  packet_processor_error_key_is_null : PacketProcessErrors
  packet_processor_error_packet_too_small : PacketProcessErrors
  packet_processor_error_packet_already_received : PacketProcessErrors
  packet_processor_error_write_packet_failed : PacketProcessErrors
  packet_processor_error_read_packet_failed : PacketProcessErrors
  packet_processor_error_encrypt_failed : PacketProcessErrors
  packet_processor_error_decrypt_failed : PacketProcessErrors

-- MaxPrefixBytes, MacBytes, and ENCRYPTED_PACKET_FLAG
abbrev pub max_prefix_bytes : ℕ
max_prefix_bytes = 9

abbrev pub mac_bytes : ℕ
mac_bytes = 16

abbrev pub encrypted_packet_flag : ℕ
encrypted_packet_flag = 2 ^ 7

-- The members of the processor, less its buffers and what it only passes on.
pub record PacketProcessor : Type 0 where
  pub error : PacketProcessErrors
  pub max_packet_size : ℕ
  pub absolute_max_packet_size : ℕ

-- The constructor.
unfoldable pub new : ℕ → Option PacketProcessor
new max_packet_size = do
  let rounded =
      max_packet_size + (if not (max_packet_size % 4 == 0) then 4 - max_packet_size % 4 else 0)
  assert (rounded % 4 == 0)
  assert (leb max_packet_size rounded)
  some (record {
    error = packet_processor_error_none;
    max_packet_size = rounded;
    absolute_max_packet_size = max_packet_size + max_prefix_bytes + mac_bytes;
  })

abbrev pub set_error : PacketProcessor → PacketProcessErrors → PacketProcessor
set_error p error = record p { error = error }

-- `crypto_secretbox_easy` and `crypto_secretbox_open_easy`: a message, a nonce and a key give the other
-- message, or fail and then write nothing. The nonce of 24 bytes is the number that its bytes are, lowest first.
pub record SecretBox (K : Type 0) : Type 0 where
  pub easy : List ℕ → ℕ → K → Option (List ℕ)
  pub open_easy : List ℕ → ℕ → K → Option (List ℕ)

-- `yojimbo::WritePacket` and `yojimbo::ReadPacket`: in the raw format, or with a prefix byte. What is
-- written is empty where it fails; `ReadPacket` is also given the packet types that are allowed.
pub record PacketFormat (A : Type 0) : Type 0 where
  pub write_packet : Bool → ℕ → A → List ℕ
  pub read_packet : Bool → (ℕ → Bool) → List ℕ → Option A

module _ {K : Type 0} (box : SecretBox K) where
  -- `Encrypt`; the nonce of 8 bytes is filled with zeros.
  unfoldable pub encrypt : List ℕ → ℕ → K → Option (List ℕ)
  encrypt message nonce key = box.easy message nonce key

  -- `Decrypt`
  unfoldable pub decrypt : List ℕ → ℕ → K → Option (List ℕ)
  decrypt message nonce key = box.open_easy message nonce key

-- What `ReadPacket` gives back: the packet or NULL, what it stored through its references, and the
-- replay protection and the processor as they are left.
pub record ReadResult (A : Type 0) : Type 0 where
  pub packet : Option A
  pub sequence : ℕ
  pub encrypted : Bool
  pub replay_protection : Option ReplayProtection
  pub processor : PacketProcessor

-- The check of `ReadPacket` for packets that have been received, where there is replay protection.
unfoldable pub already_received : Option ReplayProtection → ℕ → Bool × Option ReplayProtection
already_received none sequence = (false, none)
already_received (some replay) sequence =
    let (seen, replay') = packet_already_received replay sequence in (seen, some replay')

module _ {A K : Type 0} (format : PacketFormat A) (box : SecretBox K) where
  sealed : PacketProcessor → List ℕ → Option (List ℕ) → Option (Option (List ℕ) × PacketProcessor)
  sealed p prefix none = some (none, set_error p packet_processor_error_encrypt_failed)
  sealed p prefix (some bytes) = do
    assert (leb (length (prefix ++ bytes)) p.absolute_max_packet_size)
    some (some (prefix ++ bytes), p)

  write_encrypted : PacketProcessor → A → ℕ → Option K → Option (Option (List ℕ) × PacketProcessor)
  unfolding sealed
  write_encrypted p packet sequence none =
      some (none, set_error p packet_processor_error_key_is_null)
  write_encrypted p packet sequence (some key) =
      let (prefix, bytes) = compress_packet_sequence sequence in
      let written = format.write_packet true p.max_packet_size packet in
      if length written == 0
      then some (none, set_error p packet_processor_error_write_packet_failed)
      else (assert (leb (length written) p.max_packet_size)
          >> sealed p (bit_or prefix encrypted_packet_flag ∷ bytes)
              (encrypt box written sequence key))

  -- `WritePacket`: the bytes of the packet, or `none` for NULL.
  unfoldable pub write_packet :
      PacketProcessor → A → ℕ → Bool → Option K → Option (Option (List ℕ) × PacketProcessor)
  unfolding write_encrypted
  write_packet processor packet sequence encrypted key =
      let p = set_error processor packet_processor_error_none in
      if encrypted
      then write_encrypted p packet sequence key
      else (let written = format.write_packet false p.max_packet_size packet in
          if length written == 0
          then some (none, set_error p packet_processor_error_write_packet_failed)
          else (assert (leb (length written) p.max_packet_size) >> some (some written, p)))

  module _ (encrypted_packet_types unencrypted_packet_types : ℕ → Bool) where
    -- The end of `ReadPacket`, with what has been stored so far.
    read_raw : Bool → List ℕ → (ℕ → Bool) → ReadResult A → ReadResult A
    read_raw raw bytes types r = finish (format.read_packet raw types bytes)
      where
        finish : Option A → ReadResult A
        finish (some packet) = record r { packet = some packet }
        finish none = record r {
          processor = set_error r.processor packet_processor_error_read_packet_failed;
        }

    -- What is decrypted is written to the scratch buffer.
    decrypted : Option (List ℕ) → ReadResult A → Option (ReadResult A)
    unfolding read_raw
    decrypted none r =
        some (record r { processor = set_error r.processor packet_processor_error_decrypt_failed })
    decrypted (some bytes) r = do
      assert (leb (length bytes) r.processor.absolute_max_packet_size)
      some (read_raw true bytes encrypted_packet_types r)

    read_encrypted : ℕ → List ℕ → Option K → ReadResult A → Option (ReadResult A)
    unfolding decrypted
    read_encrypted prefix bytes none r =
        some (record r { processor = set_error r.processor packet_processor_error_key_is_null })
    read_encrypted prefix bytes (some key) r =
        let sequence_bytes = get_packet_sequence_bytes prefix in
        if leb (length bytes + 1) (1 + sequence_bytes + mac_bytes)
        then some
            (record r { processor = set_error r.processor packet_processor_error_packet_too_small })
        else (decompress_packet_sequence prefix bytes >>= λ sequence.
            let (seen, replay) = already_received r.replay_protection sequence in
            let r' : ReadResult A = record r { sequence = sequence; replay_protection = replay } in
            if seen
            then some (record r' {
              processor = set_error r.processor packet_processor_error_packet_already_received;
            })
            else decrypted (decrypt box (drop sequence_bytes bytes) sequence key) r')

    -- `ReadPacket`, of a packet that has arrived with the given bytes; `sequence` is what the reference
    -- held before.
    unfoldable pub read_packet :
        PacketProcessor → List ℕ → ℕ → Option K → Option ReplayProtection → Option (ReadResult A)
    unfolding read_encrypted
    read_packet processor [] sequence key replay = none
    read_packet processor (prefix ∷ bytes) sequence key replay =
        let encrypted = not (bit_and prefix encrypted_packet_flag == 0) in
        let r : ReadResult A = record {
          packet = none;
          sequence = sequence;
          encrypted = encrypted;
          replay_protection = replay;
          processor = set_error processor packet_processor_error_none;
        } in
        if encrypted
        then read_encrypted prefix bytes key r
        else some
            (read_raw false (prefix ∷ bytes) unencrypted_packet_types (record r { sequence = 0 }))

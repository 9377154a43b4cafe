-- ===== src/PacketProcessor/Laws.antt =====
-- What is read from an encrypted packet, and what replay protection learns from one.
use libyojimbo.Prelude.{
  ℕ, ◌+◌, ◌/◌, ◌%◌, ◌^◌, ◌≤◌, ◌<◌, ◌≡◌, refl, sym, ap, ◌∙◌, arith, Bool, true, false, not, Option,
  none, some, List, [], ◌∷◌, ◌++◌, leb, ◌==◌, bit_and, bit_or, length, length-append, drop, le→leb,
}
use libyojimbo.Prelude.Bits.{bit_and_mask, bit_and_high, bit_or_fields}
use libyojimbo.PacketSequence.{compress_packet_sequence}
use libyojimbo.PacketSequence.Laws.{flagged-compress, get_packet_sequence_bytes-compress}
use libyojimbo.ReplayProtection.{ReplayProtection, packet_already_received}
use libyojimbo.PacketProcessor.{
  PacketProcessor, PacketFormat, SecretBox, new, write_packet, write_encrypted, sealed, read_packet,
  read_encrypted, read_raw, decrypted, encrypt, decrypt, already_received, encrypted_packet_flag,
  PacketProcessErrors, packet_processor_error_none, packet_processor_error_decrypt_failed,
  packet_processor_error_read_packet_failed, set_error, mac_bytes,
}

-- The flag on a prefix byte below it.
flag_lem : (prefix : ℕ) → prefix < 128 → bit_or prefix encrypted_packet_flag ≡ prefix + 128
flag_lem prefix h = bit_or_fields 7 prefix 1 h

flagged_lem :
    (prefix : ℕ) → prefix < 128 → not (bit_and (prefix + 128) encrypted_packet_flag == 0) ≡ true
flagged_lem prefix h =
    ground (arith, bit_and_high 7 (prefix + 128) 1, bit_and_mask 1 ((prefix + 128) / 2 ^ 7))

drop-append : {A : Type 0} (xs ys : List A) → drop (length xs) (xs ++ ys) ≡ ys
drop-append [] ys = refl
drop-append (x ∷ xs) ys = drop-append xs ys

new_lem :
    (size : ℕ) (p : PacketProcessor)
    → size % 4 ≡ 0
    → new size ≡ some p
    → p.absolute_max_packet_size ≡ p.max_packet_size + 25
unfolding new
new_lem size p whole made =
    let even : (size % 4 == 0) ≡ true = ground arith in
    let fits : leb size (size + 0) ≡ true = ground arith in
    let divides : (size + 0) % 4 == 0 ≡ true = ground arith in
    let made_of : PacketProcessor = record {
      error = packet_processor_error_none;
      max_packet_size = size + 0;
      absolute_max_packet_size = size + 9 + 16;
    } in
    let computed : new size ≡ some made_of = rw (even, fits, divides) refl in
    let same : some made_of ≡ some p = sym computed ∙ made in
    let e : made_of ≡ p = cc in
    sym (ap (λ (q : PacketProcessor). q.absolute_max_packet_size) e)
    ∙ omega arith
    ∙ ap (λ (q : PacketProcessor). q.max_packet_size + 25) e

-- The error that reading a packet leaves.
abbrev pub read_error : {A : Type 0} → Option A → PacketProcessErrors
read_error none = packet_processor_error_read_packet_failed
read_error (some packet) = packet_processor_error_none

-- The bytes of an encrypted packet.
abbrev pub packet_bytes : ℕ → List ℕ → List ℕ
packet_bytes sequence body =
    ((compress_packet_sequence sequence).0 + 128) ∷ (compress_packet_sequence sequence).1 ++ body

module _ {A K : Type 0} (format : PacketFormat A) (box : SecretBox K)
    (encrypted_packet_types unencrypted_packet_types : ℕ → Bool) where
  write_packet_lem :
      (p : PacketProcessor) (packet : A) (sequence : ℕ) (key : K) (body : List ℕ)
      → p.absolute_max_packet_size ≡ p.max_packet_size + 25
      → 0 < length (format.write_packet true p.max_packet_size packet)
      → length (format.write_packet true p.max_packet_size packet) ≤ p.max_packet_size
      → length body ≡ length (format.write_packet true p.max_packet_size packet) + mac_bytes
      → box.easy (format.write_packet true p.max_packet_size packet) sequence key ≡ some body
      → write_packet format box p packet sequence true (some key)
        ≡ some (some (packet_bytes sequence body), set_error p packet_processor_error_none)
  unfolding write_packet write_encrypted sealed encrypt
  write_packet_lem p packet sequence key body absolute some_bytes fit longer sealed_to =
      let (prefix, bytes) = compress_packet_sequence sequence in
      let (_, small, _, short) = get_packet_sequence_bytes-compress sequence in
      let written : (length (format.write_packet true p.max_packet_size packet) == 0) ≡ false =
        ground arith in
      let whole : leb (length (packet_bytes sequence body)) p.absolute_max_packet_size ≡ true =
        le→leb _ _ (
          omega (
            arith,
            absolute,
            fit,
            longer,
            short,
            length-append (compress_packet_sequence sequence).1 body,
          )) in
      rw
        (
          written,
          le→leb _ _ fit,
          sealed_to,
          flag_lem (compress_packet_sequence sequence).0 small,
          whole,
        )
        refl

  read_packet-opened :
      (p : PacketProcessor) (old sequence : ℕ) (key : K) (written body : List ℕ)
      (replay replay' : Option ReplayProtection)
      → sequence < 2 ^ 64
      → 0 < length written
      → length written ≤ p.absolute_max_packet_size
      → length body ≡ length written + mac_bytes
      → box.open_easy body sequence key ≡ some written
      → already_received replay sequence ≡ (false, replay')
      → read_packet format box encrypted_packet_types unencrypted_packet_types p
          (packet_bytes sequence body)
          old
          (some key)
          replay
        ≡ some (
            read_raw format box encrypted_packet_types unencrypted_packet_types true written
              encrypted_packet_types
              (record {
                packet = none;
                sequence = sequence;
                encrypted = true;
                replay_protection = replay';
                processor = set_error p packet_processor_error_none;
              }))
  unfolding read_packet read_encrypted decrypted decrypt
  read_packet-opened p old sequence key written body replay replay' h some_bytes fit longer opened
        fresh =
      let bytes = (compress_packet_sequence sequence).1 in
      let (_, small, _, _) = get_packet_sequence_bytes-compress sequence in
      let (number, count) = flagged-compress sequence body h in
      let enough : leb (length (bytes ++ body) + 1) (1 + length bytes + mac_bytes) ≡ false =
        ground (arith, longer, length-append bytes body) in
      rw
        (
          flagged_lem (compress_packet_sequence sequence).0 small,
          count,
          enough,
          number,
          fresh,
          drop-append bytes body,
          opened,
          le→leb _ _ fit,
        )
        refl

  read_raw_lem :
      (bytes : List ℕ) (p : PacketProcessor) (sequence : ℕ) (replay : Option ReplayProtection)
      (packet : Option A)
      → format.read_packet true encrypted_packet_types bytes ≡ packet
      → read_raw format box encrypted_packet_types unencrypted_packet_types true bytes
          encrypted_packet_types
          (record {
            packet = none;
            sequence = sequence;
            encrypted = true;
            replay_protection = replay;
            processor = set_error p packet_processor_error_none;
          })
        ≡ record {
          packet = packet;
          sequence = sequence;
          encrypted = true;
          replay_protection = replay;
          processor = set_error p (read_error packet);
        }
  unfolding read_raw
  read_raw_lem bytes p sequence replay none parsed = rw parsed refl
  read_raw_lem bytes p sequence replay (some packet) parsed = rw parsed refl

  -- Take a processor that was constructed for a packet size that 4 divides, another one whose scratch
  -- buffer has at least that size, a 64-bit sequence number, and a cipher that opens what it sealed with
  -- the same nonce and key, 16 bytes longer. Where the packet is written in the raw format to at least one
  -- byte and at most the packet size, and that is sealed, `WritePacket` with encryption gives bytes. If
  -- replay protection, where there is any, has not received the number, `ReadPacket` of the other processor
  -- with the same key gives the same sequence number, marked as encrypted, and exactly what reading the
  -- written bytes in the raw format gives with the encrypted types: that packet without an error, or no
  -- packet and the error of reading.
  pub read_packet-write_packet :
      (size : ℕ) (p q : PacketProcessor) (packet : A) (old sequence : ℕ) (key : K) (body : List ℕ)
      (replay replay' : Option ReplayProtection)
      → size % 4 ≡ 0
      → new size ≡ some p
      → p.max_packet_size ≤ q.absolute_max_packet_size
      → sequence < 2 ^ 64
      → ((message sealed : List ℕ) (nonce : ℕ) (k : K)
          → box.easy message nonce k ≡ some sealed
          → (box.open_easy sealed nonce k ≡ some message)
            × (length sealed ≡ length message + mac_bytes))
      → 0 < length (format.write_packet true p.max_packet_size packet)
      → length (format.write_packet true p.max_packet_size packet) ≤ p.max_packet_size
      → box.easy (format.write_packet true p.max_packet_size packet) sequence key ≡ some body
      → already_received replay sequence ≡ (false, replay')
      → (bytes : List ℕ) × (p' : PacketProcessor) × (write_packet format box p packet sequence true
            (some key)
          ≡ some (some bytes, p'))
        × (read_packet format box encrypted_packet_types unencrypted_packet_types q bytes old
              (some key)
              replay
            ≡ some (record {
              packet =
                  format.read_packet true encrypted_packet_types
                    (format.write_packet true p.max_packet_size packet);
              sequence = sequence;
              encrypted = true;
              replay_protection = replay';
              processor = set_error q (
                  read_error (
                    format.read_packet true encrypted_packet_types
                      (format.write_packet true p.max_packet_size packet)));
            }))
  read_packet-write_packet size p q packet old sequence key body replay replay' whole made room h
        opens some_bytes fit sealed_to fresh =
      let written = format.write_packet true p.max_packet_size packet in
      let (opened, longer) = opens written body sequence key sealed_to in
      (
        packet_bytes sequence body,
        set_error p packet_processor_error_none,
        write_packet_lem p packet sequence key body (new_lem size p whole made) some_bytes fit
            longer sealed_to,
        read_packet-opened q old sequence key written body replay replay' h some_bytes
              (omega (arith, fit, room)) longer opened fresh
            ∙ ap some (
                read_raw_lem written q sequence replay'
                  (format.read_packet true encrypted_packet_types written) refl),
      )

  -- A packet whose body does not open under the key, long enough and with a sequence number that replay
  -- protection has not received, is refused by `ReadPacket` with an error of decryption; but replay
  -- protection is left as if the packet had been received.
  pub read_packet-forged :
      (p : PacketProcessor) (old sequence : ℕ) (key : K) (body : List ℕ)
      (replay replay' : ReplayProtection)
      → sequence < 2 ^ 64
      → mac_bytes < length body
      → box.open_easy body sequence key ≡ none
      → packet_already_received replay sequence ≡ (false, replay')
      → read_packet format box encrypted_packet_types unencrypted_packet_types p
          (packet_bytes sequence body)
          old
          (some key)
          (some replay)
        ≡ some (record {
          packet = none;
          sequence = sequence;
          encrypted = true;
          replay_protection = some replay';
          processor = set_error p packet_processor_error_decrypt_failed;
        })
  unfolding read_packet read_encrypted decrypted decrypt already_received
  read_packet-forged p old sequence key body replay replay' h long closed fresh =
      let bytes = (compress_packet_sequence sequence).1 in
      let (_, small, _, _) = get_packet_sequence_bytes-compress sequence in
      let (number, count) = flagged-compress sequence body h in
      let enough : leb (length (bytes ++ body) + 1) (1 + length bytes + mac_bytes) ≡ false =
        ground (arith, long, length-append bytes body) in
      rw
        (
          flagged_lem (compress_packet_sequence sequence).0 small,
          count,
          enough,
          number,
          fresh,
          drop-append bytes body,
          closed,
        )
        refl

-- ===== src/PacketProcessor/Tests.antt =====
-- A packet is a list of bytes, and sealing adds sixteen bytes with the key at the end.
use libyojimbo.Prelude.{
  ℕ, ◌+◌, ◌≡◌, refl, arith, Bool, true, Option, none, some, List, [], ◌∷◌, ◌++◌, length, replicate,
  drop, ==_iff, subst, if◌then◌else◌, ◌==◌,
}
use libyojimbo.ReplayProtection.{ReplayProtection, packet_already_received}
use libyojimbo.ReplayProtection
use libyojimbo.PacketProcessor.{
  PacketProcessor, PacketFormat, SecretBox, new, write_packet, read_packet, already_received,
  packet_processor_error_none, packet_processor_error_decrypt_failed, set_error, mac_bytes,
}
use libyojimbo.PacketProcessor.Laws.{packet_bytes, read_packet-write_packet, read_packet-forged}

abbrev plain : PacketFormat (List ℕ)
plain = record {
  write_packet = λ raw size packet. packet;
  read_packet = λ raw types bytes. some bytes;
}

-- The mark of the key goes before the message.
abbrev opened : List ℕ → ℕ → ℕ → Option (List ℕ)
opened [] nonce key = none
opened (k ∷ bytes) nonce key = if k == key then some (drop 15 bytes) else none

abbrev box : SecretBox ℕ
box = record {
  easy = λ message nonce key. some (key ∷ replicate 15 0 ++ message);
  open_easy = opened;
}

box_opens :
    (message sealed : List ℕ) (nonce key : ℕ)
    → box.easy message nonce key ≡ some sealed
    → (box.open_easy sealed nonce key ≡ some message) × (length sealed ≡ length message + mac_bytes)
box_opens message sealed nonce key e =
    let same : (key ∷ replicate 15 0 ++ message) ≡ sealed = cc in
    subst
      (λ s. (box.open_easy s nonce key ≡ some message) × (length s ≡ length message + mac_bytes))
      same (rw ((==_iff key key).1 refl) refl, omega arith)

abbrev all_types : ℕ → Bool
all_types type = true

abbrev made : PacketProcessor
made = record {
  error = packet_processor_error_none;
  max_packet_size = 100;
  absolute_max_packet_size = 125;
}

read_packet-write_packet_example :
    (bytes : List ℕ) × (p' : PacketProcessor) × (write_packet plain box made
        (7 ∷ 8 ∷ [])
        1000
        true
        (some 5)
      ≡ some (some bytes, p'))
    × (read_packet plain box all_types all_types made bytes 0 (some 5) none
        ≡ some (record {
          packet = some (7 ∷ 8 ∷ []);
          sequence = 1000;
          encrypted = true;
          replay_protection = none;
          processor = made;
        }))
read_packet-write_packet_example =
    read_packet-write_packet plain box all_types all_types 100 made made (7 ∷ 8 ∷ []) 0 1000 5
      (5 ∷ replicate 15 0 ++ (7 ∷ 8 ∷ [])) none none (omega arith) (unfold new in refl)
      (omega arith) (omega arith) box_opens (omega arith) (omega arith) refl
      (unfold already_received in refl)

read_packet-forged_example :
    read_packet plain box all_types all_types made
      (packet_bytes 1000 (replicate 17 9))
      0
      (some 5)
      (some (ReplayProtection.reset 0))
    ≡ some (record {
      packet = none;
      sequence = 1000;
      encrypted = true;
      replay_protection = some ((packet_already_received (ReplayProtection.reset 0) 1000).1);
      processor = set_error made packet_processor_error_decrypt_failed;
    })
read_packet-forged_example =
    read_packet-forged plain box all_types all_types made 0 1000 5 (replicate 17 9)
      (ReplayProtection.reset 0) (packet_already_received (ReplayProtection.reset 0) 1000).1
      (omega arith) (omega arith) refl
      (unfold packet_already_received ReplayProtection.reset in refl)

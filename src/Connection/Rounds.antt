-- ===== src/Connection/Rounds.antt =====
-- One round of the loop of `ProcessAcks`.
use libyojimbo.Prelude.{
  ℕ, suc, ◌+◌, ◌*◌, ◌/◌, ◌%◌, ◌^◌, ◌≡◌, inl, inr, refl, sym, ap, ◌∙◌, arith, Bool, true, false, not,
  Option, none, some, [], ◌∷◌, ◌++◌, ◌==◌, ◌&&◌, Bool-cases, if◌then◌else◌, bit_and, map,
}
use libyojimbo.Prelude.Bits.{digit, bit_and_mask}
use libyojimbo.SequenceBuffer.{SequenceBuffer, find, exists, find_index, read, write}
use libyojimbo.SequenceBuffer.Removing.{IsValid}
use libyojimbo.SequenceBuffer.Laws.{find_lem}
use libyojimbo.SequenceBuffer.Writing.{find_index_lem, read_lem, find-write, write-IsValid}
use libyojimbo.Connection.{Connection, packet_acked, ack_entry, ack_sequence, acks_from}
use libyojimbo.Connection.Newly.{back, is_unacked, acks_new}
use native.Mathlib.Nat.{div-div-eq-div-mul, pow-suc}
use mathlib.Core.Bool.{true≢false}

-- A packet that is acked for the first time is one that the buffer holds.
acks_new-exists :
    (b : SequenceBuffer Bool) (ack ack_bits i : ℕ)
    → acks_new b ack ack_bits i ≡ true
    → exists b (back ack i) ≡ true
acks_new-exists b ack ack_bits i new = elim (Bool-cases (exists b (back ack i))) [
  | inl here ↦ here
  | inr gone ↦
      let absent : find b (back ack i) ≡ none = find_lem b (back ack i) ∙ rw gone refl in
      let old : acks_new b ack ack_bits i ≡ false = rw absent (ground arith) in
      absurd (true≢false (sym new ∙ old))
]

next_pow : (i : ℕ) → 2 ^ (i + 1) ≡ 2 ^ i * 2
next_pow i = let e : i + 1 ≡ suc i = omega arith in rw e (omega (arith, pow-suc 2 i))

module _ {C : Type 0} (process_ack : C → ℕ → C) where
  -- The connection after the first ack of a packet.
  abbrev pub acked : Connection C → ℕ → Connection C
  acked c s = record c {
    events = c.events ++ (packet_acked s ∷ []);
    channels = map (λ channel. process_ack channel s) c.channels;
    packets_acked = (c.packets_acked + 1) % 2 ^ 64;
    sent_packets = write c.sent_packets (s % c.sent_packets.size) true;
  }

  abbrev pub next : Connection C → ℕ → ℕ → ℕ → Connection C
  next c ack ack_bits i = if acks_new c.sent_packets ack ack_bits i then acked c (back ack i) else c

  ack_entry_lem :
      (c : Connection C) (s : ℕ) (entry : Option Bool)
      → ack_entry process_ack c s (s % c.sent_packets.size) entry
        ≡ (if is_unacked entry then acked c s else c)
  unfolding ack_entry
  ack_entry_lem c s none = refl
  ack_entry_lem c s (some true) = refl
  ack_entry_lem c s (some false) = refl

  ack_sequence_lem :
      (c : Connection C) (s : ℕ)
      → ack_sequence process_ack c s (find_index c.sent_packets s)
        ≡ (if is_unacked (find c.sent_packets s) then acked c s else c)
  unfolding ack_sequence
  ack_sequence_lem c s = elim (Bool-cases (exists c.sent_packets s)) [
    | inl here ↦
        rw (find_index_lem c.sent_packets s, here)
          (ack_entry_lem c s (read c.sent_packets (s % c.sent_packets.size))
            ∙ ap (λ e. if is_unacked e then acked c s else c) (read_lem c.sent_packets s here))
    | inr gone ↦ rw (find_index_lem c.sent_packets s, find_lem c.sent_packets s, gone) refl
  ]

  pub acks_from-suc :
      (left i : ℕ) (c : Connection C) (ack ack_bits : ℕ)
      → acks_from process_ack (suc left) i c ack (ack_bits / 2 ^ i)
        ≡ acks_from process_ack left (i + 1) (next c ack ack_bits i) ack (ack_bits / 2 ^ (i + 1))
  unfolding acks_from
  acks_from-suc left i c ack ack_bits =
      let half : ack_bits / 2 ^ i / 2 ≡ ack_bits / 2 ^ (i + 1) =
        div-div-eq-div-mul ack_bits (2 ^ i) 2 ∙ ap (λ n. ack_bits / n) (sym (next_pow i)) in
      elim (Bool-cases (digit ack_bits i == 1)) [
        | inl set ↦
            let tested : not (bit_and (ack_bits / 2 ^ i) 1 == 0) ≡ true =
              ground (arith, bit_and_mask 1 (ack_bits / 2 ^ i)) in
            rw (half, tested, set, ack_sequence_lem c (back ack i)) refl
        | inr unset ↦
            let tested : not (bit_and (ack_bits / 2 ^ i) 1 == 0) ≡ false =
              ground (arith, bit_and_mask 1 (ack_bits / 2 ^ i)) in
            rw (half, tested, unset) refl
      ]

  -- A lookup in what was sent, after a round.
  pub find-next :
      (c : Connection C) (ack ack_bits i t : ℕ)
      → IsValid c.sent_packets
      → find (next c ack ack_bits i).sent_packets t ≡ (
          if acks_new c.sent_packets ack ack_bits i && t == back ack i
          then some true
          else find c.sent_packets t)
  find-next c ack ack_bits i t v = elim (Bool-cases (acks_new c.sent_packets ack ack_bits i)) [
    | inl new ↦ rw new (
        find-write c.sent_packets (back ack i) t true v
          (acks_new-exists c.sent_packets ack ack_bits i new))
    | inr old ↦ rw old refl
  ]

  pub next-IsValid :
      (c : Connection C) (ack ack_bits i : ℕ)
      → IsValid c.sent_packets
      → IsValid (next c ack ack_bits i).sent_packets
  next-IsValid c ack ack_bits i v = elim (Bool-cases (acks_new c.sent_packets ack ack_bits i)) [
    | inl new ↦ rw new (write-IsValid c.sent_packets (back ack i % c.sent_packets.size) true v)
    | inr old ↦ rw old v
  ]

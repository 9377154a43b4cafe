-- ===== src/Connection/Laws.antt =====
-- What acks do to a connection, and what one side makes of the acks of the other.
use libyojimbo.Prelude.{
  ℕ, ◌+◌, ◌/◌, ◌^◌, ◌<◌, ◌≡◌, refl, sym, ap, ◌∙◌, arith, Bool, true, false, Option, none, some,
  List, All, [], ◌∷◌, ◌++◌, ◌==◌, ◌&&◌, ltb, leb, if◌then◌else◌, map,
}
use libyojimbo.Prelude.Bits.{digit}
use libyojimbo.Sequence.Order.{steps_ahead}
use libyojimbo.SequenceBuffer.{SequenceBuffer, find, exists}
use libyojimbo.SequenceBuffer.Removing.{IsValid}
use libyojimbo.Connection.{
  Connection, Event, packet_acked, packet_received, acks_from, process_acks, generate_ack_bits,
}
use libyojimbo.Connection.AckBits.{generate_ack_bits_lem, ack_of_generate_ack_bits}
use libyojimbo.Connection.Newly.{
  back, is_unacked, newly_acked, newly_acked_from, count, count-newly_from, once,
}
use libyojimbo.Connection.Acks.{all_acked, acks, hears, acks_from_lem, acks_from-find}
use native.Mathlib.Decide.{dec_lt}

from_zero : (d : ℕ) (x : Bool) → (leb 0 d && x) ≡ x
from_zero d x = ground arith

regroup : (d : ℕ) (x y z : Bool) → (leb 0 d && x && (y && z)) ≡ ((x && y) && z)
regroup d x y z = ground arith

-- Each number is at most once among those that an ack acks for the first time: where the ack acks it
-- and the buffer holds it unacked.
count-newly_acked :
    (b : SequenceBuffer Bool) (ack ack_bits t : ℕ)
    → ack < 65536
    → t < 65536
    → count t (newly_acked b ack ack_bits) ≡ once (acks ack ack_bits t && is_unacked (find b t))
count-newly_acked b ack ack_bits t ha ht =
    let d = steps_ahead ack t in
    let there : back ack d ≡ t = omega arith in
    ap (count t) (sym (newly_acked_from b ack ack_bits))
    ∙ count-newly_from 32 0 b ack ack_bits t ha ht refl
    ∙ ap once (
        ap (λ s. leb 0 d && ltb d 32 && (digit ack_bits d == 1 && is_unacked (find b s))) there
        ∙ regroup d (ltb d 32) (digit ack_bits d == 1) (is_unacked (find b t)))

-- How often the listener is told that a packet is acked.
abbrev pub is_ack_of : ℕ → Event → Bool
is_ack_of t (packet_received s) = false
is_ack_of t (packet_acked s) = s == t

abbrev pub times_acked : ℕ → List Event → ℕ
times_acked t [] = 0
times_acked t (e ∷ es) = let rest = times_acked t es in if is_ack_of t e then 1 + rest else rest

times_acked-append :
    (t : ℕ) (es : List Event) (ss : List ℕ)
    → times_acked t (es ++ map packet_acked ss) ≡ times_acked t es + count t ss
times_acked-append t [] [] = refl
times_acked-append t [] (s ∷ ss) = let rest = times_acked-append t [] ss in ground (arith, rest)
times_acked-append t (e ∷ es) ss = let rest = times_acked-append t es ss in ground (arith, rest)

-- A packet is told of as it stops being pending.
settled :
    (n : ℕ) (acked : Bool) (entry : Option Bool)
    → n
        + once (acked && is_unacked entry)
        + once (is_unacked (if acked then all_acked entry else entry))
      ≡ n + once (is_unacked entry)
settled n false entry = omega arith
settled n true none = omega arith
settled n true (some true) = omega arith
settled n true (some false) = omega arith

flag : (x : Bool) → ((if x then 1 else 0) == 1) ≡ x
flag true = refl
flag false = refl

-- The ack of a received packet, by its distance from the latest.
acks-generate_ack_bits {ℓ} :
    {A : Type ℓ} (received : SequenceBuffer A) (t : ℕ)
    → received.sequence < 65536
    → t < 65536
    → acks (generate_ack_bits received).0 (generate_ack_bits received).1 t
      ≡ (ltb (steps_ahead (generate_ack_bits received).0 t) 32 && exists received t)
acks-generate_ack_bits received t h ht =
    let ack = (generate_ack_bits received).0 in
    let d = steps_ahead ack t in
    elim (dec_lt d 32) [
      | yes near ↦
          let there : back ack d ≡ t = omega (arith, ack_of_generate_ack_bits received) in
          let bit = (generate_ack_bits_lem received d h near).1 in
          rw (bit, there) (ap (λ x. ltb d 32 && x) (flag (exists received t)))
      | no far ↦ let out : ltb d 32 ≡ false = ground arith in rw out refl
    ]

module _ {C : Type 0} (process_ack : C → ℕ → C) where
  process_acks_eq :
      (c : Connection C) (ack ack_bits : ℕ)
      → process_acks process_ack c ack ack_bits
        ≡ acks_from process_ack 32 0 c ack (ack_bits / 2 ^ 0)
  unfolding process_acks
  process_acks_eq c ack ack_bits =
      let whole : ack_bits ≡ ack_bits / 1 = omega arith in
      ap (acks_from process_ack 32 0 c ack) whole

  -- With a valid buffer of sent packets, `ProcessAcks` tells the listener of the packets that the ack
  -- acks and the buffer holds unacked, the latest first, and tells every channel the same, in the same
  -- order; the buffer of sent packets stays valid.
  pub process_acks_lem :
      (c : Connection C) (ack ack_bits : ℕ)
      → IsValid c.sent_packets
      → ((process_acks process_ack c ack ack_bits).events
          ≡ c.events ++ map packet_acked (newly_acked c.sent_packets ack ack_bits))
        × ((process_acks process_ack c ack ack_bits).channels
            ≡ map (hears process_ack (newly_acked c.sent_packets ack ack_bits)) c.channels)
        × IsValid (process_acks process_ack c ack ack_bits).sent_packets
  process_acks_lem c ack ack_bits v =
      rw (process_acks_eq c ack ack_bits, sym (newly_acked_from c.sent_packets ack ack_bits))
        (acks_from_lem process_ack 32 0 c ack ack_bits v refl)

  -- With a valid buffer of sent packets and 16-bit numbers, after `ProcessAcks` an entry that is there
  -- and that a bit of the ack acks, up to 31 before it, is acked, and every other lookup is as before.
  pub find-process_acks :
      (c : Connection C) (ack ack_bits t : ℕ)
      → IsValid c.sent_packets
      → ack < 65536
      → t < 65536
      → find (process_acks process_ack c ack ack_bits).sent_packets t
        ≡ (if acks ack ack_bits t then all_acked (find c.sent_packets t) else find c.sent_packets t)
  find-process_acks c ack ack_bits t v ha ht = rw (process_acks_eq c ack ack_bits) (
      acks_from-find process_ack 32 0 c ack ack_bits t v ha ht refl
      ∙ ap (λ x. if x then all_acked (find c.sent_packets t) else find c.sent_packets t)
          (from_zero (steps_ahead ack t) (acks ack ack_bits t)))

  -- Acks received one after another.
  abbrev pub process_all : Connection C → List (ℕ × ℕ) → Connection C
  process_all c [] = c
  process_all c ((ack, ack_bits) ∷ rest) =
      process_all (process_acks process_ack c ack ack_bits) rest

  -- Whether the next acks can tell of a number once more.
  abbrev pub pending : Connection C → ℕ → ℕ
  pending c t = once (is_unacked (find c.sent_packets t))

  process_acks-pending :
      (c : Connection C) (ack ack_bits t : ℕ)
      → IsValid c.sent_packets
      → ack < 65536
      → t < 65536
      → times_acked t (process_acks process_ack c ack ack_bits).events
          + pending (process_acks process_ack c ack ack_bits) t
        ≡ times_acked t c.events + pending c t
  process_acks-pending c ack ack_bits t v ha ht =
      rw
        (
          (process_acks_lem c ack ack_bits v).0,
          times_acked-append t c.events (newly_acked c.sent_packets ack ack_bits),
          count-newly_acked c.sent_packets ack ack_bits t ha ht,
          find-process_acks c ack ack_bits t v ha ht,
        )
        (settled (times_acked t c.events) (acks ack ack_bits t) (find c.sent_packets t))

  -- With a valid buffer of sent packets, however many 16-bit acks arrive, with any bits, while no packet
  -- is sent: the number of times that the listener has been told of a 16-bit packet number, and one
  -- more while the packet is there and unacked, stays the same.
  pub process_all_once :
      (c : Connection C) (all : List (ℕ × ℕ)) (t : ℕ)
      → IsValid c.sent_packets
      → t < 65536
      → All (λ (a : ℕ × ℕ). a.0 < 65536) all
      → times_acked t (process_all c all).events + pending (process_all c all) t
        ≡ times_acked t c.events + pending c t
  process_all_once c [] t v ht h = refl
  process_all_once c ((ack, ack_bits) ∷ rest) t v ht (ha, h) =
      process_all_once (process_acks process_ack c ack ack_bits) rest t
        ((process_acks_lem c ack ack_bits v).2) ht h
      ∙ process_acks-pending c ack ack_bits t v ha ht

  -- One side makes its ack from a buffer of received packets with a 16-bit top, and the other side, with
  -- a valid buffer of sent packets, processes it: a lookup of a 16-bit number finds an entry that is
  -- there acked, where the number is among the 32 up to the ack and the receiver holds it, and is as
  -- before elsewhere.
  pub process-generate_ack_bits {ℓ} :
      {A : Type ℓ} (received : SequenceBuffer A) (c : Connection C) (t : ℕ)
      → received.sequence < 65536
      → IsValid c.sent_packets
      → t < 65536
      → find
          (process_acks process_ack c
            (generate_ack_bits received).0
            (generate_ack_bits received).1).sent_packets
          t
        ≡ (if ltb (steps_ahead (generate_ack_bits received).0 t) 32 && exists received t
            then all_acked (find c.sent_packets t)
            else find c.sent_packets t)
  process-generate_ack_bits received c t h v ht =
      let ack_fits : (generate_ack_bits received).0 < 65536 =
        omega (arith, ack_of_generate_ack_bits received) in
      find-process_acks c (generate_ack_bits received).0 (generate_ack_bits received).1 t v ack_fits
        ht
      ∙ rw (acks-generate_ack_bits received t h ht) refl

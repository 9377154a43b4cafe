-- ===== src/Connection/Acks.antt =====
-- `ProcessAcks`, on the sent packets, the listener and the channels.
use libyojimbo.Prelude.{
  ℕ, zero, suc, ◌+◌, ◌/◌, ◌^◌, ◌<◌, ◌≡◌, inl, inr, refl, sym, ap, ◌∙◌, arith, Bool, true, false,
  Option, none, some, List, [], ◌∷◌, ◌++◌, ◌==◌, ◌&&◌, ==_iff, ltb, leb, Bool-cases, if◌then◌else◌,
  map,
}
use libyojimbo.Prelude.Bits.{digit}
use libyojimbo.Sequence.Order.{steps_ahead}
use libyojimbo.SequenceBuffer.{find}
use libyojimbo.SequenceBuffer.Removing.{IsValid}
use libyojimbo.Connection.{Connection, packet_acked, acks_from}
use libyojimbo.Connection.Newly.{back, is_unacked, acks_new, newly_from, newly_from_same}
use libyojimbo.Connection.Rounds.{acked, next, acks_from-suc, find-next, next-IsValid}
use native.Mathlib.Decide.{ℕ_discrete}
use mathlib.Core.List.{append_assoc, append-nil, map-map, map-id}

-- An entry that is there is acked.
abbrev pub all_acked : Option Bool → Option Bool
all_acked none = none
all_acked (some acked) = some true

-- Whether an ack acks a number.
abbrev pub acks : ℕ → ℕ → ℕ → Bool
acks ack ack_bits t = ltb (steps_ahead ack t) 32 && digit ack_bits (steps_ahead ack t) == 1

apart : (ack i j : ℕ) → i < j → j < 32 → (back ack j == back ack i) ≡ false
apart ack i j lo hi = ground arith

and-false : (x : Bool) {y : Bool} → y ≡ false → (x && y) ≡ false
and-false x {y} e = ground arith

-- A round at a number: a first ack leaves an entry as any ack does.
round_at :
    (set : Bool) (x : Option Bool)
    → (if (set && is_unacked x) && true then some true else x) ≡ (if set then all_acked x else x)
round_at false x = refl
round_at true none = refl
round_at true (some true) = refl
round_at true (some false) = refl

acks_now : (d i : ℕ) (set : ℕ → Bool) → d ≡ i → i < 32 → (leb i d && (ltb d 32 && set d)) ≡ set i
acks_now d i set e lt = ground (arith, ap set e)

module _ {C : Type 0} (process_ack : C → ℕ → C) where
  -- A channel that hears of acks one after another.
  abbrev pub hears : List ℕ → C → C
  hears [] channel = channel
  hears (s ∷ ss) channel = hears ss (process_ack channel s)

  newly-next :
      (left : ℕ) (c : Connection C) (ack ack_bits i : ℕ)
      → IsValid c.sent_packets
      → i + suc left ≡ 32
      → newly_from left (i + 1) (next process_ack c ack ack_bits i).sent_packets ack ack_bits
        ≡ newly_from left (i + 1) c.sent_packets ack ack_bits
  newly-next left c ack ack_bits i v e =
      newly_from_same left (i + 1) (next process_ack c ack ack_bits i).sent_packets c.sent_packets
        ack ack_bits
        (λ j lo hi.
          let other : (back ack j == back ack i) ≡ false =
            apart ack i j (omega arith) (omega arith) in
          let kept : (acks_new c.sent_packets ack ack_bits i && back ack j == back ack i) ≡ false =
            and-false (acks_new c.sent_packets ack ack_bits i) other in
          find-next process_ack c ack ack_bits i (back ack j) v ∙ rw kept refl)

  events-next :
      (c : Connection C) (ack ack_bits i : ℕ) (rest : List ℕ)
      → (next process_ack c ack ack_bits i).events ++ map packet_acked rest
        ≡ c.events
          ++ map packet_acked
              (if acks_new c.sent_packets ack ack_bits i then back ack i ∷ rest else rest)
  events-next c ack ack_bits i rest = elim (Bool-cases (acks_new c.sent_packets ack ack_bits i)) [
    | inl new ↦
        rw new (append_assoc c.events (packet_acked (back ack i) ∷ []) (map packet_acked rest))
    | inr old ↦ rw old refl
  ]

  channels-next :
      (c : Connection C) (ack ack_bits i : ℕ) (rest : List ℕ)
      → map (hears rest) (next process_ack c ack ack_bits i).channels
        ≡ map
            (hears (if acks_new c.sent_packets ack ack_bits i then back ack i ∷ rest else rest))
            c.channels
  channels-next c ack ack_bits i rest = elim (Bool-cases (acks_new c.sent_packets ack ack_bits i)) [
    | inl new ↦
        rw new (map-map (hears rest) (λ channel. process_ack channel (back ack i)) c.channels)
    | inr old ↦ rw old refl
  ]

  pub acks_from_lem :
      (left i : ℕ) (c : Connection C) (ack ack_bits : ℕ)
      → IsValid c.sent_packets
      → i + left ≡ 32
      → ((acks_from process_ack left i c ack (ack_bits / 2 ^ i)).events
          ≡ c.events ++ map packet_acked (newly_from left i c.sent_packets ack ack_bits))
        × ((acks_from process_ack left i c ack (ack_bits / 2 ^ i)).channels
            ≡ map (hears (newly_from left i c.sent_packets ack ack_bits)) c.channels)
        × IsValid (acks_from process_ack left i c ack (ack_bits / 2 ^ i)).sent_packets
  unfolding newly_from
  acks_from_lem zero i c ack ack_bits v e =
      unfold acks_from in (sym (append-nil c.events), sym (map-id c.channels), v)
  acks_from_lem (suc left) i c ack ack_bits v e =
      let c' = next process_ack c ack ack_bits i in
      let (told, heard, valid) =
        acks_from_lem left (i + 1) c' ack ack_bits (next-IsValid process_ack c ack ack_bits i v)
          (omega arith) in
      let rest = newly_from left (i + 1) c.sent_packets ack ack_bits in
      let same = newly-next left c ack ack_bits i v e in
      rw (acks_from-suc process_ack left i c ack ack_bits) (
        told ∙ ap (λ ss. c'.events ++ map packet_acked ss) same ∙ events-next c ack ack_bits i rest,
        heard ∙ ap (λ ss. map (hears ss) c'.channels) same ∙ channels-next c ack ack_bits i rest,
        valid,
      )

  pub acks_from-find :
      (left i : ℕ) (c : Connection C) (ack ack_bits t : ℕ)
      → IsValid c.sent_packets
      → ack < 65536
      → t < 65536
      → i + left ≡ 32
      → find (acks_from process_ack left i c ack (ack_bits / 2 ^ i)).sent_packets t ≡ (
          if leb i (steps_ahead ack t) && acks ack ack_bits t
          then all_acked (find c.sent_packets t)
          else find c.sent_packets t)
  acks_from-find zero i c ack ack_bits t v ha ht e =
      let out : (leb i (steps_ahead ack t) && acks ack ack_bits t) ≡ false = ground arith in
      unfold acks_from in rw out refl
  acks_from-find (suc left) i c ack ack_bits t v ha ht e =
      let c' = next process_ack c ack ack_bits i in
      let rest =
        acks_from-find left (i + 1) c' ack ack_bits t (next-IsValid process_ack c ack ack_bits i v)
          ha ht (omega arith) in
      let round = find-next process_ack c ack ack_bits i t v in
      rw (acks_from-suc process_ack left i c ack ack_bits) (
        rest ∙ elim (ℕ_discrete (steps_ahead ack t) i) [
          | yes at ↦
              let past : (leb (i + 1) (steps_ahead ack t) && acks ack ack_bits t) ≡ false =
                ground arith in
              let here : t ≡ back ack i = omega arith in
              let same : (t == back ack i) ≡ true = (==_iff t (back ack i)).1 here in
              let now : (leb i (steps_ahead ack t) && acks ack ack_bits t)
                  ≡ (digit ack_bits i == 1) =
                acks_now (steps_ahead ack t) i (λ k. digit ack_bits k == 1) at (omega arith) in
              rw (past, now, round, same, ap (find c.sent_packets) (sym here))
                (round_at (digit ack_bits i == 1) (find c.sent_packets t))
          | no away ↦
              let other : (t == back ack i) ≡ false = ground arith in
              let kept : (acks_new c.sent_packets ack ack_bits i && t == back ack i) ≡ false =
                and-false (acks_new c.sent_packets ack ack_bits i) other in
              let later : leb (i + 1) (steps_ahead ack t) ≡ leb i (steps_ahead ack t) =
                ground arith in
              rw (round, kept, later) refl
        ])

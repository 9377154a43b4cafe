-- ===== src/ReliableOrderedChannel/Packets/Acks.antt =====
-- `ProcessAck` for a packet of messages.
use libyojimbo.Prelude.{
  ℕ, ◌≤◌, ◌<◌, ◌≡◌, inl, inr, refl, sym, ap, ◌∙◌, subst, arith, Bool, true, false, ◌||◌, Option,
  none, some, List, [], ◌∷◌, ◌++◌, ◌==◌, ==_iff, Bool-cases, Option-cases, All, if◌then◌else◌,
}
use libyojimbo.Sequence.Order.{steps_ahead}
use libyojimbo.SequenceBuffer.{SequenceBuffer, find, remove}
use libyojimbo.SequenceBuffer.Lifecycle.{remove-IsValid}
use libyojimbo.SequenceBuffer.Appending.{find-removed, find-exists}
use libyojimbo.ReliableOrderedChannel.{
  ReliableOrderedChannel, MessageSendQueueEntry, SentPacketEntry,
}
use libyojimbo.ReliableOrderedChannel.SendQueue.Oldest.{
  IsOldest, update_oldest_unacked_message_id_lem,
}
use libyojimbo.ReliableOrderedChannel.SendQueue.Laws.{IsSending}
use libyojimbo.ReliableOrderedChannel.Packets.{
  ack_message, ack_messages, ack_packet, ack_block, process_ack,
}

-- Whether an id is in a list.
abbrev pub includes : List ℕ → ℕ → Bool
includes [] t = false
includes (id ∷ ids) t = (t == id) || includes ids t

-- How a channel is left when messages are acked: only the send queue, the oldest unacked id and the
-- released messages change; the acked ids are no longer found, every other one as before.
pub record Acked {P T : Type 0} (c : ReliableOrderedChannel P T) (ids : List ℕ)
    (c' : ReliableOrderedChannel P T) : Type 0 where
  pub sending : IsSending c'.message_send_queue c'.oldest_unacked_message_id
  pub top : c'.message_send_queue.sequence ≡ c.message_send_queue.sequence
  pub forward :
      steps_ahead c.message_send_queue.sequence c'.oldest_unacked_message_id
      ≤ steps_ahead c.message_send_queue.sequence c.oldest_unacked_message_id
  pub others : c' ≡ record c {
    message_send_queue = c'.message_send_queue;
    oldest_unacked_message_id = c'.oldest_unacked_message_id;
    released = c'.released;
  }
  pub found :
      (t : ℕ)
      → t < 65536
      → find c'.message_send_queue t
        ≡ (if includes ids t then none else find c.message_send_queue t)

none_either : {A : Type 0} (p : Bool) → ◌≡◌ {A = Option A} (if p then none else none) none
none_either true = refl
none_either false = refl

module _ {P T : Type 0} where
  removed-between :
      (queue : SequenceBuffer (MessageSendQueueEntry P T)) (oldest id found t : ℕ)
      (x e : MessageSendQueueEntry P T)
      → IsSending queue oldest
      → id < 65536
      → find queue id ≡ some x
      → IsOldest (remove queue id) queue.sequence oldest found
      → t < 65536
      → find (remove queue id) t ≡ some e
      → (0 < steps_ahead queue.sequence t)
        × (steps_ahead queue.sequence t ≤ steps_ahead queue.sequence found)
        × (e.message.id ≡ t)
  removed-between queue oldest id found t x e v hid there o ht here =
      let at = find-removed queue id t v.valid hid ht (find-exists queue id x there) in
      elim (Bool-cases (t == id)) [
        | inl same ↦ let p : none ≡ some e = sym (at ∙ rw same refl) ∙ here in cc
        | inr other ↦
            let before : find queue t ≡ some e = sym (at ∙ rw other refl) ∙ here in
            let (ahead, at_most, named) = v.between t e ht before in
            let reached : ¬ (steps_ahead t oldest < steps_ahead found oldest) =
              λ lt. (let p : none ≡ some e = sym (o.passed t ht lt) ∙ here in cc) in
            (
              ahead,
              omega (arith, at_most, reached, o.ahead, o.fits, v.oldest_fits, v.valid.top_fits),
              named,
            )
      ]

  remove-IsSending :
      (queue : SequenceBuffer (MessageSendQueueEntry P T)) (oldest id found : ℕ)
      (x : MessageSendQueueEntry P T)
      → IsSending queue oldest
      → id < 65536
      → find queue id ≡ some x
      → IsOldest (remove queue id) queue.sequence oldest found
      → IsSending (remove queue id) found
  unfolding remove
  remove-IsSending queue oldest id found x v hid there o =
      let (valid, _) = remove-IsValid queue id v.valid in
      record {
        valid = valid;
        several = v.several;
        small = v.small;
        oldest_fits = o.fits;
        behind = omega (arith, o.ahead, v.behind);
        held = o.held;
        between = λ t e ht here. removed-between queue oldest id found t x e v hid there o ht here;
      }

  ack_message_lem :
      (c : ReliableOrderedChannel P T) (id : ℕ) (x : MessageSendQueueEntry P T)
      → IsSending c.message_send_queue c.oldest_unacked_message_id
      → id < 65536
      → find c.message_send_queue id ≡ some x
      → (c' : ReliableOrderedChannel P T) × (ack_message c id (some x) ≡ some c')
        × Acked c (id ∷ []) c'
  unfolding ack_message remove
  ack_message_lem c id x v hid there =
      let queue = c.message_send_queue in
      let (ahead, at_most, named) = v.between id x hid there in
      let removed : ReliableOrderedChannel P T = record c {
        released = c.released ++ (x.message ∷ []);
        message_send_queue = remove queue id;
      } in
      let (found, done, o) =
        update_oldest_unacked_message_id_lem removed v.oldest_fits v.valid.top_fits
          (omega (arith, v.behind, v.small)) in
      let now : (x.message.id == id) ≡ true = (==_iff x.message.id id).1 named in
      (
        record removed { oldest_unacked_message_id = found },
        rw now done,
        record {
          sending = remove-IsSending queue c.oldest_unacked_message_id id found x v hid there o;
          top = refl;
          forward = omega (arith, o.ahead);
          others = refl;
          found = λ t ht.
              find-removed queue id t v.valid hid ht (find-exists queue id x there)
              ∙ ap (λ p. if p then none else find queue t) (or_false (t == id));
        },
      )
    where
      or_false : (p : Bool) → p ≡ (p || false)
      or_false true = refl
      or_false false = refl

  nothing-Acked :
      (c : ReliableOrderedChannel P T)
      → IsSending c.message_send_queue c.oldest_unacked_message_id
      → Acked c [] c
  nothing-Acked c v = record {
    sending = v;
    top = refl;
    forward = omega arith;
    others = refl;
    found = λ t ht. refl;
  }

  -- An id that is not found adds nothing.
  absent-Acked :
      (c c' : ReliableOrderedChannel P T) (id : ℕ) (ids : List ℕ)
      → find c.message_send_queue id ≡ none
      → Acked c ids c'
      → Acked c (id ∷ ids) c'
  absent-Acked c c' id ids gone a = record {
    sending = a.sending;
    top = a.top;
    forward = a.forward;
    others = a.others;
    found = λ t ht. a.found t ht ∙ elim (Bool-cases (t == id)) [
      | inl same ↦
          let here : find c.message_send_queue t ≡ none =
            ap (find c.message_send_queue) ((==_iff t id).0 same) ∙ gone in
          rw (same, here) (none_either (includes ids t))
      | inr other ↦ rw other refl
    ];
  }

  then-Acked :
      (c c' c'' : ReliableOrderedChannel P T) (id : ℕ) (ids : List ℕ)
      → Acked c (id ∷ []) c'
      → Acked c' ids c''
      → Acked c (id ∷ ids) c''
  then-Acked c c' c'' id ids a b = record {
    sending = b.sending;
    top = b.top ∙ a.top;
    forward =
        let second =
          subst
            (λ n.
              steps_ahead n c''.oldest_unacked_message_id
              ≤ steps_ahead n c'.oldest_unacked_message_id)
            a.top b.forward in
        omega (arith, second, a.forward);
    others =
        b.others
        ∙ ap
            (λ (x : ReliableOrderedChannel P T). record x {
              message_send_queue = c''.message_send_queue;
              oldest_unacked_message_id = c''.oldest_unacked_message_id;
              released = c''.released;
            })
            a.others;
    found = λ t ht. b.found t ht ∙ elim (Bool-cases (t == id)) [
      | inl same ↦ rw (a.found t ht, same) (none_either (includes ids t))
      | inr other ↦ rw (a.found t ht, other) refl
    ];
  }

  pub ack_messages_lem :
      (c : ReliableOrderedChannel P T) (ids : List ℕ)
      → IsSending c.message_send_queue c.oldest_unacked_message_id
      → All (λ id. id < 65536) ids
      → (c' : ReliableOrderedChannel P T) × (ack_messages c ids ≡ some c') × Acked c ids c'
  unfolding ack_messages
  ack_messages_lem c [] v h = (c, refl, nothing-Acked c v)
  ack_messages_lem c (id ∷ ids) v (hid, hids) = elim (Option-cases (find c.message_send_queue id)) [
    | inl gone ↦
        let (c', done, a) = ack_messages_lem c ids v hids in
        (c', rw gone (unfold ack_message in done), absent-Acked c c' id ids gone a)
    | inr (x, here) ↦
        let (c', first, a) = ack_message_lem c id x v hid here in
        let (c'', rest, b) = ack_messages_lem c' ids a.sending hids in
        (c'', rw (here, first) rest, then-Acked c c' c'' id ids a b)
  ]

  -- For a channel whose send queue keeps to the ids between the oldest unacked and the next one,
  -- `ProcessAck` of a packet that held messages with 16-bit ids and is not marked as acked fails no
  -- assertion and its loops end. The messages of the packet are no longer found in the send queue, and
  -- every other message is as before; the queue keeps to its ids, and the oldest unacked id moves forward,
  -- if at all; nothing else changes but the messages released.
  pub process_ack_lem :
      (c : ReliableOrderedChannel P T) (ack : ℕ) (packet : SentPacketEntry T)
      → IsSending c.message_send_queue c.oldest_unacked_message_id
      → find c.sent_packets ack ≡ some packet
      → packet.acked ≡ false
      → packet.block ≡ none
      → All (λ id. id < 65536) packet.message_ids
      → (c' : ReliableOrderedChannel P T) × (process_ack c ack ≡ some c')
        × Acked c packet.message_ids c'
  unfolding process_ack ack_packet ack_block
  process_ack_lem c ack packet v sent fresh no_block fit =
      let (c', done, a) = ack_messages_lem c packet.message_ids v fit in
      (c', rw (sent, fresh, done, no_block) refl, a)

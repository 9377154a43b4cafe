-- ===== src/ReliableOrderedChannel/ReceiveQueue/Messages.antt =====
-- `ProcessPacketMessages` and `ReceiveMsg` on a channel whose receive queue is in order.
use libyojimbo.Prelude.{
  ℕ, ◌+◌, ◌%◌, ◌^◌, ◌≤◌, ◌<◌, ◌≡◌, ◌≢◌, ◌⊎◌, inl, inr, refl, sym, ap, ap₂, ◌∙◌, arith, true, false,
  none, some, List, [], ◌∷◌, ◌++◌, ◌==◌, ==_iff, All, Bool-cases, Option-cases, ◌>>=◌,
}
use libyojimbo.Message.{Message}
use libyojimbo.Sequence.{sequence_greater_than, sequence_less_than}
use libyojimbo.Sequence.Order.{steps_ahead}
use libyojimbo.SequenceBuffer.{SequenceBuffer, find, exists, put, remove}
use libyojimbo.SequenceBuffer.Appending.{find-exists}
use libyojimbo.ReliableOrderedChannel.{
  ReliableOrderedChannel, ChannelConfig, is_error, Round, continue, stop, go_on,
  channel_error_desync,
}
use libyojimbo.ReliableOrderedChannel.ReceiveQueue.{
  process_message, process_messages, process_packet_messages, receive_msg, receive_found,
}
use mathlib.Core.Bool.{true≢false}
use libyojimbo.ReliableOrderedChannel.ReceiveQueue.Laws.{
  IsReceiving, accepted, put-sequence, find-put-early, put-IsReceiving, find-delivered,
  found_before, deliver-IsReceiving,
}

-- An id that is neither before the next one nor past the window is in it.
in_reach :
    (size next id : ℕ)
    → 2 ≤ size
    → size ≤ 16384
    → next < 65536
    → id < 65536
    → sequence_less_than id next ≡ false
    → sequence_greater_than id ((next + size + 65535) % 65536) ≡ false
    → steps_ahead id next < size
unfolding sequence_greater_than sequence_less_than
in_reach size next id two small hn hi before past = ground arith

-- A channel whose receive queue is in order, and whose messages are those of a stream.
pub record IsDelivering {P T : Type 0} (stream : ℕ → Message P) (c : ReliableOrderedChannel P T)
    : Type 0 where
  pub receiving : IsReceiving c.message_receive_queue c.receive_message_id
  pub sized : c.config.receive_queue_size ≡ c.message_receive_queue.size
  pub from :
      (t : ℕ) (m : Message P) → t < 65536 → find c.message_receive_queue t ≡ some m → m ≡ stream t

-- What the messages of a packet leave: the channel is still in order, the next id is the same, and no
-- message that was found is lost.
pub record Received {P T : Type 0} (stream : ℕ → Message P) (c c' : ReliableOrderedChannel P T)
    : Type 0 where
  pub delivering : IsDelivering stream c'
  pub next : c'.receive_message_id ≡ c.receive_message_id
  pub config : c'.config ≡ c.config
  pub kept :
      (t : ℕ) (m : Message P)
      → t < 65536
      → find c.message_receive_queue t ≡ some m
      → find c'.message_receive_queue t ≡ some m

-- A message of the stream, with a 16-bit id.
abbrev pub Genuine : {P : Type 0} → (ℕ → Message P) → Message P → Type 0
Genuine stream m = (m.id < 65536) × (m ≡ stream m.id)

module _ {P T : Type 0} (stream : ℕ → Message P) where
  abbrev result : Round (ReliableOrderedChannel P T) → ReliableOrderedChannel P T
  result (continue c) = c
  result (stop c) = c

  same-Received : (c : ReliableOrderedChannel P T) → IsDelivering stream c → Received stream c c
  same-Received c v = record {
    delivering = v;
    next = refl;
    config = refl;
    kept = λ t m ht found. found;
  }

  pub store-Received :
      (c : ReliableOrderedChannel P T) (queue : SequenceBuffer (Message P)) (m : Message P)
      → IsDelivering stream c
      → m.id < 65536
      → m ≡ stream m.id
      → steps_ahead m.id c.receive_message_id < c.message_receive_queue.size
      → exists c.message_receive_queue m.id ≡ false
      → put c.message_receive_queue m.id m ≡ some queue
      → Received stream c
          (record c { message_receive_queue = queue; retained = c.retained ++ (m ∷ []) })
  store-Received c queue m v hm true_to h fresh done =
      let (size, _) = put-sequence c.message_receive_queue queue m.id m done in
      let at = λ (t : ℕ) (ht : t < 65536).
        find-put-early c.message_receive_queue queue c.receive_message_id t m v.receiving hm h done
          ht in
      record {
        delivering = record {
          receiving =
              put-IsReceiving c.message_receive_queue queue c.receive_message_id m v.receiving hm h
                done;
          sized = v.sized ∙ sym size;
          from = λ t x ht found. elim (Bool-cases (t == m.id)) [
            | inl same ↦
                let p : some m ≡ some x = sym (at t ht ∙ rw same refl) ∙ found in
                let e : m ≡ x = cc in sym e ∙ true_to ∙ ap stream (sym ((==_iff t m.id).0 same))
            | inr other ↦ v.from t x ht (sym (at t ht ∙ rw other refl) ∙ found)
          ];
        };
        next = refl;
        config = refl;
        kept = λ t x ht found. elim (Bool-cases (t == m.id)) [
          | inl same ↦
              let here : exists c.message_receive_queue m.id ≡ true =
                ap (exists c.message_receive_queue) (sym ((==_iff t m.id).0 same))
                ∙ find-exists c.message_receive_queue t x found in
              absurd (true≢false (sym here ∙ fresh))
          | inr other ↦ at t ht ∙ rw other found
        ];
      }

  process_message_lem :
      (c : ReliableOrderedChannel P T) (m : Message P)
      → IsDelivering stream c
      → m.id < 65536
      → m ≡ stream m.id
      → (r : Round (ReliableOrderedChannel P T)) × (process_message c.receive_message_id
            ((c.receive_message_id + c.config.receive_queue_size + 65535) % 65536)
            c
            m
          ≡ some r)
        × Received stream c (result r)
  unfolding process_message
  process_message_lem c m v hm true_to =
      elim (Bool-cases (sequence_less_than m.id c.receive_message_id)) [
        | inl before ↦ (continue c, rw before refl, same-Received c v)
        | inr near ↦
            elim (Bool-cases (
              sequence_greater_than m.id
                ((c.receive_message_id + c.config.receive_queue_size + 65535) % 65536))) [
                  | inl past ↦ (
                    stop (record c { error = channel_error_desync }),
                    rw (near, past) refl,
                    record {
                      delivering = record {
                        receiving = v.receiving;
                        sized = v.sized;
                        from = v.from;
                      };
                      next = refl;
                      config = refl;
                      kept = λ t x ht found. found;
                    },
                  )
                  | inr within ↦ elim (Bool-cases (exists c.message_receive_queue m.id)) [
                    | inl here ↦ (continue c, rw (near, within, here) refl, same-Received c v)
                    | inr fresh ↦
                        let w = v.receiving in
                        let reach =
                          in_reach c.message_receive_queue.size c.receive_message_id m.id w.several
                            w.small w.next_fits hm near
                            (ap
                                (λ n.
                                  sequence_greater_than m.id
                                    ((c.receive_message_id + n + 65535) % 65536))
                                (sym v.sized)
                              ∙ within) in
                        let (queue, done) =
                          accepted c.message_receive_queue c.receive_message_id m w hm reach in
                        (
                          continue (record c {
                            message_receive_queue = queue;
                            retained = c.retained ++ (m ∷ []);
                          }),
                          rw (near, within, fresh, done) refl,
                          store-Received c queue m v hm true_to reach fresh done,
                        )
                  ]
                ]
      ]

  then-Received :
      (c c' c'' : ReliableOrderedChannel P T)
      → Received stream c c'
      → Received stream c' c''
      → Received stream c c''
  then-Received c c' c'' a b = record {
    delivering = b.delivering;
    next = b.next ∙ a.next;
    config = b.config ∙ a.config;
    kept = λ t m ht found. b.kept t m ht (a.kept t m ht found);
  }

  process_messages_lem :
      (c : ReliableOrderedChannel P T) (lo hi : ℕ) (ms : List (Message P))
      → IsDelivering stream c
      → lo ≡ c.receive_message_id
      → hi ≡ (c.receive_message_id + c.config.receive_queue_size + 65535) % 65536
      → All (Genuine stream) ms
      → (c' : ReliableOrderedChannel P T) × (process_messages lo hi c ms ≡ some c')
        × Received stream c c'
  unfolding process_messages
  process_messages_lem c lo hi [] v el eh h = (c, refl, same-Received c v)
  process_messages_lem c lo hi (m ∷ ms) v el eh ((hm, true_to), hs) =
      let (r, first, a) = process_message_lem c m v hm true_to in
      let first' : process_message lo hi c m ≡ some r =
        ap₂ (λ x y. process_message x y c m) el eh ∙ first in
      let bound = λ (c' : ReliableOrderedChannel P T) (b : Received stream c c').
        eh
        ∙ ap₂ (λ n k. (n + k + 65535) % 65536) (sym b.next)
            (ap (λ (config : ChannelConfig T). config.receive_queue_size) (sym b.config)) in
      elim r
          as (λ r.
            process_message lo hi c m ≡ some r
            → Received stream c (result r)
            → (c' : ReliableOrderedChannel P T) × ((process_message lo hi c m >>= λ r.
                  go_on r (λ c'. process_messages lo hi c' ms))
                ≡ some c')
              × Received stream c c') [
                | stop c' ↦ λ first a. (c', rw first refl, a)
                | continue c' ↦ λ first a.
                    let (c'', more, b) =
                      process_messages_lem c' lo hi ms a.delivering (el ∙ sym a.next) (bound c' a)
                        hs in
                    (c'', rw first more, then-Received c c' c'' a b)
              ]
        first' a

  -- On a channel whose receive queue is in order and holds messages of a stream, `ProcessPacketMessages`
  -- of messages of the stream with 16-bit ids always returns: no `Insert` gives NULL. The queue is still
  -- in order and still holds messages of the stream, none that it held is lost, and the next id to
  -- deliver is the same.
  pub process_packet_messages_lem :
      (c : ReliableOrderedChannel P T) (ms : List (Message P))
      → IsDelivering stream c
      → All (Genuine stream) ms
      → (c' : ReliableOrderedChannel P T) × (process_packet_messages c ms ≡ some c')
        × Received stream c c'
  unfolding process_packet_messages
  process_packet_messages_lem c ms v h =
      process_messages_lem c c.receive_message_id
        ((c.receive_message_id + c.config.receive_queue_size + 65535) % 65536) ms v refl refl h

  -- `ReceiveMsg` on a channel without an error whose receive queue is in order and holds messages of a
  -- stream gives the message of the next id, if it is there, removes it and moves on to the id after it;
  -- otherwise it gives none and changes nothing. The channel stays in order.
  pub receive_msg_lem :
      (c : ReliableOrderedChannel P T)
      → IsDelivering stream c
      → is_error c.error ≡ false
      → ((find c.message_receive_queue c.receive_message_id ≡ none)
          × (receive_msg c ≡ some (none, c)))
        ⊎ ((c' : ReliableOrderedChannel P T) × (receive_msg c
              ≡ some (some (stream c.receive_message_id), c'))
            × (find c.message_receive_queue c.receive_message_id
                ≡ some (stream c.receive_message_id))
            × (c'.receive_message_id ≡ (c.receive_message_id + 1) % 65536)
            × (c'.error ≡ c.error)
            × IsDelivering stream c'
            × ((t : ℕ)
                → t < 65536
                → t ≢ c.receive_message_id
                → find c'.message_receive_queue t ≡ find c.message_receive_queue t))
  unfolding receive_msg receive_found remove
  receive_msg_lem c v ok = elim (Option-cases (find c.message_receive_queue c.receive_message_id)) [
    | inl gone ↦ inl (gone, rw (ok, gone) refl)
    | inr (m, here) ↦
        let w = v.receiving in
        let (lt, id) = w.early c.receive_message_id m w.next_fits here in
        let named : (m.id == c.receive_message_id) ≡ true = (==_iff _ _).1 id in
        let e = v.from c.receive_message_id m w.next_fits here in
        let c' : ReliableOrderedChannel P T = record c {
          message_receive_queue = remove c.message_receive_queue c.receive_message_id;
          messages_received = (c.messages_received + 1) % 2 ^ 64;
          receive_message_id = (c.receive_message_id + 1) % 65536;
        } in
        inr (
          c',
          rw (ok, here, named) (ap (λ x. some (some x, c')) e),
          here ∙ ap some e,
          refl,
          refl,
          record {
            receiving = deliver-IsReceiving c.message_receive_queue c.receive_message_id m w here;
            sized = v.sized;
            from = λ t x ht found.
                let (_, before) =
                  found_before c.message_receive_queue c.receive_message_id t m x w here ht found in
                v.from t x ht before;
          },
          λ t ht ne.
              let other : (t == c.receive_message_id) ≡ false = ground arith in
              find-delivered c.message_receive_queue c.receive_message_id t m w here ht
              ∙ rw other refl,
        )
  ]

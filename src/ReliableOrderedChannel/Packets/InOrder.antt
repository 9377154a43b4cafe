-- ===== src/ReliableOrderedChannel/Packets/InOrder.antt =====
-- The receiving side over time: packets of messages come, none with a fragment of a block, and the user takes messages out.
use libyojimbo.Prelude.{
  ℕ, zero, suc, ◌+◌, ◌%◌, ◌≤◌, ◌<◌, ◌≡◌, inl, inr, refl, sym, ap, ◌∙◌, arith, Bool, false, Option,
  none, some, List, [], ◌∷◌, ◌++◌, map, length, All, replicate, Bool-cases, ◌>>=◌,
}
use libyojimbo.Message.{Message}
use libyojimbo.SequenceBuffer.{find}
use libyojimbo.ReliableOrderedChannel.{
  ReliableOrderedChannel, ChannelError, channel_error_failed_to_serialize, is_error, message_data,
  message_list,
}
use libyojimbo.ReliableOrderedChannel.ReceiveQueue.{receive_msg}
use libyojimbo.ReliableOrderedChannel.ReceiveQueue.Messages.{
  IsDelivering, Genuine, process_packet_messages_lem, receive_msg_lem,
}
use libyojimbo.ReliableOrderedChannel.Packets.{process_packet_data, process_payload}

-- What happens on the receiving side: a packet with messages, or one that failed to serialize, comes, or
-- the user calls `ReceiveMsg`.
pub data Event (P : Type 0) : Type 0 where
  arrive : Bool → List (Message P) → Event P
  deliver : Event P

module _ {P T : Type 0} where
  -- The messages that the user is given, and the channel after the events.
  pub run :
      ReliableOrderedChannel P T
      → List (Event P)
      → Option (List (Message P) × ReliableOrderedChannel P T)
  run c [] = some ([], c)
  run c (arrive failed messages ∷ events) =
      process_packet_data c (record {
        channel_id = c.channel_id;
        message_failed_to_serialize = failed;
        data_ = message_data messages;
      })
      >>= λ c'. run c' events
  run c (deliver ∷ events) = receive_msg c >>= λ (message, c').
      run c' events >>= λ (messages, c''). some (message_list message ++ messages, c'')

-- Consecutive 16-bit ids.
abbrev pub ids_from : ℕ → ℕ → List ℕ
ids_from next zero = []
ids_from next (suc n) = next ∷ ids_from ((next + 1) % 65536) n

-- The messages of the packets are messages of the stream.
abbrev pub AllGenuine : {P : Type 0} → (ℕ → Message P) → List (Event P) → Type 0
AllGenuine stream [] = Unit {0}
AllGenuine stream (arrive failed messages ∷ events) =
    All (Genuine stream) messages × AllGenuine stream events
AllGenuine stream (deliver ∷ events) = AllGenuine stream events

after : (next n : ℕ) → ((next + 1) % 65536 + n) % 65536 ≡ (next + suc n) % 65536
after next n = omega arith

module _ {P T : Type 0} (stream : ℕ → Message P) where
  -- What a run gives: consecutive messages of the stream.
  pub record InOrder (c : ReliableOrderedChannel P T) (messages : List (Message P))
      (c' : ReliableOrderedChannel P T) : Type 0 where
    pub consecutive : messages ≡ map stream (ids_from c.receive_message_id (length messages))
    pub next : c'.receive_message_id ≡ (c.receive_message_id + length messages) % 65536
    pub delivering : IsDelivering stream c'

  error-IsDelivering :
      (c : ReliableOrderedChannel P T) (error : ChannelError)
      → IsDelivering stream c
      → IsDelivering stream (record c { error = error })
  error-IsDelivering c error v = record { receiving = v.receiving; sized = v.sized; from = v.from }

  arrive_lem :
      (c : ReliableOrderedChannel P T) (failed : Bool) (messages : List (Message P))
      → IsDelivering stream c
      → All (Genuine stream) messages
      → (c' : ReliableOrderedChannel P T) × (process_packet_data c (record {
        channel_id = c.channel_id;
        message_failed_to_serialize = failed;
        data_ = message_data messages;
      })
          ≡ some c')
        × (c'.receive_message_id ≡ c.receive_message_id)
        × IsDelivering stream c'
  unfolding process_packet_data process_payload
  arrive_lem c failed messages v h = elim (Bool-cases (is_error c.error)) [
    | inl bad ↦ (c, rw bad refl, refl, v)
    | inr ok ↦ elim (Bool-cases failed) [
      | inl yes_failed ↦ (
        record c { error = channel_error_failed_to_serialize },
        rw (ok, yes_failed) refl,
        refl,
        error-IsDelivering c channel_error_failed_to_serialize v,
      )
      | inr no_failed ↦
          let (c', done, r) = process_packet_messages_lem stream c messages v h in
          (c', rw (ok, no_failed) done, r.next, r.delivering)
    ]
  ]

  -- Take a channel to which only packets of messages come, none with a fragment of a block. Where its
  -- receive queue is in order and holds messages of a stream, and every message of every packet is the
  -- stream's message of its own 16-bit id, no run of these packets, lost or repeated or out of order, and of
  -- calls of `ReceiveMsg` fails an assertion. The messages that the user is given
  -- are the stream's messages of consecutive ids, from the next id of the channel on, each once, and the
  -- next id moves on by as many.
  pub run-InOrder :
      (c : ReliableOrderedChannel P T) (events : List (Event P))
      → IsDelivering stream c
      → AllGenuine stream events
      → (messages : List (Message P)) × (c' : ReliableOrderedChannel P T) × (run c events
          ≡ some (messages, c'))
        × InOrder c messages c'
  unfolding run
  run-InOrder c [] v h = (
    [],
    c,
    refl,
    record { consecutive = refl; next = omega (arith, v.receiving.next_fits); delivering = v },
  )
  run-InOrder c (arrive failed ms ∷ events) v (here, more) =
      let (c', done, same, v') = arrive_lem c failed ms v here in
      let (messages, c'', ran, o) = run-InOrder c' events v' more in
      (
        messages,
        c'',
        rw done ran,
        record {
          consecutive = o.consecutive ∙ ap (λ n. map stream (ids_from n (length messages))) same;
          next = o.next ∙ ap (λ n. (n + length messages) % 65536) same;
          delivering = o.delivering;
        },
      )
  run-InOrder c (deliver ∷ events) v more = elim (Bool-cases (is_error c.error)) [
    | inl bad ↦
        let quiet : receive_msg c ≡ some (none, c) = unfold receive_msg in rw bad refl in
        let (messages, c'', ran, o) = run-InOrder c events v more in
        (messages, c'', rw (quiet, ran) refl, o)
    | inr ok ↦ elim (receive_msg_lem stream c v ok) [
      | inl (_, quiet) ↦
          let (messages, c'', ran, o) = run-InOrder c events v more in
          (messages, c'', rw (quiet, ran) refl, o)
      | inr (c', given, _, on, _, v', _) ↦
          let (messages, c'', ran, o) = run-InOrder c' events v' more in
          (
            stream c.receive_message_id ∷ messages,
            c'',
            rw (given, ran) refl,
            record {
              consecutive =
                  ap (λ ms. stream c.receive_message_id ∷ ms)
                    (o.consecutive ∙ ap (λ n. map stream (ids_from n (length messages))) on);
              next =
                  o.next
                  ∙ ap (λ n. (n + length messages) % 65536) on
                  ∙ after c.receive_message_id (length messages);
              delivering = o.delivering;
            },
          )
    ]
  ]

  -- Where the messages of `n` consecutive ids from the next one on, at most all 16-bit ids, are in the
  -- receive queue of a channel without an error that is in order and holds messages of a stream, `n`
  -- calls of `ReceiveMsg` give the stream's messages of these ids, and the channel stays in order.
  pub run-deliver :
      (c : ReliableOrderedChannel P T) (n : ℕ)
      → IsDelivering stream c
      → is_error c.error ≡ false
      → n ≤ 65536
      → ((i : ℕ)
          → i < n
          → find c.message_receive_queue ((c.receive_message_id + i) % 65536)
            ≡ some (stream ((c.receive_message_id + i) % 65536)))
      → (c' : ReliableOrderedChannel P T) × (run c (replicate n deliver)
          ≡ some (map stream (ids_from c.receive_message_id n), c'))
        × IsDelivering stream c'
  unfolding run
  run-deliver c zero v ok le waiting = (c, refl, v)
  run-deliver c (suc n) v ok le waiting = elim (receive_msg_lem stream c v ok) [
    | inl (gone, _) ↦
        let here : (c.receive_message_id + 0) % 65536 ≡ c.receive_message_id =
          omega (arith, v.receiving.next_fits) in
        let p : none ≡ some (stream ((c.receive_message_id + 0) % 65536)) =
          sym gone ∙ ap (find c.message_receive_queue) (sym here) ∙ waiting 0 (omega arith) in
        cc
    | inr (c', given, _, on, e, v', kept) ↦
        let next = λ (i : ℕ). ap (λ n. (n + i) % 65536) on ∙ after c.receive_message_id i in
        let rest = λ (i : ℕ) (hi : i < n).
          ap (find c'.message_receive_queue) (next i)
          ∙ kept ((c.receive_message_id + suc i) % 65536) (omega arith)
              (omega (arith, v.receiving.next_fits))
          ∙ waiting (suc i) (omega arith)
          ∙ ap (λ t. some (stream t)) (sym (next i)) in
        let (c'', ran, v'') =
          run-deliver c' n v' (ap is_error e ∙ ok) (omega arith) (λ i hi. rest i hi) in
        (
          c'',
          rw (given, ran)
              (ap (λ k. some (stream c.receive_message_id ∷ map stream (ids_from k n), c'')) on),
          v'',
        )
  ]

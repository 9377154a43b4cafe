-- ===== src/UnreliableChannel/Life/Laws.antt =====
-- What `Reset` of the unreliable channel releases, and what it and the constructor leave.
use libyojimbo.Prelude.{
  ℕ, suc, ◌+◌, ◌<◌, ◌≡◌, refl, sym, ap, ◌∙◌, arith, false, some, List, [], ◌∷◌, ◌++◌, get_elem?,
  length,
}
use libyojimbo.Config.{is_reliable_ordered}
use libyojimbo.Queue.{Queue, clear}
use libyojimbo.Queue.Laws.{IsValid, contents, at-contents, length-contents, new-IsValid}
use libyojimbo.UnreliableChannel.{ChannelConfig, UnreliableUnorderedChannel, channel_error_none}
use libyojimbo.UnreliableChannel.Life.{waiting, reset, new}

module _ {M : Type 0} (zeroed : M) where
  -- A channel with two valid queues.
  pub record IsReady (c : UnreliableUnorderedChannel M) : Type 0 where
    pub sending : IsValid c.send_queue
    pub receiving : IsValid c.receive_queue

  waiting_lem :
      (q : Queue M) (ms : List M) (i : ℕ)
      → IsValid q
      → ((k : ℕ) → get_elem? (contents zeroed q) (i + k) ≡ get_elem? ms k)
      → waiting q (length ms) i ≡ some ms
  unfolding waiting
  waiting_lem q [] i v same = refl
  waiting_lem q (m ∷ ms) i v same =
      rw
        (
          at-contents zeroed q i v ∙ ap (get_elem? (contents zeroed q)) (omega arith) ∙ same 0,
          waiting_lem q ms (i + 1) v
              (λ k. ap (get_elem? (contents zeroed q)) (omega arith) ∙ same (suc k)),
        )
        refl

  waiting-contents :
      (q : Queue M) → IsValid q → waiting q q.num_entries 0 ≡ some (contents zeroed q)
  waiting-contents q v =
      ap (λ n. waiting q n 0) (sym (length-contents zeroed q))
      ∙ waiting_lem q (contents zeroed q) 0 v
          (λ k. ap (get_elem? (contents zeroed q)) (omega arith))

  clear-IsValid : (q : Queue M) → IsValid q → IsValid (clear q)
  unfolding clear
  clear-IsValid q v = record {
    storage = v.storage;
    start_in = omega (arith, v.start_in);
    count_in = omega arith;
  }

  -- `Reset` of a channel with valid queues never fails an assertion. Every message that waited in
  -- either queue is released, once and in its order, the ones to send first; both queues are then
  -- empty and valid with their sizes kept, the error is cleared and both counters are 0.
  pub reset-releases :
      (c : UnreliableUnorderedChannel M)
      → IsReady c
      → (c' : UnreliableUnorderedChannel M) × (reset c ≡ some c')
        × IsReady c'
        × (contents zeroed c'.send_queue ≡ [])
        × (contents zeroed c'.receive_queue ≡ [])
        × (c'.send_queue.array_size ≡ c.send_queue.array_size)
        × (c'.receive_queue.array_size ≡ c.receive_queue.array_size)
        × (c'.released
            ≡ c.released ++ contents zeroed c.send_queue ++ contents zeroed c.receive_queue)
        × (c'.error ≡ channel_error_none)
        × (c'.messages_sent ≡ 0)
        × (c'.messages_received ≡ 0)
  unfolding reset clear
  reset-releases c v = (
    record c {
      error = channel_error_none;
      send_queue = clear c.send_queue;
      receive_queue = clear c.receive_queue;
      messages_sent = 0;
      messages_received = 0;
      released = c.released ++ contents zeroed c.send_queue ++ contents zeroed c.receive_queue;
    },
    rw (waiting-contents c.send_queue v.sending, waiting-contents c.receive_queue v.receiving) refl,
    record {
      sending = clear-IsValid c.send_queue v.sending;
      receiving = clear-IsValid c.receive_queue v.receiving;
    },
    refl,
    refl,
    refl,
    refl,
    refl,
    refl,
    refl,
    refl,
  )

  -- The constructor, configured for an unreliable channel, makes one with valid queues of the configured sizes, both positive.
  pub new-IsReady :
      (config : ChannelConfig) (send_size receive_size : ℕ)
      → is_reliable_ordered config.type ≡ false
      → 0 < send_size
      → 0 < receive_size
      → (c : UnreliableUnorderedChannel M) × (new zeroed config send_size receive_size ≡ some c)
        × IsReady c
        × (contents zeroed c.send_queue ≡ [])
        × (contents zeroed c.receive_queue ≡ [])
  unfolding new
  new-IsReady config send_size receive_size unreliable hs hr =
      let (s, made_s, valid_s, empty_s, size_s) = new-IsValid zeroed send_size hs in
      let (r, made_r, valid_r, empty_r, size_r) = new-IsValid zeroed receive_size hr in
      let (c, done, ready, no_sends, no_receives, r1, r2, r3, r4, r5, r6) =
        reset-releases
          (record {
            config = config;
            error = channel_error_none;
            send_queue = s;
            receive_queue = r;
            messages_sent = 0;
            messages_received = 0;
            released = [];
          })
          (record { sending = valid_s; receiving = valid_r }) in
      (c, rw (unreliable, made_s, made_r) done, ready, no_sends, no_receives)

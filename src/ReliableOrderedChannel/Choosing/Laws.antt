-- ===== src/ReliableOrderedChannel/Choosing/Laws.antt =====
-- Which messages `GetMessagesToSend` chooses.
use libyojimbo.Prelude.{
  ℕ, zero, suc, ◌+◌, ◌-◌, ◌*◌, ◌%◌, ◌^◌, ◌≤◌, ◌<◌, ◌≡◌, min, ◌⊎◌, inl, inr, refl, sym, ap, ◌∙◌,
  arith, Bool, true, false, ◌&&◌, some, List, [], ◌∷◌, ◌++◌, ltb, leb, ◌==◌, All, length,
  length-append, Bool-cases, Option-cases, ◌>>=◌, if◌then◌else◌,
}
use libyojimbo.Sequence.Order.{steps_ahead}
use libyojimbo.SequenceBuffer.{find, write}
use libyojimbo.SequenceBuffer.Removing.{IsValid}
use libyojimbo.SequenceBuffer.Writing.{find-write, write-IsValid}
use libyojimbo.SequenceBuffer.Appending.{find-exists}
use libyojimbo.Serialize.{bits_required, measure}
use libyojimbo.Serialize.Relative.{write_sequence_relative-defined}
use libyojimbo.ReliableOrderedChannel.{
  ReliableOrderedChannel, Clock, MessageSendQueueEntry, Round, continue, stop, go_on,
}
use libyojimbo.ReliableOrderedChannel.SendQueue.{has_messages_to_send}
use mathlib.Core.Bool.{true≢false}
use libyojimbo.ReliableOrderedChannel.Choosing.{
  Choosing, id_bits, full, choose_entry, choose_found, choose, choose_from, get_messages_to_send,
  conservative_message_header_estimate,
}

-- Ids in the order of their distance from an oldest one, each once.
abbrev pub Rising : ℕ → List ℕ → Type 0
Rising oldest [] = Unit {0}
Rising oldest (id ∷ ids) =
    All (λ later. steps_ahead id oldest < steps_ahead later oldest) ids × Rising oldest ids

All-append :
    {A : Type 0} (Q : A → Type 0) (xs : List A) (x : A) → All Q xs → Q x → All Q (xs ++ (x ∷ []))
All-append Q [] x h q = (q, tt)
All-append Q (y ∷ ys) x (h, hs) q = (h, All-append Q ys x hs q)

All-map :
    {A : Type 0} (Q R : A → Type 0) (xs : List A) → ((x : A) → Q x → R x) → All Q xs → All R xs
All-map Q R [] f h = tt
All-map Q R (x ∷ xs) f (h, hs) = (f x h, All-map Q R xs f hs)

Rising-append :
    (oldest : ℕ) (ids : List ℕ) (id : ℕ)
    → Rising oldest ids
    → All (λ before. steps_ahead before oldest < steps_ahead id oldest) ids
    → Rising oldest (ids ++ (id ∷ []))
Rising-append oldest [] id r h = (tt, tt)
Rising-append oldest (x ∷ ids) id (later, r) (h, hs) = (
  All-append (λ y. steps_ahead x oldest < steps_ahead y oldest) ids id later h,
  Rising-append oldest ids id r hs,
)

-- A message that may be sent now: it is in the send queue, not a block, and was last sent long enough
-- ago.
abbrev pub IsDue : {P T : Type 0} → Clock T → ReliableOrderedChannel P T → ℕ → Type 0
IsDue {P} {T} clock c id =
    (e : MessageSendQueueEntry P T) × (find c.message_send_queue id ≡ some e)
    × (e.block ≡ false)
    × (clock.at_most (clock.plus e.time_last_sent c.config.message_resend_time) c.time ≡ true)

module _ {P T : Type 0} (clock : Clock T) (num_types : ℕ) (c : ReliableOrderedChannel P T)
    (available_bits : ℕ) where
  -- What holds between the rounds, before the one at `i`.
  pub record IsChoosing (i : ℕ) (s : Choosing P T) : Type 0 where
    pub valid : IsValid s.queue
    pub fits : 0 < length s.message_ids → s.used_bits ≤ available_bits
    pub few : length s.message_ids ≤ c.config.max_messages_per_packet
    pub rising : Rising c.oldest_unacked_message_id s.message_ids
    pub near : All (λ id. steps_ahead id c.oldest_unacked_message_id < i) s.message_ids
    pub due : All (IsDue clock c) s.message_ids
    pub previous :
        0 < length s.message_ids
        → (s.previous_message_id < 65536)
          × (steps_ahead s.previous_message_id c.oldest_unacked_message_id < i)
    pub untouched :
        (t : ℕ)
        → t < 65536
        → i ≤ steps_ahead t c.oldest_unacked_message_id
        → find s.queue t ≡ find c.message_send_queue t

  -- A round that goes on, or leaves the loop.
  abbrev result : Round (Choosing P T) → Choosing P T
  result (continue s) = s
  result (stop s) = s

  abbrev goes_on : Round (Choosing P T) → Bool
  goes_on (continue s) = true
  goes_on (stop s) = false

  later-IsChoosing : (i : ℕ) (s : Choosing P T) → IsChoosing i s → IsChoosing (i + 1) s
  later-IsChoosing i s v = record {
    valid = v.valid;
    fits = v.fits;
    few = v.few;
    rising = v.rising;
    near =
        All-map (λ id. steps_ahead id c.oldest_unacked_message_id < i)
          (λ id. steps_ahead id c.oldest_unacked_message_id < i + 1) s.message_ids
          (λ id h. omega arith) v.near;
    due = v.due;
    previous = λ some_ids. (let (fits, near) = v.previous some_ids in (fits, omega arith));
    untouched = λ t ht far. v.untouched t ht (omega arith);
  }

  -- A message that is chosen.
  abbrev chosen : ℕ → Choosing P T → MessageSendQueueEntry P T → ℕ → Choosing P T
  chosen id s e bits = record s {
    queue = write s.queue (id % s.queue.size) (record e { time_last_sent = c.time });
    previous_message_id = id;
    used_bits = s.used_bits + bits;
    message_ids = s.message_ids ++ (id ∷ []);
  }

  chosen-IsChoosing :
      (i id bits : ℕ) (s : Choosing P T) (e : MessageSendQueueEntry P T)
      → IsChoosing i s
      → id < 65536
      → steps_ahead id c.oldest_unacked_message_id ≡ i
      → find s.queue id ≡ some e
      → IsDue clock c id
      → s.used_bits + bits ≤ available_bits
      → length s.message_ids < c.config.max_messages_per_packet
      → IsChoosing (i + 1) (chosen id s e bits)
  chosen-IsChoosing i id bits s e v hid at here due fits few =
      let x : MessageSendQueueEntry P T = record e { time_last_sent = c.time } in
      record {
        valid = write-IsValid s.queue (id % s.queue.size) x v.valid;
        fits = λ _. fits;
        few = omega (arith, few, length-append s.message_ids (id ∷ []));
        rising = Rising-append c.oldest_unacked_message_id s.message_ids id v.rising (
            All-map (λ y. steps_ahead y c.oldest_unacked_message_id < i)
              (λ y.
                steps_ahead y c.oldest_unacked_message_id
                < steps_ahead id c.oldest_unacked_message_id)
              s.message_ids (λ y h. omega (arith, h, at)) v.near);
        near =
            All-append (λ y. steps_ahead y c.oldest_unacked_message_id < i + 1) s.message_ids id
              (All-map (λ y. steps_ahead y c.oldest_unacked_message_id < i)
                (λ y. steps_ahead y c.oldest_unacked_message_id < i + 1) s.message_ids
                (λ y h. omega arith) v.near)
              (omega (arith, at));
        due = All-append (IsDue clock c) s.message_ids id v.due due;
        previous = λ _. (hid, omega (arith, at));
        untouched = λ t ht far.
            let other : (t == id) ≡ false = ground (arith, at) in
            find-write s.queue id t x v.valid (find-exists s.queue id e here)
            ∙ rw other (v.untouched t ht (omega arith));
      }

  -- What a round must give.
  record IsRound (i : ℕ) (r : Round (Choosing P T)) : Type 0 where
    choosing : IsChoosing (i + 1) (result r)
    room : goes_on r ≡ true → length (result r).message_ids < c.config.max_messages_per_packet

  full-IsRound :
      (i : ℕ) (s : Choosing P T)
      → IsChoosing (i + 1) s
      → IsRound i (full clock num_types c available_bits s)
  full-IsRound i s v =
      elim (Bool-cases (length s.message_ids == c.config.max_messages_per_packet)) [
        | inl enough ↦ rw enough (record { choosing = v; room = λ e. absurd (true≢false (sym e)) })
        | inr more ↦ rw more (record { choosing = v; room = λ _. (let f = v.few in ground arith) })
      ]

  id_bits-defined :
      (i id : ℕ) (s : Choosing P T)
      → IsChoosing i s
      → steps_ahead id c.oldest_unacked_message_id ≡ i
      → (n : ℕ) × (id_bits clock num_types c available_bits s id ≡ some n)
  unfolding id_bits
  id_bits-defined i id s v at = elim (Bool-cases (length s.message_ids == 0)) [
    | inl first ↦ (16, rw first refl)
    | inr more ↦
        let (fits, near) = v.previous (ground arith) in
        let (fs, e) = write_sequence_relative-defined s.previous_message_id id fits (λ same.
          (let p = ap (λ n. steps_ahead n c.oldest_unacked_message_id) same in
            absurd (omega (arith, p, at, near)))) in
        (measure fs, rw (more, e) refl)
  ]

  choose_entry_lem :
      (i id : ℕ) (s : Choosing P T) (e : MessageSendQueueEntry P T)
      → IsChoosing i s
      → id < 65536
      → steps_ahead id c.oldest_unacked_message_id ≡ i
      → find s.queue id ≡ some e
      → length s.message_ids < c.config.max_messages_per_packet
      → (r : Round (Choosing P T)) × (choose_entry clock num_types c available_bits id s e ≡ some r)
        × IsRound i r
  unfolding choose_entry
  choose_entry_lem i id s e v hid at here few = elim (Bool-cases e.block) [
    | inl block ↦ (
      stop s,
      rw block refl,
      record { choosing = later-IsChoosing i s v; room = λ e. absurd (true≢false (sym e)) },
    )
    | inr plain ↦
        let due_now =
          clock.at_most (clock.plus e.time_last_sent c.config.message_resend_time) c.time in
        elim (Bool-cases (due_now && leb e.measured_bits available_bits)) [
          | inr waits ↦ (
            full clock num_types c available_bits s,
            rw (plain, waits) refl,
            full-IsRound i s (later-IsChoosing i s v),
          )
          | inl due ↦
              let (relative, counted) = id_bits-defined i id s v at in
              let bits =
                e.measured_bits + bits_required 0 ((num_types + 2 ^ 32 - 1) % 2 ^ 32) + relative in
              elim (Bool-cases (ltb available_bits (s.used_bits + bits))) [
                | inl over ↦ (
                  continue (record s { give_up_counter = s.give_up_counter + 1 }),
                  rw (plain, due, counted, over) refl,
                  record { choosing = skipped; room = λ _. few },
                )
                | inr under ↦
                    let original : find c.message_send_queue id ≡ some e =
                      sym (v.untouched id hid (omega (arith, at))) ∙ here in
                    let now : due_now ≡ true = ground arith in
                    (
                      full clock num_types c available_bits (chosen id s e bits),
                      rw (plain, due, counted, under) refl,
                      full-IsRound i (chosen id s e bits) (
                          chosen-IsChoosing i id bits s e v hid at here (e, original, plain, now)
                            (ground arith) few),
                    )
              ]
        ]
  ]
    where
      skipped : IsChoosing (i + 1) (record s { give_up_counter = s.give_up_counter + 1 })
      skipped =
          let w = later-IsChoosing i s v in
          record {
            valid = w.valid;
            fits = w.fits;
            few = w.few;
            rising = w.rising;
            near = w.near;
            due = w.due;
            previous = w.previous;
            untouched = w.untouched;
          }

  choose_lem :
      (i : ℕ) (s : Choosing P T)
      → IsChoosing i s
      → i < 65536
      → c.oldest_unacked_message_id < 65536
      → length s.message_ids < c.config.max_messages_per_packet
      → (r : Round (Choosing P T)) × (choose clock num_types c available_bits i s ≡ some r)
        × IsRound i r
  unfolding choose choose_found
  choose_lem i s v hi ho few =
      let id = (c.oldest_unacked_message_id + i) % 65536 in
      let stopped : IsRound i (stop s) = record {
        choosing = later-IsChoosing i s v;
        room = λ e. absurd (true≢false (sym e));
      } in
      elim (Bool-cases (ltb available_bits (s.used_bits + 4 * 8))) [
        | inl give_up ↦ (stop s, rw give_up refl, stopped)
        | inr roomy ↦ elim (Bool-cases (ltb c.config.send_queue_size s.give_up_counter)) [
          | inl tried ↦ (stop s, rw (roomy, tried) refl, stopped)
          | inr trying ↦ elim (Option-cases (find s.queue id)) [
            | inl gone ↦ (
              continue s,
              rw (roomy, trying, gone) refl,
              record { choosing = later-IsChoosing i s v; room = λ _. few },
            )
            | inr (e, here) ↦
                let (r, done, o) =
                  choose_entry_lem i id s e v (omega arith) (omega arith) here few in
                (r, rw (roomy, trying, here) done, o)
          ]
        ]
      ]

  choose_from_lem :
      (left i : ℕ) (s : Choosing P T)
      → IsChoosing i s
      → left + i ≤ 65536
      → c.oldest_unacked_message_id < 65536
      → length s.message_ids < c.config.max_messages_per_packet
      → (s' : Choosing P T) × (rounds : ℕ) × (choose_from clock num_types c available_bits left i s
          ≡ some s')
        × IsChoosing rounds s'
  unfolding choose_from
  choose_from_lem zero i s v le ho few = (s, i, refl, v)
  choose_from_lem (suc left) i s v le ho few =
      let (r, done, o) = choose_lem i s v (omega arith) ho few in
      elim r
          as (λ r.
            choose clock num_types c available_bits i s ≡ some r
            → IsRound i r
            → (s' : Choosing P T) × (rounds : ℕ) × ((choose clock num_types c available_bits i s
                  >>= λ r. go_on r (choose_from clock num_types c available_bits left (i + 1)))
                ≡ some s')
              × IsChoosing rounds s') [
                | stop s' ↦ λ done o. (s', i + 1, rw done refl, o.choosing)
                | continue s' ↦ λ done o.
                    let (s'', rounds, rest, w) =
                      choose_from_lem left (i + 1) s' o.choosing (omega arith) ho (o.room refl) in
                    (s'', rounds, rw done rest, w)
              ]
        done o

-- The bits that `GetMessagesToSend` may use.
abbrev pub budget : {P T : Type 0} → ReliableOrderedChannel P T → ℕ → ℕ
budget c available_bits =
    if ltb 0 c.config.packet_budget
    then min (c.config.packet_budget * 8) available_bits
    else available_bits

-- On a channel with a valid send queue, a 16-bit oldest unacked id, messages to send, room for a message
-- in a packet and at most 65536 entries in one of its queues, `GetMessagesToSend` fails no assertion. It
-- chooses at most as many messages as a packet may hold, each of them in the send queue, not a block and
-- not sent within the resend time, in the order of their ids from the oldest unacked one on and each
-- once; and where it chooses any, the bits that it returns are within the budget.
pub get_messages_to_send_lem :
    {P T : Type 0} (clock : Clock T) (num_types : ℕ) (c : ReliableOrderedChannel P T)
    (available_bits : ℕ)
    → IsValid c.message_send_queue
    → c.oldest_unacked_message_id < 65536
    → has_messages_to_send c ≡ true
    → 0 < c.config.max_messages_per_packet
    → min c.config.send_queue_size c.config.receive_queue_size ≤ 65536
    → (ids : List ℕ) × (bits : ℕ) × (c' : ReliableOrderedChannel P T) × (get_messages_to_send clock
          num_types c available_bits
        ≡ some (ids, bits, c'))
      × (length ids ≤ c.config.max_messages_per_packet)
      × All (IsDue clock c) ids
      × Rising c.oldest_unacked_message_id ids
      × ((ids ≡ []) ⊎ (bits ≤ budget c available_bits))
      × IsValid c'.message_send_queue
unfolding get_messages_to_send
get_messages_to_send_lem clock num_types c available_bits valid ho more room limit =
    let start : Choosing _ _ = record {
      queue = c.message_send_queue;
      previous_message_id = 0;
      used_bits = conservative_message_header_estimate;
      give_up_counter = 0;
      message_ids = [];
    } in
    let before : IsChoosing clock num_types c (budget c available_bits) 0 start = record {
      valid = valid;
      fits = λ none_yet. absurd (omega arith);
      few = omega arith;
      rising = tt;
      near = tt;
      due = tt;
      previous = λ none_yet. absurd (omega arith);
      untouched = λ t ht far. refl;
    } in
    let (s, _, done, v) =
      choose_from_lem clock num_types c (budget c available_bits)
        (min c.config.send_queue_size c.config.receive_queue_size) 0 start before
        (omega (arith, limit)) ho room in
    (
      s.message_ids,
      s.used_bits,
      record c { message_send_queue = s.queue },
      rw (more, done) refl,
      v.few,
      v.due,
      v.rising,
      none_or s.message_ids v.fits,
      v.valid,
    )
  where
    none_or : {Q : Type 0} (ids : List ℕ) → (0 < length ids → Q) → (ids ≡ []) ⊎ Q
    none_or [] h = inl refl
    none_or (id ∷ ids) h = inr (h (omega arith))

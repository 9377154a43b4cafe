-- ===== src/UnreliableChannel/Laws.antt =====
-- What the channel puts in a packet, and what it makes of one.
use libyojimbo.Prelude.{
  ℕ, zero, suc, ◌+◌, ◌-◌, ◌*◌, ◌≤◌, ◌<◌, ◌≡◌, refl, sym, ap, ◌∙◌, arith, min, inl, inr, true, false,
  some, List, [], ◌∷◌, ◌++◌, ltb, le→leb, ◌==◌, ==_iff, Bool-cases, if◌then◌else◌, length,
  length-append, map, take,
}
use libyojimbo.Queue.{Queue, is_full, is_empty}
use libyojimbo.Queue.Laws.{IsValid, contents, length-contents, push_lem, pop_lem}
use libyojimbo.UnreliableChannel.{
  UnreliableUnorderedChannel, Filling, fill, receive_all, get_packet_data, process_packet_data,
  is_error,
}
use mathlib.Core.List.{append_assoc, append-nil}
use native.Mathlib.Decide.{dec_lt}

module _ {M : Type 0} where
  -- The bits of the messages of a packet.
  abbrev pub total : (M → ℕ) → List M → ℕ
  total bits [] = 0
  total bits (m ∷ ms) = bits m + total bits ms

  total-append :
      (bits : M → ℕ) (ms : List M) (m : M) → total bits (ms ++ (m ∷ [])) ≡ total bits ms + bits m
  total-append bits [] m = omega arith
  total-append bits (x ∷ ms) m = omega (arith, total-append bits ms m)

module _ {M : Type 0} (zeroed : M) where
  -- What holds between two rounds of the loop of `GetPacketData`.
  pub record IsFilling (bits : M → ℕ) (most available header : ℕ) (f : Filling M) : Type 0 where
    pub queue : IsValid f.send_queue
    pub used : f.used_bits ≡ header + total bits f.messages
    pub fits : 0 < length f.messages → f.used_bits ≤ available
    pub few : length f.messages ≤ most

  fill_lem :
      (bits : M → ℕ) (rounds most available header : ℕ) (f : Filling M)
      → IsFilling bits most available header f
      → (f' : Filling M) × (fill bits rounds most available f ≡ some f')
        × IsFilling bits most available header f'
  unfolding fill is_empty
  fill_lem bits zero most available header f v = (f, refl, v)
  fill_lem bits (suc rounds) most available header f v =
      elim (Bool-cases (f.send_queue.num_entries == 0)) [
        | inl empty ↦ (f, rw empty refl, v)
        | inr more ↦ elim (Bool-cases (ltb available (f.used_bits + 32))) [
          | inl give_up ↦ (f, rw (more, give_up) refl, v)
          | inr roomy ↦ elim (Bool-cases (length f.messages == most)) [
            | inl enough ↦ (f, rw (more, roomy, enough) refl, v)
            | inr few ↦
                let (m, q, popped, vq, c, e) = pop_lem zeroed f.send_queue v.queue (ground arith) in
                elim (Bool-cases (ltb available (f.used_bits + bits m))) [
                  | inl over ↦
                      let dropped : Filling M = record f {
                        send_queue = q;
                        released = f.released ++ (m ∷ []);
                      } in
                      let (f', done, v') =
                        fill_lem bits rounds most available header dropped
                          (record { queue = vq; used = v.used; fits = v.fits; few = v.few }) in
                      (f', rw (more, roomy, few, popped, over) done, v')
                  | inr under ↦
                      let within : f.used_bits + bits m ≤ available = ground arith in
                      let kept : Filling M = record f {
                        send_queue = q;
                        used_bits = f.used_bits + bits m;
                        messages = f.messages ++ (m ∷ []);
                      } in
                      let (f', done, v') = fill_lem bits rounds most available header kept (record {
                        queue = vq;
                        used = omega (arith, v.used, total-append bits f.messages m);
                        fits = λ _. ground arith;
                        few = ground (arith, length-append f.messages (m ∷ []), v.few);
                      }) in
                      (f', rw (more, roomy, few, popped, under, le→leb _ _ within) done, v')
                ]
          ]
        ]
      ]

  abbrev the_nil : List M
  the_nil = []

  take-nil : (n : ℕ) → take n (the_nil) ≡ the_nil
  take-nil zero = refl
  take-nil (suc n) = refl

  take-next : (n k : ℕ) (x : M) (xs : List M) → n ≡ suc k → take n (x ∷ xs) ≡ x ∷ take k xs
  take-next n k x xs e = ap (λ i. take i (x ∷ xs)) e

  receive_all_lem :
      (set_id : M → ℕ → M) (q : Queue M) (messages : List M) (s : ℕ)
      → IsValid q
      → (q' : Queue M) × (receive_all set_id q messages s ≡ some q')
        × IsValid q'
        × (contents zeroed q'
            ≡ contents zeroed q
              ++ take (q.array_size - q.num_entries) (map (λ m. set_id m s) messages))
        × (q'.array_size ≡ q.array_size)
  unfolding receive_all is_full
  receive_all_lem set_id q [] s v = (
    q,
    refl,
    v,
    sym (
        ap (λ t. contents zeroed q ++ t) (take-nil (q.array_size - q.num_entries))
        ∙ append-nil (contents zeroed q)),
    refl,
  )
  receive_all_lem set_id q (m ∷ messages) s v = elim (dec_lt q.num_entries q.array_size) [
    | yes room ↦
        let (q1, pushed, v1, c1, e1) = push_lem zeroed q (set_id m s) v room in
        let (q', rest, v', c', e') = receive_all_lem set_id q1 messages s v1 in
        let open_ : (q.num_entries == q.array_size) ≡ false = ground arith in
        (
          q',
          rw (open_, pushed) rest,
          v',
          c'
              ∙ ap
                  (λ t. t ++ take (q1.array_size - q1.num_entries) (map (λ x. set_id x s) messages))
                  c1
              ∙ append_assoc (contents zeroed q) (set_id m s ∷ [])
                  (take (q1.array_size - q1.num_entries) (map (λ x. set_id x s) messages))
              ∙ ap (λ t. contents zeroed q ++ t)
                  (sym (
                    take-next (q.array_size - q.num_entries) (q1.array_size - q1.num_entries)
                      (set_id m s) (map (λ x. set_id x s) messages)
                      (omega (
                        arith,
                        e1,
                        length-contents zeroed q1,
                        length-contents zeroed q,
                        ap length c1,
                        length-append (contents zeroed q) (set_id m s ∷ []),
                        room,
                      )))),
          e' ∙ e1,
        )
    | no full ↦
        let (q', rest, v', c', e') = receive_all_lem set_id q messages s v in
        let none_left : q.array_size - q.num_entries ≡ 0 = omega arith in
        let shut : (q.num_entries == q.array_size) ≡ true =
          (==_iff q.num_entries q.array_size).1 (omega (arith, v.count_in)) in
        (
          q',
          rw shut rest,
          v',
          c'
              ∙ ap (λ n. contents zeroed q ++ take n (map (λ x. set_id x s) messages)) none_left
              ∙ sym (
                  ap (λ n. contents zeroed q ++ take n (map (λ x. set_id x s) (m ∷ messages)))
                    none_left),
          e',
        )
  ]

  within_limit : (n used limit : ℕ) → (0 < n → used ≤ limit) → (if n == 0 then 0 else used) ≤ limit
  within_limit n used limit h = elim (Bool-cases (n == 0)) [
    | inl z ↦ rw z (omega arith)
    | inr k ↦ rw k (h (ground arith))
  ]

  -- `GetPacketData` on a valid send queue succeeds. It returns 0 bits for no messages, and otherwise the
  -- header estimate and the bits of the messages, which are within the available bits, and within the
  -- budget where there is one; there are at most as many messages as the configuration allows.
  pub get_packet_data_lem :
      (bits : M → ℕ) (c : UnreliableUnorderedChannel M) (available : ℕ)
      → IsValid c.send_queue
      → (used : ℕ) × (messages : List M) × (c' : UnreliableUnorderedChannel M) × (get_packet_data
            bits c available
          ≡ some (used, messages, c'))
        × IsValid c'.send_queue
        × (used ≡ (if length messages == 0 then 0 else 32 + total bits messages))
        × (used ≤ available)
        × (used ≤ (if ltb 0 c.config.packet_budget then c.config.packet_budget * 8 else available))
        × (length messages ≤ c.config.max_messages_per_packet)
  unfolding get_packet_data is_empty
  get_packet_data_lem bits c available v = elim (Bool-cases (c.send_queue.num_entries == 0)) [
    | inl empty ↦ (0, [], c, rw empty refl, v, refl, omega arith, omega arith, omega arith)
    | inr more ↦
        let limit =
          if ltb 0 c.config.packet_budget
          then min (c.config.packet_budget * 8) available
          else available in
        let start : Filling M = record {
          send_queue = c.send_queue;
          used_bits = 32;
          messages = [];
          released = c.released;
        } in
        let (f, filled, w) =
          fill_lem bits c.send_queue.num_entries c.config.max_messages_per_packet limit 32 start
            (record {
              queue = v;
              used = omega arith;
              fits = λ h. absurd (omega arith);
              few = omega arith;
            }) in
        let used = if length f.messages == 0 then 0 else f.used_bits in
        let within : used ≤ limit = within_limit (length f.messages) f.used_bits limit w.fits in
        (
          used,
          f.messages,
          record c { send_queue = f.send_queue; released = f.released },
          rw (more, filled) refl,
          w.queue,
          ap (λ n. if length f.messages == 0 then 0 else n) w.used,
          ground arith,
          ground arith,
          w.few,
        )
  ]

  -- `ProcessPacketData` on a valid receive queue, with no error and no message that failed to serialize,
  -- appends the messages of the packet, numbered by the packet, to the messages to be received, in their
  -- order, as many as the queue has room for; the others are dropped.
  pub process_packet_data_lem :
      (set_id : M → ℕ → M) (c : UnreliableUnorderedChannel M) (messages : List M) (s : ℕ)
      → IsValid c.receive_queue
      → is_error c.error ≡ false
      → (c' : UnreliableUnorderedChannel M) × (process_packet_data set_id c false messages s
          ≡ some c')
        × IsValid c'.receive_queue
        × (contents zeroed c'.receive_queue
            ≡ contents zeroed c.receive_queue
              ++ take
                  (c.receive_queue.array_size - c.receive_queue.num_entries)
                  (map (λ m. set_id m s) messages))
  unfolding process_packet_data
  process_packet_data_lem set_id c messages s v ok =
      let (q, received, v', e, same) = receive_all_lem set_id c.receive_queue messages s v in
      (record c { receive_queue = q }, rw (ok, received) refl, v', e)

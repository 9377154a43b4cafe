-- ===== src/NetworkSimulator/Laws.antt =====
-- What `AdvanceTime` makes pending, and what `ReceivePacketsSentToAddress` returns and leaves.
use libyojimbo.Prelude.{
  ℕ, zero, suc, ◌≡◌, refl, Option, ap, ◌∙◌, arith, min, Bool, true, false, not, none, some, List,
  [], ◌∷◌, ◌++◌, map, take, drop, length, if◌then◌else◌,
}
use libyojimbo.NetworkSimulator.{
  World, PacketEntry, NetworkSimulator, Received, is_due, put_packet, packets, move_due,
  advance_time, update_pending_receive_packets, receive_from, receive_where,
  receive_packets_sent_to_address,
}

-- The elements that satisfy a test, in their order.
abbrev pub filter : {A : Type 0} → (A → Bool) → List A → List A
filter p [] = []
filter p (x ∷ xs) = if p x then x ∷ filter p xs else filter p xs

-- A packet that an entry holds, with all that the entry says of it.
pub record Packet (A T : Type 0) : Type 0 where
  pub data_ : List ℕ
  pub size : ℕ
  pub from : A
  pub to : A
  pub delivery_time : T

module _ {A T : Type 0} where
  abbrev pub put_held : Option (List ℕ) → PacketEntry A T → List (Packet A T) → List (Packet A T)
  put_held none e ps = ps
  put_held (some d) e ps =
      record {
        data_ = d;
        size = e.packet_size;
        from = e.from;
        to = e.to;
        delivery_time = e.delivery_time;
      }
      ∷ ps

  -- The packets that entries hold, in the order of the entries.
  abbrev pub packets_held : List (PacketEntry A T) → List (Packet A T)
  packets_held [] = []
  packets_held (e ∷ es) = put_held e.packet_data e (packets_held es)

  put_held-append :
      (d : Option (List ℕ)) (e : PacketEntry A T) (ps qs : List (Packet A T))
      → put_held d e (ps ++ qs) ≡ put_held d e ps ++ qs
  put_held-append none e ps qs = refl
  put_held-append (some d) e ps qs = refl

  packets_held-append :
      (es fs : List (PacketEntry A T))
      → packets_held (es ++ fs) ≡ packets_held es ++ packets_held fs
  packets_held-append [] fs = refl
  packets_held-append (e ∷ es) fs =
      ap (put_held e.packet_data e) (packets_held-append es fs)
      ∙ put_held-append e.packet_data e (packets_held es) (packets_held fs)

module _ {A F T : Type 0} (world : World A F T) where
  -- What the walk over the entries leaves and moves.
  abbrev Moved : T → List (PacketEntry A T) → Type 0
  Moved now es =
      (packets_held (move_due world now es).1
        ≡ filter (λ p. world.before p.delivery_time now) (packets_held es))
      × (packets_held (move_due world now es).0
          ≡ filter (λ p. not (world.before p.delivery_time now)) (packets_held es))
      × (length (packets_held (move_due world now es).1) ≡ length (move_due world now es).1)
      × (length (move_due world now es).0 ≡ length es)

  Moved-cons :
      (now : T) (es : List (PacketEntry A T)) (from to : A) (t : T) (d : Option (List ℕ)) (n : ℕ)
      → Moved now es
      → Moved now (
          record { from = from; to = to; delivery_time = t; packet_data = d; packet_size = n } ∷ es)
  unfolding move_due is_due
  Moved-cons now es from to t none n (moved, kept, full, same) = (moved, kept, full, ap suc same)
  Moved-cons now es from to t (some d) n (moved, kept, full, same) =
      elim (world.before t now)
          as (λ b.
            world.before t now ≡ b
            → Moved now (
                record {
                  from = from;
                  to = to;
                  delivery_time = t;
                  packet_data = some d;
                  packet_size = n;
                }
                ∷ es)) [
                  | true ↦ λ due. (
                    rw due (ap (λ ps. p ∷ ps) moved),
                    rw due kept,
                    rw due (ap suc full),
                    rw due (ap suc same),
                  )
                  | false ↦ λ due. (
                    rw due moved,
                    rw due (ap (λ ps. p ∷ ps) kept),
                    rw due full,
                    rw due (ap suc same),
                  )
                ]
        refl
    where
      p : Packet A T
      p = record { data_ = d; size = n; from = from; to = to; delivery_time = t }

  move_due_lem : (now : T) (es : List (PacketEntry A T)) → Moved now es
  unfolding move_due
  move_due_lem now [] = (refl, refl, refl, refl)
  move_due_lem now (e ∷ es) =
      Moved-cons now es e.from e.to e.delivery_time e.packet_data e.packet_size
        (move_due_lem now es)

  -- Once time moves forward, the packets that `AdvanceTime` makes pending are exactly those of the
  -- entries with a delivery time before the new time, in the order of the entries, each with its data,
  -- size, addresses and delivery time; every pending entry holds one. The entries keep exactly the other
  -- packets, and their number. What was pending is freed.
  pub advance_time_lem :
      (s : NetworkSimulator A F T) (time : T)
      → world.at_least s.last_pending_receive_time time ≡ false
      → (packets_held (advance_time world s time).pending_receive_packets
          ≡ filter (λ p. world.before p.delivery_time time) (packets_held s.packet_entries))
        × (packets_held (advance_time world s time).packet_entries
            ≡ filter (λ p. not (world.before p.delivery_time time)) (packets_held s.packet_entries))
        × (length (packets_held (advance_time world s time).pending_receive_packets)
            ≡ length (advance_time world s time).pending_receive_packets)
        × (length (advance_time world s time).packet_entries ≡ length s.packet_entries)
        × ((advance_time world s time).freed
            ≡ s.freed ++ map (λ p. p.data_) (packets_held s.pending_receive_packets))
  unfolding advance_time update_pending_receive_packets
  advance_time_lem s time forward =
      let (moved, kept, full, same) = move_due_lem time s.packet_entries in
      rw forward (moved, kept, full, same, ap (λ ds. s.freed ++ ds) (all s.pending_receive_packets))
    where
      one :
          (d : Option (List ℕ)) (e : PacketEntry A T) (ps : List (Packet A T))
          → put_packet d (map (λ p. p.data_) ps) ≡ map (λ p. p.data_) (put_held d e ps)
      one none e ps = refl
      one (some d) e ps = refl

      all : (es : List (PacketEntry A T)) → packets es ≡ map (λ p. p.data_) (packets_held es)
      all [] = unfold packets in refl
      all (e ∷ es) =
          unfold packets in
          (ap (put_packet e.packet_data) (all es) ∙ one e.packet_data e (packets_held es))

-- What the receiving functions give for a packet.
abbrev pub received : {A T : Type 0} → Packet A T → Received A
received p = record { packet_data = p.data_; packet_size = p.size; from = p.from }

module _ {A F T : Type 0} (world : World A F T) (wanted : A → Bool) where
  abbrev give : List ℕ → PacketEntry A T → Received A
  give d e = record { packet_data = d; packet_size = e.packet_size; from = e.from }

  -- What a receiving loop returns and leaves.
  abbrev Taken : List (PacketEntry A T) → Type 0
  Taken es =
      ((receive_from world give wanted es).0
        ≡ map received (filter (λ p. wanted p.to) (packets_held es)))
      × (packets_held (receive_from world give wanted es).1
          ≡ filter (λ p. not (wanted p.to)) (packets_held es))
      × (length (receive_from world give wanted es).1 ≡ length es)

  Taken-cons :
      (es : List (PacketEntry A T)) (from to : A) (t : T) (d : Option (List ℕ)) (n : ℕ)
      → Taken es
      → Taken (
          record { from = from; to = to; delivery_time = t; packet_data = d; packet_size = n } ∷ es)
  unfolding receive_from
  Taken-cons es from to t none n (out, left, same) = (out, left, ap suc same)
  Taken-cons es from to t (some d) n (out, left, same) =
      elim (wanted to)
          as (λ b.
            wanted to ≡ b
            → Taken (
                record {
                  from = from;
                  to = to;
                  delivery_time = t;
                  packet_data = some d;
                  packet_size = n;
                }
                ∷ es)) [
                  | true ↦
                      λ w. (rw w (ap (λ rs. received p ∷ rs) out), rw w left, rw w (ap suc same))
                  | false ↦ λ w. (rw w out, rw w (ap (λ ps. p ∷ ps) left), rw w (ap suc same))
                ]
        refl
    where
      p : Packet A T
      p = record { data_ = d; size = n; from = from; to = to; delivery_time = t }

  receive_from_lem : (es : List (PacketEntry A T)) → Taken es
  unfolding receive_from
  receive_from_lem [] = (refl, refl, refl)
  receive_from_lem (e ∷ es) =
      Taken-cons es e.from e.to e.delivery_time e.packet_data e.packet_size (receive_from_lem es)

min-suc : (n m : ℕ) → min (suc n) (suc m) ≡ suc (min n m)
min-suc n m = omega arith

min-zero_left : (n : ℕ) → min 0 n ≡ 0
min-zero_left n = omega arith

min-zero : (n : ℕ) → min n 0 ≡ 0
min-zero n = omega arith

take-min : {A : Type 0} (n : ℕ) (xs : List A) → take (min n (length xs)) xs ≡ take n xs
take-min zero xs = ap (λ k. take k xs) (min-zero_left (length xs))
take-min (suc n) [] = ap (λ k. take k []) (min-zero (suc n))
take-min (suc n) (x ∷ xs) =
    ap (λ k. take k (x ∷ xs)) (min-suc n (length xs)) ∙ ap (λ ys. x ∷ ys) (take-min n xs)

drop-min : {A : Type 0} (n : ℕ) (xs : List A) → drop (min n (length xs)) xs ≡ drop n xs
drop-min zero xs = ap (λ k. drop k xs) (min-zero_left (length xs))
drop-min (suc n) [] = ap (λ k. drop k []) (min-zero (suc n))
drop-min (suc n) (x ∷ xs) = ap (λ k. drop k (x ∷ xs)) (min-suc n (length xs)) ∙ drop-min n xs

module _ {A F T : Type 0} (world : World A F T) where
  -- `ReceivePacketsSentToAddress` looks at the first pending entries, as many as the packets asked for. It
  -- returns the data, the size and the sender of exactly the packets there that were sent to the address,
  -- in their order. The other packets there and all behind stay pending, in their order.
  pub receive_packets_sent_to_address_lem :
      (s : NetworkSimulator A F T) (max_packets : ℕ) (address : A)
      → ((receive_packets_sent_to_address world s max_packets address).0
          ≡ map received (
              filter
                (λ p. world.same_address p.to address)
                (packets_held (take max_packets s.pending_receive_packets))))
        × (packets_held
              (receive_packets_sent_to_address world s max_packets
                address).1.pending_receive_packets
            ≡ filter
                (λ p. not (world.same_address p.to address))
                (packets_held (take max_packets s.pending_receive_packets))
              ++ packets_held (drop max_packets s.pending_receive_packets))
  unfolding receive_packets_sent_to_address receive_where
  receive_packets_sent_to_address_lem s max_packets address =
      let es = s.pending_receive_packets in
      let (out, left, _) =
        receive_from_lem world (λ to. world.same_address to address)
          (take (min max_packets (length es)) es) in
      (
        out
            ∙ ap
                (λ l. map received (filter (λ p. world.same_address p.to address) (packets_held l)))
                (take-min max_packets es),
        packets_held-append
              (receive_from world
                (λ d e. record { packet_data = d; packet_size = e.packet_size; from = e.from })
                (λ to. world.same_address to address) (take (min max_packets (length es)) es)).1
              (drop (min max_packets (length es)) es)
            ∙ ap (λ ps. ps ++ packets_held (drop (min max_packets (length es)) es)) left
            ∙ ap
                (λ l.
                  filter (λ p. not (world.same_address p.to address)) (packets_held l)
                  ++ packets_held (drop (min max_packets (length es)) es))
                (take-min max_packets es)
            ∙ ap
                (λ l.
                  filter (λ p. not (world.same_address p.to address))
                    (packets_held (take max_packets es))
                  ++ packets_held l)
                (drop-min max_packets es),
      )

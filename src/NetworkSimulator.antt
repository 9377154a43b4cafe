-- ===== src/NetworkSimulator.antt =====
-- yojimbo_network_simulator.cpp: `NetworkSimulator`, which delays, drops and repeats packets. Addresses,
-- floating-point numbers and times are parameters, with what the code asks of them, and so are the numbers
-- that `random_float` returns. A packet is the list of its bytes; `freed` lists the packets that the
-- simulator freed. A failed assertion is `none`.
pub mod Laws
mod Tests
use libyojimbo.Prelude.{
  ℕ, ◌+◌, ◌%◌, min, Bool, true, false, not, ◌||◌, ◌&&◌, Option, none, some, List, [], ◌∷◌, ◌++◌,
  ltb, ◌==◌, if◌then◌else◌, ◌>>=◌, ◌>>◌, assert, get_elem?, set, replicate, take, drop, length,
}

-- What the code asks of addresses, floats and times: the address of the default constructor, `IsValid`
-- and `==`; the float 0, `!= 0`, `> 0` and `<=`; the times 0, -10000, milliseconds / 1000, the sum, `<` and `>=`.
pub record World (A F T : Type 0) : Type 0 where
  pub no_address : A
  pub is_valid : A → Bool
  pub same_address : A → A → Bool
  pub zero_float : F
  pub is_nonzero : F → Bool
  pub is_positive : F → Bool
  pub at_most : F → F → Bool
  pub zero_time : T
  pub long_ago : T
  pub seconds : F → T
  pub plus : T → T → T
  pub before : T → T → Bool
  pub at_least : T → T → Bool

pub record PacketEntry (A T : Type 0) : Type 0 where
  pub from : A
  pub to : A
  pub delivery_time : T
  pub packet_data : Option (List ℕ)
  pub packet_size : ℕ

pub record NetworkSimulator (A F T : Type 0) : Type 0 where
  pub latency : F
  pub jitter : F
  pub packet_loss : F
  pub duplicate : F
  pub active : Bool
  pub time : T
  pub current_index : ℕ
  pub num_packet_entries : ℕ
  pub packet_entries : List (PacketEntry A T)
  pub pending_receive_packets : List (PacketEntry A T)
  pub last_pending_receive_time : T
  pub freed : List (List ℕ)

-- The numbers that the calls of `random_float` in `SendPacket` return, the last one as a time.
pub record Draws (F T : Type 0) : Type 0 where
  pub loss : F
  pub jitter : F
  pub duplicate : F
  pub extra : T

-- What `ReceivePacketsSentToAddress` gives for a packet, and what `ReceivePackets` gives.
pub record Received (A : Type 0) : Type 0 where
  pub packet_data : List ℕ
  pub packet_size : ℕ
  pub from : A

record ReceivedAnywhere (A : Type 0) : Type 0 where
  packet_data : List ℕ
  packet_size : ℕ
  from : A
  to : A

-- The packet of an entry, if any, in front of others; and the packets of entries.
abbrev pub put_packet : Option (List ℕ) → List (List ℕ) → List (List ℕ)
put_packet none ds = ds
put_packet (some d) ds = d ∷ ds

module _ {A T : Type 0} where
  unfoldable pub packets : List (PacketEntry A T) → List (List ℕ)
  packets [] = []
  packets (e ∷ es) = put_packet e.packet_data (packets es)

module _ {A F T : Type 0} (world : World A F T) where
  -- `PacketEntry()`
  abbrev pub no_packet : PacketEntry A T
  no_packet = record {
    from = world.no_address;
    to = world.no_address;
    delivery_time = world.zero_time;
    packet_data = none;
    packet_size = 0;
  }

  -- `UpdateActive`
  update_active : NetworkSimulator A F T → NetworkSimulator A F T
  update_active s = record s {
    active =
        world.is_nonzero s.latency
        || world.is_nonzero s.jitter
        || world.is_nonzero s.packet_loss
        || world.is_nonzero s.duplicate;
  }

  -- The constructor; `zeroed` is an entry of zero bytes.
  new : PacketEntry A T → ℕ → Option (NetworkSimulator A F T)
  unfolding update_active
  new zeroed num_packets = do
    assert (ltb 0 num_packets)
    some (
        update_active (record {
          latency = world.zero_float;
          jitter = world.zero_float;
          packet_loss = world.zero_float;
          duplicate = world.zero_float;
          active = false;
          time = world.zero_time;
          current_index = 0;
          num_packet_entries = num_packets;
          packet_entries = replicate num_packets zeroed;
          pending_receive_packets = [];
          last_pending_receive_time = world.long_ago;
          freed = [];
        }))

  set_latency : NetworkSimulator A F T → F → NetworkSimulator A F T
  set_latency s milliseconds = update_active (record s { latency = milliseconds })

  set_jitter : NetworkSimulator A F T → F → NetworkSimulator A F T
  set_jitter s milliseconds = update_active (record s { jitter = milliseconds })

  set_packet_loss : NetworkSimulator A F T → F → NetworkSimulator A F T
  set_packet_loss s percent = update_active (record s { packet_loss = percent })

  set_duplicate : NetworkSimulator A F T → F → NetworkSimulator A F T
  set_duplicate s percent = update_active (record s { duplicate = percent })

  -- An entry that holds a packet to deliver before `now`.
  unfoldable pub is_due : T → PacketEntry A T → Bool
  is_due now e = elim e.packet_data [ none ↦ false | some d ↦ world.before e.delivery_time now ]

  -- The walk of `UpdatePendingReceivePackets`: the entries it leaves, and those it moves.
  unfoldable pub move_due :
      T → List (PacketEntry A T) → List (PacketEntry A T) × List (PacketEntry A T)
  unfolding is_due
  move_due now [] = ([], [])
  move_due now (e ∷ es) =
      let (kept, moved) = move_due now es in
      if is_due now e
      then (record e { packet_data = none } ∷ kept, e ∷ moved)
      else (e ∷ kept, moved)

  -- `UpdatePendingReceivePackets`
  unfoldable pub update_pending_receive_packets : NetworkSimulator A F T → NetworkSimulator A F T
  unfolding move_due packets
  update_pending_receive_packets s =
      let (kept, moved) = move_due s.time s.packet_entries in
      if world.at_least s.last_pending_receive_time s.time then s else record s {
        last_pending_receive_time = s.time;
        packet_entries = kept;
        pending_receive_packets = moved;
        freed = s.freed ++ packets s.pending_receive_packets;
      }

  -- `AdvanceTime`
  unfoldable pub advance_time : NetworkSimulator A F T → T → NetworkSimulator A F T
  unfolding update_pending_receive_packets
  advance_time s time = update_pending_receive_packets (record s { time = time })

  -- An entry that a packet is written into.
  fill_entry : A → A → List ℕ → ℕ → T → PacketEntry A T
  fill_entry from to packet_data packet_size delivery_time = record {
    from = from;
    to = to;
    delivery_time = delivery_time;
    packet_data = some packet_data;
    packet_size = packet_size;
  }

  -- `SendPacket` behind the packet loss; what the duplicate overwrites is not freed.
  unfoldable pub send_delayed :
      NetworkSimulator A F T → Draws F T → A → A → List ℕ → ℕ → Option (NetworkSimulator A F T)
  unfolding fill_entry packets
  send_delayed s draws from to packet_data packet_size = do
    packet_entry ← get_elem? s.packet_entries s.current_index
    let latency = world.seconds s.latency
    let delay =
        if world.is_positive s.jitter
        then world.plus latency (world.seconds draws.jitter)
        else latency
    let delivery = world.plus s.time delay
    let entries =
        set s.packet_entries s.current_index (fill_entry from to packet_data packet_size delivery)
    let next = (s.current_index + 1) % s.num_packet_entries
    let freed = s.freed ++ packets (packet_entry ∷ [])
    some (
        if world.at_most draws.duplicate s.duplicate
        then record s {
          packet_entries =
              set entries next
                (fill_entry from to packet_data packet_size (world.plus delivery draws.extra));
          current_index = (next + 1) % s.num_packet_entries;
          freed = freed;
        }
        else record s { packet_entries = entries; current_index = next; freed = freed })

  -- `SendPacket`
  unfoldable pub send_packet :
      NetworkSimulator A F T → Draws F T → A → A → List ℕ → ℕ → Option (NetworkSimulator A F T)
  unfolding send_delayed
  send_packet s draws from to packet_data packet_size = do
    assert (world.is_valid from)
    assert (world.is_valid to)
    assert (ltb 0 packet_size)
    if world.at_most draws.loss s.packet_loss
        then some (record s { freed = s.freed ++ (packet_data ∷ []) })
        else send_delayed s draws from to packet_data packet_size

  -- The loop of the receiving functions over the entries that it reaches: what is given for the data of
  -- an entry, and the entries as they are left.
  unfoldable pub receive_from :
      {R : Type 0}
      → (List ℕ → PacketEntry A T → R)
      → (A → Bool)
      → List (PacketEntry A T)
      → List R × List (PacketEntry A T)
  receive_from give wanted [] = ([], [])
  receive_from give wanted (e ∷ es) =
      let (out, left) = receive_from give wanted es in
      elim e.packet_data [
        | none ↦ (out, e ∷ left)
        | some d ↦
            if wanted e.to
            then (give d e ∷ out, record e { packet_data = none } ∷ left)
            else (out, e ∷ left)
      ]

  unfoldable pub receive_where :
      {R : Type 0}
      → (List ℕ → PacketEntry A T → R)
      → (A → Bool)
      → NetworkSimulator A F T
      → ℕ
      → List R × NetworkSimulator A F T
  unfolding receive_from
  receive_where give wanted s max_packets =
      let reached = min max_packets (length s.pending_receive_packets) in
      let (out, left) = receive_from give wanted (take reached s.pending_receive_packets) in
      (out, record s { pending_receive_packets = left ++ drop reached s.pending_receive_packets })

  -- `ReceivePackets`
  receive_packets : NetworkSimulator A F T → ℕ → List (ReceivedAnywhere A) × NetworkSimulator A F T
  unfolding receive_where
  receive_packets =
      receive_where
        (λ d e. record { packet_data = d; packet_size = e.packet_size; from = e.from; to = e.to })
        (λ to. true)

  -- `ReceivePacketsSentToAddress`
  unfoldable pub receive_packets_sent_to_address :
      NetworkSimulator A F T → ℕ → A → List (Received A) × NetworkSimulator A F T
  unfolding receive_where
  receive_packets_sent_to_address s max_packets address =
      receive_where (λ d e. record { packet_data = d; packet_size = e.packet_size; from = e.from })
        (λ to. world.same_address to address) s max_packets

  -- The loops of the discarding functions: what is freed, and the entries after it.
  discard_where : (A → Bool) → List (PacketEntry A T) → List (List ℕ) × List (PacketEntry A T)
  discard_where wanted [] = ([], [])
  discard_where wanted (e ∷ es) =
      let (freed, left) = discard_where wanted es in
      elim e.packet_data [
        | none ↦ (freed, e ∷ left)
        | some d ↦ if wanted e.from then (d ∷ freed, no_packet ∷ left) else (freed, e ∷ left)
      ]

  -- `DiscardPackets`
  discard_packets : NetworkSimulator A F T → NetworkSimulator A F T
  unfolding discard_where
  discard_packets s =
      let (freed, entries) = discard_where (λ from. true) s.packet_entries in
      let (freed_pending, pending) = discard_where (λ from. true) s.pending_receive_packets in
      record s {
        packet_entries = entries;
        pending_receive_packets = [];
        freed = s.freed ++ freed ++ freed_pending;
      }

  -- `DiscardPacketsFromAddress`
  discard_packets_from_address : NetworkSimulator A F T → A → NetworkSimulator A F T
  unfolding discard_where
  discard_packets_from_address s address =
      let (freed, entries) =
        discard_where (λ from. world.same_address from address) s.packet_entries in
      let (freed_pending, pending) =
        discard_where (λ from. world.same_address from address) s.pending_receive_packets in
      record s {
        packet_entries = entries;
        pending_receive_packets = pending;
        freed = s.freed ++ freed ++ freed_pending;
      }

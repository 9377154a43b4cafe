-- ===== src/ReplayProtection/Laws.antt =====
-- The ring of 64 entries against the filter that forgets nothing.
use libyojimbo.Prelude.{
  ℕ, ◌+◌, ◌/◌, ◌%◌, ◌^◌, ◌≤◌, ◌<◌, ◌≡◌, ◌⊎◌, inl, refl, ap, ap₂, ◌∙◌, arith, true, false, not, List,
  [], ◌∷◌, leb, ◌==◌, if◌then◌else◌, bit_and, max, length, get_or, set, length-set, get_or-set_self,
  get_or-set_ne, All, length-replicate, get_or-replicate,
}
use native.Mathlib.Decide.{ℕ_discrete, dec_lt}
use libyojimbo.Prelude.Bits.{bit_and_high, bit_and_mask}
use libyojimbo.ReplayProtection.Received
use libyojimbo.ReplayProtection.Received.{Received, member, filter}
use libyojimbo.ReplayProtection.{
  ReplayProtection, no_packet, reset, check_entry, packet_already_received, run,
}

-- The high bit of a `uint64_t` marks a global packet.
high_bit : (s : ℕ) → s < 2 ^ 64 → not (bit_and s (2 ^ 63) == 0) ≡ leb (2 ^ 63) s
high_bit s h = ground (arith, bit_and_high 63 s 1, bit_and_mask 1 (s / 2 ^ 63))

-- The entry of the ring that belongs to a sequence number.
abbrev pub entry : ReplayProtection → ℕ → ℕ
entry p s = get_or p.received_packet (s % 64) no_packet

-- The ring has 64 entries; an entry is empty, or holds a number of its own index that is not above
-- the most recent one; and the abstract filter has let in, within the window, just what it holds.
pub record Agrees (p : ReplayProtection) (r : Received) : Type 0 where
  pub size : length p.received_packet ≡ 64
  pub same_top : p.most_recent_sequence ≡ r.most_recent
  pub top_fits : p.most_recent_sequence < 2 ^ 63
  pub placed :
      (i : ℕ)
      → i < 64
      → (get_or p.received_packet i no_packet ≡ no_packet)
        ⊎ ((get_or p.received_packet i no_packet % 64 ≡ i)
            × (get_or p.received_packet i no_packet ≤ p.most_recent_sequence))
  pub below : (t : ℕ) → member t r.let_in ≡ true → t ≤ r.most_recent
  pub same : (t : ℕ) → t < 2 ^ 63 → r.most_recent < t + 64 → (entry p t == t) ≡ member t r.let_in

-- The ring with one entry written.
abbrev store : ReplayProtection → ℕ → ReplayProtection
store p s = record p { received_packet = set p.received_packet (s % 64) s }

entry-store :
    (es : List ℕ) (s i : ℕ)
    → length es ≡ 64
    → get_or (set es (s % 64) s) i no_packet ≡ (if i == s % 64 then s else get_or es i no_packet)
entry-store es s i h = elim (ℕ_discrete i (s % 64)) [
  | yes e ↦ ground (arith, get_or-set_self es (s % 64) s no_packet)
  | no ne ↦ ground (arith, get_or-set_ne es (s % 64) i s no_packet)
]

-- Raising the most recent number keeps the agreement.
raise_Agrees :
    (p : ReplayProtection) (r : Received) (top : ℕ)
    → Agrees p r
    → r.most_recent ≤ top
    → top < 2 ^ 63
    → Agrees (record p { most_recent_sequence = top }) (record r { most_recent = top })
raise_Agrees p r top a h fits = record {
  size = a.size;
  same_top = refl;
  top_fits = fits;
  placed = λ i hi. ground (arith, a.placed i hi);
  below = λ t m. omega (arith, a.below t m);
  same = λ t ht w. a.same t ht (omega arith);
}

module _ (p : ReplayProtection) (r : Received) (s : ℕ) (a : Agrees p r) (top : s ≤ r.most_recent)
    (within : r.most_recent < s + 64) where
  -- A number of the window that lies in the ring at its own index is no other number of the window.
  entry_cases : (entry p s ≡ no_packet) ⊎ ((entry p s ≡ s) ⊎ (entry p s < s))
  entry_cases = ground (arith, a.placed (s % 64))

  -- Letting a number in keeps the agreement.
  store-Agrees : member s r.let_in ≡ false → Agrees (store p s) (record r { let_in = s ∷ r.let_in })
  unfolding member
  store-Agrees new = record {
    size = length-set p.received_packet (s % 64) s ∙ a.size;
    same_top = a.same_top;
    top_fits = a.top_fits;
    placed = λ i hi. ground (arith, a.placed i hi, entry-store p.received_packet s i a.size);
    below = λ t m. ground (arith, a.below t);
    same = λ t ht w.
        ground (arith, a.same t ht w, a.below t, entry-store p.received_packet s (t % 64) a.size);
  }

  check_entry-Agrees :
      ((check_entry p s).0 ≡ member s r.let_in)
      × Agrees
          (check_entry p s).1
          (if member s r.let_in then r else record r { let_in = s ∷ r.let_in })
  unfolding check_entry
  check_entry-Agrees = ground (arith, entry_cases, a.same s, a.top_fits, a.same_top, store-Agrees)

-- The three ways through the two functions.
passes_global :
    (p : ReplayProtection) (r : Received) (s : ℕ)
    → 2 ^ 63 ≤ s
    → s < 2 ^ 64
    → (packet_already_received p s ≡ (false, p)) × (filter r s ≡ (false, r))
unfolding packet_already_received filter
passes_global p r s lo hi = (rw (high_bit s hi) (ground arith), ground arith)

refuses_old :
    (p : ReplayProtection) (r : Received) (s : ℕ)
    → s < 2 ^ 63
    → p.most_recent_sequence ≡ r.most_recent
    → s + 64 ≤ r.most_recent
    → (packet_already_received p s ≡ (true, p)) × (filter r s ≡ (true, r))
unfolding packet_already_received filter
refuses_old p r s h e old = (rw (high_bit s (omega arith)) (ground arith), ground arith)

checks_entry :
    (p : ReplayProtection) (s : ℕ)
    → s < 2 ^ 63
    → p.most_recent_sequence < s + 64
    → packet_already_received p s
      ≡ check_entry (record p { most_recent_sequence = max p.most_recent_sequence s }) s
unfolding packet_already_received
checks_entry p s h w =
    rw (high_bit s (omega arith))
      (elim (dec_lt p.most_recent_sequence s) [ yes lt ↦ ground arith | no ge ↦ ground arith ])

looks_up :
    (r : Received) (s : ℕ)
    → s < 2 ^ 63
    → r.most_recent < s + 64
    → let r' = record r { most_recent = max r.most_recent s } in
      filter r s
      ≡ (member s r.let_in, if member s r.let_in then r' else record r' { let_in = s ∷ r.let_in })
unfolding filter
looks_up r s h w = ground arith

-- One packet: the same answer, and states that still agree.
packet-Agrees :
    (p : ReplayProtection) (r : Received) (s : ℕ)
    → s < 2 ^ 64
    → Agrees p r
    → ((packet_already_received p s).0 ≡ (filter r s).0)
      × Agrees (packet_already_received p s).1 (filter r s).1
packet-Agrees p r s h a = elim (dec_lt s (2 ^ 63)) [
  | yes lt ↦ elim (dec_lt r.most_recent (s + 64)) [
    | yes w ↦
        let top = max p.most_recent_sequence s in
        let same_top : top ≡ max r.most_recent s = ap (λ t. max t s) a.same_top in
        rw (checks_entry p s lt (omega arith), looks_up r s lt w, ← same_top)
          (check_entry-Agrees (record p { most_recent_sequence = top })
            (record r { most_recent = top }) s (raise_Agrees p r top a (omega arith) (omega arith))
            (omega arith) (omega arith))
    | no w ↦ let (e, f) = refuses_old p r s lt a.same_top (omega arith) in rw (e, f) (refl, a)
  ]
  | no ge ↦ let (e, f) = passes_global p r s (omega arith) h in rw (e, f) (refl, a)
]

run-Agrees :
    (p : ReplayProtection) (r : Received) (ss : List ℕ)
    → All (λ s. s < 2 ^ 64) ss
    → Agrees p r
    → run p ss ≡ Received.run r ss
unfolding run Received.run
run-Agrees p r [] hs a = refl
run-Agrees p r (s ∷ ss) hs a =
    let (same_answer, a') = packet-Agrees p r s hs.0 a in
    ap₂ ◌∷◌ same_answer (run-Agrees (packet_already_received p s).1 (filter r s).1 ss hs.1 a')

reset-Agrees :
    (start : ℕ)
    → start < 2 ^ 63
    → Agrees (reset start) (record { most_recent = start; let_in = [] })
unfolding reset member
reset-Agrees start h = record {
  size = length-replicate 64 no_packet;
  same_top = refl;
  top_fits = h;
  placed = λ i hi. inl (get_or-replicate 64 i no_packet);
  below = λ t m. cc;
  same = λ t ht w. ground (arith, get_or-replicate 64 (t % 64) no_packet);
}

-- From a start at any number below 2 ^ 63, on every sequence of 64-bit packet numbers, the ring gives
-- the answers of the filter that remembers every number it let in.
pub run-Received :
    (start : ℕ) (ss : List ℕ)
    → start < 2 ^ 63
    → All (λ s. s < 2 ^ 64) ss
    → run (reset start) ss ≡ Received.run (record { most_recent = start; let_in = [] }) ss
run-Received start ss h hs = run-Agrees _ _ ss hs (reset-Agrees start h)

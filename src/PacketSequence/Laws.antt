-- ===== src/PacketSequence/Laws.antt =====
-- What is read from a packet sequence that was sent, and from its prefix.
use libyojimbo.Prelude.{
  ℕ, zero, suc, ◌+◌, ◌*◌, ◌%◌, ◌^◌, ◌≤◌, ◌<◌, ◌≡◌, inl, inr, ◌≢◌, refl, ap, ap₂, ◌∙◌, arith, List,
  [], ◌∷◌, ◌++◌, some, ◌==◌, bit_and, bit_or, get_elem?, length, length-append, drop, Bool-cases,
  ==_iff, false,
}
use libyojimbo.Prelude.Bits.{bit_and_mask, mul-pow-suc}
use libyojimbo.PacketSequence.{
  compress_from, compress_packet_sequence, count_from, get_packet_sequence_bytes, decompress_from,
  decompress_packet_sequence,
}
use libyojimbo.PacketSequence.Bytes.{
  byte_at, high_bytes, high_mask, high_mask-lt, bit_or_fields_high, pow_byte, masked_byte,
  mask_shifts, prefix_bit, prefix_no_bit, value_step,
}
use native.Mathlib.Nat.{
  pow-suc, one-le-pow, mod-lt, pow-le-pow_right, mod-eq_of_lt, mul-le-mul_right,
}
use mathlib.Core.List.{append_assoc, append-nil}

-- The loop of the compression, from its state at `i`.
compress_from_lem :
    (i sequence prefix : ℕ) (bytes : List ℕ)
    → compress_from i sequence (255 * 2 ^ (i * 8)) (prefix * 2 ^ i) bytes
      ≡ (prefix * 2 ^ i + high_mask i sequence, bytes ++ high_bytes i sequence)
unfolding compress_from
compress_from_lem zero sequence prefix bytes =
    let e : prefix * 1 + 0 ≡ prefix * 1 = omega arith in rw (e, append-nil bytes)
compress_from_lem (suc i) sequence prefix bytes =
    elim (Bool-cases (byte_at sequence (suc i) == 0)) [
      | inl z ↦
          let twice : prefix * 2 ^ suc i ≡ prefix * 2 * 2 ^ i =
            omega (arith, mul-pow-suc prefix i) in
          rw (masked_byte (suc i) sequence, z, mask_shifts i, twice)
            (compress_from_lem i sequence (prefix * 2) bytes)
      | inr k ↦
          let byte = byte_at sequence (suc i) in
          let below : 2 ^ i < 2 ^ suc i =
            omega (arith, pow-suc 2 i, one-le-pow i 2 (omega arith)) in
          let marked : bit_or (prefix * 2 ^ suc i) (2 ^ i) ≡ (prefix * 2 + 1) * 2 ^ i =
            bit_or_fields_high (suc i) prefix (2 ^ i) below ∙ omega (arith, mul-pow-suc prefix i) in
          let mask : (prefix * 2 + 1) * 2 ^ i + high_mask i sequence
              ≡ prefix * 2 ^ suc i + (2 ^ i + high_mask i sequence) =
            omega (arith, mul-pow-suc prefix i) in
          rw (masked_byte (suc i) sequence, k, mask_shifts i, marked)
            (compress_from_lem i sequence (prefix * 2 + 1) (bytes ++ (byte ∷ []))
              ∙ ap₂ (λ m t. (m, t)) mask (append_assoc bytes (byte ∷ []) (high_bytes i sequence)))
    ]

nil-ne-cons : {x : ℕ} {xs : List ℕ} → ◌≢◌ {A = List ℕ} [] (x ∷ xs)
nil-ne-cons {x} {xs} e = absurd (omega (arith, ap length e))

pow-ne : (i : ℕ) → (2 ^ i == 0) ≡ false
pow-ne i = ground (arith, one-le-pow i 2 (omega arith))

get_elem?-drop :
    (bytes : List ℕ) (n b : ℕ) (rest : List ℕ)
    → drop n bytes ≡ b ∷ rest
    → (get_elem? bytes n ≡ some b) × (drop (n + 1) bytes ≡ rest)
get_elem?-drop [] zero b rest e = absurd (nil-ne-cons e)
get_elem?-drop [] (suc n) b rest e = absurd (nil-ne-cons e)
get_elem?-drop (x ∷ bytes) zero b rest e = (cc, cc)
get_elem?-drop (x ∷ bytes) (suc n) b rest e =
    let next : suc n + 1 ≡ suc (n + 1) = omega arith in rw next (get_elem?-drop bytes n b rest e)

count_from_lem :
    (i prefix n sequence : ℕ)
    → prefix % 2 ^ i ≡ high_mask i sequence
    → count_from i prefix n ≡ n + length (high_bytes i sequence)
unfolding count_from
count_from_lem zero prefix n sequence e = omega arith
count_from_lem (suc i) prefix n sequence e = elim (Bool-cases (byte_at sequence (suc i) == 0)) [
  | inl z ↦
      let (bit, below) =
        prefix_no_bit i prefix (high_mask i sequence) (high_mask-lt i sequence) (e ∙ rw z refl) in
      rw (bit, z) (count_from_lem i prefix n sequence below)
  | inr k ↦
      let (bit, below) =
        prefix_bit i prefix (high_mask i sequence) (high_mask-lt i sequence) (e ∙ rw k refl) in
      rw (bit, k, pow-ne i) (count_from_lem i prefix (n + 1) sequence below ∙ omega arith)
]

below_next :
    (byte place next : ℕ) → byte < 256 → 1 ≤ place → next ≡ place * 256 → byte * place < next
below_next byte place next h pos e =
    let most : byte * place ≤ 255 * place = mul-le-mul_right place (omega arith) in omega arith

shifted_acc : (i acc : ℕ) → acc * 2 ^ (suc (suc i) * 8) ≡ acc * 256 * 2 ^ (suc i * 8)
shifted_acc i acc = ap (λ t. acc * t) (pow_byte (suc i)) ∙ omega arith

-- A byte goes below what has been read, with no overflow.
byte_step :
    (i acc byte : ℕ)
    → byte < 256
    → suc i < 8
    → bit_or (acc * 2 ^ (suc (suc i) * 8)) (byte * 2 ^ (suc i * 8) % 2 ^ 64)
      ≡ (acc * 256 + byte) * 2 ^ (suc i * 8)
byte_step i acc byte h lt =
    let place = 2 ^ (suc i * 8) in
    let next : 2 ^ (suc (suc i) * 8) ≡ place * 256 = pow_byte (suc i) in
    let pos : 1 ≤ place = one-le-pow (suc i * 8) 2 (omega arith) in
    let below : byte * place < 2 ^ (suc (suc i) * 8) =
      below_next byte place (2 ^ (suc (suc i) * 8)) h pos next in
    let word : 2 ^ (suc (suc i) * 8) ≤ 2 ^ 64 =
      pow-le-pow_right {n = 2} (omega arith) {j = 64} (omega arith) in
    let fits : byte * place % 2 ^ 64 ≡ byte * place = mod-eq_of_lt (omega arith) in
    rw fits (
      bit_or_fields_high (suc (suc i) * 8) acc (byte * place) below
      ∙ omega (arith, shifted_acc i acc))

decompress_from_lem :
    (i prefix index acc sequence : ℕ) (bytes rest : List ℕ)
    → i < 8
    → prefix % 2 ^ i ≡ high_mask i sequence
    → drop index bytes ≡ high_bytes i sequence ++ (sequence % 2 ^ 8 ∷ rest)
    → decompress_from i prefix bytes index (acc * 2 ^ (suc i * 8))
      ≡ some (acc * 2 ^ (suc i * 8) + sequence % 2 ^ (suc i * 8))
unfolding decompress_from
decompress_from_lem zero prefix index acc sequence bytes rest lt e d =
    let (got, after) = get_elem?-drop bytes index (sequence % 2 ^ 8) rest d in
    rw got (ap some (bit_or_fields_high 8 acc (sequence % 2 ^ 8) (omega arith)))
decompress_from_lem (suc i) prefix index acc sequence bytes rest lt e d =
    elim (Bool-cases (byte_at sequence (suc i) == 0)) [
      | inl z ↦
          let (bit, below) =
            prefix_no_bit i prefix (high_mask i sequence) (high_mask-lt i sequence)
              (e ∙ rw z refl) in
          rw (bit, shifted_acc i acc)
            (decompress_from_lem i prefix index (acc * 256) sequence bytes rest (omega arith) below
                (d ∙ rw z refl)
              ∙ ap some (
                  omega (
                    arith,
                    value_step i sequence,
                    ap (λ t. t * 2 ^ (suc i * 8)) ((==_iff (byte_at sequence (suc i)) 0).0 z),
                  )))
      | inr k ↦
          let byte = byte_at sequence (suc i) in
          let (bit, below) =
            prefix_bit i prefix (high_mask i sequence) (high_mask-lt i sequence) (e ∙ rw k refl) in
          let (got, after) =
            get_elem?-drop bytes index byte (high_bytes i sequence ++ (sequence % 2 ^ 8 ∷ rest))
              (d ∙ rw k refl) in
          rw (bit, pow-ne i, got, byte_step i acc byte (mod-lt _ (omega arith)) lt)
            (decompress_from_lem i prefix (index + 1) (acc * 256 + byte) sequence bytes rest
                (omega arith) below after
              ∙ ap some (omega (arith, value_step i sequence, shifted_acc i acc)))
    ]

zero-plus : (n : ℕ) → 0 + n ≡ n
zero-plus n = omega arith

compress_lem :
    (sequence : ℕ)
    → compress_packet_sequence sequence
      ≡ (high_mask 7 sequence, high_bytes 7 sequence ++ (sequence % 2 ^ 8 ∷ []))
unfolding compress_packet_sequence
compress_lem sequence =
    ap (λ (r : ℕ × List ℕ). (r.0, r.1 ++ (bit_and sequence 255 ∷ [])))
      (compress_from_lem 7 sequence 0 [])
    ∙ ap (λ m. (m, high_bytes 7 sequence ++ (bit_and sequence 255 ∷ [])))
        (zero-plus (high_mask 7 sequence))
    ∙ ap (λ b. (high_mask 7 sequence, high_bytes 7 sequence ++ (b ∷ []))) (bit_and_mask 8 sequence)

length-high_bytes : (i sequence : ℕ) → length (high_bytes i sequence) ≤ i
length-high_bytes zero sequence = omega arith
length-high_bytes (suc i) sequence = elim (Bool-cases (byte_at sequence (suc i) == 0)) [
  | inl z ↦ rw z (omega (arith, length-high_bytes i sequence))
  | inr k ↦ rw k (omega (arith, length-high_bytes i sequence))
]

-- The bytes of a 64-bit sequence number, followed by any others, are read back as the number.
pub decompress-compress :
    (sequence : ℕ) (rest : List ℕ)
    → sequence < 2 ^ 64
    → decompress_packet_sequence
        (compress_packet_sequence sequence).0
        ((compress_packet_sequence sequence).1 ++ rest)
      ≡ some sequence
unfolding decompress_packet_sequence
decompress-compress sequence rest h =
    let own : high_mask 7 sequence % 2 ^ 7 ≡ high_mask 7 sequence =
      mod-eq_of_lt (high_mask-lt 7 sequence) in
    let whole : 0 + sequence % 2 ^ 64 ≡ sequence = omega (arith, mod-eq_of_lt h) in
    rw (compress_lem sequence) (
      decompress_from_lem 7 (high_mask 7 sequence) 0 0 sequence
        ((high_bytes 7 sequence ++ (sequence % 2 ^ 8 ∷ [])) ++ rest) rest (omega arith) own
        (append_assoc (high_bytes 7 sequence) (sequence % 2 ^ 8 ∷ []) rest)
      ∙ ap some whole)

-- The prefix byte of a sequence number leaves the top bit clear, and says how many bytes are sent, from 1 to 8.
pub get_packet_sequence_bytes-compress :
    (sequence : ℕ)
    → (get_packet_sequence_bytes (compress_packet_sequence sequence).0
        ≡ length (compress_packet_sequence sequence).1)
      × ((compress_packet_sequence sequence).0 < 128)
      × (1 ≤ length (compress_packet_sequence sequence).1)
      × (length (compress_packet_sequence sequence).1 ≤ 8)
unfolding get_packet_sequence_bytes
get_packet_sequence_bytes-compress sequence =
    let mask = high_mask 7 sequence in
    let bytes = high_bytes 7 sequence in
    let own : mask % 2 ^ 7 ≡ mask = mod-eq_of_lt (high_mask-lt 7 sequence) in
    let counted = count_from_lem 7 mask 0 sequence own in
    let sum = length-append bytes (sequence % 2 ^ 8 ∷ []) in
    rw (compress_lem sequence) (
      omega (arith, counted, sum),
      high_mask-lt 7 sequence,
      omega (arith, sum),
      omega (arith, sum, length-high_bytes 7 sequence),
    )

-- The prefix byte may carry a flag in its top bit: neither the number nor its length depends on it.
pub flagged-compress :
    (sequence : ℕ) (rest : List ℕ)
    → sequence < 2 ^ 64
    → (decompress_packet_sequence
          ((compress_packet_sequence sequence).0 + 128)
          ((compress_packet_sequence sequence).1 ++ rest)
        ≡ some sequence)
      × (get_packet_sequence_bytes ((compress_packet_sequence sequence).0 + 128)
          ≡ length (compress_packet_sequence sequence).1)
unfolding decompress_packet_sequence get_packet_sequence_bytes
flagged-compress sequence rest h =
    let mask = high_mask 7 sequence in
    let bytes = high_bytes 7 sequence in
    let own : (mask + 128) % 2 ^ 7 ≡ mask = omega (arith, high_mask-lt 7 sequence) in
    let whole : 0 + sequence % 2 ^ 64 ≡ sequence = omega (arith, mod-eq_of_lt h) in
    let counted = count_from_lem 7 (mask + 128) 0 sequence own in
    let sum = length-append bytes (sequence % 2 ^ 8 ∷ []) in
    (
      rw (compress_lem sequence) (
          decompress_from_lem 7 (mask + 128) 0 0 sequence
            ((bytes ++ (sequence % 2 ^ 8 ∷ [])) ++ rest) rest (omega arith) own
            (append_assoc bytes (sequence % 2 ^ 8 ∷ []) rest)
          ∙ ap some whole),
      rw (compress_lem sequence) (omega (arith, counted, sum)),
    )

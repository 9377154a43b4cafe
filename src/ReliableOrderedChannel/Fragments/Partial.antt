-- ===== src/ReliableOrderedChannel/Fragments/Partial.antt =====
-- A block of which some fragments have been received.
use libyojimbo.Prelude.{
  ℕ, zero, suc, ◌+◌, ◌-◌, ◌*◌, ◌/◌, min, ◌≤◌, ◌<◌, ◌≡◌, ◌≢◌, ◌⊎◌, inl, inr, refl, sym, ap, subst,
  ◌∙◌, arith, Bool, true, false, not, Option, none, some, List, ◌==◌, ==_iff, if◌then◌else◌,
  get_elem?, take, drop, length,
}
use libyojimbo.Message.{Message}
use libyojimbo.BitArray.{BitArray, get_bit}
use libyojimbo.BitArray.Laws.{set_bit_all}
use libyojimbo.BitArray.Laws
use libyojimbo.ReliableOrderedChannel.{ReceiveBlockData}
use libyojimbo.ReliableOrderedChannel.Fragments.Copy.{
  copied, copied-inside, copied-before, copied-after, length-copied, length-take, length-drop,
  get_elem?-take, get_elem?-drop, take_agreeing, count, count-full, count-more, fragment_of,
  in_fragment,
}
use native.Mathlib.Decide.{ℕ_discrete, dec_lt}
use native.Mathlib.Nat.{mul-le-mul_right, suc-mul}

abbrev pub is_set : Option ℕ → Bool
is_set none = false
is_set (some bit) = not (bit == 0)

-- Whether a fragment has been received.
abbrev pub has : BitArray → ℕ → Bool
has bits i = is_set (get_bit bits i)

-- A block of bytes, cut into `n` fragments of `size` bytes of which the last may be shorter.
pub record IsCut (size n : ℕ) (bytes : List ℕ) : Type 0 where
  pub size_pos : 0 < size
  pub some_fragments : 0 < n
  pub more : (n - 1) * size < length bytes
  pub enough : length bytes ≤ n * size

-- The state of a block of which some fragments have been received: what was copied agrees with the block.
pub record IsPartial {P : Type 0} (size n : ℕ) (bytes : List ℕ) (message : Message P)
    (block : ReceiveBlockData P) : Type 0 where
  pub bits : Laws.IsValid block.received_fragment
  pub covers : n ≤ block.received_fragment.size
  pub number : block.num_fragments ≡ n
  pub counted : block.num_received_fragments ≡ count n (has block.received_fragment)
  pub room : length bytes ≤ length block.block_data
  pub agrees :
      (i j : ℕ)
      → i < n
      → has block.received_fragment i ≡ true
      → i * size ≤ j
      → j < i * size + size
      → j < length bytes
      → get_elem? block.block_data j ≡ get_elem? bytes j
  pub first : has block.received_fragment 0 ≡ true → block.block_message ≡ some message
  pub last : has block.received_fragment (n - 1) ≡ true → block.block_size ≡ length bytes

times_suc : (n size : ℕ) → suc n * size ≡ n * size + size
times_suc n size = suc-mul n size

times_pred : (n size : ℕ) → 0 < n → n * size ≡ (n - 1) * size + size
times_pred zero size h = absurd (omega arith)
times_pred (suc n) size h =
    let back : n ≡ suc n - 1 = omega arith in times_suc n size ∙ ap (λ k. k * size + size) back

module _ {P : Type 0} (size n : ℕ) (bytes : List ℕ) (message : Message P)
    (cut : IsCut size n bytes) where
  -- Where all fragments have been received, the block has.
  pub complete :
      (block : ReceiveBlockData P)
      → IsPartial size n bytes message block
      → block.num_received_fragments ≡ block.num_fragments
      → (take block.block_size block.block_data ≡ bytes) × (block.block_message ≡ some message)
  complete block v done =
      let all = λ (i : ℕ) (hi : i < n).
        count-full n i (has block.received_fragment) (sym v.counted ∙ done ∙ v.number) hi in
      let whole = v.last (all (n - 1) (omega (arith, cut.some_fragments))) in
      (
        ap (λ k. take k block.block_data) whole
            ∙ take_agreeing block.block_data bytes v.room (λ j hj.
              let (lt, above, below) =
                in_fragment size n j cut.size_pos (omega (arith, cut.enough)) in
              v.agrees (j / size) j lt (all (j / size) lt) above below hj),
        v.first (all 0 cut.some_fragments),
      )

  -- A fragment lies in the block.
  fragment_lies :
      (i : ℕ)
      → i < n
      → (length (fragment_of size bytes i) ≡ min size (length bytes - i * size))
        × (i * size + length (fragment_of size bytes i) ≤ length bytes)
        × (i * size < length bytes)
  fragment_lies i hi =
      let long : i * size ≤ (n - 1) * size = mul-le-mul_right size (omega arith) in
      let len : length (fragment_of size bytes i) ≡ min size (length bytes - i * size) =
        omega (arith, length-take size (drop (i * size) bytes), length-drop (i * size) bytes) in
      (len, omega (arith, len, long, cut.more), omega (arith, long, cut.more))

  -- The last fragment ends with the block.
  pub last_ends : (n - 1) * size + length (fragment_of size bytes (n - 1)) ≡ length bytes
  last_ends =
      let (len, _, _) = fragment_lies (n - 1) (omega (arith, cut.some_fragments)) in
      let all = times_pred n size cut.some_fragments in
      omega (arith, len, all, cut.enough, cut.more)

  -- What a copy of a fragment leaves of the block.
  module _ (block : ReceiveBlockData P) (v : IsPartial size n bytes message block) (i : ℕ)
      (hi : i < n) where
    abbrev piece : List ℕ
    piece = fragment_of size bytes i

    abbrev pasted : List ℕ
    pasted = copied block.block_data (i * size) piece

    pub fits : i * size + length piece ≤ length block.block_data
    fits = let (_, inside, _) = fragment_lies i hi in omega (arith, inside, v.room)

    -- At an index of the fragment there is its byte.
    pasted-own :
        (j : ℕ)
        → i * size ≤ j
        → j < i * size + size
        → j < length bytes
        → get_elem? pasted j ≡ get_elem? bytes j
    pasted-own j above below inside =
        let (len, _, _) = fragment_lies i hi in
        let k = j - i * size in
        let at : i * size + k ≡ j = omega (arith, above) in
        ap (get_elem? pasted) (sym at)
        ∙ copied-inside block.block_data piece (i * size) k fits
            (omega (arith, len, at, below, inside))
        ∙ get_elem?-take size k (drop (i * size) bytes) (omega (arith, at, below))
        ∙ get_elem?-drop (i * size) k bytes
        ∙ ap (get_elem? bytes) at

    -- Anywhere else there is what was there.
    pasted-other :
        (j : ℕ)
        → (j < i * size) ⊎ (i * size + size ≤ j)
        → get_elem? pasted j ≡ get_elem? block.block_data j
    pasted-other j (inl before) = copied-before block.block_data piece (i * size) j fits before
    pasted-other j (inr past) =
        let (len, _, _) = fragment_lies i hi in
        let k = j - (i * size + length piece) in
        let at : i * size + length piece + k ≡ j = omega (arith, len, past) in
        ap (get_elem? pasted) (sym at)
        ∙ copied-after block.block_data piece (i * size) k fits
        ∙ ap (get_elem? block.block_data) at

    -- Fragments do not overlap.
    apart :
        (i' j : ℕ)
        → i' ≢ i
        → i' * size ≤ j
        → j < i' * size + size
        → (j < i * size) ⊎ (i * size + size ≤ j)
    apart i' j ne above below = elim (dec_lt i' i) [
      | yes lt ↦
          let le : suc i' * size ≤ i * size = mul-le-mul_right size (omega arith) in
          let next : suc i' * size ≡ i' * size + size = times_suc i' size in
          inl (omega (arith, le, next, below))
      | no ge ↦
          let le : suc i * size ≤ i' * size = mul-le-mul_right size (omega arith) in
          let next : suc i * size ≡ i * size + size = times_suc i size in
          inr (omega (arith, le, next, above))
    ]

    -- The fragment stored.
    pub store-IsPartial :
        (bits : BitArray) (type : ℕ) (block_size : ℕ) (block_message : Option (Message P))
        → has block.received_fragment i ≡ false
        → Laws.IsValid bits
        → bits.size ≡ block.received_fragment.size
        → ((j : ℕ)
            → j < block.received_fragment.size
            → get_bit bits j ≡ (if j == i then some 1 else get_bit block.received_fragment j))
        → block_size ≡ (
            if i + 1 == block.num_fragments
            then (block.num_fragments - 1) * size + length piece
            else block.block_size)
        → block_message ≡ (if i == 0 then some message else block.block_message)
        → IsPartial size n bytes message (record block {
          received_fragment = bits;
          block_data = pasted;
          message_type = type;
          block_size = block_size;
          num_received_fragments = block.num_received_fragments + 1;
          block_message = block_message;
        })
    store-IsPartial bits type block_size block_message fresh valid same_size at sized told =
        let own : has bits i ≡ true =
          ap is_set (at i (omega (arith, v.covers)))
          ∙ ap (λ p. is_set (if p then some 1 else get_bit block.received_fragment i))
              ((==_iff i i).1 refl) in
        let others = λ (j : ℕ) (hj : j < n) (ne : j ≢ i).
          let differ : (j == i) ≡ false = ground arith in
          ap is_set (at j (omega (arith, v.covers)))
          ∙ ap (λ p. is_set (if p then some 1 else get_bit block.received_fragment j)) differ in
        record {
          bits = valid;
          covers = omega (arith, same_size, v.covers);
          number = v.number;
          counted =
              ap (λ k. k + 1) v.counted
              ∙ sym (count-more n i (has block.received_fragment) (has bits) hi fresh own others);
          room = omega (arith, v.room, length-copied block.block_data piece (i * size) fits);
          agrees = λ i' j hi' set above below inside. elim (ℕ_discrete i' i) [
            | yes e ↦
                pasted-own j (subst (λ k. k * size ≤ j) e above)
                  (subst (λ k. j < k * size + size) e below) inside
            | no ne ↦
                pasted-other j (apart i' j ne above below)
                ∙ v.agrees i' j hi' (sym (others i' hi' ne) ∙ set) above below inside
          ];
          first = λ set. elim (ℕ_discrete i 0) [
            | yes e ↦
                let now : (i == 0) ≡ true = (==_iff i 0).1 e in
                told ∙ ap (λ p. if p then some message else block.block_message) now
            | no ne ↦
                let differ : (i == 0) ≡ false = ground arith in
                let before : has block.received_fragment 0 ≡ true =
                  sym (others 0 cut.some_fragments (λ e. ne (sym e))) ∙ set in
                told
                ∙ ap (λ p. if p then some message else block.block_message) differ
                ∙ v.first before
          ];
          last = λ set. elim (ℕ_discrete i (n - 1)) [
            | yes e ↦
                let now : (i + 1 == block.num_fragments) ≡ true =
                  (==_iff _ _).1 (omega (arith, e, v.number, cut.some_fragments)) in
                let ends : (block.num_fragments - 1) * size + length piece ≡ length bytes =
                  ap (λ k. (k - 1) * size + length piece) v.number
                  ∙ ap (λ k. (n - 1) * size + length (fragment_of size bytes k)) e
                  ∙ last_ends in
                sized
                ∙ ap
                    (λ p.
                      if p
                      then (block.num_fragments - 1) * size + length piece
                      else block.block_size)
                    now
                ∙ ends
            | no ne ↦
                let differ : (i + 1 == block.num_fragments) ≡ false =
                  ground (arith, ne, v.number) in
                let before : has block.received_fragment (n - 1) ≡ true =
                  sym (others (n - 1) (omega (arith, cut.some_fragments)) (λ e. ne (sym e)))
                  ∙ set in
                sized
                ∙ ap
                    (λ p.
                      if p
                      then (block.num_fragments - 1) * size + length piece
                      else block.block_size)
                    differ
                ∙ v.last before
          ];
        }

-- ===== src/SequenceBuffer/Removing.antt =====
-- The window of sequence numbers, and what `RemoveEntries` leaves of it.
use libyojimbo.Prelude.{
  lt→ltb, ℕ, ◌+◌, ◌-◌, ◌%◌, ◌≤◌, ◌<◌, min, ◌≡◌, ◌≢◌, ◌⊎◌, sym, ◌∙◌, arith, Bool, true, false, not,
  ◌&&◌, ltb, leb, ◌==◌, if◌then◌else◌, length, get_or,
}
use libyojimbo.Sequence.Order.{steps_ahead}
use libyojimbo.SequenceBuffer.{SequenceBuffer, free, remove_from, remove_entries}
use libyojimbo.SequenceBuffer.Clearing.{
  rounds_before, length-remove_from, get_or-remove_from, rounds_before_injective, rounds_before-lt,
}
use libyojimbo.SequenceBuffer.Window.{rounds_before_behind, rounds_before_ahead}
use native.Mathlib.Nat.{mod-lt}
use native.Mathlib.Decide.{dec_lt}

-- The numbers that a buffer of `size` entries can hold when `top` is its next sequence: the last
-- `size` numbers before `top`.
abbrev pub in_window : ℕ → ℕ → ℕ → Bool
in_window size top e = ltb 0 (steps_ahead top e) && leb (steps_ahead top e) size

-- What an entry of the array of sequence numbers may hold.
abbrev pub Placed : ℕ → ℕ → ℕ → ℕ → Type 0
Placed size top i e = (e ≡ free) ⊎ ((e < 65536) × (e % size ≡ i) × (in_window size top e ≡ true))

pub record IsValid {ℓ} {A : Type ℓ} (b : SequenceBuffer A) : Type 0 where
  pub size_pos : 0 < b.size
  pub size_le : b.size ≤ 32768
  pub divides : 65536 % b.size ≡ 0
  pub top_fits : b.sequence < 65536
  pub sequences : length b.entry_sequence ≡ b.size
  pub values : length b.entries ≡ b.size
  pub placed : (i : ℕ) → i < b.size → Placed b.size b.sequence i (get_or b.entry_sequence i free)

-- How many sequence numbers `RemoveEntries` goes over, and how many entries that clears, before
-- `Insert` stores `s` into a buffer with top `m`. Across the wrap it stops one short of `s`.
abbrev pub span : ℕ → ℕ → ℕ
span m s = if ltb s m then s + 65535 + 1 - m else s + 1 - m

abbrev pub cleared : ℕ → ℕ → ℕ → ℕ
cleared size m s = min size (span m s)

-- An entry of the array of sequence numbers after `Insert` has moved the top past `s`.
abbrev slot_after : ℕ → ℕ → ℕ → ℕ → ℕ → ℕ
slot_after size m s i e =
    if i == s % size then s else if ltb (rounds_before size m i) (cleared size m s) then free else e

span_lem :
    (m s : ℕ)
    → m < 65536
    → s < 65536
    → (span m s ≡ steps_ahead s m) ⊎ (span m s ≡ steps_ahead s m + 1)
span_lem m s hm hs = ground arith

-- A number `behind` the old top is in round `size - behind`; the top moves `ahead + 1` steps.
leaving :
    (size round behind ahead n moved : ℕ)
    → round + behind ≡ size
    → 0 < behind
    → round ≢ ahead
    → (n ≡ ahead) ⊎ (n ≡ ahead + 1)
    → moved ≡ (behind + ahead + 1) % 65536
    → ahead < 32768
    → size ≤ 32768
    → ltb round (min size n) ≡ not (ltb 0 moved && leb moved size)
leaving size round behind ahead n moved e lo ne hn hm ha hs = ground arith

module _ (size m s : ℕ) (pos : 0 < size) (small : size ≤ 32768) (divides : 65536 % size ≡ 0)
    (hm : m < 65536) (hs : s < 65536) (ahead : steps_ahead s m < 32768) where
  -- A number of the old window that shares the entry of `s` leaves the window.
  pub shared_leaves :
      (t : ℕ)
      → t < 65536
      → in_window size m t ≡ true
      → t ≢ s
      → t % size ≡ s % size
      → in_window size ((s + 1) % 65536) t ≡ false
  shared_leaves t ht w ne e =
      ground
        (arith, rounds_before_behind size pos divides m t, rounds_before_ahead size pos divides m s)

  -- Any other number of the old window is cleared just where it leaves the window.
  pub cleared_leaves :
      (t : ℕ)
      → t < 65536
      → in_window size m t ≡ true
      → t % size ≢ s % size
      → ltb (rounds_before size m (t % size)) (cleared size m s)
        ≡ not (in_window size ((s + 1) % 65536) t)
  cleared_leaves t ht w ne =
      leaving size (rounds_before size m (t % size)) (steps_ahead m t) (steps_ahead s m) (span m s)
        (steps_ahead ((s + 1) % 65536) t)
        (rounds_before_behind size pos divides m t hm ht (ground arith) (ground arith))
        (ground arith) other_round (span_lem m s hm hs) (omega arith) ahead small
    where
      other_round : rounds_before size m (t % size) ≢ steps_ahead s m
      other_round e = ne (
          rounds_before_injective size pos m (t % size) (s % size) (mod-lt t pos) (mod-lt s pos) (
            e
            ∙ sym (
                rounds_before_ahead size pos divides m s hm hs
                  (let r = rounds_before-lt size pos m (t % size) in omega arith))))

module _ {ℓ} {A : Type ℓ} where
  remove_entries_near :
      (b : SequenceBuffer A) (s : ℕ)
      → IsValid b
      → ¬ (b.size < span b.sequence s)
      → (remove_entries b b.sequence s).entry_sequence
        ≡ remove_from b.size (span b.sequence s) b.sequence b.entry_sequence
  unfolding remove_entries
  remove_entries_near b s v h = elim (dec_lt s b.sequence) [
    | yes lt ↦
        let wraps : ltb s b.sequence ≡ true = lt→ltb s b.sequence lt in
        let near : ltb (s + 65535 - b.sequence) b.size ≡ true = ground arith in rw (wraps, near)
    | no ge ↦ ground arith
  ]

  remove_entries_far :
      (b : SequenceBuffer A) (s : ℕ)
      → b.size < span b.sequence s
      → (remove_entries b b.sequence s).entry_sequence
        ≡ remove_from b.size b.size 0 b.entry_sequence
  unfolding remove_entries
  remove_entries_far b s h = elim (dec_lt s b.sequence) [
    | yes lt ↦ ground arith
    | no ge ↦ ground arith
  ]

  pub remove_entries_lem :
      (b : SequenceBuffer A) (s i : ℕ)
      → IsValid b
      → i < b.size
      → get_or (remove_entries b b.sequence s).entry_sequence i free ≡ (
          if ltb (rounds_before b.size b.sequence i) (cleared b.size b.sequence s)
          then free
          else get_or b.entry_sequence i free)
  remove_entries_lem b s i v h = elim (dec_lt b.size (span b.sequence s)) [
    | yes far ↦ rw (remove_entries_far b s far) (
        ground (
          arith,
          rounds_before-lt b.size v.size_pos b.sequence i,
          rounds_before-lt b.size v.size_pos 0 i,
          get_or-remove_from b.size v.size_pos b.size 0 b.entry_sequence i,
        ))
    | no near ↦ rw (remove_entries_near b s v near) (
        ground (
          arith,
          get_or-remove_from b.size v.size_pos (span b.sequence s) b.sequence b.entry_sequence i,
        ))
  ]

  pub length-remove_entries :
      (b : SequenceBuffer A) (m s : ℕ)
      → 0 < b.size
      → length (remove_entries b m s).entry_sequence ≡ length b.entry_sequence
  unfolding remove_entries
  length-remove_entries b m s pos =
      let finish = if ltb s m then s + 65535 else s in
      ground (
        arith,
        length-remove_from b.size pos (finish + 1 - m) m b.entry_sequence,
        length-remove_from b.size pos b.size 0 b.entry_sequence,
      )

-- ===== src/SequenceBuffer/Insert.antt =====
-- `Insert`: the buffer just before the value is stored, whichever way the call goes.
use libyojimbo.Prelude.{
  Bool-cases, ℕ, ◌+◌, ◌-◌, ◌%◌, ◌≤◌, ◌<◌, ◌≡◌, ◌≢◌, inl, inr, refl, sym, ◌∙◌, arith, Bool, true,
  false, ◌&&◌, none, some, ◌==◌, if◌then◌else◌, length, get_or, set, get_or-set_self, get_or-set_ne,
}
use libyojimbo.Sequence.{sequence_greater_than, sequence_less_than}
use libyojimbo.Sequence.Order.{steps_ahead}
use libyojimbo.SequenceBuffer.{SequenceBuffer, free, remove_entries, occupy, insert, exists, put}
use libyojimbo.SequenceBuffer.Window.{same_index}
use libyojimbo.SequenceBuffer.Removing.{
  in_window, Placed, IsValid, shared_leaves, cleared_leaves, remove_entries_lem,
  length-remove_entries,
}
use native.Mathlib.Nat.{mod-lt}
use native.Mathlib.Decide.{ℕ_discrete}

-- The buffer with its top moved past `s`, as `Insert` leaves it for a newer number.
abbrev pub advance {ℓ} : {A : Type ℓ} → SequenceBuffer A → ℕ → SequenceBuffer A
advance b s = record b {
  sequence = (s + 1) % 65536;
  entry_sequence = (remove_entries b b.sequence s).entry_sequence;
}

-- The buffer with a value stored at its number.
abbrev pub stored {ℓ} : {A : Type ℓ} → SequenceBuffer A → ℕ → A → SequenceBuffer A
stored b s x = record b {
  entry_sequence = set b.entry_sequence (s % b.size) s;
  entries = set b.entries (s % b.size) x;
}

-- Whether `s` comes after all that the buffer has seen, and whether it is too far behind.
abbrev pub newer {ℓ} : {A : Type ℓ} → SequenceBuffer A → ℕ → Bool
newer b s = sequence_greater_than ((s + 1) % 65536) b.sequence

abbrev pub too_old {ℓ} : {A : Type ℓ} → SequenceBuffer A → ℕ → Bool
too_old b s = sequence_less_than s ((b.sequence + 65536 - b.size % 65536) % 65536)

module _ {ℓ} {A : Type ℓ} where
  pub put_cases :
      (b : SequenceBuffer A) (s : ℕ) (x : A)
      → put b s x ≡ (
          if newer b s
          then some (stored (advance b s) s x)
          else if too_old b s
          then none
          else some (stored b s x))
  unfolding put insert occupy remove_entries
  put_cases b s x = ground arith

  newer_ahead :
      (b : SequenceBuffer A) (s : ℕ)
      → b.sequence < 65536
      → s < 65536
      → newer b s ≡ true
      → steps_ahead s b.sequence < 32768
  unfolding sequence_greater_than
  newer_ahead b s hb hs h = ground arith

  kept_window :
      (b : SequenceBuffer A) (s : ℕ)
      → IsValid b
      → s < 65536
      → newer b s ≡ false
      → too_old b s ≡ false
      → 2 ≤ b.size
      → in_window b.size b.sequence s ≡ true
  unfolding sequence_greater_than sequence_less_than
  kept_window b s v hs h k two = ground arith

  pub exists-stored :
      (b : SequenceBuffer A) (s t : ℕ) (x : A)
      → length b.entry_sequence ≡ b.size
      → 0 < b.size
      → exists (stored b s x) t ≡ (if t % b.size == s % b.size then t == s else exists b t)
  unfolding exists
  exists-stored b s t x hs pos = elim (ℕ_discrete (t % b.size) (s % b.size)) [
    | yes e ↦
        rw e (ground (arith, get_or-set_self b.entry_sequence (s % b.size) s free, mod-lt s pos))
    | no ne ↦ ground (arith, get_or-set_ne b.entry_sequence (s % b.size) (t % b.size) s free)
  ]

  -- A valid buffer holds nothing outside its window.
  pub exists-in_window :
      (b : SequenceBuffer A) (t : ℕ)
      → IsValid b
      → t < 65536
      → exists b t ≡ true
      → in_window b.size b.sequence t ≡ true
  unfolding exists
  exists-in_window b t v ht h = ground (arith, v.placed (t % b.size) (mod-lt t v.size_pos))

  -- Away from the entry of `s`, moving the top keeps just what stays in the window.
  exists-advance :
      (b : SequenceBuffer A) (s t : ℕ)
      → IsValid b
      → s < 65536
      → t < 65536
      → steps_ahead s b.sequence < 32768
      → t % b.size ≢ s % b.size
      → exists (advance b s) t ≡ (in_window b.size ((s + 1) % 65536) t && exists b t)
  unfolding exists
  exists-advance b s t v hs ht h ne =
      rw (remove_entries_lem b s (t % b.size) v (mod-lt t v.size_pos))
        (elim (Bool-cases (exists b t)) [
          | inl e ↦
              let kept =
                cleared_leaves b.size b.sequence s v.size_pos v.size_le v.divides v.top_fits hs h t
                  ht (exists-in_window b t v ht e) ne in
              ground arith
          | inr e ↦ ground arith
        ])

  length-advance :
      (b : SequenceBuffer A) (s : ℕ) → IsValid b → length (advance b s).entry_sequence ≡ b.size
  length-advance b s v = length-remove_entries b b.sequence s v.size_pos ∙ v.sequences

  -- What the buffer is like just before a store of `s`: `b` with what leaves the window cleared.
  pub record Ready (b : SequenceBuffer A) (s : ℕ) (c : SequenceBuffer A) : Type ℓ where
    pub same_size : c.size ≡ b.size
    pub same_entries : c.entries ≡ b.entries
    pub lengths : length c.entry_sequence ≡ b.size
    pub top_fits : c.sequence < 65536
    pub covers : in_window c.size c.sequence s ≡ true
    pub keeps :
        (t : ℕ)
        → t < 65536
        → t % b.size ≢ s % b.size
        → exists c t ≡ (in_window c.size c.sequence t && exists b t)
    pub alone :
        (t : ℕ)
        → t < 65536
        → t ≢ s
        → t % b.size ≡ s % b.size
        → (in_window c.size c.sequence t && exists b t) ≡ false
    pub others :
        (i : ℕ)
        → i < b.size
        → i ≢ s % b.size
        → Placed b.size c.sequence i (get_or c.entry_sequence i free)

  advance_others :
      (b : SequenceBuffer A) (s : ℕ)
      → IsValid b
      → s < 65536
      → steps_ahead s b.sequence < 32768
      → (i : ℕ) → i < b.size
      → i ≢ s % b.size
      → Placed b.size ((s + 1) % 65536) i (get_or (advance b s).entry_sequence i free)
  advance_others b s v hs h i hi ne = rw (remove_entries_lem b s i v hi) (elim (v.placed i hi) [
    | inl empty ↦ inl (ground arith)
    | inr (lt, at_i, w) ↦
        let kept =
          cleared_leaves b.size b.sequence s v.size_pos v.size_le v.divides v.top_fits hs h
            (get_or b.entry_sequence i free) lt w (rw at_i ne) in
        ground arith
  ])

  advance-Ready :
      (b : SequenceBuffer A) (s : ℕ)
      → IsValid b
      → s < 65536
      → steps_ahead s b.sequence < 32768
      → Ready b s (advance b s)
  advance-Ready b s v hs h = record {
    same_size = refl;
    same_entries = refl;
    lengths = length-advance b s v;
    top_fits = omega arith;
    covers = ground (arith, v.size_pos);
    keeps = λ t ht ne. exists-advance b s t v hs ht h ne;
    alone = λ t ht ne e. elim (Bool-cases (exists b t)) [
      | inl w ↦ ground (
        arith,
        shared_leaves b.size b.sequence s v.size_pos v.size_le v.divides v.top_fits hs h t ht
            (exists-in_window b t v ht w) ne e,
      )
      | inr w ↦ ground arith
    ];
    others = advance_others b s v hs h;
  }

  same-Ready :
      (b : SequenceBuffer A) (s : ℕ)
      → IsValid b
      → s < 65536
      → in_window b.size b.sequence s ≡ true
      → Ready b s b
  same-Ready b s v hs h = record {
    same_size = refl;
    same_entries = refl;
    lengths = v.sequences;
    top_fits = v.top_fits;
    covers = h;
    keeps = λ t ht ne. ground (arith, exists-in_window b t v ht);
    alone = λ t ht ne e. elim (Bool-cases (in_window b.size b.sequence t)) [
      | inl w ↦ absurd (
          ne (
            same_index b.size v.size_pos v.divides b.sequence s t v.top_fits hs ht (ground arith)
              (ground arith) (ground arith) (ground arith) e))
      | inr w ↦ rw w
    ];
    others = λ i hi ne. v.placed i hi;
  }

  pub put-Ready :
      (b b' : SequenceBuffer A) (s : ℕ) (x : A)
      → IsValid b
      → 2 ≤ b.size
      → s < 65536
      → put b s x ≡ some b'
      → (c : SequenceBuffer A) × Ready b s c × (b' ≡ stored c s x)
  put-Ready b b' s x v two hs e = elim (Bool-cases (newer b s)) [
    | inl n ↦
        let p : some b' ≡ some (stored (advance b s) s x) = sym e ∙ put_cases b s x ∙ rw n in
        (advance b s, advance-Ready b s v hs (newer_ahead b s v.top_fits hs n), cc)
    | inr n ↦ elim (Bool-cases (too_old b s)) [
      | inl o ↦ let p : some b' ≡ none = sym e ∙ put_cases b s x ∙ rw (n, o) in cc
      | inr o ↦
          let p : some b' ≡ some (stored b s x) = sym e ∙ put_cases b s x ∙ rw (n, o) in
          (b, same-Ready b s v hs (kept_window b s v hs n o two), cc)
    ]
  ]

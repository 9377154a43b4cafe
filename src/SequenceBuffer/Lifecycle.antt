-- ===== src/SequenceBuffer/Lifecycle.antt =====
-- The buffer when it is new, and after `Remove`.
use libyojimbo.Prelude.{
  Bool-cases, lt→ltb, ℕ, ◌%◌, ◌≤◌, ◌<◌, ◌≡◌, inl, inr, refl, sym, ap, ◌∙◌, arith, true, false, not,
  ◌&&◌, none, some, ◌==◌, if◌then◌else◌, get_elem?, length, replicate, length-set, get_or-set_self,
  get_or-set_ne, length-replicate, get_or-replicate,
}
use libyojimbo.SequenceBuffer.{SequenceBuffer, free, reset, new, remove, exists, available, find}
use libyojimbo.SequenceBuffer.Removing.{IsValid}
use libyojimbo.SequenceBuffer.Laws.{find_lem}
use native.Mathlib.Nat.{mod-lt}
use native.Mathlib.Decide.{ℕ_discrete}

module _ {ℓ} {A : Type ℓ} where
  -- The constructor accepts each positive size that divides 65536 and is at most 32768, and makes a
  -- valid buffer in which no number is found.
  pub new_lem :
      (fresh : A) (size t : ℕ)
      → 0 < size
      → size ≤ 32768
      → 65536 % size ≡ 0
      → t < 65536
      → (b : SequenceBuffer A) × (new fresh size ≡ some b) × IsValid b × (find b t ≡ none)
  unfolding new
  new_lem fresh size t pos le divides ht = (
    empty,
    rw (lt→ltb 0 size pos),
    record {
      size_pos = pos;
      size_le = le;
      divides = divides;
      top_fits = omega arith;
      sequences = length-replicate size free;
      values = length-replicate size fresh;
      placed = λ i hi. inl (get_or-replicate size i free);
    },
    find_lem empty t
        ∙ ap (λ p. if p then get_elem? (replicate size fresh) (t % size) else none) absent,
  )
    where
      empty : SequenceBuffer A
      empty = record {
        size = size;
        sequence = 0;
        entry_sequence = replicate size free;
        entries = replicate size fresh;
      }

      absent : exists empty t ≡ false
      absent = unfold exists in ground (arith, get_or-replicate size (t % size) free)

  -- `Reset` makes a valid buffer in which no 16-bit number is found.
  pub reset-IsValid :
      (b : SequenceBuffer A)
      → 0 < b.size
      → b.size ≤ 32768
      → 65536 % b.size ≡ 0
      → length b.entries ≡ b.size
      → IsValid (reset b) × ((t : ℕ) → t < 65536 → find (reset b) t ≡ none)
  unfolding reset
  reset-IsValid b pos le divides values = (
    record {
      size_pos = pos;
      size_le = le;
      divides = divides;
      top_fits = omega arith;
      sequences = length-replicate b.size free;
      values = values;
      placed = λ i hi. inl (get_or-replicate b.size i free);
    },
    λ t ht.
        let absent : exists (reset b) t ≡ false =
          unfold exists reset in ground (arith, get_or-replicate b.size (t % b.size) free) in
        find_lem (reset b) t ∙ rw absent refl,
  )

  exists-remove :
      (b : SequenceBuffer A) (s t : ℕ)
      → IsValid b
      → t < 65536
      → exists (remove b s) t ≡ (not (t % b.size == s % b.size) && exists b t)
  unfolding exists remove
  exists-remove b s t v ht = elim (ℕ_discrete (t % b.size) (s % b.size)) [
    | yes e ↦ rw e (
        ground
          (arith, get_or-set_self b.entry_sequence (s % b.size) free free, mod-lt s v.size_pos))
    | no ne ↦ ground (arith, get_or-set_ne b.entry_sequence (s % b.size) (t % b.size) free free)
  ]

  -- After `Remove`, a number that shares the entry of the removed one is not found, whichever number
  -- the entry held; every other lookup in a valid buffer is as before.
  pub find-remove :
      (b : SequenceBuffer A) (s t : ℕ)
      → IsValid b
      → t < 65536
      → find (remove b s) t ≡ (if t % b.size == s % b.size then none else find b t)
  find-remove b s t v ht =
      rw (find_lem (remove b s) t, exists-remove b s t v ht, find_lem b t)
        (unfold remove in
          elim (Bool-cases (t % b.size == s % b.size)) [ inl e ↦ rw e | inr ne ↦ rw ne ])

  -- `Remove` keeps a valid buffer valid, and leaves the removed number's entry available.
  pub remove-IsValid :
      (b : SequenceBuffer A) (s : ℕ)
      → IsValid b
      → IsValid (remove b s) × (available (remove b s) s ≡ true)
  unfolding remove available
  remove-IsValid b s v = (
    record {
      size_pos = v.size_pos;
      size_le = v.size_le;
      divides = v.divides;
      top_fits = v.top_fits;
      sequences = length-set b.entry_sequence (s % b.size) free ∙ v.sequences;
      values = v.values;
      placed = λ i hi. elim (ℕ_discrete i (s % b.size)) [
        | yes e ↦ inl (
            rw e (
              get_or-set_self b.entry_sequence (s % b.size) free free
                (omega (arith, v.sequences, mod-lt s v.size_pos))))
        | no ne ↦
            rw (get_or-set_ne b.entry_sequence (s % b.size) i free free (λ e. ne (sym e)))
              (v.placed i hi)
      ];
    },
    ground (arith, get_or-set_self b.entry_sequence (s % b.size) free free, mod-lt s v.size_pos),
  )

  -- A 16-bit number that exists is not available, and it is the only number that exists at its entry.
  pub exists_unique :
      (b : SequenceBuffer A) (s t : ℕ)
      → s < 65536
      → s % b.size ≡ t % b.size
      → exists b s ≡ true
      → (available b t ≡ false) × (exists b t ≡ (s == t))
  unfolding exists available
  exists_unique b s t hs e h = ground arith

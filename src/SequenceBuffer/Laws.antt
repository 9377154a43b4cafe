-- ===== src/SequenceBuffer/Laws.antt =====
-- The buffer as a finite map from sequence numbers to values over a sliding window.
use libyojimbo.Prelude.{
  Bool-cases, ℕ, ◌+◌, ◌%◌, ◌≤◌, ◌<◌, ◌≡◌, ◌≢◌, ◌↔◌, ◌⊎◌, inl, inr, refl, sym, ap, ap₂, subst, ◌||◌,
  ==_iff, ◌∙◌, arith, true, false, not, ◌&&◌, none, some, ◌==◌, if◌then◌else◌, length, get_elem?,
  get_or, set, length-set, get_or-set_self, get_or-set_ne, get_elem?-set_self, get_elem?-set_ne,
}
use libyojimbo.Sequence.{sequence_greater_than, sequence_less_than}
use libyojimbo.Sequence.Order.{steps_ahead}
use libyojimbo.SequenceBuffer.{SequenceBuffer, free, exists, find, put}
use libyojimbo.SequenceBuffer.Removing.{in_window, Placed, IsValid}
use libyojimbo.SequenceBuffer.Insert.{
  newer, too_old, stored, advance, Ready, put_cases, exists-stored, put-Ready,
}
use native.Mathlib.Nat.{mod-lt}
use native.Mathlib.Decide.{ℕ_discrete}

module _ {ℓ} {A : Type ℓ} where
  stored-Placed :
      (b c : SequenceBuffer A) (s : ℕ) (x : A)
      → 0 < b.size
      → s < 65536
      → Ready b s c
      → (i : ℕ) → i < c.size
      → Placed c.size c.sequence i (get_or (stored c s x).entry_sequence i free)
  stored-Placed b c s x pos hs r i hi = elim (ℕ_discrete i (s % c.size)) [
    | yes e ↦
        rw
          (
            e,
            get_or-set_self c.entry_sequence (s % c.size) s free (
                omega (
                  arith,
                  r.lengths,
                  r.same_size,
                  mod-lt s {m = c.size} (omega (arith, r.same_size)),
                )),
          )
          (inr (hs, refl, r.covers))
    | no ne ↦ rw (get_or-set_ne c.entry_sequence (s % c.size) i s free (λ e. ne (sym e))) (
        subst (λ n. Placed n c.sequence i (get_or c.entry_sequence i free)) (sym r.same_size)
          (r.others i (omega (arith, r.same_size))
            (λ e. ne (e ∙ ap (λ n. s % n) (sym r.same_size)))))
  ]

  -- A store that a valid buffer of at least two entries accepts leaves it valid.
  pub put-IsValid :
      (b b' : SequenceBuffer A) (s : ℕ) (x : A)
      → IsValid b
      → 2 ≤ b.size
      → s < 65536
      → put b s x ≡ some b'
      → IsValid b'
  put-IsValid b b' s x v two hs e =
      let (c, r, at) = put-Ready b b' s x v two hs e in
      subst IsValid (sym at) (record {
        size_pos = omega (arith, r.same_size, v.size_pos);
        size_le = omega (arith, r.same_size, v.size_le);
        divides = ap (λ n. 65536 % n) r.same_size ∙ v.divides;
        top_fits = r.top_fits;
        sequences = length-set c.entry_sequence (s % c.size) s ∙ r.lengths ∙ sym r.same_size;
        values =
            length-set c.entries (s % c.size) x
            ∙ ap length r.same_entries
            ∙ v.values
            ∙ sym r.same_size;
        placed = stored-Placed b c s x v.size_pos hs r;
      })

  exists_Ready :
      (b c : SequenceBuffer A) (s t : ℕ) (x : A)
      → 0 < b.size
      → t < 65536
      → Ready b s c
      → exists (stored c s x) t ≡ ((t == s) || (in_window c.size c.sequence t && exists b t))
  exists_Ready b c s t x pos ht r =
      exists-stored c s t x (r.lengths ∙ sym r.same_size) (omega (arith, r.same_size))
      ∙ ground (arith, r.keeps t ht, r.alone t ht, r.same_size)

  pub find_lem :
      (b : SequenceBuffer A) (t : ℕ)
      → find b t ≡ (if exists b t then get_elem? b.entries (t % b.size) else none)
  unfolding find exists
  find_lem b t = elim (Bool-cases (exists b t)) [ inl e ↦ rw e | inr e ↦ rw e ]

  find-Ready :
      (b c : SequenceBuffer A) (s t : ℕ) (x : A)
      → IsValid b
      → t < 65536
      → Ready b s c
      → find (stored c s x) t
        ≡ (if t == s then some x else if in_window c.size c.sequence t then find b t else none)
  find-Ready b c s t x v ht r = elim (ℕ_discrete t s) [
    | yes e ↦
        rw
          (
            find_lem (stored c s x) t,
            exists_Ready b c s t x v.size_pos ht r,
            e,
            (==_iff s s).1 refl,
          )
          (get_elem?-set_self c.entries (s % c.size) x stored_in)
    | no ne ↦
        let other : (t == s) ≡ false = ground arith in
        let now =
          exists_Ready b c s t x v.size_pos ht r
          ∙ ap (λ p. p || (in_window c.size c.sequence t && exists b t)) other in
        rw (find_lem (stored c s x) t, now, find_lem b t, other) (same_value ne)
  ]
    where
      unshared :
          t ≢ s → (in_window c.size c.sequence t && exists b t) ≡ true → s % c.size ≢ t % c.size
      unshared ne h e =
          let e' : t % b.size ≡ s % b.size = subst (λ n. t % n ≡ s % n) r.same_size (sym e) in
          let p : true ≡ false = sym h ∙ r.alone t ht ne e' in cc

      same_value :
          t ≢ s
          → (if in_window c.size c.sequence t && exists b t
              then get_elem? (set c.entries (s % c.size) x) (t % c.size)
              else none)
            ≡ (if in_window c.size c.sequence t
                then (if exists b t then get_elem? b.entries (t % b.size) else none)
                else none)
      same_value ne = elim (Bool-cases (in_window c.size c.sequence t)) [
        | inl w ↦ elim (Bool-cases (exists b t)) [
          | inl f ↦
              rw (w, f)
                (get_elem?-set_ne c.entries (s % c.size) (t % c.size) x (unshared ne (rw (w, f)))
                  ∙ ap₂ get_elem? r.same_entries (ap (λ n. t % n) r.same_size))
          | inr f ↦ rw (w, f)
        ]
        | inr w ↦ rw w
      ]

      stored_in : s % c.size < length c.entries
      stored_in = omega (
        arith,
        mod-lt s {m = c.size} (omega (arith, r.same_size, v.size_pos)),
        ap length r.same_entries,
        v.values,
        r.same_size,
      )

  -- A lookup after a store that a valid buffer of at least two entries accepts: the value stored at
  -- its number; what was found before at any other number that the window still covers; nothing at
  -- the numbers that the window has left.
  pub find-put :
      (b b' : SequenceBuffer A) (s t : ℕ) (x : A)
      → IsValid b
      → 2 ≤ b.size
      → s < 65536
      → t < 65536
      → put b s x ≡ some b'
      → find b' t
        ≡ (if t == s then some x else if in_window b'.size b'.sequence t then find b t else none)
  find-put b b' s t x v two hs ht e =
      let (c, r, at) = put-Ready b b' s x v two hs e in rw at (find-Ready b c s t x v ht r)

  refuses_iff :
      (b : SequenceBuffer A) (s : ℕ)
      → IsValid b
      → 2 ≤ b.size
      → s < 65536
      → ((not (newer b s) && too_old b s) ≡ true) ↔ (
          (b.size < steps_ahead b.sequence s)
          × ((steps_ahead b.sequence s < 32769)
              ⊎ ((steps_ahead b.sequence s ≡ 32769) × ((s + 1) % 65536 < b.sequence))))
  unfolding sequence_greater_than sequence_less_than
  refuses_iff b s v two hs = ground arith

  -- `Insert` into a valid buffer of at least two entries refuses just the numbers that are more than
  -- `size` steps behind the top and not so far behind that they count as newer.
  pub put_refuses :
      (b : SequenceBuffer A) (s : ℕ) (x : A)
      → IsValid b
      → 2 ≤ b.size
      → s < 65536
      → (put b s x ≡ none) ↔ (
          (b.size < steps_ahead b.sequence s)
          × ((steps_ahead b.sequence s < 32769)
              ⊎ ((steps_ahead b.sequence s ≡ 32769) × ((s + 1) % 65536 < b.sequence))))
  put_refuses b s x v two hs =
      (λ e. (refuses_iff b s v two hs).0 (refused e), λ h. refuse ((refuses_iff b s v two hs).1 h))
    where
      refused : put b s x ≡ none → (not (newer b s) && too_old b s) ≡ true
      refused e = elim (Bool-cases (newer b s)) [
        | inl n ↦
            let p : none ≡ some (stored (advance b s) s x) = sym e ∙ put_cases b s x ∙ rw n in cc
        | inr n ↦ elim (Bool-cases (too_old b s)) [
          | inl o ↦ rw (n, o)
          | inr o ↦ let p : none ≡ some (stored b s x) = sym e ∙ put_cases b s x ∙ rw (n, o) in cc
        ]
      ]

      refuse : (not (newer b s) && too_old b s) ≡ true → put b s x ≡ none
      refuse h = elim (Bool-cases (newer b s)) [
        | inl n ↦ let p : false ≡ true = rw n at h in cc
        | inr n ↦ let p : too_old b s ≡ true = rw n at h in put_cases b s x ∙ rw (n, p)
      ]

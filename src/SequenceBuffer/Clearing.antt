-- ===== src/SequenceBuffer/Clearing.antt =====
-- Which entries the loop of `RemoveEntries` clears.
use libyojimbo.Prelude.{
  ℕ, zero, suc, ◌+◌, ◌-◌, ◌%◌, ◌≤◌, ◌<◌, ◌≡◌, ◌≢◌, refl, ◌∙◌, arith, List, ltb, ◌==◌, if◌then◌else◌,
  length, get_or, set, length-set, get_or-set_self, get_or-set_ne,
}
use libyojimbo.SequenceBuffer.{free, remove_from}
use native.Mathlib.Nat.{mod-eq_of_lt, mod-eq-sub-mod, mod-lt, mod-add-mod}
use native.Mathlib.Decide.{dec_lt, ℕ_discrete}

-- How many rounds of a walk round the array, started at `s`, come before the one at index `i`.
abbrev pub rounds_before : ℕ → ℕ → ℕ → ℕ
rounds_before size s i = (i + size - s % size) % size

module _ (size : ℕ) (pos : 0 < size) where
  -- The distance without its remainder.
  pub rounds_before_lem :
      (s i : ℕ)
      → i < size
      → rounds_before size s i ≡ (if ltb i (s % size) then i + size - s % size else i - s % size)
  rounds_before_lem s i h = elim (dec_lt i (s % size)) [
    | yes lt ↦ ground (arith, mod-lt s pos, mod-eq_of_lt {n = i + size - s % size} {m = size})
    | no ge ↦ ground (
      arith,
      mod-lt s pos,
      mod-eq-sub-mod {n = i + size - s % size} {m = size},
      mod-eq_of_lt {n = i + size - s % size - size} {m = size},
    )
  ]

  suc-mod_lem : (s : ℕ) → (s + 1) % size ≡ (if s % size + 1 == size then 0 else s % size + 1)
  suc-mod_lem s = elim (dec_lt (s % size + 1) size) [
    | yes lt ↦ ground (arith, mod-add-mod s size 1, mod-eq_of_lt {n = s % size + 1} {m = size})
    | no ge ↦ ground (
      arith,
      mod-lt s pos,
      mod-add-mod s size 1,
      mod-eq-sub-mod {n = s % size + 1} {m = size},
      mod-eq_of_lt {n = s % size + 1 - size} {m = size},
    )
  ]

  -- The walk starts at index `s % size`, and each round comes one nearer to the others.
  rounds_before_next :
      (s i : ℕ)
      → i < size
      → i ≢ s % size
      → rounds_before size s i ≡ suc (rounds_before size (s + 1) i)
  rounds_before_next s i h ne =
      ground
        (arith, mod-lt s pos, suc-mod_lem s, rounds_before_lem s i h, rounds_before_lem (s + 1) i h)

  rounds_before_self : (s : ℕ) → rounds_before size s (s % size) ≡ 0
  rounds_before_self s = ground (arith, mod-lt s pos, rounds_before_lem s (s % size))

  rounds_before_last : (s : ℕ) → suc (rounds_before size (s + 1) (s % size)) ≡ size
  rounds_before_last s =
      ground (arith, mod-lt s pos, suc-mod_lem s, rounds_before_lem (s + 1) (s % size))

  pub length-remove_from : (n s : ℕ) (es : List ℕ) → length (remove_from size n s es) ≡ length es
  unfolding remove_from
  length-remove_from zero s es = refl
  length-remove_from (suc n) s es =
      length-remove_from n (s + 1) (set es (s % size) free) ∙ length-set es (s % size) free

  -- Of the entries, just those that the walk reaches are cleared.
  pub get_or-remove_from :
      (n s : ℕ) (es : List ℕ) (i : ℕ)
      → length es ≡ size
      → n ≤ size
      → i < size
      → get_or (remove_from size n s es) i free
        ≡ (if ltb (rounds_before size s i) n then free else get_or es i free)
  unfolding remove_from
  get_or-remove_from zero s es i h hn hi = ground arith
  get_or-remove_from (suc n) s es i h hn hi =
      let es' = set es (s % size) free in
      let rest =
        get_or-remove_from n (s + 1) es' i (length-set es (s % size) free ∙ h) (omega arith) hi in
      elim (ℕ_discrete i (s % size)) [
        | yes e ↦ rest ∙ at_start e
        | no ne ↦
            rest
            ∙ ground (arith, rounds_before_next s i hi ne, get_or-set_ne es (s % size) i free free)
      ]
    where
      at_start :
          i ≡ s % size
          → (if ltb (rounds_before size (s + 1) i) n
              then free
              else get_or (set es (s % size) free) i free)
            ≡ (if ltb (rounds_before size s i) (suc n) then free else get_or es i free)
      at_start e = rw e (
          ground (
            arith,
            rounds_before_self s,
            rounds_before_last s,
            get_or-set_self es (s % size) free free,
          ))

  -- No two indices come in the same round.
  pub rounds_before_injective :
      (s i j : ℕ) → i < size → j < size → rounds_before size s i ≡ rounds_before size s j → i ≡ j
  rounds_before_injective s i j hi hj e =
      ground (arith, mod-lt s pos, rounds_before_lem s i hi, rounds_before_lem s j hj)

  pub rounds_before-lt : (s i : ℕ) → rounds_before size s i < size
  rounds_before-lt s i = mod-lt _ pos

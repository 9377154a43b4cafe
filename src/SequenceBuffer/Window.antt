-- ===== src/SequenceBuffer/Window.antt =====
-- Sequence numbers against the array: the size divides 65536, so that a walk over the sequence
-- numbers is a walk round the array, also across the wrap.
use libyojimbo.Prelude.{
  ℕ, ◌+◌, ◌-◌, ◌*◌, ◌/◌, ◌%◌, ◌≤◌, ◌<◌, ◌≡◌, ap, ◌∙◌, arith, ltb, if◌then◌else◌,
}
use libyojimbo.Sequence.Order.{steps_ahead}
use libyojimbo.SequenceBuffer.Clearing.{rounds_before, rounds_before_lem}
use native.Mathlib.Nat.{
  mod-eq_of_lt, mod-eq-sub-mod, mod-lt, mod-add-mod, div-add-mod, add-mul-mod_self_left,
}
use native.Mathlib.Decide.{dec_lt}

module _ (size : ℕ) (pos : 0 < size) (divides : 65536 % size ≡ 0) where
  -- Going `steps_ahead m e` steps from `e` on leads to the index of `m`.
  pub steps_ahead-mod :
      (m e : ℕ) → m < 65536 → e < 65536 → (e % size + steps_ahead m e) % size ≡ m % size
  steps_ahead-mod m e hm he = mod-add-mod e size (steps_ahead m e) ∙ elim (dec_lt m e) [
    | yes lt ↦ ap (λ t. t % size) (wrapped lt) ∙ add-mul-mod_self_left m size (65536 / size)
    | no ge ↦ ap (λ t. t % size) (omega arith)
  ]
    where
      whole : 65536 ≡ size * (65536 / size)
      whole = omega (arith, div-add-mod 65536 size)

      wrapped : m < e → e + steps_ahead m e ≡ m + size * (65536 / size)
      wrapped lt = omega (arith, whole)

  add-mod_lem :
      (a j : ℕ)
      → a < size
      → j ≤ size
      → (a + j) % size ≡ (if ltb (a + j) size then a + j else a + j - size)
  add-mod_lem a j ha hj = elim (dec_lt (a + j) size) [
    | yes lt ↦ ground (arith, mod-eq_of_lt {n = a + j} {m = size})
    | no ge ↦
        ground
          (arith, mod-eq-sub-mod {n = a + j} {m = size}, mod-eq_of_lt {n = a + j - size} {m = size})
  ]

  -- A walk from the index of `m` reaches a number up to `size` steps behind `m` in its last rounds.
  pub rounds_before_behind :
      (m e : ℕ)
      → m < 65536
      → e < 65536
      → 0 < steps_ahead m e
      → steps_ahead m e ≤ size
      → rounds_before size m (e % size) + steps_ahead m e ≡ size
  rounds_before_behind m e hm he lo hi =
      let j = steps_ahead m e in
      ground (
        arith,
        steps_ahead-mod m e hm he,
        mod-lt e pos,
        add-mod_lem (e % size) j,
        rounds_before_lem size pos m (e % size),
      )

  -- It reaches a number less than `size` steps ahead of `m` in as many rounds.
  pub rounds_before_ahead :
      (m s : ℕ)
      → m < 65536
      → s < 65536
      → steps_ahead s m < size
      → rounds_before size m (s % size) ≡ steps_ahead s m
  rounds_before_ahead m s hm hs lt =
      let j = steps_ahead s m in
      ground (
        arith,
        steps_ahead-mod s m hs hm,
        mod-lt m pos,
        mod-lt s pos,
        add-mod_lem (m % size) j,
        rounds_before_lem size pos m (s % size),
      )

  -- Two numbers of one window with the same index are one number.
  pub same_index :
      (m e t : ℕ)
      → m < 65536
      → e < 65536
      → t < 65536
      → 0 < steps_ahead m e
      → steps_ahead m e ≤ size
      → 0 < steps_ahead m t
      → steps_ahead m t ≤ size
      → t % size ≡ e % size
      → t ≡ e
  same_index m e t hm he ht le he' lt ht' i = omega (
    arith,
    rounds_before_behind m e hm he le he',
    rounds_before_behind m t hm ht lt ht',
    ap (λ (k : ℕ). rounds_before size m k) i,
  )

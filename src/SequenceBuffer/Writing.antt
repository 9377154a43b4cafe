-- ===== src/SequenceBuffer/Writing.antt =====
-- A write through the pointer that `Find` returns.
use libyojimbo.Prelude.{
  ℕ, ◌%◌, ◌<◌, ◌≡◌, inl, inr, refl, sym, ap, ◌∙◌, arith, true, false, none, some, ◌==◌, ==_iff,
  Bool-cases, if◌then◌else◌, length, get_elem?, get_or, set, length-set, get_elem?-set_self,
  get_elem?-set_ne,
}
use libyojimbo.SequenceBuffer.{SequenceBuffer, free, exists, find_index, read, write, find}
use libyojimbo.SequenceBuffer.Removing.{IsValid}
use libyojimbo.SequenceBuffer.Laws.{find_lem}
use native.Mathlib.Nat.{mod-lt}
use native.Mathlib.Decide.{ℕ_discrete}

module _ {ℓ} {A : Type ℓ} where
  -- Where `Find` points.
  pub find_index_lem :
      (b : SequenceBuffer A) (s : ℕ)
      → find_index b s ≡ (if exists b s then some (s % b.size) else none)
  unfolding find_index exists
  find_index_lem b s = refl

  pub read_lem : (b : SequenceBuffer A) (s : ℕ) → exists b s ≡ true → read b (s % b.size) ≡ find b s
  unfolding read
  read_lem b s e = sym (find_lem b s ∙ rw e refl)

  -- A write to an entry that exists keeps a buffer valid.
  pub write-IsValid : (b : SequenceBuffer A) (i : ℕ) (x : A) → IsValid b → IsValid (write b i x)
  unfolding write
  write-IsValid b i x v = record {
    size_pos = v.size_pos;
    size_le = v.size_le;
    divides = v.divides;
    top_fits = v.top_fits;
    sequences = v.sequences;
    values = length-set b.entries i x ∙ v.values;
    placed = v.placed;
  }

  pub exists-write : (b : SequenceBuffer A) (i t : ℕ) (x : A) → exists (write b i x) t ≡ exists b t
  unfolding write exists
  exists-write b i t x = refl

  find-write_lem :
      (b : SequenceBuffer A) (i t : ℕ) (x : A)
      → find (write b i x) t
        ≡ (if exists b t then get_elem? (set b.entries i x) (t % b.size) else none)
  unfolding write exists
  find-write_lem b i t x = find_lem (write b i x) t

  same_entry :
      (b : SequenceBuffer A) (s t : ℕ)
      → exists b s ≡ true
      → exists b t ≡ true
      → s % b.size ≡ t % b.size
      → t ≡ s
  unfolding exists
  same_entry b s t p q e =
      sym ((==_iff _ t).0 q) ∙ ap (λ i. get_or b.entry_sequence i free) (sym e) ∙ (==_iff _ s).0 p

  -- In a valid buffer, a write to the entry of a number that exists is found at that number, and every
  -- other lookup is as before.
  pub find-write :
      (b : SequenceBuffer A) (s t : ℕ) (x : A)
      → IsValid b
      → exists b s ≡ true
      → find (write b (s % b.size) x) t ≡ (if t == s then some x else find b t)
  find-write b s t x v there = elim (ℕ_discrete t s) [
    | yes e ↦
        let same : (t == s) ≡ true = (==_iff t s).1 e in
        let in_range : s % b.size < length b.entries =
          omega (arith, v.values, mod-lt s v.size_pos) in
        rw (same, e, find-write_lem b (s % b.size) s x, there)
          (get_elem?-set_self b.entries (s % b.size) x in_range)
    | no ne ↦
        let differ : (t == s) ≡ false = ground arith in
        rw (differ, find-write_lem b (s % b.size) t x, find_lem b t)
          (elim (Bool-cases (exists b t)) [
            | inl here ↦ rw here (
                get_elem?-set_ne b.entries (s % b.size) (t % b.size) x
                  (λ e. ne (same_entry b s t there here e)))
            | inr gone ↦ rw gone refl
          ])
  ]

-- ===== src/SequenceBuffer/Appending.antt =====
-- A store at the buffer's own next number, which callers that number their own entries make, and the
-- removal of a number that is found.
use libyojimbo.Prelude.{
  ℕ, ◌+◌, ◌%◌, ◌≤◌, ◌<◌, ◌≡◌, inl, inr, refl, sym, ap, ◌∙◌, arith, Bool, true, false, Option, none,
  some, ◌==◌, ==_iff, Bool-cases, Option-cases, if◌then◌else◌,
}
use libyojimbo.Sequence.Order.{steps_ahead, sequence_greater_than_ahead}
use libyojimbo.SequenceBuffer.{SequenceBuffer, find, exists, available, put, remove}
use libyojimbo.SequenceBuffer.Window.{steps_ahead-mod}
use libyojimbo.SequenceBuffer.Removing.{IsValid, in_window}
use libyojimbo.SequenceBuffer.Insert.{put_cases, newer, advance, stored}
use libyojimbo.SequenceBuffer.Laws.{find_lem, find-put}
use libyojimbo.SequenceBuffer.Lifecycle.{exists_unique, find-remove}
use mathlib.Core.Bool.{true≢false}
use native.Mathlib.Nat.{mod-mod, add-mod_right}
use native.Mathlib.Decide.{ℕ_discrete}

module _ {ℓ} {A : Type ℓ} where
  pub find-exists : (b : SequenceBuffer A) (t : ℕ) (x : A) → find b t ≡ some x → exists b t ≡ true
  find-exists b t x e = elim (Bool-cases (exists b t)) [
    | inl h ↦ h
    | inr h ↦ let p : none ≡ some x = sym (find_lem b t ∙ rw h refl) ∙ e in cc
  ]

  -- The buffer after a store at its next number.
  abbrev pub appended : SequenceBuffer A → A → SequenceBuffer A
  appended b x = stored (advance b b.sequence) b.sequence x

  -- The store succeeds.
  pub put-sequence :
      (b : SequenceBuffer A) (x : A) → b.sequence < 65536 → put b b.sequence x ≡ some (appended b x)
  put-sequence b x h =
      let ahead : newer b b.sequence ≡ true =
        sequence_greater_than_ahead b.sequence 1 h (omega arith) (omega arith) in
      put_cases b b.sequence x ∙ rw ahead refl

  -- A number that is found `size` steps behind the top takes the entry of the next number.
  pub available-behind :
      (b : SequenceBuffer A) (t : ℕ)
      → IsValid b
      → t < 65536
      → exists b t ≡ true
      → available b b.sequence ≡ true
      → ¬ (steps_ahead b.sequence t ≡ b.size)
  available-behind b t v ht here free far =
      let round : (t % b.size + b.size) % b.size ≡ b.sequence % b.size =
        ap (λ n. (t % b.size + n) % b.size) (sym far)
        ∙ steps_ahead-mod b.size v.size_pos v.divides b.sequence t v.top_fits ht in
      let same : t % b.size ≡ b.sequence % b.size =
        sym (mod-mod t b.size) ∙ sym (add-mod_right (t % b.size) b.size) ∙ round in
      let (taken, _) = exists_unique b t b.sequence ht same here in true≢false (sym free ∙ taken)

  unchanged : (p : Bool) → ◌≡◌ {A = Option A} (if p then none else none) none
  unchanged true = refl
  unchanged false = refl

  -- What is found after the store, where all that the buffer held stays in the window.
  pub find-appended :
      (b : SequenceBuffer A) (x : A) (t : ℕ)
      → IsValid b
      → 2 ≤ b.size
      → t < 65536
      → ((y : A) → find b t ≡ some y → steps_ahead b.sequence t < b.size)
      → find (appended b x) t ≡ (if t == b.sequence then some x else find b t)
  find-appended b x t v two ht near =
      let kept =
        find-put b (appended b x) b.sequence t x v two v.top_fits ht
          (put-sequence b x v.top_fits) in
      elim (ℕ_discrete t b.sequence) [
        | yes e ↦ let now : (t == b.sequence) ≡ true = ground arith in rw now at kept ∙ rw now refl
        | no ne ↦
            let other : (t == b.sequence) ≡ false = ground arith in
            elim (Option-cases (find b t)) [
              | inl gone ↦
                  kept
                  ∙ rw (other, gone) (unchanged (in_window b.size ((b.sequence + 1) % 65536) t))
              | inr (y, e) ↦
                  let n = near y e in
                  let covered : in_window b.size ((b.sequence + 1) % 65536) t ≡ true =
                    ground arith in
                  kept ∙ rw (other, covered) refl
            ]
      ]

  pub find-removed :
      (b : SequenceBuffer A) (s t : ℕ)
      → IsValid b
      → s < 65536
      → t < 65536
      → exists b s ≡ true
      → find (remove b s) t ≡ (if t == s then none else find b t)
  find-removed b s t v hs ht here = find-remove b s t v ht ∙ elim (ℕ_discrete t s) [
    | yes e ↦
        let now : (t == s) ≡ true = ground arith in
        let same : (t % b.size == s % b.size) ≡ true = (==_iff _ _).1 (ap (λ n. n % b.size) e) in
        rw (now, same) refl
    | no ne ↦
        let other : (t == s) ≡ false = ground arith in
        elim (Bool-cases (t % b.size == s % b.size)) [
          | inr apart ↦ rw (other, apart) refl
          | inl shared ↦
              let (_, alone) = exists_unique b s t hs (sym ((==_iff _ _).0 shared)) here in
              let differ : (s == t) ≡ false = ground arith in
              rw (other, shared) (sym (find_lem b t ∙ rw (alone, differ) refl))
        ]
  ]

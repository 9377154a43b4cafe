-- ===== src/Queue/Laws.antt =====
-- The queue against the bounded list of the values that it holds.
use libyojimbo.Prelude.{
  ℕ, zero, suc, ◌+◌, ◌-◌, ◌%◌, ◌≤◌, ◌<◌, ◌≡◌, ◌≢◌, refl, ap, ap₂, ◌∙◌, arith, none, some, List, [],
  ◌∷◌, ◌++◌, length, get_elem?, get_or, set, length-set, get_or-set_self, get_or-set_ne,
  get_elem?-eq-get_or, length-replicate, replicate, sym, ◌>>=◌,
}
use libyojimbo.Queue.Fifo
use libyojimbo.Queue.Fifo.{Op, put, get}
use libyojimbo.Queue.{Queue, new, push, pop, at, run}
use native.Mathlib.Decide.{dec_lt}
use native.Mathlib.Nat.{add-zero, mod-lt, mod-eq_of_lt, mod-eq-sub-mod, mod-mod, mod-add-mod}

-- The array has the declared size, and the window of entries lies in it.
pub record IsValid {ℓ} {A : Type ℓ} (q : Queue A) : Type 0 where
  pub storage : length q.entries ≡ q.array_size
  pub start_in : q.start_index < q.array_size
  pub count_in : q.num_entries ≤ q.array_size

-- Up to `size` consecutive indices are different round the array.
mod-ne-mod_add : (size i k : ℕ) → suc k < size → (i + suc k) % size ≢ i % size
mod-ne-mod_add size i k h = elim (dec_lt (i % size + suc k) size) [
  | yes p ↦ omega (arith, mod-add-mod i size (suc k), mod-eq_of_lt p)
  | no p ↦ omega (
    arith,
    mod-add-mod i size (suc k),
    mod-eq-sub-mod {n = i % size + suc k} {m = size} (omega arith),
    mod-eq_of_lt {n = i % size + suc k - size} {m = size} (omega arith),
  )
]

module _ {ℓ} {A : Type ℓ} (zeroed : A) where
  -- The `n` entries from index `i` on, round the array.
  abbrev window : List A → ℕ → ℕ → ℕ → List A
  window entries size i zero = []
  window entries size i (suc n) = get_or entries (i % size) zeroed ∷ window entries size (i + 1) n

  abbrev pub contents : Queue A → List A
  contents q = window q.entries q.array_size q.start_index q.num_entries

  length-window : (es : List A) (size i n : ℕ) → length (window es size i n) ≡ n
  length-window es size i zero = refl
  length-window es size i (suc n) = ap suc (length-window es size (i + 1) n)

  window-mod :
      (es : List A) (size i j n : ℕ) → i % size ≡ j % size → window es size i n ≡ window es size j n
  window-mod es size i j zero e = refl
  window-mod es size i j (suc n) e = ap₂ ◌∷◌ (ap (λ k. get_or es k zeroed) e) (
      window-mod es size (i + 1) (j + 1) n (
        omega
          (arith, mod-add-mod i size 1, mod-add-mod j size 1, ap (λ (t : ℕ). (t + 1) % size) e)))

  window-set :
      (es : List A) (size x_at i n : ℕ) (x : A)
      → length es ≡ size
      → n < size
      → x_at ≡ (i + n) % size
      → window (set es x_at x) size i (suc n) ≡ window es size i n ++ (x ∷ [])
  window-set es size x_at i zero x hs hn e =
      ap (λ y. y ∷ [])
        (ap (λ k. get_or (set es x_at x) k zeroed)
            (omega (arith, ap (λ (t : ℕ). t % size) (add-zero i)))
          ∙ get_or-set_self es x_at x zeroed (omega arith))
  window-set es size x_at i (suc n) x hs hn e =
      ap₂ ◌∷◌ (get_or-set_ne es x_at (i % size) x zeroed (rw e (mod-ne-mod_add size i n hn))) (
        window-set es size x_at (i + 1) n x hs (omega arith) (e ∙ ap (λ k. k % size) (omega arith)))

  -- `window` matches on `suc`, the code tests `num_entries == 0`.
  window_of_ne_zero :
      (es : List A) (size i n : ℕ)
      → n ≢ 0
      → window es size i n ≡ get_or es (i % size) zeroed ∷ window es size (i + 1) (n - 1)
  window_of_ne_zero es size i zero h = absurd (h refl)
  window_of_ne_zero es size i (suc n) h = ap (λ k. window es size i (suc k)) (omega arith)

  pub length-contents : (q : Queue A) → length (contents q) ≡ q.num_entries
  length-contents q = length-window q.entries q.array_size q.start_index q.num_entries

  -- The constructor accepts every positive size, and makes a valid empty queue.
  pub new-IsValid :
      (size : ℕ)
      → 0 < size
      → (q : Queue A) × (new zeroed size ≡ some q)
        × IsValid q
        × (contents q ≡ [])
        × (q.array_size ≡ size)
  unfolding new
  new-IsValid size h = (
    record { entries = replicate size zeroed; array_size = size; start_index = 0; num_entries = 0 },
    ground arith,
    record { storage = length-replicate size zeroed; start_in = h; count_in = omega arith },
    refl,
    refl,
  )

  -- On a valid queue that is not full, `Push` succeeds, appends the value, and keeps the invariant.
  pub push_lem :
      (q : Queue A) (x : A)
      → IsValid q
      → q.num_entries < q.array_size
      → (q' : Queue A) × (push q x ≡ some q')
        × IsValid q'
        × (contents q' ≡ contents q ++ (x ∷ []))
        × (q'.array_size ≡ q.array_size)
  unfolding push
  push_lem q x v h =
      let index = (q.start_index + q.num_entries) % q.array_size in
      (
        record q { entries = set q.entries index x; num_entries = q.num_entries + 1 },
        ground arith,
        record {
          storage = length-set q.entries index x ∙ v.storage;
          start_in = v.start_in;
          count_in = omega arith;
        },
        ap (window (set q.entries index x) q.array_size q.start_index) {y = suc q.num_entries}
              (omega arith)
            ∙ window-set q.entries q.array_size index q.start_index q.num_entries x v.storage h
                refl,
        refl,
      )

  -- On a valid queue that is not empty, `Pop` returns the oldest value and leaves the rest.
  pub pop_lem :
      (q : Queue A)
      → IsValid q
      → 0 < q.num_entries
      → (x : A) × (q' : Queue A) × (pop q ≡ some (x, q'))
        × IsValid q'
        × (contents q ≡ x ∷ contents q')
        × (q'.array_size ≡ q.array_size)
  unfolding pop
  pop_lem q v h = (
    get_or q.entries q.start_index zeroed,
    record q { start_index = (q.start_index + 1) % q.array_size; num_entries = q.num_entries - 1 },
    ground (arith, get_elem?-eq-get_or q.entries q.start_index zeroed),
    record { storage = v.storage; start_in = omega arith; count_in = omega arith },
    window_of_ne_zero q.entries q.array_size q.start_index q.num_entries (omega arith)
        ∙ ap₂ ◌∷◌ (ap (λ k. get_or q.entries k zeroed) (mod-eq_of_lt v.start_in)) (
            window-mod q.entries q.array_size (q.start_index + 1)
              ((q.start_index + 1) % q.array_size) (q.num_entries - 1)
              (sym (mod-mod (q.start_index + 1) q.array_size))),
    refl,
  )

  -- A full queue fails the assertion of `Push`, and an empty one that of `Pop`.
  push-full : (q : Queue A) (x : A) → q.num_entries ≡ q.array_size → push q x ≡ none
  unfolding push
  push-full q x e = ground arith

  pop-empty : (q : Queue A) → q.num_entries ≡ 0 → pop q ≡ none
  unfolding pop
  pop-empty q e = ground arith

  Fifo-push_fits :
      (size : ℕ) (xs : List A) (x : A)
      → length xs < size
      → Fifo.push size xs x ≡ some (xs ++ (x ∷ []))
  unfolding Fifo.push
  Fifo-push_fits size xs x h = ground arith

  Fifo-push_full : (size : ℕ) (xs : List A) (x : A) → length xs ≡ size → Fifo.push size xs x ≡ none
  unfolding Fifo.push
  Fifo-push_full size xs x h = ground arith

  Fifo-pop_cons : (xs : List A) (x : A) (ys : List A) → xs ≡ x ∷ ys → Fifo.pop xs ≡ some (x, ys)
  unfolding Fifo.pop
  Fifo-pop_cons xs x ys e = ap Fifo.pop e

  Fifo-pop-none : (xs : List A) → length xs ≡ 0 → Fifo.pop xs ≡ none
  unfolding Fifo.pop
  Fifo-pop-none [] h = refl
  Fifo-pop-none (x ∷ xs) h = absurd (omega arith)

  -- From a valid queue, every sequence of `Push` and `Pop` calls returns what the bounded list of
  -- its contents returns, and fails an assertion where that list has no such step.
  pub run-Fifo :
      (q : Queue A) (ops : List (Op A))
      → IsValid q
      → run q ops ≡ Fifo.run q.array_size (contents q) ops
  unfolding run Fifo.run
  run-Fifo q [] v = refl
  run-Fifo q (put x ∷ ops) v = elim (dec_lt q.num_entries q.array_size) [
    | yes h ↦
        let (q', pushed, v', c, e) = push_lem q x v h in
        rw (pushed, Fifo-push_fits q.array_size (contents q) x (omega (arith, length-contents q)))
          (run-Fifo q' ops v' ∙ ap₂ (λ n xs. Fifo.run n xs ops) e c)
    | no h ↦ rw (
      push-full q x (omega arith),
      Fifo-push_full q.array_size (contents q) x (omega (arith, length-contents q)),
    )
  ]
  run-Fifo q (get ∷ ops) v = elim (dec_lt 0 q.num_entries) [
    | yes h ↦
        let (x, q', popped, v', c, e) = pop_lem q v h in
        rw (popped, Fifo-pop_cons (contents q) x (contents q') c)
          (ap (λ r. r >>= λ xs. some (x ∷ xs))
            (run-Fifo q' ops v' ∙ ap (λ n. Fifo.run n (contents q') ops) e))
    | no h ↦
        rw
          (pop-empty q (omega arith), Fifo-pop-none (contents q) (omega (arith, length-contents q)))
  ]

  get_elem?-window :
      (es : List A) (size i n k : ℕ)
      → length es ≡ size
      → 0 < size
      → k < n
      → get_elem? (window es size i n) k ≡ get_elem? es ((i + k) % size)
  get_elem?-window es size i zero k hs pos h = absurd (omega arith)
  get_elem?-window es size i (suc n) zero hs pos h =
      rw add-zero (sym (get_elem?-eq-get_or es (i % size) zeroed (omega (arith, mod-lt i pos))))
  get_elem?-window es size i (suc n) (suc k) hs pos h =
      get_elem?-window es size (i + 1) n k hs pos (omega arith)
      ∙ ap (λ j. get_elem? es (j % size)) (omega arith)

  get_elem?-window_past :
      (es : List A) (size i n k : ℕ) → n ≤ k → get_elem? (window es size i n) k ≡ none
  get_elem?-window_past es size i zero k h = refl
  get_elem?-window_past es size i (suc n) zero h = absurd (omega arith)
  get_elem?-window_past es size i (suc n) (suc k) h =
      get_elem?-window_past es size (i + 1) n k (omega arith)

  -- On a valid queue `operator []` reads the contents: the value at that distance from the oldest
  -- within the queue, and a failed assertion beyond.
  pub at-contents :
      (q : Queue A) (index : ℕ) → IsValid q → at q index ≡ get_elem? (contents q) index
  unfolding at
  at-contents q index v = elim (dec_lt index q.num_entries) [
    | yes h ↦
        ground (arith, get_elem?-window q.entries q.array_size q.start_index q.num_entries index)
    | no h ↦
        ground
          (arith, get_elem?-window_past q.entries q.array_size q.start_index q.num_entries index)
  ]

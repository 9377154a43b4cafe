-- ===== src/ReliableOrderedChannel/ReceiveQueue/Laws.antt =====
-- What the receive queue holds: messages that came early, each under its id, from the next one to
-- deliver on.
use libyojimbo.Prelude.{
  ℕ, ◌+◌, ◌%◌, ◌≤◌, ◌<◌, ◌≡◌, ◌≢◌, inl, inr, refl, sym, ap, ◌∙◌, arith, Bool, true, false, Option,
  none, some, ◌==◌, ==_iff, Bool-cases, Option-cases, if◌then◌else◌,
}
use libyojimbo.Message.{Message}
use libyojimbo.Sequence.{sequence_greater_than}
use libyojimbo.Sequence.Order.{steps_ahead}
use libyojimbo.SequenceBuffer.{SequenceBuffer, find, put, remove}
use libyojimbo.SequenceBuffer.Removing.{IsValid, in_window}
use libyojimbo.SequenceBuffer.Insert.{put_cases, newer, too_old, stored, advance}
use libyojimbo.SequenceBuffer.Laws.{find-put, put-IsValid, put_refuses}
use libyojimbo.SequenceBuffer.Lifecycle.{remove-IsValid}
use libyojimbo.SequenceBuffer.Appending.{find-exists, find-removed}

-- A queue from the next id to deliver on: every message that is found lies less than the size of the
-- queue ahead of that id.
pub record IsReceiving {P : Type 0} (queue : SequenceBuffer (Message P)) (next : ℕ) : Type 0 where
  pub valid : IsValid queue
  pub several : 2 ≤ queue.size
  pub small : queue.size ≤ 16384
  pub next_fits : next < 65536
  pub top_ahead : steps_ahead queue.sequence next ≤ queue.size
  pub early :
      (t : ℕ) (m : Message P)
      → t < 65536
      → find queue t ≡ some m
      → (steps_ahead t next < steps_ahead queue.sequence next) × (m.id ≡ t)

-- The top once a number is stored.
abbrev top_of : ℕ → ℕ → ℕ
top_of top s = if sequence_greater_than ((s + 1) % 65536) top then (s + 1) % 65536 else top

-- Where the top goes when a message of the window is stored.
top_after :
    (size next top s : ℕ)
    → size ≤ 16384
    → next < 65536
    → top < 65536
    → s < 65536
    → steps_ahead top next ≤ size
    → steps_ahead s next < size
    → (steps_ahead (top_of top s) next ≤ size)
      × (steps_ahead s next < steps_ahead (top_of top s) next)
      × (steps_ahead top next ≤ steps_ahead (top_of top s) next)
unfolding sequence_greater_than
top_after size next top s small hn ht hs at h = (ground arith, ground arith, ground arith)

stays :
    (size next top top' t : ℕ)
    → size ≤ 16384
    → next < 65536
    → top < 65536
    → top' < 65536
    → t < 65536
    → steps_ahead top' next ≤ size
    → steps_ahead top next ≤ steps_ahead top' next
    → steps_ahead t next < steps_ahead top next
    → in_window size top' t ≡ true
stays size next top top' t small hn ht ht' h at le lt = ground arith

none_either : {A : Type 0} (p : Bool) → ◌≡◌ {A = Option A} (if p then none else none) none
none_either true = refl
none_either false = refl

top_fits : (top s : ℕ) → top < 65536 → top_of top s < 65536
top_fits top s h = ground arith

module _ {P : Type 0} where
  -- A message in the window of the queue finds room.
  pub accepted :
      (queue : SequenceBuffer (Message P)) (next : ℕ) (m : Message P)
      → IsReceiving queue next
      → m.id < 65536
      → steps_ahead m.id next < queue.size
      → (queue' : SequenceBuffer (Message P)) × (put queue m.id m ≡ some queue')
  accepted queue next m v hm h = elim (Option-cases (put queue m.id m)) [
    | inr (queue', done) ↦ (queue', done)
    | inl refused ↦
        let (far, old) = (put_refuses queue m.id m v.valid v.several hm).0 refused in
        elim old [
          | inl near ↦ absurd (omega (arith, far, near, v.top_ahead, v.small))
          | inr (half, _) ↦ absurd (omega (arith, far, half, v.top_ahead, v.small))
        ]
  ]

  -- The top after a store.
  pub put-sequence :
      (queue queue' : SequenceBuffer (Message P)) (s : ℕ) (m : Message P)
      → put queue s m ≡ some queue'
      → (queue'.size ≡ queue.size) × (queue'.sequence ≡ top_of queue.sequence s)
  put-sequence queue queue' s m done = elim (Bool-cases (newer queue s)) [
    | inl n ↦
        let p : some queue' ≡ some (stored (advance queue s) s m) =
          sym done ∙ put_cases queue s m ∙ rw n refl in
        let e : queue' ≡ stored (advance queue s) s m = cc in
        (
          ap (λ (q : SequenceBuffer (Message P)). q.size) e,
          ap (λ (q : SequenceBuffer (Message P)). q.sequence) e ∙ rw n refl,
        )
    | inr n ↦ elim (Bool-cases (too_old queue s)) [
      | inl o ↦ let p : none ≡ some queue' = sym (put_cases queue s m ∙ rw (n, o) refl) ∙ done in cc
      | inr o ↦
          let p : some queue' ≡ some (stored queue s m) =
            sym done ∙ put_cases queue s m ∙ rw (n, o) refl in
          let e : queue' ≡ stored queue s m = cc in
          (
            ap (λ (q : SequenceBuffer (Message P)). q.size) e,
            ap (λ (q : SequenceBuffer (Message P)). q.sequence) e ∙ rw n refl,
          )
    ]
  ]

  pub find-put-early :
      (queue queue' : SequenceBuffer (Message P)) (next t : ℕ) (m : Message P)
      → IsReceiving queue next
      → m.id < 65536
      → steps_ahead m.id next < queue.size
      → put queue m.id m ≡ some queue'
      → t < 65536
      → find queue' t ≡ (if t == m.id then some m else find queue t)
  find-put-early queue queue' next t m v hm h done ht =
      let kept = find-put queue queue' m.id t m v.valid v.several hm ht done in
      let (size, top) = put-sequence queue queue' m.id m done in
      let (at, _, le) =
        top_after queue.size next queue.sequence m.id v.small v.next_fits v.valid.top_fits hm
          v.top_ahead h in
      elim (Option-cases (find queue t)) [
        | inl gone ↦
            kept
            ∙ rw gone (
                ap (λ x. if t == m.id then some m else x)
                  (none_either (in_window queue'.size queue'.sequence t)))
        | inr (x, here) ↦
            let (lt, _) = v.early t x ht here in
            let covered : in_window queue'.size queue'.sequence t ≡ true =
              rw (size, top)
                (stays queue.size next queue.sequence (top_of queue.sequence m.id) t v.small
                  v.next_fits v.valid.top_fits (top_fits queue.sequence m.id v.valid.top_fits) ht at
                  le lt) in
            kept ∙ rw covered refl
      ]

  pub put-IsReceiving :
      (queue queue' : SequenceBuffer (Message P)) (next : ℕ) (m : Message P)
      → IsReceiving queue next
      → m.id < 65536
      → steps_ahead m.id next < queue.size
      → put queue m.id m ≡ some queue'
      → IsReceiving queue' next
  put-IsReceiving queue queue' next m v hm h done =
      let (size, top) = put-sequence queue queue' m.id m done in
      let (at, lt, le) =
        top_after queue.size next queue.sequence m.id v.small v.next_fits v.valid.top_fits hm
          v.top_ahead h in
      record {
        valid = put-IsValid queue queue' m.id m v.valid v.several hm done;
        several = omega (arith, size, v.several);
        small = omega (arith, size, v.small);
        next_fits = v.next_fits;
        top_ahead = rw (size, top) at;
        early = λ t x ht here.
            let found = sym (find-put-early queue queue' next t m v hm h done ht) ∙ here in
            elim (Bool-cases (t == m.id)) [
              | inl same ↦
                  let e : t ≡ m.id = (==_iff t m.id).0 same in
                  let p : some m ≡ some x =
                    ap (λ p. if p then some m else find queue t) (sym same) ∙ found in
                  let mx : m ≡ x = cc in
                  (rw (top, e) lt, ap (λ (y : Message P). y.id) (sym mx) ∙ sym e)
              | inr other ↦
                  let p : find queue t ≡ some x =
                    ap (λ p. if p then some m else find queue t) (sym other) ∙ found in
                  let (before, id) = v.early t x ht p in (rw top (omega (arith, before, le)), id)
            ];
      }

  -- What is found in the queue once the next message is taken out.
  pub find-delivered :
      (queue : SequenceBuffer (Message P)) (next t : ℕ) (m : Message P)
      → IsReceiving queue next
      → find queue next ≡ some m
      → t < 65536
      → find (remove queue next) t ≡ (if t == next then none else find queue t)
  find-delivered queue next t m v here ht =
      find-removed queue next t v.valid v.next_fits ht (find-exists queue next m here)

  -- A message that is found then was found before, at another id.
  pub found_before :
      (queue : SequenceBuffer (Message P)) (next t : ℕ) (m x : Message P)
      → IsReceiving queue next
      → find queue next ≡ some m
      → t < 65536
      → find (remove queue next) t ≡ some x
      → (t ≢ next) × (find queue t ≡ some x)
  found_before queue next t m x v here ht found = elim (Bool-cases (t == next)) [
    | inl same ↦
        let p : none ≡ some x =
          sym (find-delivered queue next t m v here ht ∙ rw same refl) ∙ found in
        cc
    | inr other ↦
        (ground arith, sym (find-delivered queue next t m v here ht ∙ rw other refl) ∙ found)
  ]

  pub deliver-IsReceiving :
      (queue : SequenceBuffer (Message P)) (next : ℕ) (m : Message P)
      → IsReceiving queue next
      → find queue next ≡ some m
      → IsReceiving (remove queue next) ((next + 1) % 65536)
  unfolding remove
  deliver-IsReceiving queue next m v here =
      let (lt, _) = v.early next m v.next_fits here in
      let (valid, _) = remove-IsValid queue next v.valid in
      record {
        valid = valid;
        several = v.several;
        small = v.small;
        next_fits = omega arith;
        top_ahead = omega (arith, lt, v.top_ahead, v.next_fits, v.valid.top_fits);
        early = λ t x ht found.
            let (ne, before) = found_before queue next t m x v here ht found in
            let (early, id) = v.early t x ht before in
            (omega (arith, early, ne, lt, v.next_fits, v.valid.top_fits), id);
      }

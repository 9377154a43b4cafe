-- ===== src/EncryptionManager/Laws.antt =====
-- Lookups in the table after a mapping is added.
use libyojimbo.Prelude.{
  ℕ, zero, suc, ◌+◌, ◌≤◌, ◌<◌, ◌≡◌, ◌⊎◌, inl, inr, refl, sym, ap, ◌∙◌, arith, Bool, true, false,
  Option, none, some, List, [], ◌∷◌, ltb, lt→ltb, Bool-cases, if◌then◌else◌, get_elem?, set, length,
  length-set, get_elem?-set_self, get_elem?-set_ne,
}
use libyojimbo.EncryptionManager.{
  World, Mapping, EncryptionManager, expired, matches, first_from, add_found,
  add_encryption_mapping, find_found, find_encryption_mapping, get_send_key, get_receive_key,
  max_encryption_mappings,
}
use mathlib.Core.Bool.{true≢false}
use native.Mathlib.Decide.{ℕ_discrete}

module _ {A T : Type 0} (world : World A T) where
  in_range :
      (xs : List (Mapping A T)) (i : ℕ)
      → i < length xs
      → (m : Mapping A T) × (get_elem? xs i ≡ some m)
  in_range [] i h = absurd (omega arith)
  in_range (x ∷ xs) zero h = (x, refl)
  in_range (x ∷ xs) (suc i) h = in_range xs i (omega arith)

  -- No entry from `i` up to `k` passes a test.
  abbrev pub Fails : (Mapping A T → Bool) → List (Mapping A T) → ℕ → ℕ → Type 0
  Fails test mappings i k =
      (j : ℕ) (m : Mapping A T) → i ≤ j → j < k → get_elem? mappings j ≡ some m → test m ≡ false

  -- What a search finds: nothing, or the first entry that passes.
  abbrev Found : (Mapping A T → Bool) → List (Mapping A T) → ℕ → ℕ → Option ℕ → Type 0
  Found test mappings i finish none = Fails test mappings i finish
  Found test mappings i finish (some k) =
      (i ≤ k)
      × (k < finish)
      × ((m : Mapping A T) × (get_elem? mappings k ≡ some m) × (test m ≡ true))
      × Fails test mappings i k

  extend :
      (test : Mapping A T → Bool) (mappings : List (Mapping A T)) (i k : ℕ) (x : Mapping A T)
      → get_elem? mappings i ≡ some x
      → test x ≡ false
      → Fails test mappings (i + 1) k
      → Fails test mappings i k
  extend test mappings i k x at fails later j m le lt here = elim (ℕ_discrete j i) [
    | yes e ↦
        let p : some x ≡ some m = sym at ∙ ap (get_elem? mappings) (sym e) ∙ here in
        let xm : x ≡ m = cc in ap test (sym xm) ∙ fails
    | no ne ↦ later j m (omega arith) lt here
  ]

  first_from_lem :
      (left i : ℕ) (test : Mapping A T → Bool) (mappings : List (Mapping A T))
      → i + left ≤ length mappings
      → (r : Option ℕ) × (first_from world left i test mappings ≡ some r)
        × Found test mappings i (i + left) r
  unfolding first_from
  first_from_lem zero i test mappings h = (none, refl, λ j m le lt here. absurd (omega arith))
  first_from_lem (suc left) i test mappings h =
      let (x, at) = in_range mappings i (omega arith) in
      elim (Bool-cases (test x)) [
        | inl passes ↦ (
          some i,
          rw (at, passes) refl,
          (omega arith, omega arith, (x, at, passes), λ j m le lt here. absurd (omega arith)),
        )
        | inr fails ↦
            let (r, done, found) = first_from_lem left (i + 1) test mappings (omega arith) in
            (r, rw (at, fails) done, widen r x at fails found)
      ]
    where
      widen :
          (r : Option ℕ) (x : Mapping A T)
          → get_elem? mappings i ≡ some x
          → test x ≡ false
          → Found test mappings (i + 1) (i + 1 + left) r
          → Found test mappings i (i + suc left) r
      widen none x at fails later =
          extend test mappings i (i + suc left) x at fails
            (λ j m le lt here. later j m le (omega arith) here)
      widen (some k) x at fails (le, lt, here, before) =
          (omega arith, omega arith, here, extend test mappings i k x at fails before)

  -- The first entry that passes is found.
  first_from_at :
      (left i k : ℕ) (test : Mapping A T → Bool) (mappings : List (Mapping A T)) (m : Mapping A T)
      → i ≤ k
      → k < i + left
      → i + left ≤ length mappings
      → get_elem? mappings k ≡ some m
      → test m ≡ true
      → Fails test mappings i k
      → first_from world left i test mappings ≡ some (some k)
  unfolding first_from
  first_from_at zero i k test mappings m le lt len here passes before = absurd (omega arith)
  first_from_at (suc left) i k test mappings m le lt len here passes before =
      elim (ℕ_discrete i k) [
        | yes e ↦
            let at : get_elem? mappings i ≡ some m = ap (get_elem? mappings) e ∙ here in
            rw (at, passes) (ap (λ n. some (some n)) e)
        | no ne ↦
            let (x, at) = in_range mappings i (omega arith) in
            let fails = before i x (omega arith) (omega arith) at in
            rw (at, fails)
              (first_from_at left (i + 1) k test mappings m (omega arith) (omega arith)
                (omega arith) here passes (λ j y le lt here. before j y (omega arith) lt here))
      ]

  -- The arrays have their size, and the entries past those that are searched have timed out.
  pub record IsCompact (e : EncryptionManager A T) (time : T) : Type 0 where
    pub sized : length e.mappings ≡ max_encryption_mappings
    pub bounded : e.num_encryption_mappings ≤ max_encryption_mappings
    pub past :
        (j : ℕ) (m : Mapping A T)
        → e.num_encryption_mappings ≤ j
        → get_elem? e.mappings j ≡ some m
        → expired world time m ≡ true

  -- The entry that `AddEncryptionMapping` stores.
  abbrev pub mapping_of : A → List ℕ → List ℕ → T → T → Mapping A T
  mapping_of address send_key receive_key time timeout = record {
    last_access_time = time;
    timeout = timeout;
    address = address;
    send_key = send_key;
    receive_key = receive_key;
  }

  -- What the table gives for an address at a time: an index, and the keys of that index afterwards.
  pub record Gives (e : EncryptionManager A T) (address : A) (time : T)
      (send_key receive_key : List ℕ) : Type 0 where
    pub index : ℕ
    pub after : EncryptionManager A T
    pub found : find_encryption_mapping world e address time ≡ some (some index, after)
    pub sends : get_send_key after (some index) ≡ some (some send_key)
    pub receives : get_receive_key after (some index) ≡ some (some receive_key)

  module _ (e : EncryptionManager A T) (address : A) (send_key receive_key : List ℕ)
      (time timeout : T) where
    abbrev new : Mapping A T
    new = mapping_of address send_key receive_key time timeout

    -- The table with the entry stored at an index that is searched.
    abbrev stored : ℕ → ℕ → EncryptionManager A T
    stored num i = record { num_encryption_mappings = num; mappings = set e.mappings i new }

    stored-IsCompact :
        (num i : ℕ)
        → IsCompact e time
        → e.num_encryption_mappings ≤ num
        → i < num
        → num ≤ max_encryption_mappings
        → IsCompact (stored num i) time
    stored-IsCompact num i v le lt most = record {
      sized = length-set e.mappings i new ∙ v.sized;
      bounded = most;
      past = λ j m far here.
          v.past j m (omega arith)
            (sym (get_elem?-set_ne e.mappings i j new (λ same. absurd (omega arith))) ∙ here);
    }

    stored-Gives :
        (num i : ℕ)
        → IsCompact e time
        → matches world address time new ≡ true
        → i < num
        → num ≤ max_encryption_mappings
        → Fails (matches world address time) e.mappings 0 i
        → Gives (stored num i) address time send_key receive_key
    unfolding find_encryption_mapping find_found get_send_key get_receive_key
    stored-Gives num i v passes lt most before =
        let at : get_elem? (set e.mappings i new) i ≡ some new =
          get_elem?-set_self e.mappings i new (omega (arith, v.sized)) in
        let search =
          first_from_at num 0 i (matches world address time) (set e.mappings i new) new
            (omega arith) (omega arith) (omega (arith, v.sized, length-set e.mappings i new)) at
            passes
            (λ j m le less here.
              before j m le less (
                sym (get_elem?-set_ne e.mappings i j new (λ same. absurd (omega arith))) ∙ here)) in
        let again : get_elem? (set (set e.mappings i new) i new) i ≡ some new =
          get_elem?-set_self (set e.mappings i new) i new
            (omega (arith, v.sized, length-set e.mappings i new)) in
        record {
          index = i;
          after = record {
            num_encryption_mappings = num;
            mappings = set (set e.mappings i new) i new;
          };
          found = rw (search, at) refl;
          sends = rw (lt→ltb i num lt, again) refl;
          receives = rw (lt→ltb i num lt, again) refl;
        }

  -- Take a table whose entries past those that are searched have timed out, and an address that equals
  -- itself, with a timeout that does not end before it starts. `AddEncryptionMapping` then returns, and the
  -- entries past those that are searched still have timed out. Either it succeeds, and
  -- `FindEncryptionMapping` of the address at the same time gives an index whose send and receive keys are
  -- the ones that were added; or it fails, and no entry of the table has timed out.
  pub add-find_encryption_mapping :
      (e : EncryptionManager A T) (address : A) (send_key receive_key : List ℕ) (time timeout : T)
      → IsCompact e time
      → world.same_address address address ≡ true
      → world.at_least (world.plus time timeout) time ≡ true
      → (added : Bool) × (e' : EncryptionManager A T) × (add_encryption_mapping world e address
            send_key receive_key time timeout
          ≡ some (added, e'))
        × IsCompact e' time
        × (((added ≡ true) × Gives e' address time send_key receive_key)
            ⊎ ((added ≡ false) × Fails (expired world time) e.mappings 0 max_encryption_mappings))
  unfolding add_encryption_mapping add_found
  add-find_encryption_mapping e address send_key receive_key time timeout v same lives =
      let (found, searched, first) =
        first_from_lem e.num_encryption_mappings 0 (matches world address time) e.mappings
          (omega (arith, v.sized, v.bounded)) in
      let (free, scanned, room) =
        first_from_lem max_encryption_mappings 0 (expired world time) e.mappings
          (omega (arith, v.sized)) in
      let (compact, outcome) = added found free first room in
      (
        (add_found world e n found free).0,
        (add_found world e n found free).1,
        rw (searched, scanned) refl,
        compact,
        outcome,
      )
    where
      passes :
          matches world address time (mapping_of address send_key receive_key time timeout) ≡ true
      passes = rw (same, lives) refl

      n : Mapping A T
      n = mapping_of address send_key receive_key time timeout

      -- The first entry that has timed out is not past those that are searched by more than one.
      reach :
          (i : ℕ)
          → i < max_encryption_mappings
          → Fails (expired world time) e.mappings 0 i
          → ¬ (e.num_encryption_mappings < i)
      reach i most live lt =
          let (m, here) = in_range e.mappings e.num_encryption_mappings (omega (arith, v.sized)) in
          let old = v.past e.num_encryption_mappings m (omega arith) here in
          true≢false (sym old ∙ live e.num_encryption_mappings m (omega arith) lt here)

      added :
          (found free : Option ℕ)
          → Found (matches world address time) e.mappings 0 (0 + e.num_encryption_mappings) found
          → Found (expired world time) e.mappings 0 (0 + max_encryption_mappings) free
          → IsCompact (add_found world e n found free).1 time
            × ((((add_found world e n found free).0 ≡ true)
                  × Gives (add_found world e n found free).1 address time send_key receive_key)
                ⊎ (((add_found world e n found free).0 ≡ false)
                    × Fails (expired world time) e.mappings 0 max_encryption_mappings))
      added (some i) free (le, lt, _, before) room =
          let gives =
            stored-Gives e address send_key receive_key time timeout e.num_encryption_mappings i v
              passes (omega arith) v.bounded before in
          (
            stored-IsCompact e address send_key receive_key time timeout e.num_encryption_mappings i
                v (omega arith) (omega arith) v.bounded,
            inl (refl, gives),
          )
      added none (some i) none_found (le, lt, _, live) =
          let near = reach i (omega arith) live in
          let num =
            if ltb e.num_encryption_mappings (i + 1) then i + 1 else e.num_encryption_mappings in
          let above : e.num_encryption_mappings ≤ num = ground arith in
          let past : i < num = ground arith in
          let most : num ≤ max_encryption_mappings = ground (arith, v.bounded) in
          let gives =
            stored-Gives e address send_key receive_key time timeout num i v passes past most
              (λ j m le less here. none_found j m le (omega arith) here) in
          (
            stored-IsCompact e address send_key receive_key time timeout num i v above past most,
            inl (refl, gives),
          )
      added none none first room = (v, inr (refl, λ j m le lt here. room j m le (omega arith) here))

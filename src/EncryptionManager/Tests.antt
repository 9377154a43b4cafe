-- ===== src/EncryptionManager/Tests.antt =====
-- A table of encryption mappings whose addresses are numbers, whose times are numbers, and where a mapping
-- is there after a reset at time 100.
use libyojimbo.Prelude.{
  ℕ, zero, suc, ◌+◌, ◌≡◌, ◌⊎◌, refl, sym, ap, arith, Bool, true, false, some, [], ◌∷◌, ltb, leb,
  ◌==◌, get_elem?, replicate, length-replicate,
}
use libyojimbo.EncryptionManager.{
  World, EncryptionManager, expired, add_encryption_mapping, no_mapping, max_encryption_mappings,
}
use libyojimbo.EncryptionManager.Laws.{Fails, IsCompact, Gives, add-find_encryption_mapping}

abbrev world : World ℕ ℕ
world = record {
  same_address = ◌==◌;
  no_address = 0;
  long_ago = 0;
  zero_time = 0;
  plus = ◌+◌;
  before = ltb;
  at_least = λ a b. leb b a;
}

abbrev empty : EncryptionManager ℕ ℕ
empty = record {
  num_encryption_mappings = 0;
  mappings = replicate max_encryption_mappings (no_mapping world);
}

replicate-elem : {A : Type 0} (n j : ℕ) (x y : A) → get_elem? (replicate n x) j ≡ some y → x ≡ y
replicate-elem zero j x y e = cc
replicate-elem (suc n) zero x y e = cc
replicate-elem (suc n) (suc j) x y e = replicate-elem n j x y e

empty-IsCompact : IsCompact world empty 100
empty-IsCompact = record {
  sized = length-replicate max_encryption_mappings (no_mapping world);
  bounded = omega arith;
  past = λ j m le here.
      let e = replicate-elem max_encryption_mappings j (no_mapping world) m here in
      ap (expired world 100) (sym e);
}

add-find_encryption_mapping_example :
    (added : Bool) × (e' : EncryptionManager ℕ ℕ) × (add_encryption_mapping world empty 7
        (1 ∷ [])
        (2 ∷ [])
        100
        10
      ≡ some (added, e'))
    × IsCompact world e' 100
    × (((added ≡ true) × Gives world e' 7 100 (1 ∷ []) (2 ∷ []))
        ⊎ ((added ≡ false)
            × Fails world (expired world 100) empty.mappings 0 max_encryption_mappings))
add-find_encryption_mapping_example =
    add-find_encryption_mapping world empty 7 (1 ∷ []) (2 ∷ []) 100 10 empty-IsCompact refl refl

-- ===== src/Serialize/Relative.antt =====
-- Writing a sequence number relative to another.
use libyojimbo.Prelude.{
  ℕ, ◌+◌, ◌-◌, ◌≤◌, ◌<◌, ◌≡◌, ◌≢◌, inl, inr, refl, arith, true, false, Option, some, List, [], ◌∷◌,
  ltb, leb, ◌==◌, lt→ltb, le→leb, Bool-cases, if◌then◌else◌,
}
use libyojimbo.BitPack.Fields.{Field}
use libyojimbo.Serialize.{
  bits_required, write_bool, write_int, write_range, write_int_relative, write_sequence_relative,
}

-- A number in the range of a field, or past it.
write_range_lem :
    (low high d : ℕ) (rest : Option (List Field))
    → low < high
    → low ≤ d
    → (high < d → (fs : List Field) × (rest ≡ some fs))
    → (fs : List Field) × (write_range low high d rest ≡ some fs)
unfolding write_range write_int
write_range_lem low high d rest some_range above more = elim (Bool-cases (leb d high)) [
  | inl within ↦ (
    write_bool true ∷ record { value = d - low; bits = bits_required low high } ∷ [],
    rw (within, lt→ltb low high some_range, le→leb low d above) refl,
  )
  | inr past ↦ let (fs, e) = more (ground arith) in (write_bool false ∷ fs, rw (past, e) refl)
]

pub write_int_relative-defined :
    (previous current : ℕ)
    → previous < current
    → (fs : List Field) × (write_int_relative previous current ≡ some fs)
unfolding write_int_relative
write_int_relative-defined previous current lt =
    let d = current - previous in
    elim (Bool-cases (d == 1)) [
      | inl one ↦ (write_bool true ∷ [], rw (lt→ltb previous current lt, one) refl)
      | inr more ↦
          let (fs, e) = write_range_lem 2 6 d _ (omega arith) (ground arith) (λ h2.
            write_range_lem 7 23 d _ (omega arith) (omega arith) (λ h3.
              write_range_lem 24 280 d _ (omega arith) (omega arith) (λ h4.
                write_range_lem 281 4377 d _ (omega arith) (omega arith) (λ h5.
                  write_range_lem 4378 69914 d _ (omega arith) (omega arith)
                    (λ h6. (record { value = current; bits = 32 } ∷ [], refl)))))) in
          (write_bool false ∷ fs, rw (lt→ltb previous current lt, more, e) refl)
    ]

-- Two different 16-bit numbers can be written relative to each other.
pub write_sequence_relative-defined :
    (sequence1 sequence2 : ℕ)
    → sequence1 < 65536
    → sequence1 ≢ sequence2
    → (fs : List Field) × (write_sequence_relative sequence1 sequence2 ≡ some fs)
unfolding write_sequence_relative
write_sequence_relative-defined sequence1 sequence2 h ne =
    write_int_relative-defined sequence1
      (sequence2 + (if ltb sequence2 sequence1 then 65536 else 0)) (ground arith)

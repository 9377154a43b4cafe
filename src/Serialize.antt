-- ===== src/Serialize.antt =====
-- yojimbo_common.h: `popcount`, `log2` and `bits_required`, in the versions for any compiler;
-- yojimbo_serialize.h: `serialize_int_relative` and `serialize_sequence_relative`, as the fields that a
-- stream writes or measures, and as a stream reads them. A failed assertion, and a failed read, is `none`.
pub mod Relative
use libyojimbo.Prelude.{
  ℕ, ◌+◌, ◌-◌, ◌*◌, ◌/◌, ◌%◌, ◌^◌, bit_and, bit_or, Bool, true, false, not, Option, none, some,
  List, [], ◌∷◌, ltb, leb, ◌==◌, ◌>>=◌, ◌>>◌, assert, if◌then◌else◌,
}
use libyojimbo.BitPack.Fields.{Field}

-- `popcount`
pub popcount : ℕ → ℕ
popcount x =
    let a = (x + 2 ^ 32 - bit_and (x / 2) 1431655765) % 2 ^ 32 in
    let b = (bit_and (a / 4) 858993459 + bit_and a 858993459) % 2 ^ 32 in
    let c = bit_and ((b / 16 + b) % 2 ^ 32) 252645135 in
    let d = (c + c / 256) % 2 ^ 32 in let e = (d + d / 65536) % 2 ^ 32 in bit_and e 63

-- `log2`
pub log2 : ℕ → ℕ
unfolding popcount
log2 x =
    let a = bit_or x (x / 2) in
    let b = bit_or a (a / 4) in
    let c = bit_or b (b / 16) in
    let d = bit_or c (c / 256) in let e = bit_or d (d / 65536) in popcount (e / 2)

-- `bits_required`
unfoldable pub bits_required : ℕ → ℕ → ℕ
bits_required low high = if low == high then 0 else log2 ((high + 2 ^ 32 - low) % 2 ^ 32) + 1

-- `serialize_bool`, as a stream writes it.
abbrev pub write_bool : Bool → Field
write_bool value = record { value = if value then 1 else 0; bits = 1 }

-- `serialize_int` and `WriteStream::SerializeInteger`.
unfoldable pub write_int : ℕ → ℕ → ℕ → Option Field
write_int value low high = do
  assert (ltb low high)
  assert (leb low value)
  assert (leb value high)
  some (record { value = value - low; bits = bits_required low high })

-- One of the ranges of `serialize_int_relative`: whether the difference is in it, and the difference.
unfoldable pub write_range : ℕ → ℕ → ℕ → Option (List Field) → Option (List Field)
write_range low high difference rest =
    if leb difference high
    then (write_int difference low high >>= λ f. some (write_bool true ∷ f ∷ []))
    else (rest >>= λ fs. some (write_bool false ∷ fs))

-- `serialize_int_relative_internal`, of a stream that writes or measures.
unfoldable pub write_int_relative : ℕ → ℕ → Option (List Field)
write_int_relative previous current = do
  assert (ltb previous current)
  let difference = current - previous
  if difference == 1
      then some (write_bool true ∷ [])
      else (write_range 2 6 difference (
            write_range 7 23 difference (
              write_range 24 280 difference (
                write_range 281 4377 difference (
                  write_range 4378 69914 difference
                    (some (record { value = current; bits = 32 } ∷ []))))))
          >>= λ fs. some (write_bool false ∷ fs))

-- `serialize_sequence_relative_internal`, of a stream that writes or measures.
unfoldable pub write_sequence_relative : ℕ → ℕ → Option (List Field)
write_sequence_relative sequence1 sequence2 =
    write_int_relative sequence1 (sequence2 + (if ltb sequence2 sequence1 then 65536 else 0))

-- `MeasureStream`, over the fields that it is given.
abbrev pub measure : List Field → ℕ
measure [] = 0
measure (f ∷ fs) = f.bits + measure fs

module _ {S : Type 0} (read_bits : S → ℕ → Option (ℕ × S)) where
  -- `serialize_int` and `ReadStream::SerializeInteger`.
  unfoldable pub read_int : S → ℕ → ℕ → Option (ℕ × S)
  read_int s low high = do
    assert (ltb low high)
    (value, s') ← read_bits s (bits_required low high)
    assert (leb (value + low) high)
    some (value + low, s')

  -- One of the ranges of `serialize_int_relative`; `rest` reads on where the difference is not in it.
  unfoldable pub read_range : ℕ → ℕ → ℕ → (S → Option (ℕ × S)) → S → Option (ℕ × S)
  read_range low high previous rest s = do
    (flag, s') ← read_bits s 1
    if not (flag == 0)
        then (read_int s' low high >>= λ (difference, s'').
            some ((previous + difference) % 2 ^ 32, s''))
        else rest s'

  -- `serialize_int_relative_internal`, of a stream that reads.
  unfoldable pub read_int_relative : ℕ → S → Option (ℕ × S)
  read_int_relative previous s = do
    (one_bit, s') ← read_bits s 1
    if not (one_bit == 0)
        then some ((previous + 1) % 2 ^ 32, s')
        else read_range 2 6 previous
            (read_range 7 23 previous (
              read_range 24 280 previous (
                read_range 281 4377 previous
                  (read_range 4378 69914 previous (λ t. read_bits t 32)))))
            s'

  -- `serialize_sequence_relative_internal`, of a stream that reads.
  unfoldable pub read_sequence_relative : ℕ → S → Option (ℕ × S)
  read_sequence_relative sequence1 s = do
    (b, s') ← read_int_relative sequence1 s
    some ((if leb 65536 b then b - 65536 else b) % 2 ^ 16, s')

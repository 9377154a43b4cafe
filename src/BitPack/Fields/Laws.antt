-- ===== src/BitPack/Fields/Laws.antt =====
-- What a reader makes of a packet that was written.
use libyojimbo.Prelude.{
  ℕ, ◌+◌, ◌-◌, ◌*◌, ◌^◌, ◌≤◌, ◌<◌, ◌≡◌, refl, sym, ap, ◌∙◌, arith, some, List, [], ◌∷◌, ◌++◌, map,
  length, All, take, drop,
}
use libyojimbo.BitPack.Digits.{
  to_bits, to_bits_prefix, words_bits, words_bits-append, take-append-drop,
}
use libyojimbo.BitPack.Writer.{BitWriter, get_bytes_written}
use libyojimbo.BitPack.Writer.Laws as WriterLaws
use libyojimbo.BitPack.Reader.{BitReader}
use libyojimbo.BitPack.Reader
use libyojimbo.BitPack.Reader.Laws as ReaderLaws
use mathlib.Core.List.{append_assoc, append-nil}
use libyojimbo.BitPack.Fields.{Field, Fits, total_bits, write_all, read_all, send}

-- The digits of a packet.
abbrev fields_bits : List Field → List ℕ
fields_bits [] = []
fields_bits (f ∷ fs) = to_bits f.bits f.value ++ fields_bits fs

write_all_lem :
    (fs : List Field) (w : BitWriter)
    → WriterLaws.IsValid w
    → All Fits fs
    → w.bits_written + total_bits fs ≤ w.num_bits
    → (w' : BitWriter) × (write_all w fs ≡ some w')
      × WriterLaws.IsValid w'
      × (WriterLaws.stream w' ≡ WriterLaws.stream w ++ fields_bits fs)
      × (w'.bits_written ≡ w.bits_written + total_bits fs)
      × (w'.num_bits ≡ w.num_bits)
unfolding write_all
write_all_lem [] w v fit room =
    (w, refl, v, sym (append-nil (WriterLaws.stream w)), omega arith, refl)
write_all_lem (f ∷ fs) w v ((pos, le, fits), fit) room =
    let (w', wrote, v', s, n, c) =
      WriterLaws.write_bits_lem w f.value f.bits v pos le fits (omega arith) in
    let (w'', rest, v'', s', n', c') = write_all_lem fs w' v' fit (omega (arith, n, c)) in
    (
      w'',
      rw wrote rest,
      v'',
      s'
          ∙ ap (λ t. t ++ fields_bits fs) s
          ∙ append_assoc (WriterLaws.stream w) (to_bits f.bits f.value) (fields_bits fs),
      omega (arith, n, n'),
      c' ∙ c,
    )

read_all_lem :
    (fs : List Field) (r : BitReader) (rest : List ℕ)
    → ReaderLaws.IsValid r
    → All Fits fs
    → r.bits_read + total_bits fs ≤ r.num_bits
    → ReaderLaws.remaining r ≡ fields_bits fs ++ rest
    → read_all r (map (λ (f : Field). f.bits) fs) ≡ some (map (λ (f : Field). f.value) fs)
unfolding read_all
read_all_lem [] r rest v fit room e = refl
read_all_lem (f ∷ fs) r rest v ((pos, le, fits), fit) room e =
    let (x, r', got, v', x_fits, s, n, c) =
      ReaderLaws.read_bits_lem r f.bits v pos le (omega arith) in
    let (same, after) =
      to_bits_prefix f.bits x f.value (ReaderLaws.remaining r') (fields_bits fs ++ rest) x_fits fits
        (s ∙ e ∙ append_assoc (to_bits f.bits f.value) (fields_bits fs) rest) in
    rw (got, read_all_lem fs r' rest v' fit (omega (arith, n, c)) after, same)

-- A packet of fields of 1 to 32 bits, each value within its bits, that fit a buffer of 32-bit words is
-- written, flushed and read back: no assertion fails, and the reader returns the values in order.
pub send_lem :
    (buffer : List ℕ) (fs : List Field)
    → All (λ x. x < 2 ^ 32) buffer
    → All Fits fs
    → total_bits fs ≤ length buffer * 32
    → send buffer fs ≡ some (map (λ (f : Field). f.value) fs)
unfolding send get_bytes_written Reader.new
send_lem buffer fs small fit room =
    let (w, made, v, s, c, n) = WriterLaws.new_lem buffer small in
    let (w', wrote, v', s', n', c') = write_all_lem fs w v fit (omega (arith, c, n)) in
    let (w'', sent, s'', n'', len, small', past) = WriterLaws.flush_bits_lem w' v' in
    let bytes = get_bytes_written w'' in
    let k = w''.word_index in
    let zeros = to_bits (k * 32 - w'.bits_written) 0 in
    let rest = words_bits (drop k w''.words) in
    let in_buffer : bytes ≤ length w''.words * 4 =
      omega (arith, v'.buffer, v'.capacity, v'.room, n'', len) in
    let (v3, all) = ReaderLaws.new_lem w''.words bytes in_buffer small' in
    let digits : words_bits w''.words ≡ fields_bits fs ++ (zeros ++ rest) =
      sym (ap words_bits (take-append-drop k w''.words))
      ∙ words_bits-append (take k w''.words) (drop k w''.words)
      ∙ ap (λ t. t ++ rest) (s'' ∙ ap (λ t. t ++ zeros) (s' ∙ ap (λ t. t ++ fields_bits fs) s))
      ∙ append_assoc (fields_bits fs) zeros rest in
    let enough : 0 + total_bits fs ≤ bytes * 8 = omega (arith, n'', n', n) in
    rw (made, wrote, sent)
      (read_all_lem fs (Reader.new w''.words bytes) (zeros ++ rest) v3 fit enough (all ∙ digits))

-- ===== src/BitPack/Fields/Tests.antt =====
-- Runs of whole packets.
use libyojimbo.Prelude.{◌≡◌, some, List, All, [], ◌∷◌, arith}
use libyojimbo.BitPack.Fields.{Field, Fits, send}
use libyojimbo.BitPack.Fields.Laws.{send_lem}

abbrev three_fields : List Field
three_fields =
    record { value = 5; bits = 3 }
    ∷ record { value = 100000; bits = 32 }
    ∷ record { value = 1; bits = 1 }
    ∷ []

three_fields-Fits : All Fits three_fields
three_fields-Fits = (
  (omega arith, omega arith, omega arith),
  ((omega arith, omega arith, omega arith), ((omega arith, omega arith, omega arith), tt)),
)

send_lem_example : send (7 ∷ 7 ∷ []) three_fields ≡ some (5 ∷ 100000 ∷ 1 ∷ [])
send_lem_example =
    send_lem (7 ∷ 7 ∷ []) three_fields (omega arith, (omega arith, tt)) three_fields-Fits
      (omega arith)

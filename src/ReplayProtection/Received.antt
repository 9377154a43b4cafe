-- ===== src/ReplayProtection/Received.antt =====
-- The abstract filter: it remembers every sequence number that it let in, for ever.
use libyojimbo.Prelude.{
  ℕ, ◌+◌, ◌^◌, max, Bool, true, false, ◌||◌, List, [], ◌∷◌, leb, ◌==◌, if◌then◌else◌,
}

-- Whether a number stands in a list.
unfoldable pub member : ℕ → List ℕ → Bool
member s [] = false
member s (x ∷ xs) = (x == s) || member s xs

-- The greatest number of a list, or the starting number.
pub record Received : Type 0 where
  pub most_recent : ℕ
  pub let_in : List ℕ

-- A global packet passes; a packet that is 64 or more behind is refused, and so is one that was let
-- in before; any other is let in.
unfoldable pub filter : Received → ℕ → Bool × Received
filter r s =
    if leb (2 ^ 63) s
    then (false, r)
    else if leb (s + 64) r.most_recent
    then (true, r)
    else let top = max r.most_recent s in
      if member s r.let_in
      then (true, record { most_recent = top; let_in = r.let_in })
      else (false, record { most_recent = top; let_in = s ∷ r.let_in })

unfoldable pub run : Received → List ℕ → List Bool
run r [] = []
run r (s ∷ ss) = let (seen, r') = filter r s in seen ∷ run r' ss

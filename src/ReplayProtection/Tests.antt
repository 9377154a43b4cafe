-- ===== src/ReplayProtection/Tests.antt =====
-- A run of the ring, and the theorem at it.
use libyojimbo.Prelude.{ℕ, ◌+◌, ◌^◌, ◌≡◌, refl, arith, true, false, List, [], ◌∷◌}
use libyojimbo.ReplayProtection.{reset, check_entry, packet_already_received, run}
use libyojimbo.ReplayProtection.Received
use libyojimbo.ReplayProtection.Laws.{run-Received}

-- A replay, a late packet, one too late, and a global packet sent twice.
abbrev traffic : List ℕ
traffic = 5 ∷ 5 ∷ 100 ∷ 40 ∷ 40 ∷ 36 ∷ (2 ^ 63 + 1) ∷ (2 ^ 63 + 1) ∷ []

run-traffic :
    run (reset 0) traffic ≡ false ∷ true ∷ false ∷ false ∷ true ∷ true ∷ false ∷ false ∷ []
unfolding run reset packet_already_received check_entry
run-traffic = refl

run-Received_example :
    run (reset 0) traffic ≡ Received.run (record { most_recent = 0; let_in = [] }) traffic
run-Received_example = run-Received 0 traffic (omega arith) (omega arith)

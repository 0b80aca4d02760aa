-- ===== src/Embedded/Tests.antt =====
-- The theorems on garlic_sam_embed.go at concrete values.
use onramp.Prelude.{
  ℕ, ◌*◌, ◌≡◌, Bool, leb, Option, none, some, String, [], ◌∷◌, if◌then◌else◌, string_eq, arith,
}
use onramp.Embedded.{Registry, poll_interval, wait_for_sam_ready}
use onramp.Embedded.Waiting.{Ends, wait_for_sam_ready-Ends}

-- A round takes the time of its sleep, and the bridge answers from the fourth on.
abbrev ticks : ℕ → ℕ
ticks i = i * poll_interval

abbrev fourth : ℕ → Bool
fourth i = leb 3 i

wait_for_sam_ready-Ends_example :
    (r : Bool) × (wait_for_sam_ready ticks fourth 0 (10 * poll_interval) 11 ≡ some r)
    × Ends ticks fourth (10 * poll_interval) 0 r
wait_for_sam_ready-Ends_example =
    wait_for_sam_ready-Ends ticks fourth 0 (10 * poll_interval) 11 (λ i. omega arith) (omega arith)
      (omega arith)

-- A PRIMARY session with a stream session under it.
abbrev named : String → String → Option String
named name id = if string_eq.beq id name then some name else none

abbrev registry : Registry String
registry = record {
  registered = named "garlic";
  all = "garlic" ∷ [];
  as_primary = λ s. some (named "garlic-stream");
}

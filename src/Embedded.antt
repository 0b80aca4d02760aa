-- ===== src/Embedded.antt =====
-- garlic_sam_embed.go: whether an embedded SAM bridge is made, the wait until it answers, and the registry
-- that also finds the sessions under a PRIMARY session. The bridge and the registry of go-sam-bridge are
-- arguments.
pub mod Waiting
pub mod Lookup
mod Tests
use onramp.Prelude.{
  ℕ, zero, suc, ◌+◌, ◌*◌, Bool, true, false, ltb, Option, none, some, List, [], ◌∷◌, ◌⊎◌, inl, inr,
  String,
}
use onramp.Prelude.Clock.{millisecond}
use onramp.Garlic.Closing.{Bridge, no_bridge, no_start, no_answer, runs}

-- The durations of `waitForSAMReady`.
abbrev pub poll_interval : ℕ
poll_interval = 100 * millisecond

-- `waitForSAMReady` from its round `i` on, where `now i` is the reading of the clock in that round and
-- `dials i` whether the address takes a connection then. `none` means that the fuel is used up; `true` is
-- no error.
unfoldable pub wait_from : (ℕ → ℕ) → (ℕ → Bool) → ℕ → ℕ → ℕ → Option Bool
wait_from now dials deadline zero i = none
wait_from now dials deadline (suc fuel) i = elim (ltb (now i) deadline) [
  | false ↦ some false
  | true ↦ elim (dials i) [ true ↦ some true | false ↦ wait_from now dials deadline fuel (suc i) ]
]

-- `waitForSAMReady`: `start` is the reading of which the deadline is made.
unfoldable pub wait_for_sam_ready : (ℕ → ℕ) → (ℕ → Bool) → ℕ → ℕ → ℕ → Option Bool
unfolding wait_from
wait_for_sam_ready now dials start timeout fuel = wait_from now dials (start + timeout) fuel 0

-- `newEmbeddedSAMBridge`, and the start and the wait in `newGarlic`: `available` is whether nothing listens
-- at the address, `made` the error of `embedding.New`, `ready` how the wait ends, and `e` its error.
unfoldable pub embedded_bridge : Bool → Option String → Option Bool → String → Option Bridge
embedded_bridge false made ready e = some no_bridge
embedded_bridge true (some e') ready e = some (no_start e')
embedded_bridge true none none e = none
embedded_bridge true none (some false) e = some (no_answer e)
embedded_bridge true none (some true) e = some runs

-- The registry of go-sam-bridge: `Get`, `All`, and the assertion that a session is a PRIMARY session,
-- with its `Subsession`.
pub record Registry (S : Type 0) : Type 0 where
  pub registered : String → Option S
  pub all : List String
  pub as_primary : S → Option (String → Option S)

module _ {S : Type 0} (r : Registry S) where
  -- What is under the session of an id, if that is a PRIMARY session.
  abbrev pub subsession_of : String → Option S → Option S
  subsession_of id none = none
  subsession_of id (some s) = elim (r.as_primary s) [
    | none ↦ none
    | some subsession ↦ subsession id
  ]

  -- The loop of `Get`
  unfoldable pub search_subsessions : String → List String → Option S
  search_subsessions id [] = none
  search_subsessions id (sess_id ∷ ids) = elim (subsession_of id (r.registered sess_id)) [
    | some sub ↦ some sub
    | none ↦ search_subsessions id ids
  ]

  -- `subsessionAwareRegistry.Get`; `none` is nil.
  unfoldable pub get : String → Option S
  unfolding search_subsessions
  get id = elim (r.registered id) [ some s ↦ some s | none ↦ search_subsessions id r.all ]

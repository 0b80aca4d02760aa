-- ===== src/Onion/Tests.antt =====
-- The theorems on the shared Tor process at concrete values.
use onramp.Prelude.{
  ℕ, ◌+◌, ◌≡◌, refl, inl, inr, true, false, none, some, List, [], ◌∷◌, arith, string_eq,
}
use onramp.Onion.{launched, no_start, Tor, has_ref, close}
use onramp.Onion.Refs.{idle, holders, IsCounted}
use onramp.Onion.Refs.Users.{Call, gets, closes, run, users_after, nobody, runs, run-Refines}
use onramp.Onion.Races.{get_tor_race, race_leaks}
use onramp.Onion.Managed.{Managed, close_all_onion}
use onramp.Onion.Managed.Closing.{IsManaged, close_all_onion-stops, IsListed}

-- A listener, a start that fails, a stop that fails and a start that fails with a Tor.
abbrev calls : List Call
calls =
    gets launched 1
    ∷ gets (no_start false "busy") 2
    ∷ closes (some "stuck") 1
    ∷ closes none 2
    ∷ gets (no_start true "busy") 3
    ∷ []

run-Refines_example :
    let t = run idle calls in
    let u = users_after nobody calls in
    (t.flags ≡ u.users)
    × (t.refs ≡ holders u.users)
    × (t.running ≡ runs u)
    × (u.stray ≡ true → holders u.users ≡ 0)
run-Refines_example = run-Refines calls

abbrev held : Tor
held = record { running = true; refs = 1; flags = (1, true) ∷ [] }

idle-IsCounted : IsCounted idle
idle-IsCounted = record { keyed = tt; counted = refl; stopped = inr refl }

unheld : has_ref 1 idle ≡ false
unfolding has_ref
unheld = refl

race_leaks_example :
    let raced = get_tor_race 1 idle in
    let closed = (close none 1 raced).0 in
    (raced.refs ≡ holders raced.flags + 1)
    × (closed.running ≡ true)
    × (has_ref 1 closed ≡ false)
    × (close none 1 closed ≡ (closed, none))
race_leaks_example = race_leaks 1 idle idle-IsCounted unheld

-- One listener, under one key.
abbrev listening : Managed
listening = record { tor = held; onions = ("shop", 1) ∷ []; next = 2 }

held-IsListed : (p : ℕ) → has_ref p held ≡ true → IsListed p listening.onions
unfolding has_ref
held-IsListed p h = ground arith

listening-IsManaged : IsManaged listening
listening-IsManaged = record {
  counted = record { keyed = (refl, tt); counted = refl; stopped = inl refl };
  tight = (λ e. omega arith, λ e. refl);
  listed = held-IsListed;
}

close_all_onion-stops_example :
    let g' = close_all_onion (λ _. none) listening in
    (g'.onions ≡ []) × (g'.tor.running ≡ false) × (g'.tor.refs ≡ 0)
close_all_onion-stops_example = close_all_onion-stops listening listening-IsManaged

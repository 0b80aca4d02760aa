-- ===== src/Onion.antt =====
-- The shared Tor process of onion.go: `torp` and `torpRefs`, and the flag `hasRef` of each `Onion`. An
-- `Onion` is a pointer, here a number. Each function is one critical section of `hasRefMu` or
-- `torpMu`, or their sequence in a call; the text of an error is that of the library.
pub mod Refs
pub mod Races
pub mod Managed
pub mod Calls
mod Tests
use onramp.Prelude.{
  ◌≡◌, ℕ, suc, ◌+◌, ◌-◌, Bool, true, false, Option, none, some, String, List, [], ◌∷◌, leb,
  if◌then◌else◌, nat_eq,
}
use onramp.Prelude.Map.{Map, lookup, insert}

pub record Tor : Type 0 where
  -- `torp != nil`
  pub running : Bool
  -- `torpRefs`
  pub refs : ℕ
  -- the field `hasRef` of the Onion at an address
  pub flags : Map ℕ Bool

-- The flag of an `Onion`; it starts as false.
abbrev pub flag_or_false : Option Bool → Bool
flag_or_false none = false
flag_or_false (some b) = b

unfoldable pub has_ref : ℕ → Tor → Bool
has_ref o t = flag_or_false (lookup o t.flags)

-- The counting at the end of `getTor`.
abbrev pub count_ref : Bool → ℕ → Tor → Tor
count_ref already o t =
    if already then t else record t { refs = t.refs + 1; flags = insert o true t.flags }

-- What `tor.Start` gives: a Tor, or an error, and whether the pointer beside the error is set.
pub data Start : Type 0 where
  launched : Start
  no_start : Bool → String → Start

-- `getTor`, once `torpMu` is held: `already` is the flag as it was read before. `torp` is set to what
-- `tor.Start` gives, also where it fails.
unfoldable pub get_tor_locked : Bool → Start → ℕ → Tor → Tor × Option String
get_tor_locked already start o t = if t.running then (count_ref already o t, none) else elim start [
  | no_start left e ↦ (record t { running = left }, some e)
  | launched ↦ (count_ref already o (record t { running = true }), none)
]

-- `getTor`, where no other thread comes between.
unfoldable pub get_tor : Start → ℕ → Tor → Tor × Option String
unfolding get_tor_locked has_ref
get_tor start o t = get_tor_locked (has_ref o t) start o t

-- The first critical section of `Close`: the flag is taken off.
unfoldable pub take_ref : ℕ → Tor → Tor × Bool
unfolding has_ref
take_ref o t =
    if has_ref o t then (record t { flags = insert o false t.flags }, true) else (t, false)

-- The second one; `stop` is the error of `torp.Close`. The subtraction stops at 0; the source's count is
-- never less than the number of set flags, one of which the caller has just taken off.
unfoldable pub release_ref : Option String → Tor → Tor × Option String
release_ref stop t =
    if t.running
    then (let refs = t.refs - 1 in
        if leb refs 0
        then elim stop [
          | some e ↦ (record t { refs = refs }, some e)
          | none ↦ (record t { running = false; refs = 0 }, none)
        ]
        else (record t { refs = refs }, none))
    else (t, none)

-- `Onion.Close`, where no other thread comes between.
unfoldable pub close : Option String → ℕ → Tor → Tor × Option String
unfolding take_ref release_ref
close stop o t =
    let (taken, had) = take_ref o t in if had then release_ref stop taken else (taken, none)

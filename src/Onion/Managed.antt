-- ===== src/Onion/Managed.antt =====
-- The `Onion`s that onion.go keeps for the package-level functions: the map `onions`. A new `Onion` is
-- the next number. What the keystore and the Tor library answer is an argument.
pub mod Leaks
pub mod Closing
use onramp.Prelude.{ℕ, suc, Option, none, some, String, [], ◌∷◌, string_eq}
use onramp.Prelude.Map.{Map, lookup, insert, erase}
use onramp.Onion.{Tor, Start, get_tor, close}

pub record Managed : Type 0 where
  pub tor : Tor
  pub onions : Map String ℕ
  pub next : ℕ

-- The end of a call: the package's variables and the error.
abbrev pub Ended : Type 0
Ended = Managed × Option String

-- `Onion.OldListen`, as far as the shared state goes: `getTor`, and then the keys and the listener, which
-- may fail with `listen`.
unfoldable pub listen_base : Start → Option String → ℕ → Managed → Ended
listen_base start listen o g =
    let (tor, e) = get_tor start o g.tor in
    elim e [ some x ↦ (record g { tor = tor }, some x) | none ↦ (record g { tor = tor }, listen) ]

-- `NewOnion`, which does not fail, and the registration of the instance.
abbrev pub register_new : String → Managed → Managed
register_new key g = record g { onions = insert key g.next g.onions; next = suc g.next }

-- `ListenOnion`: an instance that is created, registered and opened each time.
unfoldable pub listen_onion : Start → Option String → String → Managed → Ended
unfolding listen_base
listen_onion start listen key g = listen_base start listen g.next (register_new key g)

-- `DialOnion`: the instance of the address is used again.
unfoldable pub dial_onion : Start → Option String → String → Managed → Ended
unfolding listen_base
dial_onion start dial addr g = elim (lookup addr g.onions) [
  | some o ↦ listen_base start dial o g
  | none ↦ listen_base start dial g.next (register_new addr g)
]

-- `CloseOnion`; an error of `Close` is logged.
unfoldable pub close_onion : Option String → String → Managed → Managed
close_onion stop key g = elim (lookup key g.onions) [
  | none ↦ g
  | some o ↦ record g { tor = (close stop o g.tor).0; onions = erase key g.onions }
]

-- The loop of `CloseAllOnion`, over the entries in the order of the range. `stop o` is the error of
-- `torp.Close` when the instance `o` is closed.
unfoldable pub close_each : (ℕ → Option String) → Map String ℕ → Tor → Tor
close_each stop [] t = t
close_each stop ((key, o) ∷ m) t = close_each stop m (close (stop o) o t).0

-- `CloseAllOnion`: each entry is deleted when it has been closed.
unfoldable pub close_all_onion : (ℕ → Option String) → Managed → Managed
unfolding close_each
close_all_onion stop g = record g { tor = close_each stop g.onions g.tor; onions = [] }

-- ===== src/Routing.antt =====
-- common.go: `Dial` and `Listen`, which choose I2P or Tor by a hostname or a network, and `CloseAll`; with
-- the end of `cleanupAll` of cleanup.go. A result is the number of what the call made, or `none` on the
-- side of Tor, whose connections are those of its library.
pub mod Laws
pub mod Closing
mod Tests
use onramp.Prelude.{
  ℕ, Bool, true, false, not, ◌||◌, ◌⊎◌, inl, inr, Option, none, some, String, List, [], ◌∷◌,
  if◌then◌else◌, string_eq, bytes_eq,
}
use onramp.Prelude.Int.{ℤ}
use onramp.Garlic as G
use onramp.Garlic.{Outside}
use onramp.Garlic.Ports.{Bytes, i2p_text}
use onramp.Garlic.Closing.{Closes, Bridge}
use onramp.Garlic.Managed.{World, listen_garlic, dial_garlic, close_all_garlic, cleanup_all}
use onramp.Onion.{Start}
use onramp.Onion.Managed.{Managed, listen_onion, dial_onion, close_all_onion}

-- What common.go uses of Go: the bytes of a text, `Hostname()` of what `url.Parse` gives, where it gives
-- something, and `net.LookupPort`.
pub record Library : Type 0 where
  pub text_bytes : String → Bytes
  pub hostname : String → Option String
  pub lookup_port : Bytes → Option ℤ

-- The package's variables on the two sides.
pub record Onramp : Type 0 where
  pub garlic_side : World
  pub tor_side : Managed

-- What the outside answers to one call, on the side that it goes to.
pub record Answers : Type 0 where
  pub out : Outside
  pub bridge : Bridge
  pub start : Start
  pub tor : Option String

pub data Error : Type 0 where
  no_url : Error
  from_i2p : G.Error → Error
  from_tor : String → Error

-- The end of a call: its error, or the number of a session on the side of I2P.
abbrev pub Ended : Type 0
Ended = (Error ⊎ Option ℕ) × Onramp

-- `strings.HasSuffix`
unfoldable pub has_suffix : Bytes → Bytes → Bool
has_suffix [] s = bytes_eq.beq [] s
has_suffix (c ∷ t) s = bytes_eq.beq (c ∷ t) s || has_suffix t s

-- `isI2PHostname`
unfoldable pub is_i2p_hostname : Library → String → Bool
unfolding has_suffix
is_i2p_hostname l hostname = has_suffix (l.text_bytes hostname) i2p_text

-- `routeByHostname`
abbrev pub route_by_hostname : {A : Type 0} → Library → String → A → A → A
route_by_hostname l hostname i2p tor = if is_i2p_hostname l hostname then i2p else tor

-- A call on one side.
abbrev pub on_i2p : ((G.Error ⊎ ℕ) × World) → Onramp → Ended
on_i2p (inl e, g) w = (inl (from_i2p e), record w { garlic_side = g })
on_i2p (inr n, g) w = (inr (some n), record w { garlic_side = g })

abbrev pub on_tor : (Managed × Option String) → Onramp → Ended
on_tor (t, some e) w = (inl (from_tor e), record w { tor_side = t })
on_tor (t, none) w = (inr none, record w { tor_side = t })

abbrev pub dial_i2p : Library → Answers → String → Onramp → Ended
dial_i2p l a addr w =
    on_i2p (dial_garlic l.lookup_port a.out a.bridge (l.text_bytes addr) w.garlic_side) w

abbrev pub dial_tor : Answers → String → Onramp → Ended
dial_tor a addr w = on_tor (dial_onion a.start a.tor addr w.tor_side) w

abbrev pub listen_i2p : Answers → String → Onramp → Ended
listen_i2p a keys w = on_i2p (listen_garlic a.out a.bridge keys w.garlic_side) w

abbrev pub listen_tor : Answers → String → Onramp → Ended
listen_tor a keys w = on_tor (listen_onion a.start a.tor keys w.tor_side) w

-- `Dial`; the network is ignored.
unfoldable pub dial : Library → Answers → String → Onramp → Ended
unfolding dial_garlic dial_onion is_i2p_hostname
dial l a addr w = elim (l.hostname addr) [
  | none ↦ (inl no_url, w)
  | some hostname ↦ route_by_hostname l hostname (dial_i2p l a addr w) (dial_tor a addr w)
]

abbrev pub is_i2p_network : String → Bool
is_i2p_network network = string_eq.beq network "i2p" || string_eq.beq network "garlic"

abbrev pub is_tor_network : String → Bool
is_tor_network network = string_eq.beq network "tor" || string_eq.beq network "onion"

-- `Listen`, for a network that names no side.
abbrev pub listen_by_hostname : Library → Answers → String → Onramp → Ended
listen_by_hostname l a keys w = elim (l.hostname keys) [
  | none ↦ (inl no_url, w)
  | some hostname ↦ route_by_hostname l hostname (listen_i2p a keys w) (listen_tor a keys w)
]

-- `Listen`
unfoldable pub listen : Library → Answers → String → String → Onramp → Ended
unfolding listen_garlic listen_onion is_i2p_hostname
listen l a network keys w =
    if is_i2p_network network
    then listen_i2p a keys w
    else if is_tor_network network
    then listen_tor a keys w
    else listen_by_hostname l a keys w

-- `CloseAll`
unfoldable pub close_all : Closes → (ℕ → Option String) → Onramp → Onramp
unfolding close_all_garlic close_all_onion
close_all c stop w = record {
  garlic_side = close_all_garlic c w.garlic_side;
  tor_side = close_all_onion stop w.tor_side;
}

-- `cleanupAll`, with `CloseAllOnion`
unfoldable pub cleanup : Closes → (ℕ → Option String) → Onramp → Onramp
unfolding cleanup_all close_all_onion
cleanup c stop w = record {
  garlic_side = cleanup_all c w.garlic_side;
  tor_side = close_all_onion stop w.tor_side;
}

-- ===== src/Onion/Managed/Leaks.antt =====
-- `ListenOnion` of onion.go for a key that is in use.
use onramp.Prelude.{
  ℕ, ◌<◌, ◌≡◌, ◌∙◌, refl, inl, inr, true, none, Option, String, [], ◌∷◌, ==_iff, nat_eq, string_eq,
  arith,
}
use onramp.Prelude.Map.{Map, insert, lookup-insert}
use onramp.Onion.{Start, launched, has_ref, Tor, get_tor, close}
use onramp.Onion.Refs.{holders, holders-flag, get_tor-IsTight}
use onramp.Onion.Managed.{
  Managed, listen_base, register_new, listen_onion, close_all_onion, close_each,
}
use onramp.Onion.Managed.Closing.{IsListed, IsManaged, close-flags, close_each-IsTight}

-- An instance that is not in the map keeps its flag.
close_each-others :
    (stop : ℕ → Option String) (m : Map String ℕ) (p : ℕ) (t : Tor)
    → ¬ IsListed p m
    → has_ref p (close_each stop m t) ≡ has_ref p t
unfolding close_each
close_each-others stop [] p t h = refl
close_each-others stop ((key, o) ∷ m) p t h =
    let rest = close_each-others stop m p (close (stop o) o t).0 (λ q. h (inr q)) in
    let apart : ¬ (p ≡ o) = λ e. h (inl e) in
    ground (arith, rest, apart, close-flags (stop o) o p t, ==_iff o p)

holders-held : (o : ℕ) (t : Tor) → has_ref o t ≡ true → 0 < holders t.flags
unfolding has_ref
holders-held o t h = ground (arith, holders-flag o t.flags)

get_tor-keeps : (o p : ℕ) (t : Tor) → has_ref p t ≡ true → has_ref p (get_tor launched o t).0 ≡ true
unfolding get_tor
get_tor-keeps o p t h = ground (arith, lookup-insert o p true t.flags)

-- Whatever comes of it, the call changes Tor as `getTor` does.
listen_base-tor :
    (start : Start) (listen : Option String) (o : ℕ) (g : Managed)
    → (listen_base start listen o g).0 ≡ record g { tor = (get_tor start o g.tor).0 }
unfolding listen_base
listen_base-tor start listen o g = ground arith

-- Where an `Onion` with a reference is not in the map once `ListenOnion` has put the new instance
-- under a key, and Tor can be started and stopped without an error, `CloseAllOnion` after that
-- `ListenOnion` empties the map, and the `Onion` keeps its reference and Tor runs on.
relisten_leaks :
    (key : String) (o : ℕ) (g : Managed)
    → IsManaged g
    → has_ref o g.tor ≡ true
    → ¬ IsListed o (insert key g.next g.onions)
    → let g' = close_all_onion (λ _. none) (listen_onion launched none key g).0 in
      (g'.onions ≡ []) × (has_ref o g'.tor ≡ true) × (g'.tor.running ≡ true)
unfolding listen_onion close_all_onion
relisten_leaks key o g v held replaced =
    let m = insert key g.next g.onions in
    let opened = (get_tor launched g.next g.tor).0 in
    let next = get_tor-IsTight g.next g.tor v.counted v.tight in
    let last = close_each-IsTight m opened next.0 next.1 in
    let kept : has_ref o (close_each (λ _. none) m opened) ≡ true =
      close_each-others (λ _. none) m o opened replaced ∙ get_tor-keeps g.next o g.tor held in
    rw (listen_base-tor launched none g.next (register_new key g))
      (refl, kept, last.1.1 (holders-held o (close_each (λ _. none) m opened) kept))

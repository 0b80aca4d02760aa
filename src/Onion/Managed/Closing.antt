-- ===== src/Onion/Managed/Closing.antt =====
-- Closing the managed `Onion`s of onion.go.
use mathlib.Core.Path.{subst}
use onramp.Prelude.{
  ℕ, ◌≡◌, refl, ◌⊎◌, inl, inr, Bool, true, false, Bool-cases, Option, Option-cases, none, some,
  String, [], ◌∷◌, ◌==◌, ◌<◌, ◌&&◌, ==_iff, if◌then◌else◌, nat_eq, string_eq, arith,
}
use onramp.Prelude.Map.{Map, IsMap, lookup, insert, lookup-insert}
use onramp.Onion.{Start, Tor, has_ref, flag_or_false, get_tor, close}
use onramp.Onion.Refs.{IsCounted, IsTight, holders, holders-flag, get_tor-IsCounted, close-IsTight}
use onramp.Onion.Managed.{
  Managed, register_new, listen_base, dial_onion, close_each, close_all_onion,
}

-- A pointer is one of those in the map.
abbrev pub IsListed : ℕ → Map String ℕ → Type 0
IsListed o [] = ⊥
IsListed o ((key, p) ∷ m) = (o ≡ p) ⊎ IsListed o m

-- Closing one instance takes away its flag and no other.
pub close-flags :
    (stop : Option String) (o p : ℕ) (t : Tor)
    → has_ref p (close stop o t).0 ≡ (if o == p then false else has_ref p t)
unfolding close
close-flags stop o p t = ground (arith, ==_iff o p, lookup-insert o p false t.flags)

close_each-keeps_none :
    (stop : ℕ → Option String) (m : Map String ℕ) (p : ℕ) (t : Tor)
    → has_ref p t ≡ false
    → has_ref p (close_each stop m t) ≡ false
unfolding close_each
close_each-keeps_none stop [] p t h = h
close_each-keeps_none stop ((key, o) ∷ m) p t h =
    close_each-keeps_none stop m p (close (stop o) o t).0
      (ground (arith, close-flags (stop o) o p t))

-- Every instance of the map has been closed.
close_each-flags :
    (stop : ℕ → Option String) (m : Map String ℕ) (p : ℕ) (t : Tor)
    → IsListed p m
    → has_ref p (close_each stop m t) ≡ false
unfolding close_each
close_each-flags stop [] p t h = absurd h
close_each-flags stop ((key, o) ∷ m) p t (inl e) =
    close_each-keeps_none stop m p (close (stop o) o t).0
      (ground (arith, close-flags (stop o) o p t, ==_iff o p))
close_each-flags stop ((key, o) ∷ m) p t (inr h) =
    close_each-flags stop m p (close (stop o) o t).0 h

pub close_each-IsTight :
    (m : Map String ℕ) (t : Tor)
    → IsCounted t
    → IsTight t
    → IsCounted (close_each (λ _. none) m t) × IsTight (close_each (λ _. none) m t)
unfolding close_each
close_each-IsTight [] t v w = (v, w)
close_each-IsTight ((key, o) ∷ m) t v w =
    let next = close-IsTight none o t refl v w in
    close_each-IsTight m (close none o t).0 next.0 next.1

-- With no flag set there is no holder.
holders-none :
    (m : Map ℕ Bool) → IsMap m → ((p : ℕ) → flag_or_false (lookup p m) ≡ false) → holders m ≡ 0
holders-none [] v h = refl
holders-none ((j, c) ∷ m) v h =
    let clear : c ≡ false = ground (arith, h j, ==_iff j j) in
    let rest = holders-none m v.1 (λ p. ground (arith, h p, v.0, ==_iff j p)) in
    ground (arith, clear, rest)

-- Each `Onion` with a reference is in the map, the count is that of the holders, and Tor runs exactly when
-- there is one.
pub record IsManaged (g : Managed) : Type 0 where
  pub counted : IsCounted g.tor
  pub tight : IsTight g.tor
  pub listed : (p : ℕ) → has_ref p g.tor ≡ true → IsListed p g.onions

-- Where each `Onion` with a reference is in the map, the count is that of the holders, Tor runs
-- exactly when there is one, and Tor stops without an error, `CloseAllOnion` leaves no instance
-- in the map, stops Tor and leaves the count at 0.
pub close_all_onion-stops :
    (g : Managed)
    → IsManaged g
    → let g' = close_all_onion (λ _. none) g in
      (g'.onions ≡ []) × (g'.tor.running ≡ false) × (g'.tor.refs ≡ 0)
unfolding close_all_onion has_ref
close_all_onion-stops g v =
    let t' = close_each (λ _. none) g.onions g.tor in
    let after = close_each-IsTight g.onions g.tor v.counted v.tight in
    let none_left = holders-none t'.flags after.0.keyed (λ p. elim (Bool-cases (has_ref p g.tor)) [
      | inl held ↦ close_each-flags (λ _. none) g.onions p g.tor (v.listed p held)
      | inr free ↦ close_each-keeps_none (λ _. none) g.onions p g.tor free
    ]) in
    (refl, ground (arith, none_left, after.1.0), ground (arith, none_left, after.0.counted))

-- `getTor` gives its own `Onion` a flag, if any.
get_tor-flags :
    (start : Start) (o p : ℕ) (t : Tor)
    → has_ref p (get_tor start o t).0 ≡ true
    → (o ≡ p) ⊎ (has_ref p t ≡ true)
unfolding get_tor
get_tor-flags start o p t h = ground (arith, ==_iff o p, lookup-insert o p true t.flags)

lookup-IsListed : (key : String) (o : ℕ) (m : Map String ℕ) → lookup key m ≡ some o → IsListed o m
lookup-IsListed key o [] e = cc
lookup-IsListed key o ((k, p) ∷ m) e = ground (arith, lookup-IsListed key o m)

insert-IsListed_self :
    (key : String) (o : ℕ) (m : Map String ℕ) → lookup key m ≡ none → IsListed o (insert key o m)
insert-IsListed_self key o [] e = inl refl
insert-IsListed_self key o ((k, p) ∷ m) e = ground (arith, insert-IsListed_self key o m)

insert-IsListed :
    (key : String) (o q : ℕ) (m : Map String ℕ)
    → lookup key m ≡ none
    → IsListed q m
    → IsListed q (insert key o m)
insert-IsListed key o q [] e h = absurd h
insert-IsListed key o q ((k, p) ∷ m) e h = ground (arith, insert-IsListed key o q m)

-- The count is that of the holders, and each `Onion` with a reference is in the map.
pub record IsKept (g : Managed) : Type 0 where
  pub counted : IsCounted g.tor
  pub listed : (p : ℕ) → has_ref p g.tor ≡ true → IsListed p g.onions

listen_base-IsKept :
    (start : Start) (listen : Option String) (o : ℕ) (g : Managed)
    → IsListed o g.onions
    → IsKept g
    → IsKept (listen_base start listen o g).0
unfolding listen_base
listen_base-IsKept start listen o g own v =
    let kept : IsKept (record g { tor = (get_tor start o g.tor).0 }) = record {
      counted = get_tor-IsCounted start o g.tor v.counted;
      listed = λ p h. elim (get_tor-flags start o p g.tor h) [
        | inl e ↦ subst (λ q. IsListed q g.onions) e own
        | inr held ↦ v.listed p held
      ];
    } in
    elim (Option-cases (get_tor start o g.tor).1) [
      | inl e ↦ rw (e, listen_base) kept
      | inr (x, e) ↦ rw (e, listen_base) kept
    ]

register_new-IsKept :
    (key : String) (g : Managed)
    → lookup key g.onions ≡ none
    → IsKept g
    → IsKept (register_new key g)
register_new-IsKept key g new v = record {
  counted = v.counted;
  listed = λ p h. insert-IsListed key g.next p g.onions new (v.listed p h);
}

-- Whether or not it succeeds, and whatever Tor answers, `DialOnion` keeps the following: each `Onion` with
-- a reference is in the map, and the count is that of the holders.
pub dial_onion-IsKept :
    (start : Start) (dial : Option String) (addr : String) (g : Managed)
    → IsKept g
    → IsKept (dial_onion start dial addr g).0
unfolding dial_onion
dial_onion-IsKept start dial addr g v = elim (Option-cases (lookup addr g.onions)) [
  | inl e ↦
      rw (e, dial_onion)
        (listen_base-IsKept start dial g.next (register_new addr g)
          (insert-IsListed_self addr g.next g.onions e) (register_new-IsKept addr g e v))
  | inr (o, e) ↦
      rw (e, dial_onion) (listen_base-IsKept start dial o g (lookup-IsListed addr o g.onions e) v)
]

-- Closing `Onion`s with no reference changes nothing.
close_each-idle :
    (stop : ℕ → Option String) (m : Map String ℕ) (t : Tor)
    → holders t.flags ≡ 0
    → close_each stop m t ≡ t
unfolding close_each close
close_each-idle stop [] t h = refl
close_each-idle stop ((key, o) ∷ m) t h =
    let still : (close (stop o) o t).0 ≡ t = ground (arith, h, holders-flag o t.flags) in
    rw still (close_each-idle stop m t h)

-- Whether Tor runs with no reference.
abbrev pub is_stray : Tor → Bool
is_stray t = t.running && (t.refs == 0)

-- Where each `Onion` with a reference is in the map, the count is that of the holders, and Tor stops
-- without an error, `CloseAllOnion` leaves no instance in the map and the count at 0, and Tor runs
-- afterwards exactly where it ran before with no reference.
pub close_all_onion-strays :
    (g : Managed)
    → IsKept g
    → let g' = close_all_onion (λ _. none) g in
      (g'.onions ≡ []) × (g'.tor.refs ≡ 0) × (g'.tor.running ≡ is_stray g.tor)
unfolding close_all_onion
close_all_onion-strays g v = elim (zero_or_more (holders g.tor.flags)) [
  | inl e ↦
      rw (close_each-idle (λ _. none) g.onions g.tor e, close_all_onion)
        (refl, ground (arith, e, v.counted.counted), ground (arith, e, v.counted.counted))
  | inr h ↦
      let tight : IsTight g.tor =
        (λ r. h, λ r. ground (arith, h, v.counted.counted, v.counted.stopped)) in
      let (o, r, n) =
        close_all_onion-stops g
          (record { counted = v.counted; tight = tight; listed = v.listed }) in
      (o, n, ground (arith, r, h, v.counted.counted))
]
  where
    zero_or_more : (n : ℕ) → (n ≡ 0) ⊎ (0 < n)
    zero_or_more n = ground arith

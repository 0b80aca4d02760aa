-- ===== src/Onion/Refs.antt =====
-- The reference count of onion.go and the `Onion`s with a reference.
pub mod Users
use onramp.Prelude.{
  ℕ, ◌+◌, ◌==◌, ◌||◌, ◌&&◌, not, if◌then◌else◌, some, ap, ◌∙◌, ◌≤◌, ◌<◌, ◌≡◌, refl, ◌⊎◌, inr, Bool,
  true, false, Option, none, String, List, [], ◌∷◌, ◌↔◌, nat_eq, arith,
}
use onramp.Prelude.Map.{Map, IsMap, lookup, insert, insert-IsMap, lookup-insert}
use onramp.Onion.{Start, launched, no_start, Tor, has_ref, flag_or_false, get_tor, close}

abbrev pub one_if : Bool → ℕ
one_if true = 1
one_if false = 0

-- How many `Onion`s have a reference.
abbrev pub holders : Map ℕ Bool → ℕ
holders [] = 0
holders ((o, b) ∷ m) = one_if b + holders m

pub holders-insert :
    (o : ℕ) (b : Bool) (m : Map ℕ Bool)
    → holders (insert o b m) + one_if (flag_or_false (lookup o m)) ≡ holders m + one_if b
holders-insert o b [] = ground arith
holders-insert o b ((j, c) ∷ m) = ground (arith, holders-insert o b m)

pub holders-flag : (o : ℕ) (m : Map ℕ Bool) → one_if (flag_or_false (lookup o m)) ≤ holders m
holders-flag o [] = omega arith
holders-flag o ((j, c) ∷ m) = ground (arith, holders-flag o m)

pub record IsCounted (t : Tor) : Type 0 where
  pub keyed : IsMap t.flags
  pub counted : t.refs ≡ holders t.flags
  pub stopped : (t.running ≡ true) ⊎ (t.refs ≡ 0)

pub get_tor-IsCounted :
    (start : Start) (o : ℕ) (t : Tor) → IsCounted t → IsCounted (get_tor start o t).0
unfolding get_tor
get_tor-IsCounted start o t v =
    ground (arith, holders-insert o true t.flags, insert-IsMap o true t.flags v.keyed)

pub close-IsCounted :
    (stop : Option String) (o : ℕ) (t : Tor) → IsCounted t → IsCounted (close stop o t).0
unfolding close
close-IsCounted stop o t v =
    ground (arith, holders-insert o false t.flags, insert-IsMap o false t.flags v.keyed)

-- Tor runs exactly while somebody holds a reference.
abbrev pub IsTight : Tor → Type 0
IsTight t = (t.running ≡ true) ↔ (0 < holders t.flags)

abbrev pub idle : Tor
idle = record { running = false; refs = 0; flags = [] }

pub get_tor-IsTight :
    (o : ℕ) (t : Tor)
    → IsCounted t
    → IsTight t
    → IsCounted (get_tor launched o t).0 × IsTight (get_tor launched o t).0
unfolding get_tor
get_tor-IsTight o t v w = (
  get_tor-IsCounted launched o t v,
  ground (
    arith,
    v.counted,
    v.stopped,
    w.0,
    w.1,
    holders-flag o t.flags,
    holders-insert o true t.flags,
  ),
)

pub close-IsTight :
    (stop : Option String) (o : ℕ) (t : Tor)
    → stop ≡ none
    → IsCounted t
    → IsTight t
    → IsCounted (close stop o t).0 × IsTight (close stop o t).0
unfolding close
close-IsTight stop o t e v w = (
  close-IsCounted stop o t v,
  ground (
    arith,
    v.counted,
    v.stopped,
    w.0,
    w.1,
    holders-flag o t.flags,
    holders-insert o false t.flags,
  ),
)

-- A `getTor` that succeeds leaves its `Onion` with a reference, and another one, whether or not
-- Tor could be started again, succeeds and changes nothing.
pub get_tor_again :
    (start again : Start) (o : ℕ) (t : Tor)
    → (get_tor start o t).1 ≡ none
    → let t' = (get_tor start o t).0 in (has_ref o t' ≡ true) × (get_tor again o t' ≡ (t', none))
unfolding get_tor
get_tor_again start again o t e = ground (arith, lookup-insert o o true t.flags)

-- After `Close`, whether or not Tor stops, the `Onion` has no reference, and closing it once more
-- succeeds and changes nothing.
pub close_again :
    (stop again : Option String) (o : ℕ) (t : Tor)
    → let t' = (close stop o t).0 in (has_ref o t' ≡ false) × (close again o t' ≡ (t', none))
unfolding close
close_again stop again o t = ground (arith, lookup-insert o o false t.flags)

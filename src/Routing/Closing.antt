-- ===== src/Routing/Closing.antt =====
-- Sequences of `Dial` and of `Listen` on I2P (common.go), and what `CloseAll` and the cleanup of a signal
-- leave after them.
use onramp.Prelude.{
  ℕ, true, ◌≡◌, refl, ◌⊎◌, inl, inr, Option, Option-cases, Bool-cases, none, some, String, List, [],
  ◌∷◌, All, arith,
}
use onramp.Garlic as G
use onramp.Garlic.Calls.Laws.{IsRandom}
use onramp.Garlic.Closing.Laws.{all_close}
use onramp.Garlic.Managed as Garlics
use onramp.Garlic.Managed.{World}
use onramp.Garlic.Managed.Invariant as GarlicInvariant
use onramp.Garlic.Managed.Laws.{listen_garlic-IsManaged, dial_garlic-IsManaged}
use onramp.Garlic.Managed.Closing.{AllClosed, Rest-AllClosed, close_all-Rest}
use onramp.Garlic.Managed.Package.{started-IsManaged, cleanup_all-AllClosed}
use onramp.Onion.{has_ref}
use onramp.Onion.Refs.{idle}
use onramp.Onion.Managed.{Managed}
use onramp.Onion.Managed.Closing.{IsKept, dial_onion-IsKept, is_stray, close_all_onion-strays}
use onramp.Routing.{
  Library, Onramp, Answers, is_i2p_hostname, on_i2p, on_tor, dial, is_i2p_network, listen,
  close_all, cleanup,
}

-- The variables of both sides are as their invariants say.
pub record BothManaged (w : Onramp) : Type 0 where
  pub garlic_managed : GarlicInvariant.IsManaged w.garlic_side
  pub onion_kept : IsKept w.tor_side

pub data Use : Type 0 where
  dials : Answers → String → Use
  listens : Answers → String → String → Use

unfoldable pub use_step : Library → Onramp → Use → Onramp
unfolding dial listen
use_step l w (dials a addr) = (dial l a addr w).1
use_step l w (listens a network keys) = (listen l a network keys w).1

unfoldable pub use_run : Library → Onramp → List Use → Onramp
unfolding use_step
use_run l w [] = w
use_run l w (u ∷ us) = use_run l (use_step l w u) us

-- A listener is on I2P by its network, and random numbers lie in their range.
abbrev pub IsFairUse : Use → Type 0
IsFairUse (dials a addr) = IsRandom a.out.random
IsFairUse (listens a network keys) = is_i2p_network network ≡ true

abbrev pub started : Onramp
started = record {
  garlic_side = Garlics.started;
  tor_side = record { tor = idle; onions = []; next = 0 };
}

on_i2p-BothManaged :
    (w : Onramp) (x : (G.Error ⊎ ℕ) × World)
    → GarlicInvariant.IsManaged x.1
    → BothManaged w
    → BothManaged (on_i2p x w).1
on_i2p-BothManaged w (inl e, g) m v = record { garlic_managed = m; onion_kept = v.onion_kept }
on_i2p-BothManaged w (inr n, g) m v = record { garlic_managed = m; onion_kept = v.onion_kept }

on_tor-BothManaged :
    (w : Onramp) (x : Managed × Option String)
    → IsKept x.0
    → BothManaged w
    → BothManaged (on_tor x w).1
on_tor-BothManaged w (t, none) m v = record { garlic_managed = v.garlic_managed; onion_kept = m }
on_tor-BothManaged w (t, some e) m v = record { garlic_managed = v.garlic_managed; onion_kept = m }

dial-BothManaged :
    (l : Library) (a : Answers) (addr : String) (w : Onramp)
    → IsRandom a.out.random
    → BothManaged w
    → BothManaged (dial l a addr w).1
unfolding dial
dial-BothManaged l a addr w r v = elim (Option-cases (l.hostname addr)) [
  | inl e ↦ rw (e, dial) v
  | inr (h, e) ↦ elim (Bool-cases (is_i2p_hostname l h)) [
    | inl t ↦
        rw (e, dial, t)
          (on_i2p-BothManaged w _
            (dial_garlic-IsManaged l.lookup_port a.out a.bridge (l.text_bytes addr) w.garlic_side r
              v.garlic_managed)
            v)
    | inr t ↦
        rw (e, dial, t)
          (on_tor-BothManaged w _ (dial_onion-IsKept a.start a.tor addr w.tor_side v.onion_kept) v)
  ]
]

listen-BothManaged :
    (l : Library) (a : Answers) (network keys : String) (w : Onramp)
    → is_i2p_network network ≡ true
    → BothManaged w
    → BothManaged (listen l a network keys w).1
unfolding listen
listen-BothManaged l a network keys w n v =
    rw (n, listen)
      (on_i2p-BothManaged w _
        (listen_garlic-IsManaged a.out a.bridge keys w.garlic_side v.garlic_managed) v)

use_run-BothManaged :
    (l : Library) (w : Onramp) (us : List Use)
    → All IsFairUse us
    → BothManaged w
    → BothManaged (use_run l w us)
unfolding use_run use_step
use_run-BothManaged l w [] f v = v
use_run-BothManaged l w (dials a addr ∷ us) (r, f) v =
    use_run-BothManaged l (dial l a addr w).1 us f (dial-BothManaged l a addr w r v)
use_run-BothManaged l w (listens a network keys ∷ us) (n, f) v =
    use_run-BothManaged l (listen l a network keys w).1 us f
      (listen-BothManaged l a network keys w n v)

no_ref : (p : ℕ) → has_ref p idle ≡ true → ⊥
unfolding has_ref
no_ref p h = ground arith

started-BothManaged : BothManaged started
started-BothManaged = record {
  garlic_managed = started-IsManaged;
  onion_kept = record {
    counted = record { keyed = tt; counted = refl; stopped = inr refl };
    listed = λ p h. absurd (no_ref p h);
  };
}

-- Nothing is open and no `Onion` is kept, and Tor runs only if it did with no reference.
abbrev pub IsShut : Onramp → Onramp → Type 0
IsShut before w =
    AllClosed w.garlic_side
    × (w.tor_side.onions ≡ [])
    × (w.tor_side.tor.refs ≡ 0)
    × (w.tor_side.tor.running ≡ is_stray before.tor_side.tor)

-- After any sequence of `Dial`, to I2P or to Tor, and of `Listen` on a network of I2P, in which
-- random numbers lie in their range, a `CloseAll` that closes wholly, and where Tor stops without an
-- error, leaves nothing open in any `Garlic`, no `Onion` in the map and no reference to Tor, and Tor
-- runs afterwards exactly where it ran before with no reference, which a failed start can leave
-- behind; and so does the cleanup after a signal.
pub use_run-close_all :
    (l : Library) (us : List Use)
    → All IsFairUse us
    → let w = use_run l started us in
      IsShut w (close_all all_close (λ o. none) w) × IsShut w (cleanup all_close (λ o. none) w)
unfolding close_all cleanup
use_run-close_all l us f =
    let w = use_run l started us in
    let v = use_run-BothManaged l started us f started-BothManaged in
    let tor_lem = close_all_onion-strays w.tor_side v.onion_kept in
    (
      (
        Rest-AllClosed _ (close_all-Rest w.garlic_side v.garlic_managed),
        tor_lem.0,
        tor_lem.1,
        tor_lem.2,
      ),
      (cleanup_all-AllClosed w.garlic_side v.garlic_managed, tor_lem.0, tor_lem.1, tor_lem.2),
    )

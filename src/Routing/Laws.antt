-- ===== src/Routing/Laws.antt =====
-- Where the calls of common.go go, and what `CloseAll` leaves.
use onramp.Prelude.{
  ℕ, true, false, ◌++◌, ◌∷◌, sym, ap, Bool-cases, ◌≡◌, refl, ◌⊎◌, inl, inr, Option, none, some,
  String, [], if◌then◌else◌, arith, bytes_eq, string_eq,
}
use mathlib.Core.Path.{subst}
use onramp.Prelude.Text.{codes}
use onramp.Garlic as G
use onramp.Garlic.Ports.{Bytes}
use onramp.Garlic.Managed.{World}
use onramp.Onion.Managed.{Managed}
use onramp.Routing.{
  Library, Onramp, Answers, no_url, Ended, has_suffix, is_i2p_hostname, on_i2p, on_tor, dial_i2p,
  dial_tor, listen_i2p, listen_tor, dial, is_i2p_network, is_tor_network, listen,
}

-- A call that leaves one side alone.
abbrev pub OnlyI2p : Onramp → Ended → Type 0
OnlyI2p w x = x.1.tor_side ≡ w.tor_side

abbrev pub OnlyTor : Onramp → Ended → Type 0
OnlyTor w x = x.1.garlic_side ≡ w.garlic_side

on_i2p-OnlyI2p : (w : Onramp) (x : (G.Error ⊎ ℕ) × World) → OnlyI2p w (on_i2p x w)
on_i2p-OnlyI2p w (inl e, g) = refl
on_i2p-OnlyI2p w (inr n, g) = refl

on_tor-OnlyTor : (w : Onramp) (x : Managed × Option String) → OnlyTor w (on_tor x w)
on_tor-OnlyTor w (t, none) = refl
on_tor-OnlyTor w (t, some e) = refl

-- A text ends in another one.
abbrev pub EndsIn : Bytes → Bytes → Type 0
EndsIn s t = (name : Bytes) × (t ≡ name ++ s)

has_suffix-EndsIn : (t s : Bytes) → has_suffix t s ≡ true → EndsIn s t
unfolding has_suffix
has_suffix-EndsIn [] s h = ([], ground arith)
has_suffix-EndsIn (c ∷ t) s h = elim (Bool-cases (bytes_eq.beq (c ∷ t) s)) [
  | inl e ↦ ([], (bytes_eq.beq_iff (c ∷ t) s).0 e)
  | inr e ↦ let (name, r) = has_suffix-EndsIn t s (rw e at h) in (c ∷ name, ap (c ∷◌) r)
]

EndsIn-has_suffix : (name s : Bytes) → has_suffix (name ++ s) s ≡ true
unfolding has_suffix
EndsIn-has_suffix [] [] = refl
EndsIn-has_suffix [] (c ∷ s) = ground (arith, (bytes_eq.beq_iff (c ∷ s) (c ∷ s)).1 refl)
EndsIn-has_suffix (c ∷ name) s = ground (arith, EndsIn-has_suffix name s)

-- The side of a hostname, if there is one: that of I2P, with nothing changed on that of Tor, exactly where
-- its bytes end in those of ".i2p".
abbrev pub Sided : Library → Option String → Onramp → Ended → Type 0
Sided l none w x = x ≡ (inl no_url, w)
Sided l (some hostname) w x =
    let t = l.text_bytes hostname in
    (EndsIn (codes ".i2p") t × OnlyI2p w x) ⊎ ((¬ EndsIn (codes ".i2p") t) × OnlyTor w x)

is_i2p_hostname-EndsIn :
    (l : Library) (h : String)
    → is_i2p_hostname l h ≡ false
    → ¬ EndsIn (codes ".i2p") (l.text_bytes h)
unfolding is_i2p_hostname
is_i2p_hostname-EndsIn l h e (name, q) =
    let found = EndsIn-has_suffix name (codes ".i2p") in
    ground (arith, e, subst (λ (t : Bytes). has_suffix t (codes ".i2p") ≡ true) (sym q) found)

routed :
    (l : Library) (hostname : Option String) (w : Onramp) (i2p tor : Ended)
    → OnlyI2p w i2p
    → OnlyTor w tor
    → Sided l hostname w (elim hostname as (λ _. Ended) [
      | none ↦ (inl no_url, w)
      | some h ↦ if is_i2p_hostname l h then i2p else tor
    ])
unfolding is_i2p_hostname
routed l none w i2p tor a b = refl
routed l (some h) w i2p tor a b = elim (Bool-cases (is_i2p_hostname l h)) [
  | inl e ↦ rw e (inl (has_suffix-EndsIn (l.text_bytes h) (codes ".i2p") e, a))
  | inr e ↦ rw e (inr (is_i2p_hostname-EndsIn l h e, b))
]

-- A `Dial` to an address that is no URL is an error and changes nothing; one to a hostname whose
-- bytes are any bytes followed by those of ".i2p" changes nothing on the side of Tor, and one to any
-- other hostname changes nothing on the side of I2P.
pub dial-Sided :
    (l : Library) (a : Answers) (addr : String) (w : Onramp)
    → Sided l (l.hostname addr) w (dial l a addr w)
unfolding dial
dial-Sided l a addr w =
    routed l (l.hostname addr) w (dial_i2p l a addr w) (dial_tor a addr w) (on_i2p-OnlyI2p w _)
      (on_tor-OnlyTor w _)

-- The side of a listener: that of its network, if that names one, else that of the hostname.
abbrev pub ListensOn : Library → String → String → Onramp → Ended → Type 0
ListensOn l network keys w x =
    if is_i2p_network network
    then OnlyI2p w x
    else if is_tor_network network
    then OnlyTor w x
    else Sided l (l.hostname keys) w x

pub listen-ListensOn :
    (l : Library) (a : Answers) (network keys : String) (w : Onramp)
    → ListensOn l network keys w (listen l a network keys w)
unfolding listen
listen-ListensOn l a network keys w = elim (Bool-cases (is_i2p_network network)) [
  | inl e ↦ rw (e, listen) (on_i2p-OnlyI2p w _)
  | inr e ↦ elim (Bool-cases (is_tor_network network)) [
    | inl t ↦ rw (e, listen, t) (on_tor-OnlyTor w _)
    | inr t ↦
        rw (e, listen, t)
          (routed l (l.hostname keys) w (listen_i2p a keys w) (listen_tor a keys w)
            (on_i2p-OnlyI2p w _) (on_tor-OnlyTor w _))
  ]
]

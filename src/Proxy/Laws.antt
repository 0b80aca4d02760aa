-- ===== src/Proxy/Laws.antt =====
-- The networks of a proxy, and the connections that it closes.
use onramp.Prelude.{
  ℕ, Bool, true, ◌||◌, inl, inr, ◌≡◌, refl, sym, ap, ◌∙◌, Option, Option-cases, none, some, String,
  List, [], ◌∷◌, ◌++◌, Bool-cases, arith,
}
use mathlib.Core.List.{append_assoc, append-nil}
use onramp.Prelude.Int.{ℤ}
use onramp.Garlic.Ports.{Bytes, i2p_text}
use onramp.Routing.{has_suffix}
use onramp.Proxy.{Proxy, Answers, Accepted, before_colon, onion_text, dial_remote, serve, proxy}

-- What a dial leaves alone.
abbrev Unrouted : Bool → Proxy → Proxy → Type 0
Unrouted hidden p p' =
    (hidden ≡ true → p'.tcp_dials ≡ p.tcp_dials)
    × (p'.closed ≡ p.closed)
    × (p'.remotes_closed ≡ p.remotes_closed)

-- The host before the first colon ends in ".i2p" or ".onion".
abbrev pub is_hidden : Bytes → Bool
is_hidden raddr =
    has_suffix (before_colon raddr) i2p_text || has_suffix (before_colon raddr) onion_text

dial_remote-Unrouted :
    (lookup_port : Bytes → Option ℤ) (a : Answers) (raddr : Bytes) (p : Proxy)
    → Unrouted (is_hidden raddr) p (dial_remote lookup_port a raddr p).1
unfolding dial_remote
dial_remote-Unrouted lookup_port a raddr p =
    elim (Bool-cases (has_suffix (before_colon raddr) i2p_text)) [
      | inl i ↦ rw (i, dial_remote) ((λ h. refl), refl, refl)
      | inr i ↦ elim (Bool-cases (has_suffix (before_colon raddr) onion_text)) [
        | inl o ↦ rw (i, dial_remote, o) ((λ h. refl), refl, refl)
        | inr o ↦ rw (i, dial_remote, o) ((λ h. absurd (ground arith)), refl, refl)
      ]
    ]

-- The connections that are accepted before the first error, and that error.
abbrev pub accepted : List Accepted → List ℕ
accepted [] = []
accepted (inl e ∷ rest) = []
accepted (inr (conn, a) ∷ rest) = conn ∷ accepted rest

abbrev pub first_error : List Accepted → Option String
first_error [] = none
first_error (inl e ∷ rest) = some e
first_error (inr c ∷ rest) = first_error rest

serve-closes :
    (lookup_port : Bytes → Option ℤ) (raddr : Bytes) (a : Answers) (conn : ℕ) (p : Proxy)
    → is_hidden raddr ≡ true
    → ((serve lookup_port raddr a conn p).closed ≡ p.closed ++ conn ∷ [])
      × ((serve lookup_port raddr a conn p).tcp_dials ≡ p.tcp_dials)
unfolding serve
serve-closes lookup_port raddr a conn p h =
    let v = dial_remote-Unrouted lookup_port a raddr p in
    elim (Option-cases (dial_remote lookup_port a raddr p).0) [
      | inl e ↦ rw (e, serve) (ap (λ cs. cs ++ conn ∷ []) v.1, v.0 h)
      | inr (x, e) ↦ rw (e, serve) (ap (λ cs. cs ++ conn ∷ []) v.1, v.0 h)
    ]

-- Where the address of a proxy has before its first colon a host that ends in ".i2p" or ".onion",
-- connections are served one after the other and the copying of each ends, the proxy makes no TCP dial of
-- its own, whatever is accepted and answered: it closes each connection that is accepted, in that order,
-- and ends with the first error of `Accept`, if there is one.
pub proxy-hidden :
    (lookup_port : Bytes → Option ℤ) (raddr : Bytes) (outs : List Accepted) (p : Proxy)
    → is_hidden raddr ≡ true
    → let (e, p') = proxy lookup_port raddr outs p in
      (e ≡ first_error outs)
      × (p'.tcp_dials ≡ p.tcp_dials)
      × (p'.closed ≡ p.closed ++ accepted outs)
unfolding proxy
proxy-hidden lookup_port raddr [] p h = (refl, refl, sym (append-nil p.closed))
proxy-hidden lookup_port raddr (inl e ∷ rest) p h = (refl, refl, sym (append-nil p.closed))
proxy-hidden lookup_port raddr (inr (conn, a) ∷ rest) p h =
    let (c, t) = serve-closes lookup_port raddr a conn p h in
    let v = proxy-hidden lookup_port raddr rest (serve lookup_port raddr a conn p) h in
    (
      v.0,
      v.1 ∙ t,
      v.2 ∙ ap (λ cs. cs ++ accepted rest) c ∙ append_assoc p.closed (conn ∷ []) (accepted rest),
    )

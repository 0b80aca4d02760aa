-- ===== src/Proxy.antt =====
-- proxy.go: which network a connection is passed on to, and what becomes of the connections. `Garlic` and
-- `Onion` of the proxy are those of the models of garlic.go and onion.go; an accepted connection is a
-- number.
pub mod Laws
mod Tests
use onramp.Prelude.{
  ℕ, Bool, true, false, ◌==◌, ◌⊎◌, inl, inr, ◌≡◌, Option, none, some, String, List, [], ◌∷◌, ◌++◌,
  if◌then◌else◌,
}
use onramp.Prelude.Int.{ℤ}
use onramp.Prelude.Text.{codes}
use onramp.Garlic as G
use onramp.Garlic.{Garlic, Outside}
use onramp.Garlic.Ports.{Bytes, i2p_text, split_first}
use onramp.Garlic.Calls.{dial_context}
use onramp.Onion.{Tor, Start, get_tor}
use onramp.Routing.{has_suffix}

-- The two sides of a proxy, whose `Onion` is a number too; the TCP dials to an address that it has made,
-- the latest first; and the accepted connections and the remote ones that have been closed, as the number
-- of the accepted one, in their order.
pub record Proxy : Type 0 where
  pub garlic : Garlic
  pub tor : Tor
  pub onion : ℕ
  pub tcp_dials : List Bytes
  pub closed : List ℕ
  pub remotes_closed : List ℕ

-- What is answered while one connection is served.
pub record Answers : Type 0 where
  pub out : Outside
  pub start : Start
  pub tor_error : Option String
  pub tcp_error : Option String

pub data Error : Type 0 where
  from_i2p : G.Error → Error
  from_tor from_tcp : String → Error

-- `strings.Split(raddr, ":")[0]`
unfoldable pub before_colon : Bytes → Bytes
unfolding split_first
before_colon raddr = elim (split_first b':' raddr) [ none ↦ raddr | some (host, rest) ↦ host ]

abbrev pub onion_text : Bytes
onion_text = codes ".onion"

-- `p.Garlic.Dial`
abbrev pub dial_garlic : (Bytes → Option ℤ) → Answers → Bytes → Proxy → Option Error × Proxy
dial_garlic lookup_port a raddr p =
    let (r, g) = dial_context lookup_port a.out raddr p.garlic in
    (elim r [ inl e ↦ some (from_i2p e) | inr n ↦ none ], record p { garlic = g })

abbrev pub tor_result : Option String → Option String → Option Error
tor_result (some e) dial = some (from_tor e)
tor_result none (some e) = some (from_tor e)
tor_result none none = none

-- `p.Onion.Dial`: `getTor`, and then what the library answers.
abbrev pub dial_onion : Answers → Proxy → Option Error × Proxy
dial_onion a p =
    let (t, e) = get_tor a.start p.onion p.tor in (tor_result e a.tor_error, record p { tor = t })

-- `net.Dial`
abbrev pub dial_tcp : Answers → Bytes → Proxy → Option Error × Proxy
dial_tcp a raddr p = (
  elim a.tcp_error [ some e ↦ some (from_tcp e) | none ↦ none ],
  record p { tcp_dials = raddr ∷ p.tcp_dials },
)

-- The choice of the network in `proxy`.
unfoldable pub dial_remote : (Bytes → Option ℤ) → Answers → Bytes → Proxy → Option Error × Proxy
unfolding before_colon dial_context get_tor has_suffix
dial_remote lookup_port a raddr p =
    if has_suffix (before_colon raddr) i2p_text
    then dial_garlic lookup_port a raddr p
    else if has_suffix (before_colon raddr) onion_text
    then dial_onion a p
    else dial_tcp a raddr p

-- `proxy`, for a connection whose copying in both directions comes to its end: the deferred calls close the
-- remote connection, if there is one, and then the accepted one.
unfoldable pub serve : (Bytes → Option ℤ) → Bytes → Answers → ℕ → Proxy → Proxy
unfolding dial_remote
serve lookup_port raddr a conn p =
    let (e, p') = dial_remote lookup_port a raddr p in
    elim e [
      | some _ ↦ record p' { closed = p'.closed ++ conn ∷ [] }
      | none ↦ record p' {
        remotes_closed = p'.remotes_closed ++ conn ∷ [];
        closed = p'.closed ++ conn ∷ [];
      }
    ]

-- What `Accept` gives: an error, or a connection, with what is answered while it is served.
abbrev pub Accepted : Type 0
Accepted = String ⊎ (ℕ × Answers)

-- `Proxy`, where one connection is served after the other: its error, or `none` where it still waits for a
-- connection after those that are given.
unfoldable pub proxy : (Bytes → Option ℤ) → Bytes → List Accepted → Proxy → Option String × Proxy
unfolding serve
proxy lookup_port raddr [] p = (none, p)
proxy lookup_port raddr (inl e ∷ rest) p = (some e, p)
proxy lookup_port raddr (inr (conn, a) ∷ rest) p =
    proxy lookup_port raddr rest (serve lookup_port raddr a conn p)

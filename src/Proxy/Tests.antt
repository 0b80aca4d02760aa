-- ===== src/Proxy/Tests.antt =====
-- The theorem on proxy.go at concrete values.
use onramp.Prelude.{◌≡◌, refl, false, Option, none, some, List, [], ◌∷◌, inl, inr}
use onramp.Prelude.Int.{ℤ, pos}
use onramp.Prelude.Text.{codes}
use onramp.Garlic.{new_fields}
use onramp.Garlic.Ports.{Bytes}
use onramp.Onion.{launched}
use onramp.Proxy.{Proxy, Answers, Accepted, proxy, before_colon}
use onramp.Routing.{has_suffix}
use onramp.Proxy.Laws.{proxy-hidden}

abbrev idle : Proxy
idle = record {
  garlic = new_fields;
  tor = record { running = false; refs = 0; flags = [] };
  onion = 1;
  tcp_dials = [];
  closed = [];
  remotes_closed = [];
}

abbrev answers : Answers
answers = record {
  out = record { answer = λ r. none; keys = inr "me.b32.i2p"; random = inr 20000 };
  start = launched;
  tor_error = none;
  tcp_error = none;
}

-- A connection that is served, one for which Tor cannot be dialled, and a listener that is closed.
abbrev connections : List Accepted
connections =
    inr (4, answers)
    ∷ inr (5, record answers { tor_error = some "unreachable" })
    ∷ inl "closed"
    ∷ []

abbrev lookup_port : Bytes → Option ℤ
lookup_port text = some (pos 80)

proxy-hidden_example :
    let (e, p) = proxy lookup_port (codes "site.onion:80") connections idle in
    (e ≡ some "closed") × (p.tcp_dials ≡ []) × (p.closed ≡ 4 ∷ 5 ∷ [])
unfolding before_colon has_suffix
proxy-hidden_example = proxy-hidden lookup_port (codes "site.onion:80") connections idle refl

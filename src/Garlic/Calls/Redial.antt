-- ===== src/Garlic/Calls/Redial.antt =====
-- `DialContextToPort` of garlic.go, called again on what a first call leaves.
use onramp.Prelude.{ℕ, ◌≡◌, refl, sym, ◌∙◌, inr, Option, none, some, List, [], ◌∷◌, arith}
use mathlib.Core.Path.{ap, subst}
use onramp.Prelude.Int.{ℤ}
use onramp.Garlic.{tuple_eq, dial, Garlic, Outside, M, pure, ◌>>=◌, ◌>>◌, request}
use onramp.Garlic.Ports.{Bytes, parse_i2p_addr_and_virtual_port}
use onramp.Garlic.Sessions.{sam_session, setup_stream_sub_session_with_ports}
use onramp.Garlic.Chains.{Gives, bind-Gives, bind-ok, request-ok, request-leaves}
use onramp.Garlic.Sessions.Reuse.{kept, setup-Gives}
use onramp.Garlic.Sessions.Frames.{Same, setup-Frames}
use onramp.Garlic.Calls.{
  select_from_port, dial_parsed_to_port, at_most_one, dial_context_to_port, use_stream,
}
use onramp.Garlic.Calls.Again.{
  sub_of, select-Gives, sam_session-Gives, sam_session-again, sam_session-port, kept-requests,
  setup_again-kept, with_ports-setup,
}

-- The end of a dial: the request on a stream session.
dialled : Outside → Bytes → ℕ → M ℕ
dialled out host = use_stream out (λ n. dial n host)

-- A dial whose sessions are all there makes one request.
dial_ready :
    (out : Outside) (host : Bytes) (to from c n : ℕ) (port : Option ℤ) (g : Garlic)
    → select_from_port out to port g ≡ (inr from, g)
    → g.sam ≡ some c
    → kept (sub_of (from, to)) g ≡ some n
    → out.answer (dial n host) ≡ none
    → dial_parsed_to_port out host to port g
      ≡ (inr n, record g { requests = dial n host ∷ g.requests })
unfolding dial_parsed_to_port dialled
dial_ready out host to from c n port g s e k a =
    let after =
      λ (from : ℕ). setup_stream_sub_session_with_ports out (from, to) >>= dialled out host in
    let asked = record g { requests = dial n host ∷ g.requests } in
    bind-ok (select_from_port out to port) (λ (from : ℕ). sam_session out >> after from) g g from s
    ∙ bind-ok (sam_session out) (λ (c : ℕ). after from) g g c (sam_session-again out g c e)
    ∙ bind-ok (setup_stream_sub_session_with_ports out (from, to)) (dialled out host) g g n
        (setup_again-kept out from to g n k)
    ∙ bind-ok (request out (dial n host)) (λ (u : Unit {0}). pure n) g asked tt
        (request-ok out (dial n host) g a)

-- A dial again, after the four steps of a dial.
redial :
    (out out' : Outside) (host : Bytes) (to : ℕ) (port : Option ℤ) (g h j l g' : Garlic)
    (from c n : ℕ)
    → Gives (select_from_port out to port g) from h
    → Gives (sam_session out h) c j
    → Gives (setup_stream_sub_session_with_ports out (from, to) j) n l
    → record l { requests = dial n host ∷ l.requests } ≡ g'
    → out'.answer (dial n host) ≡ none
    → dial_parsed_to_port out' host to port g'
      ≡ (inr n, record g' { requests = dial n host ∷ g'.requests })
redial out out' host to port g h j l g' from c n v v' v'' asked a =
    let s = sub_of (from, to) in
    let set = subst (λ z. Gives z n l) (with_ports-setup out from to j) v'' in
    let same = subst (Same j) set.1 (setup-Frames s out j) in
    let chosen : j.persistent_from_port ≡ h.persistent_from_port =
      ap (λ z. z.persistent_from_port) (sym v'.1) ∙ sam_session-port out h in
    dial_ready out' host to from c n port g'
      (select-Gives out out' to port g h g' from v
        (ap (λ z. z.persistent_from_port) (sym asked) ∙ same.1 ∙ chosen))
      (ap (λ z. z.sam) (sym asked) ∙ same.0 ∙ sam_session-Gives out h j c v')
      (ap (kept s) (sym asked)
        ∙ kept-requests s l (dial n host ∷ l.requests)
        ∙ setup-Gives s out j l n set)
      a

dialled-Gives :
    (out : Outside) (host : Bytes) (k n : ℕ) (l g' : Garlic)
    → Gives (dialled out host k l) n g'
    → (k ≡ n) × (record l { requests = dial k host ∷ l.requests } ≡ g')
unfolding dialled
dialled-Gives out host k n l g' v =
    let (u, m, x, y) = bind-Gives (request out (dial k host)) (λ (u : Unit {0}). pure k) l g' n v in
    (ground (arith, y.0), sym (request-leaves out (dial k host) l) ∙ x.1 ∙ y.1)

pub dial_parsed_again :
    (out out' : Outside) (host : Bytes) (to : ℕ) (port : Option ℤ) (g g' : Garlic) (n : ℕ)
    → dial_parsed_to_port out host to port g ≡ (inr n, g')
    → out'.answer (dial n host) ≡ none
    → dial_parsed_to_port out' host to port g'
      ≡ (inr n, record g' { requests = dial n host ∷ g'.requests })
unfolding dial_parsed_to_port dialled
dial_parsed_again out out' host to port g g' n e a =
    let after =
      λ (from : ℕ). setup_stream_sub_session_with_ports out (from, to) >>= dialled out host in
    let (from, h, v, w) =
      bind-Gives (select_from_port out to port) (λ (from : ℕ). sam_session out >> after from) g g' n
        (ap (λ x. x.0) e, ap (λ x. x.1) e) in
    let (c, j, v', w') = bind-Gives (sam_session out) (λ (c : ℕ). after from) h g' n w in
    let (k, l, v'', w'') =
      bind-Gives (setup_stream_sub_session_with_ports out (from, to)) (dialled out host) j g' n
        w' in
    let (same_number, asked) = dialled-Gives out host k n l g' w'' in
    redial out out' host to port g h j l g' from c n v v'
      (subst (λ k. Gives (setup_stream_sub_session_with_ports out (from, to) j) k l) same_number
        v'')
      (subst (λ k. record l { requests = dial k host ∷ l.requests } ≡ g') same_number asked) a

dial_context-parsed :
    (lookup_port : Bytes → Option ℤ) (out : Outside) (addr host : Bytes) (to : ℕ) (ports : List ℤ)
    (port : Option ℤ) (g : Garlic)
    → at_most_one ports ≡ some port
    → parse_i2p_addr_and_virtual_port lookup_port addr ≡ inr (host, to)
    → dial_context_to_port lookup_port out addr ports g ≡ dial_parsed_to_port out host to port g
unfolding dial_context_to_port
dial_context-parsed lookup_port out addr host to ports port g o p =
    rw (o, dial_context_to_port, p) refl

-- Where a `DialContextToPort` with a readable address has succeeded, the same call on the fields
-- that it has left, with other random numbers and answers of which that to its dial is success,
-- uses the same session and asks the library for nothing but the dial to the host of the address.
pub dial_again :
    (lookup_port : Bytes → Option ℤ) (out out' : Outside) (addr host : Bytes) (to n : ℕ)
    (ports : List ℤ) (g g' : Garlic)
    → parse_i2p_addr_and_virtual_port lookup_port addr ≡ inr (host, to)
    → dial_context_to_port lookup_port out addr ports g ≡ (inr n, g')
    → out'.answer (dial n host) ≡ none
    → dial_context_to_port lookup_port out' addr ports g'
      ≡ (inr n, record g' { requests = dial n host ∷ g'.requests })
unfolding dial_context_to_port
dial_again lookup_port out out' addr host to n [] g g' p e a =
    let parsed = λ (out : Outside) (g : Garlic).
      dial_context-parsed lookup_port out addr host to [] none g refl p in
    parsed out' g' ∙ dial_parsed_again out out' host to none g g' n (sym (parsed out g) ∙ e) a
dial_again lookup_port out out' addr host to n (q ∷ []) g g' p e a =
    let parsed = λ (out : Outside) (g : Garlic).
      dial_context-parsed lookup_port out addr host to (q ∷ []) (some q) g refl p in
    parsed out' g' ∙ dial_parsed_again out out' host to (some q) g g' n (sym (parsed out g) ∙ e) a
dial_again lookup_port out out' addr host to n (q ∷ r ∷ ports) g g' p e a =
    absurd (ground (arith, ap (λ x. x.0) e))

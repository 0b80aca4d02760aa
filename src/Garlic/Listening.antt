-- ===== src/Garlic/Listening.antt =====
-- `Listen`, `NewListener` and `ListenTLS` of a `Garlic` in garlic.go, with `setupNamedListener` of
-- common.go. A listener is the number of the session that it stands on.
use onramp.Prelude.{
  ℕ, Bool, true, false, ◌≡◌, refl, ◌⊎◌, inl, inr, Option, Option-cases, none, some, String, List,
  [], ◌∷◌, if◌then◌else◌, Bool-cases, arith,
}
use onramp.Garlic.{Garlic, Error, refused, panics, Outside, M, ◌>>=◌}
use onramp.Garlic.Sessions.{setup_hybrid2_session}
use onramp.Garlic.Calls.{old_listen, listen_packet, is_stream_protocol, is_datagram_protocol}
use onramp.Garlic.Calls.Datagrams.{FailsLike, old_listen-datagram}

-- `setupNamedListener`, which logs around the constructor.
abbrev pub setup_named_listener : (List String → M ℕ) → List String → M ℕ
setup_named_listener constructor args = constructor args

-- `Listen`
unfoldable pub listen_args : Outside → List String → M ℕ
unfolding old_listen
listen_args out = setup_named_listener (old_listen out)

-- `NewListener`; the address is ignored.
unfoldable pub new_listener : Outside → String → String → M ℕ
unfolding listen_args
new_listener out n addr = listen_args out (n ∷ [])

-- What the outside gives to `ListenTLS` beside the rest: the error of `g.TLSKeys()`, and that of the
-- listener for datagrams.
pub record TlsAnswers : Type 0 where
  pub keys_error : Option String
  pub datagram_error : Option String

-- The end of a call, with whether it has closed the listener that it had made first.
pub record Ended : Type 0 where
  pub result : Error ⊎ ℕ
  pub base_closed : Bool
  pub fields : Garlic

-- The deferred function: the first listener is closed where there is an error, which a panic is not.
abbrev pub close_on_error : Error ⊎ ℕ → Bool
close_on_error (inl panics) = false
close_on_error (inl e) = true
close_on_error (inr n) = false

abbrev pub deferred : (Error ⊎ ℕ) × Garlic → Ended
deferred (r, g) = record { result = r; base_closed = close_on_error r; fields = g }

-- The branch for a datagram protocol: another listener, on the hybrid2 session.
abbrev pub listen_tls_datagram : TlsAnswers → Outside → M ℕ
listen_tls_datagram t out = setup_hybrid2_session out >>= λ n g. elim t.datagram_error [
  | some e ↦ (inl (refused e), g)
  | none ↦ (inr n, g)
]

-- The choice by the protocol, once there are keys.
abbrev pub tls_by_protocol : TlsAnswers → Outside → ℕ → List String → M ℕ
tls_by_protocol t out n [] g = (inr n, g)
tls_by_protocol t out n (protocol ∷ rest) g =
    if is_stream_protocol protocol
    then (inr n, g)
    else if is_datagram_protocol protocol
    then listen_tls_datagram t out g
    else (inr n, g)

-- `ListenTLS` once there is a listener.
abbrev pub with_tls : TlsAnswers → Outside → ℕ → List String → Garlic → Ended
with_tls t out n args g = elim t.keys_error [
  | some e ↦ deferred (inl (refused e), g)
  | none ↦ deferred (tls_by_protocol t out n args g)
]

-- `ListenTLS` after `Listen`.
abbrev pub after_listen : TlsAnswers → Outside → List String → (Error ⊎ ℕ) × Garlic → Ended
after_listen t out args (inl e, g) = record { result = inl e; base_closed = false; fields = g }
after_listen t out args (inr n, g) = with_tls t out n args g

-- `ListenTLS`
unfoldable pub listen_tls : TlsAnswers → Outside → List String → Garlic → Ended
unfolding listen_args setup_hybrid2_session
listen_tls t out args g = after_listen t out args (listen_args out args g)

-- What `ListenTLS` comes to beside `Listen`: the error of `Listen`, with its fields; or, where `Listen` gives a
-- listener, the error of the TLS keys with the listener closed, or that listener, open; the fields are
-- those of `Listen` in each case.
abbrev pub TlsLike : Option String → (Error ⊎ ℕ) × Garlic → Ended → Type 0
TlsLike keys_error (inl e, g) x = x ≡ record { result = inl e; base_closed = false; fields = g }
TlsLike none (inr n, g) x = x ≡ record { result = inr n; base_closed = false; fields = g }
TlsLike (some e) (inr n, g) x =
    x ≡ record { result = inl (refused e); base_closed = true; fields = g }

stream-Like :
    (t : TlsAnswers) (out : Outside) (protocol : String) (rest : List String)
    (x : (Error ⊎ ℕ) × Garlic)
    → is_datagram_protocol protocol ≡ false
    → TlsLike t.keys_error x (after_listen t out (protocol ∷ rest) x)
stream-Like t out protocol rest (inl e, g) d = refl
stream-Like t out protocol rest (inr n, g) d = elim (Option-cases t.keys_error) [
  | inr (e, k) ↦ ground arith
  | inl k ↦ elim (Bool-cases (is_stream_protocol protocol)) [
    | inl s ↦ ground arith
    | inr s ↦ ground arith
  ]
]

-- On a protocol that is no datagram protocol, `ListenTLS` ends with the error of `Listen`, or, where
-- `Listen` gives a listener, with the error of the TLS keys and that listener closed, or with that
-- listener, open. The fields are those that `Listen` leaves.
pub listen_tls-Like :
    (t : TlsAnswers) (out : Outside) (protocol : String) (rest : List String) (g : Garlic)
    → is_datagram_protocol protocol ≡ false
    → TlsLike t.keys_error
        (listen_args out (protocol ∷ rest) g)
        (listen_tls t out (protocol ∷ rest) g)
unfolding listen_tls
listen_tls-Like t out protocol rest g d =
    stream-Like t out protocol rest (listen_args out (protocol ∷ rest) g) d

failing :
    (t : TlsAnswers) (out : Outside) (args : List String) (y x : (Error ⊎ ℕ) × Garlic)
    → FailsLike y x
    → FailsLike y ((after_listen t out args x).result, (after_listen t out args x).fields)
failing t out args (inl e, g) (inl e', g') v = v
failing t out args (inl e, g) (inr n, g') v = absurd (ground arith)
failing t out args (inr n, g) (inl e', g') v = v
failing t out args (inr n, g) (inr n', g') v = absurd (ground arith)

-- On a datagram protocol that is no stream protocol `ListenTLS` never gives a listener: it leaves the
-- fields as `ListenPacket` does, and ends with the error of `ListenPacket`, or panics where that succeeds.
pub listen_tls-datagram :
    (t : TlsAnswers) (out : Outside) (protocol : String) (rest : List String) (g : Garlic)
    → is_stream_protocol protocol ≡ false
    → is_datagram_protocol protocol ≡ true
    → let x = listen_tls t out (protocol ∷ rest) g in
      FailsLike (listen_packet out g) (x.result, x.fields)
unfolding listen_tls
listen_tls-datagram t out protocol rest g s d =
    failing t out (protocol ∷ rest) (listen_packet out g) (listen_args out (protocol ∷ rest) g)
      (old_listen-datagram out g protocol rest s d)

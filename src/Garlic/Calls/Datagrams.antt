-- ===== src/Garlic/Calls/Datagrams.antt =====
-- `OldListen` of garlic.go on a datagram protocol.
use onramp.Prelude.{ℕ, ◌≡◌, refl, ◌⊎◌, inl, inr, true, false, String, List, ◌∷◌}
use onramp.Garlic.{Garlic, Error, panics, Outside}
use onramp.Garlic.Calls.{
  listen_packet, old_listen, hybrid_packet_conn, as_datagram_session, listen_datagram,
  is_stream_protocol, is_datagram_protocol,
}

-- What a call that is to give a packet connection comes to, and what the one that asserts its type comes
-- to: the same fields, and the same error or a panic.
abbrev pub FailsLike : (Error ⊎ ℕ) × Garlic → (Error ⊎ ℕ) × Garlic → Type 0
FailsLike (inl e, g) (r, g') = (g' ≡ g) × (r ≡ inl e)
FailsLike (inr n, g) (r, g') = (g' ≡ g) × (r ≡ inl panics)

listen_datagram-FailsLike :
    (out : Outside) (g : Garlic) → FailsLike (listen_packet out g) (listen_datagram out g)
unfolding listen_datagram as_datagram_session
listen_datagram-FailsLike out g = go (listen_packet out g)
  where
    go :
        (x : (Error ⊎ ℕ) × Garlic)
        → FailsLike x (elim x.0 as (λ _. (Error ⊎ ℕ) × Garlic) [
          | inl e ↦ (inl e, x.1)
          | inr n ↦ as_datagram_session (hybrid_packet_conn n) x.1
        ])
    go (inl e, g') = (refl, refl)
    go (inr n, g') = (refl, refl)

-- `OldListen` on a protocol that is a datagram protocol and no stream protocol never gives a
-- listener: it leaves the fields as `ListenPacket` does, and ends with the error of
-- `ListenPacket`, or panics where `ListenPacket` succeeds.
pub old_listen-datagram :
    (out : Outside) (g : Garlic) (protocol : String) (rest : List String)
    → is_stream_protocol protocol ≡ false
    → is_datagram_protocol protocol ≡ true
    → FailsLike (listen_packet out g) (old_listen out (protocol ∷ rest) g)
unfolding old_listen
old_listen-datagram out g protocol rest s d = rw (s, d) (listen_datagram-FailsLike out g)

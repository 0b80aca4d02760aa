-- ===== src/Hybrid1/Integration.antt =====
-- The calls of a `GarlicIntegration` in hybrid1/integration.go that send and receive over its session.
use onramp.Prelude.{ℕ, ◌≡◌, ◌⊎◌, inl, inr, false, Option, String, List, [], ◌∷◌, arith}
use onramp.Keys.{Keys}
use onramp.Hybrid1.Session.{Hybrid1Session, Hybrid1Datagram, Error}
use onramp.Hybrid1.Conn.{PacketConn, hybrid1_addr, Written, write_to}

-- `Hybrid1Session.PacketConn`
abbrev pub packet_conn : PacketConn
packet_conn = record { read_deadline = 0; write_deadline = 0; closed = false }

-- `SendDatagramWithPort`, with the session and the frame of its `WriteTo`.
unfoldable pub send_datagram_with_port :
    Keys
    → (List ℕ → String → Option String)
    → (ℕ → ℕ)
    → List ℕ
    → String
    → ℕ
    → Hybrid1Session
    → Written
unfolding write_to
send_datagram_with_port k net now payload dest port =
    write_to k net now payload (hybrid1_addr dest port) packet_conn

-- `SendDatagram`
unfoldable pub send_datagram :
    Keys → (List ℕ → String → Option String) → (ℕ → ℕ) → List ℕ → String → Hybrid1Session → Written
unfolding send_datagram_with_port
send_datagram k net now payload dest = send_datagram_with_port k net now payload dest 0

-- `ReceiveDatagram`: what a call may return, and the session that it leaves. A call for which there is no
-- derivation waits; whether the session is closed is not asked.
pub data Receives (h h' : Hybrid1Session) : Error ⊎ Hybrid1Datagram → Type 0 where
  takes_datagram :
      (dg : Hybrid1Datagram) (rest : List Hybrid1Datagram)
      → h.recv_chan ≡ dg ∷ rest
      → h' ≡ record h { recv_chan = rest }
      → Receives h h' (inr dg)
  takes_error :
      (e : Error) (rest : List Error)
      → h.recv_err_chan ≡ e ∷ rest
      → h' ≡ record h { recv_err_chan = rest }
      → Receives h h' (inl e)

-- A `ReceiveDatagram` on a session with empty channels waits, also where the session has been closed.
waits_on_empty :
    (h h' : Hybrid1Session) (x : Error ⊎ Hybrid1Datagram)
    → h.recv_chan ≡ []
    → h.recv_err_chan ≡ []
    → ¬ Receives h h' x
waits_on_empty h h' x c e (takes_datagram dg rest q s) = ground arith
waits_on_empty h h' x c e (takes_error d rest q s) = ground arith

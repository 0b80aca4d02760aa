-- ===== src/Hybrid2/Conn/Laws.antt =====
-- What `HybridPacketConn` (hybrid2/session.go) makes of the calls of the session.
use onramp.Prelude.{
  ℕ, ◌≤◌, ◌<◌, ◌≡◌, ◌⊎◌, inl, inr, true, false, Bool, refl, ap, sym, ◌↔◌, Option, none, some, [],
  String, List, ◌∷◌, length, take, arith,
}
use onramp.Prelude.Float.{Floats}
use onramp.Keys.{Keys}
use onramp.Hybrid2.Session.{HybridSession, HybridDatagram, Error, packet_conn_closed, timeout}
use onramp.Hybrid2.Send.{Network, send_datagram}
use mathlib.Core.Path.{subst}
use onramp.Hybrid2.Receiver.{SenderHash}
use onramp.Hybrid2.Receive.{
  arrived, Round, forward, receive_datagram3, lookup_or_resolve_datagram3_source, Receives,
  refuses as session_refuses, takes_datagram, takes_error,
}
use onramp.Hybrid2.Conn.{
  HybridPacketConn, NetAddr, refuses, too_late, blocks, waits, read_result, ReadsFrom, destination,
  written, not_written, write_to,
}

module _ {F : Floats} (k : Keys) (net : Network) (time : ℕ) (now : ℕ → ℕ) where
  -- A write on an open connection whose deadline lies ahead, and which the timer ends, reports a
  -- timeout, and what `SendDatagram` does to the session and hands over is done all the same.
  write_to_timeout :
      (p : List ℕ) (addr : NetAddr) (c : HybridPacketConn) (h : HybridSession F)
      → c.closed ≡ false
      → time < c.write_deadline
      → let w = write_to k net time now true p addr c h in
        let sent = send_datagram k net now p (destination addr) h in
        (w.result ≡ inl timeout) × (w.packet ≡ sent.packet) × (w.session ≡ sent.state)
  unfolding write_to
  write_to_timeout p addr c h o d = ground arith

  -- A write that the timer does not end is refused on a closed connection, or after its deadline,
  -- and then leaves the session alone; else it does what `SendDatagram` does to its destination,
  -- and counts all its bytes where that succeeds.
  pub write_to_sends :
      (p : List ℕ) (addr : NetAddr) (c : HybridPacketConn) (h : HybridSession F)
      → let w = write_to k net time now false p addr c h in
        ((c.closed ≡ true) × (w ≡ not_written packet_conn_closed h))
        ⊎ ((0 < c.write_deadline) × (c.write_deadline ≤ time) × (w ≡ not_written timeout h))
        ⊎ (w ≡ written (length p) (send_datagram k net now p (destination addr) h))
  unfolding write_to
  write_to_sends p addr c h = ground arith

module _ {F : Floats} (dg : HybridDatagram) (rest : List HybridDatagram) where
  -- What an open session with a datagram and no error gives.
  Receives-front :
      {h h' : HybridSession F} {r : Error ⊎ HybridDatagram}
      → h.closed ≡ false
      → h.recv_chan ≡ dg ∷ rest
      → h.recv_err_chan ≡ []
      → Receives h h' r
      → (h' ≡ record h { recv_chan = rest }) × (r ≡ inr dg)
  Receives-front o front clear (session_refuses c q) = absurd (ground (arith, o, c))
  Receives-front o front clear (takes_datagram d ds c f q) = ground (arith, front, f, q)
  Receives-front o front clear (takes_error x xs c f q) = absurd (ground (arith, clear, f))

  ReadsFrom-front :
      (time room : ℕ) (c : HybridPacketConn) {h h' : HybridSession F}
      {r : Error ⊎ (List ℕ × String)}
      → h.closed ≡ false
      → h.recv_chan ≡ dg ∷ rest
      → h.recv_err_chan ≡ []
      → c.closed ≡ false
      → c.read_deadline ≡ 0
      → ReadsFrom time room c h h' r
      → (h' ≡ record h { recv_chan = rest }) × (r ≡ inr (take room dg.payload, dg.source))
  ReadsFrom-front time room c o front clear up d (refuses closed q) =
      absurd (ground (arith, up, closed))
  ReadsFrom-front time room c o front clear up d (too_late p z l q) = absurd (ground (arith, d, z))
  ReadsFrom-front time room c o front clear up d (blocks r p z x) =
      let y = Receives-front o front clear x in (y.0, ap (read_result room) y.1)
  ReadsFrom-front time room c o front clear up d (waits r p z l x) = absurd (ground (arith, d, z))

-- In an open session with an empty queue and no error waiting, whatever the choice of the `select`, a
-- datagram3 that comes in is queued, and then a read on an open connection without a deadline returns,
-- and can only return, its bytes, as many as there is room for, with the address that the table or the
-- library has for its hash; and it leaves the queue empty again and the rest of the session as the
-- receive loop left it.
pub ReadsFrom-receive_datagram3 :
    {F : Floats} (resolve : SenderHash → Option String) (now : ℕ → ℕ) (prefers_stop : Bool)
    (hash : SenderHash) (raw : List ℕ) (h : HybridSession F) (time room : ℕ) (c : HybridPacketConn)
    → h.closed ≡ false
    → h.recv_stop ≡ false
    → h.recv_chan ≡ []
    → h.recv_err_chan ≡ []
    → c.closed ≡ false
    → c.read_deadline ≡ 0
    → let (source, m) = lookup_or_resolve_datagram3_source now resolve hash h.mappings in
      (round : Round F) × (receive_datagram3 resolve now prefers_stop (arrived hash raw) h
        ≡ some round)
      × ((h' : HybridSession F) (r : Error ⊎ (List ℕ × String))
          → ReadsFrom time room c round.session h' r ↔ (
              (h' ≡ record h { mappings = m; recv_chan = [] }) × (r ≡ inr (take room raw, source))))
unfolding receive_datagram3 forward
ReadsFrom-receive_datagram3 {F} resolve now prefers_stop hash raw h time room c o stop empty clear
      up d =
    let (source, m) = lookup_or_resolve_datagram3_source now resolve hash h.mappings in
    let dg : HybridDatagram = record {
      payload = raw;
      source = source;
      source_hash = hash;
      was_datagram2 = false;
      timestamp = now 2;
    } in
    let queued : HybridSession F = record h { mappings = m; recv_chan = dg ∷ [] } in
    (
      record { session = queued; stop = false; packet = none },
      ground (arith, stop, empty),
      λ h' r. (
        λ x. ReadsFrom-front dg [] time room c o refl clear up d x,
        λ (q, e).
            subst (λ (r : Error ⊎ (List ℕ × String)). ReadsFrom time room c queued h' r) (sym e)
              (blocks (inr dg) up (ground (arith, d)) (takes_datagram dg [] o refl q)),
      ),
    )

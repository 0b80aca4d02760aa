-- ===== src/Hybrid2/Conn.antt =====
-- `HybridPacketConn` of hybrid2/types.go and hybrid2/session.go over a session, with the calls of
-- hybrid2/sender.go and hybrid2/receiver.go that take a timeout.
pub mod Laws
use onramp.Prelude.{
  ℕ, ◌-◌, ◌≡◌, ◌⊎◌, inl, inr, Bool, true, false, Option, none, some, String, List, ◌∷◌, length,
  take, ltb, leb, if◌then◌else◌,
}
use onramp.Prelude.Clock.{is_zero}
use onramp.Prelude.Float.{Floats}
use onramp.Keys.{Keys}
use onramp.Hybrid2.Session.{HybridSession, HybridDatagram, Error, packet_conn_closed, timeout}
use onramp.Hybrid2.Send.{Network, Packet, Sent, send_datagram}
use onramp.Hybrid2.Receive.{Receives}

-- The fields of a connection; a deadline of 0 is none.
pub record HybridPacketConn : Type 0 where
  pub read_deadline : ℕ
  pub write_deadline : ℕ
  pub closed : Bool

-- The address that a caller passes: a `*HybridAddr`, an `I2PAddr`, or any other by its `String()`.
pub data NetAddr : Type 0 where
  hybrid_addr i2p_addr other : String → NetAddr

-- The destination of an address.
abbrev pub destination : NetAddr → String
destination (hybrid_addr a) = a
destination (i2p_addr a) = a
destination (other text) = text

-- The end of a `WriteTo`: the session, the count or the error, and the packet that was handed over.
pub record Written (F : Floats) : Type 0 where
  pub session : HybridSession F
  pub result : Error ⊎ ℕ
  pub packet : Option Packet

-- What `ReadFrom` into a buffer of `room` bytes makes of it: the bytes, and the source.
abbrev pub read_result : ℕ → Error ⊎ HybridDatagram → Error ⊎ (List ℕ × String)
read_result room (inl e) = inl e
read_result room (inr dg) = inr (take room dg.payload, dg.source)

module _ {F : Floats} where
  -- `SendDatagramTimeout`, with the session as it is when the goroutine that it starts has ended.
  -- `expires` says that the timer is taken and not the end of the send.
  unfoldable pub send_datagram_timeout :
      Keys
      → Network
      → (ℕ → ℕ)
      → Bool
      → ℕ
      → List ℕ
      → String
      → HybridSession F
      → Sent (HybridSession F)
  send_datagram_timeout k net now expires duration payload dest h =
      let r = send_datagram k net now payload dest h in
      if is_zero duration then r else if expires then record r { error = some timeout } else r

  -- What `WriteTo` makes of the end of a send.
  abbrev pub written : ℕ → Sent (HybridSession F) → Written F
  written n r = elim r.error [
    | none ↦ record { session = r.state; result = inr n; packet = r.packet }
    | some e ↦ record { session = r.state; result = inl e; packet = r.packet }
  ]

  -- A `WriteTo` that ends before anything is sent.
  abbrev pub not_written : Error → HybridSession F → Written F
  not_written e h = record { session = h; result = inl e; packet = none }

  -- `WriteTo`. The clock is read for the deadline, and then as `SendDatagram` reads it.
  unfoldable pub write_to :
      Keys
      → Network
      → ℕ
      → (ℕ → ℕ)
      → Bool
      → List ℕ
      → NetAddr
      → HybridPacketConn
      → HybridSession F
      → Written F
  unfolding send_datagram_timeout
  write_to k net time now expires p addr c h =
      if c.closed
      then not_written packet_conn_closed h
      else if is_zero c.write_deadline
      then written (length p) (send_datagram k net now p (destination addr) h)
      else if leb c.write_deadline time
      then not_written timeout h
      else written (length p)
          (send_datagram_timeout k net now expires (c.write_deadline - time) p (destination addr) h)

  -- `ReceiveDatagramTimeout`: as `ReceiveDatagram`, or the timer ends it.
  pub data ReceivesWithin (h h' : HybridSession F) : Error ⊎ HybridDatagram → Type 0 where
    in_time : {r : Error ⊎ HybridDatagram} → Receives h h' r → ReceivesWithin h h' r
    expires : h.closed ≡ false → h' ≡ h → ReceivesWithin h h' (inl timeout)

  -- `ReadFrom` at a time: what a call may return, and the session that it leaves.
  pub data ReadsFrom (time room : ℕ) (c : HybridPacketConn) (h h' : HybridSession F)
      : Error ⊎ (List ℕ × String) → Type 0 where
    refuses : c.closed ≡ true → h' ≡ h → ReadsFrom time room c h h' (inl packet_conn_closed)
    too_late :
        c.closed ≡ false
        → is_zero c.read_deadline ≡ false
        → leb c.read_deadline time ≡ true
        → h' ≡ h
        → ReadsFrom time room c h h' (inl timeout)
    blocks :
        (r : Error ⊎ HybridDatagram)
        → c.closed ≡ false
        → is_zero c.read_deadline ≡ true
        → Receives h h' r
        → ReadsFrom time room c h h' (read_result room r)
    waits :
        (r : Error ⊎ HybridDatagram)
        → c.closed ≡ false
        → is_zero c.read_deadline ≡ false
        → leb c.read_deadline time ≡ false
        → ReceivesWithin h h' r
        → ReadsFrom time room c h h' (read_result room r)

-- `PacketConn.Close`: the session stays open.
abbrev pub close_conn : HybridPacketConn → HybridPacketConn
close_conn c = record c { closed = true }

-- `SetDeadline`, `SetReadDeadline`, `SetWriteDeadline`
abbrev pub set_deadline : ℕ → HybridPacketConn → HybridPacketConn
set_deadline t c = record c { read_deadline = t; write_deadline = t }

abbrev pub set_read_deadline : ℕ → HybridPacketConn → HybridPacketConn
set_read_deadline t c = record c { read_deadline = t }

abbrev pub set_write_deadline : ℕ → HybridPacketConn → HybridPacketConn
set_write_deadline t c = record c { write_deadline = t }

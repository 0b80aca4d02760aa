-- ===== src/Hybrid1/Conn.antt =====
-- `Hybrid1PacketConn` of hybrid1/packetconn.go over a session.
pub mod Laws
use onramp.Prelude.{
  ℕ, suc, ◌+◌, ◌-◌, ◌%◌, ◌^◌, ◌≡◌, ◌⊎◌, inl, inr, Bool, true, false, ◌||◌, Option, none, some,
  String, List, [], ◌∷◌, length, take, min, ltb, leb, if◌then◌else◌, string_eq,
}
use onramp.Prelude.Map.{insert}
use onramp.Prelude.Clock.{is_zero}
use onramp.Keys.{Keys}
use onramp.Hybrid1.Frame.{build_i2pd_frame, i2pd_max_payload_size, i2pd_default_port}
use onramp.Hybrid1.Session.{
  Hybrid1Session, Hybrid1Datagram, SenderState, Error, session_closed, timeout, payload_too_large,
  sam_error, get_sender_state,
}

-- The fields of a connection; a deadline of 0 is none.
pub record PacketConn : Type 0 where
  pub read_deadline : ℕ
  pub write_deadline : ℕ
  pub closed : Bool

-- The address that a caller passes: a `*Hybrid1Addr`, an `I2PAddr`, or any other by its `String()`.
pub data NetAddr : Type 0 where
  hybrid1_addr : String → ℕ → NetAddr
  i2p_addr other : String → NetAddr

-- The destination and the port of an address.
unfoldable pub resolve_addr : NetAddr → String × ℕ
resolve_addr (hybrid1_addr a port) = (a, port)
resolve_addr (i2p_addr a) = (a, i2pd_default_port)
resolve_addr (other text) = (text, i2pd_default_port)

-- `isClosed`
abbrev pub is_closed : PacketConn → Hybrid1Session → Bool
is_closed c h = c.closed || h.closed

-- The end of a `WriteTo`: the session, the count or the error, and the frame with its destination that
-- the SAM library was given.
pub record Written : Type 0 where
  pub session : Hybrid1Session
  pub result : Error ⊎ ℕ
  pub frame : Option (List ℕ × String)

-- A deadline that is set and has passed.
abbrev pub is_past : ℕ → ℕ → Bool
is_past now deadline = if is_zero deadline then false else leb deadline now

-- `WriteTo`, from the sender's state on. `net` is the SAM library's answer to the frame.
unfoldable pub send_frame :
    Keys
    → (List ℕ → String → Option String)
    → ℕ
    → List ℕ
    → List ℕ
    → String
    → Hybrid1Session
    → Written
send_frame k net now p frame dest h =
    let (s, h') = get_sender_state k dest h in
    let s' : SenderState = record s { counter = (s.counter + 1) % 2 ^ 64; last_send_time = now } in
    let h'' = record h' { sender_states = insert (k.base64 dest) s' h'.sender_states } in
    elim (net frame dest) [
      | some e ↦ record { session = h''; result = inl (sam_error e); frame = some (frame, dest) }
      | none ↦ record { session = h''; result = inr (length p); frame = some (frame, dest) }
    ]

-- A `WriteTo` that ends before anything is sent.
abbrev pub not_written : Error → Hybrid1Session → Written
not_written e h = record { session = h; result = inl e; frame = none }

-- `WriteTo`
unfoldable pub write_to :
    Keys
    → (List ℕ → String → Option String)
    → (ℕ → ℕ)
    → List ℕ
    → NetAddr
    → PacketConn
    → Hybrid1Session
    → Written
unfolding resolve_addr
write_to k net now p addr c h =
    if is_closed c h
    then not_written session_closed h
    else if ltb i2pd_max_payload_size (length p)
    then not_written payload_too_large h
    else (let (dest, dest_port) = resolve_addr addr in
        let frame = build_i2pd_frame p h.local_port dest_port in
        if is_past (now 0) c.write_deadline
        then not_written timeout h
        else send_frame k net (now 1) p frame dest h)

-- What a wait on the channels of the session ends with: a datagram, or an error of the loop.
pub data Awaited : Type 0 where
  received : Hybrid1Datagram → Awaited
  failed : Error → Awaited

-- What `ReadFrom` into a buffer of `room` bytes makes of it: the bytes, and the source with its port.
abbrev pub read_awaited : ℕ → Awaited → Error ⊎ (List ℕ × NetAddr)
read_awaited room (received dg) = inr (take room dg.payload, hybrid1_addr dg.source dg.source_port)
read_awaited room (failed e) = inl e

-- The same under a timer: `none` when it runs out first.
abbrev pub read_timed : ℕ → Option Awaited → Error ⊎ (List ℕ × NetAddr)
read_timed room (some awaited) = read_awaited room awaited
read_timed room none = inl timeout

-- `ReadFrom`, with what `receiveBlocking` and what `receiveWithTimeout` end with.
unfoldable pub read_from :
    ℕ → ℕ → Awaited → Option Awaited → PacketConn → Hybrid1Session → Error ⊎ (List ℕ × NetAddr)
read_from now room blocking timed c h =
    if is_closed c h
    then inl session_closed
    else if is_zero c.read_deadline
    then read_awaited room blocking
    else if leb c.read_deadline now
    then inl timeout
    else read_timed room timed

-- `PacketConn.Close`: the session stays open.
abbrev pub close_conn : PacketConn → PacketConn
close_conn c = record c { closed = true }

-- `SetDeadline`, `SetReadDeadline`, `SetWriteDeadline`
abbrev pub set_deadline : ℕ → PacketConn → PacketConn
set_deadline t c = record c { read_deadline = t; write_deadline = t }

abbrev pub set_read_deadline : ℕ → PacketConn → PacketConn
set_read_deadline t c = record c { read_deadline = t }

abbrev pub set_write_deadline : ℕ → PacketConn → PacketConn
set_write_deadline t c = record c { write_deadline = t }

-- `LocalAddr`
abbrev pub local_addr : Hybrid1Session → NetAddr
local_addr h = hybrid1_addr h.local_addr h.local_port

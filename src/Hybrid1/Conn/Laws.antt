-- ===== src/Hybrid1/Conn/Laws.antt =====
-- What goes from one `Hybrid1PacketConn` to another (hybrid1/packetconn.go, hybrid1/session.go).
use text.Mathlib.TextPositions.{eq_refl}
use onramp.Prelude.{
  ℕ, ◌+◌, ◌%◌, ◌^◌, ◌≤◌, ◌<◌, ◌≡◌, ◌⊎◌, inl, inr, true, false, Option, none, some, String, List,
  length, string_eq, arith,
}
use onramp.Prelude.Map.{lookup, lookup-insert}
use onramp.Keys.{Keys}
use onramp.Hybridcommon.Maps.{or_else, get_or_create_map_value, get_or_create_map_value_lem}
use onramp.Hybrid1.Frame.{build_i2pd_frame, i2p_udp_max_mtu, i2pd_max_payload_size}
use onramp.Hybrid1.Frame.Laws.{parse-build_i2pd_frame, length-build_i2pd_frame}
use onramp.Hybrid1.Session.{
  Hybrid1Session, SenderState, Error, session_closed, timeout, payload_too_large, sam_error,
  get_sender_state, process_received_datagram,
}
use onramp.Hybrid1.Conn.{
  PacketConn, NetAddr, Written, is_closed, is_past, resolve_addr, send_frame, not_written, write_to,
  hybrid1_addr,
}

-- The state of a destination before the first send.
abbrev pub first_state : String → SenderState
first_state dest = record { destination = dest; counter = 0; last_send_time = 0 }

-- What the SAM library's answer makes of a write of so many bytes.
abbrev pub answered : ℕ → Option String → Error ⊎ ℕ
answered n none = inr n
answered n (some e) = inl (sam_error e)

module _ (k : Keys) (net : List ℕ → String → Option String) where
  -- The frame goes out, and the send is counted whatever becomes of it.
  abbrev pub Sends : ℕ → List ℕ → List ℕ → String → Hybrid1Session → Written → Type 0
  Sends now p frame dest h w =
      (w.frame ≡ some (frame, dest))
      × (w.result ≡ answered (length p) (net frame dest))
      × (let s = or_else (first_state dest) (lookup (k.base64 dest) h.sender_states) in
          lookup (k.base64 dest) w.session.sender_states
          ≡ some (record s { counter = (s.counter + 1) % 2 ^ 64; last_send_time = now }))

  send_frame-Sends :
      (now : ℕ) (p frame : List ℕ) (dest : String) (h : Hybrid1Session)
      → Sends now p frame dest h (send_frame k net now p frame dest h)
  unfolding send_frame get_sender_state
  send_frame-Sends now p frame dest h =
      let key = k.base64 dest in
      let (s, states) = get_or_create_map_value key (first_state dest) h.sender_states in
      let s' : SenderState = record s {
        counter = (s.counter + 1) % 2 ^ 64;
        last_send_time = now;
      } in
      ground (
        arith,
        eq_refl key,
        get_or_create_map_value_lem key key (first_state dest) h.sender_states,
        lookup-insert key key s' states,
      )

  -- A write is refused as closed, as too large or as too late, in this order, and then leaves the
  -- session alone; else one frame of at most 64 KiB goes out to the destination, the result is
  -- the length or the library's error, and the sender's counter is raised by one, modulo 2^64, in
  -- both cases.
  pub write_to_cases :
      (now : ℕ → ℕ) (p : List ℕ) (addr : NetAddr) (c : PacketConn) (h : Hybrid1Session)
      → let w = write_to k net now p addr c h in
        let (dest, port) = resolve_addr addr in
        let frame = build_i2pd_frame p h.local_port port in
        ((is_closed c h ≡ true) × (w ≡ not_written session_closed h))
        ⊎ ((is_closed c h ≡ false)
            × (i2pd_max_payload_size < length p)
            × (w ≡ not_written payload_too_large h))
        ⊎ ((is_closed c h ≡ false)
            × (length p ≤ i2pd_max_payload_size)
            × (is_past (now 0) c.write_deadline ≡ true)
            × (w ≡ not_written timeout h))
        ⊎ ((is_closed c h ≡ false)
            × (is_past (now 0) c.write_deadline ≡ false)
            × (length frame ≤ i2p_udp_max_mtu)
            × Sends (now 1) p frame dest h w)
  unfolding write_to
  write_to_cases now p addr c h =
      let (dest, port) = resolve_addr addr in
      let frame = build_i2pd_frame p h.local_port port in
      ground (
        arith,
        length-build_i2pd_frame p h.local_port port,
        send_frame-Sends (now 1) p frame dest h,
      )

-- What an open connection with no deadline in the past is given to write, of at most the largest
-- payload and from and to 16-bit ports, goes out as one frame to its destination, and a session
-- that gets the frame from the writer's address reads the payload, the address and both ports.
pub write_to_received :
    (k j : Keys) (net : List ℕ → String → Option String) (text_bytes : String → List ℕ)
    (now later : ℕ → ℕ) (p : List ℕ) (dest : String) (port : ℕ) (c : PacketConn)
    (h peer : Hybrid1Session)
    → is_closed c h ≡ false
    → length p ≤ i2pd_max_payload_size
    → is_past (now 0) c.write_deadline ≡ false
    → h.local_port < 2 ^ 16
    → port < 2 ^ 16
    → let w = write_to k net now p (hybrid1_addr dest port) c h in
      (frame : List ℕ) × (w.frame ≡ some (frame, dest))
      × (let dg = (process_received_datagram j text_bytes later frame h.local_addr peer).0 in
          (dg.payload ≡ p)
          × (dg.source ≡ h.local_addr)
          × (dg.source_port ≡ h.local_port)
          × (dg.dest_port ≡ port))
unfolding write_to process_received_datagram
write_to_received k j net text_bytes now later p dest port c h peer o l d a b =
    let frame = build_i2pd_frame p h.local_port port in
    let read = parse-build_i2pd_frame p h.local_port port a b in
    (frame, ground (arith, send_frame-Sends k net (now 1) p frame dest h), ground (arith, read))

-- ===== src/Hybrid2/Receive.antt =====
-- The receive loops of hybrid2/receiver.go: one round of each, and `ReceiveDatagram`. The channels are
-- queues with their capacities; where more than one case of a `select` is ready, the choice is an
-- argument or a relation. `now i` is the i-th reading of the clock in a round.
pub mod Acks
pub mod Invariant
use onramp.Prelude.{
  ℕ, ◌≡◌, ◌⊎◌, inl, inr, Bool, true, false, not, ◌&&◌, ◌||◌, Option, none, some, String, List, [],
  ◌∷◌, ◌++◌, length, ltb, if◌then◌else◌, string_eq,
}
use onramp.Prelude.Float.{Floats}
use onramp.Keys.{Keys}
use onramp.Hybrid2.Config.{recv_chan_buffer_size}
use onramp.Hybrid2.Wire.{decode_ack_message}
use onramp.Hybrid2.Sender.{process_ack}
use onramp.Hybrid2.Receiver.{
  SenderHash, Mappings, compute_sender_hash, register_sender, lookup_sender,
}
use onramp.Hybrid2.Session.{
  HybridSession, HybridDatagram, Error, session_closed, datagram2_receive, datagram3_receive,
  ack_response,
}
use onramp.Hybrid2.Send.{Packet, Network, get_sender_state, put_sender_state, send_ack_response}

-- What `ReceiveDatagram` of a subsession gives: an error, or a source (of a datagram3, its hash) with
-- the payload.
pub data Incoming (A : Type 0) : Type 0 where
  failed : String → Incoming A
  arrived : A → List ℕ → Incoming A

-- The end of a round: the session, whether the loop stops, and the packet that was handed over.
pub record Round (F : Floats) : Type 0 where
  pub session : HybridSession F
  pub stop : Bool
  pub packet : Option Packet

-- `lookupOrResolveDatagram3Source`: `resolve` is `dg.ResolveSource` of the SAM library. The address
-- is empty where neither knows it.
unfoldable pub lookup_or_resolve_datagram3_source :
    (ℕ → ℕ) → (SenderHash → Option String) → SenderHash → Mappings → String × Mappings
lookup_or_resolve_datagram3_source now resolve hash m = elim (lookup_sender (now 0) hash m) [
  | some dest ↦ (dest, m)
  | none ↦ elim (resolve hash) [
    | some source ↦ (source, register_sender (now 1) hash source m)
    | none ↦ ("", m)
  ]
]

module _ {F : Floats} where
  -- `reportRecvError`: the channel holds one error, and another is dropped.
  unfoldable pub report_recv_error : Error → HybridSession F → HybridSession F
  report_recv_error e h =
      if ltb (length h.recv_err_chan) 1
      then record h { recv_err_chan = h.recv_err_chan ++ e ∷ [] }
      else h

  -- The `select` that ends a round: the channel takes the datagram, or the loop stops; `none` while
  -- neither is possible. `prefers_stop` is the choice where both are.
  unfoldable pub forward :
      Bool → HybridDatagram → Option Packet → HybridSession F → Option (Round F)
  forward prefers_stop dg packet h =
      let has_room = ltb (length h.recv_chan) recv_chan_buffer_size in
      if h.recv_stop && (prefers_stop || not has_room)
      then some (record { session = h; stop = true; packet = packet })
      else if has_room
      then some (record {
        session = record h { recv_chan = h.recv_chan ++ dg ∷ [] };
        stop = false;
        packet = packet;
      })
      else none

  -- A round whose receive fails.
  abbrev pub receive_failed : Error → HybridSession F → Round F
  receive_failed e h =
      if h.recv_stop
      then record { session = h; stop = true; packet = none }
      else record { session = report_recv_error e h; stop = false; packet = none }

  -- What `processDatagram2Ack` does about an ACK request.
  abbrev pub answer_ack_request :
      Network → ℕ → String → HybridSession F → HybridSession F × Option Packet
  answer_ack_request net seq source h =
      let (error, packet) = send_ack_response net seq source h in
      elim error [ none ↦ (h, packet) | some e ↦ (report_recv_error (ack_response e) h, packet) ]

  -- `processDatagram2Ack`: the session, the packet, and the payload that goes on to the application.
  unfoldable pub process_datagram2_ack :
      Keys
      → Network
      → ℕ
      → String
      → List ℕ
      → HybridSession F
      → HybridSession F × Option Packet × Option (List ℕ)
  process_datagram2_ack k net now source raw h =
      let d = decode_ack_message raw in
      if d.is_ack_response
      then (let (s, h') = get_sender_state k source h in
          (put_sender_state k source (process_ack now d.seq_num s) h', none, none))
      else if d.is_ack_request
      then (let (h', packet) = answer_ack_request net d.seq_num source h in
          (h', packet, some d.payload))
      else (h, none, some d.payload)

  -- `receiveDatagram2`, when a datagram has come.
  unfoldable pub handle_datagram2 :
      Keys → Network → (ℕ → ℕ) → Bool → String → List ℕ → HybridSession F → Option (Round F)
  handle_datagram2 k net now prefers_stop source raw h =
      let hash = compute_sender_hash k source in
      let registered = record h { mappings = register_sender (now 0) hash source h.mappings } in
      let (h', packet, payload) = process_datagram2_ack k net (now 1) source raw registered in
      elim payload [
        | none ↦ some (record { session = h'; stop = false; packet = packet })
        | some content ↦
            forward prefers_stop
              (record {
                payload = content;
                source = source;
                source_hash = hash;
                was_datagram2 = true;
                timestamp = now 2;
              })
              packet h'
      ]

  -- `receiveDatagram2`
  unfoldable pub receive_datagram2 :
      Keys → Network → (ℕ → ℕ) → Bool → Incoming String → HybridSession F → Option (Round F)
  unfolding handle_datagram2
  receive_datagram2 k net now prefers_stop (failed e) h =
      some (receive_failed (datagram2_receive e) h)
  receive_datagram2 k net now prefers_stop (arrived source raw) h =
      handle_datagram2 k net now prefers_stop source raw h

  -- `receiveDatagram3`
  unfoldable pub receive_datagram3 :
      (SenderHash → Option String)
      → (ℕ → ℕ)
      → Bool
      → Incoming SenderHash
      → HybridSession F
      → Option (Round F)
  receive_datagram3 resolve now prefers_stop (failed e) h =
      some (receive_failed (datagram3_receive e) h)
  receive_datagram3 resolve now prefers_stop (arrived hash raw) h =
      let (source, m) = lookup_or_resolve_datagram3_source now resolve hash h.mappings in
      forward prefers_stop
        (record {
          payload = raw;
          source = source;
          source_hash = hash;
          was_datagram2 = false;
          timestamp = now 2;
        })
        none (record h { mappings = m })

  -- `ReceiveDatagram`: what a call may return, and the session that it leaves. A call for which there
  -- is no derivation waits.
  pub data Receives (h h' : HybridSession F) : Error ⊎ HybridDatagram → Type 0 where
    refuses : h.closed ≡ true → h' ≡ h → Receives h h' (inl session_closed)
    takes_datagram :
        (dg : HybridDatagram) (rest : List HybridDatagram)
        → h.closed ≡ false
        → h.recv_chan ≡ dg ∷ rest
        → h' ≡ record h { recv_chan = rest }
        → Receives h h' (inr dg)
    takes_error :
        (e : Error) (rest : List Error)
        → h.closed ≡ false
        → h.recv_err_chan ≡ e ∷ rest
        → h' ≡ record h { recv_err_chan = rest }
        → Receives h h' (inl e)

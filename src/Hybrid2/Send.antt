-- ===== src/Hybrid2/Send.antt =====
-- Sending in hybrid2/sender.go. `now i` is the i-th reading of the clock in a call, and `net` says
-- whether the SAM library takes a packet: `none` is success, else the text of its error. One call runs
-- at a time; `senderMu` and `SenderState.mu` are not visible then.
pub mod Cadence
pub mod Retry
pub mod Validity
use onramp.Prelude.{
  ℕ, Bool, true, false, Option, none, some, String, List, [], ◌∷◌, ltb, if◌then◌else◌, Eq,
  string_eq,
}
use onramp.Prelude.Map.{Map, lookup, insert}
use onramp.Prelude.Float.{Floats}
use onramp.Keys.{Keys}
use onramp.Hybridcommon.Maps.{get_or_create_map_value}
use onramp.Hybrid2.Wire.{encode_ack_request, encode_ack_response}
use onramp.Hybrid2.Sender.{
  SenderState, should_use_datagram2, increment_counter, mark_datagram2_sent, should_request_ack,
  track_unacked_datagram, reset_counter,
}
use onramp.Hybrid2.Session.{
  HybridSession, Error, session_closed, timeout, datagram2_send, forced_datagram2_send,
  datagram3_send, ack_response_send, ensure_session_open,
}

-- What is handed to the subsessions: a payload and a destination.
pub data Packet : Type 0 where
  datagram2 datagram3 : List ℕ → String → Packet

abbrev pub Network : Type 0
Network = Packet → Option String

-- The end of a call: the new state, the error, and the packet that was handed over.
pub record Sent (S : Type 0) : Type 0 where
  pub state : S
  pub error : Option Error
  pub packet : Option Packet

module _ (F : Floats) where
  -- The state that `getSenderState` creates.
  abbrev pub new_sender_state : String → SenderState F
  new_sender_state dest = record {
    destination = dest;
    counter = 0;
    last_send_time = 0;
    last_datagram2_time = 0;
    last_datagram2_seq_num = 0;
    last_acked_seq_num = 0;
    unacked_datagrams = [];
    rtt = 0;
    path_quality = F.zero_f;
  }

module _ {F : Floats} where
  -- Hand a packet over: the state if the library refuses it, and the state if it takes it.
  abbrev pub hand_over :
      Network → Packet → (String → Error) → SenderState F → SenderState F → Sent (SenderState F)
  hand_over net p wrap refused taken = elim (net p) [
    | some e ↦ record { state = refused; error = some (wrap e); packet = some p }
    | none ↦ record { state = taken; error = none; packet = some p }
  ]

  -- The state and the payload with which `SendDatagram` comes to the datagram2 subsession.
  unfoldable pub prepare_datagram2 : (ℕ → ℕ) → List ℕ → SenderState F → SenderState F × List ℕ
  prepare_datagram2 now payload s =
      let (marked, seq_num) = mark_datagram2_sent (now 1) s in
      if should_request_ack marked
      then (track_unacked_datagram (now 2) seq_num marked, encode_ack_request seq_num payload)
      else (marked, payload)

  -- `SendDatagram`, from the choice of the protocol on.
  unfoldable pub send_state :
      Network → (ℕ → ℕ) → List ℕ → String → SenderState F → Sent (SenderState F)
  unfolding prepare_datagram2
  send_state net now payload dest s =
      let (prepared, framed) = prepare_datagram2 now payload s in
      if should_use_datagram2 (now 0) s
      then hand_over net (datagram2 framed dest) datagram2_send prepared
          (increment_counter (now 3) prepared).0
      else hand_over net (datagram3 payload dest) datagram3_send s (increment_counter (now 3) s).0

  -- `ForceDatagram2`, after `getSenderState`.
  unfoldable pub force_state :
      Network → (ℕ → ℕ) → List ℕ → String → SenderState F → Sent (SenderState F)
  force_state net now payload dest s =
      let marked = (mark_datagram2_sent (now 0) s).0 in
      hand_over net (datagram2 payload dest) forced_datagram2_send marked
        (reset_counter (now 1) 1 marked)

  -- `getSenderState`: the state of a destination, and the session that holds it.
  unfoldable pub get_sender_state :
      Keys → String → HybridSession F → SenderState F × HybridSession F
  unfolding get_or_create_map_value
  get_sender_state k dest h =
      let (s, states) =
        get_or_create_map_value (k.base64 dest) (new_sender_state F dest) h.sender_states in
      (s, record h { sender_states = states })

  -- The state of a destination is shared: what a method writes is seen in the map.
  abbrev pub put_sender_state : Keys → String → SenderState F → HybridSession F → HybridSession F
  put_sender_state k dest s h = record h {
    sender_states = insert (k.base64 dest) s h.sender_states;
  }

  -- A send on the state of its destination, in an open session.
  abbrev pub on_sender_state :
      Keys
      → String
      → (SenderState F → Sent (SenderState F))
      → HybridSession F
      → Sent (HybridSession F)
  on_sender_state k dest op h = elim (ensure_session_open h) [
    | some e ↦ record { state = h; error = some e; packet = none }
    | none ↦
        let (s, h') = get_sender_state k dest h in
        let r = op s in
        record { state = put_sender_state k dest r.state h'; error = r.error; packet = r.packet }
  ]

  -- `SendDatagram`
  unfoldable pub send_datagram :
      Keys → Network → (ℕ → ℕ) → List ℕ → String → HybridSession F → Sent (HybridSession F)
  unfolding get_sender_state
  send_datagram k net now payload dest = on_sender_state k dest (send_state net now payload dest)

  -- `ForceDatagram2`
  unfoldable pub force_datagram2 :
      Keys → Network → (ℕ → ℕ) → List ℕ → String → HybridSession F → Sent (HybridSession F)
  unfolding get_sender_state
  force_datagram2 k net now payload dest = on_sender_state k dest (force_state net now payload dest)

  -- `sendAckResponse`: the session stays as it is.
  unfoldable pub send_ack_response :
      Network → ℕ → String → HybridSession F → Option Error × Option Packet
  send_ack_response net acked dest h = elim (ensure_session_open h) [
    | some e ↦ (some e, none)
    | none ↦
        let p = datagram2 (encode_ack_response acked) dest in
        elim (net p) [ some e ↦ (some (ack_response_send e), some p) | none ↦ (none, some p) ]
  ]

  -- `GetSenderCounter`
  unfoldable pub get_sender_counter : Keys → String → HybridSession F → ℕ
  get_sender_counter k dest h = elim (lookup (k.base64 dest) h.sender_states) [
    | some s ↦ s.counter
    | none ↦ 0
  ]

-- ===== src/Hybrid2/Receive/Acks.antt =====
-- ACK requests and responses on both sides of a path (hybrid2/sender.go and hybrid2/receiver.go).
use text.Mathlib.TextPositions.{eq_refl}
use onramp.Prelude.{
  ℕ, ◌+◌, ◌%◌, ◌≤◌, ◌<◌, ◌≡◌, refl, Bool, true, false, Option-cases, inl, inr, none, some, String,
  List, [], ◌∷◌, ◌++◌, length, arith, nat_eq, string_eq,
}
use onramp.Prelude.Map.{lookup, lookup-insert, lookup-AllEntries}
use onramp.Prelude.Float.{Floats}
use onramp.Keys.{Keys}
use onramp.Hybridcommon.Maps.{or_else, get_or_create_map_value, get_or_create_map_value_lem}
use onramp.Hybrid2.Config.{recv_chan_buffer_size}
use onramp.Hybrid2.Wire.{
  encode_ack_request, encode_ack_response, decode_ack_message, ack_response_marker,
}
use onramp.Hybrid2.Wire.Laws.{decode-encode_ack_request, decode-encode_ack_response}
use onramp.Hybrid2.Sender.{
  SenderState, uint64_mod, process_ack, should_use_datagram2, mark_datagram2_sent,
  track_unacked_datagram, increment_counter,
}
use onramp.Hybrid2.Sender.Invariant.{IsValid, Assigned}
use onramp.Hybrid2.Sender.Acks.{lookup-process_ack, should_request_ack-true}
use onramp.Hybrid2.Receiver.{compute_sender_hash, register_sender}
use onramp.Hybrid2.Session.{HybridSession}
use onramp.Hybrid2.Send.{
  Network, datagram2, new_sender_state, get_sender_state, put_sender_state, send_ack_response,
  send_state, force_state,
}
use onramp.Hybrid2.Send.Cadence.{accepting}
use onramp.Hybrid2.Send.Validity.{send_state-IsValid}
use onramp.Hybrid2.Receive.{Round, forward, process_datagram2_ack, handle_datagram2}

module _ {F : Floats} (k : Keys) (net : Network) (now : ℕ) (source : String) where
  process_datagram2_ack-request :
      (seq : ℕ) (p : List ℕ) (h : HybridSession F)
      → seq < uint64_mod
      → h.closed ≡ false
      → net (datagram2 (encode_ack_response seq) source) ≡ none
      → process_datagram2_ack k net now source (encode_ack_request seq p) h
        ≡ (h, some (datagram2 (encode_ack_response seq) source), some p)
  unfolding process_datagram2_ack send_ack_response
  process_datagram2_ack-request seq p h w c taken =
      ground (arith, decode-encode_ack_request seq p w)

  -- The session after an ACK from the source.
  abbrev pub acked_session : ℕ → HybridSession F → HybridSession F
  acked_session seq h =
      let (s, h') = get_sender_state k source h in
      put_sender_state k source (process_ack now seq s) h'

  process_datagram2_ack-response :
      (seq : ℕ) (h : HybridSession F)
      → seq < uint64_mod
      → process_datagram2_ack k net now source (encode_ack_response seq) h
        ≡ (acked_session seq h, none, none)
  unfolding process_datagram2_ack
  process_datagram2_ack-response seq h w = ground (arith, decode-encode_ack_response seq w)

  lookup-acked_session :
      (seq : ℕ) (h : HybridSession F)
      → lookup (k.base64 source) (acked_session seq h).sender_states
        ≡ some (
            process_ack now seq
              (or_else (new_sender_state F source) (lookup (k.base64 source) h.sender_states)))
  unfolding get_sender_state
  lookup-acked_session seq h =
      let key = k.base64 source in
      let fresh = new_sender_state F source in
      let (s, states) = get_or_create_map_value key fresh h.sender_states in
      ground (
        arith,
        eq_refl key,
        get_or_create_map_value_lem key key fresh h.sender_states,
        lookup-insert key key (process_ack now seq s) states,
      )

module _ {F : Floats} (k : Keys) (net : Network) (now : ℕ → ℕ) (prefers_stop : Bool)
    (source : String) where
  -- In an open session whose queue has room and whose network takes the response, an ACK request
  -- for a number below 2^64 registers its source, is answered with that number, and its payload
  -- is queued with its source.
  pub handle_datagram2-request :
      (seq : ℕ) (p : List ℕ) (h : HybridSession F)
      → seq < uint64_mod
      → h.closed ≡ false
      → h.recv_stop ≡ false
      → length h.recv_chan < recv_chan_buffer_size
      → net (datagram2 (encode_ack_response seq) source) ≡ none
      → handle_datagram2 k net now prefers_stop source (encode_ack_request seq p) h
        ≡ some (record {
          session = record h {
            mappings = register_sender (now 0) (compute_sender_hash k source) source h.mappings;
            recv_chan =
                h.recv_chan
                ++ record {
                  payload = p;
                  source = source;
                  source_hash = compute_sender_hash k source;
                  was_datagram2 = true;
                  timestamp = now 2;
                }
                  ∷ [];
          };
          stop = false;
          packet = some (datagram2 (encode_ack_response seq) source);
        })
  unfolding handle_datagram2 forward
  handle_datagram2-request seq p h w c s room taken = ground (
    arith,
    process_datagram2_ack-request k net (now 1) source seq p
        (record h {
          mappings = register_sender (now 0) (compute_sender_hash k source) source h.mappings;
        })
        w c taken,
  )

  -- An ACK response for a number below 2^64 goes to the state of its sender, which is created if
  -- need be, sends nothing, and leaves the queue as it is.
  pub handle_datagram2-response :
      (seq : ℕ) (h : HybridSession F)
      → seq < uint64_mod
      → let r = handle_datagram2 k net now prefers_stop source (encode_ack_response seq) h in
        let s = or_else (new_sender_state F source) (lookup (k.base64 source) h.sender_states) in
        (round : Round F) × (r ≡ some round)
        × (round.packet ≡ none)
        × (round.session.recv_chan ≡ h.recv_chan)
        × (lookup (k.base64 source) round.session.sender_states ≡ some (process_ack (now 1) seq s))
  unfolding handle_datagram2 get_sender_state
  handle_datagram2-response seq h w = (
    record {
      session = acked_session k net (now 1) source seq registered;
      stop = false;
      packet = none;
    },
    ground (arith, process_datagram2_ack-response k net (now 1) source seq registered w),
    refl,
    refl,
    lookup-acked_session k net (now 1) source seq registered,
  )
    where
      registered : HybridSession F
      registered = record h {
        mappings = register_sender (now 0) (compute_sender_hash k source) source h.mappings;
      }

  -- A payload of at least nine bytes that starts with the marker of an ACK response is what
  -- `ForceDatagram2` hands over, and the receiver that gets it queues nothing.
  forced_payload_lost :
      (taking : Network) (clock : ℕ → ℕ) (rest : List ℕ) (dest : String) (s : SenderState F)
      (h : HybridSession F)
      → 8 ≤ length rest
      → let p = ack_response_marker ∷ rest in
        ((force_state taking clock p dest s).packet ≡ some (datagram2 p dest))
        × ((round : Round F) × (handle_datagram2 k net now prefers_stop source p h ≡ some round)
            × (round.session.recv_chan ≡ h.recv_chan))
  unfolding force_state handle_datagram2 process_datagram2_ack get_sender_state decode_ack_message
  forced_payload_lost taking clock rest dest s h long = (
    ground arith,
    (
      record {
        session =
            acked_session k net (now 1) source
              (decode_ack_message (ack_response_marker ∷ rest)).seq_num
              (record h {
                mappings = register_sender (now 0) (compute_sender_hash k source) source h.mappings;
              });
        stop = false;
        packet = none;
      },
      ground arith,
      refl,
    ),
  )

-- No ACK is awaited for a number that has not been assigned.
unassigned :
    {F : Floats} (j : ℕ) (s : SenderState F)
    → IsValid s
    → s.last_datagram2_seq_num < j
    → lookup j s.unacked_datagrams ≡ none
unassigned j s v h = elim (Option-cases (lookup j s.unacked_datagrams)) [
  | inl e ↦ e
  | inr (t, e) ↦
      let low =
        lookup-AllEntries (Assigned s.last_datagram2_seq_num) j t s.unacked_datagrams v.assigned
          e in
      absurd (omega arith)
]

-- A datagram2 that is due and taken asks for an ACK under the next number.
ack_asked :
    {F : Floats} (now : ℕ → ℕ) (p : List ℕ) (dest : String) (s : SenderState F)
    → s.last_datagram2_seq_num + 1 < uint64_mod
    → should_use_datagram2 (now 0) s ≡ true
    → let seq = s.last_datagram2_seq_num + 1 in
      let r = send_state accepting now p dest s in
      (r.packet ≡ some (datagram2 (encode_ack_request seq p) dest))
      × (r.state.last_datagram2_seq_num ≡ seq)
      × (lookup seq r.state.unacked_datagrams ≡ some (now 2))
unfolding send_state mark_datagram2_sent track_unacked_datagram increment_counter
ack_asked now p dest s w due =
    let seq = s.last_datagram2_seq_num + 1 in
    let small : seq % uint64_mod ≡ seq = omega arith in
    ground (
      arith,
      small,
      should_request_ack-true (mark_datagram2_sent (now 1) s).0,
      lookup-insert seq seq (now 2) s.unacked_datagrams,
    )

-- A datagram2 that is due, that the network takes, and that is sent from a valid state whose next
-- sequence number does not wrap, asks for an ACK under that number and is noted with its send
-- time; once the response to it is processed, no ACK is awaited under any number.
pub ack_exchange :
    {F : Floats} (now : ℕ → ℕ) (later j : ℕ) (p : List ℕ) (dest : String) (s : SenderState F)
    → IsValid s
    → s.last_datagram2_seq_num + 1 < uint64_mod
    → should_use_datagram2 (now 0) s ≡ true
    → let seq = s.last_datagram2_seq_num + 1 in
      let r = send_state accepting now p dest s in
      let d = decode_ack_message (encode_ack_response seq) in
      (r.packet ≡ some (datagram2 (encode_ack_request seq p) dest))
      × (lookup seq r.state.unacked_datagrams ≡ some (now 2))
      × (lookup j (process_ack later d.seq_num r.state).unacked_datagrams ≡ none)
ack_exchange now later j p dest s v w due =
    let seq = s.last_datagram2_seq_num + 1 in
    let s' = (send_state accepting now p dest s).state in
    let asked = ack_asked now p dest s w due in
    let v' = send_state-IsValid accepting now p dest s w v in
    (
      asked.0,
      asked.2,
      ground (
        arith,
        asked.1,
        asked.2,
        decode-encode_ack_response seq w,
        lookup-process_ack later seq j s' v',
        unassigned j s' v',
      ),
    )

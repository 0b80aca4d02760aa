-- ===== src/Hybrid2/Running/Signals.antt =====
-- The signals of a session, which the rounds of the receive loops (hybrid2/receiver.go) leave alone.
use onramp.Prelude.{
  ℕ, ◌≡◌, ◌∙◌, inl, inr, Bool, Bool-cases, true, Option, Option-cases, none, some, String, List, [],
  ◌∷◌, arith,
}
use onramp.Prelude.Float.{Floats}
use onramp.Keys.{Keys}
use onramp.Hybrid2.Wire.{decode_ack_message}
use onramp.Hybrid2.Receiver.{SenderHash, compute_sender_hash, register_sender}
use onramp.Hybrid2.Session.{HybridSession, HybridDatagram, Error}
use onramp.Hybrid2.Session.Lifecycle.{IsConsistent}
use onramp.Hybrid2.Send.{Network, Packet, get_sender_state, send_ack_response}
use onramp.Hybrid2.Receive.{
  Incoming, failed, arrived, Round, report_recv_error, receive_failed, forward, answer_ack_request,
  process_datagram2_ack, handle_datagram2, receive_datagram2, receive_datagram3,
  lookup_or_resolve_datagram3_source,
}

module _ {F : Floats} where
  -- The signals of a session, which only `Close` gives.
  abbrev pub signals : HybridSession F → List Bool
  signals h =
      h.recv_stop ∷ h.stop_cleanup ∷ h.ack_cleanup_stop ∷ h.cleanup_done ∷ h.closed
      ∷ h.datagram2_closed ∷ h.datagram3_closed ∷ []

  pub signals-IsConsistent :
      (h h' : HybridSession F) → signals h' ≡ signals h → IsConsistent h → IsConsistent h'
  signals-IsConsistent h h' e v =
      ground (arith, v.stops, v.cleans, v.acks, v.finishes, v.frees2, v.frees3)

  -- A round leaves the signals alone, and stops its loop only where the signal is given.
  abbrev pub Quiet : HybridSession F → Option (Round F) → Type 0
  Quiet h none = Unit {0}
  Quiet h (some x) = (signals x.session ≡ signals h) × (x.stop ≡ true → h.recv_stop ≡ true)

  forward-Quiet :
      (prefers_stop : Bool) (dg : HybridDatagram) (packet : Option Packet) (h : HybridSession F)
      → Quiet h (forward prefers_stop dg packet h)
  unfolding forward
  forward-Quiet prefers_stop dg packet h = ground arith

  report_recv_error-signals :
      (e : Error) (h : HybridSession F) → signals (report_recv_error e h) ≡ signals h
  unfolding report_recv_error
  report_recv_error-signals e h = ground arith

  receive_failed-Quiet : (e : Error) (h : HybridSession F) → Quiet h (some (receive_failed e h))
  receive_failed-Quiet e h = ground (arith, report_recv_error-signals e h)

  answer_ack_request-signals :
      (net : Network) (seq : ℕ) (source : String) (h : HybridSession F)
      → signals (answer_ack_request net seq source h).0 ≡ signals h
  answer_ack_request-signals net seq source h =
      elim (Option-cases (send_ack_response net seq source h).0) [
        | inl e ↦ rw (e, answer_ack_request)
        | inr (e, q) ↦ rw (q, answer_ack_request) (report_recv_error-signals _ h)
      ]

  pub process_datagram2_ack-signals :
      (k : Keys) (net : Network) (now : ℕ) (source : String) (raw : List ℕ) (h : HybridSession F)
      → signals (process_datagram2_ack k net now source raw h).0 ≡ signals h
  unfolding process_datagram2_ack get_sender_state
  process_datagram2_ack-signals k net now source raw h =
      let d = decode_ack_message raw in
      elim (Bool-cases d.is_ack_response) [
        | inl e ↦ rw (e, process_datagram2_ack)
        | inr e ↦ elim (Bool-cases d.is_ack_request) [
          | inl q ↦
              rw (e, q, process_datagram2_ack) (answer_ack_request-signals net d.seq_num source h)
          | inr q ↦ rw (e, q, process_datagram2_ack)
        ]
      ]

  Quiet-after :
      (h h' : HybridSession F) (x : Option (Round F))
      → signals h' ≡ signals h
      → Quiet h' x
      → Quiet h x
  Quiet-after h h' none e v = tt
  Quiet-after h h' (some x) e v = (v.0 ∙ e, λ s. ground (arith, v.1 s))

  pub receive_datagram2-Quiet :
      (k : Keys) (net : Network) (now : ℕ → ℕ) (prefers_stop : Bool) (i : Incoming String)
      (h : HybridSession F)
      → Quiet h (receive_datagram2 k net now prefers_stop i h)
  unfolding receive_datagram2 handle_datagram2
  receive_datagram2-Quiet k net now prefers_stop (failed e) h = receive_failed-Quiet _ h
  receive_datagram2-Quiet k net now prefers_stop (arrived source raw) h =
      let hash = compute_sender_hash k source in
      let registered : HybridSession F = record h {
        mappings = register_sender (now 0) hash source h.mappings;
      } in
      let processed = process_datagram2_ack k net (now 1) source raw registered in
      let quiet = process_datagram2_ack-signals k net (now 1) source raw registered in
      elim (Option-cases processed.2) [
        | inl e ↦ rw (e, handle_datagram2) (quiet, λ s. absurd (ground arith))
        | inr (content, e) ↦
            rw (e, handle_datagram2)
              (Quiet-after h processed.0 _ quiet (forward-Quiet prefers_stop _ _ processed.0))
      ]

  pub receive_datagram3-Quiet :
      (resolve : SenderHash → Option String) (now : ℕ → ℕ) (prefers_stop : Bool)
      (i : Incoming SenderHash) (h : HybridSession F)
      → Quiet h (receive_datagram3 resolve now prefers_stop i h)
  unfolding receive_datagram3
  receive_datagram3-Quiet resolve now prefers_stop (failed e) h = receive_failed-Quiet _ h
  receive_datagram3-Quiet resolve now prefers_stop (arrived hash raw) h =
      forward-Quiet prefers_stop _ none
        (record h { mappings = (lookup_or_resolve_datagram3_source now resolve hash h.mappings).1 })

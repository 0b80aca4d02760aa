-- ===== src/Hybrid2/Running/Waiting.antt =====
-- The rounds of the receive loops (hybrid2/receiver.go) after the stop signal.
use onramp.Prelude.{ℕ, ◌≡◌, ◌≢◌, inl, inr, Bool, true, Option, Option-cases, none, String, arith}
use onramp.Prelude.Float.{Floats}
use onramp.Keys.{Keys}
use onramp.Hybrid2.Receiver.{SenderHash, compute_sender_hash, register_sender}
use onramp.Hybrid2.Session.{HybridSession, HybridDatagram}
use onramp.Hybrid2.Send.{Network, Packet}
use onramp.Hybrid2.Receive.{
  Incoming, failed, arrived, forward, process_datagram2_ack, handle_datagram2, receive_datagram2,
  receive_datagram3, lookup_or_resolve_datagram3_source,
}
use onramp.Hybrid2.Running.Signals.{process_datagram2_ack-signals}

module _ {F : Floats} where
  -- A stopped loop does not wait for room in the queue.
  forward-ends :
      (b : Bool) (dg : HybridDatagram) (p : Option Packet) (h : HybridSession F)
      → h.recv_stop ≡ true
      → forward b dg p h ≢ none
  unfolding forward
  forward-ends b dg p h s e = ground (arith, s, e)

  pub receive_datagram2-ends :
      (k : Keys) (net : Network) (now : ℕ → ℕ) (b : Bool) (i : Incoming String)
      (h : HybridSession F)
      → h.recv_stop ≡ true
      → receive_datagram2 k net now b i h ≢ none
  unfolding receive_datagram2 handle_datagram2
  receive_datagram2-ends k net now b (failed x) h s e = ground (arith, e)
  receive_datagram2-ends k net now b (arrived source raw) h s e =
      let registered : HybridSession F = record h {
        mappings = register_sender (now 0) (compute_sender_hash k source) source h.mappings;
      } in
      let processed = process_datagram2_ack k net (now 1) source raw registered in
      let quiet = process_datagram2_ack-signals k net (now 1) source raw registered in
      let told : processed.0.recv_stop ≡ true = ground (arith, quiet, s) in
      elim (Option-cases processed.2) [
        | inl n ↦ absurd (ground (arith, n, e))
        | inr (content, n) ↦
            forward-ends b _ processed.1 processed.0 told (rw (n, handle_datagram2) at e)
      ]

  pub receive_datagram3-ends :
      (resolve : SenderHash → Option String) (now : ℕ → ℕ) (b : Bool) (i : Incoming SenderHash)
      (h : HybridSession F)
      → h.recv_stop ≡ true
      → receive_datagram3 resolve now b i h ≢ none
  unfolding receive_datagram3
  receive_datagram3-ends resolve now b (failed x) h s e = ground (arith, e)
  receive_datagram3-ends resolve now b (arrived hash raw) h s e =
      forward-ends b _ none
        (record h { mappings = (lookup_or_resolve_datagram3_source now resolve hash h.mappings).1 })
        s e

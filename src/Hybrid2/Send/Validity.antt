-- ===== src/Hybrid2/Send/Validity.antt =====
-- The invariant of a destination's state over a send (hybrid2/sender.go).
use onramp.Prelude.{ℕ, ◌+◌, ◌<◌, inl, inr, Bool-cases, Option-cases, String, List, arith}
use onramp.Prelude.Float.{Floats}
use onramp.Hybrid2.Sender.{SenderState, uint64_mod, should_use_datagram2, mark_datagram2_sent}
use onramp.Hybrid2.Sender.Invariant.{
  IsValid, increment_counter-IsValid, mark_datagram2_sent-IsValid, track_unacked_datagram-IsValid,
  reset_counter-IsValid,
}
use onramp.Hybrid2.Sender.Acks.{should_request_ack-true}
use onramp.Hybrid2.Send.{
  Network, Packet, datagram2, datagram3, hand_over, prepare_datagram2, send_state, force_state,
  new_sender_state,
}
use onramp.Hybrid2.Session.{Error, datagram2_send, datagram3_send, forced_datagram2_send}

module _ {F : Floats} where
  hand_over-IsValid :
      (net : Network) (p : Packet) (wrap : String → Error) (refused taken : SenderState F)
      → IsValid refused
      → IsValid taken
      → IsValid (hand_over net p wrap refused taken).state
  hand_over-IsValid net p wrap refused taken v w = elim (Option-cases (net p)) [
    | inl e ↦ rw (e, hand_over) w
    | inr (m, e) ↦ rw (e, hand_over) v
  ]

  prepare_datagram2-IsValid :
      (now : ℕ → ℕ) (payload : List ℕ) (s : SenderState F)
      → s.last_datagram2_seq_num + 1 < uint64_mod
      → IsValid s
      → IsValid (prepare_datagram2 now payload s).0
  unfolding prepare_datagram2 mark_datagram2_sent
  prepare_datagram2-IsValid now payload s h v =
      rw (should_request_ack-true (mark_datagram2_sent (now 1) s).0) (
        track_unacked_datagram-IsValid (now 2) _ (mark_datagram2_sent (now 1) s).0 (omega arith)
          (mark_datagram2_sent-IsValid (now 1) s h v))

  -- A `SendDatagram` on a valid state, whether or not the network takes the packet, leaves a
  -- valid state, as long as the next sequence number does not wrap: each number is awaited once,
  -- and the awaited numbers and the highest acknowledged one have been assigned.
  pub send_state-IsValid :
      (net : Network) (now : ℕ → ℕ) (payload : List ℕ) (dest : String) (s : SenderState F)
      → s.last_datagram2_seq_num + 1 < uint64_mod
      → IsValid s
      → IsValid (send_state net now payload dest s).state
  unfolding send_state
  send_state-IsValid net now payload dest s h v =
      elim (Bool-cases (should_use_datagram2 (now 0) s)) [
        | inl e ↦ rw e (
            hand_over-IsValid net _ datagram2_send _ _ prepared
              (increment_counter-IsValid (now 3) _ prepared))
        | inr e ↦ rw e (
            hand_over-IsValid net (datagram3 payload dest) datagram3_send _ _ v
              (increment_counter-IsValid (now 3) s v))
      ]
    where
      prepared : IsValid (prepare_datagram2 now payload s).0
      prepared = prepare_datagram2-IsValid now payload s h v

  pub force_state-IsValid :
      (net : Network) (now : ℕ → ℕ) (payload : List ℕ) (dest : String) (s : SenderState F)
      → s.last_datagram2_seq_num + 1 < uint64_mod
      → IsValid s
      → IsValid (force_state net now payload dest s).state
  unfolding force_state
  force_state-IsValid net now payload dest s h v =
      hand_over-IsValid net (datagram2 payload dest) forced_datagram2_send _ _ marked
        (reset_counter-IsValid (now 1) 1 _ (omega arith) marked)
    where
      marked : IsValid (mark_datagram2_sent (now 0) s).0
      marked = mark_datagram2_sent-IsValid (now 0) s h v

pub new_sender_state-IsValid : (F : Floats) (dest : String) → IsValid (new_sender_state F dest)
new_sender_state-IsValid F dest = record {
  keyed = tt;
  assigned = tt;
  acked = omega arith;
  counted = omega arith;
  numbered = omega arith;
  measured = omega arith;
}

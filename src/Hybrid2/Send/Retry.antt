-- ===== src/Hybrid2/Send/Retry.antt =====
-- What the next send does after the SAM library has refused a datagram2 (hybrid2/sender.go).
use onramp.Prelude.{ℕ, ◌+◌, ◌%◌, ◌<◌, ◌≡◌, ◌≢◌, some, none, true, String, List, arith}
use onramp.Prelude.Float.{Floats}
use onramp.Hybrid2.Config.{repliable_interval, repliable_time_interval}
use onramp.Hybrid2.Sender.{
  SenderState, should_use_datagram2, mark_datagram2_sent, track_unacked_datagram,
}
use onramp.Hybrid2.Send.{Network, datagram2, datagram3, send_state, prepare_datagram2}

-- A network that refuses every packet.
abbrev pub refusing : String → Network
refusing e p = some e

module _ {F : Floats} (e : String) (now later : ℕ → ℕ) (net : Network) (p q : List ℕ)
    (dest : String) where
  -- After a datagram2 that is due by time and not by the counter has been refused, the send has
  -- an error, and a next message that is sent within four minutes goes as datagram3.
  refused_refresh :
      (s : SenderState F)
      → ¬ (s.counter % repliable_interval ≡ 0)
      → should_use_datagram2 (now 0) s ≡ true
      → 0 < now 1
      → later 0 < now 1 + repliable_time_interval
      → let r = send_state (refusing e) now p dest s in
        (r.error ≢ none) × ((send_state net later q dest r.state).packet ≡ some (datagram3 q dest))
  unfolding send_state should_use_datagram2 mark_datagram2_sent track_unacked_datagram
  refused_refresh s h due k w = ground arith

  -- After a datagram2 that is due by the counter has been refused, the send has an error, the
  -- counter is where it was, and the next message goes as datagram2.
  pub refused_identity :
      (s : SenderState F)
      → s.counter % repliable_interval ≡ 0
      → let r = send_state (refusing e) now p dest s in
        (r.error ≢ none)
        × (r.state.counter ≡ s.counter)
        × ((framed : List ℕ) × ((send_state net later q dest r.state).packet
              ≡ some (datagram2 framed dest)))
  unfolding send_state should_use_datagram2 mark_datagram2_sent track_unacked_datagram
  refused_identity s h = (
    ground arith,
    ground arith,
    ((prepare_datagram2 later q (send_state (refusing e) now p dest s).state).1, ground arith),
  )

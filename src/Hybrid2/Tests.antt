-- ===== src/Hybrid2/Tests.antt =====
-- The theorems on hybrid2 at concrete values.
mod Receiving
mod Opening
mod Running
use onramp.Prelude.{
  ℕ, zero, suc, ◌+◌, ◌*◌, ◌/◌, ◌<◌, ◌≡◌, refl, ◌≢◌, inl, inr, Bool, true, false, Option, none, some,
  String, List, [], ◌∷◌, ◌++◌, All, length, drop, take, if◌then◌else◌, ◌&&◌, leb, bytes_beq, arith,
  nat_eq,
}
use onramp.Prelude.Map.{lookup, contains, AllEntries}
use onramp.Samples.{floats, keys}
use onramp.Hybrid2.Config.{second, minute}
use onramp.Hybrid2.Wire.{encode_ack_request, encode_ack_response, decode_ack_message}
use onramp.Hybrid2.Wire.Laws.{
  Reads, decode_ack_message-Reads, decode-encode_ack_request, decode-encode_ack_response,
}
use onramp.Hybrid2.Sender.{
  SenderState, should_use_datagram2, process_ack, cleanup_stale_unacked, degrade, next_rtt,
  acked_quality,
}
use onramp.Hybrid2.Sender.Invariant.{IsValid}
use onramp.Hybrid2.Sender.Acks.{lookup-process_ack, length-cleanup_stale_unacked}
use onramp.Hybrid2.Session.{HybridSession}
use onramp.Hybrid2.Send.{
  Network, Packet, datagram2, datagram3, new_sender_state, send_state, force_state,
}
use onramp.Hybrid2.Send.Cadence.{
  Call, accepting, protocols, pattern_from, count_true, InWindow, protocols_cadence,
}
use onramp.Hybrid2.Send.Validity.{send_state-IsValid, new_sender_state-IsValid}
use onramp.Hybrid2.Send.Retry.{refusing, refused_identity}
use onramp.Hybrid2.Delivery.{Event, message, cleanup, IsTimely, deliver, deliver-resolves}

-- A call at a time with a payload of one byte.
abbrev call_at : ℕ → Call
call_at time = record { now = λ _. time; payload = 7 ∷ [] }

-- A first message, one that follows, a round of cleanup, and one after six minutes more.
abbrev conversation : List Event
conversation =
    message (call_at second) (2 * second)
    ∷ message (call_at (2 * second)) (minute + second)
    ∷ cleanup (2 * minute)
    ∷ message (call_at (6 * minute)) (7 * minute)
    ∷ message (call_at (7 * minute)) (12 * minute)
    ∷ []

conversation-IsTimely : IsTimely 1 conversation
conversation-IsTimely = ground arith

deliver-resolves_example :
    All
      (λ o. o ≡ some "alice")
      (deliver keys "alice" "bob" conversation (new_sender_state floats "bob") [])
deliver-resolves_example =
    deliver-resolves floats keys "alice" "bob" conversation 1 conversation-IsTimely

abbrev three_calls : List Call
three_calls = call_at second ∷ call_at (2 * second) ∷ call_at (3 * second) ∷ []

three_calls-InWindow : InWindow second three_calls
three_calls-InWindow = (
  λ i. (omega arith, omega arith),
  (λ i. (omega arith, omega arith), (λ i. (omega arith, omega arith), tt)),
)

protocols_cadence_example :
    let kinds = protocols "bob" three_calls (new_sender_state floats "bob") in
    (kinds ≡ pattern_from 0 three_calls) × (count_true kinds ≡ (length three_calls + 499) / 500)
protocols_cadence_example =
    protocols_cadence floats second "bob" three_calls (omega arith) three_calls-InWindow
      (omega arith)

-- A state with one ACK outstanding.
abbrev waiting : SenderState floats
waiting = record {
  destination = "bob";
  counter = 3;
  last_send_time = 5 * second;
  last_datagram2_time = 4 * second;
  last_datagram2_seq_num = 2;
  last_acked_seq_num = 1;
  unacked_datagrams = (2, 4 * second) ∷ [];
  rtt = 80;
  path_quality = 900;
}

waiting-IsValid : IsValid waiting
waiting-IsValid = record {
  keyed = (refl, tt);
  assigned = (omega arith, tt);
  acked = omega arith;
  counted = omega arith;
  numbered = omega arith;
  measured = omega arith;
}

decode_ack_message-Reads_example :
    Reads (0xAC ∷ 1 ∷ 2 ∷ []) (decode_ack_message (0xAC ∷ 1 ∷ 2 ∷ []))
decode_ack_message-Reads_example = decode_ack_message-Reads (0xAC ∷ 1 ∷ 2 ∷ []) (ground arith)

send_state-IsValid_example :
    IsValid (send_state (refusing "down") (λ _. 6 * second) (7 ∷ []) "bob" waiting).state
send_state-IsValid_example =
    send_state-IsValid (refusing "down") (λ _. 6 * second) (7 ∷ []) "bob" waiting (omega arith)
      waiting-IsValid

lookup-process_ack_example : lookup 2 (process_ack (5 * second) 2 waiting).unacked_datagrams ≡ (
    if contains 2 waiting.unacked_datagrams && leb 2 2
    then none
    else lookup 2 waiting.unacked_datagrams)
lookup-process_ack_example = lookup-process_ack (5 * second) 2 2 waiting waiting-IsValid

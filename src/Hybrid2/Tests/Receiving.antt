-- ===== src/Hybrid2/Tests/Receiving.antt =====
-- The theorems on the receive loops, the table, the connections and the lifecycle of hybrid2 at concrete
-- values.

use onramp.Prelude.{
  ℕ, ◌*◌, ◌⊎◌, ◌↔◌, String, List, ◌≡◌, refl, inr, true, false, none, some, [], ◌∷◌, arith,
  string_eq, nat_eq, bytes_eq,
}
use onramp.Prelude.Map.{lookup}
use onramp.Samples.{floats}
use onramp.Hybrid2.Config.{second, minute}
use onramp.Hybrid2.Wire.{encode_ack_request, encode_ack_response, decode_ack_message}
use onramp.Hybrid2.Sender.{should_use_datagram2, process_ack}
use onramp.Hybrid2.Session.{HybridSession, Error, close}
use onramp.Hybrid2.Session.Lifecycle.{IsConsistent, shut, close_lem}
use onramp.Hybrid2.Send.{datagram2, new_sender_state, send_state}
use onramp.Hybrid2.Send.Cadence.{accepting}
use onramp.Hybrid2.Send.Validity.{new_sender_state-IsValid}
use onramp.Hybrid2.Receive.{arrived, Round, receive_datagram3, lookup_or_resolve_datagram3_source}
use onramp.Hybrid2.Receive.Acks.{ack_exchange}
use onramp.Hybrid2.Conn.{HybridPacketConn, ReadsFrom}
use onramp.Hybrid2.Conn.Laws.{ReadsFrom-receive_datagram3}

abbrev opened : HybridSession floats
opened = record {
  id = "hybrid";
  local_addr = "bob";
  sender_states = [];
  mappings = [];
  recv_chan = [];
  recv_err_chan = [];
  recv_stop = false;
  stop_cleanup = false;
  ack_cleanup_stop = false;
  cleanup_done = false;
  closed = false;
  datagram2_closed = false;
  datagram3_closed = false;
}

first_due : should_use_datagram2 second (new_sender_state floats "bob") ≡ true
unfolding should_use_datagram2
first_due = refl

ack_exchange_example :
    let r = send_state accepting (λ _. second) (7 ∷ []) "bob" (new_sender_state floats "bob") in
    let d = decode_ack_message (encode_ack_response 1) in
    (r.packet ≡ some (datagram2 (encode_ack_request 1 (7 ∷ [])) "bob"))
    × (lookup 1 r.state.unacked_datagrams ≡ some second)
    × (lookup 1 (process_ack (2 * second) d.seq_num r.state).unacked_datagrams ≡ none)
ack_exchange_example =
    ack_exchange (λ _. second) (2 * second) 1 (7 ∷ []) "bob" (new_sender_state floats "bob")
      (new_sender_state-IsValid floats "bob") (omega arith) first_due

close_lem_example : (close opened ≡ some (shut opened)) × IsConsistent (shut opened)
close_lem_example = close_lem opened (record {
  stops = refl;
  cleans = refl;
  acks = refl;
  finishes = refl;
  frees2 = refl;
  frees3 = refl;
})

abbrev conn : HybridPacketConn
conn = record { read_deadline = 0; write_deadline = minute; closed = false }

-- The library resolves a hash, a datagram3 comes in, and there is room for two bytes of it.
ReadsFrom-receive_datagram3_example :
    let (source, m) =
      lookup_or_resolve_datagram3_source (λ _. second) (λ hash. some "alice") (1 ∷ []) [] in
    (round : Round floats) × (receive_datagram3
        (λ hash. some "alice")
        (λ _. second)
        true
        (arrived (1 ∷ []) (7 ∷ 8 ∷ 9 ∷ []))
        opened
      ≡ some round)
    × ((h' : HybridSession floats) (r : Error ⊎ (List ℕ × String))
        → ReadsFrom second 2 conn round.session h' r ↔ (
            (h' ≡ record opened { mappings = m; recv_chan = [] }) × (r ≡ inr (7 ∷ 8 ∷ [], source))))
ReadsFrom-receive_datagram3_example =
    ReadsFrom-receive_datagram3 (λ hash. some "alice") (λ _. second) true (1 ∷ []) (7 ∷ 8 ∷ 9 ∷ [])
      opened second 2 conn refl refl refl refl refl refl

-- ===== src/Hybrid1/Tests.antt =====
-- The theorems on hybrid1 at concrete values.
use onramp.Prelude.{ℕ, ◌≡◌, refl, false, some, none, List, [], ◌∷◌, bytes_eq, arith}
use onramp.Prelude.Map.{lookup}
use onramp.Samples.{keys}
use onramp.Hybrid1.Session.{Hybrid1Session, process_received_datagram, update_receiver_mapping}
use onramp.Hybrid1.Session.Laws.{mapped, lookup-update_receiver_mapping}
use onramp.Hybrid1.Conn.{PacketConn, write_to, hybrid1_addr}
use onramp.Hybrid1.Conn.Laws.{write_to_received}

abbrev opened : Hybrid1Session
opened = record {
  id = "hybrid1";
  local_addr = "alice";
  local_port = 8080;
  sender_states = [];
  receiver_map = [];
  recv_chan = [];
  recv_err_chan = [];
  recv_stop = false;
  cleanup_done = false;
  closed = false;
  datagram_closed = false;
}

abbrev conn : PacketConn
conn = record { read_deadline = 0; write_deadline = 0; closed = false }

write_to_received_example :
    let w = write_to keys (λ f a. none) (λ i. i) (7 ∷ []) (hybrid1_addr "bob" 443) conn opened in
    (frame : List ℕ) × (w.frame ≡ some (frame, "bob"))
    × (let dg = (process_received_datagram keys (λ a. []) (λ i. i) frame "alice" opened).0 in
        (dg.payload ≡ 7 ∷ [])
        × (dg.source ≡ "alice")
        × (dg.source_port ≡ 8080)
        × (dg.dest_port ≡ 443))
write_to_received_example =
    write_to_received keys keys (λ f a. none) (λ a. []) (λ i. i) (λ i. i) (7 ∷ []) "bob" 443 conn
      opened opened refl (omega arith) refl (omega arith) (omega arith)

lookup-update_receiver_mapping_example :
    let now : ℕ → ℕ = λ i. i in
    lookup (1 ∷ []) (update_receiver_mapping now (1 ∷ []) "alice" 80 [])
    ≡ some (mapped now (1 ∷ []) "alice" 80 none)
lookup-update_receiver_mapping_example =
    lookup-update_receiver_mapping (λ i. i) (1 ∷ []) (1 ∷ []) "alice" 80 []

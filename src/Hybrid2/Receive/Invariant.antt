-- ===== src/Hybrid2/Receive/Invariant.antt =====
-- What the rounds of the receive loops (hybrid2/receiver.go) keep.
use onramp.Prelude.{
  ℕ, ◌≤◌, ◌≡◌, refl, ◌⊎◌, inl, inr, Bool, Bool-cases, Option, Option-cases, none, some, String,
  List, [], ◌∷◌, length, length-append, All, All-snoc, arith, bytes_eq,
}
use onramp.Prelude.Map.{IsMap}
use onramp.Prelude.Float.{Floats}
use onramp.Keys.{Keys}
use onramp.Hybrid2.Config.{recv_chan_buffer_size}
use onramp.Hybrid2.Receiver.{
  SenderHash, Mappings, compute_sender_hash, register_sender, lookup_sender,
}
use onramp.Hybrid2.Receiver.Table.{register_sender-IsMap}
use onramp.Hybrid2.Receiver.Soundness.{IsSound, register_sender-IsSound, lookup_sender-IsSound}
use onramp.Hybrid2.Session.{
  HybridSession, HybridDatagram, Error, datagram2_receive, datagram3_receive,
}
use onramp.Hybrid2.Wire.{decode_ack_message}
use onramp.Hybrid2.Send.{Network, Packet, send_ack_response, get_sender_state}
use onramp.Hybrid2.Receive.{
  Incoming, failed, arrived, Round, report_recv_error, receive_failed, forward, answer_ack_request,
  process_datagram2_ack, handle_datagram2, receive_datagram2, receive_datagram3,
  lookup_or_resolve_datagram3_source,
}

-- The address that goes with a datagram is unknown, or has the datagram's hash.
abbrev pub IsAttributed : Keys → HybridDatagram → Type 0
IsAttributed k dg = (dg.source ≡ "") ⊎ (compute_sender_hash k dg.source ≡ dg.source_hash)

-- The part of a session that the receive loops write.
pub record IsReceiving {F : Floats} (k : Keys) (h : HybridSession F) : Type 0 where
  pub keyed : IsMap h.mappings
  pub sound : IsSound k h.mappings
  pub attributed : All (IsAttributed k) h.recv_chan
  pub bounded : length h.recv_chan ≤ recv_chan_buffer_size
  pub one_error : length h.recv_err_chan ≤ 1

-- What holds of the end of a round, unless the loop waits.
abbrev pub Keeps : {F : Floats} → Keys → Option (Round F) → Type 0
Keeps k none = Unit {0}
Keeps k (some r) = IsReceiving k r.session

-- What the table or the SAM library says of a hash, and the table after it.
lookup_or_resolve-IsSound :
    (k : Keys) (now : ℕ → ℕ) (resolve : SenderHash → Option String) (hash : SenderHash)
    (m : Mappings)
    → ((j : SenderHash) (a : String) → resolve j ≡ some a → compute_sender_hash k a ≡ j)
    → IsMap m
    → IsSound k m
    → let (source, m') = lookup_or_resolve_datagram3_source now resolve hash m in
      ((source ≡ "") ⊎ (compute_sender_hash k source ≡ hash)) × IsMap m' × IsSound k m'
unfolding lookup_or_resolve_datagram3_source
lookup_or_resolve-IsSound k now resolve hash m honest v w =
    elim (Option-cases (lookup_sender (now 0) hash m)) [
      | inr (dest, e) ↦
          rw (e, lookup_or_resolve_datagram3_source)
            (inr (lookup_sender-IsSound k (now 0) hash dest m w e), v, w)
      | inl e ↦ elim (Option-cases (resolve hash)) [
        | inl q ↦ rw (e, q, lookup_or_resolve_datagram3_source) (inl refl, v, w)
        | inr (a, q) ↦
            rw (e, q, lookup_or_resolve_datagram3_source)
              (
                inr (honest hash a q),
                register_sender-IsMap (now 1) hash a m v,
                register_sender-IsSound k (now 1) hash a m (honest hash a q) w,
              )
      ]
    ]

module _ {F : Floats} (k : Keys) where
  report_recv_error-IsReceiving :
      (e : Error) (h : HybridSession F) → IsReceiving k h → IsReceiving k (report_recv_error e h)
  unfolding report_recv_error
  report_recv_error-IsReceiving e h v = ground (arith, length-append h.recv_err_chan (e ∷ []))

  forward-IsReceiving :
      (prefers_stop : Bool) (dg : HybridDatagram) (packet : Option Packet) (h : HybridSession F)
      → IsAttributed k dg
      → IsReceiving k h
      → Keeps k (forward prefers_stop dg packet h)
  unfolding forward
  forward-IsReceiving prefers_stop dg packet h own v = ground (
    arith,
    length-append h.recv_chan (dg ∷ []),
    All-snoc (IsAttributed k) dg h.recv_chan v.attributed own,
  )

  receive_failed-IsReceiving :
      (e : Error) (h : HybridSession F)
      → IsReceiving k h
      → IsReceiving k (receive_failed e h).session
  receive_failed-IsReceiving e h v = ground (arith, report_recv_error-IsReceiving e h v)

  answer_ack_request-IsReceiving :
      (net : Network) (seq : ℕ) (source : String) (h : HybridSession F)
      → IsReceiving k h
      → IsReceiving k (answer_ack_request net seq source h).0
  answer_ack_request-IsReceiving net seq source h v =
      elim (Option-cases (send_ack_response net seq source h).0) [
        | inl e ↦ rw (e, answer_ack_request) v
        | inr (e, q) ↦ rw (q, answer_ack_request) (report_recv_error-IsReceiving _ h v)
      ]

  process_datagram2_ack-IsReceiving :
      (net : Network) (now : ℕ) (source : String) (raw : List ℕ) (h : HybridSession F)
      → IsReceiving k h
      → IsReceiving k (process_datagram2_ack k net now source raw h).0
  unfolding process_datagram2_ack get_sender_state
  process_datagram2_ack-IsReceiving net now source raw h v =
      let d = decode_ack_message raw in
      let answered = answer_ack_request-IsReceiving net d.seq_num source h v in
      elim (Bool-cases d.is_ack_response) [
        | inl e ↦
            rw (e, process_datagram2_ack)
              (record {
                keyed = v.keyed;
                sound = v.sound;
                attributed = v.attributed;
                bounded = v.bounded;
                one_error = v.one_error;
              })
        | inr e ↦ elim (Bool-cases d.is_ack_request) [
          | inl q ↦ rw (e, q, process_datagram2_ack) answered
          | inr q ↦ rw (e, q, process_datagram2_ack) v
        ]
      ]

  handle_datagram2-IsReceiving :
      (net : Network) (now : ℕ → ℕ) (prefers_stop : Bool) (source : String) (raw : List ℕ)
      (h : HybridSession F)
      → IsReceiving k h
      → Keeps k (handle_datagram2 k net now prefers_stop source raw h)
  unfolding handle_datagram2
  handle_datagram2-IsReceiving net now prefers_stop source raw h v =
      elim (Option-cases (process_datagram2_ack k net (now 1) source raw registered).2) [
        | inl e ↦ rw (e, handle_datagram2) processed
        | inr (content, e) ↦
            rw (e, handle_datagram2) (forward-IsReceiving prefers_stop _ _ _ (inr refl) processed)
      ]
    where
      hash : SenderHash
      hash = compute_sender_hash k source

      registered : HybridSession F
      registered = record h { mappings = register_sender (now 0) hash source h.mappings }

      processed : IsReceiving k (process_datagram2_ack k net (now 1) source raw registered).0
      processed = process_datagram2_ack-IsReceiving net (now 1) source raw registered (record {
        keyed = register_sender-IsMap (now 0) hash source h.mappings v.keyed;
        sound = register_sender-IsSound k (now 0) hash source h.mappings refl v.sound;
        attributed = v.attributed;
        bounded = v.bounded;
        one_error = v.one_error;
      })

  -- A round of the datagram2 loop that ends keeps the invariant of what the loops write: each
  -- hash stands once in the table, with an address of that hash; each datagram in the queue has
  -- the hash of its source, or an empty source; the queue holds at most 100 datagrams and the
  -- error channel one error.
  pub receive_datagram2-IsReceiving :
      (net : Network) (now : ℕ → ℕ) (prefers_stop : Bool) (i : Incoming String)
      (h : HybridSession F)
      → IsReceiving k h
      → Keeps k (receive_datagram2 k net now prefers_stop i h)
  unfolding receive_datagram2
  receive_datagram2-IsReceiving net now prefers_stop (failed e) h v =
      receive_failed-IsReceiving (datagram2_receive e) h v
  receive_datagram2-IsReceiving net now prefers_stop (arrived source raw) h v =
      handle_datagram2-IsReceiving net now prefers_stop source raw h v

  -- A round of the datagram3 loop that ends keeps the invariant of what the loops write, where
  -- the library resolves a hash to an address of that hash only.
  pub receive_datagram3-IsReceiving :
      (resolve : SenderHash → Option String) (now : ℕ → ℕ) (prefers_stop : Bool)
      (i : Incoming SenderHash) (h : HybridSession F)
      → ((j : SenderHash) (a : String) → resolve j ≡ some a → compute_sender_hash k a ≡ j)
      → IsReceiving k h
      → Keeps k (receive_datagram3 resolve now prefers_stop i h)
  unfolding receive_datagram3
  receive_datagram3-IsReceiving resolve now prefers_stop (failed e) h honest v =
      receive_failed-IsReceiving (datagram3_receive e) h v
  receive_datagram3-IsReceiving resolve now prefers_stop (arrived hash raw) h honest v =
      let looked = lookup_or_resolve-IsSound k now resolve hash h.mappings honest v.keyed v.sound in
      forward-IsReceiving prefers_stop _ none _ looked.0 (record {
        keyed = looked.1;
        sound = looked.2;
        attributed = v.attributed;
        bounded = v.bounded;
        one_error = v.one_error;
      })

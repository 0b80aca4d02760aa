-- ===== src/Garlic/Calls/Laws.antt =====
-- The calls of garlic.go, and what a `Garlic` has open.
use onramp.Prelude.{
  ℕ, ◌+◌, ◌==◌, ltb, ◌<◌, ◌⊎◌, inl, inr, Bool-cases, Sum-cases, Option, Option-cases, none, some,
  String, List, [], ◌∷◌, arith, string_eq,
}
use onramp.Prelude.Int.{ℤ, pos, negsuc}
use onramp.Garlic.Ports.{Bytes, parse_i2p_addr_and_virtual_port, max_port}
use onramp.Garlic.{Garlic, Request, listen, dial, Outside, pure, ◌>>=◌, ◌>>◌, request}
use onramp.Garlic.Sessions.{
  sam_session, setup_primary_session, setup_stream_sub_session, setup_stream_sub_session_with_ports,
  setup_hybrid2_session, setup_hybrid1_session,
}
use onramp.Garlic.Sessions.Owned.{IsOwned}
use onramp.Garlic.Sessions.Owned.Steps.{Keeps, bind-Keeps}
use onramp.Garlic.Sessions.Owned.Setup.{
  request-Keeps, sam_session-Keeps, setup_primary_session-Keeps, setup_stream_sub_session-Keeps,
  setup_stream_sub_session_with_ports-Keeps, setup_hybrid2_session-Keeps,
  setup_hybrid1_session-Keeps,
}
use onramp.Garlic.Calls.{
  primary_call, use_stream, listen_stream, listen_packet, listen_packet_hybrid1,
  listen_packet_with_mode, hybrid_mode_v1, hybrid_mode_v2, is_stream_protocol, is_datagram_protocol,
  listen_datagram, hybrid_packet_conn, as_datagram_session, old_listen, min_port, range_size,
  select_from_port, dial_parsed_to_port, at_most_one, dial_context_to_port, dial_parsed,
  dial_context,
}

-- `rand.Int` gives a number below the size of the range.
abbrev pub IsRandom : String ⊎ ℕ → Type 0
IsRandom (inl e) = Unit {0}
IsRandom (inr n) = n < range_size

pub primary_call-Keeps : (out : Outside) → Keeps (primary_call out)
unfolding primary_call
primary_call-Keeps out =
    bind-Keeps (sam_session out) (λ _. setup_primary_session out) (sam_session-Keeps out)
      (λ _. setup_primary_session-Keeps out)

use_stream-Keeps : (out : Outside) (r : ℕ → Request) (n : ℕ) → Keeps (use_stream out r n)
use_stream-Keeps out r n =
    bind-Keeps (request out (r n)) (λ _. pure n) (request-Keeps out (r n)) (λ _ g v. v)

pub listen_stream-Keeps : (out : Outside) → Keeps (listen_stream out)
unfolding listen_stream
listen_stream-Keeps out =
    bind-Keeps (sam_session out) (λ _. setup_stream_sub_session out >>= use_stream out listen)
      (sam_session-Keeps out)
      (λ _.
        bind-Keeps (setup_stream_sub_session out) (use_stream out listen)
          (setup_stream_sub_session-Keeps out) (use_stream-Keeps out listen))

pub listen_packet-Keeps : (out : Outside) → Keeps (listen_packet out)
unfolding listen_packet
listen_packet-Keeps out =
    bind-Keeps (sam_session out) (λ _. setup_hybrid2_session out) (sam_session-Keeps out)
      (λ _. setup_hybrid2_session-Keeps out)

listen_packet_hybrid1-Keeps : (out : Outside) → Keeps (listen_packet_hybrid1 out)
unfolding listen_packet_hybrid1
listen_packet_hybrid1-Keeps out =
    bind-Keeps (sam_session out) (λ _. setup_hybrid1_session out) (sam_session-Keeps out)
      (λ _. setup_hybrid1_session-Keeps out)

pub listen_packet_with_mode-Keeps :
    (out : Outside) (mode : ℕ) → Keeps (listen_packet_with_mode out mode)
unfolding listen_packet_with_mode
listen_packet_with_mode-Keeps out mode g v = elim (Bool-cases (mode == hybrid_mode_v1)) [
  | inl e ↦ rw (e, listen_packet_with_mode) (listen_packet_hybrid1-Keeps out g v)
  | inr e ↦ elim (Bool-cases (mode == hybrid_mode_v2)) [
    | inl q ↦ rw (e, q, listen_packet_with_mode) (listen_packet-Keeps out g v)
    | inr q ↦ rw (e, q, listen_packet_with_mode) (listen_packet-Keeps out g v)
  ]
]

listen_datagram-Keeps : (out : Outside) → Keeps (listen_datagram out)
unfolding listen_datagram as_datagram_session
listen_datagram-Keeps out =
    bind-Keeps (listen_packet out) (λ pk. as_datagram_session (hybrid_packet_conn pk))
      (listen_packet-Keeps out) (λ pk g v. v)

pub old_listen-Keeps : (out : Outside) (args : List String) → Keeps (old_listen out args)
unfolding old_listen
old_listen-Keeps out [] g v = listen_stream-Keeps out g v
old_listen-Keeps out (p ∷ rest) g v = elim (Bool-cases (is_stream_protocol p)) [
  | inl e ↦ rw (e, old_listen) (listen_stream-Keeps out g v)
  | inr e ↦ elim (Bool-cases (is_datagram_protocol p)) [
    | inl q ↦ rw (e, q, old_listen) (listen_datagram-Keeps out g v)
    | inr q ↦ rw (e, q, old_listen) (listen_stream-Keeps out g v)
  ]
]

chosen-IsOwned :
    (n : ℕ) (g : Garlic)
    → n < range_size
    → IsOwned g
    → IsOwned (record g { persistent_from_port = min_port + n })
chosen-IsOwned n g h v = record {
  owned = v.owned;
  primary_live = v.primary_live;
  stream_live = v.stream_live;
  ports_live = v.ports_live;
  hybrid2_live = v.hybrid2_live;
  hybrid1_live = v.hybrid1_live;
  port_ephemeral = inr (omega arith, omega arith);
}

select_from_port-Keeps :
    (out : Outside) (to : ℕ) (from_port : Option ℤ)
    → IsRandom out.random
    → Keeps (select_from_port out to from_port)
unfolding select_from_port
select_from_port-Keeps out to none h g v = elim (Bool-cases (to == 0)) [
  | inl e ↦ rw (e, select_from_port) v
  | inr e ↦ elim (Bool-cases (g.persistent_from_port == 0)) [
    | inr q ↦ rw (e, q, select_from_port) v
    | inl q ↦ elim (Sum-cases out.random) [
      | inl (x, r) ↦ rw (e, q, r, select_from_port) v
      | inr (n, r) ↦ rw (e, q, r, select_from_port) (chosen-IsOwned n g (rw r at h) v)
    ]
  ]
]
select_from_port-Keeps out to (some (pos port)) h g v = elim (Bool-cases (ltb max_port port)) [
  | inl e ↦ rw (e, select_from_port) v
  | inr e ↦ rw (e, select_from_port) v
]
select_from_port-Keeps out to (some (negsuc n)) h g v = v

dial_parsed_to_port-Keeps :
    (out : Outside) (host : Bytes) (to : ℕ) (from_port : Option ℤ)
    → IsRandom out.random
    → Keeps (dial_parsed_to_port out host to from_port)
unfolding dial_parsed_to_port
dial_parsed_to_port-Keeps out host to from_port h =
    bind-Keeps (select_from_port out to from_port)
      (λ from.
        sam_session out
        >> (setup_stream_sub_session_with_ports out (from, to)
            >>= use_stream out (λ n. dial n host)))
      (select_from_port-Keeps out to from_port h)
      (λ from.
        bind-Keeps (sam_session out)
          (λ _.
            setup_stream_sub_session_with_ports out (from, to)
            >>= use_stream out (λ n. dial n host))
          (sam_session-Keeps out)
          (λ _.
            bind-Keeps (setup_stream_sub_session_with_ports out (from, to))
              (use_stream out (λ n. dial n host))
              (setup_stream_sub_session_with_ports-Keeps out (from, to))
              (use_stream-Keeps out (λ n. dial n host))))

pub dial_context_to_port-Keeps :
    (lookup_port : Bytes → Option ℤ) (out : Outside) (addr : Bytes) (from_ports : List ℤ)
    → IsRandom out.random
    → Keeps (dial_context_to_port lookup_port out addr from_ports)
unfolding dial_context_to_port
dial_context_to_port-Keeps lookup_port out addr from_ports h g v =
    elim (Option-cases (at_most_one from_ports)) [
      | inl e ↦ rw (e, dial_context_to_port) v
      | inr (from_port, e) ↦ elim (Sum-cases (parse_i2p_addr_and_virtual_port lookup_port addr)) [
        | inl (x, q) ↦ rw (e, q, dial_context_to_port) v
        | inr ((host, to), q) ↦
            rw (e, q, dial_context_to_port) (dial_parsed_to_port-Keeps out host to from_port h g v)
      ]
    ]

dial_parsed-Keeps : (out : Outside) (host : Bytes) → Keeps (dial_parsed out host)
unfolding dial_parsed
dial_parsed-Keeps out host =
    bind-Keeps (sam_session out)
      (λ _. setup_stream_sub_session out >>= use_stream out (λ n. dial n host))
      (sam_session-Keeps out)
      (λ _.
        bind-Keeps (setup_stream_sub_session out) (use_stream out (λ n. dial n host))
          (setup_stream_sub_session-Keeps out) (use_stream-Keeps out (λ n. dial n host)))

pub dial_context-Keeps :
    (lookup_port : Bytes → Option ℤ) (out : Outside) (addr : Bytes)
    → IsRandom out.random
    → Keeps (dial_context lookup_port out addr)
unfolding dial_context
dial_context-Keeps lookup_port out addr h g v =
    elim (Sum-cases (parse_i2p_addr_and_virtual_port lookup_port addr)) [
      | inl (x, q) ↦ rw (q, dial_context) v
      | inr ((host, to), q) ↦ elim (Bool-cases (to == 0)) [
        | inl e ↦ rw (q, e, dial_context) (dial_parsed-Keeps out host g v)
        | inr e ↦ rw (q, e, dial_context) (dial_context_to_port-Keeps lookup_port out addr [] h g v)
      ]
    ]

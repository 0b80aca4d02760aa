-- ===== src/Garlic/Calls.antt =====
-- The calls of garlic.go that open listeners, packet connections and connections to an address. A listener
-- or a connection is the number of the session that it stands on.
pub mod Laws
pub mod Datagrams
pub mod Again
pub mod Redial
use onramp.Prelude.{
  ℕ, suc, ◌+◌, ◌==◌, ◌%◌, ltb, leb, Bool, true, false, not, ◌||◌, ◌⊎◌, inl, inr, Option, none, some,
  String, List, [], ◌∷◌, if◌then◌else◌, string_eq, Eq,
}
use onramp.Prelude.Int.{ℤ, pos, negsuc}
use onramp.Garlic.Ports.{
  Bytes, AddrError, parse_i2p_addr_and_virtual_port, validate_sam_virtual_port,
}
use onramp.Garlic.{
  StreamPortTuple, Request, listen, dial, Garlic, Error, refused, bad_address, bad_from_port,
  too_many_from_ports, panics, Outside, M, pure, raise, ◌>>=◌, ◌>>◌, request,
}
use onramp.Garlic.Sessions.{
  sam_session, setup_primary_session, setup_stream_sub_session, setup_stream_sub_session_with_ports,
  setup_hybrid2_session, setup_hybrid1_session,
}

-- `Primary`
unfoldable pub primary_call : Outside → M ℕ
unfolding sam_session setup_primary_session
primary_call out = sam_session out >> setup_primary_session out

-- Ask for a listener, or for a connection to an address, on a stream session.
abbrev pub use_stream : Outside → (ℕ → Request) → ℕ → M ℕ
use_stream out r n = request out (r n) >> pure n

-- `ListenStream`
unfoldable pub listen_stream : Outside → M ℕ
unfolding sam_session setup_stream_sub_session request
listen_stream out = sam_session out >> (setup_stream_sub_session out >>= use_stream out listen)

-- `ListenPacket`: the number of the hybrid2 session of the connection.
unfoldable pub listen_packet : Outside → M ℕ
unfolding sam_session setup_hybrid2_session
listen_packet out = sam_session out >> setup_hybrid2_session out

-- `ListenPacketHybrid1`
unfoldable pub listen_packet_hybrid1 : Outside → M ℕ
unfolding sam_session setup_hybrid1_session
listen_packet_hybrid1 out = sam_session out >> setup_hybrid1_session out

-- `ListenPacketHybrid2`
abbrev pub listen_packet_hybrid2 : Outside → M ℕ
listen_packet_hybrid2 = listen_packet

abbrev pub hybrid_mode_v1 : ℕ
hybrid_mode_v1 = 1

abbrev pub hybrid_mode_v2 : ℕ
hybrid_mode_v2 = 2

-- `ListenPacketWithMode`
unfoldable pub listen_packet_with_mode : Outside → ℕ → M ℕ
unfolding listen_packet_hybrid1 listen_packet
listen_packet_with_mode out mode g =
    if mode == hybrid_mode_v1
    then listen_packet_hybrid1 out g
    else if mode == hybrid_mode_v2
    then listen_packet_hybrid2 out g
    else listen_packet_hybrid2 out g

abbrev pub is_stream_protocol : String → Bool
is_stream_protocol p =
    string_eq.beq p "tcp" || string_eq.beq p "tcp6" || string_eq.beq p "st" || string_eq.beq p "st6"

abbrev pub is_datagram_protocol : String → Bool
is_datagram_protocol p =
    string_eq.beq p "udp" || string_eq.beq p "udp6" || string_eq.beq p "dg" || string_eq.beq p "dg6"

-- A `net.PacketConn` by the type of its value: the two of the program, each by its number.
pub data PacketConn : Type 0 where
  hybrid_packet_conn datagram_session : ℕ → PacketConn

-- The assertion that a packet connection is a `*sam3.DatagramSession`, which panics on another type, and
-- the listener of the session.
unfoldable pub as_datagram_session : PacketConn → M ℕ
as_datagram_session (datagram_session n) g = (inr n, g)
as_datagram_session (hybrid_packet_conn n) g = (inl panics, g)

-- The datagram branch of `OldListen`; `ListenPacket` gives a `*hybrid2.HybridPacketConn`.
unfoldable pub listen_datagram : Outside → M ℕ
unfolding listen_packet as_datagram_session
listen_datagram out = listen_packet out >>= λ pk. as_datagram_session (hybrid_packet_conn pk)

-- `OldListen`, and so `Listen` and `NewListener`
unfoldable pub old_listen : Outside → List String → M ℕ
unfolding listen_stream listen_datagram
old_listen out [] g = listen_stream out g
old_listen out (protocol ∷ rest) g =
    if is_stream_protocol protocol
    then listen_stream out g
    else if is_datagram_protocol protocol
    then listen_datagram out g
    else listen_stream out g

abbrev pub min_port : ℕ
min_port = 1024

-- The size of the range of `randomEphemeralPort`; `rand.Int` gives a number below it.
abbrev pub range_size : ℕ
range_size = 64512

-- `getOrCreatePersistentFromPort`
unfoldable pub get_or_create_persistent_from_port : Outside → M ℕ
get_or_create_persistent_from_port out g =
    if not (g.persistent_from_port == 0) then (inr g.persistent_from_port, g) else elim out.random [
      | inl e ↦ (inl (refused e), g)
      | inr n ↦ (inr (min_port + n), record g { persistent_from_port = min_port + n })
    ]

-- The choice of the local port in `DialContextToPort`.
unfoldable pub select_from_port : Outside → ℕ → Option ℤ → M ℕ
unfolding get_or_create_persistent_from_port validate_sam_virtual_port
select_from_port out to none g =
    if not (to == 0) then get_or_create_persistent_from_port out g else (inr 0, g)
select_from_port out to (some (pos port)) g =
    if validate_sam_virtual_port (pos port) then (inr port, g) else (inl bad_from_port, g)
select_from_port out to (some (negsuc n)) g = (inl bad_from_port, g)

-- `DialContextToPort`, once the address is parsed.
unfoldable pub dial_parsed_to_port : Outside → Bytes → ℕ → Option ℤ → M ℕ
unfolding sam_session setup_stream_sub_session_with_ports select_from_port request
dial_parsed_to_port out host to from_port = select_from_port out to from_port >>= λ from.
    sam_session out
    >> (setup_stream_sub_session_with_ports out (from, to) >>= use_stream out (λ n. dial n host))

-- The optional argument, which is a list in Go; `none` where there is more than one.
abbrev pub at_most_one : List ℤ → Option (Option ℤ)
at_most_one [] = some none
at_most_one (port ∷ []) = some (some port)
at_most_one (a ∷ b ∷ ports) = none

-- `DialContextToPort`
unfoldable pub dial_context_to_port : (Bytes → Option ℤ) → Outside → Bytes → List ℤ → M ℕ
unfolding parse_i2p_addr_and_virtual_port dial_parsed_to_port
dial_context_to_port lookup_port out addr from_ports g = elim (at_most_one from_ports) [
  | none ↦ (inl too_many_from_ports, g)
  | some from_port ↦ elim (parse_i2p_addr_and_virtual_port lookup_port addr) [
    | inl e ↦ (inl (bad_address e), g)
    | inr (host, to) ↦ dial_parsed_to_port out host to from_port g
  ]
]

-- `DialContext`, once the address is parsed, for the port 0.
unfoldable pub dial_parsed : Outside → Bytes → M ℕ
unfolding sam_session setup_stream_sub_session request
dial_parsed out host =
    sam_session out >> (setup_stream_sub_session out >>= use_stream out (λ n. dial n host))

-- `DialContext`
unfoldable pub dial_context : (Bytes → Option ℤ) → Outside → Bytes → M ℕ
unfolding parse_i2p_addr_and_virtual_port dial_context_to_port dial_parsed
dial_context lookup_port out addr g = elim (parse_i2p_addr_and_virtual_port lookup_port addr) [
  | inl e ↦ (inl (bad_address e), g)
  | inr (host, to) ↦
      if not (to == 0)
      then dial_context_to_port lookup_port out addr [] g
      else dial_parsed out host g
]

-- ===== src/Hybrid1/Frame.antt =====
-- The i2pd header: `buildI2PDFrame` of hybrid1/packetconn.go, and the part of
-- `processReceivedDatagram` of hybrid1/session.go that takes it off. The constants are those of
-- hybrid1/config.go.
pub mod Laws
use onramp.Prelude.{ℕ, ◌+◌, ◌-◌, ◌*◌, List, [], ◌∷◌, ◌++◌, length, drop, leb, if◌then◌else◌}
use onramp.Prelude.Bytes.{put_uint16, byte_at}

abbrev pub i2p_udp_max_mtu : ℕ
i2p_udp_max_mtu = 64 * 1024

abbrev pub i2pd_header_size : ℕ
i2pd_header_size = 4

abbrev pub i2pd_default_port : ℕ
i2pd_default_port = 0

abbrev pub i2pd_max_payload_size : ℕ
i2pd_max_payload_size = i2p_udp_max_mtu - i2pd_header_size

-- `buildI2PDFrame`
unfoldable pub build_i2pd_frame : List ℕ → ℕ → ℕ → List ℕ
build_i2pd_frame payload src_port dst_port = put_uint16 src_port ++ (put_uint16 dst_port ++ payload)

-- What the header says: the fields `Data`, `SourcePort` and `DestPort` of a `Hybrid1Datagram`.
pub record Parsed : Type 0 where
  pub payload : List ℕ
  pub source_port : ℕ
  pub dest_port : ℕ

unfoldable pub parse_i2pd_frame : List ℕ → Parsed
parse_i2pd_frame raw =
    if leb i2pd_header_size (length raw)
    then record {
      payload = drop i2pd_header_size raw;
      source_port = byte_at raw 0 * 256 + byte_at raw 1;
      dest_port = byte_at raw 2 * 256 + byte_at raw 3;
    }
    else record { payload = raw; source_port = i2pd_default_port; dest_port = i2pd_default_port }

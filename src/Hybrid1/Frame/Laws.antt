-- ===== src/Hybrid1/Frame/Laws.antt =====
-- The i2pd framing of hybrid1, in both directions.
use onramp.Prelude.{ℕ, ◌+◌, ◌^◌, ◌<◌, ◌≡◌, ◌⊎◌, List, ◌∷◌, length, arith}
use onramp.Prelude.Bytes.{IsBytes, put_uint16}
use onramp.Hybrid1.Frame.{build_i2pd_frame, parse_i2pd_frame, i2pd_header_size, i2pd_default_port}

-- A frame with 16-bit ports is read as its payload and its ports.
pub parse-build_i2pd_frame :
    (p : List ℕ) (src dst : ℕ)
    → src < 2 ^ 16
    → dst < 2 ^ 16
    → parse_i2pd_frame (build_i2pd_frame p src dst)
      ≡ record { payload = p; source_port = src; dest_port = dst }
unfolding parse_i2pd_frame build_i2pd_frame put_uint16
parse-build_i2pd_frame p src dst hs hd = ground arith

pub length-build_i2pd_frame :
    (p : List ℕ) (src dst : ℕ) → length (build_i2pd_frame p src dst) ≡ length p + i2pd_header_size
unfolding build_i2pd_frame put_uint16
length-build_i2pd_frame p src dst = omega arith

-- A list of bytes is the frame of the ports and the payload that are read from it, or it is
-- shorter than the header and read whole, with both ports 0.
build-parse_i2pd_frame :
    (raw : List ℕ)
    → IsBytes raw
    → let d = parse_i2pd_frame raw in
      (raw ≡ build_i2pd_frame d.payload d.source_port d.dest_port)
      ⊎ ((length raw < i2pd_header_size)
          × (d ≡ record {
            payload = raw;
            source_port = i2pd_default_port;
            dest_port = i2pd_default_port;
          }))
unfolding parse_i2pd_frame build_i2pd_frame put_uint16
build-parse_i2pd_frame (a ∷ b ∷ c ∷ d ∷ r) v = ground arith
build-parse_i2pd_frame p v = ground arith

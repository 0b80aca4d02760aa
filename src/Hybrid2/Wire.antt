-- ===== src/Hybrid2/Wire.antt =====
-- The ACK framing of hybrid2/sender.go: the marker byte, the sequence number, the payload.
pub mod Laws
use onramp.Prelude.{
  ℕ, ◌==◌, Bool, true, false, List, [], ◌∷◌, ◌++◌, length, take, drop, ltb, if◌then◌else◌,
}
use onramp.Prelude.Bytes.{put_uint64, uint_of, byte_at}

abbrev pub ack_request_marker : ℕ
ack_request_marker = 0xAC

abbrev pub ack_response_marker : ℕ
ack_response_marker = 0xAD

-- `encodeAckRequest`
unfoldable pub encode_ack_request : ℕ → List ℕ → List ℕ
encode_ack_request seq_num payload = ack_request_marker ∷ (put_uint64 seq_num ++ payload)

-- `encodeAckResponse`
unfoldable pub encode_ack_response : ℕ → List ℕ
encode_ack_response acked_seq_num = ack_response_marker ∷ put_uint64 acked_seq_num

-- What `decodeAckMessage` returns.
pub record Decoded : Type 0 where
  pub is_ack_request : Bool
  pub is_ack_response : Bool
  pub seq_num : ℕ
  pub payload : List ℕ

-- Not an ACK message: the payload as it came.
abbrev pub plain : List ℕ → Decoded
plain p = record { is_ack_request = false; is_ack_response = false; seq_num = 0; payload = p }

-- `decodeAckMessage`
unfoldable pub decode_ack_message : List ℕ → Decoded
decode_ack_message p =
    if ltb (length p) 9
    then plain p
    else if byte_at p 0 == ack_request_marker
    then record {
      is_ack_request = true;
      is_ack_response = false;
      seq_num = uint_of 0 (take 8 (drop 1 p));
      payload = drop 9 p;
    }
    else if byte_at p 0 == ack_response_marker
    then record {
      is_ack_request = false;
      is_ack_response = true;
      seq_num = uint_of 0 (take 8 (drop 1 p));
      payload = [];
    }
    else plain p

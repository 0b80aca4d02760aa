-- ===== src/Hybrid2/Wire/Laws.antt =====
-- What the receiver reads back of the messages of hybrid2/sender.go.
use onramp.Prelude.{
  ℕ, ◌<◌, ◌^◌, ◌≡◌, ◌≢◌, ◌⊎◌, true, false, List, [], ◌∷◌, ◌++◌, drop, length, arith,
}
use onramp.Prelude.Bytes.{IsBytes, byte_at, put_uint64, uint_of, uint_of-put_uint64}
use onramp.Hybrid2.Wire.{
  Decoded, encode_ack_request, encode_ack_response, decode_ack_message, plain, ack_request_marker,
  ack_response_marker,
}

-- An ACK request for a number below 2^64 decodes to that number and its payload.
pub decode-encode_ack_request :
    (seq : ℕ) (p : List ℕ)
    → seq < 2 ^ 64
    → decode_ack_message (encode_ack_request seq p)
      ≡ record { is_ack_request = true; is_ack_response = false; seq_num = seq; payload = p }
unfolding decode_ack_message encode_ack_request put_uint64
decode-encode_ack_request seq p h = ground (arith, uint_of-put_uint64 seq h)

-- An ACK response for a number below 2^64 decodes to that number, with no payload.
pub decode-encode_ack_response :
    (seq : ℕ)
    → seq < 2 ^ 64
    → decode_ack_message (encode_ack_response seq)
      ≡ record { is_ack_request = false; is_ack_response = true; seq_num = seq; payload = [] }
unfolding decode_ack_message encode_ack_response put_uint64
decode-encode_ack_response seq h = ground (arith, uint_of-put_uint64 seq h)

-- Eight bytes are the encoding of the word that they stand for.
put_uint64-uint_of :
    (a b c d e f g h : ℕ)
    → IsBytes (a ∷ b ∷ c ∷ d ∷ e ∷ f ∷ g ∷ h ∷ [])
    → put_uint64 (uint_of 0 (a ∷ b ∷ c ∷ d ∷ e ∷ f ∷ g ∷ h ∷ []))
      ≡ a ∷ b ∷ c ∷ d ∷ e ∷ f ∷ g ∷ h ∷ []
unfolding put_uint64 uint_of
put_uint64-uint_of a b c d e f g h v = ground arith

-- What a message is, by how it decodes.
abbrev pub Reads : List ℕ → Decoded → Type 0
Reads p r =
    ((r.is_ack_request ≡ true) × (p ≡ encode_ack_request r.seq_num r.payload))
    ⊎ ((r.is_ack_response ≡ true) × (p ≡ encode_ack_response r.seq_num ++ drop 9 p))
    ⊎ ((r ≡ plain p)
        × ((length p < 9)
            ⊎ ((byte_at p 0 ≢ ack_request_marker) × (byte_at p 0 ≢ ack_response_marker))))

-- A list of bytes that decodes as an ACK request is the encoding of the number and the payload
-- that are read, one that decodes as an ACK response starts with the encoding of the number that
-- is read, and any other is passed on whole: it is shorter than 9 bytes or its first byte is
-- neither marker.
pub decode_ack_message-Reads : (p : List ℕ) → IsBytes p → Reads p (decode_ack_message p)
unfolding decode_ack_message encode_ack_request encode_ack_response
decode_ack_message-Reads (m ∷ a ∷ b ∷ c ∷ d ∷ e ∷ f ∷ g ∷ h ∷ r) v =
    ground (arith, put_uint64-uint_of a b c d e f g h (omega arith))
decode_ack_message-Reads p v = ground arith

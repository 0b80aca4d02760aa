-- ===== src/Garlic/Ports/Laws.antt =====
-- What `parseI2PAddrAndVirtualPort` (garlic.go) accepts, and what it gives.
use onramp.Prelude.{
  ℕ, ◌≤◌, ◌≡◌, refl, ◌⊎◌, inr, true, false, ◌||◌, Option, none, some, [], ◌∷◌, ◌++◌, arith,
}
use onramp.Prelude.Int.{ℤ, pos}
use onramp.Garlic.Ports.{
  Bytes, max_port, has_byte, has_prefix, contains_text, split_last, i2p_text,
  parse_i2p_addr_and_virtual_port,
}

split_last-none : (c : ℕ) (t : Bytes) → has_byte c t ≡ false → split_last c t ≡ none
unfolding split_last
split_last-none c [] h = refl
split_last-none c (x ∷ t) h = ground (arith, split_last-none c t)

-- A text splits at a byte that does not follow.
split_last-append :
    (c : ℕ) (s t : Bytes) → has_byte c t ≡ false → split_last c (s ++ c ∷ t) ≡ some (s, t)
unfolding split_last
split_last-append c [] t h = ground (arith, split_last-none c t h)
split_last-append c (x ∷ s) t h = ground (arith, split_last-append c s t h)

has_byte-append : (c : ℕ) (s t : Bytes) → has_byte c (s ++ c ∷ t) ≡ true
has_byte-append c [] t = ground arith
has_byte-append c (x ∷ s) t = ground (arith, has_byte-append c s t)

unbracketed : (s : Bytes) → has_byte b'[' s ≡ false → has_prefix s (b'[' ∷ []) ≡ false
unbracketed [] h = refl
unbracketed (x ∷ s) h = ground arith

-- An address that is read gives a host that contains ".i2p" and a port of at most 65535, and
-- where the address has no colon, the host is the address and the port is 0.
pub parse_i2p_addr-IsPort :
    (lookup_port : Bytes → Option ℤ) (addr host : Bytes) (port : ℕ)
    → parse_i2p_addr_and_virtual_port lookup_port addr ≡ inr (host, port)
    → (contains_text host i2p_text ≡ true)
      × (port ≤ max_port)
      × ((has_byte b':' addr ≡ true) ⊎ ((host ≡ addr) × (port ≡ 0)))
unfolding parse_i2p_addr_and_virtual_port
parse_i2p_addr-IsPort lookup_port addr host port e = ground arith

-- Where a host contains ".i2p", host and port text have no colon and no bracket, and the system
-- reads the port text as a port of at most 65535, the address of the host, a colon and the port
-- text is read as that host and that port.
pub parse_i2p_addr-append :
    (lookup_port : Bytes → Option ℤ) (host text : Bytes) (port : ℕ)
    → contains_text host i2p_text ≡ true
    → has_byte b':' host || has_byte b'[' host || has_byte b']' host ≡ false
    → has_byte b':' text || has_byte b'[' text || has_byte b']' text ≡ false
    → lookup_port text ≡ some (pos port)
    → port ≤ max_port
    → parse_i2p_addr_and_virtual_port lookup_port (host ++ b':' ∷ text) ≡ inr (host, port)
unfolding parse_i2p_addr_and_virtual_port
parse_i2p_addr-append lookup_port host text port i h t l p =
    ground
      (arith, has_byte-append b':' host text, split_last-append b':' host text, unbracketed host)

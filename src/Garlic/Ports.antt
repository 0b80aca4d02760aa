-- ===== src/Garlic/Ports.antt =====
-- Virtual ports in garlic.go: `validateSAMVirtualPort` and `parseI2PAddrAndVirtualPort`, with what they
-- use of Go's packages `strings` and `net`. A text is the list of its bytes. `lookup_port` is
-- `net.LookupPort` for "tcp", which reads the services of the system.
pub mod Laws
use onramp.Prelude.{
  ℕ, ◌+◌, ◌==◌, ltb, Bool, true, false, not, ◌&&◌, ◌||◌, Option, none, some, ◌⊎◌, inl, inr, List,
  [], ◌∷◌, ◌++◌, if◌then◌else◌,
}
use onramp.Prelude.Int.{ℤ, pos, negsuc}

abbrev pub Bytes : Type 0
Bytes = List ℕ

abbrev pub max_port : ℕ
max_port = 65535

-- `validateSAMVirtualPort`; `true` is no error.
unfoldable pub validate_sam_virtual_port : ℤ → Bool
validate_sam_virtual_port (pos port) = not (ltb max_port port)
validate_sam_virtual_port (negsuc n) = false

-- `strings.Count(s, c) != 0` and `strings.IndexByte(s, c) >= 0`, for one byte.
abbrev pub has_byte : ℕ → Bytes → Bool
has_byte c [] = false
has_byte c (x ∷ s) = (x == c) || has_byte c s

-- `strings.HasPrefix(s, p)`
abbrev pub has_prefix : Bytes → Bytes → Bool
has_prefix s [] = true
has_prefix [] (c ∷ p) = false
has_prefix (x ∷ s) (c ∷ p) = x == c && has_prefix s p

-- `strings.Contains(s, p)`
unfoldable pub contains_text : Bytes → Bytes → Bool
contains_text [] p = has_prefix [] p
contains_text (x ∷ s) p = has_prefix (x ∷ s) p || contains_text s p

-- The text before and after the last byte `c`.
unfoldable pub split_last : ℕ → Bytes → Option (Bytes × Bytes)
split_last c [] = none
split_last c (x ∷ s) = elim (split_last c s) [
  | some (before, after) ↦ some (x ∷ before, after)
  | none ↦ if x == c then some ([], s) else none
]

-- The text before and after the first byte `c`.
unfoldable pub split_first : ℕ → Bytes → Option (Bytes × Bytes)
split_first c [] = none
split_first c (x ∷ s) =
    if x == c
    then some ([], s)
    else elim (split_first c s) [ some (before, after) ↦ some (x ∷ before, after) | none ↦ none ]

-- `net.SplitHostPort` where the text starts with a bracket: `rest` is what follows it, up to the last
-- colon.
abbrev pub bracketed : Bytes → Bytes → Option (Bytes × Bytes)
bracketed rest port = elim (split_first b']' rest) [
  | some (host, []) ↦
      if has_byte b'[' host || has_byte b'[' port || has_byte b']' port
      then none
      else some (host, port)
  | _ ↦ none
]

-- `net.SplitHostPort` once the last colon is found; `none` is an error.
abbrev pub host_and_port : Bytes → Bytes → Option (Bytes × Bytes)
host_and_port before port =
    if has_prefix before (b'[' ∷ [])
    then elim before [ [] ↦ none | _ ∷ rest ↦ bracketed rest port ]
    else if has_byte b':' before
        || has_byte b'[' before
        || has_byte b']' before
        || has_byte b'[' port
        || has_byte b']' port
    then none
    else some (before, port)

-- `net.SplitHostPort`
unfoldable pub split_host_port : Bytes → Option (Bytes × Bytes)
unfolding split_last split_first
split_host_port s = elim (split_last b':' s) [
  | none ↦ none
  | some (before, port) ↦ host_and_port before port
]

pub data AddrError : Type 0 where
  not_i2p invalid_address invalid_port : AddrError

-- ".i2p"
abbrev pub i2p_text : Bytes
i2p_text = b'.' ∷ b'i' ∷ b'2' ∷ b'p' ∷ []

-- The end of `parseI2PAddrAndVirtualPort` once the address is split.
abbrev pub with_port : (Bytes → Option ℤ) → Bytes → Bytes → AddrError ⊎ (Bytes × ℕ)
with_port lookup_port host port_str =
    if not (contains_text host i2p_text) then inl not_i2p else elim (lookup_port port_str) [
      | none ↦ inl invalid_port
      | some (negsuc n) ↦ inl invalid_port
      | some (pos port) ↦
          if validate_sam_virtual_port (pos port) then inr (host, port) else inl invalid_port
    ]

-- `parseI2PAddrAndVirtualPort`
unfoldable pub parse_i2p_addr_and_virtual_port :
    (Bytes → Option ℤ) → Bytes → AddrError ⊎ (Bytes × ℕ)
unfolding split_host_port contains_text validate_sam_virtual_port
parse_i2p_addr_and_virtual_port lookup_port addr =
    if not (has_byte b':' addr)
    then (if not (contains_text addr i2p_text) then inl not_i2p else inr (addr, 0))
    else elim (split_host_port addr) [
      | none ↦ inl invalid_address
      | some (host, port_str) ↦ with_port lookup_port host port_str
    ]

-- ===== src/Garlic/Naming.antt =====
-- The names of a `Garlic` in garlic.go: the ids of its sessions, `Network` and `String`. A text is the list
-- of its bytes.
pub mod Laws
use onramp.Prelude.{
  ℕ, zero, suc, ◌+◌, ◌*◌, ◌/◌, ◌%◌, ltb, ◌==◌, Bool, true, false, ◌≡◌, Option, none, some, String,
  List, [], ◌∷◌, ◌++◌, if◌then◌else◌, bytes_eq, length, take, ◌-◌,
}
use onramp.Prelude.Text.{codes}
use onramp.Garlic.{Garlic}
use onramp.Garlic.Ports.{Bytes}

-- `getName`
unfoldable pub get_name : Bytes → Bytes
get_name [] = codes "onramp-garlic"
get_name (c ∷ cs) = c ∷ cs

-- The digits of a number as `%d` prints it, before those of `out`. Each round divides by ten, so a fuel
-- above the number is enough.
unfoldable pub digits : ℕ → ℕ → Bytes → Bytes
digits zero n out = out
digits (suc fuel) n out = elim (ltb n 10) [
  | true ↦ (b'0' + n) ∷ out
  | false ↦ digits fuel (n / 10) ((b'0' + n % 10) ∷ out)
]

unfoldable pub decimal : ℕ → Bytes
unfolding digits
decimal n = digits (suc n) n []

-- The sessions that a `Garlic` opens under its PRIMARY session.
pub data SubSession : Type 0 where
  stream hybrid2 hybrid1 : SubSession
  stream_by_port : ℕ → ℕ → SubSession

abbrev pub ports_text : ℕ → ℕ → Bytes
ports_text from to = decimal from ++ b'-' ∷ decimal to

-- What `getStreamSubID`, `getHybrid2ID`, `getHybrid1ID` and `setupStreamSubSessionWithPorts` put behind the
-- name.
abbrev pub suffix : SubSession → Bytes
suffix stream = codes "-stream"
suffix hybrid2 = codes "-hybrid2"
suffix hybrid1 = codes "-hybrid1"
suffix (stream_by_port from to) = codes "-stream-" ++ ports_text from to

-- The id of a session under the PRIMARY session, whose own id is the name.
unfoldable pub sub_id : Bytes → SubSession → Bytes
unfolding get_name decimal
sub_id name s = get_name name ++ suffix s

-- `Network`
unfoldable pub network : Garlic → String
network g = elim g.stream_sub [
  | some _ ↦ "i2p-stream"
  | none ↦ elim g.hybrid2_sub [
    | some _ ↦ "i2p-hybrid2"
    | none ↦ elim g.hybrid1_sub [ some _ ↦ "i2p-hybrid1" | none ↦ "i2p-datagram" ]
  ]
]

-- The texts that i2pkeys makes of an address.
pub record AddressTexts : Type 0 where
  pub hash_text : String → Bytes
  pub hash_bytes : String → Bytes
  pub base32 : String → Bytes
  pub base64 : String → Bytes
  pub bytes : String → Bytes

-- `strings.TrimSuffix`
abbrev pub trim_suffix : Bytes → Bytes → Bytes
trim_suffix [] s = []
trim_suffix (c ∷ t) s = if bytes_eq.beq (c ∷ t) s then [] else c ∷ trim_suffix t s

-- `addrString`
abbrev pub addr_string : Bool → Bytes → Bytes
addr_string torrent_mode addr = if torrent_mode then addr ++ codes ".i2p" else addr

-- The text of an address for an address mode; the constants DEST_BASE32 to DEST_BASE64_BYTES are 0 to 5.
unfoldable pub dest_text : AddressTexts → ℕ → String → Bytes
dest_text l mode address =
    if mode == 1
    then l.hash_text address
    else if mode == 2
    then l.hash_bytes address
    else if mode == 3
    then trim_suffix (l.base32 address) (codes ".b32.i2p")
    else if mode == 0
    then l.base32 address
    else if mode == 4
    then l.base64 address
    else if mode == 5
    then l.bytes address
    else l.hash_text address

-- `String`
unfoldable pub string : AddressTexts → ℕ → Bool → Garlic → Bytes
unfolding dest_text
string l mode torrent_mode g = elim g.service_keys [
  | none ↦ []
  | some address ↦ addr_string torrent_mode (dest_text l mode address)
]

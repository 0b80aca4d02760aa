-- ===== src/Hybrid1/Session.antt =====
-- `Hybrid1Session` of hybrid1/types.go and hybrid1/session.go: the table of senders, a round of the
-- receive loop, and the lifecycle. Each function takes the readings of the clock that it makes.
pub mod Laws
use onramp.Prelude.{
  ℕ, ◌+◌, Bool, true, false, not, ◌&&◌, Option, none, some, String, List, [], ◌∷◌, ◌++◌, length,
  ltb, if◌then◌else◌, bytes_eq, string_eq,
}
use onramp.Prelude.Map.{Map, lookup, insert, retain}
use onramp.Prelude.Clock.{since}
use onramp.Keys.{Keys}
use onramp.Hybridcommon.Maps.{get_or_create_map_value}
use onramp.Hybrid1.Frame.{Parsed, parse_i2pd_frame}

abbrev pub SenderHash : Type 0
SenderHash = List ℕ

-- 10 * time.Minute, in nanoseconds
abbrev pub hash_expiry_duration : ℕ
hash_expiry_duration = 600_000_000_000

abbrev pub default_receive_channel_size : ℕ
default_receive_channel_size = 100

-- The capacity of recvErrChan.
abbrev pub error_channel_size : ℕ
error_channel_size = 10

pub data Error : Type 0 where
  session_closed timeout payload_too_large : Error
  sam_error : String → Error

pub record SenderState : Type 0 where
  pub destination : String
  pub counter : ℕ
  pub last_send_time : ℕ

pub record ReceiverMapping : Type 0 where
  pub hash : SenderHash
  pub destination : String
  pub port : ℕ
  pub first_seen : ℕ
  pub last_refresh : ℕ

pub record Hybrid1Datagram : Type 0 where
  pub payload : List ℕ
  pub source : String
  pub source_port : ℕ
  pub dest_port : ℕ
  pub timestamp : ℕ

pub record Hybrid1Session : Type 0 where
  pub id : String
  pub local_addr : String
  pub local_port : ℕ
  pub sender_states : Map String SenderState
  pub receiver_map : Map SenderHash ReceiverMapping
  -- recvChan and recvErrChan, oldest first
  pub recv_chan : List Hybrid1Datagram
  pub recv_err_chan : List Error
  -- recvStopChan and cleanupDone, once closed
  pub recv_stop : Bool
  pub cleanup_done : Bool
  pub closed : Bool
  pub datagram_closed : Bool

-- `computeSenderHash`. `text_bytes` is `[]byte(string(addr))`.
unfoldable pub compute_sender_hash : Keys → (String → List ℕ) → String → SenderHash
compute_sender_hash k text_bytes addr = elim (k.to_bytes addr) [
  | some bytes ↦ k.sha256 bytes
  | none ↦ k.sha256 (text_bytes addr)
]

-- `updateReceiverMapping`, on the table
unfoldable pub update_receiver_mapping :
    (ℕ → ℕ)
    → SenderHash
    → String
    → ℕ
    → Map SenderHash ReceiverMapping
    → Map SenderHash ReceiverMapping
update_receiver_mapping now hash source port m = elim (lookup hash m) [
  | none ↦
      insert hash
        (record {
          hash = hash;
          destination = source;
          port = port;
          first_seen = now 0;
          last_refresh = now 1;
        })
        m
  | some mapping ↦ insert hash (record mapping { last_refresh = now 0; port = port }) m
]

-- `removeExpiredMappings`, on the table
unfoldable pub remove_expired_mappings :
    ℕ → Map SenderHash ReceiverMapping → Map SenderHash ReceiverMapping
remove_expired_mappings now m =
    retain (λ _ r. not (ltb hash_expiry_duration (since now r.last_refresh))) m

-- `processReceivedDatagram`: the datagram, and the session with its mapping updated.
unfoldable pub process_received_datagram :
    Keys
    → (String → List ℕ)
    → (ℕ → ℕ)
    → List ℕ
    → String
    → Hybrid1Session
    → Hybrid1Datagram × Hybrid1Session
process_received_datagram k text_bytes now raw source h =
    let d = parse_i2pd_frame raw in
    let hash = compute_sender_hash k text_bytes source in
    (
      record {
        payload = d.payload;
        source = source;
        source_port = d.source_port;
        dest_port = d.dest_port;
        timestamp = now 0;
      },
      record h {
        receiver_map =
            update_receiver_mapping (λ i. now (1 + i)) hash source d.source_port h.receiver_map;
      },
    )

-- The end of a round of `receiveLoop`: the session, and whether the loop ends.
pub record Round : Type 0 where
  pub session : Hybrid1Session
  pub stop : Bool

-- A round of `receiveLoop` whose receive fails.
unfoldable pub receive_failed : String → Hybrid1Session → Round
receive_failed e h =
    if h.closed
    then record { session = h; stop = true }
    else if ltb (length h.recv_err_chan) error_channel_size
    then record {
      session = record h { recv_err_chan = h.recv_err_chan ++ sam_error e ∷ [] };
      stop = false;
    }
    else record { session = h; stop = false }

-- A round of `receiveLoop` with a datagram; `none` while the channel is full and the loop is not
-- stopped. `prefers_stop` is the choice of `select` where both are possible.
unfoldable pub receive_arrived :
    Keys → (String → List ℕ) → (ℕ → ℕ) → Bool → List ℕ → String → Hybrid1Session → Option Round
receive_arrived k text_bytes now prefers_stop raw source h =
    let (dg, h') = process_received_datagram k text_bytes now raw source h in
    let has_room = ltb (length h'.recv_chan) default_receive_channel_size in
    if h'.recv_stop && (if prefers_stop then true else not has_room)
    then some (record { session = h'; stop = true })
    else if has_room
    then some (record { session = record h' { recv_chan = h'.recv_chan ++ dg ∷ [] }; stop = false })
    else none

-- `getSenderState`
unfoldable pub get_sender_state : Keys → String → Hybrid1Session → SenderState × Hybrid1Session
unfolding get_or_create_map_value
get_sender_state k dest h =
    let (s, states) =
      get_or_create_map_value (k.base64 dest)
        (record { destination = dest; counter = 0; last_send_time = 0 }) h.sender_states in
    (s, record h { sender_states = states })

-- `close(ch)`: a panic, `none`, on a channel that is closed.
abbrev pub close_channel : Bool → Option Bool
close_channel true = none
close_channel false = some true

infixl 5 ◌>>=◌
abbrev ◌>>=◌ {ℓ κ} : {A : Type ℓ} {B : Type κ} → Option A → (A → Option B) → Option B
none >>= f = none
some a >>= f = f a

-- `Hybrid1Session.Close`; `none` is a panic.
unfoldable pub close : Hybrid1Session → Option Hybrid1Session
close h = if h.closed then some h else (do
  stopped ← close_channel h.recv_stop
  finished ← close_channel h.cleanup_done
  some (record h {
    closed = true;
    recv_stop = stopped;
    datagram_closed = true;
    cleanup_done = finished;
  }))

-- ===== src/Hybrid2/Session.antt =====
-- `HybridSession` of hybrid2/types.go: its state, and its lifecycle in hybrid2/session.go.
pub mod Lifecycle
use onramp.Prelude.{
  ℕ, Bool, true, false, Option, none, some, String, List, [], ◌∷◌, length, if◌then◌else◌,
}
use onramp.Prelude.Map.{Map}
use onramp.Prelude.Float.{Floats}
use onramp.Hybrid2.Sender.{SenderState}
use onramp.Hybrid2.Receiver.{SenderHash, Mappings}

-- The errors of the package. A text is the error that is wrapped.
pub data Error : Type 0 where
  session_closed packet_conn_closed timeout : Error
  datagram2_send forced_datagram2_send datagram3_send ack_response_send : String → Error
  datagram2_receive datagram3_receive : String → Error
  ack_response : Error → Error

pub record HybridDatagram : Type 0 where
  pub payload : List ℕ
  pub source : String
  pub source_hash : SenderHash
  pub was_datagram2 : Bool
  pub timestamp : ℕ

-- A channel that only signals, by being closed, is `true` once it is closed. The legacy fields of the
-- struct, which nothing reads, are left out, and so are the handles of the SAM library.
pub record HybridSession (F : Floats) : Type 0 where
  pub id : String
  pub local_addr : String
  pub sender_states : Map String (SenderState F)
  pub mappings : Mappings
  -- recvChan and recvErrChan, oldest first
  pub recv_chan : List HybridDatagram
  pub recv_err_chan : List Error
  -- recvStopChan, receiverState.stopCleanup, ackCleanupStop, cleanupDone
  pub recv_stop : Bool
  pub stop_cleanup : Bool
  pub ack_cleanup_stop : Bool
  pub cleanup_done : Bool
  pub closed : Bool
  -- whether the subsessions have been closed
  pub datagram2_closed : Bool
  pub datagram3_closed : Bool

-- `close(ch)`: a panic, `none`, on a channel that is closed.
abbrev pub close_channel : Bool → Option Bool
close_channel true = none
close_channel false = some true

infixl 5 ◌>>=◌
abbrev pub ◌>>=◌ {ℓ κ} : {A : Type ℓ} {B : Type κ} → Option A → (A → Option B) → Option B
none >>= f = none
some a >>= f = f a

module _ {F : Floats} where
  -- `ensureSessionOpen`; `none` is success.
  abbrev pub ensure_session_open : HybridSession F → Option Error
  ensure_session_open h = if h.closed then some session_closed else none

  -- `stopReceiveLoops`
  unfoldable pub stop_receive_loops : HybridSession F → Option (HybridSession F)
  stop_receive_loops h = do
    recv ← close_channel h.recv_stop
    receiver ← close_channel h.stop_cleanup
    some (record h { recv_stop = recv; stop_cleanup = receiver })

  -- `closeSubsessions`
  abbrev pub close_subsessions : HybridSession F → HybridSession F
  close_subsessions h = record h { datagram2_closed = true; datagram3_closed = true }

  -- `HybridSession.Close`; `none` is a panic.
  unfoldable pub close : HybridSession F → Option (HybridSession F)
  unfolding stop_receive_loops
  close h = if h.closed then some h else (do
    stopped ← stop_receive_loops (record h { closed = true })
    ack ← close_channel stopped.ack_cleanup_stop
    let without = close_subsessions (record stopped { ack_cleanup_stop = ack })
    finished ← close_channel without.cleanup_done
    some (record without { cleanup_done = finished }))

  -- `SenderStateCount`
  abbrev pub sender_state_count : HybridSession F → ℕ
  sender_state_count h = length h.sender_states

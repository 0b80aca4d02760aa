-- ===== src/Hybrid2/Running.antt =====
-- The goroutines of an open session: `datagram2ReceiveLoop`, `datagram3ReceiveLoop` and `cleanupLoop` of
-- hybrid2/receiver.go and `ackCleanupLoop` of hybrid2/session.go, with the calls of the application
-- between their steps. A round of a loop is one step once its datagram or its error has come.
pub mod Signals
pub mod Kept
pub mod Laws
pub mod Waiting
pub mod Ending
use onramp.Prelude.{ℕ, ◌≡◌, ◌⊎◌, Bool, true, false, Option, none, some, String, List, if◌then◌else◌}
use onramp.Prelude.Float.{Floats}
use onramp.Keys.{Keys}
use onramp.Hybrid2.Receiver.{SenderHash, remove_expired_mappings}
use onramp.Hybrid2.Session.{HybridSession, HybridDatagram, Error, close}
use onramp.Hybrid2.Send.{Network, send_datagram, force_datagram2}
use onramp.Hybrid2.Receive.{Incoming, Round, Receives, receive_datagram2, receive_datagram3}
use onramp.Hybrid2.Opening.{cleanup_all_stale_unacked}

-- Where a receive loop is: at its `select`, in the receive of its round, or at its end. The datagram3 loop
-- closes its reader as it ends.
pub data Place : Type 0 where
  selecting receiving ended : Place

pub record Running (F : Floats) : Type 0 where
  pub session : HybridSession F
  pub loop2 : Place
  pub loop3 : Place
  -- whether the loops with a ticker run
  pub table_loop : Bool
  pub ack_loop : Bool

-- The session of a constructor that succeeds, with `startReceiveLoops` and the other two loops.
abbrev pub started : {F : Floats} → HybridSession F → Running F
started h = record {
  session = h;
  loop2 = selecting;
  loop3 = selecting;
  table_loop = true;
  ack_loop = true;
}

-- The `select` of a receive loop, whose default is taken where the signal is not given.
abbrev pub after_select : Bool → Place
after_select recv_stop = if recv_stop then ended else receiving

-- The end of a round.
abbrev pub after_round : Bool → Place
after_round stop = if stop then ended else selecting

module _ {F : Floats} where
  abbrev pub end_round2 : Running F → Option (Round F) → Option (Running F)
  end_round2 r none = none
  end_round2 r (some x) = some (record r { session = x.session; loop2 = after_round x.stop })

  abbrev pub end_round3 : Running F → Option (Round F) → Option (Running F)
  end_round3 r none = none
  end_round3 r (some x) = some (record r { session = x.session; loop3 = after_round x.stop })

  -- The body of `datagram2ReceiveLoop` after its `select`; `none` while its round waits.
  unfoldable pub round2 :
      Keys → Network → (ℕ → ℕ) → Bool → Incoming String → Running F → Option (Running F)
  unfolding receive_datagram2
  round2 k net now prefers_stop i r =
      end_round2 r (receive_datagram2 k net now prefers_stop i r.session)

  -- The body of `datagram3ReceiveLoop` after its `select`.
  unfoldable pub round3 :
      (SenderHash → Option String)
      → (ℕ → ℕ)
      → Bool
      → Incoming SenderHash
      → Running F
      → Option (Running F)
  unfolding receive_datagram3
  round3 resolve now prefers_stop i r =
      end_round3 r (receive_datagram3 resolve now prefers_stop i r.session)

  -- A tick of `cleanupLoop`.
  abbrev pub clean_table : ℕ → Running F → Running F
  clean_table now r = record r {
    session = record r.session { mappings = remove_expired_mappings now r.session.mappings };
  }

  -- A tick of `ackCleanupLoop`.
  abbrev pub clean_acks : (ℕ → ℕ) → Running F → Running F
  clean_acks now r = record r { session = cleanup_all_stale_unacked now r.session }

  -- A call of the application that changes the session.
  abbrev pub with_session : HybridSession F → Running F → Running F
  with_session h r = record r { session = h }

-- The steps: those of the four loops, each of which may take a tick or its signal where both are there,
-- `SendDatagram`, `ForceDatagram2`, a `ReceiveDatagram` that returns, and `Close`. `resolve` is the
-- library's `ResolveSource`.
pub data Step {F : Floats} (k : Keys) (resolve : SenderHash → Option String)
    : Running F → Running F → Type 0 where
  selects2 :
      (r : Running F)
      → r.loop2 ≡ selecting
      → Step k resolve r (record r { loop2 = after_select r.session.recv_stop })
  selects3 :
      (r : Running F)
      → r.loop3 ≡ selecting
      → Step k resolve r (record r { loop3 = after_select r.session.recv_stop })
  receives2 :
      (net : Network) (now : ℕ → ℕ) (prefers_stop : Bool) (i : Incoming String) (r r' : Running F)
      → r.loop2 ≡ receiving
      → round2 k net now prefers_stop i r ≡ some r'
      → Step k resolve r r'
  receives3 :
      (now : ℕ → ℕ) (prefers_stop : Bool) (i : Incoming SenderHash) (r r' : Running F)
      → r.loop3 ≡ receiving
      → round3 resolve now prefers_stop i r ≡ some r'
      → Step k resolve r r'
  ticks_table :
      (now : ℕ) (r : Running F) → r.table_loop ≡ true → Step k resolve r (clean_table now r)
  ends_table :
      (r : Running F)
      → r.table_loop ≡ true
      → r.session.stop_cleanup ≡ true
      → Step k resolve r (record r { table_loop = false })
  ticks_acks :
      (now : ℕ → ℕ) (r : Running F) → r.ack_loop ≡ true → Step k resolve r (clean_acks now r)
  ends_acks :
      (r : Running F)
      → r.ack_loop ≡ true
      → r.session.ack_cleanup_stop ≡ true
      → Step k resolve r (record r { ack_loop = false })
  sends :
      (net : Network) (now : ℕ → ℕ) (payload : List ℕ) (dest : String) (r : Running F)
      → Step k resolve r (with_session (send_datagram k net now payload dest r.session).state r)
  forces :
      (net : Network) (now : ℕ → ℕ) (payload : List ℕ) (dest : String) (r : Running F)
      → Step k resolve r (with_session (force_datagram2 k net now payload dest r.session).state r)
  takes :
      (x : Error ⊎ HybridDatagram) (h : HybridSession F) (r : Running F)
      → Receives r.session h x
      → Step k resolve r (with_session h r)
  closes :
      (h : HybridSession F) (r : Running F)
      → close r.session ≡ some h
      → Step k resolve r (with_session h r)

-- Any number of steps.
pub data Reach {F : Floats} (k : Keys) (resolve : SenderHash → Option String) (r : Running F)
    : Running F → Type 0 where
  here : Reach k resolve r r
  next : {r' r'' : Running F} → Reach k resolve r r' → Step k resolve r' r'' → Reach k resolve r r''

-- ===== src/Hybrid2/Session/Lifecycle.antt =====
-- Closing a session (hybrid2/session.go).
use onramp.Prelude.{◌≡◌, true, some, arith}
use onramp.Prelude.Float.{Floats}
use onramp.Hybrid2.Session.{HybridSession, close}

module _ {F : Floats} where
  -- The signals are given exactly when the session is closed.
  pub record IsConsistent (h : HybridSession F) : Type 0 where
    pub stops : h.recv_stop ≡ h.closed
    pub cleans : h.stop_cleanup ≡ h.closed
    pub acks : h.ack_cleanup_stop ≡ h.closed
    pub finishes : h.cleanup_done ≡ h.closed
    pub frees2 : h.datagram2_closed ≡ h.closed
    pub frees3 : h.datagram3_closed ≡ h.closed

  abbrev pub shut : HybridSession F → HybridSession F
  shut h = record h {
    recv_stop = true;
    stop_cleanup = true;
    ack_cleanup_stop = true;
    cleanup_done = true;
    closed = true;
    datagram2_closed = true;
    datagram3_closed = true;
  }

  -- `Close` does not panic on a session whose signals are given exactly when it is closed: it
  -- leaves the session closed with every signal given and both subsessions closed, and so it is
  -- again such a session.
  pub close_lem :
      (h : HybridSession F) → IsConsistent h → (close h ≡ some (shut h)) × IsConsistent (shut h)
  unfolding close
  close_lem h v = ground arith

  pub close_twice : (h : HybridSession F) → IsConsistent h → close (shut h) ≡ close h
  unfolding close
  close_twice h v = ground arith

-- ===== src/Hybrid2/Running/Laws.antt =====
-- What holds of a running session (Hybrid2/Running) whatever its goroutines and the application do.
use onramp.Prelude.{
  ◌≡◌, refl, sym, ◌∙◌, Bool, true, false, Option, none, some, some-injective, String, arith,
}
use mathlib.Core.Path.{subst}
use onramp.Prelude.Float.{Floats}
use onramp.Keys.{Keys}
use onramp.Hybrid2.Receiver.{SenderHash, compute_sender_hash}
use onramp.Hybrid2.Session.{HybridSession, close}
use onramp.Hybrid2.Session.Lifecycle.{IsConsistent, shut, close_lem}
use onramp.Hybrid2.Send.{send_datagram, send_state, force_state, force_datagram2}
use onramp.Hybrid2.Receive.{Round, receive_datagram2, receive_datagram3}
use onramp.Hybrid2.Receive.Invariant.{
  IsReceiving, Keeps, receive_datagram2-IsReceiving, receive_datagram3-IsReceiving,
}
use onramp.Hybrid2.Opening.{opened_session}
use onramp.Hybrid2.Opening.Laws.{opened_session-IsConsistent, opened_session-IsReceiving}
use onramp.Hybrid2.Running.{
  ended, Running, started, end_round2, end_round3, round2, round3, Step, selects2, selects3,
  receives2, receives3, ticks_table, ends_table, ticks_acks, ends_acks, sends, forces, takes,
  closes, Reach, here, next, after_select, after_round, with_session,
}
use onramp.Hybrid2.Running.Signals.{
  signals, signals-IsConsistent, Quiet, receive_datagram2-Quiet, receive_datagram3-Quiet,
}
use onramp.Hybrid2.Running.Kept.{
  on_sender_state-IsReceiving, on_sender_state-signals, Receives-IsReceiving, cleaned-IsReceiving,
  acks-IsReceiving,
}

module _ {F : Floats} (k : Keys) where
  -- The session is as its loops and `Close` leave it, and a loop is at its end only where the session
  -- has been closed.
  pub record IsRunning (r : Running F) : Type 0 where
    pub writes : IsReceiving k r.session
    pub consistent : IsConsistent r.session
    pub ends2 : r.loop2 ≡ ended → r.session.closed ≡ true
    pub ends3 : r.loop3 ≡ ended → r.session.closed ≡ true
    pub no_ticks : r.table_loop ≡ false → r.session.closed ≡ true
    pub no_acks : r.ack_loop ≡ false → r.session.closed ≡ true

  same_closed : (h h' : HybridSession F) → signals h' ≡ signals h → h'.closed ≡ h.closed
  same_closed h h' e = ground arith

  -- A new session with the same signals.
  kept :
      (h : HybridSession F) (r : Running F)
      → IsReceiving k h
      → signals h ≡ signals r.session
      → IsRunning r
      → IsRunning (with_session h r)
  kept h r w e v =
      let c = same_closed r.session h e in
      record {
        writes = w;
        consistent = signals-IsConsistent r.session h e v.consistent;
        ends2 = λ x. c ∙ v.ends2 x;
        ends3 = λ x. c ∙ v.ends3 x;
        no_ticks = λ x. c ∙ v.no_ticks x;
        no_acks = λ x. c ∙ v.no_acks x;
      }

  -- A loop whose round stops it has been told to.
  told :
      (r : Running F) (x : Round F)
      → Quiet r.session (some x)
      → IsRunning r
      → after_round x.stop ≡ ended
      → x.session.closed ≡ true
  told r x q v e = ground (arith, q.0, q.1, v.consistent.stops)

  end2-IsRunning :
      (r r' : Running F) (x : Option (Round F))
      → Keeps k x
      → Quiet r.session x
      → IsRunning r
      → end_round2 r x ≡ some r'
      → IsRunning r'
  end2-IsRunning r r' none w q v e = absurd (ground arith)
  end2-IsRunning r r' (some x) w q v e =
      let u = kept x.session r w q.0 v in
      subst IsRunning (some-injective _ _ e) (record {
        writes = u.writes;
        consistent = u.consistent;
        ends2 = told r x q v;
        ends3 = u.ends3;
        no_ticks = u.no_ticks;
        no_acks = u.no_acks;
      })

  end3-IsRunning :
      (r r' : Running F) (x : Option (Round F))
      → Keeps k x
      → Quiet r.session x
      → IsRunning r
      → end_round3 r x ≡ some r'
      → IsRunning r'
  end3-IsRunning r r' none w q v e = absurd (ground arith)
  end3-IsRunning r r' (some x) w q v e =
      let u = kept x.session r w q.0 v in
      subst IsRunning (some-injective _ _ e) (record {
        writes = u.writes;
        consistent = u.consistent;
        ends2 = u.ends2;
        ends3 = told r x q v;
        no_ticks = u.no_ticks;
        no_acks = u.no_acks;
      })

  shut-IsRunning : (r : Running F) → IsRunning r → IsRunning (with_session (shut r.session) r)
  shut-IsRunning r v = record {
    writes = record {
      keyed = v.writes.keyed;
      sound = v.writes.sound;
      attributed = v.writes.attributed;
      bounded = v.writes.bounded;
      one_error = v.writes.one_error;
    };
    consistent = (close_lem r.session v.consistent).1;
    ends2 = λ x. refl;
    ends3 = λ x. refl;
    no_ticks = λ x. refl;
    no_acks = λ x. refl;
  }

  selected :
      (r : Running F)
      → IsRunning r
      → after_select r.session.recv_stop ≡ ended
      → r.session.closed ≡ true
  selected r v e = ground (arith, v.consistent.stops)

  signalled : (r : Running F) (b : Bool) → b ≡ r.session.closed → b ≡ true → r.session.closed ≡ true
  signalled r b e s = sym e ∙ s

  module _ (resolve : SenderHash → Option String)
      (honest : (j : SenderHash) (a : String)
        → resolve j ≡ some a
        → compute_sender_hash k a ≡ j) where
    Step-IsRunning : {r r' : Running F} → Step k resolve r r' → IsRunning r → IsRunning r'
    unfolding round2 round3 send_datagram force_datagram2
    Step-IsRunning (selects2 r e) v = record {
      writes = v.writes;
      consistent = v.consistent;
      ends2 = selected r v;
      ends3 = v.ends3;
      no_ticks = v.no_ticks;
      no_acks = v.no_acks;
    }
    Step-IsRunning (selects3 r e) v = record {
      writes = v.writes;
      consistent = v.consistent;
      ends2 = v.ends2;
      ends3 = selected r v;
      no_ticks = v.no_ticks;
      no_acks = v.no_acks;
    }
    Step-IsRunning (receives2 net now b i r r' p e) v =
        end2-IsRunning r r' (receive_datagram2 k net now b i r.session)
          (receive_datagram2-IsReceiving k net now b i r.session v.writes)
          (receive_datagram2-Quiet k net now b i r.session) v e
    Step-IsRunning (receives3 now b i r r' p e) v =
        end3-IsRunning r r' (receive_datagram3 resolve now b i r.session)
          (receive_datagram3-IsReceiving k resolve now b i r.session honest v.writes)
          (receive_datagram3-Quiet resolve now b i r.session) v e
    Step-IsRunning (ticks_table now r e) v =
        kept _ r (cleaned-IsReceiving k now r.session v.writes) refl v
    Step-IsRunning (ends_table r e s) v = record {
      writes = v.writes;
      consistent = v.consistent;
      ends2 = v.ends2;
      ends3 = v.ends3;
      no_ticks = λ x. signalled r r.session.stop_cleanup v.consistent.cleans s;
      no_acks = v.no_acks;
    }
    Step-IsRunning (ticks_acks now r e) v =
        let u = acks-IsReceiving k now r.session v.writes in kept _ r u.0 u.1 v
    Step-IsRunning (ends_acks r e s) v = record {
      writes = v.writes;
      consistent = v.consistent;
      ends2 = v.ends2;
      ends3 = v.ends3;
      no_ticks = v.no_ticks;
      no_acks = λ x. signalled r r.session.ack_cleanup_stop v.consistent.acks s;
    }
    Step-IsRunning (sends net now p dest r) v =
        let op = send_state net now p dest in
        kept _ r (on_sender_state-IsReceiving k dest op r.session v.writes)
          (on_sender_state-signals k dest op r.session) v
    Step-IsRunning (forces net now p dest r) v =
        let op = force_state net now p dest in
        kept _ r (on_sender_state-IsReceiving k dest op r.session v.writes)
          (on_sender_state-signals k dest op r.session) v
    Step-IsRunning (takes x h r t) v =
        let u = Receives-IsReceiving k x r.session h t v.writes in kept h r u.0 u.1 v
    Step-IsRunning (closes h r e) v =
        subst (λ (g : HybridSession F). IsRunning (with_session g r))
          (some-injective _ _ (sym (close_lem r.session v.consistent).0 ∙ e)) (shut-IsRunning r v)

    Reach-IsRunning : {r r' : Running F} → IsRunning r → Reach k resolve r r' → IsRunning r'
    Reach-IsRunning v here = v
    Reach-IsRunning v (next t s) = Step-IsRunning s (Reach-IsRunning v t)

started-IsRunning :
    {F : Floats} (k : Keys) (h : HybridSession F)
    → IsReceiving k h
    → IsConsistent h
    → IsRunning k (started h)
started-IsRunning k h w c = record {
  writes = w;
  consistent = c;
  ends2 = λ x. absurd (ground arith);
  ends3 = λ x. absurd (ground arith);
  no_ticks = λ x. absurd (ground arith);
  no_acks = λ x. absurd (ground arith);
}

-- From a session that has just been opened, whatever comes in and whatever the order of the rounds of both
-- receive loops, of the ticks of the two cleanup loops and of the calls of the application that send,
-- receive and close, where the library resolves a hash to an address of that hash only: each hash stands
-- once in the table, with an address of that hash; each datagram in the queue has the hash of its source,
-- or an empty source; the queue holds at most 100 datagrams and the error channel one error; the signals
-- are given exactly when the session is closed, no loop ends before that, and `Close` does not panic.
pub Reach-opened_session :
    (F : Floats) (k : Keys) (resolve : SenderHash → Option String) (id local_addr : String)
    (r : Running F)
    → ((j : SenderHash) (a : String) → resolve j ≡ some a → compute_sender_hash k a ≡ j)
    → Reach k resolve (started (opened_session F id local_addr)) r
    → IsRunning k r × (close r.session ≡ some (shut r.session))
Reach-opened_session F k resolve id local_addr r honest t =
    let v =
      Reach-IsRunning k resolve honest
        (started-IsRunning k (opened_session F id local_addr)
          (opened_session-IsReceiving F k id local_addr)
          (opened_session-IsConsistent F id local_addr))
        t in
    (v, (close_lem r.session v.consistent).0)

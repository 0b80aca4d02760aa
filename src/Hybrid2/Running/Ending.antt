-- ===== src/Hybrid2/Running/Ending.antt =====
-- The end of the goroutines of a session (Hybrid2/Running) that has been closed.
use onramp.Prelude.{
  ℕ, ◌+◌, ◌≤◌, ◌≡◌, refl, sym, ◌∙◌, inl, inr, ◌⊎◌, Bool, true, Option, Option-cases, none, some,
  some-injective, String, if◌then◌else◌, arith,
}
use mathlib.Core.Path.{subst}
use onramp.Prelude.Float.{Floats}
use onramp.Keys.{Keys}
use onramp.Hybrid2.Receiver.{SenderHash}
use onramp.Hybrid2.Session.{HybridSession, HybridDatagram, Error}
use onramp.Hybrid2.Session.Lifecycle.{IsConsistent, close_lem}
use onramp.Hybrid2.Send.{Network, send_datagram, send_state, force_state, force_datagram2}
use onramp.Hybrid2.Receive.{
  Incoming, Round, Receives, refuses, takes_datagram, takes_error, receive_datagram2,
  receive_datagram3,
}
use onramp.Hybrid2.Opening.{cleanup_all_stale_unacked}
use onramp.Hybrid2.Running.{
  Place, selecting, receiving, ended, Running, end_round2, end_round3, round2, round3, Step,
  selects2, selects3, receives2, receives3, ticks_table, ends_table, ticks_acks, ends_acks, sends,
  forces, takes, closes, Reach, here, next, after_round,
}
use onramp.Hybrid2.Running.Signals.{
  signals, signals-IsConsistent, Quiet, receive_datagram2-Quiet, receive_datagram3-Quiet,
}
use onramp.Hybrid2.Running.Kept.{on_sender_state-signals}
use onramp.Hybrid2.Running.Waiting.{receive_datagram2-ends, receive_datagram3-ends}

-- How many steps a receive loop that is told to stop has before it.
abbrev pub to_end : Place → ℕ
to_end selecting = 1
to_end receiving = 2
to_end ended = 0

-- The same of a loop with a ticker.
abbrev pub to_stop : Bool → ℕ
to_stop runs = if runs then 1 else 0

module _ {F : Floats} where
  -- The session is closed, with all its signals.
  abbrev IsClosed : HybridSession F → Type 0
  IsClosed h = IsConsistent h × (h.closed ≡ true)

  signals-IsClosed : (h h' : HybridSession F) → signals h' ≡ signals h → IsClosed h → IsClosed h'
  signals-IsClosed h h' e v = (signals-IsConsistent h h' e v.0, ground (arith, v.1))

  -- The steps that the four loops have before them.
  abbrev pub remaining : Running F → ℕ
  remaining r = to_end r.loop2 + to_end r.loop3 + to_stop r.table_loop + to_stop r.ack_loop

module _ {F : Floats} (k : Keys) (resolve : SenderHash → Option String) where
  -- A step that brings a loop nearer to its end: a `select`, a round or a stop, and no tick and no call.
  abbrev pub brings_nearer : {r r' : Running F} → Step k resolve r r' → ℕ
  brings_nearer (selects2 r e) = 1
  brings_nearer (selects3 r e) = 1
  brings_nearer (receives2 net now b i r r' p e) = 1
  brings_nearer (receives3 now b i r r' p e) = 1
  brings_nearer (ticks_table now r e) = 0
  brings_nearer (ends_table r e s) = 1
  brings_nearer (ticks_acks now r e) = 0
  brings_nearer (ends_acks r e s) = 1
  brings_nearer (sends net now p dest r) = 0
  brings_nearer (forces net now p dest r) = 0
  brings_nearer (takes x h r t) = 0
  brings_nearer (closes h r e) = 0

  -- How many of them there are in a history.
  abbrev pub loop_steps : {r r' : Running F} → Reach k resolve r r' → ℕ
  loop_steps here = 0
  loop_steps (next t s) = loop_steps t + brings_nearer s

  end2-nearer :
      (r r' : Running F) (x : Option (Round F))
      → Quiet r.session x
      → IsClosed r.session
      → r.loop2 ≡ receiving
      → end_round2 r x ≡ some r'
      → IsClosed r'.session × (1 + remaining r' ≤ remaining r)
  end2-nearer r r' none q v p e = absurd (ground arith)
  end2-nearer r r' (some x) q v p e =
      subst (λ (r' : Running F). IsClosed r'.session × (1 + remaining r' ≤ remaining r))
        (some-injective _ _ e) (signals-IsClosed r.session x.session q.0 v, ground (arith, p))

  end3-nearer :
      (r r' : Running F) (x : Option (Round F))
      → Quiet r.session x
      → IsClosed r.session
      → r.loop3 ≡ receiving
      → end_round3 r x ≡ some r'
      → IsClosed r'.session × (1 + remaining r' ≤ remaining r)
  end3-nearer r r' none q v p e = absurd (ground arith)
  end3-nearer r r' (some x) q v p e =
      subst (λ (r' : Running F). IsClosed r'.session × (1 + remaining r' ≤ remaining r))
        (some-injective _ _ e) (signals-IsClosed r.session x.session q.0 v, ground (arith, p))

  Receives-signals :
      (x : Error ⊎ HybridDatagram) (h h' : HybridSession F)
      → Receives h h' x
      → signals h' ≡ signals h
  Receives-signals x h h' (refuses c same) = rw same refl
  Receives-signals x h h' (takes_datagram d rest c q same) = rw same refl
  Receives-signals x h h' (takes_error d rest c q same) = rw same refl

  Step-nearer :
      {r r' : Running F} (s : Step k resolve r r')
      → IsClosed r.session
      → IsClosed r'.session × (brings_nearer s + remaining r' ≤ remaining r)
  unfolding round2 round3 send_datagram force_datagram2 cleanup_all_stale_unacked
  Step-nearer (selects2 r e) v = (v, ground (arith, e, v.0.stops, v.1))
  Step-nearer (selects3 r e) v = (v, ground (arith, e, v.0.stops, v.1))
  Step-nearer (receives2 net now b i r r' p e) v =
      end2-nearer r r' (receive_datagram2 k net now b i r.session)
        (receive_datagram2-Quiet k net now b i r.session) v p e
  Step-nearer (receives3 now b i r r' p e) v =
      end3-nearer r r' (receive_datagram3 resolve now b i r.session)
        (receive_datagram3-Quiet resolve now b i r.session) v p e
  Step-nearer (ticks_table now r e) v = (signals-IsClosed r.session _ refl v, omega arith)
  Step-nearer (ends_table r e s) v = (v, ground (arith, e))
  Step-nearer (ticks_acks now r e) v = (signals-IsClosed r.session _ refl v, omega arith)
  Step-nearer (ends_acks r e s) v = (v, ground (arith, e))
  Step-nearer (sends net now p dest r) v = (
    signals-IsClosed r.session _
        (on_sender_state-signals k dest (send_state net now p dest) r.session) v,
    omega arith,
  )
  Step-nearer (forces net now p dest r) v = (
    signals-IsClosed r.session _
        (on_sender_state-signals k dest (force_state net now p dest) r.session) v,
    omega arith,
  )
  Step-nearer (takes x h r t) v =
      (signals-IsClosed r.session h (Receives-signals x r.session h t) v, omega arith)
  Step-nearer (closes h r e) v =
      let lem = close_lem r.session v.0 in
      (subst IsClosed (some-injective _ _ (sym lem.0 ∙ e)) (lem.1, refl), omega arith)

  Reach-nearer :
      {r r' : Running F} (t : Reach k resolve r r')
      → IsClosed r.session
      → IsClosed r'.session × (loop_steps t + remaining r' ≤ remaining r)
  Reach-nearer here v = (v, omega arith)
  Reach-nearer (next t s) v =
      let (w, m) = Reach-nearer t v in let (u, n) = Step-nearer s w in (u, omega (arith, m, n))

  -- Whatever comes in, and whatever the clock and the choice of the `select`, the round ends.
  abbrev pub NeverWaits : Running F → Type 0
  NeverWaits r =
      ((net : Network) (now : ℕ → ℕ) (b : Bool) (i : Incoming String)
        → (r' : Running F) × (round2 k net now b i r ≡ some r'))
      × ((now : ℕ → ℕ) (b : Bool) (i : Incoming SenderHash)
          → (r' : Running F) × (round3 resolve now b i r ≡ some r'))

  IsClosed-NeverWaits : (r : Running F) → IsClosed r.session → NeverWaits r
  unfolding round2 round3
  IsClosed-NeverWaits r v =
      let told : r.session.recv_stop ≡ true = v.0.stops ∙ v.1 in
      (
        λ net now b i. elim (Option-cases (receive_datagram2 k net now b i r.session)) [
          | inl e ↦ absurd (receive_datagram2-ends k net now b i r.session told e)
          | inr (x, e) ↦ (
            record r { session = x.session; loop2 = after_round x.stop },
            rw (e, end_round2) refl,
          )
        ],
        λ now b i. elim (Option-cases (receive_datagram3 resolve now b i r.session)) [
          | inl e ↦ absurd (receive_datagram3-ends resolve now b i r.session told e)
          | inr (x, e) ↦ (
            record r { session = x.session; loop3 = after_round x.stop },
            rw (e, end_round3) refl,
          )
        ],
      )

  -- From a running session that has been closed and whose signals are given exactly when it is, in every
  -- history, whatever comes in and whatever the order of the steps: the loops take, the ticks of the
  -- two cleanup loops apart, at most as many steps as remain, and so at most six; no round of a receive
  -- loop waits, also where the queue is full; and both cleanup loops have their signal.
  pub Reach-remaining :
      {r r' : Running F} (t : Reach k resolve r r')
      → IsConsistent r.session
      → r.session.closed ≡ true
      → (loop_steps t + remaining r' ≤ remaining r)
        × (loop_steps t ≤ 6)
        × NeverWaits r'
        × (r'.session.recv_stop ≡ true)
        × (r'.session.stop_cleanup ≡ true)
        × (r'.session.ack_cleanup_stop ≡ true)
  Reach-remaining {r} {r'} t v c =
      let (w, n) = Reach-nearer t (v, c) in
      (
        n,
        omega (arith, n, at_most r),
        IsClosed-NeverWaits r' w,
        w.0.stops ∙ w.1,
        w.0.cleans ∙ w.1,
        w.0.acks ∙ w.1,
      )
    where
      at_most : (r : Running F) → remaining r ≤ 6
      at_most r = ground (arith, place r.loop2, place r.loop3)
        where
          place : (p : Place) → to_end p ≤ 2
          place selecting = omega arith
          place receiving = omega arith
          place ended = omega arith

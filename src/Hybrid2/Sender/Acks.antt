-- ===== src/Hybrid2/Sender/Acks.antt =====
-- What an ACK and a timeout do to a `SenderState` (`processAck` and `cleanupStaleUnacked` of
-- hybrid2/sender.go).
use onramp.Prelude.{
  ℕ, ◌+◌, ◌≡◌, refl, inl, inr, ◌&&◌, true, none, [], ◌∷◌, not, leb, if◌then◌else◌, Option-cases,
  length, arith, nat_eq,
}
use onramp.Prelude.Map.{Map, lookup, contains, retain, retained, lookup-retain}
use onramp.Prelude.Float.{Floats}
use onramp.Hybrid2.Sender.{
  SenderState, process_ack, cleanup_stale_unacked, should_request_ack, is_fresh, count_stale,
  degrade,
}
use onramp.Hybrid2.Sender.Invariant.{IsValid}

module _ {F : Floats} where
  -- On a valid state, an ACK for a number that is awaited takes away that number and every lower
  -- one, and an ACK for any other number takes away none.
  pub lookup-process_ack :
      (now acked j : ℕ) (s : SenderState F)
      → IsValid s
      → lookup j (process_ack now acked s).unacked_datagrams ≡ (
          if contains acked s.unacked_datagrams && leb j acked
          then none
          else lookup j s.unacked_datagrams)
  unfolding process_ack
  lookup-process_ack now acked j s v = elim (Option-cases (lookup acked s.unacked_datagrams)) [
    | inl e ↦ rw (e, process_ack) (ground arith)
    | inr (t, e) ↦
        rw (e, process_ack)
          (ground
            (arith, lookup-retain (λ seq _. not (leb seq acked)) j s.unacked_datagrams v.keyed))
  ]

  pub lookup-cleanup_stale_unacked :
      (now j : ℕ) (s : SenderState F)
      → IsValid s
      → lookup j (cleanup_stale_unacked now s).0.unacked_datagrams
        ≡ retained (is_fresh now) j (lookup j s.unacked_datagrams)
  unfolding cleanup_stale_unacked
  lookup-cleanup_stale_unacked now j s v =
      lookup-retain (is_fresh now) j s.unacked_datagrams v.keyed

  pub should_request_ack-true : (s : SenderState F) → should_request_ack s ≡ true
  unfolding should_request_ack
  should_request_ack-true s = ground arith

count-stale :
    (now : ℕ) (m : Map ℕ ℕ) → length (retain (is_fresh now) m) + count_stale now m ≡ length m
unfolding count_stale
count-stale now [] = omega arith
count-stale now ((seq, t) ∷ m) = ground (arith, count-stale now m)

module _ {F : Floats} where
  -- The cleanup of a sender's state returns the number of entries that it has taken away, and
  -- degrades the quality once for each.
  pub length-cleanup_stale_unacked :
      (now : ℕ) (s : SenderState F)
      → let (s', timed_out) = cleanup_stale_unacked now s in
        (length s'.unacked_datagrams + timed_out ≡ length s.unacked_datagrams)
        × (s'.path_quality ≡ degrade F timed_out s.path_quality)
  unfolding cleanup_stale_unacked
  length-cleanup_stale_unacked now s = (count-stale now s.unacked_datagrams, refl)

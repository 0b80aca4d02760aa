-- ===== src/Hybrid2/Tests/Running.antt =====
-- The theorems on the goroutines of a session of hybrid2 at a concrete history.
use onramp.Prelude.{
  ◌≡◌, ◌+◌, ◌≤◌, true, refl, sym, inl, inr, Bool-cases, false, Option, none, some, some-injective,
  String, [], ◌∷◌, if◌then◌else◌, arith, bytes_beq, bytes_beq_iff,
}
use mathlib.Core.Path.{subst}
use onramp.Hybrid2.Config.{second}
use onramp.Samples.{floats, keys}
use onramp.Hybrid2.Receiver.{SenderHash, compute_sender_hash, lookup_sender, register_sender}
use onramp.Hybrid2.Session.{HybridSession, close}
use onramp.Hybrid2.Session.Lifecycle.{shut}
use onramp.Hybrid2.Receive.{arrived, forward, receive_datagram3, lookup_or_resolve_datagram3_source}
use onramp.Hybrid2.Opening.{opened_session}
use onramp.Hybrid2.Running.{
  receiving, ended, Running, started, selects2, round3, Reach, here, next, selects3, receives3,
  closes, with_session,
}
use onramp.Hybrid2.Running.Laws.{IsRunning, Reach-opened_session}
use onramp.Hybrid2.Running.Ending.{remaining, loop_steps, NeverWaits, Reach-remaining}

-- A library that resolves the hash of one address.
abbrev resolves_alice : SenderHash → Option String
resolves_alice hash = if bytes_beq hash (1 ∷ []) then some "alice" else none

resolves_alice_honest :
    (j : SenderHash) (a : String) → resolves_alice j ≡ some a → compute_sender_hash keys a ≡ j
unfolding compute_sender_hash
resolves_alice_honest j a e = elim (Bool-cases (bytes_beq j (1 ∷ []))) [
  | inl hit ↦
      subst (λ b. compute_sender_hash keys b ≡ j) (some-injective "alice" a (rw hit at e))
        (sym ((bytes_beq_iff j (1 ∷ [])).0 hit))
  | inr miss ↦ absurd (ground arith)
]

abbrev fresh : HybridSession floats
fresh = opened_session floats "hybrid" "bob"

-- A datagram3 of alice comes in, whose hash the library resolves, and the session is closed.
abbrev waiting : Running floats
waiting = record (started fresh) { loop3 = receiving }

abbrev received : Running floats
received = record (started fresh) {
  session = record fresh {
    mappings =
        (
          1 ∷ [],
          record {
            hash = 1 ∷ [];
            destination = "alice";
            first_seen = second;
            last_refresh = second;
          },
        )
        ∷ [];
    recv_chan =
        record {
          payload = 7 ∷ [];
          source = "alice";
          source_hash = 1 ∷ [];
          was_datagram2 = false;
          timestamp = second;
        }
        ∷ [];
  };
}

comes_in :
    round3 resolves_alice (λ i. second) false (arrived (1 ∷ []) (7 ∷ [])) waiting ≡ some received
unfolding round3 receive_datagram3 lookup_or_resolve_datagram3_source lookup_sender register_sender
    forward
comes_in = refl

abbrev closed : Running floats
closed = with_session (shut received.session) received

closing : close received.session ≡ some closed.session
unfolding close
closing = refl

history : Reach keys resolves_alice (started fresh) closed
history =
    next
      (next (next here (selects3 (started fresh) refl))
        (receives3 (λ i. second) false (arrived (1 ∷ []) (7 ∷ [])) waiting received refl comes_in))
      (closes closed.session received closing)

Reach-opened_session_example :
    IsRunning keys closed × (close closed.session ≡ some (shut closed.session))
Reach-opened_session_example =
    Reach-opened_session floats keys resolves_alice "hybrid" "bob" closed resolves_alice_honest
      history

-- The datagram2 loop comes to its end after the session has been closed.
abbrev one_ended : Running floats
one_ended = record closed { loop2 = ended }

ending : Reach keys resolves_alice closed one_ended
ending = next here (selects2 closed refl)

Reach-remaining_example :
    (loop_steps keys resolves_alice ending + remaining one_ended ≤ remaining closed)
    × (loop_steps keys resolves_alice ending ≤ 6)
    × NeverWaits keys resolves_alice one_ended
    × (one_ended.session.recv_stop ≡ true)
    × (one_ended.session.stop_cleanup ≡ true)
    × (one_ended.session.ack_cleanup_stop ≡ true)
Reach-remaining_example =
    Reach-remaining keys resolves_alice ending
      (record {
        stops = refl;
        cleans = refl;
        acks = refl;
        finishes = refl;
        frees2 = refl;
        frees3 = refl;
      })
      refl

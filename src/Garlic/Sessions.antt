-- ===== src/Garlic/Sessions.antt =====
-- The sessions that garlic.go makes when they are first needed: `samSession`, `setupPrimarySession`, and
-- the functions that make what stands under a PRIMARY session.
pub mod Owned
pub mod Reuse
pub mod Frames
use onramp.Prelude.{
  ℕ, suc, ◌+◌, ◌==◌, ◌&&◌, Bool, true, false, ◌⊎◌, inl, inr, Option, none, some, String, List, [],
  ◌∷◌, if◌then◌else◌,
}
use onramp.Prelude.Map.{lookup, insert}
use onramp.Garlic.{
  StreamPortTuple, tuple_eq, Handle, connection, primary_session, stream_session, hybrid2_session,
  hybrid1_session, Request, connect, new_primary, new_stream, new_hybrid2, new_hybrid1, Garlic,
  Error, refused, panics, Outside, M, pure, raise, ◌>>=◌, ◌>>◌, request,
}

-- What each success writes: the field, what is open, and the next number.
abbrev pub opened_sam : Garlic → Garlic
opened_sam g = record g {
  sam = some g.next;
  open_handles = connection g.next ∷ g.open_handles;
  next = suc g.next;
}

abbrev pub opened_primary : Garlic → Garlic
opened_primary g = record g {
  primary = some g.next;
  open_handles = primary_session g.next ∷ g.open_handles;
  next = suc g.next;
}

abbrev pub opened_stream : ℕ → Garlic → Garlic
opened_stream p g = record g {
  stream_sub = some g.next;
  open_handles = stream_session g.next p ∷ g.open_handles;
  next = suc g.next;
}

abbrev pub opened_stream_by_port : StreamPortTuple → ℕ → Garlic → Garlic
opened_stream_by_port ports p g = record g {
  stream_subs_by_port = insert ports g.next g.stream_subs_by_port;
  open_handles = stream_session g.next p ∷ g.open_handles;
  next = suc g.next;
}

abbrev pub opened_hybrid2 : ℕ → Garlic → Garlic
opened_hybrid2 p g = record g {
  hybrid2_sub = some g.next;
  open_handles = hybrid2_session g.next p ∷ g.open_handles;
  next = suc g.next;
}

abbrev pub opened_hybrid1 : ℕ → Garlic → Garlic
opened_hybrid1 p g = record g {
  hybrid1_sub = some g.next;
  open_handles = hybrid1_session g.next p ∷ g.open_handles;
  next = suc g.next;
}

-- A request, and what its success writes; the result is the number of the new session.
abbrev pub make : Outside → Request → (Garlic → Garlic) → M ℕ
make out r opened g = (request out r >> λ g'. (inr g'.next, opened g')) g

-- `samSession`
unfoldable pub sam_session : Outside → M ℕ
unfolding request
sam_session out g = elim g.sam [ some n ↦ (inr n, g) | none ↦ make out connect opened_sam g ]

-- The keys are written also where `g.Keys()` fails; they are empty then.
abbrev pub set_keys : Outside → M (Unit {0})
set_keys out g = elim out.keys [
  | inl e ↦ (inl (refused e), record g { service_keys = some "" })
  | inr address ↦ (inr tt, record g { service_keys = some address })
]

-- `g.SAM.NewPrimarySession`, which panics where there is no connection.
abbrev pub make_primary : Outside → M ℕ
make_primary out g = elim g.sam [
  | none ↦ (inl panics, g)
  | some c ↦ make out (new_primary c) opened_primary g
]

-- `setupPrimarySession`
unfoldable pub setup_primary_session : Outside → M ℕ
unfolding request
setup_primary_session out g = elim g.primary [
  | some n ↦ (inr n, g)
  | none ↦ (set_keys out >> make_primary out) g
]

-- A session under the PRIMARY session of the field.
abbrev pub under_primary : Outside → (ℕ → Request) → (ℕ → Garlic → Garlic) → M ℕ
under_primary out r opened g = elim g.primary [
  | none ↦ (inl panics, g)
  | some p ↦ make out (r p) (opened p) g
]

-- `setupStreamSubSession`
unfoldable pub setup_stream_sub_session : Outside → M ℕ
unfolding setup_primary_session
setup_stream_sub_session out g = elim g.stream_sub [
  | some n ↦ (inr n, g)
  | none ↦
      (setup_primary_session out >> under_primary out (λ p. new_stream p (0, 0)) opened_stream) g
]

-- `setupStreamSubSessionWithPorts`, for ports that are not both 0.
unfoldable pub setup_by_port : Outside → StreamPortTuple → M ℕ
unfolding setup_primary_session
setup_by_port out ports g = elim (lookup ports g.stream_subs_by_port) [
  | some existing ↦ (inr existing, g)
  | none ↦
      (setup_primary_session out
          >> under_primary out (λ p. new_stream p ports) (opened_stream_by_port ports))
        g
]

-- `setupStreamSubSessionWithPorts`
unfoldable pub setup_stream_sub_session_with_ports : Outside → StreamPortTuple → M ℕ
unfolding setup_stream_sub_session setup_by_port
setup_stream_sub_session_with_ports out (from, to) g =
    if from == 0 && to == 0 then setup_stream_sub_session out g else setup_by_port out (from, to) g

-- `setupHybrid2Session`, with `setupHybridPacketSession`
unfoldable pub setup_hybrid2_session : Outside → M ℕ
unfolding setup_primary_session
setup_hybrid2_session out g = elim g.hybrid2_sub [
  | some n ↦ (inr n, g)
  | none ↦ (setup_primary_session out >> under_primary out new_hybrid2 opened_hybrid2) g
]

-- `setupHybrid1Session`, with `setupHybridPacketSession`
unfoldable pub setup_hybrid1_session : Outside → M ℕ
unfolding setup_primary_session
setup_hybrid1_session out g = elim g.hybrid1_sub [
  | some n ↦ (inr n, g)
  | none ↦ (setup_primary_session out >> under_primary out new_hybrid1 opened_hybrid1) g
]

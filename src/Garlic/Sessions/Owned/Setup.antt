-- ===== src/Garlic/Sessions/Owned/Setup.antt =====
-- The functions of garlic.go that make sessions when they are first needed keep what a `Garlic` owns.
use onramp.Prelude.{
  ℕ, ◌==◌, ◌&&◌, ◌≡◌, refl, ap, ◌∙◌, ◌⊎◌, inl, inr, Bool-cases, Option, Option-cases, none, some,
  String, List, ◌∷◌, arith,
}
use onramp.Prelude.Map.{lookup}
use onramp.Garlic.{
  StreamPortTuple, tuple_eq, Garlic, Request, new_primary, new_stream, new_hybrid2, new_hybrid1,
  connect, Error, Outside, M, ◌>>◌, request, refused,
}
use onramp.Garlic.Sessions.{
  opened_sam, opened_primary, opened_stream, opened_stream_by_port, opened_hybrid2, opened_hybrid1,
  make, sam_session, set_keys, make_primary, setup_primary_session, under_primary,
  setup_stream_sub_session, setup_by_port, setup_stream_sub_session_with_ports,
  setup_hybrid2_session, setup_hybrid1_session,
}
use onramp.Garlic.Sessions.Owned.{IsOwned}
use onramp.Garlic.Sessions.Owned.Steps.{
  Keeps, opened_sam-IsOwned, opened_primary-IsOwned, opened_stream-IsOwned,
  opened_stream_by_port-IsOwned, opened_hybrid2-IsOwned, opened_hybrid1-IsOwned,
}

pub asked-IsOwned :
    (rs : List Request) (g : Garlic) → IsOwned g → IsOwned (record g { requests = rs })
asked-IsOwned rs g v = record {
  owned = v.owned;
  primary_live = v.primary_live;
  stream_live = v.stream_live;
  ports_live = v.ports_live;
  hybrid2_live = v.hybrid2_live;
  hybrid1_live = v.hybrid1_live;
  port_ephemeral = v.port_ephemeral;
}

pub keyed-IsOwned :
    (k : Option String) (g : Garlic) → IsOwned g → IsOwned (record g { service_keys = k })
keyed-IsOwned k g v = record {
  owned = v.owned;
  primary_live = v.primary_live;
  stream_live = v.stream_live;
  ports_live = v.ports_live;
  hybrid2_live = v.hybrid2_live;
  hybrid1_live = v.hybrid1_live;
  port_ephemeral = v.port_ephemeral;
}

pub request-Keeps : (out : Outside) (r : Request) → Keeps (request out r)
unfolding request
request-Keeps out r g v = elim (Option-cases (out.answer r)) [
  | inl e ↦ rw (e, request) (asked-IsOwned (r ∷ g.requests) g v)
  | inr (x, e) ↦ rw (e, request) (asked-IsOwned (r ∷ g.requests) g v)
]

settle-then :
    {A B : Type 0} (k : M B) (r : Error ⊎ A) (g : Garlic)
    → IsOwned g
    → IsOwned (k g).1
    → IsOwned (elim r as (λ _. (Error ⊎ B) × Garlic) [ inl e ↦ (inl e, g) | inr a ↦ k g ]).1
settle-then k (inl e) g v w = v
settle-then k (inr a) g v w = w

-- One call after another, the second from where the first ends.
pub then-IsOwned :
    {A B : Type 0} (m : M A) (k : M B) (g : Garlic)
    → IsOwned (m g).1
    → IsOwned (k (m g).1).1
    → IsOwned ((m >> k) g).1
then-IsOwned m k g v w = settle-then k (m g).0 (m g).1 v w

-- A request ends in a `Garlic` that has made it.
request-fields :
    (out : Outside) (r : Request) (g : Garlic)
    → (request out r g).1 ≡ record g { requests = r ∷ g.requests }
unfolding request
request-fields out r g = ground arith

-- A request, and what its success writes.
make-IsOwned :
    (out : Outside) (r : Request) (opened : Garlic → Garlic) (g : Garlic)
    → IsOwned g
    → IsOwned (opened (record g { requests = r ∷ g.requests }))
    → IsOwned (make out r opened g).1
make-IsOwned out r opened g v w =
    then-IsOwned (request out r) (λ g'. (inr g'.next, opened g')) g (request-Keeps out r g v)
      (rw (request-fields out r g) w)

pub sam_session-Keeps : (out : Outside) → Keeps (sam_session out)
unfolding sam_session
sam_session-Keeps out g v = elim (Option-cases g.sam) [
  | inr (n, e) ↦ rw (e, sam_session) v
  | inl e ↦
      let asked = asked-IsOwned (connect ∷ g.requests) g v in
      rw (e, sam_session) (make-IsOwned out connect opened_sam g v (opened_sam-IsOwned _ e asked))
]

set_keys-IsOwned :
    (out : Outside) (g : Garlic)
    → IsOwned g
    → (k : Option String) × ((set_keys out g).1 ≡ record g { service_keys = k })
set_keys-IsOwned out g v = go out.keys
  where
    go :
        (r : String ⊎ String)
        → (k : Option String) × ((elim r as (λ _. (Error ⊎ Unit {0}) × Garlic) [
          | inl e ↦ (inl (refused e), record g { service_keys = some "" })
          | inr address ↦ (inr tt, record g { service_keys = some address })
        ]).1
            ≡ record g { service_keys = k })
    go (inl e) = (some "", refl)
    go (inr address) = (some address, refl)

make_primary-IsOwned :
    (out : Outside) (g : Garlic) → g.primary ≡ none → IsOwned g → IsOwned (make_primary out g).1
make_primary-IsOwned out g e v = elim (Option-cases g.sam) [
  | inl q ↦ rw (q, make_primary) v
  | inr (c, q) ↦
      let asked = asked-IsOwned (new_primary c ∷ g.requests) g v in
      rw (q, make_primary)
        (make-IsOwned out (new_primary c) opened_primary g v (opened_primary-IsOwned _ e asked))
]

pub setup_primary_session-Keeps : (out : Outside) → Keeps (setup_primary_session out)
unfolding setup_primary_session
setup_primary_session-Keeps out g v = elim (Option-cases g.primary) [
  | inr (n, e) ↦ rw (e, setup_primary_session) v
  | inl e ↦
      let (k, q) = set_keys-IsOwned out g v in
      let keyed = keyed-IsOwned k g v in
      rw (e, setup_primary_session)
        (then-IsOwned (set_keys out) (make_primary out) g (rw q keyed)
          (rw q (make_primary-IsOwned out _ e keyed)))
]

-- What `setupPrimarySession` does not write.
setup_primary_session-frame :
    (out : Outside) (g : Garlic)
    → let g' = (setup_primary_session out g).1 in
      (g'.stream_sub ≡ g.stream_sub)
      × (g'.stream_subs_by_port ≡ g.stream_subs_by_port)
      × (g'.hybrid2_sub ≡ g.hybrid2_sub)
      × (g'.hybrid1_sub ≡ g.hybrid1_sub)
unfolding setup_primary_session
setup_primary_session-frame out g = ground arith

under_primary-IsOwned :
    (out : Outside) (r : ℕ → Request) (opened : ℕ → Garlic → Garlic) (g : Garlic)
    → IsOwned g
    → ((p : ℕ) (rs : List Request)
        → g.primary ≡ some p
        → IsOwned (record g { requests = rs })
        → IsOwned (opened p (record g { requests = rs })))
    → IsOwned (under_primary out r opened g).1
under_primary-IsOwned out r opened g v w = elim (Option-cases g.primary) [
  | inl q ↦ rw (q, under_primary) v
  | inr (p, q) ↦
      rw (q, under_primary)
        (make-IsOwned out (r p) (opened p) g v
          (w p (r p ∷ g.requests) q (asked-IsOwned (r p ∷ g.requests) g v)))
]

-- A session that is made once there is a PRIMARY session, whose field was empty before.
module _ (out : Outside) (r : ℕ → Request) (opened : ℕ → Garlic → Garlic) (g : Garlic)
    (v : IsOwned g) where
  after_primary-IsOwned :
      let g' = (setup_primary_session out g).1 in
      ((p : ℕ) (rs : List Request)
        → g'.primary ≡ some p
        → IsOwned (record g' { requests = rs })
        → IsOwned (opened p (record g' { requests = rs })))
      → IsOwned ((setup_primary_session out >> under_primary out r opened) g).1
  after_primary-IsOwned w =
      let first = setup_primary_session-Keeps out g v in
      then-IsOwned (setup_primary_session out) (under_primary out r opened) g first
        (under_primary-IsOwned out r opened (setup_primary_session out g).1 first w)

pub setup_stream_sub_session-Keeps : (out : Outside) → Keeps (setup_stream_sub_session out)
unfolding setup_stream_sub_session
setup_stream_sub_session-Keeps out g v = elim (Option-cases g.stream_sub) [
  | inr (n, e) ↦ rw (e, setup_stream_sub_session) v
  | inl e ↦
      let frame = setup_primary_session-frame out g in
      rw (e, setup_stream_sub_session)
        (after_primary-IsOwned out (λ p. new_stream p (0, 0)) opened_stream g v
          (λ p rs q w. opened_stream-IsOwned p _ q (frame.0 ∙ e) w))
]

setup_by_port-Keeps : (out : Outside) (ports : StreamPortTuple) → Keeps (setup_by_port out ports)
unfolding setup_by_port
setup_by_port-Keeps out ports g v = elim (Option-cases (lookup ports g.stream_subs_by_port)) [
  | inr (n, e) ↦ rw (e, setup_by_port) v
  | inl e ↦
      let frame = setup_primary_session-frame out g in
      rw (e, setup_by_port)
        (after_primary-IsOwned out (λ p. new_stream p ports) (opened_stream_by_port ports) g v
          (λ p rs q w. opened_stream_by_port-IsOwned ports p _ q (ap (lookup ports) frame.1 ∙ e) w))
]

pub setup_stream_sub_session_with_ports-Keeps :
    (out : Outside) (ports : StreamPortTuple)
    → Keeps (setup_stream_sub_session_with_ports out ports)
unfolding setup_stream_sub_session_with_ports
setup_stream_sub_session_with_ports-Keeps out (from, to) g v =
    elim (Bool-cases (from == 0 && to == 0)) [
      | inl e ↦ rw (e, setup_stream_sub_session_with_ports) (setup_stream_sub_session-Keeps out g v)
      | inr e ↦ rw (e, setup_stream_sub_session_with_ports) (setup_by_port-Keeps out (from, to) g v)
    ]

pub setup_hybrid2_session-Keeps : (out : Outside) → Keeps (setup_hybrid2_session out)
unfolding setup_hybrid2_session
setup_hybrid2_session-Keeps out g v = elim (Option-cases g.hybrid2_sub) [
  | inr (n, e) ↦ rw (e, setup_hybrid2_session) v
  | inl e ↦
      let frame = setup_primary_session-frame out g in
      rw (e, setup_hybrid2_session)
        (after_primary-IsOwned out new_hybrid2 opened_hybrid2 g v
          (λ p rs q w. opened_hybrid2-IsOwned p _ q (frame.2 ∙ e) w))
]

pub setup_hybrid1_session-Keeps : (out : Outside) → Keeps (setup_hybrid1_session out)
unfolding setup_hybrid1_session
setup_hybrid1_session-Keeps out g v = elim (Option-cases g.hybrid1_sub) [
  | inr (n, e) ↦ rw (e, setup_hybrid1_session) v
  | inl e ↦
      let frame = setup_primary_session-frame out g in
      rw (e, setup_hybrid1_session)
        (after_primary-IsOwned out new_hybrid1 opened_hybrid1 g v
          (λ p rs q w. opened_hybrid1-IsOwned p _ q (frame.3 ∙ e) w))
]

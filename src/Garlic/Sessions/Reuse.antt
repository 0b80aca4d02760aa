-- ===== src/Garlic/Sessions/Reuse.antt =====
-- The sessions of a `Garlic` (garlic.go) are found again by the calls that made them.
use onramp.Prelude.{ℕ, ◌≡◌, refl, ◌∙◌, ◌⊎◌, inl, inr, Option, none, some, arith}
use mathlib.Core.Path.{ap, subst}
use onramp.Prelude.Map.{lookup, lookup-insert}
use onramp.Garlic.{
  StreamPortTuple, tuple_eq, Request, new_stream, new_hybrid2, new_hybrid1, Garlic, Error, Outside,
  M, panics, ◌>>◌, request,
}
use onramp.Garlic.Chains.{Gives, bind-Gives}
use onramp.Garlic.Sessions.{
  setup_primary_session, setup_stream_sub_session, setup_by_port, setup_hybrid2_session,
  setup_hybrid1_session, make, under_primary, opened_stream, opened_stream_by_port, opened_hybrid2,
  opened_hybrid1,
}

-- What a `make` that succeeds leaves.
pub make-Gives :
    (out : Outside) (r : Request) (opened : Garlic → Garlic) (g g' : Garlic) (n : ℕ)
    → Gives (make out r opened g) n g'
    → (h : Garlic) × (h.next ≡ n) × (opened h ≡ g')
make-Gives out r opened g g' n v =
    let (a, h, w, u) =
      bind-Gives (request out r) (λ (_ : Unit {0}) h. (inr h.next, opened h)) g g' n v in
    (h, ground (arith, u.0), u.1)

under_primary-Gives :
    (out : Outside) (r : ℕ → Request) (opened : ℕ → Garlic → Garlic) (g g' : Garlic) (n : ℕ)
    → Gives (under_primary out r opened g) n g'
    → (p : ℕ) × (h : Garlic) × (h.next ≡ n) × (opened p h ≡ g')
under_primary-Gives out r opened g g' n v = go g.primary v
  where
    go :
        (primary : Option ℕ)
        → Gives
            (elim primary as (λ _. (Error ⊎ ℕ) × Garlic) [
              | none ↦ (inl panics, g)
              | some p ↦ make out (r p) (opened p) g
            ])
            n
            g'
        → (p : ℕ) × (h : Garlic) × (h.next ≡ n) × (opened p h ≡ g')
    go none v = absurd (ground (arith, v.0))
    go (some p) v = let (h, e, f) = make-Gives out (r p) (opened p) g g' n v in (p, h, e, f)

opened-Gives :
    (P : ℕ → Garlic → Type 0) (out : Outside) (r : ℕ → Request) (opened : ℕ → Garlic → Garlic)
    (g g' : Garlic) (n : ℕ)
    → ((p : ℕ) (h : Garlic) → P h.next (opened p h))
    → Gives ((setup_primary_session out >> under_primary out r opened) g) n g'
    → P n g'
opened-Gives P out r opened g g' n a v =
    let (q, h, w, u) =
      bind-Gives (setup_primary_session out) (λ (_ : ℕ). under_primary out r opened) g g' n v in
    let (p, j, e, f) = under_primary-Gives out r opened h g' n u in
    subst (P n) f (subst (λ k. P k (opened p j)) e (a p j))

-- A session that is kept in a field: where the field is empty, it is opened under the PRIMARY session.
kept-Gives :
    (P : ℕ → Garlic → Type 0) (out : Outside) (r : ℕ → Request) (opened : ℕ → Garlic → Garlic)
    (g g' : Garlic) (n : ℕ) (field : Option ℕ)
    → (field ≡ some n → P n g)
    → ((p : ℕ) (h : Garlic) → P h.next (opened p h))
    → Gives
        (elim field as (λ _. (Error ⊎ ℕ) × Garlic) [
          | none ↦ (setup_primary_session out >> under_primary out r opened) g
          | some k ↦ (inr k, g)
        ])
        n
        g'
    → P n g'
kept-Gives P out r opened g g' n none a b v = opened-Gives P out r opened g g' n b v
kept-Gives P out r opened g g' n (some k) a b v = subst (P n) v.1 (a (ground (arith, v.0)))

-- The sessions under a PRIMARY session, each with the call that finds or makes it.
pub data Sub : Type 0 where
  stream hybrid2 hybrid1 : Sub
  by_port : StreamPortTuple → Sub

unfoldable pub setup : Sub → Outside → M ℕ
unfolding setup_stream_sub_session setup_hybrid2_session setup_hybrid1_session setup_by_port
setup stream out = setup_stream_sub_session out
setup hybrid2 out = setup_hybrid2_session out
setup hybrid1 out = setup_hybrid1_session out
setup (by_port ports) out = setup_by_port out ports

-- Where the call keeps it.
abbrev pub kept : Sub → Garlic → Option ℕ
kept stream g = g.stream_sub
kept hybrid2 g = g.hybrid2_sub
kept hybrid1 g = g.hybrid1_sub
kept (by_port ports) g = lookup ports g.stream_subs_by_port

abbrev pub session_request : Sub → ℕ → Request
session_request stream p = new_stream p (0, 0)
session_request hybrid2 p = new_hybrid2 p
session_request hybrid1 p = new_hybrid1 p
session_request (by_port ports) p = new_stream p ports

abbrev pub opened_sub : Sub → ℕ → Garlic → Garlic
opened_sub stream = opened_stream
opened_sub hybrid2 = opened_hybrid2
opened_sub hybrid1 = opened_hybrid1
opened_sub (by_port ports) = opened_stream_by_port ports

kept-opened_sub : (k : Sub) (p : ℕ) (h : Garlic) → kept k (opened_sub k p h) ≡ some h.next
kept-opened_sub stream p h = refl
kept-opened_sub hybrid2 p h = refl
kept-opened_sub hybrid1 p h = refl
kept-opened_sub (by_port ports) p h =
    ground
      (arith, lookup-insert ports ports h.next h.stream_subs_by_port, tuple_eq.beq_iff ports ports)

-- What `setup` does, for all of them.
pub setup-kept :
    (k : Sub) (out : Outside) (g : Garlic)
    → setup k out g ≡ elim (kept k g) as (λ _. (Error ⊎ ℕ) × Garlic) [
      | none ↦ (setup_primary_session out >> under_primary out (session_request k) (opened_sub k)) g
      | some n ↦ (inr n, g)
    ]
unfolding setup
setup-kept stream out g = refl
setup-kept hybrid2 out g = refl
setup-kept hybrid1 out g = refl
setup-kept (by_port ports) out g = refl

pub setup-Gives :
    (k : Sub) (out : Outside) (g g' : Garlic) (n : ℕ)
    → Gives (setup k out g) n g'
    → kept k g' ≡ some n
setup-Gives k out g g' n v =
    kept-Gives (λ n g. kept k g ≡ some n) out (session_request k) (opened_sub k) g g' n (kept k g)
      (λ e. e) (kept-opened_sub k) (subst (λ x. Gives x n g') (setup-kept k out g) v)

-- Where the call that finds or makes a stream session, one for a pair of ports, a hybrid2 or a
-- hybrid1 session gives a session, the next such call gives the same one and changes nothing,
-- whatever the library would answer.
pub setup_again :
    (k : Sub) (out out' : Outside) (g g' : Garlic) (n : ℕ)
    → setup k out g ≡ (inr n, g')
    → setup k out' g' ≡ (inr n, g')
setup_again k out out' g g' n e =
    let found = setup-Gives k out g g' n (ap (λ x. x.0) e, ap (λ x. x.1) e) in
    setup-kept k out' g' ∙ rw found refl

-- ===== src/Garlic/Sessions/Frames.antt =====
-- What the calls of garlic.go that make sessions leave alone: the connection, once there is one, and the
-- local port.
use onramp.Prelude.{ℕ, ◌≡◌, refl, sym, ◌∙◌, ◌⊎◌, inl, inr, Option, Option-cases, none, some, String}
use onramp.Garlic.{
  Request, new_primary, Garlic, Error, refused, panics, Outside, M, ◌>>=◌, ◌>>◌, request,
}
use mathlib.Core.Path.{subst}
use onramp.Garlic.Sessions.Reuse.{
  Sub, stream, hybrid2, hybrid1, by_port, setup, kept, session_request, opened_sub, setup-kept,
}
use onramp.Garlic.Sessions.{
  setup_primary_session, make, under_primary, opened_primary, set_keys, make_primary,
}

-- The same connection and the same local port.
abbrev pub Same : Garlic → Garlic → Type 0
Same g h = (h.sam ≡ g.sam) × (h.persistent_from_port ≡ g.persistent_from_port)

abbrev pub Frames : {A : Type 0} → M A → Type 0
Frames m = (g : Garlic) → Same g (m g).1

Same-trans : (g h j : Garlic) → Same g h → Same h j → Same g j
Same-trans g h j v w = (w.0 ∙ v.0, w.1 ∙ v.1)

pub bind-Frames :
    {A B : Type 0} (m : M A) (f : A → M B) → Frames m → ((a : A) → Frames (f a)) → Frames (m >>= f)
bind-Frames {A = A} {B = B} m f v w g = go (m g) (v g)
  where
    go :
        (x : (Error ⊎ A) × Garlic)
        → Same g x.1
        → Same g
            (elim x.0 as (λ _. (Error ⊎ B) × Garlic) [ inl e ↦ (inl e, x.1) | inr a ↦ f a x.1 ]).1
    go (inl e, h) u = u
    go (inr a, h) u = Same-trans g h (f a h).1 u (w a h)

pub request-Frames : (out : Outside) (r : Request) → Frames (request out r)
unfolding request
request-Frames out r g = elim (Option-cases (out.answer r)) [
  | inl e ↦ rw (e, request) (refl, refl)
  | inr (s, e) ↦ rw (e, request) (refl, refl)
]

make-Frames :
    (out : Outside) (r : Request) (opened : Garlic → Garlic)
    → ((h : Garlic) → Same h (opened h))
    → Frames (make out r opened)
make-Frames out r opened v =
    bind-Frames (request out r) (λ (_ : Unit {0}) h. (inr h.next, opened h)) (request-Frames out r)
      (λ _ h. v h)

set_keys-Frames : (out : Outside) → Frames (set_keys out)
set_keys-Frames out g = go out.keys
  where
    go :
        (k : String ⊎ String)
        → Same g
            (elim k as (λ _. (Error ⊎ Unit {0}) × Garlic) [
              | inl e ↦ (inl (refused e), record g { service_keys = some "" })
              | inr address ↦ (inr tt, record g { service_keys = some address })
            ]).1
    go (inl e) = (refl, refl)
    go (inr address) = (refl, refl)

-- A call that depends on an optional number.
optional-Frames :
    {A : Type 0} (o : Option ℕ) (x : (Error ⊎ A) × Garlic) (f : ℕ → (Error ⊎ A) × Garlic)
    (g : Garlic)
    → Same g x.1
    → ((n : ℕ) → Same g (f n).1)
    → Same g (elim o as (λ _. (Error ⊎ A) × Garlic) [ none ↦ x | some n ↦ f n ]).1
optional-Frames none x f g v w = v
optional-Frames (some n) x f g v w = w n

pub setup_primary-Frames : (out : Outside) → Frames (setup_primary_session out)
unfolding setup_primary_session
setup_primary-Frames out g =
    optional-Frames g.primary ((set_keys out >> make_primary out) g) (λ n. (inr n, g)) g
      (bind-Frames (set_keys out) (λ (_ : Unit {0}). make_primary out) (set_keys-Frames out)
        (λ _ h.
          optional-Frames h.sam (inl panics, h) (λ c. make out (new_primary c) opened_primary h) h
            (refl, refl)
            (λ c. make-Frames out (new_primary c) opened_primary (λ j. (refl, refl)) h))
        g)
      (λ n. (refl, refl))

under_primary-Frames :
    (out : Outside) (r : ℕ → Request) (opened : ℕ → Garlic → Garlic)
    → ((p : ℕ) (h : Garlic) → Same h (opened p h))
    → Frames (under_primary out r opened)
under_primary-Frames out r opened v g =
    optional-Frames g.primary (inl panics, g) (λ p. make out (r p) (opened p) g) g (refl, refl)
      (λ p. make-Frames out (r p) (opened p) (v p) g)

opened_sub-Same : (k : Sub) (p : ℕ) (h : Garlic) → Same h (opened_sub k p h)
opened_sub-Same stream p h = (refl, refl)
opened_sub-Same hybrid2 p h = (refl, refl)
opened_sub-Same hybrid1 p h = (refl, refl)
opened_sub-Same (by_port ports) p h = (refl, refl)

pub setup-Frames : (k : Sub) (out : Outside) → Frames (setup k out)
setup-Frames k out g =
    subst (λ (x : (Error ⊎ ℕ) × Garlic). Same g x.1) (sym (setup-kept k out g))
      (optional-Frames (kept k g)
        ((setup_primary_session out >> under_primary out (session_request k) (opened_sub k)) g)
        (λ n. (inr n, g)) g
        (bind-Frames (setup_primary_session out)
          (λ (_ : ℕ). under_primary out (session_request k) (opened_sub k))
          (setup_primary-Frames out)
          (λ _. under_primary-Frames out (session_request k) (opened_sub k) (opened_sub-Same k)) g)
        (λ n. (refl, refl)))

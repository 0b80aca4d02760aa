-- ===== src/Garlic/Chains.antt =====
-- Chains of calls of garlic.go: how a chain ends, by how its first part ends.
use onramp.Prelude.{◌≡◌, refl, ◌⊎◌, inl, inr, Option-cases, none, some, String, ◌∷◌, arith}
use mathlib.Core.Path.{ap}
use onramp.Garlic.{Garlic, Request, Error, refused, Outside, M, ◌>>=◌, request}

-- A call that gives a result, and the two parts of a chain that does.
abbrev pub Gives : {A : Type 0} → (Error ⊎ A) × Garlic → A → Garlic → Type 0
Gives x a g = (x.0 ≡ inr a) × (x.1 ≡ g)

pub bind-Gives :
    {A B : Type 0} (m : M A) (f : A → M B) (g g' : Garlic) (b : B)
    → Gives ((m >>= f) g) b g'
    → (a : A) × (h : Garlic) × Gives (m g) a h × Gives (f a h) b g'
bind-Gives {A = A} {B = B} m f g g' b v = go (m g) v
  where
    go :
        (x : (Error ⊎ A) × Garlic)
        → Gives
            (elim x.0 as (λ _. (Error ⊎ B) × Garlic) [ inl e ↦ (inl e, x.1) | inr a ↦ f a x.1 ])
            b
            g'
        → (a : A) × (h : Garlic) × Gives x a h × Gives (f a h) b g'
    go (inl e, h) v = absurd (ground (arith, v.0))
    go (inr a, h) v = (a, h, (refl, refl), v)

pub bind-error :
    {A B : Type 0} (m : M A) (f : A → M B) (g : Garlic) (e : Error)
    → (m g).0 ≡ inl e
    → ((m >>= f) g).0 ≡ inl e
bind-error m f g e v = rw (v, ◌>>=◌) refl

pub bind-stop :
    {A B : Type 0} (m : M A) (f : A → M B) (g g' : Garlic) (e : Error)
    → m g ≡ (inl e, g')
    → (m >>= f) g ≡ (inl e, g')
bind-stop {B = B} m f g g' e v =
    ap (λ x. elim x.0 as (λ _. (Error ⊎ B) × Garlic) [ inl e ↦ (inl e, x.1) | inr b ↦ f b x.1 ]) v

pub bind-ok :
    {A B : Type 0} (m : M A) (f : A → M B) (g g' : Garlic) (a : A)
    → m g ≡ (inr a, g')
    → (m >>= f) g ≡ f a g'
bind-ok {B = B} m f g g' a v =
    ap (λ x. elim x.0 as (λ _. (Error ⊎ B) × Garlic) [ inl e ↦ (inl e, x.1) | inr b ↦ f b x.1 ]) v

pub request-error :
    (out : Outside) (r : Request) (g : Garlic) (e : String)
    → out.answer r ≡ some e
    → request out r g ≡ (inl (refused e), record g { requests = r ∷ g.requests })
unfolding request
request-error out r g e a = rw (a, request) refl

pub request-ok :
    (out : Outside) (r : Request) (g : Garlic)
    → out.answer r ≡ none
    → request out r g ≡ (inr tt, record g { requests = r ∷ g.requests })
unfolding request
request-ok out r g a = rw (a, request) refl

pub request-leaves :
    (out : Outside) (r : Request) (g : Garlic)
    → (request out r g).1 ≡ record g { requests = r ∷ g.requests }
unfolding request
request-leaves out r g = elim (Option-cases (out.answer r)) [
  | inl e ↦ rw (e, request) refl
  | inr (s, e) ↦ rw (e, request) refl
]

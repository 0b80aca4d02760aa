-- ===== src/Garlic/Managed/Finalizers/Laws.antt =====
-- Which finalizers of cleanup.go run.
use onramp.Prelude.{
  ℕ, ◌==◌, ◌≡◌, ◌≢◌, refl, ◌⊎◌, inl, inr, Option, Option-cases, none, some, some-injective, ap, sym,
  List, [], ◌∷◌, Bool-cases, Sum-cases, arith,
}
use mathlib.Core.Path.{subst}
use onramp.Garlic.{Error, Outside}
use onramp.Garlic.Closing.{Closes, Bridge, new_garlic}
use onramp.Garlic.Managed.{World, remove, register, new_instance}
use onramp.Garlic.Managed.Invariant.{IsIn, IsIn-remove}
use onramp.Garlic.Managed.Finalizers.{
  Heap, IsReferenced, has_finalizer, setup_finalizer, enable_auto_cleanup, disable_auto_cleanup,
  close_in, finalize, new_in, has_sessions,
}

-- What happens to the heap while the program runs: the constructor, the two calls of cleanup.go, `Close`,
-- the collector, which runs the finalizer of an instance to which nothing refers, and anything else,
-- which changes neither the registry nor the finalizers and calls no `Close`.
pub data Step : Heap → Heap → Type 0 where
  makes :
      (out : Outside) (b : Bridge) (h h' : Heap) (r : Error ⊎ ℕ)
      → new_in out b h ≡ some (r, h')
      → Step h h'
  enables : (i : Option ℕ) (h h' : Heap) → enable_auto_cleanup i h ≡ some h' → Step h h'
  disables : (i : Option ℕ) (h : Heap) → Step h (disable_auto_cleanup i h)
  closes : (c : Closes) (i : ℕ) (h : Heap) → Step h (close_in c i h)
  collects :
      (c : Closes) (i : ℕ) (h : Heap)
      → IsIn i h.finalizers
      → ¬ IsReferenced i h
      → Step h (finalize c i h)
  others :
      (h h' : Heap)
      → h'.world.instances ≡ h.world.instances
      → h'.finalizers ≡ h.finalizers
      → h'.closed ≡ h.closed
      → Step h h'

pub data Reach (h : Heap) : Heap → Type 0 where
  here : Reach h h
  next : {h' h'' : Heap} → Reach h h' → Step h' h'' → Reach h h''

-- An instance with a finalizer is registered, or `Close` has been called on it.
abbrev Tracked : Heap → Type 0
Tracked h = (i : ℕ) → IsIn i h.finalizers → IsIn i h.world.instances ⊎ IsIn i h.closed

of-remove : (i j : ℕ) (js : List ℕ) → IsIn j (remove i js) → IsIn j js × (j ≢ i)
unfolding remove
of-remove i j [] v = absurd v
of-remove i j (k ∷ js) v = elim (Bool-cases (k == i)) [
  | inl e ↦ let (m, n) = of-remove i j js (rw (e, remove) at v) in (inr m, n)
  | inr e ↦ elim (rw (e, remove) at v) [
    | inl q ↦ (inl q, ground arith)
    | inr m ↦ let (m', n) = of-remove i j js m in (inr m', n)
  ]
]

same_or_not : (i j : ℕ) → (i ≡ j) ⊎ (j ≢ i)
same_or_not i j = ground arith

-- Closing puts among the closed what it takes from the registry.
close_in-Tracked : (c : Closes) (i : ℕ) (h : Heap) → Tracked h → Tracked (close_in c i h)
unfolding close_in
close_in-Tracked c i h t j v = elim (same_or_not i j) [
  | inl e ↦ inr (inl e)
  | inr n ↦ elim (t j v) [
    | inl r ↦ inl (IsIn-remove i j h.world.instances n r)
    | inr d ↦ inr (inr d)
  ]
]

none-ne-some : {A : Type 0} {a : A} → ◌≢◌ {A = Option A} none (some a)
none-ne-some e = ground (arith, e)

-- A registered instance gets a finalizer.
setup_finalizer-Tracked :
    (i : ℕ) (h h' : Heap) (w : World)
    → w.instances ≡ i ∷ remove i h.world.instances
    → setup_finalizer i (record h { world = w }) ≡ some h'
    → Tracked h
    → Tracked h'
unfolding setup_finalizer
setup_finalizer-Tracked i h h' w e s t = elim (Bool-cases (has_finalizer i h.finalizers)) [
  | inl c ↦ absurd (ground (arith, c, s))
  | inr c ↦
      let made = record h { world = w; finalizers = i ∷ h.finalizers } in
      let same : made ≡ h' = some-injective _ _ (rw (c, setup_finalizer) at s) in
      subst Tracked same (λ j v. rw e (elim v [
        | inl q ↦ inl (inl q)
        | inr m ↦ elim (same_or_not i j) [
          | inl q ↦ inl (inl q)
          | inr n ↦ elim (t j m) [
            | inl r ↦ inl (inr (IsIn-remove i j h.world.instances n r))
            | inr d ↦ inr d
          ]
        ]
      ]))
]

-- What the constructor does to the registry.
abbrev Registers : World → (Error ⊎ ℕ) × World → Type 0
Registers w (inl e, w') = w' ≡ w
Registers w (inr i, w') = w'.instances ≡ i ∷ remove i w.instances

new_instance-Registers :
    (out : Outside) (b : Bridge) (w : World) → Registers w (new_instance out b w)
unfolding new_instance
new_instance-Registers out b w = elim (Sum-cases (new_garlic out b).0) [
  | inl (e, x) ↦ rw (x, new_instance) refl
  | inr (n, x) ↦ rw (x, new_instance) refl
]

-- The end of the constructor, once the instance is made, or not.
abbrev pub finished : Heap → (Error ⊎ ℕ) × World → Option ((Error ⊎ ℕ) × Heap)
finished h x = elim x.0 [
  | inl e ↦ some (inl e, record h { world = x.1 })
  | inr i ↦ elim (setup_finalizer i (record h { world = x.1 })) [
    | none ↦ none
    | some h' ↦ some (inr i, record h' { held = i ∷ h.held })
  ]
]

-- What is left of an instance that is made.
abbrev pub Finished : Heap → World → (Error ⊎ ℕ) → Heap → Type 0
Finished h w (inl e) h' = h' ≡ record h { world = w }
Finished h w (inr i) h' =
    (h'' : Heap) × (setup_finalizer i (record h { world = w }) ≡ some h'')
    × (h' ≡ record h'' { held = i ∷ h.held })

pub finished-Finished :
    (h h' : Heap) (x : (Error ⊎ ℕ) × World) (r : Error ⊎ ℕ)
    → finished h x ≡ some (r, h')
    → (x.0 ≡ r) × Finished h x.1 x.0 h'
finished-Finished h h' (inl e, w) r q =
    let same = some-injective _ _ q in
    (ap (λ (y : (Error ⊎ ℕ) × Heap). y.0) same, sym (ap (λ (y : (Error ⊎ ℕ) × Heap). y.1) same))
finished-Finished h h' (inr i, w) r q =
    elim (Option-cases (setup_finalizer i (record h { world = w }))) [
      | inl n ↦ absurd (none-ne-some (rw (n, finished) at q))
      | inr (h'', n) ↦
          let same = some-injective _ _ (rw (n, finished) at q) in
          (
            ap (λ (y : (Error ⊎ ℕ) × Heap). y.0) same,
            (h'', n, sym (ap (λ (y : (Error ⊎ ℕ) × Heap). y.1) same)),
          )
    ]

new_in-Tracked :
    (out : Outside) (b : Bridge) (h h' : Heap) (r : Error ⊎ ℕ)
    → new_in out b h ≡ some (r, h')
    → Tracked h
    → Tracked h'
unfolding new_in
new_in-Tracked out b h h' r e t =
    let x = new_instance out b h.world in
    go x (new_instance-Registers out b h.world) (finished-Finished h h' x r e).1
  where
    go : (x : (Error ⊎ ℕ) × World) → Registers h.world x → Finished h x.1 x.0 h' → Tracked h'
    go (inl e, w) g q = subst Tracked (sym q) (λ j v. rw g (t j v))
    go (inr i, w) g (h'', n, q) = subst Tracked (sym q) (setup_finalizer-Tracked i h h'' w g n t)

disabled-Tracked : (i : ℕ) (h : Heap) → Tracked h → Tracked (disable_auto_cleanup (some i) h)
unfolding disable_auto_cleanup
disabled-Tracked i h t j v =
    let (f, n) = of-remove i j h.finalizers v in
    elim (t j f) [ inl r ↦ inl (IsIn-remove i j h.world.instances n r) | inr d ↦ inr d ]

finalize-Tracked : (c : Closes) (i : ℕ) (h : Heap) → Tracked h → Tracked (finalize c i h)
unfolding finalize disable_auto_cleanup
finalize-Tracked c i h t = elim (Bool-cases (has_sessions (h.world.garlic_of i))) [
  | inr e ↦ rw (e, finalize) (disabled-Tracked i h t)
  | inl e ↦
      rw (e, finalize)
        λ j v.
          let n = (of-remove i j h.finalizers v).1 in
          elim (disabled-Tracked i h t j v) [
            | inl r ↦ inl (IsIn-remove i j (remove i h.world.instances) n r)
            | inr d ↦ inr (inr d)
          ]
]

Step-Tracked : {h h' : Heap} → Step h h' → Tracked h → Tracked h'
unfolding enable_auto_cleanup disable_auto_cleanup finalize
Step-Tracked (makes out b h h' r e) t = new_in-Tracked out b h h' r e t
Step-Tracked (enables none h h' e) t = subst Tracked (some-injective _ _ e) t
Step-Tracked (enables (some i) h h' e) t =
    setup_finalizer-Tracked i h h' (register i h.world) refl e t
Step-Tracked (disables none h) t = t
Step-Tracked (disables (some i) h) t = disabled-Tracked i h t
Step-Tracked (closes c i h) t = close_in-Tracked c i h t
Step-Tracked (collects c i h f n) t = finalize-Tracked c i h t
Step-Tracked (others h h' a b c) t = λ j v. rw (a, c) (t j (rw b at v))

Reach-Tracked : {h h' : Heap} → Tracked h → Reach h h' → Tracked h'
Reach-Tracked t here = t
Reach-Tracked t (next r s) = Step-Tracked s (Reach-Tracked t r)

-- In every heap that comes from one with no finalizers, whatever is made, registered, closed, collected
-- or otherwise done: an instance with a finalizer to which nothing refers is one on which `Close` has
-- been called. So the finalizer never finds an instance that was never closed.
pub finalizer_after_close :
    (h h' : Heap) (i : ℕ)
    → h.finalizers ≡ []
    → Reach h h'
    → IsIn i h'.finalizers
    → ¬ IsReferenced i h'
    → IsIn i h'.closed
finalizer_after_close h h' i e r f n = elim (Reach-Tracked (λ j v. absurd (rw e at v)) r i f) [
  | inl registered ↦ absurd (n (inl registered))
  | inr closed ↦ closed
]

-- ===== src/Garlic/Managed/Invariant.antt =====
-- What holds of the package's variables of garlic.go and cleanup.go between calls.
use onramp.Prelude.{
  ℕ, suc, ◌<◌, ◌==◌, ==_iff, ◌≡◌, ◌≢◌, refl, sym, ◌∙◌, true, false, Bool-cases, ◌⊎◌, inl, inr,
  Option, none, some, String, List, [], ◌∷◌, if◌then◌else◌, arith, string_eq,
}
use mathlib.Core.Path.{ap, subst}
use onramp.Prelude.Map.{Map, lookup, insert, erase, lookup-insert, lookup-erase}
use onramp.Garlic.{Garlic}
use onramp.Garlic.Sessions.Owned.{IsOwned}
use onramp.Garlic.Closing.{close}
use onramp.Garlic.Closing.Laws.{all_close, close-nil, close-IsOwned}
use onramp.Garlic.Managed.{World, put, remove, made_instance, close_instance}

abbrev pub IsIn : ℕ → List ℕ → Type 0
IsIn i [] = ⊥
IsIn i (j ∷ js) = (j ≡ i) ⊎ IsIn i js

-- An instance is under a key of `garlics`, or is the default dialer.
abbrev pub HeldIn : Map String ℕ → Option ℕ → ℕ → Type 0
HeldIn m dialer i = ((k : String) × (lookup k m ≡ some i)) ⊎ (dialer ≡ some i)

abbrev pub IsHeld : World → ℕ → Type 0
IsHeld w = HeldIn w.garlics w.default_dialer

-- What is open belongs to an instance that is held, and each of those is registered; they are all
-- distinct.
pub record IsManaged (w : World) : Type 0 where
  pub owned : (i : ℕ) → IsOwned (w.garlic_of i)
  pub held : (i : ℕ) → ((w.garlic_of i).open_handles ≡ []) ⊎ IsHeld w i
  pub registered : (i : ℕ) → IsHeld w i → IsIn i w.instances
  pub below : (i : ℕ) → IsHeld w i → i < w.made
  pub one_name :
      (k k' : String) (i : ℕ) → lookup k w.garlics ≡ some i → lookup k' w.garlics ≡ some i → k ≡ k'
  pub apart : (k : String) (i : ℕ) → lookup k w.garlics ≡ some i → w.default_dialer ≢ some i

pub IsIn-remove : (i j : ℕ) (js : List ℕ) → j ≢ i → IsIn j js → IsIn j (remove i js)
unfolding remove
IsIn-remove i j [] ne v = absurd v
IsIn-remove i j (k ∷ js) ne v = ground (arith, IsIn-remove i j js ne)

lt-ne : (i j : ℕ) → i < j → i ≢ j
lt-ne i j h = omega arith

lt-suc : (i j : ℕ) → i < j → i < suc j
lt-suc i j h = omega arith

pub same_some : {i j : ℕ} → some i ≡ some j → i ≡ j
same_some e = ground (arith, e)

pub some-ne-none : {i : ℕ} → some i ≢ none
some-ne-none e = ground (arith, e)

false-ne-true : false ≢ true
false-ne-true e = ground (arith, e)

-- Properties of what `put` leaves.
pub put-All :
    {A : Type 0} (P : ℕ → A → Type 0) (i : ℕ) (a : A) (f : ℕ → A)
    → P i a
    → ((j : ℕ) → j ≢ i → P j (f j))
    → (j : ℕ) → P j (put i a f j)
put-All P i a f v w j = elim (Bool-cases (j == i)) [
  | inl e ↦ rw e (subst (λ k. P k a) (ground (arith, ==_iff j i)) v)
  | inr e ↦ rw e (w j (ground (arith, ==_iff j i)))
]

-- A call on an instance that is held.
pub changed-IsManaged :
    (w : World) (i : ℕ) (g : Garlic)
    → IsOwned g
    → IsHeld w i
    → IsManaged w
    → IsManaged (record w { garlic_of = put i g w.garlic_of })
changed-IsManaged w i g o h v = record {
  owned = put-All (λ j g. IsOwned g) i g w.garlic_of o (λ j ne. v.owned j);
  held =
      put-All (λ j g. (g.open_handles ≡ []) ⊎ IsHeld w j) i g w.garlic_of (inr h)
        (λ j ne. v.held j);
  registered = v.registered;
  below = v.below;
  one_name = v.one_name;
  apart = v.apart;
}

-- What stands under a key once an entry is written, and once one is deleted.
found_in_insert :
    (keys k : String) (i j : ℕ) (m : Map String ℕ)
    → lookup k (insert keys i m) ≡ some j
    → ((keys ≡ k) × (i ≡ j)) ⊎ (lookup k m ≡ some j)
found_in_insert keys k i j m e = elim (Bool-cases (string_eq.beq keys k)) [
  | inl t ↦ inl (
    (string_eq.beq_iff keys k).0 t,
    same_some
        (ap (λ b. if b then some i else lookup k m) (sym t) ∙ sym (lookup-insert keys k i m) ∙ e),
  )
  | inr t ↦
      inr (ap (λ b. if b then some i else lookup k m) (sym t) ∙ sym (lookup-insert keys k i m) ∙ e)
]

pub inserted : (keys : String) (i : ℕ) (m : Map String ℕ) → lookup keys (insert keys i m) ≡ some i
inserted keys i m =
    lookup-insert keys keys i m
    ∙ ap (λ b. if b then some i else lookup keys m) ((string_eq.beq_iff keys keys).1 refl)

inserted_other :
    (keys k : String) (i j : ℕ) (m : Map String ℕ)
    → lookup keys m ≡ none
    → lookup k m ≡ some j
    → lookup k (insert keys i m) ≡ some j
inserted_other keys k i j m free e = elim (Bool-cases (string_eq.beq keys k)) [
  | inl t ↦
      absurd
        (some-ne-none (sym e ∙ ap (λ k. lookup k m) (sym ((string_eq.beq_iff keys k).0 t)) ∙ free))
  | inr t ↦ lookup-insert keys k i m ∙ ap (λ b. if b then some i else lookup k m) t ∙ e
]

pub found_in_erase :
    (name k : String) (j : ℕ) (m : Map String ℕ)
    → lookup k (erase name m) ≡ some j
    → (lookup k m ≡ some j) × (name ≢ k)
found_in_erase name k j m e = elim (Bool-cases (string_eq.beq name k)) [
  | inl t ↦
      absurd
        (some-ne-none (sym e ∙ lookup-erase name k m ∙ ap (λ b. if b then none else lookup k m) t))
  | inr t ↦ (
    sym (lookup-erase name k m ∙ ap (λ b. if b then none else lookup k m) t) ∙ e,
    λ q. false-ne-true (sym t ∙ (string_eq.beq_iff name k).1 q),
  )
]

pub kept_by_erase :
    (name k : String) (j : ℕ) (m : Map String ℕ)
    → name ≢ k
    → lookup k m ≡ some j
    → lookup k (erase name m) ≡ some j
kept_by_erase name k j m ne e = elim (Bool-cases (string_eq.beq name k)) [
  | inl t ↦ absurd (ne ((string_eq.beq_iff name k).0 t))
  | inr t ↦ lookup-erase name k m ∙ ap (λ b. if b then none else lookup k m) t ∙ e
]

-- A new instance, which is the only one that becomes held.
added-IsManaged :
    (w : World) (g : Garlic) (m : Map String ℕ) (dialer : Option ℕ)
    → IsOwned g
    → HeldIn m dialer w.made
    → ((j : ℕ) → IsHeld w j → HeldIn m dialer j)
    → ((j : ℕ) → HeldIn m dialer j → IsHeld w j ⊎ (w.made ≡ j))
    → ((k k' : String) (i : ℕ) → lookup k m ≡ some i → lookup k' m ≡ some i → k ≡ k')
    → ((k : String) (i : ℕ) → lookup k m ≡ some i → dialer ≢ some i)
    → IsManaged w
    → IsManaged (record (made_instance g w) { garlics = m; default_dialer = dialer })
added-IsManaged w g m dialer o here rest old names dials v = record {
  owned = put-All (λ j g. IsOwned g) w.made g w.garlic_of o (λ j ne. v.owned j);
  held =
      put-All (λ j g. (g.open_handles ≡ []) ⊎ HeldIn m dialer j) w.made g w.garlic_of (inr here)
        (λ j ne. elim (v.held j) [ inl e ↦ inl e | inr h ↦ inr (rest j h) ]);
  registered = λ j h. elim (old j h) [
    | inl h' ↦
        inr (IsIn-remove w.made j w.instances (lt-ne j w.made (v.below j h')) (v.registered j h'))
    | inr e ↦ inl e
  ];
  below = λ j h. elim (old j h) [ inl h' ↦ lt-suc j w.made (v.below j h') | inr e ↦ omega arith ];
  one_name = names;
  apart = dials;
}

module _ (w : World) (g : Garlic) (o : IsOwned g) (v : IsManaged w) where
  -- No instance has the number of the new one.
  not_held : IsHeld w w.made → ⊥
  not_held h = lt-ne w.made w.made (v.below w.made h) refl

  -- An instance that is put under a new key.
  pub listed-IsManaged :
      (keys : String)
      → lookup keys w.garlics ≡ none
      → IsManaged (record (made_instance g w) { garlics = insert keys w.made w.garlics })
  listed-IsManaged keys free =
      added-IsManaged w g (insert keys w.made w.garlics) w.default_dialer o
        (inl (keys, inserted keys w.made w.garlics))
        (λ j h. elim h [
          | inl (k, e) ↦ inl (k, inserted_other keys k w.made j w.garlics free e)
          | inr e ↦ inr e
        ])
        (λ j h. elim h [
          | inl (k, e) ↦ elim (found_in_insert keys k w.made j w.garlics e) [
            | inl (s, t) ↦ inr t
            | inr f ↦ inl (inl (k, f))
          ]
          | inr e ↦ inl (inr e)
        ])
        (λ k k' i a b. elim (found_in_insert keys k w.made i w.garlics a) [
          | inl (s, t) ↦ elim (found_in_insert keys k' w.made i w.garlics b) [
            | inl (s', t') ↦ sym s ∙ s'
            | inr f' ↦ absurd (not_held (inl (k', f' ∙ ap some (sym t))))
          ]
          | inr f ↦ elim (found_in_insert keys k' w.made i w.garlics b) [
            | inl (s', t') ↦ absurd (not_held (inl (k, f ∙ ap some (sym t'))))
            | inr f' ↦ v.one_name k k' i f f'
          ]
        ])
        (λ k i e d. elim (found_in_insert keys k w.made i w.garlics e) [
          | inl (s, t) ↦ not_held (inr (d ∙ ap some (sym t)))
          | inr f ↦ v.apart k i f d
        ])
        v

  -- An instance that becomes the default dialer.
  pub dialer-IsManaged :
      w.default_dialer ≡ none
      → IsManaged (record (made_instance g w) { default_dialer = some w.made })
  dialer-IsManaged free =
      added-IsManaged w g w.garlics (some w.made) o (inr refl)
        (λ j h. elim h [ inl x ↦ inl x | inr e ↦ absurd (some-ne-none (sym e ∙ free)) ])
        (λ j h. elim h [ inl x ↦ inl (inl x) | inr e ↦ inr (same_some e) ]) v.one_name
        (λ k i e d. not_held (inl (k, e ∙ sym d))) v

-- A closed instance whose entry is deleted.
pub closed-IsManaged :
    (w : World) (i : ℕ) (m : Map String ℕ) (dialer : Option ℕ)
    → ((k : String) (j : ℕ) → lookup k m ≡ some j → (lookup k w.garlics ≡ some j) × (j ≢ i))
    → ((j : ℕ) → dialer ≡ some j → (w.default_dialer ≡ some j) × (j ≢ i))
    → ((j : ℕ) → j ≢ i → IsHeld w j → HeldIn m dialer j)
    → IsManaged w
    → IsManaged (record (close_instance all_close i w) { garlics = m; default_dialer = dialer })
unfolding close_instance
closed-IsManaged w i m dialer names dials rest v =
    let g = (close all_close (w.garlic_of i)).1 in
    let old : (j : ℕ) → HeldIn m dialer j → IsHeld w j × (j ≢ i) = λ j h. elim h [
      | inl (k, e) ↦ (inl (k, (names k j e).0), (names k j e).1)
      | inr e ↦ (inr (dials j e).0, (dials j e).1)
    ] in
    record {
      owned =
          put-All (λ j g. IsOwned g) i g w.garlic_of (close-IsOwned (w.garlic_of i) (v.owned i))
            (λ j ne. v.owned j);
      held =
          put-All (λ j g. (g.open_handles ≡ []) ⊎ HeldIn m dialer j) i g w.garlic_of
            (inl (close-nil (w.garlic_of i) (v.owned i)))
            (λ j ne. elim (v.held j) [ inl e ↦ inl e | inr h ↦ inr (rest j ne h) ]);
      registered = λ j h. IsIn-remove i j w.instances (old j h).1 (v.registered j (old j h).0);
      below = λ j h. v.below j (old j h).0;
      one_name = λ k k' j a b. v.one_name k k' j (names k j a).0 (names k' j b).0;
      apart = λ k j a b. v.apart k j (names k j a).0 (dials j b).0;
    }

-- ===== src/Garlic/Managed/Closing.antt =====
-- What `CloseAllGarlic` of garlic.go and `cleanupAll` of cleanup.go close, after any calls of the package.
use onramp.Prelude.{
  ℕ, ◌≡◌, ◌≢◌, refl, sym, ◌∙◌, Bool-cases, ◌⊎◌, inl, inr, Option-cases, none, some, String, List,
  [], ◌∷◌, if◌then◌else◌, string_eq,
}
use mathlib.Core.Path.{ap}
use onramp.Prelude.Map.{Map, lookup}
use onramp.Garlic.Sessions.Owned.{IsOwned}
use onramp.Garlic.Closing.{close}
use onramp.Garlic.Closing.Laws.{all_close, close-nil, close-IsOwned}
use onramp.Garlic.Managed.{
  World, close_instance, close_entries, close_dialer, close_all_garlic, close_instances,
  run_cleanup_hooks,
}
use onramp.Garlic.Managed.Invariant.{IsIn, IsHeld, IsManaged, put-All, same_some, some-ne-none}
use onramp.Garlic.Managed.Laws.{close_dialer-IsManaged}

-- What is open belongs to an instance that is still to be closed.
pub record Rest (P : ℕ → Type 0) (w : World) : Type 0 where
  pub owned : (i : ℕ) → IsOwned (w.garlic_of i)
  pub to_close : (i : ℕ) → ((w.garlic_of i).open_handles ≡ []) ⊎ P i

close_instance-Rest :
    (P Q : ℕ → Type 0) (i : ℕ) (w : World)
    → ((j : ℕ) → j ≢ i → P j → Q j)
    → Rest P w
    → Rest Q (close_instance all_close i w)
unfolding close_instance
close_instance-Rest P Q i w less v =
    let g = (close all_close (w.garlic_of i)).1 in
    record {
      owned =
          put-All (λ j g. IsOwned g) i g w.garlic_of (close-IsOwned (w.garlic_of i) (v.owned i))
            (λ j ne. v.owned j);
      to_close =
          put-All (λ j g. (g.open_handles ≡ []) ⊎ Q j) i g w.garlic_of
            (inl (close-nil (w.garlic_of i) (v.owned i)))
            (λ j ne. elim (v.to_close j) [ inl e ↦ inl e | inr p ↦ inr (less j ne p) ]);
    }

-- Under some key.
abbrev Entered : Map String ℕ → ℕ → Type 0
Entered m j = (k : String) × (lookup k m ≡ some j)

still_listed :
    (name : String) (i j : ℕ) (m : Map String ℕ) → j ≢ i → Entered ((name, i) ∷ m) j → Entered m j
still_listed name i j m ne (k, e) = elim (Bool-cases (string_eq.beq name k)) [
  | inl t ↦ absurd (ne (same_some (sym e ∙ ap (λ b. if b then some i else lookup k m) t)))
  | inr t ↦ (k, sym (ap (λ b. if b then some i else lookup k m) t) ∙ e)
]

close_entries-Rest :
    (m : Map String ℕ) (w : World)
    → Rest (Entered m) w
    → Rest (λ j. ⊥) (close_entries all_close m w)
unfolding close_entries
close_entries-Rest [] w v = record {
  owned = v.owned;
  to_close =
      λ j. elim (v.to_close j) [ inl e ↦ inl e | inr (k, e) ↦ absurd (some-ne-none (sym e)) ];
}
close_entries-Rest ((name, i) ∷ m) w v = close_entries-Rest m (close_instance all_close i w) (
    close_instance-Rest (Entered ((name, i) ∷ m)) (Entered m) i w
      (λ j ne. still_listed name i j m ne) v)

pub close_entries-dialer :
    (m : Map String ℕ) (w : World) → (close_entries all_close m w).default_dialer ≡ w.default_dialer
unfolding close_entries close_instance
close_entries-dialer [] w = refl
close_entries-dialer ((name, i) ∷ m) w = close_entries-dialer m (close_instance all_close i w)

pub close_instances-Rest :
    (is : List ℕ) (w : World)
    → Rest (λ j. IsIn j is) w
    → Rest (λ j. ⊥) (close_instances all_close is w)
unfolding close_instances
close_instances-Rest [] w v = v
close_instances-Rest (i ∷ is) w v = close_instances-Rest is (close_instance all_close i w) (
    close_instance-Rest (λ j. IsIn j (i ∷ is)) (λ j. IsIn j is) i w
      (λ j ne p. elim p [ inl e ↦ absurd (ne (sym e)) | inr q ↦ q ]) v)

pub close_dialer-none : (w : World) → (close_dialer all_close w).default_dialer ≡ none
unfolding close_dialer
close_dialer-none w = elim (Option-cases w.default_dialer) [
  | inl e ↦ rw (e, close_dialer) e
  | inr (i, e) ↦ rw (e, close_dialer) refl
]

-- Nothing is open in any instance.
abbrev pub AllClosed : World → Type 0
AllClosed w = (i : ℕ) → (w.garlic_of i).open_handles ≡ []

pub Rest-AllClosed : (w : World) → Rest (λ j. ⊥) w → AllClosed w
Rest-AllClosed w v i = elim (v.to_close i) [ inl e ↦ e | inr b ↦ absurd b ]

pub close_all-Rest : (w : World) → IsManaged w → Rest (λ j. ⊥) (close_all_garlic all_close w)
unfolding close_all_garlic
close_all-Rest w v =
    let u = run_cleanup_hooks (close_dialer all_close w) in
    let m = close_dialer-IsManaged w v in
    let closed = close_entries-Rest u.garlics u (record {
      owned = m.owned;
      to_close = λ j. elim (m.held j) [
        | inl e ↦ inl e
        | inr (inl h) ↦ inr h
        | inr (inr d) ↦ absurd (some-ne-none (sym d ∙ close_dialer-none w))
      ];
    }) in
    record { owned = closed.owned; to_close = closed.to_close }

pub close_all_garlic-IsManaged :
    (w : World) → IsManaged w → IsManaged (close_all_garlic all_close w)
unfolding close_all_garlic
close_all_garlic-IsManaged w v =
    let u = run_cleanup_hooks (close_dialer all_close w) in
    let closed = close_all-Rest w v in
    let no_dialer = close_entries-dialer u.garlics u ∙ close_dialer-none w in
    let no_entry : (i : ℕ) → IsHeld (close_all_garlic all_close w) i → ⊥ = λ i h. elim h [
      | inl (k, e) ↦ some-ne-none (sym e)
      | inr d ↦ some-ne-none (sym d ∙ no_dialer)
    ] in
    record {
      owned = closed.owned;
      held = λ i. inl (Rest-AllClosed (close_all_garlic all_close w) closed i);
      registered = λ i h. absurd (no_entry i h);
      below = λ i h. absurd (no_entry i h);
      one_name = λ k k' i a b. absurd (some-ne-none (sym a));
      apart = λ k i a. absurd (some-ne-none (sym a));
    }

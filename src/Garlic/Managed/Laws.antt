-- ===== src/Garlic/Managed/Laws.antt =====
-- What the package-level calls of garlic.go, and the cleanup of cleanup.go, leave open.
use onramp.Prelude.{
  ℕ, ◌≡◌, refl, sym, ◌∙◌, ◌⊎◌, inl, inr, Option, Option-cases, none, some, String, [], string_eq,
}
use mathlib.Core.Path.{ap, subst}
use onramp.Prelude.Int.{ℤ}
use onramp.Prelude.Map.{lookup, insert, erase}
use onramp.Garlic.{Garlic, Error, Outside, M}
use onramp.Garlic.Ports.{Bytes}
use onramp.Garlic.Sessions.Owned.{IsOwned}
use onramp.Garlic.Calls.{old_listen, dial_context}
use onramp.Garlic.Calls.Laws.{IsRandom, old_listen-Keeps, dial_context-Keeps}
use onramp.Garlic.Closing.{Bridge, new_garlic}
use onramp.Garlic.Closing.Laws.{all_close}
use onramp.Garlic.Closing.Construction.{Constructed, new_garlic-Constructed}
use onramp.Garlic.Managed.{
  World, made_instance, close_instance, on_instance, new_instance, listen_new, listen_garlic,
  dial_new, dial_garlic, close_garlic, close_dialer,
}
use onramp.Garlic.Managed.Invariant.{
  IsHeld, IsManaged, changed-IsManaged, listed-IsManaged, dialer-IsManaged, closed-IsManaged,
  found_in_erase, kept_by_erase, inserted, same_some, some-ne-none,
}

-- What `NewGarlic` leaves: the variables as they were, or one more instance.
abbrev New : World → (Error ⊎ ℕ) × World → Type 0
New w (inl e, w') = w' ≡ w
New w (inr i, w') = (i ≡ w.made) × ((g : Garlic) × IsOwned g × (w' ≡ made_instance g w))

new_instance-New : (out : Outside) (b : Bridge) (w : World) → New w (new_instance out b w)
unfolding new_instance
new_instance-New out b w = go (new_garlic out b) (new_garlic-Constructed out b)
  where
    go :
        (x : (Error ⊎ ℕ) × Garlic)
        → Constructed x
        → New w (elim x.0 as (λ _. (Error ⊎ ℕ) × World) [
          | inl e ↦ (inl e, w)
          | inr n ↦ (inr w.made, made_instance x.1 w)
        ])
    go (inl e, g) v = refl
    go (inr n, g) v = (refl, (g, v.0, refl))

-- A call on an instance that is held.
on_instance-IsManaged :
    {A : Type 0} (i : ℕ) (m : M A) (w : World)
    → ((g : Garlic) → IsOwned g → IsOwned (m g).1)
    → IsHeld w i
    → IsManaged w
    → IsManaged (on_instance i m w).1
on_instance-IsManaged i m w keeps h v =
    changed-IsManaged w i (m (w.garlic_of i)).1 (keeps (w.garlic_of i) (v.owned i)) h v

pub listen_garlic-IsManaged :
    (out : Outside) (b : Bridge) (keys : String) (w : World)
    → IsManaged w
    → IsManaged (listen_garlic out b keys w).1
unfolding listen_garlic
listen_garlic-IsManaged out b keys w v = elim (Option-cases (lookup keys w.garlics)) [
  | inr (i, e) ↦
      rw (e, listen_garlic)
        (on_instance-IsManaged i (old_listen out []) w (λ g o. old_listen-Keeps out [] g o)
          (inl (keys, e)) v)
  | inl e ↦ rw (e, listen_garlic) (go (new_instance out b w) (new_instance-New out b w) e)
]
  where
    go :
        (x : (Error ⊎ ℕ) × World)
        → New w x
        → lookup keys w.garlics ≡ none
        → IsManaged (listen_new out keys x).1
    go (inl e, w') n free = subst IsManaged (sym n) v
    go (inr i, w') (e, (g, o, e')) free =
        subst (λ j. IsManaged (listen_new out keys (inr j, w')).1) (sym e)
          (subst (λ u. IsManaged (listen_new out keys (inr w.made, u)).1) (sym e')
            (on_instance-IsManaged w.made (old_listen out [])
              (record (made_instance g w) { garlics = insert keys w.made w.garlics })
              (λ g o. old_listen-Keeps out [] g o) (inl (keys, inserted keys w.made w.garlics))
              (listed-IsManaged w g o v keys free)))

pub dial_garlic-IsManaged :
    (lookup_port : Bytes → Option ℤ) (out : Outside) (b : Bridge) (addr : Bytes) (w : World)
    → IsRandom out.random
    → IsManaged w
    → IsManaged (dial_garlic lookup_port out b addr w).1
unfolding dial_garlic
dial_garlic-IsManaged lookup_port out b addr w r v = elim (Option-cases w.default_dialer) [
  | inr (i, e) ↦
      rw (e, dial_garlic)
        (on_instance-IsManaged i (dial_context lookup_port out addr) w
          (λ g o. dial_context-Keeps lookup_port out addr r g o) (inr e) v)
  | inl e ↦ rw (e, dial_garlic) (go (new_instance out b w) (new_instance-New out b w) e)
]
  where
    go :
        (x : (Error ⊎ ℕ) × World)
        → New w x
        → w.default_dialer ≡ none
        → IsManaged (dial_new lookup_port out addr x).1
    go (inl e, w') n free = subst IsManaged (sym n) v
    go (inr i, w') (e, (g, o, e')) free =
        subst (λ j. IsManaged (dial_new lookup_port out addr (inr j, w')).1) (sym e)
          (subst (λ u. IsManaged (dial_new lookup_port out addr (inr w.made, u)).1) (sym e')
            (on_instance-IsManaged w.made (dial_context lookup_port out addr)
              (record (made_instance g w) { default_dialer = some w.made })
              (λ g o. dial_context-Keeps lookup_port out addr r g o) (inr refl)
              (dialer-IsManaged w g o v free)))

pub close_garlic-IsManaged :
    (name : String) (w : World) → IsManaged w → IsManaged (close_garlic all_close name w)
unfolding close_garlic close_instance
close_garlic-IsManaged name w v = elim (Option-cases (lookup name w.garlics)) [
  | inl e ↦ rw (e, close_garlic) v
  | inr (i, e) ↦
      rw (e, close_garlic)
        (closed-IsManaged w i (erase name w.garlics) w.default_dialer
          (λ k j f.
            let (found, ne) = found_in_erase name k j w.garlics f in
            (found, λ q. ne (v.one_name name k j (e ∙ ap some (sym q)) found)))
          (λ j d. (d, λ q. v.apart name i e (d ∙ ap some q)))
          (λ j ne h. elim h [
            | inl (k, f) ↦ inl (
              k,
              kept_by_erase name k j w.garlics
                  (λ q. ne (same_some (sym f ∙ ap (λ k. lookup k w.garlics) (sym q) ∙ e))) f,
            )
            | inr d ↦ inr d
          ])
          v)
]

pub close_dialer-IsManaged : (w : World) → IsManaged w → IsManaged (close_dialer all_close w)
unfolding close_dialer close_instance
close_dialer-IsManaged w v = elim (Option-cases w.default_dialer) [
  | inl e ↦ rw (e, close_dialer) v
  | inr (i, e) ↦
      rw (e, close_dialer)
        (closed-IsManaged w i w.garlics none
          (λ k j f. (f, λ q. v.apart k j f (e ∙ ap some (sym q))))
          (λ j d. absurd (some-ne-none (sym d)))
          (λ j ne h. elim h [ inl x ↦ inl x | inr d ↦ absurd (ne (same_some (sym d ∙ e))) ]) v)
]

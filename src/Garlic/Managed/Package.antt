-- ===== src/Garlic/Managed/Package.antt =====
-- Any sequence of the package-level calls of garlic.go and `RegisterCleanupHook` of cleanup.go, and what
-- ends it. A hook does nothing to the instances.
use onramp.Prelude.{ℕ, ◌≡◌, refl, sym, false, inl, inr, Option, none, List, [], ◌∷◌, ◌++◌, All, ◌∙◌}
use onramp.Prelude.Int.{ℤ}
use onramp.Garlic.Ports.{Bytes}
use onramp.Garlic.Calls.Laws.{IsRandom}
use onramp.Garlic.Closing.Laws.{all_close}
use onramp.Garlic.Closing.Construction.{empty-IsOwned}
use onramp.Garlic.Managed.{
  World, close_dialer, close_all_garlic, close_instances, cleanup_all, run_cleanup_hooks,
  PackageCall, listens_garlic, dials_garlic, closes_garlic, closes_all_garlic, registers_hook,
  package_step, package_run, started,
}
use onramp.Garlic.Managed.Invariant.{IsHeld, IsManaged, some-ne-none}
use onramp.Garlic.Managed.Laws.{
  listen_garlic-IsManaged, dial_garlic-IsManaged, close_garlic-IsManaged,
}
use onramp.Garlic.Managed.Closing.{
  AllClosed, Rest-AllClosed, close_instances-Rest, close_dialer-none, close_entries-dialer,
  close_all-Rest, close_all_garlic-IsManaged,
}

-- Random numbers lie in their range, and what is closed closes wholly.
abbrev pub IsFairCall : PackageCall → Type 0
IsFairCall (dials_garlic out b addr) = IsRandom out.random
IsFairCall (closes_garlic c name) = c ≡ all_close
IsFairCall (closes_all_garlic c) = c ≡ all_close
IsFairCall c = Unit {0}

pub started-IsManaged : IsManaged started
started-IsManaged = record {
  owned = λ i. empty-IsOwned false;
  held = λ i. inl refl;
  registered = λ i h. absurd (none_held i h);
  below = λ i h. absurd (none_held i h);
  one_name = λ k k' i a b. absurd (some-ne-none (sym a));
  apart = λ k i a. absurd (some-ne-none (sym a));
}
  where
    none_held : (i : ℕ) → IsHeld started i → ⊥
    none_held i (inl (k, e)) = some-ne-none (sym e)
    none_held i (inr e) = some-ne-none (sym e)

-- The hooks are no part of what the invariant says.
hooked-IsManaged :
    (hooks : List ℕ) (w : World) → IsManaged w → IsManaged (record w { cleanup_hooks = hooks })
hooked-IsManaged hooks w v = record {
  owned = v.owned;
  held = v.held;
  registered = v.registered;
  below = v.below;
  one_name = v.one_name;
  apart = v.apart;
}

package_step-IsManaged :
    (lookup_port : Bytes → Option ℤ) (w : World) (c : PackageCall)
    → IsFairCall c
    → IsManaged w
    → IsManaged (package_step lookup_port w c)
unfolding package_step
package_step-IsManaged lookup_port w (listens_garlic out b keys) f v =
    listen_garlic-IsManaged out b keys w v
package_step-IsManaged lookup_port w (dials_garlic out b addr) f v =
    dial_garlic-IsManaged lookup_port out b addr w f v
package_step-IsManaged lookup_port w (closes_garlic c name) f v =
    rw f (close_garlic-IsManaged name w v)
package_step-IsManaged lookup_port w (closes_all_garlic c) f v =
    rw f (close_all_garlic-IsManaged w v)
package_step-IsManaged lookup_port w (registers_hook hook) f v =
    hooked-IsManaged (w.cleanup_hooks ++ hook ∷ []) w v

package_run-IsManaged :
    (lookup_port : Bytes → Option ℤ) (w : World) (cs : List PackageCall)
    → All IsFairCall cs
    → IsManaged w
    → IsManaged (package_run lookup_port w cs)
unfolding package_run
package_run-IsManaged lookup_port w [] f v = v
package_run-IsManaged lookup_port w (c ∷ cs) f v =
    package_run-IsManaged lookup_port (package_step lookup_port w c) cs f.1
      (package_step-IsManaged lookup_port w c f.0 v)

pub cleanup_all-AllClosed : (w : World) → IsManaged w → AllClosed (cleanup_all all_close w)
unfolding cleanup_all
cleanup_all-AllClosed w v =
    let u = run_cleanup_hooks w in
    Rest-AllClosed (close_instances all_close u.instances u) (
      close_instances-Rest u.instances u (record {
        owned = v.owned;
        to_close = λ i. elim (v.held i) [ inl e ↦ inl e | inr h ↦ inr (v.registered i h) ];
      }))

-- After any sequence of the package-level calls that listen, dial, close and register hooks, in
-- which random numbers lie in their range and each close closes wholly, and whatever the library
-- answered: what is open belongs to an instance that is in the map or is the default dialer, and
-- those are distinct and registered for cleanup; a `CloseAllGarlic` that closes wholly leaves
-- nothing open in any instance, no entry and no default dialer; and a `cleanupAll` that does
-- leaves nothing open either.
pub package_run-closes :
    (lookup_port : Bytes → Option ℤ) (cs : List PackageCall)
    → All IsFairCall cs
    → let w = package_run lookup_port started cs in
      IsManaged w
      × AllClosed (close_all_garlic all_close w)
      × ((close_all_garlic all_close w).garlics ≡ [])
      × ((close_all_garlic all_close w).default_dialer ≡ none)
      × AllClosed (cleanup_all all_close w)
unfolding close_all_garlic
package_run-closes lookup_port cs f =
    let w = package_run lookup_port started cs in
    let v = package_run-IsManaged lookup_port started cs f started-IsManaged in
    let u = run_cleanup_hooks (close_dialer all_close w) in
    (
      v,
      Rest-AllClosed (close_all_garlic all_close w) (close_all-Rest w v),
      refl,
      close_entries-dialer u.garlics u ∙ close_dialer-none w,
      cleanup_all-AllClosed w v,
    )

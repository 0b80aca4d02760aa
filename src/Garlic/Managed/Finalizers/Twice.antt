-- ===== src/Garlic/Managed/Finalizers/Twice.antt =====
-- `EnableAutoCleanup` of cleanup.go after the constructor, which both set a finalizer.
use onramp.Prelude.{ℕ, ◌≡◌, ◌≢◌, refl, ◌⊎◌, inl, inr, none, some, List, [], ◌∷◌, true, false, arith}
use onramp.Garlic.{Error, Outside}
use onramp.Garlic.Closing.{Bridge}
use onramp.Garlic.Managed.{World, remove, new_instance}
use onramp.Garlic.Managed.Finalizers.{
  Heap, has_finalizer, setup_finalizer, enable_auto_cleanup, disable_auto_cleanup, new_in,
}
use onramp.Garlic.Managed.Finalizers.Laws.{Finished, finished-Finished}

has_finalizer-remove : (i : ℕ) (js : List ℕ) → has_finalizer i (remove i js) ≡ false
unfolding has_finalizer remove
has_finalizer-remove i [] = refl
has_finalizer-remove i (j ∷ js) = ground (arith, has_finalizer-remove i js)

setup_finalizer-sets :
    (i : ℕ) (h h' : Heap) → setup_finalizer i h ≡ some h' → h'.finalizers ≡ i ∷ h.finalizers
unfolding setup_finalizer
setup_finalizer-sets i h h' e = ground (arith, e)

new_in-sets :
    (out : Outside) (b : Bridge) (h h' : Heap) (i : ℕ)
    → new_in out b h ≡ some (inr i, h')
    → has_finalizer i h'.finalizers ≡ true
unfolding new_in has_finalizer
new_in-sets out b h h' i e =
    let x = new_instance out b h.world in
    let (r, f) = finished-Finished h h' x (inr i) e in go x r f
  where
    go :
        (x : (Error ⊎ ℕ) × World)
        → x.0 ≡ inr i
        → Finished h x.1 x.0 h'
        → has_finalizer i h'.finalizers ≡ true
    go (inl e, w) r q = absurd (ground (arith, r))
    go (inr j, w) r (h'', n, q) =
        let sets = setup_finalizer-sets j (record h { world = w }) h'' n in
        let same : j ≡ i = ground (arith, r) in rw (q, sets, same) (ground arith)

-- Where `NewGarlic` has given an instance, `EnableAutoCleanup` on that instance, at once, ends the program:
-- the constructor has set the finalizer. After `DisableAutoCleanup` it does not.
pub enable_after_new :
    (out : Outside) (b : Bridge) (h h' : Heap) (i : ℕ)
    → new_in out b h ≡ some (inr i, h')
    → (enable_auto_cleanup (some i) h' ≡ none)
      × (enable_auto_cleanup (some i) (disable_auto_cleanup (some i) h') ≢ none)
unfolding enable_auto_cleanup disable_auto_cleanup setup_finalizer
enable_after_new out b h h' i e = (
  ground (arith, new_in-sets out b h h' i e),
  λ n. ground (arith, n, has_finalizer-remove i h'.finalizers),
)

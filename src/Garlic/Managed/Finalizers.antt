-- ===== src/Garlic/Managed/Finalizers.antt =====
-- The finalizers of cleanup.go: `setupFinalizer`, `EnableAutoCleanup` and `DisableAutoCleanup`. Go's
-- collector runs the finalizer of an instance only where nothing refers to it: the registry, the map
-- `garlics`, the default dialer and the application, whose references are a list.
pub mod Laws
pub mod Twice
mod Tests
use onramp.Prelude.{
  ℕ, ◌==◌, Bool, true, false, ◌||◌, ◌⊎◌, inl, inr, ◌≡◌, Option, none, some, String, List, [], ◌∷◌,
  if◌then◌else◌,
}
use onramp.Prelude.Map.{Map}
use onramp.Garlic.{Garlic, Error, Outside, M}
use onramp.Garlic.Ports.{Bytes}
use onramp.Garlic.Closing.{Closes, Bridge}
use onramp.Garlic.Managed.Invariant.{IsIn, IsHeld}
use onramp.Garlic.Managed.{
  World, remove, register, unregister, close_instance, new_instance, on_instance,
}

-- The package's variables, the instances that have a finalizer, and those that the application holds;
-- `closed` are the instances on which `Close` has been called, the latest first.
pub record Heap : Type 0 where
  pub world : World
  pub finalizers : List ℕ
  pub held : List ℕ
  pub closed : List ℕ

-- What refers to an instance.
abbrev pub IsReferenced : ℕ → Heap → Type 0
IsReferenced i h = IsIn i h.world.instances ⊎ (IsHeld h.world i ⊎ IsIn i h.held)

-- Whether an instance is in a list.
unfoldable pub has_finalizer : ℕ → List ℕ → Bool
has_finalizer i [] = false
has_finalizer i (j ∷ js) = i == j || has_finalizer i js

-- `setupFinalizer`, or the end of the program: `runtime.SetFinalizer` throws where the instance has a
-- finalizer already.
unfoldable pub setup_finalizer : ℕ → Heap → Option Heap
unfolding has_finalizer
setup_finalizer i h =
    if has_finalizer i h.finalizers then none else some (record h { finalizers = i ∷ h.finalizers })

-- `EnableAutoCleanup`, or the end of the program; the argument `none` is nil.
unfoldable pub enable_auto_cleanup : Option ℕ → Heap → Option Heap
unfolding remove setup_finalizer
enable_auto_cleanup none h = some h
enable_auto_cleanup (some i) h = setup_finalizer i (record h { world = register i h.world })

-- `DisableAutoCleanup`
unfoldable pub disable_auto_cleanup : Option ℕ → Heap → Heap
unfolding remove
disable_auto_cleanup none h = h
disable_auto_cleanup (some i) h = record h {
  world = unregister i h.world;
  finalizers = remove i h.finalizers;
}

-- `Close`
unfoldable pub close_in : Closes → ℕ → Heap → Heap
unfolding close_instance
close_in c i h = record h { world = close_instance c i h.world; closed = i ∷ h.closed }

abbrev pub is_some : Option ℕ → Bool
is_some none = false
is_some (some n) = true

-- The test of the finalizer.
abbrev pub has_sessions : Garlic → Bool
has_sessions g = is_some g.primary || is_some g.sam || is_some g.stream_sub || is_some g.hybrid2_sub

-- The finalizer, which Go clears when it runs.
unfoldable pub finalize : Closes → ℕ → Heap → Heap
unfolding close_in remove
finalize c i h =
    let h' = record h { finalizers = remove i h.finalizers } in
    let closed = if has_sessions (h'.world.garlic_of i) then close_in c i h' else h' in
    record closed { world = unregister i closed.world }

-- `NewGarlic`, whose instance the application holds, or the end of the program; the registration is that of
-- the constructor.
unfoldable pub new_in : Outside → Bridge → Heap → Option ((Error ⊎ ℕ) × Heap)
unfolding new_instance remove setup_finalizer
new_in out b h =
    let (r, w) = new_instance out b h.world in
    elim r [
      | inl e ↦ some (inl e, record h { world = w })
      | inr i ↦ elim (setup_finalizer i (record h { world = w })) [
        | none ↦ none
        | some h' ↦ some (inr i, record h' { held = i ∷ h.held })
      ]
    ]
